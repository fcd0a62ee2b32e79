-- ===== src/Redaction/Secrecy.antt =====
-- What a redacted value tells about the secrets of the value it was made from: nothing but
-- whether they are configured, and the shape of the containers that hold them.
use bunkerweb_mcp.Prelude.{String, ◌≡◌, ◌≢◌, refl, ap, Bool, true, false, eq_iff, arith}
use bunkerweb_mcp.Json.{
  ℤ, Value, bool, int, float, str, arr, obj, Items, nil, cons, Fields, end, field,
}
use bunkerweb_mcp.Redaction.{
  RedactionPolicy, redacted, is_sensitive_key, is_value_field, has_value_field, redact,
  redact_items, redact_fields, mask, mask_items, mask_setting, mask_fields,
}

-- A scalar that configures a secret: neither None nor an empty text, and no container.
pub data IsFilled : Value → Type 0 where
  a_bool : (b : Bool) → IsFilled (bool b)
  an_int : (n : ℤ) → IsFilled (int n)
  a_float : (s : String) → IsFilled (float s)
  a_text : (s : String) → s ≢ "" → IsFilled (str s)

-- `Agree p v w`: the two values are the same but for the secrets. `Hidden p v w`: they stand under
-- a sensitive key, and are the same but for which scalar configures each secret.
mutual
  pub data Agree (p : RedactionPolicy) : Value → Value → Type 0 where
    same : (v : Value) → Agree p v v
    in_list : {vs ws : Items} → AgreeItems p vs ws → Agree p (arr vs) (arr ws)
    in_dict : {fs gs : Fields} → AgreeFields p fs gs → Agree p (obj fs) (obj gs)

  pub data AgreeItems (p : RedactionPolicy) : Items → Items → Type 0 where
    no_items : AgreeItems p nil nil
    an_item :
        {v w : Value} {vs ws : Items}
        → Agree p v w
        → AgreeItems p vs ws
        → AgreeItems p (cons v vs) (cons w ws)

  pub data AgreeFields (p : RedactionPolicy) : Fields → Fields → Type 0 where
    no_fields : AgreeFields p end end
    secret_field :
        {k : String} {v w : Value} {fs gs : Fields}
        → is_sensitive_key p k ≡ true
        → Hidden p v w
        → AgreeFields p fs gs
        → AgreeFields p (field k v fs) (field k w gs)
    public_field :
        {k : String} {v w : Value} {fs gs : Fields}
        → is_sensitive_key p k ≡ false
        → Agree p v w
        → AgreeFields p fs gs
        → AgreeFields p (field k v fs) (field k w gs)

  pub data Hidden (p : RedactionPolicy) : Value → Value → Type 0 where
    same_secret : (v : Value) → Hidden p v v
    other_secret : {v w : Value} → IsFilled v → IsFilled w → Hidden p v w
    secret_list : {vs ws : Items} → HiddenItems p vs ws → Hidden p (arr vs) (arr ws)
    -- a setting with its metadata: only `value` and `default` are secret
    secret_setting :
        {fs gs : Fields}
        → has_value_field fs ≡ true
        → has_value_field gs ≡ true
        → HiddenSetting p fs gs
        → Hidden p (obj fs) (obj gs)
    secret_dict :
        {fs gs : Fields}
        → has_value_field fs ≡ false
        → has_value_field gs ≡ false
        → HiddenFields p fs gs
        → Hidden p (obj fs) (obj gs)

  pub data HiddenItems (p : RedactionPolicy) : Items → Items → Type 0 where
    no_secrets : HiddenItems p nil nil
    a_secret :
        {v w : Value} {vs ws : Items}
        → Hidden p v w
        → HiddenItems p vs ws
        → HiddenItems p (cons v vs) (cons w ws)

  pub data HiddenSetting (p : RedactionPolicy) : Fields → Fields → Type 0 where
    no_parts : HiddenSetting p end end
    value_part :
        {k : String} {v w : Value} {fs gs : Fields}
        → is_value_field k ≡ true
        → Hidden p v w
        → HiddenSetting p fs gs
        → HiddenSetting p (field k v fs) (field k w gs)
    metadata_part :
        {k : String} {v w : Value} {fs gs : Fields}
        → is_value_field k ≡ false
        → Agree p v w
        → HiddenSetting p fs gs
        → HiddenSetting p (field k v fs) (field k w gs)

  pub data HiddenFields (p : RedactionPolicy) : Fields → Fields → Type 0 where
    no_entries : HiddenFields p end end
    an_entry :
        {k : String} {v w : Value} {fs gs : Fields}
        → Hidden p v w
        → HiddenFields p fs gs
        → HiddenFields p (field k v fs) (field k w gs)

mask_of_IsFilled : (p : RedactionPolicy) {v : Value} → IsFilled v → mask p v ≡ str redacted
unfolding mask
mask_of_IsFilled p (a_bool b) = refl
mask_of_IsFilled p (an_int n) = refl
mask_of_IsFilled p (a_float s) = refl
mask_of_IsFilled p (a_text s h) = ground (arith, eq_iff s "")

mutual
  unfolding redact

  redact-Agree : {p : RedactionPolicy} {v w : Value} → Agree p v w → redact p v ≡ redact p w
  redact-Agree (same v) = refl
  redact-Agree (in_list h) = ap arr (items_agree h)
  redact-Agree (in_dict h) = ap obj (fields_agree h)

  items_agree :
      {p : RedactionPolicy} {vs ws : Items}
      → AgreeItems p vs ws
      → redact_items p vs ≡ redact_items p ws
  items_agree no_items = refl
  items_agree (an_item h hs) = cc (redact-Agree h, items_agree hs)

  fields_agree :
      {p : RedactionPolicy} {fs gs : Fields}
      → AgreeFields p fs gs
      → redact_fields p fs ≡ redact_fields p gs
  fields_agree no_fields = refl
  fields_agree (secret_field e h hs) = rw e (cc (mask-Hidden h, fields_agree hs))
  fields_agree (public_field e h hs) = rw e (cc (redact-Agree h, fields_agree hs))

  mask-Hidden : {p : RedactionPolicy} {v w : Value} → Hidden p v w → mask p v ≡ mask p w
  mask-Hidden (same_secret v) = refl
  mask-Hidden {p} (other_secret a b) = cc (mask_of_IsFilled p a, mask_of_IsFilled p b)
  mask-Hidden (secret_list h) = ap arr (items_hidden h)
  mask-Hidden (secret_setting e f h) = rw (e, f) (ap obj (setting_hidden h))
  mask-Hidden (secret_dict e f h) = rw (e, f) (ap obj (fields_hidden h))

  items_hidden :
      {p : RedactionPolicy} {vs ws : Items}
      → HiddenItems p vs ws
      → mask_items p vs ≡ mask_items p ws
  items_hidden no_secrets = refl
  items_hidden (a_secret h hs) = cc (mask-Hidden h, items_hidden hs)

  setting_hidden :
      {p : RedactionPolicy} {fs gs : Fields}
      → HiddenSetting p fs gs
      → mask_setting p fs ≡ mask_setting p gs
  setting_hidden no_parts = refl
  setting_hidden (value_part e h hs) = rw e (cc (mask-Hidden h, setting_hidden hs))
  setting_hidden (metadata_part e h hs) = rw e (cc (redact-Agree h, setting_hidden hs))

  fields_hidden :
      {p : RedactionPolicy} {fs gs : Fields}
      → HiddenFields p fs gs
      → mask_fields p fs ≡ mask_fields p gs
  fields_hidden no_entries = refl
  fields_hidden (an_entry h hs) = cc (mask-Hidden h, fields_hidden hs)

-- Two values that agree but for their secrets have one redacted form: for every policy, what
-- `redact` returns does not depend on which scalar configures a sensitive setting.
pub redact_noninterference :
    (p : RedactionPolicy) (v w : Value) → Agree p v w → redact p v ≡ redact p w
redact_noninterference p v w h = redact-Agree h
