-- ===== src/Redaction/Cache.antt =====
-- `redact_cache_entries` of src/bunkerweb_mcp/redaction.py, and what it hides.
use bunkerweb_mcp.Prelude.{
  String, ◌≡◌, refl, ap, Bool, true, false, not, ◌&&◌, Option, none, some, ◌==◌, if◌then◌else◌,
}
use bunkerweb_mcp.Json.{Value, null, str, arr, obj, Items, nil, cons, Fields, end, field, get}
use bunkerweb_mcp.Redaction.{RedactionPolicy, redacted}
use bunkerweb_mcp.Redaction.Pattern.{is_sensitive_cache_file}

-- x if isinstance(x, str) else None
abbrev pub text_or_none : Option Value → Option String
text_or_none (some (str s)) = some s
text_or_none _ = none

abbrev or_else : Option Value → Option Value → Option Value
or_else none other = other
or_else (some v) other = some v

-- The test on one entry: its plugin, or else its plugin id, and its file name.
unfoldable pub is_sensitive_entry : RedactionPolicy → Fields → Bool
unfolding get
is_sensitive_entry p fs =
    is_sensitive_cache_file p (text_or_none (or_else (get "plugin" fs) (get "plugin_id" fs)))
      (text_or_none (get "file_name" fs))

-- value not in (None, "")
unfoldable pub is_configured : Value → Bool
is_configured null = false
is_configured (str s) = not (s == "")
is_configured v = true

unfoldable mutual
  pub redact_cache_entries : RedactionPolicy → Value → Value
  redact_cache_entries p (arr vs) = arr (redact_cache_items p vs)
  redact_cache_entries p (obj fs) = obj (redact_cache_fields p (is_sensitive_entry p fs) fs)
  redact_cache_entries p v = v

  pub redact_cache_items : RedactionPolicy → Items → Items
  redact_cache_items p nil = nil
  redact_cache_items p (cons v vs) = cons (redact_cache_entries p v) (redact_cache_items p vs)

  -- Both comprehensions over a dict's items: the Boolean says that the entry is sensitive.
  pub redact_cache_fields : RedactionPolicy → Bool → Fields → Fields
  redact_cache_fields p sensitive end = end
  redact_cache_fields p sensitive (field k v fs) =
      field k
        (if sensitive && (k == "data") && is_configured v
          then str redacted
          else redact_cache_entries p v)
        (redact_cache_fields p sensitive fs)

-- `SameEntries p v w`: the two values are the same but for the content of sensitive cache files.
mutual
  pub data SameEntries (p : RedactionPolicy) : Value → Value → Type 0 where
    same_value : (v : Value) → SameEntries p v v
    in_items : {vs ws : Items} → SameItems p vs ws → SameEntries p (arr vs) (arr ws)
    in_entry :
        {fs gs : Fields} (sensitive : Bool)
        → is_sensitive_entry p fs ≡ sensitive
        → is_sensitive_entry p gs ≡ sensitive
        → SameFields p sensitive fs gs
        → SameEntries p (obj fs) (obj gs)

  pub data SameItems (p : RedactionPolicy) : Items → Items → Type 0 where
    items_end : SameItems p nil nil
    items_more :
        {v w : Value} {vs ws : Items}
        → SameEntries p v w
        → SameItems p vs ws
        → SameItems p (cons v vs) (cons w ws)

  pub data SameFields (p : RedactionPolicy) : Bool → Fields → Fields → Type 0 where
    fields_end : (sensitive : Bool) → SameFields p sensitive end end
    -- in a sensitive entry the content may differ, as long as there is some
    content :
        {sensitive : Bool} {k : String} {v w : Value} {fs gs : Fields}
        → sensitive ≡ true
        → (k == "data") ≡ true
        → is_configured v ≡ true
        → is_configured w ≡ true
        → SameFields p sensitive fs gs
        → SameFields p sensitive (field k v fs) (field k w gs)
    other_field :
        {sensitive : Bool} {k : String} {v w : Value} {fs gs : Fields}
        → is_configured v ≡ is_configured w
        → SameEntries p v w
        → SameFields p sensitive fs gs
        → SameFields p sensitive (field k v fs) (field k w gs)

mutual
  unfolding redact_cache_entries

  entries_same :
      {p : RedactionPolicy} {v w : Value}
      → SameEntries p v w
      → redact_cache_entries p v ≡ redact_cache_entries p w
  entries_same (same_value v) = refl
  entries_same (in_items h) = ap arr (items_same h)
  entries_same (in_entry sensitive a b h) = rw (a, b) (ap obj (fields_same h))

  items_same :
      {p : RedactionPolicy} {vs ws : Items}
      → SameItems p vs ws
      → redact_cache_items p vs ≡ redact_cache_items p ws
  items_same items_end = refl
  items_same (items_more h hs) = cc (entries_same h, items_same hs)

  fields_same :
      {p : RedactionPolicy} {sensitive : Bool} {fs gs : Fields}
      → SameFields p sensitive fs gs
      → redact_cache_fields p sensitive fs ≡ redact_cache_fields p sensitive gs
  fields_same (fields_end sensitive) = refl
  fields_same (content a b c d hs) = rw (a, b, c, d) (cc (fields_same hs))
  fields_same (other_field e h hs) = cc (e, entries_same h, fields_same hs)

-- Two answers that are the same but for the content of sensitive cache files have one masked form.
pub redact_cache_entries_noninterference :
    (p : RedactionPolicy) (v w : Value)
    → SameEntries p v w
    → redact_cache_entries p v ≡ redact_cache_entries p w
redact_cache_entries_noninterference p v w h = entries_same h
