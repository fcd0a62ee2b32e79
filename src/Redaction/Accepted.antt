-- ===== src/Redaction/Accepted.antt =====
-- The tool calls that `check_call` of src/bunkerweb_mcp/redaction.py lets through, described without
-- the table and the scan that decide.
use bunkerweb_mcp.Prelude.{
  String, ◌≡◌, ◌⊎◌, ◌↔◌, refl, ap, sym, subst, ◌∙◌, inl, inr, Bool, true, false, ◌&&◌, List, [],
  Option, none, some, ◌==◌, eq_refl, eq_iff, arith, All, Bool-cases,
}
use bunkerweb_mcp.Json.{
  Value, null, bool, int, float, str, arr, obj, Fields, end, field, get, has_key,
}
use bunkerweb_mcp.Errors.{ok}
use bunkerweb_mcp.Redaction.{RedactionPolicy, is_sensitive_key}
use bunkerweb_mcp.Redaction.Pattern.{is_sensitive_cache_file}
use bunkerweb_mcp.Redaction.Cache.{text_or_none}
use bunkerweb_mcp.Redaction.Calls.{settings_write_field, settings_keys, keys, check_call}
use bunkerweb_mcp.Redaction.Guarding.{check_call-SendsNoSecret}
use bunkerweb_mcp.Redaction.Holds.{Holds, placeholder_paths-Holds}

-- The tools that write settings, and the parameter that has them.
pub data WritesFrom : String → String → Type 0 where
  created : WritesFrom "create_service" "variables"
  updated : WritesFrom "update_service" "variables"
  global : WritesFrom "update_global_config" "config"

-- A call writes a setting: such a parameter of it is a dict that has the key.
pub record WritesSetting (tool_name : String) (params : Fields) (key : String) : Type 0 where
  pub name : String
  pub settings : Fields
  pub from : WritesFrom tool_name name
  pub given : get name params ≡ some (obj settings)
  pub written : has_key key settings ≡ true

-- A statement of all keys of a dict.
All-keys {ℓ} :
    (P : String → Type ℓ) (settings : Fields)
    → All P (keys settings) ↔ ((key : String) → has_key key settings ≡ true → P key)
unfolding has_key
All-keys P end = (λ h key e. absurd (cc), λ h. tt)
All-keys P (field k v fs) =
    let (to, from) = All-keys P fs in
    (
      λ h key e. elim (Bool-cases (k == key)) [
        | inl same ↦ subst P ((eq_iff k key).0 same) h.0
        | inr other ↦ to h.1 key (rw other at e)
      ],
      λ h. (h k (rw (eq_refl k) refl), from (λ key e. h key (ground arith))),
    )

-- The table of the tools is the one of the code.
WritesFrom-settings_write_field :
    {tool_name name : String}
    → WritesFrom tool_name name
    → settings_write_field tool_name ≡ some name
unfolding settings_write_field
WritesFrom-settings_write_field created = refl
WritesFrom-settings_write_field updated = refl
WritesFrom-settings_write_field global = refl

settings_write_field-cases :
    (tool_name : String)
    → (settings_write_field tool_name ≡ none)
      ⊎ ((name : String) × (settings_write_field tool_name ≡ some name) × WritesFrom tool_name name)
unfolding settings_write_field
settings_write_field-cases tool_name = elim (Bool-cases (tool_name == "create_service")) [
  | inl a ↦ rw a (
      inr
        ("variables", refl, subst (λ t. WritesFrom t "variables") (sym ((eq_iff _ _).0 a)) created))
  | inr a ↦ elim (Bool-cases (tool_name == "update_service")) [
    | inl b ↦
        rw (a, b)
          (inr (
            "variables",
            refl,
            subst (λ t. WritesFrom t "variables") (sym ((eq_iff _ _).0 b)) updated,
          ))
    | inr b ↦ elim (Bool-cases (tool_name == "update_global_config")) [
      | inl c ↦
          rw (a, b, c)
            (inr
              ("config", refl, subst (λ t. WritesFrom t "config") (sym ((eq_iff _ _).0 c)) global))
      | inr c ↦ rw (a, b, c) (inl refl)
    ]
  ]
]

-- A value that is a dict, or has no keys to write.
abbrev keys_in : Option Value → List String
keys_in none = []
keys_in (some (obj settings)) = keys settings
keys_in (some v) = []

settings_keys_lem :
    (name : String) (params : Fields) → settings_keys (some name) params ≡ keys_in (get name params)
unfolding settings_keys
settings_keys_lem name params = by_value (get name params) refl
  where
    by_value :
        (v : Option Value) → get name params ≡ v → settings_keys (some name) params ≡ keys_in v
    by_value none e = rw (settings_keys, e) refl
    by_value (some null) e = rw (settings_keys, e) refl
    by_value (some (bool b)) e = rw (settings_keys, e) refl
    by_value (some (int n)) e = rw (settings_keys, e) refl
    by_value (some (float t)) e = rw (settings_keys, e) refl
    by_value (some (str t)) e = rw (settings_keys, e) refl
    by_value (some (arr vs)) e = rw (settings_keys, e) refl
    by_value (some (obj fs)) e = rw (settings_keys, e) refl

All-keys_in {ℓ} :
    (P : String → Type ℓ) (v : Option Value)
    → All P (keys_in v) ↔ (
        (settings : Fields) (key : String)
        → v ≡ some (obj settings)
        → has_key key settings ≡ true
        → P key)
All-keys_in P v = (
  λ h settings key e written.
      (All-keys P settings).0 (subst (λ o. All P (keys_in o)) e h) key written,
  back v,
)
  where
    back :
        (v : Option Value)
        → ((settings : Fields) (key : String)
            → v ≡ some (obj settings)
            → has_key key settings ≡ true
            → P key)
        → All P (keys_in v)
    back none h = tt
    back (some (obj fs)) h = (All-keys P fs).1 (λ key e. h fs key refl e)
    back (some null) h = tt
    back (some (bool b)) h = tt
    back (some (int n)) h = tt
    back (some (float t)) h = tt
    back (some (str t)) h = tt
    back (some (arr vs)) h = tt

no_name : {name : String} → ◌≡◌ {A = Option String} none (some name) → ⊥
no_name h = cc

same_name : {name other : String} → ◌≡◌ {A = Option String} (some name) (some other) → name ≡ other
same_name h = cc

All-settings_keys {ℓ} :
    (P : String → Type ℓ) (tool_name : String) (params : Fields)
    → All P (settings_keys (settings_write_field tool_name) params)
      ↔ ((key : String) → WritesSetting tool_name params key → P key)
unfolding settings_keys
All-settings_keys P tool_name params = elim (settings_write_field-cases tool_name) [
  | inl none_written ↦ (
    λ h key w. absurd (no_name (sym none_written ∙ WritesFrom-settings_write_field w.from)),
    λ h. subst (λ f. All P (settings_keys f params)) (sym none_written) tt,
  )
  | inr (name, field_name, from) ↦
      let at_name : settings_keys (settings_write_field tool_name) params
          ≡ keys_in (get name params) =
        ap (λ f. settings_keys f params) field_name ∙ settings_keys_lem name params in
      let (to, back) = All-keys_in P (get name params) in
      (
        λ h key w.
            let same = same_name (sym (WritesFrom-settings_write_field w.from) ∙ field_name) in
            to (subst (All P) at_name h) w.settings key
              (subst (λ n. get n params ≡ some (obj w.settings)) same w.given) w.written,
        λ h. subst (All P) (sym at_name) (
            back (λ settings key e written. h key (record {
              name = name;
              settings = settings;
              from = from;
              given = e;
              written = written;
            }))),
      )
]

unless_lem : (a b : Bool) → (a && b) ≡ false → a ≡ true → b ≡ false
unless_lem a b h e = ground arith

lem_unless : (a b : Bool) → (a ≡ true → b ≡ false) → (a && b) ≡ false
lem_unless true b h = h refl
lem_unless false b h = refl

-- `check_call` accepts exactly the calls that write no setting whose name the policy calls
-- sensitive, whose parameters hold the placeholder nowhere, be it within a text, a key, a dict, a
-- list or the bytes that the text of a `content_base64` decodes to, and that, where they are of
-- `get_cache_file`, name no file whose plugin or name `is_sensitive_cache_file` refuses.
pub check_call-eq-ok_iff :
    (p : RedactionPolicy) (tool_name : String) (params : Fields)
    → (check_call p tool_name params ≡ ok tt) ↔ (
        ((key : String) → WritesSetting tool_name params key → is_sensitive_key p key ≡ false)
        × (¬ Holds (obj params))
        × (tool_name ≡ "get_cache_file"
            → is_sensitive_cache_file p
                (text_or_none (get "plugin" params))
                (text_or_none (get "file_name" params))
              ≡ false))
check_call-eq-ok_iff p tool_name params =
    let (to, from) = check_call-SendsNoSecret p tool_name params in
    let (each, all) = All-settings_keys (λ k. is_sensitive_key p k ≡ false) tool_name params in
    let (clean, nowhere) = placeholder_paths-Holds (obj params) "" in
    let is_refused =
      is_sensitive_cache_file p (text_or_none (get "plugin" params))
        (text_or_none (get "file_name" params)) in
    (
      λ h.
          let (sent, file) = to h in
          (
            each sent.settings,
            clean sent.no_placeholder,
            λ named.
                unless_lem (tool_name == "get_cache_file") is_refused file
                  ((eq_iff tool_name "get_cache_file").1 named),
          ),
      λ (settings, held, file). from (
        record { settings = all settings; no_placeholder = nowhere held },
        lem_unless (tool_name == "get_cache_file") is_refused
            (λ e. file ((eq_iff tool_name "get_cache_file").0 e)),
      ),
    )
