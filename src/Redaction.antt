-- ===== src/Redaction.antt =====
-- src/bunkerweb_mcp/redaction.py: the policy and the masking of sensitive settings.
pub mod Pattern
pub mod Cache
pub mod Placeholder
pub mod Calls
pub mod Guarding
pub mod Holds
pub mod Accepted
mod Tests
pub mod Echo
pub mod Secrecy
use bunkerweb_mcp.Prelude.{
  String, Bool, true, false, not, ◌||◌, List, [], ◌∷◌, ◌==◌, any_of, if◌then◌else◌,
}
use bunkerweb_mcp.Json.{
  Value, null, bool, int, float, str, arr, obj, Items, nil, cons, Fields, end, field, has_key,
}

abbrev pub redacted : String
redacted = "***REDACTED***"

-- The compiled expression is known only by what `pattern.search` answers; the environment may
-- override it. `DEFAULT_REDACT_PATTERN` is in Redaction/Pattern.antt.
pub record RedactionPolicy : Type 0 where
  pub pattern : String → Bool
  pub sensitive_cache_plugins : List String

unfoldable pub is_sensitive_key : RedactionPolicy → String → Bool
is_sensitive_key p key = p.pattern key

-- key in _SETTING_VALUE_FIELDS
unfoldable pub is_value_field : String → Bool
is_value_field key = key == "value" || key == "default"

-- _SETTING_VALUE_FIELDS & value.keys()
unfoldable pub has_value_field : Fields → Bool
unfolding has_key
has_value_field fs = has_key "value" fs || has_key "default" fs

-- `redact` and `_mask`, with the comprehensions over lists and dicts as functions of their own.
unfoldable mutual
  pub redact : RedactionPolicy → Value → Value
  redact p (arr xs) = arr (redact_items p xs)
  redact p (obj fs) = obj (redact_fields p fs)
  redact p v = v

  pub redact_items : RedactionPolicy → Items → Items
  redact_items p nil = nil
  redact_items p (cons v vs) = cons (redact p v) (redact_items p vs)

  pub redact_fields : RedactionPolicy → Fields → Fields
  redact_fields p end = end
  redact_fields p (field k v fs) =
      field k (if is_sensitive_key p k then mask p v else redact p v) (redact_fields p fs)

  pub mask : RedactionPolicy → Value → Value
  mask p null = null
  mask p (str s) = if s == "" then str s else str redacted
  mask p (arr xs) = arr (mask_items p xs)
  mask p (obj fs) = obj (if has_value_field fs then mask_setting p fs else mask_fields p fs)
  mask p v = str redacted

  pub mask_items : RedactionPolicy → Items → Items
  mask_items p nil = nil
  mask_items p (cons v vs) = cons (mask p v) (mask_items p vs)

  pub mask_setting : RedactionPolicy → Fields → Fields
  mask_setting p end = end
  mask_setting p (field k v fs) =
      field k (if is_value_field k then mask p v else redact p v) (mask_setting p fs)

  pub mask_fields : RedactionPolicy → Fields → Fields
  mask_fields p end = end
  mask_fields p (field k v fs) = field k (mask p v) (mask_fields p fs)
