-- ===== src/Redaction/Calls.antt =====
-- The checks of a tool call and of its result in src/bunkerweb_mcp/redaction.py. A tool's validated
-- parameters are what their `model_dump` returns: the fields of a model are the dump's keys.
use bunkerweb_mcp.Prelude.{
  ℕ, String, Bool, true, false, not, ◌&&◌, List, [], ◌∷◌, ◌++◌, map, Option, none, some, ◌==◌, ◌<>◌,
  join, keep, if◌then◌else◌,
}
use bunkerweb_mcp.Prelude.Decimal.{show}
use bunkerweb_mcp.Json.{Value, str, obj, Fields, end, field, get, truthy}
use bunkerweb_mcp.Errors.{
  Error, bunkerweb_error, tool_validation_error, tool_execution_error, http_status_error, Result,
  ok, err,
}
use bunkerweb_mcp.Redaction.{RedactionPolicy, redacted, is_sensitive_key, redact_fields}
use bunkerweb_mcp.Redaction.Pattern.{is_sensitive_cache_file}
use bunkerweb_mcp.Redaction.Cache.{redact_cache_fields, is_sensitive_entry, text_or_none}
use bunkerweb_mcp.Redaction.Placeholder.{placeholder_paths}

-- SETTINGS_WRITE_FIELDS.get(tool_name)
unfoldable pub settings_write_field : String → Option String
settings_write_field tool_name =
    if tool_name == "create_service"
    then some "variables"
    else if tool_name == "update_service"
    then some "variables"
    else if tool_name == "update_global_config"
    then some "config"
    else none

abbrev pub keys : Fields → List String
keys end = []
keys (field k v fs) = k ∷ keys fs

-- The keys of `getattr(params, settings_field, None) or {}`; the field is a dict or None.
unfoldable pub settings_keys : Option String → Fields → List String
unfolding get
settings_keys none params = []
settings_keys (some settings_field) params = elim (get settings_field params) [
  | none ↦ []
  | some value ↦ elim value [ obj settings ↦ keys settings | _ ↦ [] ]
]

unfoldable pub find_sensitive_write : RedactionPolicy → String → Fields → List String
unfolding settings_write_field settings_keys placeholder_paths
find_sensitive_write p tool_name params =
    keep (is_sensitive_key p) (settings_keys (settings_write_field tool_name) params)
    ++ map (λ path. path <> " (contains " <> redacted <> ")") (placeholder_paths (obj params) "")

write_refused : List String → Error
write_refused offending = tool_validation_error (
    "Writing sensitive settings is disabled (BUNKERWEB_REDACT_SECRETS=true). Manage secrets through the BunkerWeb UI or API directly. Offending keys: "
    <> join ", " offending)

-- f"{value}" of an optional text
abbrev pub text_of : Option String → String
text_of none = "None"
text_of (some s) = s

cache_refused : Option String → Option String → Error
cache_refused plugin file_name = tool_validation_error (
    "Reading cache files that hold private keys or credentials is disabled (BUNKERWEB_REDACT_SECRETS=true). Refused: "
    <> text_of plugin
    <> "/"
    <> text_of file_name)

abbrev is_empty {ℓ} : {A : Type ℓ} → List A → Bool
is_empty [] = true
is_empty (x ∷ xs) = false

unfoldable pub check_call : RedactionPolicy → String → Fields → Result (Unit {0})
unfolding write_refused cache_refused get
check_call p tool_name params =
    let offending = find_sensitive_write p tool_name params in
    let plugin = text_or_none (get "plugin" params) in
    let file_name = text_or_none (get "file_name" params) in
    if not (is_empty offending)
    then err (write_refused offending)
    else if tool_name == "get_cache_file" && is_sensitive_cache_file p plugin file_name
    then err (cache_refused plugin file_name)
    else ok tt

-- {**d, key: value}
unfoldable pub put : String → Value → Fields → Fields
put key value end = field key value end
put key value (field k v fs) = if k == key then field k value fs else field k v (put key value fs)

abbrev pub is_set : Option Value → Bool
is_set none = false
is_set (some v) = truthy v

unfoldable pub redact_result : RedactionPolicy → String → Fields → Fields
unfolding put get truthy
redact_result p tool_name result = redact_fields p (
    if tool_name == "list_cache_files"
    then redact_cache_fields p (is_sensitive_entry p result) result
    else if tool_name == "create_api_token" && is_set (get "token" result)
    then put "token" (str redacted) result
    else result)

unfoldable pub withheld_text : ℕ → String
unfolding show
withheld_text status =
    "BunkerWeb API error (HTTP "
    <> show status
    <> "); details withheld because BUNKERWEB_REDACT_SECRETS is enabled"

unfoldable pub withheld_error : Error → Error
unfolding withheld_text
withheld_error (bunkerweb_error m none) = bunkerweb_error m none
withheld_error (bunkerweb_error m (some status)) =
    bunkerweb_error (withheld_text status) (some status)
withheld_error (http_status_error code m) = bunkerweb_error (withheld_text code) (some code)
withheld_error _ = tool_execution_error "Unexpected tool execution error"
