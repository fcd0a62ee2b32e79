-- ===== src/Redaction/Tests.antt =====
-- Redaction on concrete settings, and the theorems at them.
use bunkerweb_mcp.Prelude.{String, ◌≡◌, ◌↔◌, refl, true, false, [], ◌∷◌, none, some, arith, eq_iff}
use bunkerweb_mcp.Prelude.Decimal.{show}
use bunkerweb_mcp.Json.{
  pos, int, str, arr, obj, nil, cons, Fields, end, field, get, has_key, truthy,
}
use bunkerweb_mcp.Errors.{ok}
use bunkerweb_mcp.Redaction.{
  is_sensitive_key, has_value_field, is_value_field, redact, redact_fields,
}
use bunkerweb_mcp.Redaction.Pattern.{
  default_policy, default_redact_pattern, is_sensitive_cache_file,
}
use bunkerweb_mcp.Redaction.Placeholder.{
  placeholder_paths, entry_paths, child_path, or_root, upload_holds_placeholder,
}
use bunkerweb_mcp.Redaction.Secrecy.{
  Agree, in_dict, no_fields, secret_field, public_field, same, other_secret, an_int, a_text,
  secret_setting, value_part, metadata_part, no_parts, redact_noninterference,
}
use bunkerweb_mcp.Redaction.Cache.{
  SameEntries, in_items, items_more, items_end, in_entry, content, other_field, fields_end,
  same_value, redact_cache_entries, is_sensitive_entry, is_configured, text_or_none,
}
use bunkerweb_mcp.Redaction.Calls.{check_call, find_sensitive_write, redact_result, is_set}
use bunkerweb_mcp.Redaction.Echo.{redact_echo_found}
use bunkerweb_mcp.Redaction.Guarding.{check_call-redact_fields, redact_result-cache_noninterference}
use bunkerweb_mcp.Redaction.Holds.{Holds}
use bunkerweb_mcp.Redaction.Accepted.{WritesSetting, check_call-eq-ok_iff}

-- What a run of the redaction computes with.
redaction : Unit {0}
unfolding redact is_sensitive_key is_value_field has_value_field default_redact_pattern
    placeholder_paths entry_paths child_path or_root upload_holds_placeholder check_call
    find_sensitive_write redact_result redact_cache_entries is_sensitive_entry is_configured
    is_sensitive_cache_file get has_key truthy show
redaction = tt

abbrev settings : Fields
settings = field "USE_ANTIBOT" (str "no") (
    field "REDIS_PASSWORD" (str "hunter2") (
      field "www.example.com_API_TOKEN"
        (obj (field "value" (str "abc") (field "method" (str "ui") end))) end))

abbrev other_settings : Fields
other_settings = field "USE_ANTIBOT" (str "no") (
    field "REDIS_PASSWORD" (int (pos 5)) (
      field "www.example.com_API_TOKEN"
        (obj (field "value" (str "xyz") (field "method" (str "ui") end))) end))

redact_settings :
    redact default_policy (obj settings)
    ≡ obj (
        field "USE_ANTIBOT" (str "no") (
          field "REDIS_PASSWORD" (str "***REDACTED***") (
            field "www.example.com_API_TOKEN"
              (obj (field "value" (str "***REDACTED***") (field "method" (str "ui") end)))
              end)))
unfolding redaction
redact_settings = refl

key_file_names :
    (is_sensitive_cache_file default_policy (some "LetsEncrypt") none ≡ true)
    × (is_sensitive_cache_file default_policy none (some "folder:a_b_client-key.PEM") ≡ true)
    × (is_sensitive_cache_file default_policy (some "misc") (some "a.key/b.txt") ≡ false)
    × (is_sensitive_cache_file default_policy (some "misc") (some "instance.id") ≡ true)
unfolding redaction
key_file_names = (refl, refl, refl, refl)

settings-Agree : Agree default_policy (obj settings) (obj other_settings)
unfolding redaction
settings-Agree = in_dict (
    public_field refl (same (str "no")) (
      secret_field refl
        (other_secret (a_text "hunter2" (ground (arith, eq_iff "hunter2" ""))) (an_int (pos 5)))
        (secret_field refl
          (secret_setting refl refl (
            value_part refl
              (other_secret (a_text "abc" (ground (arith, eq_iff "abc" "")))
                (a_text "xyz" (ground (arith, eq_iff "xyz" ""))))
              (metadata_part refl (same (str "ui")) no_parts)))
          no_fields)))

redact_noninterference_example :
    redact default_policy (obj settings) ≡ redact default_policy (obj other_settings)
redact_noninterference_example =
    redact_noninterference default_policy (obj settings) (obj other_settings) settings-Agree

abbrev plain : Fields
plain =
    field "service" (str "a.example")
      (field "variables" (obj (field "USE_ANTIBOT" (str "no") end)) end)

plain_clean : placeholder_paths (redact default_policy (obj plain)) "" ≡ []
unfolding redaction
plain_clean = refl

redact_echo_found_example : redact default_policy (obj plain) ≡ obj plain
redact_echo_found_example = redact_echo_found default_policy (obj plain) "" plain_clean

echo_is_found :
    placeholder_paths (redact default_policy (obj settings)) ""
    ≡ "REDIS_PASSWORD" ∷ "www.example.com_API_TOKEN.value" ∷ []
unfolding redaction
echo_is_found = refl

-- The base64 text of the placeholder with two bytes around it.
upload_is_found :
    placeholder_paths
      (obj (
        field "files"
          (arr (cons (obj (field "content_base64" (str "PCoqKlJFREFDVEVEKioqPg==") end)) nil))
          end))
      ""
    ≡ "files[0].content_base64" ∷ []
unfolding redaction
upload_is_found = refl

abbrev update_service : String
update_service = "update_service"

check_call-eq-ok_iff_example : (check_call default_policy "update_service" plain ≡ ok tt) ↔ (
    ((key : String)
      → WritesSetting "update_service" plain key
      → is_sensitive_key default_policy key ≡ false)
    × (¬ Holds (obj plain))
    × (update_service ≡ "get_cache_file"
        → is_sensitive_cache_file default_policy
            (text_or_none (get "plugin" plain))
            (text_or_none (get "file_name" plain))
          ≡ false))
check_call-eq-ok_iff_example = check_call-eq-ok_iff default_policy "update_service" plain

plain_accepted :
    check_call default_policy "update_service" (redact_fields default_policy plain) ≡ ok tt
unfolding redaction
plain_accepted = refl

check_call-redact_fields_example : redact_fields default_policy plain ≡ plain
check_call-redact_fields_example =
    check_call-redact_fields default_policy "update_service" plain plain_accepted

token_set : is_set (get "token" (field "token" (str "biscuit") end)) ≡ true
unfolding redaction
token_set = refl

abbrev cache_entry : String → Fields
cache_entry text =
    field "data"
      (arr (cons (obj (field "plugin" (str "letsencrypt") (field "data" (str text) end))) nil)) end

entries_Same : SameEntries default_policy (obj (cache_entry "key A")) (obj (cache_entry "key B"))
unfolding redaction
entries_Same = in_entry false refl refl (
    other_field refl
      (in_items (
        items_more
          (in_entry true refl refl (
            other_field refl (same_value (str "letsencrypt"))
              (content refl refl refl refl (fields_end true))))
          items_end))
      (fields_end false))

redact_result-cache_noninterference_example :
    redact_result default_policy "list_cache_files" (cache_entry "key A")
    ≡ redact_result default_policy "list_cache_files" (cache_entry "key B")
redact_result-cache_noninterference_example =
    redact_result-cache_noninterference default_policy (cache_entry "key A") (cache_entry "key B")
      entries_Same
