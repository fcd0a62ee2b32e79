-- ===== src/Client/Resources.antt =====
-- src/bunkerweb_mcp/client.py: services, the global and the custom configurations, plugins, the
-- cache and the jobs. A payload is what the `model_dump` of its model returns.
use bunkerweb_mcp.Prelude.{
  ℕ, String, Bool, false, List, [], ◌∷◌, ◌++◌, Option, none, some, ◌<>◌, eqb, has_prefix,
  if◌then◌else◌, map,
}
use bunkerweb_mcp.Prelude.Dict.{Dict}
use bunkerweb_mcp.Json.{Value}
use bunkerweb_mcp.Base64.{encode}
use bunkerweb_mcp.Errors.{Error, bunkerweb_error, Result, ok, err, ◌>>=◌}
use bunkerweb_mcp.Client.Segment.{segment, cache_path, ConfigKey, config_path}
use bunkerweb_mcp.Client.{
  Client, api_response, services_response, service_response, global_config_response,
  configs_response, config_response, plugins_response, cache_response, jobs_response, request,
  json_of, request_json, bare, with_json, with_params, lower_bool,
}

-- params[key] = value where the argument is not None, after the others
abbrev pub given : String → Option String → Dict String
given key none = []
given key (some value) = (key, value) ∷ []

abbrev pub given_flag : String → Option Bool → Dict String
given_flag key none = []
given_flag key (some flag) = (key, lower_bool flag) ∷ []

unfoldable pub list_services : Client → Bool → Result Value
unfolding request_json
list_services c with_drafts =
    request_json c services_response
      (with_params "GET" "/services" (("with_drafts", lower_bool with_drafts) ∷ []))

unfoldable pub get_service : Client → String → Bool → Bool → Bool → Result Value
unfolding segment request_json
get_service c service full methods with_drafts = do
  name ← segment service "service"
  request_json c service_response (
      with_params "GET" ("/services/" <> name) (
        ("full", lower_bool full)
        ∷ ("methods", lower_bool methods)
        ∷ ("with_drafts", lower_bool with_drafts)
        ∷ []))

unfoldable pub create_service : Client → Value → Result Value
unfolding request_json
create_service c payload = request_json c service_response (with_json "POST" "/services" payload)

unfoldable pub update_service : Client → String → Value → Result Value
unfolding segment request_json
update_service c service payload = do
  name ← segment service "service"
  request_json c service_response (with_json "PATCH" ("/services/" <> name) payload)

unfoldable pub delete_service : Client → String → Result Value
unfolding segment request_json
delete_service c service = do
  name ← segment service "service"
  request_json c api_response (bare "DELETE" ("/services/" <> name))

-- isinstance(exc, BunkerWebError) and exc.status == 404
unfoldable pub is_not_found : Error → Bool
is_not_found (bunkerweb_error m (some status)) = eqb status 404
is_not_found e = false

-- Older releases have the global configuration under another path.
unfoldable pub read_global_config : Client → Bool → Bool → Result Value
unfolding request_json is_not_found
read_global_config c full methods =
    let params = ("full", lower_bool full) ∷ ("methods", lower_bool methods) ∷ [] in
    elim (request_json c global_config_response (with_params "GET" "/global_settings" params)) [
      | ok answer ↦ ok answer
      | err e ↦
          if is_not_found e
          then request_json c global_config_response (with_params "GET" "/global_config" params)
          else err e
    ]

-- `validated` is what `GlobalConfigUpdate.model_validate(payload).model_dump()` returns or raises.
unfoldable pub update_global_config : Client → Result Value → Result Value
unfolding request_json
update_global_config c validated = do
  payload ← validated
  request_json c global_config_response (with_json "PATCH" "/global_settings" payload)

unfoldable pub list_configs : Client → Option String → Option String → Bool → Bool → Result Value
unfolding request_json
list_configs c service config_type with_drafts with_data = request_json c configs_response (
    with_params "GET" "/configs" (
      ("with_drafts", lower_bool with_drafts)
        ∷ ("with_data", lower_bool with_data)
        ∷ given "service" service
      ++ given "type" config_type))

unfoldable pub create_config : Client → Value → Result Value
unfolding request_json
create_config c payload = request_json c config_response (with_json "POST" "/configs" payload)

unfoldable pub delete_configs : Client → Value → Result Value
unfolding request_json
delete_configs c payload = request_json c api_response (with_json "DELETE" "/configs" payload)

unfoldable pub get_config : Client → ConfigKey → Bool → Result Value
unfolding config_path request_json
get_config c key with_data = do
  path ← config_path key
  request_json c config_response (with_params "GET" path (("with_data", lower_bool with_data) ∷ []))

unfoldable pub update_config : Client → ConfigKey → Value → Result Value
unfolding config_path request_json
update_config c key payload = do
  path ← config_path key
  request_json c config_response (with_json "PATCH" path payload)

-- Multipart parts: the form's name, the file's name and its bytes.
abbrev pub parts : List (String × List ℕ) → List (String × (String × List ℕ))
parts files = map (λ file. ("files", file)) files

unfoldable pub upload_configs :
    Client → List (String × List ℕ) → String → Option String → Bool → Result Value
unfolding request_json
upload_configs c files config_type service is_draft =
    request_json c configs_response (record (bare "POST" "/configs/upload") {
      files = parts files;
      form = ("type", config_type) ∷ ("is_draft", lower_bool is_draft) ∷ given "service" service;
    })

unfoldable pub update_config_upload :
    Client
    → ConfigKey
    → String
    → List ℕ
    → Option String
    → Option String
    → Option String
    → Option Bool
    → Result Value
unfolding config_path request_json
update_config_upload c key file_name content new_service new_type new_name new_is_draft = do
  path ← config_path key
  request_json c config_response (record (bare "PATCH" (path <> "/upload")) {
    files = ("file", (file_name, content)) ∷ [];
    form =
        given "new_service" new_service
        ++ given "new_type" new_type
        ++ given "new_name" new_name
        ++ given_flag "new_is_draft" new_is_draft;
  })

unfoldable pub list_plugins : Client → String → Bool → Result Value
unfolding request_json
list_plugins c plugin_type with_data = request_json c plugins_response (
    with_params "GET" "/plugins" (("type", plugin_type) ∷ ("with_data", lower_bool with_data) ∷ []))

unfoldable pub upload_plugins : Client → List (String × List ℕ) → String → Result Value
unfolding request_json
upload_plugins c files method =
    request_json c plugins_response (record (bare "POST" "/plugins/upload") {
      files = parts files;
      form = ("method", method) ∷ [];
    })

unfoldable pub delete_plugin : Client → String → Result Value
unfolding segment request_json
delete_plugin c plugin_id = do
  plugin ← segment plugin_id "plugin_id"
  request_json c api_response (bare "DELETE" ("/plugins/" <> plugin))

unfoldable pub list_cache :
    Client → Option String → Option String → Option String → Bool → Result Value
unfolding request_json
list_cache c service plugin job_name with_data = request_json c cache_response (
    with_params "GET" "/cache" (
      ("with_data", lower_bool with_data) ∷ given "service" service
      ++ given "plugin" plugin
      ++ given "job_name" job_name))

unfoldable pub delete_cache_files : Client → Value → Result Value
unfolding request_json
delete_cache_files c payload = request_json c api_response (with_json "DELETE" "/cache" payload)

-- The base64 text of other content is kept as its code points, for `data_base64`.
pub data CacheFile : Type 0 where
  json_file : Value → CacheFile
  raw_file : (filename content_type : String) (data_base64 : List ℕ) → CacheFile

unfoldable pub fetch_cache_file :
    Client → String → String → String → String → Bool → Result CacheFile
unfolding cache_path request json_of encode
fetch_cache_file c service plugin_id job_name file_name download = do
  path ← cache_path service plugin_id job_name file_name
  response ← request c (with_params "GET" path (("download", lower_bool download) ∷ []))
  (if has_prefix "application/json" response.content_type
      then json_of response >>= (λ payload. ok (json_file payload))
      else ok (raw_file file_name response.content_type (encode response.content)))

unfoldable pub list_jobs : Client → Result Value
unfolding request_json
list_jobs c = request_json c jobs_response (bare "GET" "/jobs")

unfoldable pub run_jobs : Client → Value → Result Value
unfolding request_json
run_jobs c payload = request_json c api_response (with_json "POST" "/jobs/run" payload)
