-- ===== src/Handlers/Configs.antt =====
-- src/bunkerweb_mcp/tools/config_handlers.py
use bunkerweb_mcp.Prelude.{ℕ, String, Bool, true, false, List, map, Option, none, some, ◌<>◌}
use bunkerweb_mcp.Json.{Value, bool, str, arr, obj, Fields, end, field}
use bunkerweb_mcp.Errors.{Result, ok, ◌>>=◌}
use bunkerweb_mcp.Client.Segment.{ConfigKey}
use bunkerweb_mcp.Client.Resources.{
  read_global_config, update_global_config, list_configs, get_config, create_config, update_config,
  delete_configs, upload_configs, update_config_upload,
}
use bunkerweb_mcp.Cache.{Backend}
use bunkerweb_mcp.Handlers.Params.{
  GlobalConfigReadParams, ConfigListParams, ConfigKeyParams, ConfigCreateParams, ConfigUpdateParams,
  ConfigUploadParams, ConfigUploadUpdateParams, to_bytes, all_bytes,
}
use bunkerweb_mcp.Handlers.{
  Env, Action, config_key, config_create_request, config_update_request, configs_delete_request,
  global_config_update, serialize, passing, read_through, mutate, show_flag, text_or_null,
  flag_or_null, validate_all, items_of,
}

-- The dict of a key.
abbrev pub key_fields : ConfigKeyParams → Value
key_fields p = obj (
    field "service" (text_or_null p.service)
      (field "type" (str p.type) (field "name" (str p.name) end)))

abbrev pub is_given : Option String → Bool
is_given none = false
is_given (some s) = true

-- params.new_service if params.new_service is not None else params.service
abbrev pub first_given : Option String → Option String → Option String
first_given (some s) other = some s
first_given none other = other

-- The service stays unless a new one is given.
abbrev pub config_update_fields : ConfigUpdateParams → Fields
config_update_fields p = field "service" (text_or_null (first_given p.new_service p.key.service)) (
    field "type" (text_or_null p.new_type) (
      field "name" (text_or_null p.new_name)
        (field "data" (text_or_null p.content) (field "is_draft" (flag_or_null p.is_draft) end))))

module _ (e : Env) where
  -- `_build_config_key`: the model checks the type and the name.
  unfoldable pub build_config_key : ConfigKeyParams → Result ConfigKey
  build_config_key p = do
    checked ← e.validate config_key (key_fields p)
    ok (record { service = p.service; type = p.type; name = p.name })

module _ {S : Type 0} (cache : Backend S) (e : Env) where
  unfoldable pub handle_get_global_config : GlobalConfigReadParams → Action S
  unfolding read_global_config read_through
  handle_get_global_config p =
      read_through cache e ("global_config_read:" <> show_flag p.full <> ":" <> show_flag p.methods)
        "get_global_config" (read_global_config e.client p.full p.methods)

  unfoldable pub handle_update_global_config : Fields → Action S
  unfolding update_global_config mutate
  handle_update_global_config config =
      mutate cache e "global_config"
        (update_global_config e.client (e.validate global_config_update (obj config)))

  unfoldable pub handle_list_configs : ConfigListParams → Action S
  unfolding list_configs serialize
  handle_list_configs p =
      passing e (list_configs e.client p.service p.type p.with_drafts p.with_data)

  unfoldable pub handle_get_config : ConfigKeyParams → Action S
  unfolding build_config_key get_config serialize
  handle_get_config p = passing e (build_config_key e p >>= (λ key. get_config e.client key true))

  unfoldable pub handle_create_config : ConfigCreateParams → Action S
  unfolding create_config serialize
  handle_create_config p = passing e (
      e.validate config_create_request (
        obj (
          field "service" (text_or_null p.key.service) (
            field "type" (str p.key.type) (
              field "name" (str p.key.name)
                (field "data" (str p.content) (field "is_draft" (bool p.is_draft) end))))))
      >>= create_config e.client)

  unfoldable pub handle_update_config : ConfigUpdateParams → Action S
  unfolding build_config_key update_config serialize
  handle_update_config p = passing e (do
    key ← build_config_key e p.key
    payload ← e.validate config_update_request (obj (config_update_fields p))
    update_config e.client key payload)

  unfoldable pub handle_delete_configs : List ConfigKeyParams → Action S
  unfolding validate_all delete_configs serialize
  handle_delete_configs configs = passing e (do
    keys ← validate_all (e.validate config_key) (map key_fields configs)
    payload ← e.validate configs_delete_request (obj (field "configs" (arr (items_of keys)) end))
    delete_configs e.client payload)

  unfoldable pub handle_upload_configs : ConfigUploadParams → Action S
  unfolding all_bytes upload_configs serialize
  handle_upload_configs p = passing e (do
    files ← all_bytes p.files
    upload_configs e.client files p.config_type p.service p.is_draft)

  abbrev pub send_file : ConfigUploadUpdateParams → ConfigKey → String × List ℕ → Result Value
  send_file p key (filename, content) =
      update_config_upload e.client key filename content p.new_service p.new_type p.new_name
        p.new_is_draft

  unfoldable pub handle_update_config_upload : ConfigUploadUpdateParams → Action S
  unfolding build_config_key to_bytes update_config_upload serialize
  handle_update_config_upload p =
      passing e (do key ← build_config_key e p.key; file ← to_bytes p.file; send_file p key file)
