-- ===== src/Handlers/Instances.antt =====
-- src/bunkerweb_mcp/tools/instance_handlers.py
use bunkerweb_mcp.Prelude.{ℕ, String, Bool, List, Option, none, some, ◌<>◌}
use bunkerweb_mcp.Json.{str, arr, obj, Fields, end, field}
use bunkerweb_mcp.Errors.{◌>>=◌}
use bunkerweb_mcp.Client.Nodes.{
  list_instances, ping_instances, ping_instance, stop_instances, stop_instance, get_instance,
  create_instance, update_instance, delete_instances, reload_instances, reload_instance,
}
use bunkerweb_mcp.Cache.{Backend}
use bunkerweb_mcp.Handlers.Params.{
  InstanceTargetParams, ReloadInstancesParams, InstanceCreateParams, InstanceUpdateParams,
}
use bunkerweb_mcp.Handlers.{
  Env, Action, instance_create_request, instance_update_request, instances_delete_request,
  serialize, passing, read_through, strings, text_field, number_field, flag_field,
}

-- The fields that creating and updating an instance share, those that are not None.
abbrev pub instance_fields :
    Option String → Option ℕ → Option Bool → Option ℕ → Option String → Option String → Fields
instance_fields name port listen_https https_port server_name method = text_field "name" name (
    number_field "port" port (
      flag_field "listen_https" listen_https (
        number_field "https_port" https_port
          (text_field "server_name" server_name (text_field "method" method end)))))

module _ {S : Type 0} (cache : Backend S) (e : Env) where
  unfoldable pub handle_list_instances : Action S
  unfolding list_instances read_through
  handle_list_instances =
      read_through cache e "list_instances" "list_instances" (list_instances e.client)

  unfoldable pub handle_ping_instances : Option String → Action S
  unfolding ping_instance ping_instances serialize
  handle_ping_instances none = passing e (ping_instances e.client)
  handle_ping_instances (some hostname) = passing e (ping_instance e.client hostname)

  -- A checked target: no hostname means every instance.
  unfoldable pub handle_stop_instances : InstanceTargetParams → Action S
  unfolding stop_instance stop_instances serialize
  handle_stop_instances p = elim p.hostname [
    | some hostname ↦ passing e (stop_instance e.client hostname)
    | none ↦ passing e (stop_instances e.client)
  ]

  unfoldable pub handle_get_instance : String → Action S
  unfolding get_instance read_through
  handle_get_instance hostname =
      read_through cache e ("instance_get:" <> hostname) "get_instance"
        (get_instance e.client hostname)

  unfoldable pub handle_create_instance : InstanceCreateParams → Action S
  unfolding create_instance serialize
  handle_create_instance p = passing e (
      e.validate instance_create_request (
        obj (
          field "hostname" (str p.hostname)
            (instance_fields p.name p.port p.listen_https p.https_port p.server_name p.method)))
      >>= create_instance e.client)

  -- The hostname names the instance and is not sent.
  unfoldable pub handle_update_instance : InstanceUpdateParams → Action S
  unfolding update_instance serialize
  handle_update_instance p = passing e (
      e.validate instance_update_request
        (obj (instance_fields p.name p.port p.listen_https p.https_port p.server_name p.method))
      >>= update_instance e.client p.hostname)

  unfoldable pub handle_delete_instances : List String → Action S
  unfolding delete_instances serialize
  handle_delete_instances instances = passing e (
      e.validate instances_delete_request (obj (field "instances" (arr (strings instances)) end))
      >>= delete_instances e.client)

  unfoldable pub handle_reload_instances : ReloadInstancesParams → Action S
  unfolding reload_instance reload_instances serialize
  handle_reload_instances p = elim p.target.hostname [
    | some hostname ↦ passing e (reload_instance e.client hostname p.test)
    | none ↦ passing e (reload_instances e.client p.test)
  ]
