-- ===== src/Handlers/Calls.antt =====
-- Calls of the tools of src/bunkerweb_mcp/tools/, one after the other, over the response cache.
use bunkerweb_mcp.Prelude.{String, List, [], ◌∷◌, Option}
use bunkerweb_mcp.Json.{Value, Fields}
use bunkerweb_mcp.Errors.{Result}
use bunkerweb_mcp.Client.{Client}
use bunkerweb_mcp.Client.Nodes.{list_instances, get_instance}
use bunkerweb_mcp.Client.Bans.{list_bans}
use bunkerweb_mcp.Client.Resources.{list_services, get_service, read_global_config}
use bunkerweb_mcp.Cache.{Backend}
use bunkerweb_mcp.ServiceWrites.{ServiceUpdateParams}
use bunkerweb_mcp.Handlers.Params.{
  InstanceTargetParams, ReloadInstancesParams, BanPayload, UnbanPayload, AuthParams,
  InstanceCreateParams, InstanceUpdateParams, ServiceCreateParams, ConfigListParams,
  ConfigKeyParams, ConfigCreateParams, ConfigUpdateParams, ConfigUploadParams,
  ConfigUploadUpdateParams, PluginListParams, PluginUploadParams, CacheListParams,
  CacheFileKeyParams, JobDescriptor,
}
use bunkerweb_mcp.Handlers.{Env, State, Action}
use bunkerweb_mcp.Handlers.Services.{
  handle_list_services, handle_get_service, handle_create_service, handle_update_service,
  handle_delete_service,
}
use bunkerweb_mcp.Handlers.Instances.{
  handle_list_instances, handle_ping_instances, handle_stop_instances, handle_get_instance,
  handle_create_instance, handle_update_instance, handle_delete_instances, handle_reload_instances,
}
use bunkerweb_mcp.Handlers.Bans.{handle_list_bans, handle_ban_ip, handle_unban_ip}
use bunkerweb_mcp.Handlers.Configs.{
  handle_get_global_config, handle_update_global_config, handle_list_configs, handle_get_config,
  handle_create_config, handle_update_config, handle_delete_configs, handle_upload_configs,
  handle_update_config_upload,
}
use bunkerweb_mcp.Handlers.Files.{handle_list_cache, handle_delete_cache_files}
use bunkerweb_mcp.Handlers.Plugins.{
  handle_list_plugins, handle_upload_plugins, handle_delete_plugin,
}
use bunkerweb_mcp.Handlers.Jobs.{
  handle_list_jobs, handle_run_jobs, handle_ping_api, handle_create_api_token,
}
use bunkerweb_mcp.Handlers.Keys.{
  Read, services, service, bans, instances, instance_of, global_config,
}

-- The tools that clear the cache when they succeed.
pub data Write : Type 0 where
  create_service : ServiceCreateParams → Write
  -- with the control plane at the second read of the plugins, and after the update
  update_service : Client → Client → ServiceUpdateParams → Write
  delete_service : String → Write
  ban_ip : List BanPayload → Write
  unban_ip : List UnbanPayload → Write
  update_global_config : Fields → Write

-- The others, which do not touch the cache (`fetch_cache_file`, whose result is of another type,
-- changes no state at all).
pub data Other : Type 0 where
  ping_instances : Option String → Other
  stop_instances : InstanceTargetParams → Other
  create_instance : InstanceCreateParams → Other
  update_instance : InstanceUpdateParams → Other
  delete_instances : List String → Other
  reload_instances : ReloadInstancesParams → Other
  list_configs : ConfigListParams → Other
  get_config : ConfigKeyParams → Other
  create_config : ConfigCreateParams → Other
  update_config : ConfigUpdateParams → Other
  delete_configs : List ConfigKeyParams → Other
  upload_configs : ConfigUploadParams → Other
  update_config_upload : ConfigUploadUpdateParams → Other
  list_plugins : PluginListParams → Other
  upload_plugins : PluginUploadParams → Other
  delete_plugin : String → Other
  list_cache : CacheListParams → Other
  delete_cache_files : List CacheFileKeyParams → Other
  list_jobs : Other
  run_jobs : List JobDescriptor → Other
  ping_api : Other
  create_api_token : AuthParams → Other

pub data Call : Type 0 where
  read : Read → Call
  write : Write → Call
  other : Other → Call

-- What the control plane answers to a read.
unfoldable pub answer : Env → Read → Result Value
unfolding list_services get_service
answer e (services b) = list_services e.client b
answer e (service p) = get_service e.client p.service p.full p.methods p.with_drafts
answer e bans = list_bans e.client
answer e instances = list_instances e.client
answer e (instance_of h) = get_instance e.client h
answer e (global_config p) = read_global_config e.client p.full p.methods

module _ {S : Type 0} (cache : Backend S) where
  unfoldable pub run_read : Env → Read → Action S
  unfolding handle_list_services handle_get_service handle_list_bans handle_list_instances
      handle_get_instance handle_get_global_config
  run_read e (services b) = handle_list_services cache e b
  run_read e (service p) = handle_get_service cache e p
  run_read e bans = handle_list_bans cache e
  run_read e instances = handle_list_instances cache e
  run_read e (instance_of h) = handle_get_instance cache e h
  run_read e (global_config p) = handle_get_global_config cache e p

  unfoldable pub run_write : Env → Write → Action S
  unfolding handle_create_service handle_update_service handle_delete_service handle_ban_ip
      handle_unban_ip handle_update_global_config
  run_write e (create_service p) = handle_create_service cache e p
  run_write e (update_service again after p) = handle_update_service cache e again after p
  run_write e (delete_service s) = handle_delete_service cache e s
  run_write e (ban_ip ps) = handle_ban_ip cache e ps
  run_write e (unban_ip ps) = handle_unban_ip cache e ps
  run_write e (update_global_config fs) = handle_update_global_config cache e fs

  unfoldable pub run_other : Env → Other → Action S
  run_other e (ping_instances h) = handle_ping_instances cache e h
  run_other e (stop_instances p) = handle_stop_instances cache e p
  run_other e (create_instance p) = handle_create_instance cache e p
  run_other e (update_instance p) = handle_update_instance cache e p
  run_other e (delete_instances hs) = handle_delete_instances cache e hs
  run_other e (reload_instances p) = handle_reload_instances cache e p
  run_other e (list_configs p) = handle_list_configs cache e p
  run_other e (get_config p) = handle_get_config cache e p
  run_other e (create_config p) = handle_create_config cache e p
  run_other e (update_config p) = handle_update_config cache e p
  run_other e (delete_configs ps) = handle_delete_configs cache e ps
  run_other e (upload_configs p) = handle_upload_configs cache e p
  run_other e (update_config_upload p) = handle_update_config_upload cache e p
  run_other e (list_plugins p) = handle_list_plugins e p
  run_other e (upload_plugins p) = handle_upload_plugins e p
  run_other e (delete_plugin s) = handle_delete_plugin e s
  run_other e (list_cache p) = handle_list_cache e p
  run_other e (delete_cache_files ps) = handle_delete_cache_files e ps
  run_other e list_jobs = handle_list_jobs e
  run_other e (run_jobs ps) = handle_run_jobs e ps
  run_other e ping_api = handle_ping_api e
  run_other e (create_api_token p) = handle_create_api_token e p

  unfoldable pub run : Env → Call → Action S
  unfolding run_read run_write run_other
  run e (read r) = run_read e r
  run e (write w) = run_write e w
  run e (other o) = run_other e o

  -- The results of the calls, each in the surroundings of its time.
  unfoldable pub run_all : List (Env × Call) → State S → List (Result Fields)
  unfolding run
  run_all [] s = []
  run_all ((e, c) ∷ calls) s = (run e c s).0 ∷ run_all calls (run e c s).1
