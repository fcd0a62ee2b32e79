-- ===== src/Handlers/Files.antt =====
-- src/bunkerweb_mcp/tools/cache_handlers.py: the cache files of the control plane's jobs
use bunkerweb_mcp.Prelude.{String, List, map, Option, none, some, ◌==◌, if◌then◌else◌}
use bunkerweb_mcp.Json.{Value, str, arr, obj, end, field}
use bunkerweb_mcp.Errors.{Result, ◌>>=◌}
use bunkerweb_mcp.Client.Resources.{CacheFile, list_cache, delete_cache_files, fetch_cache_file}
use bunkerweb_mcp.Handlers.Params.{CacheListParams, CacheFileKeyParams, CacheFetchParams}
use bunkerweb_mcp.Handlers.{
  Env, State, Action, cache_file_key, cache_files_delete_request, serialize, passing, text_or_null,
  validate_all, items_of,
}

-- The arguments of `CacheFileKey` in `_build_cache_key`.
abbrev pub file_key_fields : CacheFileKeyParams → Value
file_key_fields p = obj (
    field "service" (text_or_null p.service) (
      field "plugin" (str p.plugin)
        (field "jobName" (str p.job_name) (field "fileName" (str p.file_name) end))))

-- params.service or "global"
abbrev pub service_or_global : Option String → String
service_or_global none = "global"
service_or_global (some service) = if service == "" then "global" else service

module _ {S : Type 0} (e : Env) where
  unfoldable pub handle_list_cache : CacheListParams → Action S
  unfolding list_cache serialize
  handle_list_cache p = passing e (list_cache e.client p.service p.plugin p.job_name p.with_data)

  unfoldable pub handle_delete_cache_files : List CacheFileKeyParams → Action S
  unfolding validate_all delete_cache_files serialize
  handle_delete_cache_files files = passing e (do
    keys ← validate_all (e.validate cache_file_key) (map file_key_fields files)
    payload ←
        e.validate cache_files_delete_request (obj (field "cache_files" (arr (items_of keys)) end))
    delete_cache_files e.client payload)

  -- The client's dict is the result itself.
  unfoldable pub handle_fetch_cache_file : CacheFetchParams → State S → Result CacheFile × State S
  unfolding fetch_cache_file
  handle_fetch_cache_file p s = (
    fetch_cache_file e.client (service_or_global p.key.service) p.key.plugin p.key.job_name
        p.key.file_name p.download,
    s,
  )
