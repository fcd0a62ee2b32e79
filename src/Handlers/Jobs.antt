-- ===== src/Handlers/Jobs.antt =====
-- src/bunkerweb_mcp/tools/job_handlers.py and src/bunkerweb_mcp/tools/core_handlers.py
use bunkerweb_mcp.Prelude.{List, map, Option, none, some}
use bunkerweb_mcp.Json.{Value, str, arr, obj, Fields, end, field}
use bunkerweb_mcp.Errors.{◌>>=◌}
use bunkerweb_mcp.Client.Nodes.{ping, authenticate}
use bunkerweb_mcp.Client.Resources.{list_jobs, run_jobs}
use bunkerweb_mcp.Handlers.Params.{JobDescriptor, AuthParams}
use bunkerweb_mcp.Handlers.{
  Env, Action, job_item, run_jobs_request, serialize, passing, text_or_null, validate_all, items_of,
}

-- The arguments of `JobItem`.
abbrev pub job_fields : JobDescriptor → Value
job_fields job = obj (field "plugin" (str job.plugin) (field "name" (text_or_null job.name) end))

-- payload.copy() if payload else {}
abbrev pub fields_or_empty : Option Fields → Fields
fields_or_empty none = end
fields_or_empty (some fs) = fs

module _ {S : Type 0} (e : Env) where
  unfoldable pub handle_list_jobs : Action S
  unfolding list_jobs serialize
  handle_list_jobs = passing e (list_jobs e.client)

  unfoldable pub handle_run_jobs : List JobDescriptor → Action S
  unfolding validate_all run_jobs serialize
  handle_run_jobs jobs = passing e (do
    items ← validate_all (e.validate job_item) (map job_fields jobs)
    payload ← e.validate run_jobs_request (obj (field "jobs" (arr (items_of items)) end))
    run_jobs e.client payload)

  unfoldable pub handle_ping_api : Action S
  unfolding ping serialize
  handle_ping_api = passing e (ping e.client)

  unfoldable pub handle_create_api_token : AuthParams → Action S
  unfolding authenticate serialize
  handle_create_api_token p =
      passing e (authenticate e.client p.username p.password (fields_or_empty p.payload))
