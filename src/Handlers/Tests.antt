-- ===== src/Handlers/Tests.antt =====
-- Runs of the tools, and the theorems at them.
use bunkerweb_mcp.Prelude.{ℕ, ◌+◌, ◌≡◌, refl, String, true, false, List, [], ◌∷◌, map, none, some}
use bunkerweb_mcp.Prelude.Dict.{lookup, insert}
use bunkerweb_mcp.Json.{Value, str, obj, Fields, end, field, get, has_key}
use bunkerweb_mcp.Base64.{decode}
use bunkerweb_mcp.Errors.{ok, err, bunkerweb_error}
use bunkerweb_mcp.Client.{Client, request, request_json, retry_from, settle, json_of, is_retryable}
use bunkerweb_mcp.Client.Segment.{segment, quote}
use bunkerweb_mcp.Client.Bans.{list_bans, is_bans_response}
use bunkerweb_mcp.Client.Nodes.{
  stop_instance, stop_instances, reload_instance, reload_instances as send_reloads,
}
use bunkerweb_mcp.Client.Resources.{delete_service as send_deletion}
use bunkerweb_mcp.Upstream.Facts.{Facts, start_catalog, requested}
use bunkerweb_mcp.Cache.{get_cached, finish_fetch, invalidate_cache}
use bunkerweb_mcp.Cache.Memory.{Entries, memory, memory-Lawful, live-insert-cases}
use bunkerweb_mcp.Handlers.{Env, State, serialize, read_through, mutate}
use bunkerweb_mcp.Handlers.Params.{
  InstanceTargetParams, PluginUploadParams, exactly_one_target, to_bytes, all_bytes,
}
use bunkerweb_mcp.Handlers.Services.{handle_delete_service}
use bunkerweb_mcp.Handlers.Instances.{handle_stop_instances, handle_reload_instances}
use bunkerweb_mcp.Handlers.Bans.{handle_list_bans}
use bunkerweb_mcp.Handlers.Plugins.{handle_upload_plugins, handle_delete_plugin}
use bunkerweb_mcp.Handlers.Keys.{
  services, service, bans, instances, instance_of, global_config, key_of-injective,
}
use bunkerweb_mcp.Handlers.Calls.{
  Call, read, write, delete_service, Other, reload_instances, answer, run_read, run_write, run,
  run_all,
}
use bunkerweb_mcp.Handlers.Coherence.{
  Isolated, SameAnswers, IsSteady, without_cache, run_all-uncached,
}
use bunkerweb_mcp.Handlers.Targets.{ActsOn, instance_target-ActsOn}
use bunkerweb_mcp.Handlers.Freshness.{after_others, run_write-run_read, plugins-start_catalog}

abbrev payload : String → Fields
payload text = field "status" (str "success") (field "data" (str text) end)

-- A control plane that answers every request with one payload.
abbrev answering : String → Client
answering text = record {
  max_retries = 1;
  attempt = λ req n. ok (record {
    status_code = 200;
    json = some (obj (payload text));
    text = "";
    status_error = "";
    content_type = "application/json";
    content = [];
  });
  model_validate = λ model v. ok v;
  repr = λ v. "{}";
}

-- One that refuses every request.
abbrev refusing : Client
refusing = record (answering "") { attempt = λ req n. err (bunkerweb_error "forbidden" (some 403)) }

abbrev fields_of : Value → Fields
fields_of (obj fs) = fs
fields_of v = end

abbrev env : Client → ℕ → Env
env client now = record {
  client = client;
  base_url = "http://api";
  dump = fields_of;
  validate = λ model v. ok v;
  cache_enabled = true;
  now = now;
  later = now + 1;
}

abbrev no_facts : Facts
no_facts = record { versions = []; catalogs = []; generation = 0 }

abbrev start : State Entries
start = record { cached = []; facts = no_facts }

handler_runs : Unit {0}
unfolding run_all run run_read run_write handle_list_bans handle_delete_service read_through mutate
    serialize get_cached finish_fetch invalidate_cache request request_json retry_from settle
    json_of is_retryable segment quote list_bans is_bans_response send_deletion lookup insert get
    has_key
handler_runs = tt

memory-Isolated : Isolated Entries memory
memory-Isolated = record { get-set-cases = live-insert-cases }

-- The second read comes from the cache, the deletion clears it, and the last read is a new one.
abbrev calls : List (Env × Call)
calls =
    (env (answering "old") 10, read bans)
    ∷ (env (answering "old") 12, read bans)
    ∷ (env (answering "old") 14, write (delete_service "a.example"))
    ∷ (env (answering "new") 16, read bans)
    ∷ []

run_all_runs :
    run_all memory calls start
    ≡ ok (payload "old") ∷ ok (payload "old") ∷ ok (payload "old") ∷ ok (payload "new") ∷ []
unfolding handler_runs
run_all_runs = refl

same_answers : (client : Client) (now later : ℕ) → SameAnswers (env client now) (env client later)
unfolding answer serialize
same_answers client now later (services b) = refl
same_answers client now later (service p) = refl
same_answers client now later bans = refl
same_answers client now later instances = refl
same_answers client now later (instance_of h) = refl
same_answers client now later (global_config p) = refl

calls-IsSteady : IsSteady memory calls start
unfolding handler_runs
calls-IsSteady = (
  λ h. same_answers (answering "old") 10 12,
  (λ h. same_answers (answering "old") 12 14, (λ h. absurd (cc), (λ h. tt, tt))),
)

empty : (now : ℕ) (key : String) → memory.get start.cached now key ≡ none
unfolding lookup
empty now key = refl

run_all-uncached_example :
    run_all memory calls start ≡ run_all memory (map without_cache calls) start
run_all-uncached_example =
    run_all-uncached memory calls start start memory-Lawful memory-Isolated empty refl
      calls-IsSteady

key_of-injective_example :
    service (record { service = "a"; full = true; methods = false; with_drafts = true })
    ≡ service (record { service = "a"; full = true; methods = false; with_drafts = true })
key_of-injective_example =
    key_of-injective
      (service (record { service = "a"; full = true; methods = false; with_drafts = true }))
      (service (record { service = "a"; full = true; methods = false; with_drafts = true })) refl

-- The cache holds an old list of bans.
abbrev stale : State Entries
stale = record { cached = ("list_bans", (120, payload "old")) ∷ []; facts = no_facts }

deletion_runs :
    (run_write memory (env (answering "gone") 14) (delete_service "a.example") stale).0
    ≡ ok (payload "gone")
unfolding handler_runs
deletion_runs = refl

-- A reload of all instances between the deletion and the read.
abbrev reloading : List (Env × Other)
reloading =
    (
      env (answering "reloaded") 15,
      reload_instances (record { target = record { hostname = none; all = true }; test = false }),
    )
    ∷ []

run_write-run_read_example :
    (run_read memory (env (answering "new") 16) bans (
      after_others memory reloading
        (run_write memory (env (answering "gone") 14) (delete_service "a.example") stale).1)).0
    ≡ serialize (env (answering "new") 16) (answer (env (answering "new") 16) bans)
run_write-run_read_example =
    run_write-run_read memory (env (answering "gone") 14) (env (answering "new") 16)
      (delete_service "a.example") reloading bans stale (payload "gone") memory-Lawful
      memory-Isolated deletion_runs

abbrev archive : PluginUploadParams
archive = record {
  method = "ui";
  files = record { filename = "p.zip"; content_base64 = "AQI=" } ∷ [];
}

archive_runs : all_bytes archive.files ≡ ok (("p.zip", 1 ∷ 2 ∷ []) ∷ [])
unfolding all_bytes to_bytes decode
archive_runs = refl

plugins-start_catalog_example :
    (start_catalog
        (handle_upload_plugins (env refusing 14) archive stale).1.facts
        "http://api"
        false
        15
      ≡ requested 1)
    × (start_catalog
          (handle_delete_plugin (env refusing 14) "p" stale).1.facts
          "http://api"
          false
          15
        ≡ requested 1)
plugins-start_catalog_example =
    plugins-start_catalog (env refusing 14) archive "p" stale (("p.zip", 1 ∷ 2 ∷ []) ∷ [])
      "http://api" false 15 archive_runs

abbrev everything : InstanceTargetParams
everything = record { hostname = none; all = true }

everything_runs : exactly_one_target everything ≡ ok everything
unfolding exactly_one_target
everything_runs = refl

instance_target-ActsOn_example :
    ActsOn everything
      (handle_stop_instances memory (env refusing 14) everything stale)
      (serialize (env refusing 14) (stop_instances refusing), stale)
      (λ host. (serialize (env refusing 14) (stop_instance refusing host), stale))
    × ActsOn everything
        (handle_reload_instances memory
          (env refusing 14)
          (record { target = everything; test = true })
          stale)
        (serialize (env refusing 14) (send_reloads refusing true), stale)
        (λ host. (serialize (env refusing 14) (reload_instance refusing host true), stale))
instance_target-ActsOn_example =
    instance_target-ActsOn memory (env refusing 14) everything everything true stale everything_runs
