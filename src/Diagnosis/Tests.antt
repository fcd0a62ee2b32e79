-- ===== src/Diagnosis/Tests.antt =====
-- A diagnosis of a control plane that knows no service, and the theorems at it.
use bunkerweb_mcp.Prelude.{◌≡◌, refl, String, true, [], some, ◌==◌, if◌then◌else◌}
use bunkerweb_mcp.Prelude.Dict.{lookup, insert}
use bunkerweb_mcp.Prelude.Decimal.{show}
use bunkerweb_mcp.Json.{Value, str, arr, obj, nil, cons, end, field, get}
use bunkerweb_mcp.Errors.{Result, ok, err, bunkerweb_error}
use bunkerweb_mcp.Client.{
  Response, request, request_json, retry_from, settle, json_of, is_retryable,
}
use bunkerweb_mcp.Client.Segment.{segment, quote}
use bunkerweb_mcp.Client.Nodes.{ping, list_instances, get_openapi_version}
use bunkerweb_mcp.Client.Resources.{read_global_config, get_service, is_not_found}
use bunkerweb_mcp.Upstream.{parse_version}
use bunkerweb_mcp.Handlers.{Env}
use bunkerweb_mcp.Handlers.Services.{data_of}
use bunkerweb_mcp.Diagnosis.{
  is_reachable, is_up, count_instances, instance_counts, shown_version, multisite_of, owners_from,
  owner_of, draft_of, service_found, is_missing, service_of, instances_part, diagnose, summary,
  report, answers_of, handle_diagnose, ServiceReport,
}
use bunkerweb_mcp.Diagnosis.Blindness.{
  blind_answers, Verdict, handle_diagnose-blind, diagnose-Verdict,
}

abbrev instances : Value
instances =
    arr (
      cons (obj (field "status" (str "up") end)) (cons (obj (field "status" (str "down") end)) nil))

abbrev response : Value → Response
response v = record {
  status_code = 200;
  json = some (obj (field "data" v end));
  text = "";
  status_error = "";
  content_type = "application/json";
  content = [];
}

abbrev answer : String → Result Response
answer url =
    if url == "/services/gone"
    then err (bunkerweb_error "no such service: secret" (some 404))
    else ok (
        response
          (if url == "/instances" then instances else obj (field "MULTISITE" (str "yes") end)))

abbrev env : Env
env = record {
  client = record {
    max_retries = 1;
    attempt = λ req n. answer req.url;
    model_validate = λ model v. ok v;
    repr = λ v. "{}";
  };
  base_url = "http://admin:pw@api:8888";
  dump = λ v. end;
  validate = λ model v. ok v;
  cache_enabled = true;
  now = 0;
  later = 0;
}

diagnosis_runs : Unit {0}
unfolding handle_diagnose report summary diagnose answers_of is_reachable is_up count_instances
    instance_counts shown_version parse_version multisite_of owners_from owner_of draft_of
    service_found is_missing service_of instances_part request request_json retry_from settle
    json_of is_retryable segment quote ping list_instances get_openapi_version read_global_config
    get_service is_not_found data_of lookup insert show get
diagnosis_runs = tt

summary_runs :
    get "summary" (handle_diagnose env "admin:pw@api:8888" (some "gone"))
    ≡ some (str "API OK · AUTH OK · MULTISITE=yes · 2 instances (1 up) · SERVICE FAIL")
unfolding diagnosis_runs
summary_runs = refl

handle_diagnose-blind_example :
    handle_diagnose env "admin:pw@api:8888" (some "gone")
    ≡ report "admin:pw@api:8888" (diagnose (blind_answers (answers_of env (some "gone"))) true)
handle_diagnose-blind_example = handle_diagnose-blind env "admin:pw@api:8888" (some "gone")

diagnose-Verdict_example :
    (r : ServiceReport) × ((diagnose (answers_of env (some "gone")) true).service ≡ some r)
    × Verdict (data_of (get_service env.client "gone" true true true)) r.exists
diagnose-Verdict_example = diagnose-Verdict env "gone"
