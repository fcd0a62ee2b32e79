-- ===== src/ServiceWrites/Tests.antt =====
-- A service update on concrete answers, and the theorems at it.
use bunkerweb_mcp.Prelude.{
  ◌≡◌, refl, String, true, false, ◌&&◌, ◌||◌, [], ◌∷◌, none, some, All, ◌⊎◌,
}
use bunkerweb_mcp.Prelude.Dict.{Dict, lookup, has, Listed}
use bunkerweb_mcp.Json.{Value, bool, str, arr, obj, nil, cons, Fields, end, field}
use bunkerweb_mcp.Errors.{ok, err, bunkerweb_error, tool_validation_error}
use bunkerweb_mcp.Upstream.{version, rename_supported}
use bunkerweb_mcp.Upstream.Facts.{Facts}
use bunkerweb_mcp.ServiceWrites.{ServiceUpdateParams}
use bunkerweb_mcp.ServiceWrites.Preflight.{
  Reads, Preflight, preflight_update, preflight_runs, variables_of, is_empty, is_none,
}
use bunkerweb_mcp.ServiceWrites.Sorting.{IsSendable}
use bunkerweb_mcp.ServiceWrites.Promises.{
  Readings, version_in, preflight_update-sends, preflight_update-covers, preflight_update-renames,
}
use bunkerweb_mcp.ServiceWrites.Receipt.{build_receipt, sent_fields, compared}
use bunkerweb_mcp.ServiceWrites.Verified.{IsStored, compared-verified}

abbrev plugins : Value
plugins = arr (
    cons
      (obj (
        field "settings"
          (obj (
            field "USE_ANTIBOT" (obj (field "context" (str "multisite") end))
              (field "USE_GZIP" (obj (field "context" (str "multisite") end)) end)))
          end))
      nil)

abbrev stored : Fields
stored =
    field "USE_ANTIBOT"
      (obj
        (field "value" (str "no") (field "method" (str "api") (field "global" (bool false) end))))
      (field "USE_GZIP"
        (obj (
          field "value" (str "no")
            (field "method" (str "scheduler") (field "global" (bool false) end))))
        (field "IS_DRAFT" (str "no") end))

abbrev reads : Reads
reads = record {
  base_url = "http://a";
  global_config = ok (obj (field "MULTISITE" (str "yes") end));
  service = ok (obj stored);
  plugins = ok plugins;
  plugins_now = 1;
  plugins_later = 2;
  openapi = ok (some "1.6.15");
  openapi_now = 3;
  openapi_later = 4;
  plugins_again = ok plugins;
  again_now = 5;
  again_later = 6;
}

abbrev facts : Facts
facts = record { versions = []; catalogs = []; generation = 0 }

abbrev update : Dict String → ServiceUpdateParams
update variables = record {
  service = "a.example";
  server_name = some "b.example";
  is_draft = some false;
  variables = some variables;
}

abbrev mixed : ServiceUpdateParams
mixed = update (
    ("USE_ANTIBOT", "javascript")
    ∷ ("USE_GZIP", "yes")
    ∷ ("b.example_USE_GZIP", "yes")
    ∷ ("NOPE", "1")
    ∷ ("SERVER_NAME", "x")
    ∷ [])

abbrev mixed_sent : Preflight
mixed_sent = record {
  variables = ("USE_ANTIBOT", "javascript") ∷ [];
  server_name = some "b.example";
  is_draft = some false;
  skipped =
      ("USE_GZIP", "owned:scheduler")
      ∷ ("b.example_USE_GZIP", "prefixed")
      ∷ ("NOPE", "unknown")
      ∷ ("SERVER_NAME", "server_name_in_variables")
      ∷ [];
}

mixed_accepted : (preflight_update reads mixed facts).0 ≡ ok mixed_sent
unfolding preflight_runs
mixed_accepted = refl

not_found :
    (preflight_update
      (record reads { service = err (bunkerweb_error "no" (some 404)) })
      mixed
      facts).0
    ≡ err (tool_validation_error "Service a.example not found; nothing was sent.")
unfolding preflight_runs
not_found = refl

antibot_sent : lookup "USE_ANTIBOT" mixed_sent.variables ≡ some "javascript"
unfolding lookup
antibot_sent = refl

preflight_update-sends_example :
    (u : Readings reads mixed facts) × Listed "USE_ANTIBOT" "javascript" (variables_of mixed)
    × IsSendable reads mixed u.service (version_in u) u.first "USE_ANTIBOT" "javascript"
preflight_update-sends_example =
    preflight_update-sends reads mixed facts mixed_sent "USE_ANTIBOT" "javascript" mixed_accepted
      antibot_sent

preflight_update-covers_example :
    All
      (λ kv. (has kv.0 mixed_sent.variables || has kv.0 mixed_sent.skipped) ≡ true)
      (variables_of mixed)
preflight_update-covers_example =
    preflight_update-covers reads mixed facts mixed_sent mixed_accepted

preflight_update-renames_example :
    (u : Readings reads mixed facts) × ((is_empty mixed_sent.variables
        && is_none mixed_sent.server_name
        && is_none mixed_sent.is_draft)
      ≡ false)
    × (mixed_sent.is_draft ≡ mixed.is_draft)
    × ((mixed_sent.server_name ≡ none)
        ⊎ ((mixed_sent.server_name ≡ mixed.server_name) × (rename_supported (version_in u) ≡ true)))
preflight_update-renames_example =
    preflight_update-renames reads mixed facts mixed_sent mixed_accepted

abbrev single : ServiceUpdateParams
single = update (("USE_ANTIBOT", "javascript") ∷ [])

abbrev single_sent : Preflight
single_sent = record mixed_sent { skipped = [] }

single_accepted : (preflight_update reads single facts).0 ≡ ok single_sent
unfolding preflight_runs
single_accepted = refl

abbrev updated : Fields
updated = field "USE_ANTIBOT" (str "javascript") (field "IS_DRAFT" (str "no") end)

single_verified : (compared single single_sent updated (some (version 1 6 15)) []).verified ≡ true
unfolding compared
single_verified = refl

compared-verified_example :
    (single_sent.skipped ≡ [])
    × All (λ kv. has kv.0 single_sent.variables ≡ true) (variables_of single)
    × All (IsStored updated) (sent_fields single_sent)
compared-verified_example =
    compared-verified reads single facts single_sent updated (some (version 1 6 15)) []
      single_accepted single_verified

mixed_receipt :
    (build_receipt mixed mixed_sent (ok (obj stored)) "http://a" 7 (ok (some "1.6.15")) 8 facts).0
    ≡ field "summary" (str "DB PARTIAL (2/7 MATCH, 4 SKIPPED). LIVE UNVERIFIED.") (
        field "receipt"
          (obj (
            field "db" (str "partial") (
              field "issues"
                (obj (
                  field "USE_GZIP" (str "skipped:owned:scheduler") (
                    field "b.example_USE_GZIP" (str "skipped:prefixed") (
                      field "NOPE" (str "skipped:unknown") (
                        field "SERVER_NAME"
                          (str "skipped:server_name_in_variables")
                          (field "USE_ANTIBOT" (str "not_matched") end))))))
                (field "hints"
                  (obj (
                    field "owned:scheduler"
                      (str
                        "Set in the scheduler's environment (variables.env on Linux, environment: in Docker); change it there.")
                      (field "prefixed" (str "Use the setting name without the service prefix.") (
                        field "unknown"
                          (str
                            "Not a per-service setting on this BunkerWeb; check the exact uppercase name.")
                          (field "server_name_in_variables"
                            (str "Use the server_name parameter to rename a service.")
                            (field "not_matched"
                              (str "Sent, but the database does not show the requested value.")
                              end))))))
                  end))))
          end)
unfolding preflight_runs build_receipt
mixed_receipt = refl
