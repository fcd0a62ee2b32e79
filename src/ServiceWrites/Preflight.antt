-- ===== src/ServiceWrites/Preflight.antt =====
-- `preflight_update` of src/bunkerweb_mcp/tools/service_writes.py. What BunkerWeb answers to each
-- read, and when, is an argument; no other task changes the fact caches during the call.
use bunkerweb_mcp.Prelude.{
  ℕ, String, Bool, true, false, not, ◌&&◌, ◌||◌, List, [], ◌∷◌, map, Option, none, some, ◌==◌, ◌<>◌,
  join, eqb, has_prefix, if◌then◌else◌,
}
use bunkerweb_mcp.Prelude.Dict.{Dict, lookup, insert}
use bunkerweb_mcp.Json.{Value, str, obj, bool, Fields, get}
use bunkerweb_mcp.Errors.{Error, bunkerweb_error, tool_validation_error, Result, ok, err, ◌>>=◌}
use bunkerweb_mcp.Upstream.{UpstreamVersion, api_can_replace, rename_supported}
use bunkerweb_mcp.Upstream.Facts.{Facts, Catalog, get_upstream_version, get_setting_catalog}
use bunkerweb_mcp.ServiceWrites.{
  ServiceUpdateParams, unavailable, stored_text, service_data, per_service,
}

-- The answers to the reads of one call, and the times of the reads that fill a cache.
pub record Reads : Type 0 where
  pub base_url : String
  pub global_config : Result Value
  pub service : Result Value
  pub plugins : Result Value
  pub plugins_now : ℕ
  pub plugins_later : ℕ
  pub openapi : Result (Option String)
  pub openapi_now : ℕ
  pub openapi_later : ℕ
  pub plugins_again : Result Value
  pub again_now : ℕ
  pub again_later : ℕ

pub record Preflight : Type 0 where
  pub variables : Dict String
  pub server_name : Option String
  pub is_draft : Option Bool
  pub skipped : Dict String

-- The global setting MULTISITE; any failure of the read is an unavailable validation.
unfoldable pub read_multisite : Result Value → Result String
read_multisite (ok (obj settings)) = elim (get "MULTISITE" settings) [
  | none ↦ err (unavailable "global settings")
  | some v ↦ elim v [ str s ↦ ok s | _ ↦ err (unavailable "global settings") ]
]
read_multisite r = err (unavailable "global settings")

-- exc.status == 404
abbrev pub is_not_found : Error → Bool
is_not_found (bunkerweb_error m (some status)) = eqb status 404
is_not_found e = false

-- The three `except` clauses around the read of the service.
unfoldable pub service_error : String → Error → Error
service_error service e =
    if is_not_found e
    then tool_validation_error ("Service " <> service <> " not found; nothing was sent.")
    else unavailable "the service"

unfoldable pub read_service : String → Result Value → Result Fields
read_service service answer = elim (answer >>= service_data) [
  | ok settings ↦ ok settings
  | err e ↦ err (service_error service e)
]

abbrev pub variables_of : ServiceUpdateParams → Dict String
variables_of params = elim params.variables [ none ↦ [] | some variables ↦ variables ]

abbrev pub is_empty {ℓ} : {A : Type ℓ} → List A → Bool
is_empty [] = true
is_empty (x ∷ xs) = false

abbrev pub is_none {ℓ} : {A : Type ℓ} → Option A → Bool
is_none none = true
is_none (some a) = false

-- key.startswith(f"{params.service}_"), or the same of the new server name
unfoldable pub is_prefixed : ServiceUpdateParams → String → Bool
is_prefixed params key =
    has_prefix (params.service <> "_") key
    || elim params.server_name [ none ↦ false | some name ↦ has_prefix (name <> "_") key ]

abbrev is_false : Option Value → Bool
is_false (some (bool false)) = true
is_false v = false

-- entry.get("method", "") of an entry whose method, if any, is a text
abbrev pub method_of : Option Value → String
method_of (some (str s)) = s
method_of v = ""

-- The owner that keeps the API from replacing a stored entry by the requested value, if any.
unfoldable pub blocking_owner : Option UpstreamVersion → Option Value → String → Option String
blocking_owner version (some (obj entry)) requested =
    let owner = method_of (get "method" entry) in
    if is_false (get "global" entry)
      && not (owner == "default")
      && not (elim (stored_text (obj entry)) [ none ↦ false | some text ↦ text == requested ])
      && not (api_can_replace owner version)
    then some owner
    else none
blocking_owner version entry requested = none

-- The locals of the loop.
pub record Sorting : Type 0 where
  pub catalog : Catalog
  pub facts : Facts
  pub refreshed : Bool
  pub variables : Dict String
  pub skipped : Dict String

unfoldable pub skip : Sorting → String → String → Sorting
skip s key code = record s { skipped = insert key code s.skipped }

unfoldable pub send : Sorting → String → String → Sorting
send s key requested = record s { variables = insert key requested s.variables }

-- The loop goes on with a catalog that was read anew, if there is one.
unfoldable pub adopt : Sorting → Option Catalog × Facts → Result Sorting
adopt s (none, facts) = err (unavailable "the setting catalog")
adopt s (some catalog, facts) = ok (record s { catalog = catalog; facts = facts; refreshed = true })

-- A setting that the catalog does not know as a per-service one makes the loop read the catalog
-- anew, once.
unfoldable pub refresh_for : Reads → Sorting → String → Result Sorting
refresh_for reads s key =
    if not (per_service key s.catalog) && not s.refreshed
    then adopt s (
        get_setting_catalog s.facts reads.base_url true reads.again_now reads.plugins_again
          reads.again_later)
    else ok s

-- A key that is neither SERVER_NAME nor prefixed, with the catalog in hand.
unfoldable pub sort_known : Fields → Option UpstreamVersion → Sorting → String → String → Sorting
sort_known service version s key requested =
    if not (per_service key s.catalog)
    then skip s key "unknown"
    else elim (blocking_owner version (get key service) requested) [
      | none ↦ send s key requested
      | some owner ↦ skip s key ("owned:" <> owner)
    ]

-- One round of the loop.
unfoldable pub sort_one :
    Reads
    → ServiceUpdateParams
    → Fields
    → Option UpstreamVersion
    → Sorting
    → String
    → String
    → Result Sorting
sort_one reads params service version s key requested =
    if key == "SERVER_NAME"
    then ok (skip s key "server_name_in_variables")
    else if is_prefixed params key
    then ok (skip s key "prefixed")
    else (do s' ← refresh_for reads s key; ok (sort_known service version s' key requested))

unfoldable pub sort_all :
    Reads
    → ServiceUpdateParams
    → Fields
    → Option UpstreamVersion
    → Sorting
    → Dict String
    → Result Sorting
sort_all reads params service version s [] = ok s
sort_all reads params service version s ((key, requested) ∷ rest) =
    sort_one reads params service version s key requested >>= λ s'.
    sort_all reads params service version s' rest

-- What follows the loop.
unfoldable pub conclude : ServiceUpdateParams → Option UpstreamVersion → Sorting → Result Preflight
conclude params version s =
    let unsupported = not (is_none params.server_name) && not (rename_supported version) in
    let server_name = if unsupported then none else params.server_name in
    let skipped =
      if unsupported then insert "server_name" "rename_unsupported" s.skipped else s.skipped in
    if is_empty s.variables && is_none server_name && is_none params.is_draft
    then err (
        tool_validation_error
          ("Nothing to send: " <> join ", " (map (λ kc. kc.0 <> " (" <> kc.1 <> ")") skipped)))
    else ok (record {
      variables = s.variables;
      server_name = server_name;
      is_draft = params.is_draft;
      skipped = skipped;
    })

-- The catalog that the call begins with; it is not read where there is no variable to check.
unfoldable pub first_catalog : Reads → ServiceUpdateParams → Facts → Result (Catalog × Facts)
first_catalog reads params facts =
    if is_empty (variables_of params)
    then ok ([], facts)
    else (let (found, facts') =
          get_setting_catalog facts reads.base_url false reads.plugins_now reads.plugins
            reads.plugins_later in
        elim found [
          | none ↦ err (unavailable "the setting catalog")
          | some catalog ↦ ok (catalog, facts')
        ])

-- The call after the version is known: what it returns or raises, and the fact caches after it. A
-- refresh that fails leaves the caches as they were.
unfoldable pub preflight_known :
    Reads
    → ServiceUpdateParams
    → Fields
    → String
    → Catalog
    → Option UpstreamVersion
    → Facts
    → Result Preflight × Facts
preflight_known reads params service multisite catalog version facts =
    if not (multisite == "yes")
    then (
      err (
          tool_validation_error
            "MULTISITE is not yes: per-service settings do not apply in single-site mode; nothing was sent."),
      facts,
    )
    else elim (sort_all reads params service version
        (record {
          catalog = catalog;
          facts = facts;
          refreshed = false;
          variables = [];
          skipped = [];
        })
        (variables_of params)) [
          | err e ↦ (err e, facts)
          | ok s ↦ (conclude params version s, s.facts)
        ]

unfoldable pub preflight_update : Reads → ServiceUpdateParams → Facts → Result Preflight × Facts
preflight_update reads params facts = elim (read_multisite reads.global_config) [
  | err e ↦ (err e, facts)
  | ok multisite ↦ elim (read_service params.service reads.service) [
    | err e ↦ (err e, facts)
    | ok service ↦ elim (first_catalog reads params facts) [
      | err e ↦ (err e, facts)
      | ok (catalog, facts') ↦
          let (version, facts'') =
            get_upstream_version facts' reads.base_url reads.openapi_now reads.openapi
              reads.openapi_later in
          preflight_known reads params service multisite catalog version facts''
    ]
  ]
]

-- Names what a run computes with, for tests.
unfoldable pub preflight_runs : Unit {0}
unfolding preflight_update preflight_known conclude first_catalog sort_all sort_one sort_known
    refresh_for adopt send skip blocking_owner is_prefixed read_service service_error read_multisite
    get insert lookup unavailable stored_text service_data per_service api_can_replace
    rename_supported get_upstream_version get_setting_catalog
preflight_runs = tt
