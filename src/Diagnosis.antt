-- ===== src/Diagnosis.antt =====
-- src/bunkerweb_mcp/tools/diagnose_handlers.py: the checks of the control plane, of which each may
-- fail without the others. `netloc` is what `urlsplit` finds in the base URL.
pub mod Blindness
mod Tests
use bunkerweb_mcp.Prelude.{
  ℕ, suc, ◌+◌, String, Bool, true, false, not, ◌&&◌, ◌||◌, List, [], ◌∷◌, Option, none, some, ◌==◌,
  ◌<>◌, eqb, join, after_last, if◌then◌else◌,
}
use bunkerweb_mcp.Prelude.Dict.{Dict, lookup, insert}
use bunkerweb_mcp.Prelude.Decimal.{show}
use bunkerweb_mcp.Json.{
  pos, Value, null, bool, int, str, arr, obj, Items, nil, cons, Fields, end, field, get,
}
use bunkerweb_mcp.Errors.{Error, bunkerweb_error, Result, ok, err}
use bunkerweb_mcp.Client.Nodes.{ping, list_instances, get_openapi_version}
use bunkerweb_mcp.Client.Resources.{read_global_config, get_service}
use bunkerweb_mcp.Upstream.{parse_version}
use bunkerweb_mcp.Handlers.{Env}
use bunkerweb_mcp.Handlers.Services.{data_of}

-- What the requests answer: the ping, the `data` of the others, and the version of the schema.
pub record Answers : Type 0 where
  pub pong : Result Value
  pub instances : Result Value
  pub version : Option String
  pub config : Result Value
  pub service : Result Value

unfoldable pub is_reachable : Result Value → Bool
is_reachable (ok pong) = true
is_reachable (err e) = false

-- instance.get("status") == "up", none where the instance is no dict
abbrev pub is_up_status : Option Value → Bool
is_up_status (some (str s)) = s == "up"
is_up_status v = false

unfoldable pub is_up : Value → Option Bool
unfolding get
is_up (obj fs) = some (is_up_status (get "status" fs))
is_up v = none

abbrev pub count_one : Bool → ℕ × ℕ → ℕ × ℕ
count_one up (total, running) = (suc total, if up then suc running else running)

abbrev pub count_next : Option Bool → Option (ℕ × ℕ) → Option (ℕ × ℕ)
count_next none later = none
count_next (some up) none = none
count_next (some up) (some counts) = some (count_one up counts)

-- How many instances there are, and how many are up.
unfoldable pub count_instances : Items → Option (ℕ × ℕ)
unfolding is_up
count_instances nil = some (0, 0)
count_instances (cons v vs) = count_next (is_up v) (count_instances vs)

unfoldable pub instance_counts : Result Value → Option (ℕ × ℕ)
unfolding count_instances
instance_counts (ok (arr vs)) = count_instances vs
instance_counts (ok v) = none
instance_counts (err e) = none

-- A version that cannot be read is unknown.
unfoldable pub shown_version : Option String → String
unfolding parse_version
shown_version none = "unknown (strictest rules applied)"
shown_version (some raw) = elim (parse_version (some raw)) [
  | none ↦ "unknown (strictest rules applied)"
  | some version ↦ raw
]

abbrev pub yes_or_no : Option Value → Option String
yes_or_no (some (str s)) = if s == "yes" || s == "no" then some s else none
yes_or_no v = none

unfoldable pub multisite_of : Result Value → Option String
unfolding get
multisite_of (ok (obj settings)) = yes_or_no (get "MULTISITE" settings)
multisite_of r = none

-- The method of an entry that belongs to the service itself and is not the default.
abbrev pub own_method : Option Value → Option Value → Option String
own_method (some (bool false)) (some (str method)) =
    if method == "default" then none else some method
own_method is_global method = none

unfoldable pub owner_of : Value → Option String
unfolding get
owner_of (obj entry) = own_method (get "global" entry) (get "method" entry)
owner_of v = none

-- owners[method] = owners.get(method, 0) + 1
abbrev pub add_owner : Option String → Dict ℕ → Dict ℕ
add_owner none owners = owners
add_owner (some method) owners = insert method (one_more (lookup method owners)) owners
  where
    one_more : Option ℕ → ℕ
    one_more none = 1
    one_more (some n) = n + 1

unfoldable pub owners_from : Fields → Dict ℕ → Dict ℕ
unfolding owner_of
owners_from end owners = owners
owners_from (field key entry fs) owners = owners_from fs (add_owner (owner_of entry) owners)

abbrev pub draft_flag : Option Value → Option Bool
draft_flag (some (str s)) = if s == "yes" then some true else if s == "no" then some false else none
draft_flag v = none

-- settings.get("IS_DRAFT", {}).get("value"), as a flag; none where the entry is no dict
unfoldable pub draft_of : Option Value → Option (Option Bool)
unfolding get
draft_of none = some none
draft_of (some (obj entry)) = some (draft_flag (get "value" entry))
draft_of (some v) = none

pub record ServiceReport : Type 0 where
  pub exists : Option Bool
  pub draft : Option Bool
  pub owners : Option (Dict ℕ)

abbrev pub no_report : ServiceReport
no_report = record { exists = none; draft = none; owners = none }

unfoldable pub service_found : Fields → ServiceReport
unfolding draft_of owners_from get
service_found settings = elim (draft_of (get "IS_DRAFT" settings)) [
  | none ↦ no_report
  | some draft ↦ record {
    exists = some true;
    draft = draft;
    owners = some (owners_from settings []);
  }
]

-- exc.status == 404
unfoldable pub is_missing : Error → Bool
is_missing (bunkerweb_error m (some status)) = eqb status 404
is_missing e = false

unfoldable pub service_of : Result Value → ServiceReport
unfolding service_found is_missing
service_of (ok (obj settings)) = service_found settings
service_of (ok v) = no_report
service_of (err e) =
    if is_missing e then record { exists = some false; draft = none; owners = none } else no_report

abbrev pub ok_or_fail : Bool → String
ok_or_fail b = if b then "OK" else "FAIL"

abbrev pub text_or : String → Option String → String
text_or other none = other
text_or other (some s) = s

abbrev pub text_or_none : Option String → Value
text_or_none none = null
text_or_none (some s) = str s

abbrev pub flag_or_none : Option Bool → Value
flag_or_none none = null
flag_or_none (some b) = bool b

abbrev pub counts_in : Dict ℕ → Fields
counts_in [] = end
counts_in ((method, n) ∷ owners) = field method (int (pos n)) (counts_in owners)

abbrev pub counts_or_none : Option (Dict ℕ) → Value
counts_or_none none = null
counts_or_none (some owners) = obj (counts_in owners)

abbrev pub is_found : ServiceReport → Bool
is_found r = elim r.exists [ none ↦ false | some b ↦ b ]

unfoldable pub instances_part : Option (ℕ × ℕ) → String
unfolding show
instances_part none = "instances FAIL"
instances_part (some (total, up)) = show total <> " instances (" <> show up <> " up)"

abbrev pub service_part : Option ServiceReport → List String
service_part none = []
service_part (some r) = ("SERVICE " <> ok_or_fail (is_found r)) ∷ []

abbrev pub instances_report : Option (ℕ × ℕ) → Value
instances_report none = null
instances_report (some (total, up)) =
    obj (field "total" (int (pos total)) (field "up" (int (pos up)) end))

abbrev pub service_report : Option ServiceReport → Value
service_report none = null
service_report (some r) = obj (
    field "exists" (flag_or_none r.exists)
      (field "draft" (flag_or_none r.draft) (field "owners" (counts_or_none r.owners) end)))

-- What the checks found.
pub record Diagnosis : Type 0 where
  pub reachable : Bool
  pub auth : Bool
  pub version : String
  pub multisite : Option String
  pub instances : Option (ℕ × ℕ)
  pub service : Option ServiceReport

-- The checks, each by itself; the service is looked up only where one was named.
unfoldable pub diagnose : Answers → Bool → Diagnosis
unfolding is_reachable shown_version multisite_of instance_counts service_of
diagnose a named = record {
  reachable = is_reachable a.pong;
  auth = is_reachable a.instances;
  version = shown_version a.version;
  multisite = multisite_of a.config;
  instances = instance_counts a.instances;
  service = if named then some (service_of a.service) else none;
}

-- " · ".join(parts)
unfoldable pub summary : Diagnosis → String
unfolding instances_part
summary d = join " · " (
    ("API " <> ok_or_fail d.reachable)
    ∷ ("AUTH " <> ok_or_fail d.auth)
    ∷ ("MULTISITE=" <> text_or "?" d.multisite)
    ∷ instances_part d.instances
    ∷ service_part d.service)

-- The dict that the tool returns.
unfoldable pub report : String → Diagnosis → Fields
unfolding summary
report netloc d = field "summary" (str (summary d)) (
    field "api"
      (obj (field "host" (str (after_last b'@' netloc)) (field "reachable" (bool d.reachable) end)))
      (field "auth" (bool d.auth) (
        field "version" (str d.version) (
          field "multisite" (text_or_none d.multisite) (
            field "instances" (instances_report d.instances) (
              field "service" (service_report d.service)
                (field "live" (str "Live state cannot be checked on BunkerWeb 1.6.") end)))))))

-- The service that is looked up, where the parameters name one.
abbrev pub service_answer : Env → Option String → Result Value
service_answer e none = ok null
service_answer e (some service) = data_of (get_service e.client service true true true)

unfoldable pub answers_of : Env → Option String → Answers
unfolding ping list_instances get_openapi_version read_global_config get_service data_of
answers_of e service = record {
  pong = ping e.client;
  instances = data_of (list_instances e.client);
  version = get_openapi_version e.client;
  config = data_of (read_global_config e.client true false);
  service = service_answer e service;
}

abbrev pub is_named : Option String → Bool
is_named none = false
is_named (some service) = true

-- It never raises.
unfoldable pub handle_diagnose : Env → String → Option String → Fields
unfolding answers_of diagnose report
handle_diagnose e netloc service =
    report netloc (diagnose (answers_of e service) (is_named service))
