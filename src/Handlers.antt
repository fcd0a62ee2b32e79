-- ===== src/Handlers.antt =====
-- What the tool handlers of src/bunkerweb_mcp/tools/ share: the state that they change, the control
-- plane that they call, and the two ways in which they use the cache of src/bunkerweb_mcp/cache.py.
-- The handlers are in the child modules, one for each *_handlers.py.
pub mod Params
pub mod Services
pub mod Instances
pub mod Bans
pub mod Configs
pub mod Files
pub mod Plugins
pub mod Jobs
pub mod Keys
pub mod Calls
pub mod Agreement
pub mod Coherence
pub mod Targets
pub mod Freshness
mod Tests
use bunkerweb_mcp.Prelude.{
  ℕ, String, Bool, true, false, List, [], ◌∷◌, Option, none, some, ◌==◌, if◌then◌else◌,
}
use bunkerweb_mcp.Prelude.Dict.{Dict, lookup}
use bunkerweb_mcp.Json.{
  ℤ, pos, Value, null, bool, int, str, arr, obj, Items, nil, cons, Fields, end, field,
}
use bunkerweb_mcp.Errors.{Error, other_error, Result, ok, err, ◌>>=◌}
use bunkerweb_mcp.Upstream.Facts.{Facts}
use bunkerweb_mcp.Client.{Client}
use bunkerweb_mcp.Cache.{Backend, cache_ttl, get_cached, invalidate_cache}

-- The pydantic models of the payloads, in schemas/.
pub data PayloadModel : Type 0 where
  service_create_request : PayloadModel
  service_update_request : PayloadModel
  instance_create_request : PayloadModel
  instance_update_request : PayloadModel
  instances_delete_request : PayloadModel
  ban_request_model : PayloadModel
  unban_request_model : PayloadModel
  config_key : PayloadModel
  config_create_request : PayloadModel
  config_update_request : PayloadModel
  configs_delete_request : PayloadModel
  global_config_update : PayloadModel
  cache_file_key : PayloadModel
  cache_files_delete_request : PayloadModel
  job_item : PayloadModel
  run_jobs_request : PayloadModel

-- What surrounds one call: the control plane as the client sees it, pydantic (`validate` makes the
-- payload that the client sends of a dict, or raises; `dump` is `model_dump(mode="json",
-- exclude_none=True)` of an answer), the setting CACHE_ENABLED, and the times at which the call reads
-- the cache and at which its request has been answered. No other task runs during a call.
pub record Env : Type 0 where
  pub client : Client
  pub base_url : String
  pub dump : Value → Fields
  pub validate : PayloadModel → Value → Result Value
  pub cache_enabled : Bool
  pub now : ℕ
  pub later : ℕ

-- The module state that the handlers change: the response cache, and the caches of upstream.py.
pub record State (S : Type 0) : Type 0 where
  pub cached : S
  pub facts : Facts

-- What a handler does with the state.
abbrev pub Action : Type 0 → Type 0
Action S = State S → Result Fields × State S

module _ (e : Env) where
  -- `_serialize_response` of what a request answers.
  unfoldable pub serialize : Result Value → Result Fields
  serialize answer = do response ← answer; ok (e.dump response)

  -- A handler that neither reads nor changes the state.
  abbrev pub passing : {S : Type 0} → Result Value → Action S
  passing answer s = (serialize answer, s)

module _ {S : Type 0} (cache : Backend S) (e : Env) where
  -- get_cached, on the response cache
  abbrev pub fetch_through : String → Option ℕ → Result Fields → Action S
  fetch_through key none fetched s = (err (other_error "KeyError"), s)
  fetch_through key (some ttl) fetched s =
      let (result, cached) = get_cached cache key ttl e.now fetched e.later s.cached in
      (result, record { cached = cached; facts = s.facts })

  -- A read: through the cache where it is enabled, with the time to live CACHE_TTL[name].
  unfoldable pub read_through : String → String → Result Value → Action S
  unfolding serialize lookup get_cached
  read_through key name answer s =
      if e.cache_enabled
      then fetch_through key (lookup name cache_ttl) (serialize e answer) s
      else (serialize e answer, s)

  -- A mutation: an error leaves the state, and an answer clears the cache.
  unfoldable pub mutate : String → Result Value → Action S
  unfolding invalidate_cache
  mutate pattern (err x) s = (err x, s)
  mutate pattern (ok response) s = (
    ok (e.dump response),
    record { cached = invalidate_cache cache pattern s.cached; facts = s.facts },
  )

-- str(flag)
abbrev pub show_flag : Bool → String
show_flag b = if b then "True" else "False"

abbrev pub text_or_null : Option String → Value
text_or_null none = null
text_or_null (some s) = str s

abbrev pub flag_or_null : Option Bool → Value
flag_or_null none = null
flag_or_null (some b) = bool b

abbrev pub texts : Dict String → Fields
texts [] = end
texts ((key, value) ∷ d) = field key (str value) (texts d)

abbrev pub texts_or_null : Option (Dict String) → Value
texts_or_null none = null
texts_or_null (some d) = obj (texts d)

abbrev pub strings : List String → Items
strings [] = nil
strings (s ∷ rest) = cons (str s) (strings rest)

-- key: value, where the value is not None
abbrev pub text_field : String → Option String → Fields → Fields
text_field key none fs = fs
text_field key (some s) fs = field key (str s) fs

abbrev pub number_field : String → Option ℕ → Fields → Fields
number_field key none fs = fs
number_field key (some n) fs = field key (int (pos n)) fs

abbrev pub flag_field : String → Option Bool → Fields → Fields
flag_field key none fs = fs
flag_field key (some b) fs = field key (bool b) fs

-- d[key] = value
abbrev pub put : String → Value → Fields → Fields
put key value end = field key value end
put key value (field k v fs) = if k == key then field k value fs else field k v (put key value fs)

-- {**a, **b}
abbrev pub merge : Fields → Fields → Fields
merge fs end = fs
merge fs (field k v gs) = merge (put k v fs) gs

-- [validate(model, item) for item in items]
unfoldable pub validate_all : (Value → Result Value) → List Value → Result (List Value)
validate_all validate [] = ok []
validate_all validate (v ∷ vs) = do
  first ← validate v
  rest ← validate_all validate vs
  ok (first ∷ rest)

abbrev pub items_of : List Value → Items
items_of [] = nil
items_of (v ∷ vs) = cons v (items_of vs)
