-- ===== src/Cache.antt =====
-- src/bunkerweb_mcp/cache.py: the cache of read-only calls, over the in-memory cache of aiocache.
pub mod Memory
use bunkerweb_mcp.Prelude.{ℕ, ◌+◌, ◌<◌, ◌≡◌, String, List, [], ◌∷◌, Option, none, some}
use bunkerweb_mcp.Prelude.Dict.{Dict}
use bunkerweb_mcp.Json.{Fields}
use bunkerweb_mcp.Errors.{Result, ok, err}

-- What aiocache offers, on its state `S`. Times are numbers of ticks, one to the second, and the
-- values are the dicts that the handlers return.
pub record Backend (S : Type 0) : Type 0 where
  pub get : S → ℕ → String → Option Fields
  pub set : S → ℕ → String → Fields → ℕ → S
  pub clear : S → S

-- What its documentation says: a value stays for its time to live, and `clear` removes all.
pub record Lawful (S : Type 0) (cache : Backend S) : Type 0 where
  pub get-set :
      (s : S) (now later : ℕ) (key : String) (value : Fields) (ttl : ℕ)
      → later < now + ttl
      → cache.get (cache.set s now key value ttl) later key ≡ some value
  pub get-clear : (s : S) (now : ℕ) (key : String) → cache.get (cache.clear s) now key ≡ none

-- CACHE_TTL
abbrev pub cache_ttl : Dict ℕ
cache_ttl =
    ("list_services", 300)
    ∷ ("get_service", 300)
    ∷ ("get_global_config", 600)
    ∷ ("list_instances", 60)
    ∷ ("get_instance", 60)
    ∷ ("list_bans", 30)
    ∷ ("list_configs", 300)
    ∷ ("get_config", 300)
    ∷ ("list_plugins", 600)
    ∷ ("list_cache_files", 120)
    ∷ ("list_jobs", 120)
    ∷ []

module _ {S : Type 0} (cache : Backend S) where
  -- The end of `get_cached` after `fetch_func` has returned or raised, at the time `later`. Other
  -- tasks may have run since its beginning, so the state is the one of that time.
  unfoldable pub finish_fetch : String → ℕ → Result Fields → ℕ → S → Result Fields × S
  finish_fetch key ttl (ok value) later s = (ok value, cache.set s later key value ttl)
  finish_fetch key ttl (err e) later s = (err e, s)

  -- `get_cached` where no other task runs in between; `fetched` is what `fetch_func` would return.
  unfoldable pub get_cached : String → ℕ → ℕ → Result Fields → ℕ → S → Result Fields × S
  unfolding finish_fetch
  get_cached key ttl now fetched later s = elim (cache.get s now key) [
    | some value ↦ (ok value, s)
    | none ↦ finish_fetch key ttl fetched later s
  ]

  -- The pattern is ignored: every mutation clears the whole cache.
  unfoldable pub invalidate_cache : String → S → S
  invalidate_cache pattern s = cache.clear s
