-- ===== src/Upstream/Freshness.antt =====
-- How long the upstream facts are kept, and that an invalidation outlives the requests in flight.
use bunkerweb_mcp.Prelude.{
  ℕ, ◌+◌, ◌≤◌, ◌<◌, ◌≡◌, refl, sym, subst, String, List, [], ◌∷◌, Option, none, some, eq_refl,
  arith, lt→ltb, All,
}
use bunkerweb_mcp.Prelude.Dict.{lookup, insert, lookup-insert}
use bunkerweb_mcp.Json.{Value}
use bunkerweb_mcp.Errors.{Result}
use bunkerweb_mcp.Upstream.{UpstreamVersion}
use bunkerweb_mcp.Upstream.Facts.{
  Facts, fresh, version_of, ttl_of, get_upstream_version, finish_catalog,
  invalidate_setting_catalog,
}

-- What other tasks may do to the catalogs while a request is in flight.
pub data Event : Type 0 where
  finished : (base_url : String) (generation : ℕ) → Result Value → ℕ → Event
  invalidated : Event

unfoldable pub step : Facts → Event → Facts
step facts (finished base_url generation answer later) =
    (finish_catalog facts base_url generation answer later).1
step facts invalidated = invalidate_setting_catalog facts

unfoldable pub run : Facts → List Event → Facts
run facts [] = facts
run facts (e ∷ es) = run (step facts e) es

-- The event's request, if it is one, began in generation `g` or before.
abbrev pub BeganBy : ℕ → Event → Type 0
BeganBy g (finished base_url generation answer later) = generation ≤ g
BeganBy g invalidated = Unit

finish_catalog_stale :
    (facts : Facts) (base_url : String) (generation : ℕ) (answer : Result Value) (later : ℕ)
    → generation < facts.generation
    → (finish_catalog facts base_url generation answer later).1 ≡ facts
unfolding finish_catalog
finish_catalog_stale facts base_url generation answer later h = ground arith

run_stale :
    (g : ℕ) (facts : Facts) (events : List Event)
    → g < facts.generation
    → facts.catalogs ≡ []
    → All (BeganBy g) events
    → (run facts events).catalogs ≡ []
unfolding run step invalidate_setting_catalog
run_stale g facts [] h e a = e
run_stale g facts (finished base_url generation answer later ∷ events) h e (le, a) =
    subst (λ f. (run f events).catalogs ≡ [])
      (sym (finish_catalog_stale facts base_url generation answer later (omega arith)))
      (run_stale g facts events h e a)
run_stale g facts (invalidated ∷ events) h e (_, a) =
    run_stale g (invalidate_setting_catalog facts) events (omega arith) refl a

-- After an invalidation no request that began before it fills the catalog cache again, however
-- these requests and further invalidations are interleaved.
pub invalidate-run :
    (facts : Facts) (events : List Event)
    → All (BeganBy facts.generation) events
    → (run (invalidate_setting_catalog facts) events).catalogs ≡ []
unfolding invalidate_setting_catalog
invalidate-run facts events a =
    run_stale facts.generation (invalidate_setting_catalog facts) events (omega arith) refl a

module _ (facts : Facts) (base_url : String) (now : ℕ) (answer : Result (Option String))
    (later : ℕ) where
  -- What a query that misses stores.
  get_upstream_version_miss :
      fresh now (lookup base_url facts.versions) ≡ none
      → get_upstream_version facts base_url now answer later ≡ (
        version_of answer,
        record facts {
          versions =
              insert base_url
                (later + ttl_of (version_of answer), version_of answer)
                facts.versions;
        },
      )
  unfolding get_upstream_version
  get_upstream_version_miss h = rw (h, get_upstream_version) refl

  get_upstream_version_hit :
      (v : Option UpstreamVersion)
      → fresh now (lookup base_url facts.versions) ≡ some v
      → get_upstream_version facts base_url now answer later ≡ (v, facts)
  unfolding get_upstream_version
  get_upstream_version_hit v h = rw (h, get_upstream_version) refl

fresh-insert :
    (facts : Facts) (base_url : String) (expiry now : ℕ) (v : Option UpstreamVersion)
    → now < expiry
    → fresh now (lookup base_url (insert base_url (expiry, v) facts.versions)) ≡ some v
fresh-insert facts base_url expiry now v lt =
    rw (lookup-insert base_url base_url (expiry, v) facts.versions)
      (rw (eq_refl base_url) (rw (lt→ltb now expiry lt) refl))

-- After a query that had to ask BunkerWeb, every query for the same address until the time to live
-- has passed (ten minutes, or thirty seconds for an unknown version) gives the same version,
-- whatever BunkerWeb would answer, and changes nothing.
pub get_upstream_version_again :
    (facts : Facts) (base_url : String) (now : ℕ) (answer : Result (Option String)) (later : ℕ)
    (now' : ℕ) (answer' : Result (Option String)) (later' : ℕ)
    → fresh now (lookup base_url facts.versions) ≡ none
    → now' < later + ttl_of (version_of answer)
    → get_upstream_version
        (get_upstream_version facts base_url now answer later).1
        base_url
        now'
        answer'
        later'
      ≡ get_upstream_version facts base_url now answer later
get_upstream_version_again facts base_url now answer later now' answer' later' h lt =
    rw (get_upstream_version_miss facts base_url now answer later h) (
      get_upstream_version_hit _ base_url now' answer' later' (version_of answer) (
        fresh-insert facts base_url (later + ttl_of (version_of answer)) now' (version_of answer)
          lt))
