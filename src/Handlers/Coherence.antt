-- ===== src/Handlers/Coherence.antt =====
-- The response cache under the tools of src/bunkerweb_mcp/tools/: what it may hold, and that calls
-- return what they would return without it.
use bunkerweb_mcp.Prelude.{
  ℕ, ◌≡◌, refl, ap, ap₂, sym, ◌∙◌, subst, String, Bool, true, false, List, [], ◌∷◌, map, Option,
  none, some, Option-cases, Bool-cases, ◌⊎◌, inl, inr,
}
use bunkerweb_mcp.Json.{Fields}
use bunkerweb_mcp.Errors.{Result, ok, err}
use bunkerweb_mcp.Upstream.Facts.{Facts}
use bunkerweb_mcp.Cache.{Backend, Lawful, get_cached, finish_fetch}
use bunkerweb_mcp.Handlers.{Env, State, serialize, read_through}
use bunkerweb_mcp.Handlers.Keys.{Read, key_of, key_of-injective}
use bunkerweb_mcp.Handlers.Calls.{Call, read, write, other, answer, run_read, run, run_all}
use bunkerweb_mcp.Handlers.Agreement.{
  uncached, is_ok, run_write-WritesAlike, run_other-OthersAlike, run_read_lem, ttl_lem, name_of,
  answer-uncached,
}

-- `set` stores a value under its own key only; what is dropped does not come back.
pub record Isolated (S : Type 0) (cache : Backend S) : Type 0 where
  pub get-set-cases :
      (s : S) (now later ttl : ℕ) (key other : String) (value found : Fields)
      → cache.get (cache.set s now key value ttl) later other ≡ some found
      → ((other ≡ key) × (found ≡ value)) ⊎ (cache.get s later other ≡ some found)

-- The control plane gives both callers the same answers to the reads that are cached.
abbrev pub SameAnswers : Env → Env → Type 0
SameAnswers e e' = (r : Read) → serialize e (answer e r) ≡ serialize e' (answer e' r)

abbrev pub SameAnswersNext : Env → List (Env × Call) → Type 0
SameAnswersNext e [] = Unit
SameAnswersNext e ((e', c) ∷ calls) = SameAnswers e e'

-- A call that clears the cache: a write that succeeds.
abbrev pub clears : Call → Result Fields → Bool
clears (read r) result = false
clears (write w) result = is_ok result
clears (other o) result = false

module _ {S : Type 0} (cache : Backend S) where
  -- From a call that does not clear the cache to the next one, the answers to the cached reads
  -- stay the same.
  abbrev pub IsSteady : List (Env × Call) → State S → Type 0
  IsSteady [] s = Unit
  IsSteady ((e, c) ∷ calls) s =
      (clears c (run cache e c s).0 ≡ false → SameAnswersNext e calls)
      × IsSteady calls (run cache e c s).1

  -- What the cache would give to a read is what the control plane answers.
  abbrev pub IsCoherent : Env → S → Type 0
  IsCoherent e c =
      (r : Read) (now : ℕ) (value : Fields)
      → cache.get c now (key_of r) ≡ some value
      → serialize e (answer e r) ≡ ok value

  abbrev pub IsCoherentFirst : List (Env × Call) → S → Type 0
  IsCoherentFirst [] c = Unit
  IsCoherentFirst ((e, call) ∷ calls) c = IsCoherent e c

abbrev pub without_cache : Env × Call → Env × Call
without_cache (e, call) = (uncached e, call)

none_found : {fs : Fields} → ¬ ◌≡◌ {A = Option Fields} none (some fs)
none_found h = cc

module _ {S : Type 0} (cache : Backend S) (isolated : Isolated S cache) where
  finish_fetch-IsCoherent :
      (e : Env) (r : Read) (ttl later : ℕ) (fetched : Result Fields) (c : S)
      → IsCoherent cache e c
      → fetched ≡ serialize e (answer e r)
      → ((finish_fetch cache (key_of r) ttl fetched later c).0 ≡ serialize e (answer e r))
        × IsCoherent cache e (finish_fetch cache (key_of r) ttl fetched later c).1
  unfolding finish_fetch
  finish_fetch-IsCoherent e r ttl later (err x) c coherent same = (same, coherent)
  finish_fetch-IsCoherent e r ttl later (ok value) c coherent same = (
    same,
    λ q now found h.
        elim (isolated.get-set-cases c later now ttl (key_of r) (key_of q) value found h) [
          | inl (key, v) ↦
              subst (λ p. serialize e (answer e p) ≡ ok found) (key_of-injective r q (sym key))
                (sym same ∙ ap ok (sym v))
          | inr before ↦ coherent q now found before
        ],
  )

  get_cached-IsCoherent :
      (e : Env) (r : Read) (ttl : ℕ) (c : S)
      → IsCoherent cache e c
      → let fetched = serialize e (answer e r) in
        ((get_cached cache (key_of r) ttl e.now fetched e.later c).0 ≡ fetched)
        × IsCoherent cache e (get_cached cache (key_of r) ttl e.now fetched e.later c).1
  unfolding get_cached
  get_cached-IsCoherent e r ttl c coherent = elim (Option-cases (cache.get c e.now (key_of r))) [
    | inl miss ↦
        rw (get_cached, miss)
          (finish_fetch-IsCoherent e r ttl e.later (serialize e (answer e r)) c coherent refl)
    | inr (value, hit) ↦ rw (get_cached, hit) (sym (coherent r e.now value hit), coherent)
  ]

  read_through-IsCoherent :
      (e : Env) (r : Read) (s : State S)
      → IsCoherent cache e s.cached
      → let result = read_through cache e (key_of r) (name_of r) (answer e r) s in
        (result.0 ≡ serialize e (answer e r))
        × (result.1.facts ≡ s.facts)
        × IsCoherent cache e result.1.cached
  unfolding read_through answer
  read_through-IsCoherent e r s coherent = elim (Bool-cases e.cache_enabled) [
    | inr off ↦ rw (read_through, off) (refl, refl, coherent)
    | inl on ↦
        let (ttl, named) = ttl_lem r in
        let (same, kept) = get_cached-IsCoherent e r ttl s.cached coherent in
        rw (read_through, on, named) (same, refl, kept)
  ]

  pub run_read-IsCoherent :
      (e : Env) (r : Read) (s : State S)
      → IsCoherent cache e s.cached
      → ((run_read cache e r s).0 ≡ serialize e (answer e r))
        × ((run_read cache e r s).1.facts ≡ s.facts)
        × IsCoherent cache e (run_read cache e r s).1.cached
  run_read-IsCoherent e r s coherent =
      rw (run_read_lem cache e r s) (read_through-IsCoherent e r s coherent)

  -- Without the cache, a read asks the control plane.
  run_read-uncached :
      (e : Env) (r : Read) (s : State S)
      → run_read cache (uncached e) r s ≡ (serialize e (answer e r), s)
  unfolding read_through serialize
  run_read-uncached e r s = rw (run_read_lem cache (uncached e) r s, answer-uncached e r) refl

  -- What a call with the cache has in common with the same call without it, and what it leaves.
  abbrev StepsAlike : Env → Call → Result Fields × State S → Result Fields × State S → Type 0
  StepsAlike e call r r' =
      (r.0 ≡ r'.0)
      × (r.1.facts ≡ r'.1.facts)
      × (clears call r.0 ≡ false → IsCoherent cache e r.1.cached)
      × (clears call r.0 ≡ true → (c : S) × (r.1.cached ≡ cache.clear c))

  run-StepsAlike :
      (e : Env) (call : Call) (c c' : S) (f : Facts)
      → IsCoherent cache e c
      → StepsAlike e call
          (run cache e call (record { cached = c; facts = f }))
          (run cache (uncached e) call (record { cached = c'; facts = f }))
  unfolding run
  run-StepsAlike e (read r) c c' f coherent =
      let (same, facts, kept) =
        run_read-IsCoherent e r (record { cached = c; facts = f }) coherent in
      let plain = run_read-uncached e r (record { cached = c'; facts = f }) in
      (
        same ∙ sym (ap (λ p. p.0) plain),
        facts ∙ sym (ap (λ p. p.1.facts) plain),
        λ h. kept,
        λ h. absurd (cc),
      )
  run-StepsAlike e (write w) c c' f coherent =
      let (same, facts, cleared, kept) = run_write-WritesAlike cache e w c c' f in
      (same, facts, λ h. subst (IsCoherent cache e) (sym (kept h)) coherent, λ h. (c, cleared h))
  run-StepsAlike e (other o) c c' f coherent =
      let (same, facts, kept) = run_other-OthersAlike cache e o c c' f in
      (same, facts, λ h. subst (IsCoherent cache e) (sym kept) coherent, λ h. absurd (cc))

  -- The state and the answers that the next calls find.
  after-IsCoherent :
      (e : Env) (call : Call) (calls : List (Env × Call)) (r r' : Result Fields × State S)
      → Lawful S cache
      → StepsAlike e call r r'
      → (clears call r.0 ≡ false → SameAnswersNext e calls)
      → IsCoherentFirst cache calls r.1.cached
  after-IsCoherent e call [] r r' lawful alike steady = tt
  after-IsCoherent e call ((e', call') ∷ calls) r r' lawful (same, facts, kept, cleared) steady =
      elim (Bool-cases (clears call r.0)) [
        | inl h ↦
            let (c, emptied) = cleared h in
            λ q now value found. absurd (
              none_found (
                sym (lawful.get-clear c now (key_of q))
                ∙ ap (λ d. cache.get d now (key_of q)) (sym emptied)
                ∙ found))
        | inr h ↦ λ q now value found. sym (steady h q) ∙ kept h q now value found
      ]

  run_all-alike :
      (calls : List (Env × Call)) (s s' : State S)
      → Lawful S cache
      → s.facts ≡ s'.facts
      → IsCoherentFirst cache calls s.cached
      → IsSteady cache calls s
      → run_all cache calls s ≡ run_all cache (map without_cache calls) s'
  unfolding run_all
  run_all-alike [] s s' lawful facts coherent steady = refl
  run_all-alike ((e, call) ∷ calls) s s' lawful facts coherent (next, steady) =
      let alike =
        subst
          (λ f.
            StepsAlike e call (run cache e call s)
              (run cache (uncached e) call (record { cached = s'.cached; facts = f })))
          facts (run-StepsAlike e call s.cached s'.cached s.facts coherent) in
      ap₂ (λ r rs. r ∷ rs) alike.0
        (run_all-alike calls (run cache e call s).1 (run cache (uncached e) call s').1 lawful
          alike.1
          (after-IsCoherent e call calls (run cache e call s) (run cache (uncached e) call s')
            lawful alike next)
          steady)

-- A chain of calls of the tools, one after the other, returns with the cache what it returns with
-- CACHE_ENABLED off, where the cache is empty at first and, between two calls, the answers of the
-- control plane to the cached reads change only if the first call is a successful write of a
-- service, a ban or the global configuration. It is asked of the backend that it is lawful and that
-- `set` stores a value under its own key only.
pub run_all-uncached :
    {S : Type 0} (cache : Backend S) (calls : List (Env × Call)) (s s' : State S)
    → Lawful S cache
    → Isolated S cache
    → ((now : ℕ) (key : String) → cache.get s.cached now key ≡ none)
    → s.facts ≡ s'.facts
    → IsSteady cache calls s
    → run_all cache calls s ≡ run_all cache (map without_cache calls) s'
run_all-uncached cache [] s s' lawful isolated empty facts steady =
    run_all-alike cache isolated [] s s' lawful facts tt steady
run_all-uncached cache ((e, call) ∷ calls) s s' lawful isolated empty facts steady =
    run_all-alike cache isolated ((e, call) ∷ calls) s s' lawful facts
      (λ r now value found. absurd (none_found (sym (empty now (key_of r)) ∙ found))) steady
