-- ===== src/ServiceWrites/Sorting.antt =====
-- What the loop of `preflight_update` sends and skips.
use bunkerweb_mcp.Prelude.{
  ℕ, ◌≡◌, ◌∙◌, refl, sym, ap, subst, inl, inr, ◌⊎◌, String, Bool, true, false, not, ◌&&◌, ◌||◌, [],
  ◌∷◌, Option, none, some, ◌==◌, ◌<>◌, eq_iff, eq_refl, arith, All, Bool-cases, Option-cases,
}
use bunkerweb_mcp.Prelude.Dict.{
  Dict, lookup, insert, has, lookup-insert, has-insert, Listed, at_head, in_tail,
}
use bunkerweb_mcp.Json.{Value, Fields, get}
use bunkerweb_mcp.Errors.{Result, ok, ok-injective, >>=-eq-ok}
use bunkerweb_mcp.Upstream.{UpstreamVersion}
use bunkerweb_mcp.Upstream.Facts.{Facts, Catalog, catalog_of, get_setting_catalog}
use bunkerweb_mcp.ServiceWrites.{ServiceUpdateParams, per_service}
use bunkerweb_mcp.ServiceWrites.Preflight.{
  Reads, Sorting, is_prefixed, blocking_owner, skip, send, adopt, refresh_for, sort_known, sort_one,
  sort_all,
}

-- A refresh answers with the catalog of what BunkerWeb sent.
get_setting_catalog-refresh :
    (facts : Facts) (base_url : String) (now : ℕ) (answer : Result Value) (later : ℕ)
    → (get_setting_catalog facts base_url true now answer later).0 ≡ catalog_of answer
unfolding get_setting_catalog
get_setting_catalog-refresh facts base_url now answer later = ground arith

-- The catalog in hand is the one that the call began with, or the one that it read anew.
abbrev pub IsRead : Reads → Catalog → Catalog → Type 0
IsRead reads first catalog = (catalog ≡ first) ⊎ (catalog_of reads.plugins_again ≡ some catalog)

adopt_lem :
    (s s' : Sorting) (found : Option Catalog × Facts)
    → adopt s found ≡ ok s'
    → (s'.variables ≡ s.variables) × (s'.skipped ≡ s.skipped) × (found.0 ≡ some s'.catalog)
unfolding adopt
adopt_lem s s' (none, facts) h = absurd (cc)
adopt_lem s s' (some catalog, facts) h = ground arith

module _ (reads : Reads) (first : Catalog) where
  refresh_for_lem :
      (s s' : Sorting) (key : String)
      → refresh_for reads s key ≡ ok s'
      → IsRead reads first s.catalog
      → (s'.variables ≡ s.variables) × (s'.skipped ≡ s.skipped) × IsRead reads first s'.catalog
  unfolding refresh_for
  refresh_for_lem s s' key h r =
      elim (Bool-cases (not (per_service key s.catalog) && not s.refreshed)) [
        | inl e ↦
            let (a, b, c) = adopt_lem s s' _ (rw e at h) in
            (a, b, inr (sym (get_setting_catalog-refresh _ _ _ _ _) ∙ c))
        | inr e ↦
            let same = ok-injective s s' (rw e at h) in
            (
              ap (λ (t : Sorting). t.variables) (sym same),
              ap (λ (t : Sorting). t.skipped) (sym same),
              subst (λ (t : Sorting). IsRead reads first t.catalog) same r,
            )
      ]

-- The loop may send a variable: it is no SERVER_NAME and has no prefix of the service, it is a
-- per-service setting of a catalog that the call read, and no other owner keeps it.
pub record IsSendable (reads : Reads) (params : ServiceUpdateParams) (service : Fields)
    (version : Option UpstreamVersion) (first : Catalog) (key requested : String) : Type 0 where
  pub not_server_name : (key == "SERVER_NAME") ≡ false
  pub not_prefixed : is_prefixed params key ≡ false
  pub catalog : Catalog
  pub read : IsRead reads first catalog
  pub known : per_service key catalog ≡ true
  pub unowned : blocking_owner version (get key service) requested ≡ none

module _ (reads : Reads) (params : ServiceUpdateParams) (service : Fields)
    (version : Option UpstreamVersion) (first : Catalog) where
  -- What one round did with its key.
  pub data Outcome (s s' : Sorting) (key requested : String) : Type 0 where
    was_skipped :
        (code : String)
        → s'.variables ≡ s.variables
        → s'.skipped ≡ insert key code s.skipped
        → Outcome s s' key requested
    was_sent :
        s'.variables ≡ insert key requested s.variables
        → s'.skipped ≡ s.skipped
        → IsSendable reads params service version first key requested
        → Outcome s s' key requested

  sort_known_lem :
      (s s₁ : Sorting) (key requested : String)
      → (key == "SERVER_NAME") ≡ false
      → is_prefixed params key ≡ false
      → (s₁.variables ≡ s.variables) × (s₁.skipped ≡ s.skipped) × IsRead reads first s₁.catalog
      → Outcome s (sort_known service version s₁ key requested) key requested
        × IsRead reads first (sort_known service version s₁ key requested).catalog
  unfolding sort_known skip send
  sort_known_lem s s₁ key requested n p (same_v, same_s, r) =
      elim (Bool-cases (per_service key s₁.catalog)) [
        | inr e ↦ rw e (was_skipped "unknown" same_v (ap (insert key "unknown") same_s), r)
        | inl e ↦ rw e (elim (Option-cases (blocking_owner version (get key service) requested)) [
          | inl free ↦ rw free (
            was_sent (ap (insert key requested) same_v) same_s (record {
              not_server_name = n;
              not_prefixed = p;
              catalog = s₁.catalog;
              read = r;
              known = e;
              unowned = free;
            }),
            r,
          )
          | inr (owner, taken) ↦ rw taken (
            was_skipped ("owned:" <> owner) same_v (ap (insert key ("owned:" <> owner)) same_s),
            r,
          )
        ])
      ]

  pub sort_one_lem :
      (s s' : Sorting) (key requested : String)
      → sort_one reads params service version s key requested ≡ ok s'
      → IsRead reads first s.catalog
      → Outcome s s' key requested × IsRead reads first s'.catalog
  unfolding sort_one skip
  sort_one_lem s s' key requested h r = elim (Bool-cases (key == "SERVER_NAME")) [
    | inl e ↦
        subst (λ (t : Sorting). Outcome s t key requested × IsRead reads first t.catalog)
          (ok-injective _ _ (rw e at h)) (was_skipped "server_name_in_variables" refl refl, r)
    | inr e ↦ elim (Bool-cases (is_prefixed params key)) [
      | inl f ↦
          subst (λ (t : Sorting). Outcome s t key requested × IsRead reads first t.catalog)
            (ok-injective _ _ (rw f at (rw e at h))) (was_skipped "prefixed" refl refl, r)
      | inr f ↦
          let (s₁, g, k) = >>=-eq-ok (refresh_for reads s key) _ (rw f at (rw e at h)) in
          subst (λ (t : Sorting). Outcome s t key requested × IsRead reads first t.catalog)
            (ok-injective _ _ k)
            (sort_known_lem s s₁ key requested e f (refresh_for_lem reads first s s₁ key g r))
    ]
  ]

  -- What the loop sends is requested and sendable, beyond what it had sent before.
  pub sort_all_sound :
      (s s' : Sorting) (rest : Dict String)
      → sort_all reads params service version s rest ≡ ok s'
      → IsRead reads first s.catalog
      → (k v : String) → lookup k s'.variables ≡ some v
      → (lookup k s.variables ≡ some v)
        ⊎ (Listed k v rest × IsSendable reads params service version first k v)
  unfolding sort_all
  sort_all_sound s s' [] h r k v found =
      inl (subst (λ (t : Sorting). lookup k t.variables ≡ some v) (sym (ok-injective s s' h)) found)
  sort_all_sound s s' ((key, requested) ∷ rest) h r k v found =
      let (s₁, g, h') = >>=-eq-ok (sort_one reads params service version s key requested) _ h in
      let (o, r') = sort_one_lem s s₁ key requested g r in
      extend o (sort_all_sound s₁ s' rest h' r' k v found)
    where
      extend :
          {s₁ : Sorting}
          → Outcome s s₁ key requested
          → (lookup k s₁.variables ≡ some v)
            ⊎ (Listed k v rest × IsSendable reads params service version first k v)
          → (lookup k s.variables ≡ some v)
            ⊎ (Listed k v ((key, requested) ∷ rest)
                × IsSendable reads params service version first k v)
      extend o (inr (l, p)) = inr (in_tail l, p)
      extend (was_skipped code a b) (inl e) = inl (rw a at e)
      extend (was_sent a b p) (inl e) =
          let e' = rw (lookup-insert key k requested s.variables) at (rw a at e) in
          elim (Bool-cases (key == k)) [
            | inl same ↦
                let p₁ = (eq_iff key k).0 same in
                let p₂ : requested ≡ v = (let e₃ = rw same at e' in cc) in
                inr (
                  at_head p₁ p₂,
                  subst (λ k'. IsSendable reads params service version first k' v) p₁
                      (subst (λ v'. IsSendable reads params service version first key v') p₂ p),
                )
            | inr other ↦ inl (rw other at e')
          ]

abbrev pub covered : Sorting → String → Bool
covered s k = has k s.variables || has k s.skipped

module _ (reads : Reads) (params : ServiceUpdateParams) (service : Fields)
    (version : Option UpstreamVersion) (first : Catalog) where
  Outcome-covered :
      {s s' : Sorting} {key requested : String}
      → Outcome reads params service version first s s' key requested
      → (k : String) → (key == k || covered s k) ≡ true
      → covered s' k ≡ true
  Outcome-covered {s} {key} (was_skipped code a b) k h =
      rw (a, b) (rw (has-insert key k code s.skipped) (ground arith))
  Outcome-covered {s} {key} {requested} (was_sent a b p) k h =
      rw (a, b) (rw (has-insert key k requested s.variables) (ground arith))

  sort_all_keeps :
      (s s' : Sorting) (rest : Dict String) (k : String)
      → sort_all reads params service version s rest ≡ ok s'
      → IsRead reads first s.catalog
      → covered s k ≡ true
      → covered s' k ≡ true
  unfolding sort_all
  sort_all_keeps s s' [] k h r c =
      subst (λ (t : Sorting). covered t k ≡ true) (ok-injective s s' h) c
  sort_all_keeps s s' ((key, requested) ∷ rest) k h r c =
      let (s₁, g, h') = >>=-eq-ok (sort_one reads params service version s key requested) _ h in
      let (o, r') = sort_one_lem reads params service version first s s₁ key requested g r in
      sort_all_keeps s₁ s' rest k h' r' (Outcome-covered o k (ground arith))

  -- Every requested variable is sent or reported as skipped.
  pub sort_all_covers :
      (s s' : Sorting) (rest : Dict String)
      → sort_all reads params service version s rest ≡ ok s'
      → IsRead reads first s.catalog
      → All (λ kv. covered s' kv.0 ≡ true) rest
  unfolding sort_all
  sort_all_covers s s' [] h r = tt
  sort_all_covers s s' ((key, requested) ∷ rest) h r =
      let (s₁, g, h') = >>=-eq-ok (sort_one reads params service version s key requested) _ h in
      let (o, r') = sort_one_lem reads params service version first s s₁ key requested g r in
      (
        sort_all_keeps s₁ s' rest key h' r' (Outcome-covered o key (ground (arith, eq_refl key))),
        sort_all_covers s₁ s' rest h' r',
      )
