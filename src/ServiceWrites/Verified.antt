-- ===== src/ServiceWrites/Verified.antt =====
-- What a verified receipt means.
use bunkerweb_mcp.Prelude.{
  ℕ, ◌+◌, ◌≤◌, ◌≡◌, refl, ap, subst, ◌⊎◌, inl, inr, String, true, ◌||◌, List, [], ◌∷◌, Option,
  arith, All, Bool-cases, Option-cases, length,
}
use bunkerweb_mcp.Prelude.Dict.{Dict, has, has-nil, length-insert-le}
use bunkerweb_mcp.Errors.{ok, ok-injective, >>=-eq-ok}
use bunkerweb_mcp.Json.{Fields, get}
use bunkerweb_mcp.Upstream.{UpstreamVersion}
use bunkerweb_mcp.ServiceWrites.{ServiceUpdateParams}
use bunkerweb_mcp.Upstream.Facts.{Facts, Catalog}
use bunkerweb_mcp.ServiceWrites.Preflight.{
  Reads, Preflight, Sorting, variables_of, sort_one, sort_all, preflight_update,
}
use bunkerweb_mcp.ServiceWrites.Sorting.{IsRead, Outcome, was_skipped, was_sent, sort_one_lem}
use bunkerweb_mcp.ServiceWrites.Promises.{
  version_in, asked_facts, start, preflight_update_lem, conclude_lem, preflight_update-covers,
  All-map,
}
use bunkerweb_mcp.ServiceWrites.Receipt.{
  shows, keeping_owner, stored_key, compare_field, compare_fields, one_if_some, sent_fields,
  requested_total, compared,
}

-- The stored service shows the value that was sent for the field.
abbrev pub IsStored : Fields → String × String → Type 0
IsStored service f = shows (get (stored_key f.0) service) f.1 ≡ true

compare_field_lem :
    (service : Fields) (version : Option UpstreamVersion) (m : ℕ) (issues : Dict String)
    (f : String × String)
    → ((compare_field service version (m, issues) f).0 ≡ m + 1) × IsStored service f
      ⊎ ((compare_field service version (m, issues) f).0 ≡ m)
unfolding compare_field
compare_field_lem service version m issues (key, requested) =
    elim (Bool-cases (shows (get (stored_key key) service) requested)) [
      | inl e ↦ inl (rw e refl, e)
      | inr e ↦ inr (
          rw e (elim (Option-cases (keeping_owner version (get (stored_key key) service))) [
            | inl k ↦ rw k refl
            | inr (o, k) ↦ rw k refl
          ]))
    ]

-- Each field counts at most once, and all fields count only if all are stored.
compare_fields_lem :
    (service : Fields) (version : Option UpstreamVersion) (m : ℕ) (issues : Dict String)
    (fields : Dict String)
    → ((compare_fields service version (m, issues) fields).0 ≤ m + length fields)
      × (m + length fields ≤ (compare_fields service version (m, issues) fields).0
          → All (IsStored service) fields)
unfolding compare_fields
compare_fields_lem service version m issues [] = (omega arith, λ h. tt)
compare_fields_lem service version m issues (f ∷ fields) =
    let r = compare_field service version (m, issues) f in
    let (bound, all) = compare_fields_lem service version r.0 r.1 fields in
    elim (compare_field_lem service version m issues f) [
      | inl (counted, stored) ↦ (omega arith, λ h. (stored, all (omega arith)))
      | inr missed ↦ (omega arith, λ h. absurd (omega arith))
    ]

module _ (reads : Reads) (params : ServiceUpdateParams) (service : Fields)
    (version : Option UpstreamVersion) (first : Catalog) where
  length-Outcome :
      {s s' : Sorting} {key requested : String}
      → Outcome reads params service version first s s' key requested
      → length s'.variables ≤ length s.variables + 1
  length-Outcome (was_skipped code a b) = rw a (omega arith)
  length-Outcome {s} {key} {requested} (was_sent a b p) =
      rw a (length-insert-le key requested s.variables)

  length-sort_all :
      (s s' : Sorting) (rest : Dict String)
      → sort_all reads params service version s rest ≡ ok s'
      → IsRead reads first s.catalog
      → length s'.variables ≤ length s.variables + length rest
  unfolding sort_all
  length-sort_all s s' [] h r =
      subst (λ (t : Sorting). length t.variables ≤ length s.variables + 0) (ok-injective s s' h)
        (omega arith)
  length-sort_all s s' ((key, requested) ∷ rest) h r =
      let (s₁, g, h') = >>=-eq-ok (sort_one reads params service version s key requested) _ h in
      let (o, r') = sort_one_lem reads params service version first s s₁ key requested g r in
      omega (arith, length-Outcome o, length-sort_all s₁ s' rest h' r')

-- An accepted call sends at most what is requested.
record SendsAtMost (params : ServiceUpdateParams) (sent : Preflight) : Type 0 where
  variables : length sent.variables ≤ length (variables_of params)
  server_name : one_if_some sent.server_name ≤ one_if_some params.server_name
  is_draft : sent.is_draft ≡ params.is_draft

preflight_update-SendsAtMost :
    (reads : Reads) (params : ServiceUpdateParams) (facts : Facts) (sent : Preflight)
    → (preflight_update reads params facts).0 ≡ ok sent
    → SendsAtMost params sent
preflight_update-SendsAtMost reads params facts sent h =
    let a = preflight_update_lem reads params facts sent h in
    let u = a.upstream in
    let (v, s, some_part, draft, name) =
      conclude_lem params (version_in u) a.sorting sent a.concluded in
    record {
      variables = omega (
        arith,
        ap length v,
        length-sort_all reads params u.service (version_in u) u.first
            (start u.first (asked_facts reads u.facts')) a.sorting (variables_of params) a.sorted
            (inl refl),
      );
      server_name = rw name (ground arith);
      is_draft = draft;
    }

length-sent_fields :
    (sent : Preflight)
    → length (sent_fields sent) ≤ length sent.variables + one_if_some sent.is_draft
unfolding sent_fields
length-sent_fields sent = elim (Option-cases sent.is_draft) [
  | inl e ↦ rw e (omega arith)
  | inr (d, e) ↦ rw e (length-insert-le "is_draft" _ sent.variables)
]

length-eq-zero {ℓ} : {A : Type ℓ} (xs : List A) → length xs ≡ 0 → xs ≡ []
length-eq-zero [] h = refl
length-eq-zero (x ∷ xs) h = absurd (omega arith)

has-left :
    (sent : Preflight) (k : String)
    → sent.skipped ≡ []
    → (has k sent.variables || has k sent.skipped) ≡ true
    → has k sent.variables ≡ true
has-left sent k e h = let g = rw (has-nil String k) at (rw e at h) in ground arith

-- A receipt that calls the write verified tells the truth: after an accepted preflight, nothing was
-- skipped, every requested variable was sent, and the service that was read back shows the sent
-- value of every sent field, the draft state included.
pub compared-verified :
    (reads : Reads) (params : ServiceUpdateParams) (facts : Facts) (sent : Preflight)
    (service : Fields) (version : Option UpstreamVersion) (issues : Dict String)
    → (preflight_update reads params facts).0 ≡ ok sent
    → (compared params sent service version issues).verified ≡ true
    → (sent.skipped ≡ [])
      × All (λ kv. has kv.0 sent.variables ≡ true) (variables_of params)
      × All (IsStored service) (sent_fields sent)
unfolding compared requested_total
compared-verified reads params facts sent service version issues h v =
    let (bound, all) =
      compare_fields_lem service version (one_if_some sent.server_name) issues (sent_fields sent) in
    let most = preflight_update-SendsAtMost reads params facts sent h in
    let counted : (compare_fields service version (one_if_some sent.server_name, issues)
          (sent_fields sent)).0
        ≡ length (variables_of params)
          + one_if_some params.server_name
          + one_if_some params.is_draft =
      ground arith in
    let none_skipped = length-eq-zero sent.skipped (ground arith) in
    (
      none_skipped,
      All-map (λ kv. has-left sent kv.0 none_skipped) (variables_of params)
          (preflight_update-covers reads params facts sent h),
      all (
          omega (
            arith,
            counted,
            most.variables,
            most.server_name,
            ap one_if_some most.is_draft,
            length-sent_fields sent,
          )),
    )
