-- ===== src/ServiceWrites/Promises.antt =====
-- What an accepted `preflight_update` promises about the write that follows it.
use bunkerweb_mcp.Prelude.{
  ◌≡◌, ◌∙◌, refl, ap, inl, inr, ◌⊎◌, String, true, false, not, ◌&&◌, ◌||◌, List, [], ◌∷◌, Option,
  none, some, ◌==◌, eq_iff, arith, All, Bool-cases, if◌then◌else◌,
}
use bunkerweb_mcp.Prelude.Dict.{Dict, lookup, insert, has, has-insert, lookup-nil_absurd, Listed}
use bunkerweb_mcp.Json.{Fields}
use bunkerweb_mcp.Errors.{ok, Result-cases}
use bunkerweb_mcp.Upstream.{UpstreamVersion, rename_supported}
use bunkerweb_mcp.Upstream.Facts.{Facts, Catalog, get_upstream_version}
use bunkerweb_mcp.ServiceWrites.{ServiceUpdateParams}
use bunkerweb_mcp.ServiceWrites.Preflight.{
  Reads, Preflight, Sorting, variables_of, is_empty, is_none, read_multisite, read_service,
  first_catalog, sort_all, conclude, preflight_known, preflight_update,
}
use bunkerweb_mcp.ServiceWrites.Sorting.{IsSendable, covered, sort_all_sound, sort_all_covers}

-- The version that the call goes by.
abbrev pub asked_version : Reads → Facts → Option UpstreamVersion
asked_version reads facts =
    (get_upstream_version facts reads.base_url reads.openapi_now reads.openapi
      reads.openapi_later).0

abbrev pub asked_facts : Reads → Facts → Facts
asked_facts reads facts =
    (get_upstream_version facts reads.base_url reads.openapi_now reads.openapi
      reads.openapi_later).1

-- What an accepted call has read.
pub record Readings (reads : Reads) (params : ServiceUpdateParams) (facts : Facts) : Type 0 where
  pub multisite : read_multisite reads.global_config ≡ ok "yes"
  pub service : Fields
  pub stored : read_service params.service reads.service ≡ ok service
  pub first : Catalog
  pub facts' : Facts
  pub begun : first_catalog reads params facts ≡ ok (first, facts')

abbrev pub version_in :
    {reads : Reads} {params : ServiceUpdateParams} {facts : Facts}
    → Readings reads params facts
    → Option UpstreamVersion
version_in {reads} u = asked_version reads u.facts'

abbrev pub start : Catalog → Facts → Sorting
start catalog facts = record {
  catalog = catalog;
  facts = facts;
  refreshed = false;
  variables = [];
  skipped = [];
}

-- How an accepted call ran.
pub record Accepted (reads : Reads) (params : ServiceUpdateParams) (facts : Facts)
    (sent : Preflight) : Type 0 where
  pub upstream : Readings reads params facts
  pub sorting : Sorting
  pub sorted :
      sort_all reads params upstream.service
        (version_in upstream)
        (start upstream.first (asked_facts reads upstream.facts'))
        (variables_of params)
      ≡ ok sorting
  pub concluded : conclude params (version_in upstream) sorting ≡ ok sent

preflight_known_lem :
    (reads : Reads) (params : ServiceUpdateParams) (service : Fields) (multisite : String)
    (catalog : Catalog) (version : Option UpstreamVersion) (facts : Facts) (sent : Preflight)
    → (preflight_known reads params service multisite catalog version facts).0 ≡ ok sent
    → (multisite ≡ "yes")
      × (s : Sorting) × (sort_all reads params service version
            (start catalog facts)
            (variables_of params)
          ≡ ok s)
      × (conclude params version s ≡ ok sent)
unfolding preflight_known
preflight_known_lem reads params service multisite catalog version facts sent h =
    elim (Bool-cases (multisite == "yes")) [
      | inr e ↦ let g = rw e at h in absurd (cc)
      | inl e ↦
          elim (Result-cases
            (sort_all reads params service version (start catalog facts) (variables_of params))) [
              | inl (s, f) ↦ ((eq_iff multisite "yes").0 e, s, f, rw f at (rw e at h))
              | inr (x, f) ↦ let g = rw f at (rw e at h) in absurd (cc)
            ]
    ]

pub preflight_update_lem :
    (reads : Reads) (params : ServiceUpdateParams) (facts : Facts) (sent : Preflight)
    → (preflight_update reads params facts).0 ≡ ok sent
    → Accepted reads params facts sent
unfolding preflight_update
preflight_update_lem reads params facts sent h =
    elim (Result-cases (read_multisite reads.global_config)) [
      | inr (x, e) ↦ let g = rw (e, preflight_update) at h in absurd (cc)
      | inl (multisite, e) ↦ elim (Result-cases (read_service params.service reads.service)) [
        | inr (x, f) ↦ let g = rw (e, preflight_update, f) at h in absurd (cc)
        | inl (service, f) ↦ elim (Result-cases (first_catalog reads params facts)) [
          | inr (x, k) ↦ let g = rw (e, preflight_update, f, k) at h in absurd (cc)
          | inl ((catalog, facts'), k) ↦
              let (yes_multisite, s, ran, done) =
                preflight_known_lem reads params service multisite catalog
                  (asked_version reads facts') (asked_facts reads facts') sent
                  (rw (e, preflight_update, f, k) at h) in
              record {
                upstream = record {
                  multisite = e ∙ ap ok yes_multisite;
                  service = service;
                  stored = f;
                  first = catalog;
                  facts' = facts';
                  begun = k;
                };
                sorting = s;
                sorted = ran;
                concluded = done;
              }
        ]
      ]
    ]

-- What is sent is what was sorted; the report has the refused rename beside.
pub conclude_lem :
    (params : ServiceUpdateParams) (version : Option UpstreamVersion) (s : Sorting)
    (sent : Preflight)
    → conclude params version s ≡ ok sent
    → (sent.variables ≡ s.variables)
      × ((sent.skipped ≡ s.skipped)
          ⊎ (sent.skipped ≡ insert "server_name" "rename_unsupported" s.skipped))
      × ((is_empty sent.variables && is_none sent.server_name && is_none sent.is_draft) ≡ false)
      × (sent.is_draft ≡ params.is_draft)
      × (sent.server_name ≡ (
          if not (is_none params.server_name) && not (rename_supported version)
          then none
          else params.server_name))
unfolding conclude
conclude_lem params version s sent h = ground arith

-- An accepted call has read MULTISITE as yes, a well-formed service and a catalog, and each variable
-- that it sends is requested with that very value, is not SERVER_NAME, is not prefixed by the old
-- or the new service name, is a per-service setting of the catalog that it began with or read anew,
-- and is not stored under an owner that keeps the API from replacing it.
pub preflight_update-sends :
    (reads : Reads) (params : ServiceUpdateParams) (facts : Facts) (sent : Preflight) (k v : String)
    → (preflight_update reads params facts).0 ≡ ok sent
    → lookup k sent.variables ≡ some v
    → (u : Readings reads params facts) × Listed k v (variables_of params)
      × IsSendable reads params u.service (version_in u) u.first k v
preflight_update-sends reads params facts sent k v h found =
    let a = preflight_update_lem reads params facts sent h in
    let c = conclude_lem params (version_in a.upstream) a.sorting sent a.concluded in
    elim (sort_all_sound reads params a.upstream.service (version_in a.upstream) a.upstream.first
      (start a.upstream.first (asked_facts reads a.upstream.facts')) a.sorting (variables_of params)
      a.sorted (inl refl) k v (rw c.0 at found)) [
        | inl e ↦ absurd (lookup-nil_absurd k v e)
        | inr (l, p) ↦ (a.upstream, l, p)
      ]

-- Reported beside or not, what was covered stays covered.
has-insert_keeps :
    (key code k : String) (d : Dict String) → has k d ≡ true → has k (insert key code d) ≡ true
has-insert_keeps key code k d h = rw (has-insert key k code d) (ground arith)

pub All-map {ℓ κ κ'} :
    {A : Type ℓ} {P : A → Type κ} {Q : A → Type κ'} (f : (a : A) → P a → Q a) (xs : List A)
    → All P xs
    → All Q xs
All-map f [] h = tt
All-map f (x ∷ xs) (p, h) = (f x p, All-map f xs h)

reported :
    (s : Sorting) (sent : Preflight) (k : String)
    → sent.variables ≡ s.variables
    → (sent.skipped ≡ s.skipped)
      ⊎ (sent.skipped ≡ insert "server_name" "rename_unsupported" s.skipped)
    → covered s k ≡ true
    → (has k sent.variables || has k sent.skipped) ≡ true
reported s sent k a (inl b) h = rw (a, b) h
reported s sent k a (inr b) h =
    rw (a, b) (ground (arith, has-insert_keeps "server_name" "rename_unsupported" k s.skipped))

-- An accepted call leaves no requested variable out: each is sent or reported as skipped.
pub preflight_update-covers :
    (reads : Reads) (params : ServiceUpdateParams) (facts : Facts) (sent : Preflight)
    → (preflight_update reads params facts).0 ≡ ok sent
    → All (λ kv. (has kv.0 sent.variables || has kv.0 sent.skipped) ≡ true) (variables_of params)
preflight_update-covers reads params facts sent h =
    let a = preflight_update_lem reads params facts sent h in
    let c = conclude_lem params (version_in a.upstream) a.sorting sent a.concluded in
    All-map (λ kv. reported a.sorting sent kv.0 c.0 c.1) (variables_of params)
      (sort_all_covers reads params a.upstream.service (version_in a.upstream) a.upstream.first
        (start a.upstream.first (asked_facts reads a.upstream.facts')) a.sorting
        (variables_of params) a.sorted (inl refl))

-- An accepted call has something to send, keeps the requested draft state, and renames the service
-- only as requested and only where the upstream version keeps the service's configs and cache.
pub preflight_update-renames :
    (reads : Reads) (params : ServiceUpdateParams) (facts : Facts) (sent : Preflight)
    → (preflight_update reads params facts).0 ≡ ok sent
    → (u : Readings reads params facts) × ((is_empty sent.variables
          && is_none sent.server_name
          && is_none sent.is_draft)
        ≡ false)
      × (sent.is_draft ≡ params.is_draft)
      × ((sent.server_name ≡ none)
          ⊎ ((sent.server_name ≡ params.server_name) × (rename_supported (version_in u) ≡ true)))
preflight_update-renames reads params facts sent h =
    let a = preflight_update_lem reads params facts sent h in
    let (v, s, some_part, draft, name) =
      conclude_lem params (version_in a.upstream) a.sorting sent a.concluded in
    (a.upstream, some_part, draft, ground arith)
