-- ===== src/Cache/Memory.antt =====
-- A backend for the cache of src/bunkerweb_mcp/cache.py that keeps the expiry of each key.
use bunkerweb_mcp.Prelude.{
  ℕ, ◌+◌, ◌<◌, ◌≡◌, refl, sym, String, Option, none, some, [], ltb, lt→ltb, if◌then◌else◌, eq_refl,
  ◌==◌, Bool-cases, ◌⊎◌, inl, inr,
}
use bunkerweb_mcp.Prelude.Dict.{Dict, lookup, insert, lookup-insert}
use bunkerweb_mcp.Json.{Fields}
use bunkerweb_mcp.Cache.{Backend, Lawful}
use text.Mathlib.TextEquality.{eq_iff}

abbrev pub Entries : Type 0
Entries = Dict (ℕ × Fields)

abbrev pub live : ℕ → Option (ℕ × Fields) → Option Fields
live now none = none
live now (some (expiry, value)) = if ltb now expiry then some value else none

abbrev pub memory : Backend Entries
memory = record {
  get = λ s now key. live now (lookup key s);
  set = λ s now key value ttl. insert key (now + ttl, value) s;
  clear = λ s. [];
}

live-insert :
    (s : Entries) (now later : ℕ) (key : String) (value : Fields) (ttl : ℕ)
    → later < now + ttl
    → live later (lookup key (insert key (now + ttl, value) s)) ≡ some value
live-insert s now later key value ttl early =
    rw (lookup-insert key key (now + ttl, value) s)
      (rw (eq_refl key) (rw (lt→ltb later (now + ttl) early) refl))

pub memory-Lawful : Lawful Entries memory
unfolding lookup
memory-Lawful = record { get-set = live-insert; get-clear = λ s now key. refl }

live-value :
    (now expiry : ℕ) (value found : Fields)
    → live now (some (expiry, value)) ≡ some found
    → found ≡ value
live-value now expiry value found h = elim (Bool-cases (ltb now expiry)) [
  | inl e ↦ let g = rw e at h in cc
  | inr e ↦ let g = rw e at h in absurd (cc)
]

pub live-insert-cases :
    (s : Entries) (now later ttl : ℕ) (key other : String) (value found : Fields)
    → live later (lookup other (insert key (now + ttl, value) s)) ≡ some found
    → ((other ≡ key) × (found ≡ value)) ⊎ (live later (lookup other s) ≡ some found)
live-insert-cases s now later ttl key other value found h =
    let g = rw (lookup-insert key other (now + ttl, value) s) at h in
    elim (Bool-cases (key == other)) [
      | inl same ↦
          inl (
            sym ((eq_iff key other).0 same),
            live-value later (now + ttl) value found (rw same at g),
          )
      | inr differ ↦ inr (rw differ at g)
    ]
