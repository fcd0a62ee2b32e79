-- ===== src/Prelude/Dict.antt =====
-- A Python dict with text keys as the list of its entries: assignment to a key that is there
-- keeps its place, and a new key comes last.
use Prim.Native.String.{String}
use mathlib.Core.Path.{◌≡◌, refl}
use mathlib.Core.Bool.{Bool, true, false, ◌||◌}
use mathlib.Core.Option.{Option, none, some}
use mathlib.Core.List.{List, [], ◌∷◌}
use native.Mathlib.Omega.{arith}
use text.Mathlib.Text.{◌==◌}
use text.Mathlib.TextEquality.{eq_iff}
use Prim.Native.Nat.{◌+◌, ◌≤◌}
use mathlib.Core.Logic.{inl, inr}
use bunkerweb_mcp.Prelude.Lists.{length}
use bunkerweb_mcp.Prelude.Tests.{Option-cases, if◌then◌else◌}

abbrev pub Dict {ℓ} : Type ℓ → Type ℓ
Dict V = List (String × V)

module _ {ℓ} {V : Type ℓ} where
  -- d.get(k)
  unfoldable pub lookup : String → Dict V → Option V
  lookup k [] = none
  lookup k ((j, v) ∷ d) = if j == k then some v else lookup k d

  -- d[k] = v
  unfoldable pub insert : String → V → Dict V → Dict V
  insert k v [] = (k, v) ∷ []
  insert k v ((j, w) ∷ d) = if j == k then (j, v) ∷ d else (j, w) ∷ insert k v d

  -- del d[k]
  unfoldable pub remove : String → Dict V → Dict V
  remove k [] = []
  remove k ((j, w) ∷ d) = let rest = remove k d in if j == k then rest else (j, w) ∷ rest

  pub lookup-nil_absurd : (k : String) (v : V) → lookup k [] ≡ some v → ⊥
  unfolding lookup
  lookup-nil_absurd k v h = cc

  pub lookup-insert :
      (k j : String) (v : V) (d : Dict V)
      → lookup j (insert k v d) ≡ (if k == j then some v else lookup j d)
  unfolding lookup insert
  lookup-insert k j v [] = refl
  lookup-insert k j v ((i, w) ∷ d) =
      ground (arith, eq_iff k j, eq_iff i k, eq_iff i j, lookup-insert k j v d)

  pub lookup-remove :
      (k j : String) (d : Dict V) → lookup j (remove k d) ≡ (if k == j then none else lookup j d)
  unfolding lookup remove
  lookup-remove k j [] = ground arith
  lookup-remove k j ((i, w) ∷ d) =
      ground (arith, eq_iff k j, eq_iff i k, eq_iff i j, lookup-remove k j d)

  -- k in d
  pub has : String → Dict V → Bool
  has k d = elim (lookup k d) [ none ↦ false | some v ↦ true ]

  pub has-insert : (k j : String) (v : V) (d : Dict V) → has j (insert k v d) ≡ (k == j || has j d)
  unfolding has
  has-insert k j v d = rw (lookup-insert k j v d, has) (ground arith)

  pub has_of_lookup : (k : String) (v : V) (d : Dict V) → lookup k d ≡ some v → has k d ≡ true
  unfolding has
  has_of_lookup k v d h = rw (h, has) refl

pub lookup_of_not_has {ℓ} :
    {V : Type ℓ} (k : String) (d : Dict V) → has k d ≡ false → lookup k d ≡ none
unfolding has
lookup_of_not_has k d h = elim (Option-cases (lookup k d)) [
  | inl e ↦ e
  | inr (v, e) ↦ let g = rw (has, e) at h in absurd (cc)
]

pub has-nil {ℓ} : (V : Type ℓ) (k : String) → has {V = V} k [] ≡ false
unfolding has lookup
has-nil V k = refl

module _ {ℓ} {V : Type ℓ} where
  pub length-insert-le : (k : String) (v : V) (d : Dict V) → length (insert k v d) ≤ length d + 1
  unfolding insert
  length-insert-le k v [] = omega arith
  length-insert-le k v ((j, w) ∷ d) = ground (arith, length-insert-le k v d)

-- The entry is one of the dict's.
pub data Listed {ℓ} {V : Type ℓ} (k : String) (v : V) : Dict V → Type ℓ where
  at_head : {j : String} {w : V} {d : Dict V} → j ≡ k → w ≡ v → Listed k v ((j, w) ∷ d)
  in_tail : {e : String × V} {d : Dict V} → Listed k v d → Listed k v (e ∷ d)
