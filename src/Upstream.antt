-- ===== src/Upstream.antt =====
-- src/bunkerweb_mcp/upstream.py: upstream versions and which writes they support. The caches are
-- in Upstream/Facts.antt.
pub mod Digits
pub mod Numerals
pub mod Versions
pub mod Facts
pub mod Freshness
pub mod Declared
mod Tests
use Prim.Native.Char.{code}
use bunkerweb_mcp.Prelude.{
  ℕ, zero, suc, ◌+◌, ◌-◌, ◌*◌, String, Bool, true, false, ◌&&◌, ◌||◌, List, [], ◌∷◌, Option, none,
  some, ◌==◌, leb, ltb, eqb, codes, any_of, if◌then◌else◌,
}
use bunkerweb_mcp.Json.{ℤ, pos, negsuc}
use bunkerweb_mcp.Upstream.Digits.{number}

-- A suffix on a version whose minor number is 0 takes the minor number to -1.
pub record UpstreamVersion : Type 0 where
  pub major : ℕ
  pub minor : ℤ
  pub patch : ℕ

-- a <= b and a == b on integers
abbrev pub leb_ℤ : ℤ → ℤ → Bool
leb_ℤ (pos a) (pos b) = leb a b
leb_ℤ (pos a) (negsuc b) = false
leb_ℤ (negsuc a) (pos b) = true
leb_ℤ (negsuc a) (negsuc b) = leb b a

abbrev pub eqb_ℤ : ℤ → ℤ → Bool
eqb_ℤ (pos a) (pos b) = eqb a b
eqb_ℤ (negsuc a) (negsuc b) = eqb a b
eqb_ℤ _ _ = false

-- n - 1
abbrev pub pred_ℤ : ℤ → ℤ
pred_ℤ (pos zero) = negsuc 0
pred_ℤ (pos (suc n)) = pos n
pred_ℤ (negsuc n) = negsuc (suc n)

-- v <= w of the ordered dataclass: its fields are compared as tuples
unfoldable pub version_le : UpstreamVersion → UpstreamVersion → Bool
version_le v w =
    if eqb v.major w.major
    then (if eqb_ℤ v.minor w.minor then leb v.patch w.patch else leb_ℤ v.minor w.minor)
    else leb v.major w.major

abbrev pub version : ℕ → ℕ → ℕ → UpstreamVersion
version a b c = record { major = a; minor = pos b; patch = c }

abbrev expect_dot : List ℕ → Option (List ℕ)
expect_dot [] = none
expect_dot (c ∷ s) = if eqb c b'.' then some s else none

infixl 5 ◌>>=◌
abbrev ◌>>=◌ {ℓ κ} : {A : Type ℓ} {B : Type κ} → Option A → (A → Option B) → Option B
none >>= k = none
some a >>= k = k a

-- What follows the three numbers counts as a pre-release of them: one patch below, or the last
-- patch of the minor version below.
unfoldable pub with_suffix : ℕ → ℕ → ℕ → List ℕ → UpstreamVersion
with_suffix a b c [] = version a b c
with_suffix a b zero (x ∷ suffix) = record { major = a; minor = pred_ℤ (pos b); patch = 999 }
with_suffix a b (suc c) (x ∷ suffix) = version a b c

-- The expression `(\d+)\.(\d+)\.(\d+)(.*)` matched against the whole text; `.` matches no line feed.
unfoldable pub parse_codes : List ℕ → Option UpstreamVersion
unfolding number with_suffix
parse_codes s = do
  (a, s₁) ← number s
  s₂ ← expect_dot s₁
  (b, s₃) ← number s₂
  s₄ ← expect_dot s₃
  (c, suffix) ← number s₄
  if any_of (λ x. eqb x 10) suffix then none else some (with_suffix a b c suffix)

unfoldable pub parse_version : Option String → Option UpstreamVersion
unfolding parse_codes
parse_version none = none
parse_version (some raw) = parse_codes (codes raw)

unfoldable pub api_can_replace : String → Option UpstreamVersion → Bool
unfolding version_le
api_can_replace owner v = if owner == "api" || owner == "default" then true else elim v [
  | none ↦ false
  | some v ↦
      if owner == "ui"
      then version_le (version 1 6 6) v
      else if owner == "wizard"
      then version_le (version 1 6 14) v
      else false
]

unfoldable pub rename_supported : Option UpstreamVersion → Bool
unfolding version_le
rename_supported none = false
rename_supported (some v) = version_le (version 1 6 15) v
