-- ===== src/Upstream/Versions.antt =====
-- How versions are read and compared, and which writes they allow.
use bunkerweb_mcp.Prelude.{
  ℕ, zero, suc, ◌≤◌, ◌≡◌, refl, String, true, false, not, List, ◌∷◌, ◌++◌, some, ◌<>◌, codes,
  codes-append, arith, any_of, eqb,
}
use bunkerweb_mcp.Prelude.Decimal.{show}
use bunkerweb_mcp.Upstream.Digits.{digit_value}
use bunkerweb_mcp.Upstream.Numerals.{starts_with_digit, number-show}
use bunkerweb_mcp.Upstream.{
  UpstreamVersion, version, version_le, with_suffix, parse_codes, parse_version, api_can_replace,
}

dot_stops : (s : List ℕ) → starts_with_digit (0x2E ∷ s) ≡ false
unfolding starts_with_digit digit_value
dot_stops s = refl

-- Three numbers with dots between them and a suffix behind are read as `with_suffix` of them, if
-- the suffix does not begin with a digit and holds no line feed.
pub parse_codes-show :
    (a b c : ℕ) (suffix : List ℕ)
    → starts_with_digit suffix ≡ false
    → any_of (λ x. eqb x 10) suffix ≡ false
    → parse_codes (codes (show a) ++ 0x2E ∷ (codes (show b) ++ 0x2E ∷ (codes (show c) ++ suffix)))
      ≡ some (with_suffix a b c suffix)
unfolding parse_codes
parse_codes-show a b c suffix h k =
    rw (number-show a (0x2E ∷ (codes (show b) ++ 0x2E ∷ (codes (show c) ++ suffix))) (dot_stops _))
      (rw (number-show b (0x2E ∷ (codes (show c) ++ suffix)) (dot_stops _))
        (rw (number-show c suffix h) (rw k refl)))

-- A version text is read as its three numbers: with no suffix as they are, and with a suffix that
-- does not begin with a digit and holds no line feed as the pre-release `with_suffix` of them.
pub parse_version-show :
    (a b c : ℕ) (suffix : String)
    → starts_with_digit (codes suffix) ≡ false
    → any_of (λ x. eqb x 10) (codes suffix) ≡ false
    → parse_version (some (show a <> ("." <> (show b <> ("." <> (show c <> suffix))))))
      ≡ some (with_suffix a b c (codes suffix))
unfolding parse_version
parse_version-show a b c suffix h k = simp codes-append (parse_codes-show a b c (codes suffix) h k)

version_le_trans :
    (u v w : UpstreamVersion)
    → version_le u v ≡ true
    → version_le v w ≡ true
    → version_le u w ≡ true
unfolding version_le
version_le_trans u v w h k = ground arith

-- A newer upstream version never allows less: settings of an owner that the API may replace under
-- one version it may replace under every later one.
pub api_can_replace_mono :
    (owner : String) (v w : UpstreamVersion)
    → version_le v w ≡ true
    → api_can_replace owner (some v) ≡ true
    → api_can_replace owner (some w) ≡ true
unfolding api_can_replace
api_can_replace_mono owner v w h k =
    ground (arith, version_le_trans (version 1 6 6) v w, version_le_trans (version 1 6 14) v w)

-- A version with a suffix stands just below the release of the same numbers: it is below it, and a
-- release whose patch number is at most 999 is at or below it exactly where that release is below
-- the one of the same numbers, whatever its major and minor numbers are (so 2.0.0-dev is above every
-- such release of major number 1, and below every release of major number 2).
pub with_suffix_bounds :
    (a b c x : ℕ) (suffix : List ℕ) (a' b' c' : ℕ)
    → c' ≤ 999
    → (version_le (with_suffix a b c (x ∷ suffix)) (version a b c) ≡ true)
      × (version_le (version a b c) (with_suffix a b c (x ∷ suffix)) ≡ false)
      × (version_le (version a' b' c') (with_suffix a b c (x ∷ suffix))
          ≡ not (version_le (version a b c) (version a' b' c')))
unfolding version_le with_suffix
with_suffix_bounds a zero zero x suffix a' b' c' k = ground arith
with_suffix_bounds a (suc b) zero x suffix a' b' c' k = ground arith
with_suffix_bounds a b (suc c) x suffix a' b' c' k = ground arith
