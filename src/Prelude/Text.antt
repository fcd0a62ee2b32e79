-- ===== src/Prelude/Text.antt =====
-- Python's `str` operations that the program calls, over the native texts. A text is a sequence
-- of code points; `len` is the number of them.
use Prim.Native.Nat.{ℕ}
use Prim.Native.Char.{code}
use Prim.Native.String
use Prim.Native.String.{String}
use mathlib.Core.Path.{◌≡◌, refl, ap}
use mathlib.Core.Bool.{Bool, true, false, ◌&&◌, ◌||◌}
use mathlib.Core.List.{List, [], ◌∷◌, ◌++◌}
use native.Mathlib.Omega.{arith}
use text.Mathlib.TextLemmas.{nil-append, cons-append}
use bunkerweb_mcp.Prelude.Tests.{eqb, if◌then◌else◌}

-- s + t
infixr 64 ◌<>◌
abbrev pub ◌<>◌ : String → String → String
s <> t = String.◌++◌ s t

abbrev pub codes : String → List ℕ
codes String.[] = []
codes (String.◌∷◌ c s) = code c ∷ codes s

-- any(test(ord(c)) for c in s)
abbrev pub any_char : (ℕ → Bool) → String → Bool
any_char test String.[] = false
any_char test (String.◌∷◌ c s) = test (code c) || any_char test s

-- all(test(ord(c)) for c in s)
abbrev pub all_char : (ℕ → Bool) → String → Bool
all_char test String.[] = true
all_char test (String.◌∷◌ c s) = test (code c) && all_char test s

-- s.startswith(p)
abbrev pub has_prefix : String → String → Bool
has_prefix String.[] s = true
has_prefix (String.◌∷◌ a p) String.[] = false
has_prefix (String.◌∷◌ a p) (String.◌∷◌ b s) = eqb (code a) (code b) && has_prefix p s

-- s[len(p):] of an s that starts with p
abbrev pub after_prefix : String → String → String
after_prefix String.[] s = s
after_prefix (String.◌∷◌ a p) String.[] = String.[]
after_prefix (String.◌∷◌ a p) (String.◌∷◌ b s) = after_prefix p s

-- s.removeprefix(p)
abbrev pub remove_prefix : String → String → String
remove_prefix p s = if has_prefix p s then after_prefix p s else s

-- p in s
abbrev pub contains : String → String → Bool
contains p String.[] = has_prefix p String.[]
contains p (String.◌∷◌ c s) = has_prefix p (String.◌∷◌ c s) || contains p s

-- s.rsplit(sep, 1)[-1], where `seen` is what follows the last separator so far
abbrev pub after_last_from : ℕ → String → String → String
after_last_from sep seen String.[] = seen
after_last_from sep seen (String.◌∷◌ c s) =
    after_last_from sep (if eqb (code c) sep then s else seen) s

abbrev pub after_last : ℕ → String → String
after_last sep s = after_last_from sep s s

-- sep.join(parts)
abbrev pub join : String → List String → String
join sep [] = ""
join sep (s ∷ []) = s
join sep (s ∷ t ∷ rest) = s <> sep <> join sep (t ∷ rest)

pub has_prefix_refl : (p : String) → has_prefix p p ≡ true
has_prefix_refl String.[] = refl
has_prefix_refl (String.◌∷◌ c p) = ground (arith, has_prefix_refl p)

pub contains_refl : (p : String) → contains p p ≡ true
contains_refl String.[] = refl
contains_refl (String.◌∷◌ c p) = ground (arith, has_prefix_refl p)

pub codes-append : (s t : String) → codes (s <> t) ≡ codes s ++ codes t
codes-append String.[] t = rw nil-append refl
codes-append (String.◌∷◌ c s) t = rw cons-append (ap (λ l. code c ∷ l) (codes-append s t))
