-- ===== src/Upstream/Numerals.antt =====
-- The numbers of a version are read back as they are written.
use Prim.Native.Char.{code}
use bunkerweb_mcp.Prelude.{
  ℕ, zero, suc, ◌+◌, ◌*◌, ◌/◌, ◌%◌, ◌<◌, ◌≡◌, refl, ap, inl, inr, String, Bool, true, false, List,
  [], ◌∷◌, ◌++◌, ◌∙◌, none, some, codes, arith, ltb, Bool-cases, Option-cases,
}
use bunkerweb_mcp.Prelude.Decimal.{digit_char, show_from, show}
use bunkerweb_mcp.Upstream.Digits.{digit_value, number_from, number}

code-digit_char : (d : ℕ) → d < 10 → code (digit_char d) ≡ d + 48
unfolding digit_char
code-digit_char zero h = refl
code-digit_char (suc zero) h = refl
code-digit_char (suc (suc zero)) h = refl
code-digit_char (suc (suc (suc zero))) h = refl
code-digit_char (suc (suc (suc (suc zero)))) h = refl
code-digit_char (suc (suc (suc (suc (suc zero))))) h = refl
code-digit_char (suc (suc (suc (suc (suc (suc zero)))))) h = refl
code-digit_char (suc (suc (suc (suc (suc (suc (suc zero))))))) h = refl
code-digit_char (suc (suc (suc (suc (suc (suc (suc (suc zero)))))))) h = refl
code-digit_char (suc (suc (suc (suc (suc (suc (suc (suc (suc zero))))))))) h = refl
code-digit_char (suc (suc (suc (suc (suc (suc (suc (suc (suc (suc d)))))))))) h =
    absurd (omega arith)

digit_value_ascii : (d : ℕ) → d < 10 → digit_value (d + 48) ≡ some d
unfolding digit_value
digit_value_ascii d h = ground arith

digit_value-digit_char : (d : ℕ) → d < 10 → digit_value (code (digit_char d)) ≡ some d
digit_value-digit_char d h = rw (code-digit_char d h) (digit_value_ascii d h)

-- A digit in front of a text goes into the number.
number_from-digit :
    (m d : ℕ) (s : List ℕ)
    → d < 10
    → number_from m (code (digit_char d) ∷ s) ≡ number_from (m * 10 + d) s
unfolding number_from
number_from-digit m d s h = rw (digit_value-digit_char d h, number_from) refl

number_from-show_from :
    (fuel n : ℕ) (acc : String) (rest : List ℕ)
    → n < fuel
    → number_from 0 (codes (show_from fuel n acc) ++ rest) ≡ number_from n (codes acc ++ rest)
unfolding show_from
number_from-show_from zero n acc rest h = absurd (omega arith)
number_from-show_from (suc fuel) n acc rest h = elim (Bool-cases (ltb n 10)) [
  | inl e ↦ rw e (
      number_from-digit 0 n (codes acc ++ rest) (ground arith)
      ∙ ap (λ k. number_from k (codes acc ++ rest)) (omega arith))
  | inr e ↦ rw e (
      number_from-show_from fuel (n / 10) _ rest (ground arith)
      ∙ number_from-digit (n / 10) (n % 10) (codes acc ++ rest) (omega arith)
      ∙ ap (λ k. number_from k (codes acc ++ rest)) (omega arith))
]

unfoldable pub starts_with_digit : List ℕ → Bool
starts_with_digit [] = false
starts_with_digit (c ∷ s) = elim (digit_value c) [ none ↦ false | some d ↦ true ]

starts_with_digit-show_from :
    (fuel n : ℕ) (acc : String) (rest : List ℕ)
    → n < fuel
    → starts_with_digit (codes (show_from fuel n acc) ++ rest) ≡ true
unfolding show_from starts_with_digit
starts_with_digit-show_from zero n acc rest h = absurd (omega arith)
starts_with_digit-show_from (suc fuel) n acc rest h = elim (Bool-cases (ltb n 10)) [
  | inl e ↦ rw e (rw (digit_value-digit_char n (ground arith), starts_with_digit) refl)
  | inr e ↦ rw e (starts_with_digit-show_from fuel (n / 10) _ rest (ground arith))
]

number-eq_of_digit : (s : List ℕ) → starts_with_digit s ≡ true → number s ≡ some (number_from 0 s)
unfolding number starts_with_digit
number-eq_of_digit [] h = absurd (cc)
number-eq_of_digit (c ∷ s) h = elim (Option-cases (digit_value c)) [
  | inl e ↦ let g = rw (e, starts_with_digit) at h in absurd (cc)
  | inr (d, e) ↦ rw (e, number, number_from) (ap (λ k. some (number_from k s)) (omega arith))
]

number_from_stop : (n : ℕ) (s : List ℕ) → starts_with_digit s ≡ false → number_from n s ≡ (n, s)
unfolding number_from starts_with_digit
number_from_stop n [] h = refl
number_from_stop n (c ∷ s) h = elim (Option-cases (digit_value c)) [
  | inl e ↦ rw (e, number_from) refl
  | inr (d, e) ↦ let g = rw (e, starts_with_digit) at h in absurd (cc)
]

-- A printed number is read back, and what follows it is left.
pub number-show :
    (n : ℕ) (rest : List ℕ)
    → starts_with_digit rest ≡ false
    → number (codes (show n) ++ rest) ≡ some (n, rest)
unfolding show
number-show n rest h =
    number-eq_of_digit _ (starts_with_digit-show_from (suc n) n "" rest (omega arith))
    ∙ ap some (number_from-show_from (suc n) n "" rest (omega arith) ∙ number_from_stop n rest h)
