-- ===== src/Upstream/Digits.antt =====
-- `\d+` and `int` of src/bunkerweb_mcp/upstream.py: Python takes the decimal digits of every
-- script (Unicode 14, the tables of Python 3.11).
use bunkerweb_mcp.Prelude.{
  ℕ, ◌+◌, ◌-◌, ◌*◌, ◌&&◌, List, [], ◌∷◌, Option, none, some, leb, if◌then◌else◌,
}

-- The code point of each script's digit zero; nine digits follow each.
abbrev digit_zeros : List ℕ
digit_zeros =
    0x30 ∷ 0x660 ∷ 0x6f0 ∷ 0x7c0 ∷ 0x966 ∷ 0x9e6 ∷ 0xa66 ∷ 0xae6 ∷ 0xb66 ∷ 0xbe6 ∷ 0xc66 ∷ 0xce6
    ∷ 0xd66 ∷ 0xde6 ∷ 0xe50 ∷ 0xed0 ∷ 0xf20 ∷ 0x1040 ∷ 0x1090 ∷ 0x17e0 ∷ 0x1810 ∷ 0x1946 ∷ 0x19d0
    ∷ 0x1a80 ∷ 0x1a90 ∷ 0x1b50 ∷ 0x1bb0 ∷ 0x1c40 ∷ 0x1c50 ∷ 0xa620 ∷ 0xa8d0 ∷ 0xa900 ∷ 0xa9d0
    ∷ 0xa9f0 ∷ 0xaa50 ∷ 0xabf0 ∷ 0xff10 ∷ 0x104a0 ∷ 0x10d30 ∷ 0x11066 ∷ 0x110f0 ∷ 0x11136 ∷ 0x111d0
    ∷ 0x112f0 ∷ 0x11450 ∷ 0x114d0 ∷ 0x11650 ∷ 0x116c0 ∷ 0x11730 ∷ 0x118e0 ∷ 0x11950 ∷ 0x11c50
    ∷ 0x11d50 ∷ 0x11da0 ∷ 0x16a60 ∷ 0x16ac0 ∷ 0x16b50 ∷ 0x1d7ce ∷ 0x1d7d8 ∷ 0x1d7e2 ∷ 0x1d7ec
    ∷ 0x1d7f6 ∷ 0x1e140 ∷ 0x1e2f0 ∷ 0x1e950 ∷ 0x1fbf0 ∷ []

value_in : List ℕ → ℕ → Option ℕ
value_in [] c = none
value_in (z ∷ zs) c = if leb z c && leb c (z + 9) then some (c - z) else value_in zs c

-- The value of a decimal digit, `none` for any other character.
unfoldable pub digit_value : ℕ → Option ℕ
unfolding value_in
digit_value c = value_in digit_zeros c

-- The rest of `\d+`, read with the value so far: all the digits, and what follows them.
unfoldable pub number_from : ℕ → List ℕ → ℕ × List ℕ
number_from n [] = (n, [])
number_from n (c ∷ s) = elim (digit_value c) [
  | none ↦ (n, c ∷ s)
  | some d ↦ number_from (n * 10 + d) s
]

unfoldable pub number : List ℕ → Option (ℕ × List ℕ)
unfolding number_from digit_value
number [] = none
number (c ∷ s) = elim (digit_value c) [ none ↦ none | some d ↦ some (number_from d s) ]
