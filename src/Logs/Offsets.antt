-- ===== src/Logs/Offsets.antt =====
-- Where the lines of a page begin (src/bunkerweb_mcp/tools/log_handlers.py): inside the window.
use bunkerweb_mcp.Prelude.{
  ℕ, suc, ◌+◌, ◌-◌, ◌≤◌, ◌<◌, ◌≡◌, refl, Bool, false, ◌&&◌, List, [], ◌∷◌, ◌++◌, ltb, length, All,
  All-append, Bool-cases, ◌⊎◌, inl, inr, arith,
}
use bunkerweb_mcp.Logs.Encoding.{Bytes, Text, drop, push, ends_line, splitlines}
use bunkerweb_mcp.Logs.Select.{
  Line, Scan, append_bounded, text_of_line, scan_line, scan_lines, cut_line, keep_line, keep_lines,
  size_of, reverse_onto,
}
use bunkerweb_mcp.Logs.Pages.{first_offset}

abbrev pub total_length : List Bytes → ℕ
total_length [] = 0
total_length (line ∷ lines) = length line + total_length lines

abbrev pub IsNonempty : Bytes → Type 0
IsNonempty line = 0 < length line

push_lem :
    (b : ℕ) (lines : List Bytes)
    → All IsNonempty lines
    → (total_length (push b lines) ≡ suc (total_length lines)) × All IsNonempty (push b lines)
push_lem b [] h = (omega arith, (omega arith, tt))
push_lem b (line ∷ lines) (h, hs) = (omega arith, (omega arith, hs))

pub splitlines_lem :
    (bs : Bytes) → (total_length (splitlines bs) ≡ length bs) × All IsNonempty (splitlines bs)
unfolding splitlines
splitlines_lem [] = (refl, tt)
splitlines_lem (b ∷ bs) =
    let (e, hs) = splitlines_lem bs in
    elim (Bool-cases (ends_line b bs)) [
      | inl f ↦ rw f (omega (arith, e), (omega arith, hs))
      | inr f ↦ let (g, gs) = push_lem b (splitlines bs) hs in rw f (omega (arith, e, g), gs)
    ]

abbrev pub IsBelow : ℕ → Line → Type 0
IsBelow bound line = line.0 < bound

All-drop-one : {A : Type 0} (P : A → Type 0) (xs : List A) → All P xs → All P (drop 1 xs)
All-drop-one P [] h = h
All-drop-one P (x ∷ xs) h = h.1

All-append_bounded :
    {A : Type 0} (P : A → Type 0) (limit : ℕ) (items : List A) (item : A)
    → All P items
    → P item
    → All P (append_bounded limit items item)
unfolding append_bounded
All-append_bounded P limit items item hs h =
    elim (Bool-cases (ltb limit (length (items ++ item ∷ [])))) [
      | inl e ↦
          rw e (All-drop-one P (items ++ item ∷ []) (All-append P items (item ∷ []) hs (h, tt)))
      | inr e ↦ rw e (All-append P items (item ∷ []) hs (h, tt))
    ]

scan_line-All :
    (bound : ℕ) (matching : Text → Bool) (limit position : ℕ) (raw : Bytes) (s : Scan)
    → position < bound
    → All (IsBelow bound) s.matches
    → All (IsBelow bound) (scan_line matching limit position raw s).matches
unfolding scan_line
scan_line-All bound matching limit position raw s h hs =
    elim (Bool-cases (matching (text_of_line raw))) [
      | inl e ↦
          rw e
            (All-append_bounded (IsBelow bound) limit s.matches (position, text_of_line raw) hs h)
      | inr e ↦ rw e hs
    ]

pub scan_lines-All :
    (bound : ℕ) (matching : Text → Bool) (limit position : ℕ) (lines : List Bytes) (s : Scan)
    → position + total_length lines ≤ bound
    → All IsNonempty lines
    → All (IsBelow bound) s.matches
    → All (IsBelow bound) (scan_lines matching limit position lines s).matches
unfolding scan_lines
scan_lines-All bound matching limit position [] s le full hs = hs
scan_lines-All bound matching limit position (raw ∷ lines) s le (h, full) hs =
    scan_lines-All bound matching limit (position + length raw) lines
      (scan_line matching limit position raw s) (omega arith) full
      (scan_line-All bound matching limit position raw s (omega arith) hs)

cut_line-All :
    (bound : ℕ) (first : Bool) (remaining : ℕ) (line : Line)
    → IsBelow bound line
    → All (IsBelow bound) (cut_line first remaining line)
unfolding cut_line
cut_line-All bound first remaining (offset, text) h = elim (Bool-cases (first && ltb 0 remaining)) [
  | inl e ↦ rw e (h, tt)
  | inr e ↦ rw e tt
]

keep_line-All :
    (bound : ℕ) (first : Bool) (remaining : ℕ) (line : Line) (rest : List Line × Bool)
    → IsBelow bound line
    → All (IsBelow bound) rest.0
    → All (IsBelow bound) (keep_line first remaining line rest).0
unfolding keep_line
keep_line-All bound first remaining line rest h hs =
    elim (Bool-cases (ltb remaining (size_of line))) [
      | inl e ↦ rw e (cut_line-All bound first remaining line h)
      | inr e ↦ rw e (h, hs)
    ]

pub keep_lines-All :
    (bound : ℕ) (first : Bool) (remaining : ℕ) (lines : List Line)
    → All (IsBelow bound) lines
    → All (IsBelow bound) (keep_lines first remaining lines).0
unfolding keep_lines
keep_lines-All bound first remaining [] hs = tt
keep_lines-All bound first remaining (line ∷ lines) (h, hs) =
    keep_line-All bound first remaining line (keep_lines false (remaining - size_of line) lines) h
      (keep_lines-All bound false (remaining - size_of line) lines hs)

pub All-reverse_onto :
    {A : Type 0} (P : A → Type 0) (xs ys : List A)
    → All P xs
    → All P ys
    → All P (reverse_onto xs ys)
All-reverse_onto P [] ys hx hy = hy
All-reverse_onto P (x ∷ xs) ys (h, hx) hy = All-reverse_onto P xs (x ∷ ys) hx (h, hy)

pub first_offset_below :
    (bound content_start : ℕ) (lines : List Line)
    → All (IsBelow bound) lines
    → (first_offset lines content_start < bound) ⊎ (lines ≡ [])
first_offset_below bound content_start [] hs = inr refl
first_offset_below bound content_start ((offset, text) ∷ lines) (h, hs) = inl h
