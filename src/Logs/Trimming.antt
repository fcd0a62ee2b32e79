-- ===== src/Logs/Trimming.antt =====
-- What src/bunkerweb_mcp/tools/log_handlers.py leaves of a window at its two ends.
use bunkerweb_mcp.Prelude.{
  ℕ, zero, suc, ◌+◌, ◌-◌, ◌≤◌, ◌<◌, ◌≡◌, refl, ap, sym, Bool, true, false, not, ◌&&◌, [], ◌∷◌,
  Option, none, some, ltb, length, any_of, Bool-cases, Option-cases, ◌⊎◌, inl, inr, arith,
}
use bunkerweb_mcp.Logs.Encoding.{
  Bytes, take, drop, is_empty, is_newline, is_at_newline, to_last_newline, after_newline, keep_byte,
  found,
}
use bunkerweb_mcp.Logs.Window.{end_of, trim_end, trim_start}

-- No piece of `scan_bytes - 1` bytes of the file is without a line feed, where `scan_bytes` fit.
abbrev pub HasShortLines : ℕ → Bytes → Type 0
HasShortLines scan_bytes file =
    (i : ℕ)
    → i + scan_bytes ≤ length file
    → any_of is_newline (take (scan_bytes - 1) (drop i file)) ≡ true

keep_byte_lem :
    (b : ℕ) (rest bs : Bytes)
    → (rest ≡ bs) ⊎ (length rest < length bs)
    → (keep_byte b rest ≡ b ∷ bs) ⊎ (length (keep_byte b rest) < suc (length bs))
keep_byte_lem b [] bs (inl e) = elim (Bool-cases (is_newline b)) [
  | inl f ↦ inl (rw f (ap (λ t. b ∷ t) e))
  | inr f ↦ inr (rw f (omega arith))
]
keep_byte_lem b [] bs (inr lt) = elim (Bool-cases (is_newline b)) [
  | inl f ↦ inr (rw f (omega arith))
  | inr f ↦ inr (rw f (omega arith))
]
keep_byte_lem b (c ∷ rest) bs (inl e) = inl (ap (λ t. b ∷ t) e)
keep_byte_lem b (c ∷ rest) bs (inr lt) = inr (omega arith)

length-to_last_newline :
    (bs : Bytes) → (to_last_newline bs ≡ bs) ⊎ (length (to_last_newline bs) < length bs)
unfolding to_last_newline
length-to_last_newline [] = inl refl
length-to_last_newline (b ∷ bs) =
    keep_byte_lem b (to_last_newline bs) bs (length-to_last_newline bs)

some_pair :
    {i j : ℕ} {s t : Bytes}
    → ◌≡◌ {A = Option (ℕ × Bytes)} (some (i, s)) (some (j, t))
    → (i ≡ j) × (s ≡ t)
some_pair h = (cc, cc)

found_lem :
    (newline : Bool) (bs : Bytes) (later : Option (ℕ × Bytes)) {i : ℕ} {rest : Bytes}
    → found newline bs later ≡ some (i, rest)
    → ((newline ≡ true) × (i ≡ 0) × (rest ≡ bs))
      ⊎ ((newline ≡ false) × ((j : ℕ) × (i ≡ suc j) × (later ≡ some (j, rest))))
found_lem true bs later h = let (e, f) = some_pair h in inl (refl, sym e, sym f)
found_lem false bs none h = absurd (cc)
found_lem false bs (some (j, t)) h =
    let (e, f) = some_pair h in inr (refl, (j, sym e, ap (λ u. some (j, u)) f))

pub length-after_newline :
    (bs : Bytes) {i : ℕ} {rest : Bytes}
    → after_newline bs ≡ some (i, rest)
    → i + 1 + length rest ≡ length bs
unfolding after_newline
length-after_newline [] h = absurd (cc)
length-after_newline (b ∷ bs) h = elim (found_lem (is_newline b) bs (after_newline bs) h) [
  | inl (e, f, g) ↦ omega (arith, f, ap length g)
  | inr (e, (j, f, g)) ↦ omega (arith, f, length-after_newline bs g)
]

pub after_newline-lt :
    (m n : ℕ) (xs : Bytes) {i : ℕ} {rest : Bytes}
    → after_newline (take m xs) ≡ some (i, rest)
    → any_of is_newline (take n xs) ≡ true
    → i < n
unfolding after_newline
after_newline-lt zero n xs h a = absurd (cc)
after_newline-lt (suc m) zero xs h a = absurd (cc)
after_newline-lt (suc m) (suc n) [] h a = absurd (cc)
after_newline-lt (suc m) (suc n) (b ∷ xs) h a =
    elim (found_lem (is_newline b) (take m xs) (after_newline (take m xs)) h) [
      | inl (e, f, g) ↦ omega (arith, f)
      | inr (e, (j, f, g)) ↦ omega (arith, f, after_newline-lt m n xs g (rw e at a))
    ]

pub length-take-le : (n : ℕ) (xs : Bytes) → length (take n xs) ≤ n
length-take-le zero xs = omega arith
length-take-le (suc n) [] = omega arith
length-take-le (suc n) (x ∷ xs) = omega (arith, length-take-le n xs)

pub end_of-le : (file : Bytes) (cursor : Option ℕ) → end_of file cursor ≤ length file
unfolding end_of
end_of-le file none = omega arith
end_of-le file (some cursor) = omega arith

-- What `trim_end` leaves is the slice itself, or shorter.
pub trim_end_lem :
    (file : Bytes) (stop : ℕ) (content : Bytes)
    → (trim_end file stop content ≡ content)
      ⊎ (length (trim_end file stop content) < length content)
unfolding trim_end
trim_end_lem file stop content =
    elim (Bool-cases
      (ltb stop (length file) && ltb 0 stop && not (is_at_newline (drop (stop - 1) file)))) [
        | inl e ↦ rw e (length-to_last_newline content)
        | inr e ↦ inl (rw e refl)
      ]

-- Where `trim_start` lets the content begin.
pub trim_start_lem :
    (start : ℕ) (content : Bytes)
    → ((trim_start start content).content_start + length (trim_start start content).content
        ≡ start + length content)
      × (((trim_start start content).content_start ≡ start)
          ⊎ ((i : ℕ) × (rest : Bytes) × (after_newline content ≡ some (i, rest))
              × ((trim_start start content).content_start ≡ start + i + 1)
              × (0 < start)))
unfolding trim_start
trim_start_lem start content = elim (Bool-cases (ltb 0 start && not (is_empty content))) [
  | inr e ↦ rw e (refl, inl refl)
  | inl e ↦ elim (Option-cases (after_newline content)) [
    | inl f ↦ rw (e, f) (refl, inl refl)
    | inr ((i, rest), f) ↦
        rw (e, f)
          (omega (arith, length-after_newline content f), inr (i, rest, refl, refl, ground arith))
  ]
]
