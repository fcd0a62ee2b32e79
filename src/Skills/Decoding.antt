-- ===== src/Skills/Decoding.antt =====
-- The strict codec that src/bunkerweb_mcp/skill_catalog.py reads its files with.
use bunkerweb_mcp.Prelude.{
  ℕ, zero, suc, ◌+◌, ◌-◌, ◌*◌, ◌≤◌, ◌<◌, ◌≡◌, refl, ap, sym, subst, Bool, true, false, ◌&&◌, [],
  ◌∷◌, ◌++◌, Option, none, some, Option-cases, inl, inr, ltb, leb, eqb, length, length-append,
  arith, if◌then◌else◌,
}
use bunkerweb_mcp.Client.Segment.{utf8}
use bunkerweb_mcp.Logs.Encoding.{Bytes, Text, Decoder, idle, waiting, begin, extend, encode}
use bunkerweb_mcp.Logs.Decoding.{encode-append}
use bunkerweb_mcp.Skills.{is_start, feed_strict, after_text, decode_strict_from, decode_strict}

length-utf8_one : (c : ℕ) → c < 128 → length (utf8 c) ≡ 1
unfolding utf8
length-utf8_one c h = ground arith

length-utf8_two : (c : ℕ) → 128 ≤ c → c < 2048 → length (utf8 c) ≡ 2
unfolding utf8
length-utf8_two c l h = ground arith

length-utf8_three : (c : ℕ) → 2048 ≤ c → c < 65536 → length (utf8 c) ≡ 3
unfolding utf8
length-utf8_three c l h = ground arith

length-utf8_four : (c : ℕ) → 65536 ≤ c → length (utf8 c) ≡ 4
unfolding utf8
length-utf8_four c l = ground arith

-- After `k` bytes of a sequence, with `needed` after the next: the bits so far, such that the
-- sequence has as many bytes as its character takes.
data Within (k needed low bits : ℕ) : Type 0 where
  second_of_two : k ≡ 1 → needed ≡ 0 → 2 ≤ bits → bits < 32 → Within k needed low bits
  second_of_three :
      k ≡ 1 → needed ≡ 1 → 32 ≤ bits * 64 + (low - 128) → bits < 16 → Within k needed low bits
  third_of_three : k ≡ 2 → needed ≡ 0 → 32 ≤ bits → bits < 1024 → Within k needed low bits
  second_of_four : k ≡ 1 → needed ≡ 2 → 16 ≤ bits * 64 + (low - 128) → Within k needed low bits
  third_of_four : k ≡ 2 → needed ≡ 1 → 16 ≤ bits → Within k needed low bits
  fourth_of_four : k ≡ 3 → needed ≡ 0 → 1024 ≤ bits → Within k needed low bits

abbrev IsFed : ℕ → Decoder → Type 0
IsFed k idle = k ≡ 0
IsFed k (waiting needed low high bits) = (high ≤ 191) × (128 ≤ low) × Within k needed low bits

-- One byte more is a byte of the text or one of the sequence that has begun.
abbrev IsExact : ℕ → Text × Decoder → Type 0
IsExact k r = (k' : ℕ) × (length (encode r.0) + k' ≡ k + 1) × IsFed k' r.1

if-IsExact :
    (k : ℕ) (b : Bool) (x y : Text × Decoder)
    → (b ≡ true → IsExact k x)
    → (b ≡ false → IsExact k y)
    → IsExact k (if b then x else y)
if-IsExact k true x y hx hy = hx refl
if-IsExact k false x y hx hy = hy refl

length-encode_one : (c n : ℕ) → length (utf8 c) ≡ n → length (encode (c ∷ [])) ≡ n
unfolding encode
length-encode_one c n h = omega (arith, length-append (utf8 c) [], h)

length-encode_none : length (encode []) ≡ 0
unfolding encode
length-encode_none = refl

begun :
    (needed low high bits : ℕ)
    → (high ≤ 191) × (128 ≤ low) × Within 1 needed low bits
    → IsExact 0 ([], waiting needed low high bits)
begun needed low high bits fed = (1, omega (arith, length-encode_none), fed)

-- The bytes from 0xF0 on.
high_start-IsExact :
    (b : ℕ)
    → leb b 0xF4 ≡ true
    → ltb b 0xF0 ≡ false
    → IsExact 0 (
        if eqb b 0xF0
        then ([], waiting 2 144 191 0)
        else if ltb b 0xF4
        then ([], waiting 2 128 191 (b - 0xF0))
        else if eqb b 0xF4
        then ([], waiting 2 128 143 4)
        else ([], idle))
high_start-IsExact b start h6 =
    if-IsExact 0 (eqb b 0xF0) _ _
      (λ h. begun 2 144 191 0 (omega arith, omega arith, second_of_four refl refl (omega arith)))
      (λ h7.
        if-IsExact 0 (ltb b 0xF4) _ _
          (λ h.
            begun 2 128 191 (b - 0xF0)
              (omega arith, omega arith, second_of_four refl refl (ground arith)))
          (λ h8.
            if-IsExact 0 (eqb b 0xF4) _ _
              (λ h.
                begun 2 128 143 4
                  (omega arith, omega arith, second_of_four refl refl (omega arith)))
              (λ h9. absurd (ground arith))))

-- The bytes after 0xE0.
later_start-IsExact :
    (b : ℕ)
    → leb b 0xF4 ≡ true
    → ltb b 0xE0 ≡ false
    → eqb b 0xE0 ≡ false
    → IsExact 0 (
        if eqb b 0xED
        then ([], waiting 1 128 159 13)
        else if ltb b 0xF0
        then ([], waiting 1 128 191 (b - 0xE0))
        else if eqb b 0xF0
        then ([], waiting 2 144 191 0)
        else if ltb b 0xF4
        then ([], waiting 2 128 191 (b - 0xF0))
        else if eqb b 0xF4
        then ([], waiting 2 128 143 4)
        else ([], idle))
later_start-IsExact b start h3 h4 =
    if-IsExact 0 (eqb b 0xED) _ _
      (λ h.
        begun 1 128 159 13
          (omega arith, omega arith, second_of_three refl refl (omega arith) (omega arith)))
      (λ h5.
        if-IsExact 0 (ltb b 0xF0) _ _
          (λ h.
            begun 1 128 191 (b - 0xE0)
              (omega arith, omega arith, second_of_three refl refl (ground arith) (ground arith)))
          (λ h6. high_start-IsExact b start h6))

begin-IsExact : (b : ℕ) → is_start b ≡ true → IsExact 0 (begin false b)
unfolding begin
begin-IsExact b start =
    if-IsExact 0 (ltb b 128) _ _
      (λ h. (0, omega (arith, length-encode_one b 1 (length-utf8_one b (ground (arith, h)))), refl))
      (λ h1.
        if-IsExact 0 (ltb b 0xC2) _ _ (λ h. absurd (ground arith))
          (λ h2.
            if-IsExact 0 (ltb b 0xE0) _ _
              (λ h.
                begun 0 128 191 (b - 0xC0)
                  (omega arith, omega arith, second_of_two refl refl (ground arith) (ground arith)))
              (λ h3.
                if-IsExact 0 (eqb b 0xE0) _ _
                  (λ h. begun 1 160 191 0 (
                    omega arith,
                    omega arith,
                    second_of_three refl refl (omega arith) (omega arith),
                  ))
                  (λ h4. later_start-IsExact b (ground arith) h3 h4))))

extended :
    (k needed bits : ℕ)
    → Within (k + 1) needed 128 bits
    → IsExact k ([], waiting needed 128 191 bits)
extended k needed bits within =
    (k + 1, omega (arith, length-encode_none), (omega arith, omega arith, within))

decoded : (k c n : ℕ) → n ≡ k + 1 → length (utf8 c) ≡ n → IsExact k (c ∷ [], idle)
decoded k c n e h = (0, omega (arith, length-encode_one c n h, e), refl)

extend-IsExact :
    (k needed low high bits b : ℕ)
    → IsFed k (waiting needed low high bits)
    → low ≤ b
    → b ≤ high
    → IsExact k (extend needed (bits * 64 + (b - 128)))
unfolding extend
extend-IsExact k zero low high bits b (hi, lo, second_of_two k1 n0 least most) hl hh =
    decoded k (bits * 64 + (b - 128)) 2 (omega arith)
      (length-utf8_two (bits * 64 + (b - 128)) (omega arith) (omega arith))
extend-IsExact k zero low high bits b (hi, lo, third_of_three k2 n0 least most) hl hh =
    decoded k (bits * 64 + (b - 128)) 3 (omega arith)
      (length-utf8_three (bits * 64 + (b - 128)) (omega arith) (omega arith))
extend-IsExact k zero low high bits b (hi, lo, fourth_of_four k3 n0 least) hl hh =
    decoded k (bits * 64 + (b - 128)) 4 (omega arith)
      (length-utf8_four (bits * 64 + (b - 128)) (omega arith))
extend-IsExact k zero low high bits b (hi, lo, second_of_three k1 n1 least most) hl hh =
    absurd (omega arith)
extend-IsExact k zero low high bits b (hi, lo, second_of_four k1 n2 least) hl hh =
    absurd (omega arith)
extend-IsExact k zero low high bits b (hi, lo, third_of_four k2 n1 least) hl hh =
    absurd (omega arith)
extend-IsExact k (suc n) low high bits b (hi, lo, second_of_three k1 n1 least most) hl hh =
    extended k n (bits * 64 + (b - 128))
      (third_of_three (omega arith) (omega arith) (omega arith) (omega arith))
extend-IsExact k (suc n) low high bits b (hi, lo, second_of_four k1 n2 least) hl hh =
    extended k n (bits * 64 + (b - 128)) (third_of_four (omega arith) (omega arith) (omega arith))
extend-IsExact k (suc n) low high bits b (hi, lo, third_of_four k2 n1 least) hl hh =
    extended k n (bits * 64 + (b - 128)) (fourth_of_four (omega arith) (omega arith) (omega arith))
extend-IsExact k (suc n) low high bits b (hi, lo, second_of_two k1 n0 least most) hl hh =
    absurd (omega arith)
extend-IsExact k (suc n) low high bits b (hi, lo, third_of_three k2 n0 least most) hl hh =
    absurd (omega arith)
extend-IsExact k (suc n) low high bits b (hi, lo, fourth_of_four k3 n0 least) hl hh =
    absurd (omega arith)

if-some :
    {A : Type 0} (test : Bool) (a b : A)
    → (if test then some a else none) ≡ some b
    → (test ≡ true) × (a ≡ b)
if-some true a b h = (refl, cc)
if-some false a b h = absurd (cc)

feed_strict-IsExact :
    (k : ℕ) (state : Decoder) (b : ℕ) (r : Text × Decoder)
    → IsFed k state
    → feed_strict state b ≡ some r
    → IsExact k r
unfolding feed_strict
feed_strict-IsExact k idle b r fed h =
    let (start, e) = if-some (is_start b) (begin false b) r h in
    subst (λ n. IsExact n r) (sym fed) (subst (IsExact 0) e (begin-IsExact b start))
feed_strict-IsExact k (waiting needed low high bits) b r fed h =
    let (fits, e) = if-some (leb low b && leb b high) (extend needed (bits * 64 + (b - 128))) r h in
    subst (IsExact k) e
      (extend-IsExact k needed low high bits b fed (ground (arith, fits)) (ground (arith, fits)))

after_text-eq-some :
    (text : Text) (later : Option Text) (all : Text)
    → after_text text later ≡ some all
    → (rest : Text) × (later ≡ some rest) × (text ++ rest ≡ all)
after_text-eq-some text none all h = absurd (cc)
after_text-eq-some text (some rest) all h = (rest, refl, cc)

decode_strict_from-IsExact :
    (bs : Bytes) (k : ℕ) (state : Decoder) (text : Text)
    → IsFed k state
    → decode_strict_from state bs ≡ some text
    → length (encode text) ≡ k + length bs
unfolding decode_strict_from
decode_strict_from-IsExact [] k idle text fed h =
    let e : [] ≡ text = cc in omega (arith, ap (λ t. length (encode t)) e, length-encode_none, fed)
decode_strict_from-IsExact [] k (waiting needed low high bits) text fed h = absurd (cc)
decode_strict_from-IsExact (b ∷ bs) k state text fed h = elim (Option-cases (feed_strict state b)) [
  | inl e ↦ let g = rw (decode_strict_from, e) at h in absurd (cc)
  | inr ((first, next), e) ↦
      let (rest, later, all) =
        after_text-eq-some first (decode_strict_from next bs) text
          (rw (decode_strict_from, e) at h) in
      let (k', h1, fed') = feed_strict-IsExact k state b (first, next) fed e in
      omega (
        arith,
        ap (λ t. length (encode t)) (sym all),
        ap length (encode-append first rest),
        length-append (encode first) (encode rest),
        decode_strict_from-IsExact bs k' next rest fed' later,
        h1,
      )
]

-- What is read without an error encodes to as many bytes as were read.
pub decode_strict_lem :
    (raw : Bytes) (text : Text) → decode_strict raw ≡ some text → length (encode text) ≡ length raw
unfolding decode_strict
decode_strict_lem raw text h = omega (arith, decode_strict_from-IsExact raw 0 idle text refl h)
