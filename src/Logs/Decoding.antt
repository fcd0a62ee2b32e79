-- ===== src/Logs/Decoding.antt =====
-- Cutting a text of UTF-8 at a byte never makes it longer: the codec of
-- src/bunkerweb_mcp/tools/log_handlers.py with errors="ignore".
use bunkerweb_mcp.Prelude.{
  ℕ, zero, suc, ◌+◌, ◌-◌, ◌*◌, ◌≤◌, ◌<◌, ◌≡◌, refl, Bool, true, false, ◌&&◌, [], ◌∷◌, ◌++◌, ◌⊎◌,
  inl, inr, ltb, leb, eqb, length, length-append, arith, if◌then◌else◌,
}
use mathlib.Core.List.{append_assoc}
use bunkerweb_mcp.Client.Segment.{utf8}
use bunkerweb_mcp.Logs.Encoding.{
  Bytes, Text, Decoder, idle, waiting, begin, extend, restart, feed, decode_from, decode_ignore,
  encode,
}

length-utf8-le : (c : ℕ) → length (utf8 c) ≤ 4
unfolding utf8
length-utf8-le c = ground arith

length-utf8_three : (c : ℕ) → c < 65536 → length (utf8 c) ≤ 3
unfolding utf8
length-utf8_three c h = ground arith

length-utf8_two : (c : ℕ) → c < 2048 → length (utf8 c) ≤ 2
unfolding utf8
length-utf8_two c h = ground arith

length-utf8_one : (c : ℕ) → c < 128 → length (utf8 c) ≤ 1
unfolding utf8
length-utf8_one c h = ground arith

-- A decoder that has read `k` bytes of a sequence: what it will decode to takes no more bytes than
-- the sequence has.
abbrev IsFed : ℕ → Decoder → Type 0
IsFed k idle = Unit {0}
IsFed k (waiting needed low high bits) =
    (high ≤ 191)
    × (128 ≤ low)
    × (((k + needed ≡ 1) × (needed ≡ 0) × (bits < 32))
        ⊎ (((k + needed ≡ 2) × (needed ≡ 1) × (bits < 16))
            ⊎ (((k + needed ≡ 2) × (needed ≡ 0) × (bits < 1024)) ⊎ (k + needed ≡ 3))))

-- What one byte leads to, after `k` bytes of a sequence.
abbrev Fits : ℕ → Text × Decoder → Type 0
Fits k r = (k' : ℕ) × (length (encode r.0) + k' ≤ k + 1) × IsFed k' r.1

if-Fits :
    (k : ℕ) (b : Bool) (x y : Text × Decoder)
    → (b ≡ true → Fits k x)
    → (b ≡ false → Fits k y)
    → Fits k (if b then x else y)
if-Fits k true x y hx hy = hx refl
if-Fits k false x y hx hy = hy refl

length-encode-one : (c n : ℕ) → length (utf8 c) ≤ n → length (encode (c ∷ [])) ≤ n
unfolding encode
length-encode-one c n h = omega (arith, length-append (utf8 c) [])

begin-Fits : (b : ℕ) → Fits 0 (begin false b)
unfolding begin encode
begin-Fits b =
    if-Fits 0 (ltb b 128) _ _
      (λ h. (0, omega (arith, length-encode-one b 1 (length-utf8_one b (ground arith))), tt))
      (λ h1.
        if-Fits 0 (ltb b 0xC2) _ _ (λ h. (0, omega arith, tt))
          (λ h2.
            if-Fits 0 (ltb b 0xE0) _ _
              (λ h. (1, omega arith, (omega arith, omega arith, inl (ground arith))))
              (λ h3.
                if-Fits 0 (eqb b 0xE0) _ _
                  (λ h. (1, omega arith, (omega arith, omega arith, inr (inl (omega arith)))))
                  (λ h4.
                    if-Fits 0 (eqb b 0xED) _ _
                      (λ h. (1, omega arith, (omega arith, omega arith, inr (inl (omega arith)))))
                      (λ h5.
                        if-Fits 0 (ltb b 0xF0) _ _
                          (λ h.
                            (1, omega arith, (omega arith, omega arith, inr (inl (ground arith)))))
                          (λ h6.
                            if-Fits 0 (eqb b 0xF0) _ _
                              (λ h. (
                                1,
                                omega arith,
                                (omega arith, omega arith, inr (inr (inr (omega arith)))),
                              ))
                              (λ h7.
                                if-Fits 0 (ltb b 0xF4) _ _
                                  (λ h. (
                                    1,
                                    omega arith,
                                    (omega arith, omega arith, inr (inr (inr (omega arith)))),
                                  ))
                                  (λ h8.
                                    if-Fits 0 (eqb b 0xF4) _ _
                                      (λ h. (
                                        1,
                                        omega arith,
                                        (omega arith, omega arith, inr (inr (inr (omega arith)))),
                                      ))
                                      (λ h9. (0, omega arith, tt))))))))))

Fits-le : (k n : ℕ) (r : Text × Decoder) → k ≤ n → Fits k r → Fits n r
Fits-le k n r le (k', h, fed) = (k', omega arith, fed)

restart-Fits : (k b : ℕ) → Fits k (restart false b)
unfolding restart
restart-Fits k b = Fits-le 0 k (begin false b) (omega arith) (begin-Fits b)

extend-Fits :
    (k needed low high bits b : ℕ)
    → IsFed k (waiting needed low high bits)
    → low ≤ b
    → b ≤ high
    → Fits k (extend needed (bits * 64 + (b - 128)))
unfolding extend encode
extend-Fits k zero low high bits b (hi, lo, inl (one, _, small)) hl hh = (
  0,
  omega (
    arith,
    length-encode-one (bits * 64 + (b - 128)) 2
        (length-utf8_two (bits * 64 + (b - 128)) (omega arith)),
  ),
  tt,
)
extend-Fits k zero low high bits b (hi, lo, inr (inl (two, none_left, small))) hl hh =
    absurd (omega arith)
extend-Fits k zero low high bits b (hi, lo, inr (inr (inl (two, _, small)))) hl hh = (
  0,
  omega (
    arith,
    length-encode-one (bits * 64 + (b - 128)) 3
        (length-utf8_three (bits * 64 + (b - 128)) (omega arith)),
  ),
  tt,
)
extend-Fits k zero low high bits b (hi, lo, inr (inr (inr three))) hl hh = (
  0,
  omega
      (arith, length-encode-one (bits * 64 + (b - 128)) 4 (length-utf8-le (bits * 64 + (b - 128)))),
  tt,
)
extend-Fits k (suc n) low high bits b (hi, lo, inl (one, left, small)) hl hh = absurd (omega arith)
extend-Fits k (suc n) low high bits b (hi, lo, inr (inl (two, left, small))) hl hh =
    (k + 1, omega arith, (omega arith, omega arith, inr (inr (inl (omega arith)))))
extend-Fits k (suc n) low high bits b (hi, lo, inr (inr (inl (two, left, small)))) hl hh =
    absurd (omega arith)
extend-Fits k (suc n) low high bits b (hi, lo, inr (inr (inr three))) hl hh =
    (k + 1, omega arith, (omega arith, omega arith, inr (inr (inr (omega arith)))))

feed-Fits : (k : ℕ) (state : Decoder) (b : ℕ) → IsFed k state → Fits k (feed false state b)
unfolding feed
feed-Fits k idle b fed = Fits-le 0 k (begin false b) (omega arith) (begin-Fits b)
feed-Fits k (waiting needed low high bits) b fed =
    if-Fits k (leb low b && leb b high) _ _
      (λ h. extend-Fits k needed low high bits b fed (ground arith) (ground arith))
      (λ h. restart-Fits k b)

pub encode-append : (s t : Text) → encode (s ++ t) ≡ encode s ++ encode t
unfolding encode
encode-append [] t = refl
encode-append (c ∷ s) t = simp (encode-append s t, append_assoc)

decode_from-Fits :
    (bs : Bytes) (k : ℕ) (state : Decoder)
    → IsFed k state
    → length (encode (decode_from false state bs)) ≤ k + length bs
unfolding decode_from
decode_from-Fits [] k idle fed = unfold encode in omega arith
decode_from-Fits [] k (waiting needed low high bits) fed = unfold encode in omega arith
decode_from-Fits (b ∷ bs) k state fed =
    let r = feed false state b in
    let (k', h, fed') = feed-Fits k state b fed in
    rw (encode-append r.0 (decode_from false r.1 bs)) (
      rw (length-append (encode r.0) (encode (decode_from false r.1 bs)))
        (omega (arith, decode_from-Fits bs k' r.1 fed')))

pub length-decode_ignore-le : (bs : Bytes) → length (encode (decode_ignore bs)) ≤ length bs
unfolding decode_ignore
length-decode_ignore-le bs = omega (arith, decode_from-Fits bs 0 idle tt)
