-- ===== src/Client/Paths.antt =====
-- No caller-supplied segment changes the shape of a path (src/bunkerweb_mcp/client.py).
use bunkerweb_mcp.Prelude.{
  ℕ, ◌+◌, ◌/◌, ◌%◌, String, Bool, true, false, ◌&&◌, ◌||◌, List, [], ◌∷◌, ◌≡◌, ◌≢◌, refl, ap, sym,
  ◌∙◌, subst, ◌<>◌, eqb, ltb, leb, not, all_char, any_char, arith, Bool-cases, inl, inr,
  if◌then◌else◌,
}
use bunkerweb_mcp.Errors.{ok, >>=-eq-ok, ok-injective}
use bunkerweb_mcp.Client.Segment.{
  utf8, hex_char, is_unreserved, percent, quote, is_forbidden, invalid_segment, segment, cache_path,
}
use bunkerweb_mcp.Prelude.Decimal.{digit_char}
use text.Mathlib.TextLemmas.{nil-append, cons-append}
use Prim.Native.Char.{Char, code}

abbrev pub is_url_safe : ℕ → Bool
is_url_safe c = is_unreserved c || eqb c 37

if_safe :
    (b : Bool) (x y : Char)
    → is_url_safe (code x) ≡ true
    → is_url_safe (code y) ≡ true
    → is_url_safe (code (if b then x else y)) ≡ true
if_safe true x y hx hy = hx
if_safe false x y hx hy = hy

digit_char_safe : (n : ℕ) → is_url_safe (code (digit_char n)) ≡ true
unfolding digit_char is_unreserved
digit_char_safe n = if_safe (eqb n 0) _ _ refl (
    if_safe (eqb n 1) _ _ refl (
      if_safe (eqb n 2) _ _ refl (
        if_safe (eqb n 3) _ _ refl (
          if_safe (eqb n 4) _ _ refl (
            if_safe (eqb n 5) _ _ refl (
              if_safe (eqb n 6) _ _ refl
                (if_safe (eqb n 7) _ _ refl (if_safe (eqb n 8) _ _ refl refl))))))))

hex_char_safe : (n : ℕ) → is_url_safe (code (hex_char n)) ≡ true
unfolding hex_char is_unreserved
hex_char_safe n = if_safe (ltb n 10) _ _ (digit_char_safe n) (
    if_safe (eqb n 10) _ _ refl (
      if_safe (eqb n 11) _ _ refl (
        if_safe (eqb n 12) _ _ refl
          (if_safe (eqb n 13) _ _ refl (if_safe (eqb n 14) _ _ refl refl)))))

all_char-append :
    (p : ℕ → Bool) (s t : String)
    → all_char p s ≡ true
    → all_char p t ≡ true
    → all_char p (s <> t) ≡ true
all_char-append p String.[] t hs ht = rw nil-append ht
all_char-append p (String.◌∷◌ c s) t hs ht = rw cons-append (ground (arith, all_char-append p s t))

percent-safe : (bytes : List ℕ) → all_char is_url_safe (percent bytes) ≡ true
unfolding is_unreserved
percent-safe [] = refl
percent-safe (b ∷ bytes) =
    rw (hex_char_safe (b / 16), hex_char_safe (b % 16), percent-safe bytes) refl

quote-safe : (s : String) → all_char is_url_safe (quote s) ≡ true
unfolding quote
quote-safe String.[] = refl
quote-safe (String.◌∷◌ c s) = elim (Bool-cases (is_unreserved (code c))) [
  | inl h ↦ rw h (rw (h, quote-safe s) refl)
  | inr h ↦ rw h (
      all_char-append is_url_safe (percent (utf8 (code c))) (quote s) (percent-safe (utf8 (code c)))
        (quote-safe s))
]

abbrev is_dot : ℕ → Bool
is_dot c = eqb c 46

abbrev IsCons : List ℕ → Type 0
IsCons l = (b : ℕ) × (bytes : List ℕ) × (l ≡ b ∷ bytes)

if-IsCons : (b : Bool) (xs ys : List ℕ) → IsCons xs → IsCons ys → IsCons (if b then xs else ys)
if-IsCons true xs ys hx hy = hx
if-IsCons false xs ys hx hy = hy

utf8-IsCons : (c : ℕ) → IsCons (utf8 c)
unfolding utf8
utf8-IsCons c =
    if-IsCons (ltb c 128) _ _ (_, _, refl)
      (if-IsCons (ltb c 2048) _ _ (_, _, refl)
        (if-IsCons (ltb c 65536) _ _ (_, _, refl) (_, _, refl)))

all_char-head :
    (p : ℕ → Bool) (c : Char) (s : String) → (p (code c) && all_char p s) ≡ true → p (code c) ≡ true
all_char-head p c s h = ground arith

all_char-tail :
    (p : ℕ → Bool) (c : Char) (s : String)
    → (p (code c) && all_char p s) ≡ true
    → all_char p s ≡ true
all_char-tail p c s h = ground arith

true-false : true ≡ false → ⊥
true-false h = cc

percent-dots : (c : ℕ) (t : String) → all_char is_dot (percent (utf8 c) <> t) ≡ false
percent-dots c t = let (b, bytes, e) = utf8-IsCons c in rw e (rw cons-append refl)

quote-dots : (s : String) → all_char is_dot (quote s) ≡ true → quote s ≡ s
unfolding quote
quote-dots String.[] h = refl
quote-dots (String.◌∷◌ c s) h = elim (Bool-cases (is_unreserved (code c))) [
  | inl u ↦
      let g = rw (quote, u) at h in
      rw u (ap (λ t. String.◌∷◌ c t) (quote-dots s (all_char-tail is_dot c (quote s) g)))
  | inr u ↦
      let g = rw (quote, u) at h in absurd (true-false (sym g ∙ percent-dots (code c) (quote s)))
]

segment-eq-ok :
    (value name : String) {text : String}
    → segment value name ≡ ok text
    → (invalid_segment value ≡ false) × (quote value ≡ text)
unfolding segment
segment-eq-ok value name h = elim (Bool-cases (invalid_segment value)) [
  | inl e ↦ let g = rw e at h in absurd (cc)
  | inr e ↦ (e, ok-injective _ _ (rw e at h))
]

-- A text of dots is quoted text only of itself.
quoted_dots :
    (value dots : String)
    → all_char is_dot dots ≡ true
    → invalid_segment dots ≡ true
    → invalid_segment value ≡ false
    → quote value ≢ dots
quoted_dots value dots only bad good e =
    let same = quote-dots value (subst (λ t. all_char is_dot t ≡ true) (sym e) only) in
    true-false (sym bad ∙ ap invalid_segment (sym e ∙ same) ∙ good)

-- Neither a separator of paths, nor `%`, nor a control character of ASCII.
abbrev pub is_plain : ℕ → Bool
is_plain c = leb 32 c && not (eqb c 127) && not (eqb c 47) && not (eqb c 92) && not (eqb c 37)

is_plain_lem : (c : ℕ) → is_forbidden c ≡ false → is_plain c ≡ true
unfolding is_forbidden
is_plain_lem c h = ground arith

any_char-all_char : (s : String) → any_char is_forbidden s ≡ false → all_char is_plain s ≡ true
any_char-all_char String.[] h = refl
any_char-all_char (String.◌∷◌ c s) h =
    let (a, b) : (is_forbidden (code c) ≡ false) × (any_char is_forbidden s ≡ false) =
      ground arith in
    rw (is_plain_lem (code c) a, any_char-all_char s b) refl

invalid_segment-plain :
    (value : String) → invalid_segment value ≡ false → any_char is_forbidden value ≡ false
unfolding invalid_segment
invalid_segment-plain value h = ground arith

-- A value that is no dots and not empty.
invalid_segment-named :
    (value dots : String)
    → invalid_segment dots ≡ true
    → invalid_segment value ≡ false
    → value ≢ dots
invalid_segment-named value dots bad good e =
    true-false (sym bad ∙ ap invalid_segment (sym e) ∙ good)

-- A value that is accepted as a segment is not empty, not `.` and not `..`, and holds no `/`, `\`,
-- `%` and no control character of ASCII; the text it becomes is not empty, not `.` and not `..`, and
-- has letters, digits, `_.-~` and `%` only.
pub segment-safe :
    (value name text : String)
    → segment value name ≡ ok text
    → ((all_char is_plain value ≡ true) × (value ≢ "") × (value ≢ ".") × (value ≢ ".."))
      × ((all_char is_url_safe text ≡ true) × (text ≢ "") × (text ≢ ".") × (text ≢ ".."))
unfolding invalid_segment
segment-safe value name text h =
    let (good, e) = segment-eq-ok value name h in
    (
      (
        any_char-all_char value (invalid_segment-plain value good),
        invalid_segment-named value "" refl good,
        invalid_segment-named value "." refl good,
        invalid_segment-named value ".." refl good,
      ),
      (
        subst (λ t. all_char is_url_safe t ≡ true) e (quote-safe value),
        (λ f. quoted_dots value "" refl refl good (e ∙ f)),
        (λ f. quoted_dots value "." refl refl good (e ∙ f)),
        (λ f. quoted_dots value ".." refl refl good (e ∙ f)),
      ),
    )

-- The number of occurrences of a character.
unfoldable pub count_char : ℕ → String → ℕ
count_char k String.[] = 0
count_char k (String.◌∷◌ c s) = (if eqb (code c) k then 1 else 0) + count_char k s

count_char-append : (k : ℕ) (s t : String) → count_char k (s <> t) ≡ count_char k s + count_char k t
unfolding count_char
count_char-append k String.[] t = rw nil-append (omega arith)
count_char-append k (String.◌∷◌ c s) t = rw cons-append (omega (arith, count_char-append k s t))

safe_no_slash : (c : ℕ) → is_url_safe c ≡ true → eqb c 47 ≡ false
unfolding is_unreserved
safe_no_slash c h = ground arith

count_char-safe : (s : String) → all_char is_url_safe s ≡ true → count_char 47 s ≡ 0
unfolding count_char
count_char-safe String.[] h = refl
count_char-safe (String.◌∷◌ c s) h =
    rw (safe_no_slash (code c) (all_char-head is_url_safe c s h))
      (omega (arith, count_char-safe s (all_char-tail is_url_safe c s h)))

count_char-segment :
    (value name text : String) → segment value name ≡ ok text → count_char 47 text ≡ 0
count_char-segment value name text h = count_char-safe text (segment-safe value name text h).1.0

one_more_slash :
    (s t : String) → count_char 47 s ≡ 0 → count_char 47 (s <> "/" <> t) ≡ 1 + count_char 47 t
unfolding count_char
one_more_slash s t h =
    omega (arith, count_char-append 47 s ("/" <> t), count_char-append 47 "/" t, h)

template-slashes :
    (a b c d : String)
    → count_char 47 a ≡ 0
    → count_char 47 b ≡ 0
    → count_char 47 c ≡ 0
    → count_char 47 d ≡ 0
    → count_char 47 ("/cache/" <> a <> "/" <> b <> "/" <> c <> "/" <> d) ≡ 5
unfolding count_char
template-slashes a b c d ha hb hc hd = omega (
  arith,
  count_char-append 47 "/cache/" (a <> "/" <> b <> "/" <> c <> "/" <> d),
  one_more_slash a (b <> "/" <> c <> "/" <> d) ha,
  one_more_slash b (c <> "/" <> d) hb,
  one_more_slash c d hc,
  hd,
)

-- The path of a cache file has the slashes of its template and no other, whatever the four
-- segments are.
pub cache_path-slashes :
    (service plugin_id job_name file_name path : String)
    → cache_path service plugin_id job_name file_name ≡ ok path
    → count_char 47 path ≡ 5
unfolding cache_path
cache_path-slashes service plugin_id job_name file_name path h =
    let (a, ha, h1) = >>=-eq-ok (segment service "service") _ h in
    let (b, hb, h2) = >>=-eq-ok (segment plugin_id "plugin_id") _ h1 in
    let (c, hc, h3) = >>=-eq-ok (segment job_name "job_name") _ h2 in
    let (d, hd, h4) = >>=-eq-ok (segment file_name "file_name") _ h3 in
    subst (λ t. count_char 47 t ≡ 5) (ok-injective _ _ h4)
      (template-slashes a b c d (count_char-segment service "service" a ha)
        (count_char-segment plugin_id "plugin_id" b hb)
        (count_char-segment job_name "job_name" c hc)
        (count_char-segment file_name "file_name" d hd))
