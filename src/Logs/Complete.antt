-- ===== src/Logs/Complete.antt =====
-- What a page of src/bunkerweb_mcp/tools/log_handlers.py shows that names no page before it.
use bunkerweb_mcp.Prelude.{
  ℕ, ◌+◌, ◌-◌, ◌≤◌, ◌≡◌, refl, ap, sym, subst, ◌∙◌, Bool, true, false, ◌||◌, List, [], ◌∷◌, ◌++◌,
  map, Option, none, some, ltb, length, inl, inr, ◌⊎◌, arith, Bool-cases, if◌then◌else◌,
}
use bunkerweb_mcp.Logs.Encoding.{Bytes, Text, take, drop, splitlines}
use bunkerweb_mcp.Logs.Window.{end_of, start_of, slice, trim_end, trim_start, Window, window}
use bunkerweb_mcp.Logs.Select.{
  LogsReadParams, is_match, Line, Scan, append_bounded, text_of_line, scan_line, scan_lines,
  keep_line, keep_lines, size_of, reverse_onto, reversed,
}
use bunkerweb_mcp.Logs.Pages.{text_of, is_beyond, page_of, scan_window, read_page_within}
use bunkerweb_mcp.Logs.Trimming.{trim_start_lem}

-- The texts of the lines that match.
unfoldable pub matching_texts : (Text → Bool) → List Bytes → List Text
matching_texts matching [] = []
matching_texts matching (raw ∷ lines) =
    let rest = matching_texts matching lines in
    if matching (text_of_line raw) then text_of_line raw ∷ rest else rest

length-append_one : {A : Type 0} (xs : List A) (x : A) → length (xs ++ x ∷ []) ≡ length xs + 1
length-append_one [] x = omega arith
length-append_one (y ∷ xs) x = omega (arith, length-append_one xs x)

pub length-drop_one : {A : Type 0} (xs : List A) → length (drop 1 xs) ≡ length xs - 1
length-drop_one [] = omega arith
length-drop_one (x ∷ xs) = omega arith

map-append : (xs ys : List Line) → map text_of (xs ++ ys) ≡ map text_of xs ++ map text_of ys
map-append [] ys = refl
map-append (x ∷ xs) ys = ap (λ l. text_of x ∷ l) (map-append xs ys)

append-one : (xs : List Text) (x : Text) (ys : List Text) → (xs ++ x ∷ []) ++ ys ≡ xs ++ x ∷ ys
append-one [] x ys = refl
append-one (y ∷ xs) x ys = ap (λ l. y ∷ l) (append-one xs x ys)

append-nil : (xs : List Text) → xs ++ [] ≡ xs
append-nil [] = refl
append-nil (x ∷ xs) = ap (λ l. x ∷ l) (append-nil xs)

-- A bounded append keeps everything, or the number of items.
append_bounded-cases :
    {A : Type 0} (limit : ℕ) (items : List A) (item : A)
    → (append_bounded limit items item ≡ items ++ item ∷ [])
      ⊎ (length (append_bounded limit items item) ≡ length items)
unfolding append_bounded
append_bounded-cases limit items item =
    elim (Bool-cases (ltb limit (length (items ++ item ∷ [])))) [
      | inr e ↦ rw e (inl refl)
      | inl e ↦
          rw e (
            inr (omega (arith, length-drop_one (items ++ item ∷ []), length-append_one items item)))
    ]

-- The lines that matched and are not kept.
abbrev IsShort : Scan → Scan → Type 0
IsShort s t = s.matched + length t.matches ≤ t.matched + length s.matches

append_bounded-le :
    {A : Type 0} (limit : ℕ) (items : List A) (item : A)
    → length (append_bounded limit items item) ≤ length items + 1
append_bounded-le limit items item = elim (append_bounded-cases limit items item) [
  | inl e ↦ omega (arith, ap length e, length-append_one items item)
  | inr e ↦ omega (arith, e)
]

scan_line-IsShort :
    (matching : Text → Bool) (limit position : ℕ) (raw : Bytes) (s : Scan)
    → IsShort s (scan_line matching limit position raw s)
unfolding scan_line
scan_line-IsShort matching limit position raw s = elim (Bool-cases (matching (text_of_line raw))) [
  | inl e ↦ rw e (omega (arith, append_bounded-le limit s.matches (position, text_of_line raw)))
  | inr e ↦ rw e (omega arith)
]

scan_lines-IsShort :
    (matching : Text → Bool) (limit position : ℕ) (lines : List Bytes) (s : Scan)
    → IsShort s (scan_lines matching limit position lines s)
unfolding scan_lines
scan_lines-IsShort matching limit position [] s = omega arith
scan_lines-IsShort matching limit position (raw ∷ lines) s =
    let next = scan_line matching limit position raw s in
    omega (
      arith,
      scan_line-IsShort matching limit position raw s,
      scan_lines-IsShort matching limit (position + length raw) lines next,
    )

-- Every line that matched is kept.
abbrev IsWhole : Scan → Type 0
IsWhole s = s.matched ≤ length s.matches

scan_line-cases :
    (matching : Text → Bool) (limit position : ℕ) (raw : Bytes) (s : Scan)
    → ((matching (text_of_line raw) ≡ false) × (scan_line matching limit position raw s ≡ s))
      ⊎ ((matching (text_of_line raw) ≡ true)
          × (scan_line matching limit position raw s ≡ record {
            matched = s.matched + 1;
            matches = append_bounded limit s.matches (position, text_of_line raw);
          }))
unfolding scan_line
scan_line-cases matching limit position raw s = elim (Bool-cases (matching (text_of_line raw))) [
  | inl e ↦ inr (e, rw e refl)
  | inr e ↦ inl (e, rw e refl)
]

-- Where no line that matched is missing, the kept lines are all of them.
scan_lines_complete :
    (matching : Text → Bool) (limit position : ℕ) (lines : List Bytes) (s : Scan)
    → length s.matches ≤ s.matched
    → IsWhole (scan_lines matching limit position lines s)
    → map text_of (scan_lines matching limit position lines s).matches
      ≡ map text_of s.matches ++ matching_texts matching lines
unfolding scan_lines matching_texts
scan_lines_complete matching limit position [] s le h = sym (append-nil (map text_of s.matches))
scan_lines_complete matching limit position (raw ∷ lines) s le h =
    let text = text_of_line raw in
    let later = scan_lines matching limit (position + length raw) lines in
    let rest = matching_texts matching lines in
    elim (scan_line-cases matching limit position raw s) [
      | inl (e, same) ↦
          ap (λ t. map text_of (later t).matches) same
          ∙ scan_lines_complete matching limit (position + length raw) lines s le
              (subst (λ t. IsWhole (later t)) same h)
          ∙ ap (λ l. map text_of s.matches ++ l) (rw e refl)
      | inr (e, same) ↦
          let kept = subst (λ t. IsWhole (later t)) same h in
          let added : Scan = record {
            matched = s.matched + 1;
            matches = append_bounded limit s.matches (position, text);
          } in
          let short = scan_lines-IsShort matching limit (position + length raw) lines added in
          elim (append_bounded-cases limit s.matches (position, text)) [
            | inr shorter ↦ absurd (omega (arith, shorter, short, kept, le))
            | inl all ↦
                ap (λ t. map text_of (later t).matches) same
                ∙ scan_lines_complete matching limit (position + length raw) lines added
                    (omega (arith, le, append_bounded-le limit s.matches (position, text))) kept
                ∙ ap (λ l. map text_of l ++ rest) all
                ∙ ap (λ l. l ++ rest) (map-append s.matches ((position, text) ∷ []))
                ∙ append-one (map text_of s.matches) text rest
                ∙ ap (λ l. map text_of s.matches ++ l) (rw e refl)
          ]
    ]

-- Where nothing is cut, every line is kept.
keep_lines-all :
    (first : Bool) (remaining : ℕ) (lines : List Line)
    → (keep_lines first remaining lines).1 ≡ false
    → (keep_lines first remaining lines).0 ≡ lines
unfolding keep_lines keep_line
keep_lines-all first remaining [] h = refl
keep_lines-all first remaining (line ∷ lines) h = elim (Bool-cases (ltb remaining (size_of line))) [
  | inl e ↦ let g = rw e at h in absurd (cc)
  | inr e ↦
      rw e (ap (λ l. line ∷ l) (keep_lines-all false (remaining - size_of line) lines (rw e at h)))
]

reversed-reverse_onto :
    {A : Type 0} (xs ys : List A) → reversed (reverse_onto xs ys) ≡ reverse_onto ys xs
reversed-reverse_onto [] ys = refl
reversed-reverse_onto (x ∷ xs) ys = reversed-reverse_onto xs (x ∷ ys)

or_three :
    {A : Type 0} (a b c d : Bool) (x : A)
    → ◌≡◌ {A = Option A} (if a || b || (c || d) then some x else none) none
    → (a ≡ false) × (b ≡ false) × (d ≡ false)
or_three true b c d x h = absurd (cc)
or_three false true c d x h = absurd (cc)
or_three false false true d x h = absurd (cc)
or_three false false false true x h = absurd (cc)
or_three false false false false x h = (refl, refl, refl)

page_of_complete :
    (content_limit file_size scanned : ℕ) (reset : Bool) (w : Window) (scan : Scan)
    → (page_of content_limit file_size scanned reset w scan).next_cursor ≡ none
    → (w.content_start ≤ 0)
      × (scan.matched ≤ length scan.matches)
      × ((page_of content_limit file_size scanned reset w scan).lines ≡ map text_of scan.matches)
unfolding page_of
page_of_complete content_limit file_size scanned reset w scan h =
    let (start, all, whole) =
      or_three (ltb 0 w.content_start) (ltb (length scan.matches) scan.matched) w.is_partial
        (keep_lines true content_limit (reversed scan.matches)).1 _ h in
    (
      ground (arith, start),
      ground (arith, all),
      ap (λ l. map text_of (reversed l))
            (keep_lines-all true content_limit (reversed scan.matches) whole)
          ∙ ap (map text_of) (reversed-reverse_onto scan.matches []),
    )

trim_start-zero :
    (start : ℕ) (content : Bytes)
    → start ≡ 0
    → trim_start start content ≡ record { content_start = 0; content = content; is_partial = false }
unfolding trim_start
trim_start-zero start content e = rw e refl

sub_zero : (n : ℕ) → n - 0 ≡ n
sub_zero n = omega arith

slice-zero : (file : Bytes) (start stop : ℕ) → start ≡ 0 → slice file start stop ≡ take stop file
slice-zero file start stop e = ap (λ n. slice file n stop) e ∙ ap (λ n. take n file) (sub_zero stop)

-- The lines of a window that begins at the first byte.
scan_window_complete :
    (casefold : Text → Text) (params : LogsReadParams) (content : Bytes) (w : Window)
    → w ≡ record { content_start = 0; content = content; is_partial = false }
    → IsWhole (scan_window casefold params w)
    → map text_of (scan_window casefold params w).matches
      ≡ matching_texts (is_match casefold params.query) (splitlines content)
unfolding scan_window
scan_window_complete casefold params content w e h =
    let first : Window = record { content_start = 0; content = content; is_partial = false } in
    ap (λ v. map text_of (scan_window casefold params v).matches) e
    ∙ scan_lines_complete (is_match casefold params.query) params.limit 0 (splitlines content)
        (record { matched = 0; matches = [] }) (omega arith)
        (subst (λ v. IsWhole (scan_window casefold params v)) e h)

window_start-zero :
    (scan_bytes : ℕ) (file : Bytes) (cursor : Option ℕ)
    → (window scan_bytes file cursor).content_start ≤ 0
    → start_of scan_bytes (end_of file cursor) ≡ 0
unfolding window
window_start-zero scan_bytes file cursor le =
    let stop = end_of file cursor in
    let start = start_of scan_bytes stop in
    elim (trim_start_lem start (trim_end file stop (slice file start stop))).1 [
      | inl e ↦ omega (arith, e, le)
      | inr (i, rest, f, e, lt) ↦ absurd (omega (arith, e, le))
    ]

-- A page that names no page before it begins at the first byte of the file and shows every line
-- up to its end that matches.
pub read_page_within_complete :
    (scan_bytes content_limit : ℕ) (casefold : Text → Text) (params : LogsReadParams) (file : Bytes)
    → (read_page_within scan_bytes content_limit casefold params file).next_cursor ≡ none
    → ((read_page_within scan_bytes content_limit casefold params file).scanned_bytes
        ≡ end_of file params.cursor)
      × ((read_page_within scan_bytes content_limit casefold params file).lines
          ≡ matching_texts (is_match casefold params.query) (
              splitlines (
                trim_end file (end_of file params.cursor) (take (end_of file params.cursor) file))))
unfolding read_page_within window page_of
read_page_within_complete scan_bytes content_limit casefold params file h =
    let stop = end_of file params.cursor in
    let start = start_of scan_bytes stop in
    let w = window scan_bytes file params.cursor in
    let (low, whole, lines) =
      page_of_complete content_limit (length file) (stop - start)
        (is_beyond params.cursor (length file)) w (scan_window casefold params w) h in
    let zero_start = window_start-zero scan_bytes file params.cursor low in
    (
      omega (arith, zero_start),
      lines
          ∙ scan_window_complete casefold params (trim_end file stop (take stop file)) w
              (trim_start-zero start (trim_end file stop (slice file start stop)) zero_start
                ∙ ap
                    (λ c. record {
                      content_start = 0;
                      content = trim_end file stop c;
                      is_partial = false;
                    })
                    (slice-zero file start stop zero_start))
              whole,
    )
