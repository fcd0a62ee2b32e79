-- ===== src/Logs/Bounds.antt =====
-- A page of a log (src/bunkerweb_mcp/tools/log_handlers.py) keeps within its limits.
use bunkerweb_mcp.Prelude.{
  ℕ, zero, suc, ◌+◌, ◌-◌, ◌≤◌, ◌≡◌, refl, ap, Bool, true, false, ◌&&◌, List, [], ◌∷◌, ◌++◌, map,
  ltb, length, length-append, Bool-cases, inl, inr, arith,
}
use bunkerweb_mcp.Logs.Encoding.{Bytes, Text, take, encode, splitlines}
use bunkerweb_mcp.Logs.Decoding.{length-decode_ignore-le}
use bunkerweb_mcp.Logs.Window.{max_scan_bytes, end_of, start_of, Window, window}
use bunkerweb_mcp.Logs.Select.{
  max_content_bytes, LogsReadParams, is_match, Line, Scan, append_bounded, text_of_line, scan_line,
  scan_lines, keep_lines, size_of, cut_line, keep_line, reverse_onto, reversed,
}
use bunkerweb_mcp.Logs.Complete.{length-drop_one}
use bunkerweb_mcp.Logs.Pages.{text_of, is_beyond, page_of, scan_window, read_page_within, read_page}

length-append_bounded-le :
    {A : Type 0} (limit : ℕ) (items : List A) (item : A)
    → length items ≤ limit
    → length (append_bounded limit items item) ≤ limit
unfolding append_bounded
length-append_bounded-le limit items item h =
    elim (Bool-cases (ltb limit (length (items ++ item ∷ [])))) [
      | inl e ↦
          rw e (
            omega (arith, length-drop_one (items ++ item ∷ []), length-append items (item ∷ []), h))
      | inr e ↦ rw e (ground arith)
    ]

length-scan_line-le :
    (matching : Text → Bool) (limit position : ℕ) (raw : Bytes) (s : Scan)
    → length s.matches ≤ limit
    → length (scan_line matching limit position raw s).matches ≤ limit
unfolding scan_line
length-scan_line-le matching limit position raw s h =
    elim (Bool-cases (matching (text_of_line raw))) [
      | inl e ↦ rw e (length-append_bounded-le limit s.matches (position, text_of_line raw) h)
      | inr e ↦ rw e h
    ]

length-scan_lines-le :
    (matching : Text → Bool) (limit position : ℕ) (lines : List Bytes) (s : Scan)
    → length s.matches ≤ limit
    → length (scan_lines matching limit position lines s).matches ≤ limit
unfolding scan_lines
length-scan_lines-le matching limit position [] s h = h
length-scan_lines-le matching limit position (raw ∷ lines) s h =
    length-scan_lines-le matching limit (position + length raw) lines
      (scan_line matching limit position raw s)
      (length-scan_line-le matching limit position raw s h)

-- The bytes of texts together.
unfoldable pub total_bytes : List Text → ℕ
unfolding encode
total_bytes [] = 0
total_bytes (text ∷ texts) = length (encode text) + total_bytes texts

length-take-le : {A : Type 0} (n : ℕ) (xs : List A) → length (take n xs) ≤ n
length-take-le zero xs = omega arith
length-take-le (suc n) [] = omega arith
length-take-le (suc n) (x ∷ xs) = omega (arith, length-take-le n xs)

cut_line_bounds :
    (first : Bool) (remaining : ℕ) (line : Line)
    → (total_bytes (map text_of (cut_line first remaining line)) ≤ remaining)
      × (length (cut_line first remaining line) ≤ 1)
unfolding total_bytes cut_line
cut_line_bounds first remaining (offset, text) = elim (Bool-cases (first && ltb 0 remaining)) [
  | inl e ↦ rw e (
      omega (
        arith,
        length-decode_ignore-le (take remaining (encode text)),
        length-take-le remaining (encode text),
      ))
  | inr e ↦ rw e (omega arith)
]

kept_line :
    (remaining : ℕ) (line : Line) (kept : List Line)
    → size_of line ≤ remaining
    → total_bytes (map text_of kept) ≤ remaining - size_of line
    → total_bytes (map text_of (line ∷ kept)) ≤ remaining
unfolding total_bytes size_of
kept_line remaining (offset, text) kept le fits = omega arith

keep_line_bounds :
    (first : Bool) (remaining n : ℕ) (line : Line) (rest : List Line × Bool)
    → total_bytes (map text_of rest.0) ≤ remaining - size_of line
    → length rest.0 ≤ n
    → (total_bytes (map text_of (keep_line first remaining line rest).0) ≤ remaining)
      × (length (keep_line first remaining line rest).0 ≤ suc n)
unfolding keep_line
keep_line_bounds first remaining n line rest fits shorter =
    elim (Bool-cases (ltb remaining (size_of line))) [
      | inl e ↦ let (small, one) = cut_line_bounds first remaining line in rw e (small, omega arith)
      | inr e ↦ rw e (kept_line remaining line rest.0 (ground arith) fits, omega arith)
    ]

keep_lines_bounds :
    (first : Bool) (remaining : ℕ) (lines : List Line)
    → (total_bytes (map text_of (keep_lines first remaining lines).0) ≤ remaining)
      × (length (keep_lines first remaining lines).0 ≤ length lines)
unfolding keep_lines
keep_lines_bounds first remaining [] = unfold total_bytes in omega arith
keep_lines_bounds first remaining (line ∷ lines) =
    let (fits, shorter) = keep_lines_bounds false (remaining - size_of line) lines in
    keep_line_bounds first remaining (length lines) line
      (keep_lines false (remaining - size_of line) lines) fits shorter

total_bytes-reverse_onto :
    (xs ys : List Line)
    → total_bytes (map text_of (reverse_onto xs ys))
      ≡ total_bytes (map text_of xs) + total_bytes (map text_of ys)
unfolding total_bytes
total_bytes-reverse_onto [] ys = omega arith
total_bytes-reverse_onto ((offset, text) ∷ xs) ys =
    omega (arith, total_bytes-reverse_onto xs ((offset, text) ∷ ys))

length-reverse_onto :
    {A : Type 0} (xs ys : List A) → length (reverse_onto xs ys) ≡ length xs + length ys
length-reverse_onto [] ys = omega arith
length-reverse_onto (x ∷ xs) ys = omega (arith, length-reverse_onto xs (x ∷ ys))

length-map : {A B : Type 0} (f : A → B) (xs : List A) → length (map f xs) ≡ length xs
length-map f [] = refl
length-map f (x ∷ xs) = ap suc (length-map f xs)

total_bytes-nil : total_bytes [] ≡ 0
unfolding total_bytes
total_bytes-nil = refl

page_of_bounds :
    (content_limit size scanned : ℕ) (reset : Bool) (w : Window) (scan : Scan)
    → (total_bytes (page_of content_limit size scanned reset w scan).lines ≤ content_limit)
      × (length (page_of content_limit size scanned reset w scan).lines ≤ length scan.matches)
unfolding page_of
page_of_bounds content_limit size scanned reset w scan =
    let ls = reversed scan.matches in
    let (fits, shorter) = keep_lines_bounds true content_limit ls in
    let kept = (keep_lines true content_limit ls).0 in
    (
      omega (arith, total_bytes-reverse_onto kept [], total_bytes-nil, fits),
      omega (
        arith,
        length-map text_of (reversed kept),
        length-reverse_onto kept [],
        length-reverse_onto scan.matches [],
        shorter,
      ),
    )

length-scan_window-le :
    (casefold : Text → Text) (params : LogsReadParams) (w : Window)
    → length (scan_window casefold params w).matches ≤ params.limit
unfolding scan_window
length-scan_window-le casefold params w =
    length-scan_lines-le (is_match casefold params.query) params.limit w.content_start
      (splitlines w.content) (record { matched = 0; matches = [] }) (omega arith)

read_page_within_bounds :
    (scan_limit content_limit : ℕ) (casefold : Text → Text) (params : LogsReadParams) (file : Bytes)
    → (total_bytes (read_page_within scan_limit content_limit casefold params file).lines
        ≤ content_limit)
      × (length (read_page_within scan_limit content_limit casefold params file).lines
          ≤ params.limit)
      × ((read_page_within scan_limit content_limit casefold params file).scanned_bytes
          ≤ scan_limit)
unfolding read_page_within
read_page_within_bounds scan_limit content_limit casefold params file =
    let stop = end_of file params.cursor in
    let w = window scan_limit file params.cursor in
    let scan = scan_window casefold params w in
    let (fits, shorter) =
      page_of_bounds content_limit (length file) (stop - start_of scan_limit stop)
        (is_beyond params.cursor (length file)) w scan in
    (fits, omega (arith, shorter, length-scan_window-le casefold params w), omega arith)

-- A page holds at most 64 KiB of text, at most `limit` lines, and is read from at most 1 MiB of the
-- file, whatever the file and the parameters are.
pub read_page_bounds :
    (casefold : Text → Text) (params : LogsReadParams) (file : Bytes)
    → (total_bytes (read_page casefold params file).lines ≤ 65536)
      × (length (read_page casefold params file).lines ≤ params.limit)
      × ((read_page casefold params file).scanned_bytes ≤ 1048576)
unfolding read_page
read_page_bounds casefold params file =
    read_page_within_bounds max_scan_bytes max_content_bytes casefold params file
