-- ===== src/Logs/Paging.antt =====
-- Where the window and the cursor of a page of src/bunkerweb_mcp/tools/log_handlers.py lie.
use bunkerweb_mcp.Prelude.{
  ℕ, ◌+◌, ◌-◌, ◌≤◌, ◌<◌, ◌≡◌, refl, ap, sym, ◌∙◌, Bool, true, false, ◌||◌, List, [], ◌∷◌, Option,
  none, some, ltb, length, All, inl, inr, arith, if◌then◌else◌,
}
use bunkerweb_mcp.Logs.Encoding.{Bytes, Text, drop, after_newline, splitlines}
use bunkerweb_mcp.Logs.Window.{end_of, slice, trim_end, trim_start, Window, window}
use bunkerweb_mcp.Logs.Select.{
  LogsReadParams, Line, Scan, scan_lines, keep_lines, reversed, is_match,
}
use bunkerweb_mcp.Logs.Pages.{first_offset, page_of, scan_window}
use bunkerweb_mcp.Logs.Offsets.{
  splitlines_lem, IsBelow, scan_lines-All, keep_lines-All, All-reverse_onto, first_offset_below,
}
use bunkerweb_mcp.Logs.Trimming.{
  HasShortLines, length-after_newline, after_newline-lt, length-take-le, end_of-le, trim_end_lem,
  trim_start_lem,
}

window_below_from :
    (start stop : ℕ) (content : Bytes)
    → length content ≤ stop - start
    → start ≤ stop
    → (trim_start start content).content_start + length (trim_start start content).content ≤ stop
window_below_from start stop content le lt = omega (arith, (trim_start_lem start content).0)

length-trim_end-le :
    (file : Bytes) (start stop : ℕ)
    → length (trim_end file stop (slice file start stop)) ≤ stop - start
length-trim_end-le file start stop = elim (trim_end_lem file stop (slice file start stop)) [
  | inl e ↦ omega (arith, ap length e, length-take-le (stop - start) (drop start file))
  | inr lt ↦ omega (arith, length-take-le (stop - start) (drop start file))
]

-- The first line feed of a window that is not its first piece of the file.
first_newline-lt :
    (scan_bytes : ℕ) (file : Bytes) (stop : ℕ)
    → HasShortLines scan_bytes file
    → 0 < stop - scan_bytes
    → stop ≤ length file
    → 0 < scan_bytes
    → {i : ℕ} {rest : Bytes}
    → after_newline (trim_end file stop (slice file (stop - scan_bytes) stop)) ≡ some (i, rest)
    → stop - scan_bytes + i + 1 < stop
first_newline-lt scan_bytes file stop short lt le pos {i} {rest} h =
    let start = stop - scan_bytes in
    elim (trim_end_lem file stop (slice file start stop)) [
      | inl e ↦ omega (
        arith,
        after_newline-lt (stop - start) (scan_bytes - 1) (drop start file)
            (ap after_newline (sym e) ∙ h) (short start (omega arith)),
      )
      | inr shorter ↦ omega (
        arith,
        length-take-le (stop - start) (drop start file),
        length-after_newline (trim_end file stop (slice file start stop)) h,
      )
    ]

module _ (scan_bytes : ℕ) (file : Bytes) (cursor : Option ℕ) where
  pub window_below :
      (window scan_bytes file cursor).content_start + length (window scan_bytes file cursor).content
      ≤ end_of file cursor
  unfolding window
  window_below =
      let stop = end_of file cursor in
      let start = stop - scan_bytes in
      window_below_from start stop (trim_end file stop (slice file start stop))
        (length-trim_end-le file start stop) (omega arith)

  pub window_start-lt :
      0 < scan_bytes
      → HasShortLines scan_bytes file
      → 0 < end_of file cursor
      → (window scan_bytes file cursor).content_start < end_of file cursor
  unfolding window
  window_start-lt pos short some_bytes =
      let stop = end_of file cursor in
      let start = stop - scan_bytes in
      elim (trim_start_lem start (trim_end file stop (slice file start stop))).1 [
        | inl e ↦ omega (arith, e)
        | inr (i, rest, f, e, lt) ↦
            omega (
              arith,
              e,
              first_newline-lt scan_bytes file stop short lt (end_of-le file cursor) pos f,
            )
      ]

first_offset-lt :
    (bound content_start : ℕ) (lines : List Line)
    → All (IsBelow bound) lines
    → content_start < bound
    → first_offset lines content_start < bound
first_offset-lt bound content_start lines below lt =
    elim (first_offset_below bound content_start lines below) [ inl h ↦ h | inr e ↦ rw e lt ]

some_number : {i j : ℕ} → ◌≡◌ {A = Option ℕ} (some i) (some j) → i ≡ j
some_number h = cc

some_of_if :
    {bound n : ℕ} (test : Bool)
    → n < bound
    → {c : ℕ} → ◌≡◌ {A = Option ℕ} (if test then some n else none) (some c)
    → c < bound
some_of_if true lt h = omega (arith, some_number h)
some_of_if false lt h = absurd (cc)

-- What a page tells the reader to ask for next lies below `bound`, where its window does.
pub next_cursor-lt :
    (content_limit file_size scanned : ℕ) (reset : Bool) (w : Window) (scan : Scan) (bound : ℕ)
    → All (IsBelow bound) scan.matches
    → w.content_start < bound
    → {c : ℕ} → (page_of content_limit file_size scanned reset w scan).next_cursor ≡ some c
    → c < bound
unfolding page_of
next_cursor-lt content_limit file_size scanned reset w scan bound below lt {c} h =
    let kept_reversed = (keep_lines true content_limit (reversed scan.matches)).0 in
    let kept = reversed kept_reversed in
    let kept_below =
      All-reverse_onto (IsBelow bound) kept_reversed []
        (keep_lines-All bound true content_limit (reversed scan.matches)
          (All-reverse_onto (IsBelow bound) scan.matches [] below tt))
        tt in
    let first_lt = first_offset-lt bound w.content_start kept kept_below lt in
    some_of_if
      (ltb 0 w.content_start
        || ltb (length scan.matches) scan.matched
        || (w.is_partial || (keep_lines true content_limit (reversed scan.matches)).1))
      first_lt h

pub scan_window-All :
    (casefold : Text → Text) (params : LogsReadParams) (w : Window) (bound : ℕ)
    → w.content_start + length w.content ≤ bound
    → All (IsBelow bound) (scan_window casefold params w).matches
unfolding scan_window
scan_window-All casefold params w bound le =
    let (total, full) = splitlines_lem w.content in
    scan_lines-All bound (is_match casefold params.query) params.limit w.content_start
      (splitlines w.content) (record { matched = 0; matches = [] }) (omega (arith, total)) full tt

-- The window of no bytes.
abbrev no_window : Window
no_window = record { content_start = 0; content = []; is_partial = false }

trim_start-nil :
    (start : ℕ) (content : Bytes)
    → start ≡ 0
    → length content ≤ 0
    → trim_start start content ≡ no_window
unfolding trim_start
trim_start-nil start [] e le = rw e refl
trim_start-nil start (b ∷ content) e le = absurd (omega (arith, le))

pub window-none :
    (scan_bytes : ℕ) (file : Bytes) (cursor : Option ℕ)
    → end_of file cursor ≡ 0
    → window scan_bytes file cursor ≡ no_window
unfolding window
window-none scan_bytes file cursor e =
    let stop = end_of file cursor in
    let start = stop - scan_bytes in
    trim_start-nil start (trim_end file stop (slice file start stop)) (omega (arith, e))
      (omega (arith, e, length-trim_end-le file start stop))

pub next_cursor-none :
    (content_limit file_size scanned : ℕ) (reset : Bool) (casefold : Text → Text)
    (params : LogsReadParams) (w : Window)
    → w ≡ no_window
    → (page_of content_limit file_size scanned reset w (scan_window casefold params w)).next_cursor
      ≡ none
unfolding page_of scan_window scan_lines splitlines keep_lines
next_cursor-none content_limit file_size scanned reset casefold params w e = rw e refl
