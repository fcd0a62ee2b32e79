-- ===== src/Logs/Pages.antt =====
-- `_read_logs` of src/bunkerweb_mcp/tools/log_handlers.py: the page that a read returns.
use bunkerweb_mcp.Prelude.{
  ℕ, ◌-◌, Bool, true, false, ◌||◌, List, [], ◌∷◌, map, Option, none, some, ltb, length,
  if◌then◌else◌,
}
use bunkerweb_mcp.Logs.Encoding.{Bytes, Text, splitlines}
use bunkerweb_mcp.Logs.Window.{max_scan_bytes, end_of, start_of, Window, window}
use bunkerweb_mcp.Logs.Select.{
  max_content_bytes, LogsReadParams, is_match, Line, Scan, scan_lines, keep_lines, reversed,
}

-- The result's entries that the read computes; the source and the time are passed on.
pub record Page : Type 0 where
  pub file_size : ℕ
  pub lines : List Text
  pub scanned_bytes : ℕ
  pub next_cursor : Option ℕ
  pub has_more : Bool
  pub content_truncated : Bool
  pub cursor_reset : Bool

abbrev pub first_offset : List Line → ℕ → ℕ
first_offset [] content_start = content_start
first_offset ((offset, text) ∷ lines) content_start = offset

abbrev pub text_of : Line → Text
text_of (offset, text) = text

abbrev pub is_beyond : Option ℕ → ℕ → Bool
is_beyond none size = false
is_beyond (some cursor) size = ltb size cursor

-- The page of a window, and of the lines in it that matched.
unfoldable pub page_of : ℕ → ℕ → ℕ → Bool → Window → Scan → Page
unfolding keep_lines
page_of content_limit file_size scanned reset w scan =
    let (kept_reversed, cut) = keep_lines true content_limit (reversed scan.matches) in
    let kept = reversed kept_reversed in
    let truncated = w.is_partial || cut in
    let more = ltb 0 w.content_start || ltb (length scan.matches) scan.matched || truncated in
    record {
      file_size = file_size;
      lines = map text_of kept;
      scanned_bytes = scanned;
      next_cursor = if more then some (first_offset kept w.content_start) else none;
      has_more = more;
      content_truncated = truncated;
      cursor_reset = reset;
    }

-- The lines of a window that match.
unfoldable pub scan_window : (Text → Text) → LogsReadParams → Window → Scan
unfolding is_match scan_lines splitlines
scan_window casefold params w =
    scan_lines (is_match casefold params.query) params.limit w.content_start (splitlines w.content)
      (record { matched = 0; matches = [] })

-- The read with both limits as arguments.
unfoldable pub read_page_within : ℕ → ℕ → (Text → Text) → LogsReadParams → Bytes → Page
unfolding window scan_window page_of end_of
read_page_within scan_bytes content_limit casefold params file =
    let stop = end_of file params.cursor in
    let w = window scan_bytes file params.cursor in
    page_of content_limit (length file) (stop - start_of scan_bytes stop)
      (is_beyond params.cursor (length file)) w (scan_window casefold params w)

unfoldable pub read_page : (Text → Text) → LogsReadParams → Bytes → Page
unfolding read_page_within
read_page casefold params file =
    read_page_within max_scan_bytes max_content_bytes casefold params file
