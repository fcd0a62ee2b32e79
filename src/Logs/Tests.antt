-- ===== src/Logs/Tests.antt =====
-- Reads of small logs, and the theorems at them.
use bunkerweb_mcp.Prelude.{
  ℕ, String, true, false, List, [], ◌∷◌, Option, none, some, ◌≡◌, ◌≤◌, ◌⊎◌, length, map, arith,
  refl, codes, ◌==◌, if◌then◌else◌,
}
use bunkerweb_mcp.Prelude.Dict.{lookup, insert}
use bunkerweb_mcp.Client.Segment.{utf8}
use bunkerweb_mcp.Upstream.Digits.{digit_value}
use bunkerweb_mcp.Logs.Encoding.{
  Bytes, Text, to_last_newline, after_newline, splitlines, strip_newlines, begin, extend, restart,
  feed, decode_from, decode_replace, decode_ignore, encode,
}
use bunkerweb_mcp.Logs.Window.{end_of, trim_end, trim_start, window}
use bunkerweb_mcp.Logs.Select.{
  LogsReadParams, is_match, text_of_line, append_bounded, scan_lines, keep_lines,
}
use bunkerweb_mcp.Logs.Pages.{page_of, scan_window, read_page_within, read_page, Page}
use bunkerweb_mcp.Logs.Bounds.{read_page_bounds, total_bytes}
use bunkerweb_mcp.Logs.Trimming.{HasShortLines}
use bunkerweb_mcp.Logs.Ends.{ReachesStart, follow, follow_within, follow-ends}
use bunkerweb_mcp.Logs.Safety.{IsReadable, read_logs-IsReadable}
use bunkerweb_mcp.Logs.{
  Entry, Directory, OpenFile, is_log_name, is_candidate, add_resolved, add_entry, add_entries,
  inventory, known_source, read_logs, letsencrypt_entries, list_logs,
}
use bunkerweb_mcp.Errors.{Result, ok, err, other_error}
use mathlib.Core.List.{Memᴰ}

log_runs : Unit {0}
unfolding to_last_newline after_newline splitlines strip_newlines begin extend restart feed
    decode_from decode_replace decode_ignore encode utf8 end_of trim_end trim_start window is_match
    text_of_line append_bounded scan_lines keep_lines page_of scan_window read_page_within read_page
    is_log_name is_candidate add_resolved add_entry add_entries inventory known_source read_logs
    lookup insert list_logs
log_runs = tt

abbrev plain : Text → Text
plain text = text

abbrev last_two : LogsReadParams
last_two = record { source = "error.log"; query = none; limit = 2; cursor = none }

abbrev file : Bytes
file = codes "one\ntwo\nthree\n"

read_page_runs : read_page plain last_two file ≡ record {
  file_size = 14;
  lines = codes "two" ∷ codes "three" ∷ [];
  scanned_bytes = 14;
  next_cursor = some 4;
  has_more = true;
  content_truncated = false;
  cursor_reset = false;
}
unfolding log_runs
read_page_runs = refl

decode_runs :
    decode_replace (0xC3 ∷ 0xA9 ∷ 0xE2 ∷ 0x82 ∷ 65 ∷ 0xFF ∷ []) ≡ 0xE9 ∷ 0xFFFD ∷ 65 ∷ 0xFFFD ∷ []
unfolding log_runs
decode_runs = refl

read_page_bounds_example :
    (total_bytes (read_page plain last_two file).lines ≤ 65536)
    × (length (read_page plain last_two file).lines ≤ 2)
    × ((read_page plain last_two file).scanned_bytes ≤ 1048576)
read_page_bounds_example = read_page_bounds plain last_two file

-- Less than a window.
file-HasShortLines : HasShortLines 1048576 file
file-HasShortLines i le = absurd (omega (arith, le))

follow-ends_example :
    (pages : List Page) × (follow plain last_two file 15 ≡ some pages)
    × ReachesStart 1048576 65536 plain last_two file none pages
follow-ends_example = follow-ends plain last_two file file-HasShortLines

abbrev page_sizes : Option (List Page) → List ℕ
page_sizes none = []
page_sizes (some pages) = map (λ p. length p.lines) pages

-- Two pages: the last two lines, then the first.
follow_runs : page_sizes (follow plain last_two file 15) ≡ 2 ∷ 1 ∷ []
unfolding log_runs follow follow_within
follow_runs = refl

abbrev error_log : Entry
error_log = record {
  name = "error.log";
  is_symlink = false;
  is_file = true;
  resolved = ok (some "error.log");
  is_regular = ok true;
  size = 14;
  modified_at = "2025-01-01T00:00:00+00:00";
}

abbrev linked_log : Entry
linked_log = record {
  name = "access.log";
  is_symlink = true;
  is_file = true;
  resolved = ok (some "access.log");
  is_regular = ok true;
  size = 3;
  modified_at = "2025-01-01T00:00:00+00:00";
}

abbrev root : Directory
root = record { root_is_dir = true; entries = error_log ∷ linked_log ∷ []; letsencrypt = none }

abbrev opened_file : OpenFile
opened_file = record {
  is_regular_file = true;
  content = file;
  modified = "2025-01-01T00:00:00+00:00";
}

abbrev opened : String → Result OpenFile
opened path = if path == "error.log" then ok opened_file else err (other_error "No such file")

read_logs_runs :
    read_logs plain root opened last_two ≡ ok (opened_file, read_page plain last_two file)
unfolding log_runs
read_logs_runs = refl

read_logs-IsReadable_example :
    (root.root_is_dir ≡ true)
    × (opened "error.log" ≡ ok opened_file)
    × (opened_file.is_regular_file ≡ true)
    × (read_page plain last_two file ≡ read_page plain last_two file)
    × ((f : Entry) × (Memᴰ f root.entries ⊎ Memᴰ f (letsencrypt_entries root))
        × IsReadable "error.log" f)
read_logs-IsReadable_example =
    read_logs-IsReadable plain root opened last_two opened_file (read_page plain last_two file)
      read_logs_runs

-- Which names are logs.
is_log_name_runs :
    map is_log_name (
      "error.log" ∷ "error.log.1" ∷ "error.log-2024" ∷ ".log" ∷ "error.logs" ∷ "error.log.old" ∷ [])
    ≡ true ∷ true ∷ true ∷ false ∷ false ∷ false ∷ []
unfolding log_runs digit_value
is_log_name_runs = refl
