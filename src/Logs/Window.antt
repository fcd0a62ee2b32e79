-- ===== src/Logs/Window.antt =====
-- `_read_logs` of src/bunkerweb_mcp/tools/log_handlers.py up to the lines: the window of bytes
-- before the cursor, without the pieces of lines at its two ends. `scan_bytes` is MAX_SCAN_BYTES.
use bunkerweb_mcp.Prelude.{
  ℕ, ◌+◌, ◌-◌, Bool, true, false, not, ◌&&◌, Option, none, some, min, ltb, length, if◌then◌else◌,
}
use bunkerweb_mcp.Logs.Encoding.{
  Bytes, take, drop, is_empty, is_at_newline, to_last_newline, after_newline,
}

abbrev pub max_scan_bytes : ℕ
max_scan_bytes = 1048576

-- The end of the window: the cursor, where it lies in the file.
unfoldable pub end_of : Bytes → Option ℕ → ℕ
end_of file none = length file
end_of file (some cursor) = min cursor (length file)

abbrev pub start_of : ℕ → ℕ → ℕ
start_of scan_bytes limit = limit - scan_bytes

-- log_file.seek(start); log_file.read(stop - start)
abbrev pub slice : Bytes → ℕ → ℕ → Bytes
slice file start stop = take (stop - start) (drop start file)

-- A window that stops before the end of the file and inside a line loses that line's piece.
unfoldable pub trim_end : Bytes → ℕ → Bytes → Bytes
trim_end file stop content =
    if ltb stop (length file) && ltb 0 stop && not (is_at_newline (drop (stop - 1) file))
    then to_last_newline content
    else content

pub record Window : Type 0 where
  pub content_start : ℕ
  pub content : Bytes
  pub is_partial : Bool

-- A window that begins after the start of the file loses what stands before its first line feed;
-- where it has none, it is a piece of one line.
unfoldable pub trim_start : ℕ → Bytes → Window
trim_start start content =
    if ltb 0 start && not (is_empty content)
    then elim (after_newline content) [
      | none ↦ record { content_start = start; content = content; is_partial = true }
      | some (i, rest) ↦ record {
        content_start = start + i + 1;
        content = rest;
        is_partial = false;
      }
    ]
    else record { content_start = start; content = content; is_partial = false }

unfoldable pub window : ℕ → Bytes → Option ℕ → Window
unfolding end_of trim_end trim_start
window scan_bytes file cursor =
    let stop = end_of file cursor in
    let start = start_of scan_bytes stop in
    trim_start start (trim_end file stop (slice file start stop))
