-- ===== src/Logs/Ends.antt =====
-- A reader that follows the cursors of src/bunkerweb_mcp/tools/log_handlers.py, in a file whose
-- lines are shorter than a window.
use bunkerweb_mcp.Prelude.{
  ℕ, zero, suc, ◌-◌, ◌≤◌, ◌<◌, ◌≡◌, ap, sym, ◌∙◌, List, [], ◌∷◌, Option, none, some, ltb, length,
  Bool-cases, Option-cases, inl, inr, arith,
}
use bunkerweb_mcp.Logs.Encoding.{Bytes, Text, take, splitlines}
use bunkerweb_mcp.Logs.Window.{max_scan_bytes, end_of, start_of, trim_end, window}
use bunkerweb_mcp.Logs.Select.{max_content_bytes, LogsReadParams, is_match}
use bunkerweb_mcp.Logs.Pages.{Page, is_beyond, scan_window, read_page_within}
use bunkerweb_mcp.Logs.Complete.{matching_texts, read_page_within_complete}
use bunkerweb_mcp.Logs.Trimming.{HasShortLines, end_of-le}
use bunkerweb_mcp.Logs.Paging.{
  window_below, window_start-lt, next_cursor-lt, next_cursor-none, scan_window-All, window-none,
}

abbrev pub with_cursor : LogsReadParams → Option ℕ → LogsReadParams
with_cursor params position = record {
  source = params.source;
  query = params.query;
  limit = params.limit;
  cursor = position;
}

-- The pages up to the first one that has no cursor, or none where `fuel` reads do not reach it.
abbrev pub more_pages : Page → Option (List Page) → Option (List Page)
more_pages page none = none
more_pages page (some pages) = some (page ∷ pages)

unfoldable pub follow_within :
    ℕ → ℕ → (Text → Text) → LogsReadParams → Bytes → ℕ → Option ℕ → Option (List Page)
follow_within scan_bytes content_limit casefold params file zero position = none
follow_within scan_bytes content_limit casefold params file (suc fuel) position =
    let page =
      read_page_within scan_bytes content_limit casefold (with_cursor params position) file in
    elim page.next_cursor [
      | none ↦ some (page ∷ [])
      | some next ↦
          more_pages page
            (follow_within scan_bytes content_limit casefold params file fuel (some next))
    ]

-- The reads of a reader that begins at the end of the file and follows each `next_cursor`.
unfoldable pub follow : (Text → Text) → LogsReadParams → Bytes → ℕ → Option (List Page)
unfolding follow_within
follow casefold params file fuel =
    follow_within max_scan_bytes max_content_bytes casefold params file fuel none

-- The pages of a reader that begins at a position: each but the last names a cursor that lies
-- before the end of its own window, and the next is the one at that cursor; the last begins at the
-- first byte of the file and shows every line that matches of what it has scanned, as `trim_end`
-- leaves it.
pub data ReachesStart (scan_bytes content_limit : ℕ) (casefold : Text → Text)
    (params : LogsReadParams) (file : Bytes) : Option ℕ → List Page → Type 0 where
  last :
      {position : Option ℕ}
      → (read_page_within scan_bytes content_limit casefold
          (with_cursor params position)
          file).next_cursor
        ≡ none
      → (read_page_within scan_bytes content_limit casefold
          (with_cursor params position)
          file).scanned_bytes
        ≡ end_of file position
      → (read_page_within scan_bytes content_limit casefold
          (with_cursor params position)
          file).lines
        ≡ matching_texts
            (is_match casefold params.query)
            (splitlines (trim_end file (end_of file position) (take (end_of file position) file)))
      → ReachesStart scan_bytes content_limit casefold params file position (
          read_page_within scan_bytes content_limit casefold (with_cursor params position) file
          ∷ [])
  before :
      {position : Option ℕ} {next : ℕ} {pages : List Page}
      → (read_page_within scan_bytes content_limit casefold
          (with_cursor params position)
          file).next_cursor
        ≡ some next
      → next < end_of file position
      → ReachesStart scan_bytes content_limit casefold params file (some next) pages
      → ReachesStart scan_bytes content_limit casefold params file position (
          read_page_within scan_bytes content_limit casefold (with_cursor params position) file
          ∷ pages)

no_cursor : {i : ℕ} → ¬ ◌≡◌ {A = Option ℕ} (some i) none
no_cursor h = cc

end_of-some-le : (file : Bytes) (next : ℕ) → end_of file (some next) ≤ next
unfolding end_of
end_of-some-le file next = omega arith

module _ (scan_bytes content_limit : ℕ) (casefold : Text → Text) (file : Bytes)
    (pos : 0 < scan_bytes) (short : HasShortLines scan_bytes file) where
  -- A cursor that a page gives lies before the end of its own window.
  pub read_page_within-lt :
      (params : LogsReadParams) {next : ℕ}
      → (read_page_within scan_bytes content_limit casefold params file).next_cursor ≡ some next
      → next < end_of file params.cursor
  unfolding read_page_within
  read_page_within-lt params {next} h =
      let w = window scan_bytes file params.cursor in
      let stop = end_of file params.cursor in
      let scanned = stop - start_of scan_bytes stop in
      let reset = is_beyond params.cursor (length file) in
      elim (Bool-cases (ltb 0 stop)) [
        | inl e ↦
            next_cursor-lt content_limit (length file) scanned reset w
              (scan_window casefold params w) stop
              (scan_window-All casefold params w stop (window_below scan_bytes file params.cursor))
              (window_start-lt scan_bytes file params.cursor pos short (ground (arith, e))) h
        | inr e ↦ absurd (
            no_cursor (
              sym h
              ∙ next_cursor-none content_limit (length file) scanned reset casefold params w
                  (window-none scan_bytes file params.cursor (ground (arith, e)))))
      ]

  follow_within_next :
      (fuel : ℕ) (position : Option ℕ) (params : LogsReadParams) {next : ℕ}
      → (read_page_within scan_bytes content_limit casefold
          (with_cursor params position)
          file).next_cursor
        ≡ some next
      → follow_within scan_bytes content_limit casefold params file (suc fuel) position
        ≡ more_pages
            (read_page_within scan_bytes content_limit casefold (with_cursor params position) file)
            (follow_within scan_bytes content_limit casefold params file fuel (some next))
  unfolding follow_within
  follow_within_next fuel position params e =
      let page =
        read_page_within scan_bytes content_limit casefold (with_cursor params position) file in
      ap
        (λ cursor. elim cursor as (λ c. Option (List Page)) [
          | none ↦ some (page ∷ [])
          | some next ↦
              more_pages page
                (follow_within scan_bytes content_limit casefold params file fuel (some next))
        ])
        e

  follow_within_last :
      (fuel : ℕ) (position : Option ℕ) (params : LogsReadParams)
      → (read_page_within scan_bytes content_limit casefold
          (with_cursor params position)
          file).next_cursor
        ≡ none
      → follow_within scan_bytes content_limit casefold params file (suc fuel) position
        ≡ some (
            read_page_within scan_bytes content_limit casefold (with_cursor params position) file
            ∷ [])
  unfolding follow_within
  follow_within_last fuel position params e =
      let page =
        read_page_within scan_bytes content_limit casefold (with_cursor params position) file in
      ap
        (λ cursor. elim cursor as (λ c. Option (List Page)) [
          | none ↦ some (page ∷ [])
          | some next ↦
              more_pages page
                (follow_within scan_bytes content_limit casefold params file fuel (some next))
        ])
        e

  follow_within_lem :
      (params : LogsReadParams) (fuel : ℕ) (position : Option ℕ)
      → end_of file position < fuel
      → (pages : List Page) × (follow_within scan_bytes content_limit casefold params file fuel
            position
          ≡ some pages)
        × ReachesStart scan_bytes content_limit casefold params file position pages
  unfolding follow_within
  follow_within_lem params zero position lt = absurd (omega (arith, lt))
  follow_within_lem params (suc fuel) position lt =
      let asked = with_cursor params position in
      let page = read_page_within scan_bytes content_limit casefold asked file in
      elim (Option-cases page.next_cursor) [
        | inl e ↦
            let (all, lines) =
              read_page_within_complete scan_bytes content_limit casefold asked file e in
            (page ∷ [], follow_within_last fuel position params e, last e all lines)
        | inr (next, e) ↦
            let lower = read_page_within-lt asked e in
            let (later, read, reached) =
              follow_within_lem params fuel (some next)
                (omega (arith, lower, end_of-some-le file next, lt)) in
            (
              page ∷ later,
              follow_within_next fuel position params e ∙ ap (more_pages page) read,
              before e lower reached,
            )
      ]

-- A file in which no run of 1048575 bytes is without a line feed (and so every line of which is
-- shorter than a window) is read to its first byte: a reader that begins at its end and asks each
-- time for the `next_cursor` of the page before comes, whatever the query, the limit and the case
-- folding, after at most as many reads as the file has bytes, and one more, to a page that has
-- none; each cursor lies before the end of the window of the page that gave it, and the last page
-- has scanned all bytes before its own cursor and shows every line of them that matches, less what
-- follows their last line feed where that cursor stands inside the file and after another byte.
pub follow-ends :
    (casefold : Text → Text) (params : LogsReadParams) (file : Bytes)
    → HasShortLines max_scan_bytes file
    → (pages : List Page) × (follow casefold params file (suc (length file)) ≡ some pages)
      × ReachesStart max_scan_bytes max_content_bytes casefold params file none pages
unfolding follow
follow-ends casefold params file short =
    follow_within_lem max_scan_bytes max_content_bytes casefold file (omega arith) short params
      (suc (length file)) none (omega (arith, end_of-le file none))
