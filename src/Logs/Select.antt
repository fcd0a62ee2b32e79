-- ===== src/Logs/Select.antt =====
-- `_read_logs` of src/bunkerweb_mcp/tools/log_handlers.py from the lines on: which of them match,
-- the last `limit` of these, and how many of them fit in `content_limit` (MAX_CONTENT_BYTES).
-- `casefold` is `str.casefold`, whose tables are not modelled.
use bunkerweb_mcp.Prelude.{
  ℕ, ◌+◌, ◌-◌, String, Bool, true, false, ◌&&◌, ◌||◌, List, [], ◌∷◌, ◌++◌, Option, none, some, ltb,
  eqb, length, if◌then◌else◌,
}
use bunkerweb_mcp.Logs.Encoding.{
  Bytes, Text, take, drop, strip_newlines, decode_replace, decode_ignore, encode,
}

abbrev pub max_content_bytes : ℕ
max_content_bytes = 65536

-- tools/params.py; the query as its code points
pub record LogsReadParams : Type 0 where
  pub source : String
  pub query : Option Text
  pub limit : ℕ
  pub cursor : Option ℕ

-- p in s
abbrev pub begins_with : Text → Text → Bool
begins_with [] s = true
begins_with (a ∷ p) [] = false
begins_with (a ∷ p) (b ∷ s) = eqb a b && begins_with p s

abbrev pub occurs_in : Text → Text → Bool
occurs_in p [] = begins_with p []
occurs_in p (c ∷ s) = begins_with p (c ∷ s) || occurs_in p s

-- An empty query counts as none.
unfoldable pub is_match : (Text → Text) → Option Text → Text → Bool
is_match casefold none text = true
is_match casefold (some []) text = true
is_match casefold (some query) text = occurs_in (casefold query) (casefold text)

-- raw_line.rstrip(b"\r\n").decode("utf-8", errors="replace")
unfoldable pub text_of_line : Bytes → Text
unfolding strip_newlines decode_replace
text_of_line raw = decode_replace (strip_newlines raw)

-- deque(maxlen=limit).append
unfoldable pub append_bounded {ℓ} : {A : Type ℓ} → ℕ → List A → A → List A
append_bounded limit items item =
    let longer = items ++ item ∷ [] in if ltb limit (length longer) then drop 1 longer else longer

-- The offset in the file of a line, and its text.
abbrev pub Line : Type 0
Line = ℕ × Text

pub record Scan : Type 0 where
  pub matched : ℕ
  pub matches : List Line

-- One round of the loop over the lines, at the offset of the line.
unfoldable pub scan_line : (Text → Bool) → ℕ → ℕ → Bytes → Scan → Scan
unfolding text_of_line append_bounded
scan_line matching limit position raw s =
    let text = text_of_line raw in
    if matching text
    then record {
      matched = s.matched + 1;
      matches = append_bounded limit s.matches (position, text);
    }
    else s

-- The loop over the lines, from the offset of the first of them.
unfoldable pub scan_lines : (Text → Bool) → ℕ → ℕ → List Bytes → Scan → Scan
unfolding scan_line
scan_lines matching limit position [] s = s
scan_lines matching limit position (raw ∷ lines) s =
    scan_lines matching limit (position + length raw) lines
      (scan_line matching limit position raw s)

-- len(text.encode("utf-8"))
unfoldable pub size_of : Line → ℕ
unfolding encode
size_of (offset, text) = length (encode text)

-- What is kept of a line that is too long: what fits, where it is the first line and some room is
-- left.
unfoldable pub cut_line : Bool → ℕ → Line → List Line
unfolding encode decode_ignore
cut_line first remaining (offset, text) =
    if first && ltb 0 remaining
    then (offset, decode_ignore (take remaining (encode text))) ∷ []
    else []

-- One round of the loop over the selected lines, before what the later rounds keep.
unfoldable pub keep_line : Bool → ℕ → Line → List Line × Bool → List Line × Bool
unfolding size_of cut_line
keep_line first remaining line (kept, cut) =
    if ltb remaining (size_of line)
    then (cut_line first remaining line, true)
    else (line ∷ kept, cut)

-- The loop, the last line first, with the bytes that are left and whether no line is kept so far:
-- the lines kept, the last first, and whether the content was cut.
unfoldable pub keep_lines : Bool → ℕ → List Line → List Line × Bool
unfolding size_of keep_line
keep_lines first remaining [] = ([], false)
keep_lines first remaining (line ∷ lines) =
    keep_line first remaining line (keep_lines false (remaining - size_of line) lines)

abbrev pub reverse_onto {ℓ} : {A : Type ℓ} → List A → List A → List A
reverse_onto [] ys = ys
reverse_onto (x ∷ xs) ys = reverse_onto xs (x ∷ ys)

-- reversed(items)
abbrev pub reversed {ℓ} : {A : Type ℓ} → List A → List A
reversed xs = reverse_onto xs []
