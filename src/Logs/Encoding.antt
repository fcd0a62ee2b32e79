-- ===== src/Logs/Encoding.antt =====
-- What src/bunkerweb_mcp/tools/log_handlers.py does with bytes: slices, searches, `splitlines` and
-- the codec of UTF-8. A byte and a code point are numbers, and a text is the list of its code points.
use bunkerweb_mcp.Prelude.{
  ℕ, zero, suc, ◌+◌, ◌-◌, ◌*◌, Bool, true, false, not, ◌&&◌, ◌||◌, List, [], ◌∷◌, ◌++◌, Option,
  none, some, ltb, leb, eqb, if◌then◌else◌,
}
use bunkerweb_mcp.Client.Segment.{utf8}

abbrev pub Bytes : Type 0
Bytes = List ℕ

abbrev pub Text : Type 0
Text = List ℕ

abbrev pub take {ℓ} : {A : Type ℓ} → ℕ → List A → List A
take zero xs = []
take (suc n) [] = []
take (suc n) (x ∷ xs) = x ∷ take n xs

abbrev pub drop {ℓ} : {A : Type ℓ} → ℕ → List A → List A
drop zero xs = xs
drop (suc n) [] = []
drop (suc n) (x ∷ xs) = drop n xs

abbrev pub is_empty {ℓ} : {A : Type ℓ} → List A → Bool
is_empty [] = true
is_empty (x ∷ xs) = false

abbrev pub is_newline : ℕ → Bool
is_newline b = eqb b 10

-- A byte before what is left of the bytes after it: a line feed always stays.
abbrev pub keep_byte : ℕ → Bytes → Bytes
keep_byte b [] = if is_newline b then b ∷ [] else []
keep_byte b (c ∷ rest) = b ∷ c ∷ rest

-- content[: content.rfind(b"\n") + 1], empty where there is none
unfoldable pub to_last_newline : Bytes → Bytes
to_last_newline [] = []
to_last_newline (b ∷ bs) = keep_byte b (to_last_newline bs)

-- The first line feed of a byte and the bytes after it, and what follows it.
abbrev pub found : Bool → Bytes → Option (ℕ × Bytes) → Option (ℕ × Bytes)
found true bs later = some (0, bs)
found false bs none = none
found false bs (some (i, rest)) = some (suc i, rest)

-- content.find(b"\n"), none for -1, and what follows it
unfoldable pub after_newline : Bytes → Option (ℕ × Bytes)
after_newline [] = none
after_newline (b ∷ bs) = found (is_newline b) bs (after_newline bs)

-- A byte in front of the first line.
abbrev pub push : ℕ → List Bytes → List Bytes
push b [] = (b ∷ []) ∷ []
push b (line ∷ lines) = (b ∷ line) ∷ lines

abbrev pub is_at_newline : Bytes → Bool
is_at_newline [] = false
is_at_newline (b ∷ bs) = is_newline b

-- Whether a line ends with `b`, before the bytes `bs`: at a line feed, or at a carriage return
-- with no line feed after it.
abbrev pub ends_line : ℕ → Bytes → Bool
ends_line b bs = is_newline b || (eqb b 13 && not (is_at_newline bs))

-- content.splitlines(keepends=True)
unfoldable pub splitlines : Bytes → List Bytes
splitlines [] = []
splitlines (b ∷ bs) =
    let rest = splitlines bs in if ends_line b bs then (b ∷ []) ∷ rest else push b rest

-- raw_line.rstrip(b"\r\n")
unfoldable pub strip_newlines : Bytes → Bytes
strip_newlines [] = []
strip_newlines (b ∷ bs) =
    let rest = strip_newlines bs in if is_empty rest && (eqb b 10 || eqb b 13) then [] else b ∷ rest

-- A sequence of UTF-8 that has begun: how many bytes it still needs, the bounds of the next one,
-- and the bits so far.
pub data Decoder : Type 0 where
  idle : Decoder
  waiting : (needed low high bits : ℕ) → Decoder

-- A byte that begins a sequence: what it decodes to at once, and what follows. Where `marks` is
-- true, an error gives U+FFFD (errors="replace"), else nothing (errors="ignore").
abbrev pub mark : Bool → Text
mark marks = if marks then 0xFFFD ∷ [] else []

unfoldable pub begin : Bool → ℕ → Text × Decoder
begin marks b =
    if ltb b 128
    then (b ∷ [], idle)
    else if ltb b 0xC2
    then (mark marks, idle)
    else if ltb b 0xE0
    then ([], waiting 0 128 191 (b - 0xC0))
    else if eqb b 0xE0
    then ([], waiting 1 160 191 0)
    else if eqb b 0xED
    then ([], waiting 1 128 159 13)
    else if ltb b 0xF0
    then ([], waiting 1 128 191 (b - 0xE0))
    else if eqb b 0xF0
    then ([], waiting 2 144 191 0)
    else if ltb b 0xF4
    then ([], waiting 2 128 191 (b - 0xF0))
    else if eqb b 0xF4
    then ([], waiting 2 128 143 4)
    else (mark marks, idle)

-- A continuation byte that fits, where `needed` more must follow it.
unfoldable pub extend : ℕ → ℕ → Text × Decoder
extend zero code = (code ∷ [], idle)
extend (suc needed) code = ([], waiting needed 128 191 code)

-- A byte that does not fit ends the sequence with an error, and is read again.
unfoldable pub restart : Bool → ℕ → Text × Decoder
unfolding begin
restart marks b = (mark marks ++ (begin marks b).0, (begin marks b).1)

-- One more byte.
unfoldable pub feed : Bool → Decoder → ℕ → Text × Decoder
unfolding begin extend restart
feed marks idle b = begin marks b
feed marks (waiting needed low high bits) b =
    if leb low b && leb b high then extend needed (bits * 64 + (b - 128)) else restart marks b

-- A sequence that the end cuts off is one error.
unfoldable pub decode_from : Bool → Decoder → Bytes → Text
unfolding feed
decode_from marks idle [] = []
decode_from marks (waiting needed low high bits) [] = mark marks
decode_from marks state (b ∷ bs) =
    let (text, next) = feed marks state b in text ++ decode_from marks next bs

-- raw.decode("utf-8", errors="replace")
unfoldable pub decode_replace : Bytes → Text
unfolding decode_from
decode_replace bs = decode_from true idle bs

-- raw.decode("utf-8", errors="ignore")
unfoldable pub decode_ignore : Bytes → Text
unfolding decode_from
decode_ignore bs = decode_from false idle bs

-- text.encode("utf-8")
unfoldable pub encode : Text → Bytes
unfolding utf8
encode [] = []
encode (c ∷ text) = utf8 c ++ encode text
