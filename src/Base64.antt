-- ===== src/Base64.antt =====
-- The standard base64 codec of Python, `base64.b64encode` and `base64.b64decode` without
-- `validate`, as client.py, redaction.py and tools/params.py call it. Bytes are numbers.
use bunkerweb_mcp.Prelude.{
  ℕ, ◌+◌, ◌-◌, ◌*◌, ◌/◌, ◌%◌, Bool, true, ◌&&◌, List, [], ◌∷◌, Option, none, some, leb, eqb,
  if◌then◌else◌,
}

-- The value of an alphabet character, and `none` for any other.
unfoldable pub sextet : ℕ → Option ℕ
sextet c =
    if leb 65 c && leb c 90
    then some (c - 65)
    else if leb 97 c && leb c 122
    then some (c - 71)
    else if leb 48 c && leb c 57
    then some (c + 4)
    else if eqb c 43
    then some 62
    else if eqb c 47
    then some 63
    else none

-- What the decoder keeps between characters: the position in a group of four, the bits of the
-- last character that no byte holds yet, and the `=` seen since the last alphabet character.
pub record Decoder : Type 0 where
  pub quad_pos : ℕ
  pub leftover : ℕ
  pub pads : ℕ

abbrev pub start : Decoder
start = record { quad_pos = 0; leftover = 0; pads = 0 }

-- One alphabet character of value `v`: the state, and the byte that it completes.
unfoldable pub accept : Decoder → ℕ → Decoder × List ℕ
accept d v =
    if eqb d.quad_pos 0
    then (record { quad_pos = 1; leftover = v; pads = 0 }, [])
    else if eqb d.quad_pos 1
    then (record { quad_pos = 2; leftover = v % 16; pads = 0 }, (d.leftover * 4 + v / 16) ∷ [])
    else if eqb d.quad_pos 2
    then (record { quad_pos = 3; leftover = v % 4; pads = 0 }, (d.leftover * 16 + v / 4) ∷ [])
    else (record { quad_pos = 0; leftover = 0; pads = 0 }, (d.leftover * 64 + v) ∷ [])

abbrev prepend : List ℕ → Option (List ℕ) → Option (List ℕ)
prepend bytes none = none
prepend [] (some rest) = some rest
prepend (b ∷ bytes) (some rest) = some (b ∷ rest)

-- binascii.a2b_base64 of ASCII characters: characters outside the alphabet are skipped, a
-- sufficient padding ends the data, and an unfinished group is an error, `none`.
unfoldable pub decode_from : Decoder → List ℕ → Option (List ℕ)
unfolding sextet accept
decode_from d [] = if eqb d.quad_pos 0 then some [] else none
decode_from d (c ∷ cs) =
    let padded = decode_from (record d { pads = d.pads + 1 }) cs in
    let skipped = decode_from d cs in
    if eqb c 61
    then (if leb 2 d.quad_pos && leb 4 (d.quad_pos + d.pads + 1) then some [] else padded)
    else elim (sextet c) [
      | none ↦ skipped
      | some v ↦ prepend (accept d v).1 (decode_from (accept d v).0 cs)
    ]

abbrev is_ascii : List ℕ → Bool
is_ascii [] = true
is_ascii (c ∷ cs) = leb c 127 && is_ascii cs

-- base64.b64decode(text), `none` where it raises binascii.Error or ValueError.
unfoldable pub decode : List ℕ → Option (List ℕ)
unfolding decode_from
decode cs = if is_ascii cs then decode_from start cs else none

-- The alphabet character of a value below 64.
unfoldable pub symbol : ℕ → ℕ
symbol v =
    if leb v 25
    then v + 65
    else if leb v 51
    then v + 71
    else if leb v 61
    then v - 4
    else if eqb v 62
    then 43
    else 47

-- base64.b64encode(bytes).decode("ascii")
unfoldable pub encode : List ℕ → List ℕ
unfolding symbol
encode [] = []
encode (a ∷ []) = symbol (a / 4) ∷ symbol (a % 4 * 16) ∷ 61 ∷ 61 ∷ []
encode (a ∷ b ∷ []) = symbol (a / 4) ∷ symbol (a % 4 * 16 + b / 16) ∷ symbol (b % 16 * 4) ∷ 61 ∷ []
encode (a ∷ b ∷ c ∷ bytes) =
    symbol (a / 4)
    ∷ symbol (a % 4 * 16 + b / 16)
    ∷ symbol (b % 16 * 4 + c / 64)
    ∷ symbol (c % 64)
    ∷ encode bytes
