-- ===== src/Client/Segment.antt =====
-- `_segment`, `_cache_path` and `_config_path` of src/bunkerweb_mcp/client.py, with
-- `urllib.parse.quote` of the standard library where no character is safe.
use bunkerweb_mcp.Prelude.{
  ℕ, ◌+◌, ◌/◌, ◌%◌, String, Bool, ◌&&◌, ◌||◌, List, [], ◌∷◌, Option, none, some, ◌==◌, ◌<>◌, ltb,
  leb, eqb, any_char, if◌then◌else◌,
}
use bunkerweb_mcp.Prelude.Decimal.{digit_char}
use bunkerweb_mcp.Errors.{tool_validation_error, Result, ok, err, ◌>>=◌}
use Prim.Native.Char.{Char, code}

-- chr(c).encode("utf-8")
unfoldable pub utf8 : ℕ → List ℕ
utf8 c =
    if ltb c 128
    then c ∷ []
    else if ltb c 2048
    then (192 + c / 64) ∷ (128 + c % 64) ∷ []
    else if ltb c 65536
    then (224 + c / 4096) ∷ (128 + c / 64 % 64) ∷ (128 + c % 64) ∷ []
    else (240 + c / 262144) ∷ (128 + c / 4096 % 64) ∷ (128 + c / 64 % 64) ∷ (128 + c % 64) ∷ []

-- A hexadecimal digit as `%02X` prints it.
unfoldable pub hex_char : ℕ → Char
unfolding digit_char
hex_char n =
    if ltb n 10
    then digit_char n
    else if eqb n 10
    then "A"
    else if eqb n 11
    then "B"
    else if eqb n 12
    then "C"
    else if eqb n 13
    then "D"
    else if eqb n 14
    then "E"
    else "F"

-- The characters that `quote` never quotes: letters, digits and `_.-~`.
unfoldable pub is_unreserved : ℕ → Bool
is_unreserved c =
    leb 65 c && leb c 90
    || leb 97 c && leb c 122
    || leb 48 c && leb c 57
    || eqb c 95
    || eqb c 46
    || eqb c 45
    || eqb c 126

abbrev pub percent : List ℕ → String
percent [] = ""
percent (b ∷ bytes) =
    String.◌∷◌ "%" (String.◌∷◌ (hex_char (b / 16)) (String.◌∷◌ (hex_char (b % 16)) (percent bytes)))

-- quote(value, safe="")
unfoldable pub quote : String → String
unfolding utf8 hex_char is_unreserved
quote String.[] = String.[]
quote (String.◌∷◌ c s) =
    let rest = quote s in
    if is_unreserved (code c) then String.◌∷◌ c rest else percent (utf8 (code c)) <> rest

-- `/`, `\`, `%` and the control characters
unfoldable pub is_forbidden : ℕ → Bool
is_forbidden c = eqb c 47 || eqb c 92 || eqb c 37 || ltb c 32 || eqb c 127

unfoldable pub invalid_segment : String → Bool
unfolding is_forbidden
invalid_segment value = value == "" || value == "." || value == ".." || any_char is_forbidden value

unfoldable pub segment : String → String → Result String
unfolding invalid_segment quote
segment value name =
    if invalid_segment value
    then err (
        tool_validation_error (
          "Invalid " <> name
          <> ": path separators, percent signs, control characters and '.'/'..' are not allowed"))
    else ok (quote value)

unfoldable pub cache_path : String → String → String → String → Result String
unfolding segment
cache_path service plugin_id job_name file_name = do
  a ← segment service "service"
  b ← segment plugin_id "plugin_id"
  c ← segment job_name "job_name"
  d ← segment file_name "file_name"
  ok ("/cache/" <> a <> "/" <> b <> "/" <> c <> "/" <> d)

-- schemas/configs.py
pub record ConfigKey : Type 0 where
  pub service : Option String
  pub type : String
  pub name : String

-- key.service or "global"
abbrev pub service_or_global : Option String → String
service_or_global none = "global"
service_or_global (some s) = if s == "" then "global" else s

unfoldable pub config_path : ConfigKey → Result String
unfolding segment
config_path key = do
  a ← segment (service_or_global key.service) "service"
  b ← segment key.type "type"
  c ← segment key.name "name"
  ok ("/configs/" <> a <> "/" <> b <> "/" <> c)
