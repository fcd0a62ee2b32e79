-- ===== src/ServiceWrites.antt =====
-- src/bunkerweb_mcp/tools/service_writes.py: what `update_service` is given, what it reads of a
-- stored service, and which settings belong to one service.
pub mod Preflight
pub mod Sorting
pub mod Promises
pub mod Receipt
pub mod Verified
mod Tests
use Prim.Native.Char.{code}
use Prim.Native.String
use bunkerweb_mcp.Prelude.{
  String, Bool, true, false, not, ◌&&◌, ◌||◌, List, [], ◌∷◌, Option, none, some, ◌==◌, ◌<>◌, leb,
  eqb, all_char, has_prefix, if◌then◌else◌,
}
use bunkerweb_mcp.Prelude.Dict.{Dict, lookup}
use bunkerweb_mcp.Json.{
  ℤ, Value, null, bool, int, float, str, arr, obj, Fields, end, field, get, show_int,
}
use bunkerweb_mcp.Errors.{Error, tool_validation_error, other_error, Result, ok, err, ◌>>=◌, ◌>>◌}
use bunkerweb_mcp.Upstream.Facts.{Catalog, SettingInfo}

-- tools/params.py
pub record ServiceUpdateParams : Type 0 where
  pub service : String
  pub server_name : Option String
  pub is_draft : Option Bool
  pub variables : Option (Dict String)

unfoldable pub unavailable : String → Error
unavailable what =
    tool_validation_error
      ("Validation unavailable: could not read " <> what <> " from BunkerWeb; nothing was sent.")

abbrev blank_if_null : Value → Value
blank_if_null null = str ""
blank_if_null v = v

-- `_value`; `none` is the KeyError of a dict without a value.
unfoldable pub value_of : Value → Option Value
unfolding get
value_of (obj entry) = elim (get "value" entry) [ none ↦ none | some v ↦ some (blank_if_null v) ]
value_of v = some (blank_if_null v)

-- str(value) of a value that is a text, a number or a Boolean
unfoldable pub scalar_text : Value → Option String
unfolding show_int
scalar_text (str s) = some s
scalar_text (int n) = some (show_int n)
scalar_text (float s) = some s
scalar_text (bool true) = some "True"
scalar_text (bool false) = some "False"
scalar_text v = none

-- str(_value(entry)), `none` where the entry has no such value
unfoldable pub stored_text : Value → Option String
unfolding value_of scalar_text
stored_text entry = elim (value_of entry) [ none ↦ none | some v ↦ scalar_text v ]

abbrev text_if_there : Option Value → Bool
text_if_there none = true
text_if_there (some (str s)) = true
text_if_there (some v) = false

abbrev bool_if_there : Option Value → Bool
bool_if_there none = true
bool_if_there (some (bool b)) = true
bool_if_there (some v) = false

-- The ownership metadata of a dict entry is well typed.
unfoldable pub metadata_ok : Value → Bool
unfolding get
metadata_ok (obj entry) = text_if_there (get "method" entry) && bool_if_there (get "global" entry)
metadata_ok v = true

abbrev is_there {ℓ} : {A : Type ℓ} → Option A → Bool
is_there none = false
is_there (some a) = true

unfoldable pub entries_ok : Fields → Bool
unfolding stored_text metadata_ok
entries_ok end = true
entries_ok (field key entry fs) = is_there (stored_text entry) && metadata_ok entry && entries_ok fs

-- `_service_data` of a response's `data`
unfoldable pub service_data : Value → Result Fields
unfolding entries_ok
service_data (obj settings) =
    if entries_ok settings
    then ok settings
    else err (other_error "Expected a setting name and value")
service_data v = err (other_error "Expected service settings")

-- key.rpartition("_"), `none` without a separator
unfoldable pub rpartition : String → Option (String × String)
rpartition String.[] = none
rpartition (String.◌∷◌ c s) = elim (rpartition s) [
  | some (base, suffix) ↦ some (String.◌∷◌ c base, suffix)
  | none ↦ if eqb (code c) b'_' then some ("", s) else none
]

-- suffix.isascii() and suffix.isdigit()
abbrev is_ascii_number : String → Bool
is_ascii_number s = not (s == "") && all_char (λ c. leb b'0' c && leb c b'9') s

abbrev is_multisite : Option SettingInfo → Bool
is_multisite none = false
is_multisite (some info) = info.context == "multisite"

abbrev if_multiple : Option SettingInfo → Option SettingInfo
if_multiple none = none
if_multiple (some info) = if info.multiple then some info else none

-- The setting that a numbered name repeats, if that setting is a multiple one.
unfoldable pub numbered_setting : String → Catalog → Option SettingInfo
unfolding rpartition lookup
numbered_setting key catalog = elim (rpartition key) [
  | none ↦ none
  | some (base, suffix) ↦ if is_ascii_number suffix then if_multiple (lookup base catalog) else none
]

unfoldable pub per_service : String → Catalog → Bool
unfolding numbered_setting lookup
per_service key catalog = elim (lookup key catalog) [
  | none ↦ is_multisite (numbered_setting key catalog)
  | some info ↦ info.context == "multisite"
]
