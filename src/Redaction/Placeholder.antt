-- ===== src/Redaction/Placeholder.antt =====
-- `_placeholder_paths` of src/bunkerweb_mcp/redaction.py: where a tool's parameters hold the text
-- that redaction puts in place of a secret.
use bunkerweb_mcp.Prelude.{
  ℕ, suc, String, Bool, true, false, ◌&&◌, ◌||◌, List, [], ◌∷◌, ◌++◌, none, some, ◌==◌, ◌<>◌, eqb,
  codes, contains, if◌then◌else◌,
}
use bunkerweb_mcp.Prelude.Decimal.{show}
use bunkerweb_mcp.Json.{Value, str, arr, obj, Items, nil, cons, Fields, end, field}
use bunkerweb_mcp.Base64.{decode}
use bunkerweb_mcp.Redaction.{redacted}

abbrev pub bytes_prefix : List ℕ → List ℕ → Bool
bytes_prefix [] s = true
bytes_prefix (a ∷ p) [] = false
bytes_prefix (a ∷ p) (b ∷ s) = eqb a b && bytes_prefix p s

-- p in s, of two byte strings
abbrev pub bytes_contain : List ℕ → List ℕ → Bool
bytes_contain p [] = bytes_prefix p []
bytes_contain p (c ∷ s) = bytes_prefix p (c ∷ s) || bytes_contain p s

-- `_b64decode`: malformed content decodes to no bytes.
unfoldable pub b64decode_or_empty : String → List ℕ
unfolding decode
b64decode_or_empty value = elim (decode (codes value)) [ none ↦ [] | some bytes ↦ bytes ]

-- The test on an upload: the placeholder is in the text itself or in what it decodes to.
unfoldable pub upload_holds_placeholder : Value → Bool
unfolding b64decode_or_empty
upload_holds_placeholder (str s) =
    contains redacted s || bytes_contain (codes redacted) (b64decode_or_empty s)
upload_holds_placeholder v = false

abbrev is_text : Value → Bool
is_text (str s) = true
is_text v = false

-- f"{path}.{key}" if path else str(key)
unfoldable pub child_path : String → String → String
child_path path key = if path == "" then key else path <> "." <> key

-- path or "<root>"
unfoldable pub or_root : String → String
or_root path = if path == "" then "<root>" else path

abbrev one_if : Bool → String → List String
one_if found path = if found then path ∷ [] else []

-- What the loop over a dict's items finds at one key, where `nested` is the scan of the value.
unfoldable pub entry_paths : String → Value → List String → String → List String
entry_paths k v nested child =
    if contains redacted k
    then child ∷ []
    else if k == "content_base64" && is_text v
    then one_if (upload_holds_placeholder v) child
    else nested

unfoldable mutual
  pub placeholder_paths : Value → String → List String
  placeholder_paths (str s) path = one_if (contains redacted s) (or_root path)
  placeholder_paths (obj fs) path = field_paths fs path
  placeholder_paths (arr vs) path = item_paths vs 0 path
  placeholder_paths v path = []

  pub item_paths : Items → ℕ → String → List String
  item_paths nil i path = []
  item_paths (cons v vs) i path =
      placeholder_paths v (path <> "[" <> show i <> "]") ++ item_paths vs (suc i) path

  pub field_paths : Fields → String → List String
  field_paths end path = []
  field_paths (field k v fs) path =
      entry_paths k v (placeholder_paths v (child_path path k)) (child_path path k)
      ++ field_paths fs path
