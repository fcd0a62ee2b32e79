-- ===== src/Redaction/Pattern.antt =====
-- The expressions of src/bunkerweb_mcp/redaction.py, as the tests that `re.search` makes of them,
-- and the name of a cache file that a path token stands for.
use Prim.Native.Char.{code}
use bunkerweb_mcp.Prelude.{
  ℕ, zero, suc, ◌+◌, String, Bool, true, false, ◌&&◌, ◌||◌, List, [], ◌∷◌, map, Option, none, some,
  ◌<>◌, leb, eqb, codes, contains, any_of, has_prefix, after_last, if◌then◌else◌,
}
use bunkerweb_mcp.Redaction.{RedactionPolicy}

-- re.compile(DEFAULT_REDACT_PATTERN).search(key) is not None
unfoldable pub default_redact_pattern : String → Bool
default_redact_pattern key =
    any_of (λ word. contains word key)
      ("PASSWORD" ∷ "PASSWD" ∷ "SECRET" ∷ "TOKEN" ∷ "API_KEY" ∷ "APIKEY" ∷ "LICENSE_KEY"
        ∷ "PRIVATE_KEY" ∷ "_KEY_DATA" ∷ "CREDENTIAL_ITEM" ∷ "HEADER_VALUE" ∷ "DATABASE_URI" ∷ [])

abbrev pub default_sensitive_cache_plugins : List String
default_sensitive_cache_plugins = "letsencrypt" ∷ "customcert" ∷ "selfsigned" ∷ "crowdsec" ∷ []

abbrev pub default_policy : RedactionPolicy
unfolding default_redact_pattern
default_policy = record {
  pattern = default_redact_pattern;
  sensitive_cache_plugins = default_sensitive_cache_plugins;
}

-- `str.lower` of one character, as far as ASCII names can tell: beside the capitals only the
-- Kelvin sign has a lower case in ASCII.
unfoldable pub lower_code : ℕ → ℕ
lower_code c = if leb b'A' c && leb c b'Z' then c + 32 else if eqb c 0x212A then b'k' else c

-- One character under re.IGNORECASE, as far as ASCII letters can tell: the long s and the i with
-- and without a dot match as `s` and `i` too.
unfoldable pub fold_code : ℕ → ℕ
unfolding lower_code
fold_code c =
    if eqb c 0x17F then b's' else if eqb c 0x130 || eqb c 0x131 then b'i' else lower_code c

abbrev pub same_codes : List ℕ → List ℕ → Bool
same_codes [] [] = true
same_codes (a ∷ s) (b ∷ t) = eqb a b && same_codes s t
same_codes _ _ = false

-- What `$` matches before: the end, or one line feed at the end.
abbrev at_end : List ℕ → Bool
at_end [] = true
at_end (c ∷ []) = eqb c 10
at_end _ = false

-- The pattern `p$` at the front of a text, case ignored; `p` is in lower case.
abbrev ends_with_here : List ℕ → List ℕ → Bool
ends_with_here [] s = at_end s
ends_with_here (a ∷ p) [] = false
ends_with_here (a ∷ p) (c ∷ s) = eqb a (fold_code c) && ends_with_here p s

-- re.search of `p$`
abbrev search_end : List ℕ → List ℕ → Bool
search_end p [] = ends_with_here p []
search_end p (c ∷ s) = ends_with_here p (c ∷ s) || search_end p s

-- SENSITIVE_CACHE_FILE_PATTERN.search(basename) is not None
unfoldable pub matches_key_file : String → Bool
unfolding fold_code
matches_key_file name =
    search_end (codes ".key") (codes name)
    || search_end (codes "key.pem") (codes name)
    || ends_with_here (codes "instance.id") (codes name)

-- s.replace("_", "/")
abbrev underscores_to_slashes : String → String
underscores_to_slashes String.[] = String.[]
underscores_to_slashes (String.◌∷◌ c s) =
    if eqb (code c) b'_'
    then "/" <> underscores_to_slashes s
    else String.◌∷◌ c (underscores_to_slashes s)

-- s[n:]
abbrev drop_chars : ℕ → String → String
drop_chars zero s = s
drop_chars (suc n) String.[] = String.[]
drop_chars (suc n) (String.◌∷◌ c s) = drop_chars n s

unfoldable pub effective_cache_file_name : String → String
effective_cache_file_name file_name =
    if has_prefix "folder:" file_name
    then drop_chars 7 (underscores_to_slashes file_name)
    else file_name

abbrev pub in_sensitive_plugins : RedactionPolicy → Option String → Bool
in_sensitive_plugins p none = false
in_sensitive_plugins p (some plugin) =
    any_of (λ name. same_codes (codes name) (map lower_code (codes plugin)))
      p.sensitive_cache_plugins

-- effective_cache_file_name(file_name).rsplit("/", 1)[-1], against the pattern
abbrev pub is_key_file : Option String → Bool
is_key_file none = false
is_key_file (some file_name) =
    matches_key_file (after_last b'/' (effective_cache_file_name file_name))

unfoldable pub is_sensitive_cache_file : RedactionPolicy → Option String → Option String → Bool
unfolding effective_cache_file_name matches_key_file lower_code
is_sensitive_cache_file p plugin file_name = in_sensitive_plugins p plugin || is_key_file file_name
