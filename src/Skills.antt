-- ===== src/Skills.antt =====
-- src/bunkerweb_mcp/skill_catalog.py: the skills that are served as resources. The file system is a
-- list of directories and paths in the order of `sorted`; a text is the list of its code points.
pub mod Decoding
pub mod Reading
pub mod Promises
mod Tests
use bunkerweb_mcp.Prelude.{
  ℕ, zero, suc, ◌+◌, ◌-◌, ◌*◌, ◌++◌, String, Bool, true, false, not, ◌&&◌, ◌||◌, List, [], ◌∷◌,
  Option, none, some, ◌==◌, ◌<>◌, ltb, leb, eqb, length, codes, if◌then◌else◌,
}
use bunkerweb_mcp.Errors.{Error, other_error, Result, ok, err, ◌>>=◌, ◌>>◌}
use bunkerweb_mcp.Logs.Encoding.{Bytes, Text, Decoder, idle, waiting, begin, extend, is_empty}
use bunkerweb_mcp.Logs.{ends_with}
use Prim.Native.String
use Prim.Native.Nat.{Ordering, lt, gt, eq}

abbrev pub skill_uri_prefix : String
skill_uri_prefix = "skill://bunkerweb"

abbrev pub max_files : ℕ
max_files = 512

abbrev pub max_bytes : ℕ
max_bytes = 16777216

-- The digest is left out: nothing reads it.
pub record SkillFile : Type 0 where
  pub uri : String
  pub text : Text
  pub size : ℕ
  pub mime_type : String

-- Of the frontmatter, the description, which is all that is read of it later.
pub record SkillEntry : Type 0 where
  pub name : String
  pub uri : String
  pub description : String
  pub files : List SkillFile

-- A path below a skill's directory.
pub record PathEntry : Type 0 where
  pub rel : String
  pub is_symlink : Bool
  pub is_dir : Bool
  pub is_file : Bool
  pub raw : Bytes

pub record SkillDir : Type 0 where
  pub name : String
  pub is_symlink : Bool
  pub paths : List PathEntry

-- What `yaml.safe_load` makes of a text: whether it is a mapping and JSON can hold it, and its name
-- and description where these are texts.
pub record Yaml : Type 0 where
  pub is_mapping : Bool
  pub is_serialisable : Bool
  pub name : Option String
  pub description : Option String

-- Third-party and system code: `yaml.safe_load`, none where it raises, and `mimetypes.guess_type`.
pub record Host : Type 0 where
  pub safe_load : Text → Option Yaml
  pub guess_type : String → Option String

-- raise ValueError(f"{skill}: {what}") unless the test holds
abbrev pub require : Bool → String → String → Result (Unit {0})
require test skill what = if test then ok tt else err (other_error (skill <> ": " <> what))

-- [a-z0-9]
abbrev pub is_word : ℕ → Bool
is_word c = (leb 97 c && leb c 122) || (leb 48 c && leb c 57)

-- The rest of a name; `can_end` after a letter or a digit. `$` also matches before a last line feed.
abbrev pub name_from : Bool → Text → Bool
name_from can_end [] = can_end
name_from can_end (c ∷ s) = elim (is_word c) [
  | true ↦ name_from true s
  | false ↦ can_end && elim (eqb c 45) [ true ↦ name_from false s | false ↦ eqb c 10 && is_empty s ]
]

-- _NAME_RE.match(name)
unfoldable pub is_name : String → Bool
is_name name = name_from false (codes name)

-- `\r?$` here
abbrev pub is_line_end : Text → Bool
is_line_end [] = true
is_line_end (c ∷ []) = eqb c 10 || eqb c 13
is_line_end (c ∷ d ∷ s) = eqb c 10 || (eqb c 13 && eqb d 10)

-- `[ \t]*\r?$` here
abbrev pub is_blank_end : Text → Bool
is_blank_end [] = true
is_blank_end (c ∷ s) =
    let rest = is_blank_end s in if eqb c 32 || eqb c 9 then rest else is_line_end (c ∷ s)

-- `---[ \t]*\r?$` here
abbrev pub is_fence : Text → Bool
is_fence (a ∷ b ∷ c ∷ s) = eqb a 45 && eqb b 45 && eqb c 45 && is_blank_end s
is_fence s = false

abbrev pub with_first : ℕ → Option Text → Option Text
with_first c none = none
with_first c (some s) = some (c ∷ s)

-- The text before the first fence that begins a line.
unfoldable pub until_fence : Bool → Text → Option Text
until_fence at_start [] = none
until_fence at_start (c ∷ s) =
    let rest = until_fence (eqb c 10) s in
    if at_start && is_fence (c ∷ s) then some [] else with_first c rest

-- `\r?\n` here, and what follows it
abbrev pub after_line_end : Text → Option Text
after_line_end (c ∷ s) = if eqb c 10 then some s else if eqb c 13 then line_feed s else none
  where
    line_feed : Text → Option Text
    line_feed (d ∷ t) = if eqb d 10 then some t else none
    line_feed [] = none
after_line_end [] = none

abbrev pub between : Option Text → Option Text
unfolding until_fence
between none = none
between (some s) = until_fence true s

-- _FRONTMATTER_RE.match(text).group(1)
unfoldable pub frontmatter_text : Text → Option Text
unfolding until_fence
frontmatter_text (a ∷ b ∷ c ∷ s) =
    if eqb a 45 && eqb b 45 && eqb c 45 then between (after_line_end s) else none
frontmatter_text s = none

abbrev pub some_or {ℓ} : {A : Type ℓ} → String → String → Option A → Result A
some_or skill what none = err (other_error (skill <> ": " <> what))
some_or skill what (some a) = ok a

abbrev pub is_name_of : String → Option String → Bool
unfolding is_name
is_name_of skill none = false
is_name_of skill (some name) = leb (length (codes name)) 64 && is_name name && name == skill

abbrev pub is_description : String → Bool
is_description text = leb 1 (length (codes text)) && leb (length (codes text)) 1024

abbrev pub checked_description : String → Option String → Result String
checked_description skill none =
    err (other_error (skill <> ": description must be 1 to 1024 characters"))
checked_description skill (some text) =
    if is_description text
    then ok text
    else err (other_error (skill <> ": description must be 1 to 1024 characters"))

-- `_frontmatter`: the description.
unfoldable pub frontmatter : Host → String → Text → Result String
unfolding frontmatter_text is_name_of
frontmatter host skill text = do
  inside ← some_or skill "SKILL.md has no frontmatter at byte 0" (frontmatter_text text)
  yaml ← some_or skill "invalid frontmatter YAML" (host.safe_load inside)
  mapping ← require yaml.is_mapping skill "frontmatter is not a mapping"
  serialisable ← require yaml.is_serialisable skill "frontmatter is not JSON-serialisable"
  named ←
      require (is_name_of skill yaml.name) skill
        "frontmatter name is invalid or differs from the dir"
  checked_description skill yaml.description

-- A byte that may begin a sequence of UTF-8.
abbrev pub is_start : ℕ → Bool
is_start b = ltb b 128 || leb 0xC2 b && leb b 0xF4

-- One more byte, where it is the next one of a sequence or begins one.
unfoldable pub feed_strict : Decoder → ℕ → Option (Text × Decoder)
unfolding begin extend
feed_strict idle b = if is_start b then some (begin false b) else none
feed_strict (waiting needed low high bits) b =
    if leb low b && leb b high then some (extend needed (bits * 64 + (b - 128))) else none

abbrev pub after_text : Text → Option Text → Option Text
after_text text none = none
after_text text (some rest) = some (text ++ rest)

unfoldable pub decode_strict_from : Decoder → Bytes → Option Text
unfolding feed_strict
decode_strict_from idle [] = some []
decode_strict_from (waiting needed low high bits) [] = none
decode_strict_from state (b ∷ bs) = elim (feed_strict state b) [
  | none ↦ none
  | some (text, next) ↦ after_text text (decode_strict_from next bs)
]

-- raw.decode("utf-8"): none where it raises UnicodeDecodeError.
unfoldable pub decode_strict : Bytes → Option Text
unfolding decode_strict_from
decode_strict raw = decode_strict_from idle raw

abbrev pub mime_of : Host → String → String
mime_of host rel =
    if ends_with (codes ".md") (codes rel)
    then "text/markdown"
    else elim (host.guess_type rel) [ none ↦ "text/plain" | some mime ↦ mime ]

-- One file, where `count` files of `total` bytes come before it.
unfoldable pub read_file : Host → String → ℕ → ℕ → PathEntry → Result SkillFile
unfolding decode_strict
read_file host skill count total path = do
  regular ← require path.is_file skill (path.rel <> " is not a regular file")
  few ← require (ltb count max_files) skill "more than 512 files"
  small ←
      require (leb (total + length path.raw) max_bytes) skill "more than 16777216 bytes in total"
  text ← some_or skill (path.rel <> " is not valid UTF-8") (decode_strict path.raw)
  ok (record {
    uri = skill_uri_prefix <> "/" <> skill <> "/" <> path.rel;
    text = text;
    size = length path.raw;
    mime_type = mime_of host path.rel;
  })

-- The loop of `_read_files`.
unfoldable pub read_from : Host → String → ℕ → ℕ → List PathEntry → Result (List SkillFile)
unfolding read_file
read_from host skill count total [] = ok []
read_from host skill count total (path ∷ paths) =
    if path.is_symlink
    then err (other_error (skill <> ": " <> path.rel <> " is a symlink"))
    else if path.is_dir
    then read_from host skill count total paths
    else do
      file ← read_file host skill count total path
      files ← read_from host skill (suc count) (total + file.size) paths
      ok (file ∷ files)

-- f.uri <= g.uri
abbrev pub is_before : SkillFile → SkillFile → Bool
is_before f g = elim (String.compare f.uri g.uri) [ lt ↦ true | gt ↦ false | eq ↦ true ]

abbrev pub insert_file : SkillFile → List SkillFile → List SkillFile
insert_file f [] = f ∷ []
insert_file f (g ∷ files) =
    let rest = insert_file f files in if is_before f g then f ∷ g ∷ files else g ∷ rest

-- sorted(files, key=lambda f: f.uri)
unfoldable pub sort_files : List SkillFile → List SkillFile
sort_files [] = []
sort_files (f ∷ files) = insert_file f (sort_files files)

unfoldable pub read_files : Host → String → List PathEntry → Result (List SkillFile)
unfolding read_from sort_files
read_files host skill paths = do files ← read_from host skill 0 0 paths; ok (sort_files files)

-- next((f for f in files if f.uri == uri), None)
unfoldable pub find_file : String → List SkillFile → Option SkillFile
find_file uri [] = none
find_file uri (f ∷ files) = if f.uri == uri then some f else find_file uri files

abbrev pub root_uri : String → String
root_uri skill = skill_uri_prefix <> "/" <> skill <> "/SKILL.md"

unfoldable pub load_skill : Host → SkillDir → Result SkillEntry
unfolding read_files find_file frontmatter
load_skill host dir = do
  plain ← require (not dir.is_symlink) dir.name "skill dir is a symlink"
  files ← read_files host dir.name dir.paths
  skill_md ← some_or dir.name "no SKILL.md" (find_file (root_uri dir.name) files)
  description ← frontmatter host dir.name skill_md.text
  ok (record { name = dir.name; uri = skill_md.uri; description = description; files = files })

unfoldable pub load_skills : Host → List SkillDir → Result (List SkillEntry)
unfolding load_skill
load_skills host [] = ok []
load_skills host (dir ∷ dirs) = do
  first ← load_skill host dir
  rest ← load_skills host dirs
  ok (first ∷ rest)
