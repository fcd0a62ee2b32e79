-- ===== src/Logs.antt =====
-- src/bunkerweb_mcp/tools/log_handlers.py: which files of the log directory may be read, and what
-- a read returns. A page is computed in Logs/Window.antt and Logs/Select.antt.
pub mod Encoding
pub mod Window
pub mod Select
pub mod Pages
pub mod Decoding
pub mod Bounds
pub mod Offsets
pub mod Trimming
pub mod Paging
pub mod Complete
pub mod Ends
pub mod Safety
mod Tests
use bunkerweb_mcp.Prelude.{
  ℕ, String, Bool, true, false, not, ◌&&◌, ◌||◌, List, [], ◌∷◌, ◌++◌, map, Option, none, some, ◌==◌,
  ◌<>◌, leb, eqb, codes, if◌then◌else◌,
}
use bunkerweb_mcp.Prelude.Dict.{Dict, lookup, insert}
use bunkerweb_mcp.Errors.{Error, tool_execution_error, other_error, Result, ok, err, ◌>>=◌}
use bunkerweb_mcp.Upstream.Digits.{digit_value}
use bunkerweb_mcp.Logs.Encoding.{Bytes, Text}
use bunkerweb_mcp.Logs.Select.{LogsReadParams}
use bunkerweb_mcp.Logs.Pages.{Page, read_page}
use Prim.Native.String
use Prim.Native.Nat.{Ordering, lt, gt, eq}

-- What the file system tells of a path: `resolved` is its real path relative to the root, none
-- where that lies outside; the rest is what `stat` says of the real path. Both may raise OSError,
-- where the file is removed meanwhile; the size and the time are those of a `stat` that does not.
pub record Entry : Type 0 where
  pub name : String
  pub is_symlink : Bool
  pub is_file : Bool
  pub resolved : Result (Option String)
  pub is_regular : Result Bool
  pub size : ℕ
  pub modified_at : String

-- The root and its subdirectory `letsencrypt`, in the order of `iterdir`.
pub record Directory : Type 0 where
  pub root_is_dir : Bool
  pub entries : List Entry
  pub letsencrypt : Option (List Entry)

abbrev pub starts_with : List ℕ → List ℕ → Bool
starts_with [] s = true
starts_with (a ∷ p) [] = false
starts_with (a ∷ p) (b ∷ s) = eqb a b && starts_with p s

abbrev pub same_codes : List ℕ → List ℕ → Bool
same_codes [] [] = true
same_codes (a ∷ s) (b ∷ t) = eqb a b && same_codes s t
same_codes s t = false

-- s.endswith(p)
abbrev pub ends_with : List ℕ → List ℕ → Bool
ends_with p [] = same_codes p []
ends_with p (c ∷ s) = same_codes p (c ∷ s) || ends_with p s

abbrev pub is_digit : ℕ → Bool
unfolding digit_value
is_digit c = elim (digit_value c) [ none ↦ false | some d ↦ true ]

-- `.*` up to the end: no line feed
abbrev pub no_line_feed : List ℕ → Bool
no_line_feed [] = true
no_line_feed (c ∷ s) = not (eqb c 10) && no_line_feed s

-- `(?:[.-]\d.*)?` up to the end
abbrev pub is_rotation : List ℕ → Bool
is_rotation [] = true
is_rotation (c ∷ []) = false
is_rotation (c ∷ d ∷ s) = (eqb c 46 || eqb c 45) && is_digit d && no_line_feed s

-- `\.log` and what may follow it, here
abbrev pub is_log_suffix : List ℕ → Bool
is_log_suffix (a ∷ b ∷ c ∷ d ∷ s) = eqb a 46 && eqb b 108 && eqb c 111 && eqb d 103 && is_rotation s
is_log_suffix s = false

-- The same after any characters but a line feed.
abbrev pub has_log_suffix : List ℕ → Bool
has_log_suffix [] = false
has_log_suffix (c ∷ s) = is_log_suffix (c ∷ s) || (not (eqb c 10) && has_log_suffix s)

-- LOG_NAME.fullmatch(name) is not None: at least one character stands before `.log`.
abbrev pub is_log_text : List ℕ → Bool
is_log_text [] = false
is_log_text (c ∷ s) = not (eqb c 10) && has_log_suffix s

unfoldable pub is_log_name : String → Bool
is_log_name name = is_log_text (codes name)

-- The guards of `_inventory` before the path is resolved.
unfoldable pub is_candidate : Entry → Bool
unfolding is_log_name
is_candidate e =
    not e.is_symlink
    && not (ends_with (codes ".gz") (codes e.name))
    && is_log_name e.name
    && e.is_file

-- The file under its real path, where that lies in the root and is a regular file's.
unfoldable pub add_resolved : Entry → Dict Entry → Option String → Result (Dict Entry)
unfolding insert
add_resolved e files none = ok files
add_resolved e files (some source) = do
  regular ← e.is_regular
  ok (if regular then insert source e files else files)

-- One round of the loop of `_inventory`.
unfoldable pub add_entry : Entry → Dict Entry → Result (Dict Entry)
unfolding is_candidate add_resolved
add_entry e files = if is_candidate e then e.resolved >>= add_resolved e files else ok files

unfoldable pub add_entries : List Entry → Dict Entry → Result (Dict Entry)
unfolding add_entry
add_entries [] files = ok files
add_entries (e ∷ entries) files = do added ← add_entry e files; add_entries entries added

abbrev pub letsencrypt_entries : Directory → List Entry
letsencrypt_entries root = elim root.letsencrypt [ none ↦ [] | some entries ↦ entries ]

-- `_inventory`: the files that may be read, by their path from the root.
unfoldable pub inventory : Directory → Result (Dict Entry)
unfolding add_entries
inventory root =
    if root.root_is_dir
    then add_entries root.entries [] >>= add_entries (letsencrypt_entries root)
    else err (other_error "BunkerWeb logs directory not found")

-- A file that `os.open` has opened, as `fstat` and `read` see it: the call reads it as it is at one
-- moment.
pub record OpenFile : Type 0 where
  pub is_regular_file : Bool
  pub content : Bytes
  pub modified : String

unfoldable pub known_source : String → Option Entry → Result Entry
known_source source none = err (tool_execution_error ("Unknown log source: " <> source))
known_source source (some e) = ok e

-- `_read_logs`: `opened` is what opening a path gives.
unfoldable pub read_logs :
    (Text → Text)
    → Directory
    → (String → Result OpenFile)
    → LogsReadParams
    → Result (OpenFile × Page)
unfolding inventory lookup read_page known_source
read_logs casefold root opened params = do
  files ← inventory root
  entry ← known_source params.source (lookup params.source files)
  file ← opened params.source
  (if file.is_regular_file
      then ok (file, read_page casefold params file.content)
      else err (tool_execution_error ("Log source is not a regular file: " <> params.source)))

-- What `_list_logs` tells of a file.
pub record Source : Type 0 where
  pub source : String
  pub source_size : ℕ
  pub source_modified_at : String
  pub rotated : Bool

abbrev pub source_of : String × Entry → Source
source_of (name, e) = record {
  source = name;
  source_size = e.size;
  source_modified_at = e.modified_at;
  rotated = not (ends_with (codes ".log") (codes name));
}

-- (modified_at, source) > the same of the other
abbrev pub is_newer : Source → Source → Bool
is_newer a b = elim (String.compare a.source_modified_at b.source_modified_at) [
  | lt ↦ false
  | gt ↦ true
  | eq ↦ elim (String.compare a.source b.source) [ gt ↦ true | _ ↦ false ]
]

-- `sort` with `reverse=True`, stable: by insertion, an equal item after those before it.
abbrev pub insert_sorted : Source → List Source → List Source
insert_sorted a [] = a ∷ []
insert_sorted a (b ∷ sources) =
    let rest = insert_sorted a sources in if is_newer b a then b ∷ rest else a ∷ b ∷ sources

abbrev pub sort_sources : List Source → List Source
sort_sources [] = []
sort_sources (a ∷ sources) = insert_sorted a (sort_sources sources)

unfoldable pub list_logs : Directory → Result (List Source)
unfolding inventory
list_logs root = do files ← inventory root; ok (sort_sources (map source_of files))
