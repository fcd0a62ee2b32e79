-- ===== src/Logs/Safety.antt =====
-- Which files `_read_logs` of src/bunkerweb_mcp/tools/log_handlers.py reads.
use bunkerweb_mcp.Prelude.{
  String, ◌≡◌, refl, ap, sym, subst, ◌∙◌, Bool, true, false, not, ◌&&◌, List, [], ◌∷◌, Option, none,
  some, ◌==◌, Bool-cases, ◌⊎◌, inl, inr, arith, codes, if◌then◌else◌,
}
use bunkerweb_mcp.Prelude.Dict.{Dict, lookup, insert, lookup-insert}
use bunkerweb_mcp.Errors.{Error, Result, ok, err, ok-injective, >>=-eq-ok}
use bunkerweb_mcp.Logs.{
  Entry, Directory, OpenFile, is_log_name, is_candidate, add_resolved, add_entry, add_entries,
  inventory, ends_with, letsencrypt_entries, known_source, read_logs,
}
use bunkerweb_mcp.Logs.Encoding.{Text}
use bunkerweb_mcp.Logs.Select.{LogsReadParams}
use bunkerweb_mcp.Logs.Pages.{Page, read_page}
use mathlib.Core.List.{Memᴰ}
use text.Mathlib.TextEquality.{eq_iff}

-- A file that may be read as `source`: no symbolic link, uncompressed, named like a log, regular,
-- and with this path from the root.
abbrev pub IsReadable : String → Entry → Type 0
IsReadable source e =
    (e.is_symlink ≡ false)
    × (ends_with (codes ".gz") (codes e.name) ≡ false)
    × (is_log_name e.name ≡ true)
    × (e.is_file ≡ true)
    × (e.is_regular ≡ ok true)
    × (e.resolved ≡ ok (some source))

and_four :
    (a b c d : Bool)
    → (not a && not b && c && d) ≡ true
    → (a ≡ false) × (b ≡ false) × (c ≡ true) × (d ≡ true)
and_four a b c d h = (ground arith, ground arith, ground arith, ground arith)

is_candidate_lem :
    (e : Entry)
    → is_candidate e ≡ true
    → (e.is_symlink ≡ false)
      × (ends_with (codes ".gz") (codes e.name) ≡ false)
      × (is_log_name e.name ≡ true)
      × (e.is_file ≡ true)
unfolding is_candidate
is_candidate_lem e h =
    and_four e.is_symlink (ends_with (codes ".gz") (codes e.name)) (is_log_name e.name) e.is_file h

some-injective : {e f : Entry} → ◌≡◌ {A = Option Entry} (some e) (some f) → e ≡ f
some-injective h = cc

insert-cases :
    (source path : String) (e f : Entry) (files : Dict Entry)
    → lookup source (insert path e files) ≡ some f
    → ((f ≡ e) × (path ≡ source)) ⊎ (lookup source files ≡ some f)
insert-cases source path e f files h =
    let g = sym (lookup-insert path source e files) ∙ h in
    elim (Bool-cases (path == source)) [
      | inl same ↦ inl (sym (some-injective (rw same at g)), (eq_iff path source).0 same)
      | inr other ↦ inr (rw other at g)
    ]

if-injective :
    {A : Type 0} (test : Bool) (a b c : A)
    → ◌≡◌ {A = Result A} (ok (if test then a else b)) (ok c)
    → ((test ≡ true) × (a ≡ c)) ⊎ (b ≡ c)
if-injective true a b c h = inl (refl, ok-injective a c h)
if-injective false a b c h = inr (ok-injective b c h)

module _ (source : String) (e f : Entry) (files added : Dict Entry) where
  add_resolved_lem :
      (path : Option String)
      → add_resolved e files path ≡ ok added
      → lookup source added ≡ some f
      → ((f ≡ e) × (e.is_regular ≡ ok true) × (path ≡ some source)) ⊎ (lookup source files ≡ some f)
  unfolding add_resolved
  add_resolved_lem none h found = inr (ap (lookup source) (ok-injective files added h) ∙ found)
  add_resolved_lem (some path) h found =
      let (regular, stat, h1) = >>=-eq-ok e.is_regular _ h in
      elim (if-injective regular (insert path e files) files added h1) [
        | inr same ↦ inr (ap (lookup source) same ∙ found)
        | inl (t, same) ↦
            elim (insert-cases source path e f files (ap (lookup source) same ∙ found)) [
              | inr before ↦ inr before
              | inl (it, named) ↦ inl (it, stat ∙ ap ok t, ap some named)
            ]
      ]

  add_entry_lem :
      add_entry e files ≡ ok added
      → lookup source added ≡ some f
      → ((f ≡ e) × IsReadable source e) ⊎ (lookup source files ≡ some f)
  unfolding add_entry
  add_entry_lem h found = elim (Bool-cases (is_candidate e)) [
    | inr refused ↦
        inr (ap (lookup source) (ok-injective files added (rw (add_entry, refused) at h)) ∙ found)
    | inl listed ↦
        let (path, resolved, h1) =
          >>=-eq-ok e.resolved (add_resolved e files) (rw (add_entry, listed) at h) in
        elim (add_resolved_lem path h1 found) [
          | inr before ↦ inr before
          | inl (same, regular, named) ↦
              let (s, gz, log, file) = is_candidate_lem e listed in
              inl (same, (s, gz, log, file, regular, resolved ∙ ap ok named))
        ]
  ]

add_entries_lem :
    (source : String) (entries : List Entry) (f : Entry) (files added : Dict Entry)
    → add_entries entries files ≡ ok added
    → lookup source added ≡ some f
    → (Memᴰ f entries × IsReadable source f) ⊎ (lookup source files ≡ some f)
unfolding add_entries
add_entries_lem source [] f files added h found =
    inr (ap (lookup source) (ok-injective files added h) ∙ found)
add_entries_lem source (e ∷ entries) f files added h found =
    let (next, first, h1) = >>=-eq-ok (add_entry e files) (add_entries entries) h in
    elim (add_entries_lem source entries f next added h1 found) [
      | inl (mem, readable) ↦ inl (Memᴰ.tail mem, readable)
      | inr earlier ↦ elim (add_entry_lem source e f files next first earlier) [
        | inl (same, readable) ↦ inl (Memᴰ.head same, subst (IsReadable source) (sym same) readable)
        | inr before ↦ inr before
      ]
    ]

inventory_lem :
    (root : Directory) (files : Dict Entry) (source : String) (f : Entry)
    → inventory root ≡ ok files
    → lookup source files ≡ some f
    → (root.root_is_dir ≡ true)
      × (Memᴰ f root.entries ⊎ Memᴰ f (letsencrypt_entries root))
      × IsReadable source f
unfolding inventory lookup
inventory_lem root files source f h found = elim (Bool-cases root.root_is_dir) [
  | inr missing ↦ let g = rw (inventory, missing) at h in absurd (cc)
  | inl present ↦
      let (first, read, h1) =
        >>=-eq-ok (add_entries root.entries []) (add_entries (letsencrypt_entries root))
          (rw (inventory, present) at h) in
      elim (add_entries_lem source (letsencrypt_entries root) f first files h1 found) [
        | inl (mem, readable) ↦ (present, inr mem, readable)
        | inr earlier ↦ elim (add_entries_lem source root.entries f [] first read earlier) [
          | inl (mem, readable) ↦ (present, inl mem, readable)
          | inr never ↦ absurd (cc)
        ]
      ]
]

known_source_lem :
    (source : String) (found : Option Entry) (f : Entry)
    → known_source source found ≡ ok f
    → found ≡ some f
unfolding known_source
known_source_lem source none f h = absurd (cc)
known_source_lem source (some e) f h = ap some (ok-injective e f h)

regular_lem :
    {A : Type 0} (regular : Bool) (a b : A) (e : Error)
    → (if regular then ok a else err e) ≡ ok b
    → (regular ≡ true) × (a ≡ b)
regular_lem true a b e h = (refl, ok-injective a b h)
regular_lem false a b e h = absurd (cc)

-- A read that succeeds read a file of the log directory or of its subdirectory `letsencrypt` whose
-- path from the root is the source asked for, that is no symbolic link, whose name is that of a log
-- and does not end in .gz, and that is a regular file both when it was listed and when it was
-- opened; the result is the page of what opening that path gave.
pub read_logs-IsReadable :
    (casefold : Text → Text) (root : Directory) (opened : String → Result OpenFile)
    (params : LogsReadParams) (file : OpenFile) (page : Page)
    → read_logs casefold root opened params ≡ ok (file, page)
    → (root.root_is_dir ≡ true)
      × (opened params.source ≡ ok file)
      × (file.is_regular_file ≡ true)
      × (page ≡ read_page casefold params file.content)
      × ((f : Entry) × (Memᴰ f root.entries ⊎ Memᴰ f (letsencrypt_entries root))
          × IsReadable params.source f)
unfolding read_logs
read_logs-IsReadable casefold root opened params file page h =
    let (files, listed, h1) = >>=-eq-ok (inventory root) _ h in
    let (f, known, h2) = >>=-eq-ok (known_source params.source (lookup params.source files)) _ h1 in
    let (got, read, h3) = >>=-eq-ok (opened params.source) _ h2 in
    let (regular, same) =
      regular_lem got.is_regular_file (got, read_page casefold params got.content) (file, page) _
        h3 in
    let found = known_source_lem params.source (lookup params.source files) f known in
    let (present, mem, readable) = inventory_lem root files params.source f listed found in
    let same_file = ap (λ p. p.0) same in
    (
      present,
      read ∙ ap ok same_file,
      sym (ap (λ g. g.is_regular_file) same_file) ∙ regular,
      sym (ap (λ p. p.1) same) ∙ ap (λ g. read_page casefold params g.content) same_file,
      (f, mem, readable),
    )
