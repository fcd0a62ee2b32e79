-- ===== src/Skills/Reading.antt =====
-- What the loop of `_read_files` in src/bunkerweb_mcp/skill_catalog.py accepts.
use bunkerweb_mcp.Prelude.{
  ℕ, suc, ◌+◌, ◌≤◌, ◌<◌, ◌≡◌, refl, sym, ap, subst, String, Bool, true, false, List, [], ◌∷◌,
  Option, none, some, ◌<>◌, ltb, leb, length, All, Bool-cases, inl, inr, arith,
}
use bunkerweb_mcp.Errors.{ok, ok-injective, >>=-eq-ok}
use bunkerweb_mcp.Logs.Encoding.{Text, encode}
use bunkerweb_mcp.Skills.Decoding.{decode_strict_lem}
use bunkerweb_mcp.Skills.{
  SkillFile, PathEntry, Host, require, some_or, skill_uri_prefix, mime_of, read_file, read_from,
  decode_strict,
}

pub require_lem :
    (test : Bool) (skill what : String) {u : Unit {0}}
    → require test skill what ≡ ok u
    → test ≡ true
require_lem true skill what h = refl
require_lem false skill what h = absurd (cc)

pub some_or_lem :
    {A : Type 0} (skill what : String) (o : Option A) {a : A}
    → some_or skill what o ≡ ok a
    → o ≡ some a
some_or_lem skill what none h = absurd (cc)
some_or_lem skill what (some b) {a} h = ap some (ok-injective b a h)

-- The text of a file takes as many bytes of UTF-8 as the file is said to have.
abbrev pub IsVerbatim : SkillFile → Type 0
IsVerbatim f = length (encode f.text) ≡ f.size

abbrev pub total_size : List SkillFile → ℕ
total_size [] = 0
total_size (f ∷ files) = f.size + total_size files

-- The file that `read_file` makes of a path and its text.
abbrev file_of : Host → String → PathEntry → Text → SkillFile
file_of host skill path text = record {
  uri = skill_uri_prefix <> "/" <> skill <> "/" <> path.rel;
  text = text;
  size = length path.raw;
  mime_type = mime_of host path.rel;
}

file_of_path :
    (host : Host) (skill : String) (count total : ℕ) (path : PathEntry) (text : Text)
    (f : SkillFile)
    → ltb count 512 ≡ true
    → leb (total + length path.raw) 16777216 ≡ true
    → decode_strict path.raw ≡ some text
    → file_of host skill path text ≡ f
    → (count < 512) × (total + f.size ≤ 16777216) × IsVerbatim f
file_of_path host skill count total path text f few small read e =
    subst (λ g. (count < 512) × (total + g.size ≤ 16777216) × IsVerbatim g) e
      (ground (arith, few), ground (arith, small), decode_strict_lem path.raw text read)

read_file_lem :
    (host : Host) (skill : String) (count total : ℕ) (path : PathEntry) (f : SkillFile)
    → read_file host skill count total path ≡ ok f
    → (count < 512) × (total + f.size ≤ 16777216) × IsVerbatim f
unfolding read_file
read_file_lem host skill count total path f h =
    let unreadable = path.rel <> " is not valid UTF-8" in
    let (u1, h1, k1) =
      >>=-eq-ok (require path.is_file skill (path.rel <> " is not a regular file")) _ h in
    let (u2, h2, k2) = >>=-eq-ok (require (ltb count 512) skill "more than 512 files") _ k1 in
    let (u3, h3, k3) =
      >>=-eq-ok
        (require (leb (total + length path.raw) 16777216) skill "more than 16777216 bytes in total")
        _ k2 in
    let (text, h4, k4) = >>=-eq-ok (some_or skill unreadable (decode_strict path.raw)) _ k3 in
    let few = require_lem (ltb count 512) skill "more than 512 files" h2 in
    let small =
      require_lem (leb (total + length path.raw) 16777216) skill "more than 16777216 bytes in total"
        h3 in
    let read = some_or_lem skill unreadable (decode_strict path.raw) h4 in
    file_of_path host skill count total path text f few small read (ok-injective _ f k4)

files_from :
    (count total : ℕ) (f : SkillFile) (rest files : List SkillFile)
    → suc count + length rest ≤ 512
    → total + f.size + total_size rest ≤ 16777216
    → IsVerbatim f
    → All IsVerbatim rest
    → f ∷ rest ≡ files
    → (count + length files ≤ 512) × (total + total_size files ≤ 16777216) × All IsVerbatim files
files_from count total f rest files fews smalls verbatim verbatims e =
    subst (λ fs. (count + length fs ≤ 512) × (total + total_size fs ≤ 16777216) × All IsVerbatim fs)
      e (omega (arith, fews), omega (arith, smalls), (verbatim, verbatims))

pub read_from_lem :
    (host : Host) (skill : String) (count total : ℕ) (paths : List PathEntry)
    (files : List SkillFile)
    → read_from host skill count total paths ≡ ok files
    → count ≤ 512
    → total ≤ 16777216
    → (count + length files ≤ 512) × (total + total_size files ≤ 16777216) × All IsVerbatim files
unfolding read_from
read_from_lem host skill count total [] files h c t =
    let e = ok-injective _ files h in
    (
      omega (arith, ap length (sym e)),
      omega (arith, ap total_size (sym e)),
      subst (All IsVerbatim) e tt,
    )
read_from_lem host skill count total (path ∷ paths) files h c t =
    elim (Bool-cases path.is_symlink) [
      | inl linked ↦ let g = rw (read_from, linked) at h in absurd (cc)
      | inr plain ↦ elim (Bool-cases path.is_dir) [
        | inl dir ↦
            read_from_lem host skill count total paths files (rw (read_from, plain, dir) at h) c t
        | inr no_dir ↦
            let g = rw (read_from, plain, no_dir) at h in
            let (f, h1, k1) = >>=-eq-ok (read_file host skill count total path) _ g in
            let (rest, h2, k2) =
              >>=-eq-ok (read_from host skill (suc count) (total + f.size) paths) _ k1 in
            let (few, small, verbatim) = read_file_lem host skill count total path f h1 in
            let (fews, smalls, verbatims) =
              read_from_lem host skill (suc count) (total + f.size) paths rest h2
                (omega (arith, few)) small in
            files_from count total f rest files fews smalls verbatim verbatims
              (ok-injective _ files k2)
      ]
    ]
