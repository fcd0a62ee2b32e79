-- ===== src/Skills/Promises.antt =====
-- What `load_skills` of src/bunkerweb_mcp/skill_catalog.py accepts.
use bunkerweb_mcp.Prelude.{
  ◌≤◌, ◌≡◌, refl, sym, ap, ◌∙◌, subst, String, not, List, [], ◌∷◌, Option, some, ◌==◌, length, All,
  Bool-cases, inl, inr, arith,
}
use bunkerweb_mcp.Errors.{ok, ok-injective, >>=-eq-ok}
use mathlib.Core.List.{Memᴰ}
use text.Mathlib.TextEquality.{eq_iff}
use bunkerweb_mcp.Skills.{
  SkillFile, SkillEntry, PathEntry, SkillDir, Host, require, some_or, is_before, insert_file,
  sort_files, read_from, read_files, find_file, root_uri, load_skill, load_skills, frontmatter,
}
use bunkerweb_mcp.Skills.Reading.{some_or_lem, IsVerbatim, total_size, read_from_lem}

-- Sorting keeps what the files have in common, and what they amount to.
abbrev SameFiles : List SkillFile → List SkillFile → Type 0
SameFiles fs gs =
    (length fs ≡ length gs)
    × (total_size fs ≡ total_size gs)
    × (All IsVerbatim fs → All IsVerbatim gs)

insert_file-SameFiles :
    (f : SkillFile) (files : List SkillFile) → SameFiles (f ∷ files) (insert_file f files)
insert_file-SameFiles f [] = (refl, refl, λ h. h)
insert_file-SameFiles f (g ∷ files) = elim (Bool-cases (is_before f g)) [
  | inl e ↦ rw e (refl, refl, λ h. h)
  | inr e ↦
      let (l, t, v) = insert_file-SameFiles f files in
      rw e (omega (arith, l), omega (arith, t), λ h. (h.1.0, v (h.0, h.1.1)))
]

sort_files-SameFiles : (files : List SkillFile) → SameFiles files (sort_files files)
unfolding sort_files
sort_files-SameFiles [] = (refl, refl, λ h. h)
sort_files-SameFiles (f ∷ files) =
    let (l, t, v) = sort_files-SameFiles files in
    let (l', t', v') = insert_file-SameFiles f (sort_files files) in
    (omega (arith, l, l'), omega (arith, t, t'), λ h. v' (h.0, v h.1))

file-injective : {f g : SkillFile} → ◌≡◌ {A = Option SkillFile} (some f) (some g) → f ≡ g
file-injective h = cc

find_file_lem :
    (uri : String) (files : List SkillFile) (f : SkillFile)
    → find_file uri files ≡ some f
    → Memᴰ f files × (f.uri ≡ uri)
unfolding find_file
find_file_lem uri [] f h = absurd (cc)
find_file_lem uri (g ∷ files) f h = elim (Bool-cases (g.uri == uri)) [
  | inl same ↦
      let e = file-injective (rw (find_file, same) at h) in
      (Memᴰ.head (sym e), sym (ap (λ k. k.uri) e) ∙ (eq_iff g.uri uri).0 same)
  | inr other ↦
      let (mem, named) = find_file_lem uri files f (rw (find_file, other) at h) in
      (Memᴰ.tail mem, named)
]

-- A skill that may be served: at most 512 files of at most 16 MiB in total, each with the bytes of
-- its path, and among them the SKILL.md that its address names.
abbrev pub IsServable : SkillEntry → Type 0
IsServable skill =
    (length skill.files ≤ 512)
    × (total_size skill.files ≤ 16777216)
    × All IsVerbatim skill.files
    × (skill.uri ≡ root_uri skill.name)
    × ((f : SkillFile) × Memᴰ f skill.files × (f.uri ≡ skill.uri))

read_files_lem :
    (host : Host) (skill : String) (paths : List PathEntry) (files : List SkillFile)
    → read_files host skill paths ≡ ok files
    → (length files ≤ 512) × (total_size files ≤ 16777216) × All IsVerbatim files
unfolding read_files
read_files_lem host skill paths files h =
    let (found, h1, k1) = >>=-eq-ok (read_from host skill 0 0 paths) _ h in
    let (few, small, verbatim) =
      read_from_lem host skill 0 0 paths found h1 (omega arith) (omega arith) in
    let (l, t, v) = sort_files-SameFiles found in
    subst (λ fs. (length fs ≤ 512) × (total_size fs ≤ 16777216) × All IsVerbatim fs)
      (ok-injective (sort_files found) files k1)
      (omega (arith, l, few), omega (arith, t, small), v verbatim)

entry-IsServable :
    (name uri description : String) (files : List SkillFile) (f : SkillFile) (skill : SkillEntry)
    → (length files ≤ 512) × (total_size files ≤ 16777216) × All IsVerbatim files
    → find_file (root_uri name) files ≡ some f
    → record { name = name; uri = f.uri; description = description; files = files } ≡ skill
    → IsServable skill
entry-IsServable name uri description files f skill (few, small, verbatim) found e =
    let (mem, named) = find_file_lem (root_uri name) files f found in
    subst IsServable e (few, small, verbatim, named, (f, mem, refl))

load_skill-IsServable :
    (host : Host) (dir : SkillDir) (skill : SkillEntry)
    → load_skill host dir ≡ ok skill
    → IsServable skill
unfolding load_skill
load_skill-IsServable host dir skill h =
    let (u, h1, k1) =
      >>=-eq-ok (require (not dir.is_symlink) dir.name "skill dir is a symlink") _ h in
    let (files, h2, k2) = >>=-eq-ok (read_files host dir.name dir.paths) _ k1 in
    let (f, h3, k3) =
      >>=-eq-ok (some_or dir.name "no SKILL.md" (find_file (root_uri dir.name) files)) _ k2 in
    let (description, h4, k4) = >>=-eq-ok (frontmatter host dir.name f.text) _ k3 in
    entry-IsServable dir.name f.uri description files f skill
      (read_files_lem host dir.name dir.paths files h2)
      (some_or_lem dir.name "no SKILL.md" (find_file (root_uri dir.name) files) h3)
      (ok-injective _ skill k4)

-- Where the skills load, every one of them has at most 512 files of at most 16 MiB in total, each
-- file's text encodes to as many bytes as the file has, and the address of the skill is that of one
-- of its files, its SKILL.md.
pub load_skills-IsServable :
    (host : Host) (dirs : List SkillDir) (skills : List SkillEntry)
    → load_skills host dirs ≡ ok skills
    → All IsServable skills
unfolding load_skills
load_skills-IsServable host [] skills h = subst (All IsServable) (ok-injective [] skills h) tt
load_skills-IsServable host (dir ∷ dirs) skills h =
    let (skill, h1, k1) = >>=-eq-ok (load_skill host dir) _ h in
    let (rest, h2, k2) = >>=-eq-ok (load_skills host dirs) _ k1 in
    subst (All IsServable) (ok-injective (skill ∷ rest) skills k2)
      (load_skill-IsServable host dir skill h1, load_skills-IsServable host dirs rest h2)
