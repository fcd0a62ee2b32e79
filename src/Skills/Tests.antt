-- ===== src/Skills/Tests.antt =====
-- A catalog with one skill, and the theorem at it.
use bunkerweb_mcp.Prelude.{◌≡◌, refl, Bool, true, false, List, [], ◌∷◌, map, none, some, All, codes}
use bunkerweb_mcp.Errors.{Result, ok, err}
use bunkerweb_mcp.Client.Segment.{utf8}
use bunkerweb_mcp.Logs.Encoding.{begin, extend, encode}
use bunkerweb_mcp.Skills.{
  Host, PathEntry, SkillDir, SkillEntry, is_name, frontmatter_text, until_fence, frontmatter,
  feed_strict, decode_strict_from, decode_strict, read_file, read_from, sort_files, read_files,
  find_file, load_skill, load_skills,
}
use bunkerweb_mcp.Skills.Promises.{IsServable, load_skills-IsServable}

skill_runs : Unit {0}
unfolding begin extend encode utf8 is_name frontmatter_text until_fence frontmatter feed_strict
    decode_strict_from decode_strict read_file read_from sort_files read_files find_file load_skill
    load_skills
skill_runs = tt

abbrev host : Host
host = record {
  safe_load = λ text. some (record {
    is_mapping = true;
    is_serialisable = true;
    name = some "bunkerweb";
    description = some "How to run BunkerWeb.";
  });
  guess_type = λ rel. none;
}

abbrev skill_md : PathEntry
skill_md = record {
  rel = "SKILL.md";
  is_symlink = false;
  is_dir = false;
  is_file = true;
  raw = codes "---\nname: bunkerweb\n---\n";
}

abbrev notes : PathEntry
notes = record {
  rel = "notes.txt";
  is_symlink = false;
  is_dir = false;
  is_file = true;
  raw = 0xC3 ∷ 0xA9 ∷ [];
}

abbrev dirs : List SkillDir
dirs = record { name = "bunkerweb"; is_symlink = false; paths = notes ∷ skill_md ∷ [] } ∷ []

-- A file that is no UTF-8 keeps its skill from loading.
abbrev broken : List SkillDir
broken =
    record {
      name = "bunkerweb";
      is_symlink = false;
      paths = record notes { raw = 0xC3 ∷ [] } ∷ skill_md ∷ [];
    }
    ∷ []

abbrev loaded : List SkillEntry
loaded =
    record {
      name = "bunkerweb";
      uri = "skill://bunkerweb/bunkerweb/SKILL.md";
      description = "How to run BunkerWeb.";
      files =
          record {
            uri = "skill://bunkerweb/bunkerweb/SKILL.md";
            text = codes "---\nname: bunkerweb\n---\n";
            size = 24;
            mime_type = "text/markdown";
          }
          ∷ record {
            uri = "skill://bunkerweb/bunkerweb/notes.txt";
            text = 0xE9 ∷ [];
            size = 2;
            mime_type = "text/plain";
          }
          ∷ [];
    }
    ∷ []

load_skills_runs : load_skills host dirs ≡ ok loaded
unfolding skill_runs
load_skills_runs = refl

abbrev fails {ℓ} : {A : Type ℓ} → Result A → Bool
fails (ok a) = false
fails (err e) = true

broken_runs : fails (load_skills host broken) ≡ true
unfolding skill_runs
broken_runs = refl

frontmatter_runs :
    frontmatter_text (codes "---\nname: a\n--- x\n---\t\r\nbody") ≡ some (codes "name: a\n--- x\n")
unfolding skill_runs
frontmatter_runs = refl

is_name_runs :
    map is_name ("a-b2" ∷ "a--b" ∷ "-a" ∷ "a-" ∷ "A" ∷ "" ∷ [])
    ≡ true ∷ false ∷ false ∷ false ∷ false ∷ false ∷ []
unfolding skill_runs
is_name_runs = refl

load_skills-IsServable_example : All IsServable loaded
load_skills-IsServable_example = load_skills-IsServable host dirs loaded load_skills_runs

-- A character of two bytes, a surrogate, an overlong form and a sequence that is cut off.
decode_strict_runs :
    (decode_strict (0xC3 ∷ 0xA9 ∷ []) ≡ some (0xE9 ∷ []))
    × (decode_strict (0xED ∷ 0xA0 ∷ 0x80 ∷ []) ≡ none)
    × (decode_strict (0xE0 ∷ 0x80 ∷ 0x80 ∷ []) ≡ none)
    × (decode_strict (65 ∷ 0xF0 ∷ 0x90 ∷ []) ≡ none)
unfolding decode_strict decode_strict_from feed_strict begin extend
decode_strict_runs = (refl, refl, refl, refl)
