-- ===== src/Handlers/Keys.antt =====
-- The reads that the handlers of src/bunkerweb_mcp/tools/ cache, and their keys.
use bunkerweb_mcp.Prelude.{
  ℕ, zero, suc, ◌+◌, ◌*◌, ◌≡◌, refl, ap, sym, ◌∙◌, String, Bool, true, false, List, [], ◌∷◌, ◌<>◌,
  codes, codes-append, arith,
}
use bunkerweb_mcp.Handlers.Params.{GetServiceParams, GlobalConfigReadParams}
use bunkerweb_mcp.Handlers.{show_flag}
use bunkerweb_mcp.Handlers.Services.{get_service_key}
use Prim.Native.String.{count}
use text.Mathlib.TextLemmas.{
  append_cancel_left, append_cancel_right, append_inj, append_assoc, length-append,
}

-- The tools that read through the cache, with what their keys depend on.
pub data Read : Type 0 where
  services : Bool → Read
  service : GetServiceParams → Read
  bans : Read
  instances : Read
  instance_of : String → Read
  global_config : GlobalConfigReadParams → Read

abbrev pub key_of : Read → String
key_of (services b) = "list_services:" <> show_flag b
key_of (service p) = get_service_key p
key_of bans = "list_bans"
key_of instances = "list_instances"
key_of (instance_of h) = "instance_get:" <> h
key_of (global_config p) = "global_config_read:" <> show_flag p.full <> ":" <> show_flag p.methods

-- Some characters of a text tell the tools apart.
abbrev nth : ℕ → List ℕ → ℕ
nth n [] = 0
nth zero (c ∷ s) = c
nth (suc n) (c ∷ s) = nth n s

abbrev tag : List ℕ → ℕ
tag s = nth 0 s + 1000 * nth 1 s + 1000000 * nth 5 s

-- The tags of the keys, from those of the names.
abbrev tag_of : Read → ℕ
tag_of (services b) = tag (codes "list_services:")
tag_of (service p) = tag (codes "get_service:")
tag_of bans = tag (codes "list_bans")
tag_of instances = tag (codes "list_instances")
tag_of (instance_of h) = tag (codes "instance_get:")
tag_of (global_config p) = tag (codes "global_config_read:")

tag-key_of : (r : Read) → tag (codes (key_of r)) ≡ tag_of r
tag-key_of (services b) = rw (codes-append "list_services:" (show_flag b)) refl
tag-key_of (service p) = rw (codes-append "get_service:" _) refl
tag-key_of bans = refl
tag-key_of instances = refl
tag-key_of (instance_of h) = rw (codes-append "instance_get:" h) refl
tag-key_of (global_config p) = rw (codes-append "global_config_read:" _) refl

counts : (s t : String) → s <> "True" ≡ t <> "False" → count s ≡ count (t <> "F")
counts s t h =
    omega (arith, ap count h, length-append s "True", length-append t "False", length-append t "F")

flags_differ : (s t : String) → s <> "True" ≡ t <> "False" → ⊥
flags_differ s t h =
    let g = h ∙ sym (append_assoc t "F" "alse") in
    let first = (append_inj g (counts s t h)).1 in
    absurd (omega (arith, ap (λ u. nth 0 (codes u)) first))

flag_suffix : (a b : Bool) (s t : String) → s <> show_flag a ≡ t <> show_flag b → (s ≡ t) × (a ≡ b)
flag_suffix true true s t h = (append_cancel_right s t "True" h, refl)
flag_suffix false false s t h = (append_cancel_right s t "False" h, refl)
flag_suffix true false s t h = absurd (flags_differ s t h)
flag_suffix false true s t h = absurd (flags_differ t s (sym h))

-- A flag and the colon before it, at the end of a key.
colon_flag_suffix :
    (a b : Bool) (s t : String)
    → s <> ":" <> show_flag a ≡ t <> ":" <> show_flag b
    → (s ≡ t) × (a ≡ b)
colon_flag_suffix a b s t h =
    let (e, f) =
      flag_suffix a b (s <> ":") (t <> ":")
        (append_assoc s ":" (show_flag a) ∙ h ∙ sym (append_assoc t ":" (show_flag b))) in
    (append_cancel_right s t ":" e, f)

-- A key with its flags at the end, one after the other.
abbrev key_from : String → Bool → Bool → Bool → String
key_from s a b c = ((s <> ":" <> show_flag a) <> ":" <> show_flag b) <> ":" <> show_flag c

get_service_key_lem :
    (p : GetServiceParams)
    → get_service_key p ≡ key_from ("get_service:" <> p.service) p.full p.methods p.with_drafts
get_service_key_lem p = simp (append_assoc)

global_config_key_lem :
    (s : String) (a b : Bool)
    → s <> show_flag a <> ":" <> show_flag b ≡ (s <> show_flag a) <> ":" <> show_flag b
global_config_key_lem s a b = simp (append_assoc)

service-injective : (p q : GetServiceParams) → get_service_key p ≡ get_service_key q → p ≡ q
service-injective p q h =
    let h0 = sym (get_service_key_lem p) ∙ h ∙ get_service_key_lem q in
    let (h1, drafts) = colon_flag_suffix p.with_drafts q.with_drafts _ _ h0 in
    let (h2, methods) = colon_flag_suffix p.methods q.methods _ _ h1 in
    let (h3, full) = colon_flag_suffix p.full q.full _ _ h2 in
    let same = append_cancel_left "get_service:" p.service q.service h3 in
    λ i. record { service = same i; full = full i; methods = methods i; with_drafts = drafts i }

global_config-injective :
    (p q : GlobalConfigReadParams) → key_of (global_config p) ≡ key_of (global_config q) → p ≡ q
global_config-injective p q h =
    let h0 =
      sym (global_config_key_lem "global_config_read:" p.full p.methods)
      ∙ h
      ∙ global_config_key_lem "global_config_read:" q.full q.methods in
    let (h1, methods) = colon_flag_suffix p.methods q.methods _ _ h0 in
    let (h2, full) = flag_suffix p.full q.full "global_config_read:" "global_config_read:" h1 in
    λ i. record { full = full i; methods = methods i }

tags_differ : (a b : Read) → key_of a ≡ key_of b → tag_of a ≡ tag_of b
tags_differ a b h = sym (tag-key_of a) ∙ ap (λ s. tag (codes s)) h ∙ tag-key_of b

-- Two cached reads have the same key only if they are the same read: the same tool, with the same
-- arguments. A service's name may contain colons, and the keys still tell the flags after it apart.
pub key_of-injective : (a b : Read) → key_of a ≡ key_of b → a ≡ b
key_of-injective (services a) (services b) h =
    ap services (flag_suffix a b "list_services:" "list_services:" h).1
key_of-injective (service p) (service q) h = ap service (service-injective p q h)
key_of-injective bans bans h = refl
key_of-injective instances instances h = refl
key_of-injective (instance_of h) (instance_of k) e =
    ap instance_of (append_cancel_left "instance_get:" h k e)
key_of-injective (global_config p) (global_config q) h =
    ap global_config (global_config-injective p q h)
key_of-injective (services b) (service p') e =
    absurd (omega (arith, tags_differ (services b) (service p') e))
key_of-injective (services b) bans e = absurd (omega (arith, tags_differ (services b) bans e))
key_of-injective (services b) instances e =
    absurd (omega (arith, tags_differ (services b) instances e))
key_of-injective (services b) (instance_of h') e =
    absurd (omega (arith, tags_differ (services b) (instance_of h') e))
key_of-injective (services b) (global_config p') e =
    absurd (omega (arith, tags_differ (services b) (global_config p') e))
key_of-injective (service p) (services b') e =
    absurd (omega (arith, tags_differ (service p) (services b') e))
key_of-injective (service p) bans e = absurd (omega (arith, tags_differ (service p) bans e))
key_of-injective (service p) instances e =
    absurd (omega (arith, tags_differ (service p) instances e))
key_of-injective (service p) (instance_of h') e =
    absurd (omega (arith, tags_differ (service p) (instance_of h') e))
key_of-injective (service p) (global_config p') e =
    absurd (omega (arith, tags_differ (service p) (global_config p') e))
key_of-injective bans (services b') e = absurd (omega (arith, tags_differ bans (services b') e))
key_of-injective bans (service p') e = absurd (omega (arith, tags_differ bans (service p') e))
key_of-injective bans instances e = absurd (omega (arith, tags_differ bans instances e))
key_of-injective bans (instance_of h') e =
    absurd (omega (arith, tags_differ bans (instance_of h') e))
key_of-injective bans (global_config p') e =
    absurd (omega (arith, tags_differ bans (global_config p') e))
key_of-injective instances (services b') e =
    absurd (omega (arith, tags_differ instances (services b') e))
key_of-injective instances (service p') e =
    absurd (omega (arith, tags_differ instances (service p') e))
key_of-injective instances bans e = absurd (omega (arith, tags_differ instances bans e))
key_of-injective instances (instance_of h') e =
    absurd (omega (arith, tags_differ instances (instance_of h') e))
key_of-injective instances (global_config p') e =
    absurd (omega (arith, tags_differ instances (global_config p') e))
key_of-injective (instance_of h) (services b') e =
    absurd (omega (arith, tags_differ (instance_of h) (services b') e))
key_of-injective (instance_of h) (service p') e =
    absurd (omega (arith, tags_differ (instance_of h) (service p') e))
key_of-injective (instance_of h) bans e = absurd (omega (arith, tags_differ (instance_of h) bans e))
key_of-injective (instance_of h) instances e =
    absurd (omega (arith, tags_differ (instance_of h) instances e))
key_of-injective (instance_of h) (global_config p') e =
    absurd (omega (arith, tags_differ (instance_of h) (global_config p') e))
key_of-injective (global_config p) (services b') e =
    absurd (omega (arith, tags_differ (global_config p) (services b') e))
key_of-injective (global_config p) (service p') e =
    absurd (omega (arith, tags_differ (global_config p) (service p') e))
key_of-injective (global_config p) bans e =
    absurd (omega (arith, tags_differ (global_config p) bans e))
key_of-injective (global_config p) instances e =
    absurd (omega (arith, tags_differ (global_config p) instances e))
key_of-injective (global_config p) (instance_of h') e =
    absurd (omega (arith, tags_differ (global_config p) (instance_of h') e))
