-- ===== src/Upstream/Facts.antt =====
-- The two fact caches of src/bunkerweb_mcp/upstream.py. `time.monotonic` is a number of ticks, one
-- to the second; what the client answers is an argument. `get_setting_catalog` gives way to other
-- tasks while it waits for the plugin list, so it is two steps here, before and after the wait.
use bunkerweb_mcp.Prelude.{
  ℕ, ◌+◌, String, Bool, false, [], Option, none, some, ltb, eqb, if◌then◌else◌,
}
use bunkerweb_mcp.Prelude.Dict.{Dict, lookup, insert}
use bunkerweb_mcp.Json.{Value, str, arr, obj, Items, nil, cons, Fields, end, field, get, truthy}
use bunkerweb_mcp.Errors.{Result, ok, err}
use bunkerweb_mcp.Upstream.{UpstreamVersion, parse_version}

pub record SettingInfo : Type 0 where
  pub context : String
  pub multiple : Bool

abbrev pub Catalog : Type 0
Catalog = Dict SettingInfo

-- The module's globals: `_versions`, `_catalogs` and `_catalog_generation`.
pub record Facts : Type 0 where
  pub versions : Dict (ℕ × Option UpstreamVersion)
  pub catalogs : Dict (ℕ × Catalog)
  pub generation : ℕ

abbrev pub ttl : ℕ
ttl = 600

abbrev pub unknown_ttl : ℕ
unknown_ttl = 30

-- The entry that a cache still holds at `now`.
abbrev pub fresh {ℓ} : {A : Type ℓ} → ℕ → Option (ℕ × A) → Option A
fresh now none = none
fresh now (some (expiry, a)) = if ltb now expiry then some a else none

-- The version of an answer: an error of the client counts as an unknown version.
abbrev pub version_of : Result (Option String) → Option UpstreamVersion
unfolding parse_version
version_of (ok raw) = parse_version raw
version_of (err e) = none

abbrev pub ttl_of : Option UpstreamVersion → ℕ
ttl_of none = unknown_ttl
ttl_of (some v) = ttl

-- `now` is read before the request for the OpenAPI document, and `later` after it.
unfoldable pub get_upstream_version :
    Facts → String → ℕ → Result (Option String) → ℕ → Option UpstreamVersion × Facts
unfolding lookup insert parse_version
get_upstream_version facts base_url now answer later =
    elim (fresh now (lookup base_url facts.versions)) [
      | some version ↦ (version, facts)
      | none ↦
          let version = version_of answer in
          (
            version,
            record facts {
              versions = insert base_url (later + ttl_of version, version) facts.versions;
            },
          )
    ]

-- bool(setting.get("multiple"))
abbrev flag : Option Value → Bool
flag none = false
flag (some v) = truthy v

-- The facts of one setting, `none` where the loop raises ValueError.
unfoldable pub setting_info : Value → Option SettingInfo
unfolding get truthy
setting_info (obj setting) = elim (get "context" setting) [
  | none ↦ none
  | some context ↦ elim context [
    | str s ↦ some (record { context = s; multiple = flag (get "multiple" setting) })
    | _ ↦ none
  ]
]
setting_info v = none

-- The inner loop, over one plugin's settings.
unfoldable pub add_settings : Catalog → Fields → Option Catalog
unfolding setting_info insert
add_settings catalog end = some catalog
add_settings catalog (field setting_id setting settings) = elim (setting_info setting) [
  | none ↦ none
  | some info ↦ add_settings (insert setting_id info catalog) settings
]

abbrev pub plugin_settings : Value → Option Fields
plugin_settings (obj plugin) = elim (get "settings" plugin) [
  | none ↦ none
  | some v ↦ elim v [ obj settings ↦ some settings | _ ↦ none ]
]
plugin_settings v = none

-- The outer loop, over the plugins.
unfoldable pub add_plugins : Catalog → Items → Option Catalog
unfolding add_settings get
add_plugins catalog nil = some catalog
add_plugins catalog (cons plugin plugins) = elim (plugin_settings plugin) [
  | none ↦ none
  | some settings ↦ elim (add_settings catalog settings) [
    | none ↦ none
    | some catalog' ↦ add_plugins catalog' plugins
  ]
]

-- The catalog of a plugin list's `data`, `none` where it is malformed or the client raised.
unfoldable pub catalog_of : Result Value → Option Catalog
unfolding add_plugins
catalog_of (ok (arr plugins)) = add_plugins [] plugins
catalog_of (ok v) = none
catalog_of (err e) = none

-- Before the wait: the cached catalog, or the generation to which the request belongs.
pub data CatalogStart : Type 0 where
  cached : Catalog → CatalogStart
  requested : ℕ → CatalogStart

unfoldable pub start_catalog : Facts → String → Bool → ℕ → CatalogStart
unfolding lookup
start_catalog facts base_url refresh now = elim (fresh now (lookup base_url facts.catalogs)) [
  | none ↦ requested facts.generation
  | some catalog ↦ if refresh then requested facts.generation else cached catalog
]

-- After the wait: the answer is kept only if no invalidation came in between. `none` is
-- CatalogUnavailable.
unfoldable pub finish_catalog : Facts → String → ℕ → Result Value → ℕ → Option Catalog × Facts
unfolding insert catalog_of
finish_catalog facts base_url generation answer later = elim (catalog_of answer) [
  | none ↦ (none, facts)
  | some catalog ↦ (
    some catalog,
    if eqb generation facts.generation
        then record facts { catalogs = insert base_url (later + ttl, catalog) facts.catalogs }
        else facts,
  )
]

-- The call as a whole, when no other task runs during the wait.
unfoldable pub get_setting_catalog :
    Facts → String → Bool → ℕ → Result Value → ℕ → Option Catalog × Facts
unfolding start_catalog finish_catalog
get_setting_catalog facts base_url refresh now answer later =
    elim (start_catalog facts base_url refresh now) [
      | cached catalog ↦ (some catalog, facts)
      | requested generation ↦ finish_catalog facts base_url generation answer later
    ]

unfoldable pub invalidate_setting_catalog : Facts → Facts
invalidate_setting_catalog facts = record facts { catalogs = []; generation = facts.generation + 1 }

unfoldable pub reset_upstream_state : Facts → Facts
unfolding invalidate_setting_catalog
reset_upstream_state facts = invalidate_setting_catalog (record facts { versions = [] })
