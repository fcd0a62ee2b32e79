-- ===== src/Upstream/Tests.antt =====
-- Versions and cached facts on concrete answers, and the theorems at them.
use bunkerweb_mcp.Prelude.{
  ◌≡◌, refl, true, false, not, List, [], ◌∷◌, none, some, codes, arith, ◌<>◌,
}
use bunkerweb_mcp.Prelude.Decimal.{show}
use bunkerweb_mcp.Prelude.Dict.{lookup, insert}
use bunkerweb_mcp.Json.{negsuc, bool, str, arr, obj, Items, nil, cons, end, field, get, truthy}
use bunkerweb_mcp.Errors.{ok, err, other_error}
use bunkerweb_mcp.Upstream.{
  version, version_le, with_suffix, parse_version, api_can_replace, rename_supported,
}
use bunkerweb_mcp.Upstream.Digits.{digit_value}
use bunkerweb_mcp.Upstream.Numerals.{starts_with_digit}
use bunkerweb_mcp.Upstream.Versions.{parse_version-show, api_can_replace_mono, with_suffix_bounds}
use bunkerweb_mcp.Upstream.Facts.{
  Facts, Catalog, fresh, catalog_of, get_upstream_version, get_setting_catalog,
  invalidate_setting_catalog,
}
use bunkerweb_mcp.Upstream.Freshness.{
  finished, invalidated, Event, run, invalidate-run, get_upstream_version_again,
}
use bunkerweb_mcp.Upstream.Declared.{declared_by, lookup-catalog_of}

upstream_runs : Unit {0}
unfolding version_le with_suffix parse_version api_can_replace rename_supported digit_value
    starts_with_digit catalog_of get_upstream_version get_setting_catalog lookup insert get truthy
    show
upstream_runs = tt

parse_versions :
    (parse_version (some "1.6.14") ≡ some (version 1 6 14))
    × (parse_version (some "1.6.14~rc1") ≡ some (version 1 6 13))
    × (parse_version (some "2.0.0-dev")
        ≡ some (record { major = 2; minor = negsuc 0; patch = 999 }))
    × (parse_version (some "1.6") ≡ none)
    × (parse_version (some "1.6.1\n") ≡ none)
unfolding upstream_runs
parse_versions = (refl, refl, refl, refl, refl)

replaceable :
    (api_can_replace "ui" (some (version 1 6 5)) ≡ false)
    × (api_can_replace "ui" (some (version 1 7 0)) ≡ true)
    × (api_can_replace "wizard" (some (version 1 6 13)) ≡ false)
    × (api_can_replace "default" none ≡ true)
unfolding upstream_runs
replaceable = (refl, refl, refl, refl)

rc_suffix : starts_with_digit (codes "~rc1") ≡ false
unfolding upstream_runs
rc_suffix = refl

parse_version-show_example :
    parse_version (some (show 1 <> ("." <> (show 6 <> ("." <> (show 14 <> "~rc1"))))))
    ≡ some (with_suffix 1 6 14 (codes "~rc1"))
parse_version-show_example = parse_version-show 1 6 14 "~rc1" rc_suffix refl

ui_at_1_6_6 :
    (version_le (version 1 6 6) (version 1 6 15) ≡ true)
    × (api_can_replace "ui" (some (version 1 6 6)) ≡ true)
    × (version_le (version 1 6 14) (version 1 6 13) ≡ false)
unfolding upstream_runs
ui_at_1_6_6 = (refl, refl, refl)

api_can_replace_mono_example : api_can_replace "ui" (some (version 1 6 15)) ≡ true
api_can_replace_mono_example =
    api_can_replace_mono "ui" (version 1 6 6) (version 1 6 15) ui_at_1_6_6.0 ui_at_1_6_6.1

-- A suffix at 2.0.0: above 1.99.7.
with_suffix_bounds_example :
    (version_le (with_suffix 2 0 0 (0x2D ∷ [])) (version 2 0 0) ≡ true)
    × (version_le (version 2 0 0) (with_suffix 2 0 0 (0x2D ∷ [])) ≡ false)
    × (version_le (version 1 99 7) (with_suffix 2 0 0 (0x2D ∷ []))
        ≡ not (version_le (version 2 0 0) (version 1 99 7)))
with_suffix_bounds_example = with_suffix_bounds 2 0 0 0x2D [] 1 99 7 (omega arith)

abbrev plugins : Items
plugins =
    cons
      (obj (
        field "settings"
          (obj (field "USE_ANTIBOT" (obj (field "context" (str "multisite") end)) end)) end))
      (cons
        (obj (
          field "settings"
            (obj (
              field "REVERSE_PROXY_URL"
                (obj (field "context" (str "multisite") (field "multiple" (bool true) end)))
                (field "USE_ANTIBOT" (obj (field "context" (str "global") end)) end)))
            end))
        nil)

abbrev catalog : Catalog
catalog =
    ("USE_ANTIBOT", record { context = "global"; multiple = false })
    ∷ ("REVERSE_PROXY_URL", record { context = "multisite"; multiple = true })
    ∷ []

catalog_of_plugins : catalog_of (ok (arr plugins)) ≡ some catalog
unfolding upstream_runs
catalog_of_plugins = refl

lookup-catalog_of_example : lookup "USE_ANTIBOT" catalog ≡ declared_by "USE_ANTIBOT" plugins none
lookup-catalog_of_example = lookup-catalog_of "USE_ANTIBOT" plugins catalog catalog_of_plugins

abbrev facts : Facts
facts = record { versions = []; catalogs = ("http://a", (700, catalog)) ∷ []; generation = 3 }

abbrev events : List Event
events =
    finished "http://a" 3 (ok (arr plugins)) 50
    ∷ invalidated
    ∷ finished "http://a" 2 (ok (arr plugins)) 60
    ∷ []

invalidate-run_example : (run (invalidate_setting_catalog facts) events).catalogs ≡ []
invalidate-run_example = invalidate-run facts events (omega arith, (tt, (omega arith, tt)))

no_version : fresh 0 (lookup "http://a" facts.versions) ≡ none
unfolding upstream_runs
no_version = refl

get_upstream_version_again_example :
    get_upstream_version
      (get_upstream_version facts "http://a" 0 (ok (some "1.6.6")) 2).1
      "http://a"
      5
      (err (other_error "down"))
      6
    ≡ get_upstream_version facts "http://a" 0 (ok (some "1.6.6")) 2
unfolding upstream_runs
get_upstream_version_again_example =
    get_upstream_version_again facts "http://a" 0 (ok (some "1.6.6")) 2 5 (err (other_error "down"))
      6 no_version (omega arith)
