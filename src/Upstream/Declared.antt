-- ===== src/Upstream/Declared.antt =====
-- The setting catalog against a description of it: the last declaration of a setting counts.
use bunkerweb_mcp.Prelude.{
  ◌≡◌, ◌∙◌, refl, ap, inl, inr, String, [], Option, none, some, ◌==◌, arith, Option-cases,
  if◌then◌else◌,
}
use bunkerweb_mcp.Prelude.Dict.{lookup, insert, lookup-insert}
use bunkerweb_mcp.Json.{Value, arr, Items, nil, cons, Fields, end, field}
use bunkerweb_mcp.Errors.{ok}
use bunkerweb_mcp.Upstream.Facts.{
  SettingInfo, Catalog, setting_info, add_settings, plugin_settings, add_plugins, catalog_of,
}

-- The last of the declarations of `key` among one plugin's settings, and `before` if there is none.
unfoldable pub declared : String → Fields → Option SettingInfo → Option SettingInfo
declared key end before = before
declared key (field setting_id setting settings) before =
    declared key settings (if setting_id == key then setting_info setting else before)

settings_of : Option Fields → Fields
settings_of none = end
settings_of (some fs) = fs

-- The same over all plugins, in their order.
unfoldable pub declared_by : String → Items → Option SettingInfo → Option SettingInfo
unfolding settings_of
declared_by key nil before = before
declared_by key (cons plugin plugins) before =
    declared_by key plugins (declared key (settings_of (plugin_settings plugin)) before)

-- One step of the inner loop that does not end it.
add_settings-field :
    (catalog catalog' : Catalog) (setting_id : String) (setting : Value) (settings : Fields)
    → add_settings catalog (field setting_id setting settings) ≡ some catalog'
    → (info : SettingInfo) × (setting_info setting ≡ some info)
      × (add_settings (insert setting_id info catalog) settings ≡ some catalog')
add_settings-field catalog catalog' setting_id setting settings h =
    elim (Option-cases (setting_info setting)) [
      | inl e ↦ unfold add_settings in let g = rw (e, add_settings) at h in absurd (cc)
      | inr (info, e) ↦ (info, e, unfold add_settings in rw (e, add_settings) at h)
    ]

lookup-add_settings :
    (key : String) (catalog catalog' : Catalog) (settings : Fields)
    → add_settings catalog settings ≡ some catalog'
    → lookup key catalog' ≡ declared key settings (lookup key catalog)
unfolding declared
lookup-add_settings key catalog catalog' end h = unfold add_settings in ground arith
lookup-add_settings key catalog catalog' (field setting_id setting settings) h =
    let (info, e, g) = add_settings-field catalog catalog' setting_id setting settings h in
    lookup-add_settings key (insert setting_id info catalog) catalog' settings g
    ∙ ap (declared key settings) (lookup-insert setting_id key info catalog ∙ rw e refl)

add_plugins-cons :
    (catalog catalog' : Catalog) (plugin : Value) (plugins : Items)
    → add_plugins catalog (cons plugin plugins) ≡ some catalog'
    → (settings : Fields) × (plugin_settings plugin ≡ some settings)
      × (between : Catalog) × (add_settings catalog settings ≡ some between)
      × (add_plugins between plugins ≡ some catalog')
add_plugins-cons catalog catalog' plugin plugins h = elim (Option-cases (plugin_settings plugin)) [
  | inl e ↦ unfold add_plugins in let g = rw (e, add_plugins) at h in absurd (cc)
  | inr (settings, e) ↦ elim (Option-cases (add_settings catalog settings)) [
    | inl f ↦ unfold add_plugins in let g = rw (e, add_plugins, f) at h in absurd (cc)
    | inr (between, f) ↦
        (settings, e, between, f, unfold add_plugins in rw (e, add_plugins, f) at h)
  ]
]

lookup-add_plugins :
    (key : String) (catalog catalog' : Catalog) (plugins : Items)
    → add_plugins catalog plugins ≡ some catalog'
    → lookup key catalog' ≡ declared_by key plugins (lookup key catalog)
unfolding declared_by
lookup-add_plugins key catalog catalog' nil h = unfold add_plugins in ground arith
lookup-add_plugins key catalog catalog' (cons plugin plugins) h =
    let (settings, e, between, f, g) = add_plugins-cons catalog catalog' plugin plugins h in
    lookup-add_plugins key between catalog' plugins g
    ∙ ap (declared_by key plugins) (lookup-add_settings key catalog between settings f ∙ rw e refl)

-- The catalog of a well-formed plugin list holds for every setting the context and the multiplicity
-- that the last declaration of it in the list states, and nothing for a setting that none declares.
pub lookup-catalog_of :
    (key : String) (plugins : Items) (catalog : Catalog)
    → catalog_of (ok (arr plugins)) ≡ some catalog
    → lookup key catalog ≡ declared_by key plugins none
unfolding catalog_of
lookup-catalog_of key plugins catalog h =
    lookup-add_plugins key [] catalog plugins h ∙ unfold lookup in refl
