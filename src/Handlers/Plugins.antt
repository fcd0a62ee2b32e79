-- ===== src/Handlers/Plugins.antt =====
-- src/bunkerweb_mcp/tools/plugin_handlers.py
use bunkerweb_mcp.Prelude.{ℕ, String, List}
use bunkerweb_mcp.Json.{Value}
use bunkerweb_mcp.Errors.{Result, ok, err}
use bunkerweb_mcp.Client.Resources.{list_plugins, upload_plugins, delete_plugin}
use bunkerweb_mcp.Upstream.Facts.{invalidate_setting_catalog}
use bunkerweb_mcp.Handlers.Params.{PluginListParams, PluginUploadParams, all_bytes}
use bunkerweb_mcp.Handlers.{Env, Action, serialize, passing}

module _ {S : Type 0} (e : Env) where
  unfoldable pub handle_list_plugins : PluginListParams → Action S
  unfolding list_plugins serialize
  handle_list_plugins p = passing e (list_plugins e.client p.type p.with_data)

  -- try: ... finally: invalidate_setting_catalog()
  abbrev pub invalidating : Result Value → Action S
  invalidating answer s =
      (serialize e answer, record { cached = s.cached; facts = invalidate_setting_catalog s.facts })

  -- Files that cannot be decoded fail before the `try`.
  abbrev pub upload : String → Result (List (String × List ℕ)) → Action S
  upload method (err x) s = (err x, s)
  upload method (ok files) s = invalidating (upload_plugins e.client files method) s

  unfoldable pub handle_upload_plugins : PluginUploadParams → Action S
  unfolding all_bytes upload_plugins invalidate_setting_catalog serialize
  handle_upload_plugins p = upload p.method (all_bytes p.files)

  unfoldable pub handle_delete_plugin : String → Action S
  unfolding delete_plugin invalidate_setting_catalog serialize
  handle_delete_plugin plugin_id = invalidating (delete_plugin e.client plugin_id)
