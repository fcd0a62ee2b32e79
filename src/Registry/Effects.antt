-- ===== src/Registry/Effects.antt =====
-- `ToolEffect` and `TOOL_EFFECTS` of src/bunkerweb_mcp/tools/registry.py.
use bunkerweb_mcp.Prelude.{String, Bool, true, false, [], ◌∷◌, Option, none, some, if◌then◌else◌}
use bunkerweb_mcp.Prelude.Dict.{Dict, lookup}

pub record ToolEffect : Type 0 where
  pub read_only : Bool
  pub destructive : Bool

-- mcp.types.ToolAnnotations, as far as it is set
pub record ToolAnnotations : Type 0 where
  pub read_only_hint : Bool
  pub destructive_hint : Option Bool

unfoldable pub annotations : ToolEffect → ToolAnnotations
annotations e =
    if e.read_only
    then record { read_only_hint = true; destructive_hint = none }
    else record { read_only_hint = false; destructive_hint = some e.destructive }

abbrev pub tool_effects : Dict ToolEffect
tool_effects =
    ("ping_api", record { read_only = true; destructive = false })
    ∷ ("list_instances", record { read_only = true; destructive = false })
    ∷ ("ping_instances", record { read_only = true; destructive = false })
    ∷ ("get_instance", record { read_only = true; destructive = false })
    ∷ ("list_bans", record { read_only = true; destructive = false })
    ∷ ("list_services", record { read_only = true; destructive = false })
    ∷ ("get_service", record { read_only = true; destructive = false })
    ∷ ("get_global_config", record { read_only = true; destructive = false })
    ∷ ("list_configs", record { read_only = true; destructive = false })
    ∷ ("get_config", record { read_only = true; destructive = false })
    ∷ ("list_plugins", record { read_only = true; destructive = false })
    ∷ ("list_cache_files", record { read_only = true; destructive = false })
    ∷ ("get_cache_file", record { read_only = true; destructive = false })
    ∷ ("list_jobs", record { read_only = true; destructive = false })
    ∷ ("list_logs", record { read_only = true; destructive = false })
    ∷ ("read_log", record { read_only = true; destructive = false })
    ∷ ("search_bunkerweb_docs", record { read_only = true; destructive = false })
    ∷ ("diagnose_bunkerweb", record { read_only = true; destructive = false })
    ∷ ("create_api_token", record { read_only = false; destructive = false })
    ∷ ("create_instance", record { read_only = false; destructive = false })
    ∷ ("ban_ips", record { read_only = false; destructive = false })
    ∷ ("create_service", record { read_only = false; destructive = false })
    ∷ ("run_jobs", record { read_only = false; destructive = false })
    ∷ ("create_config", record { read_only = false; destructive = true })
    ∷ ("create_configs_from_files", record { read_only = false; destructive = true })
    ∷ ("stop_instances", record { read_only = false; destructive = true })
    ∷ ("update_instance", record { read_only = false; destructive = true })
    ∷ ("delete_instances", record { read_only = false; destructive = true })
    ∷ ("reload_instances", record { read_only = false; destructive = true })
    ∷ ("unban_ips", record { read_only = false; destructive = true })
    ∷ ("update_service", record { read_only = false; destructive = true })
    ∷ ("delete_service", record { read_only = false; destructive = true })
    ∷ ("update_global_config", record { read_only = false; destructive = true })
    ∷ ("update_config", record { read_only = false; destructive = true })
    ∷ ("delete_configs", record { read_only = false; destructive = true })
    ∷ ("update_config_from_file", record { read_only = false; destructive = true })
    ∷ ("install_plugins", record { read_only = false; destructive = true })
    ∷ ("uninstall_plugin", record { read_only = false; destructive = true })
    ∷ ("delete_cache_files", record { read_only = false; destructive = true })
    ∷ []

-- A tool that the table does not name counts as destructive.
unfoldable pub effect_for : String → ToolEffect
unfolding lookup
effect_for name = elim (lookup name tool_effects) [
  | none ↦ record { read_only = false; destructive = true }
  | some e ↦ e
]
