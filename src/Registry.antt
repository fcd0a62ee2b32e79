-- ===== src/Registry.antt =====
-- src/bunkerweb_mcp/tools/registry.py: the tools that a server offers, and how a call runs.
pub mod Effects
pub mod Descriptions
pub mod Promises
mod Tests
use bunkerweb_mcp.Prelude.{
  String, Bool, true, false, List, [], ◌∷◌, Option, none, some, map, keep, if◌then◌else◌,
}
use bunkerweb_mcp.Prelude.Dict.{Dict, lookup, insert}
use bunkerweb_mcp.Json.{Value, Fields}
use bunkerweb_mcp.Errors.{
  Error, bunkerweb_error, tool_validation_error, tool_execution_error, http_status_error,
  request_error, other_error, message_of, Result, ok, err, ◌>>=◌, ◌>>◌,
}
use bunkerweb_mcp.Redaction.{RedactionPolicy}
use bunkerweb_mcp.Redaction.Calls.{check_call, redact_result, withheld_error}
use bunkerweb_mcp.Registry.Effects.{ToolEffect, effect_for}
use bunkerweb_mcp.Registry.Descriptions.{tool_descriptions}

-- A handler with its client, at one call: from the dump of the validated parameters to the result.
abbrev pub Handler : Type 0
Handler = Fields → Result Fields

abbrev pub tool_names : List String
tool_names =
    "create_api_token" ∷ "ping_api" ∷ "diagnose_bunkerweb" ∷ "list_instances" ∷ "ping_instances"
    ∷ "stop_instances" ∷ "get_instance" ∷ "create_instance" ∷ "update_instance" ∷ "delete_instances"
    ∷ "reload_instances" ∷ "list_bans" ∷ "ban_ips" ∷ "unban_ips" ∷ "list_services" ∷ "get_service"
    ∷ "create_service" ∷ "update_service" ∷ "delete_service" ∷ "get_global_config"
    ∷ "update_global_config" ∷ "list_configs" ∷ "get_config" ∷ "create_config" ∷ "update_config"
    ∷ "delete_configs" ∷ "create_configs_from_files" ∷ "update_config_from_file" ∷ "list_plugins"
    ∷ "install_plugins" ∷ "uninstall_plugin" ∷ "list_cache_files" ∷ "delete_cache_files"
    ∷ "get_cache_file" ∷ "list_jobs" ∷ "run_jobs" ∷ []

abbrev pub log_tool_names : List String
log_tool_names = "list_logs" ∷ "read_log" ∷ []

-- What the wrapper raises where the handler raised: tool errors pass, others are withheld.
unfoldable pub withhold : Error → Error
unfolding withheld_error
withhold (tool_validation_error m) = tool_validation_error m
withhold (tool_execution_error m) = tool_execution_error m
withhold e = withheld_error e

-- What the wrapper makes of what the handler returned or raised.
unfoldable pub redact_answer : RedactionPolicy → String → Result Fields → Result Fields
unfolding redact_result withhold
redact_answer policy name (ok result) = ok (redact_result policy name result)
redact_answer policy name (err e) = err (withhold e)

-- _redact: the handler runs only after the check.
unfoldable pub redact_handler : RedactionPolicy → String → Handler → Handler
unfolding check_call redact_answer
redact_handler policy name handler params =
    check_call policy name params >> redact_answer policy name (handler params)

unfoldable pub register : (String → Handler) → List String → Dict Handler → Dict Handler
unfolding insert
register handlers [] registry = registry
register handlers (name ∷ names) registry =
    register handlers names (insert name (handlers name) registry)

abbrev pub wrap : Option RedactionPolicy → String × Handler → String × Handler
wrap none entry = entry
wrap (some policy) entry = (entry.0, redact_handler policy entry.0 entry.1)

abbrev pub is_offered : Bool → String × Handler → Bool
is_offered all_read_only entry = if all_read_only then (effect_for entry.0).read_only else true

-- Tools.__init__ before the filter of `read_only`; `with_logs` where the path of the logs is
-- configured.
unfoldable pub wrapped_tools : (String → Handler) → Bool → Option RedactionPolicy → Dict Handler
unfolding register redact_handler
wrapped_tools handlers with_logs redaction =
    let core = register handlers tool_names [] in
    let registry = if with_logs then register handlers log_tool_names core else core in
    map (wrap redaction) registry

-- Tools.__init__
unfoldable pub init_tools : (String → Handler) → Bool → Option RedactionPolicy → Bool → Dict Handler
unfolding wrapped_tools effect_for
init_tools handlers with_logs redaction all_read_only =
    keep (is_offered all_read_only) (wrapped_tools handlers with_logs redaction)

-- What the executor raises for an exception of the handler.
unfoldable pub tool_error : Error → Error
tool_error (bunkerweb_error m s) = tool_execution_error m
tool_error (tool_validation_error m) = tool_validation_error m
tool_error (tool_execution_error m) = tool_execution_error m
tool_error e = tool_execution_error "Unexpected tool execution error"

unfoldable pub execute_answer : Result Fields → Result Fields
unfolding tool_error
execute_answer (ok result) = ok result
execute_answer (err e) = err (tool_error e)

-- The executor that `get_tool` returns; the second argument is what the tool's model makes of the
-- payload.
unfoldable pub execute : Handler → Result Fields → Result Fields
unfolding execute_answer
execute handler (err e) = err (tool_validation_error (message_of e))
execute handler (ok params) = execute_answer (handler params)

unfoldable pub get_tool :
    (String → Value → Result Fields) → Dict Handler → String → Option (Value → Result Fields)
unfolding lookup execute
get_tool model_validate registry name = elim (lookup name registry) [
  | none ↦ none
  | some handler ↦ some (λ payload. execute handler (model_validate name payload))
]

-- The metadata of a tool, less the schema that pydantic makes of its parameters. The description
-- is none where TOOL_DESCRIPTIONS[name] raises.
pub record Descriptor : Type 0 where
  pub name : String
  pub description : Option String
  pub read_only_tool : Bool
  pub destructive_tool : Bool
  pub prompt : Option String

-- An empty prompt is left out.
abbrev shown_prompt : Option String → Option String
shown_prompt none = none
shown_prompt (some String.[]) = none
shown_prompt (some text) = some text

unfoldable pub list_descriptors : Dict String → Dict Handler → List Descriptor
unfolding effect_for lookup
list_descriptors prompts [] = []
list_descriptors prompts ((tool, handler) ∷ registry) =
    record {
      name = tool;
      description = lookup tool tool_descriptions;
      read_only_tool = (effect_for tool).read_only;
      destructive_tool = (effect_for tool).destructive;
      prompt = shown_prompt (lookup tool prompts);
    }
    ∷ list_descriptors prompts registry
