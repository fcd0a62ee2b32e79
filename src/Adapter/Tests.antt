-- ===== src/Adapter/Tests.antt =====
-- A server with one skill over tools that fail, and the theorems at it.
use bunkerweb_mcp.Prelude.{◌≡◌, refl, String, true, false, [], ◌∷◌, map, none, some, All}
use bunkerweb_mcp.Prelude.Dict.{Dict, lookup, insert}
use bunkerweb_mcp.Json.{end, get}
use bunkerweb_mcp.Errors.{Result, ok, err, http_status_error}
use bunkerweb_mcp.Registry.Effects.{annotations, effect_for}
use bunkerweb_mcp.Registry.{
  Handler, get_tool, execute, execute_answer, tool_error, init_tools, wrapped_tools, register,
}
use bunkerweb_mcp.Skills.{SkillFile, SkillEntry}
use bunkerweb_mcp.Adapter.{
  McpServer, Surroundings, tool_reply, tool_callable, tool_entry, add_tools, skill_resource,
  skill_resources, tool_resource, data_resources, shown_config, search_tools, create_fastmcp_server,
}
use bunkerweb_mcp.Adapter.Promises.{
  IsReadOnly, IsContained, create_fastmcp_server-IsReadOnly, create_fastmcp_server-IsContained,
}

adapter_runs : Unit {0}
unfolding create_fastmcp_server add_tools tool_entry tool_callable tool_reply skill_resources
    skill_resource data_resources tool_resource shown_config search_tools get_tool execute
    execute_answer tool_error init_tools wrapped_tools register annotations effect_for lookup insert
    get
adapter_runs = tt

abbrev env : Surroundings
env = record {
  base_url = "http://api:8888";
  skills_enabled = true;
  model_validate = λ name v. ok end;
  dumps = λ fs. "{}";
  prompt_catalog = ("list_bans", "Look at the bans first.") ∷ [];
  search = some (λ v. ok end);
}

abbrev skill_md : SkillFile
skill_md = record {
  uri = "skill://bunkerweb/bunkerweb/SKILL.md";
  text = 45 ∷ 45 ∷ 45 ∷ [];
  size = 3;
  mime_type = "text/markdown";
}

abbrev skill : SkillEntry
skill = record {
  name = "bunkerweb";
  uri = "skill://bunkerweb/bunkerweb/SKILL.md";
  description = "How to run BunkerWeb.";
  files = skill_md ∷ [];
}

abbrev failing : String → Handler
failing name params = err (http_status_error 500 "boom")

abbrev registry : Dict Handler
registry = init_tools failing false none true

abbrev if_made : Result McpServer → McpServer
if_made (ok server) = server
if_made (err e) = record { instructions = ""; tools = []; prompts = []; resources = [] }

abbrev server : McpServer
server = if_made (create_fastmcp_server env (ok (skill ∷ [])) registry)

server_runs : create_fastmcp_server env (ok (skill ∷ [])) registry ≡ ok server
unfolding adapter_runs
server_runs = refl

resource_names_runs :
    map (λ r. r.name) server.resources
    ≡ "Global Configuration" ∷ "Job Execution History" ∷ "Active IP Bans" ∷ "Instance Status"
      ∷ "bunkerweb" ∷ []
unfolding adapter_runs
resource_names_runs = refl

create_fastmcp_server-IsReadOnly_example : All IsReadOnly server.tools
create_fastmcp_server-IsReadOnly_example =
    create_fastmcp_server-IsReadOnly env (ok (skill ∷ [])) failing false none server server_runs

create_fastmcp_server-IsContained_example : All IsContained server.resources
create_fastmcp_server-IsContained_example =
    create_fastmcp_server-IsContained env (ok (skill ∷ [])) registry server server_runs
