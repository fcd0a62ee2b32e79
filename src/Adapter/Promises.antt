-- ===== src/Adapter/Promises.antt =====
-- What the MCP server of src/bunkerweb_mcp/mcp_adapter.py declares of its tools, and what its
-- resources may raise.
use bunkerweb_mcp.Prelude.{
  ◌≡◌, refl, subst, String, Bool, true, List, [], ◌∷◌, map, Option, none, some, keep, All,
  All-append, Bool-cases, Option-cases, inl, inr,
}
use bunkerweb_mcp.Prelude.Dict.{Dict, lookup}
use bunkerweb_mcp.Json.{Value, Fields}
use bunkerweb_mcp.Errors.{
  Error, bunkerweb_error, tool_validation_error, tool_execution_error, http_status_error,
  request_error, other_error, Result, ok, err, ok-injective, Result-cases, >>=-eq-ok,
}
use bunkerweb_mcp.Redaction.{RedactionPolicy}
use bunkerweb_mcp.Registry.Effects.{annotations, effect_for}
use bunkerweb_mcp.Registry.Descriptions.{tool_descriptions}
use bunkerweb_mcp.Registry.{Handler, get_tool, execute, init_tools, wrapped_tools, is_offered}
use bunkerweb_mcp.Registry.Promises.{is_tool_error, execute-error}
use bunkerweb_mcp.Skills.{SkillFile, SkillEntry}
use bunkerweb_mcp.Adapter.{
  Reply, returned, tool_failed, resource_failed, raised, ToolEntry, PromptEntry, fixed, computed,
  Resource, McpServer, Surroundings, description_or_error, tool_entry, add_tools, skill_resource,
  skill_resources, resource_reply, tool_resource, data_resources, search_tools, enabled_skills,
  create_fastmcp_server,
}

-- The tool is declared read-only to the client.
abbrev pub IsReadOnly : ToolEntry → Type 0
IsReadOnly tool = tool.hints.read_only_hint ≡ true

-- The registered tool has the effect of a read.
abbrev IsRead : String × Handler → Type 0
IsRead entry = (effect_for entry.0).read_only ≡ true

annotations-read_only :
    (name : String)
    → (effect_for name).read_only ≡ true
    → (annotations (effect_for name)).read_only_hint ≡ true
unfolding annotations
annotations-read_only name h = rw (annotations, h) refl

keep-IsRead : (d : Dict Handler) → All IsRead (keep (is_offered true) d)
keep-IsRead [] = tt
keep-IsRead ((tool, handler) ∷ d) = elim (Bool-cases (effect_for tool).read_only) [
  | inl h ↦ rw h (h, keep-IsRead d)
  | inr h ↦ rw h (keep-IsRead d)
]

init_tools-IsRead :
    (handlers : String → Handler) (with_logs : Bool) (redaction : Option RedactionPolicy)
    → All IsRead (init_tools handlers with_logs redaction true)
unfolding init_tools
init_tools-IsRead handlers with_logs redaction =
    keep-IsRead (wrapped_tools handlers with_logs redaction)

add_tools-IsReadOnly :
    (env : Surroundings) (registry : Dict Handler) (added : List ToolEntry × List PromptEntry)
    → All IsRead registry
    → add_tools env registry ≡ ok added
    → All IsReadOnly added.0
unfolding add_tools tool_entry annotations
add_tools-IsReadOnly env [] added h e = subst (λ a. All IsReadOnly a.0) (ok-injective _ _ e) tt
add_tools-IsReadOnly env ((tool, handler) ∷ registry) added (h, hs) e =
    let (text, described, e1) =
      >>=-eq-ok (description_or_error (lookup tool tool_descriptions)) _ e in
    let (rest, later, e2) = >>=-eq-ok (add_tools env registry) _ e1 in
    subst (λ a. All IsReadOnly a.0) (ok-injective _ _ e2)
      (annotations-read_only tool h, add_tools-IsReadOnly env registry rest hs later)

search_tools-IsReadOnly :
    (search : Option (Value → Result Fields)) → All IsReadOnly (search_tools search)
unfolding search_tools annotations effect_for lookup
search_tools-IsReadOnly none = tt
search_tools-IsReadOnly (some search) = (refl, tt)

-- A read-only server declares every tool that it offers as read-only to its clients, the search of
-- the documentation included, whatever else is configured.
pub create_fastmcp_server-IsReadOnly :
    (env : Surroundings) (loaded : Result (List SkillEntry)) (handlers : String → Handler)
    (with_logs : Bool) (redaction : Option RedactionPolicy) (server : McpServer)
    → create_fastmcp_server env loaded (init_tools handlers with_logs redaction true) ≡ ok server
    → All IsReadOnly server.tools
unfolding create_fastmcp_server
create_fastmcp_server-IsReadOnly env loaded handlers with_logs redaction server h =
    let registry = init_tools handlers with_logs redaction true in
    let (skills, found, h1) = >>=-eq-ok (enabled_skills env.skills_enabled loaded) _ h in
    let (added, e, h2) = >>=-eq-ok (add_tools env registry) _ h1 in
    subst (λ s. All IsReadOnly s.tools) (ok-injective _ server h2)
      (All-append IsReadOnly added.0 (search_tools env.search)
        (add_tools-IsReadOnly env registry added (init_tools-IsRead handlers with_logs redaction) e)
        (search_tools-IsReadOnly env.search))

-- A text, or a ResourceError.
abbrev pub IsGraceful : Reply String → Type 0
IsGraceful (returned text) = Unit {0}
IsGraceful (tool_failed m) = ⊥
IsGraceful (resource_failed m) = Unit {0}
IsGraceful (raised e) = ⊥

-- Reading the resource gives a text, or fails with a ResourceError.
abbrev pub IsContained : Resource → Type 0
IsContained r = elim r.body [ fixed text ↦ Unit {0} | computed reply ↦ IsGraceful reply ]

resource_reply-error :
    (show : Fields → String) (e : Error)
    → is_tool_error e ≡ true
    → IsGraceful (resource_reply show (err e))
unfolding is_tool_error
resource_reply-error show (bunkerweb_error m s) h = absurd (cc)
resource_reply-error show (tool_validation_error m) h = tt
resource_reply-error show (tool_execution_error m) h = tt
resource_reply-error show (http_status_error c m) h = absurd (cc)
resource_reply-error show (request_error m) h = absurd (cc)
resource_reply-error show (other_error m) h = absurd (cc)

tool_resource-IsGraceful :
    (model_validate : String → Value → Result Fields) (registry : Dict Handler)
    (show : Fields → String) (name tool : String) (arguments : Value)
    → IsGraceful (tool_resource show name arguments (get_tool model_validate registry tool))
unfolding get_tool tool_resource
tool_resource-IsGraceful model_validate registry show name tool arguments =
    elim (Option-cases (lookup tool registry)) [
      | inl h ↦ rw (get_tool, h) tt
      | inr (handler, h) ↦ elim (Result-cases (execute handler (model_validate tool arguments))) [
        | inl (result, e) ↦ rw (get_tool, h, e) tt
        | inr (x, e) ↦
            rw (get_tool, h, e)
              (resource_reply-error show x
                (execute-error handler (model_validate tool arguments) x e))
      ]
    ]

skill_files-IsContained :
    (skill : SkillEntry) (files : List SkillFile)
    → All IsContained (map (skill_resource skill) files)
unfolding skill_resource
skill_files-IsContained skill [] = tt
skill_files-IsContained skill (file ∷ files) = (tt, skill_files-IsContained skill files)

skill_resources-IsContained : (skills : List SkillEntry) → All IsContained (skill_resources skills)
unfolding skill_resources
skill_resources-IsContained [] = tt
skill_resources-IsContained (skill ∷ skills) =
    All-append IsContained (map (skill_resource skill) skill.files) (skill_resources skills)
      (skill_files-IsContained skill skill.files) (skill_resources-IsContained skills)

data_resources-IsContained :
    (env : Surroundings) (registry : Dict Handler) → All IsContained (data_resources env registry)
unfolding data_resources
data_resources-IsContained env registry = (
  graceful _ "get_global_config" _,
  (graceful _ "list_jobs" _, (graceful _ "list_bans" _, (graceful _ "list_instances" _, tt))),
)
  where
    graceful :
        (show : Fields → String) (name : String) (arguments : Value)
        → IsGraceful (tool_resource show name arguments (get_tool env.model_validate registry name))
    graceful show name arguments =
        tool_resource-IsGraceful env.model_validate registry show name name arguments

-- Whatever its tools raise, reading a resource of the server gives a text or fails with a
-- ResourceError, and no other exception leaves it; this holds for whatever registry of tools the
-- server is made of.
pub create_fastmcp_server-IsContained :
    (env : Surroundings) (loaded : Result (List SkillEntry)) (registry : Dict Handler)
    (server : McpServer)
    → create_fastmcp_server env loaded registry ≡ ok server
    → All IsContained server.resources
unfolding create_fastmcp_server
create_fastmcp_server-IsContained env loaded registry server h =
    let (skills, found, h1) = >>=-eq-ok (enabled_skills env.skills_enabled loaded) _ h in
    let (added, e, h2) = >>=-eq-ok (add_tools env registry) _ h1 in
    subst (λ s. All IsContained s.resources) (ok-injective _ server h2)
      (All-append IsContained (data_resources env registry) (skill_resources skills)
        (data_resources-IsContained env registry) (skill_resources-IsContained skills))
