-- ===== src/Server.antt =====
-- src/bunkerweb_mcp/main.py: the token check, the readiness probe and what the endpoints share.
-- The endpoints are in Server/Rpc.antt and Server/Socket.antt.
pub mod Rpc
pub mod Socket
pub mod Access
pub mod Connections
mod Tests
use bunkerweb_mcp.Prelude.{
  ℕ, String, Bool, true, false, not, ◌&&◌, List, [], ◌∷◌, Option, none, some, ◌==◌, eqb,
  if◌then◌else◌,
}
use bunkerweb_mcp.Json.{Value, null, str, obj, Fields, end, field, get}
use bunkerweb_mcp.Errors.{Result}
use bunkerweb_mcp.Client.Nodes.{utf8_text}

abbrev same_bytes : List ℕ → List ℕ → Bool
same_bytes [] [] = true
same_bytes (a ∷ xs) (b ∷ ys) = eqb a b && same_bytes xs ys
same_bytes xs ys = false

-- The provided token as bytes: of a header they are its own, of a query parameter its UTF-8.
unfoldable pub token_matches : List ℕ → String → Bool
token_matches provided expected = same_bytes provided (utf8_text expected)

-- Whether `_check_token` lets a request pass; an empty expected token counts as none.
unfoldable pub check_token : Option (List ℕ) → Option String → Bool
unfolding token_matches
check_token provided none = true
check_token none (some expected) = expected == ""
check_token (some token) (some expected) =
    if expected == "" then true else token_matches token expected

-- What the endpoints use of the application: `get_tool` of the registry at one call, the prompts,
-- and the tools of the FastMCP server (none where it has no tool manager), which `**params` calls.
-- `str_of` is what an f-string makes of a value.
pub record App : Type 0 where
  pub expected_token : Option String
  pub rate_limit_enabled : Bool
  pub get_tool : String → Option (Value → Result Fields)
  pub get_prompt : String → Option String
  pub fastmcp_tool : Option (Value → Option (Fields → Result Value))
  pub str_of : Value → String

-- payload.get("params", {})
abbrev pub params_of : Fields → Value
params_of payload = elim (get "params" payload) [ none ↦ obj end | some params ↦ params ]

-- payload.get(key)
abbrev pub get_or_null : String → Fields → Value
get_or_null key payload = elim (get key payload) [ none ↦ null | some value ↦ value ]

abbrev prompt_field : Option String → Fields
prompt_field none = end
prompt_field (some text) = if text == "" then end else field "prompt" (str text) end

-- {"id": request_id, "result": result}, with the prompt of the tool if it is not empty
unfoldable pub result_payload : Value → Value → Option String → Value
result_payload request_id result prompt =
    obj (field "id" request_id (field "result" result (prompt_field prompt)))

abbrev is_200 : Option ℕ → Bool
is_200 none = false
is_200 (some status) = eqb status 200

-- The status codes that the two probes got, `none` where the request failed; the second is made in
-- remote mode only. The result is the status code and the two checks.
unfoldable pub readiness : String → Option ℕ → Option ℕ → ℕ × Bool × Bool
readiness search_mode api search =
    let bunkerweb_api = is_200 api in
    let search_service = if search_mode == "remote" then is_200 search else true in
    (if bunkerweb_api && search_service then 200 else 503, bunkerweb_api, search_service)
