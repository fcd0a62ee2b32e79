-- ===== src/Server/Rpc.antt =====
-- `rpc_endpoint` of src/bunkerweb_mcp/main.py.
use bunkerweb_mcp.Prelude.{
  ℕ, String, Bool, not, ◌&&◌, List, Option, none, some, ◌<>◌, if◌then◌else◌,
}
use bunkerweb_mcp.Json.{Value, str, arr, obj, Fields, get, truthy}
use bunkerweb_mcp.Errors.{
  tool_validation_error, tool_execution_error, bunkerweb_error, http_status_error, request_error,
  other_error, Result, ok, err,
}
use bunkerweb_mcp.Server.{App, check_token, params_of, get_or_null, result_payload}

-- The body of a request, as `request.json()` reads it.
pub data Body : Type 0 where
  json : Value → Body
  -- json.JSONDecodeError
  invalid_json : Body
  -- UnicodeDecodeError: the bytes are no text
  invalid_text : Body

-- `within_limit` is what the HTTP rate limiter says, `payload` is what `request.json()` returns,
-- and `token` has the bytes of the header x-mcp-token, none where it is missing or empty.
pub record RpcRequest : Type 0 where
  pub within_limit : Bool
  pub payload : Body
  pub token : Option (List ℕ)

pub data Reply : Type 0 where
  json_reply : Value → Reply
  http_error : ℕ → String → Reply
  -- an exception that no handler catches
  server_error : Reply

-- The exceptions of the handler.
unfoldable pub reply_of : Value → Option String → Result Value → Reply
unfolding result_payload
reply_of request_id prompt (ok result) = json_reply (result_payload request_id result prompt)
reply_of request_id prompt (err e) = elim e [
  | tool_validation_error m ↦ http_error 400 m
  | tool_execution_error m ↦ http_error 502 m
  | bunkerweb_error m s ↦ server_error
  | http_status_error c m ↦ server_error
  | request_error m ↦ server_error
  | other_error m ↦ server_error
]

abbrev boxed : Result Fields → Result Value
boxed (ok fields) = ok (obj fields)
boxed (err e) = err e

unfoldable pub unknown_tool : App → Value → Reply
unknown_tool app tool = http_error 404 ("Unknown tool '" <> app.str_of tool <> "'")

-- `fn(**params)`: parameters that are no dict raise TypeError.
unfoldable pub call_fastmcp : App → Value → Value → Value → Reply
unfolding unknown_tool reply_of
call_fastmcp app request_id params tool = elim app.fastmcp_tool [
  | none ↦ unknown_tool app tool
  | some find ↦ elim (find tool) [
    | none ↦ unknown_tool app tool
    | some fn ↦ elim params [ obj fields ↦ reply_of request_id none (fn fields) | _ ↦ server_error ]
  ]
]

-- A name that is a list or a dict cannot be looked up: TypeError.
unfoldable pub call_tool : App → Value → Value → Value → Reply
unfolding call_fastmcp reply_of
call_tool app request_id params (arr names) = server_error
call_tool app request_id params (obj fields) = server_error
call_tool app request_id params (str name) = elim (app.get_tool name) [
  | none ↦ call_fastmcp app request_id params (str name)
  | some handler ↦ reply_of request_id (app.get_prompt name) (boxed (handler params))
]
call_tool app request_id params tool = call_fastmcp app request_id params tool

-- After the token: a payload that is no object has no `get`.
unfoldable pub dispatch : App → Value → Reply
unfolding call_tool truthy get
dispatch app (obj fields) =
    let tool = get_or_null "tool" fields in
    if truthy tool
    then call_tool app (get_or_null "id" fields) (params_of fields) tool
    else http_error 400 "Missing 'tool' field"
dispatch app payload = server_error

unfoldable pub rpc_endpoint : App → RpcRequest → Reply
unfolding check_token dispatch
rpc_endpoint app request =
    if app.rate_limit_enabled && not request.within_limit
    then http_error 429 "Rate limit exceeded"
    else elim request.payload [
      | invalid_json ↦ http_error 400 "Invalid JSON payload"
      | invalid_text ↦ server_error
      | json payload ↦
          if check_token request.token app.expected_token
          then dispatch app payload
          else http_error 401 "Invalid MCP token"
    ]
