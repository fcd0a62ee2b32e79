-- ===== src/Server/Socket.antt =====
-- `websocket_endpoint` of src/bunkerweb_mcp/main.py: one connection as the list of its messages.
use bunkerweb_mcp.Prelude.{
  ℕ, String, Bool, false, List, [], ◌∷◌, Option, none, some, ◌<>◌, if◌then◌else◌,
}
use bunkerweb_mcp.Prelude.Decimal.{show}
use bunkerweb_mcp.Json.{Value, str, arr, obj, Fields, end, field, get, truthy}
use bunkerweb_mcp.Errors.{
  Error, tool_validation_error, tool_execution_error, message_of, Result, ok, err,
}
use bunkerweb_mcp.RateLimiter.{WebSocketRateLimiter, check_rate_limit, cleanup_connection}
use bunkerweb_mcp.Server.{App, check_token, params_of, get_or_null, result_payload}

-- A message: the time at which it is read, its JSON (none where it is none), and whether its tool
-- runs for more than 25 seconds.
pub record Message : Type 0 where
  pub now : ℕ
  pub content : Option Value
  pub times_out : Bool

-- What a message leads to. An uncaught exception ends the connection without a reply.
pub data Outcome : Type 0 where
  replied : Value → Outcome
  crashed : Outcome

abbrev pub error_body : String → String → Value
error_body code message = obj (field "code" (str code) (field "message" (str message) end))

abbrev pub error_reply : Value → String → String → Value
error_reply request_id code message =
    obj (field "id" request_id (field "error" (error_body code message) end))

unfoldable pub error_code : Error → String
error_code (tool_validation_error m) = "validation_error"
error_code (tool_execution_error m) = "execution_error"
error_code e = "internal_error"

unfoldable pub tool_reply : Value → Option String → Result Fields → Value
unfolding error_code result_payload
tool_reply request_id prompt (ok result) = result_payload request_id (obj result) prompt
tool_reply request_id prompt (err e) = error_reply request_id (error_code e) (message_of e)

unfoldable pub unknown_tool_reply : App → Value → Value → Value
unknown_tool_reply app request_id tool =
    error_reply request_id "unknown_tool" ("Unknown tool '" <> app.str_of tool <> "'")

unfoldable pub run_message : App → Value → Value → Bool → Value → Outcome
unfolding tool_reply unknown_tool_reply
run_message app request_id params times_out (arr names) = crashed
run_message app request_id params times_out (obj fields) = crashed
run_message app request_id params times_out (str name) = elim (app.get_tool name) [
  | none ↦ replied (unknown_tool_reply app request_id (str name))
  | some handler ↦ replied (
      if times_out
      then error_reply request_id "timeout" "Tool execution exceeded 25s"
      else tool_reply request_id (app.get_prompt name) (handler params))
]
run_message app request_id params times_out tool = replied (unknown_tool_reply app request_id tool)

unfoldable pub answer_message : App → Option Value → Bool → Outcome
unfolding run_message truthy get
answer_message app none times_out =
    replied (obj (field "error" (error_body "invalid_json" "Invalid JSON") end))
answer_message app (some (obj fields)) times_out =
    let tool = get_or_null "tool" fields in
    let request_id = get_or_null "id" fields in
    if truthy tool
    then run_message app request_id (params_of fields) times_out tool
    else replied (error_reply request_id "missing_tool" "Missing 'tool' field")
answer_message app (some value) times_out = crashed

unfoldable pub limit_reply : WebSocketRateLimiter → Value
unfolding show
limit_reply limiter = obj (
    field "error"
      (error_body "rate_limit_exceeded" (
        "Rate limit exceeded: max "
        <> show limiter.max_messages
        <> " messages per "
        <> show limiter.window_seconds
        <> "s"))
      end)

-- settings.rate_limit_enabled and ws_rate_limiter.check_rate_limit(connection_id)
unfoldable pub limit_message : App → String → WebSocketRateLimiter → ℕ → Bool × WebSocketRateLimiter
limit_message app connection_id limiter now =
    if app.rate_limit_enabled then check_rate_limit limiter connection_id now else (false, limiter)

-- One round of the loop, with the limiter that all connections share.
unfoldable pub receive :
    App → String → WebSocketRateLimiter → Message → Outcome × WebSocketRateLimiter
receive app connection_id limiter message =
    let (exceeded, limiter') = limit_message app connection_id limiter message.now in
    (
      if exceeded
          then replied (limit_reply limiter')
          else answer_message app message.content message.times_out,
      limiter',
    )

-- What follows a message whose round left `limiter`, where the later rounds would end in `rest`.
unfoldable pub proceed :
    Outcome
    → List Value × WebSocketRateLimiter
    → WebSocketRateLimiter
    → List Value × WebSocketRateLimiter
proceed (replied reply) rest limiter = (reply ∷ rest.0, rest.1)
proceed crashed rest limiter = ([], limiter)

-- The loop until the client disconnects, or an exception ends it.
unfoldable pub loop :
    App → String → WebSocketRateLimiter → List Message → List Value × WebSocketRateLimiter
loop app connection_id limiter [] = ([], limiter)
loop app connection_id limiter (message ∷ messages) =
    let (outcome, limiter') = receive app connection_id limiter message in
    proceed outcome (loop app connection_id limiter' messages) limiter'

-- A refused connection is closed with 1008 and no message of it is read.
unfoldable pub session :
    App
    → String
    → Option (List ℕ)
    → WebSocketRateLimiter
    → List Message
    → List Value × WebSocketRateLimiter
session app connection_id token limiter messages =
    if check_token token app.expected_token
    then loop app connection_id limiter messages
    else ([], limiter)

-- The endpoint: however the session ends, what the limiter keeps of the connection goes.
unfoldable pub websocket_endpoint :
    App
    → String
    → Option (List ℕ)
    → WebSocketRateLimiter
    → List Message
    → List Value × WebSocketRateLimiter
websocket_endpoint app connection_id token limiter messages =
    let (replies, final) = session app connection_id token limiter messages in
    (replies, if app.rate_limit_enabled then cleanup_connection final connection_id else final)
