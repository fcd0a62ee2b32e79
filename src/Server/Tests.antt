-- ===== src/Server/Tests.antt =====
-- A small server on concrete requests, and the theorems at them.
use bunkerweb_mcp.Prelude.{
  true, false, ◌&&◌, List, [], ◌∷◌, none, some, ◌==◌, ◌≡◌, refl, if◌then◌else◌,
}
use bunkerweb_mcp.Prelude.Dict.{lookup}
use bunkerweb_mcp.Json.{Value, str, arr, obj, nil, end, field}
use bunkerweb_mcp.Errors.{ok}
use bunkerweb_mcp.Client.Segment.{utf8}
use bunkerweb_mcp.Client.Nodes.{utf8_text}
use bunkerweb_mcp.RateLimiter.{WebSocketRateLimiter}
use bunkerweb_mcp.Server.{App}
use bunkerweb_mcp.Server.Rpc.{RpcRequest, json, rpc_endpoint}
use bunkerweb_mcp.Server.Socket.{Message, websocket_endpoint}
use bunkerweb_mcp.Server.Access.{rpc_endpoint-token}
use bunkerweb_mcp.Server.Connections.{websocket_endpoint-lookup}

abbrev app : App
app = record {
  expected_token = some "s3cret";
  rate_limit_enabled = true;
  get_tool = λ name. if name == "ping_api" then some (λ params. ok end) else none;
  get_prompt = λ name. none;
  fastmcp_tool = none;
  str_of = λ value. "?";
}

abbrev payload : Value
payload = obj (field "tool" (str "ping_api") (field "id" (str "7") end))

abbrev rpc_request : RpcRequest
rpc_request = record {
  within_limit = true;
  payload = json payload;
  token = some (115 ∷ 51 ∷ 99 ∷ 114 ∷ 101 ∷ 116 ∷ []);
}

abbrev rpc_answer : Value
rpc_answer = obj (field "id" (str "7") (field "result" (obj end) end))

rpc_endpoint-token_example : rpc_request.token ≡ some (utf8_text "s3cret")
unfolding rpc_endpoint utf8
rpc_endpoint-token_example = rpc_endpoint-token app rpc_request "s3cret" rpc_answer refl refl refl

abbrev limiter : WebSocketRateLimiter
limiter = record {
  max_messages = 2;
  window_seconds = 60;
  message_times = ("10.0.0.9:4100", 5 ∷ []) ∷ [];
}

abbrev messages : List Message
messages =
    record { now = 10; content = some payload; times_out = false }
    ∷ record { now = 11; content = some (arr nil); times_out = false }
    ∷ []

websocket_endpoint-lookup_example :
    lookup "10.0.0.2:4242"
      (websocket_endpoint app "10.0.0.2:4242" none limiter messages).1.message_times
    ≡ (if true && "10.0.0.2:4242" == "10.0.0.2:4242"
        then none
        else lookup "10.0.0.2:4242" (("10.0.0.9:4100", 5 ∷ []) ∷ []))
websocket_endpoint-lookup_example =
    websocket_endpoint-lookup app "10.0.0.2:4242" "10.0.0.2:4242" none limiter messages
