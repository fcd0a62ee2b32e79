-- ===== src/Server/Connections.antt =====
-- What a WebSocket connection (src/bunkerweb_mcp/main.py) leaves in the shared rate limiter.
use bunkerweb_mcp.Prelude.{
  ℕ, String, Bool, true, false, ◌&&◌, List, [], ◌∷◌, Option, none, ◌==◌, ◌≡◌, eq_iff, refl, ◌∙◌,
  subst, keep, length, leb, Bool-cases, inl, inr, if◌then◌else◌,
}
use bunkerweb_mcp.Prelude.Dict.{lookup, has, lookup-insert, lookup-remove, lookup_of_not_has}
use bunkerweb_mcp.Json.{Value}
use bunkerweb_mcp.RateLimiter.{
  WebSocketRateLimiter, check_rate_limit, cleanup_connection, times_of, recent,
}
use bunkerweb_mcp.Server.{App, check_token}
use bunkerweb_mcp.Server.Socket.{
  Message, Outcome, replied, crashed, limit_message, receive, proceed, loop, session,
  websocket_endpoint,
}

check_rate_limit-lookup :
    (l : WebSocketRateLimiter) (c j : String) (now : ℕ)
    → (c == j) ≡ false
    → lookup j (check_rate_limit l c now).1.message_times ≡ lookup j l.message_times
unfolding check_rate_limit
check_rate_limit-lookup l c j now other =
    elim (Bool-cases (
      leb l.max_messages
        (length (keep (recent now l.window_seconds) (times_of l.message_times c))))) [
          | inl e ↦ rw e (rw (lookup-insert c j) (rw other refl))
          | inr e ↦ rw e (rw (lookup-insert c j) (rw other refl))
        ]

limit_message-lookup :
    (app : App) (c j : String) (l : WebSocketRateLimiter) (now : ℕ)
    → (app.rate_limit_enabled && c == j) ≡ false
    → lookup j (limit_message app c l now).1.message_times ≡ lookup j l.message_times
unfolding limit_message
limit_message-lookup app c j l now other = elim (Bool-cases app.rate_limit_enabled) [
  | inl e ↦ rw e (check_rate_limit-lookup l c j now (rw e at other))
  | inr e ↦ rw e refl
]

proceed-lookup :
    (outcome : Outcome) (rest : List Value × WebSocketRateLimiter) (l : WebSocketRateLimiter)
    (j : String) {times : Option (List ℕ)}
    → lookup j rest.1.message_times ≡ times
    → lookup j l.message_times ≡ times
    → lookup j (proceed outcome rest l).1.message_times ≡ times
unfolding proceed
proceed-lookup (replied reply) rest l j hr hl = hr
proceed-lookup crashed rest l j hr hl = hl

loop-lookup :
    (app : App) (c j : String) (l : WebSocketRateLimiter) (messages : List Message)
    → (app.rate_limit_enabled && c == j) ≡ false
    → lookup j (loop app c l messages).1.message_times ≡ lookup j l.message_times
unfolding loop receive
loop-lookup app c j l [] other = refl
loop-lookup app c j l (message ∷ messages) other =
    let l' = (receive app c l message).1 in
    let limited = limit_message-lookup app c j l message.now other in
    proceed-lookup (receive app c l message).0 (loop app c l' messages) l' j
      (loop-lookup app c j l' messages other ∙ limited) limited

cleanup_connection-lookup :
    (l : WebSocketRateLimiter) (c j : String)
    → lookup j (cleanup_connection l c).message_times
      ≡ (if c == j then none else lookup j l.message_times)
unfolding cleanup_connection
cleanup_connection-lookup l c j = elim (Bool-cases (has c l.message_times)) [
  | inl e ↦ rw e (lookup-remove c j l.message_times)
  | inr e ↦ rw e (elim (Bool-cases (c == j)) [
    | inl same ↦ rw same (
        subst (λ k. lookup k l.message_times ≡ none) ((eq_iff c j).0 same)
          (lookup_of_not_has c l.message_times e))
    | inr other ↦ rw other refl
  ])
]

session-lookup :
    (app : App) (c j : String) (token : Option (List ℕ)) (l : WebSocketRateLimiter)
    (messages : List Message)
    → (app.rate_limit_enabled && c == j) ≡ false
    → lookup j (session app c token l messages).1.message_times ≡ lookup j l.message_times
unfolding session
session-lookup app c j token l messages other =
    elim (Bool-cases (check_token token app.expected_token)) [
      | inl e ↦ rw e (loop-lookup app c j l messages other)
      | inr e ↦ rw e refl
    ]

ended-lookup :
    (limited : Bool) (final : WebSocketRateLimiter) (c j : String) (times : Option (List ℕ))
    → ((limited && c == j) ≡ false → lookup j final.message_times ≡ times)
    → lookup j (if limited then cleanup_connection final c else final).message_times
      ≡ (if limited && c == j then none else times)
ended-lookup false final c j times kept = kept refl
ended-lookup true final c j times kept = elim (Bool-cases (c == j)) [
  | inl same ↦ rw same (cleanup_connection-lookup final c j ∙ rw same refl)
  | inr other ↦ rw other (cleanup_connection-lookup final c j ∙ rw other (kept other))
]

-- After a connection, however it ended, the shared limiter holds nothing of it where the limit is
-- enabled, and every other connection's times are what they were.
pub websocket_endpoint-lookup :
    (app : App) (c j : String) (token : Option (List ℕ)) (l : WebSocketRateLimiter)
    (messages : List Message)
    → lookup j (websocket_endpoint app c token l messages).1.message_times
      ≡ (if app.rate_limit_enabled && c == j then none else lookup j l.message_times)
unfolding websocket_endpoint
websocket_endpoint-lookup app c j token l messages =
    ended-lookup app.rate_limit_enabled (session app c token l messages).1 c j
      (lookup j l.message_times) (session-lookup app c j token l messages)
