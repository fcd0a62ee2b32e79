-- ===== src/RateLimiter/Tests.antt =====
-- The rate limiter on concrete messages, and the theorems at them.
use bunkerweb_mcp.Prelude.{◌≤◌, ◌≡◌, refl, List, [], ◌∷◌, arith, keep, length, leb}
use bunkerweb_mcp.Prelude.Dict.{lookup, insert, remove}
use bunkerweb_mcp.RateLimiter.{
  WebSocketRateLimiter, init, times_of, recent, check_rate_limit, cleanup_connection,
}
use bunkerweb_mcp.RateLimiter.Rounds.{Message, run, passed, inside}
use bunkerweb_mcp.RateLimiter.Window.{passed_bounded, check-run}

limiter_runs : Unit {0}
unfolding init times_of check_rate_limit cleanup_connection run passed lookup insert remove
limiter_runs = tt

abbrev messages : List Message
messages = ("a", 10) ∷ ("b", 11) ∷ ("a", 12) ∷ ("a", 13) ∷ ("a", 71) ∷ []

abbrev limiter : WebSocketRateLimiter
limiter = record { max_messages = 2; window_seconds = 60; message_times = [] }

third_is_refused : passed limiter "a" messages ≡ 10 ∷ 12 ∷ 71 ∷ []
unfolding limiter_runs
third_is_refused = refl

nothing_stored : times_of limiter.message_times "a" ≡ []
unfolding limiter_runs
nothing_stored = refl

passed_bounded_example : length (keep (inside 71 60) (passed limiter "a" messages)) ≤ 2
passed_bounded_example = passed_bounded limiter "a" messages 71 nothing_stored (omega arith)

check-run_example :
    (check_rate_limit (run limiter messages) "a" 72).0
    ≡ leb 2 (length (keep (recent 72 60) (passed limiter "a" messages)))
check-run_example = check-run limiter "a" messages 72 nothing_stored (omega arith)
