-- ===== src/RateLimiter.antt =====
-- src/bunkerweb_mcp/rate_limiter.py. Times are numbers of ticks; the clock is an argument.
pub mod Rounds
pub mod Window
mod Tests
use bunkerweb_mcp.Prelude.{
  ℕ, ◌+◌, String, Bool, true, false, List, [], ◌∷◌, ◌++◌, Option, none, some, ltb, leb, keep,
  length, if◌then◌else◌,
}
use bunkerweb_mcp.Prelude.Dict.{Dict, lookup, insert, remove, has}

pub record WebSocketRateLimiter : Type 0 where
  pub max_messages : ℕ
  pub window_seconds : ℕ
  pub message_times : Dict (List ℕ)

unfoldable pub init : ℕ → ℕ → WebSocketRateLimiter
init max_messages window_seconds = record {
  max_messages = max_messages;
  window_seconds = window_seconds;
  message_times = [];
}

-- self._message_times[connection_id] of a defaultdict
unfoldable pub times_of : Dict (List ℕ) → String → List ℕ
unfolding lookup
times_of d connection_id = elim (lookup connection_id d) [ none ↦ [] | some ts ↦ ts ]

-- ts > cutoff, where the cutoff `now - window_seconds` may be below zero
abbrev pub recent : ℕ → ℕ → ℕ → Bool
recent now window ts = ltb now (ts + window)

-- The answer is true where the limit is exceeded.
unfoldable pub check_rate_limit : WebSocketRateLimiter → String → ℕ → Bool × WebSocketRateLimiter
unfolding times_of insert
check_rate_limit l connection_id now =
    let kept = keep (recent now l.window_seconds) (times_of l.message_times connection_id) in
    if leb l.max_messages (length kept)
    then (true, record l { message_times = insert connection_id kept l.message_times })
    else (
      false,
      record l { message_times = insert connection_id (kept ++ now ∷ []) l.message_times },
    )

unfoldable pub cleanup_connection : WebSocketRateLimiter → String → WebSocketRateLimiter
unfolding remove
cleanup_connection l connection_id =
    if has connection_id l.message_times
    then record l { message_times = remove connection_id l.message_times }
    else l
