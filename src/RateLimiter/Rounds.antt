-- ===== src/RateLimiter/Rounds.antt =====
-- One round of the limiter (src/bunkerweb_mcp/rate_limiter.py): what `check_rate_limit` does to the
-- times that it keeps of a connection.
use bunkerweb_mcp.Prelude.{
  ℕ, ◌+◌, ◌≤◌, ◌<◌, ◌≡◌, ◌∙◌, sym, ap, inl, inr, String, Bool, ◌&&◌, List, [], ◌∷◌, ◌++◌, ◌==◌,
  arith, ltb, leb, keep, length, keep-append, keep-keep, length-keep_mono, length-append,
  Bool-cases, if◌then◌else◌,
}
use bunkerweb_mcp.Prelude.Dict.{Dict, insert, lookup-insert}
use bunkerweb_mcp.RateLimiter.{WebSocketRateLimiter, times_of, recent, check_rate_limit}

-- One message: its connection and its time.
abbrev pub Message : Type 0
Message = String × ℕ

-- The limiter after a run of messages, the earliest first, and the times of the messages of one
-- connection that it let through.
unfoldable pub run : WebSocketRateLimiter → List Message → WebSocketRateLimiter
run l [] = l
run l ((connection_id, now) ∷ messages) = run (check_rate_limit l connection_id now).1 messages

unfoldable pub passed : WebSocketRateLimiter → String → List Message → List ℕ
passed l c [] = []
passed l c ((connection_id, now) ∷ messages) =
    let (exceeded, l') = check_rate_limit l connection_id now in
    let rest = passed l' c messages in
    if connection_id == c then (if exceeded then rest else now ∷ rest) else rest

-- No message comes before an earlier one, and none before `now`.
abbrev pub IsOrdered : ℕ → List Message → Type 0
IsOrdered now [] = Unit
IsOrdered now ((c, next) ∷ messages) = (now ≤ next) × IsOrdered next messages

-- The window of the given length that ends at `t`.
abbrev pub inside : ℕ → ℕ → ℕ → Bool
inside t window ts = leb ts t && ltb t (ts + window)

pub times_of-insert :
    (k j : String) (ts : List ℕ) (d : Dict (List ℕ))
    → times_of (insert k ts d) j ≡ (if k == j then ts else times_of d j)
unfolding times_of
times_of-insert k j ts d = rw (lookup-insert k j ts d, times_of) (ground arith)

-- What one message does, seen from a connection.
module _ (l : WebSocketRateLimiter) (k : String) (now : ℕ) where
  unfoldable pub kept : List ℕ
  kept = keep (recent now l.window_seconds) (times_of l.message_times k)

  pub check_fst : (check_rate_limit l k now).0 ≡ leb l.max_messages (length kept)
  unfolding check_rate_limit kept
  check_fst = ground arith

  pub check_limits :
      ((check_rate_limit l k now).1.max_messages ≡ l.max_messages)
      × ((check_rate_limit l k now).1.window_seconds ≡ l.window_seconds)
  unfolding check_rate_limit
  check_limits = ground arith

  pub check_times :
      (j : String)
      → times_of (check_rate_limit l k now).1.message_times j ≡ (
          if k == j
          then (if leb l.max_messages (length kept) then kept else kept ++ now ∷ [])
          else times_of l.message_times j)
  unfolding check_rate_limit kept
  check_times j = elim (Bool-cases (leb l.max_messages (length kept))) [
    | inl e ↦ rw e (times_of-insert k j kept l.message_times)
    | inr e ↦ rw e (times_of-insert k j (kept ++ now ∷ []) l.message_times)
  ]

-- `past` are the messages of a connection that were let through before `now`: the list that the
-- limiter stores tells, for every later time, which of them are recent.
abbrev pub Knows : ℕ → ℕ → List ℕ → List ℕ → Type 0
Knows window now stored past =
    (later : ℕ) → now ≤ later → keep (recent later window) stored ≡ keep (recent later window) past

pub Knows-kept :
    (window now now' : ℕ) (stored past : List ℕ)
    → now ≤ now'
    → Knows window now stored past
    → Knows window now' (keep (recent now' window) stored) past
Knows-kept window now now' stored past le h later le' =
    keep-keep (recent later window) (recent now' window) (λ x e. ground arith) stored
    ∙ h later (omega arith)

pub Knows-append :
    (window now t : ℕ) (stored past : List ℕ)
    → Knows window now stored past
    → Knows window now (stored ++ t ∷ []) (past ++ t ∷ [])
Knows-append window now t stored past h later le =
    keep-append (recent later window) stored (t ∷ [])
    ∙ ap (λ xs. xs ++ keep (recent later window) (t ∷ [])) (h later le)
    ∙ sym (keep-append (recent later window) past (t ∷ []))

-- At most `limit` of the messages lie in any window.
abbrev pub Bounded : ℕ → ℕ → List ℕ → Type 0
Bounded limit window past = (t : ℕ) → length (keep (inside t window) past) ≤ limit

pub Bounded-append :
    (limit window now : ℕ) (past : List ℕ)
    → Bounded limit window past
    → length (keep (recent now window) past) < limit
    → Bounded limit window (past ++ now ∷ [])
Bounded-append limit window now past h room t = rw (keep-append (inside t window) past (now ∷ [])) (
    rw (length-append (keep (inside t window) past) (keep (inside t window) (now ∷ [])))
      (elim (Bool-cases (inside t window now)) [
        | inl e ↦ rw e (
            omega (
              arith,
              length-keep_mono (inside t window) (recent now window) (λ x g. ground arith) past,
            ))
        | inr e ↦ rw e (omega (arith, h t))
      ]))
