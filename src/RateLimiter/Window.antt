-- ===== src/RateLimiter/Window.antt =====
-- The limiter against its promise: in no window of time are more messages let through than allowed.
use bunkerweb_mcp.Prelude.{
  ℕ, ◌≤◌, ◌≡◌, ◌∙◌, refl, sym, ap, subst, inl, inr, String, List, [], ◌∷◌, ◌++◌, ◌==◌, eq_iff,
  arith, leb, keep, length, Bool-cases, if◌then◌else◌,
}
use mathlib.Core.List.{append_assoc, append-nil}
use bunkerweb_mcp.RateLimiter.{WebSocketRateLimiter, times_of, recent, check_rate_limit}
use bunkerweb_mcp.RateLimiter.Rounds.{
  Message, run, passed, IsOrdered, inside, kept, check_fst, check_limits, check_times, Knows,
  Knows-kept, Knows-append, Bounded, Bounded-append,
}

-- What holds between two messages, of the limiter and the messages of `c` that it let through.
record Watches (limit window now : ℕ) (l : WebSocketRateLimiter) (c : String) (past : List ℕ)
    : Type 0 where
  limit_is : l.max_messages ≡ limit
  window_is : l.window_seconds ≡ window
  knows : Knows window now (times_of l.message_times c) past
  bounded : Bounded limit window past

-- The messages let through after one more message.
past_after : WebSocketRateLimiter → String → Message → List ℕ → List ℕ
past_after l c (k, now) past =
    if k == c
    then (if leb l.max_messages (length (kept l k now)) then past else past ++ now ∷ [])
    else past

passed-cons :
    (l : WebSocketRateLimiter) (c k : String) (now : ℕ) (messages : List Message) (past : List ℕ)
    → past ++ passed l c ((k, now) ∷ messages)
      ≡ past_after l c (k, now) past ++ passed (check_rate_limit l k now).1 c messages
unfolding passed past_after
passed-cons l c k now messages past = rw (check_fst l k now) (elim (Bool-cases (k == c)) [
  | inr e ↦ rw e refl
  | inl e ↦ rw e (elim (Bool-cases (leb l.max_messages (length (kept l k now)))) [
    | inl f ↦ rw f refl
    | inr f ↦ rw f (sym (append_assoc past (now ∷ []) _))
  ])
])

Knows-later :
    (window now now' : ℕ) (stored past : List ℕ)
    → now ≤ now'
    → Knows window now stored past
    → Knows window now' stored past
Knows-later window now now' stored past le h later le' = h later (omega arith)

kept_lem :
    (limit window before : ℕ) (l : WebSocketRateLimiter) (c k : String) (now : ℕ) (past : List ℕ)
    → k ≡ c
    → Watches limit window before l c past
    → kept l k now ≡ keep (recent now window) (times_of l.message_times c)
unfolding kept
kept_lem limit window before l c k now past e w =
    ap (λ n. keep (recent now n) (times_of l.message_times k)) w.window_is
    ∙ ap (λ j. keep (recent now window) (times_of l.message_times j)) e

Watches-check :
    (limit window before : ℕ) (l : WebSocketRateLimiter) (c k : String) (now : ℕ) (past : List ℕ)
    → before ≤ now
    → Watches limit window before l c past
    → Watches limit window now (check_rate_limit l k now).1 c (past_after l c (k, now) past)
unfolding past_after
Watches-check limit window before l c k now past le w =
    let (a, b) = check_limits l k now in
    elim (Bool-cases (k == c)) [
      | inr e ↦ rw e (record {
        limit_is = a ∙ w.limit_is;
        window_is = b ∙ w.window_is;
        knows = rw (check_times l k now c) (rw e (Knows-later window before now _ past le w.knows));
        bounded = w.bounded;
      })
      | inl e ↦
          let kept_is = kept_lem limit window before l c k now past ((eq_iff k c).0 e) w in
          let known = Knows-kept window before now (times_of l.message_times c) past le w.knows in
          elim (Bool-cases (leb l.max_messages (length (kept l k now)))) [
            | inl f ↦
                rw (e, f)
                  (record {
                    limit_is = a ∙ w.limit_is;
                    window_is = b ∙ w.window_is;
                    knows = rw (check_times l k now c) (rw (e, f) (rw kept_is known));
                    bounded = w.bounded;
                  })
            | inr f ↦
                rw (e, f)
                  (record {
                    limit_is = a ∙ w.limit_is;
                    window_is = b ∙ w.window_is;
                    knows =
                        rw (check_times l k now c)
                          (rw (e, f) (rw kept_is (Knows-append window now now _ past known)));
                    bounded =
                        Bounded-append limit window now past w.bounded (
                          ground
                            (arith, w.limit_is, ap length kept_is, ap length (w.knows now le)));
                  })
          ]
    ]

run-Bounded :
    (limit window now : ℕ) (l : WebSocketRateLimiter) (c : String) (messages : List Message)
    (past : List ℕ)
    → Watches limit window now l c past
    → IsOrdered now messages
    → Bounded limit window (past ++ passed l c messages)
run-Bounded limit window now l c [] past w o = unfold passed in rw append-nil w.bounded
run-Bounded limit window now l c ((k, next) ∷ messages) past w (le, o) =
    subst (Bounded limit window) (sym (passed-cons l c k next messages past)) (
      run-Bounded limit window next _ c messages (past_after l c (k, next) past)
        (Watches-check limit window now l c k next past le w) o)

run_knows :
    (limit window now : ℕ) (l : WebSocketRateLimiter) (c : String) (messages : List Message)
    (past : List ℕ) (later : ℕ)
    → Watches limit window now l c past
    → IsOrdered now (messages ++ (c, later) ∷ [])
    → ((run l messages).max_messages ≡ limit)
      × ((run l messages).window_seconds ≡ window)
      × (keep (recent later window) (times_of (run l messages).message_times c)
          ≡ keep (recent later window) (past ++ passed l c messages))
unfolding run
run_knows limit window now l c [] past later w (le, o) = (
  w.limit_is,
  w.window_is,
  w.knows later le ∙ ap (keep (recent later window)) (unfold passed in rw append-nil refl),
)
run_knows limit window now l c ((k, next) ∷ messages) past later w (le, o) =
    let (a, b, known) =
      run_knows limit window next _ c messages (past_after l c (k, next) past) later
        (Watches-check limit window now l c k next past le w) o in
    (a, b, known ∙ ap (keep (recent later window)) (sym (passed-cons l c k next messages past)))

Watches-new :
    (l : WebSocketRateLimiter) (c : String)
    → times_of l.message_times c ≡ []
    → Watches l.max_messages l.window_seconds 0 l c []
Watches-new l c h = record {
  limit_is = refl;
  window_is = refl;
  knows = λ later le. rw h refl;
  bounded = λ t. omega arith;
}

-- From the time when nothing is stored for a connection, and while the clock does not run
-- backwards, no window of `window_seconds` holds more than `max_messages` messages of the connection
-- that the limiter let through, whatever the other connections send.
pub passed_bounded :
    (l : WebSocketRateLimiter) (c : String) (messages : List Message) (t : ℕ)
    → times_of l.message_times c ≡ []
    → IsOrdered 0 messages
    → length (keep (inside t l.window_seconds) (passed l c messages)) ≤ l.max_messages
passed_bounded l c messages t h o =
    run-Bounded l.max_messages l.window_seconds 0 l c messages [] (Watches-new l c h) o t

-- Under the same conditions a message is refused exactly when the messages of its connection that
-- were let through in the last `window_seconds` are `max_messages` or more.
pub check-run :
    (l : WebSocketRateLimiter) (c : String) (messages : List Message) (now : ℕ)
    → times_of l.message_times c ≡ []
    → IsOrdered 0 (messages ++ (c, now) ∷ [])
    → (check_rate_limit (run l messages) c now).0
      ≡ leb l.max_messages (length (keep (recent now l.window_seconds) (passed l c messages)))
check-run l c messages now h o =
    let (a, b, known) =
      run_knows l.max_messages l.window_seconds 0 l c messages [] now (Watches-new l c h) o in
    check_fst (run l messages) c now
    ∙ (unfold kept in rw (a, b) (ap (λ xs. leb l.max_messages (length xs)) known))
