-- ===== src/Client/Retry.antt =====
-- How often `_request` of src/bunkerweb_mcp/client.py tries, and what it returns.
use bunkerweb_mcp.Prelude.{
  ℕ, zero, suc, ◌+◌, ◌-◌, ◌≤◌, Bool, true, false, ◌&&◌, ◌||◌, List, ◌≡◌, refl, sym, ap, ◌∙◌, ◌⊎◌,
  inl, inr, ltb, leb, eqb, any_of, Bool-cases, arith,
}
use bunkerweb_mcp.Errors.{Error, Result, ok, err, Result-cases}
use bunkerweb_mcp.Client.{Client, Request, Response, is_retryable, settle, retry_from, request}

-- The failure is one that `_is_retryable` accepts.
unfoldable pub is_transient : Result Response → Bool
is_transient (ok response) = false
is_transient (err e) = is_retryable e

-- The attempts from `n` up to `k`, `k` excluded, failed in a way that is retried.
pub data Retried (attempt : ℕ → Result Response) : ℕ → ℕ → Type 0 where
  started : {n : ℕ} → Retried attempt n n
  retried :
      {n k : ℕ} → is_transient (attempt n) ≡ true → Retried attempt (suc n) k → Retried attempt n k

-- What `_request` makes of the n-th attempt.
unfoldable pub outcome : Client → Request → ℕ → Result Response
outcome c req n = settle c req.allowed_statuses (c.attempt req n)

is_retryable_of :
    (answer : Result Response) (x : Error) {b : Bool}
    → answer ≡ err x
    → is_transient answer ≡ b
    → is_retryable x ≡ b
unfolding is_transient
is_retryable_of answer x e h = sym (ap is_transient e) ∙ h

retry_from-again :
    (attempt : ℕ → Result Response) (left n : ℕ)
    → is_transient (attempt n) ≡ true
    → retry_from attempt (suc left) n ≡ retry_from attempt left (suc n)
unfolding retry_from is_transient
retry_from-again attempt left n h = elim (Result-cases (attempt n)) [
  | inl (r, e) ↦ cc
  | inr (x, e) ↦ rw (retry_from, e, is_retryable_of (attempt n) x e h) refl
]

retry_from-stop :
    (attempt : ℕ → Result Response) (left n : ℕ)
    → is_transient (attempt n) ≡ false
    → retry_from attempt (suc left) n ≡ attempt n
unfolding retry_from is_transient
retry_from-stop attempt left n h = elim (Result-cases (attempt n)) [
  | inl (r, e) ↦ rw (retry_from, e) refl
  | inr (x, e) ↦ rw (retry_from, e, is_retryable_of (attempt n) x e h) refl
]

retry_from-Retried :
    (attempt : ℕ → Result Response) (left n : ℕ)
    → (k : ℕ) × Retried attempt n k
      × (retry_from attempt left n ≡ attempt k)
      × (k ≤ n + left)
      × ((is_transient (attempt k) ≡ false) ⊎ (k ≡ n + left))
unfolding retry_from
retry_from-Retried attempt zero n = (n, started, refl, omega arith, inr (omega arith))
retry_from-Retried attempt (suc left) n = elim (Bool-cases (is_transient (attempt n))) [
  | inl h ↦
      let (k, tried, e, le, last) = retry_from-Retried attempt left (suc n) in
      (
        k,
        retried h tried,
        retry_from-again attempt left n h ∙ e,
        omega arith,
        elim last [ inl d ↦ inl d | inr d ↦ inr (omega arith) ],
      )
  | inr h ↦ (n, started, retry_from-stop attempt left n h, omega arith, inl h)
]

-- A request ends with the outcome of one of its attempts, at most `max_retries` of them: all
-- earlier ones failed with a server error or without an answer, and this one did not, unless it
-- is the last that is allowed.
pub request-Retried :
    (c : Client) (req : Request)
    → (k : ℕ) × Retried (outcome c req) 0 k
      × (request c req ≡ outcome c req k)
      × (k ≤ c.max_retries - 1)
      × ((is_transient (outcome c req k) ≡ false) ⊎ (k ≡ c.max_retries - 1))
unfolding request outcome
request-Retried c req =
    let (k, tried, e, le, last) = retry_from-Retried (outcome c req) (c.max_retries - 1) 0 in
    (k, tried, e, omega arith, elim last [ inl d ↦ inl d | inr d ↦ inr (omega arith) ])

settle-eq-ok :
    (c : Client) (allowed : List ℕ) (answer : Result Response) (r : Response)
    → settle c allowed answer ≡ ok r
    → (any_of (eqb r.status_code) allowed || (leb 200 r.status_code && ltb r.status_code 300))
      ≡ true
unfolding settle
settle-eq-ok c allowed (err e) r h = cc
settle-eq-ok c allowed (ok response) r h = ground arith

-- The response that a request returns has an allowed status or a successful one.
pub request-eq-ok :
    (c : Client) (req : Request) (r : Response)
    → request c req ≡ ok r
    → (any_of (eqb r.status_code) req.allowed_statuses
        || (leb 200 r.status_code && ltb r.status_code 300))
      ≡ true
unfolding outcome
request-eq-ok c req r h =
    let (k, tried, e, le, last) = request-Retried c req in
    settle-eq-ok c req.allowed_statuses (c.attempt req k) r (cc)
