-- ===== src/Server/Access.antt =====
-- Who gets answers from the endpoints of src/bunkerweb_mcp/main.py.
use bunkerweb_mcp.Prelude.{
  ℕ, String, Bool, true, false, not, ◌&&◌, List, [], ◌∷◌, Option, none, some, ◌==◌, ◌≡◌, refl, ap,
  eqb, eqb_iff, Bool-cases, ◌⊎◌, inl, inr,
}
use bunkerweb_mcp.Client.Nodes.{utf8_text}
use bunkerweb_mcp.Json.{Value}
use bunkerweb_mcp.Server.{App, check_token, token_matches, same_bytes}
use bunkerweb_mcp.Server.Rpc.{
  Body, json, invalid_json, invalid_text, RpcRequest, Reply, json_reply, rpc_endpoint,
}

both : (a b : Bool) → (a && b) ≡ true → (a ≡ true) × (b ≡ true)
both true b h = (refl, h)
both false b h = absurd (cc)

cons_eq : (x y : ℕ) (xs ys : List ℕ) → x ≡ y → xs ≡ ys → ◌≡◌ {A = List ℕ} (x ∷ xs) (y ∷ ys)
cons_eq x y xs ys e es = cc

same_bytes-eq : (xs ys : List ℕ) → same_bytes xs ys ≡ true → xs ≡ ys
same_bytes-eq [] [] h = refl
same_bytes-eq [] (y ∷ ys) h = absurd (cc)
same_bytes-eq (x ∷ xs) [] h = absurd (cc)
same_bytes-eq (x ∷ xs) (y ∷ ys) h =
    let (e, es) = both (eqb x y) (same_bytes xs ys) h in
    cons_eq x y xs ys ((eqb_iff x y).0 e) (same_bytes-eq xs ys es)

check_token-eq-true :
    (token : Option (List ℕ)) (secret : String)
    → (secret == "") ≡ false
    → check_token token (some secret) ≡ true
    → token ≡ some (utf8_text secret)
unfolding check_token token_matches
check_token-eq-true none secret e h = absurd (cc)
check_token-eq-true (some token) secret e h =
    ap some (same_bytes-eq token (utf8_text secret) (rw e at h))

unfoldable is_json_reply : Reply → Bool
is_json_reply (json_reply v) = true
is_json_reply reply = false

Body-cases : (b : Body) → ((v : Value) × (b ≡ json v)) ⊎ ((b ≡ invalid_json) ⊎ (b ≡ invalid_text))
Body-cases (json v) = inl (v, refl)
Body-cases invalid_json = inr (inl refl)
Body-cases invalid_text = inr (inr refl)

rpc_endpoint_refused :
    (app : App) (request : RpcRequest)
    → check_token request.token app.expected_token ≡ false
    → is_json_reply (rpc_endpoint app request) ≡ false
unfolding rpc_endpoint is_json_reply
rpc_endpoint_refused app request h =
    elim (Bool-cases (app.rate_limit_enabled && not request.within_limit)) [
      | inl limited ↦ rw limited refl
      | inr free ↦ elim (Body-cases request.payload) [
        | inl (payload, e) ↦ rw (free, e, h) refl
        | inr (inl e) ↦ rw (free, e) refl
        | inr (inr e) ↦ rw (free, e) refl
      ]
    ]

-- Where a token is configured, a request to /rpc that gets an answer from a tool has sent exactly
-- that token.
pub rpc_endpoint-token :
    (app : App) (request : RpcRequest) (secret : String) (answer : Value)
    → app.expected_token ≡ some secret
    → (secret == "") ≡ false
    → rpc_endpoint app request ≡ json_reply answer
    → request.token ≡ some (utf8_text secret)
unfolding is_json_reply
rpc_endpoint-token app request secret answer configured e h =
    elim (Bool-cases (check_token request.token app.expected_token)) [
      | inl c ↦ check_token-eq-true request.token secret e (rw configured at c)
      | inr c ↦
          let refused = rpc_endpoint_refused app request c in
          let answered = ap is_json_reply h in absurd (cc)
    ]
