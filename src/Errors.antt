-- ===== src/Errors.antt =====
-- src/bunkerweb_mcp/exceptions.py: the exceptions that cross the components, and Python code that
-- may raise as a result type.
use bunkerweb_mcp.Prelude.{ℕ, String, ◌≡◌, refl, ◌⊎◌, inl, inr, Option}

pub data Error : Type 0 where
  -- BunkerWebError(message, status=...)
  bunkerweb_error : String → Option ℕ → Error
  tool_validation_error : String → Error
  tool_execution_error : String → Error
  -- httpx.HTTPStatusError, with the status code of its response
  http_status_error : ℕ → String → Error
  -- httpx.RequestError: the request got no response
  request_error : String → Error
  -- any other exception, by its `str`
  other_error : String → Error

-- str(exc)
abbrev pub message_of : Error → String
message_of (bunkerweb_error m s) = m
message_of (tool_validation_error m) = m
message_of (tool_execution_error m) = m
message_of (http_status_error c m) = m
message_of (request_error m) = m
message_of (other_error m) = m

pub data Result {ℓ} (A : Type ℓ) : Type ℓ where
  ok : A → Result A
  err : Error → Result A

-- What follows an exception does not run.
module _ {ℓ κ} {A : Type ℓ} {B : Type κ} where
  infixl 5 ◌>>=◌ ◌>>◌
  abbrev pub ◌>>=◌ : Result A → (A → Result B) → Result B
  err e >>= next = err e
  ok a >>= next = next a

  abbrev pub ◌>>◌ : Result A → Result B → Result B
  err e >> rest = err e
  ok a >> rest = rest

  pub >>=-eq-ok :
      (r : Result A) (next : A → Result B) {b : B}
      → (r >>= next) ≡ ok b
      → (a : A) × (r ≡ ok a) × (next a ≡ ok b)
  >>=-eq-ok (err e) next h = cc
  >>=-eq-ok (ok a) next h = (a, refl, h)

pub ok-injective {ℓ} : {A : Type ℓ} (a b : A) → ok a ≡ ok b → a ≡ b
ok-injective a b h = cc

pub err-injective {ℓ} : {A : Type ℓ} {e f : Error} → ◌≡◌ {A = Result A} (err e) (err f) → e ≡ f
err-injective h = cc

pub Result-cases {ℓ} :
    {A : Type ℓ} (r : Result A) → ((a : A) × (r ≡ ok a)) ⊎ ((e : Error) × (r ≡ err e))
Result-cases (ok a) = inl (a, refl)
Result-cases (err e) = inr (e, refl)
