-- ===== src/Client.antt =====
-- src/bunkerweb_mcp/client.py: requests to the control plane, their answers, and `_request` with
-- its retries. The endpoints are in Client/Nodes.antt, Client/Bans.antt and Client/Resources.antt.
pub mod Segment
pub mod Nodes
pub mod Bans
pub mod Resources
pub mod Retry
pub mod Paths
mod Tests
use bunkerweb_mcp.Prelude.{
  ℕ, zero, suc, ◌-◌, String, Bool, true, false, ◌&&◌, ◌||◌, List, [], ◌∷◌, Option, none, some, ltb,
  leb, eqb, any_of, if◌then◌else◌,
}
use bunkerweb_mcp.Prelude.Dict.{Dict}
use bunkerweb_mcp.Json.{
  Value, null, bool, int, float, str, arr, obj, Fields, end, field, get, show_int, truthy,
}
use bunkerweb_mcp.Errors.{
  Error, bunkerweb_error, tool_validation_error, tool_execution_error, http_status_error,
  request_error, other_error, Result, ok, err, ◌>>=◌,
}

-- The arguments of `httpx.AsyncClient.request` (`form` is its `data`), and the statuses that `_request` lets through.
pub record Request : Type 0 where
  pub method : String
  pub url : String
  pub params : Dict String
  pub json : Option Value
  pub form : Dict String
  pub files : List (String × (String × List ℕ))
  pub authorization : Option (List ℕ)
  pub allowed_statuses : List ℕ

-- httpx.Response; `json` is none where `response.json()` raises, and `status_error` is the text of
-- the HTTPStatusError that `raise_for_status` raises, which httpx makes of the status and the URL.
pub record Response : Type 0 where
  pub status_code : ℕ
  pub json : Option Value
  pub text : String
  pub status_error : String
  pub content_type : String
  pub content : List ℕ

-- The pydantic models of the answers, in schemas/.
pub data ResponseModel : Type 0 where
  api_response : ResponseModel
  auth_response : ResponseModel
  ping_response : ResponseModel
  instances_response : ResponseModel
  bans_response : ResponseModel
  services_response : ResponseModel
  service_response : ResponseModel
  global_config_response : ResponseModel
  configs_response : ResponseModel
  config_response : ResponseModel
  plugins_response : ResponseModel
  cache_response : ResponseModel
  jobs_response : ResponseModel

-- What is outside the code: what the n-th attempt at a request gets, what pydantic makes of a
-- payload (the dump of the model, or its ValidationError), and `repr` of a list or a dict. Every
-- operation sends a request at most once, so that the attempts are a function of the request.
pub record Client : Type 0 where
  pub max_retries : ℕ
  pub attempt : Request → ℕ → Result Response
  pub model_validate : ResponseModel → Value → Result Value
  pub repr : Value → String

unfoldable pub is_retryable : Error → Bool
is_retryable (http_status_error code m) = leb 500 code
is_retryable (request_error m) = true
is_retryable e = false

-- str(value)
unfoldable pub str_of : Client → Value → String
unfolding show_int
str_of c null = "None"
str_of c (bool b) = if b then "True" else "False"
str_of c (int n) = show_int n
str_of c (float s) = s
str_of c (str s) = s
str_of c v = c.repr v

unfoldable pub message_of_payload : Client → Value → String
unfolding str_of get truthy
message_of_payload c (obj fs) = elim (get "message" fs) [
  | none ↦ str_of c (obj fs)
  | some m ↦ if truthy m then str_of c m else str_of c (obj fs)
]
message_of_payload c payload = str_of c payload

unfoldable pub extract_error_message : Client → Response → String
unfolding message_of_payload
extract_error_message c response = elim response.json [
  | none ↦ response.text
  | some payload ↦ message_of_payload c payload
]

-- One attempt, after the answer: allowed, successful (2xx), to be retried, or a client error.
unfoldable pub settle : Client → List ℕ → Result Response → Result Response
unfolding extract_error_message
settle c allowed (err e) = err e
settle c allowed (ok response) =
    if any_of (eqb response.status_code) allowed
    then ok response
    else if leb 200 response.status_code && ltb response.status_code 300
    then ok response
    else if leb 500 response.status_code
    then err (http_status_error response.status_code response.status_error)
    else err (bunkerweb_error (extract_error_message c response) (some response.status_code))

-- AsyncRetrying with stop_after_attempt and reraise: `left` more attempts may follow the one
-- numbered `n`.
unfoldable pub retry_from : (ℕ → Result Response) → ℕ → ℕ → Result Response
unfolding is_retryable
retry_from attempt zero n = attempt n
retry_from attempt (suc left) n = elim (attempt n) [
  | ok response ↦ ok response
  | err e ↦ if is_retryable e then retry_from attempt left (suc n) else err e
]

-- The first attempt is made whatever `max_retries` is.
unfoldable pub request : Client → Request → Result Response
unfolding settle retry_from
request c req =
    retry_from (λ n. settle c req.allowed_statuses (c.attempt req n)) (c.max_retries - 1) 0

-- response.json()
unfoldable pub json_of : Response → Result Value
json_of response = elim response.json [
  | none ↦ err (other_error "JSONDecodeError")
  | some payload ↦ ok payload
]

unfoldable pub request_json : Client → ResponseModel → Request → Result Value
unfolding request json_of
request_json c model req = do
  response ← request c req
  payload ← json_of response
  c.model_validate model payload

abbrev pub bare : String → String → Request
bare method url = record {
  method = method;
  url = url;
  params = [];
  json = none;
  form = [];
  files = [];
  authorization = none;
  allowed_statuses = [];
}

abbrev pub with_json : String → String → Value → Request
with_json method url body = record (bare method url) { json = some body }

abbrev pub with_params : String → String → Dict String → Request
with_params method url params = record (bare method url) { params = params }

-- str(flag).lower()
abbrev pub lower_bool : Bool → String
lower_bool b = if b then "true" else "false"
