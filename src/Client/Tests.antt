-- ===== src/Client/Tests.antt =====
-- A client whose first attempt at a request fails, and the theorems at it.
use bunkerweb_mcp.Prelude.{
  ℕ, zero, suc, String, true, false, [], some, ◌≡◌, ◌≢◌, refl, all_char, ◌-◌, ◌≤◌, ◌⊎◌,
}
use bunkerweb_mcp.Json.{end, obj}
use bunkerweb_mcp.Errors.{request_error, Result, ok, err}
use bunkerweb_mcp.Client.Segment.{segment, cache_path}
use bunkerweb_mcp.Client.{Client, Response, request, bare}
use bunkerweb_mcp.Client.Retry.{Retried, outcome, is_transient, request-Retried}
use bunkerweb_mcp.Client.Paths.{is_plain, is_url_safe, count_char, segment-safe, cache_path-slashes}

abbrev answer : ℕ → Response
answer status = record {
  status_code = status;
  json = some (obj end);
  text = "{}";
  status_error = "Server error '503 Service Unavailable' for url 'http://api:8888/ping'";
  content_type = "application/json";
  content = [];
}

abbrev answers : ℕ → Result Response
answers zero = err (request_error "connection reset")
answers (suc zero) = ok (answer 503)
answers n = ok (answer 200)

abbrev flaky : Client
flaky = record {
  max_retries = 3;
  attempt = λ req n. answers n;
  model_validate = λ model payload. ok payload;
  repr = λ v. "{}";
}

request-Retried_example :
    (k : ℕ) × Retried (outcome flaky (bare "GET" "/ping")) 0 k
    × (request flaky (bare "GET" "/ping") ≡ outcome flaky (bare "GET" "/ping") k)
    × (k ≤ 3 - 1)
    × ((is_transient (outcome flaky (bare "GET" "/ping") k) ≡ false) ⊎ (k ≡ 3 - 1))
request-Retried_example = request-Retried flaky (bare "GET" "/ping")

abbrev encoded : String
encoded = "caf%C3%A9.example"

abbrev decoded : String
decoded = "café.example"

segment-safe_example :
    ((all_char is_plain decoded ≡ true) × (decoded ≢ "") × (decoded ≢ ".") × (decoded ≢ ".."))
    × ((all_char is_url_safe encoded ≡ true) × (encoded ≢ "") × (encoded ≢ ".") × (encoded ≢ ".."))
unfolding segment
segment-safe_example = segment-safe decoded "service" encoded refl

cache_path-slashes_example : count_char 47 "/cache/global/letsencrypt/renew/a%20b.json" ≡ 5
unfolding cache_path
cache_path-slashes_example =
    cache_path-slashes "global" "letsencrypt" "renew" "a b.json"
      "/cache/global/letsencrypt/renew/a%20b.json" refl
