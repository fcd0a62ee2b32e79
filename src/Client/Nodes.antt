-- ===== src/Client/Nodes.antt =====
-- src/bunkerweb_mcp/client.py: authentication and instances. A payload is what the
-- `model_dump` of its model returns.
use bunkerweb_mcp.Prelude.{
  ℕ, String, Bool, ◌||◌, List, [], ◌∷◌, ◌++◌, Option, none, some, ◌==◌, ◌<>◌, codes, if◌then◌else◌,
}
use bunkerweb_mcp.Json.{Value, get, str, obj, Fields, end, field}
use bunkerweb_mcp.Base64.{encode}
use bunkerweb_mcp.Errors.{Result, ok, err, ◌>>=◌}
use bunkerweb_mcp.Client.Segment.{segment, utf8}
use bunkerweb_mcp.Client.{
  Client, api_response, auth_response, ping_response, instances_response, request, json_of,
  request_json, bare, with_json, with_params, lower_bool,
}
use Prim.Native.Char.{code}

-- text.encode()
abbrev pub utf8_text : String → List ℕ
utf8_text String.[] = []
utf8_text (String.◌∷◌ c s) = utf8 (code c) ++ utf8_text s

-- f"Basic {token}", as code points
unfoldable pub basic_credentials : String → String → List ℕ
unfolding encode utf8
basic_credentials username password =
    codes "Basic " ++ encode (utf8_text (username <> ":" <> password))

-- The header where both are truthy.
unfoldable pub auth_header : Option String → Option String → Option (List ℕ)
unfolding basic_credentials
auth_header (some username) (some password) =
    if username == "" || password == "" then none else some (basic_credentials username password)
auth_header username password = none

-- The `Authorization` header that __init__ gives to every request: a token goes before the
-- credentials, and empty settings count as missing.
unfoldable pub default_authorization :
    Option String → Option String → Option String → Option (List ℕ)
unfolding auth_header
default_authorization none username password = auth_header username password
default_authorization (some token) username password =
    if token == "" then auth_header username password else some (codes ("Bearer " <> token))

-- body.setdefault(key, value), where the argument is not None
unfoldable pub set_default : String → Option String → Fields → Fields
set_default key none body = body
set_default key (some value) end = field key (str value) end
set_default key (some value) (field k v body) =
    if k == key then field k v body else field k v (set_default key (some value) body)

abbrev pub json_unless_empty : Fields → Option Value
json_unless_empty end = none
json_unless_empty body = some (obj body)

unfoldable pub authenticate : Client → Option String → Option String → Fields → Result Value
unfolding set_default auth_header request json_of
authenticate c username password payload =
    let body = set_default "password" password (set_default "username" username payload) in
    let req = record (bare "POST" "/auth") {
      json = json_unless_empty body;
      authorization = auth_header username password;
    } in
    do response ← request c req; answer ← json_of response; c.model_validate auth_response answer

abbrev version_at : Option Value → Option String
version_at (some (str version)) = some version
version_at value = none

-- payload["info"]["version"], none where a key is missing
abbrev version_in : Value → Option String
version_in (obj fs) = elim (get "info" fs) [
  | none ↦ none
  | some info ↦ elim info [ obj gs ↦ version_at (get "version" gs) | _ ↦ none ]
]
version_in payload = none

-- Any exception on the way counts as an unknown version.
unfoldable pub get_openapi_version : Client → Option String
unfolding request json_of get
get_openapi_version c = elim (request c (bare "GET" "/openapi.json") >>= json_of) [
  | err e ↦ none
  | ok payload ↦ version_in payload
]

unfoldable pub ping : Client → Result Value
unfolding request_json
ping c = request_json c ping_response (bare "GET" "/ping")

unfoldable pub list_instances : Client → Result Value
unfolding request_json
list_instances c = request_json c instances_response (bare "GET" "/instances")

unfoldable pub ping_instances : Client → Result Value
unfolding request_json
ping_instances c = request_json c api_response (bare "GET" "/instances/ping")

unfoldable pub stop_instances : Client → Result Value
unfolding request_json
stop_instances c = request_json c api_response (bare "POST" "/instances/stop")

unfoldable pub get_instance : Client → String → Result Value
unfolding segment request_json
get_instance c hostname = do
  host ← segment hostname "hostname"
  request_json c instances_response (bare "GET" ("/instances/" <> host))

unfoldable pub ping_instance : Client → String → Result Value
unfolding segment request_json
ping_instance c hostname = do
  host ← segment hostname "hostname"
  request_json c api_response (bare "GET" ("/instances/" <> host <> "/ping"))

unfoldable pub stop_instance : Client → String → Result Value
unfolding segment request_json
stop_instance c hostname = do
  host ← segment hostname "hostname"
  request_json c api_response (bare "POST" ("/instances/" <> host <> "/stop"))

unfoldable pub create_instance : Client → Value → Result Value
unfolding request_json
create_instance c payload =
    request_json c instances_response (with_json "POST" "/instances" payload)

unfoldable pub update_instance : Client → String → Value → Result Value
unfolding segment request_json
update_instance c hostname payload = do
  host ← segment hostname "hostname"
  request_json c instances_response (with_json "PATCH" ("/instances/" <> host) payload)

unfoldable pub delete_instances : Client → Value → Result Value
unfolding request_json
delete_instances c payload =
    request_json c instances_response (with_json "DELETE" "/instances" payload)

unfoldable pub reload_instances : Client → Bool → Result Value
unfolding request_json
reload_instances c test =
    request_json c api_response
      (with_params "POST" "/instances/reload" (("test", lower_bool test) ∷ []))

unfoldable pub reload_instance : Client → String → Bool → Result Value
unfolding segment request_json
reload_instance c hostname test = do
  host ← segment hostname "hostname"
  request_json c api_response
      (with_params "POST" ("/instances/" <> host <> "/reload") (("test", lower_bool test) ∷ []))
