-- ===== src/Client/Bans.antt =====
-- src/bunkerweb_mcp/client.py: bans. BunkerWeb answers 502 where some instance refuses.
use bunkerweb_mcp.Prelude.{
  ℕ, ◌+◌, String, Bool, true, false, not, ◌&&◌, ◌||◌, List, [], ◌∷◌, ◌++◌, Option, none, some, ◌==◌,
  leb, eqb, any_of, all_of, keep, codes, join, if◌then◌else◌,
}
use bunkerweb_mcp.Json.{
  Value, null, str, arr, obj, Items, nil, cons, Fields, end, field, get, has_key, truthy,
}
use bunkerweb_mcp.Errors.{bunkerweb_error, Result, ok, err, ◌>>=◌}
use bunkerweb_mcp.Client.{
  Client, bans_response, str_of, request, json_of, request_json, bare, with_json,
}

abbrev lower : ℕ → ℕ
lower c = if leb 65 c && leb c 90 then c + 32 else c

abbrev same : List ℕ → List ℕ → Bool
same [] [] = true
same (a ∷ xs) (b ∷ ys) = eqb (lower a) b && same xs ys
same xs ys = false

-- status.lower() == "success": no character outside ASCII has a lower case in this word.
unfoldable pub is_success : String → Bool
is_success status = same (codes status) (codes "success")

-- What one node's details add to `node_statuses` and to `messages`.
unfoldable pub status_of_node : Value → List String
unfolding get
status_of_node (obj details) = elim (get "status" details) [
  | none ↦ []
  | some status ↦ elim status [ str s ↦ s ∷ [] | _ ↦ [] ]
]
status_of_node details = []

-- details.get("msg") or details.get("message"), where it is truthy
unfoldable pub message_of_node : Client → Value → List String
unfolding get truthy str_of
message_of_node c (obj details) = first (shown (get "msg" details)) (shown (get "message" details))
  where
    shown : Option Value → List String
    shown none = []
    shown (some v) = if truthy v then str_of c v ∷ [] else []

    first : List String → List String → List String
    first [] ys = ys
    first xs ys = xs
message_of_node c details = []

unfoldable pub node_statuses : Fields → List String
unfolding status_of_node
node_statuses end = []
node_statuses (field node details fs) = status_of_node details ++ node_statuses fs

unfoldable pub node_messages : Client → Fields → List String
unfolding message_of_node
node_messages c end = []
node_messages c (field node details fs) = message_of_node c details ++ node_messages c fs

unfoldable pub overall_status : List String → String
unfolding is_success
overall_status statuses =
    if all_of is_success statuses
    then "success"
    else if any_of is_success statuses
    then "partial"
    else "error"

-- "; ".join(filter(None, messages)) or None
unfoldable pub joined_messages : List String → Value
joined_messages messages =
    let text = join "; " (keep (λ m. not (m == "")) messages) in
    if text == "" then null else str text

-- BansResponse(status=..., message=..., data=payload)
abbrev pub bans : String → Value → Value → Value
bans status message payload =
    obj (field "status" (str status) (field "message" message (field "data" payload end)))

unfoldable pub aggregate_bans : Client → Value → Value
unfolding overall_status node_statuses node_messages joined_messages
aggregate_bans c (obj fs) =
    bans (overall_status (node_statuses fs)) (joined_messages (node_messages c fs)) (obj fs)
aggregate_bans c payload = bans "success" null payload

unfoldable pub is_bans_response : Value → Bool
unfolding has_key
is_bans_response (obj fs) = has_key "status" fs || has_key "message" fs || has_key "data" fs
is_bans_response payload = false

unfoldable pub list_bans : Client → Result Value
unfolding request json_of is_bans_response aggregate_bans
list_bans c = do
  response ← request c (record (bare "GET" "/bans") { allowed_statuses = 502 ∷ [] })
  payload ← json_of response
  (if is_bans_response payload
      then c.model_validate bans_response payload
      else ok (aggregate_bans c payload))

-- One ban is sent as an object, several as a list.
unfoldable pub body_of : List Value → Value
body_of bans = body bans
  where
    items : List Value → Items
    items [] = nil
    items (b ∷ bs) = cons b (items bs)

    body : List Value → Value
    body (b ∷ []) = b
    body bs = arr (items bs)

unfoldable pub ban : Client → List Value → Result Value
unfolding request_json body_of
ban c [] = err (bunkerweb_error "Ban payload must not be empty" none)
ban c (b ∷ bs) =
    request_json c bans_response
      (record (with_json "POST" "/bans" (body_of (b ∷ bs))) { allowed_statuses = 502 ∷ [] })

unfoldable pub unban : Client → List Value → Result Value
unfolding request_json body_of
unban c [] = err (bunkerweb_error "Unban payload must not be empty" none)
unban c (b ∷ bs) =
    request_json c bans_response
      (record (with_json "DELETE" "/bans" (body_of (b ∷ bs))) { allowed_statuses = 502 ∷ [] })
