-- ===== src/Handlers/Bans.antt =====
-- src/bunkerweb_mcp/tools/ban_handlers.py
use bunkerweb_mcp.Prelude.{
  String, Bool, true, false, not, ◌&&◌, List, map, Option, none, some, ◌==◌, ◌<>◌, if◌then◌else◌,
}
use bunkerweb_mcp.Json.{pos, Value, int, str, obj, Fields, end, field, get, truthy}
use bunkerweb_mcp.Errors.{Result, ok, err, ◌>>=◌}
use bunkerweb_mcp.Client.Bans.{list_bans, ban, unban}
use bunkerweb_mcp.Cache.{Backend}
use bunkerweb_mcp.Handlers.Params.{BanPayload, UnbanPayload}
use bunkerweb_mcp.Handlers.{
  Env, Action, ban_request_model, unban_request_model, read_through, mutate, text_or_null,
  validate_all, put,
}

abbrev pub ban_message : String
ban_message =
    "The BunkerWeb API rejected the ban request. "
    <> "Common causes: IP already banned, invalid IP format, or instance configuration issues. "
    <> "Check the instance logs for detailed error information."

abbrev pub unban_message : String
unban_message =
    "The BunkerWeb API rejected the unban request. "
    <> "Common causes: IP not currently banned, invalid IP format, or instance configuration issues. "
    <> "Check the instance logs for detailed error information."

-- result.get("status") == "error"
abbrev pub is_error : Option Value → Bool
is_error (some (str s)) = s == "error"
is_error v = false

-- not result.get("message")
abbrev pub is_missing : Option Value → Bool
is_missing none = true
is_missing (some v) = not (truthy v)

-- A rejection without a message gets one.
unfoldable pub enrich : String → Fields → Fields
unfolding get truthy
enrich message fs =
    if is_error (get "status" fs) && is_missing (get "message" fs)
    then put "message" (str message) fs
    else fs

abbrev pub enriched : String → Result Fields → Result Fields
enriched message (ok fs) = ok (enrich message fs)
enriched message (err e) = err e

-- self.model_dump()
abbrev pub ban_fields : BanPayload → Value
ban_fields p = obj (
    field "ip" (str p.ip) (
      field "exp" (int (pos p.exp))
        (field "reason" (str p.reason) (field "service" (text_or_null p.service) end))))

abbrev pub unban_fields : UnbanPayload → Value
unban_fields p = obj (field "ip" (str p.ip) (field "service" (text_or_null p.service) end))

module _ (e : Env) where
  -- to_model() of each item
  unfoldable pub ban_models : List BanPayload → Result (List Value)
  unfolding validate_all
  ban_models bans = validate_all (e.validate ban_request_model) (map ban_fields bans)

  unfoldable pub unban_models : List UnbanPayload → Result (List Value)
  unfolding validate_all
  unban_models bans = validate_all (e.validate unban_request_model) (map unban_fields bans)

module _ {S : Type 0} (cache : Backend S) (e : Env) where
  unfoldable pub handle_list_bans : Action S
  unfolding list_bans read_through
  handle_list_bans = read_through cache e "list_bans" "list_bans" (list_bans e.client)

  unfoldable pub handle_ban_ip : List BanPayload → Action S
  unfolding ban_models ban mutate enrich
  handle_ban_ip bans s =
      let (result, s') = mutate cache e "bans" (ban_models e bans >>= ban e.client) s in
      (enriched ban_message result, s')

  unfoldable pub handle_unban_ip : List UnbanPayload → Action S
  unfolding unban_models unban mutate enrich
  handle_unban_ip bans s =
      let (result, s') = mutate cache e "bans" (unban_models e bans >>= unban e.client) s in
      (enriched unban_message result, s')
