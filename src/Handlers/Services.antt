-- ===== src/Handlers/Services.antt =====
-- src/bunkerweb_mcp/tools/service_handlers.py
use bunkerweb_mcp.Prelude.{String, Bool, true, false, [], none, some, ◌<>◌}
use bunkerweb_mcp.Prelude.Dict.{Dict}
use bunkerweb_mcp.Json.{Value, null, bool, str, obj, Fields, end, field, get}
use bunkerweb_mcp.Errors.{Result, ok, err, ◌>>=◌}
use bunkerweb_mcp.Client.{Client}
use bunkerweb_mcp.Client.Nodes.{get_openapi_version}
use bunkerweb_mcp.Client.Resources.{
  list_services, get_service, create_service, update_service, delete_service, read_global_config,
  list_plugins,
}
use bunkerweb_mcp.ServiceWrites.{ServiceUpdateParams}
use bunkerweb_mcp.ServiceWrites.Preflight.{Reads, Preflight, preflight_update}
use bunkerweb_mcp.ServiceWrites.Receipt.{receipt_target, build_receipt}
use bunkerweb_mcp.Cache.{Backend}
use bunkerweb_mcp.Handlers.Params.{GetServiceParams, ServiceCreateParams}
use bunkerweb_mcp.Handlers.{
  Env, Action, service_create_request, service_update_request, read_through, mutate, show_flag,
  texts_or_null, texts, text_field, flag_field, merge,
}

-- response.data of the dump of an answer
abbrev pub data_in : Fields → Value
data_in fs = elim (get "data" fs) [ none ↦ null | some v ↦ v ]

unfoldable pub data_of : Result Value → Result Value
unfolding get
data_of (ok (obj fs)) = ok (data_in fs)
data_of (ok v) = ok null
data_of (err e) = err e

abbrev pub get_service_key : GetServiceParams → String
get_service_key p =
    "get_service:"
    <> p.service
    <> ":"
    <> show_flag p.full
    <> ":"
    <> show_flag p.methods
    <> ":"
    <> show_flag p.with_drafts

-- params.model_dump()
abbrev pub service_fields : ServiceCreateParams → Fields
service_fields p =
    field "server_name" (str p.server_name)
      (field "is_draft" (bool p.is_draft) (field "variables" (texts_or_null p.variables) end))

-- sent.variables or None
abbrev pub variables_field : Dict String → Fields → Fields
variables_field [] fs = fs
variables_field variables fs = field "variables" (obj (texts variables)) fs

-- What the update sends: no key without a value.
abbrev pub update_fields : Preflight → Fields
update_fields sent =
    text_field "server_name" sent.server_name
      (flag_field "is_draft" sent.is_draft (variables_field sent.variables end))

module _ (e : Env) where
  -- The reads of `preflight_update`; the times are those of the call, and `again` is the control
  -- plane when the plugins are read a second time.
  abbrev pub reads_of : Client → ServiceUpdateParams → Reads
  reads_of again p = record {
    base_url = e.base_url;
    global_config = data_of (read_global_config e.client true false);
    service = data_of (get_service e.client p.service true true true);
    plugins = data_of (list_plugins e.client "all" false);
    plugins_now = e.now;
    plugins_later = e.later;
    openapi = ok (get_openapi_version e.client);
    openapi_now = e.now;
    openapi_later = e.later;
    plugins_again = data_of (list_plugins again "all" false);
    again_now = e.now;
    again_later = e.later;
  }

  -- The service is updated.
  unfoldable pub send_update : ServiceUpdateParams → Preflight → Result Value
  unfolding update_service
  send_update p sent =
      e.validate service_update_request (obj (update_fields sent))
      >>= update_service e.client p.service

module _ {S : Type 0} (cache : Backend S) (e : Env) where
  unfoldable pub handle_list_services : Bool → Action S
  unfolding list_services read_through
  handle_list_services with_drafts =
      read_through cache e ("list_services:" <> show_flag with_drafts) "list_services"
        (list_services e.client with_drafts)

  unfoldable pub handle_get_service : GetServiceParams → Action S
  unfolding get_service read_through
  handle_get_service p =
      read_through cache e (get_service_key p) "get_service"
        (get_service e.client p.service p.full p.methods p.with_drafts)

  unfoldable pub handle_create_service : ServiceCreateParams → Action S
  unfolding create_service mutate
  handle_create_service p =
      mutate cache e "services"
        (e.validate service_create_request (obj (service_fields p)) >>= create_service e.client)

  -- After the preflight, in the state that it leaves; `after` is the control plane once the update
  -- has been answered, when the receipt is built.
  unfoldable pub finish_update : Client → ServiceUpdateParams → Result Preflight → Action S
  unfolding send_update data_of get_service mutate build_receipt
  finish_update after p (err x) s = (err x, s)
  finish_update after p (ok sent) s = elim (send_update e p sent) [
    | err x ↦ (err x, s)
    | ok response ↦
        let cleared = (mutate cache e "services" (ok response) s).1 in
        let (receipt, facts) =
          build_receipt p sent (data_of (get_service after (receipt_target p sent) true true true))
            e.base_url e.later (ok (get_openapi_version after)) e.later cleared.facts in
        (ok (merge receipt (e.dump response)), record { cached = cleared.cached; facts = facts })
  ]

  unfoldable pub handle_update_service : Client → Client → ServiceUpdateParams → Action S
  unfolding preflight_update finish_update
  handle_update_service again after p s =
      let (sent, facts) = preflight_update (reads_of e again p) p s.facts in
      finish_update after p sent (record { cached = s.cached; facts = facts })

  unfoldable pub handle_delete_service : String → Action S
  unfolding delete_service mutate
  handle_delete_service service = mutate cache e "services" (delete_service e.client service)
