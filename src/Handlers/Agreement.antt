-- ===== src/Handlers/Agreement.antt =====
-- What the calls of the tools of src/bunkerweb_mcp/tools/ share with and without the cache.
use bunkerweb_mcp.Prelude.{
  ℕ, ◌≡◌, refl, ap, String, Bool, true, false, none, some, Option-cases, inl, inr,
}
use bunkerweb_mcp.Prelude.Dict.{lookup}
use bunkerweb_mcp.Json.{Value, Fields}
use bunkerweb_mcp.Errors.{Result, ok, err, Result-cases}
use bunkerweb_mcp.Client.{Client}
use bunkerweb_mcp.Upstream.Facts.{Facts}
use bunkerweb_mcp.Cache.{Backend, cache_ttl, invalidate_cache}
use bunkerweb_mcp.ServiceWrites.{ServiceUpdateParams}
use bunkerweb_mcp.ServiceWrites.Preflight.{Preflight, preflight_update}
use bunkerweb_mcp.Handlers.Params.{all_bytes}
use bunkerweb_mcp.Handlers.{Env, State, serialize, read_through, mutate}
use bunkerweb_mcp.Handlers.Services.{
  handle_list_services, handle_get_service, handle_create_service, handle_update_service,
  handle_delete_service, send_update, finish_update, reads_of,
}
use bunkerweb_mcp.Handlers.Instances.{
  handle_list_instances, handle_ping_instances, handle_stop_instances, handle_get_instance,
  handle_create_instance, handle_update_instance, handle_delete_instances, handle_reload_instances,
}
use bunkerweb_mcp.Handlers.Bans.{
  handle_list_bans, handle_ban_ip, handle_unban_ip, enriched, ban_models, unban_models,
}
use bunkerweb_mcp.Handlers.Configs.{
  handle_get_global_config, handle_update_global_config, handle_list_configs, handle_get_config,
  handle_create_config, handle_update_config, handle_delete_configs, handle_upload_configs,
  handle_update_config_upload, build_config_key,
}
use bunkerweb_mcp.Handlers.Files.{handle_list_cache, handle_delete_cache_files}
use bunkerweb_mcp.Handlers.Plugins.{
  handle_list_plugins, handle_upload_plugins, handle_delete_plugin,
}
use bunkerweb_mcp.Handlers.Jobs.{
  handle_list_jobs, handle_run_jobs, handle_ping_api, handle_create_api_token,
}
use bunkerweb_mcp.Handlers.Keys.{
  Read, services, service, bans, instances, instance_of, global_config, key_of,
}
use bunkerweb_mcp.Handlers.Calls.{
  Write, create_service, update_service, delete_service, ban_ip, unban_ip, update_global_config,
  Other, ping_instances, stop_instances, create_instance, update_instance, delete_instances,
  reload_instances, list_configs, get_config, create_config, update_config, delete_configs,
  upload_configs, update_config_upload, list_plugins, upload_plugins, delete_plugin, list_cache,
  delete_cache_files, list_jobs, run_jobs, ping_api, create_api_token, answer, run_read, run_write,
  run_other,
}

-- The same surroundings with CACHE_ENABLED off.
abbrev pub uncached : Env → Env
uncached e = record e { cache_enabled = false }

abbrev pub is_ok {ℓ} : {A : Type ℓ} → Result A → Bool
is_ok (ok a) = true
is_ok (err e) = false

-- The name under which a read finds its time to live.
abbrev pub name_of : Read → String
name_of (services b) = "list_services"
name_of (service p) = "get_service"
name_of bans = "list_bans"
name_of instances = "list_instances"
name_of (instance_of h) = "get_instance"
name_of (global_config p) = "get_global_config"

-- Every cached read has a time to live.
pub ttl_lem : (r : Read) → (ttl : ℕ) × (lookup (name_of r) cache_ttl ≡ some ttl)
unfolding lookup
ttl_lem (services b) = (300, refl)
ttl_lem (service p) = (300, refl)
ttl_lem bans = (30, refl)
ttl_lem instances = (60, refl)
ttl_lem (instance_of h) = (60, refl)
ttl_lem (global_config p) = (600, refl)

pub answer-uncached : (e : Env) (r : Read) → answer (uncached e) r ≡ answer e r
unfolding answer
answer-uncached e (services b) = refl
answer-uncached e (service p) = refl
answer-uncached e bans = refl
answer-uncached e instances = refl
answer-uncached e (instance_of h) = refl
answer-uncached e (global_config p) = refl

module _ {S : Type 0} (cache : Backend S) where
  -- A write with the cache in the state `c` and one without: the same result and the same facts,
  -- and the cache is cleared exactly where the write succeeds.
  abbrev pub WritesAlike : S → Result Fields × State S → Result Fields × State S → Type 0
  WritesAlike c r r' =
      (r.0 ≡ r'.0)
      × (r.1.facts ≡ r'.1.facts)
      × (is_ok r.0 ≡ true → r.1.cached ≡ cache.clear c)
      × (is_ok r.0 ≡ false → r.1.cached ≡ c)

  mutate-WritesAlike :
      (e : Env) (pattern : String) (x : Result Value) (c c' : S) (f : Facts)
      → WritesAlike c
          (mutate cache e pattern x (record { cached = c; facts = f }))
          (mutate cache (uncached e) pattern x (record { cached = c'; facts = f }))
  unfolding mutate invalidate_cache
  mutate-WritesAlike e pattern (ok v) c c' f = (refl, refl, λ h. refl, λ h. absurd (cc))
  mutate-WritesAlike e pattern (err x) c c' f = (refl, refl, λ h. absurd (cc), λ h. refl)

  enriched-WritesAlike :
      (message : String) (c : S) (r r' : Result Fields × State S)
      → WritesAlike c r r'
      → WritesAlike c (enriched message r.0, r.1) (enriched message r'.0, r'.1)
  enriched-WritesAlike message c (ok fs, s) r' (e, f, g, h) =
      (ap (enriched message) e, f, g, λ k. h k)
  enriched-WritesAlike message c (err x, s) r' (e, f, g, h) =
      (ap (enriched message) e, f, λ k. g k, h)

  abbrev enriching : String → Result Fields × State S → Result Fields × State S
  enriching message r = (enriched message r.0, r.1)

  ban-WritesAlike :
      (e : Env) (message : String) (x : Result Value) (c c' : S) (f : Facts)
      → WritesAlike c
          (enriching message (mutate cache e "bans" x (record { cached = c; facts = f })))
          (enriching message
            (mutate cache (uncached e) "bans" x (record { cached = c'; facts = f })))
  ban-WritesAlike e message x c c' f =
      enriched-WritesAlike message c (mutate cache e "bans" x (record { cached = c; facts = f }))
        (mutate cache (uncached e) "bans" x (record { cached = c'; facts = f }))
        (mutate-WritesAlike e "bans" x c c' f)

  finish_update-WritesAlike :
      (e : Env) (after : Client) (p : ServiceUpdateParams) (sent : Result Preflight) (c c' : S)
      (f : Facts)
      → WritesAlike c
          (finish_update cache e after p sent (record { cached = c; facts = f }))
          (finish_update cache (uncached e) after p sent (record { cached = c'; facts = f }))
  unfolding finish_update mutate invalidate_cache send_update
  finish_update-WritesAlike e after p (err x) c c' f = (refl, refl, λ h. absurd (cc), λ h. refl)
  finish_update-WritesAlike e after p (ok sent) c c' f =
      elim (Result-cases (send_update e p sent)) [
        | inl (v, h) ↦ rw (finish_update, h) (refl, refl, λ h. refl, λ h. absurd (cc))
        | inr (x, h) ↦ rw (finish_update, h) (refl, refl, λ h. absurd (cc), λ h. refl)
      ]

  pub run_write-WritesAlike :
      (e : Env) (w : Write) (c c' : S) (f : Facts)
      → WritesAlike c
          (run_write cache e w (record { cached = c; facts = f }))
          (run_write cache (uncached e) w (record { cached = c'; facts = f }))
  unfolding run_write handle_create_service handle_update_service handle_delete_service
      handle_ban_ip handle_unban_ip handle_update_global_config ban_models unban_models
  run_write-WritesAlike e (create_service p) c c' f = mutate-WritesAlike e "services" _ c c' f
  run_write-WritesAlike e (update_service again after p) c c' f =
      let (sent, facts) = preflight_update (reads_of e again p) p f in
      finish_update-WritesAlike e after p sent c c' facts
  run_write-WritesAlike e (delete_service s) c c' f = mutate-WritesAlike e "services" _ c c' f
  run_write-WritesAlike e (ban_ip ps) c c' f = ban-WritesAlike e _ _ c c' f
  run_write-WritesAlike e (unban_ip ps) c c' f = ban-WritesAlike e _ _ c c' f
  run_write-WritesAlike e (update_global_config fs) c c' f =
      mutate-WritesAlike e "global_config" _ c c' f

  -- Another call with the cache and one without: the same result and the same facts, and the cache
  -- stays as it is.
  abbrev pub OthersAlike : S → Result Fields × State S → Result Fields × State S → Type 0
  OthersAlike c r r' = (r.0 ≡ r'.0) × (r.1.facts ≡ r'.1.facts) × (r.1.cached ≡ c)

  pub run_other-OthersAlike :
      (e : Env) (o : Other) (c c' : S) (f : Facts)
      → OthersAlike c
          (run_other cache e o (record { cached = c; facts = f }))
          (run_other cache (uncached e) o (record { cached = c'; facts = f }))
  unfolding run_other serialize handle_ping_instances handle_stop_instances handle_create_instance
      handle_update_instance handle_delete_instances handle_reload_instances handle_list_configs
      handle_get_config handle_create_config handle_update_config handle_delete_configs
      handle_upload_configs handle_update_config_upload handle_list_plugins handle_upload_plugins
      handle_delete_plugin handle_list_cache handle_delete_cache_files handle_list_jobs
      handle_run_jobs handle_ping_api handle_create_api_token build_config_key
  run_other-OthersAlike e (ping_instances none) c c' f = (refl, refl, refl)
  run_other-OthersAlike e (ping_instances (some h)) c c' f = (refl, refl, refl)
  run_other-OthersAlike e (stop_instances p) c c' f = elim (Option-cases p.hostname) [
    | inl h ↦ rw (handle_stop_instances, h) (refl, refl, refl)
    | inr (host, h) ↦ rw (handle_stop_instances, h) (refl, refl, refl)
  ]
  run_other-OthersAlike e (reload_instances p) c c' f = elim (Option-cases p.target.hostname) [
    | inl h ↦ rw (handle_reload_instances, h) (refl, refl, refl)
    | inr (host, h) ↦ rw (handle_reload_instances, h) (refl, refl, refl)
  ]
  run_other-OthersAlike e (upload_plugins p) c c' f = elim (Result-cases (all_bytes p.files)) [
    | inl (files, h) ↦ rw (handle_upload_plugins, h) (refl, refl, refl)
    | inr (x, h) ↦ rw (handle_upload_plugins, h) (refl, refl, refl)
  ]
  run_other-OthersAlike e (create_instance p) c c' f = (refl, refl, refl)
  run_other-OthersAlike e (update_instance p) c c' f = (refl, refl, refl)
  run_other-OthersAlike e (delete_instances p) c c' f = (refl, refl, refl)
  run_other-OthersAlike e (list_configs p) c c' f = (refl, refl, refl)
  run_other-OthersAlike e (get_config p) c c' f = (refl, refl, refl)
  run_other-OthersAlike e (create_config p) c c' f = (refl, refl, refl)
  run_other-OthersAlike e (update_config p) c c' f = (refl, refl, refl)
  run_other-OthersAlike e (delete_configs p) c c' f = (refl, refl, refl)
  run_other-OthersAlike e (upload_configs p) c c' f = (refl, refl, refl)
  run_other-OthersAlike e (update_config_upload p) c c' f = (refl, refl, refl)
  run_other-OthersAlike e (list_plugins p) c c' f = (refl, refl, refl)
  run_other-OthersAlike e (delete_plugin p) c c' f = (refl, refl, refl)
  run_other-OthersAlike e (list_cache p) c c' f = (refl, refl, refl)
  run_other-OthersAlike e (delete_cache_files p) c c' f = (refl, refl, refl)
  run_other-OthersAlike e list_jobs c c' f = (refl, refl, refl)
  run_other-OthersAlike e (run_jobs p) c c' f = (refl, refl, refl)
  run_other-OthersAlike e ping_api c c' f = (refl, refl, refl)
  run_other-OthersAlike e (create_api_token p) c c' f = (refl, refl, refl)

  pub run_read_lem :
      (e : Env) (r : Read) (s : State S)
      → run_read cache e r s ≡ read_through cache e (key_of r) (name_of r) (answer e r) s
  unfolding run_read answer handle_list_services handle_get_service handle_list_bans
      handle_list_instances handle_get_instance handle_get_global_config
  run_read_lem e (services b) s = refl
  run_read_lem e (service p) s = refl
  run_read_lem e bans s = refl
  run_read_lem e instances s = refl
  run_read_lem e (instance_of h) s = refl
  run_read_lem e (global_config p) s = refl
