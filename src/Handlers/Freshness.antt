-- ===== src/Handlers/Freshness.antt =====
-- What the tools of src/bunkerweb_mcp/tools/ leave in the caches of the server.
use bunkerweb_mcp.Prelude.{
  ℕ, ◌+◌, ◌≡◌, refl, sym, ap, ◌∙◌, String, Bool, List, [], ◌∷◌, Option, none, some,
}
use bunkerweb_mcp.Prelude.Dict.{lookup}
use bunkerweb_mcp.Json.{Fields}
use bunkerweb_mcp.Errors.{ok}
use bunkerweb_mcp.Upstream.Facts.{requested, start_catalog, invalidate_setting_catalog}
use bunkerweb_mcp.Cache.{Backend, Lawful}
use bunkerweb_mcp.Handlers.Params.{PluginUploadParams, all_bytes}
use bunkerweb_mcp.Handlers.{Env, State, serialize}
use bunkerweb_mcp.Handlers.Plugins.{handle_upload_plugins, handle_delete_plugin}
use bunkerweb_mcp.Handlers.Keys.{Read, key_of}
use bunkerweb_mcp.Handlers.Calls.{Write, Other, answer, run_read, run_write, run_other}
use bunkerweb_mcp.Handlers.Agreement.{is_ok, run_write-WritesAlike, run_other-OthersAlike}
use bunkerweb_mcp.Handlers.Coherence.{Isolated, run_read-IsCoherent}

some_absurd : {A : Type 0} {fs : Fields} → ◌≡◌ {A = Option Fields} none (some fs) → A
some_absurd h = absurd (cc)

module _ {S : Type 0} (cache : Backend S) where
  -- The state after calls of tools that do not use the cache, one after the other.
  abbrev pub after_others : List (Env × Other) → State S → State S
  after_others [] s = s
  after_others ((e, o) ∷ others) s = after_others others (run_other cache e o s).1

  after_others_cached :
      (others : List (Env × Other)) (s : State S) → (after_others others s).cached ≡ s.cached
  after_others_cached [] s = refl
  after_others_cached ((e, o) ∷ others) s =
      let (same, facts, kept) = run_other-OthersAlike cache e o s.cached s.cached s.facts in
      after_others_cached others (run_other cache e o s).1 ∙ kept

  -- After a creation, an update or a deletion of a service, a ban, an unban or an update of the
  -- global configuration that succeeds, and any calls, successful or not, of tools that are neither
  -- one of these nor a cached read, the next cached read, of whatever kind, returns what the
  -- control plane answers at that read, its errors included, whatever the cache held before.
  pub run_write-run_read :
      (e e' : Env) (w : Write) (others : List (Env × Other)) (r : Read) (s : State S)
      (result : Fields)
      → Lawful S cache
      → Isolated S cache
      → (run_write cache e w s).0 ≡ ok result
      → (run_read cache e' r (after_others others (run_write cache e w s).1)).0
        ≡ serialize e' (answer e' r)
  run_write-run_read e e' w others r s result lawful isolated h =
      let (same, facts, cleared, kept) =
        run_write-WritesAlike cache e w s.cached s.cached s.facts in
      let later = after_others others (run_write cache e w s).1 in
      let emptied = after_others_cached others (run_write cache e w s).1 ∙ cleared (ap is_ok h) in
      (run_read-IsCoherent cache isolated e' r later (λ q now value found. some_absurd (
        sym (lawful.get-clear s.cached now (key_of q))
        ∙ ap (λ c. cache.get c now (key_of q)) (sym emptied)
        ∙ found))).0

module _ {S : Type 0} (e : Env) where
  -- After an upload whose files could be decoded, and after a deletion, whether the control plane
  -- accepted it or not, the setting catalog is asked for anew: no cached one is used, and the request
  -- belongs to the generation after the one in which the call began.
  pub plugins-start_catalog :
      (p : PluginUploadParams) (plugin_id : String) (s : State S) (files : List (String × List ℕ))
      (url : String) (refresh : Bool) (now : ℕ)
      → all_bytes p.files ≡ ok files
      → (start_catalog (handle_upload_plugins e p s).1.facts url refresh now
          ≡ requested (s.facts.generation + 1))
        × (start_catalog (handle_delete_plugin e plugin_id s).1.facts url refresh now
            ≡ requested (s.facts.generation + 1))
  unfolding handle_upload_plugins handle_delete_plugin start_catalog invalidate_setting_catalog
      lookup
  plugins-start_catalog p plugin_id s files url refresh now h =
      (rw (handle_upload_plugins, h) refl, refl)
