-- ===== src/Handlers/Targets.antt =====
-- Which instances the tools of src/bunkerweb_mcp/tools/instance_handlers.py act on.
use bunkerweb_mcp.Prelude.{
  ◌≡◌, refl, String, Bool, true, false, none, some, Option-cases, Bool-cases, inl, inr,
}
use bunkerweb_mcp.Errors.{ok}
use bunkerweb_mcp.Client.Nodes.{stop_instance, stop_instances, reload_instance, reload_instances}
use bunkerweb_mcp.Cache.{Backend}
use bunkerweb_mcp.Handlers.{Env, State, serialize}
use bunkerweb_mcp.Handlers.Params.{InstanceTargetParams, exactly_one_target}
use bunkerweb_mcp.Handlers.Instances.{handle_stop_instances, handle_reload_instances}

-- Every instance, by `all` and no hostname, or the one instance that is named.
pub data Target (p : InstanceTargetParams) : Type 0 where
  every : p.hostname ≡ none → p.all ≡ true → Target p
  only : (host : String) → p.hostname ≡ some host → p.all ≡ false → Target p

exactly_one_target_lem : (p q : InstanceTargetParams) → exactly_one_target p ≡ ok q → Target p
unfolding exactly_one_target
exactly_one_target_lem p q h = elim (Option-cases p.hostname) [
  | inl unnamed ↦ elim (Bool-cases p.all) [
    | inl all ↦ every unnamed all
    | inr some_only ↦ let g = rw (exactly_one_target, unnamed, some_only) at h in absurd (cc)
  ]
  | inr (host, named) ↦ elim (Bool-cases p.all) [
    | inl all ↦ let g = rw (exactly_one_target, named, all) at h in absurd (cc)
    | inr one_only ↦ only host named one_only
  ]
]

-- What a tool with a target does: with every instance where `all` is given, else with the one named.
pub data ActsOn (p : InstanceTargetParams) {R : Type 0} (result all_of : R) (one : String → R)
    : Type 0 where
  on_every : p.all ≡ true → result ≡ all_of → ActsOn p result all_of one
  on_one :
      (host : String)
      → p.hostname ≡ some host
      → p.all ≡ false
      → result ≡ one host
      → ActsOn p result all_of one

module _ {S : Type 0} (cache : Backend S) (e : Env) where
  -- A stop or a reload whose parameters pass the check acts on every instance only where `all` is
  -- true, and then no hostname was given; otherwise it acts on the instance that was named, and `all`
  -- was false. A reload passes its flag `test` on.
  pub instance_target-ActsOn :
      (p q : InstanceTargetParams) (test : Bool) (s : State S)
      → exactly_one_target p ≡ ok q
      → ActsOn p
          (handle_stop_instances cache e p s)
          (serialize e (stop_instances e.client), s)
          (λ host. (serialize e (stop_instance e.client host), s))
        × ActsOn p
            (handle_reload_instances cache e (record { target = p; test = test }) s)
            (serialize e (reload_instances e.client test), s)
            (λ host. (serialize e (reload_instance e.client host test), s))
  unfolding handle_stop_instances handle_reload_instances
  instance_target-ActsOn p q test s h = elim (exactly_one_target_lem p q h) [
    | every unnamed all ↦ (
      on_every all (rw (handle_stop_instances, unnamed) refl),
      on_every all (rw (handle_reload_instances, unnamed) refl),
    )
    | only host named one_only ↦ (
      on_one host named one_only (rw (handle_stop_instances, named) refl),
      on_one host named one_only (rw (handle_reload_instances, named) refl),
    )
  ]
