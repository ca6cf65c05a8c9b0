-- ===== src/Controller/Reach.antt =====
-- The controller as a state machine: the calls that the Kubernetes client makes, in any order.
use purelb.Base.{
  inl, inr, Bool, true, false, not, List, String, Option, none, some, is_nil, ◌==◌, string_eq,
  if◌then◌else◌, Bool-cases, Option-cases, ◌&&◌,
}
use purelb.Net.{Parser, IsParser}
use purelb.Service.{
  Service, annotation, pool_annotation, brand_annotation, brand, namespaced_name, annotate,
  text_or_empty,
}
use purelb.ServiceGroup.{ServiceGroup}
use purelb.NetboxPool.{Environment}
use purelb.Pool.{Error}
use purelb.Allocator.{Allocator, new_allocator}
use purelb.Allocator.Parse.{set_pools, parse_groups}
use purelb.Allocator.Kept.{SamePools, SamePools-refl, unassign-SamePools, notify_existing-SamePools}
use purelb.Allocator.Request.Kept.{allocate-SamePools}
use purelb.Allocator.Config.{IsConfig, nil-IsConfig, Alike-IsConfig, parse_groups-IsConfig}
use purelb.Allocator.Stats.{use_pools-pools}
use purelb.Controller.{
  Controller, Outcome, Config, new_controller, mark_synced, delete_balancer, configured, set_config,
  clean_up, recall, give_address, balance, set_balancer, with_annotations, other_class,
}

-- A configuration may come with another environment each time.
pub data Step (net : Parser) : Controller → Controller → Type 0 where
  config :
      (env : Environment) (c : Controller) (cfg : Option Config)
      → Step net c (set_config net env c cfg).1
  service : (c : Controller) (svc : Service) → Step net c (set_balancer net c svc).1
  deleted : (c : Controller) (name : String) → Step net c (delete_balancer net c name).1
  synced : (c : Controller) → Step net c (mark_synced c)

pub data Reachable (net : Parser) : Controller → Type 0 where
  start : Reachable net (new_controller new_allocator)
  next : (c d : Controller) → Reachable net c → Step net c d → Reachable net d

module _ (net : Parser) where
  abbrev KeepsPools : Controller → Outcome → Type 0
  KeepsPools c out = SamePools c.ips out.1.ips

  if-KeepsPools :
      (c : Controller) (b : Bool) (x y : Outcome)
      → KeepsPools c x
      → KeepsPools c y
      → KeepsPools c (if b then x else y)
  if-KeepsPools c true x y h k = h
  if-KeepsPools c false x y h k = k

  clean_up-KeepsPools : (c : Controller) (svc : Service) → KeepsPools c (clean_up net c svc)
  unfolding clean_up
  clean_up-KeepsPools c svc = elim (Option-cases (annotation svc pool_annotation)) [
    | inl e ↦ rw (e, clean_up) (SamePools-refl c.ips)
    | inr (name, e) ↦
        rw (e, clean_up)
          (if-KeepsPools c (is_nil svc.ingress) _ _ (SamePools-refl c.ips)
            (unassign-SamePools net c.ips (namespaced_name svc)))
  ]

  recall-KeepsPools : (c : Controller) (svc : Service) → KeepsPools c (recall net c svc)
  unfolding recall
  recall-KeepsPools c svc =
      if-KeepsPools c (text_or_empty (annotation svc brand_annotation) == brand) _ _
        (notify_existing-SamePools net c.ips svc) (SamePools-refl c.ips)

  balance-KeepsPools : (c : Controller) (svc : Service) → KeepsPools c (balance net c svc)
  unfolding balance give_address
  balance-KeepsPools c svc =
      if-KeepsPools c (not (svc.spec_type == "LoadBalancer")) _ _ (clean_up-KeepsPools c svc) (
        if-KeepsPools c (is_nil (net.parse_ip svc.cluster_ip)) _ _ (SamePools-refl c.ips) (
          if-KeepsPools c (is_nil svc.ingress) _ _
            (allocate-SamePools net c.ips (annotate svc brand_annotation brand))
            (recall-KeepsPools c svc)))

  -- Whatever a service asks for, SetBalancer leaves the same pools under the same names, each with
  -- its name and, if it is local, its ranges and its invariant.
  pub set_balancer-SamePools :
      (c : Controller) (svc : Service) → SamePools c.ips (set_balancer net c svc).1.ips
  unfolding set_balancer
  set_balancer-SamePools c svc = if-KeepsPools c (not c.synced) _ _ (SamePools-refl c.ips) (
      if-KeepsPools c (other_class c svc.load_balancer_class) _ _ (SamePools-refl c.ips)
        (balance-KeepsPools c (with_annotations svc)))

  module _ (good : IsParser net) where
    set_pools-IsConfig :
        (env : Environment) (a : Allocator) (groups : List ServiceGroup)
        → IsConfig a.pools
        → IsConfig (set_pools net env a groups).1.pools
    unfolding set_pools
    set_pools-IsConfig env a groups c =
        let m = parse_groups net env groups in
        elim (Bool-cases (not (is_nil groups) && is_nil m)) [
          | inl none_valid ↦ rw (none_valid, set_pools) c
          | inr used ↦
              rw (used, set_pools, use_pools-pools a m) (parse_groups-IsConfig net good env groups)
        ]

    set_config-IsConfig :
        (env : Environment) (c : Controller) (cfg : Option Config)
        → IsConfig c.ips.pools
        → IsConfig (set_config net env c cfg).1.ips.pools
    unfolding set_config
    set_config-IsConfig env c none h = h
    set_config-IsConfig env c (some cfg) h =
        one (set_pools net env c.ips cfg.groups) (set_pools-IsConfig env c.ips cfg.groups h)
      where
        one :
            (out : Option Error × Allocator)
            → IsConfig out.1.pools
            → IsConfig (configured c cfg.default_announcer out).1.ips.pools
        one (some e, a) h = h
        one (none, a) h = h

    step-IsConfig : (c d : Controller) → Step net c d → IsConfig c.ips.pools → IsConfig d.ips.pools
    unfolding delete_balancer mark_synced
    step-IsConfig c d (config env c' cfg) h = set_config-IsConfig env c cfg h
    step-IsConfig c d (service c' svc) h =
        Alike-IsConfig c.ips.pools d.ips.pools (set_balancer-SamePools c svc) h
    step-IsConfig c d (deleted c' name) h =
        Alike-IsConfig c.ips.pools d.ips.pools (unassign-SamePools net c.ips name) h
    step-IsConfig c d (synced c') h = h

    -- In every state that the controller can come to, a name has one pool, each pool has the name
    -- it is filed under, each local pool keeps its invariant, and of two pools one at least sees
    -- no overlap with the other.
    pub reachable-IsConfig : (c : Controller) → Reachable net c → IsConfig c.ips.pools
    unfolding new_controller new_allocator
    reachable-IsConfig c start = nil-IsConfig
    reachable-IsConfig c (next b c' r s) = step-IsConfig b c s (reachable-IsConfig b r)
