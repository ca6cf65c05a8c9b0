-- ===== src/Controller.antt =====
-- The allocator's controller: internal/allocator/controller.go and internal/allocator/service.go,
-- with SyncState of internal/k8s/k8s.go and Config of pkg/apis/v1/config.go.
pub mod Reach
pub mod Branches
use purelb.Base.{
  Bool, true, false, not, ◌&&◌, ◌||◌, List, [], ◌∷◌, String, Option, none, some, is_nil, ◌==◌,
  string_eq, if◌then◌else◌,
}
use purelb.Net.{Parser}
use purelb.Service.{
  Service, annotation, annotate, unannotate, pool_annotation, brand_annotation, brand,
  service_lb_class, namespaced_name, text_or_empty,
}
use purelb.ServiceGroup.{ServiceGroup, NodeAgentSpec}
use purelb.NetboxPool.{Environment}
use purelb.Pool.{Error}
use purelb.Allocator.{Allocator, unassign, notify_existing}
use purelb.Allocator.Parse.{set_pools}
use purelb.Allocator.Request.{allocate}

pub data SyncState : Type 0 where
  success error reprocess_all : SyncState

-- Config
pub record Config : Type 0 where
  pub default_announcer : Bool
  pub groups : List ServiceGroup
  pub agents : List NodeAgentSpec

pub record Controller : Type 0 where
  pub synced : Bool
  pub ips : Allocator
  pub is_default : Bool

-- NewController
unfoldable pub new_controller : Allocator → Controller
new_controller ips = record { synced = false; ips = ips; is_default = false }

-- Whether a service with this class is left to others.
unfoldable pub other_class : Controller → Option String → Bool
other_class c none = not c.is_default
other_class c (some class) = not (class == service_lb_class)

-- A map where there is none yet.
unfoldable pub with_annotations : Service → Service
with_annotations svc = record svc {
  annotations = elim svc.annotations [ none ↦ some [] | some m ↦ some m ];
}

unfoldable pub mark_synced : Controller → Controller
mark_synced c = record c { synced = true }

abbrev pub Outcome : Type 0
Outcome = SyncState × Controller × Service

configured : Controller → Bool → Option Error × Allocator → SyncState × Controller
configured c announcer (some e, ips) = (error, record c { ips = ips })
configured c announcer (none, ips) = (reprocess_all, record c { ips = ips; is_default = announcer })

module _ (net : Parser) where
  unfoldable pub delete_balancer : Controller → String → SyncState × Controller
  unfolding unassign
  delete_balancer c name = (reprocess_all, record c { ips = unassign net c.ips name })

  unfoldable pub set_config : Environment → Controller → Option Config → SyncState × Controller
  unfolding configured set_pools
  set_config env c none = (error, c)
  set_config env c (some cfg) =
      configured c cfg.default_announcer (set_pools net env c.ips cfg.groups)

  -- The service is no load balancer: what it had from a pool of ours goes back.
  unfoldable pub clean_up : Controller → Service → Outcome
  unfolding unassign unannotate annotation namespaced_name
  clean_up c svc =
      let away = unannotate svc pool_annotation in
      let back = record c { ips = unassign net c.ips (namespaced_name svc) } in
      elim (annotation svc pool_annotation) [
        | none ↦ (success, c, away)
        | some _ ↦
            if is_nil svc.ingress
            then (success, c, away)
            else (success, back, unannotate (record svc { ingress = [] }) pool_annotation)
      ]

  -- The service has addresses: if they are of ours, the allocator is told; its error is logged.
  unfoldable pub recall : Controller → Service → Outcome
  unfolding notify_existing annotation
  recall c svc =
      let ips = (notify_existing net c.ips svc).1 in
      if text_or_empty (annotation svc brand_annotation) == brand
      then (success, record c { ips = ips }, svc)
      else (success, c, svc)

  -- The service gets an address; a failure is reported to the user, and is no error of the sync.
  unfoldable pub give_address : Controller → Service → Outcome
  unfolding allocate annotate
  give_address c svc =
      let (e, ips, svc') = allocate net c.ips (annotate svc brand_annotation brand) in
      (success, record c { ips = ips }, svc')

  balance : Controller → Service → Outcome
  unfolding clean_up recall give_address
  balance c svc =
      if not (svc.spec_type == "LoadBalancer")
      then clean_up c svc
      else if is_nil (net.parse_ip svc.cluster_ip)
      then (success, c, svc)
      else if is_nil svc.ingress
      then give_address c svc
      else recall c svc

  unfoldable pub set_balancer : Controller → Service → Outcome
  unfolding balance other_class with_annotations
  set_balancer c svc =
      if not c.synced
      then (error, c, svc)
      else if other_class c svc.load_balancer_class
      then (success, c, svc)
      else balance c (with_annotations svc)
