-- ===== src/NodeAgent.antt =====
-- The node agent's controller: cmd/lbnodeagent/controller.go, over the Announcer interface of
-- internal/lbnodeagent/announcer.go.
pub mod Branches
pub mod Disowned
pub mod Local
use Prim.Native.String.{◌++◌ as text_append}
use purelb.Base.{
  Bool, true, false, not, ◌&&◌, List, [], ◌∷◌, String, Option, none, some, is_nil, ◌==◌, string_eq,
  if◌then◌else◌,
}
use purelb.Service.{
  Service, annotation, unannotate, brand_annotation, brand, announce_annotation, namespaced_name,
  text_or_empty,
}
use purelb.Controller.{SyncState, success, error, reprocess_all}

-- Announcer, of implementations with a state in S, endpoints in E, configurations in C and errors
-- in F. SetBalancer may change the service's annotations.
pub record Announcer (S E C F : Type 0) : Type 0 where
  pub set_config : S → C → Option F × S
  pub set_balancer : S → Service → E → Option F × S × Service
  pub delete_balancer : S → String → String → Option F × S

-- Whether the service has the brand of PureLB: a nil map has no brand.
unfoldable pub is_ours : Service → Bool
unfolding annotation
is_ours svc = text_or_empty (annotation svc brand_annotation) == brand

-- svc.Annotations != nil && svc.Annotations[BrandAnnotation] != Brand
unfoldable pub is_foreign : Service → Bool
unfolding is_ours
is_foreign svc = elim svc.annotations [ none ↦ false | some _ ↦ not (is_ours svc) ]

-- The annotations that the program sets on the node's side, and its brand.
unfoldable pub disown : Service → Service
unfolding unannotate
disown svc =
    let a = unannotate (unannotate svc brand_annotation) announce_annotation in
    let b = unannotate a (text_append announce_annotation "-IPv4") in
    let c = unannotate b (text_append announce_annotation "-IPv6") in
    unannotate c (text_append announce_annotation "-unknown")

module _ {S E C F : Type 0} (ann : Announcer S E C F) where
  open ann use {set_config, set_balancer, delete_balancer}

  -- A loop over the announcers ends with an error if one of them failed.
  failed : Option F → SyncState → SyncState
  failed none rest = rest
  failed (some e) rest = error

  unfoldable pub announce_each : List S → Service → E → SyncState × List S × Service
  unfolding failed
  announce_each [] svc eps = (success, [], svc)
  announce_each (s ∷ ss) svc eps =
      let (e, s', svc') = set_balancer s svc eps in
      let (st, ss', svc'') = announce_each ss svc' eps in (failed e st, s' ∷ ss', svc'')

  unfoldable pub delete_each : List S → String → SyncState × List S
  unfolding failed
  delete_each [] name = (success, [])
  delete_each (s ∷ ss) name =
      let (e, s') = delete_balancer s name "cluster event" in
      let (st, ss') = delete_each ss name in (failed e st, s' ∷ ss')

  unfoldable pub configure_each : List S → C → SyncState × List S
  unfolding failed
  configure_each [] cfg = (reprocess_all, [])
  configure_each (s ∷ ss) cfg =
      let (e, s') = set_config s cfg in
      let (st, ss') = configure_each ss cfg in (failed e st, s' ∷ ss')

  -- ServiceChanged. The result of the withdrawal is not looked at.
  unfoldable pub service_changed : List S → Service → E → SyncState × List S × Service
  unfolding is_ours is_foreign disown announce_each delete_each namespaced_name
  service_changed ss svc eps =
      if not (svc.spec_type == "LoadBalancer") && is_ours svc
      then (success, (delete_each ss (namespaced_name svc)).1, disown svc)
      else if is_nil svc.ingress
      then (success, ss, svc)
      else if is_foreign svc
      then (success, ss, svc)
      else announce_each ss svc eps
