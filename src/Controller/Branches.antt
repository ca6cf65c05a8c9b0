-- ===== src/Controller/Branches.antt =====
-- What SetBalancer of internal/allocator/service.go answers, branch by branch.
use purelb.Base.{
  ◌≡◌, ◌↔◌, refl, ◌∙◌, inl, inr, true, false, not, ◌&&◌, [], String, none, some, is_nil, arith,
  ◌==◌, string_eq, Option-cases,
}
use purelb.Base.Dict
use purelb.Base.Dict.{get-nil, get-remove_self}
use purelb.Net.{Parser}
use purelb.Service.{Service, annotation, unannotate, pool_annotation, namespaced_name}
use purelb.LocalPool.{LocalPool}
use purelb.Pools.{local}
use purelb.Allocator.Config.{IsConfig}
use purelb.Allocator.Freed.{IsFreed, unassign-IsFreed}
use purelb.Controller.{
  Controller, success, error, clean_up, recall, give_address, balance, set_balancer,
  with_annotations, other_class,
}

module _ (net : Parser) where
  clean_up-success : (c : Controller) (svc : Service) → (clean_up net c svc).0 ≡ success
  unfolding clean_up
  clean_up-success c svc = ground arith

  recall-success : (c : Controller) (svc : Service) → (recall net c svc).0 ≡ success
  unfolding recall
  recall-success c svc = ground arith

  balance-success : (c : Controller) (svc : Service) → (balance net c svc).0 ≡ success
  unfolding balance give_address
  balance-success c svc = ground (arith, clean_up-success c svc, recall-success c svc)

  -- SetBalancer reports an error, for the client to try again, exactly while the controller is
  -- not synced: no failure to allocate is one.
  pub set_balancer-error :
      (c : Controller) (svc : Service) → ((set_balancer net c svc).0 ≡ error) ↔ (c.synced ≡ false)
  unfolding set_balancer
  set_balancer-error c svc = ground (arith, balance-success c (with_annotations svc))

  recall-ingress : (c : Controller) (svc : Service) → (recall net c svc).2.ingress ≡ svc.ingress
  unfolding recall
  recall-ingress c svc = ground arith

  -- A load balancer that has an address keeps the addresses that it has: SetBalancer neither
  -- takes one away nor adds one.
  pub set_balancer-ingress :
      (c : Controller) (svc : Service)
      → (svc.spec_type == "LoadBalancer") ≡ true
      → is_nil svc.ingress ≡ false
      → (set_balancer net c svc).2.ingress ≡ svc.ingress
  unfolding set_balancer balance with_annotations
  set_balancer-ingress c svc is has = ground (arith, recall-ingress c (with_annotations svc))

  -- Before it is synced, and for a service of another class, SetBalancer changes nothing.
  pub set_balancer-ignored :
      (c : Controller) (svc : Service)
      → (c.synced && not (other_class c svc.load_balancer_class)) ≡ false
      → ((set_balancer net c svc).1 ≡ c) × ((set_balancer net c svc).2 ≡ svc)
  unfolding set_balancer
  set_balancer-ignored c svc h = ground arith

-- A service that has nothing from any pool: no address and no pool, and no part in a local pool.
pub record IsCleanedUp (c d : Controller) (svc svc' : Service) : Type 0 where
  pub no_ingress : svc'.ingress ≡ []
  pub no_pool : annotation svc' pool_annotation ≡ none
  pub freed :
      (name : String) (p : LocalPool)
      → Dict.get c.ips.pools name ≡ some (local p)
      → IsFreed c.ips d.ips name p (namespaced_name svc)

unannotate-annotation : (svc : Service) (key : String) → annotation (unannotate svc key) key ≡ none
unfolding annotation unannotate
unannotate-annotation svc key = elim (Option-cases svc.annotations) [
  | inl e ↦ rw (e, annotation)
  | inr (m, e) ↦ rw (e, annotation) (get-remove_self m key)
]

module _ (net : Parser) where
  set_balancer-clean_up :
      (c : Controller) (svc : Service)
      → c.synced ≡ true
      → other_class c svc.load_balancer_class ≡ false
      → (svc.spec_type == "LoadBalancer") ≡ false
      → set_balancer net c svc ≡ clean_up net c (with_annotations svc)
  unfolding set_balancer balance with_annotations
  set_balancer-clean_up c svc ready ours other = ground arith

  annotation-with_annotations :
      (svc : Service) (key : String) → annotation (with_annotations svc) key ≡ annotation svc key
  unfolding annotation with_annotations
  annotation-with_annotations svc key = elim (Option-cases svc.annotations) [
    | inl e ↦ rw (e, annotation) (get-nil key)
    | inr (m, e) ↦ rw (e, annotation)
  ]

  clean_up-IsCleanedUp :
      (c : Controller) (svc : Service) {pool : String}
      → annotation svc pool_annotation ≡ some pool
      → is_nil svc.ingress ≡ false
      → IsConfig c.ips.pools
      → IsCleanedUp c (clean_up net c svc).1 svc (clean_up net c svc).2
  unfolding clean_up
  clean_up-IsCleanedUp c svc ann has cfg =
      rw (ann, clean_up, has)
        (record {
          no_ingress = refl;
          no_pool = unannotate-annotation (record svc { ingress = [] }) pool_annotation;
          freed = λ name p e. unassign-IsFreed net c.ips (namespaced_name svc) name p cfg e;
        })

  -- A service that is ours, has a pool annotation and addresses, and is no longer a load balancer
  -- loses them when the controller is synced and its pools are a configuration: it has no ingress
  -- and no pool afterwards, and in every local pool its addresses and ports are free, while the
  -- other services keep theirs.
  pub set_balancer-IsCleanedUp :
      (c : Controller) (svc : Service) {pool : String}
      → c.synced ≡ true
      → other_class c svc.load_balancer_class ≡ false
      → (svc.spec_type == "LoadBalancer") ≡ false
      → annotation svc pool_annotation ≡ some pool
      → is_nil svc.ingress ≡ false
      → IsConfig c.ips.pools
      → IsCleanedUp c (set_balancer net c svc).1 svc (set_balancer net c svc).2
  unfolding set_balancer balance with_annotations
  set_balancer-IsCleanedUp c svc ready ours other ann has cfg =
      let cleaned =
        clean_up-IsCleanedUp c (with_annotations svc)
          (annotation-with_annotations svc pool_annotation ∙ ann) has cfg in
      rw (set_balancer-clean_up c svc ready ours other) (record {
        no_ingress = cleaned.no_ingress;
        no_pool = cleaned.no_pool;
        freed = cleaned.freed;
      })

  balance-synced : (c : Controller) (svc : Service) → (balance net c svc).1.synced ≡ c.synced
  unfolding balance clean_up recall give_address
  balance-synced c svc = ground arith

  -- SetBalancer leaves the controller synced, or not.
  pub set_balancer-synced :
      (c : Controller) (svc : Service) → (set_balancer net c svc).1.synced ≡ c.synced
  unfolding set_balancer
  set_balancer-synced c svc = ground (arith, balance-synced c (with_annotations svc))
