-- ===== src/Allocator/Request/Branches.antt =====
-- The service and the pools after allocateFromPool of internal/allocator/allocator.go.
use purelb.Base.{◌≡◌, refl, sym, ap, ◌∙◌, List, String, Option, none, some, string_eq, none-ne-some}
use purelb.Base.Dict
use purelb.Base.Dict.{get-put_self, All-get}
use purelb.Net.{Parser}
use purelb.Service.{Service, annotation, annotate, pool_annotation, namespaced_name}
use purelb.Pool.{Error}
use purelb.Pools
use purelb.Pools.{Pool, pool_name}
use purelb.Pools.Kept as PoolsKept
use purelb.Pools.Kept.{Evolves, Evolves-name}
use purelb.Pools.Ingress.{pool-Addressed}
use purelb.LocalPool.Ingress.{Addressed}
use purelb.Allocator.{Allocator, update_stats, put_pool, unassign}
use purelb.Allocator.Kept.{unassign-SamePools}
use purelb.Allocator.Config.{IsConfig, IsNamed, Alike-IsConfig}
use purelb.Allocator.Request.{from_pool, assign_next_in, allocate_from_pool}

pub annotation-annotate :
    (svc : Service) (key value : String) {m : List (String × String)}
    → svc.annotations ≡ some m
    → annotation (annotate svc key value) key ≡ some value
unfolding annotation annotate
annotation-annotate svc key value {m} e = rw (e, annotation) (get-put_self m key value)

pub Addressed-annotations :
    (svc svc' : Service) → Addressed svc svc' → svc'.annotations ≡ svc.annotations
Addressed-annotations svc svc' a = ap (λ s. s.annotations) a.rest

module _ (net : Parser) where
  -- A service has the name of a pool, and the pool is there.
  abbrev pub Named : String → Option Error × Allocator × Service → Type 0
  Named name out =
      (annotation out.2 pool_annotation ≡ some name)
      × (q : Pool) × (Dict.get out.1.pools name ≡ some q)

  from_pool-Named :
      (a : Allocator) (name : String) (out : Option Error × Pool × Service)
      {m : List (String × String)}
      → pool_name out.1 ≡ name
      → out.2.annotations ≡ some m
      → (from_pool net a name out).0 ≡ none
      → Named name (from_pool net a name out)
  unfolding from_pool update_stats put_pool
  from_pool-Named a name (some e, q, svc) n s h = absurd (none-ne-some (sym h))
  from_pool-Named a name (none, q, svc) n s h = (
    annotation-annotate svc pool_annotation (pool_name q) s ∙ ap some n,
    q,
    get-put_self a.pools name q,
  )

  assign_next_in-Named :
      (a : Allocator) (name : String) (svc : Service) (found : Option Pool)
      {m : List (String × String)}
      → ((p : Pool) → found ≡ some p → pool_name p ≡ name)
      → svc.annotations ≡ some m
      → (assign_next_in net a name svc found).0 ≡ none
      → Named name (assign_next_in net a name svc found)
  unfolding assign_next_in
  assign_next_in-Named a name svc none n s h = absurd (none-ne-some (sym h))
  assign_next_in-Named a name svc (some p) n s h =
      let out = Pools.assign_next net p svc in
      from_pool-Named a name out
        (Evolves-name p out.1 (PoolsKept.assign_next-Evolves net p svc) ∙ n p refl)
        (Addressed-annotations svc out.2 (pool-Addressed net p svc) ∙ s) h

  -- Where the pools are a configuration and the service has a map of annotations, an allocation
  -- from a pool that succeeds leaves the service with the pool's name as its pool annotation, and
  -- the allocator with a pool of this name.
  pub allocate_from_pool-Named :
      (a : Allocator) (name : String) (svc : Service) {m : List (String × String)}
      → IsConfig a.pools
      → svc.annotations ≡ some m
      → (allocate_from_pool net a name svc).0 ≡ none
      → Named name (allocate_from_pool net a name svc)
  unfolding allocate_from_pool
  allocate_from_pool-Named a name svc c s h =
      let b = unassign net a (namespaced_name svc) in
      let cfg = Alike-IsConfig a.pools b.pools (unassign-SamePools net a (namespaced_name svc)) c in
      assign_next_in-Named b name svc (Dict.get b.pools name)
        (λ p e. All-get IsNamed b.pools name p cfg.named e) s h
