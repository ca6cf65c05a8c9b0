-- ===== src/Allocator/Request/Kept.antt =====
-- The pools of internal/allocator/allocator.go before and after Allocate.
use purelb.Base.{
  ◌≡◌, refl, inl, inr, Bool, true, false, List, [], ◌∷◌, String, Option, none, some, string_eq,
  Option-cases,
}
use purelb.Base.Dict
use purelb.Base.Result.{Result, ok, err}
use purelb.Net.{Ip, Parser}
use purelb.Service.{Service, namespaced_name}
use purelb.Pool.{Error}
use purelb.Pools
use purelb.Pools.{Pool}
use purelb.Pools.Kept as PoolsKept
use purelb.Pools.Kept.{Evolves}
use purelb.Allocator.{Allocator, update_stats, put_pool, pool_for, unassign}
use purelb.Allocator.Kept.{
  SamePools, SamePools-refl, SamePools-trans, put_pool-SamePools, unassign-SamePools, pool_for-get,
}
use purelb.Allocator.Request.{
  Step, join_name, assign_each, note_pools, specific_among, allocate_specific_ip, from_pool,
  assign_next_in, allocate_from_pool, allocate_after, allocate, desired_pool, service_addresses,
}

module _ (net : Parser) where
  assign_each-SamePools :
      (ips : List Ip) (names : String) (a : Allocator) (svc : Service)
      → SamePools a (assign_each net ips names a svc).1
  unfolding assign_each update_stats
  assign_each-SamePools [] names a svc = SamePools-refl a
  assign_each-SamePools (ip ∷ ips) names a svc = elim (Option-cases (pool_for net a.pools ip)) [
    | inl e ↦ rw (e, assign_each) (SamePools-refl a)
    | inr ((name, p), e) ↦
        let got = pool_for-get net a.pools ip e in
        let (failed, q, svc') = Pools.assign net p ip svc in
        let b = put_pool a name q in
        let step = put_pool-SamePools a name p q got (PoolsKept.assign-Evolves net p ip svc) in
        elim (Option-cases failed) [
          | inr (_, f) ↦ rw (e, assign_each, f) step
          | inl f ↦
              let c = update_stats b q in
              let joined = join_name net names (Pools.pool_name q) in
              rw (e, assign_each, f)
                (SamePools-trans a c (assign_each net ips joined c svc').1 step
                  (assign_each-SamePools ips joined c svc'))
        ]
  ]

  note_pools-SamePools :
      (a : Allocator) (out : Step String) → SamePools a out.1 → SamePools a (note_pools net out).1
  unfolding note_pools
  note_pools-SamePools a (ok names, b, svc) h = h
  note_pools-SamePools a (err e, b, svc) h = h

  specific_among-SamePools :
      (found : Result Error (List Ip)) (a : Allocator) (svc : Service)
      → SamePools a (specific_among net found a svc).1
  unfolding specific_among
  specific_among-SamePools (err e) a svc = SamePools-refl a
  specific_among-SamePools (ok []) a svc = SamePools-refl a
  specific_among-SamePools (ok (ip ∷ ips)) a svc =
      let b = unassign net a (namespaced_name svc) in
      note_pools-SamePools a (assign_each net (ip ∷ ips) "" b svc) (
        SamePools-trans a b (assign_each net (ip ∷ ips) "" b svc).1
          (unassign-SamePools net a (namespaced_name svc))
          (assign_each-SamePools (ip ∷ ips) "" b svc))

  from_pool-SamePools :
      (a : Allocator) (name : String) (p : Pool) (out : Option Error × Pool × Service)
      → Dict.get a.pools name ≡ some p
      → Evolves p out.1
      → SamePools a (from_pool net a name out).1
  unfolding from_pool update_stats
  from_pool-SamePools a name p (none, q, svc) e ev = put_pool-SamePools a name p q e ev
  from_pool-SamePools a name p (some _, q, svc) e ev = put_pool-SamePools a name p q e ev

  assign_next_in-SamePools :
      (a : Allocator) (name : String) (svc : Service) (found : Option Pool)
      → Dict.get a.pools name ≡ found
      → SamePools a (assign_next_in net a name svc found).1
  unfolding assign_next_in
  assign_next_in-SamePools a name svc none e = SamePools-refl a
  assign_next_in-SamePools a name svc (some p) e =
      from_pool-SamePools a name p (Pools.assign_next net p svc) e
        (PoolsKept.assign_next-Evolves net p svc)

  allocate_from_pool-SamePools :
      (a : Allocator) (name : String) (svc : Service)
      → SamePools a (allocate_from_pool net a name svc).1
  unfolding allocate_from_pool
  allocate_from_pool-SamePools a name svc =
      let b = unassign net a (namespaced_name svc) in
      SamePools-trans a b (allocate_from_pool net a name svc).1
        (unassign-SamePools net a (namespaced_name svc))
        (assign_next_in-SamePools b name svc (Dict.get b.pools name) refl)

  allocate_after-SamePools :
      (a : Allocator) (out : Step Bool) → SamePools a out.1 → SamePools a (allocate_after net out).1
  unfolding allocate_after
  allocate_after-SamePools a (err e, b, svc) h = h
  allocate_after-SamePools a (ok true, b, svc) h = h
  allocate_after-SamePools a (ok false, b, svc) h =
      elim (Option-cases (Dict.get b.pools (desired_pool net svc))) [
        | inl e ↦ rw (e, allocate_after) h
        | inr (_, e) ↦
            rw (e, allocate_after)
              (SamePools-trans a b (allocate_from_pool net b (desired_pool net svc) svc).1 h
                (allocate_from_pool-SamePools b (desired_pool net svc) svc))
      ]

  pub allocate-SamePools : (a : Allocator) (svc : Service) → SamePools a (allocate net a svc).1
  unfolding allocate allocate_specific_ip
  allocate-SamePools a svc =
      allocate_after-SamePools a (allocate_specific_ip net a svc)
        (specific_among-SamePools (service_addresses net svc) a svc)
