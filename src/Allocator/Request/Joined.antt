-- ===== src/Allocator/Request/Joined.antt =====
-- allocateSpecificIP and NotifyExisting of internal/allocator/allocator.go: the pool annotation of a
-- service with several requested addresses, and what a later start makes of it.
use Prim.Native.Nat.{suc}
use purelb.Base.{
  Bool, ◌≡◌, ◌≢◌, refl, sym, ap, subst, ◌∙◌, inl, inr, true, List, [], ◌∷◌, String, Option, none,
  some, length, All, none-ne-some, string_eq, Option-cases,
}
use purelb.Base.Dict
use purelb.Base.Dict.{All-get}
use purelb.Base.Result.{Result, ok, err}
use purelb.Net.{Ip, Parser}
use purelb.Service.{Service, annotation, annotate, pool_annotation, namespaced_name}
use purelb.Pool.{Error}
use purelb.Pools
use purelb.Pools.{Pool, pool_name, local, netbox}
use purelb.Pools.Kept as PoolsKept
use purelb.Pools.Kept.{Evolves-name}
use purelb.LocalPool.Ingress.{Addressed, Addressed-trans, Addressed-refl, assign-Addressed}
use purelb.NetboxPool.Ingress as NetboxIngress
use purelb.Allocator.{
  Allocator, update_stats, put_pool, pool_for, unassign, notify_in, notify_existing,
}
use purelb.Allocator.Kept.{
  Alike-get, SamePools, SamePools-refl, SamePools-trans, put_pool-SamePools, unassign-SamePools,
  pool_for-get,
}
use purelb.Allocator.Config.{IsConfig, IsNamed, Alike-IsConfig}
use purelb.Allocator.Request.{
  Step, join_name, assign_each, note_pools, specific_among, allocate_specific_ip, service_addresses,
}
use purelb.Allocator.Request.Branches.{annotation-annotate, Addressed-annotations}

-- The allocator has a pool of the name.
abbrev pub Known : Allocator → String → Type 0
Known a name = Dict.get a.pools name ≢ none

SamePools-Known : (a b : Allocator) (name : String) → SamePools a b → Known b name → Known a name
SamePools-Known a b name same known e =
    follows (Dict.get a.pools name) (Dict.get b.pools name) (Alike-get a.pools b.pools name same) e
      known
  where
    follows : (o o' : Option Pool) → purelb.Allocator.Kept.Follows o o' → o ≡ none → o' ≢ none → ⊥
    follows none none f e k = k refl
    follows (some p) o' f e k = none-ne-some (sym e)
    follows none (some q) f e k = f

SamePools-All :
    (a b : Allocator)
    → SamePools a b
    → (names : List String) → All (Known b) names
    → All (Known a) names
SamePools-All a b same [] h = tt
SamePools-All a b same (n ∷ ns) h = (SamePools-Known a b n same h.0, SamePools-All a b same ns h.1)

module _ (net : Parser) where
  pool_assign-Addressed :
      (p : Pool) (ip : Ip) (svc : Service) → Addressed svc (Pools.assign net p ip svc).2
  unfolding Pools.assign
  pool_assign-Addressed (local p) ip svc = assign-Addressed net p ip svc
  pool_assign-Addressed (netbox p) ip svc = NetboxIngress.assign-Addressed net p ip svc

  -- The names of the pools as they are joined, after those so far.
  abbrev pub join_names : String → List String → String
  join_names so_far [] = so_far
  join_names so_far (name ∷ names) = join_names (join_name net so_far name) names

  -- What assign_each gives: known pools' names, one for each address, and a service that has other
  -- addresses at most.
  record Joined (a : Allocator) (ips : List Ip) (so_far : String) (svc : Service) (joined : String)
      (svc' : Service) : Type 0 where
    names : List String
    count : length names ≡ length ips
    known : All (Known a) names
    joins : joined ≡ join_names so_far names
    rest : Addressed svc svc'

  abbrev Fine : Allocator → List Ip → String → Service → Step String → Type 0
  Fine a ips so_far svc (ok joined, _, svc') = Joined a ips so_far svc joined svc'
  Fine a ips so_far svc (err e, _, svc') = Unit

  Fine-cons :
      (a c : Allocator) (ip : Ip) (ips : List Ip) (so_far name : String) (svc svc' : Service)
      (out : Step String)
      → Known a name
      → SamePools a c
      → Addressed svc svc'
      → Fine c ips (join_name net so_far name) svc' out
      → Fine a (ip ∷ ips) so_far svc out
  Fine-cons a c ip ips so_far name svc svc' (err e, d, svc'') known same by fine = tt
  Fine-cons a c ip ips so_far name svc svc' (ok joined, d, svc'') known same by fine = record {
    names = name ∷ fine.names;
    count = ap suc fine.count;
    known = (known, SamePools-All a c same fine.names fine.known);
    joins = fine.joins;
    rest = Addressed-trans svc svc' svc'' by fine.rest;
  }

  assign_each-Fine :
      (ips : List Ip) (so_far : String) (a : Allocator) (svc : Service)
      → IsConfig a.pools
      → Fine a ips so_far svc (assign_each net ips so_far a svc)
  unfolding assign_each update_stats
  assign_each-Fine [] so_far a svc cfg = record {
    names = [];
    count = refl;
    known = tt;
    joins = refl;
    rest = Addressed-refl svc;
  }
  assign_each-Fine (ip ∷ ips) so_far a svc cfg = elim (Option-cases (pool_for net a.pools ip)) [
    | inl e ↦ rw (e, assign_each) tt
    | inr ((name, p), e) ↦
        let got = pool_for-get net a.pools ip e in
        let (failed, q, svc') = Pools.assign net p ip svc in
        let b = put_pool a name q in
        let c = update_stats b q in
        let evolves = PoolsKept.assign-Evolves net p ip svc in
        let same : SamePools a c = put_pool-SamePools a name p q got evolves in
        let named : pool_name q ≡ name =
          Evolves-name p q evolves ∙ All-get IsNamed a.pools name p cfg.named got in
        elim (Option-cases failed) [
          | inr (_, f) ↦ rw (e, assign_each, f) tt
          | inl f ↦
              rw (e, assign_each, f)
                (Fine-cons a c ip ips so_far (pool_name q) svc svc' _
                  (subst (λ n. Known a n) (sym named) (λ gone. none-ne-some (sym gone ∙ got))) same
                  (pool_assign-Addressed p ip svc)
                  (assign_each-Fine ips (join_name net so_far (pool_name q)) c svc'
                    (Alike-IsConfig a.pools c.pools same cfg)))
        ]
  ]

  notify_existing-unnamed :
      (b : Allocator) (svc : Service) {name : String}
      → annotation svc pool_annotation ≡ some name
      → Dict.get b.pools name ≡ none
      → notify_existing net b svc ≡ (none, b)
  unfolding notify_existing notify_in
  notify_existing-unnamed b svc {name} e gone =
      rw (e, notify_existing) (ap (λ o. notify_in net b svc name o) gone)

  -- No pool of the second allocator has a joined name of pools of the first.
  abbrev pub Unnamed : Allocator → Allocator → List Ip → Type 0
  Unnamed a b ips =
      (names : List String)
      → length names ≡ length ips
      → All (Known a) names
      → Dict.get b.pools (join_names "" names) ≡ none

  note_pools-forgotten :
      (a b : Allocator) (svc : Service) (ips : List Ip) (out : Step String)
      {m : List (String × String)} {a' : Allocator} {svc' : Service}
      → Fine a ips "" svc out
      → svc.annotations ≡ some m
      → Unnamed a b ips
      → note_pools net out ≡ (ok true, a', svc')
      → notify_existing net b svc' ≡ (none, b)
  unfolding note_pools
  note_pools-forgotten a b svc ips (err e, c, svc1) fine has unnamed run = cc
  note_pools-forgotten a b svc ips (ok joined, c, svc1) fine has unnamed run =
      let is =
        annotation-annotate svc1 pool_annotation joined
          (Addressed-annotations svc svc1 fine.rest ∙ has) in
      let gone =
        ap (λ n. Dict.get b.pools n) fine.joins ∙ unnamed fine.names fine.count fine.known in
      subst (λ (r : Result Error Bool × Allocator × Service). notify_existing net b r.2 ≡ (none, b))
        run (notify_existing-unnamed b (annotate svc1 pool_annotation joined) is gone)

  -- Where the pools are a configuration and the service has a map of annotations: once
  -- allocateSpecificIP has given a service the addresses that it asks for, NotifyExisting of an
  -- allocator that has no pool under any joined name of as many of these pools neither records the
  -- addresses nor reports an error.
  pub allocate_specific_ip-forgotten :
      (a b : Allocator) (svc : Service) {m : List (String × String)} {ips : List Ip}
      {a' : Allocator} {svc' : Service}
      → IsConfig a.pools
      → svc.annotations ≡ some m
      → service_addresses net svc ≡ ok ips
      → allocate_specific_ip net a svc ≡ (ok true, a', svc')
      → Unnamed a b ips
      → notify_existing net b svc' ≡ (none, b)
  unfolding allocate_specific_ip specific_among
  allocate_specific_ip-forgotten a b svc {m} {ips} {a'} {svc'} cfg has wants run unnamed =
      go ips (ap (λ found. specific_among net found a svc) (sym wants) ∙ run) unnamed
    where
      go :
          (found : List Ip)
          → specific_among net (ok found) a svc ≡ (ok true, a', svc')
          → Unnamed a b found
          → notify_existing net b svc' ≡ (none, b)
      go [] h u = cc
      go (ip ∷ ips) h u =
          let a0 = unassign net a (namespaced_name svc) in
          let same = unassign-SamePools net a (namespaced_name svc) in
          note_pools-forgotten a0 b svc (ip ∷ ips) (assign_each net (ip ∷ ips) "" a0 svc)
            (assign_each-Fine (ip ∷ ips) "" a0 svc (Alike-IsConfig a.pools a0.pools same cfg)) has
            (λ names count known. u names count (SamePools-All a a0 same names known)) h
