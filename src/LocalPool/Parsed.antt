-- ===== src/LocalPool/Parsed.antt =====
-- The pools that NewLocalPool of internal/allocator/localpool.go makes.
use purelb.Base.{
  ◌≡◌, ◌≢◌, ◌⊎◌, Option, none, ap, All-append, refl, subst, inl, inr, Bool, true, false, ◌&&◌, List,
  [], ◌∷◌, is_nil, String, some, All, arith, ◌==◌, nat_eq, string_eq, Bool-cases,
}
use purelb.Base.Dict.{Dict, get-nil}
use purelb.Base.Result.{Result, ok, err, guard, >>=-eq-ok, Result-cases, ok-injective}
use purelb.Net.{Ip, net_contains, IpNet, IsWide, Parser, IsParser}
use purelb.IpRange.{IpRange, ParseError, new_ip_range, contained_by}
use purelb.IpRange.Bounds.{IsRange}
use purelb.IpRange.Parse.{new_ip_range-IsRange}
use purelb.ServiceGroup.{AddressPool, LocalSpec}
use purelb.Pool.{not_contained}
use purelb.LocalPool.{LocalPool, in_use}
use purelb.Service.{Port, port_eq}
use purelb.LocalPool.Views.{owner}
use purelb.LocalPool.Invariant.{Inv}
use purelb.LocalPool.New.{
  with_legacy, empty_pool, contained_range, range_error, subnet_error, pool_ranges, add_legacy,
  place_legacy, some_range, new_local_pool,
}

-- One of a list of pools.
abbrev pub Among : AddressPool → List AddressPool → Type 0
Among s [] = ⊥
Among s (pool ∷ pools) = (s ≡ pool) ⊎ Among s pools

-- The pools of a family in a specification: those of the list, the single one, and the top level, which
-- belongs to either family.
abbrev pub IsSource : LocalSpec → List AddressPool → Option AddressPool → AddressPool → Type 0
IsSource spec pools single s =
    Among s pools ⊎ ((single ≡ some s) ⊎ ((s.pool ≡ spec.pool) × (s.subnet ≡ spec.subnet)))

-- A range as it was read from a pool of which P holds, inside of the subnet of that pool.
pub record IsParsed (net : Parser) (P : AddressPool → Type 0) (r : IpRange) : Type 0 where
  pub source : AddressPool
  pub listed : P source
  pub read : new_ip_range net source.pool ≡ ok r
  pub address : Ip
  pub subnet : IpNet
  pub cidr : net.parse_cidr source.subnet ≡ some (address, subnet)
  pub from_inside : net_contains subnet r.from ≡ true
  pub to_inside : net_contains subnet r.to ≡ true
  pub wide : IsWide r.from
  pub range : IsRange r

-- A pool with ranges of the specification, each inside of its subnet, and no address in use.
pub record IsFresh (net : Parser) (spec : LocalSpec) (name : String) (p : LocalPool) : Type 0 where
  pub named : p.name ≡ name
  pub v4 : All (IsParsed net (IsSource spec spec.v4_pools spec.v4_pool)) p.v4_ranges
  pub v6 : All (IsParsed net (IsSource spec spec.v6_pools spec.v6_pool)) p.v6_ranges
  pub invariant : Inv p
  pub unused : in_use p ≡ 0

All-Among :
    (P : AddressPool → Type 0) (pools : List AddressPool)
    → ((s : AddressPool) → Among s pools → P s)
    → All P pools
All-Among P [] h = tt
All-Among P (pool ∷ pools) h = (h pool (inl refl), All-Among P pools (λ s m. h s (inr m)))

with_legacy-IsSource :
    (spec : LocalSpec) (pools : List AddressPool) (single : Option AddressPool)
    → All (IsSource spec pools single) (with_legacy pools single)
with_legacy-IsSource spec pools none = All-Among (IsSource spec pools none) pools (λ s m. inl m)
with_legacy-IsSource spec pools (some pool) =
    All-append (IsSource spec pools (some pool)) pools (pool ∷ [])
      (All-Among (IsSource spec pools (some pool)) pools (λ s m. inl m)) (inr (inl refl), tt)

subnet_error-ok :
    (m : Option (Ip × IpNet)) {n : IpNet}
    → subnet_error m ≡ ok n
    → (address : Ip) × (m ≡ some (address, n))
unfolding subnet_error
subnet_error-ok none h = cc
subnet_error-ok (some (address, n)) h = (address, ap (λ x. some (address, x)) (ok-injective h))

both :
    (r : IpRange) (n : IpNet)
    → contained_by r n ≡ true
    → (net_contains n r.from ≡ true) × (net_contains n r.to ≡ true)
unfolding contained_by
both r n h = ground arith

empty_pool-owner :
    (name : String) (v4 v6 : List IpRange) (ip : String) (q : Port) {s : String}
    → owner (empty_pool name v4 v6) ip q ≢ some s
unfolding empty_pool
empty_pool-owner name v4 v6 ip q {s} e =
    ground (arith, get-nil {V = String} q, get-nil {V = Dict Port String} ip)

pub empty_pool-Inv : (name : String) (v4 v6 : List IpRange) → Inv (empty_pool name v4 v6)
unfolding empty_pool
empty_pool-Inv name v4 v6 = record {
  keyed = λ ip. (λ e. get-nil ip, λ e. get-nil ip);
  occupied = λ ip e. ground (arith, get-nil {V = Dict String Bool} ip);
  owned = λ ip q s e. absurd (empty_pool-owner name v4 v6 ip q e);
}

guard-ok : {E : Type 0} (b : Bool) (e : E) {u : Unit} → guard b e ≡ ok u → b ≡ true
guard-ok true e h = refl
guard-ok false e h = cc

range_error-ok : (m : Result ParseError IpRange) {r : IpRange} → range_error m ≡ ok r → m ≡ ok r
unfolding range_error
range_error-ok (ok r) h = cc
range_error-ok (err e) h = cc

module _ (net : Parser) (good : IsParser net) where
  contained_range-IsParsed :
      (P : AddressPool → Type 0) (s : AddressPool) (r : IpRange)
      → P s
      → contained_range net s.pool s.subnet ≡ ok r
      → IsParsed net P r
  unfolding contained_range
  contained_range-IsParsed P s r listed h =
      let (r', e, h1) = >>=-eq-ok (range_error (new_ip_range net s.pool)) _ h in
      let (n, c, h2) = >>=-eq-ok (subnet_error (net.parse_cidr s.subnet)) _ h1 in
      let (_, g, h3) = >>=-eq-ok (guard (contained_by r' n) not_contained) _ h2 in
      let read = range_error-ok (new_ip_range net s.pool) e in
      let (wide, range) = new_ip_range-IsRange net good s.pool read in
      let (address, cidr) = subnet_error-ok (net.parse_cidr s.subnet) c in
      let (first, last) = both r' n (guard-ok (contained_by r' n) not_contained g) in
      let parsed : IsParsed net P r' = record {
        source = s;
        listed = listed;
        read = read;
        address = address;
        subnet = n;
        cidr = cidr;
        from_inside = first;
        to_inside = last;
        wide = wide;
        range = range;
      } in
      subst (IsParsed net P) (ok-injective h3) parsed

  pool_ranges-IsParsed :
      (P : AddressPool → Type 0) (pools : List AddressPool) (rs : List IpRange)
      → All P pools
      → pool_ranges net pools ≡ ok rs
      → All (IsParsed net P) rs
  unfolding pool_ranges
  pool_ranges-IsParsed P [] rs l h = subst (All (IsParsed net P)) (ok-injective h) tt
  pool_ranges-IsParsed P (pool ∷ pools) rs l h =
      let (r, e, h1) = >>=-eq-ok (contained_range net pool.pool pool.subnet) _ h in
      let (rest, e', h2) = >>=-eq-ok (pool_ranges net pools) _ h1 in
      subst (All (IsParsed net P)) (ok-injective h2)
        (contained_range-IsParsed P pool r l.0 e, pool_ranges-IsParsed P pools rest l.1 e')

  module _ (name : String) (spec : LocalSpec) where
    abbrev Ranges4 : List IpRange → Type 0
    Ranges4 rs = All (IsParsed net (IsSource spec spec.v4_pools spec.v4_pool)) rs

    abbrev Ranges6 : List IpRange → Type 0
    Ranges6 rs = All (IsParsed net (IsSource spec spec.v6_pools spec.v6_pool)) rs

    empty_pool-IsFresh :
        (v4 v6 : List IpRange)
        → Ranges4 v4
        → Ranges6 v6
        → IsFresh net spec name (empty_pool name v4 v6)
    unfolding empty_pool in_use
    empty_pool-IsFresh v4 v6 h4 h6 = record {
      named = refl;
      v4 = h4;
      v6 = h6;
      invariant = empty_pool-Inv name v4 v6;
      unused = refl;
    }

    place_legacy-IsFresh :
        (v4 v6 : List IpRange) {r : IpRange} {p : LocalPool}
        → Ranges4 v4
        → Ranges6 v6
        → Ranges4 (r ∷ [])
        → Ranges6 (r ∷ [])
        → place_legacy name v4 v6 r ≡ ok p
        → IsFresh net spec name p
    unfolding place_legacy
    place_legacy-IsFresh v4 v6 {r} {p} h4 h6 as4 as6 h = ground (
      arith,
      empty_pool-IsFresh v4 v6 h4 h6,
      empty_pool-IsFresh v4 (r ∷ []) h4 as6,
      empty_pool-IsFresh (r ∷ []) v6 as4 h6,
    )

    -- The top level as a pool.
    abbrev top : AddressPool
    top = record { pool = spec.pool; subnet = spec.subnet; aggregation = spec.aggregation }

    add_legacy-IsFresh :
        (v4 v6 : List IpRange) {p : LocalPool}
        → Ranges4 v4
        → Ranges6 v6
        → add_legacy net name spec v4 v6 ≡ ok p
        → IsFresh net spec name p
    unfolding add_legacy
    add_legacy-IsFresh v4 v6 {p} h4 h6 h = elim (Bool-cases (spec.pool == "")) [
      | inl none_given ↦
          subst (IsFresh net spec name) (ok-injective (rw none_given at h))
            (empty_pool-IsFresh v4 v6 h4 h6)
      | inr given ↦ elim (Result-cases (new_ip_range net spec.pool)) [
        | inr (_, unread) ↦
            subst (IsFresh net spec name) (ok-injective (rw (given, unread) at h))
              (empty_pool-IsFresh v4 v6 h4 h6)
        | inl (_, read) ↦
            let (r, e, placed) =
              >>=-eq-ok (contained_range net spec.pool spec.subnet) (place_legacy name v4 v6)
                (rw (given, read) at h) in
            place_legacy-IsFresh v4 v6 h4 h6 (as_top spec.v4_pools spec.v4_pool r e, tt)
              (as_top spec.v6_pools spec.v6_pool r e, tt) placed
      ]
    ]
      where
        as_top :
            (pools : List AddressPool) (single : Option AddressPool) (r : IpRange)
            → contained_range net spec.pool spec.subnet ≡ ok r
            → IsParsed net (IsSource spec pools single) r
        as_top pools single r e =
            contained_range-IsParsed (IsSource spec pools single) top r (inr (inr (refl, refl))) e

    some_range-ok :
        (p : LocalPool) {q : LocalPool}
        → some_range p ≡ ok q
        → (p ≡ q) × (is_nil q.v6_ranges && is_nil q.v4_ranges ≡ false)
    unfolding some_range
    some_range-ok p h = ground arith

    -- A pool that NewLocalPool makes has the name it was given, at least one range and no address
    -- in use; each range is what NewIPRange reads from one of the specification's pools of its
    -- family, or from its top level, begins with a 16-byte address, and has both ends in the
    -- network that ParseCIDR reads from the subnet that stands beside it; and the three maps agree
    -- with one another.
    pub new_local_pool-IsFresh :
        {p : LocalPool}
        → new_local_pool net name spec ≡ ok p
        → IsFresh net spec name p × (is_nil p.v6_ranges && is_nil p.v4_ranges ≡ false)
    unfolding new_local_pool
    new_local_pool-IsFresh {p} h =
        let P4 = IsSource spec spec.v4_pools spec.v4_pool in
        let P6 = IsSource spec spec.v6_pools spec.v6_pool in
        let (v6, e6, h1) =
          >>=-eq-ok (pool_ranges net (with_legacy spec.v6_pools spec.v6_pool)) _ h in
        let (v4, e4, h2) =
          >>=-eq-ok (pool_ranges net (with_legacy spec.v4_pools spec.v4_pool)) _ h1 in
        let (q, e, h3) = >>=-eq-ok (add_legacy net name spec v4 v6) some_range h2 in
        let (same, has_range) = some_range-ok q h3 in
        let fresh =
          add_legacy-IsFresh v4 v6
            (pool_ranges-IsParsed P4 _ v4 (with_legacy-IsSource spec spec.v4_pools spec.v4_pool) e4)
            (pool_ranges-IsParsed P6 _ v6 (with_legacy-IsSource spec spec.v6_pools spec.v6_pool) e6)
            e in
        (subst (IsFresh net spec name) same fresh, has_range)
