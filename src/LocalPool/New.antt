-- ===== src/LocalPool/New.antt =====
-- NewLocalPool of internal/allocator/localpool.go: a pool from its specification.
use purelb.Base.{
  List, [], ◌∷◌, ◌++◌, is_nil, String, Option, none, some, ◌==◌, nat_eq, string_eq, if◌then◌else◌,
}
use purelb.Base.Result.{Result, ok, err, ◌>>=◌, ◌>>◌, guard}
use purelb.Net.{Ip, IpNet, Parser}
use purelb.IpRange.{IpRange, ParseError, new_ip_range, contained_by, family, family_v4, family_v6}
use purelb.ServiceGroup.{AddressPool, LocalSpec}
use purelb.Pool.{
  Error, bad_range, bad_subnet, not_contained, both_legacy_and_family, no_valid_range,
}
use purelb.LocalPool.{LocalPool}

unfoldable pub empty_pool : String → List IpRange → List IpRange → LocalPool
empty_pool name v4 v6 = record {
  name = name;
  v4_ranges = v4;
  v6_ranges = v6;
  addresses_in_use = [];
  sharing_keys = [];
  ports_in_use = [];
}

-- append(pools, *pool), if there is one.
abbrev pub with_legacy : List AddressPool → Option AddressPool → List AddressPool
with_legacy pools none = pools
with_legacy pools (some pool) = pools ++ pool ∷ []

unfoldable pub range_error : Result ParseError IpRange → Result Error IpRange
range_error (ok r) = ok r
range_error (err e) = err (bad_range e)

unfoldable pub subnet_error : Option (Ip × IpNet) → Result Error IpNet
subnet_error none = err bad_subnet
subnet_error (some (_, subnet)) = ok subnet

-- Where a range from the top level of the specification goes.
unfoldable pub place_legacy :
    String → List IpRange → List IpRange → IpRange → Result Error LocalPool
unfolding empty_pool
place_legacy name v4 v6 r =
    if family r == family_v6
    then (if is_nil v6 then ok (empty_pool name v4 (r ∷ [])) else err both_legacy_and_family)
    else if family r == family_v4
    then (if is_nil v4 then ok (empty_pool name (r ∷ []) v6) else err both_legacy_and_family)
    else ok (empty_pool name v4 v6)

-- The last check.
unfoldable pub some_range : LocalPool → Result Error LocalPool
some_range p =
    if is_nil p.v6_ranges then (if is_nil p.v4_ranges then err no_valid_range else ok p) else ok p

module _ (net : Parser) where
  -- The range of one pool, contained by its subnet.
  unfoldable pub contained_range : String → String → Result Error IpRange
  unfolding range_error subnet_error
  contained_range pool subnet = do
    r ← range_error (new_ip_range net pool)
    cidr ← subnet_error (net.parse_cidr subnet)
    guard (contained_by r cidr) not_contained
    ok r

  unfoldable pub pool_ranges : List AddressPool → Result Error (List IpRange)
  unfolding contained_range
  pool_ranges [] = ok []
  pool_ranges (pool ∷ pools) = do
    r ← contained_range pool.pool pool.subnet
    rs ← pool_ranges pools
    ok (r ∷ rs)

  -- A top-level pool whose text is no range is passed over without an error.
  unfoldable pub add_legacy :
      String → LocalSpec → List IpRange → List IpRange → Result Error LocalPool
  unfolding place_legacy contained_range
  add_legacy name spec v4 v6 =
      if spec.pool == "" then ok (empty_pool name v4 v6) else elim (new_ip_range net spec.pool) [
        | err _ ↦ ok (empty_pool name v4 v6)
        | ok _ ↦ do r ← contained_range spec.pool spec.subnet; place_legacy name v4 v6 r
      ]

  unfoldable pub new_local_pool : String → LocalSpec → Result Error LocalPool
  unfolding pool_ranges add_legacy some_range
  new_local_pool name spec = do
    v6 ← pool_ranges (with_legacy spec.v6_pools spec.v6_pool)
    v4 ← pool_ranges (with_legacy spec.v4_pools spec.v4_pool)
    p ← add_legacy name spec v4 v6
    some_range p
