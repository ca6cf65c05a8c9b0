-- ===== src/ServiceGroup/Lookup.antt =====
-- The look-ups of pkg/apis/v1/types.go in a local specification, by an address or a family.
use purelb.Base.{
  ℕ, ◌≡◌, refl, subst, ◌⊎◌, inl, inr, Bool, true, false, not, ◌&&◌, List, [], ◌∷◌, String, Option,
  none, some, arith, ◌==◌, nat_eq, string_eq, if◌then◌else◌, Bool-cases,
}
use purelb.Base.Result.{Result, ok, err, ◌>>=◌, ok-injective}
use purelb.Net.{Ip, IpNet, Parser}
use purelb.IpRange.{IpRange, ParseError, new_ip_range, contains, addr_family, family_v4, family_v6}
use purelb.ServiceGroup.{AddressPool, LocalSpec}

pub data LookupError : Type 0 where
  invalid_subnet no_aggregation no_subnet : LookupError
  unknown_family : ℕ → LookupError

-- A pool that is nil is no pool to look at.
abbrev pub or_nil : Option AddressPool → List AddressPool
or_nil none = []
or_nil (some pool) = pool ∷ []

holds : Result ParseError IpRange → Ip → Bool
holds (err e) address = false
holds (ok r) address = contains r address

module _ (net : Parser) where
  -- err == nil && pool.Contains(address)
  unfoldable pub has_address : AddressPool → Ip → Bool
  unfolding holds
  has_address pool address = holds (new_ip_range net pool.pool) address

  unfoldable pub find_pool : List AddressPool → Ip → Option AddressPool
  unfolding has_address
  find_pool [] address = none
  find_pool (pool ∷ pools) address =
      let rest = find_pool pools address in if has_address pool address then some pool else rest

  -- The legacy pool is taken whether or not the address is in it.
  legacy_pool : LocalSpec → Result LookupError AddressPool
  legacy_pool s =
      if not (s.pool == "") && not (s.subnet == "")
      then ok (record { pool = s.pool; subnet = s.subnet; aggregation = s.aggregation })
      else err no_subnet

  or_legacy : LocalSpec → Option AddressPool → Result LookupError AddressPool
  unfolding legacy_pool
  or_legacy s none = legacy_pool s
  or_legacy s (some pool) = ok pool

  or_find : Option AddressPool → List AddressPool → Ip → Option AddressPool
  unfolding find_pool
  or_find none pools address = find_pool pools address
  or_find (some pool) pools address = some pool

  unfoldable pub pool_for_address : LocalSpec → Ip → Result LookupError AddressPool
  unfolding or_legacy or_find
  pool_for_address s address = or_legacy s (
      or_find
        (or_find (or_find (find_pool s.v6_pools address) s.v4_pools address) (or_nil s.v6_pool)
          address)
        (or_nil s.v4_pool) address)

  unfoldable pub address_subnet : LocalSpec → Ip → Result LookupError String
  unfolding pool_for_address
  address_subnet s address = do pool ← pool_for_address s address; ok pool.subnet

  unfoldable pub address_aggregation : LocalSpec → Ip → Result LookupError String
  unfolding pool_for_address
  address_aggregation s address = do pool ← pool_for_address s address; ok pool.subnet

  -- The aggregation of a family: of the family's own pool, or of the legacy subnet if that is of
  -- the family.
  legacy_aggregation : LocalSpec → ℕ → Option (Ip × IpNet) → Result LookupError String
  legacy_aggregation s family none = err invalid_subnet
  legacy_aggregation s family (some (ip, _)) =
      if not (addr_family ip == family) then err no_aggregation else ok s.aggregation

  aggregation_of : LocalSpec → ℕ → Option AddressPool → Result LookupError String
  unfolding legacy_aggregation
  aggregation_of s family (some pool) = ok pool.aggregation
  aggregation_of s family none = legacy_aggregation s family (net.parse_cidr s.subnet)

  unfoldable pub family_aggregation : LocalSpec → ℕ → Result LookupError String
  unfolding aggregation_of
  family_aggregation s family =
      if family == family_v4
      then aggregation_of s family_v4 s.v4_pool
      else if family == family_v6
      then aggregation_of s family_v6 s.v6_pool
      else err (unknown_family family)

  -- The aggregation that is given for an address is the subnet of its pool.
  pub aggregation-subnet :
      (s : LocalSpec) (address : Ip) → address_aggregation s address ≡ address_subnet s address
  unfolding address_aggregation address_subnet
  aggregation-subnet s address = refl

  -- A pool that has an address.
  abbrev Found : Ip → Option AddressPool → Type 0
  Found address none = Unit
  Found address (some pool) = has_address pool address ≡ true

  find_pool-Found :
      (pools : List AddressPool) (address : Ip) → Found address (find_pool pools address)
  unfolding find_pool
  find_pool-Found [] address = tt
  find_pool-Found (p ∷ pools) address = elim (Bool-cases (has_address p address)) [
    | inl here ↦ rw here here
    | inr not_here ↦ rw not_here (find_pool-Found pools address)
  ]

  or_find-Found :
      (found : Option AddressPool) (pools : List AddressPool) (address : Ip)
      → Found address found
      → Found address (or_find found pools address)
  unfolding or_find
  or_find-Found none pools address f = find_pool-Found pools address
  or_find-Found (some q) pools address f = f

  or_legacy-cases :
      (s : LocalSpec) (address : Ip) (found : Option AddressPool) {pool : AddressPool}
      → Found address found
      → or_legacy s found ≡ ok pool
      → (has_address pool address ≡ true) ⊎ ((found ≡ none) × (legacy_pool s ≡ ok pool))
  unfolding or_legacy
  or_legacy-cases s address none f h = inr (refl, h)
  or_legacy-cases s address (some q) f h =
      inl (subst (λ x. has_address x address ≡ true) (ok-injective h) f)

  legacy_pool-subnet :
      (s : LocalSpec) {pool : AddressPool}
      → legacy_pool s ≡ ok pool
      → (pool.pool ≡ s.pool) × (pool.subnet ≡ s.subnet) × (pool.aggregation ≡ s.aggregation)
  unfolding legacy_pool
  legacy_pool-subnet s h = ground arith

  -- The pool that is found for an address has the address in its range, or it is the one that the
  -- top level of the specification gives.
  pub pool_for_address-cases :
      (s : LocalSpec) (address : Ip) {pool : AddressPool}
      → pool_for_address s address ≡ ok pool
      → (has_address pool address ≡ true)
        ⊎ ((pool.pool ≡ s.pool) × (pool.subnet ≡ s.subnet) × (pool.aggregation ≡ s.aggregation))
  unfolding pool_for_address
  pool_for_address-cases s address h =
      let listed =
        or_find-Found (find_pool s.v6_pools address) s.v4_pools address
          (find_pool-Found s.v6_pools address) in
      let six = or_find-Found _ (or_nil s.v6_pool) address listed in
      elim (or_legacy-cases s address _ (or_find-Found _ (or_nil s.v4_pool) address six) h) [
        | inl f ↦ inl f
        | inr (_, legacy) ↦ inr (legacy_pool-subnet s legacy)
      ]
