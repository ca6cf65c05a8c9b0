-- ===== src/Pools/Parsed.antt =====
-- The pools that parsePool of internal/allocator/pool.go makes.
use purelb.Base.{◌≡◌, inl, inr, subst, arith, String, Option, none, some}
use purelb.Base.Result.{ok, Result-cases, ok-injective, err-ne-ok}
use purelb.Net.{Parser, IsParser}
use purelb.ServiceGroup.{GroupSpec, LocalSpec, NetboxSpec}
use purelb.LocalPool.{LocalPool}
use purelb.LocalPool.New.{new_local_pool}
use purelb.LocalPool.Parsed.{IsFresh, new_local_pool-IsFresh}
use purelb.NetboxPool.{NetboxPool, Environment, new_netbox_pool}
use purelb.Pools.{
  Pool, local, netbox, pool_name, in_use, parse_pool, parse_as, local_pool, netbox_pool,
}
use purelb.Pools.Kept.{Sound}

pub record IsNew (name : String) (p : Pool) : Type 0 where
  pub named : pool_name p ≡ name
  pub sound : Sound p
  pub unused : in_use p ≡ 0

local-IsNew :
    (net : Parser) (spec : LocalSpec) (name : String) (p : LocalPool)
    → IsFresh net spec name p
    → IsNew name (local p)
unfolding pool_name in_use
local-IsNew net spec name p f = record { named = f.named; sound = f.invariant; unused = f.unused }

netbox-IsNew :
    (env : Environment) (name : String) (spec : NetboxSpec) (p : NetboxPool)
    → new_netbox_pool env name spec ≡ ok p
    → IsNew name (netbox p)
unfolding new_netbox_pool pool_name in_use
netbox-IsNew env name spec p h = record { named = ground arith; sound = tt; unused = ground arith }

module _ (net : Parser) (good : IsParser net) (env : Environment) (name : String) where
  parse_as-IsNew :
      (one : Option LocalSpec) (other : Option NetboxSpec) {p : Pool}
      → parse_as net env name one other ≡ ok p
      → IsNew name p
  unfolding parse_as local_pool netbox_pool
  parse_as-IsNew (some spec) other {p} h = elim (Result-cases (new_local_pool net name spec)) [
    | inl (q, e) ↦
        subst (IsNew name) (ok-injective (rw (e, local_pool) at h))
          (local-IsNew net spec name q (new_local_pool-IsFresh net good name spec e).0)
    | inr (x, e) ↦ absurd (err-ne-ok (rw (e, local_pool) at h))
  ]
  parse_as-IsNew none (some spec) {p} h = elim (Result-cases (new_netbox_pool env name spec)) [
    | inl (q, e) ↦
        subst (IsNew name) (ok-injective (rw (e, netbox_pool) at h))
          (netbox-IsNew env name spec q e)
    | inr (x, e) ↦ absurd (err-ne-ok (rw (e, netbox_pool) at h))
  ]
  parse_as-IsNew none none h = absurd (err-ne-ok h)

  -- A pool that parsePool makes has the name it was given, its invariant, and no address in use.
  pub parse_pool-IsNew :
      (spec : GroupSpec) {p : Pool} → parse_pool net env name spec ≡ ok p → IsNew name p
  unfolding parse_pool
  parse_pool-IsNew spec h = parse_as-IsNew spec.local spec.netbox h
