-- ===== src/Pools.antt =====
-- internal/allocator/pool.go: the Pool interface with its two implementations, and parsePool.

pub mod Kept
pub mod Parsed
pub mod Ingress
use purelb.Base.{ℕ, Bool, false, String, Option, none, some}
use purelb.Base.Result.{Result, ok, err}
use purelb.Net.{Ip, Parser}
use purelb.Service.{Service}
use purelb.ServiceGroup.{GroupSpec, LocalSpec, NetboxSpec}
use purelb.Pool.{Error, not_local_or_netbox}
use purelb.LocalPool
use purelb.LocalPool.{LocalPool}
use purelb.LocalPool.New.{new_local_pool}
use purelb.LocalPool.Assign as LocalAssign
use purelb.NetboxPool
use purelb.NetboxPool.{NetboxPool, Environment, new_netbox_pool}

pub data Pool : Type 0 where
  local : LocalPool → Pool
  netbox : NetboxPool → Pool

-- String
unfoldable pub pool_name : Pool → String
pool_name (local p) = p.name
pool_name (netbox p) = p.name

unfoldable pub size : Pool → ℕ
unfolding LocalPool.size NetboxPool.size
size (local p) = LocalPool.size p
size (netbox p) = NetboxPool.size p

unfoldable pub in_use : Pool → ℕ
unfolding LocalPool.in_use NetboxPool.in_use
in_use (local p) = LocalPool.in_use p
in_use (netbox p) = NetboxPool.in_use p

-- A local pool overlaps with no remote pool, and a remote pool with none at all.
unfoldable pub overlaps : Pool → Pool → Bool
unfolding LocalPool.overlaps
overlaps (local p) (local q) = LocalPool.overlaps p q
overlaps (local p) (netbox q) = false
overlaps (netbox p) q = false

-- The error of an operation with the pool and the service that it leaves behind.
abbrev pub Outcome : Type 0
Outcome = Option Error × Pool × Service

module _ (net : Parser) where
  unfoldable pub contains : Pool → Ip → Bool
  unfolding LocalPool.contains NetboxPool.contains
  contains (local p) ip = LocalPool.contains p ip
  contains (netbox p) ip = NetboxPool.contains net p ip

  unfoldable pub notify : Pool → Service → Option Error × Pool
  unfolding LocalPool.notify NetboxPool.notify
  notify (local p) svc = (none, local (LocalPool.notify net p svc))
  notify (netbox p) svc = let (e, q) = NetboxPool.notify net p svc in (e, netbox q)

  unfoldable pub assign : Pool → Ip → Service → Outcome
  unfolding LocalPool.assign NetboxPool.assign
  assign (local p) ip svc = let (e, q, svc') = LocalPool.assign net p ip svc in (e, local q, svc')
  assign (netbox p) ip svc =
      let (e, q, svc') = NetboxPool.assign net p ip svc in (e, netbox q, svc')

  unfoldable pub assign_next : Pool → Service → Outcome
  unfolding LocalAssign.assign_next NetboxPool.assign_next
  assign_next (local p) svc =
      let (e, q, svc') = LocalAssign.assign_next net p svc in (e, local q, svc')
  assign_next (netbox p) svc =
      let (e, q, svc') = NetboxPool.assign_next net p svc in (e, netbox q, svc')

  unfoldable pub release : Pool → String → Option Error × Pool
  unfolding LocalPool.release NetboxPool.release
  release (local p) svc = (none, local (LocalPool.release p svc))
  release (netbox p) svc = let (e, q) = NetboxPool.release net p svc in (e, netbox q)

  local_pool : Result Error LocalPool → Result Error Pool
  local_pool (ok p) = ok (local p)
  local_pool (err e) = err e

  netbox_pool : Result Error NetboxPool → Result Error Pool
  netbox_pool (ok p) = ok (netbox p)
  netbox_pool (err e) = err e

  parse_as : Environment → String → Option LocalSpec → Option NetboxSpec → Result Error Pool
  unfolding local_pool netbox_pool
  parse_as env name (some spec) other = local_pool (new_local_pool net name spec)
  parse_as env name none (some spec) = netbox_pool (new_netbox_pool env name spec)
  parse_as env name none none = err not_local_or_netbox

  unfoldable pub parse_pool : Environment → String → GroupSpec → Result Error Pool
  unfolding parse_as
  parse_pool env name group = parse_as env name group.local group.netbox
