-- ===== src/Allocator.antt =====
-- internal/allocator/allocator.go: the pools by their names, with the two gauges of stats.go that
-- are kept for each of them, and what is told and given back to them.
pub mod Gauge
pub mod Parse
pub mod Request
pub mod Kept
pub mod Config
pub mod Stats
pub mod Freed
use purelb.Base.{
  ℕ, Bool, true, false, List, [], ◌∷◌, String, Option, none, some, ◌==◌, string_eq, is_nil,
  if◌then◌else◌,
}
use purelb.Base.Dict
use purelb.Base.Dict.{Dict}
use purelb.Net.{Ip, Parser}
use purelb.Service.{Service, annotation, pool_annotation}
use purelb.Pool.{Error, no_pool_annotation}
use purelb.Pools
use purelb.Pools.{Pool}
use purelb.Allocator.Gauge.{float64}

-- `capacity` and `active` are the gauges poolCapacity and poolActive by their pool label: a float64 that
-- comes from an integer is a whole number.
pub record Allocator : Type 0 where
  pub pools : Dict String Pool
  pub capacity : Dict String ℕ
  pub active : Dict String ℕ

-- New
unfoldable pub new_allocator : Allocator
new_allocator = record { pools = []; capacity = []; active = [] }

unfoldable pub update_stats : Allocator → Pool → Allocator
unfolding Pools.size Pools.in_use Pools.pool_name float64
update_stats a p = record a {
  capacity = Dict.put a.capacity (Pools.pool_name p) (float64 (Pools.size p));
  active = Dict.put a.active (Pools.pool_name p) (float64 (Pools.in_use p));
}

-- A pool is shared by reference: what an operation does to it, the map of pools shows.
unfoldable pub put_pool : Allocator → String → Pool → Allocator
put_pool a name p = record a { pools = Dict.put a.pools name p }

-- The first pool that owns an address, of the map's names in an order that Go leaves open.
unfoldable pub pool_among : Parser → Dict String Pool → List String → Ip → Option (String × Pool)
unfolding Pools.contains
pool_among net pools [] ip = none
pool_among net pools (name ∷ names) ip =
    let rest = pool_among net pools names ip in
    elim (Dict.get pools name) [
      | none ↦ rest
      | some p ↦ if Pools.contains net p ip then some (name, p) else rest
    ]

unfoldable pub pool_for : Parser → Dict String Pool → Ip → Option (String × Pool)
unfolding pool_among
pool_for net pools ip = pool_among net pools (Dict.keys pools) ip

-- What one pool's Release leaves behind: the gauges follow if the pool reports no error.
unfoldable pub released : String → Option Error × Pool → Allocator → Allocator
unfolding update_stats
released name (none, p) a = update_stats (record a { pools = (name, p) ∷ a.pools }) p
released name (some e, p) a = record a { pools = (name, p) ∷ a.pools }

unfoldable pub told : Allocator → String → Option Error × Pool → Option Error × Allocator
unfolding put_pool update_stats
told a name (none, p) = (none, update_stats (put_pool a name p) p)
told a name (some e, p) = (some e, put_pool a name p)

module _ (net : Parser) where
  -- Every pool in place, from the last entry to the first.
  unfoldable pub release_each : String → Dict String Pool → Allocator → Allocator
  unfolding released Pools.release
  release_each svc [] a = record a { pools = [] }
  release_each svc ((name, p) ∷ pools) a =
      released name (Pools.release net p svc) (release_each svc pools a)

  -- Unassign never fails.
  unfoldable pub unassign : Allocator → String → Allocator
  unfolding release_each
  unassign a svc = release_each svc a.pools a

  unfoldable pub notify_in : Allocator → Service → String → Option Pool → Option Error × Allocator
  unfolding told Pools.notify
  notify_in a svc name none = (none, a)
  notify_in a svc name (some p) = told a name (Pools.notify net p svc)

  -- A service of a pool that is not there is passed over.
  unfoldable pub notify_existing : Allocator → Service → Option Error × Allocator
  unfolding notify_in annotation
  notify_existing a svc = elim (annotation svc pool_annotation) [
    | none ↦ (some no_pool_annotation, a)
    | some name ↦ notify_in a svc name (Dict.get a.pools name)
  ]
