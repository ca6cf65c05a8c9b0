-- ===== src/Allocator/Parse.antt =====
-- parseGroups and SetPools of internal/allocator/allocator.go.
use purelb.Base.{
  Bool, false, not, ◌&&◌, ◌||◌, List, [], ◌∷◌, String, Option, none, some, is_nil, if◌then◌else◌,
  string_eq,
}
use purelb.Base.Dict
use purelb.Base.Dict.{Dict}
use purelb.Base.Result.{Result, ok, err}
use purelb.Net.{Parser}
use purelb.ServiceGroup.{ServiceGroup}
use purelb.Pool.{Error, no_valid_pools}
use purelb.Pools
use purelb.Pools.{Pool, parse_pool}
use purelb.NetboxPool.{Environment}
use purelb.Allocator.{Allocator, update_stats}

unfoldable pub overlaps_any : Pool → Dict String Pool → Bool
unfolding Pools.overlaps
overlaps_any p [] = false
overlaps_any p ((name, q) ∷ pools) = Pools.overlaps p q || overlaps_any p pools

-- A group that does not parse, is defined already or overlaps with an earlier one is left out.
unfoldable pub add_group : Dict String Pool → String → Result Error Pool → Dict String Pool
unfolding overlaps_any
add_group pools name (err e) = pools
add_group pools name (ok p) = elim (Dict.get pools name) [
  | some _ ↦ pools
  | none ↦ if overlaps_any p pools then pools else Dict.put pools name p
]

-- The gauges of the pools that are gone.
unfoldable pub forget : Dict String Pool → List String → Allocator → Allocator
forget pools [] a = a
forget pools (name ∷ names) a = forget pools names (elim (Dict.get pools name) [
  | some _ ↦ a
  | none ↦ record a { capacity = Dict.remove a.capacity name; active = Dict.remove a.active name }
])

-- The range over the new pools, from the last entry to the first.
unfoldable pub refresh : Dict String Pool → Allocator → Allocator
unfolding update_stats
refresh [] a = a
refresh ((name, p) ∷ pools) a = update_stats (refresh pools a) p

unfoldable pub use_pools : Allocator → Dict String Pool → Allocator
unfolding forget refresh
use_pools a pools = refresh pools (record (forget pools (Dict.keys a.pools) a) { pools = pools })

module _ (net : Parser) (env : Environment) where
  unfoldable pub parse_onto : List ServiceGroup → Dict String Pool → Dict String Pool
  unfolding add_group parse_pool
  parse_onto [] pools = pools
  parse_onto (group ∷ groups) pools =
      parse_onto groups (add_group pools group.name (parse_pool net env group.name group.spec))

  unfoldable pub parse_groups : List ServiceGroup → Dict String Pool
  unfolding parse_onto
  parse_groups groups = parse_onto groups []

  unfoldable pub set_pools : Allocator → List ServiceGroup → Option Error × Allocator
  unfolding parse_groups use_pools
  set_pools a groups =
      let pools = parse_groups groups in
      if not (is_nil groups) && is_nil pools
      then (some no_valid_pools, a)
      else (none, use_pools a pools)
