-- ===== src/Allocator/Request.antt =====
-- Allocate of internal/allocator/allocator.go: an address for a service that has none, the one
-- that its user asks for or the next one of a pool.
pub mod Kept
pub mod Branches
pub mod Joined
use Prim.Native.Char.{code}
use Prim.Native.String.{◌++◌ as text_append}
use purelb.Base.{
  ℕ, Bool, true, false, not, List, [], ◌∷◌, String, Option, none, some, is_nil, ◌==◌, nat_eq,
  string_eq, if◌then◌else◌,
}
use purelb.Base.Dict
use purelb.Base.Dict.{Dict}
use purelb.Base.Result.{Result, ok, err, ◌>>=◌}
use purelb.Net.{Ip, Parser}
use purelb.Service.{
  Service, annotation, annotate, namespaced_name, desired_address_annotation,
  desired_group_annotation, pool_annotation, text_or_empty,
}
use purelb.Pool.{Error, bad_user_address, no_group, unknown_pool}
use purelb.Pools
use purelb.Pools.{Pool, pool_name}
use purelb.Allocator.{Allocator, update_stats, put_pool, pool_for, unassign}

-- strings.Split with one character as the separator: at least one piece.
unfoldable pub split_all : ℕ → String → String × List String
split_all sep String.[] = (String.[], [])
split_all sep (String.◌∷◌ c s) =
    let (piece, pieces) = split_all sep s in
    if code c == sep then (String.[], piece ∷ pieces) else (String.◌∷◌ c piece, pieces)

abbrev pub default_pool_name : String
default_pool_name = "default"

-- Where an error ends it, the allocator and the service are as they were left by then.
abbrev pub Step : Type 0 → Type 0
Step A = Result Error A × Allocator × Service

module _ (net : Parser) where
  unfoldable pub parse_addresses : List String → Result Error (List Ip)
  parse_addresses [] = ok []
  parse_addresses (raw ∷ raws) =
      let rest = parse_addresses raws in
      let ip = net.parse_ip raw in
      if is_nil ip then err bad_user_address else do ips ← rest; ok (ip ∷ ips)

  unfoldable pub split_addresses : String → Result Error (List Ip)
  unfolding parse_addresses split_all
  split_addresses raw = let (piece, pieces) = split_all b',' raw in parse_addresses (piece ∷ pieces)

  unfoldable pub service_addresses : Service → Result Error (List Ip)
  unfolding split_addresses annotation
  service_addresses svc = elim (annotation svc desired_address_annotation) [
    | some raw ↦ split_addresses raw
    | none ↦ if svc.load_balancer_ip == "" then ok [] else split_addresses svc.load_balancer_ip
  ]

  -- pools = pools + ", " + pool.String()
  abbrev join_name : String → String → String
  join_name pools name = if pools == "" then name else text_append pools (text_append ", " name)

  -- The loop of allocateSpecificIP, with the names of the pools so far.
  unfoldable pub assign_each : List Ip → String → Allocator → Service → Step String
  unfolding pool_for Pools.assign put_pool update_stats pool_name
  assign_each [] pools a svc = (ok pools, a, svc)
  assign_each (ip ∷ ips) pools a svc = elim (pool_for net a.pools ip) [
    | none ↦ (err no_group, a, svc)
    | some (name, p) ↦
        let (e, q, svc') = Pools.assign net p ip svc in
        let a' = put_pool a name q in
        let rest = assign_each ips (join_name pools (pool_name q)) (update_stats a' q) svc' in
        elim e [ some e ↦ (err e, a', svc') | none ↦ rest ]
  ]

  -- svc.Annotations[PoolAnnotation] = pools
  note_pools : Step String → Step Bool
  unfolding annotate
  note_pools (ok pools, a, svc) = (ok true, a, annotate svc pool_annotation pools)
  note_pools (err e, a, svc) = (err e, a, svc)

  specific_among : Result Error (List Ip) → Allocator → Service → Step Bool
  unfolding assign_each note_pools unassign namespaced_name
  specific_among (err e) a svc = (err e, a, svc)
  specific_among (ok []) a svc = (ok false, a, svc)
  specific_among (ok (ip ∷ ips)) a svc =
      note_pools (assign_each (ip ∷ ips) "" (unassign net a (namespaced_name svc)) svc)

  unfoldable pub allocate_specific_ip : Allocator → Service → Step Bool
  unfolding specific_among service_addresses
  allocate_specific_ip a svc = specific_among (service_addresses svc) a svc

  from_pool :
      Allocator → String → Option Error × Pool × Service → Option Error × Allocator × Service
  unfolding annotate update_stats put_pool pool_name
  from_pool a name (some e, q, svc) = (some e, put_pool a name q, svc)
  from_pool a name (none, q, svc) =
      (none, update_stats (put_pool a name q) q, annotate svc pool_annotation (pool_name q))

  assign_next_in : Allocator → String → Service → Option Pool → Option Error × Allocator × Service
  unfolding from_pool Pools.assign_next
  assign_next_in a name svc none = (some unknown_pool, a, svc)
  assign_next_in a name svc (some p) = from_pool a name (Pools.assign_next net p svc)

  -- The pool is the one that the map holds, so it is seen as Unassign leaves it.
  unfoldable pub allocate_from_pool :
      Allocator → String → Service → Option Error × Allocator × Service
  unfolding assign_next_in unassign namespaced_name
  allocate_from_pool a name svc =
      let a' = unassign net a (namespaced_name svc) in
      assign_next_in a' name svc (Dict.get a'.pools name)

  unfoldable pub desired_pool : Service → String
  unfolding annotation
  desired_pool svc = elim (annotation svc desired_group_annotation) [
    | some name ↦ name
    | none ↦ default_pool_name
  ]

  allocate_after : Step Bool → Option Error × Allocator × Service
  unfolding allocate_from_pool desired_pool
  allocate_after (err e, a, svc) = (some e, a, svc)
  allocate_after (ok true, a, svc) = (none, a, svc)
  allocate_after (ok false, a, svc) =
      let name = desired_pool svc in
      elim (Dict.get a.pools name) [
        | none ↦ (some unknown_pool, a, svc)
        | some _ ↦ allocate_from_pool a name svc
      ]

  unfoldable pub allocate : Allocator → Service → Option Error × Allocator × Service
  unfolding allocate_after allocate_specific_ip
  allocate a svc = allocate_after (allocate_specific_ip a svc)
