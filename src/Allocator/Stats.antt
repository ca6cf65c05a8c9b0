-- ===== src/Allocator/Stats.antt =====
-- The gauges of internal/allocator/stats.go against the pools that they are about.
use purelb.Base.{
  ℕ, ◌≡◌, refl, ◌∙◌, inl, inr, none-ne-some, All, not, ◌&&◌, List, [], ◌∷◌, String, Option, none,
  some, is_nil, arith, ◌==◌, string_eq, if◌then◌else◌, Bool-cases, Option-cases,
}
use purelb.Base.Dict
use purelb.Base.Dict.{Dict, get-put, get-remove, get-keys, Once}
use purelb.Net.{Parser, IsParser}
use purelb.ServiceGroup.{ServiceGroup}
use purelb.Pool.{Error}
use purelb.NetboxPool.Fixed as Remote
use purelb.NetboxPool.{Environment}
use purelb.Pools
use purelb.Pools.{Pool, local, netbox, pool_name}
use purelb.Pools.Kept.{Evolves-name, release-Evolves}
use purelb.Allocator.Gauge.{float64}
use purelb.Allocator.{Allocator, update_stats, released, release_each, unassign}
use purelb.Allocator.Kept.{get-unassign, without}
use purelb.Allocator.Config.{IsConfig, IsNamed, parse_groups-IsConfig}
use purelb.Allocator.Parse.{parse_groups, set_pools, use_pools, refresh, forget}

-- What a gauge shows of a pool, if there is one.
abbrev pub measured : (Pool → ℕ) → Option Pool → Option ℕ
measured measure none = none
measured measure (some p) = some (float64 (measure p))

-- Of each pool the gauges show its size and how many of its addresses are in use, as float64 rounds
-- them; there is none of a pool that is not there.
pub record InStep (a : Allocator) : Type 0 where
  pub capacity :
      (name : String) → Dict.get a.capacity name ≡ measured Pools.size (Dict.get a.pools name)
  pub active :
      (name : String) → Dict.get a.active name ≡ measured Pools.in_use (Dict.get a.pools name)

refresh-pools : (m : Dict String Pool) (a : Allocator) → (refresh m a).pools ≡ a.pools
unfolding refresh update_stats
refresh-pools [] a = refl
refresh-pools ((name, p) ∷ m) a = refresh-pools m a

pub use_pools-pools : (a : Allocator) (m : Dict String Pool) → (use_pools a m).pools ≡ m
unfolding use_pools
use_pools-pools a m = refresh-pools m (record (forget m (Dict.keys a.pools) a) { pools = m })

-- A value, or else the one that was there.
or_old : Option ℕ → Option ℕ → Option ℕ
or_old none old = old
or_old (some n) old = some n

refresh-active :
    (m : Dict String Pool) (a : Allocator) (at : String)
    → All IsNamed m
    → Dict.get (refresh m a).active at
      ≡ or_old (measured Pools.in_use (Dict.get m at)) (Dict.get a.active at)
unfolding refresh update_stats or_old Dict.get
refresh-active [] a at h = refl
refresh-active ((name, p) ∷ m) a at h =
    get-put (refresh m a).active (pool_name p) at (float64 (Pools.in_use p))
    ∙ ground (arith, refresh-active m a at h.1, h.0)

refresh-capacity :
    (m : Dict String Pool) (a : Allocator) (at : String)
    → All IsNamed m
    → Dict.get (refresh m a).capacity at
      ≡ or_old (measured Pools.size (Dict.get m at)) (Dict.get a.capacity at)
unfolding refresh update_stats or_old Dict.get
refresh-capacity [] a at h = refl
refresh-capacity ((name, p) ∷ m) a at h =
    get-put (refresh m a).capacity (pool_name p) at (float64 (Pools.size p))
    ∙ ground (arith, refresh-capacity m a at h.1, h.0)

-- What `forget` keeps of a gauge.
kept : Dict String Pool → List String → String → Option ℕ → Option ℕ
kept m names at old = elim (Dict.get m at) [
  | some _ ↦ old
  | none ↦ if Dict.member names at then none else old
]

forget-active :
    (m : Dict String Pool) (names : List String) (a : Allocator) (at : String)
    → Dict.get (forget m names a).active at ≡ kept m names at (Dict.get a.active at)
unfolding forget kept
forget-active m [] a at = ground arith
forget-active m (name ∷ names) a at =
    forget-active m names _ at
    ∙ ground (arith, get-remove a.active name at, string_eq.beq_iff name at)

forget-capacity :
    (m : Dict String Pool) (names : List String) (a : Allocator) (at : String)
    → Dict.get (forget m names a).capacity at ≡ kept m names at (Dict.get a.capacity at)
unfolding forget kept
forget-capacity m [] a at = ground arith
forget-capacity m (name ∷ names) a at =
    forget-capacity m names _ at
    ∙ ground (arith, get-remove a.capacity name at, string_eq.beq_iff name at)

use_pools-InStep :
    (a : Allocator) (m : Dict String Pool) → All IsNamed m → InStep a → InStep (use_pools a m)
unfolding use_pools or_old kept
use_pools-InStep a m h x =
    let b = forget m (Dict.keys a.pools) a in
    record {
      capacity = λ at.
          refresh-capacity m (record b { pools = m }) at h
          ∙ ground (
            arith,
            forget-capacity m (Dict.keys a.pools) a at,
            x.capacity at,
            get-keys a.pools at,
            use_pools-pools a m,
          );
      active = λ at.
          refresh-active m (record b { pools = m }) at h
          ∙ ground (
            arith,
            forget-active m (Dict.keys a.pools) a at,
            x.active at,
            get-keys a.pools at,
            use_pools-pools a m,
          );
    }

-- The gauge of a pool after an operation with this outcome, when it was `old`.
seen : (Pool → ℕ) → Option Error × Pool → Option ℕ → Option ℕ
seen measure (none, q) old = some (float64 (measure q))
seen measure (some _, q) old = old

released-gauges :
    (name at : String) (out : Option Error × Pool) (a : Allocator)
    → pool_name out.1 ≡ name
    → (Dict.get (released name out a).active at ≡ (
        if name == at then seen Pools.in_use out (Dict.get a.active at) else Dict.get a.active at))
      × (Dict.get (released name out a).capacity at ≡ (
          if name == at
          then seen Pools.size out (Dict.get a.capacity at)
          else Dict.get a.capacity at))
unfolding released update_stats seen
released-gauges name at (none, q) a h = (
  ground (arith, get-put a.active (pool_name q) at (float64 (Pools.in_use q))),
  ground (arith, get-put a.capacity (pool_name q) at (float64 (Pools.size q))),
)
released-gauges name at (some e, q) a h = (ground arith, ground arith)

release-same :
    (net : Parser) (p : Pool) (svc : String) {e : Error}
    → (Pools.release net p svc).0 ≡ some e
    → (Pools.release net p svc).1 ≡ p
unfolding Pools.release
release-same net (local p) svc h = absurd (none-ne-some h)
release-same net (netbox p) svc h = rw (Remote.release-same net p svc h)

module _ (net : Parser) (svc : String) where
  -- The same of a pool that may not be there.
  after : (Pool → ℕ) → Option Pool → Option ℕ → Option ℕ
  after measure none old = old
  after measure (some p) old = seen measure (Pools.release net p svc) old

  after-measured :
      (measure : Pool → ℕ) (o : Option Pool)
      → after measure o (measured measure o) ≡ measured measure (without net svc o)
  unfolding after seen
  after-measured measure none = refl
  after-measured measure (some p) = elim (Option-cases (Pools.release net p svc).0) [
    | inl ok ↦ rw (ok, seen)
    | inr (e, failed) ↦ rw (failed, release-same net p svc failed, seen)
  ]

  release_each-gauges :
      (pools : Dict String Pool) (a : Allocator) (at : String)
      → Once pools
      → All IsNamed pools
      → (Dict.get (release_each net svc pools a).active at
          ≡ after Pools.in_use (Dict.get pools at) (Dict.get a.active at))
        × (Dict.get (release_each net svc pools a).capacity at
            ≡ after Pools.size (Dict.get pools at) (Dict.get a.capacity at))
  unfolding release_each after Dict.get
  release_each-gauges [] a at u h = (refl, refl)
  release_each-gauges ((name, p) ∷ pools) a at u h =
      let (e1, e2) =
        released-gauges name at (Pools.release net p svc) (release_each net svc pools a)
          (Evolves-name p _ (release-Evolves net p svc) ∙ h.0) in
      let (i1, i2) = release_each-gauges pools a at u.1 h.1 in
      elim (Bool-cases (name == at)) [
        | inl same ↦
            let fresh = rw ((string_eq.beq_iff name at).0 same) at u.0 in
            (e1 ∙ rw (same, i1, fresh), e2 ∙ rw (same, i2, fresh))
        | inr other ↦ (e1 ∙ rw (other, i1), e2 ∙ rw (other, i2))
      ]

  -- Where the pools are a configuration, Unassign keeps the gauges in step with the pools: they
  -- show the size and the addresses in use of each pool, as float64 rounds them, and nothing of a
  -- pool that is not there.
  pub unassign-InStep : (a : Allocator) → IsConfig a.pools → InStep a → InStep (unassign net a svc)
  unfolding unassign after seen
  unassign-InStep a c x = record {
    capacity = λ at.
        (release_each-gauges a.pools a at c.once c.named).1 ∙ gauge Pools.size at (x.capacity at);
    active = λ at.
        (release_each-gauges a.pools a at c.once c.named).0 ∙ gauge Pools.in_use at (x.active at);
  }
    where
      gauge :
          (measure : Pool → ℕ) (at : String) {old : Option ℕ}
          → old ≡ measured measure (Dict.get a.pools at)
          → after measure (Dict.get a.pools at) old
            ≡ measured measure (Dict.get (unassign net a svc).pools at)
      gauge measure at e =
          rw (e, get-unassign net a svc at) (after-measured measure (Dict.get a.pools at))

-- SetPools keeps the gauges in step with the pools, also where it fails: they show the size and
-- the addresses in use of each pool, as float64 rounds them, and nothing of a pool that is not
-- there.
pub set_pools-InStep :
    (net : Parser) (good : IsParser net) (env : Environment) (a : Allocator)
    (groups : List ServiceGroup)
    → InStep a
    → InStep (set_pools net env a groups).1
unfolding set_pools
set_pools-InStep net good env a groups x =
    let m = parse_groups net env groups in
    elim (Bool-cases (not (is_nil groups) && is_nil m)) [
      | inl none_valid ↦ rw (none_valid, set_pools) x
      | inr used ↦
          rw (used, set_pools)
            (use_pools-InStep a m (parse_groups-IsConfig net good env groups).named x)
    ]
