-- ===== src/Tests/Control.antt =====
-- The allocator and its controller with concrete pools and services.
use purelb.Allocator.Request.Joined.{Known, Unnamed, allocate_specific_ip-forgotten}
use purelb.Allocator.Request.{allocate_specific_ip}
use purelb.Allocator.{notify_existing}
use purelb.Allocator.Request.{service_addresses}
use purelb.LocalPool.{release_address, available_text}
use purelb.Net.{bytes_le}
use purelb.Tests.Sample.{v4, empty_local}
use purelb.Base.{
  ◌≡◌, ◌↔◌, String, ◌==◌, Bool-cases, inl, inr, sym, refl, true, false, List, [], ◌∷◌, none, some,
  arith, string_eq,
}
use purelb.Base.Dict
use purelb.Net.{bytes_equal, to4, to16}
use purelb.IpRange
use purelb.Service.{Service, annotation}
use purelb.ServiceGroup.{ServiceGroup}
use purelb.NetboxPool.{Environment}
use purelb.Pools.{Pool, netbox, local, pool_name, size, in_use}
use purelb.LocalPool.{notify, notify_addresses}
use purelb.Allocator.{Allocator, new_allocator, unassign}
use purelb.Allocator.Parse.{overlaps_any, parse_groups, set_pools}
use purelb.Allocator.Request.{allocate_from_pool}
use purelb.Allocator.Request.Branches.{Named, allocate_from_pool-Named}
use purelb.Allocator.Config.{IsConfig, nil-IsConfig, put-IsConfig, parse_groups-IsConfig}
use purelb.Allocator.Freed.{IsFreed, unassign-IsFreed}
use purelb.Allocator.Gauge.{float64_exact}
use purelb.Allocator.Stats.{InStep, unassign-InStep, set_pools-InStep}
use purelb.Controller.{Controller, error, new_controller, set_config, set_balancer, other_class}
use purelb.Controller.Reach.{Reachable, Step, reachable-IsConfig}
use purelb.Controller.Branches.{IsCleanedUp, set_balancer-error, set_balancer-IsCleanedUp}
use purelb.Tests.Sample.{sample, sample-IsParser, service}
use purelb.Tests.Pools.{spec, used, used-Inv}

abbrev pub env : Environment
env = record { user_token = none; parse_url = λ s. none; answers = λ url tenant. [] }

abbrev pub groups : List ServiceGroup
groups = record { name = "default"; spec = record { local = some spec; netbox = none } } ∷ []

parse_groups-IsConfig_example : IsConfig (parse_groups sample env groups)
parse_groups-IsConfig_example = parse_groups-IsConfig sample sample-IsParser env groups

new_allocator-InStep : InStep new_allocator
unfolding new_allocator Dict.get
new_allocator-InStep = record { capacity = λ name. refl; active = λ name. refl }

set_pools-InStep_example : InStep (set_pools sample env new_allocator groups).1
set_pools-InStep_example =
    set_pools-InStep sample sample-IsParser env new_allocator groups new_allocator-InStep

-- One pool, an address of which the service "first" has.
abbrev pub in_hand : Allocator
in_hand = record {
  pools = ("default", local used) ∷ [];
  capacity = ("default", 2) ∷ [];
  active = ("default", 1) ∷ [];
}

in_hand-IsConfig : IsConfig in_hand.pools
unfolding Dict.put overlaps_any pool_name notify notify_addresses Dict.get
in_hand-IsConfig = put-IsConfig [] "default" (local used) nil-IsConfig refl used-Inv refl

unassign-IsFreed_example :
    IsFreed in_hand (unassign sample in_hand "ns/first") "default" used "ns/first"
unfolding Dict.get
unassign-IsFreed_example =
    unassign-IsFreed sample in_hand "ns/first" "default" used in_hand-IsConfig refl

used-size : size (local used) ≡ 2
unfolding size notify notify_addresses Dict.get IpRange.size to4 to16
used-size = refl

used-in_use : in_use (local used) ≡ 1
unfolding in_use notify notify_addresses Dict.get Dict.put
used-in_use = refl

in_hand-InStep : InStep in_hand
unfolding Dict.get
in_hand-InStep = record {
  capacity = λ name. ground (arith, used-size, float64_exact 2 (omega arith));
  active = λ name. ground (arith, used-in_use, float64_exact 1 (omega arith));
}

unassign-InStep_example : InStep (unassign sample in_hand "ns/first")
unassign-InStep_example = unassign-InStep sample "ns/first" in_hand in_hand-IsConfig in_hand-InStep

abbrev ready : Controller
ready = record { synced = true; ips = in_hand; is_default = true }

-- The service, with its address, before and after it stops to be a load balancer.
abbrev balanced : Service
balanced = service "first" ("10.0.0.1" ∷ []) (some (("purelb.io/allocated-from", "default") ∷ []))

abbrev turned : Service
turned = record balanced { spec_type = "ClusterIP" }

set_balancer-error_example :
    ((set_balancer sample ready balanced).0 ≡ error) ↔ (ready.synced ≡ false)
set_balancer-error_example = set_balancer-error sample ready balanced

set_balancer-IsCleanedUp_example :
    IsCleanedUp ready
      (set_balancer sample ready turned).1
      turned
      (set_balancer sample ready turned).2
unfolding annotation Dict.get other_class
set_balancer-IsCleanedUp_example =
    set_balancer-IsCleanedUp sample ready turned {pool = "default"} refl refl refl refl refl
      in_hand-IsConfig

abbrev configured : Controller
configured =
    (set_config sample env (new_controller new_allocator)
      (some (record { default_announcer = true; groups = groups; agents = [] }))).1

configured-Reachable : Reachable sample configured
configured-Reachable = Reachable.next (new_controller new_allocator) configured Reachable.start (
    Step.config env (new_controller new_allocator)
      (some (record { default_announcer = true; groups = groups; agents = [] })))

reachable-IsConfig_example : IsConfig configured.ips.pools
reachable-IsConfig_example =
    reachable-IsConfig sample sample-IsParser configured configured-Reachable

-- A remote pool that has one address to give out.
abbrev far : Pool
far = netbox (record {
  name = "far";
  url = "";
  user_token = "";
  answers = some "10.0.0.0/24" ∷ [];
  services = [];
  addresses_in_use = [];
})

abbrev remote : Allocator
remote = record { pools = ("far", far) ∷ []; capacity = []; active = [] }

remote-IsConfig : IsConfig remote.pools
unfolding Dict.put overlaps_any pool_name
remote-IsConfig = put-IsConfig [] "far" far nil-IsConfig refl tt refl

abbrev wanting : Service
wanting = service "second" [] (some [])

allocate_from_pool-Named_example :
    Named sample "far" (allocate_from_pool sample remote "far" wanting)
unfolding allocate_from_pool unassign Dict.get bytes_equal
allocate_from_pool-Named_example =
    allocate_from_pool-Named sample remote "far" wanting {m = []} remote-IsConfig refl refl

-- A service that asks for both addresses of the pool, and the allocator after a new start.
abbrev asking : Service
asking = record (service "first" [] (some [])) { load_balancer_ip = "10.0.0.1,10.0.0.2" }

abbrev given : Service
given = (allocate_specific_ip sample in_hand asking).2

abbrev restarted : Allocator
restarted = record in_hand { pools = ("default", local empty_local) ∷ [] }

only_default : (name : String) → Known in_hand name → ("default" == name) ≡ true
unfolding Dict.get
only_default name known = elim (Bool-cases ("default" == name)) [
  | inl same ↦ same
  | inr other ↦ absurd (known (rw other))
]

restarted-Unnamed : Unnamed sample in_hand restarted (v4 10 0 0 1 ∷ v4 10 0 0 2 ∷ [])
unfolding Dict.get
restarted-Unnamed [] count known = cc
restarted-Unnamed (n ∷ []) count known = ground arith
restarted-Unnamed (n1 ∷ n2 ∷ []) count known =
    let e1 = (string_eq.beq_iff "default" n1).0 (only_default n1 known.0) in
    let e2 = (string_eq.beq_iff "default" n2).0 (only_default n2 known.1.0) in rw (sym e1, sym e2)
restarted-Unnamed (n1 ∷ n2 ∷ n3 ∷ ns) count known = ground arith

allocate_specific_ip-forgotten_example : notify_existing sample restarted given ≡ (none, restarted)
unfolding allocate_specific_ip service_addresses Dict.get notify_addresses Dict.put release_address
    IpRange.contains bytes_le to16 available_text Dict.remove bytes_equal
allocate_specific_ip-forgotten_example =
    allocate_specific_ip-forgotten sample in_hand restarted asking {m = []}
      {ips = v4 10 0 0 1 ∷ v4 10 0 0 2 ∷ []} {a' = (allocate_specific_ip sample in_hand asking).1}
      {svc' = given} in_hand-IsConfig refl refl refl restarted-Unnamed
