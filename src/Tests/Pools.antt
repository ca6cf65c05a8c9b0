-- ===== src/Tests/Pools.antt =====
-- Local pools of internal/allocator/localpool.go with concrete services.
use purelb.Base.{
  ◌≡◌, ◌≢◌, ◌↔◌, refl, none-ne-some, inl, inr, ap, sym, subst, ◌∙◌, true, false, ◌&&◌, [], ◌∷◌,
  String, none, some, is_nil, arith, string_eq,
}
use purelb.Base.Dict
use purelb.Net.{Ip, IsWide, to4, to16, bytes_le, net_contains, bytes_equal}
use purelb.Net.Value.{IsWide-IsAddress}
use purelb.IpRange
use purelb.IpRange.{IpRange, addr_family, family_v4, family_v6}
use purelb.IpRange.Bounds.{contains_iff}
use purelb.Ranges.{any_contains}
use purelb.Ranges.Walk.{IsOrdered, address-injective}
use purelb.Service.{Service, namespaced_name}
use purelb.ServiceGroup.{LocalSpec}
use purelb.LocalPool.Spec.{Op, Run}
use purelb.LocalPool.Refines.{view, run, run_refines}
use purelb.LocalPool.Restore.{SameView, release-assign}
use purelb.LocalPool.{LocalPool, assign, other_services, notify, release, available_text, available}
use purelb.LocalPool.New.{new_local_pool, empty_pool}
use purelb.LocalPool.Parsed.{IsFresh, new_local_pool-IsFresh, empty_pool-Inv}
use purelb.LocalPool.Assign.{assign_from, assign_next, assign_family}
use purelb.LocalPool.Invariant.{Inv, notify-Inv}
use purelb.LocalPool.Release.{IsReleased, release-IsReleased}
use purelb.LocalPool.Notify.{IsNotified, notify-IsNotified}
use purelb.LocalPool.Sharing.{MayUse, available_iff}
use purelb.LocalPool.Search.{IsSearchable, Assigns, assign_family-Assigns}
use purelb.LocalPool.Exclusive.{Claims, KeepsAll, assign_next-Keeps}
use purelb.Pool.{out_of_fuel, address_in_use, sharing_ok}
use purelb.LocalPool.Cycle.{assign_from-endless}
use purelb.Tests.Sample.{v4, wide, pair, sample, sample-IsParser, empty_local, service}
use purelb.Tests.Ranges.{wide-IsRange, pair_cases, pair-IsOrdered}

-- Two services without an address, and the first with one.
abbrev first : Service
first = service "first" [] none

abbrev second : Service
second = service "second" [] none

abbrev addressed : Service
addressed = service "first" ("10.0.0.1" ∷ []) none

empty_local-Inv : Inv empty_local
unfolding empty_pool
empty_local-Inv = empty_pool-Inv "default" (pair ∷ []) []

abbrev pub used : LocalPool
used = notify sample empty_local addressed

pub used-Inv : Inv used
used-Inv = notify-Inv sample empty_local addressed empty_local-Inv

notify-IsNotified_example : IsNotified sample empty_local used addressed
notify-IsNotified_example = notify-IsNotified sample empty_local addressed

release-IsReleased_example : IsReleased used (release used "ns/first") "ns/first"
release-IsReleased_example = release-IsReleased used "ns/first" used-Inv

available_iff_example :
    (available_text used "10.0.0.1" second ≡ none) ↔ MayUse used "10.0.0.1" second
available_iff_example = available_iff used "10.0.0.1" second used-Inv

no_address-Claims : (p : LocalPool) (name : String) → Claims sample p (service name [] none)
no_address-Claims p name at h = cc

assign_next-Keeps_example : KeepsAll sample used second (assign_next sample used second)
assign_next-Keeps_example =
    assign_next-Keeps sample used second used-Inv (no_address-Claims used "second")

pair_family : (ip : Ip) → IsWide ip → IpRange.contains pair ip ≡ true → addr_family ip ≡ family_v4
unfolding to4 addr_family
pair_family ip w h = elim (pair_cases ip w h) [
  | inl e ↦ ap addr_family e
  | inr e ↦ ap addr_family e
]

empty_local-IsSearchable : IsSearchable empty_local family_v4
unfolding any_contains
empty_local-IsSearchable = record {
  ordered = (pair-IsOrdered, tt);
  disjoint = (λ ip w h. refl, tt);
  of_family = λ ip w h. pair_family ip w (ground arith);
}

assign_family-Assigns_example :
    Assigns sample family_v4 empty_local first (assign_family sample empty_local family_v4 first)
assign_family-Assigns_example =
    assign_family-Assigns sample family_v4 empty_local first empty_local-IsSearchable

abbrev pub spec : LocalSpec
spec = record {
  subnet = "";
  pool = "";
  aggregation = "";
  v4_pool =
      some (record { pool = "10.0.0.1-10.0.0.2"; subnet = "10.0.0.0/24"; aggregation = "default" });
  v6_pool = none;
  v4_pools = [];
  v6_pools = [];
}

new_local_pool-IsFresh_example :
    IsFresh sample spec "default" empty_local
    × (is_nil empty_local.v6_ranges && is_nil empty_local.v4_ranges ≡ false)
unfolding new_local_pool empty_pool IpRange.new_ip_range IpRange.split_two Dict.get
    IpRange.trim_space IpRange.contained_by net_contains
new_local_pool-IsFresh_example =
    new_local_pool-IsFresh sample sample-IsParser "default" spec {p = empty_local} refl

-- A pool whose only address is in use, and whose second range begins inside of the first.
abbrev only : IpRange
only = record { from = v4 10 0 0 1; to = v4 10 0 0 1 }

abbrev twice : LocalPool
twice = record {
  name = "default";
  v4_ranges = only ∷ only ∷ [];
  v6_ranges = [];
  addresses_in_use = ("10.0.0.1", ("ns/first", true) ∷ []) ∷ [];
  sharing_keys = ("10.0.0.1", record { sharing = "" }) ∷ [];
  ports_in_use = ("10.0.0.1", (record { proto = "TCP"; port = 80 }, "ns/first") ∷ []) ∷ [];
}

only-IsOrdered : IsOrdered only
only-IsOrdered = record {
  range = wide-IsRange only (wide (v4 10 0 0 1) refl refl) (wide (v4 10 0 0 1) refl refl);
  wide = wide (v4 10 0 0 1) refl refl;
  ordered = omega arith;
}

only_case : (ip : Ip) → IsWide ip → IpRange.contains only ip ≡ true → ip ≡ v4 10 0 0 1
only_case ip w h =
    let (low, high) = (contains_iff only only-IsOrdered.range ip (IsWide-IsAddress ip w)).0 h in
    address-injective ip (v4 10 0 0 1) w (wide (v4 10 0 0 1) refl refl) (omega (arith, low, high))

twice_refuses :
    available sample twice (v4 10 0 0 1) second ≡ some (address_in_use ("ns/first" ∷ []))
unfolding available available_text Dict.get bytes_equal sharing_ok other_services namespaced_name
twice_refuses = refl

twice_busy : available sample twice (v4 10 0 0 1) second ≢ none
twice_busy h = none-ne-some (sym h ∙ twice_refuses)

assign_from-endless_example :
    assign_from sample 100 family_v4 twice (v4 10 0 0 1) second ≡ (some out_of_fuel, twice, second)
unfolding addr_family to4 IpRange.contains bytes_le to16
assign_from-endless_example =
    assign_from-endless only only [] only-IsOrdered only-IsOrdered sample family_v4 twice second
      refl (λ ip w h. ap addr_family (only_case ip w h)) refl
      (λ ip w h.
        subst (λ x. available sample twice x second ≢ none) (sym (only_case ip w h)) twice_busy)
      100 (v4 10 0 0 1) (wide (v4 10 0 0 1) refl refl) refl

run_refines_example :
    Run sample
      (view used)
      (Op.release "ns/first" ∷ Op.assign (v4 10 0 0 1) second ∷ [])
      (view (run sample used (Op.release "ns/first" ∷ Op.assign (v4 10 0 0 1) second ∷ [])))
    × Inv (run sample used (Op.release "ns/first" ∷ Op.assign (v4 10 0 0 1) second ∷ []))
run_refines_example =
    run_refines sample (Op.release "ns/first" ∷ Op.assign (v4 10 0 0 1) second ∷ []) used used-Inv

release-assign_example :
    SameView empty_local
      (release (assign sample empty_local (v4 10 0 0 1) first).1 (namespaced_name first))
unfolding Dict.get
release-assign_example =
    release-assign sample empty_local (v4 10 0 0 1) first empty_local-Inv (λ at. refl) refl
