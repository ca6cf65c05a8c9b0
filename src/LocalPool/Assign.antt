-- ===== src/LocalPool/Assign.antt =====
-- AssignNext of internal/allocator/localpool.go: the search for an address that is available.
use purelb.Base.{
  ℕ, zero, suc, Bool, true, false, List, [], ◌∷◌, is_nil, String, none, some, ◌==◌, string_eq,
  if◌then◌else◌,
}
use purelb.Net.{Ip, Parser}
use purelb.IpRange.{family_v4, family_v6}
use purelb.Ranges.{walk_fuel}
use purelb.Service.{Service}
use purelb.Pool.{Error, no_available_addresses, out_of_fuel}
use purelb.LocalPool.{LocalPool, Outcome, ranges_of, first, next, assign}

-- A family that is neither "IPv6" nor "IPv4" is logged and left out.
unfoldable pub which_families : List String → List ℕ
which_families [] = []
which_families (f ∷ fs) =
    let rest = which_families fs in
    if f == "IPv6" then family_v6 ∷ rest else if f == "IPv4" then family_v4 ∷ rest else rest

-- `if err == nil { return }` after a step that may have failed.
unfoldable pub or_rest : Outcome → Outcome → Outcome
or_rest (none, p, svc) rest = (none, p, svc)
or_rest (some _, _, _) rest = rest

abbrev pub is_out_of_fuel : Error → Bool
is_out_of_fuel out_of_fuel = true
is_out_of_fuel _ = false

-- The same where the rest is a loop of its own: a loop that did not end has no rest.
unfoldable pub or_else : Outcome → (LocalPool → Service → Outcome) → Outcome
or_else (none, p, svc) rest = (none, p, svc)
or_else (some e, p, svc) rest = if is_out_of_fuel e then (some e, p, svc) else rest p svc

-- `if err != nil { return err }`.
unfoldable pub and_then : Outcome → (LocalPool → Service → Outcome) → Outcome
and_then (none, p, svc) rest = rest p svc
and_then (some e, p, svc) rest = (some e, p, svc)

module _ (net : Parser) where
  -- The loop of assignFamily, from a position on.
  unfoldable pub assign_from : ℕ → ℕ → LocalPool → Ip → Service → Outcome
  unfolding or_rest
  assign_from zero family p pos svc = (some out_of_fuel, p, svc)
  assign_from (suc fuel) family p pos svc =
      let tried = assign net p pos svc in
      let rest = assign_from fuel family tried.1 (next tried.1 pos) tried.2 in
      if is_nil pos then (some (no_available_addresses family), p, svc) else or_rest tried rest

  unfoldable pub assign_family : LocalPool → ℕ → Service → Outcome
  assign_family p family svc =
      assign_from (walk_fuel (ranges_of p family)) family p (first p family) svc

  -- One address of each of the families.
  unfoldable pub assign_families : List ℕ → LocalPool → Service → Outcome
  unfolding and_then
  assign_families [] p svc = (none, p, svc)
  assign_families (family ∷ families) p svc =
      and_then (assign_family p family svc) (assign_families families)

  -- With no family asked for, an IPv6 address or else an IPv4 address will do.
  unfoldable pub assign_in : List ℕ → LocalPool → Service → Outcome
  unfolding or_else assign_families
  assign_in [] p svc =
      or_else (assign_family p family_v6 svc) (λ p' svc'. assign_family p' family_v4 svc')
  assign_in (family ∷ families) p svc = assign_families (family ∷ families) p svc

  unfoldable pub assign_next : LocalPool → Service → Outcome
  unfolding assign_in which_families
  assign_next p svc = assign_in (which_families svc.ip_families) p svc
