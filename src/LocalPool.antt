-- ===== src/LocalPool.antt =====
-- internal/allocator/localpool.go: a pool of address ranges that is kept by the allocator.
pub mod New
pub mod Parsed
pub mod Assign
pub mod Views
pub mod Invariant
pub mod Release
pub mod Sharing
pub mod Notify
pub mod Search
pub mod Exclusive
pub mod Cycle
pub mod Steps
pub mod Fixed
pub mod Ingress
pub mod Spec
pub mod Refines
pub mod Restore
use purelb.Base.{
  ℕ, zero, suc, ◌+◌, ◌-◌, ◌%◌, ◌≡◌, Bool, true, false, not, ◌&&◌, ◌||◌, List, [], ◌∷◌, ◌++◌, map,
  is_nil, String, Option, none, some, length, ◌==◌, nat_eq, string_eq, if◌then◌else◌,
}
use purelb.Base.Dict
use purelb.Base.Dict.{Dict}
use purelb.Net.{Ip, Parser}
use purelb.Net.Value.{address}
use purelb.IpRange.{IpRange, addr_family, family_v4, family_v6, u64_mod}
use purelb.Ranges.{first_of, next_in, total_size, any_contains, ranges_overlap}
use purelb.Service.{
  Service, Port, port_eq, service_ports, service_key, namespaced_name, add_ingress,
}
use purelb.Pool.{
  Key, sharing_ok, Error, address_in_use, port_in_use, no_available_addresses, out_of_fuel,
}

pub record LocalPool : Type 0 where
  pub name : String
  pub v4_ranges : List IpRange
  pub v6_ranges : List IpRange
  pub addresses_in_use : Dict String (Dict String Bool)
  pub sharing_keys : Dict String Key
  pub ports_in_use : Dict String (Dict Port String)

-- m[k] of a map of maps, where a missing map is a nil map.
abbrev pub inner {ℓ} : {A : Type ℓ} → Option (List A) → List A
inner none = []
inner (some m) = m

unfoldable pub put_ports : String → List Port → Dict Port String → Dict Port String
put_ports svc [] m = m
put_ports svc (port ∷ ports) m = put_ports svc ports (Dict.put m port svc)

-- The body of Notify's loop, for an ingress address that parses.
unfoldable pub record_address : LocalPool → String → String → Key → List Port → LocalPool
unfolding put_ports
record_address p ip svc key ports = record p {
  sharing_keys = Dict.put p.sharing_keys ip key;
  addresses_in_use =
      Dict.put p.addresses_in_use ip (Dict.put (inner (Dict.get p.addresses_in_use ip)) svc true);
  ports_in_use =
      Dict.put p.ports_in_use ip (put_ports svc ports (inner (Dict.get p.ports_in_use ip)));
}

-- The loop of servicesOnIP and of the search for other services in `available`.
unfoldable pub other_services : String → Dict String Bool → List String
other_services svc [] = []
other_services svc ((other, _) ∷ m) =
    let rest = other_services svc m in if other == svc then rest else other ∷ rest

-- The first of the ports that another service has.
unfoldable pub taken_port : String → List Port → Dict Port String → Option Error
taken_port svc [] m = none
taken_port svc (port ∷ ports) m =
    let rest = taken_port svc ports m in
    elim (Dict.get m port) [
      | none ↦ rest
      | some owner ↦ if owner == svc then rest else some (port_in_use port owner)
    ]

-- `available` at the text of an address; the sharing key of the address is handed in.
may_share :
    String → Key → List Port → Dict String Bool → Dict Port String → Option Key → Option Error
may_share svc key ports users owners none = none
may_share svc key ports users owners (some existing) =
    let others = other_services svc users in
    let check = taken_port svc ports owners in
    elim (sharing_ok existing key) [
      | none ↦ check
      | some _ ↦ if is_nil others then check else some (address_in_use others)
    ]

unfoldable pub available_text : LocalPool → String → Service → Option Error
unfolding may_share
available_text p ip svc =
    may_share (namespaced_name svc) (record { sharing = service_key svc }) (service_ports svc)
      (inner (Dict.get p.addresses_in_use ip)) (inner (Dict.get p.ports_in_use ip))
      (Dict.get p.sharing_keys ip)

-- The body of Release's loop. An entry of `addresses_in_use` is replaced or deleted, and with the
-- last user of an address its sharing key goes.
unfoldable pub ports_without : String → Dict Port String → Dict Port String
ports_without svc [] = []
ports_without svc ((port, owner) ∷ m) =
    let rest = ports_without svc m in
    if owner == svc then Dict.remove rest port else (port, owner) ∷ rest

unfoldable pub put_or_remove {ℓ} :
    {A : Type ℓ} → Dict String (List A) → String → List A → Dict String (List A)
put_or_remove m k [] = Dict.remove m k
put_or_remove m k (v ∷ vs) = Dict.put m k (v ∷ vs)

unfoldable pub release_address : String → LocalPool → String → LocalPool
unfolding ports_without put_or_remove
release_address svc p ip =
    let users = Dict.remove (inner (Dict.get p.addresses_in_use ip)) svc in
    record p {
      addresses_in_use = put_or_remove p.addresses_in_use ip users;
      sharing_keys = if is_nil users then Dict.remove p.sharing_keys ip else p.sharing_keys;
      ports_in_use =
          put_or_remove p.ports_in_use ip (ports_without svc (inner (Dict.get p.ports_in_use ip)));
    }

unfoldable pub release_addresses : String → List String → LocalPool → LocalPool
release_addresses svc [] p = p
release_addresses svc (ip ∷ ips) p = release_addresses svc ips (release_address svc p ip)

-- Release never fails.
unfoldable pub release : LocalPool → String → LocalPool
unfolding release_addresses
release p svc = release_addresses svc (Dict.keys p.addresses_in_use) p

unfoldable pub in_use : LocalPool → ℕ
in_use p = length p.addresses_in_use

abbrev pub ranges_of : LocalPool → ℕ → List IpRange
ranges_of p family =
    if family == family_v6 then p.v6_ranges else if family == family_v4 then p.v4_ranges else []

unfoldable pub first : LocalPool → ℕ → Ip
unfolding first_of
first p family = first_of (ranges_of p family)

unfoldable pub next : LocalPool → Ip → Ip
unfolding next_in
next p ip = next_in (ranges_of p (addr_family ip)) ip

unfoldable pub size : LocalPool → ℕ
unfolding total_size
size p = (total_size p.v6_ranges + total_size p.v4_ranges) % u64_mod

unfoldable pub contains : LocalPool → Ip → Bool
unfolding any_contains
contains p ip = any_contains p.v4_ranges ip || any_contains p.v6_ranges ip

-- Overlaps, with another local pool.
unfoldable pub overlaps : LocalPool → LocalPool → Bool
unfolding ranges_overlap
overlaps p other =
    ranges_overlap p.v4_ranges other.v4_ranges || ranges_overlap p.v6_ranges other.v6_ranges

-- An error, the pool and the service that an operation leaves behind.
abbrev pub Outcome : Type 0
Outcome = Option Error × LocalPool × Service

module _ (net : Parser) where
  open net use {parse_ip, ip_string}

  unfoldable pub notify_addresses : String → Key → List Port → List String → LocalPool → LocalPool
  unfolding record_address
  notify_addresses svc key ports [] p = p
  notify_addresses svc key ports (ip ∷ ips) p =
      notify_addresses svc key ports ips
        (if is_nil (parse_ip ip) then p else record_address p ip svc key ports)

  -- Notify never fails.
  unfoldable pub notify : LocalPool → Service → LocalPool
  notify p svc =
      notify_addresses (namespaced_name svc) (record { sharing = service_key svc })
        (service_ports svc) svc.ingress p

  unfoldable pub available : LocalPool → Ip → Service → Option Error
  available p ip svc = available_text p (ip_string ip) svc

  assign_if : Option Error → LocalPool → Ip → Service → Outcome
  unfolding notify add_ingress
  assign_if (some e) p ip svc = (some e, p, svc)
  assign_if none p ip svc = let svc' = add_ingress svc (ip_string ip) in (none, notify p svc', svc')

  unfoldable pub assign : LocalPool → Ip → Service → Outcome
  unfolding assign_if available
  assign p ip svc = assign_if (available p ip svc) p ip svc
