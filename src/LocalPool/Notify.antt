-- ===== src/LocalPool/Notify.antt =====
-- Notify over all the ingress addresses of a service: the users, port owners and keys afterwards.
use purelb.Base.{
  ◌≡◌, refl, ap, sym, subst, ◌∙◌, Bool, true, false, not, ◌&&◌, ◌||◌, List, [], ◌∷◌, String, some,
  is_nil, arith, ◌==◌, string_eq, if◌then◌else◌, Bool-cases, inl, inr,
}
use purelb.Base.Dict
use purelb.Net.{Parser}
use purelb.Service.{Service, Port, port_eq, service_ports, service_key, namespaced_name}
use purelb.Pool.{Key}
use purelb.LocalPool.{LocalPool, record_address, notify_addresses, notify}
use purelb.LocalPool.Fixed.{notify-Evolves}
use purelb.LocalPool.Views.{
  user, owner, has_port, user-record_address, owner-record_address, key-record_address,
  held-record_address, ports-record_address,
}

-- Whether an address is among the texts that parse.
abbrev pub noted : Parser → List String → String → Bool
noted net [] at = false
noted net (ip ∷ ips) at = (not (is_nil (net.parse_ip ip)) && ip == at) || noted net ips at

module _ (net : Parser) (svc : String) (key : Key) (ports : List Port) (ip : String)
    (ips : List String) (p : LocalPool) where
  notify_addresses-skip :
      is_nil (net.parse_ip ip) ≡ true
      → notify_addresses net svc key ports (ip ∷ ips) p ≡ notify_addresses net svc key ports ips p
  unfolding notify_addresses
  notify_addresses-skip bad = rw bad

  notify_addresses-take :
      is_nil (net.parse_ip ip) ≡ false
      → notify_addresses net svc key ports (ip ∷ ips) p
        ≡ notify_addresses net svc key ports ips (record_address p ip svc key ports)
  unfolding notify_addresses
  notify_addresses-take good = rw good

module _ (net : Parser) (svc : String) (key : Key) (ports : List Port) (at : String) where
  user-notify_addresses :
      (s : String) (ips : List String) (p : LocalPool)
      → user (notify_addresses net svc key ports ips p) at s
        ≡ (if noted net ips at && svc == s then some true else user p at s)
  unfolding notify_addresses
  user-notify_addresses s [] p = refl
  user-notify_addresses s (ip ∷ ips) p = elim (Bool-cases (is_nil (net.parse_ip ip))) [
    | inl bad ↦
        ap (λ (m : LocalPool). user m at s) (notify_addresses-skip net svc key ports ip ips p bad)
        ∙ user-notify_addresses s ips p
        ∙ ground arith
    | inr good ↦
        ap (λ (m : LocalPool). user m at s) (notify_addresses-take net svc key ports ip ips p good)
        ∙ user-notify_addresses s ips (record_address p ip svc key ports)
        ∙ ground (arith, user-record_address p ip svc key ports at s)
  ]

  owner-notify_addresses :
      (q : Port) (ips : List String) (p : LocalPool)
      → owner (notify_addresses net svc key ports ips p) at q
        ≡ (if noted net ips at && has_port ports q then some svc else owner p at q)
  unfolding notify_addresses
  owner-notify_addresses q [] p = refl
  owner-notify_addresses q (ip ∷ ips) p = elim (Bool-cases (is_nil (net.parse_ip ip))) [
    | inl bad ↦
        ap (λ (m : LocalPool). owner m at q) (notify_addresses-skip net svc key ports ip ips p bad)
        ∙ owner-notify_addresses q ips p
        ∙ ground arith
    | inr good ↦
        ap (λ (m : LocalPool). owner m at q) (notify_addresses-take net svc key ports ip ips p good)
        ∙ owner-notify_addresses q ips (record_address p ip svc key ports)
        ∙ ground (arith, owner-record_address p ip svc key ports at q)
  ]

  key-notify_addresses :
      (ips : List String) (p : LocalPool)
      → Dict.get (notify_addresses net svc key ports ips p).sharing_keys at
        ≡ (if noted net ips at then some key else Dict.get p.sharing_keys at)
  unfolding notify_addresses
  key-notify_addresses [] p = refl
  key-notify_addresses (ip ∷ ips) p = elim (Bool-cases (is_nil (net.parse_ip ip))) [
    | inl bad ↦
        ap (λ (m : LocalPool). Dict.get m.sharing_keys at)
          (notify_addresses-skip net svc key ports ip ips p bad)
        ∙ key-notify_addresses ips p
        ∙ ground arith
    | inr good ↦
        ap (λ (m : LocalPool). Dict.get m.sharing_keys at)
          (notify_addresses-take net svc key ports ip ips p good)
        ∙ key-notify_addresses ips (record_address p ip svc key ports)
        ∙ ground (arith, key-record_address p ip svc key ports at)
  ]

  -- An address that is not noted keeps its entries.
  kept-notify_addresses :
      (ips : List String) (p : LocalPool)
      → noted net ips at ≡ false
      → (Dict.get (notify_addresses net svc key ports ips p).addresses_in_use at
          ≡ Dict.get p.addresses_in_use at)
        × (Dict.get (notify_addresses net svc key ports ips p).ports_in_use at
            ≡ Dict.get p.ports_in_use at)
  unfolding notify_addresses
  kept-notify_addresses [] p away = (refl, refl)
  kept-notify_addresses (ip ∷ ips) p away = elim (Bool-cases (is_nil (net.parse_ip ip))) [
    | inl bad ↦
        subst
          (λ (m : LocalPool).
            (Dict.get m.addresses_in_use at ≡ Dict.get p.addresses_in_use at)
            × (Dict.get m.ports_in_use at ≡ Dict.get p.ports_in_use at))
          (sym (notify_addresses-skip net svc key ports ip ips p bad))
          (kept-notify_addresses ips p (ground arith))
    | inr good ↦
        let q = record_address p ip svc key ports in
        let (users_kept, ports_kept) = kept-notify_addresses ips q (ground arith) in
        subst
          (λ (m : LocalPool).
            (Dict.get m.addresses_in_use at ≡ Dict.get p.addresses_in_use at)
            × (Dict.get m.ports_in_use at ≡ Dict.get p.ports_in_use at))
          (sym (notify_addresses-take net svc key ports ip ips p good))
          (
            users_kept ∙ ground (arith, held-record_address p ip svc key ports at),
            ports_kept ∙ ground (arith, ports-record_address p ip svc key ports at),
          )
  ]

-- What Notify records of a service, and that the rest of the pool stays as it is.
pub record IsNotified (net : Parser) (before after : LocalPool) (svc : Service) : Type 0 where
  pub users_of :
      (at s : String)
      → user after at s ≡ (
          if noted net svc.ingress at && namespaced_name svc == s
          then some true
          else user before at s)
  pub owners_of :
      (at : String) (q : Port)
      → owner after at q ≡ (
          if noted net svc.ingress at && has_port (service_ports svc) q
          then some (namespaced_name svc)
          else owner before at q)
  pub keys_of :
      (at : String)
      → Dict.get after.sharing_keys at ≡ (
          if noted net svc.ingress at
          then some (record { sharing = service_key svc })
          else Dict.get before.sharing_keys at)
  pub kept_users :
      (at : String)
      → noted net svc.ingress at ≡ false
      → Dict.get after.addresses_in_use at ≡ Dict.get before.addresses_in_use at
  pub kept_ports :
      (at : String)
      → noted net svc.ingress at ≡ false
      → Dict.get after.ports_in_use at ≡ Dict.get before.ports_in_use at
  pub same_name : after.name ≡ before.name
  pub same_v4 : after.v4_ranges ≡ before.v4_ranges
  pub same_v6 : after.v6_ranges ≡ before.v6_ranges

-- Notify makes a service a user of each of its ingress addresses that parses and the owner of its
-- ports there, makes its sharing key that of the address, and leaves all other users, owners and
-- keys, every entry of another address, and the name and the ranges of the pool as they are.
pub notify-IsNotified :
    (net : Parser) (p : LocalPool) (svc : Service) → IsNotified net p (notify net p svc) svc
unfolding notify
notify-IsNotified net p svc = record {
  users_of = λ at s. user-notify_addresses net _ _ _ at s svc.ingress p;
  owners_of = λ at q. owner-notify_addresses net _ _ _ at q svc.ingress p;
  keys_of = λ at. key-notify_addresses net _ _ _ at svc.ingress p;
  kept_users = λ at away. (kept-notify_addresses net _ _ _ at svc.ingress p away).0;
  kept_ports = λ at away. (kept-notify_addresses net _ _ _ at svc.ingress p away).1;
  same_name = (notify-Evolves net p svc).same_name;
  same_v4 = (notify-Evolves net p svc).same_v4;
  same_v6 = (notify-Evolves net p svc).same_v6;
}
