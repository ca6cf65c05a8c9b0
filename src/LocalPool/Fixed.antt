-- ===== src/LocalPool/Fixed.antt =====
-- The name, the ranges and the invariant of a local pool of internal/allocator/localpool.go over
-- its operations.
use purelb.Base.{
  string_eq, ◌≡◌, refl, ◌∙◌, inl, inr, Bool, true, false, List, [], ◌∷◌, String, is_nil,
  if◌then◌else◌, Option-cases,
}
use purelb.Base.Dict
use purelb.Net.{Ip, Parser}
use purelb.IpRange.{IpRange}
use purelb.Service.{Service, Port}
use purelb.Pool.{Key}
use purelb.LocalPool.{
  LocalPool, record_address, release_address, release_addresses, release, notify_addresses, notify,
  available, assign,
}
use purelb.LocalPool.Steps.{Closed, assign_next-Holds}
use purelb.LocalPool.Invariant.{Inv, notify-Inv, release-Inv}
use purelb.LocalPool.Search.{assign-some, assign-none}
use purelb.LocalPool.Assign.{assign_next}

pub record Evolves (p q : LocalPool) : Type 0 where
  pub same_name : q.name ≡ p.name
  pub same_v4 : q.v4_ranges ≡ p.v4_ranges
  pub same_v6 : q.v6_ranges ≡ p.v6_ranges
  pub inv : Inv p → Inv q

pub Evolves-refl : (p : LocalPool) → Evolves p p
Evolves-refl p = record { same_name = refl; same_v4 = refl; same_v6 = refl; inv = λ v. v }

pub Evolves-trans : {p q r : LocalPool} → Evolves p q → Evolves q r → Evolves p r
Evolves-trans a b = record {
  same_name = b.same_name ∙ a.same_name;
  same_v4 = b.same_v4 ∙ a.same_v4;
  same_v6 = b.same_v6 ∙ a.same_v6;
  inv = λ v. b.inv (a.inv v);
}

-- The parts that a pool is made of but for its maps.
parts : LocalPool → String × List IpRange × List IpRange
parts p = (p.name, p.v4_ranges, p.v6_ranges)

release_addresses-parts :
    (svc : String) (ips : List String) (p : LocalPool)
    → parts (release_addresses svc ips p) ≡ parts p
unfolding parts release_addresses release_address
release_addresses-parts svc [] p = refl
release_addresses-parts svc (ip ∷ ips) p =
    release_addresses-parts svc ips (release_address svc p ip)

Evolves-of : {p q : LocalPool} → parts q ≡ parts p → (Inv p → Inv q) → Evolves p q
unfolding parts
Evolves-of e v = record { same_name = cc; same_v4 = cc; same_v6 = cc; inv = v }

pub release-Evolves : (p : LocalPool) (svc : String) → Evolves p (release p svc)
unfolding release
release-Evolves p svc =
    Evolves-of (release_addresses-parts svc (Dict.keys p.addresses_in_use) p) (release-Inv p svc)

module _ (net : Parser) where
  notify_addresses-parts :
      (svc : String) (key : Key) (ports : List Port) (ips : List String) (p : LocalPool)
      → parts (notify_addresses net svc key ports ips p) ≡ parts p
  unfolding notify_addresses parts record_address
  notify_addresses-parts svc key ports [] p = refl
  notify_addresses-parts svc key ports (ip ∷ ips) p =
      notify_addresses-parts svc key ports ips _ ∙ one (is_nil (net.parse_ip ip))
    where
      one : (b : Bool) → parts (if b then p else record_address p ip svc key ports) ≡ parts p
      one true = refl
      one false = refl

  pub notify-Evolves : (p : LocalPool) (svc : Service) → Evolves p (notify net p svc)
  unfolding notify
  notify-Evolves p svc =
      Evolves-of (notify_addresses-parts _ _ _ svc.ingress p) (notify-Inv net p svc)

  pub assign-Evolves : (p : LocalPool) (ip : Ip) (svc : Service) → Evolves p (assign net p ip svc).1
  assign-Evolves p ip svc = elim (Option-cases (available net p ip svc)) [
    | inl a ↦ rw (assign-none net p ip svc a) (notify-Evolves p _)
    | inr (e, a) ↦ rw (assign-some net p ip svc a) (Evolves-refl p)
  ]

  Evolves-Closed : Closed net (λ p svc q svc'. Evolves p q)
  Evolves-Closed = record {
    same = λ p svc. Evolves-refl p;
    both = λ p q r svc svc' svc'' a b. Evolves-trans a b;
    step = assign-Evolves;
  }

  pub assign_next-Evolves : (p : LocalPool) (svc : Service) → Evolves p (assign_next net p svc).1
  assign_next-Evolves p svc =
      assign_next-Holds net (λ p svc q svc'. Evolves p q) Evolves-Closed p svc
