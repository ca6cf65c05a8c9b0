-- ===== src/LocalPool/Invariant.antt =====
-- How the three maps of a local pool of internal/allocator/localpool.go go together.
use purelb.Base.{
  ◌≡◌, ◌≢◌, ◌↔◌, Bool, true, false, List, [], ◌∷◌, String, none, some, is_nil, arith, string_eq,
  if◌then◌else◌,
}
use purelb.Base.Dict
use purelb.Base.Dict.{Dict, put-ne-nil, remove-nil}
use purelb.Net.{Parser}
use purelb.Service.{Service, Port, port_eq}
use purelb.Pool.{Key}
use purelb.LocalPool.{
  LocalPool, record_address, release_address, release_addresses, release, notify, notify_addresses,
}
use purelb.LocalPool.Views.{
  users, user, owner, user-record_address, owner-record_address, key-record_address,
  held-record_address, user-release_address, owner-release_address, key-release_address,
  held-release_address,
}

-- An address has a sharing key exactly while it is in use; an address in use has a user; and the
-- owner of a port uses its address.
pub record Inv (p : LocalPool) : Type 0 where
  pub keyed :
      (ip : String) → (Dict.get p.sharing_keys ip ≡ none) ↔ (Dict.get p.addresses_in_use ip ≡ none)
  pub occupied : (ip : String) → Dict.get p.addresses_in_use ip ≢ some []
  pub owned : (ip : String) (q : Port) (s : String) → owner p ip q ≡ some s → user p ip s ≢ none

record_address-Inv :
    (p : LocalPool) (ip svc : String) (key : Key) (ports : List Port)
    → Inv p
    → Inv (record_address p ip svc key ports)
record_address-Inv p ip svc key ports v = record {
  keyed = λ at. ground (
    arith,
    v.keyed at,
    key-record_address p ip svc key ports at,
    held-record_address p ip svc key ports at,
  );
  occupied = λ at. ground (
    arith,
    v.occupied at,
    held-record_address p ip svc key ports at,
    put-ne-nil (users p ip) svc true,
  );
  owned = λ at q s. ground (
    arith,
    v.owned at q s,
    owner-record_address p ip svc key ports at q,
    user-record_address p ip svc key ports at s,
    string_eq.beq_iff svc s,
  );
}

release_address-Inv :
    (svc : String) (p : LocalPool) (ip : String) → Inv p → Inv (release_address svc p ip)
release_address-Inv svc p ip v = record {
  keyed = λ at. ground (
    arith,
    v.keyed at,
    string_eq.beq_iff ip at,
    remove-nil {V = Bool} svc,
    key-release_address svc p ip at,
    held-release_address svc p ip at,
  );
  occupied = λ at. ground (arith, v.occupied at, held-release_address svc p ip at);
  owned = λ at q s. ground (
    arith,
    v.owned at q s,
    owner-release_address svc p ip at q,
    user-release_address svc p ip at s,
    string_eq.beq_iff svc s,
    string_eq.beq_iff s svc,
  );
}

release_addresses-Inv :
    (svc : String) (ips : List String) (p : LocalPool) → Inv p → Inv (release_addresses svc ips p)
unfolding release_addresses
release_addresses-Inv svc [] p v = v
release_addresses-Inv svc (ip ∷ ips) p v =
    release_addresses-Inv svc ips (release_address svc p ip) (release_address-Inv svc p ip v)

-- Release of a service keeps the invariant of a pool.
pub release-Inv : (p : LocalPool) (svc : String) → Inv p → Inv (release p svc)
unfolding release
release-Inv p svc v = release_addresses-Inv svc (Dict.keys p.addresses_in_use) p v

module _ (net : Parser) where
  notify_addresses-Inv :
      (svc : String) (key : Key) (ports : List Port) (ips : List String) (p : LocalPool)
      → Inv p
      → Inv (notify_addresses net svc key ports ips p)
  unfolding notify_addresses
  notify_addresses-Inv svc key ports [] p v = v
  notify_addresses-Inv svc key ports (ip ∷ ips) p v =
      notify_addresses-Inv svc key ports ips _
        (if-Inv (is_nil (net.parse_ip ip)) v (record_address-Inv p ip svc key ports v))
    where
      if-Inv : (b : Bool) {p q : LocalPool} → Inv p → Inv q → Inv (if b then p else q)
      if-Inv true v w = v
      if-Inv false v w = w

  -- Notify of any service keeps the invariant of a pool.
  pub notify-Inv : (p : LocalPool) (svc : Service) → Inv p → Inv (notify net p svc)
  unfolding notify
  notify-Inv p svc v = notify_addresses-Inv _ _ _ svc.ingress p v
