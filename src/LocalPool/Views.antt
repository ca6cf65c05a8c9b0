-- ===== src/LocalPool/Views.antt =====
-- What Notify and Release of a local pool do to the users, the sharing key and the port owners of
-- each address.
use purelb.Base.{
  ◌≡◌, refl, ◌∙◌, Bool, true, false, ◌&&◌, ◌||◌, List, [], ◌∷◌, String, Option, none, some, is_nil,
  arith, ◌==◌, string_eq, if◌then◌else◌,
}
use purelb.Base.Dict
use purelb.Base.Dict.{Dict, get-put, get-remove}
use purelb.Service.{Port, port_eq}
use purelb.Pool.{Key}
use purelb.LocalPool.{
  LocalPool, inner, put_ports, record_address, ports_without, put_or_remove, release_address,
}

abbrev pub users : LocalPool → String → Dict String Bool
users p ip = inner (Dict.get p.addresses_in_use ip)

abbrev pub owners : LocalPool → String → Dict Port String
owners p ip = inner (Dict.get p.ports_in_use ip)

-- Whether a service uses an address.
abbrev pub user : LocalPool → String → String → Option Bool
user p ip svc = Dict.get (users p ip) svc

-- The service that has a port of an address.
abbrev pub owner : LocalPool → String → Port → Option String
owner p ip port = Dict.get (owners p ip) port

abbrev pub has_port : List Port → Port → Bool
has_port [] q = false
has_port (port ∷ ports) q = port == q || has_port ports q

pub get-put_ports :
    (svc : String) (ports : List Port) (m : Dict Port String) (q : Port)
    → Dict.get (put_ports svc ports m) q ≡ (if has_port ports q then some svc else Dict.get m q)
unfolding put_ports
get-put_ports svc [] m q = refl
get-put_ports svc (port ∷ ports) m q =
    get-put_ports svc ports (Dict.put m port svc) q ∙ ground (arith, get-put m port q svc)

-- An owner, if it is not the service that gives its ports back.
abbrev pub other_owner : String → Option String → Option String
other_owner svc none = none
other_owner svc (some s) = if s == svc then none else some s

pub get-ports_without :
    (svc : String) (m : Dict Port String) (q : Port)
    → Dict.get (ports_without svc m) q ≡ other_owner svc (Dict.get m q)
unfolding ports_without Dict.get
get-ports_without svc [] q = refl
get-ports_without svc ((port, owner) ∷ m) q = ground (
  arith,
  get-ports_without svc m q,
  get-remove (ports_without svc m) port q,
  port_eq.beq_iff port q,
)

module _ (p : LocalPool) (ip svc : String) (key : Key) (ports : List Port) (at : String) where
  pub user-record_address :
      (s : String)
      → user (record_address p ip svc key ports) at s
        ≡ (if ip == at && svc == s then some true else user p at s)
  unfolding record_address
  user-record_address s = ground (
    arith,
    get-put p.addresses_in_use ip at (Dict.put (users p ip) svc true),
    get-put (users p ip) svc s true,
    string_eq.beq_iff ip at,
  )

  pub owner-record_address :
      (q : Port)
      → owner (record_address p ip svc key ports) at q
        ≡ (if ip == at && has_port ports q then some svc else owner p at q)
  unfolding record_address
  owner-record_address q = ground (
    arith,
    get-put p.ports_in_use ip at (put_ports svc ports (owners p ip)),
    get-put_ports svc ports (owners p ip) q,
    string_eq.beq_iff ip at,
  )

  pub key-record_address :
      Dict.get (record_address p ip svc key ports).sharing_keys at
      ≡ (if ip == at then some key else Dict.get p.sharing_keys at)
  unfolding record_address
  key-record_address = get-put p.sharing_keys ip at key

  pub held-record_address :
      Dict.get (record_address p ip svc key ports).addresses_in_use at
      ≡ (if ip == at then some (Dict.put (users p ip) svc true) else Dict.get p.addresses_in_use at)
  unfolding record_address
  held-record_address = get-put p.addresses_in_use ip at (Dict.put (users p ip) svc true)

  pub ports-record_address :
      Dict.get (record_address p ip svc key ports).ports_in_use at
      ≡ (if ip == at then some (put_ports svc ports (owners p ip)) else Dict.get p.ports_in_use at)
  unfolding record_address
  ports-record_address = get-put p.ports_in_use ip at (put_ports svc ports (owners p ip))

inner-put_or_remove {ℓ} :
    {A : Type ℓ} (m : Dict String (List A)) (k : String) (v : List A) (j : String)
    → inner (Dict.get (put_or_remove m k v) j) ≡ (if k == j then v else inner (Dict.get m j))
unfolding put_or_remove
inner-put_or_remove m k [] j = ground (arith, get-remove m k j)
inner-put_or_remove m k (v ∷ vs) j = ground (arith, get-put m k j (v ∷ vs))

get-put_or_remove {ℓ} :
    {A : Type ℓ} (m : Dict String (List A)) (k : String) (v : List A) (j : String)
    → Dict.get (put_or_remove m k v) j
      ≡ (if k == j then (if is_nil v then none else some v) else Dict.get m j)
unfolding put_or_remove
get-put_or_remove m k [] j = get-remove m k j
get-put_or_remove m k (v ∷ vs) j = get-put m k j (v ∷ vs)

module _ (svc : String) (p : LocalPool) (ip at : String) where
  pub user-release_address :
      (s : String)
      → user (release_address svc p ip) at s ≡ (if ip == at && svc == s then none else user p at s)
  unfolding release_address
  user-release_address s = ground (
    arith,
    inner-put_or_remove p.addresses_in_use ip (Dict.remove (users p ip) svc) at,
    get-remove (users p ip) svc s,
    string_eq.beq_iff ip at,
  )

  pub owner-release_address :
      (q : Port)
      → owner (release_address svc p ip) at q
        ≡ (if ip == at then other_owner svc (owner p at q) else owner p at q)
  unfolding release_address
  owner-release_address q = ground (
    arith,
    inner-put_or_remove p.ports_in_use ip (ports_without svc (owners p ip)) at,
    get-ports_without svc (owners p ip) q,
    string_eq.beq_iff ip at,
  )

  pub key-release_address : Dict.get (release_address svc p ip).sharing_keys at ≡ (
      if ip == at && is_nil (Dict.remove (users p ip) svc)
      then none
      else Dict.get p.sharing_keys at)
  unfolding release_address
  key-release_address = ground (arith, get-remove p.sharing_keys ip at)

  pub held-release_address : Dict.get (release_address svc p ip).addresses_in_use at ≡ (
      if ip == at
      then (if is_nil (Dict.remove (users p ip) svc)
          then none
          else some (Dict.remove (users p ip) svc))
      else Dict.get p.addresses_in_use at)
  unfolding release_address
  held-release_address = get-put_or_remove p.addresses_in_use ip (Dict.remove (users p ip) svc) at
