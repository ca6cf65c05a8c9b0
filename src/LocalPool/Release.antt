-- ===== src/LocalPool/Release.antt =====
-- The users, port owners and sharing keys after Release of internal/allocator/localpool.go.
use purelb.Base.{
  ◌≡◌, ◌≢◌, refl, sym, ◌∙◌, inl, inr, Bool, false, ◌&&◌, List, [], ◌∷◌, String, Option, none, some,
  arith, ◌==◌, string_eq, if◌then◌else◌, Bool-cases,
}
use purelb.Base.Dict
use purelb.Base.Dict.{get-keys, get-is_nil, get-nil, get-remove}
use purelb.Service.{Port, port_eq}
use purelb.LocalPool.{LocalPool, release_address, release_addresses, release}
use purelb.LocalPool.Views.{
  users, user, owner, other_owner, user-release_address, owner-release_address, key-release_address,
}
use purelb.LocalPool.Invariant.{Inv}

module _ (svc at : String) where
  user-release_addresses :
      (s : String) (ips : List String) (p : LocalPool)
      → user (release_addresses svc ips p) at s
        ≡ (if svc == s && Dict.member ips at then none else user p at s)
  unfolding release_addresses
  user-release_addresses s [] p = ground arith
  user-release_addresses s (ip ∷ ips) p =
      user-release_addresses s ips (release_address svc p ip)
      ∙ ground (arith, user-release_address svc p ip at s)

  owner-release_addresses :
      (q : Port) (ips : List String) (p : LocalPool)
      → owner (release_addresses svc ips p) at q
        ≡ (if Dict.member ips at then other_owner svc (owner p at q) else owner p at q)
  unfolding release_addresses
  owner-release_addresses q [] p = refl
  owner-release_addresses q (ip ∷ ips) p =
      owner-release_addresses q ips (release_address svc p ip)
      ∙ ground (arith, owner-release_address svc p ip at q)

  key-release_addresses :
      (s : String) {b : Bool} (ips : List String) (p : LocalPool)
      → svc ≢ s
      → user p at s ≡ some b
      → Dict.get (release_addresses svc ips p).sharing_keys at ≡ Dict.get p.sharing_keys at
  unfolding release_addresses
  key-release_addresses s [] p ne h = refl
  key-release_addresses s {b} (ip ∷ ips) p ne h =
      let stays : user (release_address svc p ip) at s ≡ some b =
        ground (arith, user-release_address svc p ip at s, string_eq.beq_iff svc s) in
      key-release_addresses s ips (release_address svc p ip) ne stays
      ∙ ground (
        arith,
        key-release_address svc p ip at,
        get-is_nil (Dict.remove (users p ip) svc) s {v = b},
        get-remove (users p ip) svc s,
        string_eq.beq_iff svc s,
        string_eq.beq_iff ip at,
      )

pub other_owner_same : (svc : String) (o : Option String) → o ≢ some svc → other_owner svc o ≡ o
other_owner_same svc none h = refl
other_owner_same svc (some s) h = ground (arith, string_eq.beq_iff s svc)

other_owner-ne : (svc : String) (o : Option String) → other_owner svc o ≢ some svc
other_owner-ne svc none h = cc
other_owner-ne svc (some s) h = ground (arith, string_eq.beq_iff s svc, string_eq.beq_iff svc svc)

module _ (p : LocalPool) (svc at : String) where
  pub user-release :
      (s : String) → user (release p svc) at s ≡ (if svc == s then none else user p at s)
  unfolding release
  user-release s =
      user-release_addresses svc at s (Dict.keys p.addresses_in_use) p
      ∙ ground (arith, get-keys p.addresses_in_use at, get-nil {V = Bool} s)

  pub owner-release :
      (q : Port) → Inv p → owner (release p svc) at q ≡ other_owner svc (owner p at q)
  unfolding release
  owner-release q v =
      owner-release_addresses svc at q (Dict.keys p.addresses_in_use) p
      ∙ elim (Bool-cases (Dict.member (Dict.keys p.addresses_in_use) at)) [
        | inl visited ↦ rw visited
        | inr missed ↦ rw missed (sym (other_owner_same svc (owner p at q) (free missed)))
      ]
    where
      free : Dict.member (Dict.keys p.addresses_in_use) at ≡ false → owner p at q ≢ some svc
      free missed e =
          v.owned at q svc e
            (ground (arith, get-keys p.addresses_in_use at, get-nil {V = Bool} svc))

  pub key-release :
      (s : String) {b : Bool}
      → svc ≢ s
      → user p at s ≡ some b
      → Dict.get (release p svc).sharing_keys at ≡ Dict.get p.sharing_keys at
  unfolding release
  key-release s ne h = key-release_addresses svc at s (Dict.keys p.addresses_in_use) p ne h

-- After Release of a service no address has it as a user and no port as its owner; every other
-- service keeps its addresses and ports, and the sharing key of each address that it uses.
pub record IsReleased (before after : LocalPool) (svc : String) : Type 0 where
  pub gone : (at : String) → user after at svc ≡ none
  pub no_port : (at : String) (q : Port) → owner after at q ≢ some svc
  pub users_kept : (at s : String) → svc ≢ s → user after at s ≡ user before at s
  pub ports_kept :
      (at : String) (q : Port) (s : String)
      → svc ≢ s
      → owner before at q ≡ some s
      → owner after at q ≡ some s
  pub keys_kept :
      (at s : String) {b : Bool}
      → svc ≢ s
      → user before at s ≡ some b
      → Dict.get after.sharing_keys at ≡ Dict.get before.sharing_keys at

-- From a pool that keeps the invariant, Release of a service takes it from all addresses and all
-- ports, and leaves every other service its addresses, ports and sharing keys.
pub release-IsReleased : (p : LocalPool) (svc : String) → Inv p → IsReleased p (release p svc) svc
release-IsReleased p svc v = record {
  gone = λ at. ground (arith, user-release p svc at svc, string_eq.beq_iff svc svc);
  no_port = λ at q. ground (arith, owner-release p svc at q v, other_owner-ne svc (owner p at q));
  users_kept = λ at s ne. ground (arith, user-release p svc at s, string_eq.beq_iff svc s);
  ports_kept = λ at q s ne h. ground (arith, owner-release p svc at q v, string_eq.beq_iff s svc);
  keys_kept = λ at s ne h. key-release p svc at s ne h;
}
