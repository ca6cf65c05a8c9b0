-- ===== src/NetboxPool/Released.antt =====
-- Release of internal/allocator/netboxpool.go: what it takes from the pool's two maps.
use purelb.Base.{
  ◌≡◌, ◌↔◌, none-ne-some, refl, ap, subst, sym, ◌∙◌, Bool, true, false, List, [], ◌∷◌, String,
  Option, none, some, ◌==◌, string_eq, if◌then◌else◌,
}
use purelb.Base.Dict
use purelb.Base.Dict.{Dict, get-put, get-remove, get-put_self, get-remove_self}
use purelb.Net.{Ip, Parser}
use purelb.LocalPool.{inner}
use purelb.NetboxPool.{NetboxPool, release, release_first, without_user, contains}

-- The users of an address's text.
abbrev pub users : NetboxPool → String → Dict String Bool
users p text = inner (Dict.get p.addresses_in_use text)

put_or_remove :
    Dict String (Dict String Bool) → String → Dict String Bool → Dict String (Dict String Bool)
put_or_remove m text [] = Dict.remove m text
put_or_remove m text (u ∷ us) = Dict.put m text (u ∷ us)

inner-put_or_remove :
    (m : Dict String (Dict String Bool)) (text : String) (us : Dict String Bool)
    → inner (Dict.get (put_or_remove m text us) text) ≡ us
unfolding put_or_remove
inner-put_or_remove m text [] = ap (λ o. inner o) (get-remove_self m text)
inner-put_or_remove m text (u ∷ us) = ap (λ o. inner o) (get-put_self m text (u ∷ us))

without_user-same :
    (net : Parser) (m : Dict String (Dict String Bool)) (text svc : String)
    → without_user net m text svc ≡ put_or_remove m text (Dict.remove (inner (Dict.get m text)) svc)
unfolding without_user put_or_remove
without_user-same net m text svc = refl

module _ (net : Parser) where
  inner-without_user :
      (m : Dict String (Dict String Bool)) (text svc : String)
      → inner (Dict.get (without_user net m text svc) text)
        ≡ Dict.remove (inner (Dict.get m text)) svc
  inner-without_user m text svc =
      ap (λ x. inner (Dict.get x text)) (without_user-same net m text svc)
      ∙ inner-put_or_remove m text (Dict.remove (inner (Dict.get m text)) svc)

  get-put_or_remove :
      (m : Dict String (Dict String Bool)) (text t : String) (us : Dict String Bool)
      → (text == t) ≡ false
      → Dict.get (put_or_remove m text us) t ≡ Dict.get m t
  unfolding put_or_remove
  get-put_or_remove m text t [] other = get-remove m text t ∙ rw other
  get-put_or_remove m text t (u ∷ us) other = get-put m text t (u ∷ us) ∙ rw other

  known-put_or_remove :
      (m : Dict String (Dict String Bool)) (text : String) (us : Dict String Bool)
      → (Dict.get (put_or_remove m text us) text ≡ none) ↔ (us ≡ [])
  unfolding put_or_remove
  known-put_or_remove m text [] = (λ e. refl, λ e. get-remove_self m text)
  known-put_or_remove m text (u ∷ us) =
      (λ e. absurd (none-ne-some (sym e ∙ get-put_self m text (u ∷ us))), λ e. cc)

  -- What Release does with a service that has this first address.
  pub record FreesFirst (svc : String) (ip : Ip) (p q : NetboxPool) : Type 0 where
    pub services :
        (s : String) → Dict.get q.services s ≡ (if svc == s then none else Dict.get p.services s)
    pub first_users :
        (s : String)
        → Dict.get (users q (net.ip_string ip)) s
          ≡ (if svc == s then none else Dict.get (users p (net.ip_string ip)) s)
    pub first_free :
        (contains net q ip ≡ false) ↔ (Dict.remove (users p (net.ip_string ip)) svc ≡ [])
    pub rest :
        (text : String)
        → (net.ip_string ip == text) ≡ false
        → Dict.get q.addresses_in_use text ≡ Dict.get p.addresses_in_use text
    pub answers : q.answers ≡ p.answers

  contains_iff :
      (q : NetboxPool) (ip : Ip)
      → (contains net q ip ≡ false) ↔ (Dict.get q.addresses_in_use (net.ip_string ip) ≡ none)
  unfolding contains
  contains_iff q ip = found_iff (Dict.get q.addresses_in_use (net.ip_string ip))
    where
      found_iff :
          (o : Option (Dict String Bool))
          → (elim o as (λ _. Bool) [ none ↦ false | some _ ↦ true ] ≡ false) ↔ (o ≡ none)
      found_iff none = (λ h. refl, λ h. refl)
      found_iff (some us) = (λ h. cc, λ h. cc)

  release_first-FreesFirst :
      (p : NetboxPool) (svc : String) (ip : Ip) (ips : List Ip)
      → FreesFirst svc ip p (release_first net p svc (some (ip ∷ ips))).1
  unfolding release_first
  release_first-FreesFirst p svc ip ips =
      let m = p.addresses_in_use in
      let text = net.ip_string ip in
      let us = Dict.remove (users p text) svc in
      let q = (release_first net p svc (some (ip ∷ ips))).1 in
      let same = without_user-same net m text svc in
      let known : (Dict.get q.addresses_in_use text ≡ none) ↔ (us ≡ []) =
        subst (λ x. (Dict.get x text ≡ none) ↔ (us ≡ [])) (sym same)
          (known-put_or_remove m text us) in
      record {
        services = λ s. get-remove p.services svc s;
        first_users = λ s.
            ap (λ x. Dict.get x s) (inner-without_user m text svc)
            ∙ get-remove (users p text) svc s;
        first_free =
            (λ h. known.0 ((contains_iff q ip).0 h), λ h. (contains_iff q ip).1 (known.1 h));
        rest = λ t other. ap (λ x. Dict.get x t) same ∙ get-put_or_remove m text t us other;
        answers = refl;
      }

  -- Release of a service that has addresses in a Netbox pool succeeds and makes the service unknown;
  -- it takes the service from the users of its first address, which is free exactly if no user is
  -- left, and leaves every other service and the users of every other text as they were.
  pub release-FreesFirst :
      (p : NetboxPool) (svc : String) {ip : Ip} {ips : List Ip}
      → Dict.get p.services svc ≡ some (ip ∷ ips)
      → ((release net p svc).0 ≡ none) × FreesFirst svc ip p (release net p svc).1
  unfolding release release_first
  release-FreesFirst p svc {ip} {ips} known =
      let run = ap (λ o. release_first net p svc o) known in
      (
        ap (λ r. r.0) run,
        subst (λ r. FreesFirst svc ip p r.1) (sym run) (release_first-FreesFirst p svc ip ips),
      )
