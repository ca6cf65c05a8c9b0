-- ===== src/NetboxPool/Fixed.antt =====
-- The name of a pool of internal/allocator/netboxpool.go over its operations.
use purelb.Base.{
  ◌≡◌, refl, Bool, true, false, List, [], ◌∷◌, String, Option, none, some, is_nil, string_eq,
  if◌then◌else◌, Option-cases, inl, inr, none-ne-some,
}
use purelb.Base.Dict
use purelb.Net.{Ip, Parser}
use purelb.Service.{Service, add_ingress}
use purelb.Pool.{Error, unparseable_ip}
use purelb.NetboxPool.{
  NetboxPool, record_address, notify_addresses, notify, assign, assign_fetched, assign_answer,
  assign_next, release_first, release,
}

module _ (net : Parser) where
  name-notify_addresses :
      (svc : String) (texts : List String) (p : NetboxPool)
      → (notify_addresses net svc texts p).1.name ≡ p.name
  unfolding notify_addresses record_address
  name-notify_addresses svc [] p = refl
  name-notify_addresses svc (text ∷ texts) p =
      one (is_nil (net.parse_ip text)) _
        (name-notify_addresses svc texts (record_address p svc text (net.parse_ip text)))
    where
      one :
          (b : Bool) (rest : Option Error × NetboxPool)
          → rest.1.name ≡ p.name
          → (if b then (some unparseable_ip, p) else rest).1.name ≡ p.name
      one true rest h = refl
      one false rest h = h

  pub name-notify : (p : NetboxPool) (svc : Service) → (notify net p svc).1.name ≡ p.name
  unfolding notify
  name-notify p svc = name-notify_addresses _ svc.ingress p

  pub name-assign :
      (p : NetboxPool) (ip : Ip) (svc : Service) → (assign net p ip svc).1.name ≡ p.name
  unfolding assign
  name-assign p ip svc = name-notify p (add_ingress svc (net.ip_string ip))

  name-assign_fetched :
      (p : NetboxPool) (answer : Option String) (svc : Service)
      → (assign_fetched net p answer svc).1.name ≡ p.name
  unfolding assign_fetched
  name-assign_fetched p none svc = refl
  name-assign_fetched p (some cidr) svc = elim (Option-cases (net.parse_cidr cidr)) [
    | inl e ↦ rw (e, assign_fetched)
    | inr ((ip, n), e) ↦ rw (e, assign_fetched) (name-assign p ip svc)
  ]

  pub name-assign_next : (p : NetboxPool) (svc : Service) → (assign_next net p svc).1.name ≡ p.name
  unfolding assign_next
  name-assign_next p svc = name-assign_answer p p.answers
    where
      name-assign_answer :
          (p : NetboxPool) (answers : List (Option String))
          → (assign_answer net p answers svc).1.name ≡ p.name
      name-assign_answer p [] = refl
      name-assign_answer p (answer ∷ answers) =
          name-assign_fetched (record p { answers = answers }) answer svc

  pub name-release : (p : NetboxPool) (svc : String) → (release net p svc).1.name ≡ p.name
  unfolding release release_first
  name-release p svc = elim (Option-cases (Dict.get p.services svc)) [
    | inl e ↦ rw (e, release_first)
    | inr ([], e) ↦ rw (e, release_first)
    | inr (ip ∷ ips, e) ↦ rw (e, release_first)
  ]

  -- A Release that reports an error changes nothing.
  pub release-same :
      (p : NetboxPool) (svc : String) {e : Error}
      → (release net p svc).0 ≡ some e
      → (release net p svc).1 ≡ p
  unfolding release release_first
  release-same p svc h = elim (Option-cases (Dict.get p.services svc)) [
    | inl f ↦ rw (f, release_first)
    | inr ([], f) ↦ rw (f, release_first)
    | inr (ip ∷ ips, f) ↦ absurd (none-ne-some (rw (f, release_first) at h))
  ]
