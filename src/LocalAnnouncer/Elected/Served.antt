-- ===== src/LocalAnnouncer/Elected/Served.antt =====
-- SetBalancer of internal/local/announcer_local.go for a service with one address that is local to the
-- node's default interface: from the ingress address of the service to the host's interfaces.
use purelb.Base.{
  ℕ, ◌≡◌, ◌≢◌, ap, subst, ◌∙◌, inl, inr, true, false, List, [], ◌∷◌, String, Option, none, some,
  is_nil, arith, string_eq, Bool-cases, Option-cases,
}
use purelb.Base.Dict
use purelb.Base.Dict.{Dict}
use purelb.Base.Result.{ok}
use purelb.Net.{Ip, IpNet, Parser}
use purelb.Service.{Service, namespaced_name}
use purelb.IpRange.{addr_family}
use purelb.Election.{hash, winner}
use purelb.Network.{Interface, Link, Netlink, add_network, check_local, default_interface}
use purelb.Network.Local.{Of, check_local-Of}
use purelb.Network.Delete.{IsNetlink}
use purelb.Network.Delete.Loops.{Works}
use purelb.LocalAnnouncer.{
  Announcer, Fault, Subset, other_user, announce_local, announce_address, announce_each,
  by_interface, on_default, local_or_remote, set_balancer, is_panic,
}
use purelb.LocalAnnouncer.Elected.Placed.{IsPlaced, announce_local-IsPlaced}

-- A service's own entry is no other service.
other_user-put :
    (name ip : String) (texts : List String) (m : Dict String (List String))
    → other_user name ip (Dict.put m name texts) ≡ other_user name ip m
unfolding other_user Dict.put
other_user-put name ip texts [] = ground (arith, string_eq.beq_iff name name)
other_user-put name ip texts ((other, announced) ∷ m) =
    ground (arith, other_user-put name ip texts m, string_eq.beq_iff other name)

module _ {H P : Type 0} (nl : Netlink H P) (net : Parser) (sha256 : String → List ℕ)
    (members : List String) where
  -- The announcer once it knows the addresses of the service.
  abbrev pub knowing : Announcer H → Service → Announcer H
  knowing a svc = record a {
    svc_ingresses = Dict.put a.svc_ingresses (namespaced_name svc) svc.ingress;
  }

  announce_each-one :
      (ret : Option Fault) (a : Announcer H) (svc : Service) (eps : List Subset) (text : String)
      → is_nil (net.parse_ip text) ≡ false
      → (announce_each nl net sha256 members ret a svc eps (text ∷ [])).1
        ≡ (announce_address nl net sha256 members a svc eps (net.parse_ip text)).1
  unfolding announce_each
  announce_each-one ret a svc eps text parses =
      elim (Bool-cases
        (is_panic (announce_address nl net sha256 members a svc eps (net.parse_ip text)).0)) [
          | inl panics ↦ rw (parses, panics)
          | inr goes ↦ rw (parses, goes)
        ]

  -- Of a single address that parses, SetBalancer makes what the announcement of the address does.
  set_balancer-one :
      (a : Announcer H) (svc : Service) (eps : List Subset) {text : String}
      → a.config ≢ none
      → svc.ingress ≡ text ∷ []
      → is_nil (net.parse_ip text) ≡ false
      → (set_balancer nl net sha256 members a svc eps).1
        ≡ (announce_address nl net sha256 members (knowing a svc) svc eps (net.parse_ip text)).1
  unfolding set_balancer
  set_balancer-one a svc eps {text} configured one parses = elim (Option-cases a.config) [
    | inl e ↦ absurd (configured e)
    | inr (spec, e) ↦
        let run : set_balancer nl net sha256 members a svc eps
            ≡ announce_each nl net sha256 members none (knowing a svc) svc eps svc.ingress =
          ground arith in
        ap (λ r. r.1) run
        ∙ ap (λ texts. (announce_each nl net sha256 members none (knowing a svc) svc eps texts).1)
            one
        ∙ announce_each-one none (knowing a svc) svc eps text parses
  ]

  local_address :
      (a : Announcer H) (svc : Service) (eps : List Subset) (ip : Ip) {link : Link} {n : IpNet}
      → a.local_name_regex ≡ none
      → default_interface nl net a.host (addr_family ip) ≡ ok link
      → check_local nl net a.host link ip ≡ ok (n, link)
      → announce_address nl net sha256 members a svc eps ip
        ≡ announce_local nl net sha256 members a svc link ip n
  unfolding announce_address by_interface on_default local_or_remote
  local_address a svc eps ip by_default found here =
      ap (λ r. by_interface nl net sha256 members a svc eps ip r) by_default
      ∙ ap (λ r. on_default nl net sha256 members a svc eps ip r) found
      ∙ ap (λ r. local_or_remote nl net sha256 members a svc eps ip r) here

module _ {H P : Type 0} (nl : Netlink H P) (net : Parser) (held : H → ℕ → List String)
    (laws : IsNetlink nl net held) (sha256 : String → List ℕ) (cs ds : List String) (text : String)
    (distinct : (x y : String)
      → Dict.member cs x ≡ true
      → Dict.member cs y ≡ true
      → hash sha256 (net.ip_string (net.parse_ip text)) x
        ≡ hash sha256 (net.ip_string (net.parse_ip text)) y
      → x ≡ y)
    (same : (c : String) → Dict.member cs c ≡ Dict.member ds c) where
  -- Where no two members have one hash and a node's winner for an address is given: on every node
  -- that knows the same members, in whatever order, that has a configuration, where the interface of
  -- the default route is the one for local addresses and the address is local to it, the interfaces
  -- can be listed, the additions of the address and all deletions succeed, and no other service has
  -- the address, SetBalancer of a service with this ingress address alone leaves it on that
  -- interface and in the gauge if the node's name is the winner's, and if not on no interface and
  -- not in the gauge.
  pub set_balancer-IsPlaced :
      {w : String} {is : List Interface} {link : Link} {n : IpNet}
      → winner sha256 (net.ip_string (net.parse_ip text)) cs ≡ some w
      → Works nl net is
      → ((h : H) → (add_network nl net h n link).0 ≡ none)
      → (a : Announcer H) (svc : Service) (eps : List Subset) → a.config ≢ none
      → a.local_name_regex ≡ none
      → svc.ingress ≡ text ∷ []
      → is_nil (net.parse_ip text) ≡ false
      → default_interface nl net a.host (addr_family (net.parse_ip text)) ≡ ok link
      → check_local nl net a.host link (net.parse_ip text) ≡ ok (n, link)
      → other_user (namespaced_name svc) (net.ip_string (net.parse_ip text)) a.svc_ingresses ≡ false
      → IsPlaced nl net held laws is w a.my_node svc link
          (net.parse_ip text)
          (set_balancer nl net sha256 ds a svc eps).1
  set_balancer-IsPlaced {w} {is} {link} {n} elected works adds a svc eps configured by_default one
        parses found here alone =
      let ip = net.parse_ip text in
      let b = knowing nl net sha256 ds a svc in
      let at : n.ip ≡ ip = subst (λ r. Of ip r) here (check_local-Of nl net a.host link ip) in
      let run =
        set_balancer-one nl net sha256 ds a svc eps configured one parses
        ∙ ap (λ r. r.1) (local_address nl net sha256 ds b svc eps ip by_default found here) in
      let alone' =
        other_user-put (namespaced_name svc) (net.ip_string ip) svc.ingress a.svc_ingresses
        ∙ alone in
      rw run (
        announce_local-IsPlaced nl net held laws sha256 cs ds ip distinct same elected works b svc
          link n at adds alone')
