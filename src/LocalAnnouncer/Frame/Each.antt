-- ===== src/LocalAnnouncer/Frame/Each.antt =====
-- What SetBalancer of internal/local/announcer_local.go leaves as it is: the gauge and the host, of all
-- services and addresses but those that it is given.
use purelb.Base.{
  ℕ, ◌≡◌, ◌≢◌, refl, ap, ◌∙◌, inl, inr, Bool, true, false, not, ◌&&◌, List, [], ◌∷◌, String, Option,
  none, some, is_nil, arith, ◌==◌, string_eq, if◌then◌else◌, Option-cases,
}
use purelb.Base.Dict
use purelb.Base.Dict.{Dict, get-put, get-remove}
use purelb.Net.{Parser}
use purelb.Service.{Service, namespaced_name}
use purelb.Network.{Netlink}
use purelb.Network.Delete.{IsNetlink, is_address}
use purelb.LocalAnnouncer.{
  Announcer, Fault, Label, Subset, label_eq, announce_address, announce_each, set_balancer,
  is_panic, latest,
}
use purelb.LocalAnnouncer.Frame.{Touches, Touches-refl, Fine}
use purelb.LocalAnnouncer.Frame.Address.{announce_address-Touches}

module _ {H P : Type 0} (nl : Netlink H P) (net : Parser) (sha256 : String → List ℕ)
    (members : List String) (held : H → ℕ → List String) (laws : IsNetlink nl net held) where
  -- Whether a label is none of a service's addresses.
  abbrev pub foreign : String → List String → Label → Bool
  foreign name [] m = true
  foreign name (text ∷ texts) m =
      not (record { service = name; ip = net.ip_string (net.parse_ip text) } == m)
      && foreign name texts m

  -- Whether a text is of none of a service's addresses.
  abbrev pub elsewhere : List String → String → Bool
  elsewhere [] t = true
  elsewhere (text ∷ texts) t = not (is_address net (net.parse_ip text) t) && elsewhere texts t

  -- What a loop over several addresses leaves.
  record Leaves (a : Announcer H) (name : String) (texts : List String) (b : Announcer H)
      : Type 0 where
    gauge :
        (m : Label)
        → foreign name texts m ≡ true
        → Dict.get b.announcing m ≡ Dict.get a.announcing m
    known : b.svc_ingresses ≡ a.svc_ingresses
    on_host :
        (index : ℕ) (text : String)
        → elsewhere texts text ≡ true
        → Dict.member (held b.host index) text ≡ Dict.member (held a.host index) text

  Leaves-refl : (a : Announcer H) (name : String) (texts : List String) → Leaves a name texts a
  Leaves-refl a name texts = record {
    gauge = λ m away. refl;
    known = refl;
    on_host = λ index text away. refl;
  }

  one_address :
      (a : Announcer H) (svc : Service) (eps : List Subset) (text : String) (bad : Bool)
      → Fine nl net held a svc (net.parse_ip text) (
          if bad
          then (none, a, svc)
          else announce_address nl net sha256 members a svc eps (net.parse_ip text))
  one_address a svc eps text true =
      Touches-refl nl net held (namespaced_name svc) (net.parse_ip text) a svc
  one_address a svc eps text false =
      announce_address-Touches nl net held laws sha256 members a svc eps (net.parse_ip text)

  Leaves-cons :
      (a b : Announcer H) (svc svc' : Service) (text : String) (texts : List String)
      (c : Announcer H)
      → Touches nl net held (namespaced_name svc) (net.parse_ip text) a svc b svc'
      → Leaves b (namespaced_name svc') texts c
      → Leaves a (namespaced_name svc) (text ∷ texts) c
  Leaves-cons a b svc svc' text texts c t l = record {
    gauge = λ m away. l.gauge m (rw t.named (ground arith)) ∙ t.gauge m (ground arith);
    known = l.known ∙ t.known;
    on_host =
        λ index t' away. l.on_host index t' (ground arith) ∙ t.on_host index t' (ground arith);
  }

  announce_each-Leaves :
      (texts : List String) (ret : Option Fault) (a : Announcer H) (svc : Service)
      (eps : List Subset)
      → Leaves a
          (namespaced_name svc)
          texts
          (announce_each nl net sha256 members ret a svc eps texts).1
  unfolding announce_each
  announce_each-Leaves [] ret a svc eps = Leaves-refl a (namespaced_name svc) []
  announce_each-Leaves (text ∷ texts) ret a svc eps =
      let ip = net.parse_ip text in
      let r : Option Fault × Announcer H × Service =
        if is_nil ip then (none, a, svc) else announce_address nl net sha256 members a svc eps ip in
      let t = one_address a svc eps text (is_nil ip) in
      if-Leaves (is_panic r.0) _ _
        (Leaves-cons a r.1 svc r.2 text texts r.1 t (Leaves-refl r.1 (namespaced_name r.2) texts))
        (Leaves-cons a r.1 svc r.2 text texts _ t
          (announce_each-Leaves texts (latest r.0 ret) r.1 r.2 eps))
    where
      if-Leaves :
          (b : Bool) (r s : Option Fault × Announcer H × Service)
          → Leaves a (namespaced_name svc) (text ∷ texts) r.1
          → Leaves a (namespaced_name svc) (text ∷ texts) s.1
          → Leaves a (namespaced_name svc) (text ∷ texts) (if b then r else s).1
      if-Leaves true r s l k = l
      if-Leaves false r s l k = k

  -- What a configured announcer keeps when it is given a service.
  pub record IsFramed (svc : Service) (before after : Announcer H) : Type 0 where
    pub known :
        (s : String)
        → Dict.get after.svc_ingresses s
          ≡ (if namespaced_name svc == s then some svc.ingress else Dict.get before.svc_ingresses s)
    pub gauge :
        (m : Label)
        → foreign (namespaced_name svc) svc.ingress m ≡ true
        → Dict.get after.announcing m ≡ Dict.get before.announcing m
    pub on_host :
        (index : ℕ) (text : String)
        → elsewhere svc.ingress text ≡ true
        → Dict.member (held after.host index) text ≡ Dict.member (held before.host index) text

  -- After SetBalancer a configured announcer knows the service by the ingress addresses that it has,
  -- and every other service by those that it had; the gauge shows what it showed of every label that
  -- is not of the service and one of these addresses; and the interfaces of the host have what
  -- they had of every text that is not of one of these addresses.
  pub set_balancer-IsFramed :
      (a : Announcer H) (svc : Service) (eps : List Subset)
      → a.config ≢ none
      → IsFramed svc a (set_balancer nl net sha256 members a svc eps).1
  unfolding set_balancer
  set_balancer-IsFramed a svc eps configured = elim (Option-cases a.config) [
    | inl e ↦ absurd (configured e)
    | inr (spec, e) ↦
        let b : Announcer H = record a {
          svc_ingresses = Dict.put a.svc_ingresses (namespaced_name svc) svc.ingress;
        } in
        let l = announce_each-Leaves svc.ingress none b svc eps in
        let run : set_balancer nl net sha256 members a svc eps
            ≡ announce_each nl net sha256 members none b svc eps svc.ingress =
          ground arith in
        rw run (record {
          known = λ s.
              ap (λ m. Dict.get m s) l.known
              ∙ get-put a.svc_ingresses (namespaced_name svc) s svc.ingress;
          gauge = l.gauge;
          on_host = l.on_host;
        })
  ]
