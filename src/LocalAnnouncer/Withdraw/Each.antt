-- ===== src/LocalAnnouncer/Withdraw/Each.antt =====
-- DeleteBalancer of internal/local/announcer_local.go: what a node withdraws, and what it keeps for
-- the services that still announce an address.
use purelb.Base.{
  ℕ, ◌≡◌, ◌≢◌, refl, subst, sym, ap, ◌∙◌, ◌⊎◌, Bool, true, false, ◌||◌, List, [], ◌∷◌, String,
  Option, none, some, is_nil, All, arith, ◌==◌, string_eq, if◌then◌else◌,
}
use purelb.Base.Dict
use purelb.Base.Dict.{Dict, get-remove, get-remove_self}
use purelb.Net.{Parser}
use purelb.Network.{Interface, Netlink}
use purelb.Network.Delete.{IsNetlink, is_address, Absent}
use purelb.Network.Delete.Loops.{Works}
use purelb.LocalAnnouncer.{
  Announcer, Fault, Label, label_eq, other_user, delete_address, delete_addresses, delete_balancer,
}
use purelb.LocalAnnouncer.Withdraw.{
  other_user-remove, delete_address-svc_ingresses, delete_address-announcing, delete_address-Absent,
  Spared, delete_address-Spared, Shrinks, delete_addresses-Shrinks,
}

abbrev pub Parses : Parser → String → Type 0
Parses net text = is_nil (net.parse_ip text) ≡ false

module _ {H P : Type 0} (nl : Netlink H P) (net : Parser) (name : String) where
  abbrev pub label : String → Label
  label text = record { service = name; ip = net.ip_string (net.parse_ip text) }

  -- Whether another service announces the address.
  abbrev pub shared : Announcer H → String → Bool
  shared a text = other_user name (net.ip_string (net.parse_ip text)) a.svc_ingresses

  after : Announcer H → String → Announcer H
  after a text = delete_address nl net a name (net.parse_ip text)

  step :
      (a : Announcer H) (text : String) (texts : List String)
      → Parses net text
      → delete_addresses nl net a name (text ∷ texts)
        ≡ delete_addresses nl net (after a text) name texts
  unfolding delete_addresses after
  step a text texts good = rw good

  shared-after :
      (a : Announcer H) (text other : String) → shared (after a text) other ≡ shared a other
  unfolding after
  shared-after a text other =
      ap (λ m. other_user name (net.ip_string (net.parse_ip other)) m)
        (delete_address-svc_ingresses nl net a name (net.parse_ip text))

  delete_addresses-fault :
      (texts : List String) (a : Announcer H)
      → All (Parses net) texts
      → (delete_addresses nl net a name texts).0 ≡ none
  unfolding delete_addresses
  delete_addresses-fault [] a good = refl
  delete_addresses-fault (text ∷ texts) a good =
      ap (λ (r : Option Fault × Announcer H). r.0) (step a text texts good.0)
      ∙ delete_addresses-fault texts (after a text) good.1

  delete_addresses-svc_ingresses :
      (texts : List String) (a : Announcer H)
      → All (Parses net) texts
      → (delete_addresses nl net a name texts).1.svc_ingresses ≡ a.svc_ingresses
  unfolding delete_addresses after
  delete_addresses-svc_ingresses [] a good = refl
  delete_addresses-svc_ingresses (text ∷ texts) a good =
      ap (λ (r : Option Fault × Announcer H). r.1.svc_ingresses) (step a text texts good.0)
      ∙ delete_addresses-svc_ingresses texts (after a text) good.1
      ∙ delete_address-svc_ingresses nl net a name (net.parse_ip text)

  -- The gauge loses the service's labels for these addresses, and keeps those of other services.
  abbrev pub named : List String → Label → Bool
  named [] l = false
  named (text ∷ texts) l = label text == l || named texts l

  get-announcing :
      (texts : List String) (a : Announcer H) (l : Label)
      → All (Parses net) texts
      → Dict.get (delete_addresses nl net a name texts).1.announcing l
        ≡ (if named texts l then none else Dict.get a.announcing l)
  unfolding delete_addresses after
  get-announcing [] a l good = refl
  get-announcing (text ∷ texts) a l good =
      ap (λ (r : Option Fault × Announcer H). Dict.get r.1.announcing l) (step a text texts good.0)
      ∙ get-announcing texts (after a text) l good.1
      ∙ ground (
        arith,
        ap (λ m. Dict.get m l) (delete_address-announcing nl net a name (net.parse_ip text)),
        get-remove a.announcing (label text) l,
      )

  module _ (held : H → ℕ → List String) (laws : IsNetlink nl net held) where
    get-host :
        (texts : List String) (a : Announcer H) (index : ℕ) (x : String)
        → All (Parses net) texts
        → All (λ t. Spared nl net held laws a name t x) texts
        → Dict.member (held (delete_addresses nl net a name texts).1.host index) x
          ≡ Dict.member (held a.host index) x
    unfolding delete_addresses after
    get-host [] a index x good safe = refl
    get-host (text ∷ texts) a index x good safe =
        ap (λ (r : Option Fault × Announcer H). Dict.member (held r.1.host index) x)
          (step a text texts good.0)
        ∙ get-host texts (after a text) index x good.1 (carry texts safe.1)
        ∙ delete_address-Spared nl net held laws a name text x index safe.0
      where
        carry :
            (ts : List String)
            → All (λ t. Spared nl net held laws a name t x) ts
            → All (λ t. Spared nl net held laws (after a text) name t x) ts
        carry [] s = tt
        carry (t ∷ ts) s = (ground (arith, s.0, shared-after a text t), carry ts s.1)

    -- None of the interfaces has the address of a text.
    abbrev pub Withdrawn : List Interface → H → String → Type 0
    Withdrawn is h text = All (Absent nl net held (net.parse_ip text) h) is

    Withdrawn-Shrinks :
        (is : List Interface) (h h' : H) (text : String)
        → Shrinks nl net held laws h h'
        → Withdrawn is h text
        → Withdrawn is h' text
    Withdrawn-Shrinks [] h h' text less w = tt
    Withdrawn-Shrinks (i ∷ is) h h' text less w =
        (λ x m. w.0 x (less i.index x m), Withdrawn-Shrinks is h h' text less w.1)

    -- What DeleteBalancer leaves of a service that announces the addresses of some texts.
    pub record IsWithdrawn (is : List Interface) (texts : List String) (before after : Announcer H)
        : Type 0 where
      pub forgotten : Dict.get after.svc_ingresses name ≡ none
      pub others_known :
          (s : String) → name ≢ s → Dict.get after.svc_ingresses s ≡ Dict.get before.svc_ingresses s
      pub gauge :
          (l : Label)
          → Dict.get after.announcing l
            ≡ (if named texts l then none else Dict.get before.announcing l)
      pub withdrawn : All (λ t. shared before t ≡ false → Withdrawn is after.host t) texts
      pub spared :
          (index : ℕ) (x : String)
          → All (λ t. (shared before t ≡ true) ⊎ (is_address net (net.parse_ip t) x ≡ false)) texts
          → Dict.member (held after.host index) x ≡ Dict.member (held before.host index) x

    module _ {is : List Interface} (works : Works nl net is) where
      after-Withdrawn :
          (a : Announcer H) (text : String)
          → shared a text ≡ false
          → Withdrawn is (after a text).host text
      unfolding after
      after-Withdrawn a text alone =
          delete_address-Absent nl net held laws a name (net.parse_ip text) works alone

      delete_addresses-Withdrawn :
          (texts : List String) (a : Announcer H)
          → All (Parses net) texts
          → All
              (λ t.
                shared a t ≡ false → Withdrawn is (delete_addresses nl net a name texts).1.host t)
              texts
      unfolding delete_addresses
      delete_addresses-Withdrawn [] a good = tt
      delete_addresses-Withdrawn (text ∷ texts) a good =
          subst
            (λ (r : Option Fault × Announcer H).
              All (λ t. shared a t ≡ false → Withdrawn is r.1.host t) (text ∷ texts))
            (sym (step a text texts good.0))
            (
              λ alone.
                  Withdrawn-Shrinks is (after a text).host _ text
                    (delete_addresses-Shrinks nl net held laws texts (after a text) name)
                    (after-Withdrawn a text alone),
              carry texts (delete_addresses-Withdrawn texts (after a text) good.1),
            )
        where
          carry :
              (ts : List String)
              → All
                  (λ t.
                    shared (after a text) t ≡ false
                    → Withdrawn is (delete_addresses nl net (after a text) name texts).1.host t)
                  ts
              → All
                  (λ t.
                    shared a t ≡ false
                    → Withdrawn is (delete_addresses nl net (after a text) name texts).1.host t)
                  ts
          carry [] s = tt
          carry (t ∷ ts) s = (λ alone. s.0 (shared-after a text t ∙ alone), carry ts s.1)

      forget : Announcer H → Announcer H
      forget a = record a { svc_ingresses = Dict.remove a.svc_ingresses name }

      shared-forget : (a : Announcer H) (text : String) → shared (forget a) text ≡ shared a text
      unfolding forget
      shared-forget a text =
          other_user-remove name (net.ip_string (net.parse_ip text)) a.svc_ingresses

      delete_balancer-known :
          (a : Announcer H) {texts : List String}
          → Dict.get a.svc_ingresses name ≡ some texts
          → delete_balancer nl net a name ≡ delete_addresses nl net (forget a) name texts
      unfolding delete_balancer forget
      delete_balancer-known a known = rw (known, delete_balancer)

      -- For a service whose ingress addresses parse, DeleteBalancer reports no error and forgets the
      -- service; the gauge loses its labels for these addresses and no other; each of the addresses
      -- that no other service announces is on no interface any more; and a text of an interface stays
      -- where each of these addresses is announced by another service or is not that of the text. The
      -- host is one whose interfaces can be listed and on which a deletion does not fail.
      pub delete_balancer-IsWithdrawn :
          (a : Announcer H) {texts : List String}
          → Dict.get a.svc_ingresses name ≡ some texts
          → All (Parses net) texts
          → ((delete_balancer nl net a name).0 ≡ none)
            × IsWithdrawn is texts a (delete_balancer nl net a name).1
      unfolding forget
      delete_balancer-IsWithdrawn a {texts} known good =
          subst (λ (r : Option Fault × Announcer H). (r.0 ≡ none) × IsWithdrawn is texts a r.1)
            (sym (delete_balancer-known a known))
            (
              delete_addresses-fault texts (forget a) good,
              record {
                forgotten =
                    ap (λ m. Dict.get m name) (delete_addresses-svc_ingresses texts (forget a) good)
                    ∙ get-remove_self a.svc_ingresses name;
                others_known = λ s ne.
                    ap (λ m. Dict.get m s) (delete_addresses-svc_ingresses texts (forget a) good)
                    ∙ ground (arith, get-remove a.svc_ingresses name s, string_eq.beq_iff name s);
                gauge = λ l. get-announcing texts (forget a) l good;
                withdrawn = carry texts (delete_addresses-Withdrawn texts (forget a) good);
                spared =
                    λ index x safe. get-host texts (forget a) index x good (spare x texts safe);
              },
            )
        where
          carry :
              (ts : List String)
              → All
                  (λ t.
                    shared (forget a) t ≡ false
                    → Withdrawn is (delete_addresses nl net (forget a) name texts).1.host t)
                  ts
              → All
                  (λ t.
                    shared a t ≡ false
                    → Withdrawn is (delete_addresses nl net (forget a) name texts).1.host t)
                  ts
          carry [] s = tt
          carry (t ∷ ts) s = (λ alone. s.0 (shared-forget a t ∙ alone), carry ts s.1)

          spare :
              (x : String) (ts : List String)
              → All (λ t. (shared a t ≡ true) ⊎ (is_address net (net.parse_ip t) x ≡ false)) ts
              → All (λ t. Spared nl net held laws (forget a) name t x) ts
          spare x [] s = tt
          spare x (t ∷ ts) s = (ground (arith, s.0, shared-forget a t), spare x ts s.1)
