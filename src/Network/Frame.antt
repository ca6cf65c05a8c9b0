-- ===== src/Network/Frame.antt =====
-- What adding an address and announcing it by ARP in internal/local/network.go do to it and to
-- the other addresses of a host's interfaces.
use purelb.Base.{
  ℕ, ◌≡◌, refl, ◌∙◌, inl, inr, true, false, List, [], ◌∷◌, String, Option, none, some, arith, ◌==◌,
  nat_eq, string_eq, subst, Bool-cases, Option-cases,
}
use purelb.Base.Dict
use purelb.Base.Result.{ok, on_success, Result-cases}
use purelb.Net.{Ip, IpNet, Parser}
use purelb.IpRange.{addr_family}
use purelb.Network.{
  wrapped, could_not_add, ArpOperation, Interface, Link, NetError, Netlink, request, reply,
  garp_each, send_garp, add_network, add_virtual_int, aggregated,
}
use purelb.Network.Delete.{IsNetlink, is_address}

-- Every text that is not of the address is where it was.
abbrev pub Unmoved : {H : Type 0} → Parser → (H → ℕ → List String) → Ip → H → H → Type 0
Unmoved net held ip h h' =
    (index : ℕ) (text : String)
    → is_address net ip text ≡ false
    → Dict.member (held h' index) text ≡ Dict.member (held h index) text

module _ {H P : Type 0} (nl : Netlink H P) (net : Parser) (held : H → ℕ → List String)
    (ip : Ip) where
  pub Unmoved-trans :
      (h h' h'' : H)
      → Unmoved net held ip h h'
      → Unmoved net held ip h' h''
      → Unmoved net held ip h h''
  Unmoved-trans h h' h'' u v index text other = v index text other ∙ u index text other

  module _ (laws : IsNetlink nl net held) where
    replaced :
        (h : H) (link : Link) (n a : IpNet) (e : Option NetError) (h' : H)
        → n.ip ≡ ip
        → nl.parse_addr (nl.net_string n) ≡ ok a
        → nl.addr_replace h link a ≡ (e, h')
        → Unmoved net held ip h h'
    replaced h link n a (some e) h' at parsed run index text other =
        laws.addr_replace-fails h link a run index text
    replaced h link n a none h' at parsed run index text other =
        let is : is_address net ip (nl.net_string a) ≡ true =
          subst (λ x. is_address net x (nl.net_string a) ≡ true) at
            (laws.net_string-is_address n parsed) in
        elim (Bool-cases (nl.net_string a == text)) [
          | inl this ↦
              let text_is = (string_eq.beq_iff (nl.net_string a) text).0 this in
              let is' = subst (λ x. is_address net ip x ≡ true) text_is is in ground arith
          | inr not_this ↦ ground (arith, laws.addr_replace-held h link a run index text)
        ]

    pub add_network-Unmoved :
        (h : H) (n : IpNet) (link : Link)
        → n.ip ≡ ip
        → Unmoved net held ip h (add_network nl net h n link).1
    unfolding add_network
    add_network-Unmoved h n link at = elim (Result-cases (nl.parse_addr (nl.net_string n))) [
      | inr (e, bad) ↦ rw (bad, add_network) (λ index text other. refl)
      | inl (a, parsed) ↦ rw (parsed, add_network) (replaced h link n a _ _ at parsed refl)
    ]

    pub add_virtual_int-Unmoved :
        (h : H) (link : Link) (subnet aggregation : String)
        → Unmoved net held ip h (add_virtual_int nl net h ip link subnet aggregation).1
    unfolding add_virtual_int
    add_virtual_int-Unmoved h link subnet aggregation =
        let family = addr_family ip in
        elim (Bool-cases (family == 0)) [
          | inl none_of_them ↦ rw (none_of_them, add_virtual_int) (λ index text other. refl)
          | inr known ↦
              elim (Option-cases (net.parse_cidr (aggregated nl net subnet aggregation family))) [
                | inl bad ↦ rw (known, bad, add_virtual_int) (λ index text other. refl)
                | inr ((first, n), parsed) ↦
                    rw (known, parsed, add_virtual_int)
                      (add_network-Unmoved h (record { ip = ip; mask = n.mask }) link refl)
              ]
        ]

    -- An announcement by ARP changes no address.
    abbrev pub Unchanged : H → H → Type 0
    Unchanged h h' =
        (index : ℕ) (text : String)
        → Dict.member (held h' index) text ≡ Dict.member (held h index) text

    on_success-Unchanged :
        (h : H) (first : Option NetError × H) (next : H → Option NetError × H)
        → Unchanged h first.1
        → ((h' : H) → Unchanged h' (next h').1)
        → Unchanged h (on_success first next).1
    on_success-Unchanged h (none, h') next u v index text = v h' index text ∙ u index text
    on_success-Unchanged h (some e, h') next u v index text = u index text

    garp_each-Unchanged :
        (ops : List ArpOperation) (i : Interface) (h : H)
        → Unchanged h (garp_each nl net ops i ip h).1
    unfolding garp_each
    garp_each-Unchanged [] i h = λ index text. refl
    garp_each-Unchanged (op ∷ ops) i h = elim (Result-cases (nl.arp_packet op i ip)) [
      | inr (e, bad) ↦ rw (bad, garp_each) (λ index text. refl)
      | inl (packet, made) ↦
          rw (made, garp_each)
            (on_success-Unchanged h (nl.arp_write h packet) (λ h'. garp_each nl net ops i ip h')
              (λ index text. laws.arp_write-held h packet index text)
              (λ h'. garp_each-Unchanged ops i h'))
    ]

    pub send_garp-Unchanged : (h : H) (name : String) → Unchanged h (send_garp nl net h name ip).1
    unfolding send_garp
    send_garp-Unchanged h name = elim (Result-cases (nl.interface_by_name h name)) [
      | inr (e, bad) ↦ rw (bad, send_garp) (λ index text. refl)
      | inl (i, found) ↦ elim (Option-cases (nl.arp_dial h i)) [
        | inr (e, bad) ↦ rw (found, bad, send_garp) (λ index text. refl)
        | inl fine ↦ rw (found, fine, send_garp) (garp_each-Unchanged (request ∷ reply ∷ []) i h)
      ]
    ]

    -- An interface has the address, as some text.
    abbrev pub Shows : H → ℕ → Type 0
    Shows h index =
        (text : String) × (is_address net ip text ≡ true) × (Dict.member (held h index) text ≡ true)

    replaced-Shows :
        (h : H) (link : Link) (n a : IpNet) (e : Option NetError) (h' : H)
        → n.ip ≡ ip
        → nl.parse_addr (nl.net_string n) ≡ ok a
        → nl.addr_replace h link a ≡ (e, h')
        → wrapped could_not_add e ≡ none
        → Shows h' link.index
    unfolding wrapped
    replaced-Shows h link n a (some e) h' at parsed run fine = cc
    replaced-Shows h link n a none h' at parsed run fine =
        let text = nl.net_string a in
        (
          text,
          subst (λ x. is_address net x text ≡ true) at (laws.net_string-is_address n parsed),
          laws.addr_replace-held h link a run link.index text
              ∙ ground (arith, string_eq.beq_iff text text),
        )

    pub add_network-Shows :
        (h : H) (n : IpNet) (link : Link)
        → n.ip ≡ ip
        → (add_network nl net h n link).0 ≡ none
        → Shows (add_network nl net h n link).1 link.index
    unfolding add_network
    add_network-Shows h n link at = elim (Result-cases (nl.parse_addr (nl.net_string n))) [
      | inr (e, bad) ↦ rw (bad, add_network) (λ fine. cc)
      | inl (a, parsed) ↦ rw (parsed, add_network) (replaced-Shows h link n a _ _ at parsed refl)
    ]
