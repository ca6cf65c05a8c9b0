-- ===== src/Network/Local.antt =====
-- checkLocal of internal/local/network.go: when an address is local to a link.
use purelb.Base.{
  ℕ, ◌≡◌, ◌↔◌, refl, subst, ◌∙◌, inl, inr, Bool, true, false, not, ◌&&◌, ◌||◌, List, [], ◌∷◌,
  String, is_nil, All, arith, Bool-cases,
}
use purelb.Base.Result.{Result, ok, err, Result-cases}
use purelb.Net.{Ip, IpNet, Parser, net_contains}
use purelb.IpRange.{addr_family}
use purelb.Network.{
  Link, LinkAddr, Netlink, local_mask, usable_in, with_mask, check_local, Interface, NetError,
  find_among, find_local,
}

-- netlink's addresses have masks.
abbrev pub HasMask : LinkAddr → Type 0
HasMask a = is_nil a.ip_net.mask ≡ false

-- An address that is found is the one that was looked for.
abbrev pub Of : Ip → Result NetError (IpNet × Link) → Type 0
Of ip (ok (n, link)) = n.ip ≡ ip
Of ip (err e) = Unit

-- Whether a usable address of the link has a network with the address.
abbrev pub has_local : (LinkAddr → Bool) → List LinkAddr → Ip → Bool
has_local usable [] ip = false
has_local usable (a ∷ addrs) ip =
    (net_contains a.ip_net ip && usable a) || has_local usable addrs ip

is_nil-local_mask :
    (usable : LinkAddr → Bool) (addrs : List LinkAddr) (ip : Ip) (mask : List ℕ)
    → All HasMask addrs
    → is_nil (local_mask usable addrs ip mask) ≡ (is_nil mask && not (has_local usable addrs ip))
unfolding local_mask
is_nil-local_mask usable [] ip mask h = ground arith
is_nil-local_mask usable (a ∷ addrs) ip mask h =
    elim (Bool-cases (net_contains a.ip_net ip && usable a)) [
      | inl this ↦
          rw this (is_nil-local_mask usable addrs ip a.ip_net.mask h.1 ∙ ground (arith, h.0))
      | inr other ↦ rw other (is_nil-local_mask usable addrs ip mask h.1)
    ]

with_mask_iff :
    (ip : Ip) (mask : List ℕ) (intf : Link)
    → ((r : IpNet × Link) × (with_mask ip mask intf ≡ ok r)) ↔ (is_nil mask ≡ false)
unfolding with_mask
with_mask_iff ip [] intf = (λ w. cc (w.1), λ h. cc)
with_mask_iff ip (m ∷ ms) intf = (λ w. refl, λ h. ((record { ip = ip; mask = m ∷ ms }, intf), refl))

module _ {H P : Type 0} (nl : Netlink H P) (net : Parser) where
  -- An address is local to a link exactly when one of the link's addresses of its family that is
  -- usable has a network with the address.
  pub check_local_iff :
      (h : H) (intf : Link) (ip : Ip) {addrs : List LinkAddr}
      → nl.addr_list h intf (addr_family ip) ≡ ok addrs
      → All HasMask addrs
      → ((r : IpNet × Link) × (check_local nl net h intf ip ≡ ok r))
        ↔ (has_local (usable_in (addr_family ip)) addrs ip ≡ true)
  unfolding check_local
  check_local_iff h intf ip {addrs} listed masks =
      let usable = usable_in (addr_family ip) in
      let found = is_nil-local_mask usable addrs ip [] masks in
      let same = with_mask_iff ip (local_mask usable addrs ip []) intf in
      rw listed (λ w. ground (arith, same.0 w), λ has. same.1 (ground arith))

  with_mask-Of : (ip : Ip) (mask : List ℕ) (intf : Link) → Of ip (with_mask ip mask intf)
  unfolding with_mask
  with_mask-Of ip [] intf = tt
  with_mask-Of ip (m ∷ ms) intf = refl

  pub check_local-Of : (h : H) (intf : Link) (ip : Ip) → Of ip (check_local nl net h intf ip)
  unfolding check_local
  check_local-Of h intf ip = elim (Result-cases (nl.addr_list h intf (addr_family ip))) [
    | inr (e, unlisted) ↦ rw unlisted tt
    | inl (addrs, listed) ↦ rw listed (with_mask-Of ip _ intf)
  ]

  find_among-Of :
      (matches : String → Bool) (is : List Interface) (h : H) (ip : Ip)
      → Of ip (find_among nl net matches is h ip)
  unfolding find_among
  find_among-Of matches [] h ip = tt
  find_among-Of matches (i ∷ is) h ip = elim (Bool-cases (matches i.name)) [
    | inr passed ↦ rw (passed, find_among) (find_among-Of matches is h ip)
    | inl taken ↦ elim (Result-cases (nl.link_by_name h i.name)) [
      | inr (e, unknown) ↦ rw (taken, unknown, find_among) tt
      | inl (link, known) ↦ elim (Result-cases (check_local nl net h link ip)) [
        | inr (e, away) ↦ rw (taken, known, away, find_among) (find_among-Of matches is h ip)
        | inl (found, here) ↦
            rw (taken, known, here, find_among)
              (subst (λ f. Of ip f) here (check_local-Of h link ip))
      ]
    ]
  ]

  pub find_local-Of :
      (matches : String → Bool) (h : H) (ip : Ip) → Of ip (find_local nl net matches h ip)
  unfolding find_local
  find_local-Of matches h ip = elim (Result-cases (nl.interfaces h)) [
    | inr (e, unlisted) ↦ rw unlisted tt
    | inl (is, listed) ↦ rw listed (find_among-Of matches is h ip)
  ]
