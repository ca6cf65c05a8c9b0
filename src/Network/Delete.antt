-- ===== src/Network/Delete.antt =====
-- deleteAddr of internal/local/network.go, one address at a time; Loops has the loops.
pub mod Loops
use purelb.Base.{
  ℕ, ◌≡◌, refl, subst, sym, ◌∙◌, ◌⊎◌, inl, inr, Bool, true, false, ◌&&◌, List, [], ◌∷◌, String,
  Option, none, some, All, arith, ◌==◌, nat_eq, string_eq, if◌then◌else◌, Bool-cases, Option-cases,
}
use purelb.Base.Dict
use purelb.Base.Result.{Result, ok, err, on_success, on_success-eq_none, Result-cases}
use purelb.Net.{Ip, IpNet, Parser, ip_equal}
use purelb.Network.{
  Interface, Link, NetError, Netlink, wrapped, bad_cidr, could_not_remove, delete_one, delete_if,
  delete_among, delete_from, delete_addr,
}

-- Whether a text is that of an address.
unfoldable pub is_address : Parser → Ip → String → Bool
unfolding ip_equal
is_address net ip text = elim (net.parse_cidr text) [
  | none ↦ false
  | some (address, _) ↦ ip_equal ip address
]

-- What netlink and Go's net package document of the addresses of interfaces, given by their index:
-- a deletion that succeeds takes one text from one interface, an addition that succeeds gives it one,
-- one that fails changes nothing, and neither does a packet; and the text of an address is that of
-- its IP.
pub record IsNetlink {H P : Type 0} (nl : Netlink H P) (net : Parser) (held : H → ℕ → List String)
    : Type 0 where
  pub interface_addrs-held :
      (h : H) (i : Interface) {texts : List String}
      → nl.interface_addrs h i ≡ ok texts
      → held h i.index ≡ texts
  pub link_by_index-index :
      (h : H) (index : ℕ) {link : Link} → nl.link_by_index h index ≡ ok link → link.index ≡ index
  pub parse_addr-string :
      (h : H) (index : ℕ) (text : String) {a : IpNet}
      → Dict.member (held h index) text ≡ true
      → nl.parse_addr text ≡ ok a
      → nl.net_string a ≡ text
  pub addr_del-held :
      (h : H) (link : Link) (a : IpNet) {h' : H}
      → nl.addr_del h link a ≡ (none, h')
      → (index : ℕ) (text : String)
      → Dict.member (held h' index) text ≡ (
          if link.index == index && nl.net_string a == text
          then false
          else Dict.member (held h index) text)
  pub addr_del-fails :
      (h : H) (link : Link) (a : IpNet) {e : NetError} {h' : H}
      → nl.addr_del h link a ≡ (some e, h')
      → (index : ℕ) (text : String)
      → Dict.member (held h' index) text ≡ Dict.member (held h index) text
  pub addr_replace-held :
      (h : H) (link : Link) (a : IpNet) {h' : H}
      → nl.addr_replace h link a ≡ (none, h')
      → (index : ℕ) (text : String)
      → Dict.member (held h' index) text ≡ (
          if link.index == index && nl.net_string a == text
          then true
          else Dict.member (held h index) text)
  pub addr_replace-fails :
      (h : H) (link : Link) (a : IpNet) {e : NetError} {h' : H}
      → nl.addr_replace h link a ≡ (some e, h')
      → (index : ℕ) (text : String)
      → Dict.member (held h' index) text ≡ Dict.member (held h index) text
  pub arp_write-held :
      (h : H) (packet : P) (index : ℕ) (text : String)
      → Dict.member (held (nl.arp_write h packet).1 index) text ≡ Dict.member (held h index) text
  pub net_string-is_address :
      (n : IpNet) {a : IpNet}
      → nl.parse_addr (nl.net_string n) ≡ ok a
      → is_address net n.ip (nl.net_string a) ≡ true

module _ {H P : Type 0} (nl : Netlink H P) (net : Parser) (held : H → ℕ → List String)
    (ip : Ip) where
  -- Between two states of the host only texts of the address are taken away.
  abbrev pub Kept : H → H → Type 0
  Kept h h' =
      (index : ℕ) (text : String)
      → (Dict.member (held h' index) text ≡ Dict.member (held h index) text)
        ⊎ ((Dict.member (held h' index) text ≡ false) × (is_address net ip text ≡ true))

  pub Kept-trans : (h h' h'' : H) → Kept h h' → Kept h' h'' → Kept h h''
  Kept-trans h h' h'' k l index text = ground (arith, k index text, l index text)

  -- What one interface has no more.
  abbrev pub Gone : H → ℕ → List String → Type 0
  Gone h index texts =
      (text : String)
      → Dict.member texts text ≡ true
      → is_address net ip text ≡ true
      → Dict.member (held h index) text ≡ false

  Gone-Kept :
      (h h' : H) (index : ℕ) (texts : List String)
      → Kept h h'
      → Gone h index texts
      → Gone h' index texts
  Gone-Kept h h' index texts k g text m a = ground (arith, k index text, g text m a)

  -- No text of the address on an interface.
  abbrev pub Absent : H → Interface → Type 0
  Absent h i =
      (text : String) → Dict.member (held h i.index) text ≡ true → is_address net ip text ≡ false

  pub Absent-Kept : (h h' : H) (i : Interface) → Kept h h' → Absent h i → Absent h' i
  Absent-Kept h h' i k g text m = ground (arith, k i.index text, g text)

  delete_if-other :
      (h : H) (i : Interface) (text : String)
      → is_address net ip text ≡ false
      → (delete_if nl net h i ip text).1 ≡ h
  unfolding delete_if is_address
  delete_if-other h i text other = ground arith

  delete_if-same :
      (h : H) (i : Interface) (text : String)
      → is_address net ip text ≡ true
      → delete_if nl net h i ip text ≡ delete_one nl net h i text
  unfolding delete_if is_address
  delete_if-same h i text same = ground arith

  module _ (laws : IsNetlink nl net held) where
    -- What a deletion leaves: without an error the text is gone, and nothing else.
    abbrev Deleted : H → H → Interface → String → Option NetError → Type 0
    Deleted h h' i text none =
        (index : ℕ) (t : String)
        → Dict.member (held h' index) t
          ≡ (if i.index == index && text == t then false else Dict.member (held h index) t)
    Deleted h h' i text (some f) =
        (index : ℕ) (t : String) → Dict.member (held h' index) t ≡ Dict.member (held h index) t

    addr_del-Deleted :
        (h0 h : H) (i : Interface) (text : String) (link : Link) (a : IpNet) (e : Option NetError)
        (h' : H)
        → link.index ≡ i.index
        → nl.net_string a ≡ text
        → nl.addr_del h link a ≡ (e, h')
        → Deleted h h' i text (wrapped could_not_remove e)
    unfolding wrapped
    addr_del-Deleted h0 h i text link a none h' at is run =
        rw (← at) (rw (← is) (laws.addr_del-held h link a run))
    addr_del-Deleted h0 h i text link a (some f) h' at is run = laws.addr_del-fails h link a run

    delete_one-Deleted :
        (h0 h : H) (i : Interface) (text : String)
        → Dict.member (held h0 i.index) text ≡ true
        → Deleted h (delete_one nl net h i text).1 i text (delete_one nl net h i text).0
    unfolding delete_one
    delete_one-Deleted h0 h i text had = elim (Result-cases (nl.link_by_index h i.index)) [
      | inr (e, no_link) ↦ rw (no_link, delete_one) (λ index t. refl)
      | inl (link, found) ↦ elim (Result-cases (nl.parse_addr text)) [
        | inr (e, bad) ↦ rw (found, bad, delete_one) (λ index t. refl)
        | inl (a, parsed) ↦
            rw (found, parsed, delete_one)
              (addr_del-Deleted h0 h i text link a _ _ (laws.link_by_index-index h i.index found)
                (laws.parse_addr-string h0 i.index text had parsed) refl)
      ]
    ]

    Deleted-Kept :
        (h h' : H) (i : Interface) (text : String) (e : Option NetError)
        → is_address net ip text ≡ true
        → Deleted h h' i text e
        → Kept h h'
    Deleted-Kept h h' i text (some f) same d index t = inl (d index t)
    Deleted-Kept h h' i text none same d index t = elim (Bool-cases (text == t)) [
      | inr other ↦ inl (ground (arith, d index t))
      | inl this ↦ elim (Bool-cases (i.index == index)) [
        | inr elsewhere ↦ inl (ground (arith, d index t))
        | inl here ↦ inr (
          d index t ∙ rw (here, this),
          subst (λ x. is_address net ip x ≡ true) ((string_eq.beq_iff text t).0 this) same,
        )
      ]
    ]

    -- One round of the loop over an interface's addresses.
    pub delete_if-Kept :
        (h0 h : H) (i : Interface) (text : String)
        → Dict.member (held h0 i.index) text ≡ true
        → Kept h (delete_if nl net h i ip text).1
    delete_if-Kept h0 h i text had = elim (Bool-cases (is_address net ip text)) [
      | inr other ↦ rw (delete_if-other h i text other) (λ index t. inl refl)
      | inl same ↦
          rw (delete_if-same h i text same)
            (Deleted-Kept h _ i text _ same (delete_one-Deleted h0 h i text had))
    ]

    pub delete_if-Gone :
        (h0 h : H) (i : Interface) (text : String) {h' : H}
        → Dict.member (held h0 i.index) text ≡ true
        → delete_if nl net h i ip text ≡ (none, h')
        → is_address net ip text ≡ true
        → Dict.member (held h' i.index) text ≡ false
    delete_if-Gone h0 h i text {h'} had run same =
        let d = delete_one-Deleted h0 h i text had in
        let d' =
          subst (λ r. Deleted h r.1 i text r.0) (sym (delete_if-same h i text same) ∙ run) d in
        d' i.index text ∙ ground (arith, string_eq.beq_iff text text)
