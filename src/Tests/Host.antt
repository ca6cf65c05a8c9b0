-- ===== src/Tests/Host.antt =====
-- A host with one interface that has one address or none, and the theorems on the
-- network.
use purelb.Base.{
  ℕ, ◌≡◌, ◌↔◌, refl, sym, ap, subst, inl, inr, Bool-cases, ◌∙◌, Bool, true, false, ◌&&◌, List, [],
  ◌∷◌, String, Option, none, some, arith, ◌==◌, nat_eq, string_eq, if◌then◌else◌,
}
use purelb.Base.Dict
use purelb.Base.Result.{ok, err}
use purelb.Net.{Ip, IpNet, ip_equal, bytes_equal}
use purelb.IpRange.{addr_family}
use purelb.Network.{
  Interface, Link, NetError, system, Netlink, delete_addr, default_index, check_local, usable_in,
}
use purelb.Network.Delete.{IsNetlink, is_address}
use purelb.Network.Delete.Loops.{IsDeleted, Works, err_ne, delete_addr-IsDeleted}
use purelb.Network.Local.{has_local, check_local_iff}
use purelb.Network.Routes.{default_index-first_default}
use purelb.Tests.Sample.{v4, sample}

abbrev pub the_text : String
the_text = "10.0.0.1/32"

abbrev pub the_net : IpNet
the_net = record { ip = v4 10 0 0 1; mask = 255 ∷ 255 ∷ 255 ∷ 255 ∷ [] }

abbrev pub eth0 : Interface
eth0 = record { name = "eth0"; index = 1 }

abbrev pub link : ℕ → Link
link index = record { name = "eth0"; index = index }

-- Whether an interface has the one address, and what it has.
abbrev pub held : (ℕ → Bool) → ℕ → List String
held h index = if h index then the_text ∷ [] else []

abbrev text_of : IpNet → String
text_of n = if ip_equal n.ip (v4 10 0 0 1) then the_text else "?"

-- The address given to an interface, or taken from it; any other is refused.
abbrev turned : Bool → (ℕ → Bool) → Link → IpNet → Option NetError × (ℕ → Bool)
turned value h l n =
    if text_of n == the_text
    then (none, λ index. if l.index == index then value else h index)
    else (some (system "not mine"), h)

abbrev pub host : Netlink (ℕ → Bool) String
host = record {
  interfaces = λ h. ok (eth0 ∷ []);
  interface_by_name = λ h name. ok eth0;
  interface_addrs = λ h i. ok (held h i.index);
  link_by_name = λ h name. ok (link 1);
  link_by_index = λ h index. ok (link index);
  addr_list = λ h l family. ok (record { ip_net = the_net; flags = 128 } ∷ []);
  route_list = λ h family. ok (record { dst = none; link_index = 1; priority = 100 } ∷ []);
  net_string = text_of;
  parse_addr = λ text. if the_text == text then ok the_net else err (system "not mine");
  addr_replace = turned true;
  addr_del = turned false;
  new_dummy = λ h name. (ok (link 2), h);
  link_set_up = λ h l. h;
  link_del = λ h l. (none, h);
  arp_dial = λ h i. none;
  arp_packet = λ op i ip. ok "packet";
  arp_write = λ h packet. (none, h);
}

held_iff :
    (h : ℕ → Bool) (index : ℕ) (text : String)
    → Dict.member (held h index) text ≡ (h index && the_text == text)
held_iff h index text = ground arith

Turned : Bool → (ℕ → Bool) → (ℕ → Bool) → Link → IpNet → Type 0
Turned value h h' l n =
    (index : ℕ) (text : String)
    → Dict.member (held h' index) text
      ≡ (if l.index == index && text_of n == text then value else Dict.member (held h index) text)

turned-held :
    (value : Bool) (h : ℕ → Bool) (l : Link) (n : IpNet) {h' : ℕ → Bool}
    → turned value h l n ≡ (none, h')
    → Turned value h h' l n
unfolding Turned
turned-held value h l n {h'} e = elim (Bool-cases (text_of n == the_text)) [
  | inl mine ↦
      let is = (string_eq.beq_iff (text_of n) the_text).0 mine in
      let e' : ◌≡◌ {A = Option NetError × (ℕ → Bool)}
          (none, λ index. if l.index == index then value else h index) (none, h') =
        (sym (rw mine)) ∙ e in
      subst (λ (r : Option NetError × (ℕ → Bool)). Turned value h r.1 l n) e'
        (λ index text. rw is (ground arith))
  | inr other ↦
      let e' : ◌≡◌ {A = Option NetError × (ℕ → Bool)} (some (system "not mine"), h) (none, h') =
        sym (rw other) ∙ e in
      absurd (err_ne e')
]

turned-fails :
    (value : Bool) (h : ℕ → Bool) (l : Link) (n : IpNet) {e : NetError} {h' : ℕ → Bool}
    → turned value h l n ≡ (some e, h')
    → (index : ℕ) (text : String)
    → Dict.member (held h' index) text ≡ Dict.member (held h index) text
turned-fails value h l n {e} {h'} run index text = elim (Bool-cases (text_of n == the_text)) [
  | inl mine ↦
      let e' : ◌≡◌ {A = Option NetError × (ℕ → Bool)} (some e, h')
          (none, λ index. if l.index == index then value else h index) =
        sym run ∙ rw mine in
      absurd (err_ne e')
  | inr other ↦
      let e' : ◌≡◌ {A = Option NetError × (ℕ → Bool)} (some e, h') (some (system "not mine"), h) =
        sym run ∙ rw other in
      ap (λ (r : Option NetError × (ℕ → Bool)). Dict.member (held r.1 index) text) e'
]

parsed_text :
    (text : String) {a : IpNet} → host.parse_addr text ≡ ok a → (the_text ≡ text) × (a ≡ the_net)
parsed_text text {a} e = elim (Bool-cases (the_text == text)) [
  | inl is ↦
      let e' : ok a ≡ ok the_net = sym e ∙ rw is in ((string_eq.beq_iff the_text text).0 is, cc)
  | inr other ↦ let e' : ok a ≡ err (system "not mine") = sym e ∙ rw other in cc
]

text_of-the_text : (n : IpNet) → the_text ≡ text_of n → ip_equal n.ip (v4 10 0 0 1) ≡ true
text_of-the_text n is = elim (Bool-cases (ip_equal n.ip (v4 10 0 0 1))) [
  | inl same ↦ same
  | inr other ↦ let e : the_text ≡ "?" = is ∙ rw other in cc
]

pub host-IsNetlink : IsNetlink host sample held
unfolding Turned is_address
host-IsNetlink = record {
  interface_addrs-held = λ h i e. cc;
  link_by_index-index = λ h index e. cc;
  parse_addr-string = λ h index text m e. let (is, at) = parsed_text text e in rw at is;
  addr_del-held = turned-held false;
  addr_del-fails = turned-fails false;
  addr_replace-held = turned-held true;
  addr_replace-fails = turned-fails true;
  arp_write-held = λ h packet index text. refl;
  net_string-is_address =
      λ n e. let (is, at) = parsed_text (text_of n) e in rw at (text_of-the_text n is);
}

host-deletes : (h : ℕ → Bool) (ip : Ip) → (delete_addr host sample h ip).0 ≡ none
unfolding delete_addr
host-deletes h ip = elim (Bool-cases (h 1)) [
  | inr absent ↦ rw absent
  | inl present ↦ elim (Bool-cases (ip_equal ip (v4 10 0 0 1))) [
    | inl same ↦ rw (present, same)
    | inr other ↦ rw (present, other)
  ]
]

-- The one interface has the address.
abbrev pub on_eth0 : ℕ → Bool
on_eth0 index = index == 1

pub host-Works : Works host sample (eth0 ∷ [])
host-Works = record { lists = λ h. refl; deletes = host-deletes }

delete_addr-IsDeleted_example :
    IsDeleted host sample held
      (v4 10 0 0 1)
      host-IsNetlink
      (eth0 ∷ [])
      on_eth0
      (λ index. if 1 == index then false else on_eth0 index)
unfolding delete_addr ip_equal bytes_equal
delete_addr-IsDeleted_example =
    delete_addr-IsDeleted host sample held (v4 10 0 0 1) host-IsNetlink on_eth0 {is = eth0 ∷ []}
      {h' = λ index. if 1 == index then false else on_eth0 index} refl refl

default_index-first_default_example :
    default_index
      (record { dst = none; link_index = 2; priority = 100 }
        ∷ record { dst = none; link_index = 3; priority = 10 }
        ∷ record { dst = none; link_index = 4; priority = 20 }
        ∷ [])
      (0, 0)
    ≡ 4
default_index-first_default_example =
    default_index-first_default
      (record { dst = none; link_index = 2; priority = 100 }
        ∷ record { dst = none; link_index = 3; priority = 10 }
        ∷ record { dst = none; link_index = 4; priority = 20 }
        ∷ [])
      (λ e. cc, (λ e. cc, (λ e. cc, tt)))

check_local_iff_example :
    ((r : IpNet × Link) × (check_local host sample on_eth0 (link 1) (v4 10 0 0 1) ≡ ok r)) ↔ (
      has_local
        (usable_in (addr_family (v4 10 0 0 1)))
        (record { ip_net = the_net; flags = 128 } ∷ [])
        (v4 10 0 0 1)
      ≡ true)
check_local_iff_example =
    check_local_iff host sample on_eth0 (link 1) (v4 10 0 0 1)
      {addrs = record { ip_net = the_net; flags = 128 } ∷ []} refl (refl, tt)
