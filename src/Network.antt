-- ===== src/Network.antt =====
-- internal/local/network.go: the node's interfaces, addresses and routes, over the calls of Go's net
-- package, netlink and arp that the program makes.
pub mod Routes
pub mod Delete
pub mod Frame
pub mod Local
use Prim.Native.String.{◌++◌ as text_append}
use purelb.Base.{
  ℕ, ◌≡◌, Bool, true, false, not, ◌&&◌, List, [], ◌∷◌, String, Option, none, some, is_nil, ltb,
  ◌==◌, nat_eq, string_eq, if◌then◌else◌,
}
use purelb.Base.Result.{Result, ok, err, ◌>>=◌, on_success}
use purelb.Net.{Ip, IpNet, Parser, ip_equal, net_contains}
use purelb.IpRange.{addr_family, family_v4, family_v6}

-- net.Interface, of which the program uses the name and the index.
pub record Interface : Type 0 where
  pub name : String
  pub index : ℕ

-- netlink.Link, with its attributes.
pub record Link : Type 0 where
  pub name : String
  pub index : ℕ

-- netlink.Addr
pub record LinkAddr : Type 0 where
  pub ip_net : IpNet
  pub flags : ℕ

-- netlink.Route: a default route has no destination.
pub record Route : Type 0 where
  pub dst : Option IpNet
  pub link_index : ℕ
  pub priority : ℕ

pub data NetError : Type 0 where
  system : String → NetError
  non_local no_local_interface no_default_interface bad_cidr : NetError
  could_not_add could_not_remove : NetError → NetError

pub data ArpOperation : Type 0 where
  request reply : ArpOperation

-- The calls, on a host in H and over packets in P: a call answers, fails, or changes the host.
pub record Netlink (H P : Type 0) : Type 0 where
  pub interfaces : H → Result NetError (List Interface)
  pub interface_by_name : H → String → Result NetError Interface
  pub interface_addrs : H → Interface → Result NetError (List String)
  pub link_by_name : H → String → Result NetError Link
  pub link_by_index : H → ℕ → Result NetError Link
  pub addr_list : H → Link → ℕ → Result NetError (List LinkAddr)
  pub route_list : H → ℕ → Result NetError (List Route)
  pub net_string : IpNet → String
  pub parse_addr : String → Result NetError IpNet
  pub addr_replace : H → Link → IpNet → Option NetError × H
  pub addr_del : H → Link → IpNet → Option NetError × H
  pub new_dummy : H → String → Result NetError Link × H
  pub link_set_up : H → Link → H
  pub link_del : H → Link → Option NetError × H
  pub arp_dial : H → Interface → Option NetError
  pub arp_packet : ArpOperation → Interface → Ip → Result NetError P
  pub arp_write : H → P → Option NetError × H

-- The mask that an address gets among the addresses of a link: that of the last one with a network
-- that has it, and that is usable.
unfoldable pub local_mask : (LinkAddr → Bool) → List LinkAddr → Ip → List ℕ → List ℕ
unfolding net_contains
local_mask usable [] ip mask = mask
local_mask usable (a ∷ addrs) ip mask =
    local_mask usable addrs ip
      (if net_contains a.ip_net ip && usable a then a.ip_net.mask else mask)

-- addrs.Flags < 256: addresses that are managed temporaries or without a prefix route are left out.
abbrev pub usable_in : ℕ → LinkAddr → Bool
usable_in family a = if family == family_v4 then true else ltb a.flags 256

-- Whether a mask was found.
unfoldable pub with_mask : Ip → List ℕ → Link → Result NetError (IpNet × Link)
with_mask ip mask intf =
    if is_nil mask then err non_local else ok (record { ip = ip; mask = mask }, intf)

-- The state of the loop of defaultInterface: the index and the metric of a route.
unfoldable pub consider : ℕ × ℕ → Route → ℕ × ℕ
consider (index, metric) r = elim r.dst [
  | some _ ↦ (index, metric)
  | none ↦
      if index == 0
      then (r.link_index, r.priority)
      else if ltb r.priority metric
      then (r.link_index, metric)
      else (index, metric)
]

unfoldable pub default_index : List Route → ℕ × ℕ → ℕ
unfolding consider
default_index [] best = best.0
default_index (r ∷ rs) best = default_index rs (consider best r)

unfoldable pub wrapped : (NetError → NetError) → Option NetError → Option NetError
wrapped wrap none = none
wrapped wrap (some e) = some (wrap e)

module _ {H P : Type 0} (nl : Netlink H P) (net : Parser) where
  unfoldable pub check_local : H → Link → Ip → Result NetError (IpNet × Link)
  unfolding local_mask with_mask addr_family
  check_local h intf ip = do
    addrs ← nl.addr_list h intf (addr_family ip)
    with_mask ip (local_mask (usable_in (addr_family ip)) addrs ip []) intf

  -- Over the interfaces whose names match; a link that cannot be looked up ends the search.
  unfoldable pub find_among :
      (String → Bool) → List Interface → H → Ip → Result NetError (IpNet × Link)
  unfolding check_local
  find_among matches [] h ip = err no_local_interface
  find_among matches (i ∷ is) h ip =
      let rest = find_among matches is h ip in
      let here : Result NetError (IpNet × Link) = elim (nl.link_by_name h i.name) [
        | err e ↦ err e
        | ok link ↦ elim (check_local h link ip) [ err _ ↦ rest | ok found ↦ ok found ]
      ] in
      if matches i.name then here else rest

  unfoldable pub find_local : (String → Bool) → H → Ip → Result NetError (IpNet × Link)
  unfolding find_among
  find_local matches h ip = do is ← nl.interfaces h; find_among matches is h ip

  unfoldable pub default_interface : H → ℕ → Result NetError Link
  unfolding default_index
  default_interface h family = do
    routes ← nl.route_list h family
    let index = default_index routes (0, 0)
    if index == 0 then err no_default_interface else nl.link_by_index h index

  unfoldable pub add_network : H → IpNet → Link → Option NetError × H
  unfolding wrapped
  add_network h n link = elim (nl.parse_addr (nl.net_string n)) [
    | err e ↦ (some e, h)
    | ok a ↦ let (e, h') = nl.addr_replace h link a in (wrapped could_not_add e, h')
  ]

  -- addDummyInterface: LinkAdd where no link has the name.
  set_up : Result NetError Link × H → Result NetError Link × H
  set_up (err e, h) = (err e, h)
  set_up (ok link, h) = (ok link, nl.link_set_up h link)

  unfoldable pub add_dummy_interface : H → String → Result NetError Link × H
  unfolding set_up
  add_dummy_interface h name = elim (nl.link_by_name h name) [
    | ok link ↦ set_up (ok link, h)
    | err _ ↦ set_up (nl.new_dummy h name)
  ]

  unfoldable pub remove_interface : H → Link → Option NetError × H
  remove_interface h link = nl.link_del h link

  -- The deletion of one address of an interface.
  unfoldable pub delete_one : H → Interface → String → Option NetError × H
  unfolding wrapped
  delete_one h i text = elim (nl.link_by_index h i.index) [
    | err e ↦ (some e, h)
    | ok link ↦ elim (nl.parse_addr text) [
      | err e ↦ (some e, h)
      | ok a ↦ let (e, h') = nl.addr_del h link a in (wrapped could_not_remove e, h')
    ]
  ]

  -- An address of the interface is deleted where it is the one that is looked for.
  unfoldable pub delete_if : H → Interface → Ip → String → Option NetError × H
  unfolding delete_one ip_equal
  delete_if h i ip text = elim (net.parse_cidr text) [
    | none ↦ (some bad_cidr, h)
    | some (address, _) ↦ if ip_equal ip address then delete_one h i text else (none, h)
  ]

  unfoldable pub delete_among : Interface → Ip → List String → H → Option NetError × H
  unfolding delete_if
  delete_among i ip [] h = (none, h)
  delete_among i ip (text ∷ texts) h =
      on_success (delete_if h i ip text) (λ h'. delete_among i ip texts h')

  unfoldable pub delete_from : List Interface → Ip → H → Option NetError × H
  unfolding delete_among
  delete_from [] ip h = (none, h)
  delete_from (i ∷ is) ip h = elim (nl.interface_addrs h i) [
    | err e ↦ (some e, h)
    | ok texts ↦ on_success (delete_among i ip texts h) (λ h'. delete_from is ip h')
  ]

  unfoldable pub delete_addr : H → Ip → Option NetError × H
  unfolding delete_from
  delete_addr h ip = elim (nl.interfaces h) [ err e ↦ (some e, h) | ok is ↦ delete_from is ip h ]

  -- addVirtualInt: the mask is that of the pool's subnet, or the aggregation's.
  unfoldable pub aggregated : String → String → ℕ → String
  aggregated subnet aggregation family =
      if aggregation == "default"
      then subnet
      else text_append (if family == family_v4 then "0.0.0.0" else "::") aggregation

  unfoldable pub add_virtual_int : H → Ip → Link → String → String → Option NetError × H
  unfolding aggregated add_network wrapped
  add_virtual_int h ip link subnet aggregation =
      let family = addr_family ip in
      if family == 0
      then (none, h)
      else elim (net.parse_cidr (aggregated subnet aggregation family)) [
        | none ↦ (some bad_cidr, h)
        | some (_, n) ↦
            let (e, h') = add_network h (record { ip = ip; mask = n.mask }) link in
            (wrapped could_not_add e, h')
      ]

  -- sendGARP: a request and then a reply.
  unfoldable pub garp_each : List ArpOperation → Interface → Ip → H → Option NetError × H
  garp_each [] i ip h = (none, h)
  garp_each (op ∷ ops) i ip h = elim (nl.arp_packet op i ip) [
    | err e ↦ (some e, h)
    | ok packet ↦ on_success (nl.arp_write h packet) (λ h'. garp_each ops i ip h')
  ]

  unfoldable pub send_garp : H → String → Ip → Option NetError × H
  unfolding garp_each
  send_garp h name ip = elim (nl.interface_by_name h name) [
    | err e ↦ (some e, h)
    | ok i ↦ elim (nl.arp_dial h i) [
      | some e ↦ (some e, h)
      | none ↦ garp_each (request ∷ reply ∷ []) i ip h
    ]
  ]
