-- ===== src/LocalAnnouncer.antt =====
-- internal/local/announcer_local.go: a node's announcer, which puts the addresses of services onto the
-- node's interfaces. The host, netlink and the text of addresses are those of Network.
pub mod Elected
pub mod Endpoints
pub mod Groups
pub mod Frame
pub mod Withdraw
mod State
use Prim.Native.String.{◌++◌ as text_append}
use purelb.Base.{
  ℕ, ◌≡◌, ◌↔◌, Bool, true, false, not, ◌&&◌, ◌||◌, List, [], ◌∷◌, String, Option, none, some,
  is_nil, arith, Eq, ◌==◌, string_eq, if◌then◌else◌,
}
use purelb.Base.Dict
use purelb.Base.Dict.{Dict}
use purelb.Base.Result.{Result, ok, err, on_success}
use purelb.Net.{Ip, IpNet, Parser, to4, to16}
use purelb.IpRange.{addr_family}
use purelb.Service.{
  Service, annotation, namespaced_name, pool_annotation, allow_local_annotation,
  announce_annotation,
}
use purelb.ServiceGroup.{AddressPool, LocalSpec, ServiceGroup, AgentLocalSpec, NodeAgentSpec}
use purelb.ServiceGroup.Lookup.{LookupError, pool_for_address}
use purelb.Controller.{Config}
use purelb.Election.{winner}
use purelb.Network.{
  Link, NetError, Netlink, find_local, check_local, default_interface, add_network,
  add_dummy_interface, remove_interface, delete_addr, add_virtual_int, send_garp,
}
unfoldable pub use State.*

-- regexp.Compile is a parameter, whose patterns are tests of names.
module _ {H P : Type 0} (nl : Netlink H P) (net : Parser) where
  open net use {ip_string, parse_ip}

  -- announcing.With(...).Set(1)
  unfoldable pub mark_announced : Announcer H → String → Ip → Announcer H
  mark_announced a name ip = record a {
    announcing = Dict.put a.announcing (record { service = name; ip = ip_string ip }) 1;
  }

  -- deleteAddress: the error of deleteAddr is dropped.
  unfoldable pub delete_address : Announcer H → String → Ip → Announcer H
  unfolding other_user delete_addr
  delete_address a name ip =
      let a' = record a {
        announcing = Dict.remove a.announcing (record { service = name; ip = ip_string ip });
      } in
      if other_user name (ip_string ip) a.svc_ingresses
      then a'
      else record a' { host = (delete_addr nl net a.host ip).1 }

  -- The part of announceLocal about the traffic policy.
  unfoldable pub cluster_policy : Announcer H → Service → Ip → Announcer H × Service
  unfolding delete_address annotation namespaced_name
  cluster_policy a svc ip =
      if svc.external_traffic_policy == "Local"
      then elim (annotation svc allow_local_annotation) [
        | some _ ↦ (a, svc)
        | none ↦ (
          delete_address a (namespaced_name svc) ip,
          record svc { external_traffic_policy = "Cluster" },
        )
      ]
      else (a, svc)

  -- The winner's part: the error of addNetwork is dropped.
  unfoldable pub add_local :
      Announcer H → Service → Link → Ip → IpNet → Option Fault × Announcer H × Service
  unfolding add_network mark_announced annotate_new addr_family_name send_garp namespaced_name
  add_local a svc link ip n =
      let a' = record a { host = (add_network nl net a.host n link).1 } in
      let svc' =
        annotate_new svc (text_append announce_annotation (addr_family_name ip))
          (text_append a.my_node (text_append "," link.name)) in
      let a'' = mark_announced a' (namespaced_name svc) ip in
      let (e, h') = send_garp nl net a''.host link.name ip in
      if sends_arp a.config
      then (network_fault e, record a'' { host = h' }, svc')
      else (none, a'', svc')

  -- announceRemote, for the link that carries addresses that are not local.
  unfoldable pub add_remote :
      Announcer H → Service → Ip → AddressPool → Option Fault × Announcer H × Service
  unfolding add_virtual_int mark_announced namespaced_name
  add_remote a svc ip pool =
      let (e, h') =
        add_virtual_int nl net a.host ip (link_or_nil a.dummy_int) pool.subnet pool.aggregation in
      let a' = record a { host = h' } in
      elim e [
        | some f ↦ (some (network f), a', svc)
        | none ↦ (none, mark_announced a' (namespaced_name svc) ip, svc)
      ]

  unfoldable pub in_group :
      Announcer H → Service → Ip → Option LocalSpec → Option Fault × Announcer H × Service
  in_group a svc ip none = (some nil_group, a, svc)
  in_group a svc ip (some spec) = elim (pool_for_address net spec ip) [
    | err e ↦ (some (lookup e), a, svc)
    | ok pool ↦ add_remote a svc ip pool
  ]

  unfoldable pub announce_remote :
      Announcer H → Service → List Subset → Ip → Option Fault × Announcer H × Service
  announce_remote a svc eps ip =
      if (svc.external_traffic_policy == "Local") && not (node_has_healthy_endpoint eps a.my_node)
      then (none, delete_address a (namespaced_name svc) ip, svc)
      else elim (annotation svc pool_annotation) [
        | none ↦ (some no_pool_annotation, a, svc)
        | some name ↦ in_group a svc ip (Dict.get a.groups name)
      ]

  -- The loop of DeleteBalancer.
  unfoldable pub delete_addresses : Announcer H → String → List String → Option Fault × Announcer H
  unfolding delete_address
  delete_addresses a name [] = (none, a)
  delete_addresses a name (text ∷ texts) =
      let rest = delete_addresses (delete_address a name (parse_ip text)) name texts in
      if is_nil (parse_ip text) then (some invalid_ip, a) else rest

  unfoldable pub delete_balancer : Announcer H → String → Option Fault × Announcer H
  unfolding delete_addresses
  delete_balancer a name = elim (Dict.get a.svc_ingresses name) [
    | none ↦ (none, a)
    | some texts ↦
        delete_addresses (record a { svc_ingresses = Dict.remove a.svc_ingresses name }) name texts
  ]

  delete_all : Announcer H → List String → Announcer H
  unfolding delete_balancer
  delete_all a [] = a
  delete_all a (name ∷ names) = delete_all (delete_balancer a name).1 names

  unfoldable pub shutdown : Announcer H → Announcer H
  unfolding delete_all remove_interface
  shutdown a =
      let a' = delete_all a (Dict.keys a.svc_ingresses) in
      record a' { host = (remove_interface nl net a'.host (link_or_nil a'.dummy_int)).1 }

  -- The rest of SetConfig once the pattern for the local interfaces is there.
  with_dummy : Announcer H → AgentLocalSpec → Option Fault × Announcer H
  unfolding add_dummy_interface
  with_dummy a spec =
      let (answer, h') = add_dummy_interface nl net a.host spec.ext_lb_interface in
      elim answer [
        | err e ↦ (some (network e), record a { dummy_int = none; host = h' })
        | ok link ↦ (none, record a { dummy_int = some link; host = h'; config = some spec })
      ]

  module _ (compile : String → Result String (String → Bool)) where
    local_pattern : Announcer H → AgentLocalSpec → Result String (Announcer H)
    local_pattern a spec =
        if spec.local_interface == "default"
        then ok (record a { local_name_regex = none })
        else elim (compile spec.local_interface) [
          | err e ↦ err e
          | ok matches ↦ ok (record a { local_name_regex = some matches })
        ]

    unfoldable pub set_config : Announcer H → Config → Option Fault × Announcer H
    unfolding with_dummy local_pattern first_local local_groups
    set_config a cfg =
        let a' = record a { config = none } in
        elim (first_local cfg.agents) [
          | none ↦ (none, a')
          | some spec ↦
              let b = record a' { groups = local_groups cfg.groups [] } in
              elim (local_pattern b spec) [
                | err e ↦ (some (bad_regex e), b)
                | ok c ↦ with_dummy c spec
              ]
        ]

  -- The members are those that memberlist knows of when the election is held.
  module _ (sha256 : String → List ℕ) (members : List String) where
    unfoldable pub announce_local :
        Announcer H → Service → Link → Ip → IpNet → Option Fault × Announcer H × Service
    announce_local a svc link ip n =
        let (a', svc') = cluster_policy a svc ip in
        elim (winner sha256 (ip_string ip) members) [
          | none ↦ (some no_members, a', svc')
          | some node ↦
              if node == a.my_node
              then add_local a' svc' link ip n
              else (none, delete_address a' (namespaced_name svc) ip, svc')
        ]

    -- An address goes onto a link that is local to it, or else it is announced as a remote one.
    unfoldable pub local_or_remote :
        Announcer H
        → Service
        → List Subset
        → Ip
        → Result NetError (IpNet × Link)
        → Option Fault × Announcer H × Service
    local_or_remote a svc eps ip (ok (n, link)) = announce_local a svc link ip n
    local_or_remote a svc eps ip (err _) = announce_remote a svc eps ip

    unfoldable pub on_default :
        Announcer H
        → Service
        → List Subset
        → Ip
        → Result NetError Link
        → Option Fault × Announcer H × Service
    on_default a svc eps ip (err e) = (some (network e), a, svc)
    on_default a svc eps ip (ok intf) =
        local_or_remote a svc eps ip (check_local nl net a.host intf ip)

    -- The user's pattern for local interfaces, or the interface of the default route.
    unfoldable pub by_interface :
        Announcer H
        → Service
        → List Subset
        → Ip
        → Option (String → Bool)
        → Option Fault × Announcer H × Service
    by_interface a svc eps ip (some matches) =
        local_or_remote a svc eps ip (find_local nl net matches a.host ip)
    by_interface a svc eps ip none =
        on_default a svc eps ip (default_interface nl net a.host (addr_family ip))

    unfoldable pub announce_address :
        Announcer H → Service → List Subset → Ip → Option Fault × Announcer H × Service
    announce_address a svc eps ip = by_interface a svc eps ip a.local_name_regex

    -- The loop of SetBalancer, with the most recent error.
    unfoldable pub announce_each :
        Option Fault
        → Announcer H
        → Service
        → List Subset
        → List String
        → Option Fault × Announcer H × Service
    announce_each ret a svc eps [] = (ret, a, svc)
    announce_each ret a svc eps (text ∷ texts) =
        let ip = parse_ip text in
        let (e, a', svc') = if is_nil ip then (none, a, svc) else announce_address a svc eps ip in
        let rest = announce_each (latest e ret) a' svc' eps texts in
        if is_panic e then (e, a', svc') else rest

    unfoldable pub set_balancer :
        Announcer H → Service → List Subset → Option Fault × Announcer H × Service
    set_balancer a svc eps = elim a.config [
      | none ↦ (none, a, svc)
      | some _ ↦
          announce_each none
            (record a {
              svc_ingresses = Dict.put a.svc_ingresses (namespaced_name svc) svc.ingress;
            })
            svc eps svc.ingress
    ]
