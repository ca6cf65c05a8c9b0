-- ===== src/LocalAnnouncer/Frame/Address.antt =====
-- announceRemote, announceLocal and the choice between them of internal/local/announcer_local.go: what
-- the announcement of one address leaves as it is.
use purelb.Base.{
  ℕ, ◌≡◌, refl, subst, inl, inr, Bool, not, ◌&&◌, List, String, Option, none, some, ◌==◌, string_eq,
  Bool-cases, Option-cases,
}
use purelb.Base.Dict
use purelb.Base.Dict.{Dict, get-put, get-remove}
use purelb.Base.Result.{Result, ok, err, Result-cases}
use purelb.Net.{Ip, IpNet, Parser}
use purelb.Service.{Service, annotation, namespaced_name, pool_annotation}
use purelb.ServiceGroup.{LocalSpec}
use purelb.ServiceGroup.Lookup.{pool_for_address}
use purelb.Election.{winner}
use purelb.Network.{Link, NetError, Netlink}
use purelb.Network.Local.{Of, check_local-Of, find_local-Of}
use purelb.Network.Delete.{IsNetlink}
use purelb.LocalAnnouncer.{
  Announcer, Subset, label_eq, cluster_policy, add_local, in_group, announce_local, announce_remote,
  local_or_remote, on_default, by_interface, announce_address, node_has_healthy_endpoint,
}
use purelb.LocalAnnouncer.Frame.{
  Touches, Touches-refl, Touches-trans, Fine, delete_address-Touches, cluster_policy-Touches,
  add_local-Touches, add_remote-Touches,
}

module _ {H P : Type 0} (nl : Netlink H P) (net : Parser) (held : H → ℕ → List String)
    (laws : IsNetlink nl net held) where
  in_group-Touches :
      (a : Announcer H) (svc : Service) (ip : Ip) (spec : Option LocalSpec)
      → Fine nl net held a svc ip (in_group nl net a svc ip spec)
  unfolding in_group
  in_group-Touches a svc ip none = Touches-refl nl net held (namespaced_name svc) ip a svc
  in_group-Touches a svc ip (some spec) = elim (Result-cases (pool_for_address net spec ip)) [
    | inr (e, f) ↦ rw (f, in_group) (Touches-refl nl net held (namespaced_name svc) ip a svc)
    | inl (pool, f) ↦ rw (f, in_group) (add_remote-Touches nl net held laws a svc ip pool)
  ]

  announce_remote-Touches :
      (a : Announcer H) (svc : Service) (eps : List Subset) (ip : Ip)
      → Fine nl net held a svc ip (announce_remote nl net a svc eps ip)
  unfolding announce_remote
  announce_remote-Touches a svc eps ip =
      elim (Bool-cases (
        (svc.external_traffic_policy == "Local")
        && not (node_has_healthy_endpoint eps a.my_node))) [
          | inl held_back ↦
              rw (held_back, announce_remote)
                (delete_address-Touches nl net held laws a svc svc _ ip refl)
          | inr shows ↦ elim (Option-cases (annotation svc pool_annotation)) [
            | inl e ↦
                rw (shows, e, announce_remote)
                  (Touches-refl nl net held (namespaced_name svc) ip a svc)
            | inr (name, e) ↦
                rw (shows, e, announce_remote) (in_group-Touches a svc ip (Dict.get a.groups name))
          ]
        ]

  module _ (sha256 : String → List ℕ) (members : List String) where
    announce_local-Touches :
        (a : Announcer H) (svc : Service) (link : Link) (ip : Ip) (n : IpNet)
        → n.ip ≡ ip
        → Fine nl net held a svc ip (announce_local nl net sha256 members a svc link ip n)
    unfolding announce_local
    announce_local-Touches a svc link ip n at =
        let (b, svc') = cluster_policy nl net a svc ip in
        let first = cluster_policy-Touches nl net held laws a svc ip in
        elim (Option-cases (winner sha256 (net.ip_string ip) members)) [
          | inl e ↦ rw (e, announce_local) first
          | inr (w, e) ↦ elim (Bool-cases (w == a.my_node)) [
            | inl mine ↦
                rw (e, mine, announce_local)
                  (Touches-trans nl net held (namespaced_name svc) ip a b _ svc svc' _ first (
                    subst
                      (λ name.
                        Touches nl net held name ip b svc' (add_local nl net b svc' link ip n).1
                          (add_local nl net b svc' link ip n).2)
                      first.named (add_local-Touches nl net held laws b svc' link ip n at)))
            | inr other ↦
                rw (e, other, announce_local)
                  (Touches-trans nl net held (namespaced_name svc) ip a b _ svc svc' svc' first (
                    delete_address-Touches nl net held laws b svc' svc' (namespaced_name svc) ip
                      refl))
          ]
        ]

    local_or_remote-Touches :
        (a : Announcer H) (svc : Service) (eps : List Subset) (ip : Ip)
        (found : Result NetError (IpNet × Link))
        → Of ip found
        → Fine nl net held a svc ip (local_or_remote nl net sha256 members a svc eps ip found)
    unfolding local_or_remote
    local_or_remote-Touches a svc eps ip (ok (n, link)) of =
        announce_local-Touches a svc link ip n of
    local_or_remote-Touches a svc eps ip (err _) of = announce_remote-Touches a svc eps ip

    on_default-Touches :
        (a : Announcer H) (svc : Service) (eps : List Subset) (ip : Ip)
        (found : Result NetError Link)
        → Fine nl net held a svc ip (on_default nl net sha256 members a svc eps ip found)
    unfolding on_default
    on_default-Touches a svc eps ip (err e) =
        Touches-refl nl net held (namespaced_name svc) ip a svc
    on_default-Touches a svc eps ip (ok intf) =
        local_or_remote-Touches a svc eps ip _ (check_local-Of nl net a.host intf ip)

    by_interface-Touches :
        (a : Announcer H) (svc : Service) (eps : List Subset) (ip : Ip)
        (regex : Option (String → Bool))
        → Fine nl net held a svc ip (by_interface nl net sha256 members a svc eps ip regex)
    unfolding by_interface
    by_interface-Touches a svc eps ip none = on_default-Touches a svc eps ip _
    by_interface-Touches a svc eps ip (some matches) =
        local_or_remote-Touches a svc eps ip _ (find_local-Of nl net matches a.host ip)

    pub announce_address-Touches :
        (a : Announcer H) (svc : Service) (eps : List Subset) (ip : Ip)
        → Fine nl net held a svc ip (announce_address nl net sha256 members a svc eps ip)
    unfolding announce_address
    announce_address-Touches a svc eps ip = by_interface-Touches a svc eps ip a.local_name_regex
