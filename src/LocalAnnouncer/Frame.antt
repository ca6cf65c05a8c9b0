-- ===== src/LocalAnnouncer/Frame.antt =====
-- What the steps of announcing one address in internal/local/announcer_local.go leave as it is. Address
-- has the choice between the local and the remote way, Each the loop of SetBalancer.
pub mod Address
pub mod Each
use purelb.Base.{
  ℕ, ◌≡◌, ◌≢◌, refl, sym, ap, subst, ◌∙◌, inl, inr, Bool, true, false, not, ◌&&◌, ◌||◌, List, [],
  ◌∷◌, String, Option, none, some, is_nil, arith, ◌==◌, string_eq, if◌then◌else◌, Bool-cases,
  Option-cases,
}
use purelb.Base.Dict
use purelb.Base.Dict.{Dict, get-put, get-remove}
use purelb.Base.Result.{Result, ok, err, Result-cases}
use purelb.Net.{Ip, IpNet, Parser}
use purelb.Service.{Service, annotation, namespaced_name, allow_local_annotation, pool_annotation}
use purelb.ServiceGroup.{AddressPool, LocalSpec}
use purelb.ServiceGroup.Lookup.{pool_for_address}
use purelb.Election.{winner}
use purelb.Network.{Link, NetError, Netlink, add_network, send_garp, add_virtual_int}
use purelb.Network.Local.{Of, check_local-Of, find_local-Of}
use purelb.Network.Delete.{IsNetlink}
use purelb.Network.Delete.Loops.{delete_addr-others}
use purelb.Network.Frame.{
  Unmoved, Unmoved-trans, add_network-Unmoved, add_virtual_int-Unmoved, send_garp-Unchanged,
}
use purelb.LocalAnnouncer.{
  Announcer, Fault, Label, Subset, label_eq, delete_address, cluster_policy, add_local, add_remote,
  link_or_nil, other_user, in_group, mark_announced, announce_local, announce_remote,
  local_or_remote, on_default, by_interface, announce_address, announce_each, set_balancer,
  sends_arp, annotate_new, is_panic, latest, node_has_healthy_endpoint,
}

abbrev pub label : Parser → Service → Ip → Label
label net svc ip = record { service = namespaced_name svc; ip = net.ip_string ip }

module _ {H P : Type 0} (nl : Netlink H P) (net : Parser) (held : H → ℕ → List String) where
  -- What an announcement of one address may change: one label of the gauge, of the announcer's own
  -- data nothing else, and on the host no other address; the service keeps its name.
  pub record Touches (name : String) (ip : Ip) (a : Announcer H) (svc : Service) (b : Announcer H)
      (svc' : Service) : Type 0 where
    pub named : namespaced_name svc' ≡ namespaced_name svc
    pub gauge :
        (m : Label)
        → (record { service = name; ip = net.ip_string ip } == m) ≡ false
        → Dict.get b.announcing m ≡ Dict.get a.announcing m
    pub known : b.svc_ingresses ≡ a.svc_ingresses
    pub on_host : Unmoved net held ip a.host b.host

  pub Touches-refl :
      (name : String) (ip : Ip) (a : Announcer H) (svc : Service) → Touches name ip a svc a svc
  Touches-refl name ip a svc = record {
    named = refl;
    gauge = λ m ne. refl;
    known = refl;
    on_host = λ index text other. refl;
  }

  pub Touches-trans :
      (name : String) (ip : Ip) (a b c : Announcer H) (svc svc' svc'' : Service)
      → Touches name ip a svc b svc'
      → Touches name ip b svc' c svc''
      → Touches name ip a svc c svc''
  Touches-trans name ip a b c svc svc' svc'' s t = record {
    named = t.named ∙ s.named;
    gauge = λ m ne. t.gauge m ne ∙ s.gauge m ne;
    known = t.known ∙ s.known;
    on_host = Unmoved-trans nl net held ip a.host b.host c.host s.on_host t.on_host;
  }

  -- The outcome of a step on one address.
  abbrev pub Fine : Announcer H → Service → Ip → Option Fault × Announcer H × Service → Type 0
  Fine a svc ip r = Touches (namespaced_name svc) ip a svc r.1 r.2

module _ {H P : Type 0} (nl : Netlink H P) (net : Parser) (held : H → ℕ → List String)
    (laws : IsNetlink nl net held) where
  delete_address-host :
      (a : Announcer H) (name : String) (ip : Ip)
      → Unmoved net held ip a.host (delete_address nl net a name ip).host
  unfolding delete_address
  delete_address-host a name ip =
      elim (Bool-cases (other_user name (net.ip_string ip) a.svc_ingresses)) [
        | inl used ↦ rw (used, delete_address) (λ index text other. refl)
        | inr unused ↦ rw (unused, delete_address) (delete_addr-others nl net held ip laws a.host)
      ]

  pub delete_address-Touches :
      (a : Announcer H) (svc svc' : Service) (name : String) (ip : Ip)
      → namespaced_name svc' ≡ namespaced_name svc
      → Touches nl net held name ip a svc (delete_address nl net a name ip) svc'
  unfolding delete_address
  delete_address-Touches a svc svc' name ip same = record {
    named = same;
    gauge = λ m ne.
        ground
          (arith, get-remove a.announcing (record { service = name; ip = net.ip_string ip }) m);
    known = ground arith;
    on_host = delete_address-host a name ip;
  }

  pub cluster_policy-Touches :
      (a : Announcer H) (svc : Service) (ip : Ip)
      → Touches nl net held
          (namespaced_name svc)
          ip
          a
          svc
          (cluster_policy nl net a svc ip).0
          (cluster_policy nl net a svc ip).1
  unfolding cluster_policy
  cluster_policy-Touches a svc ip = elim (Bool-cases (svc.external_traffic_policy == "Local")) [
    | inr other ↦
        rw (other, cluster_policy) (Touches-refl nl net held (namespaced_name svc) ip a svc)
    | inl is ↦ elim (Option-cases (annotation svc allow_local_annotation)) [
      | inr (v, e) ↦
          rw (is, e, cluster_policy) (Touches-refl nl net held (namespaced_name svc) ip a svc)
      | inl e ↦
          rw (is, e, cluster_policy)
            (delete_address-Touches a svc _ _ ip (unfold namespaced_name in refl))
    ]
  ]

  add_local-host :
      (a : Announcer H) (svc : Service) (link : Link) (ip : Ip) (n : IpNet)
      → n.ip ≡ ip
      → Unmoved net held ip a.host (add_local nl net a svc link ip n).1.host
  unfolding add_local mark_announced
  add_local-host a svc link ip n at =
      let added = add_network-Unmoved nl net held ip laws a.host n link at in
      let h = (add_network nl net a.host n link).1 in
      elim (Bool-cases (sends_arp a.config)) [
        | inr silent ↦ rw (silent, add_local, mark_announced) added
        | inl sends ↦
            rw (sends, add_local, mark_announced)
              (Unmoved-trans nl net held ip a.host h _ added (λ index text other.
                send_garp-Unchanged nl net held ip laws h link.name index text))
      ]

  pub add_local-Touches :
      (a : Announcer H) (svc : Service) (link : Link) (ip : Ip) (n : IpNet)
      → n.ip ≡ ip
      → Fine nl net held a svc ip (add_local nl net a svc link ip n)
  unfolding add_local mark_announced annotate_new namespaced_name
  add_local-Touches a svc link ip n at = record {
    named = ground arith;
    gauge = λ m ne. ground (arith, get-put a.announcing (label net svc ip) m 1);
    known = ground arith;
    on_host = add_local-host a svc link ip n at;
  }

  add_remote-host :
      (a : Announcer H) (svc : Service) (ip : Ip) (pool : AddressPool)
      → (add_remote nl net a svc ip pool).1.host
        ≡ (add_virtual_int nl net a.host ip
            (link_or_nil a.dummy_int)
            pool.subnet
            pool.aggregation).1
  unfolding add_remote mark_announced
  add_remote-host a svc ip pool =
      elim (Option-cases
        (add_virtual_int nl net a.host ip (link_or_nil a.dummy_int) pool.subnet
          pool.aggregation).0) [ inl e ↦ rw (e, add_remote) | inr (f, e) ↦ rw (e, add_remote) ]

  pub add_remote-Touches :
      (a : Announcer H) (svc : Service) (ip : Ip) (pool : AddressPool)
      → Fine nl net held a svc ip (add_remote nl net a svc ip pool)
  unfolding add_remote mark_announced
  add_remote-Touches a svc ip pool = record {
    named = ground arith;
    gauge = λ m ne. ground (arith, get-put a.announcing (label net svc ip) m 1);
    known = ground arith;
    on_host = rw (add_remote-host a svc ip pool) (
        add_virtual_int-Unmoved nl net held ip laws a.host (link_or_nil a.dummy_int) pool.subnet
          pool.aggregation);
  }
