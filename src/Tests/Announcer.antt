-- ===== src/Tests/Announcer.antt =====
-- The theorems on the local announcer, on a host with one address.
use purelb.Base.{
  ℕ, ◌≡◌, ◌↔◌, refl, Bool, true, false, List, [], ◌∷◌, String, none, some, arith, ◌==◌, nat_eq,
  string_eq, if◌then◌else◌,
}
use purelb.Base.Dict
use purelb.Base.Result.{err}
use purelb.Net.{ip_equal, bytes_equal}
use purelb.Service.{Service, annotation, namespaced_name}
use purelb.ServiceGroup.{AgentLocalSpec}
use purelb.Controller.{success}
use purelb.Election.{winner, hash}
use purelb.LocalAnnouncer.{
  Announcer, Subset, first_local, nil_group, node_has_healthy_endpoint, set_config, announce_remote,
  announce_local, delete_balancer, set_balancer,
}
use purelb.LocalAnnouncer.Elected.Served.{set_balancer-IsPlaced}
use purelb.Network.{default_interface, default_index, local_mask, with_mask, check_local}
use purelb.IpRange.{addr_family}
use purelb.Net.{net_contains}
use purelb.LocalAnnouncer.Elected.Placed.{IsPlaced, announce_local-IsPlaced}
use purelb.Network.{add_network, wrapped}
use purelb.LocalAnnouncer.{other_user}
use purelb.LocalAnnouncer.Endpoints.{listed, unready, node_has_healthy_endpoint_iff}
use purelb.LocalAnnouncer.Frame.Each.{IsFramed, set_balancer-IsFramed}
use purelb.LocalAnnouncer.Groups.{announce_remote-nil_group}
use purelb.LocalAnnouncer.Withdraw.Each.{IsWithdrawn, delete_balancer-IsWithdrawn}
use purelb.NodeAgent.{service_changed, is_ours}
use purelb.NodeAgent.Disowned.{IsDisowned}
use purelb.NodeAgent.Local.{local, service_changed-IsWithdrawn}
use purelb.Tests.Sample.{v4, sample, service}
use purelb.Tests.Host.{the_net, eth0, link, held, host, on_eth0, host-IsNetlink, host-Works}

-- An endpoint that is ready, with one that is not.
abbrev endpoints : List Subset
endpoints =
    record {
      addresses = record { ip = "1.1.1.1"; node_name = some "a" } ∷ [];
      not_ready_addresses = record { ip = "1.1.1.2"; node_name = some "a" } ∷ [];
    }
    ∷ []

node_has_healthy_endpoint_iff_example :
    (node_has_healthy_endpoint endpoints "a" ≡ true)
    ↔ ((ip : String) × (listed "a" endpoints ip ≡ true) × (unready endpoints ip ≡ false))
node_has_healthy_endpoint_iff_example = node_has_healthy_endpoint_iff endpoints "a"

abbrev agents : AgentLocalSpec
agents = record {
  local_interface = "default";
  ext_lb_interface = "lb0";
  send_gratuitous_arp = true;
}

abbrev announcer : Announcer (ℕ → Bool)
announcer = record {
  my_node = "a";
  config = some agents;
  groups = [];
  dummy_int = some (link 2);
  svc_ingresses = ("ns/first", "10.0.0.1" ∷ []) ∷ [];
  local_name_regex = none;
  announcing = (record { service = "ns/first"; ip = "10.0.0.1" }, 1) ∷ [];
  host = on_eth0;
}

abbrev first : Service
first = service "first" ("10.0.0.1" ∷ []) (some (("purelb.io/allocated-from", "remote") ∷ []))

-- A digest by the name of the node alone.
abbrev digest : String → List ℕ
digest s = if s == "a#10.0.0.1" then 1 ∷ [] else 2 ∷ []

delete_balancer-IsWithdrawn_example :
    ((delete_balancer host sample announcer "ns/first").0 ≡ none)
    × IsWithdrawn host sample "ns/first" held host-IsNetlink
        (eth0 ∷ [])
        ("10.0.0.1" ∷ [])
        announcer
        (delete_balancer host sample announcer "ns/first").1
unfolding Dict.get
delete_balancer-IsWithdrawn_example =
    delete_balancer-IsWithdrawn host sample "ns/first" held host-IsNetlink host-Works announcer
      {texts = "10.0.0.1" ∷ []} refl (refl, tt)

set_balancer-IsFramed_example :
    IsFramed host sample digest
      ("a" ∷ [])
      held
      host-IsNetlink
      first
      announcer
      (set_balancer host sample digest ("a" ∷ []) announcer first endpoints).1
set_balancer-IsFramed_example =
    set_balancer-IsFramed host sample digest ("a" ∷ []) held host-IsNetlink announcer first
      endpoints (λ e. cc)

announce_remote-nil_group_example :
    (announce_remote host sample
      (set_config host sample
        (λ s. err s)
        announcer
        (record {
          default_announcer = true;
          groups = [];
          agents = record { local = some agents } ∷ [];
        })).1
      first
      endpoints
      (v4 10 0 0 1)).0
    ≡ some nil_group
unfolding annotation Dict.get first_local
announce_remote-nil_group_example =
    announce_remote-nil_group host sample (λ s. err s) announcer
      (record {
        default_announcer = true;
        groups = [];
        agents = record { local = some agents } ∷ [];
      })
      first endpoints (v4 10 0 0 1) {spec = agents} {name = "remote"} refl refl refl refl

told_apart :
    (x y : String)
    → Dict.member ("a" ∷ []) x ≡ true
    → Dict.member ("a" ∷ []) y ≡ true
    → hash digest (sample.ip_string (v4 10 0 0 1)) x
      ≡ hash digest (sample.ip_string (v4 10 0 0 1)) y
    → x ≡ y
told_apart x y hx hy e = ground (arith, string_eq.beq_iff "a" x, string_eq.beq_iff "a" y)

announce_local-IsPlaced_example :
    IsPlaced host sample held host-IsNetlink
      (eth0 ∷ [])
      "a"
      "a"
      first
      (link 1)
      (v4 10 0 0 1)
      (announce_local host sample digest
        ("a" ∷ [])
        announcer
        first
        (link 1)
        (v4 10 0 0 1)
        the_net).1
unfolding winner bytes_equal add_network wrapped other_user namespaced_name ip_equal
announce_local-IsPlaced_example =
    announce_local-IsPlaced host sample held host-IsNetlink digest ("a" ∷ []) ("a" ∷ [])
      (v4 10 0 0 1) told_apart (λ c. refl) {w = "a"} refl host-Works announcer first (link 1)
      the_net refl (λ h. refl) refl

set_balancer-IsPlaced_example :
    IsPlaced host sample held host-IsNetlink
      (eth0 ∷ [])
      "a"
      "a"
      first
      (link 1)
      (v4 10 0 0 1)
      (set_balancer host sample digest ("a" ∷ []) announcer first endpoints).1
unfolding winner bytes_equal add_network wrapped other_user namespaced_name ip_equal
    default_interface check_local addr_family net_contains default_index local_mask with_mask
    Dict.get
set_balancer-IsPlaced_example =
    set_balancer-IsPlaced host sample held host-IsNetlink digest ("a" ∷ []) ("a" ∷ []) "10.0.0.1"
      told_apart (λ c. refl) {w = "a"} {link = link 1} {n = the_net} refl host-Works (λ h. refl)
      announcer first endpoints (λ e. cc) refl refl refl refl refl refl

-- The service is of ours, and no load balancer any more.
abbrev retired : Service
retired = record (service "first" [] (some (("purelb.io/allocated-by", "PureLB") ∷ []))) {
  spec_type = "ClusterIP";
}

service_changed-IsWithdrawn_example :
    (b : Announcer (ℕ → Bool)) × (out : Service) × (service_changed
        (local host sample (λ s. err s) digest ("a" ∷ []))
        (announcer ∷ [])
        retired
        endpoints
      ≡ (success, b ∷ [], out))
    × IsDisowned retired out
    × IsWithdrawn host sample "ns/first" held host-IsNetlink
        (eth0 ∷ [])
        ("10.0.0.1" ∷ [])
        announcer
        b
    × (service_changed (local host sample (λ s. err s) digest ("a" ∷ [])) (b ∷ []) out endpoints
        ≡ (success, b ∷ [], out))
unfolding is_ours annotation Dict.get namespaced_name
service_changed-IsWithdrawn_example =
    service_changed-IsWithdrawn host sample (λ s. err s) digest ("a" ∷ []) held host-IsNetlink
      host-Works announcer retired endpoints {texts = "10.0.0.1" ∷ []} refl refl refl (refl, tt)
