-- ===== src/NodeAgent/Local.antt =====
-- The node agent's controller with the local announcer behind its Announcer interface.
use purelb.Base.{ℕ, ◌≡◌, Bool, true, false, List, [], ◌∷◌, String, some, All, ◌==◌, string_eq}
use purelb.Base.Dict
use purelb.Base.Result.{Result}
use purelb.Net.{Parser}
use purelb.Service.{Service, namespaced_name}
use purelb.Controller.{Config, success}
use purelb.Network.{Interface, Netlink}
use purelb.Network.Delete.{IsNetlink}
use purelb.Network.Delete.Loops.{Works}
use purelb.LocalAnnouncer
use purelb.LocalAnnouncer.{Announcer, Fault, Subset}
use purelb.LocalAnnouncer.Withdraw.Each.{Parses, IsWithdrawn, delete_balancer-IsWithdrawn}
use purelb.NodeAgent
use purelb.NodeAgent.Disowned.{IsDisowned, disown-IsDisowned, service_changed-quiet}
use purelb.NodeAgent.{service_changed, delete_each, disown, is_ours, failed}

module _ {H P : Type 0} (nl : Netlink H P) (net : Parser)
    (compile : String → Result String (String → Bool)) (sha256 : String → List ℕ)
    (members : List String) where
  -- The announcer, while the members that it elects among stay the same.
  abbrev pub local : NodeAgent.Announcer (Announcer H) (List Subset) Config Fault
  local = record {
    set_config = λ a cfg. LocalAnnouncer.set_config nl net compile a cfg;
    set_balancer = λ a svc eps. LocalAnnouncer.set_balancer nl net sha256 members a svc eps;
    delete_balancer = λ a name reason. LocalAnnouncer.delete_balancer nl net a name;
  }

  -- A service of ours that is no load balancer any more is disowned and withdrawn: it loses the
  -- five annotations that PureLB puts on it on this side and keeps everything else; the announcer
  -- forgets it; and on a host whose interfaces can be listed and on which a deletion does not fail,
  -- what IsWithdrawn says of its addresses holds. When the service comes again as it then is, it is
  -- left alone, and so is the announcer.
  pub service_changed-IsWithdrawn :
      (held : H → ℕ → List String) (laws : IsNetlink nl net held) {is : List Interface}
      (works : Works nl net is)
      → (a : Announcer H) (svc : Service) (eps : List Subset) {texts : List String}
      → (svc.spec_type == "LoadBalancer") ≡ false
      → is_ours svc ≡ true
      → Dict.get a.svc_ingresses (namespaced_name svc) ≡ some texts
      → All (Parses net) texts
      → (b : Announcer H) × (out : Service) × (service_changed local (a ∷ []) svc eps
          ≡ (success, b ∷ [], out))
        × IsDisowned svc out
        × IsWithdrawn nl net (namespaced_name svc) held laws is texts a b
        × (service_changed local (b ∷ []) out eps ≡ (success, b ∷ [], out))
  unfolding service_changed delete_each
  service_changed-IsWithdrawn held laws works a svc eps no_lb ours known good =
      let name = namespaced_name svc in
      let b = (LocalAnnouncer.delete_balancer nl net a name).1 in
      let (fine, withdrawn) =
        delete_balancer-IsWithdrawn nl net name held laws works a known good in
      (
        b,
        disown svc,
        rw (no_lb, ours),
        disown-IsDisowned svc,
        withdrawn,
        service_changed-quiet local (b ∷ []) svc eps no_lb ours,
      )
