-- ===== src/LocalAnnouncer/Elected/Placed.antt =====
-- announceLocal of internal/local/announcer_local.go together with the election and the host: on which
-- nodes' interfaces an address is.
use purelb.Base.{
  ℕ, ◌≡◌, ◌≢◌, sym, ◌∙◌, inl, inr, true, false, List, String, none, some, All, ◌==◌, string_eq,
  if◌then◌else◌, Bool-cases,
}
use purelb.Base.Dict
use purelb.Net.{Ip, IpNet, Parser}
use purelb.Service.{Service, namespaced_name}
use purelb.Election.{hash, winner}
use purelb.Election.Least.{winner-agrees}
use purelb.Network.{Interface, Link, Netlink, add_network}
use purelb.Network.Delete.{IsNetlink, Absent}
use purelb.Network.Delete.Loops.{Works}
use purelb.Network.Frame.{Shows, add_network-Shows, send_garp-Unchanged}
use purelb.LocalAnnouncer.{
  Announcer, other_user, cluster_policy, add_local, mark_announced, announce_local, sends_arp,
}
use purelb.LocalAnnouncer.Elected.{shown, announce_local-shown}
use purelb.LocalAnnouncer.Frame.{cluster_policy-Touches}
use purelb.LocalAnnouncer.Withdraw.{delete_address-Absent}

module _ {H P : Type 0} (nl : Netlink H P) (net : Parser) (held : H → ℕ → List String)
    (laws : IsNetlink nl net held) where
  add_local-Shows :
      (a : Announcer H) (svc : Service) (link : Link) (ip : Ip) (n : IpNet)
      → n.ip ≡ ip
      → ((h : H) → (add_network nl net h n link).0 ≡ none)
      → Shows nl net held ip laws (add_local nl net a svc link ip n).1.host link.index
  unfolding add_local mark_announced
  add_local-Shows a svc link ip n at adds =
      let h = (add_network nl net a.host n link).1 in
      let (text, is, there) =
        add_network-Shows nl net held ip laws a.host n link at (adds a.host) in
      elim (Bool-cases (sends_arp a.config)) [
        | inr silent ↦ rw (silent, add_local, mark_announced) (text, is, there)
        | inl sends ↦
            rw (sends, add_local, mark_announced)
              (
                text,
                is,
                send_garp-Unchanged nl net held ip laws h link.name link.index text ∙ there,
              )
      ]

  -- A node's share of a local address that has the winner w: the gauge, and the host's interfaces.
  pub record IsPlaced (is : List Interface) (w node : String) (svc : Service) (link : Link)
      (ip : Ip) (b : Announcer H) : Type 0 where
    pub gauge : shown net b svc ip ≡ (if w == node then some 1 else none)
    pub wins : w ≡ node → Shows nl net held ip laws b.host link.index
    pub loses : w ≢ node → All (Absent nl net held ip b.host) is

  module _ (sha256 : String → List ℕ) (members : List String) {w : String} (ip : Ip)
      (elected : winner sha256 (net.ip_string ip) members ≡ some w) (a : Announcer H)
      (svc : Service) (link : Link) (n : IpNet) where
    announce_local-Shows :
        n.ip ≡ ip
        → ((h : H) → (add_network nl net h n link).0 ≡ none)
        → w ≡ a.my_node
        → Shows nl net held ip laws
            (announce_local nl net sha256 members a svc link ip n).1.host
            link.index
    unfolding announce_local
    announce_local-Shows at adds mine =
        let (b, svc') = cluster_policy nl net a svc ip in
        let test = (string_eq.beq_iff w a.my_node).1 mine in
        rw (elected, test, announce_local) (add_local-Shows b svc' link ip n at adds)

    announce_local-Absent :
        {is : List Interface}
        → Works nl net is
        → other_user (namespaced_name svc) (net.ip_string ip) a.svc_ingresses ≡ false
        → w ≢ a.my_node
        → All
            (Absent nl net held ip (announce_local nl net sha256 members a svc link ip n).1.host)
            is
    unfolding announce_local
    announce_local-Absent works alone other =
        let (b, svc') = cluster_policy nl net a svc ip in
        let known = (cluster_policy-Touches nl net held laws a svc ip).known in
        elim (Bool-cases (w == a.my_node)) [
          | inl same ↦ absurd (other ((string_eq.beq_iff w a.my_node).0 same))
          | inr differs ↦
              rw (elected, differs, announce_local)
                (delete_address-Absent nl net held laws b (namespaced_name svc) ip works
                  (rw known alone))
        ]

  module _ (sha256 : String → List ℕ) (cs ds : List String) (ip : Ip)
      (distinct : (x y : String)
        → Dict.member cs x ≡ true
        → Dict.member cs y ≡ true
        → hash sha256 (net.ip_string ip) x ≡ hash sha256 (net.ip_string ip) y
        → x ≡ y)
      (same : (c : String) → Dict.member cs c ≡ Dict.member ds c) where
    -- Where no two members have one hash, and a node's winner for a local address is given: on every
    -- node that knows the same members, in whatever order, where the interfaces can be listed, the
    -- additions of the address and all deletions succeed, and no other service has the address,
    -- announceLocal leaves the address on the link and in the gauge if the node's name is the
    -- winner's, and if not on no interface and not in the gauge.
    pub announce_local-IsPlaced :
        {w : String} {is : List Interface}
        → winner sha256 (net.ip_string ip) cs ≡ some w
        → Works nl net is
        → (a : Announcer H) (svc : Service) (link : Link) (n : IpNet) → n.ip ≡ ip
        → ((h : H) → (add_network nl net h n link).0 ≡ none)
        → other_user (namespaced_name svc) (net.ip_string ip) a.svc_ingresses ≡ false
        → IsPlaced is w a.my_node svc link ip (announce_local nl net sha256 ds a svc link ip n).1
    announce_local-IsPlaced elected works a svc link n at adds alone =
        let known = sym (winner-agrees sha256 (net.ip_string ip) cs ds distinct same) ∙ elected in
        record {
          gauge = announce_local-shown nl net sha256 ds a svc link ip n known;
          wins = announce_local-Shows sha256 ds ip known a svc link n at adds;
          loses = announce_local-Absent sha256 ds ip known a svc link n works alone;
        }
