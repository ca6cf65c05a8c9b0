-- ===== src/LocalAnnouncer/Elected.antt =====
-- announceLocal of internal/local/announcer_local.go together with the election: which node announces
-- an address that is local to several.
pub mod Placed
pub mod Served
use purelb.Base.{
  ℕ, ◌≡◌, sym, ap, ◌∙◌, inl, inr, true, List, String, Option, none, some, arith, ◌==◌, string_eq,
  if◌then◌else◌, Bool-cases, Option-cases,
}
use purelb.Base.Dict
use purelb.Base.Dict.{Dict, get-put_self, get-remove_self}
use purelb.Net.{Ip, IpNet, Parser}
use purelb.Service.{Service, annotation, namespaced_name, allow_local_annotation}
use purelb.Election.{hash, winner}
use purelb.Election.Least.{winner-agrees}
use purelb.Network.{Link, Netlink}
use purelb.LocalAnnouncer.{
  Announcer, label_eq, delete_address, cluster_policy, add_local, mark_announced, announce_local,
}

-- What the gauge of a node shows of a service and an address.
abbrev pub shown : {H : Type 0} → Parser → Announcer H → Service → Ip → Option ℕ
shown net a svc ip =
    Dict.get a.announcing (record { service = namespaced_name svc; ip = net.ip_string ip })

module _ {H P : Type 0} (nl : Netlink H P) (net : Parser) where
  delete_address-shown :
      (a : Announcer H) (svc : Service) (ip : Ip)
      → shown net (delete_address nl net a (namespaced_name svc) ip) svc ip ≡ none
  unfolding delete_address
  delete_address-shown a svc ip = ground (
    arith,
    get-remove_self a.announcing (record { service = namespaced_name svc; ip = net.ip_string ip }),
  )

  cluster_policy-namespaced_name :
      (a : Announcer H) (svc : Service) (ip : Ip)
      → namespaced_name (cluster_policy nl net a svc ip).1 ≡ namespaced_name svc
  unfolding cluster_policy namespaced_name
  cluster_policy-namespaced_name a svc ip =
      elim (Bool-cases (svc.external_traffic_policy == "Local")) [
        | inr other ↦ rw (other, cluster_policy)
        | inl is ↦ elim (Option-cases (annotation svc allow_local_annotation)) [
          | inr (v, e) ↦ rw (is, e, cluster_policy)
          | inl e ↦ rw (is, e, cluster_policy)
        ]
      ]

  add_local-shown :
      (a : Announcer H) (svc : Service) (link : Link) (ip : Ip) (n : IpNet)
      → shown net (add_local nl net a svc link ip n).1 svc ip ≡ some 1
  unfolding add_local mark_announced
  add_local-shown a svc link ip n = ground (
    arith,
    get-put_self a.announcing (record { service = namespaced_name svc; ip = net.ip_string ip }) 1,
  )

  -- A node that knows the winner announces the address if it is the winner, and withdraws it if not.
  pub announce_local-shown :
      (sha256 : String → List ℕ) (members : List String) (a : Announcer H) (svc : Service)
      (link : Link) (ip : Ip) (n : IpNet) {w : String}
      → winner sha256 (net.ip_string ip) members ≡ some w
      → shown net (announce_local nl net sha256 members a svc link ip n).1 svc ip
        ≡ (if w == a.my_node then some 1 else none)
  unfolding announce_local
  announce_local-shown sha256 members a svc link ip n {w} elected =
      let named = cluster_policy-namespaced_name a svc ip in
      let (b, svc') = cluster_policy nl net a svc ip in
      elim (Bool-cases (w == a.my_node)) [
        | inl mine ↦
            rw (elected, mine, announce_local)
              (ap
                  (λ s.
                    Dict.get (add_local nl net b svc' link ip n).1.announcing
                      (record { service = s; ip = net.ip_string ip }))
                  (sym named)
                ∙ add_local-shown b svc' link ip n)
        | inr other ↦ rw (elected, other, announce_local) (delete_address-shown b svc ip)
      ]

  module _ (sha256 : String → List ℕ) (cs ds : List String) (ip : Ip)
      (distinct : (a b : String)
        → Dict.member cs a ≡ true
        → Dict.member cs b ≡ true
        → hash sha256 (net.ip_string ip) a ≡ hash sha256 (net.ip_string ip) b
        → a ≡ b)
      (same : (c : String) → Dict.member cs c ≡ Dict.member ds c) where
    -- Where no two members have one hash, the winner among the members as one node knows them is
    -- announced by every node as the only one: a node that knows the same members, in whatever order,
    -- shows a local address in its gauge after announceLocal exactly if its own name is the winner's.
    pub announce_local-elected :
        {w : String}
        → winner sha256 (net.ip_string ip) cs ≡ some w
        → (a : Announcer H) (svc : Service) (link : Link) (n : IpNet)
        → shown net (announce_local nl net sha256 ds a svc link ip n).1 svc ip
          ≡ (if w == a.my_node then some 1 else none)
    announce_local-elected elected a svc link n =
        announce_local-shown sha256 ds a svc link ip n
          (sym (winner-agrees sha256 (net.ip_string ip) cs ds distinct same) ∙ elected)
