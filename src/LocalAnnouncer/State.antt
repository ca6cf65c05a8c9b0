-- ===== src/LocalAnnouncer/State.antt =====
-- The state of the announcer in internal/local/announcer_local.go, its errors, and what it computes
-- without the host: the endpoints of a service, and the groups of a configuration.
use purelb.Base.{
  ℕ, ◌≡◌, ◌↔◌, Bool, true, false, not, ◌&&◌, ◌||◌, List, [], ◌∷◌, String, Option, none, some,
  is_nil, arith, Eq, ◌==◌, string_eq, if◌then◌else◌,
}
use purelb.Base.Dict
use purelb.Base.Dict.{Dict}
use purelb.Net.{Ip, to4, to16}
use purelb.Service.{Service}
use purelb.ServiceGroup.{LocalSpec, ServiceGroup, AgentLocalSpec, NodeAgentSpec}
use purelb.ServiceGroup.Lookup.{LookupError}
use purelb.Network.{Link, NetError}

-- EndpointSubset, with the node and the IP of each address.
pub record Endpoint : Type 0 where
  pub ip : String
  pub node_name : Option String

pub record Subset : Type 0 where
  pub addresses : List Endpoint
  pub not_ready_addresses : List Endpoint

-- The labels of the gauge `announcing`, but for the node, which is the announcer's own.
pub record Label : Type 0 where
  pub service : String
  pub ip : String

abbrev pub label_beq : Label → Label → Bool
label_beq a b = (a.service == b.service) && (a.ip == b.ip)

pub label_beq_iff : (a b : Label) → (label_beq a b ≡ true) ↔ (a ≡ b)
label_beq_iff a b =
    ground (arith, string_eq.beq_iff a.service b.service, string_eq.beq_iff a.ip b.ip)

instance abbrev pub label_eq : Eq Label
label_eq = record { beq = label_beq; beq_iff = label_beq_iff }

-- Errors, and the two panics: the winner of an election without members, and a look-up in a group
-- that is nil.
pub data Fault : Type 0 where
  network : NetError → Fault
  lookup : LookupError → Fault
  bad_regex : String → Fault
  no_pool_annotation invalid_ip no_members nil_group : Fault

-- The announcer and the host that it works on.
pub record Announcer (H : Type 0) : Type 0 where
  pub my_node : String
  pub config : Option AgentLocalSpec
  pub groups : Dict String LocalSpec
  pub dummy_int : Option Link
  pub svc_ingresses : Dict String (List String)
  pub local_name_regex : Option (String → Bool)
  pub announcing : Dict Label ℕ
  pub host : H

-- The name of an interface; NewAnnouncer leaves the dummy interface nil until there is a configuration.
abbrev pub link_or_nil : Option Link → Link
link_or_nil none = record { name = ""; index = 0 }
link_or_nil (some link) = link

-- svc.Annotations[key] = value, on a map that is made where there is none.
unfoldable pub annotate_new : Service → String → String → Service
annotate_new svc key value = record svc {
  annotations = some (Dict.put (elim svc.annotations [ none ↦ [] | some m ↦ m ]) key value);
}

unfoldable pub addr_family_name : Ip → String
unfolding to4 to16
addr_family_name ip =
    let wide = if is_nil (to16 ip) then "-unknown" else "-IPv6" in
    if is_nil (to4 ip) then wide else "-IPv4"

-- nodeHasHealthyEndpoint: the map `ready`, and whether it has a `true`.
unfoldable pub on_node : String → Endpoint → Bool
on_node node ep = elim ep.node_name [ none ↦ false | some n ↦ n == node ]

unfoldable pub ready_addresses : String → List Endpoint → Dict String Bool → Dict String Bool
unfolding on_node
ready_addresses node [] ready = ready
ready_addresses node (ep ∷ eps) ready =
    let known : Dict String Bool = elim (Dict.get ready ep.ip) [
      | none ↦ Dict.put ready ep.ip true
      | some _ ↦ ready
    ] in
    ready_addresses node eps (if on_node node ep then known else ready)

unfoldable pub not_ready : List Endpoint → Dict String Bool → Dict String Bool
not_ready [] ready = ready
not_ready (ep ∷ eps) ready = not_ready eps (Dict.put ready ep.ip false)

unfoldable pub ready_in : String → List Subset → Dict String Bool → Dict String Bool
unfolding ready_addresses not_ready
ready_in node [] ready = ready
ready_in node (s ∷ ss) ready =
    ready_in node ss (not_ready s.not_ready_addresses (ready_addresses node s.addresses ready))

unfoldable pub any_true : Dict String Bool → Bool
any_true [] = false
any_true ((_, r) ∷ m) = r || any_true m

unfoldable pub node_has_healthy_endpoint : List Subset → String → Bool
unfolding ready_in any_true
node_has_healthy_endpoint eps node = any_true (ready_in node eps [])

-- The search of deleteAddress for another service with the address.
unfoldable pub other_user : String → String → Dict String (List String) → Bool
other_user name ip [] = false
other_user name ip ((other, announced) ∷ m) =
    (Dict.member announced ip && not (other == name)) || other_user name ip m

-- The local groups of a configuration, by name.
unfoldable pub local_groups : List ServiceGroup → Dict String LocalSpec → Dict String LocalSpec
local_groups [] m = m
local_groups (g ∷ gs) m =
    local_groups gs (elim g.spec.local [ none ↦ m | some spec ↦ Dict.put m g.name spec ])

-- The first agent with a local specification.
unfoldable pub first_local : List NodeAgentSpec → Option AgentLocalSpec
first_local [] = none
first_local (agent ∷ agents) =
    let rest = first_local agents in elim agent.local [ none ↦ rest | some spec ↦ some spec ]

-- Whether a fault is a panic, which ends the program.
abbrev pub is_panic : Option Fault → Bool
is_panic (some no_members) = true
is_panic (some nil_group) = true
is_panic _ = false

-- retErr: the most recent error.
abbrev pub latest : Option Fault → Option Fault → Option Fault
latest none before = before
latest (some e) before = some e

abbrev pub network_fault : Option NetError → Option Fault
network_fault none = none
network_fault (some e) = some (network e)

abbrev pub sends_arp : Option AgentLocalSpec → Bool
sends_arp none = false
sends_arp (some spec) = spec.send_gratuitous_arp

-- NewAnnouncer, on a host.
unfoldable pub new_announcer : {H : Type 0} → String → H → Announcer H
new_announcer node h = record {
  my_node = node;
  config = none;
  groups = [];
  dummy_int = none;
  svc_ingresses = [];
  local_name_regex = none;
  announcing = [];
  host = h;
}
