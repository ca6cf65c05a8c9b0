-- ===== src/Tests/Others.antt =====
-- Elections, look-ups, the node agent and the client at concrete inputs.
use purelb.Election.Members.{initial_peers}
use purelb.Client.Watch.{on_event, of_endpoints, added, updated}
use purelb.Client.{service_key}
use purelb.Base.Result.{ok}
use purelb.Base.{
  length, false, true, ℕ, ◌≡◌, refl, true, List, [], ◌∷◌, String, none, some, ◌==◌, string_eq,
  if◌then◌else◌,
}
use purelb.Base.Dict
use purelb.Base.Result.{ok}
use purelb.Net.{bytes_le, to16}
use purelb.IpRange.{new_ip_range, split_two, trim_space, contains}
use purelb.Service.{Service, annotation}
use purelb.ServiceGroup.{AddressPool}
use purelb.ServiceGroup.Lookup.{pool_for_address, find_pool}
use purelb.Controller.{success, error}
use purelb.Election.{winner}
use purelb.Election.Least.{IsWinner, winner-IsWinner}
use purelb.NodeAgent.{Announcer, service_changed, is_ours}
use purelb.NodeAgent.Branches.{some_fails, service_changed-error}
use purelb.Client.{Api, service_key}
use purelb.Tests.Sample.{v4, sample, service}
use purelb.Tests.Pools.{spec}

-- A digest that tells two names apart.
abbrev digest : String → List ℕ
digest s = if s == "a#key" then 2 ∷ [] else 1 ∷ []

winner-IsWinner_example :
    (w : String) × (winner digest "key" ("a" ∷ "b" ∷ []) ≡ some w)
    × IsWinner digest "key" ("a" ∷ "b" ∷ []) w
winner-IsWinner_example = winner-IsWinner digest "key" ("a" ∷ "b" ∷ []) "a" refl

-- Seven pods, of which five are the initial peers.
initial_peers_five : length (initial_peers ("1" ∷ "2" ∷ "3" ∷ "4" ∷ "5" ∷ "6" ∷ "7" ∷ [])) ≡ 5
unfolding initial_peers
initial_peers_five = refl

-- Endpoints are passed over where they are not watched.
on_event_endpoints :
    on_event {O = String} {T = String} {E = String}
      (λ s. ok s)
      (λ s. ok s)
      false
      (of_endpoints (added "ns/svc"))
    ≡ []
unfolding on_event
on_event_endpoints = refl

on_event_watched :
    on_event {O = String} {T = String} {E = String}
      (λ s. ok s)
      (λ s. ok s)
      true
      (of_endpoints (updated "ns/old" "ns/svc"))
    ≡ service_key "ns/svc" ∷ []
unfolding on_event
on_event_watched = refl

abbrev four : AddressPool
four = record { pool = "10.0.0.1-10.0.0.2"; subnet = "10.0.0.0/24"; aggregation = "default" }

pool_for_address-four : pool_for_address sample spec (v4 10 0 0 1) ≡ ok four
unfolding pool_for_address find_pool new_ip_range split_two Dict.get trim_space contains bytes_le
    to16
pool_for_address-four = refl

-- An announcer that fails for services with another name than it announces already.
abbrev one_name : Announcer String Unit Unit String
one_name = record {
  set_config = λ s cfg. (none, s);
  set_balancer = λ s svc eps. (if svc.name == s then none else some "busy", s, svc);
  delete_balancer = λ s name reason. (none, s);
}

abbrev ours : Service
ours = service "first" ("10.0.0.1" ∷ []) (some (("purelb.io/allocated-by", "PureLB") ∷ []))

service_changed-error_example :
    (service_changed one_name ("other" ∷ []) ours tt).0
    ≡ (if some_fails one_name ("other" ∷ []) ours tt then error else success)
unfolding is_ours annotation Dict.get
service_changed-error_example = service_changed-error one_name ("other" ∷ []) ours tt refl refl refl

abbrev theirs : Service
theirs = service "first" ("10.0.0.1" ∷ []) (some [])

-- A cluster with one service.
abbrev pub cluster : Api Service Unit
cluster = record {
  get_service = λ s name. ok (some s);
  get_endpoints = λ s name. ok none;
  no_endpoints = tt;
  list_keys = λ s. "ns/first" ∷ [];
  update_status = λ s svc. (ok svc, svc);
  update = λ s svc. (none, svc);
}
