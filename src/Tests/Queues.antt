-- ===== src/Tests/Queues.antt =====
-- The loops over the queues of the Kubernetes client, and a remote Netbox system, at concrete inputs.
use purelb.Base.{
  if◌then◌else◌, ◌==◌, nat_eq, string_eq, ◌≡◌, refl, Bool, true, false, List, [], ◌∷◌, String, none,
  some,
}
use purelb.Base.Result.{Result, ok, err}
use purelb.Service.{Service}
use purelb.Allocator.{new_allocator}
use purelb.Controller.{Controller, new_controller}
use purelb.Client.{service_key, synced_key}
use purelb.Client.Retries.{allocator}
use purelb.Client.Run.{Worker, serve_all}
use purelb.Client.Settles.{Works, Settles, serve_all-Settles}
use purelb.CrController.{Listers, State, key, run_worker, process_item}
use purelb.CrController.Handled.{IsHandled, process_item-IsHandled}
use purelb.CrController.Handled.Drained.{IsDrained, run_worker-IsDrained}
use purelb.Controller.{Config, SyncState, set_config}
use purelb.Base.{◌&&◌}
use purelb.NetboxPool.{NetboxPool, release}
use purelb.NetboxPool.Released.{FreesFirst, release-FreesFirst}
use purelb.Tests.Sample.{v4, sample}
use purelb.Base.Dict
use purelb.NetboxClient.{Http, Netbox, Address, Request, Reply}
use purelb.Tests.Sample.{sample, service}
use purelb.Tests.Others.{cluster}
use purelb.Tests.Control.{env, in_hand, groups}

cluster-Works : Works cluster
cluster-Works = record {
  finds = λ s name. (some s, refl);
  finds_endpoints = λ s name. (none, refl);
  updates = λ s svc. refl;
  updates_status = λ s svc. (svc, refl);
}

abbrev worker : Worker Service Controller
worker = record {
  cluster = service "first" [] none;
  app = new_controller in_hand;
  updates = 0;
  update_errors = 0;
  stopped = false;
}

serve_all-Settles_example :
    Settles cluster sample cluster-Works
      (service_key "ns/first" ∷ [])
      (serve_all cluster (allocator sample) worker (service_key "ns/first" ∷ synced_key ∷ [])).1
      (serve_all cluster
        (allocator sample)
        (serve_all cluster (allocator sample) worker (service_key "ns/first" ∷ synced_key ∷ [])).1
        (service_key "ns/first" ∷ []))
serve_all-Settles_example =
    serve_all-Settles cluster sample cluster-Works (service_key "ns/first" ∷ [])
      (service_key "ns/first" ∷ []) worker

-- A cluster that can list its groups, or cannot.
abbrev listers : Listers Bool
listers = record {
  list_groups = λ s. elim s [ true ↦ ok groups | false ↦ err "unreachable" ];
  list_agents = λ s. ok [];
}

abbrev state : Bool → State Bool Controller
state reachable = record {
  cluster = reachable;
  app = new_controller new_allocator;
  config_loaded = 0;
  update_errors = 0;
  forced = 0;
}

-- The callback is SetConfig of the allocator's controller.
abbrev callback : Controller → Config → SyncState × Controller
callback c cfg = set_config sample env c (some cfg)

process_item-IsHandled_example :
    IsHandled listers callback "PureLB" "sg/default"
      (state false)
      (process_item listers callback "PureLB" (state false) (key "sg/default"))
process_item-IsHandled_example =
    process_item-IsHandled listers callback "PureLB" (state false) "sg/default"

run_worker-IsDrained_example :
    IsDrained listers callback "PureLB"
      (ok groups)
      (ok [])
      ("sg/default" ∷ "lbna/default" ∷ [])
      (state true)
      (run_worker listers callback "PureLB"
        (state true)
        (some (key "sg/default") ∷ some (key "lbna/default") ∷ none ∷ some (key "sg/later") ∷ []))
run_worker-IsDrained_example =
    run_worker-IsDrained listers callback "PureLB" ("sg/default" ∷ "lbna/default" ∷ [])
      (some (key "sg/later") ∷ []) (state true)

-- A system that has one reserved address or none, and grants changes or refuses them.
abbrev one : Address
one = record { id = 7; address = "10.0.0.1/32" }

abbrev reserved : Bool → List Address
reserved true = one ∷ []
reserved false = []

abbrev reply_to : String → Reply
reply_to body =
    if body == "one"
    then record { count = 1; results = one ∷ [] }
    else record { count = 0; results = [] }

abbrev system : Bool → Http Bool
system grant = record {
  refuses = λ url. none;
  send = λ h r. (ok (if h then "one" else "none"), if r.verb == "PATCH" && grant then false else h);
  decode = λ body. ok (reply_to body);
  encode_query = λ tenant status. tenant;
  number = λ n. "7";
}

abbrev client : Netbox
client = record { base = "http://netbox/"; tenant = "lb"; token = "secret" }

abbrev Sent : Bool → Bool → Request → String → Bool → Type 0
Sent grant h request body h' = (system grant).send h request ≡ (ok body, h')

-- A pool with a service that has two addresses, and shares the first with another service.
abbrev shared : NetboxPool
shared = record {
  name = "far";
  url = "http://netbox/";
  user_token = "secret";
  answers = [];
  services = ("ns/first", v4 10 0 0 1 ∷ v4 10 0 0 2 ∷ []) ∷ ("ns/second", v4 10 0 0 1 ∷ []) ∷ [];
  addresses_in_use =
      ("10.0.0.1", ("ns/first", true) ∷ ("ns/second", true) ∷ [])
      ∷ ("10.0.0.2", ("ns/first", true) ∷ [])
      ∷ [];
}

release-FreesFirst_example :
    ((release sample shared "ns/first").0 ≡ none)
    × FreesFirst sample "ns/first" (v4 10 0 0 1) shared (release sample shared "ns/first").1
unfolding Dict.get
release-FreesFirst_example =
    release-FreesFirst sample shared "ns/first" {ip = v4 10 0 0 1} {ips = v4 10 0 0 2 ∷ []} refl
