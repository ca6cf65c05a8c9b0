-- ===== src/Client/Retries.antt =====
-- The client of internal/k8s/k8s.go with the allocator's controller as its application, and the keys
-- that it serves before the controller is synced.
use purelb.Base.{
  ◌≡◌, Bool, true, false, not, List, [], ◌∷◌, String, Option, none, some, ℕ, ◌+◌, ◌&&◌, ◌++◌,
  if◌then◌else◌,
}
use purelb.Base.Result.{ok, err}
use purelb.Net.{Parser}
use purelb.Service.{Service}
use purelb.Controller.{
  SyncState, success, error, reprocess_all, Controller, set_balancer, delete_balancer, mark_synced,
}
use purelb.Allocator.{Allocator, unassign}
use purelb.Client.{Api, App, service_key, is_special}
use purelb.Client.Run.{QueueCall, forget, add_rate_limited, done, Worker, force_sync}

-- SetBalancer takes no notice of the endpoints, and Shutdown only logs.
abbrev pub allocator : {E : Type 0} → Parser → App Controller E
allocator net = record {
  service_changed = λ c svc eps. set_balancer net c svc;
  service_deleted = λ c name. delete_balancer net c name;
  synced = λ c. mark_synced c;
  shutdown = λ c. c;
}

-- A cluster whose reads do not fail.
pub record Reads {S E : Type 0} (api : Api S E) : Type 0 where
  pub finds : (s : S) (name : String) → (r : Option Service) × (api.get_service s name ≡ ok r)
  pub finds_endpoints : (s : S) (name : String) → (r : Option E) × (api.get_endpoints s name ≡ ok r)

module _ {S E : Type 0} (api : Api S E) (net : Parser) where
  -- What the indexers have of a name.
  is_there : S → String → Bool
  is_there s name = elim (api.get_service s name) [
    | err _ ↦ false
    | ok none ↦ false
    | ok (some svc) ↦ true
  ]

  -- A service that waits for the configuration: one that is there and none of the special ones.
  abbrev pub waits : S → String → Bool
  unfolding is_there
  waits s name = not (is_special api (allocator {E = E} net) name) && is_there s name

  -- A service that is gone.
  abbrev pub gone : S → String → Bool
  unfolding is_there
  gone s name = not (is_special api (allocator {E = E} net) name) && not (is_there s name)

  -- What is asked of the queue before the sync: a service that waits goes back; a special one is
  -- forgotten; and so is one that is gone, after which every service comes again.
  abbrev pub early_call : S → String → List QueueCall
  early_call s name =
      done (service_key name)
      ∷ (if waits s name
          then add_rate_limited (service_key name) ∷ []
          else forget (service_key name)
            ∷ (if gone s name then force_sync (api.list_keys s) else []))

  abbrev pub early_calls : S → List String → List QueueCall
  early_calls s [] = []
  early_calls s (name ∷ names) = early_call s name ++ early_calls s names

  abbrev pub waiting : S → List String → ℕ
  waiting s [] = 0
  waiting s (name ∷ names) = (if waits s name then 1 else 0) + waiting s names

  -- The allocator without what the services had that are gone.
  abbrev pub freed : S → Allocator → List String → Allocator
  freed s ips [] = ips
  freed s ips (name ∷ names) = freed s (if gone s name then unassign net ips name else ips) names

  pub record Waits (names : List String) (w : Worker S Controller)
      (out : List QueueCall × Worker S Controller) : Type 0 where
    pub calls : out.0 ≡ early_calls w.cluster names
    pub cluster : out.1.cluster ≡ w.cluster
    pub errors : out.1.update_errors ≡ w.update_errors + waiting w.cluster names
    pub app : out.1.app ≡ record w.app { ips = freed w.cluster w.app.ips names }

  -- The sync of one key.
  abbrev turn : S → Controller → String → SyncState × S × Controller
  turn s c name =
      if waits s name
      then (error, s, c)
      else if gone s name
      then (reprocess_all, s, record c { ips = unassign net c.ips name })
      else (success, s, c)

  -- The worker after one key.
  abbrev after : Worker S Controller → String → Worker S Controller
  after w name = record w {
    app = record w.app {
      ips = if gone w.cluster name then unassign net w.app.ips name else w.app.ips;
    };
    updates = w.updates + 1;
    update_errors = if waits w.cluster name then w.update_errors + 1 else w.update_errors;
  }
