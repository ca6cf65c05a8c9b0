-- ===== src/Client/Watch.antt =====
-- The watches that New in internal/k8s/k8s.go sets up, and GetPodsIPs: which keys an event of the cluster
-- adds to the queue. Objects and the functions for their keys are those of client-go.
use purelb.Base.{List, [], ◌∷◌, String, Bool, true, false}
use purelb.Base.Result.{Result, ok, err, ◌>>=◌}
use purelb.Client.{QueueKey, service_key}

-- What an informer reports of the objects that it watches; a deleted one may come as the last state
-- that was known.
pub data WatchEvent (O T : Type 0) : Type 0 where
  added : O → WatchEvent O T
  updated : (old new : O) → WatchEvent O T
  deleted : T → WatchEvent O T

-- An event is that of a service or of endpoints, which have the name of their service.
pub data ClusterEvent (O T : Type 0) : Type 0 where
  of_service of_endpoints : WatchEvent O T → ClusterEvent O T

-- v1.Pod, of which the program uses the address.
pub record Pod : Type 0 where
  pub pod_ip : String

unfoldable pub ips_of : List Pod → List String
ips_of [] = []
ips_of (pod ∷ pods) = pod.pod_ip ∷ ips_of pods

module _ {O T E : Type 0} (meta_key : O → Result E String)
    (deletion_key : T → Result E String) where
  -- An object without a key is passed over.
  unfoldable pub queued : Result E String → List QueueKey
  queued (ok key) = service_key key ∷ []
  queued (err e) = []

  -- svcHandlers and epHandlers.
  unfoldable pub handle_event : WatchEvent O T → List QueueKey
  unfolding queued
  handle_event (added obj) = queued (meta_key obj)
  handle_event (updated old new) = queued (meta_key new)
  handle_event (deleted obj) = queued (deletion_key obj)

  -- Endpoints are watched if the configuration says so.
  unfoldable pub on_event : Bool → ClusterEvent O T → List QueueKey
  unfolding handle_event
  on_event read_endpoints (of_service e) = handle_event e
  on_event true (of_endpoints e) = handle_event e
  on_event false (of_endpoints e) = []

-- The list call of the cluster's pods is a parameter.
module _ {S E : Type 0} (list_pods : S → String → String → Result E (List Pod)) where
  unfoldable pub get_pods_ips : S → String → String → Result E (List String)
  unfolding ips_of
  get_pods_ips s ns labels = do pods ← list_pods s ns labels; ok (ips_of pods)
