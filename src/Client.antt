-- ===== src/Client.antt =====
-- internal/k8s/k8s.go: what the Kubernetes client does with a key of its queue.
pub mod Retries
pub mod Run
pub mod Watch
pub mod Settles
use purelb.Base.{
  ℕ, ◌≡◌, ◌↔◌, Bool, true, false, not, ◌&&◌, ◌||◌, List, [], ◌∷◌, map, String, Option, none, some,
  arith, Eq, ◌==◌, nat_eq, string_eq, if◌then◌else◌,
}
use purelb.Base.Dict
use purelb.Base.Dict.{Dict}
use purelb.Base.Result.{Result, ok, err}
use purelb.Service.{Service, ServicePort}
use purelb.Controller.{SyncState, success, error, reprocess_all}

-- The part of client-go that the client calls, over a cluster in S with endpoints in E: the
-- indexers, which may fail, and the two writes, which fail or change the cluster. A write of the
-- status answers with the service as the cluster then has it.
pub record Api (S E : Type 0) : Type 0 where
  pub get_service : S → String → Result String (Option Service)
  pub get_endpoints : S → String → Result String (Option E)
  pub no_endpoints : E
  pub list_keys : S → List String
  pub update_status : S → Service → Result String Service × S
  pub update : S → Service → Option String × S

-- The callbacks of the application, with a state in A.
pub record App (A E : Type 0) : Type 0 where
  pub service_changed : A → Service → E → SyncState × A × Service
  pub service_deleted : A → String → SyncState × A
  pub synced : A → A
  pub shutdown : A → A

pub data QueueKey : Type 0 where
  service_key : String → QueueKey
  synced_key : QueueKey

-- reflect.DeepEqual on the parts of a service that are modelled.
same_texts : List String → List String → Bool
same_texts [] [] = true
same_texts (a ∷ cs) (b ∷ ds) = (a == b) && same_texts cs ds
same_texts [] (b ∷ ds) = false
same_texts (a ∷ cs) [] = false

same_ports : List ServicePort → List ServicePort → Bool
same_ports [] [] = true
same_ports (a ∷ cs) (b ∷ ds) = (a.protocol == b.protocol) && (a.port == b.port) && same_ports cs ds
same_ports [] (b ∷ ds) = false
same_ports (a ∷ cs) [] = false

-- Every entry of the one map is in the other.
within : Dict String String → Dict String String → Bool
within [] n = true
within ((k, v) ∷ m) n = elim (Dict.get n k) [ none ↦ false | some w ↦ (v == w) && within m n ]

same_maps : Option (Dict String String) → Option (Dict String String) → Bool
unfolding within
same_maps none none = true
same_maps (some m) (some n) = within m n && within n m
same_maps none (some n) = false
same_maps (some m) none = false

same_class : Option String → Option String → Bool
same_class none none = true
same_class (some a) (some b) = a == b
same_class none (some b) = false
same_class (some a) none = false

unfoldable pub same_status : Service → Service → Bool
unfolding same_texts
same_status was is = same_texts was.ingress is.ingress

unfoldable pub same_spec : Service → Service → Bool
unfolding same_texts same_ports same_class
same_spec was is =
    (was.spec_type == is.spec_type)
    && (was.cluster_ip == is.cluster_ip)
    && (was.load_balancer_ip == is.load_balancer_ip)
    && same_class was.load_balancer_class is.load_balancer_class
    && same_texts was.ip_families is.ip_families
    && same_ports was.ports is.ports
    && (was.external_traffic_policy == is.external_traffic_policy)

unfoldable pub same_annotations : Service → Service → Bool
unfolding same_maps
same_annotations was is = same_maps was.annotations is.annotations

-- The service to write, with what the cluster answered to the write of the status.
after_status : Option Service → Service → Service
after_status none is = is
after_status (some updated) is = record is {
  namespace = updated.namespace;
  name = updated.name;
  ingress = updated.ingress;
}

module _ {S E : Type 0} (api : Api S E) where
  -- Both writes, each only where there is something to write; `true` if none failed.
  write_rest : S → Service → Service → Option Service → Bool × S
  unfolding same_annotations same_spec after_status
  write_rest s was is updated =
      let (e, s') = api.update s (after_status updated is) in
      if same_annotations was is && same_spec was is
      then (true, s)
      else elim e [ none ↦ (true, s') | some _ ↦ (false, s') ]

  unfoldable pub maybe_update_service : S → Service → Service → Bool × S
  unfolding write_rest same_status
  maybe_update_service s was is =
      let (answer, s') = api.update_status s is in
      if same_status was is
      then write_rest s was is none
      else elim answer [ err _ ↦ (false, s') | ok updated ↦ write_rest s' was is (some updated) ]

  module _ {A : Type 0} (app : App A E) where
    -- Services and endpoints that change often and are of no interest.
    unfoldable pub is_special : String → Bool
    is_special name =
        (name == "default/kubernetes")
        || (name == "kube-system/kube-dns")
        || (name == "kube-system/kube-controller-manager")
        || (name == "kube-system/kube-scheduler")

    -- What the application changed is written if it reports success.
    written : S → Service → SyncState × A × Service → SyncState × S × A
    unfolding maybe_update_service
    written s was (success, a, is) =
        let (fine, s') = maybe_update_service s was is in (if fine then success else error, s', a)
    written s was (error, a, is) = (error, s, a)
    written s was (reprocess_all, a, is) = (reprocess_all, s, a)

    endpoints_or_none : Option E → E
    endpoints_or_none none = api.no_endpoints
    endpoints_or_none (some eps) = eps

    unfoldable pub sync_service : S → A → String → SyncState × S × A
    unfolding is_special written endpoints_or_none
    sync_service s a name =
        if is_special name then (success, s, a) else elim (api.get_service s name) [
          | err _ ↦ (error, s, a)
          | ok none ↦ let (st, a') = app.service_deleted a name in (st, s, a')
          | ok (some svc) ↦ elim (api.get_endpoints s name) [
            | err _ ↦ (error, s, a)
            | ok found ↦ written s svc (app.service_changed a svc (endpoints_or_none found))
          ]
        ]

    unfoldable pub sync : S → A → QueueKey → SyncState × S × A
    unfolding sync_service
    sync s a (service_key name) = sync_service s a name
    sync s a synced_key = (success, s, app.synced a)
