-- ===== src/LocalPool/Spec.antt =====
-- What a local pool promises, without its maps: who uses an address, who owns its ports, and the key
-- under which it is shared; and which change of these an operation may make.
use purelb.Base.{
  ◌≡◌, ◌≢◌, Bool, true, false, not, ◌&&◌, ◌||◌, List, [], ◌∷◌, String, Option, none, some, ◌==◌,
  string_eq, if◌then◌else◌,
}
use purelb.Net.{Ip, Parser}
use purelb.Service.{Service, Port, service_ports, service_key, namespaced_name, add_ingress}
use purelb.Pool.{Key}
use purelb.LocalPool.Views.{has_port, other_owner}
use purelb.LocalPool.Notify.{noted}
use purelb.LocalPool.Sharing.{Matches}

pub record View : Type 0 where
  pub uses : String → String → Bool
  pub owner : String → Port → Option String
  pub key : String → Option Key

pub data Op : Type 0 where
  notify : Service → Op
  release : String → Op
  assign : Ip → Service → Op

-- A service may use an address if all others there have its key, which is not empty, and none of its
-- ports there is another's.
pub record Allowed (v : View) (at : String) (svc : Service) : Type 0 where
  pub shares :
      (s : String)
      → v.uses at s ≡ true
      → s ≢ namespaced_name svc
      → Matches (v.key at) (service_key svc)
  pub unclaimed :
      (q : Port) (s : String)
      → has_port (service_ports svc) q ≡ true
      → v.owner at q ≡ some s
      → s ≡ namespaced_name svc

module _ (net : Parser) where
  -- A service with its ports and its key at all of its ingress addresses.
  pub record Noted (svc : Service) (v w : View) : Type 0 where
    pub uses :
        (at s : String)
        → w.uses at s ≡ ((noted net svc.ingress at && namespaced_name svc == s) || v.uses at s)
    pub owner :
        (at : String) (q : Port)
        → w.owner at q ≡ (
            if noted net svc.ingress at && has_port (service_ports svc) q
            then some (namespaced_name svc)
            else v.owner at q)
    pub key :
        (at : String)
        → w.key at ≡ (
            if noted net svc.ingress at
            then some (record { sharing = service_key svc })
            else v.key at)

  -- A service is gone from everywhere; an address without a user has no key.
  pub record Freed (name : String) (v w : View) : Type 0 where
    pub uses : (at s : String) → w.uses at s ≡ (not (name == s) && v.uses at s)
    pub owner : (at : String) (q : Port) → w.owner at q ≡ other_owner name (v.owner at q)
    pub key_kept : (at s : String) → w.uses at s ≡ true → w.key at ≡ v.key at
    pub key_dropped : (at : String) → ((s : String) → w.uses at s ≡ false) → w.key at ≡ none

  pub data Step : View → Op → View → Type 0 where
    notified : (v w : View) (svc : Service) → Noted svc v w → Step v (notify svc) w
    released : (v w : View) (name : String) → Freed name v w → Step v (release name) w
    granted :
        (v w : View) (ip : Ip) (svc : Service)
        → Allowed v (net.ip_string ip) svc
        → Noted (add_ingress svc (net.ip_string ip)) v w
        → Step v (assign ip svc) w
    refused :
        (v : View) (ip : Ip) (svc : Service)
        → (Allowed v (net.ip_string ip) svc → ⊥)
        → Step v (assign ip svc) v

  -- A sequence of operations.
  pub data Run : View → List Op → View → Type 0 where
    done : (v : View) → Run v [] v
    then_op :
        (u v w : View) (op : Op) (ops : List Op) → Step u op v → Run v ops w → Run u (op ∷ ops) w
