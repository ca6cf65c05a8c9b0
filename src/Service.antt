-- ===== src/Service.antt =====
-- The parts of k8s.io's Service that the program reads and writes, with the helpers of
-- internal/allocator/k8salloc.go and internal/allocator/ingress.go and the annotation keys of
-- pkg/apis/v1/annotations.go and classes.go.
use Prim.Native.String.{◌++◌ as text_append}
use purelb.Base.{
  ℕ, ◌≡◌, Bool, true, ◌&&◌, List, [], ◌∷◌, ◌++◌, map, String, Option, none, some, Eq, ◌==◌, nat_eq,
  string_eq, arith, ◌↔◌,
}
use purelb.Base.Dict
use purelb.Base.Dict.{Dict}

pub record ServicePort : Type 0 where
  pub protocol : String
  pub port : ℕ

-- A nil map of annotations is `none`. Of an ingress entry of the status only its IP is used.
pub record Service : Type 0 where
  pub namespace : String
  pub name : String
  pub annotations : Option (Dict String String)
  pub spec_type : String
  pub cluster_ip : String
  pub load_balancer_ip : String
  pub load_balancer_class : Option String
  pub ip_families : List String
  pub ports : List ServicePort
  pub external_traffic_policy : String
  pub ingress : List String

abbrev pub sharing_annotation : String
sharing_annotation = "purelb.io/allow-shared-ip"

abbrev pub desired_address_annotation : String
desired_address_annotation = "purelb.io/addresses"

abbrev pub desired_group_annotation : String
desired_group_annotation = "purelb.io/service-group"

abbrev pub allow_local_annotation : String
allow_local_annotation = "purelb.io/allow-local"

abbrev pub brand_annotation : String
brand_annotation = "purelb.io/allocated-by"

abbrev pub brand : String
brand = "PureLB"

abbrev pub pool_annotation : String
pool_annotation = "purelb.io/allocated-from"

abbrev pub announce_annotation : String
announce_annotation = "purelb.io/announcing"

abbrev pub service_lb_class : String
service_lb_class = "purelb.io/purelb"

-- svc.Annotations[key]: a nil map has no key.
unfoldable pub annotation : Service → String → Option String
annotation svc key = elim svc.annotations [ none ↦ none | some m ↦ Dict.get m key ]

-- The value, or the empty text where there is none.
abbrev pub text_or_empty : Option String → String
text_or_empty none = ""
text_or_empty (some s) = s

-- svc.Annotations[key] = value, on a map that is not nil: SetBalancer makes one first.
unfoldable pub annotate : Service → String → String → Service
annotate svc key value = record svc {
  annotations = elim svc.annotations [ none ↦ none | some m ↦ some (Dict.put m key value) ];
}

-- delete(svc.Annotations, key), which does nothing to a nil map.
unfoldable pub unannotate : Service → String → Service
unannotate svc key = record svc {
  annotations = elim svc.annotations [ none ↦ none | some m ↦ some (Dict.remove m key) ];
}

-- Port of pool.go: one port in use by a service.
pub record Port : Type 0 where
  pub proto : String
  pub port : ℕ

abbrev pub port_beq : Port → Port → Bool
port_beq a b = (a.proto == b.proto) && (a.port == b.port)

pub port_beq_iff : (a b : Port) → (port_beq a b ≡ true) ↔ (a ≡ b)
port_beq_iff a b = ground (arith, string_eq.beq_iff a.proto b.proto)

instance abbrev pub port_eq : Eq Port
port_eq = record { beq = port_beq; beq_iff = port_beq_iff }

-- Ports
unfoldable pub service_ports : Service → List Port
service_ports svc = map (λ p. record { proto = p.protocol; port = p.port }) svc.ports

-- SharingKey
unfoldable pub service_key : Service → String
unfolding annotation
service_key svc = text_or_empty (annotation svc sharing_annotation)

unfoldable pub namespaced_name : Service → String
namespaced_name svc = text_append svc.namespace (text_append "/" svc.name)

-- addIngress, given the text of the address.
unfoldable pub add_ingress : Service → String → Service
add_ingress svc address = record svc { ingress = svc.ingress ++ address ∷ [] }
