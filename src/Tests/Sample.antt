-- ===== src/Tests/Sample.antt =====
-- A parser that knows a few texts, in the place of Go's net package and of go-cidr, and services
-- and pools to try the definitions on.
use purelb.Base.{
  ℕ, ◌≡◌, ◌≢◌, refl, inl, Bool, true, ◌&&◌, List, [], ◌∷◌, ◌++◌, String, Option, none, some, length,
  All, arith, ltb, ◌==◌, string_eq, if◌then◌else◌,
}
use purelb.Base.Dict
use purelb.Base.Dict.{Dict, All-get}
use purelb.Net.{Ip, IpNet, Parser, IsParser, IsWide, IsByte, bytes_equal, v4_in_v6_prefix}
use purelb.IpRange.{IpRange}
use purelb.Service.{Service}
use purelb.LocalPool.{LocalPool}

-- The IPv4 address with these four bytes, in 16 bytes.
abbrev pub v4 : ℕ → ℕ → ℕ → ℕ → Ip
v4 a b c d = v4_in_v6_prefix ++ a ∷ b ∷ c ∷ d ∷ []

abbrev pub v6 : ℕ → Ip
v6 d = 253 ∷ 0 ∷ 0 ∷ 0 ∷ 0 ∷ 0 ∷ 0 ∷ 0 ∷ 0 ∷ 0 ∷ 0 ∷ 0 ∷ 0 ∷ 0 ∷ 0 ∷ d ∷ []

abbrev texts : Dict String Ip
texts =
    ("10.0.0.1", v4 10 0 0 1)
    ∷ ("10.0.0.2", v4 10 0 0 2)
    ∷ ("10.0.0.3", v4 10 0 0 3)
    ∷ ("10.0.0.0", v4 10 0 0 0)
    ∷ ("fd00::1", v6 1)
    ∷ []

abbrev text_of : Dict String Ip → Ip → String
text_of [] ip = "?"
text_of ((text, a) ∷ m) ip = if bytes_equal a ip then text else text_of m ip

abbrev ip_of : Option Ip → Ip
ip_of none = []
ip_of (some ip) = ip

abbrev cidr_of : String → Option (Ip × IpNet)
cidr_of s =
    if s == "10.0.0.0/24"
    then some (v4 10 0 0 0, record { ip = 10 ∷ 0 ∷ 0 ∷ 0 ∷ []; mask = 255 ∷ 255 ∷ 255 ∷ 0 ∷ [] })
    else if s == "10.0.0.1/32"
    then some (v4 10 0 0 1, record { ip = 10 ∷ 0 ∷ 0 ∷ 1 ∷ []; mask = 255 ∷ 255 ∷ 255 ∷ 255 ∷ [] })
    else none

abbrev pub sample : Parser
sample = record {
  parse_ip = λ s. ip_of (Dict.get texts s);
  ip_string = text_of texts;
  parse_cidr = cidr_of;
  last_address = λ n. 10 ∷ 0 ∷ 0 ∷ 255 ∷ [];
}

abbrev pub are_bytes : List ℕ → Bool
are_bytes [] = true
are_bytes (b ∷ bs) = ltb b 256 && are_bytes bs

are_bytes-All : (bs : List ℕ) → are_bytes bs ≡ true → All IsByte bs
are_bytes-All [] h = tt
are_bytes-All (b ∷ bs) h = (ground arith, are_bytes-All bs (ground arith))

pub wide : (ip : Ip) → length ip ≡ 16 → are_bytes ip ≡ true → IsWide ip
wide ip l h = record { long = l; bytes = are_bytes-All ip h }

texts-IsWide : All (λ e. IsWide e.1) texts
texts-IsWide = (
  wide (v4 10 0 0 1) refl refl,
  (
    wide (v4 10 0 0 2) refl refl,
    (wide (v4 10 0 0 3) refl refl, (wide (v4 10 0 0 0) refl refl, (wide (v6 1) refl refl, tt))),
  ),
)

ip_of-IsWide : (s : String) (o : Option Ip) → Dict.get texts s ≡ o → ip_of o ≢ [] → IsWide (ip_of o)
ip_of-IsWide s none e h = absurd (h refl)
ip_of-IsWide s (some ip) e h = All-get (λ x. IsWide x.1) texts s ip texts-IsWide e

pub sample-IsParser : IsParser sample
sample-IsParser = record {
  parse_ip-IsWide = λ s h. ip_of-IsWide s (Dict.get texts s) refl h;
  parse_cidr-IsWide =
      λ s e. ground (arith, wide (v4 10 0 0 0) refl refl, wide (v4 10 0 0 1) refl refl);
  last_address-IsAddress =
      λ s e. record { long = inl refl; bytes = are_bytes-All (10 ∷ 0 ∷ 0 ∷ 255 ∷ []) refl };
}

-- 10.0.0.1 to 10.0.0.2.
abbrev pub pair : IpRange
pair = record { from = v4 10 0 0 1; to = v4 10 0 0 2 }

abbrev pub empty_local : LocalPool
empty_local = record {
  name = "default";
  v4_ranges = pair ∷ [];
  v6_ranges = [];
  addresses_in_use = [];
  sharing_keys = [];
  ports_in_use = [];
}

-- A load balancer with one port, with the ingress addresses and the pool that are given.
abbrev pub service : String → List String → Option (Dict String String) → Service
service name ingress annotations = record {
  namespace = "ns";
  name = name;
  annotations = annotations;
  spec_type = "LoadBalancer";
  cluster_ip = "10.0.0.3";
  load_balancer_ip = "";
  load_balancer_class = none;
  ip_families = "IPv4" ∷ [];
  ports = record { protocol = "TCP"; port = 80 } ∷ [];
  external_traffic_policy = "Cluster";
  ingress = ingress;
}
