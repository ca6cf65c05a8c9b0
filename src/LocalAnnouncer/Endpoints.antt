-- ===== src/LocalAnnouncer/Endpoints.antt =====
-- nodeHasHealthyEndpoint of internal/local/announcer_local.go, and what its map says.
use purelb.Base.{
  ◌≡◌, refl, ◌∙◌, ◌↔◌, inl, inr, Bool, true, false, ◌&&◌, ◌||◌, List, [], ◌∷◌, String, Option, none,
  some, arith, ◌==◌, string_eq, if◌then◌else◌, Bool-cases, Option-cases,
}
use purelb.Base.Dict
use purelb.Base.Dict.{Dict, Once, get-put, put-Once, get-nil}
use purelb.LocalAnnouncer.{
  Endpoint, Subset, on_node, ready_addresses, not_ready, ready_in, any_true,
  node_has_healthy_endpoint,
}

-- Whether an address of the node is among the ready ones.
abbrev pub has_ready : String → List Endpoint → String → Bool
has_ready node [] ip = false
has_ready node (ep ∷ eps) ip = (on_node node ep && ep.ip == ip) || has_ready node eps ip

abbrev pub has_unready : List Endpoint → String → Bool
has_unready [] ip = false
has_unready (ep ∷ eps) ip = ep.ip == ip || has_unready eps ip

-- Whether some subset lists the address as ready on the node, and whether one has it as not ready.
abbrev pub listed : String → List Subset → String → Bool
listed node [] ip = false
listed node (s ∷ ss) ip = has_ready node s.addresses ip || listed node ss ip

abbrev pub unready : List Subset → String → Bool
unready [] ip = false
unready (s ∷ ss) ip = has_unready s.not_ready_addresses ip || unready ss ip

-- An opinion that is there stays.
abbrev or_ready : Option Bool → Bool → Option Bool
or_ready (some b) x = some b
or_ready none x = if x then some true else none

or_ready-or_ready : (o : Option Bool) (x y : Bool) → or_ready (or_ready o x) y ≡ or_ready o (x || y)
or_ready-or_ready (some b) x y = refl
or_ready-or_ready none true y = refl
or_ready-or_ready none false y = refl

get-ready_addresses :
    (node : String) (eps : List Endpoint) (m : Dict String Bool) (ip : String)
    → Dict.get (ready_addresses node eps m) ip ≡ or_ready (Dict.get m ip) (has_ready node eps ip)
unfolding ready_addresses
get-ready_addresses node [] m ip = ground arith
get-ready_addresses node (ep ∷ eps) m ip = elim (Bool-cases (on_node node ep)) [
  | inl here ↦ elim (Option-cases (Dict.get m ep.ip)) [
    | inl e ↦
        rw (here, e)
          (get-ready_addresses node eps (Dict.put m ep.ip true) ip
            ∙ ground (arith, get-put m ep.ip ip true, string_eq.beq_iff ep.ip ip))
    | inr (b, e) ↦
        rw (here, e)
          (get-ready_addresses node eps m ip ∙ ground (arith, string_eq.beq_iff ep.ip ip))
  ]
  | inr away ↦ rw away (get-ready_addresses node eps m ip)
]

get-not_ready :
    (eps : List Endpoint) (m : Dict String Bool) (ip : String)
    → Dict.get (not_ready eps m) ip ≡ (if has_unready eps ip then some false else Dict.get m ip)
unfolding not_ready
get-not_ready [] m ip = refl
get-not_ready (ep ∷ eps) m ip =
    get-not_ready eps (Dict.put m ep.ip false) ip ∙ ground (arith, get-put m ep.ip ip false)

get-ready_in :
    (node : String) (ss : List Subset) (m : Dict String Bool) (ip : String)
    → Dict.get (ready_in node ss m) ip
      ≡ (if unready ss ip then some false else or_ready (Dict.get m ip) (listed node ss ip))
unfolding ready_in
get-ready_in node [] m ip = ground arith
get-ready_in node (s ∷ ss) m ip =
    get-ready_in node ss (not_ready s.not_ready_addresses (ready_addresses node s.addresses m)) ip
    ∙ ground (
      arith,
      get-not_ready s.not_ready_addresses (ready_addresses node s.addresses m) ip,
      get-ready_addresses node s.addresses m ip,
      or_ready-or_ready (Dict.get m ip) (has_ready node s.addresses ip) (listed node ss ip),
    )

ready_addresses-Once :
    (node : String) (eps : List Endpoint) (m : Dict String Bool)
    → Once m
    → Once (ready_addresses node eps m)
unfolding ready_addresses
ready_addresses-Once node [] m h = h
ready_addresses-Once node (ep ∷ eps) m h = elim (Bool-cases (on_node node ep)) [
  | inl here ↦ elim (Option-cases (Dict.get m ep.ip)) [
    | inl e ↦
        rw (here, e)
          (ready_addresses-Once node eps (Dict.put m ep.ip true) (put-Once m ep.ip true h))
    | inr (b, e) ↦ rw (here, e) (ready_addresses-Once node eps m h)
  ]
  | inr away ↦ rw away (ready_addresses-Once node eps m h)
]

not_ready-Once : (eps : List Endpoint) (m : Dict String Bool) → Once m → Once (not_ready eps m)
unfolding not_ready
not_ready-Once [] m h = h
not_ready-Once (ep ∷ eps) m h =
    not_ready-Once eps (Dict.put m ep.ip false) (put-Once m ep.ip false h)

ready_in-Once :
    (node : String) (ss : List Subset) (m : Dict String Bool) → Once m → Once (ready_in node ss m)
unfolding ready_in
ready_in-Once node [] m h = h
ready_in-Once node (s ∷ ss) m h =
    ready_in-Once node ss _
      (not_ready-Once s.not_ready_addresses _ (ready_addresses-Once node s.addresses m h))

any_true-get :
    (m : Dict String Bool)
    → Once m
    → any_true m ≡ true
    → (ip : String) × (Dict.get m ip ≡ some true)
unfolding any_true Dict.get
any_true-get [] o h = cc
any_true-get ((k, true) ∷ m) o h = (k, ground (arith, string_eq.beq_iff k k))
any_true-get ((k, false) ∷ m) o h =
    let (ip, found) = any_true-get m o.1 h in (ip, ground (arith, string_eq.beq_iff k ip))

get-any_true : (m : Dict String Bool) (ip : String) → Dict.get m ip ≡ some true → any_true m ≡ true
unfolding any_true Dict.get
get-any_true [] ip h = cc
get-any_true ((k, true) ∷ m) ip h = refl
get-any_true ((k, false) ∷ m) ip h = get-any_true m ip (ground arith)

-- A node has a healthy endpoint exactly when there is an address that some subset lists as ready on
-- the node and that no subset lists as not ready.
pub node_has_healthy_endpoint_iff :
    (eps : List Subset) (node : String)
    → (node_has_healthy_endpoint eps node ≡ true)
      ↔ ((ip : String) × (listed node eps ip ≡ true) × (unready eps ip ≡ false))
unfolding node_has_healthy_endpoint
node_has_healthy_endpoint_iff eps node = (
  λ h.
      let (ip, found) = any_true-get (ready_in node eps []) (ready_in-Once node eps [] tt) h in
      (
        ip,
        ground (arith, get-ready_in node eps [] ip, get-nil {V = Bool} ip),
        ground (arith, get-ready_in node eps [] ip, get-nil {V = Bool} ip),
      ),
  λ w.
      get-any_true (ready_in node eps []) w.0
        (ground (arith, w.1, w.2, get-ready_in node eps [] w.0, get-nil {V = Bool} w.0)),
)
