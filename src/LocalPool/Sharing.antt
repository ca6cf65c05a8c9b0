-- ===== src/LocalPool/Sharing.antt =====
-- When an address is available to a service: `available` against the rule for sharing.
use purelb.Base.{
  ◌≡◌, ◌≢◌, ◌↔◌, refl, ◌⊎◌, inl, inr, Bool, true, List, [], ◌∷◌, String, Option, none, some, arith,
  string_eq, Option-cases,
}
use purelb.Base.Dict
use purelb.Base.Dict.{Dict, get-nil}
use purelb.Service.{Service, Port, port_eq, service_ports, service_key, namespaced_name}
use purelb.Pool.{Key, sharing_ok}
use purelb.LocalPool.{LocalPool, other_services, taken_port, may_share, available_text}
use purelb.LocalPool.Views.{users, owners, user, owner, has_port}
use purelb.LocalPool.Invariant.{Inv}

-- A key that a second service may use too.
abbrev pub Matches : Option Key → String → Type 0
Matches found key = (found ≡ some (record { sharing = key })) × (key ≢ "")

-- None of the ports of a service belongs, on this address, to another service.
abbrev pub Unclaimed : LocalPool → String → Service → Type 0
Unclaimed p ip svc =
    (q : Port) (s : String)
    → has_port (service_ports svc) q ≡ true
    → owner p ip q ≡ some s
    → s ≡ namespaced_name svc

-- What the documentation of the sharing annotation asks for: a service shares an address only with
-- services that have the same key, which is not empty, and no port in common.
abbrev pub MayUse : LocalPool → String → Service → Type 0
MayUse p ip svc =
    ((s : String)
      → user p ip s ≢ none
      → s ≢ namespaced_name svc
      → Matches (Dict.get p.sharing_keys ip) (service_key svc))
    × Unclaimed p ip svc

module _ (existing new : Key) where
  sharing_ok-Matches : sharing_ok existing new ≡ none → Matches (some existing) new.sharing
  unfolding sharing_ok
  sharing_ok-Matches h = ground (
    arith,
    string_eq.beq_iff existing.sharing "",
    string_eq.beq_iff new.sharing "",
    string_eq.beq_iff existing.sharing new.sharing,
  )

  Matches-sharing_ok : Matches (some existing) new.sharing → sharing_ok existing new ≡ none
  unfolding sharing_ok
  Matches-sharing_ok h = ground (
    arith,
    string_eq.beq_iff existing.sharing "",
    string_eq.beq_iff new.sharing "",
    string_eq.beq_iff existing.sharing new.sharing,
  )

module _ (svc : String) where
  taken_port-none :
      (ports : List Port) (m : Dict Port String) (q : Port) (s : String)
      → taken_port svc ports m ≡ none
      → has_port ports q ≡ true
      → Dict.get m q ≡ some s
      → s ≡ svc
  unfolding taken_port
  taken_port-none [] m q s h k g = cc
  taken_port-none (port ∷ ports) m q s h k g =
      ground (arith, taken_port-none ports m q s, port_eq.beq_iff port q, string_eq.beq_iff s svc)

  none-taken_port :
      (ports : List Port) (m : Dict Port String)
      → ((q : Port) (s : String) → has_port ports q ≡ true → Dict.get m q ≡ some s → s ≡ svc)
      → taken_port svc ports m ≡ none
  unfolding taken_port
  none-taken_port [] m free = refl
  none-taken_port (port ∷ ports) m free =
      let rest = none-taken_port ports m (λ q s k. free q s (ground arith)) in
      elim (Option-cases (Dict.get m port)) [
        | inl e ↦ ground (arith, rest)
        | inr (owner, e) ↦
            let mine : owner ≡ svc =
              free port owner (ground (arith, port_eq.beq_iff port port)) e in
            ground (arith, rest, string_eq.beq_iff owner svc)
      ]

  no_others-user :
      (m : Dict String Bool) (s : String)
      → other_services svc m ≡ []
      → Dict.get m s ≢ none
      → s ≡ svc
  unfolding other_services Dict.get
  no_others-user [] s h g = absurd (g refl)
  no_others-user ((other, b) ∷ m) s h g =
      ground (arith, no_others-user m s, string_eq.beq_iff other svc, string_eq.beq_iff other s)

  other_services-user :
      (m : Dict String Bool) (s : String) (rest : List String)
      → other_services svc m ≡ s ∷ rest
      → (Dict.get m s ≢ none) × (s ≢ svc)
  unfolding other_services Dict.get
  other_services-user [] s rest h = cc
  other_services-user ((other, b) ∷ m) s rest h =
      ground (
        arith,
        other_services-user m s rest,
        string_eq.beq_iff other svc,
        string_eq.beq_iff other s,
      )

module _ (svc : String) (key k : Key) (ports : List Port) (us : Dict String Bool)
    (os : Dict Port String) where
  may_share-none :
      may_share svc key ports us os (some k) ≡ none
      → (taken_port svc ports os ≡ none)
        × ((sharing_ok k key ≡ none) ⊎ (other_services svc us ≡ []))
  unfolding may_share
  may_share-none h = ground arith

  none-may_share :
      taken_port svc ports os ≡ none
      → (sharing_ok k key ≡ none) ⊎ (other_services svc us ≡ [])
      → may_share svc key ports us os (some k) ≡ none
  unfolding may_share
  none-may_share free alone = ground arith

List-cases {ℓ} : {A : Type ℓ} (l : List A) → (l ≡ []) ⊎ ((x : A) × (xs : List A) × (l ≡ x ∷ xs))
List-cases [] = inl refl
List-cases (x ∷ xs) = inr (x, xs, refl)

module _ (p : LocalPool) (ip : String) (svc : Service) (v : Inv p) where
  new_key : Key
  new_key = record { sharing = service_key svc }

  -- An address with no sharing key has no user, and so no port of it has an owner.
  unused : Dict.get p.sharing_keys ip ≡ none → (s : String) → user p ip s ≡ none
  unused h s = ground (arith, v.keyed ip, get-nil {V = Bool} s)

  available-MayUse : available_text p ip svc ≡ none → MayUse p ip svc
  unfolding available_text new_key
  available-MayUse h = elim (Option-cases (Dict.get p.sharing_keys ip)) [
    | inl e ↦ (λ s g ne. absurd (g (unused e s)), λ q s k o. absurd (v.owned ip q s o (unused e s)))
    | inr (k, e) ↦
        let (free, alone) = may_share-none _ _ k _ (users p ip) (owners p ip) (rw e at h) in
        (
          λ s g ne. elim alone [
            | inl same ↦ rw e (sharing_ok-Matches k new_key same)
            | inr none_else ↦ absurd (ne (no_others-user _ (users p ip) s none_else g))
          ],
          λ q s has o. taken_port-none _ _ (owners p ip) q s free has o,
        )
  ]

  MayUse-available : MayUse p ip svc → available_text p ip svc ≡ none
  unfolding available_text may_share new_key
  MayUse-available (shares, ports) = elim (Option-cases (Dict.get p.sharing_keys ip)) [
    | inl e ↦ rw e
    | inr (k, e) ↦ rw e (
        none-may_share _ _ k _ (users p ip) (owners p ip) (none-taken_port _ _ (owners p ip) ports)
          (elim (List-cases (other_services (namespaced_name svc) (users p ip))) [
            | inl alone ↦ inr alone
            | inr (s, rest, more) ↦
                let (uses, other) = other_services-user _ (users p ip) s rest more in
                inl (Matches-sharing_ok k new_key (rw e at (shares s uses other)))
          ]))
  ]

  -- Under the invariant an address is available to a service exactly when each other service that
  -- uses it has the same, non-empty sharing key, and no port of the service is another's.
  pub available_iff : (available_text p ip svc ≡ none) ↔ MayUse p ip svc
  available_iff = (available-MayUse, MayUse-available)
