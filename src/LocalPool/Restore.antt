-- ===== src/LocalPool/Restore.antt =====
-- Assign and then Release of internal/allocator/localpool.go: the pool is as it was.
use purelb.Base.{
  ◌≡◌, ◌≢◌, refl, sym, ap, subst, ◌∙◌, ◌⊎◌, inl, inr, Bool, true, ◌&&◌, [], ◌∷◌, String, none, some,
  arith, string_eq, Bool-cases, Option-cases, none-ne-some,
}
use purelb.Base.Dict
use purelb.Base.Dict.{Dict}
use purelb.Net.{Ip, Parser}
use purelb.Service.{
  Service, Port, port_eq, service_ports, service_key, annotation, namespaced_name, add_ingress,
}
use purelb.LocalPool.{LocalPool, available, assign, notify, release}
use purelb.LocalPool.Views.{users, user, owner, has_port}
use purelb.LocalPool.Invariant.{Inv, notify-Inv, release-Inv}
use purelb.LocalPool.Notify.{noted, notify-IsNotified}
use purelb.LocalPool.Release.{user-release, owner-release, key-release, other_owner_same}
use purelb.LocalPool.Sharing.{MayUse, available_iff}
use purelb.LocalPool.Search.{assign-some, assign-none}
use purelb.LocalPool.Refines.{unused-keyless, open_available}

-- Two pools with the same users, port owners and keys.
pub record SameView (p q : LocalPool) : Type 0 where
  pub users_same : (at s : String) → user q at s ≡ user p at s
  pub owners_same : (at : String) (port : Port) → owner q at port ≡ owner p at port
  pub keys_same : (at : String) → Dict.get q.sharing_keys at ≡ Dict.get p.sharing_keys at

some_user :
    (m : Dict String Bool)
    → ((s : String) → Dict.get m s ≡ none) ⊎ ((s : String) × (b : Bool) × (Dict.get m s ≡ some b))
unfolding Dict.get
some_user [] = inl (λ s. refl)
some_user ((k, v) ∷ m) = inr (k, v, ground (arith, string_eq.beq_iff k k))

module _ (net : Parser) (p q : LocalPool) (name : String) (v : Inv p) (w : Inv q)
    (new : (at : String) → user p at name ≡ none) where
  -- A pool in which the service may have become a user, with the ports and the key of an address.
  record Grows : Type 0 where
    grown_users : (at s : String) → name ≢ s → user q at s ≡ user p at s
    grown_owners :
        (at : String) (port : Port)
        → (owner q at port ≡ owner p at port)
          ⊎ ((owner q at port ≡ some name) × (owner p at port ≡ none))
    grown_keys :
        (at s : String) {b : Bool}
        → user p at s ≡ some b
        → Dict.get q.sharing_keys at ≡ Dict.get p.sharing_keys at

  unowned : (at : String) (port : Port) → owner p at port ≢ some name
  unowned at port h = v.owned at port name h (new at)

  module _ (g : Grows) where
    back_users : (at s : String) → user (release q name) at s ≡ user p at s
    back_users at s =
        user-release q name at s
        ∙ ground (arith, g.grown_users at s, new at, string_eq.beq_iff name s)

    back_owners : (at : String) (port : Port) → owner (release q name) at port ≡ owner p at port
    back_owners at port = owner-release q name at port w ∙ elim (g.grown_owners at port) [
      | inl same ↦ rw same (other_owner_same name (owner p at port) (unowned at port))
      | inr (mine, free) ↦ rw (mine, free) (ground (arith, string_eq.beq_iff name name))
    ]

    back_keys :
        (at : String) → Dict.get (release q name).sharing_keys at ≡ Dict.get p.sharing_keys at
    back_keys at = elim (some_user (users p at)) [
      | inl free ↦
          unused-keyless net (release q name) at (release-Inv q name w)
            (λ s. ground (arith, back_users at s, free s))
          ∙ sym (unused-keyless net p at v (λ s. ground (arith, free s)))
      | inr (s, b, used) ↦
          let other : name ≢ s = λ e. ground (arith, subst (λ x. user p at x ≡ none) e (new at)) in
          key-release q name at s other (g.grown_users at s other ∙ used) ∙ g.grown_keys at s used
    ]

    back : SameView p (release q name)
    back = record { users_same = back_users; owners_same = back_owners; keys_same = back_keys }

module _ (net : Parser) (p : LocalPool) (ip : Ip) (svc : Service) (v : Inv p)
    (new : (at : String) → user p at (namespaced_name svc) ≡ none) (bare : svc.ingress ≡ []) where
  noted-at :
      (at : String)
      → noted net (add_ingress svc (net.ip_string ip)).ingress at ≡ true
      → net.ip_string ip ≡ at
  unfolding add_ingress
  noted-at at h = ground (arith, (rw bare at h), string_eq.beq_iff (net.ip_string ip) at)

  same_name : namespaced_name (add_ingress svc (net.ip_string ip)) ≡ namespaced_name svc
  unfolding namespaced_name add_ingress
  same_name = refl

  same_key : service_key (add_ingress svc (net.ip_string ip)) ≡ service_key svc
  unfolding service_key annotation add_ingress
  same_key = refl

  -- A port that the service takes is nobody's.
  free :
      (at : String) (port : Port)
      → MayUse p (net.ip_string ip) svc
      → (owner p at port ≡ none) ⊎ ((s : String) × (owner p at port ≡ some s))
      → (noted net (add_ingress svc (net.ip_string ip)).ingress at
          && has_port (service_ports (add_ingress svc (net.ip_string ip))) port)
        ≡ true
      → owner p at port ≡ none
  free at port may (inl e) ours = e
  free at port may (inr (s, e)) ours =
      let here = noted-at at (ground arith) in
      let has : has_port (service_ports svc) port ≡ true =
        unfold service_ports add_ingress in ground arith in
      let mine = may.1 port s has (rw here e) in
      absurd (unowned net p p (namespaced_name svc) v v new at port (rw (← mine) e))

  other_name : (at s : String) {b : Bool} → user p at s ≡ some b → s ≡ namespaced_name svc → ⊥
  other_name at s used e =
      none-ne-some (sym (subst (λ x. user p at x ≡ none) (sym e) (new at)) ∙ used)

  key_at :
      (at s : String) {b : Bool}
      → MayUse p (net.ip_string ip) svc
      → user p at s ≡ some b
      → net.ip_string ip ≡ at
      → Dict.get p.sharing_keys at
        ≡ some (record { sharing = service_key (add_ingress svc (net.ip_string ip)) })
  key_at at s may used here =
      subst
        (λ x.
          Dict.get p.sharing_keys x
          ≡ some (record { sharing = service_key (add_ingress svc (net.ip_string ip)) }))
        here
        ((may.0 s (rw here (ground arith)) (λ e. other_name at s used e)).0
          ∙ ap (λ k. some (record { sharing = k })) (sym same_key))

  notify-Grows :
      MayUse p (net.ip_string ip) svc
      → Grows net p
          (notify net p (add_ingress svc (net.ip_string ip)))
          (namespaced_name svc)
          v
          (notify-Inv net p (add_ingress svc (net.ip_string ip)) v)
          new
  notify-Grows may =
      let svc' = add_ingress svc (net.ip_string ip) in
      let n = notify-IsNotified net p svc' in
      record {
        grown_users = λ at s other.
            n.users_of at s ∙ ground (arith, same_name, string_eq.beq_iff (namespaced_name svc') s);
        grown_owners = λ at port.
            elim (Bool-cases (noted net svc'.ingress at && has_port (service_ports svc') port)) [
              | inr not_ours ↦ inl (n.owners_of at port ∙ rw not_ours)
              | inl ours ↦ inr (
                n.owners_of at port ∙ rw (ours, same_name),
                free at port may (Option-cases (owner p at port)) ours,
              )
            ];
        grown_keys = λ at s used. elim (Bool-cases (noted net svc'.ingress at)) [
          | inr elsewhere ↦ n.keys_of at ∙ rw elsewhere
          | inl here ↦ n.keys_of at ∙ rw here (sym (key_at at s may used (noted-at at here)))
        ];
      }

  -- Release after Assign, whether or not the address was assigned, restores the users, the port owners
  -- and the keys of all addresses, for a service that has no address yet, in a pool that keeps its
  -- invariant.
  pub release-assign : SameView p (release (assign net p ip svc).1 (namespaced_name svc))
  release-assign = elim (Option-cases (available net p ip svc)) [
    | inl e ↦ rw (assign-none net p ip svc e) (
        back net p _ (namespaced_name svc) v (notify-Inv net p _ v) new (
          notify-Grows
            ((available_iff p (net.ip_string ip) svc v).0 (open_available net p ip svc ∙ e))))
    | inr (f, e) ↦ rw (assign-some net p ip svc e) (
        back net p p (namespaced_name svc) v v new (record {
          grown_users = λ at s other. refl;
          grown_owners = λ at port. inl refl;
          grown_keys = λ at s used. refl;
        }))
  ]
