-- ===== src/NodeAgent/Branches.antt =====
-- What the node agent's controller does with a service.
use purelb.Base.{
  ◌≡◌, inl, inr, refl, Bool, true, false, List, [], ◌∷◌, String, none, some, is_nil, arith, ◌==◌,
  string_eq, if◌then◌else◌, Bool-cases, Option-cases,
}
use purelb.Service.{Service}
use purelb.Controller.{success, error}
use purelb.NodeAgent.{Announcer, is_ours, is_foreign, failed, announce_each, service_changed}

ours-is_foreign : (svc : Service) → is_ours svc ≡ true → is_foreign svc ≡ false
unfolding is_foreign
ours-is_foreign svc ours = elim (Option-cases svc.annotations) [
  | inl e ↦ rw (e, is_foreign)
  | inr (m, e) ↦ ground arith
]

is_foreign-some :
    (svc : Service) {m : List (String × String)}
    → svc.annotations ≡ some m
    → is_ours svc ≡ false
    → is_foreign svc ≡ true
unfolding is_foreign
is_foreign-some svc e other = ground arith

if-same : {A : Type 0} {x : A} (b : Bool) → (if b then x else x) ≡ x
if-same true = refl
if-same false = refl

module _ {S E C F : Type 0} (ann : Announcer S E C F) where
  -- Whether SetBalancer of one of the announcers fails, each given the service as the one before
  -- left it.
  unfoldable pub some_fails : List S → Service → E → Bool
  some_fails [] svc eps = false
  some_fails (s ∷ ss) svc eps = elim (ann.set_balancer s svc eps).0 [
    | none ↦ some_fails ss (ann.set_balancer s svc eps).2 eps
    | some _ ↦ true
  ]

  announce_each-error :
      (ss : List S) (svc : Service) (eps : E)
      → (announce_each ann ss svc eps).0 ≡ (if some_fails ss svc eps then error else success)
  unfolding announce_each failed some_fails
  announce_each-error [] svc eps = refl
  announce_each-error (s ∷ ss) svc eps =
      let ih = announce_each-error ss (ann.set_balancer s svc eps).2 eps in
      elim (Option-cases (ann.set_balancer s svc eps).0) [
        | inl e ↦ rw (e, failed, some_fails) ih
        | inr (f, e) ↦ rw (e, failed, some_fails)
      ]

  -- For a load balancer with the brand of PureLB and an address, ServiceChanged reports an error
  -- exactly where an announcer fails to announce it.
  pub service_changed-error :
      (ss : List S) (svc : Service) (eps : E)
      → (svc.spec_type == "LoadBalancer") ≡ true
      → is_ours svc ≡ true
      → is_nil svc.ingress ≡ false
      → (service_changed ann ss svc eps).0 ≡ (if some_fails ss svc eps then error else success)
  unfolding service_changed
  service_changed-error ss svc eps is ours has =
      rw (is, has, ours-is_foreign svc ours) (announce_each-error ss svc eps)

  -- A service with annotations but without the brand of PureLB is left as it is, and no announcer
  -- is told of it.
  pub service_changed-foreign :
      (ss : List S) (svc : Service) (eps : E) {m : List (String × String)}
      → svc.annotations ≡ some m
      → is_ours svc ≡ false
      → service_changed ann ss svc eps ≡ (success, ss, svc)
  unfolding service_changed
  service_changed-foreign ss svc eps e other = elim (Bool-cases (svc.spec_type == "LoadBalancer")) [
    | inl is ↦ rw (is, is_foreign-some svc e other) (if-same (is_nil svc.ingress))
    | inr is ↦ rw (is, other, is_foreign-some svc e other) (if-same (is_nil svc.ingress))
  ]
