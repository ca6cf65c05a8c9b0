-- ===== src/NetboxPool/Ingress.antt =====
-- The service that AssignNext of internal/allocator/netboxpool.go leaves behind.
use purelb.Base.{refl, List, [], ◌∷◌, ◌++◌, String, Option, none, some, Option-cases, inl, inr}
use purelb.Net.{Ip, Parser}
use purelb.Service.{Service, add_ingress}
use purelb.LocalPool.Ingress.{Addressed, Addressed-refl}
use purelb.NetboxPool.{NetboxPool, assign, assign_fetched, assign_answer, assign_next}

module _ (net : Parser) where
  pub assign-Addressed :
      (p : NetboxPool) (ip : Ip) (svc : Service) → Addressed svc (assign net p ip svc).2
  unfolding assign add_ingress
  assign-Addressed p ip svc = record {
    addresses = svc.ingress ++ net.ip_string ip ∷ [];
    rest = refl;
  }

  assign_fetched-Addressed :
      (p : NetboxPool) (answer : Option String) (svc : Service)
      → Addressed svc (assign_fetched net p answer svc).2
  unfolding assign_fetched
  assign_fetched-Addressed p none svc = Addressed-refl svc
  assign_fetched-Addressed p (some cidr) svc = elim (Option-cases (net.parse_cidr cidr)) [
    | inl e ↦ rw (e, assign_fetched) (Addressed-refl svc)
    | inr ((ip, n), e) ↦ rw (e, assign_fetched) (assign-Addressed p ip svc)
  ]

  assign_answer-Addressed :
      (p : NetboxPool) (answers : List (Option String)) (svc : Service)
      → Addressed svc (assign_answer net p answers svc).2
  unfolding assign_answer
  assign_answer-Addressed p [] svc = Addressed-refl svc
  assign_answer-Addressed p (answer ∷ answers) svc =
      assign_fetched-Addressed (record p { answers = answers }) answer svc

  pub netbox-Addressed : (p : NetboxPool) (svc : Service) → Addressed svc (assign_next net p svc).2
  unfolding assign_next
  netbox-Addressed p svc = assign_answer-Addressed p p.answers svc
