-- ===== src/LocalPool/Ingress.antt =====
-- The service that Assign and AssignNext of internal/allocator/localpool.go leave behind.
use purelb.Base.{◌≡◌, refl, ap, ◌∙◌, inl, inr, List, String, Option-cases}
use purelb.Net.{Ip, Parser}
use purelb.Service.{Service, add_ingress}
use purelb.LocalPool.{LocalPool, available, assign}
use purelb.LocalPool.Assign.{assign_next}
use purelb.LocalPool.Steps.{assign_next-Holds}
use purelb.LocalPool.Search.{assign-some, assign-none}

-- The service with another ingress.
pub record Addressed (svc svc' : Service) : Type 0 where
  pub addresses : List String
  pub rest : svc' ≡ record svc { ingress = addresses }

with_ingress : List String → Service → Service
with_ingress addresses svc = record svc { ingress = addresses }

pub Addressed-refl : (svc : Service) → Addressed svc svc
Addressed-refl svc = record { addresses = svc.ingress; rest = refl }

pub Addressed-trans :
    (svc svc' svc'' : Service) → Addressed svc svc' → Addressed svc' svc'' → Addressed svc svc''
unfolding with_ingress
Addressed-trans svc svc' svc'' a b = record {
  addresses = b.addresses;
  rest = b.rest ∙ ap (with_ingress b.addresses) a.rest;
}

module _ (net : Parser) where
  pub assign-Addressed :
      (p : LocalPool) (ip : Ip) (svc : Service) → Addressed svc (assign net p ip svc).2
  unfolding add_ingress
  assign-Addressed p ip svc = elim (Option-cases (available net p ip svc)) [
    | inl a ↦
        rw (assign-none net p ip svc a)
          (record { addresses = (add_ingress svc (net.ip_string ip)).ingress; rest = refl })
    | inr (e, a) ↦ rw (assign-some net p ip svc a) (Addressed-refl svc)
  ]

  pub assign_next-Addressed :
      (p : LocalPool) (svc : Service) → Addressed svc (assign_next net p svc).2
  assign_next-Addressed p svc =
      assign_next-Holds net (λ p svc q svc'. Addressed svc svc')
        (record {
          same = λ p svc. Addressed-refl svc;
          both = λ p q r svc svc' svc'' a b. Addressed-trans svc svc' svc'' a b;
          step = assign-Addressed;
        })
        p svc
