-- ===== src/LocalPool/Steps.antt =====
-- AssignNext of internal/allocator/localpool.go as a sequence of calls of Assign.
use purelb.Base.{ℕ, zero, suc, refl, inl, inr, List, [], ◌∷◌, none, some, Option-cases}
use purelb.Net.{Ip, Parser}
use purelb.IpRange.{family_v4, family_v6}
use purelb.Service.{Service}
use purelb.Pool.{out_of_fuel}
use purelb.LocalPool.{LocalPool, Outcome, available, assign, next, first}
use purelb.LocalPool.Search.{assign_from-taken, assign_from-skip}
use purelb.LocalPool.Assign.{
  assign_from, assign_family, assign_families, assign_in, assign_next, which_families, and_then,
  or_else,
}

-- A relation between a pool with a service and what an operation leaves of both.
abbrev pub Relation : Type 1
Relation = LocalPool → Service → LocalPool → Service → Type 0

pub record Closed (net : Parser) (R : Relation) : Type 0 where
  pub same : (p : LocalPool) (svc : Service) → R p svc p svc
  pub both :
      (p q r : LocalPool) (svc svc' svc'' : Service)
      → R p svc q svc'
      → R q svc' r svc''
      → R p svc r svc''
  pub step :
      (p : LocalPool) (ip : Ip) (svc : Service)
      → R p svc (assign net p ip svc).1 (assign net p ip svc).2

module _ (net : Parser) (R : Relation) (closed : Closed net R) where
  abbrev Holds : LocalPool → Service → Outcome → Type 0
  Holds p svc out = R p svc out.1 out.2

  assign_from-Holds :
      (fuel family : ℕ) (p : LocalPool) (pos : Ip) (svc : Service)
      → Holds p svc (assign_from net fuel family p pos svc)
  unfolding assign_from
  assign_from-Holds zero family p pos svc = closed.same p svc
  assign_from-Holds (suc fuel) family p [] svc = closed.same p svc
  assign_from-Holds (suc fuel) family p (b ∷ bs) svc =
      elim (Option-cases (available net p (b ∷ bs) svc)) [
        | inl a ↦
            rw (assign_from-taken net family p svc fuel (b ∷ bs) refl a)
              (closed.step p (b ∷ bs) svc)
        | inr (e, a) ↦
            rw (assign_from-skip net family p svc fuel (b ∷ bs) refl a)
              (assign_from-Holds fuel family p (next p (b ∷ bs)) svc)
      ]

  abbrev Steady : (LocalPool → Service → Outcome) → Type 0
  Steady rest = (q : LocalPool) (svc : Service) → Holds q svc (rest q svc)

  assign_family-Holds : (family : ℕ) → Steady (λ p svc. assign_family net p family svc)
  unfolding assign_family
  assign_family-Holds family p svc = assign_from-Holds _ family p (first p family) svc

  module _ (p : LocalPool) (svc : Service) (rest : LocalPool → Service → Outcome)
      (steady : Steady rest) where
    after : (q : LocalPool) (svc' : Service) → R p svc q svc' → Holds p svc (rest q svc')
    after q svc' k = closed.both p q _ svc svc' _ k (steady q svc')

    and_then-Holds : (out : Outcome) → Holds p svc out → Holds p svc (and_then out rest)
    unfolding and_then
    and_then-Holds (none, q, svc') k = after q svc' k
    and_then-Holds (some e, q, svc') k = k

    or_else-Holds : (out : Outcome) → Holds p svc out → Holds p svc (or_else out rest)
    unfolding or_else
    or_else-Holds (none, q, svc') k = k
    or_else-Holds (some out_of_fuel, q, svc') k = k
    or_else-Holds (some _, q, svc') k = after q svc' k

  assign_families-Holds : (families : List ℕ) → Steady (assign_families net families)
  unfolding assign_families
  assign_families-Holds [] p svc = closed.same p svc
  assign_families-Holds (family ∷ families) p svc =
      and_then-Holds p svc (assign_families net families) (assign_families-Holds families)
        (assign_family net p family svc) (assign_family-Holds family p svc)

  assign_in-Holds : (families : List ℕ) → Steady (assign_in net families)
  unfolding assign_in
  assign_in-Holds [] p svc =
      or_else-Holds p svc (λ q svc'. assign_family net q family_v4 svc')
        (assign_family-Holds family_v4) (assign_family net p family_v6 svc)
        (assign_family-Holds family_v6 p svc)
  assign_in-Holds (family ∷ families) p svc = assign_families-Holds (family ∷ families) p svc

  pub assign_next-Holds : Steady (assign_next net)
  unfolding assign_next
  assign_next-Holds p svc = assign_in-Holds (which_families svc.ip_families) p svc
