-- ===== src/LocalPool/Exclusive.antt =====
-- AssignNext of internal/allocator/localpool.go and the services other than the one it is for.
use purelb.Base.{
  ◌≡◌, ◌≢◌, refl, subst, ◌∙◌, ◌⊎◌, inl, inr, true, List, [], ◌∷◌, ◌++◌, String, none, some, arith,
  string_eq, Option-cases,
}
use purelb.Net.{Ip, Parser}
use purelb.Service.{Service, Port, port_eq, service_ports, namespaced_name, add_ingress}
use purelb.LocalPool.{LocalPool, Outcome, available, assign, notify}
use purelb.LocalPool.Views.{user, owner, has_port}
use purelb.LocalPool.Steps.{Closed, Relation, assign_next-Holds}
use purelb.LocalPool.Invariant.{Inv, notify-Inv}
use purelb.LocalPool.Sharing.{Unclaimed, available_iff}
use purelb.LocalPool.Notify.{noted, notify-IsNotified}
use purelb.LocalPool.Search.{assign-some, assign-none}
use purelb.LocalPool.Assign.{assign_next}

-- On the addresses that a service has, none of its ports is another's.
abbrev pub Claims : Parser → LocalPool → Service → Type 0
Claims net p svc = (at : String) → noted net svc.ingress at ≡ true → Unclaimed p at svc

-- What every operation on behalf of one service keeps of all the others.
pub record Keeps (net : Parser) (p : LocalPool) (svc : Service) (q : LocalPool) (svc' : Service)
    : Type 0 where
  pub inv : Inv q
  pub claims : Claims net q svc'
  pub same_name : namespaced_name svc' ≡ namespaced_name svc
  pub ports_kept :
      (at : String) (port : Port) (s : String)
      → s ≢ namespaced_name svc
      → owner p at port ≡ some s
      → owner q at port ≡ some s
  pub users_kept : (at s : String) → s ≢ namespaced_name svc → user q at s ≡ user p at s

abbrev pub KeepsAll : Parser → LocalPool → Service → Outcome → Type 0
KeepsAll net p svc out = Keeps net p svc out.1 out.2

module _ (net : Parser) where
  Keeps-refl : (p : LocalPool) (svc : Service) → Inv p → Claims net p svc → Keeps net p svc p svc
  Keeps-refl p svc v c = record {
    inv = v;
    claims = c;
    same_name = refl;
    ports_kept = λ at port s ne h. h;
    users_kept = λ at s ne. refl;
  }

  Keeps-trans :
      {p q r : LocalPool} {svc svc' svc'' : Service}
      → Keeps net p svc q svc'
      → Keeps net q svc' r svc''
      → Keeps net p svc r svc''
  Keeps-trans a b = record {
    inv = b.inv;
    claims = b.claims;
    same_name = b.same_name ∙ a.same_name;
    ports_kept = λ at port s ne h.
        b.ports_kept at port s (λ e. ne (e ∙ a.same_name)) (a.ports_kept at port s ne h);
    users_kept = λ at s ne. b.users_kept at s (λ e. ne (e ∙ a.same_name)) ∙ a.users_kept at s ne;
  }

  noted-append :
      (ips : List String) (t at : String)
      → noted net (ips ++ t ∷ []) at ≡ true
      → (noted net ips at ≡ true) ⊎ (t ≡ at)
  noted-append [] t at h = ground (arith, string_eq.beq_iff t at)
  noted-append (ip ∷ ips) t at h = ground (arith, noted-append ips t at)

  add_ingress-Unclaimed :
      (p : LocalPool) (svc : Service) (t : String)
      → Claims net p svc
      → Unclaimed p t svc
      → (at : String) → noted net (add_ingress svc t).ingress at ≡ true
      → Unclaimed p at svc
  unfolding add_ingress
  add_ingress-Unclaimed p svc t c free at h = elim (noted-append svc.ingress t at h) [
    | inl old ↦ c at old
    | inr new ↦ subst (λ x. Unclaimed p x svc) new free
  ]

  -- Notify of a service whose ports are free on the addresses that it has.
  notify-Keeps :
      (p : LocalPool) (svc : Service)
      → Inv p
      → Claims net p svc
      → Keeps net p svc (notify net p svc) svc
  notify-Keeps p svc v c =
      let told = notify-IsNotified net p svc in
      record {
        inv = notify-Inv net p svc v;
        claims = λ at h port s has o. ground (arith, told.owners_of at port, c at h port s has);
        same_name = refl;
        ports_kept = λ at port s ne h. ground (
          arith,
          told.owners_of at port,
          c at,
          λ (n : noted net svc.ingress at ≡ true) (has : has_port (service_ports svc) port ≡ true).
              c at n port s has h,
        );
        users_kept = λ at s ne.
            ground (arith, told.users_of at s, string_eq.beq_iff (namespaced_name svc) s);
      }

  module _ (p : LocalPool) (svc : Service) (v : Inv p) (c : Claims net p svc) where
    add_ingress-Keeps : (t : String) → Unclaimed p t svc → Keeps net p svc p (add_ingress svc t)
    unfolding add_ingress namespaced_name service_ports
    add_ingress-Keeps t free = record {
      inv = v;
      claims = add_ingress-Unclaimed p svc t c free;
      same_name = refl;
      ports_kept = λ at port s ne h. h;
      users_kept = λ at s ne. refl;
    }

    free_of_others : (ip : Ip) → available net p ip svc ≡ none → Unclaimed p (net.ip_string ip) svc
    unfolding available
    free_of_others ip a = ((available_iff p (net.ip_string ip) svc v).0 a).1

    assign-Keeps : (ip : Ip) → KeepsAll net p svc (assign net p ip svc)
    assign-Keeps ip = elim (Option-cases (available net p ip svc)) [
      | inl a ↦
          let step = add_ingress-Keeps (net.ip_string ip) (free_of_others ip a) in
          rw (assign-none net p ip svc a)
            (Keeps-trans step (notify-Keeps p (add_ingress svc (net.ip_string ip)) v step.claims))
      | inr (e, a) ↦ rw (assign-some net p ip svc a) (Keeps-refl p svc v c)
    ]

  -- The same from any pool and service that keep their conditions.
  abbrev Kept : Relation
  Kept p svc q svc' = Inv p → Claims net p svc → Keeps net p svc q svc'

  Kept-Closed : Closed net Kept
  Kept-Closed = record {
    same = λ p svc v c. Keeps-refl p svc v c;
    both = λ p q r svc svc' svc'' a b v c. let k = a v c in Keeps-trans k (b k.inv k.claims);
    step = λ p ip svc v c. assign-Keeps p svc v c ip;
  }

  -- From a pool that keeps its invariant and a service none of whose ports is another's on the
  -- addresses that it has (such as one with no address), AssignNext keeps both, whether or not it
  -- fails, and every other service keeps its addresses and its ports.
  pub assign_next-Keeps :
      (p : LocalPool) (svc : Service)
      → Inv p
      → Claims net p svc
      → KeepsAll net p svc (assign_next net p svc)
  assign_next-Keeps p svc v c = assign_next-Holds net Kept Kept-Closed p svc v c
