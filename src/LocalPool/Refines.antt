-- ===== src/LocalPool/Refines.antt =====
-- The local pool of internal/allocator/localpool.go does what its specification allows.
use purelb.Base.{
  ◌≡◌, refl, sym, ap, ◌∙◌, inl, inr, Bool, true, false, List, [], ◌∷◌, String, Option, none, some,
  arith, string_eq, Option-cases, none-ne-some, ◌⊎◌,
}
use purelb.Base.Dict
use purelb.Base.Dict.{Dict}
use purelb.Net.{Ip, Parser}
use purelb.Service.{Service, port_eq, add_ingress}
use purelb.Pool.{Error}
use purelb.LocalPool.{LocalPool, Outcome, inner, available, available_text}
use purelb.LocalPool
use purelb.LocalPool.Views.{users, user, owner}
use purelb.LocalPool.Invariant.{Inv, notify-Inv, release-Inv}
use purelb.LocalPool.Notify.{notify-IsNotified}
use purelb.LocalPool.Release.{user-release, owner-release, key-release}
use purelb.LocalPool.Sharing.{MayUse, available_iff}
use purelb.LocalPool.Search.{assign-some, assign-none}
use purelb.LocalPool.Spec.{
  View, Op, notify, release, assign, Allowed, Noted, Freed, Step, notified, released, granted,
  refused, Run, done, then_op,
}

abbrev pub is_some {ℓ} : {A : Type ℓ} → Option A → Bool
is_some none = false
is_some (some a) = true

abbrev pub view : LocalPool → View
view p = record {
  uses = λ at s. is_some (user p at s);
  owner = λ at q. owner p at q;
  key = λ at. Dict.get p.sharing_keys at;
}

pub no_user : {V : Type 0} (m : Dict String V) → ((s : String) → Dict.get m s ≡ none) → m ≡ []
unfolding Dict.get
no_user [] h = refl
no_user ((k, v) ∷ m) h = ground (arith, h k, string_eq.beq_iff k k)

module _ (net : Parser) where
  -- The pool after an operation.
  unfoldable pub apply : LocalPool → Op → LocalPool
  apply p (notify svc) = LocalPool.notify net p svc
  apply p (release name) = LocalPool.release p name
  apply p (assign ip svc) = (LocalPool.assign net p ip svc).1

  unfoldable pub run : LocalPool → List Op → LocalPool
  unfolding apply
  run p [] = p
  run p (op ∷ ops) = run (apply p op) ops

  notify-Noted :
      (p : LocalPool) (svc : Service) → Noted net svc (view p) (view (LocalPool.notify net p svc))
  notify-Noted p svc =
      let n = notify-IsNotified net p svc in
      record {
        uses = λ at s. ground (arith, n.users_of at s);
        owner = n.owners_of;
        key = n.keys_of;
      }

  pub unused-keyless :
      (p : LocalPool) (at : String)
      → Inv p
      → ((s : String) → is_some (user p at s) ≡ false)
      → Dict.get p.sharing_keys at ≡ none
  unused-keyless p at v h =
      let empty = no_user (users p at) (λ s. ground (arith, h s)) in
      ground (arith, v.keyed at, v.occupied at, empty)

  release-Freed :
      (p : LocalPool) (name : String)
      → Inv p
      → Freed net name (view p) (view (LocalPool.release p name))
  release-Freed p name v = record {
    uses = λ at s. ground (arith, user-release p name at s);
    owner = λ at q. owner-release p name at q v;
    key_kept = λ at s used. kept at s (Option-cases (user p at s)) used;
    key_dropped =
        λ at free. unused-keyless (LocalPool.release p name) at (release-Inv p name v) free;
  }
    where
      kept :
          (at s : String)
          → (user p at s ≡ none) ⊎ ((b : Bool) × (user p at s ≡ some b))
          → is_some (user (LocalPool.release p name) at s) ≡ true
          → Dict.get (LocalPool.release p name).sharing_keys at ≡ Dict.get p.sharing_keys at
      kept at s (inl e) used = absurd (ground (arith, user-release p name at s))
      kept at s (inr (b, e)) used =
          key-release p name at s
            (ground (arith, user-release p name at s, string_eq.beq_iff name s)) e

  MayUse-Allowed :
      (p : LocalPool) (at : String) (svc : Service) → MayUse p at svc → Allowed (view p) at svc
  MayUse-Allowed p at svc m = record {
    shares = λ s used ne. m.0 s (ground arith) ne;
    unclaimed = m.1;
  }

  Allowed-MayUse :
      (p : LocalPool) (at : String) (svc : Service) → Allowed (view p) at svc → MayUse p at svc
  Allowed-MayUse p at svc a = (λ s used ne. a.shares s (ground arith) ne, a.unclaimed)

  pub apply-granted :
      (p : LocalPool) (ip : Ip) (svc : Service)
      → available net p ip svc ≡ none
      → apply p (assign ip svc) ≡ LocalPool.notify net p (add_ingress svc (net.ip_string ip))
  unfolding apply
  apply-granted p ip svc e = ap (λ (r : Outcome). r.1) (assign-none net p ip svc e)

  pub apply-refused :
      (p : LocalPool) (ip : Ip) (svc : Service) {f : Error}
      → available net p ip svc ≡ some f
      → apply p (assign ip svc) ≡ p
  unfolding apply
  apply-refused p ip svc e = ap (λ (r : Outcome). r.1) (assign-some net p ip svc e)

  pub open_available :
      (p : LocalPool) (ip : Ip) (svc : Service)
      → available_text p (net.ip_string ip) svc ≡ available net p ip svc
  unfolding available
  open_available p ip svc = refl

  -- Each operation of a pool that keeps its invariant is a step of the specification.
  pub apply-Step : (p : LocalPool) (op : Op) → Inv p → Step net (view p) op (view (apply p op))
  apply-Step p (notify svc) v = unfold apply in notified _ _ svc (notify-Noted p svc)
  apply-Step p (release name) v = unfold apply in released _ _ name (release-Freed p name v)
  apply-Step p (assign ip svc) v = elim (Option-cases (available net p ip svc)) [
    | inl e ↦ rw (apply-granted p ip svc e) (
        granted _ _ ip svc
          (MayUse-Allowed p (net.ip_string ip) svc
            ((available_iff p (net.ip_string ip) svc v).0 (open_available p ip svc ∙ e)))
          (notify-Noted p (add_ingress svc (net.ip_string ip))))
    | inr (f, e) ↦ rw (apply-refused p ip svc e) (
        refused _ ip svc (λ a. none-ne-some (
          sym (
            (available_iff p (net.ip_string ip) svc v).1
              (Allowed-MayUse p (net.ip_string ip) svc a))
          ∙ open_available p ip svc
          ∙ e)))
  ]

  apply-Inv : (p : LocalPool) (op : Op) → Inv p → Inv (apply p op)
  apply-Inv p (notify svc) v = unfold apply in notify-Inv net p svc v
  apply-Inv p (release name) v = unfold apply in release-Inv p name v
  apply-Inv p (assign ip svc) v = elim (Option-cases (available net p ip svc)) [
    | inl e ↦ rw (apply-granted p ip svc e) (notify-Inv net p _ v)
    | inr (f, e) ↦ rw (apply-refused p ip svc e) v
  ]

  -- From a pool that keeps its invariant, every sequence of operations runs as the specification
  -- allows, step by step, and ends with the invariant.
  pub run_refines :
      (ops : List Op) (p : LocalPool)
      → Inv p
      → Run net (view p) ops (view (run p ops)) × Inv (run p ops)
  unfolding run
  run_refines [] p v = (done (view p), v)
  run_refines (op ∷ ops) p v =
      let (rest, kept) = run_refines ops (apply p op) (apply-Inv p op v) in
      (then_op _ _ _ op ops (apply-Step p op v) rest, kept)
