-- ===== src/NodeAgent/Disowned.antt =====
-- The part of ServiceChanged in cmd/lbnodeagent/controller.go that takes PureLB's annotations from a
-- service, and what becomes of the service when it comes again.
use purelb.Base.{
  ◌≡◌, refl, ap, ◌∙◌, true, false, List, [], ◌∷◌, String, none, some, arith, ◌==◌, string_eq,
  if◌then◌else◌, not, Option-cases, inl, inr,
}
use purelb.Base.Dict
use purelb.Base.Dict.{get-remove}
use purelb.Service.{Service, annotation, unannotate, text_or_empty, brand_annotation, brand}
use purelb.Controller.{success}
use purelb.NodeAgent.{Announcer, is_ours, is_foreign, disown, service_changed}

-- The annotations by which a node shows that PureLB has the service, and that it announces it.
abbrev pub own_keys : List String
own_keys =
    "purelb.io/allocated-by" ∷ "purelb.io/announcing" ∷ "purelb.io/announcing-IPv4"
    ∷ "purelb.io/announcing-IPv6" ∷ "purelb.io/announcing-unknown" ∷ []

annotation-unannotate :
    (svc : Service) (key at : String)
    → annotation (unannotate svc key) at ≡ (if key == at then none else annotation svc at)
unfolding annotation unannotate
annotation-unannotate svc key at = elim (Option-cases svc.annotations) [
  | inl e ↦ rw (e, annotation) (ground arith)
  | inr (m, e) ↦ rw (e, annotation) (get-remove m key at)
]

-- A service without these annotations, and otherwise the same.
pub record IsDisowned (svc out : Service) : Type 0 where
  pub annotations :
      (key : String)
      → annotation out key ≡ (if Dict.member own_keys key then none else annotation svc key)
  pub rest : out ≡ record svc { annotations = out.annotations }

pub disown-IsDisowned : (svc : Service) → IsDisowned svc (disown svc)
unfolding disown unannotate
disown-IsDisowned svc =
    let a = unannotate svc brand_annotation in
    let b = unannotate a "purelb.io/announcing" in
    let c = unannotate b "purelb.io/announcing-IPv4" in
    let d = unannotate c "purelb.io/announcing-IPv6" in
    record {
      annotations = λ key. ground (
        arith,
        annotation-unannotate d "purelb.io/announcing-unknown" key,
        annotation-unannotate c "purelb.io/announcing-IPv6" key,
        annotation-unannotate b "purelb.io/announcing-IPv4" key,
        annotation-unannotate a "purelb.io/announcing" key,
        annotation-unannotate svc brand_annotation key,
      );
      rest = refl;
    }

-- A disowned service is not one of ours.
is_ours-disown : (svc : Service) → is_ours (disown svc) ≡ false
unfolding is_ours
is_ours-disown svc =
    let gone = (disown-IsDisowned svc).annotations brand_annotation in
    ap (λ o. text_or_empty o == brand) gone

annotations-disown :
    (svc : Service) {m : Dict.Dict String String}
    → svc.annotations ≡ some m
    → (m' : Dict.Dict String String) × ((disown svc).annotations ≡ some m')
unfolding disown unannotate
annotations-disown svc e = rw (e) (_, refl)

is_ours-nil : (svc : Service) → svc.annotations ≡ none → is_ours svc ≡ false
unfolding is_ours annotation
is_ours-nil svc e = rw (e) refl

is_foreign-some :
    (svc : Service) {m : Dict.Dict String String}
    → svc.annotations ≡ some m
    → is_ours svc ≡ false
    → is_foreign svc ≡ true
unfolding is_foreign
is_foreign-some svc e theirs =
    ap (λ o. elim o [ none ↦ false | some _ ↦ not (is_ours svc) ]) e ∙ ap not theirs

-- A service of ours has a map of annotations, which it keeps when it is disowned.
is_foreign-disown : (svc : Service) → is_ours svc ≡ true → is_foreign (disown svc) ≡ true
is_foreign-disown svc ours = elim (Option-cases svc.annotations) [
  | inl e ↦ ground (arith, is_ours-nil svc e)
  | inr (m, e) ↦
      let (m', kept) = annotations-disown svc e in
      is_foreign-some (disown svc) kept (is_ours-disown svc)
]

-- A service that was disowned is left alone when it comes again.
pub service_changed-quiet :
    {S E C F : Type 0} (ann : Announcer S E C F) (ss : List S) (svc : Service) (eps : E)
    → (svc.spec_type == "LoadBalancer") ≡ false
    → is_ours svc ≡ true
    → service_changed ann ss (disown svc) eps ≡ (success, ss, disown svc)
unfolding service_changed
service_changed-quiet ann ss svc eps no_lb ours =
    ground (arith, is_ours-disown svc, is_foreign-disown svc ours)
