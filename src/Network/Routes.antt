-- ===== src/Network/Routes.antt =====
-- Which default route defaultInterface of internal/local/network.go takes.
use purelb.Base.{
  ℕ, ◌≡◌, ◌≢◌, refl, inl, inr, false, List, [], ◌∷◌, none, some, All, arith, ltb, ◌==◌, nat_eq,
  if◌then◌else◌, Option-cases, Bool-cases,
}
use purelb.Network.{Route, default_index}

-- Linux numbers links from 1.
abbrev pub HasLink : Route → Type 0
HasLink r = r.link_index ≢ 0

-- The link of the last default route whose metric is below a bound, if there is one.
abbrev pub last_below : ℕ → List Route → ℕ → ℕ
last_below metric [] link = link
last_below metric (r ∷ rs) link =
    last_below metric rs
      (elim r.dst [ some _ ↦ link | none ↦ if ltb r.priority metric then r.link_index else link ])

-- The first default route is compared with all later ones.
abbrev pub first_default : List Route → ℕ
first_default [] = 0
first_default (r ∷ rs) = elim r.dst [
  | some _ ↦ first_default rs
  | none ↦ last_below r.priority rs r.link_index
]

default_index-last_below :
    (rs : List Route) (link metric : ℕ)
    → link ≢ 0
    → All HasLink rs
    → default_index rs (link, metric) ≡ last_below metric rs link
unfolding default_index
default_index-last_below [] link metric ne h = refl
default_index-last_below (r ∷ rs) link metric ne h = elim (Option-cases r.dst) [
  | inr (d, e) ↦ rw e (default_index-last_below rs link metric ne h.1)
  | inl e ↦
      let known : (link == 0) ≡ false = ground arith in
      elim (Bool-cases (ltb r.priority metric)) [
        | inl lower ↦ rw (e, known, lower) (default_index-last_below rs r.link_index metric h.0 h.1)
        | inr higher ↦ rw (e, known, higher) (default_index-last_below rs link metric ne h.1)
      ]
]

-- The link that is taken is that of the first default route, or of the last default route whose
-- metric is below the metric of that first one.
pub default_index-first_default :
    (rs : List Route) → All HasLink rs → default_index rs (0, 0) ≡ first_default rs
unfolding default_index
default_index-first_default [] h = refl
default_index-first_default (r ∷ rs) h = elim (Option-cases r.dst) [
  | inl e ↦ rw e (default_index-last_below rs r.link_index r.priority h.0 h.1)
  | inr (d, e) ↦ rw e (default_index-first_default rs h.1)
]
