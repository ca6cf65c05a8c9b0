-- ===== src/Allocator/Config.antt =====
-- The pools that parseGroups of internal/allocator/allocator.go makes, as a configuration.
use purelb.Base.{
  ◌≡◌, ◌≢◌, refl, subst, ◌∙◌, ◌⊎◌, inl, inr, some-injective, none-ne-some, All, false, List, [],
  ◌∷◌, String, Option, none, some, arith, ◌==◌, string_eq, Bool-cases, Option-cases,
}
use purelb.Base.Dict
use purelb.Base.Dict.{Dict, get-put, All-put, Once, put-Once}
use purelb.Base.Result.{Result, ok, err}
use purelb.Net.{Parser, IsParser}
use purelb.ServiceGroup.{ServiceGroup}
use purelb.Pool.{Error}
use purelb.NetboxPool.{Environment}
use purelb.Pools.{Pool, pool_name, parse_pool, overlaps}
use purelb.Pools.Kept.{Sound, Evolves, Evolves-overlaps, Evolves-name, Evolves-Sound}
use purelb.Pools.Parsed.{IsNew, parse_pool-IsNew}
use purelb.Allocator.Kept.{Follows, Alike, Alike-get}
use purelb.Allocator.Parse.{overlaps_any, add_group, parse_onto, parse_groups}

abbrev pub IsNamed : String × Pool → Type 0
IsNamed (name, p) = pool_name p ≡ name

-- A name has one pool, and each pool has the name it is filed under and keeps its invariant, and of two pools one at
-- least does not see an overlap with the other.
pub record IsConfig (m : Dict String Pool) : Type 0 where
  pub once : Once m
  pub named : All IsNamed m
  pub sound : (name : String) (p : Pool) → Dict.get m name ≡ some p → Sound p
  pub apart :
      (m1 m2 : String) (p q : Pool)
      → m1 ≢ m2
      → Dict.get m m1 ≡ some p
      → Dict.get m m2 ≡ some q
      → (overlaps p q ≡ false) ⊎ (overlaps q p ≡ false)

pub nil-IsConfig : IsConfig []
unfolding Dict.get
nil-IsConfig = record {
  once = tt;
  named = tt;
  sound = λ n p e. absurd (none-ne-some e);
  apart = λ m n p q d e f. absurd (none-ne-some e);
}

overlaps_any-get :
    (p : Pool) (pools : Dict String Pool) (name : String) (q : Pool)
    → overlaps_any p pools ≡ false
    → Dict.get pools name ≡ some q
    → overlaps p q ≡ false
unfolding overlaps_any Dict.get
overlaps_any-get p [] name q h e = cc
overlaps_any-get p ((n, r) ∷ pools) name q h e = ground (arith, overlaps_any-get p pools name q)

pub put-IsConfig :
    (m : Dict String Pool) (name : String) (p : Pool)
    → IsConfig m
    → pool_name p ≡ name
    → Sound p
    → overlaps_any p m ≡ false
    → IsConfig (Dict.put m name p)
put-IsConfig m name p c nm v free = record {
  once = put-Once m name p c.once;
  named = All-put IsNamed m name p c.named nm;
  sound = λ n q e. elim (Bool-cases (name == n)) [
    | inl same ↦ subst Sound (some-injective (rw (get-put m name n p, same) at e)) v
    | inr other ↦ c.sound n q (rw (get-put m name n p, other) at e)
  ];
  apart = λ n1 n2 q r d e f. ground (
    arith,
    get-put m name n1 p,
    get-put m name n2 p,
    string_eq.beq_iff name n1,
    string_eq.beq_iff name n2,
    c.apart n1 n2 q r,
    overlaps_any-get p m n1 q free,
    overlaps_any-get p m n2 r free,
  );
}

add_group-IsConfig :
    (m : Dict String Pool) (name : String) (parsed : Result Error Pool)
    → ((p : Pool) → parsed ≡ ok p → IsNew name p)
    → IsConfig m
    → IsConfig (add_group m name parsed)
unfolding add_group
add_group-IsConfig m name (err e) new c = c
add_group-IsConfig m name (ok p) new c = elim (Option-cases (Dict.get m name)) [
  | inr (q, e) ↦ rw (e, add_group) c
  | inl e ↦ elim (Bool-cases (overlaps_any p m)) [
    | inl meets ↦ rw (e, add_group, meets) c
    | inr free ↦
        let fresh = new p refl in
        rw (e, add_group, free) (put-IsConfig m name p c fresh.named fresh.sound free)
  ]
]

Alike-IsNamed : (m n : Dict String Pool) → Alike m n → All IsNamed m → All IsNamed n
Alike-IsNamed [] [] f h = tt
Alike-IsNamed ((k, p) ∷ m) ((j, q) ∷ n) (e, ev, f) h =
    (Evolves-name p q ev ∙ h.0 ∙ e, Alike-IsNamed m n f h.1)
Alike-IsNamed (x ∷ m) [] f h = absurd f
Alike-IsNamed [] (y ∷ n) f h = absurd f

Alike-Once : (m n : Dict String Pool) → Alike m n → Once m → Once n
Alike-Once [] [] f h = tt
Alike-Once ((k, p) ∷ m) ((j, q) ∷ n) (e, ev, f) h = (
  subst (λ x. Dict.get n x ≡ none) e (gone (Dict.get n k) (rw h.0 at (Alike-get m n k f))),
  Alike-Once m n f h.1,
)
  where
    gone : (o : Option Pool) → Follows none o → o ≡ none
    gone none f = refl
    gone (some p) f = absurd f
Alike-Once (x ∷ m) [] f h = absurd f
Alike-Once [] (y ∷ n) f h = absurd f

-- The pool that a later one has come from.
Alike-origin :
    (m n : Dict String Pool) (name : String) (q : Pool)
    → Alike m n
    → Dict.get n name ≡ some q
    → (p : Pool) × (Dict.get m name ≡ some p) × Evolves p q
Alike-origin m n name q f e = elim (Option-cases (Dict.get m name)) [
  | inl h ↦ absurd (rw (h, e) at (Alike-get m n name f))
  | inr (p, h) ↦ (p, h, rw (h, e) at (Alike-get m n name f))
]

-- A configuration stays one while its pools give out addresses and take them back.
pub Alike-IsConfig : (m n : Dict String Pool) → Alike m n → IsConfig m → IsConfig n
Alike-IsConfig m n f c = record {
  once = Alike-Once m n f c.once;
  named = Alike-IsNamed m n f c.named;
  sound = λ name q e.
      let (p, h, ev) = Alike-origin m n name q f e in Evolves-Sound p q ev (c.sound name p h);
  apart = λ n1 n2 q s d e1 e2.
      let (p, h1, ev) = Alike-origin m n n1 q f e1 in
      let (r, h2, ew) = Alike-origin m n n2 s f e2 in
      elim (c.apart n1 n2 p r d h1 h2) [
        | inl a ↦ inl (Evolves-overlaps p q r s ev ew ∙ a)
        | inr a ↦ inr (Evolves-overlaps r s p q ew ev ∙ a)
      ];
}

module _ (net : Parser) (good : IsParser net) (env : Environment) where
  parse_onto-IsConfig :
      (groups : List ServiceGroup) (m : Dict String Pool)
      → IsConfig m
      → IsConfig (parse_onto net env groups m)
  unfolding parse_onto
  parse_onto-IsConfig [] m c = c
  parse_onto-IsConfig (group ∷ groups) m c = parse_onto-IsConfig groups _ (
      add_group-IsConfig m group.name (parse_pool net env group.name group.spec)
        (λ p e. parse_pool-IsNew net good env group.name group.spec e) c)

  -- Whatever the groups, the pools that parseGroups makes of them are a configuration: each has
  -- the name of its group and its invariant, and of two of them one at least sees no overlap with
  -- the other.
  pub parse_groups-IsConfig : (groups : List ServiceGroup) → IsConfig (parse_groups net env groups)
  unfolding parse_groups
  parse_groups-IsConfig groups = parse_onto-IsConfig groups [] nil-IsConfig
