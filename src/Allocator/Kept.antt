-- ===== src/Allocator/Kept.antt =====
-- The pools of internal/allocator/allocator.go before and after NotifyExisting and Unassign.
use purelb.Base.{
  ◌≡◌, refl, sym, subst, ◌∙◌, inl, inr, some-injective, none-ne-some, Bool, true, false, List, [],
  ◌∷◌, String, Option, none, some, arith, ◌==◌, string_eq, if◌then◌else◌, Bool-cases, Option-cases,
}
use purelb.Base.Dict
use purelb.Base.Dict.{Dict, get-put}
use purelb.Net.{Ip, Parser}
use purelb.Service.{Service, annotation, pool_annotation}
use purelb.Pool.{Error}
use purelb.Pools
use purelb.Pools.{Pool, pool_name, local}
use purelb.Pools.Kept
use purelb.Pools.Kept.{Sound, Evolves, Evolves-refl, Evolves-trans, Evolves-name, Evolves-Sound}
use purelb.Allocator.{
  Allocator, update_stats, put_pool, pool_for, pool_among, released, release_each, unassign, told,
  notify_in, notify_existing,
}

-- A pool that is still there, and is the same but for what it has given out.
abbrev pub Follows : Option Pool → Option Pool → Type 0
Follows none none = Unit
Follows (some p) (some q) = Evolves p q
Follows _ _ = ⊥

-- The same of every entry.
abbrev pub Alike : Dict String Pool → Dict String Pool → Type 0
Alike [] [] = Unit
Alike ((k, p) ∷ m) ((j, q) ∷ n) = (k ≡ j) × Evolves p q × Alike m n
Alike _ _ = ⊥

abbrev pub SamePools : Allocator → Allocator → Type 0
SamePools a b = Alike a.pools b.pools

Alike-refl : (m : Dict String Pool) → Alike m m
Alike-refl [] = tt
Alike-refl ((k, p) ∷ m) = (refl, Evolves-refl p, Alike-refl m)

Alike-trans : (m n o : Dict String Pool) → Alike m n → Alike n o → Alike m o
Alike-trans [] [] o f g = g
Alike-trans ((k, p) ∷ m) ((j, q) ∷ n) ((i, r) ∷ o) f g =
    (f.0 ∙ g.0, Evolves-trans p q r f.1 g.1, Alike-trans m n o f.2 g.2)
Alike-trans (x ∷ m) (y ∷ n) [] f g = absurd g
Alike-trans [] (y ∷ n) o f g = absurd f
Alike-trans (x ∷ m) [] o f g = absurd f

pub Alike-get :
    (m n : Dict String Pool) (name : String)
    → Alike m n
    → Follows (Dict.get m name) (Dict.get n name)
unfolding Dict.get
Alike-get [] [] name f = tt
Alike-get ((k, p) ∷ m) ((j, q) ∷ n) name (e, ev, f) =
    subst (λ x. Follows (Dict.get ((k, p) ∷ m) name) (Dict.get ((x, q) ∷ n) name)) e
      (one (k == name) (Alike-get m n name f))
  where
    one :
        (b : Bool)
        → Follows (Dict.get m name) (Dict.get n name)
        → Follows (if b then some p else Dict.get m name) (if b then some q else Dict.get n name)
    one true h = ev
    one false h = h
Alike-get (x ∷ m) [] name f = absurd f
Alike-get [] (y ∷ n) name f = absurd f

put-Alike :
    (m : Dict String Pool) (name : String) (p q : Pool)
    → Dict.get m name ≡ some p
    → Evolves p q
    → Alike m (Dict.put m name q)
unfolding Dict.get Dict.put
put-Alike [] name p q e ev = absurd (none-ne-some e)
put-Alike ((k, r) ∷ m) name p q e ev = elim (Bool-cases (k == name)) [
  | inl same ↦ rw same (
    (string_eq.beq_iff k name).0 same,
    subst (λ x. Evolves x q) (sym (some-injective (rw same at e))) ev,
    Alike-refl m,
  )
  | inr other ↦ rw other (refl, Evolves-refl r, put-Alike m name p q (rw other at e) ev)
]

pub SamePools-refl : (a : Allocator) → SamePools a a
SamePools-refl a = Alike-refl a.pools

pub SamePools-trans : (a b c : Allocator) → SamePools a b → SamePools b c → SamePools a c
SamePools-trans a b c f g = Alike-trans a.pools b.pools c.pools f g

pub put_pool-SamePools :
    (a : Allocator) (name : String) (p q : Pool)
    → Dict.get a.pools name ≡ some p
    → Evolves p q
    → SamePools a (put_pool a name q)
unfolding put_pool
put_pool-SamePools a name p q e ev = put-Alike a.pools name p q e ev

get-released :
    (name at : String) (out : Option Error × Pool) (a : Allocator)
    → Dict.get (released name out a).pools at
      ≡ (if name == at then some out.1 else Dict.get a.pools at)
unfolding released Dict.get update_stats
get-released name at (none, p) a = refl
get-released name at (some e, p) a = refl

module _ (net : Parser) where
  -- What a pool is after the Release of a service.
  abbrev pub without : String → Option Pool → Option Pool
  without svc none = none
  without svc (some p) = some (Pools.release net p svc).1

  get-release_each :
      (svc at : String) (pools : Dict String Pool) (a : Allocator)
      → Dict.get (release_each net svc pools a).pools at ≡ without svc (Dict.get pools at)
  unfolding release_each Dict.get
  get-release_each svc at [] a = refl
  get-release_each svc at ((name, p) ∷ pools) a =
      get-released name at (Pools.release net p svc) (release_each net svc pools a)
      ∙ one (name == at) (get-release_each svc at pools a)
    where
      one :
          (b : Bool)
          → Dict.get (release_each net svc pools a).pools at ≡ without svc (Dict.get pools at)
          → (if b
              then some (Pools.release net p svc).1
              else Dict.get (release_each net svc pools a).pools at)
            ≡ without svc (if b then some p else Dict.get pools at)
      one true h = refl
      one false h = h

  -- Unassign leaves the same pools under the same names, each as its own Release of the service
  -- leaves it.
  pub get-unassign :
      (a : Allocator) (svc at : String)
      → Dict.get (unassign net a svc).pools at ≡ without svc (Dict.get a.pools at)
  unfolding unassign
  get-unassign a svc at = get-release_each svc at a.pools a

  release_each-Alike :
      (svc : String) (pools : Dict String Pool) (a : Allocator)
      → Alike pools (release_each net svc pools a).pools
  unfolding release_each released update_stats
  release_each-Alike svc [] a = tt
  release_each-Alike svc ((name, p) ∷ pools) a =
      one (Pools.release net p svc) (Kept.release-Evolves net p svc)
        (release_each-Alike svc pools a)
    where
      one :
          (out : Option Error × Pool)
          → Evolves p out.1
          → Alike pools (release_each net svc pools a).pools
          → Alike ((name, p) ∷ pools) (released name out (release_each net svc pools a)).pools
      one (none, q) ev rest = (refl, ev, rest)
      one (some _, q) ev rest = (refl, ev, rest)

  pub unassign-SamePools : (a : Allocator) (svc : String) → SamePools a (unassign net a svc)
  unfolding unassign
  unassign-SamePools a svc = release_each-Alike svc a.pools a

  told-SamePools :
      (a : Allocator) (name : String) (p : Pool) (out : Option Error × Pool)
      → Dict.get a.pools name ≡ some p
      → Evolves p out.1
      → SamePools a (told a name out).1
  unfolding told update_stats
  told-SamePools a name p (none, q) e ev = put_pool-SamePools a name p q e ev
  told-SamePools a name p (some _, q) e ev = put_pool-SamePools a name p q e ev

  notify_in-SamePools :
      (a : Allocator) (svc : Service) (name : String) (found : Option Pool)
      → Dict.get a.pools name ≡ found
      → SamePools a (notify_in net a svc name found).1
  unfolding notify_in
  notify_in-SamePools a svc name none e = SamePools-refl a
  notify_in-SamePools a svc name (some p) e =
      told-SamePools a name p (Pools.notify net p svc) e (Kept.notify-Evolves net p svc)

  pub notify_existing-SamePools :
      (a : Allocator) (svc : Service) → SamePools a (notify_existing net a svc).1
  unfolding notify_existing
  notify_existing-SamePools a svc = elim (Option-cases (annotation svc pool_annotation)) [
    | inl e ↦ rw (e, notify_existing) (SamePools-refl a)
    | inr (name, e) ↦
        rw (e, notify_existing) (notify_in-SamePools a svc name (Dict.get a.pools name) refl)
  ]

  pub pool_for-get :
      (pools : Dict String Pool) (ip : Ip) {found : String × Pool}
      → pool_for net pools ip ≡ some found
      → Dict.get pools found.0 ≡ some found.1
  unfolding pool_for pool_among
  pool_for-get pools ip {found} h = pool_among-get (Dict.keys pools) h
    where
      pool_among-get :
          (names : List String)
          → pool_among net pools names ip ≡ some found
          → Dict.get pools found.0 ≡ some found.1
      pool_among-get [] h = cc
      pool_among-get (name ∷ names) h = ground (arith, pool_among-get names)
