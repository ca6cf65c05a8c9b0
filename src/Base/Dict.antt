-- ===== src/Base/Dict.antt =====
-- Go's maps, as association lists with at most one entry for a key. A range over a map is a pass
-- over the entries, in an order that Go leaves open; a deleted or a new key changes no other.
use mathlib.Core.Path.{◌≡◌, refl, subst, ◌∙◌}
use mathlib.Core.Logic.{◌≢◌, inl, inr}
use mathlib.Core.Bool.{Bool, false, ◌||◌}
use purelb.Base.Lists.{is_nil, All}
use mathlib.Core.Option.{Option, none, some}
use mathlib.Core.List.{List, [], ◌∷◌}
use native.Mathlib.Omega.{arith}
use purelb.Base.Tests.{Eq, none-ne-some, some-injective, Bool-cases, ◌==◌, ==-refl, if◌then◌else◌}

abbrev pub Dict {ℓ κ} : Type ℓ → Type κ → Type (ℓ ⊔ κ)
Dict K V = List (K × V)

module _ {ℓ} {K : Type ℓ} ⦃e : Eq K⦄ where
  abbrev pub member : List K → K → Bool
  member [] k = false
  member (j ∷ js) k = j == k || member js k

module _ {ℓ κ} {K : Type ℓ} {V : Type κ} ⦃e : Eq K⦄ where
  -- v, ok := m[k]
  unfoldable pub get : Dict K V → K → Option V
  get [] k = none
  get ((j, v) ∷ m) k = if j == k then some v else get m k

  -- m[k] = v
  unfoldable pub put : Dict K V → K → V → Dict K V
  put [] k v = (k, v) ∷ []
  put ((j, w) ∷ m) k v = if j == k then (k, v) ∷ m else (j, w) ∷ put m k v

  -- delete(m, k)
  unfoldable pub remove : Dict K V → K → Dict K V
  remove [] k = []
  remove ((j, w) ∷ m) k = let rest = remove m k in if j == k then rest else (j, w) ∷ rest

  pub get-put :
      (m : Dict K V) (k j : K) (v : V) → get (put m k v) j ≡ (if k == j then some v else get m j)
  unfolding get put
  get-put [] k j v = refl
  get-put ((i, w) ∷ m) k j v =
      ground (arith, e.beq_iff k j, e.beq_iff i k, e.beq_iff i j, get-put m k j v)

  pub get-remove :
      (m : Dict K V) (k j : K) → get (remove m k) j ≡ (if k == j then none else get m j)
  unfolding get remove
  get-remove [] k j = ground arith
  get-remove ((i, w) ∷ m) k j =
      ground (arith, e.beq_iff k j, e.beq_iff i k, e.beq_iff i j, get-remove m k j)

  pub get-put_self : (m : Dict K V) (k : K) (v : V) → get (put m k v) k ≡ some v
  get-put_self m k v = rw (get-put, ==-refl k)

  pub get-remove_self : (m : Dict K V) (k : K) → get (remove m k) k ≡ none
  get-remove_self m k = rw (get-remove, ==-refl k)

  pub put-ne-nil : (m : Dict K V) (k : K) (v : V) → put m k v ≢ []
  unfolding put
  put-ne-nil [] k v h = cc
  put-ne-nil ((j, w) ∷ m) k v h = ground arith

  pub remove-nil : (k : K) → ◌≡◌ {A = Dict K V} (remove [] k) []
  unfolding remove
  remove-nil k = refl

  abbrev pub keys : Dict K V → List K
  keys [] = []
  keys ((k, v) ∷ m) = k ∷ keys m

  pub get-keys : (m : Dict K V) (k : K) → member (keys m) k ≡ false → get m k ≡ none
  unfolding get
  get-keys [] k h = refl
  get-keys ((j, w) ∷ m) k h = ground (arith, get-keys m k)

  pub get-is_nil : (m : Dict K V) (k : K) {v : V} → get m k ≡ some v → is_nil m ≡ false
  unfolding get
  get-is_nil [] k h = cc
  get-is_nil (x ∷ m) k h = refl

  pub get-nil : (k : K) → ◌≡◌ {A = Option V} (get [] k) none
  unfolding get
  get-nil k = refl

  pair : {j k : K} {w v : V} → j ≡ k → w ≡ v → ◌≡◌ {A = K × V} (j, w) (k, v)
  pair f g = cc

  -- What holds of every entry holds of what is found, and of a new entry among them.
  pub All-get {μ} :
      (P : K × V → Type μ) (m : Dict K V) (k : K) (v : V) → All P m → get m k ≡ some v → P (k, v)
  unfolding get
  All-get P [] k v h found = absurd (none-ne-some found)
  All-get P ((j, w) ∷ m) k v h found = elim (Bool-cases (j == k)) [
    | inl same ↦ subst P (pair ((e.beq_iff j k).0 same) (some-injective (rw same at found))) h.0
    | inr other ↦ All-get P m k v h.1 (rw other at found)
  ]

  pub All-put {μ} :
      (P : K × V → Type μ) (m : Dict K V) (k : K) (v : V) → All P m → P (k, v) → All P (put m k v)
  unfolding put
  All-put P [] k v h new = (new, tt)
  All-put P ((j, w) ∷ m) k v h new = elim (Bool-cases (j == k)) [
    | inl same ↦ rw same (new, h.1)
    | inr other ↦ rw other (h.0, All-put P m k v h.1 new)
  ]

  -- Each key has one entry.
  abbrev pub Once : Dict K V → Type (ℓ ⊔ κ)
  Once [] = Unit
  Once ((k, v) ∷ m) = (get m k ≡ none) × Once m

  pub put-Once : (m : Dict K V) (k : K) (v : V) → Once m → Once (put m k v)
  unfolding put
  put-Once [] k v h = (get-nil k, tt)
  put-Once ((j, w) ∷ m) k v h = elim (Bool-cases (j == k)) [
    | inl same ↦ rw same (subst (λ x. get m x ≡ none) ((e.beq_iff j k).0 same) h.0, h.1)
    | inr other ↦
        rw other
          (get-put m k j v ∙ ground (arith, e.beq_iff k j, e.beq_iff j k), put-Once m k v h.1)
  ]
