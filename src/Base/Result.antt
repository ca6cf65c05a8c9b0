-- ===== src/Base/Result.antt =====
-- Go's pair of a value and an error: one of them is the answer.
use mathlib.Core.Path.{◌≡◌, refl}
use mathlib.Core.Logic.{◌≢◌, ◌⊎◌, inl, inr}
use mathlib.Core.Bool.{Bool, true, false}
use mathlib.Core.Option.{Option, none, some}

pub data Result {ℓ} (E A : Type ℓ) : Type ℓ where
  ok : A → Result E A
  err : E → Result E A

infixl 5 ◌>>=◌ ◌>>◌
abbrev pub ◌>>=◌ {ℓ} : {E A B : Type ℓ} → Result E A → (A → Result E B) → Result E B
err e >>= next = err e
ok a >>= next = next a

pub ok-injective {ℓ} : {E A : Type ℓ} {a b : A} → ◌≡◌ {A = Result E A} (ok a) (ok b) → a ≡ b
ok-injective h = cc

abbrev pub ◌>>◌ : {E A : Type 0} → Result E (Unit {0}) → Result E A → Result E A
test >> rest = test >>= λ _. rest

pub >>=-eq-ok {ℓ} :
    {E A B : Type ℓ} (first : Result E A) (next : A → Result E B) {last : B}
    → (first >>= next) ≡ ok last
    → (found : A) × (first ≡ ok found) × (next found ≡ ok last)
>>=-eq-ok (err e) next h = cc
>>=-eq-ok (ok found) next h = (found, refl, h)

-- `if (!test) return err`.
abbrev pub guard : {E : Type 0} → Bool → E → Result E (Unit {0})
guard false error = err error
guard true error = ok tt

pub Result-cases {ℓ} :
    {E A : Type ℓ} (m : Result E A) → ((a : A) × (m ≡ ok a)) ⊎ ((e : E) × (m ≡ err e))
Result-cases (ok a) = inl (a, refl)
Result-cases (err e) = inr (e, refl)

pub err-ne-ok {ℓ} : {E A : Type ℓ} {e : E} {a : A} → ◌≢◌ {A = Result E A} (err e) (ok a)
err-ne-ok h = cc

-- A call that may fail and that changes a state either way: what follows it runs if it did not fail.
abbrev pub on_success : {E S : Type 0} → Option E × S → (S → Option E × S) → Option E × S
on_success (none, s) next = next s
on_success (some e, s) next = (some e, s)

pub on_success-eq_none :
    {E S : Type 0} (first : Option E × S) (next : S → Option E × S) {last : S}
    → on_success first next ≡ (none, last)
    → (s : S) × (first ≡ (none, s)) × (next s ≡ (none, last))
on_success-eq_none (none, s) next h = (s, refl, h)
on_success-eq_none (some e, s) next h = cc
