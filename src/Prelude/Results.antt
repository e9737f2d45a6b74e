-- ===== src/Prelude/Results.antt =====
-- What a method of the program does: it returns or it throws.
use mathlib.Core.Path.{◌≡◌, refl}
use mathlib.Core.Bool.{Bool, true, false}
use mathlib.Core.Logic.{◌⊎◌, inl, inr}

pub data Result {ℓ} (Thrown : Type 0) (A : Type ℓ) : Type ℓ where
  err : Thrown → Result Thrown A
  ok : A → Result Thrown A

module _ {ℓ} {Thrown : Type 0} {A : Type ℓ} where
  pub Result-cases :
      (r : Result Thrown A) → ((a : A) × (r ≡ ok a)) ⊎ ((thrown : Thrown) × (r ≡ err thrown))
  Result-cases (err thrown) = inr (thrown, refl)
  Result-cases (ok a) = inl (a, refl)

module _ {Thrown : Type 0} where
  -- `if (bad) throw thrown`.
  abbrev pub throw_if : Bool → Thrown → Result Thrown (Unit {0})
  throw_if false thrown = ok tt
  throw_if true thrown = err thrown

infixl 5 ◌>>=◌ ◌>>◌
abbrev pub ◌>>=◌ {ℓ κ} :
    {Thrown : Type 0} {A : Type ℓ} {B : Type κ}
    → Result Thrown A
    → (A → Result Thrown B)
    → Result Thrown B
err thrown >>= next = err thrown
ok a >>= next = next a

abbrev pub ◌>>◌ {κ} :
    {Thrown : Type 0} {B : Type κ} → Result Thrown (Unit {0}) → Result Thrown B → Result Thrown B
check >> next = check >>= λ done. next

-- Of a sequence that returned, both parts did.
pub >>=-eq-ok {ℓ κ} :
    {Thrown : Type 0} {A : Type ℓ} {B : Type κ} (first : Result Thrown A)
    (next : A → Result Thrown B) {b : B}
    → (first >>= next) ≡ ok b
    → (a : A) × (first ≡ ok a) × (next a ≡ ok b)
>>=-eq-ok (err thrown) next returned = cc
>>=-eq-ok (ok a) next returned = (a, refl, returned)
