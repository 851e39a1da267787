-- ===== src/Base/Errors.antt =====
-- Go's `(value, error)` results.
use mathlib.Core.Path.{◌≡◌, refl}
use mathlib.Core.Bool.{Bool, true, false}

pub data Result {ℓ κ} (E : Type ℓ) (A : Type κ) : Type (ℓ ⊔ κ) where
  ok : A → Result E A
  err : E → Result E A

infixl 5 ◌>>=◌ ◌>>◌
abbrev pub ◌>>=◌ {ℓ κ μ} :
    {E : Type ℓ} {A : Type κ} {B : Type μ} → Result E A → (A → Result E B) → Result E B
ok a >>= f = f a
err e >>= f = err e

abbrev pub ◌>>◌ {ℓ μ} : {E : Type ℓ} {B : Type μ} → Result E (Unit {0}) → Result E B → Result E B
m >> k = m >>= λ _. k

-- `if !test { return err }`.
abbrev pub guard {ℓ} : {E : Type ℓ} → Bool → E → Result E (Unit {0})
guard true e = ok tt
guard false e = err e

-- A chain that succeeds succeeded at its first step.
pub >>=-eq-ok {ℓ κ μ} :
    {E : Type ℓ} {First : Type κ} {Last : Type μ} (step : Result E First)
    (next : First → Result E Last) {out : Last}
    → (step >>= next) ≡ ok out
    → (mid : First) × (step ≡ ok mid) × (next mid ≡ ok out)
>>=-eq-ok (err failure) next whole = cc
>>=-eq-ok (ok mid) next whole = (mid, refl, whole)

abbrev pub is_ok {ℓ κ} : {E : Type ℓ} {A : Type κ} → Result E A → Bool
is_ok (ok a) = true
is_ok (err e) = false
