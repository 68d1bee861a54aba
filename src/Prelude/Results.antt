-- ===== src/Prelude/Results.antt =====
-- Fallible code. `stuck` is no value of the source: it means that a loop of the model ran out of
-- fuel.
use mathlib.Core.Path.{◌≡◌, refl}

pub data Result {ℓ} (E : Type 0) (A : Type ℓ) : Type ℓ where
  ok : A → Result E A
  err : E → Result E A
  stuck : Result E A

-- The `?` of the source.
infixl 5 ◌>>=◌
abbrev pub ◌>>=◌ {ℓ κ} :
    {E : Type 0} {A : Type ℓ} {B : Type κ} → Result E A → (A → Result E B) → Result E B
stuck >>= rest = stuck
err x >>= rest = err x
ok v >>= rest = rest v

-- A chain that succeeds has succeeded in its first step, and then in the rest.
pub >>=-eq-ok {κ ℓ} :
    {E : Type 0} {B : Type κ} {A : Type ℓ} (r : Result E A) (rest : A → Result E B) {w : B}
    → (r >>= rest) ≡ ok w
    → (v : A) × (r ≡ ok v) × (rest v ≡ ok w)
>>=-eq-ok stuck rest eq = cc
>>=-eq-ok (err x) rest eq = cc
>>=-eq-ok (ok v) rest eq = (v, refl, eq)

-- A result by its three cases, with the equation kept.
pub data Cases {ℓ} {E : Type 0} {A : Type ℓ} (r : Result E A) : Type ℓ where
  is_ok : (a : A) → r ≡ ok a → Cases r
  is_err : (e : E) → r ≡ err e → Cases r
  is_stuck : r ≡ stuck → Cases r

pub Result-Cases {ℓ} : {E : Type 0} {A : Type ℓ} (r : Result E A) → Cases r
Result-Cases (ok a) = is_ok a refl
Result-Cases (err e) = is_err e refl
Result-Cases stuck = is_stuck refl
