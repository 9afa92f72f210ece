-- ===== src/Prelude/Results.antt =====
-- `Result<T, E>`, with `?` as `do`.
use mathlib.Core.Path.{◌≡◌, refl}
use mathlib.Core.Bool.{Bool, true, false}
use mathlib.Core.Option.{Option, none, some}

pub data Result {ℓ κ} (E : Type ℓ) (A : Type κ) : Type (ℓ ⊔ κ) where
  ok : A → Result E A
  err : E → Result E A

infixl 5 ◌>>=◌ ◌>>◌
abbrev pub ◌>>=◌ {ℓ κ μ} :
    {E : Type ℓ} {A : Type κ} {B : Type μ} → Result E A → (A → Result E B) → Result E B
ok a >>= f = f a
err e >>= f = err e

abbrev pub ◌>>◌ {ℓ μ} : {E : Type ℓ} {B : Type μ} → Result E (Unit {0}) → Result E B → Result E B
m >> k = m >>= λ _. k

-- `if b { return Err(e) }`.
abbrev pub refuse_if {ℓ} : {E : Type ℓ} → Bool → E → Result E (Unit {0})
refuse_if true e = err e
refuse_if false e = ok tt

-- `ok_or`.
abbrev pub ok_or {ℓ κ} : {E : Type ℓ} {A : Type κ} → Option A → E → Result E A
ok_or none e = err e
ok_or (some a) e = ok a

abbrev pub is_ok {ℓ κ} : {E : Type ℓ} {A : Type κ} → Result E A → Bool
is_ok (ok a) = true
is_ok (err e) = false

-- How a result came out, with the equation.
pub data Outcome {ℓ κ} {E : Type ℓ} {A : Type κ} (r : Result E A) : Type (ℓ ⊔ κ) where
  was_ok : (a : A) → r ≡ ok a → Outcome r
  was_err : (e : E) → r ≡ err e → Outcome r

pub Result-cases {ℓ κ} : {E : Type ℓ} {A : Type κ} (r : Result E A) → Outcome r
Result-cases (ok a) = was_ok a refl
Result-cases (err e) = was_err e refl
