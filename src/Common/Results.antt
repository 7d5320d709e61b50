-- ===== src/Common/Results.antt =====
-- Code that throws: a result or an error.
use mathlib.Core.Path.{◌≡◌, refl}
use mathlib.Core.Bool.{Bool, true, false}
use mathlib.Core.Option.{Option, none, some}

pub data Result {ℓ} (E : Type 0) (A : Type ℓ) : Type ℓ where
  ok : A → Result E A
  err : E → Result E A

infixl 5 ◌>>=◌
abbrev pub ◌>>=◌ {ℓ κ} :
    {E : Type 0} {A : Type ℓ} {B : Type κ} → Result E A → (A → Result E B) → Result E B
ok a >>= next = next a
err e >>= next = err e

-- A missing value is thrown as an error.
abbrev pub or_err {ℓ} : {E : Type 0} {A : Type ℓ} → E → Option A → Result E A
or_err e none = err e
or_err e (some a) = ok a

-- `if (!test) throw`
abbrev pub unless_err : {E : Type 0} → E → Bool → Result E (Unit {0})
unless_err e true = ok tt
unless_err e false = err e

-- A bind that ends well, taken apart.
pub bind_inv {ℓ κ} :
    {E : Type 0} {A : Type ℓ} {B : Type κ} (m : Result E A) (next : A → Result E B) {b : B}
    → (m >>= next) ≡ ok b
    → (a : A) × (m ≡ ok a) × (next a ≡ ok b)
bind_inv (ok a) next h = (a, refl, h)
bind_inv (err e) next h = cc

pub or_err_inv {ℓ} :
    {E : Type 0} {A : Type ℓ} (e : E) (o : Option A) {a : A} → or_err e o ≡ ok a → o ≡ some a
or_err_inv e none h = cc
or_err_inv e (some a) h = cc

pub unless_err_inv : {E : Type 0} (e : E) (b : Bool) → unless_err e b ≡ ok tt → b ≡ true
unless_err_inv e true h = refl
unless_err_inv e false h = cc
