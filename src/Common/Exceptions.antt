-- ===== src/Common/Exceptions.antt =====
-- Exceptions as values. A pure function that may throw returns a `Result`; a method of an object
-- returns it beside the object as it was left, since what was written before a throw stays written.
use mathlib.Core.Path.{◌≡◌, refl}
use mathlib.Core.Logic.{◌⊎◌, inl, inr}
use mathlib.Core.Bool.{Bool, true, false}
use resume_project.Common.Tests.{if◌then◌else◌}

pub data Result {ℓ} (E : Type 0) (A : Type ℓ) : Type ℓ where
  ok : A → Result E A
  err : E → Result E A

infixl 5 ◌>>=◌ ◌>>◌
abbrev pub ◌>>=◌ {ℓ κ} :
    {E : Type 0} {A : Type ℓ} {B : Type κ} → Result E A → (A → Result E B) → Result E B
ok a >>= f = f a
err e >>= f = err e

abbrev pub ◌>>◌ {ℓ} : {E : Type 0} {B : Type ℓ} → Result E (Unit {0}) → Result E B → Result E B
m >> k = m >>= λ _. k

-- `if (!condition) throw e`
abbrev pub require : {E : Type 0} → Bool → E → Result E (Unit {0})
require true e = ok tt
require false e = err e

pub Result-cases {ℓ} :
    {E : Type 0} {A : Type ℓ} (r : Result E A) → ((a : A) × (r ≡ ok a)) ⊎ ((e : E) × (r ≡ err e))
Result-cases (ok a) = inl (a, refl)
Result-cases (err e) = inr (e, refl)

-- The next statement of a method: it runs on the object as the one before left it, unless that threw.
abbrev pub then_do {ℓ κ} :
    {E S : Type 0} {A : Type ℓ} {B : Type κ}
    → Result E A × S
    → (A → S → Result E B × S)
    → Result E B × S
then_do (ok a, s) f = f a s
then_do (err e, s) f = (err e, s)

-- A statement of a method that may throw and changes nothing.
abbrev pub check {ℓ κ} :
    {E S : Type 0} {A : Type ℓ} {B : Type κ}
    → Result E A
    → S
    → (A → Result E B × S)
    → Result E B × S
check (ok a) s f = f a
check (err e) s f = (err e, s)

-- What a statement and the ones after it keep, whether they return or throw, the whole method keeps.
pub then_do-keeps {ℓ κ μ} :
    {E S : Type 0} {A : Type ℓ} {B : Type κ} (P : S → Type μ) (q : Result E A × S)
    (f : A → S → Result E B × S)
    → P q.1
    → ((a : A) (s : S) → P s → P (f a s).1)
    → P (then_do q f).1
then_do-keeps P (ok a, s) f h k = k a s h
then_do-keeps P (err e, s) f h k = h

pub if-keeps {ℓ κ μ} :
    {A : Type ℓ} {S : Type κ} (P : S → Type μ) (b : Bool) (x y : A × S)
    → P x.1
    → P y.1
    → P (if b then x else y).1
if-keeps P true x y h k = h
if-keeps P false x y h k = k
