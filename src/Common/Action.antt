-- ===== src/Common/Action.antt =====
-- Methods as values: an object goes in, a result and the object as it was left come out, also when the
-- method throws. A module that writes its methods as do blocks takes these names itself, since those
-- of `Result` have the same operators.
use mathlib.Core.Bool.{Bool, true, false}
use mathlib.Core.Option.{Option, none, some}
use resume_project.Common.Exceptions.{Result, ok, err}

abbrev pub Action : Type 0 → Type 0 → Type 0 → Type 0
Action S E A = S → Result E A × S

module _ {S E A : Type 0} where
  abbrev pub pure : A → Action S E A
  pure a s = (ok a, s)

  abbrev pub throw : E → Action S E A
  throw e s = (err e, s)

  abbrev pub gets : (S → A) → Action S E A
  gets f s = (ok (f s), s)

  abbrev pub or_throw : Option A → E → Action S E A
  or_throw none e s = (err e, s)
  or_throw (some a) e s = (ok a, s)

module _ {S E : Type 0} where
  abbrev pub throw_if : Bool → E → Action S E (Unit {0})
  throw_if true e s = (err e, s)
  throw_if false e s = (ok tt, s)

  abbrev pub modify : (S → S) → Action S E (Unit {0})
  modify f s = (ok tt, f s)

infixl 5 ◌>>=◌ ◌>>◌
abbrev pub next : {S E A B : Type 0} → Result E A × S → (A → Action S E B) → Result E B × S
next (ok a, s) f = f a s
next (err e, s) f = (err e, s)

abbrev pub ◌>>=◌ : {S E A B : Type 0} → Action S E A → (A → Action S E B) → Action S E B
◌>>=◌ m f s = next (m s) f

abbrev pub ◌>>◌ : {S E B : Type 0} → Action S E (Unit {0}) → Action S E B → Action S E B
m >> k = m >>= λ _. k

abbrev pub rewrap {ℓ} :
    {S T E F : Type 0} {A : Type ℓ} → (T → S → S) → (E → F) → S → Result E A × T → Result F A × S
rewrap put error s (ok a, t) = (ok a, put t s)
rewrap put error s (err e, t) = (err (error e), put t s)

-- A method of a part of the object, whose errors are errors of the whole.
abbrev pub within {ℓ} :
    {S T E F : Type 0} {A : Type ℓ}
    → (S → T)
    → (T → S → S)
    → (E → F)
    → (T → Result E A × T)
    → S
    → Result F A × S
within part put error m s = rewrap put error s (m (part s))

-- What every statement keeps, the method keeps.
pub next-keeps {κ} :
    {S E A B : Type 0} (P : S → Type κ) (q : Result E A × S) (f : A → Action S E B)
    → P q.1
    → ((a : A) (s : S) → P s → P (f a s).1)
    → P (next q f).1
next-keeps P (ok a, s) f h k = k a s h
next-keeps P (err e, s) f h k = h
