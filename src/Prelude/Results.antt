-- ===== src/Prelude/Results.antt =====
-- What a fallible operation returns: a value, or the error of the component.
use mathlib.Core.Option.{Option, none, some}
use mathlib.Core.Bool.{Bool, true, false}
use gitopia_storage.Prelude.Tests.{if◌then◌else◌}
use mathlib.Core.Path.{◌≡◌, refl, ap}
use native.Mathlib.Omega.{arith}

pub data Result (E A : Type 0) : Type 0 where
  ok : A → Result E A
  err : E → Result E A

infixl 5 ◌>>=◌ ◌>>◌
abbrev pub ◌>>=◌ : {E A B : Type 0} → Result E A → (A → Result E B) → Result E B
ok a >>= f = f a
err e >>= f = err e

abbrev pub ◌>>◌ : {E A B : Type 0} → Result E A → Result E B → Result E B
m >> k = m >>= λ _. k

-- The value of a call whose only error is `e`.
abbrev pub or_err : {E A : Type 0} → E → Option A → Result E A
or_err e none = err e
or_err e (some a) = ok a

-- A sequence succeeds through the success of its first part, and only so.
pub bind-ok :
    {E A B : Type 0} (m : Result E A) (f : A → Result E B) {b : B}
    → m >>= f ≡ ok b
    → (a : A) × (m ≡ ok a) × (f a ≡ ok b)
bind-ok (ok a) f h = (a, refl, h)
bind-ok (err e) f h = ground (arith, h)

pub or_err-ok : {E A : Type 0} (e : E) (o : Option A) {a : A} → or_err e o ≡ ok a → o ≡ some a
or_err-ok e none h = ground (arith, h)
or_err-ok e (some a) h = ap (λ r. elim r [ ok x ↦ some x | err _ ↦ none ]) h

pub ok-inj : {E A : Type 0} {a b : A} → ◌≡◌ {A = Result E A} (ok a) (ok b) → a ≡ b
ok-inj {a = a} e = ap (λ r. elim r [ ok x ↦ x | err _ ↦ a ]) e

-- A guarded value.
pub guard-ok :
    {E A : Type 0} (b : Bool) (a : A) (e : E) {x : A}
    → (if b then ok a else err e) ≡ ok x
    → (b ≡ true) × (a ≡ x)
guard-ok true a e h = (refl, ok-inj h)
guard-ok false a e h = ground (arith, h)
