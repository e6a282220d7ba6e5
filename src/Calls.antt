-- ===== src/Calls.antt =====
-- Runs that record the calls which leave the process, and end with a value or an error: the handlers
-- of pushes, merges and releases are such runs.
use gitopia_storage.Prelude.{
  ◌≡◌, refl, arith, ap, sym, subst, ◌∙◌, ok-inj, Bool, true, false, Option, none, some, List, [],
  ◌∷◌, ◌++◌, Result, ok, err,
}

abbrev pub Run : Type 0 → Type 0 → Type 0 → Type 0
Run C E A = List C × Result E A

module _ {C E : Type 0} where
  abbrev pub after : {A : Type 0} → List C → Run C E A → Run C E A
  after calls (more, r) = (calls ++ more, r)

  abbrev pub then_run : {A B : Type 0} → List C → Result E A → (A → Run C E B) → Run C E B
  then_run calls (ok a) f = after calls (f a)
  then_run calls (err e) f = (calls, err e)

  infixl 5 ◌>>=◌
  abbrev pub ◌>>=◌ : {A B : Type 0} → Run C E A → (A → Run C E B) → Run C E B
  (calls, r) >>= f = then_run calls r f

  -- A query, whose calls are not recorded.
  abbrev pub ask : {A : Type 0} → Result E A → Run C E A
  ask r = ([], r)

  abbrev pub check : Bool → E → Run C E Unit
  check true e = ([], ok tt)
  check false e = ([], err e)

  abbrev pub ask_for : {A : Type 0} → E → Option A → Run C E A
  ask_for e none = ([], err e)
  ask_for e (some a) = ([], ok a)

  -- A call that is recorded, also where it fails.
  abbrev pub call_for : {A : Type 0} → C → E → Option A → Run C E A
  call_for c e none = (c ∷ [], err e)
  call_for c e (some a) = (c ∷ [], ok a)

  abbrev pub make_call : C → E → Bool → Run C E Unit
  make_call c e true = (c ∷ [], ok tt)
  make_call c e false = (c ∷ [], err e)

  -- The deferred work after an error.
  abbrev pub on_error : {A : Type 0} → List C → Run C E A → Run C E A
  on_error cleanup (calls, ok a) = (calls, ok a)
  on_error cleanup (calls, err e) = (calls ++ cleanup, err e)

  -- The value of a run that ends without an error.
  abbrev pub Gives : {A : Type 0} → Run C E A → List C → A → Type 0
  Gives run calls a = run ≡ (calls, ok a)

  pub bind-Gives :
      {A B : Type 0} (m : Run C E A) (f : A → Run C E B) {calls : List C} {b : B}
      → Gives (m >>= f) calls b
      → (first rest : List C) × (a : A) × Gives m first a
        × Gives (f a) rest b
        × (calls ≡ first ++ rest)
  bind-Gives (first, ok a) f h =
      (first, (f a).0, a, refl, ap (λ r. ((f a).0, r)) (ap (λ r. r.1) h), sym (ap (λ r. r.0) h))
  bind-Gives (first, err e) f h = ground (arith, ap (λ r. r.1) h)

  -- A part without calls.
  pub quiet-then :
      {A B : Type 0} (P : A → Type 0) (m : Run C E A) (f : A → Run C E B) {calls : List C} {b : B}
      → ((first : List C) (a : A) → Gives m first a → P a × (first ≡ []))
      → Gives (m >>= f) calls b
      → (a : A) × P a × Gives (f a) calls b
  quiet-then P m f {b = b} quiet h =
      let (first, rest, a, g, k, same) = bind-Gives m f h in
      let (p, none_made) = quiet first a g in
      (a, p, subst (λ c. Gives (f a) c b) (sym (same ∙ ap (λ c. c ++ rest) none_made)) k)

  pub check-Gives :
      (t : Bool) (e : E) {calls : List C} {u : Unit}
      → Gives (check t e) calls u
      → (t ≡ true) × (calls ≡ [])
  check-Gives true e h = (refl, sym (ap (λ r. r.0) h))
  check-Gives false e h = ground (arith, ap (λ r. r.1) h)

  pub ask_for-Gives :
      {A : Type 0} (e : E) (o : Option A) {calls : List C} {a : A}
      → Gives (ask_for e o) calls a
      → (o ≡ some a) × (calls ≡ [])
  ask_for-Gives e none h = ground (arith, ap (λ r. r.1) h)
  ask_for-Gives e (some a) h = (ap some (ok-inj (ap (λ r. r.1) h)), sym (ap (λ r. r.0) h))

  pub make_call-Gives :
      (c : C) (e : E) (t : Bool) {calls : List C} {u : Unit}
      → Gives (make_call c e t) calls u
      → (t ≡ true) × (calls ≡ c ∷ [])
  make_call-Gives c e true h = (refl, sym (ap (λ r. r.0) h))
  make_call-Gives c e false h = ground (arith, ap (λ r. r.1) h)

  pub ask_for-then :
      {A B : Type 0} (e : E) (o : Option A) (f : A → Run C E B) {calls : List C} {b : B}
      → Gives (ask_for e o >>= f) calls b
      → (a : A) × (o ≡ some a) × Gives (f a) calls b
  ask_for-then e none f h = ground (arith, ap (λ r. r.1) h)
  ask_for-then e (some a) f h = (a, refl, h)

  pub check-then :
      {B : Type 0} (t : Bool) (e : E) (f : Unit → Run C E B) {calls : List C} {b : B}
      → Gives (check t e >>= f) calls b
      → (t ≡ true) × Gives (f tt) calls b
  check-then true e f h = (refl, h)
  check-then false e f h = ground (arith, ap (λ r. r.1) h)

  pub call_for-then :
      {A B : Type 0} (c : C) (e : E) (o : Option A) (f : A → Run C E B) {calls : List C} {b : B}
      → Gives (call_for c e o >>= f) calls b
      → (a : A) × (rest : List C) × (o ≡ some a) × Gives (f a) rest b × (calls ≡ c ∷ rest)
  call_for-then c e none f h = ground (arith, ap (λ r. r.1) h)
  call_for-then c e (some a) f h =
      (a, (f a).0, refl, ap (λ r. ((f a).0, r)) (ap (λ r. r.1) h), sym (ap (λ r. r.0) h))

  pub make_call-then :
      {B : Type 0} (c : C) (e : E) (t : Bool) (f : Unit → Run C E B) {calls : List C} {b : B}
      → Gives (make_call c e t >>= f) calls b
      → (rest : List C) × (t ≡ true) × Gives (f tt) rest b × (calls ≡ c ∷ rest)
  make_call-then c e false f h = ground (arith, ap (λ r. r.1) h)
  make_call-then c e true f h =
      ((f tt).0, refl, ap (λ r. ((f tt).0, r)) (ap (λ r. r.1) h), sym (ap (λ r. r.0) h))

  -- The first call of a run, where the others are known.
  pub call-cons :
      (c : C) (e : E) (t : Bool) (f : Unit → Run C E Unit) (want : List C)
      → ((rest : List C) → Gives (f tt) rest tt → rest ≡ want)
      → (calls : List C) → Gives (make_call c e t >>= f) calls tt
      → calls ≡ c ∷ want
  call-cons c e t f want others calls h =
      let (rest, made, k, same) = make_call-then c e t f h in same ∙ ap (λ z. c ∷ z) (others rest k)

  pub call_last :
      (c : C) (e : E) (t : Bool) (calls : List C)
      → Gives (make_call c e t) calls tt
      → calls ≡ c ∷ []
  call_last c e t calls h = (make_call-Gives c e t h).1

  -- What was cleaned up had failed.
  pub on_error-ok :
      {A : Type 0} (cleanup : List C) (m : Run C E A) {calls : List C} {a : A}
      → Gives (on_error cleanup m) calls a
      → Gives m calls a
  on_error-ok cleanup (calls, ok a) h = h
  on_error-ok cleanup (calls, err e) h = ground (arith, ap (λ r. r.1) h)

  -- After an error the cleanup stands last.
  pub on_error-last :
      {A : Type 0} (cleanup : List C) (m : Run C E A) {calls : List C} {e : E}
      → on_error cleanup m ≡ (calls, err e)
      → (before : List C) × (calls ≡ before ++ cleanup)
  on_error-last cleanup (calls, ok a) h = ground (arith, ap (λ r. r.1) h)
  on_error-last cleanup (before, err e) h = (before, sym (ap (λ r. r.0) h))
