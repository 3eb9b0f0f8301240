-- ===== src/Prelude/Outcome.antt =====
-- What a call of a Rust function that returns `Result<A, E>` ends in: `Ok`, `Err`, or a panic (an
-- index out of bounds, an `unwrap` of a failure, a failed assertion). `diverged` is no outcome of
-- the code: a loop of the model ran out of its fuel.
use mathlib.Core.Bool.{Bool, true, false}
use mathlib.Core.Option.{Option, none, some}
use mathlib.Core.Path.{◌≡◌, refl}
use mathlib.Core.Logic.{◌≢◌, ◌⊎◌, inl, inr}

pub data Outcome {ℓ} (E : Type 0) (A : Type ℓ) : Type ℓ where
  ok : A → Outcome E A
  err : E → Outcome E A
  panic : Outcome E A
  diverged : Outcome E A

infixl 5 ◌>>=◌ ◌>>◌
abbrev pub ◌>>=◌ {ℓ κ} :
    {E : Type 0} {A : Type ℓ} {B : Type κ} → Outcome E A → (A → Outcome E B) → Outcome E B
ok a >>= f = f a
err e >>= f = err e
panic >>= f = panic
diverged >>= f = diverged

abbrev pub ◌>>◌ {ℓ} : {E : Type 0} {B : Type ℓ} → Outcome E (Unit {0}) → Outcome E B → Outcome E B
m >> k = m >>= λ _. k

-- `if bad { return Err(e); }`
abbrev pub reject_if : {E : Type 0} → Bool → E → Outcome E (Unit {0})
reject_if true e = err e
reject_if false e = ok tt

-- `assert!(good)`
abbrev pub assert : {E : Type 0} → Bool → Outcome E (Unit {0})
assert true = ok tt
assert false = panic

-- The value of a function that returns no `Result` and may panic, which is `none`.
abbrev pub or_panic {ℓ} : {E : Type 0} {A : Type ℓ} → Option A → Outcome E A
or_panic (some a) = ok a
or_panic none = panic

-- `Option` as a `Result`: `map_err` of an operation that gives `Result<_, ()>`.
abbrev pub ok_or {ℓ} : {E : Type 0} {A : Type ℓ} → Option A → E → Outcome E A
ok_or (some a) e = ok a
ok_or none e = err e

-- A result has the property, and the loops have enough fuel; errors and panics are allowed.
unfoldable pub Ends : {E A : Type 0} → (A → Type 0) → Outcome E A → Type 0
Ends P (ok a) = P a
Ends P (err e) = Unit {0}
Ends P panic = Unit {0}
Ends P diverged = ⊥

pub Ends-bind :
    {E A B : Type 0} {P : A → Type 0} (Q : B → Type 0) (m : Outcome E A) (f : A → Outcome E B)
    → Ends P m
    → ((a : A) → P a → Ends Q (f a))
    → Ends Q (m >>= f)
unfolding Ends
Ends-bind Q (ok a) f h k = k a h
Ends-bind Q (err e) f h k = tt
Ends-bind Q panic f h k = tt
Ends-bind Q diverged f h k = absurd h

-- The same from the two halves.
pub Ends-intro :
    {E A : Type 0} (P : A → Type 0) (m : Outcome E A)
    → m ≢ diverged
    → ((a : A) → m ≡ ok a → P a)
    → Ends P m
unfolding Ends
Ends-intro P (ok a) n k = k a refl
Ends-intro P (err e) n k = tt
Ends-intro P panic n k = tt
Ends-intro P diverged n k = n refl

Ends→≢ : {E A : Type 0} (P : A → Type 0) (m : Outcome E A) → Ends P m → m ≢ diverged
unfolding Ends
Ends→≢ P (ok a) h = λ e. cc
Ends→≢ P (err x) h = λ e. cc
Ends→≢ P panic h = λ e. cc
Ends→≢ P diverged h = absurd h

-- Any result will do.
abbrev pub Any : {A : Type 0} → A → Type 0
Any a = Unit {0}

pub or_panic-Ends : (E : Type 0) {A : Type 0} (o : Option A) → Ends {E = E} Any (or_panic o)
unfolding Ends
or_panic-Ends E none = tt
or_panic-Ends E (some a) = tt

pub Ends-weaken :
    {E A : Type 0} {P Q : A → Type 0} (m : Outcome E A)
    → Ends P m
    → ((a : A) → P a → Q a)
    → Ends Q m
unfolding Ends
Ends-weaken (ok a) h k = k a h
Ends-weaken (err e) h k = tt
Ends-weaken panic h k = tt
Ends-weaken diverged h k = h

-- To split on an outcome and keep the equation.
pub Outcome-cases :
    {E A : Type 0} (m : Outcome E A)
    → (((a : A) × (m ≡ ok a)) ⊎ ((e : E) × (m ≡ err e))) ⊎ ((m ≡ panic) ⊎ (m ≡ diverged))
Outcome-cases (ok a) = inl (inl (a, refl))
Outcome-cases (err e) = inl (inr (e, refl))
Outcome-cases panic = inr (inl refl)
Outcome-cases diverged = inr (inr refl)

-- Where a chain ends in a result.
pub bind-ok :
    {E A B : Type 0} (m : Outcome E A) (f : A → Outcome E B) (b : B)
    → (m >>= f) ≡ ok b
    → (a : A) × (m ≡ ok a) × (f a ≡ ok b)
bind-ok (ok a) f b e = (a, refl, e)
bind-ok (err x) f b e = absurd (cc e)
bind-ok panic f b e = absurd (cc e)
bind-ok diverged f b e = absurd (cc e)

pub or_panic-ok :
    {A : Type 0} (E : Type 0) (o : Option A) (a : A) → or_panic {E = E} o ≡ ok a → o ≡ some a
or_panic-ok E (some b) a e = cc e
or_panic-ok E none a e = absurd (cc e)

-- Two continuations that agree on the result.
pub bind-cong :
    {E A B : Type 0} (m : Outcome E A) (f g : A → Outcome E B)
    → ((a : A) → m ≡ ok a → f a ≡ g a)
    → (m >>= f) ≡ (m >>= g)
bind-cong (ok a) f g h = h a refl
bind-cong (err e) f g h = refl
bind-cong panic f g h = refl
bind-cong diverged f g h = refl

-- A chain does not run on where no part of it does.
pub bind_ends :
    {E A B : Type 0} {m : Outcome E A} {f : A → Outcome E B}
    → m ≢ diverged
    → ((a : A) → f a ≢ diverged)
    → (m >>= f) ≢ diverged
bind_ends {m = ok a} h k = k a
bind_ends {m = err e} h k = λ d. cc d
bind_ends {m = panic} h k = λ d. cc d
bind_ends {m = diverged} h k = absurd (h refl)

pub or_panic_ends : {E A : Type 0} (o : Option A) → ◌≢◌ {A = Outcome E A} (or_panic o) diverged
or_panic_ends (some a) = λ d. cc d
or_panic_ends none = λ d. cc d

pub reject_if_ends :
    {E : Type 0} (b : Bool) (e : E) → ◌≢◌ {A = Outcome E (Unit {0})} (reject_if b e) diverged
reject_if_ends true e = λ d. cc d
reject_if_ends false e = λ d. cc d

pub ok_ends : {E A : Type 0} (a : A) → ◌≢◌ {A = Outcome E A} (ok a) diverged
ok_ends a = λ d. cc d
