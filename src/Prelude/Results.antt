-- ===== src/Prelude/Results.antt =====
-- Functions that may throw: the thrown error as a value.
use mathlib.Core.Path.{◌≡◌, refl}
use mathlib.Core.Logic.{◌⊎◌, inl, inr}
use mathlib.Core.Bool.{Bool, true, false}
use mathlib.Core.Option.{Option, none, some}

pub data Result {ℓ κ} (E : Type ℓ) (A : Type κ) : Type (ℓ ⊔ κ) where
  ok : A → Result E A
  err : E → Result E A

infixl 5 ◌>>=◌ ◌>>◌
abbrev pub ◌>>=◌ {ℓ κ μ} :
    {E : Type ℓ} {A : Type κ} {B : Type μ} → Result E A → (A → Result E B) → Result E B
ok a >>= f = f a
err e >>= f = err e

abbrev pub ◌>>◌ {ℓ κ} : {E : Type ℓ} {B : Type κ} → Result E (Unit {0}) → Result E B → Result E B
m >> k = m >>= λ _. k

-- `if (bad) throw new Error(code)`.
abbrev pub reject_if {ℓ} : {E : Type ℓ} → Bool → E → Result E (Unit {0})
reject_if true e = err e
reject_if false e = ok tt

-- A missing value is an error.
abbrev pub or_throw {ℓ κ} : {E : Type ℓ} {A : Type κ} → Option A → E → Result E A
or_throw none e = err e
or_throw (some a) e = ok a

abbrev pub and_then {ℓ κ} : {A : Type ℓ} {B : Type κ} → Option A → (A → Option B) → Option B
and_then none f = none
and_then (some a) f = f a

module _ {ℓ κ} {E : Type ℓ} {B : Type κ} where
  -- What a chain that succeeds has passed.
  pub reject_if-ok :
      (b : Bool) (e : E) {k : Result E B} {r : B}
      → (reject_if b e >> k) ≡ ok r
      → (b ≡ false) × (k ≡ ok r)
  reject_if-ok true e h = cc
  reject_if-ok false e h = (refl, h)

  pub or_throw-ok {μ} :
      {A : Type μ} (o : Option A) (e : E) {k : A → Result E B} {r : B}
      → (or_throw o e >>= k) ≡ ok r
      → (a : A) × (o ≡ some a) × (k a ≡ ok r)
  or_throw-ok none e h = cc
  or_throw-ok (some a) e h = (a, refl, h)

  pub bind-ok {μ} :
      {A : Type μ} (m : Result E A) {k : A → Result E B} {r : B}
      → (m >>= k) ≡ ok r
      → (a : A) × (m ≡ ok a) × (k a ≡ ok r)
  bind-ok (ok a) h = (a, refl, h)
  bind-ok (err e) h = cc

pub Result-cases {ℓ κ} :
    {E : Type ℓ} {A : Type κ} (r : Result E A) → ((a : A) × (r ≡ ok a)) ⊎ ((e : E) × (r ≡ err e))
Result-cases (ok a) = inl (a, refl)
Result-cases (err e) = inr (e, refl)

pub and_then-some {ℓ κ} :
    {A : Type ℓ} {B : Type κ} (o : Option A) {f : A → Option B} {b : B}
    → and_then o f ≡ some b
    → (a : A) × (o ≡ some a) × (f a ≡ some b)
and_then-some none h = cc
and_then-some (some a) h = (a, refl, h)
