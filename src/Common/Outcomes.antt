-- ===== src/Common/Outcomes.antt =====
-- What a Go function that returns `(T, error)` comes to: a value, an error, or a run-time panic
-- (an index or a slice bound out of range, a nil dereference).
use mathlib.Core.Path.{◌≡◌, refl}
use mathlib.Core.Bool.{Bool, true, false}

pub data Outcome (E A : Type 0) : Type 0 where
  ok : A → Outcome E A
  err : E → Outcome E A
  panic : Outcome E A

infixl 5 ◌>>=◌ ◌>>◌
abbrev pub ◌>>=◌ : {E A B : Type 0} → Outcome E A → (A → Outcome E B) → Outcome E B
ok a >>= f = f a
err e >>= f = err e
panic >>= f = panic

abbrev pub ◌>>◌ : {E B : Type 0} → Outcome E (Unit {0}) → Outcome E B → Outcome E B
m >> k = m >>= λ _. k

-- `if b { return nil, e }`
abbrev pub fail_if : {E : Type 0} → Bool → E → Outcome E (Unit {0})
fail_if true e = err e
fail_if false e = ok tt

-- Inversion of a successful step, handed on to what it is used for.
pub bind_ok {ℓ} :
    {E A B : Type 0} {P : Type ℓ} (m : Outcome E A) (f : A → Outcome E B) {b : B}
    → (m >>= f) ≡ ok b
    → ((a : A) → m ≡ ok a → f a ≡ ok b → P)
    → P
bind_ok (ok a) f h k = k a refl h
bind_ok (err e) f h k = absurd (cc)
bind_ok panic f h k = absurd (cc)

pub fail_if_ok {ℓ} :
    {E B : Type 0} {P : Type ℓ} (b : Bool) (e : E) (m : Outcome E B) {r : B}
    → (fail_if b e >> m) ≡ ok r
    → (b ≡ false → m ≡ ok r → P)
    → P
fail_if_ok true e m h k = absurd (cc)
fail_if_ok false e m h k = k refl h
