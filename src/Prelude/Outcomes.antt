-- ===== src/Prelude/Outcomes.antt =====
-- A call that returns or throws.
use mathlib.Core.Path.{◌≡◌, refl}
use native.Mathlib.Omega.{arith}

pub data Outcome {ℓ} (E A : Type ℓ) : Type ℓ where
  ok : A → Outcome E A
  err : E → Outcome E A

-- A call followed by another on the state it leaves; an error ends both.
abbrev pub then_run {ℓ} :
    {E A B S : Type ℓ} → Outcome E A × S → (A → S → Outcome E B × S) → Outcome E B × S
then_run (ok a, s) k = k a s
then_run (err e, s) k = (err e, s)

pub then_run-ok {ℓ} :
    {E A B S : Type ℓ} (x : Outcome E A × S) (k : A → S → Outcome E B × S) (b : B) (s' : S)
    → then_run x k ≡ (ok b, s')
    → (a : A) × (s : S) × (x ≡ (ok a, s)) × (k a s ≡ (ok b, s'))
then_run-ok (ok a, s) k b s' h = (a, s, refl, h)
then_run-ok (err e, s) k b s' h = absurd (ground arith)
