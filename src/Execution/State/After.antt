-- ===== src/Execution/State/After.antt =====
-- What holds after a computation on the execution, if it goes through.
use c11tester.Base.{◌≡◌, Option, none, some, inl, inr, Option-cases, arith}
use c11tester.Execution.State.{Execution, M, ◌>>=◌, ◌>>◌, need}

abbrev pub After : {A : Type 0} → M A → Execution → (A → Execution → Type 0) → Type 0
After {A} m e P = (a : A) (e' : Execution) → m e ≡ some (a, e') → P a e'

pub bind-After :
    {A B : Type 0} (m : M A) (f : A → M B) (e : Execution) (P : B → Execution → Type 0)
    → After m e (λ a e₁. After (f a) e₁ P)
    → After (m >>= f) e P
bind-After m f e P h b e' q = elim (Option-cases (m e)) [
  | inl fault ↦ absurd (ground arith)
  | inr ((a, e₁), p) ↦ h a e₁ p b e' (ground arith)
]

pub then-After :
    {B : Type 0} (m : M (Unit {0})) (k : M B) (e : Execution) (P : B → Execution → Type 0)
    → After m e (λ a e₁. After k e₁ P)
    → After (m >> k) e P
then-After m k e P h b e' q = elim (Option-cases (m e)) [
  | inl fault ↦ absurd (ground arith)
  | inr ((a, e₁), p) ↦ h a e₁ p b e' (ground arith)
]

pub need-After :
    {A : Type 0} (o : Option A) (e : Execution) → After (need o) e (λ a e'. (o ≡ some a) × (e' ≡ e))
need-After none e a e' q = cc
need-After (some x) e a e' q = ground arith
