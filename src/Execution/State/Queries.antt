-- ===== src/Execution/State/Queries.antt =====
-- Deadlocks, and threads by their pthread ids (execution.cc).
use c11tester.Base.{
  ltb, ◌+◌, ◌%◌, ◌^◌, ◌==◌, ◌↔◌, false, Bool-cases, inl, inr, ℕ, zero, suc, ◌+◌, ◌-◌, ◌%◌, ◌^◌, ◌<◌,
  ◌≤◌, ◌≡◌, ◌≢◌, ◌↔◌, ◌⊎◌, inl, inr, refl, Bool, true, false, not, ◌&&◌, ◌==◌, if◌then◌else◌, none,
  some, List, [], ◌∷◌, length, arith, Bool-cases, ==_iff,
}
use c11tester.Schedule.{is_enabled}
use c11tester.Execution.State.{
  Execution, thread, get_num_threads, blocking_from, is_deadlocked, get_pthread, get_elem?,
}

-- The thread has an action that it could not take yet.
abbrev pub is_pending : Execution → ℕ → Bool
is_pending e t =
    not (thread e t).model_thread && elim (thread e t).pending [ none ↦ false | some a ↦ true ]

-- `n` threads from `t` on, none of which is enabled.
abbrev NoneEnabled : Execution → ℕ → ℕ → Type 0
NoneEnabled e n t = (u : ℕ) → t ≤ u → u < t + n → is_enabled e.scheduler u ≡ false

abbrev SomePending : Execution → ℕ → ℕ → Type 0
SomePending e n t = (u : ℕ) × (t ≤ u) × (u < t + n) × (is_pending e u ≡ true)

blocking_from_iff :
    (n t : ℕ) (e : Execution) (blocking : Bool)
    → (blocking_from n t e blocking ≡ true)
      ↔ (NoneEnabled e n t × ((blocking ≡ true) ⊎ SomePending e n t))
unfolding blocking_from
blocking_from_iff zero t e blocking = (
  λ h. ((λ u a b. absurd (omega arith)), inl h),
  λ h. elim h.1 [ inl b ↦ b | inr (u, a, b, p) ↦ absurd (omega arith) ],
)
blocking_from_iff (suc n) t e blocking = elim (Bool-cases (is_enabled e.scheduler t)) [
  | inl on ↦
      (λ h. absurd (ground arith), λ h. let off = h.0 t (omega arith) (omega arith) in absurd (cc))
  | inr off ↦
      let ih = blocking_from_iff n (t + 1) e (if is_pending e t then true else blocking) in
      (λ h. later off (ih.0 (ground arith)), λ h. let go = ih.1 (earlier_ones h) in ground arith)
]
  where
    flag : Bool
    flag = if is_pending e t then true else blocking

    found : (flag ≡ true) ⊎ SomePending e n (t + 1) → (blocking ≡ true) ⊎ SomePending e (suc n) t
    found (inr (u, a, c, p)) = inr (u, omega arith, omega arith, p)
    found (inl h) = elim (Bool-cases (is_pending e t)) [
      | inl p ↦ inr (t, omega arith, omega arith, p)
      | inr p ↦ inl (rw p at h)
    ]

    later :
        is_enabled e.scheduler t ≡ false
        → NoneEnabled e n (t + 1) × ((flag ≡ true) ⊎ SomePending e n (t + 1))
        → NoneEnabled e (suc n) t × ((blocking ≡ true) ⊎ SomePending e (suc n) t)
    later off (none_on, b) = (
      λ u a c. elim (Bool-cases (u == t)) [
        | inl same ↦ let q = (==_iff u t).0 same in rw q off
        | inr other ↦ none_on u (ground arith) (omega arith)
      ],
      found b,
    )

    kept : (blocking ≡ true) ⊎ SomePending e (suc n) t → (flag ≡ true) ⊎ SomePending e n (t + 1)
    kept (inl h) = inl (ground arith)
    kept (inr (u, a, c, p)) = elim (Bool-cases (u == t)) [
      | inl same ↦
          let q = (==_iff u t).0 same in
          let pt : is_pending e t ≡ true = rw (← q) p in inl (rw pt refl)
      | inr other ↦ inr (u, ground arith, omega arith, p)
    ]

    earlier_ones :
        NoneEnabled e (suc n) t × ((blocking ≡ true) ⊎ SomePending e (suc n) t)
        → NoneEnabled e n (t + 1) × ((flag ≡ true) ⊎ SomePending e n (t + 1))
    earlier_ones (none_on, b) = ((λ u a c. none_on u (omega arith) (omega arith)), kept b)

-- An execution is in a deadlock exactly if none of the program's threads is enabled, and one that
-- is not the checker's own has an action pending.
pub is_deadlocked_iff :
    (e : Execution)
    → (is_deadlocked e ≡ true) ↔ (
        ((u : ℕ) → 1 ≤ u → u < 1 + (get_num_threads e - 1) → is_enabled e.scheduler u ≡ false)
        × ((u : ℕ) × (1 ≤ u) × (u < 1 + (get_num_threads e - 1)) × (is_pending e u ≡ true)))
unfolding is_deadlocked
is_deadlocked_iff e =
    let base = blocking_from_iff (get_num_threads e - 1) 1 e false in
    (
      λ h. ((base.0 h).0, elim (base.0 h).1 [ inl b ↦ absurd (cc) | inr s ↦ s ]),
      λ h. base.1 (h.0, inr h.1),
    )

get_elem?-none_iff {ℓ} :
    {A : Type ℓ} (xs : List A) (i : ℕ) → (get_elem? xs i ≡ none) ↔ (length xs ≤ i)
get_elem?-none_iff [] i = (λ h. omega arith, λ h. refl)
get_elem?-none_iff (x ∷ xs) zero = (λ h. cc, λ h. absurd (omega arith))
get_elem?-none_iff (x ∷ xs) (suc i) =
    let rest = get_elem?-none_iff xs i in (λ h. omega (arith, rest.0 h), λ h. rest.1 (omega arith))

-- For an id other than 1, cut to 32 bits: `get_pthread` reads the vector of threads behind its end
-- exactly if the id is not below the length of the vector and not above the counter of threads. In
-- all other cases it answers, with a thread or with NULL.
pub get_pthread_faults_iff :
    (e : Execution) (pid : ℕ)
    → pid ≢ 1
    → (get_pthread e pid ≡ none)
      ↔ ((length e.pthread_map ≤ pid % 2 ^ 32) × (pid % 2 ^ 32 ≤ e.pthread_counter))
unfolding get_pthread
get_pthread_faults_iff e pid other =
    let other' : (pid == 1) ≡ false = ground arith in
    let read = get_elem?-none_iff e.pthread_map (pid % 2 ^ 32) in
    elim (Bool-cases (ltb (pid % 2 ^ 32) (e.pthread_counter + 1))) [
      | inl below ↦ rw (other', below) (λ h. (read.0 h, ground arith), λ h. read.1 h.0)
      | inr above ↦ rw (other', above) (λ h. cc, λ h. absurd (ground arith))
    ]
