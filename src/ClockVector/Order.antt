-- ===== src/ClockVector/Order.antt =====
-- Clock vectors ordered by what they know: `merge` joins, and reports exactly whether anything
-- was learnt.
use c11tester.Base.{
  ℕ, zero, suc, ◌-◌, ◌≡◌, ◌≤◌, ◌<◌, refl, true, false, List, [], ◌∷◌, ltb, length, get_or, arith,
  get_or-pad, ◌↔◌, Bool-cases, inl, inr,
}
use c11tester.ClockVector.{ClockVector, num_threads, grow, merge_max, merge, get_clock}
use c11tester.ClockVector.Lattice.{get_clock_lem, get_clock-merge, length-grow}

-- `b` has synchronised with all that `a` has.
abbrev pub Below : ClockVector → ClockVector → Type 0
Below a b = (t : ℕ) → get_clock a t ≤ get_clock b t

-- The merged vector is the least one that knows what both know.
pub merge-IsLub : (a b c : ClockVector) → Below (merge a b).0 c ↔ (Below a c × Below b c)
merge-IsLub a b c = (
  λ h. (
    λ t. omega (arith, h t, get_clock-merge a b t),
    λ t. omega (arith, h t, get_clock-merge a b t),
  ),
  λ h t. omega (arith, h.0 t, h.1 t, get_clock-merge a b t),
)

merge_max_unchanged :
    (ys xs : List ℕ)
    → length ys ≤ length xs
    → (merge_max ys xs).1 ≡ false
    → (t : ℕ) → get_or ys t 0 ≤ get_or xs t 0
unfolding merge_max
merge_max_unchanged [] xs h e t = omega arith
merge_max_unchanged (y ∷ ys) [] h e t = absurd (omega arith)
merge_max_unchanged (y ∷ ys) (x ∷ xs) h e zero = ground arith
merge_max_unchanged (y ∷ ys) (x ∷ xs) h e (suc t) =
    merge_max_unchanged ys xs (omega arith) (ground arith) t

merge_max-of_le :
    (ys xs : List ℕ)
    → length ys ≤ length xs
    → ((t : ℕ) → get_or ys t 0 ≤ get_or xs t 0)
    → (merge_max ys xs).1 ≡ false
unfolding merge_max
merge_max-of_le [] xs h e = refl
merge_max-of_le (y ∷ ys) [] h e = absurd (omega arith)
merge_max-of_le (y ∷ ys) (x ∷ xs) h e =
    ground (arith, merge_max-of_le ys xs (omega arith) (λ t. e (suc t)), e 0)

-- `merge` returns false exactly if the other vector knows nothing new.
pub merge_unchanged_iff : (a b : ClockVector) → ((merge a b).1 ≡ false) ↔ Below b a
unfolding merge
merge_unchanged_iff a b =
    let room : length b.clock ≤ length (grow a.clock (num_threads b)) =
      omega (arith, length-grow a.clock (num_threads b)) in
    (
      λ e t. omega (
        arith,
        merge_max_unchanged b.clock (grow a.clock (num_threads b)) room e t,
        get_or-pad a.clock (num_threads b - num_threads a) t 0,
        get_clock_lem a t,
        get_clock_lem b t,
      ),
      λ h. merge_max-of_le b.clock (grow a.clock (num_threads b)) room λ t. omega (
        arith,
        h t,
        get_or-pad a.clock (num_threads b - num_threads a) t 0,
        get_clock_lem a t,
        get_clock_lem b t,
      ),
    )

merge_max_changed :
    (ys xs : List ℕ)
    → length ys ≤ length xs
    → (merge_max ys xs).1 ≡ true
    → (t : ℕ) × (t < length ys) × (get_or xs t 0 < get_or ys t 0)
unfolding merge_max
merge_max_changed [] xs h e = cc
merge_max_changed (y ∷ ys) [] h e = absurd (omega arith)
merge_max_changed (y ∷ ys) (x ∷ xs) h e = elim (Bool-cases (ltb x y)) [
  | inl less ↦ (0, omega arith, ground arith)
  | inr not_less ↦
      let (t, p, q) = merge_max_changed ys xs (omega arith) (ground arith) in
      (suc t, omega arith, q)
]

-- If `merge` returns true, some thread's clock grows.
pub merge_changed :
    (a b : ClockVector)
    → (merge a b).1 ≡ true
    → (t : ℕ) × (t < num_threads b) × (get_clock a t < get_clock b t)
unfolding merge
merge_changed a b e =
    let n = num_threads b - num_threads a in
    let (t, p, q) =
      merge_max_changed b.clock (grow a.clock (num_threads b))
        (omega (arith, length-grow a.clock (num_threads b))) e in
    (t, p, omega (arith, get_or-pad a.clock n t 0, get_clock_lem a t, get_clock_lem b t))
