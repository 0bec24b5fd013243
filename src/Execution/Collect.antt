-- ===== src/Execution/Collect.antt =====
-- What all running threads have synchronised with (execution.cc, `computeMinimalCV`): the actions
-- below this vector are the ones that may be freed.
use c11tester.Base.{
  ℕ, zero, suc, ◌+◌, ◌-◌, ◌≤◌, ◌≡◌, ap, ◌∙◌, true, false, if◌then◌else◌, Option, none, some, arith,
}
use c11tester.ClockVector.{ClockVector, num_threads, minmerge, get_clock}
use c11tester.ClockVector
use c11tester.ClockVector.Lattice.{get_clock-minmerge, new_copy}
use c11tester.Threads.{is_complete}
use c11tester.Execution.State.{Execution, thread, get_num_threads, get_cv}

-- One round: a thread that runs lowers the vector. The outer option is the use of a null pointer.
pub lower : Option ClockVector → Option ClockVector → Option (Option ClockVector)
lower none cv = some (some (ClockVector.new cv none))
lower (some cvmin) none = none
lower (some cvmin) (some cv) = some (some (minmerge cvmin cv).0)

pub minimal_from : Execution → ℕ → ℕ → Option ClockVector → Option (Option ClockVector)
unfolding lower
minimal_from e zero i cvmin = some cvmin
minimal_from e (suc n) i cvmin =
    elim (if is_complete (thread e i) then some cvmin else lower cvmin (get_cv e i)) [
      | none ↦ none
      | some cvmin' ↦ minimal_from e n (i + 1) cvmin'
    ]

-- Thread 0 is the checker's own.
pub compute_minimal_cv : Execution → Option (Option ClockVector)
unfolding minimal_from
compute_minimal_cv e = minimal_from e (get_num_threads e - 1) 1 none

three_threads :
    (e : Execution) (c d : ClockVector)
    → is_complete (thread e 1) ≡ false
    → is_complete (thread e 2) ≡ false
    → is_complete (thread e 3) ≡ true
    → get_cv e 1 ≡ some c
    → get_cv e 2 ≡ some d
    → minimal_from e 3 1 none ≡ some (some (minmerge c d).0)
unfolding minimal_from lower
three_threads e c d r₁ r₂ r₃ h₁ h₂ = ground (arith, r₁, r₂, r₃, h₁, h₂, new_copy c)

-- Three threads of the program, of which the third has completed and the other two run with vectors
-- `c` and `d`, where `d` has no entry for thread 3: thread 2 has synchronised with no action of
-- thread 3, but the vector of what all running threads have synchronised with takes the clock of
-- thread 3 from the first thread.
pub compute_minimal_cv_misses :
    (e : Execution) (c d : ClockVector)
    → get_num_threads e ≡ 4
    → is_complete (thread e 1) ≡ false
    → is_complete (thread e 2) ≡ false
    → is_complete (thread e 3) ≡ true
    → get_cv e 1 ≡ some c
    → get_cv e 2 ≡ some d
    → num_threads d ≤ 3
    → (m : ClockVector) × (compute_minimal_cv e ≡ some (some m))
      × (get_clock d 3 ≡ 0)
      × (get_clock m 3 ≡ get_clock c 3)
unfolding compute_minimal_cv minimal_from lower get_clock
compute_minimal_cv_misses e c d n r₁ r₂ r₃ h₁ h₂ short = (
  (minmerge c d).0,
  ap (λ (k : ℕ). minimal_from e (k - 1) 1 none) n ∙ three_threads e c d r₁ r₂ r₃ h₁ h₂,
  ground arith,
  ground (arith, get_clock-minmerge c d 3),
)
