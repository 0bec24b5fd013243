-- ===== src/Execution/Reads/Takes.antt =====
-- A read as a whole (execution.cc, `build_may_read_from` and `process_read`).
use c11tester.Base.{ℕ, ◌≡◌, refl, Bool, true, false, some, List, length, arith}
use c11tester.Action.{reads_from}
use c11tester.Action.Kinds.{is_read}
use c11tester.DataRace.Detector.{non_atomic_store_at}
use c11tester.Execution.State.{Execution, Source}
use c11tester.Execution.Candidates.{build_may_read_from, last_sc}
use c11tester.Execution.Candidates.Coherence.{SomeVisible}
use c11tester.Execution.Candidates.Found.{built_iff}
use c11tester.Execution.Reads.{process_read, try_writes, add_non_atomic}
use c11tester.Execution.Reads.Candidate.{try_writes-TakesOneOf}

-- A read at a location that has been written, and that no plain store waits at: if it goes through with the candidates that were built for it,
-- then it reads from a write of a thread's list there, other than itself, that a read of its
-- kind may read from and to which no newer write of the list that happens before it bars the way.
pub process_read-SomeVisible :
    (source : Source) (e : Execution) (curr : ℕ) (lists : List (List ℕ)) (rf_set : List ℕ)
    (canprune : Bool) (e' : Execution)
    → is_read (e.actions curr).type ≡ true
    → e.obj_wr_thrd_map (e.actions curr).location ≡ some lists
    → non_atomic_store_at e.detector (e.actions curr).location ≡ false
    → build_may_read_from e curr ≡ some rf_set
    → process_read source curr rf_set e ≡ some (canprune, e')
    → (rf : ℕ) × SomeVisible e curr (last_sc e curr) lists rf
      × ((e'.actions curr).shared ≡ reads_from (some rf))
unfolding process_read add_non_atomic
process_read-SomeVisible source e curr lists rf_set canprune e' r m plain built run =
    let tried : try_writes source (length rf_set) curr rf_set e ≡ some (canprune, e') =
      ground (arith, plain) in
    let (rf, member, shown) =
      try_writes-TakesOneOf source (length rf_set) curr rf_set e refl canprune e' tried in
    (rf, (built_iff e curr lists rf_set m built rf).0 member, shown)
