-- ===== src/Threads/State.antt =====
-- The life of a thread: the moves of its state that threads.cc makes.
use c11tester.Base.{◌≡◌, refl, Bool, some, arith}
use c11tester.Threads.{
  Thread, thread_ready, thread_blocked, thread_completed, is_complete, set_state, complete,
  swap_out, swap_in, set_wakeup_state,
}

-- What the checker does to a thread, as a relation between its states.
pub data Move : Thread → Thread → Type 0 where
  swaps_out : (t : Thread) {u : Thread} → swap_out t ≡ some u → Move t u
  swaps_in : (t : Thread) {u : Thread} → swap_in t ≡ some u → Move t u
  blocks : (t : Thread) {u : Thread} → set_state t thread_blocked ≡ some u → Move t u
  wakes : (t : Thread) {u : Thread} → set_state t thread_ready ≡ some u → Move t u
  completes : (t : Thread) {u : Thread} → complete t ≡ some u → Move t u
  woken : (t : Thread) (b : Bool) → Move t (set_wakeup_state t b)

pub data Moves (s : Thread) : Thread → Type 0 where
  here : Moves s s
  next : {t u : Thread} → Moves s t → Move t u → Moves s u

abbrev IsCompleted : Thread → Type 0
IsCompleted t = t.state ≡ thread_completed

Move-IsCompleted :
    {t u : Thread} → Move t u → IsCompleted t → (u.state ≡ thread_completed) × (u.id ≡ t.id)
unfolding swap_out swap_in complete is_complete set_state set_wakeup_state
Move-IsCompleted (swaps_out t e) h = ground arith
Move-IsCompleted (swaps_in t e) h = ground arith
Move-IsCompleted (blocks t e) h = ground arith
Move-IsCompleted (wakes t e) h = ground arith
Move-IsCompleted (completes t e) h = ground arith
Move-IsCompleted (woken t b) h = (h, refl)

-- A thread that has completed never runs, becomes ready or blocks again, whatever the checker
-- does short of freeing it: it stays the same completed thread.
pub Moves-IsCompleted :
    {s t : Thread}
    → s.state ≡ thread_completed
    → Moves s t
    → (t.state ≡ thread_completed) × (t.id ≡ s.id)
Moves-IsCompleted h here = (h, refl)
Moves-IsCompleted h (next r m) =
    ground (arith, Moves-IsCompleted h r, Move-IsCompleted m (Moves-IsCompleted h r).0)
