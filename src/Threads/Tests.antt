-- ===== src/Threads/Tests.antt =====
-- Three threads that wait on one another in a row.
use c11tester.Base.{ℕ, zero, suc, false, Option, none, some, []}
use c11tester.Action.{ModelAction, reads_from}
use c11tester.Action.Kinds.{ActionType, thread_join, atomic_lock, seq_cst}
use c11tester.Threads.{Thread, thread_completed, thread_blocked}
use c11tester.Threads.Waiting.{MutexState}

abbrev pending_action : ActionType → ℕ → ModelAction
pending_action type loc = record {
  location = loc;
  position = none;
  shared = reads_from none;
  last_fence_release = none;
  cv = none;
  value = 0;
  type = type;
  order = seq_cst;
  original_order = seq_cst;
  tid = 1;
  seq_number = 0;
  thread_operand = none;
}

abbrev thread_with : Option ModelAction → Thread
thread_with act = record {
  parent = none;
  acq_fence_cv = record { clock = [] };
  creation = none;
  pending = act;
  wakeup_state = false;
  id = 1;
  state = thread_blocked;
  last_action_val = 0;
  model_thread = false;
}

-- Thread 2 joins thread 1, and thread 1 wants the mutex 64, which thread 0 has.
abbrev threads : ℕ → Thread
threads zero = thread_with none
threads (suc zero) = thread_with (some (pending_action atomic_lock 64))
threads (suc (suc zero)) = thread_with (some (pending_action thread_join 1))
threads (suc (suc (suc n))) = thread_with none

abbrev mutexes : ℕ → MutexState
mutexes m = record { locked = some 0; recursive = false }

abbrev completed : Thread
completed = record (thread_with none) { state = thread_completed }
