-- ===== src/Execution/Sleepers.antt =====
-- Which sleeping threads go on (execution.cc, `should_wake_up` and `wake_up_sleeping_actions`).
use c11tester.Base.{
  ℕ, zero, suc, ◌+◌, ◌-◌, Bool, true, false, ◌==◌, if◌then◌else◌, some, List, [], ◌∷◌, update,
}
use c11tester.Action.{ModelAction}
use c11tester.Action.Kinds.{
  ActionType, thread_sleep, atomic_wait, atomic_timedwait, is_sleep, is_wait, is_timedwait,
}
use c11tester.Threads.{set_wakeup_state}
use c11tester.Schedule.{is_sleep_set, remove_sleep}
use c11tester.Execution.State.{
  Execution, Source, M, ◌>>=◌, ◌>>◌, ok, gets, modify, need, on_scheduler, with_thread,
  set_return_value, thread, get_num_threads,
}
use c11tester.Execution.Lists.{get_safe_ptr}
use c11tester.Execution.Fuzz.{should_wake, wait_should_wake_up}

should_wake_up_as : ActionType → Source → ModelAction → M Bool
should_wake_up_as thread_sleep source asleep = should_wake source asleep
should_wake_up_as atomic_wait source asleep = wait_should_wake_up source asleep
should_wake_up_as atomic_timedwait source asleep = wait_should_wake_up source asleep
should_wake_up_as _ source asleep = ok false

pub should_wake_up : Source → ModelAction → M Bool
unfolding should_wake_up_as
should_wake_up source asleep = should_wake_up_as asleep.type source asleep

-- The first waiter of a thread leaves the list.
pub erase_thread : Execution → ℕ → List ℕ → List ℕ
erase_thread e tid [] = []
erase_thread e tid (a ∷ waiters) =
    if (e.actions a).tid == tid then waiters else a ∷ erase_thread e tid waiters

pub leave_waiters : ℕ → ℕ → Execution → Execution
unfolding erase_thread
leave_waiters tid location e = record e {
  condvar_waiters_map =
      update e.condvar_waiters_map location
        (some (erase_thread e tid (get_safe_ptr e.condvar_waiters_map location)));
}

-- A thread leaves the sleep set; a wait ends without a notification.
pub wake_sleeper : Source → ℕ → ModelAction → M (Unit {0})
unfolding leave_waiters
wake_sleeper source tid pending = do
  on_scheduler (λ s. some (remove_sleep s tid))
  if is_sleep pending.type
      then with_thread tid (λ th. set_wakeup_state th true)
      else if is_wait pending.type
      then (with_thread tid (λ th. set_wakeup_state th true)
          >> (modify (leave_waiters tid pending.location)
              >> (if is_timedwait pending.type
                  then set_return_value tid source.etimedout
                  else ok tt)))
      else ok tt

pub visit_sleeper : Source → ℕ → M (Unit {0})
unfolding should_wake_up wake_sleeper
visit_sleeper source tid = do
  waiting ← gets (λ e. (thread e tid).pending)
  pending ← need waiting
  wakes ← should_wake_up source pending
  if wakes then wake_sleeper source tid pending else ok tt

pub wake_from : Source → ℕ → ℕ → M (Unit {0})
unfolding visit_sleeper
wake_from source zero tid = ok tt
wake_from source (suc n) tid = do
  status ← gets (λ e. is_sleep_set e.scheduler tid)
  asleep ← need status
  if asleep then visit_sleeper source tid else ok tt
  wake_from source n (tid + 1)

pub wake_up_sleeping_actions : Source → M (Unit {0})
unfolding wake_from
wake_up_sleeping_actions source = do n ← gets (λ e. get_num_threads e); wake_from source (n - 1) 1
