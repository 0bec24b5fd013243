-- ===== src/Execution/Locks.antt =====
-- Mutexes and condition variables (execution.cc): `process_mutex`, `check_action_enabled` and
-- `synchronize`. The state of a mutex holds the thread that has locked it.
pub mod Acquire
pub mod Waking
use c11tester.Base.{
  ℕ, zero, suc, ◌+◌, ◌-◌, Bool, true, false, not, ◌&&◌, ◌==◌, ltb, if◌then◌else◌, Option, none,
  some, List, [], ◌∷◌, ◌++◌, update,
}
use c11tester.Action.{ModelAction}
use c11tester.Action.Kinds.{
  ActionType, thread_join, pthread_join, thread_sleep, atomic_lock, atomic_trylock, atomic_unlock,
  atomic_wait, atomic_timedwait, atomic_notify_all, atomic_notify_one, is_lock,
}
use c11tester.Action.Rmw.{get_mutex, get_thread_operand, set_try_lock}
use c11tester.Action.Sync
use c11tester.Threads.{thread_completed, state_code, is_complete, set_wakeup_state}
use c11tester.Threads.Waiting.{MutexState, waiting_on}
use c11tester.Schedule.{add_sleep, sleep, wake}
use c11tester.Execution.State.{
  Execution, Source, M, ◌>>=◌, ◌>>◌, ok, gets, modify, need, assert, on_scheduler, with_thread,
  with_action, set_return_value, thread, get_num_threads,
}
use c11tester.Execution.Fences.{get_last_unlock}
use c11tester.Execution.Lists.{get_safe_ptr}
use c11tester.Execution.Fuzz.{wait_should_fail, randomize_wait_time, select_notify, should_sleep}

pub set_owner : ℕ → Option ℕ → Execution → Execution
set_owner m owner e = record e {
  mutexes = update e.mutexes m (record (e.mutexes m) { locked = owner });
}

pub synchronize : ℕ → ℕ → M Bool
synchronize first second = do
  late ← gets (λ e. ltb (e.actions second).seq_number (e.actions first).seq_number)
  assert (not late)
  merged ← gets (λ e. Sync.synchronize_with (e.actions second) (e.actions first))
  r ← need merged
  with_action second (λ _. r.0)
  ok (r.1)

-- `t->waiting_on() == owner && t->get_pending()->...`
pub waits_with : (ModelAction → Bool) → Execution → ℕ → ℕ → Bool
waits_with test e t owner =
    elim (waiting_on e.scheduler.threads e.mutexes t) [ none ↦ false | some w ↦ w == owner ]
    && elim (thread e t).pending [ none ↦ false | some act ↦ test act ]

pub wake_thread : ℕ → M (Unit {0})
wake_thread t = on_scheduler (λ s. wake s t)

-- The loop over the threads: those that wait on a thread with such an action are woken up.
pub wake_waiting : (ModelAction → Bool) → ℕ → ℕ → ℕ → M (Unit {0})
unfolding wake_thread
wake_waiting test owner zero t = ok tt
wake_waiting test owner (suc n) t = do
  waits ← gets (λ e. waits_with test e t owner)
  if waits then wake_thread t else ok tt
  wake_waiting test owner n (t + 1)

pub wake_all_waiting : (ModelAction → Bool) → ℕ → M (Unit {0})
unfolding wake_waiting
wake_all_waiting test owner = do
  n ← gets (λ e. get_num_threads e)
  wake_waiting test owner (n - 1) 1

-- The threads that wait for a lock of `tid` are woken up, and the lock is given back.
pub give_back : ℕ → ℕ → M (Unit {0})
unfolding set_owner
give_back tid m = do wake_all_waiting (λ act. is_lock act.type) tid; modify (set_owner m none)

pub grab : ℕ → ℕ → ℕ → M Bool
unfolding set_owner synchronize
grab curr tid m = do
  modify (set_owner m (some tid))
  unlock ← gets (λ e. get_last_unlock e curr)
  elim unlock [ none ↦ ok false | some u ↦ synchronize u curr >>= λ updated. ok true ]

pub try_lock : ℕ → ℕ → ℕ → M Bool
unfolding grab
try_lock curr tid m = do
  success ← gets (λ e. elim (e.mutexes m).locked [ none ↦ true | some t ↦ false ])
  with_action curr (λ act. set_try_lock act success)
  set_return_value tid (if success then 1 else 0)
  if success then grab curr tid m else ok false

-- The thread of the action waits at its condition variable.
pub join_waiters : ℕ → M (Unit {0})
join_waiters curr = modify (λ e.
    let location = (e.actions curr).location in
    record e {
      condvar_waiters_map =
          update e.condvar_waiters_map location
            (some (get_safe_ptr e.condvar_waiters_map location ++ curr ∷ []));
    })

-- `set_pending(curr)`, which comes after the time of the wait is set: a thread keeps a copy of
-- the action here.
pub keep_pending : ℕ → ℕ → M (Unit {0})
keep_pending curr tid = do
  act ← gets (λ e. e.actions curr)
  with_thread tid (λ th. record th { pending = some act })

pub wait : Source → ℕ → ℕ → ℕ → M Bool
unfolding give_back join_waiters keep_pending
wait source curr tid m = do
  give_back tid m
  join_waiters curr
  fails ← wait_should_fail source curr
  keep_pending curr tid
  on_scheduler (λ s. if fails then some (add_sleep s tid) else sleep s tid)
  ok false

pub timed_wait : Source → ℕ → ℕ → ℕ → M Bool
unfolding give_back join_waiters keep_pending
timed_wait source curr tid m = do
  waits ← randomize_wait_time source curr
  if waits
      then (give_back tid m
          >> (join_waiters curr
              >> (keep_pending curr tid
                  >> (on_scheduler (λ s. some (add_sleep s tid)) >> ok false))))
      else (set_return_value tid source.etimedout >> ok false)

-- A waiter goes on, if it has not completed.
pub notify : ℕ → M (Unit {0})
unfolding wake_thread
notify t = do
  completed ← gets (λ e. state_code (thread e t).state == state_code thread_completed)
  if completed then ok tt else wake_thread t
  with_thread t (λ th. set_wakeup_state th true)

pub notify_each : List ℕ → M (Unit {0})
unfolding notify
notify_each [] = ok tt
notify_each (a ∷ waiters) = do t ← gets (λ e. (e.actions a).tid); notify t; notify_each waiters

pub notify_all : ℕ → M Bool
unfolding notify_each
notify_all location = do
  waiters ← gets (λ e. get_safe_ptr e.condvar_waiters_map location)
  notify_each waiters
  modify (λ e. record e { condvar_waiters_map = update e.condvar_waiters_map location (some []) })
  ok false

pub notify_one : Source → ℕ → M Bool
unfolding notify
notify_one source location = do
  waiters ← gets (λ e. get_safe_ptr e.condvar_waiters_map location)
  elim waiters [
    | [] ↦ ok false
    | a ∷ rest ↦ do t ← select_notify source location; notify t; ok false
  ]

-- By the type of the action. The mutex of a notification is NULL, and is not used.
pub process_mutex_as : ActionType → Source → ℕ → ℕ → Option ℕ → ℕ → M Bool
unfolding try_lock grab wait timed_wait give_back notify_all notify_one
process_mutex_as atomic_trylock source curr tid (some m) location = try_lock curr tid m
process_mutex_as atomic_lock source curr tid (some m) location = grab curr tid m
process_mutex_as atomic_wait source curr tid (some m) location = wait source curr tid m
process_mutex_as atomic_timedwait source curr tid (some m) location = timed_wait source curr tid m
process_mutex_as atomic_unlock source curr tid (some m) location = give_back tid m >> ok false
process_mutex_as atomic_notify_all source curr tid m location = notify_all location
process_mutex_as atomic_notify_one source curr tid m location = notify_one source location
process_mutex_as _ source curr tid m location = λ e. none

pub process_mutex : Source → ℕ → M Bool
unfolding process_mutex_as
process_mutex source curr = do
  act ← gets (λ e. e.actions curr)
  process_mutex_as act.type source curr act.tid (get_mutex act) act.location

-- Whether a lock may be taken: it is free, or the thread has it already and it is recursive.
pub lock_enabled : Option ℕ → Bool → ℕ → Bool
lock_enabled none recursive tid = true
lock_enabled (some owner) recursive tid = owner == tid && recursive

join_enabled : Execution → Option ℕ → Option Bool
join_enabled e none = none
join_enabled e (some t) = some (is_complete (thread e t))

enabled_as : ActionType → Execution → ModelAction → Option Bool
unfolding lock_enabled join_enabled
enabled_as atomic_lock e act = elim (get_mutex act) [
  | none ↦ none
  | some m ↦ some (lock_enabled (e.mutexes m).locked (e.mutexes m).recursive act.tid)
]
enabled_as thread_join e act = join_enabled e (get_thread_operand act)
enabled_as pthread_join e act = join_enabled e (get_thread_operand act)
enabled_as thread_sleep e act = some should_sleep
enabled_as _ e act = some true

-- `none` is the use of a null pointer.
unfoldable pub check_action_enabled : Execution → ModelAction → Option Bool
unfolding enabled_as
check_action_enabled e act = enabled_as act.type e act
