-- ===== src/Threads.antt =====
-- Threads of the program under test (threads.cc, threads-model.h): their state, and which thread
-- waits on which. A pointer to a thread is its id, and to a mutex its address; `none` is NULL.
-- The machine context, the stack, and the thread-local storage are not modelled: a context switch
-- is its effect on the state of the thread that is left or entered.
pub mod State
mod Tests
pub mod Waiting
use c11tester.Base.{
  ℕ, ◌≡◌, Bool, true, false, not, ◌&&◌, ◌||◌, ◌==◌, Option, none, some, if◌then◌else◌,
}
use c11tester.ClockVector.{ClockVector}
use c11tester.ClockVector
use c11tester.Action.{ModelAction, value_none}

pub data ThreadState : Type 0 where
  thread_created thread_running thread_ready thread_blocked thread_completed thread_freed :
      ThreadState

abbrev pub state_code : ThreadState → ℕ
state_code thread_created = 0
state_code thread_running = 1
state_code thread_ready = 2
state_code thread_blocked = 3
state_code thread_completed = 4
state_code thread_freed = 5

pub record Thread : Type 0 where
  pub parent : Option ℕ
  pub acq_fence_cv : ClockVector
  pub creation : Option ℕ
  pub pending : Option ModelAction
  pub wakeup_state : Bool
  pub id : ℕ
  pub state : ThreadState
  pub last_action_val : ℕ
  pub model_thread : Bool

-- `new ClockVector()`
empty_cv : ClockVector
empty_cv = ClockVector.new none none

-- A thread for the checker's own bookkeeping.
pub new_model_thread : ℕ → Thread
unfolding empty_cv
new_model_thread tid = record {
  parent = none;
  acq_fence_cv = empty_cv;
  creation = none;
  pending = none;
  wakeup_state = false;
  id = tid;
  state = thread_ready;
  last_action_val = 0;
  model_thread = true;
}

-- A thread of the program; the two constructors differ in the type of the start routine only.
pub new_thread : ℕ → Option ℕ → Thread
unfolding empty_cv
new_thread tid parent = record {
  parent = parent;
  acq_fence_cv = empty_cv;
  creation = none;
  pending = none;
  wakeup_state = false;
  id = tid;
  state = thread_created;
  last_action_val = value_none;
  model_thread = false;
}

unfoldable pub is_complete : Thread → Bool
is_complete t =
    state_code t.state == state_code thread_completed
    || state_code t.state == state_code thread_freed

-- `none` is a failed assertion, which ends the process.
unfoldable pub set_state : Thread → ThreadState → Option Thread
set_state t s =
    if state_code s == state_code thread_completed
      || not (state_code t.state == state_code thread_completed)
    then some (record t { state = s })
    else none

pub complete : Thread → Option Thread
unfolding is_complete
complete t = if not (is_complete t) then some (record t { state = thread_completed }) else none

pub free_resources : Thread → Thread
free_resources t = record t { state = thread_freed }

-- The three forms of `swap`: from a thread to the system context, from the system context to a
-- thread, and between two threads (the same one gets no switch).
pub swap_out : Thread → Option Thread
unfolding set_state
swap_out t = set_state t thread_ready

pub swap_in : Thread → Option Thread
unfolding set_state
swap_in t = set_state t thread_running

pub swap_between : Thread → Thread → Option (Thread × Bool)
unfolding set_state
swap_between t t2 = elim (set_state t2 thread_running) [
  | none ↦ none
  | some u ↦ some (u, not (t.id == t2.id))
]

pub set_wakeup_state : Thread → Bool → Thread
set_wakeup_state t b = record t { wakeup_state = b }
