-- ===== src/Execution/State.antt =====
-- The state of an execution (execution.h, and the first accessors of execution.cc).
-- A pointer to an action is its number in `actions`, and 0 is no action that was ever made: NULL is
-- `none`. An object is its address. A list that the source only walks from its end is kept with its
-- end first: the lists of actions and of writes, and `obj_map`; the list of waiters is in order.
-- A map of pointers to lists gives `none` where it has no entry. The hash tables are maps
-- here, and `action_list_t` (actionlist.cc) is a list in the order of the sequence numbers.
pub mod After
pub mod Queries
use c11tester.Base.{
  ℕ, zero, suc, ◌+◌, ◌-◌, ◌^◌, ◌%◌, Bool, true, false, not, ◌&&◌, ◌||◌, ◌==◌, leb, ltb,
  if◌then◌else◌, Option, none, some, List, [], ◌∷◌, ◌++◌, length, get_or, update,
}
use c11tester.ClockVector.{ClockVector, Stamp, synchronized_since}
use c11tester.Action.{ModelAction, new_sleep}
use c11tester.Action.Kinds.{thread_sleep, relaxed}
use c11tester.Action.Sync.{stamp}
use c11tester.Threads.{Thread, new_model_thread}
use c11tester.Threads.Waiting.{MutexState}
use c11tester.Schedule
use c11tester.Schedule.{Scheduler, is_enabled, add_thread}
use c11tester.CycleGraph.{CycleGraph, new_node}
use c11tester.DataRace.Detector.{Detector, init_race_detector}

-- What comes from outside: the results of the n-th call of `random()` and of `clock_gettime`, and
-- what the program's memory holds at an address when n actions were made. `rounds` is the fuel for
-- the loops of the modification order graph, `etimedout` the error number of the C library.
pub record Source : Type 0 where
  pub random : ℕ → ℕ
  pub clock : ℕ → ℕ
  pub load : ℕ → ℕ → ℕ
  pub rounds : ℕ
  pub etimedout : ℕ

pub record Execution : Type 0 where
  pub scheduler : Scheduler
  -- `next_thread_id`, `used_sequence_numbers` and `asserted` of `priv`.
  pub next_thread_id : ℕ
  pub used_sequence_numbers : ℕ
  pub asserted : Bool
  pub isfinished : Bool
  -- The heap of actions, and how many were made.
  pub actions : ℕ → ModelAction
  pub made : ℕ
  -- `rf_cv` of each action.
  pub rf_cv : ℕ → Option ClockVector
  pub action_trace : List ℕ
  pub obj_map : ℕ → Option (List ℕ)
  pub condvar_waiters_map : ℕ → Option (List ℕ)
  pub obj_thrd_map : ℕ → Option (List (List ℕ))
  pub obj_wr_thrd_map : ℕ → Option (List (List ℕ))
  pub obj_last_sc_map : ℕ → Option ℕ
  pub mutexes : ℕ → MutexState
  pub thrd_last_action : List (Option ℕ)
  pub thrd_last_fence_release : List (Option ℕ)
  pub pthread_map : List (Option ℕ)
  pub pthread_counter : ℕ
  pub mo_graph : CycleGraph
  pub detector : Detector
  -- How many calls of each of the two functions were made.
  pub drawn : ℕ
  pub clocked : ℕ

-- A computation on the execution; `none` is a failed assertion, the use of a null pointer, an
-- access out of bounds, or fuel that is out.
abbrev pub M : Type 0 → Type 0
M A = Execution → Option (A × Execution)

infixl 5 ◌>>=◌ ◌>>◌
abbrev pub ◌>>=◌ : {A B : Type 0} → M A → (A → M B) → M B
◌>>=◌ m f e = elim (m e) [ none ↦ none | some (a, e') ↦ f a e' ]

abbrev pub ◌>>◌ : {B : Type 0} → M (Unit {0}) → M B → M B
◌>>◌ m k e = elim (m e) [ none ↦ none | some (_, e') ↦ k e' ]

abbrev pub ok : {A : Type 0} → A → M A
ok a e = some (a, e)

abbrev pub gets : {A : Type 0} → (Execution → A) → M A
gets f e = some (f e, e)

abbrev pub modify : (Execution → Execution) → M (Unit {0})
modify f e = some (tt, f e)

-- The value that must be there.
abbrev pub need : {A : Type 0} → Option A → M A
need none e = none
need (some a) e = some (a, e)

abbrev pub assert : Bool → M (Unit {0})
assert true e = some (tt, e)
assert false e = none

-- ASSERT and the use of a scheduler operation that may fail.
abbrev pub on_scheduler : (Scheduler → Option Scheduler) → M (Unit {0})
on_scheduler f e = elim (f e.scheduler) [
  | none ↦ none
  | some s ↦ some (tt, record e { scheduler = s })
]

abbrev pub thread : Execution → ℕ → Thread
thread e t = e.scheduler.threads t

abbrev pub set_thread : Execution → ℕ → Thread → Execution
set_thread e t th = record e {
  scheduler = record e.scheduler { threads = update e.scheduler.threads t th };
}

abbrev pub set_action : Execution → ℕ → ModelAction → Execution
set_action e a act = record e { actions = update e.actions a act }

-- An operation of a thread, of an action, and of the modification order graph.
abbrev pub with_thread : ℕ → (Thread → Thread) → M (Unit {0})
with_thread t f e = some (tt, set_thread e t (f (thread e t)))

abbrev pub with_action : ℕ → (ModelAction → ModelAction) → M (Unit {0})
with_action a f e = some (tt, set_action e a (f (e.actions a)))

abbrev pub on_graph : (CycleGraph → Option CycleGraph) → M (Unit {0})
on_graph f e = elim (f e.mo_graph) [ none ↦ none | some g ↦ some (tt, record e { mo_graph = g }) ]

abbrev pub set_return_value : ℕ → ℕ → M (Unit {0})
set_return_value t v = with_thread t (λ th. record th { last_action_val = v })

abbrev pub stamps : Execution → ℕ → Stamp
stamps e a = stamp (e.actions a)

pub get_next_id : M ℕ
get_next_id e = some (e.next_thread_id, record e { next_thread_id = e.next_thread_id + 1 })

abbrev pub get_num_threads : Execution → ℕ
get_num_threads e = e.next_thread_id

unfoldable pub get_next_seq_num : M ℕ
get_next_seq_num e =
    let n = e.used_sequence_numbers + 1 in some (n, record e { used_sequence_numbers = n })

pub restore_last_seq_num : Execution → Execution
restore_last_seq_num e = record e { used_sequence_numbers = e.used_sequence_numbers - 1 }

pub set_assert : Execution → Execution
set_assert e = record e { asserted = true }

pub set_finished : Execution → Execution
set_finished e = record e { isfinished = true }

-- `thread_map` has the threads below `next_thread_id`.
pub get_thread : Execution → ℕ → Option ℕ
get_thread e tid = if ltb tid e.next_thread_id then some tid else none

-- The entry of a new thread in `thread_map` is the thread itself in the store.
pub add_new_thread : ℕ → Thread → M (Unit {0})
add_new_thread t th e =
    let e' = set_thread e t th in
    elim th.model_thread [ true ↦ some (tt, e') | false ↦ on_scheduler (λ s. add_thread s t) e' ]

unfoldable pub get_last_action : Execution → ℕ → Option ℕ
get_last_action e tid = get_or e.thrd_last_action tid none

unfoldable pub get_last_fence_release : Execution → ℕ → Option ℕ
get_last_fence_release e tid = get_or e.thrd_last_fence_release tid none

unfoldable pub get_parent_action : Execution → ℕ → Option ℕ
unfolding get_last_action
get_parent_action e tid = elim (get_last_action e tid) [
  | some a ↦ some a
  | none ↦ (thread e tid).creation
]

unfoldable pub get_cv : Execution → ℕ → Option ClockVector
unfolding get_parent_action
get_cv e tid = elim (get_parent_action e tid) [ none ↦ none | some a ↦ (e.actions a).cv ]

-- `a->happens_before(b)`; `none` where `b` has no clock vector.
unfoldable pub before : Execution → ℕ → ℕ → Option Bool
before e a b = elim (e.actions b).cv [
  | none ↦ none
  | some c ↦ some (synchronized_since c (stamps e a))
]

-- `*a < *b`
abbrev pub earlier : Execution → ℕ → ℕ → Bool
earlier e a b = ltb (e.actions a).seq_number (e.actions b).seq_number

unfoldable pub draw : Source → M ℕ
draw source e = some (source.random e.drawn, record e { drawn = e.drawn + 1 })

pub now : Source → M ℕ
now source e = some (source.clock e.clocked, record e { clocked = e.clocked + 1 })

-- The threads of the program from the main thread on.
blocking_from : ℕ → ℕ → Execution → Bool → Bool
blocking_from zero t e blocking = blocking
blocking_from (suc n) t e blocking =
    let th = thread e t in
    let rest = blocking_from n (t + 1) e (
      if not th.model_thread && elim th.pending [ none ↦ false | some a ↦ true ]
      then true
      else blocking) in
    if is_enabled e.scheduler t then false else rest

pub is_deadlocked : Execution → Bool
unfolding blocking_from
is_deadlocked e = blocking_from (get_num_threads e - 1) 1 e false

complete_from : ℕ → ℕ → Execution → Bool
complete_from zero t e = true
complete_from (suc n) t e =
    let rest = complete_from n (t + 1) e in if is_enabled e.scheduler t then false else rest

pub is_complete_execution : Execution → Bool
unfolding complete_from
is_complete_execution e = complete_from (get_num_threads e - 1) 1 e

-- A vector is read at an index; `none` is an access out of bounds.
abbrev pub get_elem? {ℓ} : {A : Type ℓ} → List A → ℕ → Option A
get_elem? [] i = none
get_elem? (x ∷ xs) zero = some x
get_elem? (x ∷ xs) (suc i) = get_elem? xs i

-- The main thread has the id 1 in both numberings.
pub get_pthread : Execution → ℕ → Option (Option ℕ)
unfolding get_thread
get_pthread e pid =
    if pid == 1
    then some (get_thread e pid)
    else let thread_id = pid % 2 ^ 32 in
      if ltb thread_id (e.pthread_counter + 1) then get_elem? e.pthread_map thread_id else some none

-- The address of a new action.
pub allocate : ModelAction → M ℕ
allocate act e = let a = e.made + 1 in some (a, record (set_action e a act) { made = a })

-- What stands at an address where no action was made.
unmade : ModelAction
unmade = new_sleep thread_sleep relaxed 0 0 none

-- The constructor, with the model-checker thread that it makes.
pub new : Execution
unfolding unmade
new = record {
  scheduler = Schedule.new (λ t. new_model_thread t);
  next_thread_id = 1;
  used_sequence_numbers = 0;
  asserted = false;
  isfinished = false;
  actions = λ a. unmade;
  made = 0;
  rf_cv = λ a. none;
  action_trace = [];
  obj_map = λ x. none;
  condvar_waiters_map = λ x. none;
  obj_thrd_map = λ x. none;
  obj_wr_thrd_map = λ x. none;
  obj_last_sc_map = λ x. none;
  mutexes = λ x. record { locked = none; recursive = false };
  thrd_last_action = none ∷ [];
  thrd_last_fence_release = [];
  pthread_map = [];
  pthread_counter = 2;
  mo_graph = record { node = λ a. new_node (stamp unmade); present = λ a. false };
  detector = init_race_detector;
  drawn = 0;
  clocked = 0;
}
