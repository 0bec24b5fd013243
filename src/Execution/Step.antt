-- ===== src/Execution/Step.antt =====
-- One step of the execution (execution.cc): `take_step` and `check_current_action`.
pub mod Number
use c11tester.Base.{
  ℕ, Bool, true, false, not, ◌&&◌, ◌||◌, ◌==◌, if◌then◌else◌, Option, none, some, List,
}
use c11tester.Action.{ModelAction, set_seq_number}
use c11tester.Action.Kinds.{
  thread_create, pthread_create, has_type, is_rmwc, is_rmw, is_rmwr, is_read, is_write, is_fence,
  is_mutex_op, is_acquire,
}
use c11tester.Action.Rmw
use c11tester.Action.Rmw.{store_read, get_thread_operand}
use c11tester.Action.Sync.{create_cv}
use c11tester.CycleGraph.{add_rmw_edge}
use c11tester.Threads.{thread_ready, thread_blocked, state_code, is_complete}
use c11tester.Schedule.{remove_thread}
use c11tester.Execution.State.{
  Execution, Source, M, ◌>>=◌, ◌>>◌, ok, gets, modify, need, assert, on_scheduler, on_graph,
  with_action, stamps, thread, get_next_seq_num, get_last_action, get_last_fence_release,
  get_parent_action,
}
use c11tester.Execution.Lists.{add_action_to_lists, add_write_to_lists}
use c11tester.Execution.Candidates.{build_may_read_from}
use c11tester.Execution.Reads.{process_read, merge_cv}
use c11tester.Execution.WriteOrder.{process_write}
use c11tester.Execution.Life.{process_thread_action}
use c11tester.Execution.Locks.{process_mutex, check_action_enabled}
use c11tester.Execution.Sleepers.{wake_up_sleeping_actions}

-- The second half of an RMW changes the first half, the last action of the thread.
pub process_rmw : Source → ℕ → M ℕ
process_rmw source act = do
  a ← gets (λ e. e.actions act)
  last ← gets (λ e. get_last_action e a.tid)
  lastread ← need last
  with_action lastread (λ r. Rmw.process_rmw r a)
  e ← gets (λ e. e)
  if is_rmw a.type
      then (need (store_read (e.actions lastread).shared) >>= λ rf.
          on_graph (λ g. add_rmw_edge (stamps e) source.rounds g rf lastread) >> ok lastread)
      else ok lastread

parent_of : Execution → ℕ → Option ModelAction
parent_of e tid = elim (get_parent_action e tid) [ none ↦ none | some p ↦ some (e.actions p) ]

pub number_action : ℕ → M (Unit {0})
unfolding parent_of get_next_seq_num
number_action curr = do
  seq ← get_next_seq_num
  numbered ← gets (λ e. set_seq_number (e.actions curr) seq)
  act ← need numbered
  with_action curr (λ _. act)
  parent ← gets (λ e. parent_of e act.tid)
  fence ← gets (λ e. get_last_fence_release e act.tid)
  with_action curr (λ a. record (create_cv a parent) { last_fence_release = fence })

-- The action that is taken, and whether it is a new one.
pub initialize_curr_action : Source → ℕ → M (ℕ × Bool)
unfolding process_rmw number_action
initialize_curr_action source curr = do
  type ← gets (λ e. (e.actions curr).type)
  if is_rmwc type || is_rmw type
      then (process_rmw source curr >>= λ lastread. ok (lastread, false))
      else (number_action curr >> ok (curr, true))

pub process_fence : ℕ → M (Unit {0})
process_fence curr = do
  act ← gets (λ e. e.actions curr)
  th ← gets (λ e. thread e act.tid)
  if is_acquire act.order
      then (need (merge_cv (some th.acq_fence_cv) act) >>= λ a. with_action curr (λ _. a))
      else ok tt

read_new : Source → ℕ → Bool → M Bool
read_new source curr false = ok false
read_new source curr true = do
  candidates ← gets (λ e. build_may_read_from e curr)
  rf_set ← need candidates
  process_read source curr rf_set

pub check_current_action : Source → ℕ → M ℕ
unfolding initialize_curr_action read_new process_fence
check_current_action source given = do
  (curr, newly_explored) ← initialize_curr_action source given
  wake_up_sleeping_actions source
  act ← gets (λ e. e.actions curr)
  canprune ← read_new source curr (is_read act.type && newly_explored)
  if newly_explored then modify (add_action_to_lists curr canprune) else ok tt
  if is_write act.type then modify (add_write_to_lists curr) else ok tt
  process_thread_action curr
  if is_write act.type then process_write source curr else ok tt
  if is_fence act.type then process_fence curr else ok tt
  if is_mutex_op act.type then (process_mutex source curr >>= λ updated. ok tt) else ok tt
  ok curr

-- The thread that an action names to go on next.
pub action_select_next_thread : ModelAction → Option ℕ
action_select_next_thread curr =
    if is_rmwr curr.type
    then some curr.tid
    else if has_type curr.type thread_create || has_type curr.type pthread_create
    then get_thread_operand curr
    else none

-- `is_blocked() || is_complete()`
pub stands_still : Execution → ℕ → Bool
stands_still e t =
    state_code (thread e t).state == state_code thread_blocked || is_complete (thread e t)

pub take_step : Source → ℕ → M (Option ℕ)
unfolding check_current_action action_select_next_thread stands_still
take_step source curr = do
  tid ← gets (λ e. (e.actions curr).tid)
  state ← gets (λ e. (thread e tid).state)
  assert (state_code state == state_code thread_ready)
  checked ← gets (λ e. check_action_enabled e (e.actions curr))
  enabled ← need checked
  assert enabled
  taken ← check_current_action source curr
  still ← gets (λ e. stands_still e tid)
  if still then on_scheduler (λ s. some (remove_thread s tid)) else ok tt
  gets (λ e. action_select_next_thread (e.actions taken))
