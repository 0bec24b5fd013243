-- ===== src/Execution/Reads.antt =====
-- A read takes one of its candidates (execution.cc, `process_read`).
pub mod Candidate
pub mod Takes
use c11tester.Base.{
  ◌+◌, ℕ, zero, suc, ◌-◌, ◌%◌, Bool, true, false, ◌&&◌, if◌then◌else◌, Option, none, some, List, [],
  ◌∷◌, ◌++◌, length, get_or, set, take,
}
use c11tester.ClockVector.{ClockVector, merge}
use c11tester.Action
use c11tester.Action.{ModelAction, set_seq_number}
use c11tester.Action.Kinds.{nonatomic_write, atomic_read, relaxed, has_type, is_write, is_acquire}
use c11tester.Action.Rmw.{set_read_from, get_write_value}
use c11tester.Schedule.{get_current_thread}
use c11tester.CycleGraph.{add_edge}
use c11tester.DataRace.Detector.{non_atomic_store_at, flag_atomic_store_at, store_at}
use c11tester.Execution.State.{
  Execution, Source, M, ◌>>=◌, ◌>>◌, ok, gets, modify, need, assert, with_thread, with_action,
  on_graph, set_return_value, stamps, get_thread, allocate, draw,
}
use c11tester.Execution.Lists.{add_normal_write_to_lists, add_write_to_lists}
use c11tester.Execution.WriteOrder.{w_modification_order}
use c11tester.Execution.ReadOrder.{Outcome, infeasible, feasible, r_modification_order}
use c11tester.Execution.Release.{get_hb_from_write}

current_thread : Execution → Option ℕ
current_thread e = elim (get_current_thread e.scheduler) [ none ↦ none | some t ↦ t ]

-- The plain store that the race detector knows of becomes a write of the lists.
pub convert_non_atomic_store : Source → ℕ → M ℕ
unfolding current_thread
convert_non_atomic_store source location = do
  value ← gets (λ e. source.load e.made location)
  store ← gets (λ e. store_at e.detector location)
  modify (λ e. record e { detector = flag_atomic_store_at e.detector location })
  made ← gets (λ e.
      Action.new nonatomic_write relaxed location value (get_thread e (store.0)) (current_thread e))
  fresh ← need made
  numbered ← need (set_seq_number fresh (store.1))
  act ← allocate numbered
  add_normal_write_to_lists act
  modify (add_write_to_lists act)
  w_modification_order source act
  ok act

pub merge_cv : Option ClockVector → ModelAction → Option ModelAction
merge_cv none act = none
merge_cv (some cv) act = elim act.cv [
  | none ↦ none
  | some c ↦ some (record act { cv = some (merge c cv).0 })
]

-- An acquire takes over what the release sequence of the store gives.
pub take_over : ℕ → Option ClockVector → M (Unit {0})
unfolding merge_cv
take_over act none = ok tt
take_over act (some cv) = do
  a ← gets (λ e. merge_cv (some cv) (e.actions act))
  b ← need a
  with_action act (λ _. b)

pub acquire_from : ℕ → ℕ → M (Unit {0})
acquire_from act rf = do cv ← get_hb_from_write rf; take_over act cv

unfoldable pub acquire_if : Bool → ℕ → ℕ → M (Unit {0})
acquire_if true act rf = acquire_from act rf
acquire_if false act rf = ok tt

unfoldable pub read_from : ℕ → ℕ → M (Unit {0})
read_from act rf = do
  type ← gets (λ e. (e.actions rf).type)
  assert (is_write type)
  with_action act (λ a. set_read_from a rf)
  order ← gets (λ e. (e.actions act).order)
  acquire_if (is_acquire order) act rf

-- An edge from each write that must come before the store.
unfoldable pub add_priors : Source → List ℕ → ℕ → M (Unit {0})
add_priors source [] rf = ok tt
add_priors source (prior ∷ priorset) rf = do
  e ← gets (λ e. e)
  on_graph (λ g. add_edge (stamps e) source.rounds g prior rf false)
  add_priors source priorset rf

-- What an acquire fence of the thread will take over.
unfoldable pub merge_acq_fence : ℕ → Option ClockVector → M (Unit {0})
merge_acq_fence tid none = ok tt
merge_acq_fence tid (some hbcv) =
    with_thread tid (λ th. record th { acq_fence_cv = (merge th.acq_fence_cv hbcv).0 })

-- The read takes `rf`.
unfoldable pub take_write : Source → ℕ → ℕ → List ℕ → Bool → M Bool
take_write source curr rf priorset canprune = do
  add_priors source priorset rf
  read_from curr rf
  tid ← gets (λ e. (e.actions curr).tid)
  written ← gets (λ e. get_write_value (e.actions rf))
  value ← need written
  set_return_value tid value
  hbcv ← get_hb_from_write rf
  merge_acq_fence tid hbcv
  type ← gets (λ e. (e.actions curr).type)
  ok (canprune && has_type type atomic_read)

-- `(*rf_set)[index] = rf_set->back(); rf_set->pop_back();`
pub drop_at : ℕ → List ℕ → List ℕ
drop_at index rf_set =
    let last = length rf_set - 1 in take last (set rf_set index (get_or rf_set last 0))

-- The read takes the store if the order allows it, and another try is made if not.
unfoldable pub accept : Source → ℕ → ℕ → M Bool → Outcome → M Bool
accept source curr rf retry infeasible = retry
accept source curr rf retry (feasible priorset canprune) =
    take_write source curr rf priorset canprune

-- The loop, with a round for each candidate: without one `random() % 0` ends the process.
unfoldable pub try_writes : Source → ℕ → ℕ → List ℕ → M Bool
unfolding draw
try_writes source zero curr rf_set = λ e. none
try_writes source (suc n) curr rf_set = do
  random ← draw source
  let index = random % length rf_set
  let rf = get_or rf_set index 0
  outcome ← r_modification_order curr rf
  accept source curr rf (try_writes source n curr (drop_at index rf_set)) outcome

-- A plain store at the location joins the candidates.
unfoldable pub add_non_atomic : Source → Bool → ℕ → List ℕ → M (List ℕ)
unfolding convert_non_atomic_store
add_non_atomic source false location rf_set = ok rf_set
add_non_atomic source true location rf_set = do
  store ← convert_non_atomic_store source location
  ok (rf_set ++ store ∷ [])

unfoldable pub process_read : Source → ℕ → List ℕ → M Bool
unfolding add_non_atomic
process_read source curr rf_set = do
  hasnonatomicstore ← gets (λ e. non_atomic_store_at e.detector (e.actions curr).location)
  location ← gets (λ e. (e.actions curr).location)
  candidates ← add_non_atomic source hasnonatomicstore location rf_set
  try_writes source (length candidates) curr candidates
