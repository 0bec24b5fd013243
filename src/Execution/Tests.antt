-- ===== src/Execution/Tests.antt =====
-- The theorems of the execution at concrete inputs.
use c11tester.Base.{
  zero, suc, inr, length, ◌%◌, ◌^◌, Bool, ℕ, ◌+◌, ◌-◌, ◌<◌, ◌≤◌, ◌≡◌, ◌≢◌, ◌↔◌, ◌⊎◌, inl, refl,
  ◌==◌, ◌||◌, true, false, Option, none, some, List, [], ◌∷◌, if◌then◌else◌, update, IsIn, arith,
}
use mathlib.Core.List.{Perm}
use c11tester.ClockVector.{ClockVector, synchronized_since, get_clock}
use c11tester.Action.{ModelAction, reads_from}
use c11tester.Action.Kinds.{
  ActionType, atomic_write, atomic_read, atomic_rmw, atomic_lock, atomic_unlock, MemoryOrder,
  relaxed, release, is_read, is_write, is_rmw, is_rmwc, is_rmwrcas, is_rmwr, is_lock, is_unlock,
  is_wait, is_acquire, is_release, is_seqcst, is_trylock,
}
use c11tester.Action.Rmw.{get_mutex, get_write_value, set_read_from}
use c11tester.Action.Sync.{Hb}
use c11tester.Threads.{Thread, is_complete, thread_completed, thread_blocked}
use c11tester.Schedule.{Scheduler, is_enabled}
use c11tester.CycleGraph.{CycleNode, CycleGraph, check_reachable_actions}
use c11tester.CycleGraph.Edges.{Edge, clock_at}
use c11tester.CycleGraph.Propagation.{Ordered}
use c11tester.CycleGraph.Monotone.{IsConsistent as GraphIsConsistent, IsClosed, Walk}
use c11tester.DataRace.Cell.{Shadow, full, has_non_atomic_store}
use c11tester.DataRace.Detector.{init_race_detector, non_atomic_store_at, lookup_address_entry}
use c11tester.Execution.State.{
  Source, Execution, get_parent_action, get_last_action, get_last_fence_release, get_num_threads,
  is_deadlocked, get_cv, get_pthread, before, draw,
}
use c11tester.Execution.State.Queries.{is_deadlocked_iff, is_pending, get_pthread_faults_iff}
use c11tester.Execution.Lists.{add_action_to_lists, resize}
use c11tester.Execution.Lists.Order.{IsOrdered, add_action_to_lists-IsOrdered}
use c11tester.Execution.Fences.{get_last_seq_cst_fence, get_last_unlock, newest, ends_lock}
use c11tester.Execution.Collect.{compute_minimal_cv, compute_minimal_cv_misses}
use c11tester.Execution.Candidates.{
  build_may_read_from, last_sc, scan_threads, scan_writes, allow_read, sc_forbids, rmw_forbids,
}
use c11tester.Execution.Candidates.Coherence.{SomeVisible}
use c11tester.Execution.Candidates.Found.{HasVectors, build_may_read_from_iff}
use c11tester.Execution.ReadOrder.{
  feasible, r_modification_order, visit, fences_of, skips, walk, fence_orders, precedes,
  order_before, happened, or_else, push_back,
}
use c11tester.Execution.ReadOrder.Coherent.{
  r_modification_order-IsUnreached, r_modification_order_own,
}
use c11tester.Execution.Release.{
  Cache, hb_from_write, get_hb_from_write, collect, stops, rounds, round, uncached, by_fence, keep,
  has_vector,
}
use c11tester.Execution.Reads.{
  process_read, add_non_atomic, try_writes, accept, take_write, add_priors, read_from, acquire_if,
  merge_acq_fence,
}
use c11tester.Execution.Reads.Takes.{process_read-SomeVisible}
use c11tester.Execution.Release.Sequence.{
  HbFrom, Sequence, starts, follows, IsClocked, IsConsistent,
}
use c11tester.Execution.Release.Correct.{hb_from_write-HbFrom}
use c11tester.Execution.Locks.{check_action_enabled, process_mutex, give_back, set_owner}
use c11tester.Execution.Locks.Waking.{Woken, give_back_wakes}
use c11tester.Execution.Locks.Acquire.{process_mutex-lock}
use c11tester.Execution.Step.{initialize_curr_action}
use c11tester.Execution.Step.Number.{initialize_curr_action_new}

abbrev action : ActionType → MemoryOrder → ℕ → ℕ → ℕ → List ℕ → Option ℕ → ModelAction
action type order location tid seq_number clock rf = record {
  location = location;
  position = none;
  shared = reads_from rf;
  last_fence_release = none;
  cv = some (record { clock = clock });
  value = 0;
  type = type;
  order = order;
  original_order = order;
  tid = tid;
  seq_number = seq_number;
  thread_operand = none;
}

-- At location 8: two writes of thread 1 (the first one a release), its read, and an RMW of thread
-- 2 that reads the first write. At 100: an unlock of thread 1, and a lock of thread 2.
abbrev store : ℕ → ModelAction
store a =
    if a == 1
    then action atomic_write release 8 1 1 (0 ∷ 1 ∷ []) none
    else if a == 2
    then action atomic_write relaxed 8 1 2 (0 ∷ 2 ∷ []) none
    else if a == 3
    then action atomic_read relaxed 8 1 3 (0 ∷ 3 ∷ []) none
    else if a == 4
    then action atomic_rmw relaxed 8 2 4 (0 ∷ 0 ∷ 4 ∷ []) (some 1)
    else if a == 5
    then action atomic_unlock release 100 1 5 (0 ∷ 5 ∷ []) none
    else if a == 6
    then action atomic_lock relaxed 100 2 6 (0 ∷ 0 ∷ 6 ∷ []) none
    else action atomic_write relaxed 8 1 0 [] none

-- Every thread waits to take the lock at 100.
abbrev waiter : ℕ → Thread
waiter t = record {
  parent = none;
  acq_fence_cv = record { clock = [] };
  creation = none;
  pending = some (store 6);
  wakeup_state = false;
  id = t;
  state = thread_blocked;
  last_action_val = 0;
  model_thread = false;
}

abbrev writes : Option (List (List ℕ))
writes = some ([] ∷ (2 ∷ 1 ∷ []) ∷ [])

abbrev execution : Execution
execution = record {
  scheduler = record { enabled = []; curr_thread_index = 0; current = none; threads = waiter };
  next_thread_id = 3;
  used_sequence_numbers = 6;
  asserted = false;
  isfinished = false;
  actions = store;
  made = 6;
  rf_cv = λ a. none;
  action_trace = 5 ∷ 2 ∷ 1 ∷ [];
  obj_map = λ x. if x == 100 then some (5 ∷ []) else none;
  condvar_waiters_map = λ x. none;
  obj_thrd_map = λ x. if x == 8 then writes else none;
  obj_wr_thrd_map = λ x. if x == 8 then writes else none;
  obj_last_sc_map = λ x. none;
  mutexes = λ x. record { locked = none; recursive = false };
  thrd_last_action = none ∷ some 5 ∷ some 4 ∷ [];
  thrd_last_fence_release = [];
  pthread_map = none ∷ none ∷ none ∷ [];
  pthread_counter = 3;
  mo_graph = record {
    node = λ a. record {
      action = record { tid = 0; seq_number = 0 };
      edges = [];
      inedges = [];
      has_rmw = none;
      cv = record { clock = [] };
    };
    present = λ a. false;
  };
  detector = init_race_detector;
  drawn = 0;
  clocked = 0;
}

abbrev outside : Source
outside = record { random = λ n. n; clock = λ n. n; load = λ n a. 0; rounds = 10; etimedout = 110 }

head-IsClocked : IsClocked store 1
unfolding is_write
head-IsClocked = record { is_store = refl; own = (_, refl); fenced = λ fence h. cc }

rmw-IsClocked : IsClocked store 4
unfolding is_write
rmw-IsClocked = record { is_store = refl; own = (_, refl); fenced = λ fence h. cc }

sequence : Sequence store 1 4
unfolding is_rmw is_acquire is_release
sequence = follows 4 1 refl refl rmw-IsClocked (starts 1 refl head-IsClocked)

abbrev no_cache : Cache
no_cache a = none

nothing_cached : IsConsistent store no_cache
nothing_cached a c h = cc

hb_from_write-HbFrom_example :
    (vec : Option ClockVector) × (rf_cv : Cache) × (hb_from_write store 2 no_cache 4
      ≡ some (vec, rf_cv))
    × HbFrom store 4 vec
    × IsConsistent store rf_cv
hb_from_write-HbFrom_example =
    hb_from_write-HbFrom store 2 no_cache 4 nothing_cached sequence (omega arith)

reader_is_read : is_read (store 3).type ≡ true
unfolding is_read
reader_is_read = refl

no_cas : is_rmwrcas (store 3).type ≡ false
unfolding is_rmwrcas
no_cas = refl

reader_vectors : HasVectors execution 3 (last_sc execution 3)
unfolding last_sc is_seqcst
reader_vectors = (record { clock = 0 ∷ 3 ∷ [] }, refl)

build_may_read_from_iff_example :
    (rf_set : List ℕ) × (build_may_read_from execution 3 ≡ some rf_set)
    × ((a : ℕ)
        → IsIn a rf_set ↔ SomeVisible execution 3 (last_sc execution 3) ([] ∷ (2 ∷ 1 ∷ []) ∷ []) a)
build_may_read_from_iff_example =
    build_may_read_from_iff execution 3 ([] ∷ (2 ∷ 1 ∷ []) ∷ []) reader_is_read refl (inl no_cas)
      reader_vectors

abbrev after_order : Execution
after_order = record execution { obj_thrd_map = update execution.obj_thrd_map 8 writes }

reads_first : r_modification_order 3 1 execution ≡ some (feasible (2 ∷ []) false, after_order)
unfolding r_modification_order resize visit fences_of skips walk fence_orders precedes order_before
    happened or_else push_back get_last_seq_cst_fence check_reachable_actions before
    synchronized_since get_clock is_read is_write is_seqcst
reads_first = refl

-- The graph of three stores: 2 stands behind 1, and 4, a store of thread 2, is on its own.
abbrev node_of : ℕ → ℕ → List ℕ → List ℕ → List ℕ → CycleNode
node_of tid seq_number edges inedges clock = record {
  action = record { tid = tid; seq_number = seq_number };
  edges = edges;
  inedges = inedges;
  has_rmw = none;
  cv = record { clock = clock };
}

abbrev three_nodes : ℕ → CycleNode
three_nodes zero = node_of 0 0 [] [] (0 ∷ [])
three_nodes (suc zero) = node_of 1 1 (2 ∷ []) [] (0 ∷ 1 ∷ [])
three_nodes (suc (suc zero)) = node_of 1 2 [] (1 ∷ []) (0 ∷ 2 ∷ [])
three_nodes (suc (suc (suc zero))) = node_of 0 0 [] [] (0 ∷ [])
three_nodes (suc (suc (suc (suc zero)))) = node_of 2 4 [] [] (0 ∷ 0 ∷ 4 ∷ [])
three_nodes (suc (suc (suc (suc (suc a))))) = node_of 0 0 [] [] (0 ∷ [])

abbrev three_stores : CycleGraph
three_stores = record { node = three_nodes; present = λ a. a == 1 || a == 2 || a == 4 }

three_stores-IsConsistent : GraphIsConsistent three_stores
unfolding get_clock
three_stores-IsConsistent = record { ordered = ordered; own = own; linked = linked }
  where
    ordered : (u v : ℕ) → Edge three_stores u v → Ordered three_stores u v
    ordered zero v h t = absurd h
    ordered (suc zero) v (inl e) t = rw e (ground arith)
    ordered (suc zero) v (inr x) t = absurd x
    ordered (suc (suc zero)) v h t = absurd h
    ordered (suc (suc (suc zero))) v h t = absurd h
    ordered (suc (suc (suc (suc zero)))) v h t = absurd h
    ordered (suc (suc (suc (suc (suc u))))) v h t = absurd h

    own :
        (u : ℕ)
        → (three_stores.node u).action.seq_number
          ≤ clock_at three_stores u (three_stores.node u).action.tid
    own zero = omega arith
    own (suc zero) = omega arith
    own (suc (suc zero)) = omega arith
    own (suc (suc (suc zero))) = omega arith
    own (suc (suc (suc (suc zero)))) = omega arith
    own (suc (suc (suc (suc (suc u))))) = omega arith

    linked : (u v : ℕ) → (three_stores.node u).has_rmw ≡ some v → Edge three_stores u v
    linked zero v e = cc
    linked (suc zero) v e = cc
    linked (suc (suc zero)) v e = cc
    linked (suc (suc (suc zero))) v e = cc
    linked (suc (suc (suc (suc zero)))) v e = cc
    linked (suc (suc (suc (suc (suc u))))) v e = cc

three_stores-IsClosed : IsClosed three_stores
three_stores-IsClosed zero v h = absurd h
three_stores-IsClosed (suc zero) v (inl e) = rw e (refl, refl)
three_stores-IsClosed (suc zero) v (inr x) = absurd x
three_stores-IsClosed (suc (suc zero)) v h = absurd h
three_stores-IsClosed (suc (suc (suc zero))) v h = absurd h
three_stores-IsClosed (suc (suc (suc (suc zero)))) v h = absurd h
three_stores-IsClosed (suc (suc (suc (suc (suc u))))) v h = absurd h

-- The read 3 may take the store 4, behind the write 2 of its own thread.
abbrev stored : Execution
stored = record execution {
  mo_graph = three_stores;
  actions = update store 4 (action atomic_write relaxed 8 2 4 (0 ∷ 0 ∷ 4 ∷ []) none);
}

abbrev after_stored : Execution
after_stored = record stored { obj_thrd_map = update stored.obj_thrd_map 8 writes }

reads_fourth : r_modification_order 3 4 stored ≡ some (feasible (2 ∷ []) false, after_stored)
unfolding r_modification_order resize visit fences_of skips walk fence_orders precedes order_before
    happened or_else push_back get_last_seq_cst_fence check_reachable_actions before
    synchronized_since get_clock is_read is_write is_seqcst
reads_fourth = refl

r_modification_order-IsUnreached_example :
    (check_reachable_actions three_stores 4 2 ≡ false) × (Walk three_stores 4 2 → ⊥)
r_modification_order-IsUnreached_example =
    r_modification_order-IsUnreached stored 3 4 (2 ∷ []) false after_stored
      three_stores-IsConsistent three_stores-IsClosed (λ a. inl (omega arith)) reads_fourth 2
      (inl refl)

first_is_write : is_write (store 1).type ≡ true
unfolding is_write
first_is_write = refl

second_is_before : before execution 2 3 ≡ some true
unfolding before synchronized_since
second_is_before = refl

second_shows : if◌then◌else◌ {A = Option ℕ} (is_write (store 2).type) (some 2) none ≡ some 2
unfolding is_write
second_shows = refl

r_modification_order_own_example : (◌≡◌ {A = ℕ} 2 1) ⊎ IsIn {A = ℕ} 2 (2 ∷ [])
r_modification_order_own_example =
    r_modification_order_own execution 3 1 ([] ∷ (2 ∷ 1 ∷ []) ∷ []) 2 (1 ∷ []) 2 (2 ∷ []) false
      after_order first_is_write refl refl refl second_is_before second_shows reads_first

-- The mutex at 100 is held by thread 1.
abbrev held : Execution
held = record execution { mutexes = λ x. record { locked = some 1; recursive = false } }

give_back_wakes_example :
    (s : Scheduler) × (give_back 1 100 held
      ≡ some (tt, set_owner 100 none (record held { scheduler = s })))
    × (((set_owner 100 none (record held { scheduler = s })).mutexes 100).locked ≡ none)
    × ((u : ℕ) → Woken (λ act. is_lock act.type) 1 held s (get_num_threads held - 1) 1 u)
give_back_wakes_example = give_back_wakes 1 100 held (λ t h. (refl, λ q. cc))

locks_100 : get_mutex (store 6) ≡ some 100
unfolding get_mutex is_lock is_trylock is_unlock
locks_100 = refl

lock_is_enabled : check_action_enabled execution (store 6) ≡ some true
unfolding check_action_enabled get_mutex is_lock is_trylock is_unlock
lock_is_enabled = refl

unlocked_by_5 : get_last_unlock execution 6 ≡ some 5
unfolding get_last_unlock newest ends_lock is_unlock is_wait
unlocked_by_5 = refl

process_mutex-lock_example :
    (((execution.mutexes 100).locked ≡ none)
      ⊎ (((execution.mutexes 100).locked ≡ some 2) × ((execution.mutexes 100).recursive ≡ true)))
    × ((e' : Execution) × (process_mutex outside 6 execution ≡ some (true, e'))
        × ((e'.mutexes 100).locked ≡ some 2)
        × ((x : ModelAction)
            → 0 < x.seq_number
            → Hb x (e'.actions 6) ↔ (Hb x (store 6) ⊎ Hb x (store 5))))
process_mutex-lock_example =
    process_mutex-lock outside execution 6 100 5 (record { clock = 0 ∷ 0 ∷ 6 ∷ [] })
      (record { clock = 0 ∷ 5 ∷ [] }) refl locks_100 lock_is_enabled unlocked_by_5 refl refl
      (omega arith)

is_deadlocked_iff_example : (is_deadlocked execution ≡ true) ↔ (
    ((u : ℕ)
      → 1 ≤ u
      → u < 1 + (get_num_threads execution - 1)
      → is_enabled execution.scheduler u ≡ false)
    × ((u : ℕ) × (1 ≤ u)
        × (u < 1 + (get_num_threads execution - 1))
        × (is_pending execution u ≡ true)))
is_deadlocked_iff_example = is_deadlocked_iff execution

get_pthread_faults_iff_example :
    (get_pthread execution 3 ≡ none)
    ↔ ((length execution.pthread_map ≤ 3 % 2 ^ 32) × (3 % 2 ^ 32 ≤ execution.pthread_counter))
get_pthread_faults_iff_example = get_pthread_faults_iff execution 3 (λ q. cc)

add_action_to_lists-IsOrdered_example :
    IsOrdered store (add_action_to_lists 6 false execution).action_trace
    × Perm (add_action_to_lists 6 false execution).action_trace (6 ∷ 5 ∷ 2 ∷ 1 ∷ [])
    × (get_last_action (add_action_to_lists 6 false execution) 2 ≡ some 6)
    × ((t : ℕ)
        → 2 ≢ t
        → get_last_action (add_action_to_lists 6 false execution) t ≡ get_last_action execution t)
add_action_to_lists-IsOrdered_example =
    add_action_to_lists-IsOrdered 6 false execution (omega arith) (omega arith)

-- An action without a number, of thread 1.
abbrev fresh : Execution
fresh = record execution {
  actions = update store 7 (record (store 3) { seq_number = 0; cv = none });
}

fresh_is_new : (is_rmwc (fresh.actions 7).type || is_rmw (fresh.actions 7).type) ≡ false
unfolding is_rmwc is_rmw
fresh_is_new = refl

parent_is_5 : get_parent_action fresh 1 ≡ some 5
unfolding get_parent_action get_last_action
parent_is_5 = refl

initialize_curr_action_new_example :
    (e' : Execution) × (initialize_curr_action outside 7 fresh ≡ some ((7, true), e'))
    × (e'.used_sequence_numbers ≡ 7)
    × ((e'.actions 7).seq_number ≡ 7)
    × ((e'.actions 7).last_fence_release ≡ get_last_fence_release fresh 1)
    × ((x : ModelAction)
        → 0 < x.seq_number
        → Hb x (e'.actions 7) ↔ (if x.tid == 1 then x.seq_number ≤ 7 else Hb x (store 5)))
initialize_curr_action_new_example =
    initialize_curr_action_new outside fresh 7 5 (record { clock = 0 ∷ 5 ∷ [] }) fresh_is_new refl
      parent_is_5 (λ q. cc) refl

-- All the memory was last written by atomic stores.
abbrev atomic_cell : Shadow
atomic_cell =
    full (record { reads = []; capacity = 0; is_atomic = true; write_thread = 0; write_clock = 0 })

abbrev atomic_memory : Execution
atomic_memory = record execution {
  detector = record { shadow = λ x. atomic_cell; raceset = []; reported = [] };
}

no_plain_store : non_atomic_store_at atomic_memory.detector 8 ≡ false
unfolding non_atomic_store_at lookup_address_entry has_non_atomic_store
no_plain_store = refl

one_candidate : build_may_read_from atomic_memory 3 ≡ some (2 ∷ [])
unfolding build_may_read_from scan_threads scan_writes allow_read sc_forbids rmw_forbids last_sc
    before synchronized_since is_read is_seqcst is_rmwr
one_candidate = refl

abbrev result_of : Option (Bool × Execution) → Bool × Execution
result_of none = (false, atomic_memory)
result_of (some r) = r

abbrev result : Bool × Execution
result = result_of (process_read outside 3 (2 ∷ []) atomic_memory)

goes_through : process_read outside 3 (2 ∷ []) atomic_memory ≡ some (result.0, result.1)
unfolding process_read add_non_atomic try_writes accept take_write add_priors read_from acquire_if
    merge_acq_fence get_hb_from_write hb_from_write collect stops rounds round uncached by_fence
    keep has_vector get_write_value non_atomic_store_at lookup_address_entry has_non_atomic_store
    draw r_modification_order resize visit fences_of skips walk fence_orders precedes order_before
    happened or_else push_back get_last_seq_cst_fence check_reachable_actions before
    synchronized_since get_clock is_read is_write is_rmw is_seqcst is_acquire is_release
    set_read_from
goes_through = refl

process_read-SomeVisible_example :
    (rf : ℕ) × SomeVisible atomic_memory 3 (last_sc atomic_memory 3) ([] ∷ (2 ∷ 1 ∷ []) ∷ []) rf
    × ((result.1.actions 3).shared ≡ reads_from (some rf))
process_read-SomeVisible_example =
    process_read-SomeVisible outside atomic_memory 3 ([] ∷ (2 ∷ 1 ∷ []) ∷ []) (2 ∷ []) (result.0)
      (result.1) reader_is_read refl no_plain_store one_candidate goes_through

-- Thread 1 has joined thread 3, which has completed; thread 2 was made before thread 3.
abbrev first_cv : ClockVector
first_cv = record { clock = 0 ∷ 9 ∷ 0 ∷ 8 ∷ [] }

abbrev second_cv : ClockVector
second_cv = record { clock = 0 ∷ 1 ∷ 4 ∷ [] }

abbrev joined_third : Execution
joined_third = record execution {
  next_thread_id = 4;
  scheduler = record {
    enabled = [];
    curr_thread_index = 0;
    current = none;
    threads = λ t. if t == 3 then record (waiter 3) { state = thread_completed } else waiter t;
  };
  actions = λ a.
      if a == 5
      then action atomic_unlock release 100 1 9 (0 ∷ 9 ∷ 0 ∷ 8 ∷ []) none
      else action atomic_rmw relaxed 8 2 4 (0 ∷ 1 ∷ 4 ∷ []) (some 1);
}

completed_third :
    (is_complete (joined_third.scheduler.threads 1) ≡ false)
    × (is_complete (joined_third.scheduler.threads 2) ≡ false)
    × (is_complete (joined_third.scheduler.threads 3) ≡ true)
unfolding is_complete
completed_third = (refl, refl, refl)

their_cvs : (get_cv joined_third 1 ≡ some first_cv) × (get_cv joined_third 2 ≡ some second_cv)
unfolding get_cv get_parent_action get_last_action
their_cvs = (refl, refl)

compute_minimal_cv_misses_example :
    (m : ClockVector) × (compute_minimal_cv joined_third ≡ some (some m))
    × (get_clock second_cv 3 ≡ 0)
    × (get_clock m 3 ≡ get_clock first_cv 3)
compute_minimal_cv_misses_example =
    compute_minimal_cv_misses joined_third first_cv second_cv refl (completed_third.0)
      (completed_third.1) (completed_third.2) (their_cvs.0) (their_cvs.1) (omega arith)
