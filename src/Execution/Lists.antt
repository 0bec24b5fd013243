-- ===== src/Execution/Lists.antt =====
-- The lists of actions by location and thread (execution.cc): what is noted of an action when it is
-- made, and of a plain store when it is found. Threads have ids below `next_thread_id`, so that a
-- resize makes a vector longer.
pub mod Order
use c11tester.Base.{
  ℕ, ◌-◌, ◌<◌, ◌≡◌, arith, ◌==◌, Bool, true, not, ◌&&◌, ◌||◌, leb, if◌then◌else◌, Option, none,
  some, List, [], ◌∷◌, ◌++◌, length, get_or, set, update, replicate,
}
use c11tester.Action.{ModelAction}
use c11tester.Action.Kinds.{is_fence, is_seqcst, is_unlock, is_wait, is_read, is_write, is_release}
use c11tester.Action.Sync.{create_cv}
use c11tester.Execution.State.{Execution, M, ◌>>=◌, ◌>>◌, gets, modify, need, get_elem?, set_action}

-- What a map of pointers to lists holds at a place, where a missing list is made.
pub get_safe_ptr : {A : Type 0} → (ℕ → Option (List A)) → ℕ → List A
get_safe_ptr hash ptr = elim (hash ptr) [ none ↦ [] | some l ↦ l ]

-- Make a vector of `n` entries out of one that is too short for the index `tid`.
unfoldable pub resize : {A : Type 0} → List A → ℕ → ℕ → A → List A
resize vec tid n blank =
    if leb (length vec) tid then vec ++ replicate (n - length vec) blank else vec

-- A vector that holds the index stays as it is.
pub resize_long :
    {A : Type 0} (vec : List A) (tid n : ℕ) (blank : A)
    → tid < length vec
    → resize vec tid n blank ≡ vec
unfolding resize
resize_long vec tid n blank h = ground arith

-- `action_list_t::addAction`: the newest action with the same or a smaller number stands before
-- the new one.
unfoldable pub add_action : (ℕ → ModelAction) → List ℕ → ℕ → List ℕ
add_action actions [] act = act ∷ []
add_action actions (a ∷ list) act =
    if leb (actions a).seq_number (actions act).seq_number
    then act ∷ a ∷ list
    else a ∷ add_action actions list act

-- `simple_action_list_t::add_back` on a list of `obj_map`.
pub add_to_object : ℕ → ℕ → Execution → Execution
unfolding get_safe_ptr
add_to_object location act e = record e {
  obj_map = update e.obj_map location (some (act ∷ get_safe_ptr e.obj_map location));
}

pub add_to_trace : ℕ → Execution → Execution
unfolding add_action
add_to_trace act e = record e { action_trace = add_action e.actions e.action_trace act }

-- The lists of a location by threads, long enough for one.
pub thread_lists : (ℕ → Option (List (List ℕ))) → ℕ → ℕ → ℕ → List (List ℕ)
unfolding get_safe_ptr resize
thread_lists hash location tid n = resize (get_safe_ptr hash location) tid n []

pub add_to_thread : ℕ → Bool → Execution → Execution
unfolding thread_lists add_action
add_to_thread act listed e =
    let a = e.actions act in
    let vec = thread_lists e.obj_thrd_map a.location a.tid e.next_thread_id in
    record e {
      obj_thrd_map = update e.obj_thrd_map a.location (
          some (
            if listed
            then set vec a.tid (add_action e.actions (get_or vec a.tid []) act)
            else vec));
    }

pub note_last_action : ℕ → Execution → Execution
unfolding resize
note_last_action act e =
    let tid = (e.actions act).tid in
    record e {
      thrd_last_action = set (resize e.thrd_last_action tid e.next_thread_id none) tid (some act);
    }

pub note_fence_release : ℕ → Execution → Execution
unfolding resize
note_fence_release act e =
    let tid = (e.actions act).tid in
    record e {
      thrd_last_fence_release =
          set (resize e.thrd_last_fence_release tid e.next_thread_id none) tid (some act);
    }

pub add_action_to_lists : ℕ → Bool → Execution → Execution
unfolding add_to_object add_to_trace add_to_thread note_last_action note_fence_release
add_action_to_lists act canprune e =
    let a = e.actions act in
    let e₁ =
      if is_fence a.type && is_seqcst a.order || is_unlock a.type
      then add_to_object a.location act e
      else e in
    let e₂ = add_to_trace act e₁ in
    let e₃ = add_to_thread act (not canprune && (is_read a.type || is_write a.type)) e₂ in
    let e₄ = note_last_action act e₃ in
    let e₅ = if is_fence a.type && is_release a.order then note_fence_release act e₄ else e₄ in
    if is_wait a.type then add_to_object a.value act e₅ else e₅

-- A plain store stands for the last action of its thread if that has the same number.
stands_for : Execution → ℕ → Option ℕ → Bool
stands_for e act none = true
stands_for e act (some lastact) = (e.actions lastact).seq_number == (e.actions act).seq_number

-- The lists of a plain store, which comes into them late.
pub add_normal_write_to_lists : ℕ → M (Unit {0})
unfolding stands_for add_to_trace add_to_thread
add_normal_write_to_lists act = do
  modify (λ e. add_to_trace act (set_action e act (create_cv (e.actions act) none)))
  modify (λ e. add_to_thread act true e)
  tid ← gets (λ e. (e.actions act).tid)
  vec ← gets (λ e. e.thrd_last_action)
  lastact ← need (get_elem? vec tid)
  modify (λ e.
      if stands_for e act lastact
      then record e { thrd_last_action = set e.thrd_last_action tid (some act) }
      else e)

pub add_write_to_lists : ℕ → Execution → Execution
unfolding thread_lists
add_write_to_lists write e =
    let a = e.actions write in
    let vec = thread_lists e.obj_wr_thrd_map a.location a.tid e.next_thread_id in
    record e {
      obj_wr_thrd_map =
          update e.obj_wr_thrd_map a.location (some (set vec a.tid (write ∷ get_or vec a.tid [])));
    }
