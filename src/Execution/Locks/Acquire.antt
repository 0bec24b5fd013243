-- ===== src/Execution/Locks/Acquire.antt =====
-- A thread takes a lock (execution.cc, `check_action_enabled` and `process_mutex`).
use c11tester.Base.{
  ℕ, ◌<◌, ◌≤◌, ◌≡◌, ◌↔◌, ◌⊎◌, inl, inr, refl, sym, ap, ◌∙◌, Bool, true, Option, none, some, update,
  arith, ==_iff,
}
use c11tester.ClockVector.{ClockVector}
use c11tester.Action.{ModelAction}
use c11tester.Action.Kinds.{ActionType, atomic_lock}
use c11tester.Action.Rmw.{get_mutex}
use c11tester.Action.Sync.{synchronize_with_lem, Hb}
use c11tester.Execution.State.{Execution, Source, M}
use c11tester.Execution.Fences.{get_last_unlock}
use c11tester.Execution.Locks.{
  set_owner, synchronize, grab, process_mutex, process_mutex_as, lock_enabled, enabled_as,
  check_action_enabled,
}

-- An action of the execution that has synchronised with an earlier one.
synchronize-Hb :
    (e : Execution) (first second : ℕ) (c d : ClockVector)
    → (e.actions second).cv ≡ some c
    → (e.actions first).cv ≡ some d
    → (e.actions first).seq_number ≤ (e.actions second).seq_number
    → (act : ModelAction) × (synchronize first second e
        ≡ some (true, record e { actions = update e.actions second act }))
      × ((x : ModelAction)
          → 0 < x.seq_number
          → Hb x act ↔ (Hb x (e.actions second) ⊎ Hb x (e.actions first)))
unfolding synchronize
synchronize-Hb e first second c d hc hd le =
    elim (synchronize_with_lem (e.actions second) (e.actions first) c d hc hd) [
      | inl (late, k) ↦ absurd (omega arith)
      | inr (k, (act, merged, same, hb)) ↦ (act, ground (arith, merged), hb)
    ]

update_self : (f : ℕ → ModelAction) (a : ℕ) (v : ModelAction) → update f a v a ≡ v
update_self f a v = rw ((==_iff a a).1 refl) refl

grab_lem :
    (e : Execution) (curr tid m u : ℕ) (c d : ClockVector)
    → get_last_unlock e curr ≡ some u
    → (e.actions curr).cv ≡ some c
    → (e.actions u).cv ≡ some d
    → (e.actions u).seq_number ≤ (e.actions curr).seq_number
    → (act : ModelAction) × (grab curr tid m e
        ≡ some (true, record (set_owner m (some tid) e) { actions = update e.actions curr act }))
      × ((x : ModelAction)
          → 0 < x.seq_number
          → Hb x act ↔ (Hb x (e.actions curr) ⊎ Hb x (e.actions u)))
unfolding grab set_owner get_last_unlock
grab_lem e curr tid m u c d last hc hd le =
    let (act, run, hb) = synchronize-Hb (set_owner m (some tid) e) u curr c d hc hd le in
    (act, ground (arith, last, run), hb)

free_or_own :
    (locked : Option ℕ) (recursive : Bool) (tid : ℕ)
    → some (lock_enabled locked recursive tid) ≡ some true
    → (locked ≡ none) ⊎ ((locked ≡ some tid) × (recursive ≡ true))
unfolding lock_enabled
free_or_own none recursive tid h = inl refl
free_or_own (some t) recursive tid h = inr (ground arith, ground arith)

enabled_as_lock :
    (e : Execution) (act : ModelAction) (m : ℕ)
    → act.type ≡ atomic_lock
    → get_mutex act ≡ some m
    → enabled_as act.type e act
      ≡ some (lock_enabled (e.mutexes m).locked (e.mutexes m).recursive act.tid)
unfolding enabled_as
enabled_as_lock e act m p q = ground (arith, p, q)

process_mutex_as_lock :
    (source : Source) (curr tid m location : ℕ) {type : ActionType} {mutex : Option ℕ}
    → type ≡ atomic_lock
    → mutex ≡ some m
    → process_mutex_as type source curr tid mutex location ≡ grab curr tid m
unfolding process_mutex_as
process_mutex_as_lock source curr tid m location p q = rw (p, q) refl

-- For a lock that is enabled, behind an unlock (or a wait) that is not later, both with clock
-- vectors: the mutex was free, or it is recursive and was the thread's own. The lock goes through;
-- then the thread has the mutex, and what happens before the lock is what did so before it and what
-- happens before that last unlock.
pub process_mutex-lock :
    (source : Source) (e : Execution) (curr m u : ℕ) (c d : ClockVector)
    → (e.actions curr).type ≡ atomic_lock
    → get_mutex (e.actions curr) ≡ some m
    → check_action_enabled e (e.actions curr) ≡ some true
    → get_last_unlock e curr ≡ some u
    → (e.actions curr).cv ≡ some c
    → (e.actions u).cv ≡ some d
    → (e.actions u).seq_number ≤ (e.actions curr).seq_number
    → (((e.mutexes m).locked ≡ none)
        ⊎ (((e.mutexes m).locked ≡ some (e.actions curr).tid) × ((e.mutexes m).recursive ≡ true)))
      × ((e' : Execution) × (process_mutex source curr e ≡ some (true, e'))
          × ((e'.mutexes m).locked ≡ some (e.actions curr).tid)
          × ((x : ModelAction)
              → 0 < x.seq_number
              → Hb x (e'.actions curr) ↔ (Hb x (e.actions curr) ⊎ Hb x (e.actions u))))
unfolding process_mutex check_action_enabled set_owner
process_mutex-lock source e curr m u c d type mutex enabled last hc hd le =
    let (act, run, hb) = grab_lem e curr (e.actions curr).tid m u c d last hc hd le in
    let e' = record (set_owner m (some (e.actions curr).tid) e) {
      actions = update e.actions curr act;
    } in
    (
      free_or_own (e.mutexes m).locked (e.mutexes m).recursive (e.actions curr).tid
          (sym (enabled_as_lock e (e.actions curr) m type mutex) ∙ enabled),
      (
        e',
        ap (λ (r : M Bool). r e)
              (process_mutex_as_lock source curr (e.actions curr).tid m (e.actions curr).location
                type mutex)
            ∙ run,
        ground arith,
        λ x h. rw (update_self e.actions curr act) (hb x h),
      ),
    )
