-- ===== src/Action/Conflicts.antt =====
-- Which pairs of actions may have to be reordered (action.cc).
use c11tester.Base.{Bool, true, false, not, ◌&&◌, ◌||◌, ◌==◌, if◌then◌else◌}
use c11tester.Action.{ModelAction}
use c11tester.Action.Kinds.{
  is_wait, could_be_write, is_fence, is_seqcst, is_acquire, is_release, is_read, is_lock,
  is_trylock, is_unlock, is_success_lock, is_notify, value_trysuccess,
}

-- A wait keeps the mutex that it releases in its value.
pub same_var : ModelAction → ModelAction → Bool
same_var this act =
    if is_wait act.type || is_wait this.type
    then (if is_wait act.type && is_wait this.type
        then this.value == act.value
        else if is_wait this.type
        then this.value == act.location
        else this.location == act.value)
      || this.location == act.location
    else this.location == act.location

pub same_thread : ModelAction → ModelAction → Bool
same_thread this act = this.tid == act.tid

-- The tests of `could_synchronize_with` behind its two guards, in their order.
may_synchronize : ModelAction → ModelAction → Bool
may_synchronize this act =
    (could_be_write this.type || could_be_write act.type || is_fence this.type || is_fence act.type)
      && is_seqcst this.order
      && is_seqcst act.order
    || is_acquire this.order && is_release act.order && is_read this.type && could_be_write act.type
    || (is_lock this.type || is_trylock this.type) && (is_unlock act.type || is_wait act.type)
    || is_trylock this.type && is_success_lock act.type act.value
    || is_unlock this.type && (is_trylock act.type || is_lock act.type)
    || is_trylock this.type && (is_unlock act.type || is_wait act.type)
    || is_notify this.type && is_wait act.type
    || is_wait this.type && is_notify act.type

pub could_synchronize_with : ModelAction → ModelAction → Bool
unfolding same_thread
could_synchronize_with this act =
    if same_thread this act
    then false
    else if not (same_var this act) && not (is_fence this.type) && not (is_fence act.type)
    then false
    else may_synchronize this act

pub is_conflicting_lock : ModelAction → ModelAction → Bool
unfolding same_thread
is_conflicting_lock this act =
    if same_thread this act
    then false
    else if is_success_lock act.type act.value
    then true
    else if is_unlock act.type && is_trylock this.type && this.value == value_trysuccess
    then true
    else if is_wait act.type && is_trylock this.type && this.value == value_trysuccess
    then true
    else false
