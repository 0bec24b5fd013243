-- ===== src/Action/KindsLaws.antt =====
-- How the tests of an action's type and order divide the actions up.
use c11tester.Base.{◌≡◌, refl, false, ◌&&◌, ◌||◌}
use c11tester.Action.Kinds.{
  ActionType, is_read, is_write, is_rmw, is_rmwr, could_be_write, is_atomic_var, is_mutex_op,
  is_lock, is_trylock, is_unlock, is_wait, is_notify, thread_create,
}

-- An action both reads and writes exactly if it is a completed RMW; it reads and may yet write
-- exactly if it is an RMW or the read part of one. No operation on a mutex is one on an atomic
-- variable, and each is one of the five kinds.
pub kinds_partition :
    (t : ActionType)
    → ((is_read t && is_write t) ≡ is_rmw t)
      × ((is_read t && could_be_write t) ≡ (is_rmw t || is_rmwr t))
      × ((is_atomic_var t && is_mutex_op t) ≡ false)
      × (is_mutex_op t ≡ (is_lock t || is_trylock t || is_unlock t || is_wait t || is_notify t))
unfolding is_read is_write is_rmw is_rmwr could_be_write is_atomic_var is_mutex_op is_lock
    is_trylock is_unlock is_wait is_notify
kinds_partition thread_create = (refl, refl, refl, refl)
kinds_partition _ = (refl, refl, refl, refl)
