-- ===== src/Action/Rmw.antt =====
-- The values of an action, and the second half of a read-modify-write (action.cc).
use c11tester.Base.{ℕ, ◌≡◌, Bool, true, ◌||◌, if◌then◌else◌, Option, none, some, arith}
use c11tester.Action.{ModelAction, Shared, reads_from, size, time, value_none}
use c11tester.Action.Kinds.{
  thread_create, pthread_create, thread_join, pthread_join, atomic_read, atomic_rmw, has_type,
  is_rmwc, is_rmw, is_rmwr, is_read, is_write, is_trylock, is_lock, is_unlock, is_wait,
  value_trysuccess, value_tryfailed,
}

pub copy_typeandorder : ModelAction → ModelAction → ModelAction
copy_typeandorder this act = record this { type = act.type; order = act.order }

-- The read part of an RMW becomes a full RMW, or a plain read when the write is called off.
pub process_rmw : ModelAction → ModelAction → ModelAction
process_rmw this act =
    let base = record this { order = act.order } in
    if is_rmwc act.type
    then record base { type = atomic_read }
    else if is_rmw act.type
    then record base { type = atomic_rmw; value = act.value }
    else base

pub set_try_lock : ModelAction → Bool → ModelAction
set_try_lock this obtainedlock = record this {
  value = if obtainedlock then value_trysuccess else value_tryfailed;
}

unfoldable pub set_read_from : ModelAction → ℕ → ModelAction
set_read_from this act = record this { shared = reads_from (some act) }

-- What stands in the union, read as `reads_from`: only reads do so.
abbrev pub store_read : Shared → Option ℕ
store_read (reads_from act) = act
store_read (size n) = none
store_read (time n) = none

-- `none` is a failed assertion.
unfoldable pub get_write_value : ModelAction → Option ℕ
get_write_value this = if is_write this.type then some this.value else none

module _ (store : ℕ → ModelAction) where
  written : Option ℕ → Option ℕ
  unfolding get_write_value
  written none = some value_none
  written (some act) = get_write_value (store act)

  pub get_reads_from_value : ModelAction → Option ℕ
  unfolding written
  get_reads_from_value this = if is_read this.type then written (store_read this.shared) else none

  pub get_return_value : ModelAction → Option ℕ
  get_return_value this =
      if is_read this.type
      then get_reads_from_value this
      else if is_write this.type
      then get_write_value this
      else some this.value

unfoldable pub get_thread_operand : ModelAction → Option ℕ
get_thread_operand this =
    if has_type this.type thread_create || has_type this.type pthread_create
    then this.thread_operand
    else if has_type this.type thread_join || has_type this.type pthread_join
    then some this.location
    else none

unfoldable pub get_mutex : ModelAction → Option ℕ
get_mutex this =
    if is_trylock this.type || is_lock this.type || is_unlock this.type
    then some this.location
    else if is_wait this.type
    then some this.value
    else none

-- The second half of an RMW turns its read part into an action that reads, under the second
-- half's memory order. It also writes, and then the second half's value, exactly if that half
-- is the RMW and not its calling off. Location, thread, number and clocks stay.
pub process_rmw_completes :
    (this act : ModelAction)
    → is_rmwr this.type ≡ true
    → (is_rmw act.type || is_rmwc act.type) ≡ true
    → (is_read (process_rmw this act).type ≡ true)
      × (is_write (process_rmw this act).type ≡ is_rmw act.type)
      × ((process_rmw this act).value ≡ (if is_rmw act.type then act.value else this.value))
      × ((process_rmw this act).order ≡ act.order)
      × ((process_rmw this act).location ≡ this.location)
      × ((process_rmw this act).seq_number ≡ this.seq_number)
      × ((process_rmw this act).cv ≡ this.cv)
unfolding process_rmw is_rmwr is_read is_write is_rmw is_rmwc
process_rmw_completes this act h k = ground arith
