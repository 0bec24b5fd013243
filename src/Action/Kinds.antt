-- ===== src/Action/Kinds.antt =====
-- The enumerations of action.h and include/memoryorder.h, and the tests of `ModelAction` on its
-- type and order. Two values of an enumeration are compared by their codes, as in the source.
use c11tester.Base.{ℕ, Bool, true, false, ◌||◌, ◌&&◌, ◌==◌}

pub data ActionType : Type 0 where
  thread_create : ActionType
  thread_start : ActionType
  thread_yield : ActionType
  thread_join : ActionType
  thread_finish : ActionType
  threadonly_finish : ActionType
  thread_sleep : ActionType
  pthread_create : ActionType
  pthread_join : ActionType
  nonatomic_write : ActionType
  atomic_init : ActionType
  atomic_write : ActionType
  atomic_rmw : ActionType
  atomic_read : ActionType
  atomic_rmwr : ActionType
  atomic_rmwrcas : ActionType
  atomic_rmwc : ActionType
  atomic_fence : ActionType
  atomic_lock : ActionType
  atomic_trylock : ActionType
  atomic_unlock : ActionType
  atomic_notify_one : ActionType
  atomic_notify_all : ActionType
  atomic_wait : ActionType
  atomic_timedwait : ActionType
  atomic_annotation : ActionType
  ready_free : ActionType
  atomic_nop : ActionType

pub data MemoryOrder : Type 0 where
  relaxed consume acquire release acq_rel seq_cst : MemoryOrder

abbrev pub type_code : ActionType → ℕ
type_code thread_create = 0
type_code thread_start = 1
type_code thread_yield = 2
type_code thread_join = 3
type_code thread_finish = 4
type_code threadonly_finish = 5
type_code thread_sleep = 6
type_code pthread_create = 7
type_code pthread_join = 8
type_code nonatomic_write = 9
type_code atomic_init = 10
type_code atomic_write = 11
type_code atomic_rmw = 12
type_code atomic_read = 13
type_code atomic_rmwr = 14
type_code atomic_rmwrcas = 15
type_code atomic_rmwc = 16
type_code atomic_fence = 17
type_code atomic_lock = 18
type_code atomic_trylock = 19
type_code atomic_unlock = 20
type_code atomic_notify_one = 21
type_code atomic_notify_all = 22
type_code atomic_wait = 23
type_code atomic_timedwait = 24
type_code atomic_annotation = 25
type_code ready_free = 26
type_code atomic_nop = 27

abbrev pub order_code : MemoryOrder → ℕ
order_code relaxed = 0
order_code consume = 1
order_code acquire = 2
order_code release = 3
order_code acq_rel = 4
order_code seq_cst = 5

-- `type == t`
abbrev pub has_type : ActionType → ActionType → Bool
has_type type t = type_code type == type_code t

-- The special values of a trylock.
abbrev pub value_trysuccess : ℕ
value_trysuccess = 1

abbrev pub value_tryfailed : ℕ
value_tryfailed = 0

unfoldable pub is_thread_start : ActionType → Bool
is_thread_start type = has_type type thread_start

unfoldable pub is_thread_join : ActionType → Bool
is_thread_join type = has_type type thread_join || has_type type pthread_join

unfoldable pub is_mutex_op : ActionType → Bool
is_mutex_op type =
    has_type type atomic_lock
    || has_type type atomic_trylock
    || has_type type atomic_unlock
    || has_type type atomic_wait
    || has_type type atomic_timedwait
    || has_type type atomic_notify_one
    || has_type type atomic_notify_all

unfoldable pub is_lock : ActionType → Bool
is_lock type = has_type type atomic_lock

unfoldable pub is_sleep : ActionType → Bool
is_sleep type = has_type type thread_sleep

unfoldable pub is_wait : ActionType → Bool
is_wait type = has_type type atomic_wait || has_type type atomic_timedwait

unfoldable pub is_timedwait : ActionType → Bool
is_timedwait type = has_type type atomic_timedwait

unfoldable pub is_notify : ActionType → Bool
is_notify type = has_type type atomic_notify_one || has_type type atomic_notify_all

unfoldable pub is_notify_one : ActionType → Bool
is_notify_one type = has_type type atomic_notify_one

unfoldable pub is_unlock : ActionType → Bool
is_unlock type = has_type type atomic_unlock

unfoldable pub is_trylock : ActionType → Bool
is_trylock type = has_type type atomic_trylock

unfoldable pub is_read : ActionType → Bool
is_read type =
    has_type type atomic_read
    || has_type type atomic_rmwr
    || has_type type atomic_rmwrcas
    || has_type type atomic_rmw

unfoldable pub is_write : ActionType → Bool
is_write type =
    has_type type atomic_write
    || has_type type atomic_rmw
    || has_type type atomic_init
    || has_type type nonatomic_write

unfoldable pub is_create : ActionType → Bool
is_create type = has_type type thread_create || has_type type pthread_create

unfoldable pub is_free : ActionType → Bool
is_free type = has_type type ready_free

unfoldable pub is_yield : ActionType → Bool
is_yield type = has_type type thread_yield

unfoldable pub is_rmwr : ActionType → Bool
is_rmwr type = has_type type atomic_rmwr || has_type type atomic_rmwrcas

unfoldable pub is_rmwrcas : ActionType → Bool
is_rmwrcas type = has_type type atomic_rmwrcas

unfoldable pub is_rmw : ActionType → Bool
is_rmw type = has_type type atomic_rmw

unfoldable pub is_rmwc : ActionType → Bool
is_rmwc type = has_type type atomic_rmwc

unfoldable pub is_fence : ActionType → Bool
is_fence type = has_type type atomic_fence

unfoldable pub is_initialization : ActionType → Bool
is_initialization type = has_type type atomic_init

unfoldable pub is_annotation : ActionType → Bool
is_annotation type = has_type type atomic_annotation

unfoldable pub could_be_write : ActionType → Bool
unfolding is_write is_rmwr
could_be_write type = is_write type || is_rmwr type

unfoldable pub is_atomic_var : ActionType → Bool
unfolding is_read could_be_write
is_atomic_var type = is_read type || could_be_write type

-- These two read the value too.
unfoldable pub is_success_lock : ActionType → ℕ → Bool
is_success_lock type value =
    has_type type atomic_lock || (has_type type atomic_trylock && value == value_trysuccess)

unfoldable pub is_failed_trylock : ActionType → ℕ → Bool
is_failed_trylock type value = has_type type atomic_trylock && value == value_tryfailed

unfoldable pub is_relaxed : MemoryOrder → Bool
is_relaxed order = order_code order == order_code relaxed

unfoldable pub is_acquire : MemoryOrder → Bool
is_acquire acquire = true
is_acquire acq_rel = true
is_acquire seq_cst = true
is_acquire _ = false

unfoldable pub is_release : MemoryOrder → Bool
is_release release = true
is_release acq_rel = true
is_release seq_cst = true
is_release _ = false

unfoldable pub is_seqcst : MemoryOrder → Bool
is_seqcst order = order_code order == order_code seq_cst
