-- ===== src/Action/Names.antt =====
-- The names under which a trace shows the type and the memory order of an action
-- (`get_type_str`, `get_mo_str` of action.cc).
use Prim.Native.String.{String}
use c11tester.Action.Kinds.{
  ActionType, MemoryOrder, thread_create, thread_start, thread_yield, thread_join, thread_finish,
  threadonly_finish, thread_sleep, pthread_create, pthread_join, nonatomic_write, atomic_init,
  atomic_write, atomic_rmw, atomic_read, atomic_rmwr, atomic_rmwrcas, atomic_rmwc, atomic_fence,
  atomic_lock, atomic_trylock, atomic_unlock, atomic_notify_one, atomic_notify_all, atomic_wait,
  atomic_timedwait, atomic_annotation, relaxed, consume, acquire, release, acq_rel, seq_cst,
}

pub get_type_str : ActionType → String
get_type_str thread_create = "thread create"
get_type_str thread_start = "thread start"
get_type_str thread_yield = "thread yield"
get_type_str thread_join = "thread join"
get_type_str thread_finish = "thread finish"
get_type_str thread_sleep = "thread sleep"
get_type_str threadonly_finish = "pthread_exit finish"
get_type_str pthread_create = "pthread create"
get_type_str pthread_join = "pthread join"
get_type_str nonatomic_write = "nonatomic write"
get_type_str atomic_read = "atomic read"
get_type_str atomic_write = "atomic write"
get_type_str atomic_rmw = "atomic rmw"
get_type_str atomic_fence = "fence"
get_type_str atomic_rmwr = "atomic rmwr"
get_type_str atomic_rmwrcas = "atomic rmwrcas"
get_type_str atomic_rmwc = "atomic rmwc"
get_type_str atomic_init = "init atomic"
get_type_str atomic_lock = "lock"
get_type_str atomic_unlock = "unlock"
get_type_str atomic_trylock = "trylock"
get_type_str atomic_wait = "wait"
get_type_str atomic_timedwait = "timed wait"
get_type_str atomic_notify_one = "notify one"
get_type_str atomic_notify_all = "notify all"
get_type_str atomic_annotation = "annotation"
get_type_str _ = "unknown type"

pub get_mo_str : MemoryOrder → String
get_mo_str relaxed = "relaxed"
get_mo_str acquire = "acquire"
get_mo_str release = "release"
get_mo_str acq_rel = "acq_rel"
get_mo_str seq_cst = "seq_cst"
get_mo_str consume = "unknown"
