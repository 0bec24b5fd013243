-- ===== src/Execution/Life.antt =====
-- Threads begin, end, join and sleep (execution.cc, `process_thread_action`).
-- The start routine and its argument, and the word that receives a `pthread_t`, are outside the
-- model.
use c11tester.Base.{ℕ, ◌+◌, ◌-◌, ◌==◌, if◌then◌else◌, none, some, set}
use c11tester.Action.Kinds.{
  ActionType, thread_create, pthread_create, thread_join, pthread_join, thread_finish,
  threadonly_finish, thread_sleep, is_thread_join,
}
use c11tester.Action.Rmw.{get_thread_operand}
use c11tester.Threads.{new_thread, complete}
use c11tester.Schedule.{add_sleep}
use c11tester.Execution.State.{
  Execution, M, ◌>>=◌, ◌>>◌, ok, gets, modify, need, on_scheduler, with_thread, with_action, thread,
  set_thread, get_next_id, add_new_thread, get_last_action, set_finished,
}
use c11tester.Execution.Lists.{resize}
use c11tester.Execution.Locks.{synchronize, wake_all_waiting, keep_pending}

-- A new thread, with the action that makes it.
pub create_thread : ℕ → ℕ → M ℕ
create_thread curr parent = do
  id ← get_next_id
  with_action curr (λ act. record act { thread_operand = some id })
  add_new_thread id (new_thread id (some parent))
  with_thread id (λ th. record th { creation = some curr })
  ok id

pub note_pthread : ℕ → Execution → Execution
note_pthread id e = record e {
  pthread_map =
      set (resize e.pthread_map (e.pthread_counter - 1) e.pthread_counter none)
        (e.pthread_counter - 1) (some id);
}

pub create_pthread : ℕ → ℕ → M (Unit {0})
unfolding create_thread note_pthread
create_pthread curr parent = do
  modify (λ e. record e { pthread_counter = e.pthread_counter + 1 })
  id ← create_thread curr parent
  modify (note_pthread id)

pub join_thread : ℕ → M (Unit {0})
join_thread curr = do
  operand ← gets (λ e. get_thread_operand (e.actions curr))
  blocking ← need operand
  last ← gets (λ e. get_last_action e blocking)
  act ← need last
  updated ← synchronize act curr
  ok tt

pub complete_thread : ℕ → M (Unit {0})
complete_thread t = do
  done ← gets (λ e. complete (thread e t))
  th ← need done
  modify (λ e. set_thread e t th)

-- The threads that wait to join it are woken up first.
pub finish_thread : ℕ → M (Unit {0})
unfolding complete_thread
finish_thread t = do wake_all_waiting (λ act. is_thread_join act.type) t; complete_thread t

-- The end of the main thread ends the execution. Its id is 1.
pub finish_main : ℕ → M (Unit {0})
unfolding complete_thread finish_thread
finish_main t = if t == 1 then (complete_thread t >> modify set_finished) else finish_thread t

pub sleep_thread : ℕ → ℕ → M (Unit {0})
sleep_thread curr t = do keep_pending curr t; on_scheduler (λ s. some (add_sleep s t))

pub process_thread_as : ActionType → ℕ → ℕ → M (Unit {0})
unfolding create_thread create_pthread join_thread finish_thread finish_main sleep_thread
process_thread_as thread_create curr tid = create_thread curr tid >>= λ id. ok tt
process_thread_as pthread_create curr tid = create_pthread curr tid
process_thread_as thread_join curr tid = join_thread curr
process_thread_as pthread_join curr tid = join_thread curr
process_thread_as threadonly_finish curr tid = finish_thread tid
process_thread_as thread_finish curr tid = finish_main tid
process_thread_as thread_sleep curr tid = sleep_thread curr tid
process_thread_as _ curr tid = ok tt

pub process_thread_action : ℕ → M (Unit {0})
unfolding process_thread_as
process_thread_action curr = do
  act ← gets (λ e. e.actions curr)
  process_thread_as act.type curr act.tid
