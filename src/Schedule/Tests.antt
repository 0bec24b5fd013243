-- ===== src/Schedule/Tests.antt =====
-- A scheduler with one disabled thread, one asleep, and one enabled.
use c11tester.Base.{ℕ, false, none, [], ◌∷◌}
use c11tester.Threads.{Thread, thread_running}
use c11tester.Schedule.{
  thread_disabled, thread_enabled, thread_sleep_set, Scheduler, select_next_thread,
}
use c11tester.Schedule.Selection.{Chosen, select_next_thread-Chosen}

abbrev a_thread : ℕ → Thread
a_thread n = record {
  parent = none;
  acq_fence_cv = record { clock = [] };
  creation = none;
  pending = none;
  wakeup_state = false;
  id = n;
  state = thread_running;
  last_action_val = 0;
  model_thread = false;
}

abbrev three : Scheduler
three = record {
  enabled = thread_disabled ∷ thread_sleep_set ∷ thread_enabled ∷ [];
  curr_thread_index = 0;
  current = none;
  threads = a_thread;
}

abbrev sleepy : Scheduler
sleepy = record three { enabled = thread_disabled ∷ thread_sleep_set ∷ thread_sleep_set ∷ [] }

select_next_thread-Chosen_example :
    Chosen sleepy (select_next_thread sleepy 7).0 (select_next_thread sleepy 7).1
select_next_thread-Chosen_example = select_next_thread-Chosen sleepy 7
