-- ===== src/Schedule.antt =====
-- The scheduler (schedule.cc, schedule.h): which threads are enabled, asleep or disabled, and the
-- choice of the next one, with the choice of fuzzer.cc (config.h leaves NEWFUZZER off, so no
-- thread is ever paused). The array `enabled` is a list, of length `enabled_len`; the threads
-- that the scheduler is handed are named by their ids and live in the store `threads`. `none` is
-- a failed assertion. `random()` is a parameter of the functions that call it.
pub mod Enabled
pub mod Selection
mod Tests
use c11tester.Base.{
  ℕ, zero, suc, ◌+◌, ◌-◌, ◌%◌, ◌≡◌, Bool, true, false, not, ◌&&◌, ◌||◌, ◌==◌, leb, ltb, Option,
  none, some, List, [], ◌∷◌, ◌++◌, if◌then◌else◌, length, get_or, set, replicate, update,
}
use c11tester.Threads.{
  Thread, ThreadState, set_state, set_wakeup_state, thread_blocked, thread_ready,
}

pub data EnabledType : Type 0 where
  thread_disabled thread_enabled thread_sleep_set : EnabledType

abbrev pub enabled_code : EnabledType → ℕ
enabled_code thread_disabled = 0
enabled_code thread_enabled = 1
enabled_code thread_sleep_set = 2

pub record Scheduler : Type 0 where
  pub enabled : List EnabledType
  pub curr_thread_index : ℕ
  pub current : Option ℕ
  pub threads : ℕ → Thread

pub new : (ℕ → Thread) → Scheduler
new threads = record { enabled = []; curr_thread_index = 0; current = none; threads = threads }

-- The array grows to hold the thread; the new entries are 0, THREAD_DISABLED.
pub set_enabled : Scheduler → ℕ → EnabledType → Scheduler
set_enabled s t status = record s {
  enabled = set (s.enabled ++ replicate (t + 1 - length s.enabled) thread_disabled) t status;
}

pub is_enabled : Scheduler → ℕ → Bool
is_enabled s t =
    if leb (length s.enabled) t
    then false
    else not (enabled_code (get_or s.enabled t thread_disabled) == enabled_code thread_disabled)

pub get_enabled : Scheduler → ℕ → Option EnabledType
get_enabled s t =
    if ltb t (length s.enabled) then some (get_or s.enabled t thread_disabled) else none

pub is_sleep_set : Scheduler → ℕ → Option Bool
is_sleep_set s t =
    if ltb t (length s.enabled)
    then some (enabled_code (get_or s.enabled t thread_disabled) == enabled_code thread_sleep_set)
    else none

-- The loop of `all_threads_sleeping`, with its flag.
sleeping_from : Bool → List EnabledType → Bool
sleeping_from sleeping [] = sleeping
sleeping_from sleeping (thread_enabled ∷ es) = false
sleeping_from sleeping (thread_sleep_set ∷ es) = sleeping_from true es
sleeping_from sleeping (thread_disabled ∷ es) = sleeping_from sleeping es

pub all_threads_sleeping : Scheduler → Bool
unfolding sleeping_from
all_threads_sleeping s = sleeping_from false s.enabled

pub add_sleep : Scheduler → ℕ → Scheduler
add_sleep s t = set_enabled s t thread_sleep_set

pub remove_sleep : Scheduler → ℕ → Scheduler
remove_sleep s t = set_enabled s t thread_enabled

pub add_thread : Scheduler → ℕ → Option Scheduler
add_thread s t =
    if not (s.threads t).model_thread then some (set_enabled s t thread_enabled) else none

-- `current == t`
abbrev runs : Option ℕ → ℕ → Bool
runs none t = false
runs (some c) t = c == t

pub remove_thread : Scheduler → ℕ → Scheduler
remove_thread s t =
    let s' = if runs s.current t then record s { current = none } else s in
    set_enabled s' t thread_disabled

in_state : Scheduler → ℕ → Option Thread → Option Scheduler
in_state s t none = none
in_state s t (some u) = some (record s { threads = update s.threads t u })

pub sleep : Scheduler → ℕ → Option Scheduler
unfolding in_state
sleep s t = in_state (set_enabled s t thread_disabled) t (set_state (s.threads t) thread_blocked)

pub wake : Scheduler → ℕ → Option Scheduler
unfolding in_state
wake s t =
    if not (s.threads t).model_thread
    then in_state (set_enabled s t thread_enabled) t (set_state (s.threads t) thread_ready)
    else none

-- The loop of `select_next_thread` from index `i` on: the enabled threads, and those asleep.
pub candidates : ℕ → List EnabledType → List ℕ × List ℕ
candidates i [] = ([], [])
candidates i (e ∷ es) =
    let (avail, asleep) = candidates (i + 1) es in
    if enabled_code e == enabled_code thread_enabled
    then (i ∷ avail, asleep)
    else if enabled_code e == enabled_code thread_sleep_set
    then (avail, i ∷ asleep)
    else (avail, asleep)

-- `Fuzzer::selectThread`, for a list that is not empty.
pub select_thread : ℕ → List ℕ → ℕ
select_thread random threadlist = get_or threadlist (random % length threadlist) 0

pub wake_up : Scheduler → ℕ → Scheduler
unfolding remove_sleep
wake_up s t =
    let s' = remove_sleep s t in
    record s' { threads = update s'.threads t (set_wakeup_state (s'.threads t) true) }

-- By which lists there are: no thread to run, or a sleeper to wake up, or an enabled thread.
choose : Scheduler → ℕ → List ℕ → List ℕ → Scheduler × Option ℕ
unfolding wake_up select_thread
choose s random [] [] = (s, none)
choose s random [] (t ∷ asleep) =
    let chosen = select_thread random (t ∷ asleep) in (wake_up s chosen, some chosen)
choose s random (t ∷ avail) asleep = (s, some (select_thread random (t ∷ avail)))

pub select_next_thread : Scheduler → ℕ → Scheduler × Option ℕ
unfolding choose
select_next_thread s random =
    let (avail, asleep) = candidates 0 s.enabled in choose s random avail asleep

pub set_scheduler_thread : Scheduler → ℕ → Scheduler
set_scheduler_thread s t = record s { curr_thread_index = t }

-- `!t || !t->is_model_thread()`
allowed : Scheduler → Option ℕ → Bool
allowed s none = true
allowed s (some t) = not (s.threads t).model_thread

pub set_current_thread : Scheduler → Option ℕ → Option Scheduler
unfolding allowed
set_current_thread s t = if allowed s t then some (record s { current = t }) else none

pub get_current_thread : Scheduler → Option (Option ℕ)
unfolding allowed
get_current_thread s = if allowed s s.current then some s.current else none
