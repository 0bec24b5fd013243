-- ===== src/Execution/Fuzz.antt =====
-- The random choices on waits and sleeps (fuzzer.cc). Times are in nanoseconds, as 64-bit words.
use c11tester.Base.{
  ℕ, ◌+◌, ◌-◌, ◌%◌, ◌^◌, Bool, true, false, ◌==◌, leb, ltb, if◌then◌else◌, Option, none, some, List,
  [], ◌∷◌, length, get_or, update,
}
use c11tester.Action.{ModelAction, Shared, reads_from, size, time}
use c11tester.Execution.State.{
  Source, M, ◌>>=◌, ◌>>◌, ok, gets, modify, need, with_action, draw, now,
}
use c11tester.Execution.Lists.{get_safe_ptr}

-- `get_time()`, from the union that may hold a time.
pub get_time : Shared → Option ℕ
get_time (reads_from act) = none
get_time (size bytes) = none
get_time (time t) = some t

pub set_time : ℕ → ModelAction → ModelAction
set_time t act = record act { shared = time t }

pub should_sleep : Bool
should_sleep = true

pub should_wake : Source → ModelAction → M Bool
unfolding get_time
should_wake source asleep = do
  lcurrtime ← now source
  t ← need (get_time asleep.shared)
  ok (ltb ((t + asleep.value) % 2 ^ 64) lcurrtime)

pub wait_should_fail : Source → ℕ → M Bool
unfolding set_time
wait_should_fail source wait = do
  coin ← draw source
  if coin % 2 == 0
      then (now source >>= λ lcurrtime. draw source >>= λ random.
          with_action wait (set_time ((random % 1000000 + lcurrtime) % 2 ^ 64)) >> ok true)
      else ok false

pub wait_should_wake_up : Source → ModelAction → M Bool
unfolding get_time
wait_should_wake_up source wait = do
  lcurrtime ← now source
  t ← need (get_time wait.shared)
  ok (ltb t lcurrtime)

-- The time until a timed wait expires gets shorter or not.
shorten : Source → ℕ → ℕ → ℕ → M (Unit {0})
unfolding set_time
shorten source timed_wait abstime lcurrtime = do
  coin ← draw source
  if coin % 2 == 0
      then (draw source >>= λ random.
          with_action timed_wait (set_time ((random % (abstime - lcurrtime) + lcurrtime) % 2 ^ 64)))
      else ok tt

pub randomize_wait_time : Source → ℕ → M Bool
unfolding get_time shorten
randomize_wait_time source timed_wait = do
  shared ← gets (λ e. (e.actions timed_wait).shared)
  abstime ← need (get_time shared)
  lcurrtime ← now source
  if leb abstime lcurrtime
      then ok false
      else (shorten source timed_wait abstime lcurrtime >> ok true)

-- A list without the element at an index.
pub erase_at : List ℕ → ℕ → List ℕ
erase_at [] i = []
erase_at (x ∷ xs) i = if i == 0 then xs else x ∷ erase_at xs (i - 1)

-- The thread of a waiter, which leaves the list of the waiters at a location.
pub select_notify : Source → ℕ → M ℕ
unfolding erase_at
select_notify source location = do
  waiters ← gets (λ e. get_safe_ptr e.condvar_waiters_map location)
  random ← draw source
  let index = random % length waiters
  modify (λ e. record e {
    condvar_waiters_map = update e.condvar_waiters_map location (some (erase_at waiters index));
  })
  gets (λ e. (e.actions (get_or waiters index 0)).tid)
