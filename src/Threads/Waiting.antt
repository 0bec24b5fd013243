-- ===== src/Threads/Waiting.antt =====
-- Which thread a thread waits on, directly or through others (threads.cc).
use c11tester.Base.{
  ℕ, zero, suc, Bool, true, false, ◌&&◌, ◌||◌, ◌==◌, Option, none, some, if◌then◌else◌,
}
use c11tester.Action.Kinds.{thread_join, pthread_join, atomic_lock, has_type, is_lock}
use c11tester.Action.{ModelAction}
use c11tester.Action.Rmw.{get_thread_operand, get_mutex}
use c11tester.Threads.{Thread}

-- The part of a mutex's state that is read here.
pub record MutexState : Type 0 where
  pub locked : Option ℕ
  pub recursive : Bool

module _ (threads : ℕ → Thread) (mutexes : ℕ → MutexState) where
  holder : Option ℕ → Option ℕ
  holder none = none
  holder (some m) = (mutexes m).locked

  waits_for : Option ModelAction → Option ℕ
  unfolding holder
  waits_for none = none
  waits_for (some act) =
      if has_type act.type thread_join || has_type act.type pthread_join
      then get_thread_operand act
      else if has_type act.type atomic_lock
      then holder (get_mutex act)
      else none

  unfoldable pub waiting_on : ℕ → Option ℕ
  unfolding waits_for
  waiting_on t = waits_for (threads t).pending

  -- `for (wait = ...; wait != NULL; wait = wait->waiting_on())`; `none` when the fuel is out.
  pub follow : ℕ → Option ℕ → ℕ → Option Bool
  follow fuel none t = some false
  follow zero (some w) t = none
  follow (suc fuel) (some w) t =
      let rest = follow fuel (waiting_on w) t in if w == t then some true else rest

  -- A thread that takes a recursive mutex again does not wait on itself.
  pub relocks : Option ModelAction → Bool
  relocks none = false
  relocks (some act) =
      is_lock act.type && elim (get_mutex act) [ none ↦ false | some m ↦ (mutexes m).recursive ]

  pub same : Option ℕ → ℕ → Bool
  same none t = false
  same (some w) t = w == t

  pub is_waiting_on : ℕ → ℕ → ℕ → Option Bool
  unfolding relocks same
  is_waiting_on fuel this t =
      if same (waiting_on this) t && relocks (threads this).pending
      then some false
      else follow fuel (waiting_on this) t

  -- The chain of waits from a thread leads to `t`.
  pub data Chain (t : ℕ) : Option ℕ → Type 0 where
    last : Chain t (some t)
    more : {w : ℕ} → Chain t (waiting_on w) → Chain t (some w)
