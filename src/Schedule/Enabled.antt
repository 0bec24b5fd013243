-- ===== src/Schedule/Enabled.antt =====
-- The status of every thread after each operation of the scheduler.
use c11tester.Base.{
  ℕ, ◌+◌, ◌-◌, ◌≡◌, ◌↔◌, ◌≢◌, refl, true, false, ◌==◌, some, ◌++◌, if◌then◌else◌, length, get_or,
  replicate, update, arith, get_or-set_self, get_or-set_ne, get_or-pad, length-append,
  length-replicate, get_or-beyond,
}
use c11tester.Threads.{set_state, state_code, thread_blocked, thread_ready, thread_completed}
use c11tester.Schedule.{
  EnabledType, thread_disabled, thread_enabled, Scheduler, set_enabled, is_enabled, sleep, wake,
}

-- The status of a thread: one that the array has no entry for is disabled.
abbrev pub status : Scheduler → ℕ → EnabledType
status s t = get_or s.enabled t thread_disabled

-- `set_enabled` changes the status of its thread alone, also where the array has to grow.
pub status-set_enabled :
    (s : Scheduler) (t u : ℕ) (e : EnabledType)
    → status (set_enabled s t e) u ≡ (if t == u then e else status s u)
unfolding set_enabled
status-set_enabled s t u e =
    let extra = replicate (t + 1 - length s.enabled) thread_disabled in
    ground (
      arith,
      get_or-set_self (s.enabled ++ extra) t e thread_disabled,
      get_or-set_ne (s.enabled ++ extra) t u e thread_disabled,
      length-append s.enabled extra,
      length-replicate (t + 1 - length s.enabled) thread_disabled,
      get_or-pad s.enabled (t + 1 - length s.enabled) u thread_disabled,
    )

threads-set_enabled :
    (s : Scheduler) (t : ℕ) (e : EnabledType) → (set_enabled s t e).threads ≡ s.threads
unfolding set_enabled
threads-set_enabled s t e = refl

-- A thread is enabled in the wide sense exactly if its status is not `thread_disabled`.
pub is_enabled_iff :
    (s : Scheduler) (t : ℕ) → (is_enabled s t ≡ true) ↔ (status s t ≢ thread_disabled)
unfolding is_enabled
is_enabled_iff s t = ground (arith, get_or-beyond s.enabled t thread_disabled)

-- Blocking a thread disables it and no other, and marks it blocked; waking it up afterwards
-- enables it and marks it ready. Both go through unless the thread has completed or is one of
-- the checker's own.
pub wake-sleep :
    (s : Scheduler) (t : ℕ)
    → (s.threads t).model_thread ≡ false
    → state_code (s.threads t).state ≢ state_code thread_completed
    → (s₁ : Scheduler) × (s₂ : Scheduler) × (sleep s t ≡ some s₁)
      × (wake s₁ t ≡ some s₂)
      × (is_enabled s₁ t ≡ false)
      × ((s₁.threads t).state ≡ thread_blocked)
      × (is_enabled s₂ t ≡ true)
      × ((s₂.threads t).state ≡ thread_ready)
      × ((u : ℕ)
          → t ≢ u
          → (status s₁ u ≡ status s u)
            × (s₁.threads u ≡ s.threads u)
            × (status s₂ u ≡ status s u)
            × (s₂.threads u ≡ s.threads u))
unfolding sleep wake set_state
wake-sleep s t own live =
    let s₁ = record (set_enabled s t thread_disabled) {
      threads = update s.threads t (record (s.threads t) { state = thread_blocked });
    } in
    let s₂ = record (set_enabled s₁ t thread_enabled) {
      threads = update s₁.threads t (record (s₁.threads t) { state = thread_ready });
    } in
    (
      s₁,
      s₂,
      ground (arith, threads-set_enabled s t thread_disabled),
      ground (arith, threads-set_enabled s₁ t thread_enabled),
      ground (arith, is_enabled_iff s₁ t, status-set_enabled s t t thread_disabled),
      ground arith,
      ground (arith, is_enabled_iff s₂ t, status-set_enabled s₁ t t thread_enabled),
      ground arith,
      λ u other.
          let a = status-set_enabled s t u thread_disabled in
          let b = status-set_enabled s₁ t u thread_enabled in
          (ground (arith, a), ground arith, ground (arith, a, b), ground arith),
    )

-- A thread of the program that has not completed is made ready and enabled, and nothing else
-- changes.
pub wake_lem :
    (s : Scheduler) (t : ℕ)
    → (s.threads t).model_thread ≡ false
    → state_code (s.threads t).state ≢ state_code thread_completed
    → (s' : Scheduler) × (wake s t ≡ some s')
      × (s'.threads ≡ update s.threads t (record (s.threads t) { state = thread_ready }))
      × ((u : ℕ) → status s' u ≡ (if t == u then thread_enabled else status s u))
unfolding wake set_state
wake_lem s t own live = (
  record (set_enabled s t thread_enabled) {
    threads = update s.threads t (record (s.threads t) { state = thread_ready });
  },
  ground (arith, threads-set_enabled s t thread_enabled),
  refl,
  λ u. status-set_enabled s t u thread_enabled,
)
