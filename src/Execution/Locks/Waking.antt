-- ===== src/Execution/Locks/Waking.antt =====
-- Which threads are woken up when a lock is given back, or a thread ends (execution.cc).
use c11tester.Base.{
  ℕ, zero, suc, ◌+◌, ◌-◌, ◌≡◌, ◌≢◌, inl, inr, refl, sym, ap, ◌∙◌, subst, Bool, true, false, ◌&&◌,
  ◌==◌, leb, ltb, if◌then◌else◌, none, some, update, arith, Bool-cases, ==_iff,
}
use c11tester.Action.{ModelAction}
use c11tester.Action.Kinds.{is_lock}
use c11tester.Threads.{Thread, thread_ready, thread_completed, state_code}
use c11tester.Threads.Waiting.{MutexState, waiting_on}
use c11tester.Schedule.{Scheduler, thread_enabled}
use c11tester.Schedule.Enabled.{status, wake_lem}
use c11tester.Execution.State.{Execution, thread, get_num_threads}
use c11tester.Execution.Locks.{
  waits_with, wake_thread, wake_waiting, wake_all_waiting, give_back, set_owner,
}

-- Waiting depends on the pending action of the thread and on the mutexes.
waiting_on-pending :
    (f g : ℕ → Thread) (mutexes : ℕ → MutexState) (t : ℕ)
    → (f t).pending ≡ (g t).pending
    → waiting_on f mutexes t ≡ waiting_on g mutexes t
unfolding waiting_on
waiting_on-pending f g mutexes t h = rw (h, waiting_on) refl

module _ (test : ModelAction → Bool) (owner : ℕ) where
  -- The execution with another scheduler, whose threads have the same pending actions.
  waits_with-scheduler :
      (e : Execution) (s : Scheduler) (t : ℕ)
      → (s.threads t).pending ≡ (thread e t).pending
      → waits_with test (record e { scheduler = s }) t owner ≡ waits_with test e t owner
  unfolding waits_with
  waits_with-scheduler e s t h =
      rw (waiting_on-pending s.threads e.scheduler.threads e.mutexes t h, h) refl

  -- A thread that waits is one of the program's, and has not completed.
  abbrev pub CanWake : Execution → Type 0
  CanWake e =
      (t : ℕ)
      → waits_with test e t owner ≡ true
      → ((thread e t).model_thread ≡ false)
        × (state_code (thread e t).state ≢ state_code thread_completed)

  -- The thread is one of the `n` from `t` on, and waits.
  abbrev pub chosen : Execution → ℕ → ℕ → ℕ → Bool
  chosen e n t u = (leb t u && ltb u (t + n)) && waits_with test e u owner

  -- Exactly the chosen threads are ready and enabled now.
  pub record Woken (e : Execution) (s : Scheduler) (n t u : ℕ) : Type 0 where
    pub ready :
        s.threads u
        ≡ (if chosen e n t u then record (thread e u) { state = thread_ready } else thread e u)
    pub enabled : status s u ≡ (if chosen e n t u then thread_enabled else status e.scheduler u)

  module _ (e : Execution) (t : ℕ) (s : Scheduler) (can : CanWake e)
      (threads : s.threads
        ≡ update e.scheduler.threads t (record (thread e t) { state = thread_ready })) where
    woken : ℕ → Thread
    woken = update e.scheduler.threads t (record (thread e t) { state = thread_ready })

    pending-woken : (u : ℕ) → (woken u).pending ≡ (thread e u).pending
    unfolding woken
    pending-woken u = elim (Bool-cases (t == u)) [
      | inl same ↦ ground arith
      | inr other ↦ ground arith
    ]

    waits_with-woken :
        (u : ℕ) → waits_with test (record e { scheduler = s }) u owner ≡ waits_with test e u owner
    unfolding woken
    waits_with-woken u = waits_with-scheduler e s u (rw threads (pending-woken u))

    woken-CanWake : CanWake (record e { scheduler = s })
    woken-CanWake u h =
        let k = can u (sym (waits_with-woken u) ∙ h) in
        rw threads
          (elim (Bool-cases (t == u)) [ inl same ↦ ground arith | inr other ↦ ground arith ])

    Woken-step :
        {u : ℕ}
        → status s u ≡ (if t == u then thread_enabled else status e.scheduler u)
        → waits_with test e t owner ≡ true
        → (n : ℕ) (s' : Scheduler) → Woken (record e { scheduler = s }) s' n (t + 1) u
        → Woken e s' (suc n) t u
    Woken-step {u} st waits n s' k =
        let at_u = ap (λ (f : ℕ → Thread). f u) threads in
        elim (Bool-cases (t == u)) [
          | inl same ↦
              let eq : t ≡ u = (==_iff t u).0 same in
              let waits_u = subst (λ x. waits_with test e x owner ≡ true) eq waits in
              record {
                ready = ground (arith, at_u, eq, waits_u, k.ready);
                enabled = ground (arith, st, waits_u, k.enabled);
              }
          | inr other ↦ record {
            ready = ground (arith, at_u, waits_with-woken u, k.ready);
            enabled = ground (arith, st, waits_with-woken u, k.enabled);
          }
        ]

  pub wake_waiting_lem :
      (n t : ℕ) (e : Execution)
      → CanWake e
      → (s : Scheduler) × (wake_waiting test owner n t e ≡ some (tt, record e { scheduler = s }))
        × ((u : ℕ) → Woken e s n t u)
  unfolding wake_waiting wake_thread
  wake_waiting_lem zero t e can =
      (e.scheduler, refl, λ u. record { ready = ground arith; enabled = ground arith })
  wake_waiting_lem (suc n) t e can = elim (Bool-cases (waits_with test e t owner)) [
    | inl waits ↦
        let (own, live) = can t waits in
        let (s, w, threads, st) = wake_lem e.scheduler t own live in
        let (s', rest, woken') =
          wake_waiting_lem n (t + 1) (record e { scheduler = s })
            (woken-CanWake e t s can threads) in
        (
          s',
          ground (arith, waits, w, rest),
          λ u. Woken-step e t s can threads (st u) waits n s' (woken' u),
        )
    | inr not_waiting ↦
        let (s', rest, woken') = wake_waiting_lem n (t + 1) e can in
        (
          s',
          ground arith,
          λ u. record {
            ready = ground (arith, (woken' u).ready);
            enabled = ground (arith, (woken' u).enabled);
          },
        )
  ]

-- Giving back a lock frees it, and makes ready and enables the threads after the checker's own
-- that wait on its holder with a lock as their pending action, if these are threads of the program
-- that have not completed. All other threads stay as they are.
pub give_back_wakes :
    (tid m : ℕ) (e : Execution)
    → ((t : ℕ)
        → waits_with (λ act. is_lock act.type) e t tid ≡ true
        → ((thread e t).model_thread ≡ false)
          × (state_code (thread e t).state ≢ state_code thread_completed))
    → (s : Scheduler) × (give_back tid m e
        ≡ some (tt, set_owner m none (record e { scheduler = s })))
      × (((set_owner m none (record e { scheduler = s })).mutexes m).locked ≡ none)
      × ((u : ℕ) → Woken (λ act. is_lock act.type) tid e s (get_num_threads e - 1) 1 u)
unfolding give_back wake_all_waiting set_owner
give_back_wakes tid m e can =
    let (s, w, woken) =
      wake_waiting_lem (λ act. is_lock act.type) tid (get_num_threads e - 1) 1 e can in
    (s, ground (arith, w), ground arith, woken)
