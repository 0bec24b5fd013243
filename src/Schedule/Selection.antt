-- ===== src/Schedule/Selection.antt =====
-- The choice of the next thread.
use c11tester.Base.{
  ℕ, zero, suc, ◌+◌, ◌%◌, ◌≡◌, ◌↔◌, ◌⊎◌, ◌≢◌, inl, inr, refl, Bool, true, false, ◌==◌, Option, none,
  some, List, [], ◌∷◌, if◌then◌else◌, length, get_or, arith, All, All-map, get_or-All, sym, subst,
}
use mathlib.Core.Bool.{false≢true}
use native.Mathlib.Nat.{mod-lt}
use c11tester.Threads.{set_wakeup_state}
use c11tester.Schedule.{
  EnabledType, thread_disabled, thread_enabled, thread_sleep_set, Scheduler, set_enabled,
  candidates, select_thread, wake_up, choose, select_next_thread, all_threads_sleeping,
  sleeping_from,
}
use c11tester.Schedule.Enabled.{status, status-set_enabled}

-- The entry of index `j`, counted from `i`, has the status `e`.
abbrev Entry : EnabledType → ℕ → List EnabledType → ℕ → Type 0
Entry e i es j = (k : ℕ) × (j ≡ i + k) × (get_or es k thread_disabled ≡ e)

Entry-cons :
    (e d : EnabledType) (i : ℕ) (es : List EnabledType) (j : ℕ)
    → Entry e (i + 1) es j
    → Entry e i (d ∷ es) j
Entry-cons e d i es j (k, p, q) = (suc k, omega arith, q)

candidates_listed :
    (i : ℕ) (es : List EnabledType)
    → All (Entry thread_enabled i es) (candidates i es).0
      × All (Entry thread_sleep_set i es) (candidates i es).1
unfolding candidates
candidates_listed i [] = (tt, tt)
candidates_listed i (thread_disabled ∷ es) =
    let (a, b) = candidates_listed (i + 1) es in
    (
      All-map (Entry-cons thread_enabled thread_disabled i es) _ a,
      All-map (Entry-cons thread_sleep_set thread_disabled i es) _ b,
    )
candidates_listed i (thread_enabled ∷ es) =
    let (a, b) = candidates_listed (i + 1) es in
    (
      ((0, omega arith, refl), All-map (Entry-cons thread_enabled thread_enabled i es) _ a),
      All-map (Entry-cons thread_sleep_set thread_enabled i es) _ b,
    )
candidates_listed i (thread_sleep_set ∷ es) =
    let (a, b) = candidates_listed (i + 1) es in
    (
      All-map (Entry-cons thread_enabled thread_sleep_set i es) _ a,
      ((0, omega arith, refl), All-map (Entry-cons thread_sleep_set thread_sleep_set i es) _ b),
    )

none_enabled :
    (i : ℕ) (es : List EnabledType)
    → (candidates i es).0 ≡ []
    → (k : ℕ) → get_or es k thread_disabled ≢ thread_enabled
unfolding candidates
none_enabled i [] e k h = cc
none_enabled i (x ∷ es) e zero h = ground arith
none_enabled i (x ∷ es) e (suc k) h = none_enabled (i + 1) es (ground arith) k h

none_asleep :
    (i : ℕ) (es : List EnabledType)
    → (candidates i es).1 ≡ []
    → (k : ℕ) → get_or es k thread_disabled ≢ thread_sleep_set
unfolding candidates
none_asleep i [] e k h = cc
none_asleep i (x ∷ es) e zero h = ground arith
none_asleep i (x ∷ es) e (suc k) h = none_asleep (i + 1) es (ground arith) k h

selected :
    (s : Scheduler) (random : ℕ) (e : EnabledType) (t : ℕ) (ts : List ℕ)
    → All (Entry e 0 s.enabled) (t ∷ ts)
    → status s (select_thread random (t ∷ ts)) ≡ e
unfolding select_thread
selected s random e t ts all =
    let (k, p, q) =
      get_or-All (Entry e 0 s.enabled) (t ∷ ts) (random % length (t ∷ ts)) 0
        (mod-lt random (omega arith)) all in
    let same : get_or (t ∷ ts) (random % length (t ∷ ts)) 0 ≡ k = omega arith in rw same q

-- What a choice may be: no thread, if all are disabled; one that is enabled, and nothing changes;
-- or, if none is enabled, one that sleeps, which is enabled and told that it was woken up, while
-- no other thread changes.
pub data Chosen (s : Scheduler) : Scheduler → Option ℕ → Type 0 where
  nobody : ((t : ℕ) → status s t ≡ thread_disabled) → Chosen s s none
  runnable : {t : ℕ} → status s t ≡ thread_enabled → Chosen s s (some t)
  sleeper :
      {t : ℕ} {s' : Scheduler}
      → ((u : ℕ) → status s u ≢ thread_enabled)
      → status s t ≡ thread_sleep_set
      → ((u : ℕ) → status s' u ≡ (if t == u then thread_enabled else status s u))
      → ((u : ℕ)
          → s'.threads u ≡ (if t == u then set_wakeup_state (s.threads t) true else s.threads u))
      → Chosen s s' (some t)

threads-wake_up :
    (s : Scheduler) (t u : ℕ)
    → (wake_up s t).threads u
      ≡ (if t == u then set_wakeup_state (s.threads t) true else s.threads u)
unfolding wake_up set_enabled
threads-wake_up s t u = ground arith

status-wake_up :
    (s : Scheduler) (t u : ℕ)
    → status (wake_up s t) u ≡ (if t == u then thread_enabled else status s u)
unfolding wake_up
status-wake_up s t u = status-set_enabled s t u thread_enabled

neither : (e : EnabledType) → e ≢ thread_enabled → e ≢ thread_sleep_set → e ≡ thread_disabled
neither thread_disabled h k = refl
neither thread_enabled h k = absurd (h refl)
neither thread_sleep_set h k = absurd (k refl)

choose-Chosen :
    (s : Scheduler) (random : ℕ) (avail asleep : List ℕ)
    → avail ≡ (candidates 0 s.enabled).0
    → asleep ≡ (candidates 0 s.enabled).1
    → Chosen s (choose s random avail asleep).0 (choose s random avail asleep).1
unfolding choose
choose-Chosen s random [] [] p q = nobody λ t.
    neither (status s t) (none_enabled 0 s.enabled (sym p) t) (none_asleep 0 s.enabled (sym q) t)
choose-Chosen s random [] (t ∷ ts) p q =
    let all =
      subst (All (Entry thread_sleep_set 0 s.enabled)) (sym q) (candidates_listed 0 s.enabled).1 in
    sleeper (none_enabled 0 s.enabled (sym p)) (selected s random thread_sleep_set t ts all)
      (status-wake_up s (select_thread random (t ∷ ts)))
      (threads-wake_up s (select_thread random (t ∷ ts)))
choose-Chosen s random (t ∷ ts) asleep p q =
    let all =
      subst (All (Entry thread_enabled 0 s.enabled)) (sym p) (candidates_listed 0 s.enabled).0 in
    runnable (selected s random thread_enabled t ts all)

-- Whatever number the random source gives, the choice is one that `Chosen` allows.
pub select_next_thread-Chosen :
    (s : Scheduler) (random : ℕ)
    → Chosen s (select_next_thread s random).0 (select_next_thread s random).1
unfolding select_next_thread
select_next_thread-Chosen s random =
    choose-Chosen s random (candidates 0 s.enabled).0 (candidates 0 s.enabled).1 refl refl

sleeping_from_iff :
    (b : Bool) (es : List EnabledType)
    → (sleeping_from b es ≡ true) ↔ (
        ((k : ℕ) → get_or es k thread_disabled ≢ thread_enabled)
        × ((b ≡ true) ⊎ ((k : ℕ) × (get_or es k thread_disabled ≡ thread_sleep_set))))
unfolding sleeping_from
sleeping_from_iff b [] = (λ h. (λ k e. cc, inl h), λ h. elim h.1 [ inl e ↦ e | inr (k, e) ↦ cc ])
sleeping_from_iff b (thread_enabled ∷ es) = (λ h. cc, λ h. absurd (h.0 0 refl))
sleeping_from_iff b (thread_sleep_set ∷ es) =
    let ih = sleeping_from_iff true es in
    (
      λ h. (elim [ zero ↦ λ e. cc | suc k ↦ (ih.0 h).0 k ], inr (0, refl)),
      λ h. ih.1 (λ k. h.0 (suc k), inl refl),
    )
sleeping_from_iff b (thread_disabled ∷ es) =
    let ih = sleeping_from_iff b es in
    (
      λ h. (
        elim [ zero ↦ λ e. cc | suc k ↦ (ih.0 h).0 k ],
        elim ((ih.0 h).1) [ inl e ↦ inl e | inr (k, e) ↦ inr (suc k, e) ],
      ),
      λ h. ih.1 (λ k. h.0 (suc k), later b es h.1),
    )
  where
    later :
        (b : Bool) (es : List EnabledType)
        → (b ≡ true)
          ⊎ ((k : ℕ) × (get_or (thread_disabled ∷ es) k thread_disabled ≡ thread_sleep_set))
        → (b ≡ true) ⊎ ((k : ℕ) × (get_or es k thread_disabled ≡ thread_sleep_set))
    later b es (inl e) = inl e
    later b es (inr (zero, e)) = cc
    later b es (inr (suc k, e)) = inr (k, e)

-- The execution is stuck asleep exactly if no thread is enabled and some thread sleeps.
pub all_threads_sleeping_iff :
    (s : Scheduler)
    → (all_threads_sleeping s ≡ true)
      ↔ (((t : ℕ) → status s t ≢ thread_enabled) × ((t : ℕ) × (status s t ≡ thread_sleep_set)))
unfolding all_threads_sleeping
all_threads_sleeping_iff s =
    let (there, back) = sleeping_from_iff false s.enabled in
    (
      λ h. ((there h).0, elim (there h).1 [ inl e ↦ absurd (false≢true e) | inr w ↦ w ]),
      λ h. back (h.0, inr h.1),
    )
