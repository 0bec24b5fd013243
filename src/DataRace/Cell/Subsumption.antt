-- ===== src/DataRace/Cell/Subsumption.antt =====
-- Why the reads that a read subsumes may be forgotten (datarace.cc, `fullRaceCheckRead`).
use c11tester.Base.{
  ℕ, ◌<◌, ◌≤◌, ◌≡◌, ◌↔◌, ◌⊎◌, inl, inr, refl, true, false, none, List, [], ◌∷◌, ◌++◌, arith, All,
  Bool-cases,
}
use c11tester.ClockVector.{get_clock}
use c11tester.ClockVector.Order.{Below}
use c11tester.DataRace.Cell.{Access, clock_may_race, races, our_clock, first_race, still_needed}

-- What happens-before means for the clocks of a read `a` and of a later access `b`: if `b` is by
-- the same thread, or its thread has synchronised with the reader since, it knows all that the
-- reader knew.
abbrev pub IsLater : Access → Access → Type 0
IsLater a b =
    (b.thread ≡ a.thread) ⊎ (our_clock a < get_clock b.clock a.thread) → Below a.clock b.clock

-- The recorded reads of the reading thread itself are not later than its clock.
abbrev pub IsPast : Access → ℕ × ℕ → Type 0
IsPast a (thread, clock) = thread ≡ a.thread → clock ≤ our_clock a

-- A later access that races with a read that `a` subsumed races with `a` too.
races_of_subsumed :
    (a b : Access) (thread clock : ℕ)
    → 0 < our_clock a
    → IsLater a b
    → IsPast a (thread, clock)
    → races a (thread, clock) ≡ false
    → races b (thread, clock) ≡ true
    → races b (a.thread, our_clock a) ≡ true
unfolding clock_may_race
races_of_subsumed a b thread clock pos later past off on =
    let by_thread : b.thread ≡ a.thread → get_clock a.clock thread ≤ get_clock b.clock thread =
      λ h. later (inl h) thread in
    let by_clock : our_clock a < get_clock b.clock a.thread
        → get_clock a.clock thread ≤ get_clock b.clock thread =
      λ h. later (inr h) thread in
    ground (arith, by_thread, by_clock)

abbrev NoRace : Access → List (ℕ × ℕ) → Type 0
NoRace b rs = All (λ r. races b r ≡ false) rs

first_race_iff : (b : Access) (rs : List (ℕ × ℕ)) → (first_race b rs ≡ none) ↔ NoRace b rs
unfolding first_race
first_race_iff b [] = (λ _. tt, λ _. refl)
first_race_iff b (r ∷ rs) = ground (arith, first_race_iff b rs)

first_race-append_iff :
    (b : Access) (rs : List (ℕ × ℕ)) (r : ℕ × ℕ)
    → NoRace b (rs ++ r ∷ []) ↔ (NoRace b rs × (races b r ≡ false))
first_race-append_iff b [] r = (λ h. (tt, h.0), λ h. (h.1, tt))
first_race-append_iff b (x ∷ rs) r =
    let ih = first_race-append_iff b rs r in
    (λ h. ((h.0, (ih.0 h.1).0), (ih.0 h.1).1), λ h. (h.0.0, ih.1 (h.0.1, h.1)))

NoRace-kept : (a b : Access) (rs : List (ℕ × ℕ)) → NoRace b rs → NoRace b (still_needed a rs)
unfolding still_needed
NoRace-kept a b [] h = tt
NoRace-kept a b (r ∷ rs) h = elim (Bool-cases (races a r)) [
  | inl keep ↦ rw keep (h.0, NoRace-kept a b rs h.1)
  | inr drop ↦ rw drop (NoRace-kept a b rs h.1)
]

NoRace-All :
    (a b : Access) (rs : List (ℕ × ℕ))
    → 0 < our_clock a
    → IsLater a b
    → All (IsPast a) rs
    → races b (a.thread, our_clock a) ≡ false
    → NoRace b (still_needed a rs)
    → NoRace b rs
unfolding still_needed
NoRace-All a b [] pos later past new h = tt
NoRace-All a b ((thread, clock) ∷ rs) pos later past new h =
    elim (Bool-cases (races a (thread, clock))) [
      | inl keep ↦
          let h' : NoRace b ((thread, clock) ∷ still_needed a rs) = rw (keep, still_needed) at h in
          (h'.0, NoRace-All a b rs pos later past.1 new h'.1)
      | inr drop ↦
          let h' : NoRace b (still_needed a rs) = rw (drop, still_needed) at h in
          (
            elim (Bool-cases (races b (thread, clock))) [
              | inl on ↦
                  let again = races_of_subsumed a b thread clock pos later past.0 drop on in cc
              | inr off ↦ off
            ],
            NoRace-All a b rs pos later past.1 new h',
          )
    ]

-- Forgetting the reads that a read `a` subsumes loses no race and makes none up: a later access
-- `b` finds no race among the reads that are kept, with `a`, exactly if there is none among all
-- the reads, with `a`. The clock of `a` is above 0 and not behind the recorded reads of its own
-- thread, and `b` knows what `a` knew if it is by the same thread or has synchronised with it
-- since.
pub first_race-still_needed :
    (a b : Access) (rs : List (ℕ × ℕ))
    → 0 < our_clock a
    → IsLater a b
    → All (IsPast a) rs
    → (first_race b (still_needed a rs ++ (a.thread, our_clock a) ∷ []) ≡ none)
      ↔ (first_race b (rs ++ (a.thread, our_clock a) ∷ []) ≡ none)
first_race-still_needed a b rs pos later past =
    let kept = first_race-append_iff b (still_needed a rs) (a.thread, our_clock a) in
    let every = first_race-append_iff b rs (a.thread, our_clock a) in
    let short = first_race_iff b (still_needed a rs ++ (a.thread, our_clock a) ∷ []) in
    let long = first_race_iff b (rs ++ (a.thread, our_clock a) ∷ []) in
    (
      λ e.
          let h = kept.0 (short.0 e) in
          long.1 (every.1 (NoRace-All a b rs pos later past h.1 h.0, h.1)),
      λ e. let h = every.0 (long.0 e) in short.1 (kept.1 (NoRace-kept a b rs h.0, h.1)),
    )
