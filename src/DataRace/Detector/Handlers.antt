-- ===== src/DataRace/Detector/Handlers.antt =====
-- Every handler of datarace.cc keeps every cell in order.
use mathlib.Core.Option.{some-injective}
use c11tester.Base.{
  ℕ, zero, suc, ◌+◌, ◌%◌, ◌^◌, Bool, false, ltb, ◌≡◌, ◌⊎◌, inl, inr, refl, subst, ◌==◌, Option,
  none, some, arith, Bool-cases,
}
use c11tester.DataRace.Cell.{
  Shadow, Access, Checked, check_write, check_read, check_atomic_write, record_write_cell,
  record_calloc_cell, set_atomic_store_flag,
}
use c11tester.DataRace.Cell.Bounds.{IsSound, checks-IsSound, set_atomic_store_flag-IsSound}
use c11tester.DataRace.Detector.{
  Detector, checked, raised, silenced, lookup_address_entry, write_cell, handle, others,
  init_race_detector, when_clocked, race_check_write_other_it, race_check_read_other_it,
  race_check_write8, race_check_write16, race_check_write32, race_check_write64, race_check_read8,
  race_check_read16, race_check_read32, race_check_read64, race_check_write_memop,
  race_check_read_memop, read_rounds, write_rounds, record_calloc, calloc_bytes, is_full,
  atomrace_check_write, atomrace_check_read, record_write, flag_atomic_store_at,
}
use c11tester.DataRace.Detector.Wide.{
  IsSoundDetector, KeepsSound, handle-IsSound, publish-shadow, bytewise, race_check_wide-bytewise,
}

-- The handlers, as one type of events that the program under test causes.
pub data Event : Type 0 where
  read8 read16 read32 read64 write8 write16 write32 write64 atomic_read atomic_write : Event

pub run_event : Option Access → Event → ℕ → Detector → Detector
run_event a read8 location d = race_check_read8 a d location
run_event a read16 location d = race_check_read16 a d location
run_event a read32 location d = race_check_read32 a d location
run_event a read64 location d = race_check_read64 a d location
run_event a write8 location d = race_check_write8 a d location
run_event a write16 location d = race_check_write16 a d location
run_event a write32 location d = race_check_write32 a d location
run_event a write64 location d = race_check_write64 a d location
run_event a atomic_read location d = atomrace_check_read a d location
run_event a atomic_write location d = atomrace_check_write a d location

-- What can become of the detector: events, and what the instrumented program records unchecked.
pub data Reach : Detector → Type 0 where
  start : Reach init_race_detector
  event :
      (a : Option Access) (e : Event) (location : ℕ) {d : Detector}
      → Reach d
      → Reach (run_event a e location d)
  block :
      (fuel : ℕ) (a : Option Access) (location size : ℕ) {d d' : Detector}
      → Reach d
      → (race_check_write_memop fuel a d location size ≡ some d')
        ⊎ (race_check_read_memop fuel a d location size ≡ some d')
      → Reach d'
  written :
      (a : Option Access) (location : ℕ) {d d' : Detector}
      → Reach d
      → record_write a d location ≡ some d'
      → Reach d'
  flagged : (address : ℕ) {d : Detector} → Reach d → Reach (flag_atomic_store_at d address)
  cleared :
      (a : Option Access) (location size : ℕ) {d d' : Detector}
      → Reach d
      → record_calloc a d location size ≡ some d'
      → Reach d'

keeps_write : (a : Access) → KeepsSound (check_write a)
keeps_write a location c s = (checks-IsSound a location c s).0

keeps_read : (a : Access) → KeepsSound (check_read a)
keeps_read a location c s = (checks-IsSound a location c s).1

keeps_atomic : (a : Access) → KeepsSound (check_atomic_write a)
keeps_atomic a location c s = (checks-IsSound a location c s).2

write_cell-IsSound :
    (d : Detector) (entry : ℕ) (c : Shadow)
    → IsSoundDetector d
    → IsSound c
    → IsSoundDetector (write_cell d entry c)
unfolding write_cell
write_cell-IsSound d entry c sound s e = elim (Bool-cases (entry == e)) [
  | inl here ↦ rw here s
  | inr other ↦ rw other (sound e)
]

others-IsSound :
    (check : ℕ → Shadow → Checked) (location n k : ℕ) (d : Detector)
    → KeepsSound check
    → IsSoundDetector d
    → IsSoundDetector (others check location n k d)
unfolding others
others-IsSound check location zero k d keeps sound = sound
others-IsSound check location (suc n) k d keeps sound =
    others-IsSound check location n (k + 1) (handle check d (location + k)) keeps
      (handle-IsSound check d (location + k) keeps sound)

bytewise-IsSound :
    (check : Access → ℕ → Shadow → Checked) (a : Option Access) (n location : ℕ) (d : Detector)
    → ((b : Access) → KeepsSound (check b))
    → IsSoundDetector d
    → IsSoundDetector (bytewise check a n d location)
bytewise-IsSound check none n location d keeps sound = sound
bytewise-IsSound check (some a) n location d keeps sound =
    others-IsSound (check a) location n 0 d (keeps a) sound

read_rounds-IsSound :
    (fuel : ℕ) (a : Access) (size i : ℕ) (d d' : Detector) (location : ℕ)
    → IsSoundDetector d
    → read_rounds fuel a size i d location ≡ some d'
    → IsSoundDetector d'
unfolding read_rounds
read_rounds-IsSound zero a size i d d' location sound h = cc
read_rounds-IsSound (suc fuel) a size i d d' location sound h = elim (Bool-cases (ltb i size)) [
  | inl more ↦
      read_rounds-IsSound fuel a size ((i + 1) % 2 ^ 32) (handle (check_read a) d location) d'
        location (handle-IsSound (check_read a) d location (keeps_read a) sound) (rw more at h)
  | inr stop ↦ subst IsSoundDetector (some-injective _ _ (rw stop at h)) sound
]

write_rounds-IsSound :
    (fuel : ℕ) (a : Access) (size i : ℕ) (already : Bool) (d d' : Detector) (location : ℕ)
    → IsSoundDetector d
    → write_rounds fuel a size i already d location ≡ some d'
    → IsSoundDetector d'
unfolding write_rounds
write_rounds-IsSound zero a size i already d d' location sound h = cc
write_rounds-IsSound (suc fuel) a size i already d d' location sound h =
    elim (Bool-cases (ltb i size)) [
      | inl more ↦
          let at = lookup_address_entry location in
          let done = checked (check_write a) d location in
          let kept =
            write_cell-IsSound d at done.cell sound (keeps_write a location _ (sound at)) in
          write_rounds-IsSound fuel a size ((i + 1) % 2 ^ 32) (raised already done.race) _ d'
            location
            (λ entry.
              rw (publish-shadow (silenced already done.race) (write_cell d at done.cell))
                (kept entry))
            (rw more at h)
      | inr stop ↦ subst IsSoundDetector (some-injective _ _ (rw stop at h)) sound
    ]

blocks-IsSound :
    (fuel : ℕ) (a : Option Access) (location size : ℕ) (d d' : Detector)
    → IsSoundDetector d
    → (race_check_write_memop fuel a d location size ≡ some d')
      ⊎ (race_check_read_memop fuel a d location size ≡ some d')
    → IsSoundDetector d'
unfolding race_check_write_memop race_check_read_memop
blocks-IsSound fuel none location size d d' sound (inl h) =
    subst IsSoundDetector (some-injective _ _ h) sound
blocks-IsSound fuel none location size d d' sound (inr h) =
    subst IsSoundDetector (some-injective _ _ h) sound
blocks-IsSound fuel (some a) location size d d' sound (inl h) =
    write_rounds-IsSound fuel a size 0 false d d' location sound h
blocks-IsSound fuel (some a) location size d d' sound (inr h) =
    read_rounds-IsSound fuel a size 0 d d' location sound h

write8-IsSound :
    (a : Option Access) (location : ℕ) (d : Detector)
    → IsSoundDetector d
    → IsSoundDetector (race_check_write8 a d location)
unfolding race_check_write8 when_clocked race_check_write_other_it
write8-IsSound none location d sound = sound
write8-IsSound (some a) location d sound =
    handle-IsSound (check_write a) d location (keeps_write a) sound

read8-IsSound :
    (a : Option Access) (location : ℕ) (d : Detector)
    → IsSoundDetector d
    → IsSoundDetector (race_check_read8 a d location)
unfolding race_check_read8 when_clocked race_check_read_other_it
read8-IsSound none location d sound = sound
read8-IsSound (some a) location d sound =
    handle-IsSound (check_read a) d location (keeps_read a) sound

event-IsSound :
    (a : Option Access) (e : Event) (location : ℕ) (d : Detector)
    → IsSoundDetector d
    → IsSoundDetector (run_event a e location d)
unfolding run_event atomrace_check_write atomrace_check_read when_clocked
event-IsSound a read8 location d sound = read8-IsSound a location d sound
event-IsSound a write8 location d sound = write8-IsSound a location d sound
event-IsSound a write16 location d sound =
    rw ((race_check_wide-bytewise a d location sound).0)
      (bytewise-IsSound check_write a 2 location d keeps_write sound)
event-IsSound a write32 location d sound =
    rw ((race_check_wide-bytewise a d location sound).1)
      (bytewise-IsSound check_write a 4 location d keeps_write sound)
event-IsSound a write64 location d sound =
    rw ((race_check_wide-bytewise a d location sound).2)
      (bytewise-IsSound check_write a 8 location d keeps_write sound)
event-IsSound a read16 location d sound =
    rw ((race_check_wide-bytewise a d location sound).3)
      (bytewise-IsSound check_read a 2 location d keeps_read sound)
event-IsSound a read32 location d sound =
    rw ((race_check_wide-bytewise a d location sound).4)
      (bytewise-IsSound check_read a 4 location d keeps_read sound)
event-IsSound a read64 location d sound =
    rw ((race_check_wide-bytewise a d location sound).5)
      (bytewise-IsSound check_read a 8 location d keeps_read sound)
event-IsSound none atomic_read location d sound = sound
event-IsSound (some a) atomic_read location d sound = λ entry. rw (publish-shadow _ d) (sound entry)
event-IsSound none atomic_write location d sound = sound
event-IsSound (some a) atomic_write location d sound =
    handle-IsSound (check_atomic_write a) d location (keeps_atomic a) sound

record_write-IsSound :
    (a : Option Access) (location : ℕ) (d d' : Detector)
    → IsSoundDetector d
    → record_write a d location ≡ some d'
    → IsSoundDetector d'
unfolding record_write
record_write-IsSound none location d d' sound e = cc
record_write-IsSound (some a) location d d' sound e =
    let at = lookup_address_entry location in
    subst IsSoundDetector (some-injective _ _ e) (
      write_cell-IsSound d at (record_write_cell a (d.shadow at)) sound
        ((checks-IsSound a location (d.shadow at) (sound at)).3))

calloc_bytes-IsSound :
    (a : Access) (size : ℕ) (d : Detector) (location : ℕ)
    → IsSoundDetector d
    → IsSoundDetector (calloc_bytes a size d location)
unfolding calloc_bytes
calloc_bytes-IsSound a zero d location sound = sound
calloc_bytes-IsSound a (suc size) d location sound =
    let at = lookup_address_entry location in
    let c = record_calloc_cell a (d.shadow at) in
    let kept =
      write_cell-IsSound d at c sound ((checks-IsSound a location (d.shadow at) (sound at)).4) in
    elim (Bool-cases (is_full c)) [
      | inl stops ↦ rw stops kept
      | inr goes ↦ rw goes (calloc_bytes-IsSound a size (write_cell d at c) (location + 1) kept)
    ]

record_calloc-IsSound :
    (a : Option Access) (location size : ℕ) (d d' : Detector)
    → IsSoundDetector d
    → record_calloc a d location size ≡ some d'
    → IsSoundDetector d'
unfolding record_calloc
record_calloc-IsSound none location zero d d' sound e =
    subst IsSoundDetector (some-injective _ _ e) sound
record_calloc-IsSound none location (suc size) d d' sound e = cc
record_calloc-IsSound (some a) location zero d d' sound e =
    subst IsSoundDetector (some-injective _ _ e) sound
record_calloc-IsSound (some a) location (suc size) d d' sound e =
    subst IsSoundDetector (some-injective _ _ e)
      (calloc_bytes-IsSound a (suc size) d location sound)

flag-IsSound :
    (address : ℕ) (d : Detector)
    → IsSoundDetector d
    → IsSoundDetector (flag_atomic_store_at d address)
unfolding flag_atomic_store_at
flag-IsSound address d sound =
    let at = lookup_address_entry address in
    write_cell-IsSound d at (set_atomic_store_flag (d.shadow at)) sound
      ((set_atomic_store_flag-IsSound (d.shadow at) (sound at)).0)

-- Whatever the program under test does, every cell is 0, a short record of 64 bits, or a record
-- whose arrays have room for its reads.
pub Reach-IsSound : {d : Detector} → Reach d → IsSoundDetector d
unfolding init_race_detector
Reach-IsSound start = λ entry. (omega arith, inl refl)
Reach-IsSound (event a e location {d} r) = event-IsSound a e location d (Reach-IsSound r)
Reach-IsSound (block fuel a location size {d} {d'} r h) =
    blocks-IsSound fuel a location size d d' (Reach-IsSound r) h
Reach-IsSound (written a location {d} {d'} r h) =
    record_write-IsSound a location d d' (Reach-IsSound r) h
Reach-IsSound (cleared a location size {d} {d'} r h) =
    record_calloc-IsSound a location size d d' (Reach-IsSound r) h
Reach-IsSound (flagged address {d} r) = flag-IsSound address d (Reach-IsSound r)
