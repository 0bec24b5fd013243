-- ===== src/DataRace/Tests.antt =====
-- Runs of the race detector on small inputs.
use c11tester.Base.{
  zero, suc, ◌+◌, ◌==◌, if◌then◌else◌, ℕ, ◌<◌, ◌≡◌, ◌≢◌, ◌↔◌, inr, refl, true, false, none, some,
  [], ◌∷◌, ◌++◌, length, arith,
}
use c11tester.ClockVector.{get_clock}
use c11tester.DataRace.Encoding.{
  is_short_record, rd_thread_id, read_vector, wr_thread_id, write_vector, has_atomic_mask,
  encode_op,
}
use c11tester.DataRace.RoundTrip.{flagged, accessors-packed}
use c11tester.DataRace.Cell.{
  word, full, RaceRecord, Access, our_clock, too_large, write_race, read_race, first_race,
  still_needed, full_race_check_read, check_write, check_read, check_atomic_write,
  check_atomic_read, record_calloc_cell,
}
use c11tester.DataRace.Cell.Bounds.{
  init_capacity-IsCapacity, Fits, full_race_check_read-Fits, IsSound,
}
use c11tester.DataRace.Cell.Refinement.{
  view, written, joined, check_write-refines, check_read-refines, atomic_checks-refine,
}
use c11tester.DataRace.Cell.Subsumption.{IsLater, first_race-still_needed}
use c11tester.DataRace.Detector.{
  Detector, init_race_detector, lookup_address_entry, race_check_write8, race_check_write16,
  race_check_write32, race_check_write64, race_check_read16, race_check_read32, race_check_read64,
  race_check_write_memop, race_check_read_memop, record_calloc, is_full,
}
use c11tester.DataRace.Detector.Wide.{IsSoundDetector, bytewise, race_check_wide-bytewise}
use c11tester.DataRace.Detector.Block.{
  race_check_write_memop_first, race_check_read_memop_elsewhere, record_calloc_until, ends_loop,
  cleared_to,
}
use c11tester.DataRace.Detector.Handlers.{start, event, read8, write16, run_event, Reach-IsSound}

-- Thread 1 at its clock 5, which knows of the first 4 steps of thread 0, and thread 2 at its clock 6, which knows of
-- the first 5 steps of thread 1.
abbrev reader : Access
reader = record {
  thread = 1;
  clock = record { clock = 4 ∷ 5 ∷ [] };
  parent_action = some 7;
  stack = 40 ∷ 41 ∷ 42 ∷ [];
}

abbrev writer : Access
writer = record {
  thread = 2;
  clock = record { clock = 0 ∷ 5 ∷ 6 ∷ [] };
  parent_action = some 9;
  stack = 40 ∷ 41 ∷ 43 ∷ 44 ∷ [];
}

-- Thread 3 knows of the first 6 steps of thread 1.
abbrev third : Access
third = record {
  thread = 3;
  clock = record { clock = 4 ∷ 6 ∷ 6 ∷ 8 ∷ [] };
  parent_action = some 11;
  stack = [];
}

-- The word of a read by thread 2 at its clock 6, and a write by thread 2 at its clock 3.
abbrev old_word : ℕ
old_word = 833223656197

abbrev old_record : RaceRecord
old_record = record {
  reads = (2, 6) ∷ (3, 1) ∷ (0, 2) ∷ [];
  capacity = 4;
  is_atomic = true;
  write_thread = 2;
  write_clock = 3;
}

our_clock-reader : our_clock reader ≡ 5
unfolding get_clock
our_clock-reader = refl

old_record-Fits : Fits old_record
old_record-Fits = record { room = omega arith; allocated = init_capacity-IsCapacity }

old_word-IsSound : IsSound (word old_word)
unfolding is_short_record
old_word-IsSound = (omega arith, inr refl)

-- Two events of the program.
abbrev seen : Detector
seen =
    run_event (some writer) write16 0x10fffe
      (run_event (some reader) read8 0x10ffff init_race_detector)

seen-IsSound : IsSoundDetector seen
seen-IsSound =
    Reach-IsSound (event (some writer) write16 0x10fffe (event (some reader) read8 0x10ffff start))

Reach-IsSound_example : IsSoundDetector seen
Reach-IsSound_example =
    Reach-IsSound (event (some writer) write16 0x10fffe (event (some reader) read8 0x10ffff start))

race_check_wide-bytewise_example :
    (race_check_write16 (some reader) seen 0x10fffc
      ≡ bytewise check_write (some reader) 2 seen 0x10fffc)
    × (race_check_write32 (some reader) seen 0x10fffc
        ≡ bytewise check_write (some reader) 4 seen 0x10fffc)
    × (race_check_write64 (some reader) seen 0x10fffc
        ≡ bytewise check_write (some reader) 8 seen 0x10fffc)
    × (race_check_read16 (some reader) seen 0x10fffc
        ≡ bytewise check_read (some reader) 2 seen 0x10fffc)
    × (race_check_read32 (some reader) seen 0x10fffc
        ≡ bytewise check_read (some reader) 4 seen 0x10fffc)
    × (race_check_read64 (some reader) seen 0x10fffc
        ≡ bytewise check_read (some reader) 8 seen 0x10fffc)
race_check_wide-bytewise_example = race_check_wide-bytewise (some reader) seen 0x10fffc seen-IsSound

check_read-refines_example :
    (view (check_read reader 64 (word old_word)).cell ≡ joined reader (view (word old_word)))
    × ((check_read reader 64 (word old_word)).race
        ≡ read_race reader 64 (view (word old_word)).write)
check_read-refines_example =
    check_read-refines reader 64 (word old_word) (omega (arith, our_clock-reader))

check_write-refines_example :
    (view (check_write reader 64 (word old_word)).cell ≡ written reader false)
    × ((check_write reader 64 (word old_word)).race
        ≡ write_race reader 64 (view (word old_word)).reads (view (word old_word)).write)
check_write-refines_example = check_write-refines reader 64 (word old_word)

atomic_checks-refine_example :
    (view (check_atomic_write reader 64 (full old_record)).cell ≡ written reader true)
    × ((check_atomic_write reader 64 (full old_record)).race ≡ none)
    × (check_atomic_read reader 64 (full old_record) ≡ none)
atomic_checks-refine_example = atomic_checks-refine reader 64 (full old_record)

full_race_check_read-Fits_example :
    (length (still_needed reader old_record.reads)
      < (full_race_check_read reader 64 old_record).0.capacity)
    × Fits (full_race_check_read reader 64 old_record).0
full_race_check_read-Fits_example = full_race_check_read-Fits reader 64 old_record old_record-Fits

accessors-packed_example :
    let w = flagged true (encode_op 61 9 2 33554430) in
    (is_short_record w ≡ true)
    × (rd_thread_id w ≡ 61)
    × (read_vector w ≡ 9)
    × (wr_thread_id w ≡ 2)
    × (write_vector w ≡ 33554430)
    × (has_atomic_mask w ≡ true)
accessors-packed_example =
    accessors-packed 61 9 2 33554430 true (omega arith) (omega arith) (omega arith) (omega arith)

third-IsLater : IsLater reader third
unfolding get_clock
third-IsLater _ t = ground arith

first_race-still_needed_example :
    (first_race third
        (still_needed reader ((2, 6) ∷ (0, 2) ∷ []) ++ (reader.thread, our_clock reader) ∷ [])
      ≡ none)
    ↔ (first_race third (((2, 6) ∷ (0, 2) ∷ []) ++ (reader.thread, our_clock reader) ∷ []) ≡ none)
first_race-still_needed_example =
    first_race-still_needed reader third ((2, 6) ∷ (0, 2) ∷ []) (omega (arith, our_clock-reader))
      third-IsLater (λ e. absurd (omega arith), (λ e. absurd (omega arith), tt))

race_check_write_memop_first_example :
    race_check_write_memop 17 (some writer) seen 0x10fffe 16
    ≡ some (race_check_write8 (some writer) seen 0x10fffe)
race_check_write_memop_first_example =
    race_check_write_memop_first 17 (some writer) seen 0x10fffe 16 (omega arith) (omega arith)
      (omega arith)

entries_differ : lookup_address_entry 0x10fffe ≢ 0xffff
unfolding lookup_address_entry
entries_differ = λ e. omega (arith, e)

race_check_read_memop_elsewhere_example :
    (d' : Detector) × (race_check_read_memop 3 (some writer) seen 0x10fffe 2 ≡ some d')
    × (d'.shadow 0xffff ≡ seen.shadow 0xffff)
race_check_read_memop_elsewhere_example =
    race_check_read_memop_elsewhere 3 (some writer) seen 0x10fffe 2 0xffff entries_differ
      (omega arith) (omega arith)

-- A memory in which the cell of byte 66 is a record.
abbrev one_record : Detector
one_record = record {
  shadow = λ x. if x == 66 then full old_record else word 0;
  raceset = [];
  reported = [];
}

words_go_on : (i : ℕ) → i < 2 → ends_loop writer one_record (64 + i) ≡ false
unfolding is_full record_calloc_cell too_large our_clock get_clock
words_go_on zero lt = refl
words_go_on (suc zero) lt = refl
words_go_on (suc (suc i)) lt = absurd (omega arith)

record_stops : ends_loop writer one_record 66 ≡ true
unfolding is_full record_calloc_cell
record_stops = refl

record_calloc_until_example :
    record_calloc (some writer) one_record 64 16 ≡ some (cleared_to writer one_record 64 66)
record_calloc_until_example =
    record_calloc_until writer one_record 64 16 2 (omega arith) (omega arith) words_go_on
      record_stops
