-- ===== src/DataRace/Cell/Refinement.antt =====
-- What a cell says, whichever way it says it: packed words and records implement one
-- specification of the detector's memory.
use c11tester.Base.{
  ℕ, ◌^◌, ◌<◌, ◌≡◌, inl, inr, refl, ◌∙◌, Bool, true, false, not, ◌==◌, if◌then◌else◌, none, List,
  [], ◌∷◌, ◌++◌, bit_and, bit_or, arith, Bool-cases,
}
use c11tester.DataRace.Encoding.{
  atomic_mask, read_vector, wr_thread_id, write_vector, has_atomic_mask, encode_op,
}
use c11tester.DataRace.RoundTrip.{
  accessors-packed, flagged, or-atomic_mask, or-kept_flag, encode_op-packed, wr_thread_id_lem,
  write_vector_lem,
}
use c11tester.DataRace.Cell.{
  RaceRecord, Shadow, word, full, Access, clock_may_race, races, our_clock, expand_record,
  first_race, write_race, overwrite, full_race_check_write, atomfull_race_check_write,
  full_record_write, full_record_write_non_atomic, read_race, still_needed, full_race_check_read,
  atomfull_race_check_read, too_large, last_read, last_write, check_write, second_read, check_read,
  check_atomic_write, check_atomic_read, record_write_cell, record_calloc_cell,
}

-- The accesses that a cell remembers.
pub record View : Type 0 where
  pub reads : List (ℕ × ℕ)
  pub write : ℕ × ℕ
  pub atomic : Bool

abbrev pub record_view : RaceRecord → View
record_view r = record {
  reads = r.reads;
  write = (r.write_thread, r.write_clock);
  atomic = r.is_atomic;
}

-- A clock of 0 in a word stands for no read.
abbrev pub word_reads : ℕ → List (ℕ × ℕ)
word_reads w = if not (read_vector w == 0) then last_read w ∷ [] else []

abbrev pub view : Shadow → View
view (word w) = record { reads = word_reads w; write = last_write w; atomic = has_atomic_mask w }
view (full r) = record_view r

-- The specification: a write forgets the reads and becomes the last write; a read joins the
-- reads that are not ordered before it.
abbrev pub written : Access → Bool → View
written a atomic = record { reads = []; write = (a.thread, our_clock a); atomic = atomic }

abbrev pub joined : Access → View → View
joined a v = record v { reads = still_needed a v.reads ++ (a.thread, our_clock a) ∷ [] }

record-expand : (w : ℕ) → record_view (expand_record w) ≡ view (word w)
unfolding expand_record
record-expand w = refl

view-overwrite :
    (a : Access) (b : Bool) (r : RaceRecord) → record_view (overwrite a b r) ≡ written a b
unfolding overwrite
view-overwrite a b r = refl

-- The word of a write and nothing else.
view-write_word :
    (a : Access) (b : Bool)
    → too_large a ≡ false
    → view (word (flagged b (encode_op 0 0 a.thread (our_clock a)))) ≡ written a b
view-write_word a b fits =
    let parts =
      accessors-packed 0 0 a.thread (our_clock a) b (omega arith) (omega arith) (ground arith)
        (ground arith) in
    ground (arith, parts)

write_race-word :
    (a : Access) (location w : ℕ)
    → write_race a location (last_read w ∷ []) (last_write w)
      ≡ write_race a location (word_reads w) (last_write w)
unfolding write_race first_race clock_may_race
write_race-word a location w = ground arith

-- A write leaves the same view, and finds the same race, in a packed word as in a record.
pub check_write-refines :
    (a : Access) (location : ℕ) (c : Shadow)
    → (view (check_write a location c).cell ≡ written a false)
      × ((check_write a location c).race ≡ write_race a location (view c).reads (view c).write)
unfolding check_write full_race_check_write expand_record
check_write-refines a location (full r) = (view-overwrite a false r, refl)
check_write-refines a location (word w) = elim (Bool-cases (too_large a)) [
  | inl large ↦ rw large (view-overwrite a false (expand_record w), refl)
  | inr fits ↦ rw fits (view-write_word a false fits, write_race-word a location w)
]

encode_lt :
    (rt rc wt wc : ℕ)
    → rt < 2 ^ 6
    → rc < 2 ^ 25
    → wt < 2 ^ 6
    → wc < 2 ^ 25
    → encode_op rt rc wt wc < 2 ^ 63
encode_lt rt rc wt wc h1 h2 h3 h4 =
    omega
      (arith, encode_op-packed rt rc wt wc (omega arith) (omega arith) (omega arith) (omega arith))

-- The word of a read that replaces the last one.
view-read_word :
    (a : Access) (w : ℕ)
    → too_large a ≡ false
    → 0 < our_clock a
    → view (
        word (
          bit_or
            (encode_op a.thread (our_clock a) (wr_thread_id w) (write_vector w))
            (bit_and w atomic_mask)))
      ≡ record {
        reads = (a.thread, our_clock a) ∷ [];
        write = last_write w;
        atomic = has_atomic_mask w;
      }
view-read_word a w fits pos =
    let small : a.thread < 2 ^ 6 = ground arith in
    let early : our_clock a < 2 ^ 25 = ground arith in
    let thread : wr_thread_id w < 2 ^ 6 = omega (arith, wr_thread_id_lem w) in
    let clock : write_vector w < 2 ^ 25 = omega (arith, write_vector_lem w) in
    let parts =
      accessors-packed a.thread (our_clock a) (wr_thread_id w) (write_vector w) (has_atomic_mask w)
        (omega arith) (omega arith) (omega arith) (omega arith) in
    rw
      (or-kept_flag (encode_op a.thread (our_clock a) (wr_thread_id w) (write_vector w)) w (
        encode_lt a.thread (our_clock a) (wr_thread_id w) (write_vector w) small early thread
          clock))
      (ground (arith, parts))

still_needed-word :
    (a : Access) (w : ℕ)
    → still_needed a (word_reads w) ≡ (if races a (last_read w) then last_read w ∷ [] else [])
unfolding still_needed clock_may_race
still_needed-word a w = ground arith

reads-second : (a : Access) (w : ℕ) → races a (last_read w) ≡ true → word_reads w ≡ last_read w ∷ []
unfolding clock_may_race
reads-second a w h = ground arith

view-full_read :
    (a : Access) (location : ℕ) (r : RaceRecord)
    → (record_view (full_race_check_read a location r).0 ≡ joined a (record_view r))
      × ((full_race_check_read a location r).1
          ≡ read_race a location (r.write_thread, r.write_clock))
unfolding full_race_check_read
view-full_read a location r = (refl, refl)

-- A read leaves the same view, and finds the same race, in a packed word as in a record, also
-- where it turns the one into the other. (A thread that acts has a clock above 0.)
pub check_read-refines :
    (a : Access) (location : ℕ) (c : Shadow)
    → 0 < our_clock a
    → (view (check_read a location c).cell ≡ joined a (view c))
      × ((check_read a location c).race ≡ read_race a location (view c).write)
unfolding check_read second_read expand_record
check_read-refines a location (full r) pos = view-full_read a location r
check_read-refines a location (word w) pos = elim (Bool-cases (too_large a)) [
  | inl large ↦ rw large (view-full_read a location (expand_record w))
  | inr fits ↦ elim (Bool-cases (races a (last_read w))) [
    | inl needed ↦
        rw (fits, needed) (ground (arith, still_needed-word a w, reads-second a w needed), refl)
    | inr subsumed ↦
        rw (fits, subsumed)
          (view-read_word a w fits pos ∙ ground (arith, still_needed-word a w), refl)
  ]
]

view-atomic_word :
    (a : Access)
    → too_large a ≡ false
    → view (word (bit_or (encode_op 0 0 a.thread (our_clock a)) atomic_mask)) ≡ written a true
view-atomic_word a fits =
    rw
      (or-atomic_mask (encode_op 0 0 a.thread (our_clock a)) (
        encode_lt 0 0 a.thread (our_clock a) (omega arith) (omega arith) (ground arith)
          (ground arith)))
      (view-write_word a true fits)

-- An atomic write becomes the last write; it is checked against the reads and the last write, and
-- an atomic read against the last write, unless the last write was atomic. This holds for a packed
-- word as for a record.
pub atomic_checks-refine :
    (a : Access) (location : ℕ) (c : Shadow)
    → (view (check_atomic_write a location c).cell ≡ written a true)
      × ((check_atomic_write a location c).race
          ≡ (if (view c).atomic then none else write_race a location (view c).reads (view c).write))
      × (check_atomic_read a location c
          ≡ (if (view c).atomic then none else read_race a location (view c).write))
unfolding check_atomic_write atomfull_race_check_write expand_record check_atomic_read
    atomfull_race_check_read
atomic_checks-refine a location (full r) = (view-overwrite a true r, refl, refl)
atomic_checks-refine a location (word w) = elim (Bool-cases (too_large a)) [
  | inl large ↦ rw large (view-overwrite a true (expand_record w), refl, refl)
  | inr fits ↦ rw (fits, write_race-word a location w) (view-atomic_word a fits, refl, refl)
]

-- The handlers that only record leave the view of a write, atomic or not.
pub record_cells-refine :
    (a : Access) (c : Shadow)
    → (view (record_write_cell a c) ≡ written a true)
      × (view (record_calloc_cell a c) ≡ written a false)
unfolding record_write_cell record_calloc_cell full_record_write full_record_write_non_atomic
record_cells-refine a (full r) = (view-overwrite a true r, view-overwrite a false r)
record_cells-refine a (word w) = elim (Bool-cases (too_large a)) [
  | inl large ↦
      rw large (view-overwrite a true (expand_record w), view-overwrite a false (expand_record w))
  | inr fits ↦ rw fits (view-atomic_word a fits, view-write_word a false fits)
]
