-- ===== src/DataRace/Cell/Bounds.antt =====
-- The arrays of a record always have room for what is written, and a word always fits in 64 bits.
use c11tester.Base.{
  ℕ, zero, suc, ◌+◌, ◌*◌, ◌/◌, ◌%◌, ◌^◌, ◌<◌, ◌≤◌, ◌≡◌, ◌⊎◌, inl, inr, refl, ap, ◌∙◌, Bool, true,
  false, not, leb, ◌==◌, List, [], ◌∷◌, length, length-append, arith, Bool-cases, bit_or,
}
use c11tester.Base.Bits.{or_bit_set}
use c11tester.DataRace.Encoding.{
  thread_mask, read_mask, atomic_mask, read_vector, wr_thread_id, write_vector, has_atomic_mask,
  encode_op, is_short_record,
}
use c11tester.DataRace.RoundTrip.{
  accessors-packed, encode_op-packed, flagged, or-kept_flag, or-atomic_mask, wr_thread_id_lem,
  write_vector_lem, is_short_record_lem, has_atomic_mask_lem,
}
use c11tester.DataRace.Cell.{
  RaceRecord, Shadow, word, full, Access, clock_may_race, races, our_clock, expand_record,
  overwrite, full_race_check_write, atomfull_race_check_write, full_record_write,
  full_record_write_non_atomic, still_needed, popcount, grown, full_race_check_read, too_large,
  last_read, check_write, second_read, check_read, check_atomic_write, record_write_cell,
  record_calloc_cell, init_capacity, set_atomic_store_flag, has_non_atomic_store,
}

-- The arrays are not allocated, or have at least four slots, in a number of one binary digit.
abbrev pub IsCapacity : ℕ → Type 0
IsCapacity c = (c ≡ 0) ⊎ (init_capacity ≤ c) × (popcount 32 c ≤ 1)

pub init_capacity-IsCapacity : IsCapacity init_capacity
unfolding popcount
init_capacity-IsCapacity = inr (omega arith, omega arith)

pub record Fits (r : RaceRecord) : Type 0 where
  pub room : length r.reads ≤ r.capacity
  pub allocated : IsCapacity r.capacity

popcount_mono : (fuel n : ℕ) → popcount fuel n ≤ popcount (suc fuel) n
unfolding popcount
popcount_mono zero n = omega arith
popcount_mono (suc fuel) n = omega (arith, popcount_mono fuel (n / 2))

popcount-double : (n : ℕ) → popcount 32 (n * 2) ≤ popcount 32 n
popcount-double n =
    let half : n * 2 / 2 ≡ n = omega arith in
    omega (arith, popcount_step 31 (n * 2), ap (popcount 31) half, popcount_mono 31 n)
  where
    popcount_step : (fuel m : ℕ) → popcount (suc fuel) m ≡ m % 2 + popcount fuel (m / 2)
    popcount_step fuel m = unfold popcount in refl

popcount-zero : (fuel : ℕ) → popcount fuel 0 ≡ 0
unfolding popcount
popcount-zero zero = refl
popcount-zero (suc fuel) = omega (arith, popcount-zero fuel)

-- The slot that a read is written to lies inside the arrays.
lt-grown : (n c : ℕ) → n ≤ c → IsCapacity c → n < grown n c
unfolding grown
lt-grown n c h (inl e) =
    let z : n ≡ 0 = omega arith in
    let few : popcount 32 n ≡ 0 = ap (popcount 32) z ∙ popcount-zero 32 in ground arith
lt-grown n c h (inr (large, few)) = elim (Bool-cases (n == c)) [
  | inl eq ↦
      let same : popcount 32 n ≡ popcount 32 c = ap (popcount 32) (ground arith) in ground arith
  | inr ne ↦ ground arith
]

grown-IsCapacity : (n c : ℕ) → n ≤ c → IsCapacity c → IsCapacity (grown n c)
unfolding grown
grown-IsCapacity n c h (inl e) =
    let z : n ≡ 0 = omega arith in
    let few : popcount 32 n ≡ 0 = ap (popcount 32) z ∙ popcount-zero 32 in
    let one : popcount 32 4 ≡ 1 = unfold popcount in refl in ground arith
grown-IsCapacity n c h (inr (large, few)) = ground (arith, popcount-double n)

length-still_needed : (a : Access) (rs : List (ℕ × ℕ)) → length (still_needed a rs) ≤ length rs
unfolding still_needed
length-still_needed a [] = omega arith
length-still_needed a (r ∷ rs) = ground (arith, length-still_needed a rs)

-- Recording a read in a record whose arrays have room for its reads: the slot that is written, the
-- one behind the reads that are kept, lies inside the arrays, and the arrays have room for the
-- reads again.
pub full_race_check_read-Fits :
    (a : Access) (location : ℕ) (r : RaceRecord)
    → Fits r
    → (length (still_needed a r.reads) < (full_race_check_read a location r).0.capacity)
      × Fits (full_race_check_read a location r).0
unfolding full_race_check_read
full_race_check_read-Fits a location r fits =
    let kept = still_needed a r.reads in
    let few : length kept ≤ r.capacity = omega (arith, length-still_needed a r.reads) in
    let slot = lt-grown (length kept) r.capacity few fits.allocated in
    (
      slot,
      record {
        room = omega (arith, length-append kept ((a.thread, our_clock a) ∷ []));
        allocated = grown-IsCapacity (length kept) r.capacity few fits.allocated;
      },
    )

-- A cell is 0, a short record of 64 bits, or a record whose arrays have room for its reads.
abbrev pub IsSound : Shadow → Type 0
IsSound (word w) = (w < 2 ^ 64) × ((w ≡ 0) ⊎ (is_short_record w ≡ true))
IsSound (full r) = Fits r

expand-Fits : (w : ℕ) → Fits (expand_record w)
unfolding expand_record
expand-Fits w = elim (Bool-cases (not (read_vector w == 0))) [
  | inl some_read ↦ record {
    room = rw some_read (omega arith);
    allocated = rw some_read init_capacity-IsCapacity;
  }
  | inr no_read ↦ record { room = rw no_read (omega arith); allocated = rw no_read (inl refl) }
]

overwrite-Fits : (a : Access) (b : Bool) (r : RaceRecord) → Fits r → Fits (overwrite a b r)
unfolding overwrite
overwrite-Fits a b r fits = record { room = omega arith; allocated = fits.allocated }

second_read-Fits :
    (a : Access) (w : ℕ) → races a (last_read w) ≡ true → Fits (second_read a (expand_record w))
unfolding second_read expand_record clock_may_race
second_read-Fits a w h =
    let seen : not (read_vector w == 0) ≡ true = ground arith in
    record {
      room = rw seen (omega arith);
      allocated = rw seen (inr (omega arith, unfold popcount in omega arith));
    }

packed-IsSound :
    (b : Bool) (rt rc wt wc : ℕ)
    → rt ≤ thread_mask
    → rc ≤ read_mask
    → wt ≤ thread_mask
    → wc ≤ read_mask
    → IsSound (word (flagged b (encode_op rt rc wt wc)))
packed-IsSound b rt rc wt wc h1 h2 h3 h4 =
    let sum = encode_op-packed rt rc wt wc h1 h2 h3 h4 in
    (ground (arith, sum), inr (accessors-packed rt rc wt wc b h1 h2 h3 h4).0)

atomic_word-IsSound :
    (a : Access)
    → too_large a ≡ false
    → IsSound (word (bit_or (encode_op 0 0 a.thread (our_clock a)) atomic_mask))
atomic_word-IsSound a fits =
    let sum =
      encode_op-packed 0 0 a.thread (our_clock a) (omega arith) (omega arith) (ground arith)
        (ground arith) in
    rw (or-atomic_mask (encode_op 0 0 a.thread (our_clock a)) (ground (arith, sum))) (
      packed-IsSound true 0 0 a.thread (our_clock a) (omega arith) (omega arith) (ground arith)
        (ground arith))

check_write-IsSound :
    (a : Access) (location : ℕ) (c : Shadow) → IsSound c → IsSound (check_write a location c).cell
unfolding check_write full_race_check_write
check_write-IsSound a location (full r) s = overwrite-Fits a false r s
check_write-IsSound a location (word w) s = elim (Bool-cases (too_large a)) [
  | inl large ↦ rw large (overwrite-Fits a false (expand_record w) (expand-Fits w))
  | inr fits ↦ rw fits (
      packed-IsSound false 0 0 a.thread (our_clock a) (omega arith) (omega arith) (ground arith)
        (ground arith))
]

check_atomic_write-IsSound :
    (a : Access) (location : ℕ) (c : Shadow)
    → IsSound c
    → IsSound (check_atomic_write a location c).cell
unfolding check_atomic_write atomfull_race_check_write
check_atomic_write-IsSound a location (full r) s = overwrite-Fits a true r s
check_atomic_write-IsSound a location (word w) s = elim (Bool-cases (too_large a)) [
  | inl large ↦ rw large (overwrite-Fits a true (expand_record w) (expand-Fits w))
  | inr fits ↦ rw fits (atomic_word-IsSound a fits)
]

check_read-IsSound :
    (a : Access) (location : ℕ) (c : Shadow) → IsSound c → IsSound (check_read a location c).cell
unfolding check_read
check_read-IsSound a location (full r) s = (full_race_check_read-Fits a location r s).1
check_read-IsSound a location (word w) s = elim (Bool-cases (too_large a)) [
  | inl large ↦
      rw large ((full_race_check_read-Fits a location (expand_record w) (expand-Fits w)).1)
  | inr fits ↦ elim (Bool-cases (races a (last_read w))) [
    | inl needed ↦ rw (fits, needed) (second_read-Fits a w needed)
    | inr subsumed ↦
        let small : a.thread ≤ thread_mask = ground arith in
        let early : our_clock a ≤ read_mask = ground arith in
        let thread : wr_thread_id w ≤ thread_mask = omega (arith, wr_thread_id_lem w) in
        let clock : write_vector w ≤ read_mask = omega (arith, write_vector_lem w) in
        let w' = encode_op a.thread (our_clock a) (wr_thread_id w) (write_vector w) in
        let sum =
          encode_op-packed a.thread (our_clock a) (wr_thread_id w) (write_vector w) small early
            thread clock in
        rw (fits, subsumed, or-kept_flag w' w (omega (arith, sum)))
          (packed-IsSound (has_atomic_mask w) a.thread (our_clock a) (wr_thread_id w)
            (write_vector w) small early thread clock)
  ]
]

record_write-IsSound : (a : Access) (c : Shadow) → IsSound c → IsSound (record_write_cell a c)
unfolding record_write_cell full_record_write
record_write-IsSound a (full r) s = overwrite-Fits a true r s
record_write-IsSound a (word w) s = elim (Bool-cases (too_large a)) [
  | inl large ↦ rw large (overwrite-Fits a true (expand_record w) (expand-Fits w))
  | inr fits ↦ rw fits (atomic_word-IsSound a fits)
]

record_calloc-IsSound : (a : Access) (c : Shadow) → IsSound c → IsSound (record_calloc_cell a c)
unfolding record_calloc_cell full_record_write_non_atomic
record_calloc-IsSound a (full r) s = overwrite-Fits a false r s
record_calloc-IsSound a (word w) s = elim (Bool-cases (too_large a)) [
  | inl large ↦ rw large (overwrite-Fits a false (expand_record w) (expand-Fits w))
  | inr fits ↦ rw fits (
      packed-IsSound false 0 0 a.thread (our_clock a) (omega arith) (omega arith) (ground arith)
        (ground arith))
]

-- Every check, and every recording of a write, leaves a cell in order that was in order
-- (`IsSound`), whatever the access is.
pub checks-IsSound :
    (a : Access) (location : ℕ) (c : Shadow)
    → IsSound c
    → IsSound (check_write a location c).cell
      × IsSound (check_read a location c).cell
      × IsSound (check_atomic_write a location c).cell
      × IsSound (record_write_cell a c)
      × IsSound (record_calloc_cell a c)
checks-IsSound a location c s = (
  check_write-IsSound a location c s,
  check_read-IsSound a location c s,
  check_atomic_write-IsSound a location c s,
  record_write-IsSound a c s,
  record_calloc-IsSound a c s,
)

-- Setting the flag of an atomic store leaves a cell in order that was in order, and then it has no
-- non-atomic store.
pub set_atomic_store_flag-IsSound :
    (c : Shadow)
    → IsSound c
    → IsSound (set_atomic_store_flag c) × (has_non_atomic_store (set_atomic_store_flag c) ≡ false)
unfolding set_atomic_store_flag has_non_atomic_store encode_op is_short_record has_atomic_mask
set_atomic_store_flag-IsSound (full r) s = (record { room = s.room; allocated = s.allocated }, refl)
set_atomic_store_flag-IsSound (word w) (small, h) = elim (Bool-cases (is_short_record w)) [
  | inr empty ↦ rw empty ((omega arith, inr refl), refl)
  | inl short ↦ elim (Bool-cases (leb (2 ^ 63) w)) [
    | inl set ↦
        let top : w / 2 ^ 63 % 2 ≡ 1 = ground arith in
        rw (short, or_bit_set 63 w top)
          ((small, inr short), rw short (rw (has_atomic_mask_lem w, top)))
    | inr clear ↦
        let below : w < 2 ^ 63 = ground arith in
        let odd : is_short_record (w + 2 ^ 63) ≡ true =
          ground (arith, is_short_record_lem w, is_short_record_lem (w + 2 ^ 63)) in
        let top : has_atomic_mask (w + 2 ^ 63) ≡ true =
          ground (arith, has_atomic_mask_lem (w + 2 ^ 63)) in
        rw (short, or-atomic_mask w below) ((omega arith, inr odd), rw (odd, top))
  ]
]
