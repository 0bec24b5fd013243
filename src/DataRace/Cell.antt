-- ===== src/DataRace/Cell.antt =====
-- One shadow cell, and the checks on it (datarace.cc). The C cell is a `uint64_t` that is 0, a
-- packed word, or a pointer to a record; each record belongs to one cell, so a cell holds it here
-- itself. The arrays `thread` and `readClock` are the list `reads`, of length `numReads`, and
-- `capacity` slots are allocated for them (0 if the pointers are NULL).
pub mod Again
pub mod Bounds
pub mod Fast
pub mod Refinement
pub mod Subsumption
use c11tester.Base.{
  ℕ, zero, suc, ◌+◌, ◌*◌, ◌/◌, ◌%◌, ◌≡◌, Bool, true, false, not, ◌&&◌, ◌||◌, leb, ltb, ◌==◌,
  if◌then◌else◌, Option, none, some, List, [], ◌∷◌, ◌++◌, length, bit_and, bit_or,
}
use c11tester.ClockVector.{ClockVector, get_clock}
use c11tester.DataRace.Encoding.{
  max_thread_id, max_write_vector, atomic_mask, rd_thread_id, read_vector, wr_thread_id,
  write_vector, has_atomic_mask, encode_op, is_short_record,
}

pub record RaceRecord : Type 0 where
  -- Thread and clock of each read.
  pub reads : List (ℕ × ℕ)
  pub capacity : ℕ
  pub is_atomic : Bool
  pub write_thread : ℕ
  pub write_clock : ℕ

pub data Shadow : Type 0 where
  word : ℕ → Shadow
  full : RaceRecord → Shadow

pub record DataRace : Type 0 where
  pub oldthread : ℕ
  pub oldclock : ℕ
  pub isoldwrite : Bool
  pub newaction : Option ℕ
  pub isnewwrite : Bool
  pub address : ℕ
  pub backtrace : List ℕ

-- The access that is checked: its thread, the clock vector and the parent action of that thread,
-- and the stack that `backtrace` gives while it is handled.
pub record Access : Type 0 where
  pub thread : ℕ
  pub clock : ClockVector
  pub parent_action : Option ℕ
  pub stack : List ℕ

abbrev pub init_capacity : ℕ
init_capacity = 4

unfoldable pub clock_may_race : ClockVector → ℕ → ℕ → ℕ → Bool
clock_may_race clock1 tid1 clock2 tid2 =
    not (tid1 == tid2) && not (clock2 == 0) && leb (get_clock clock1 tid2) clock2

-- The test as the handlers make it.
abbrev pub races : Access → ℕ × ℕ → Bool
races a (thread, clock) = clock_may_race a.clock a.thread clock thread

pub report_data_race : Access → ℕ × ℕ → Bool → Bool → ℕ → DataRace
report_data_race a (oldthread, oldclock) isoldwrite isnewwrite address = record {
  oldthread = oldthread;
  oldclock = oldclock;
  isoldwrite = isoldwrite;
  newaction = a.parent_action;
  isnewwrite = isnewwrite;
  address = address;
  backtrace = a.stack;
}

-- The clock of the accessing thread itself, `ourClock`.
abbrev pub our_clock : Access → ℕ
our_clock a = get_clock a.clock a.thread

-- The word's fields become a record, with room for four reads if there was one.
pub expand_record : ℕ → RaceRecord
expand_record w = record {
  reads = if not (read_vector w == 0) then (rd_thread_id w, read_vector w) ∷ [] else [];
  capacity = if not (read_vector w == 0) then init_capacity else 0;
  is_atomic = has_atomic_mask w;
  write_thread = wr_thread_id w;
  write_clock = write_vector w;
}

-- The loop over the reads: the first that races.
pub first_race : Access → List (ℕ × ℕ) → Option (ℕ × ℕ)
first_race a [] = none
first_race a (r ∷ rs) = let rest = first_race a rs in if races a r then some r else rest

-- A write is checked against the reads, then against the last write.
pub write_race : Access → ℕ → List (ℕ × ℕ) → ℕ × ℕ → Option DataRace
unfolding first_race
write_race a location reads write = elim (first_race a reads) [
  | some r ↦ some (report_data_race a r false true location)
  | none ↦ if races a write then some (report_data_race a write true true location) else none
]

-- `Exit:` of the checks on a write, and the handlers that only record.
pub overwrite : Access → Bool → RaceRecord → RaceRecord
overwrite a atomic r = record r {
  reads = [];
  is_atomic = atomic;
  write_thread = a.thread;
  write_clock = our_clock a;
}

pub full_race_check_write : Access → ℕ → RaceRecord → RaceRecord × Option DataRace
unfolding write_race overwrite
full_race_check_write a location r =
    (overwrite a false r, write_race a location r.reads (r.write_thread, r.write_clock))

pub atomfull_race_check_write : Access → ℕ → RaceRecord → RaceRecord × Option DataRace
unfolding write_race overwrite
atomfull_race_check_write a location r = (
  overwrite a true r,
  if r.is_atomic then none else write_race a location r.reads (r.write_thread, r.write_clock),
)

pub full_record_write : Access → RaceRecord → RaceRecord
unfolding overwrite
full_record_write a r = overwrite a true r

pub full_record_write_non_atomic : Access → RaceRecord → RaceRecord
unfolding overwrite
full_record_write_non_atomic a r = overwrite a false r

-- A read is checked against the last write.
pub read_race : Access → ℕ → ℕ × ℕ → Option DataRace
read_race a location write =
    if races a write then some (report_data_race a write true false location) else none

-- The reads that this read does not subsume, moved together at the front.
pub still_needed : Access → List (ℕ × ℕ) → List (ℕ × ℕ)
still_needed a [] = []
still_needed a (r ∷ rs) = if races a r then r ∷ still_needed a rs else still_needed a rs

-- `__builtin_popcount`, on a word of at most `fuel` bits.
pub popcount : ℕ → ℕ → ℕ
popcount zero n = 0
popcount (suc fuel) n = n % 2 + popcount fuel (n / 2)

-- The allocation before slot `copytoindex` is written.
pub grown : ℕ → ℕ → ℕ
grown copytoindex capacity =
    if leb (popcount 32 copytoindex) 1
    then if copytoindex == 0 && capacity == 0
      then init_capacity
      else if leb init_capacity copytoindex
      then copytoindex * 2
      else capacity
    else capacity

pub full_race_check_read : Access → ℕ → RaceRecord → RaceRecord × Option DataRace
unfolding read_race still_needed grown
full_race_check_read a location r =
    let kept = still_needed a r.reads in
    (
      record r {
        reads = kept ++ (a.thread, our_clock a) ∷ [];
        capacity = grown (length kept) r.capacity;
      },
      read_race a location (r.write_thread, r.write_clock),
    )

pub atomfull_race_check_read : Access → ℕ → RaceRecord → Option DataRace
unfolding read_race
atomfull_race_check_read a location r =
    if r.is_atomic then none else read_race a location (r.write_thread, r.write_clock)

-- What the handlers do to a packed word: the cell that they leave, the race that they found, and
-- the two words, before and after, if the cell was packed before and after (`old_val` and
-- `new_val`, for the bytes behind).
pub record Checked : Type 0 where
  pub cell : Shadow
  pub race : Option DataRace
  pub copied : Option (ℕ × ℕ)

checked_full : RaceRecord × Option DataRace → Checked
checked_full (r, race) = record { cell = full r; race = race; copied = none }

-- `threadid > MAXTHREADID || ourClock > MAXWRITEVECTOR`
abbrev pub too_large : Access → Bool
too_large a = ltb max_thread_id a.thread || ltb max_write_vector (our_clock a)

abbrev pub last_read : ℕ → ℕ × ℕ
last_read w = (rd_thread_id w, read_vector w)

abbrev pub last_write : ℕ → ℕ × ℕ
last_write w = (wr_thread_id w, write_vector w)

-- The body that raceCheckWrite_firstIt, raceCheckWrite_otherIt and raceCheckWriteMemop share.
pub check_write : Access → ℕ → Shadow → Checked
unfolding full_race_check_write expand_record write_race checked_full
check_write a location (full r) = checked_full (full_race_check_write a location r)
check_write a location (word w) =
    if too_large a
    then checked_full (full_race_check_write a location (expand_record w))
    else let w' = encode_op 0 0 a.thread (our_clock a) in
      record {
        cell = word w';
        race = write_race a location (last_read w ∷ []) (last_write w);
        copied = some (w, w');
      }

-- The read that the last read in the word does not race with replaces it; otherwise the word
-- becomes a record of both.
pub second_read : Access → RaceRecord → RaceRecord
second_read a r = record r { reads = r.reads ++ (a.thread, our_clock a) ∷ [] }

-- The body that raceCheckRead_firstIt, raceCheckRead_otherIt and raceCheckReadMemop share.
pub check_read : Access → ℕ → Shadow → Checked
unfolding full_race_check_read expand_record read_race second_read checked_full
check_read a location (full r) = checked_full (full_race_check_read a location r)
check_read a location (word w) =
    if too_large a
    then checked_full (full_race_check_read a location (expand_record w))
    else let race = read_race a location (last_write w) in
      if races a (last_read w)
      then record { cell = full (second_read a (expand_record w)); race = race; copied = none }
      else let w' =
          bit_or (encode_op a.thread (our_clock a) (wr_thread_id w) (write_vector w))
            (bit_and w atomic_mask) in
        record { cell = word w'; race = race; copied = some (w, w') }

-- The body of atomraceCheckWrite.
pub check_atomic_write : Access → ℕ → Shadow → Checked
unfolding atomfull_race_check_write expand_record write_race checked_full
check_atomic_write a location (full r) = checked_full (atomfull_race_check_write a location r)
check_atomic_write a location (word w) =
    if too_large a
    then checked_full (atomfull_race_check_write a location (expand_record w))
    else let w' = bit_or (encode_op 0 0 a.thread (our_clock a)) atomic_mask in
      record {
        cell = word w';
        race =
            if has_atomic_mask w
            then none
            else write_race a location (last_read w ∷ []) (last_write w);
        copied = none;
      }

-- The body of atomraceCheckRead, which leaves the cell alone.
pub check_atomic_read : Access → ℕ → Shadow → Option DataRace
unfolding atomfull_race_check_read read_race
check_atomic_read a location (full r) = atomfull_race_check_read a location r
check_atomic_read a location (word w) =
    if has_atomic_mask w then none else read_race a location (last_write w)

-- The bodies of recordWrite and of one round of recordCalloc.
pub record_write_cell : Access → Shadow → Shadow
unfolding full_record_write expand_record
record_write_cell a (full r) = full (full_record_write a r)
record_write_cell a (word w) =
    if too_large a
    then full (full_record_write a (expand_record w))
    else word (bit_or (encode_op 0 0 a.thread (our_clock a)) atomic_mask)

unfoldable pub record_calloc_cell : Access → Shadow → Shadow
unfolding full_record_write_non_atomic expand_record
record_calloc_cell a (full r) = full (full_record_write_non_atomic a r)
record_calloc_cell a (word w) =
    if too_large a
    then full (full_record_write_non_atomic a (expand_record w))
    else word (encode_op 0 0 a.thread (our_clock a))

-- The questions that the execution asks about a cell.
unfoldable pub has_non_atomic_store : Shadow → Bool
has_non_atomic_store (word w) = if is_short_record w then not (has_atomic_mask w) else true
has_non_atomic_store (full r) = not r.is_atomic

pub set_atomic_store_flag : Shadow → Shadow
set_atomic_store_flag (word w) =
    if is_short_record w
    then word (bit_or w atomic_mask)
    else word (bit_or atomic_mask (encode_op 0 0 0 0))
set_atomic_store_flag (full r) = full (record r { is_atomic = true })

pub get_store_thread_and_clock : Shadow → ℕ × ℕ
get_store_thread_and_clock (word w) = (wr_thread_id w, write_vector w)
get_store_thread_and_clock (full r) = (r.write_thread, r.write_clock)
