-- ===== src/DataRace/Detector.antt =====
-- The handlers of datarace.cc on the shadow memory. The two-level table is a store from the entry
-- of an address to its cell, all 0 at first, as `calloc` leaves it. `raceset` is a set of races by
-- their stacks (hashset.h under `race_hash` and `race_equals`), a list without repetitions here;
-- `reported` are the races that `assert_race` printed. Each handler gets the access, with `none`
-- for a thread that has no clock vector yet.
pub mod Block
pub mod Handlers
pub mod Wide
use c11tester.Base.{
  ℕ, zero, suc, ◌+◌, ◌-◌, ◌*◌, ◌/◌, ◌%◌, ◌^◌, ◌≡◌, Bool, true, false, not, ◌&&◌, ◌||◌, leb, ltb,
  ◌==◌, if◌then◌else◌, Option, none, some, List, [], ◌∷◌, ◌++◌, length, bit_and, update,
}
use c11tester.DataRace.Encoding.{invalid_shadow_val}
use c11tester.DataRace.Cell.{
  Shadow, word, full, DataRace, Access, Checked, check_write, check_read, check_atomic_write,
  check_atomic_read, record_write_cell, record_calloc_cell, has_non_atomic_store,
  set_atomic_store_flag, get_store_thread_and_clock,
}

pub record Detector : Type 0 where
  pub shadow : ℕ → Shadow
  pub raceset : List DataRace
  pub reported : List DataRace

-- `initRaceDetector`
unfoldable pub init_race_detector : Detector
init_race_detector = record { shadow = λ _. word 0; raceset = []; reported = [] }

-- The indices into the two tables and into the base table, together.
unfoldable pub lookup_address_entry : ℕ → ℕ
lookup_address_entry address =
    address / 2 ^ 32 % 2 ^ 16 * 2 ^ 32 + address / 2 ^ 16 % 2 ^ 16 * 2 ^ 16 + address % 2 ^ 16

-- Frames are compared from `FIRST_STACK_FRAME` on.
abbrev pub first_stack_frame : ℕ
first_stack_frame = 2

unfoldable pub same_frames : List ℕ → List ℕ → Bool
same_frames [] [] = true
same_frames [] (y ∷ ys) = false
same_frames (x ∷ xs) [] = false
same_frames (x ∷ xs) (y ∷ ys) = x == y && same_frames xs ys

abbrev drop : ℕ → List ℕ → List ℕ
drop zero xs = xs
drop (suc n) [] = []
drop (suc n) (x ∷ xs) = drop n xs

unfoldable pub race_equals : DataRace → DataRace → Bool
unfolding same_frames
race_equals r1 r2 =
    length r1.backtrace == length r2.backtrace
    && same_frames (drop first_stack_frame r1.backtrace) (drop first_stack_frame r2.backtrace)

pub contains : List DataRace → DataRace → Bool
contains [] r = false
contains (x ∷ xs) r = race_equals x r || contains xs r

-- `if (race) { ... }` at the end of each handler: a race with a new stack is kept and reported.
pub publish : Option DataRace → Detector → Detector
unfolding contains
publish none d = d
publish (some r) d =
    if contains d.raceset r
    then d
    else record d { raceset = r ∷ d.raceset; reported = r ∷ d.reported }

pub write_cell : Detector → ℕ → Shadow → Detector
write_cell d entry c = record d { shadow = update d.shadow entry c }

-- One handler: check the cell of the address, store it, publish the race.
abbrev pub checked : (ℕ → Shadow → Checked) → Detector → ℕ → Checked
checked check d location = check location (d.shadow (lookup_address_entry location))

pub handle : (ℕ → Shadow → Checked) → Detector → ℕ → Detector
unfolding write_cell publish
handle check d location =
    let done = checked check d location in
    publish done.race (write_cell d (lookup_address_entry location) done.cell)

-- `currClock == NULL`: nothing is checked.
when_clocked : Option Access → (Access → Detector) → Detector → Detector
when_clocked none f d = d
when_clocked (some a) f d = f a

pub race_check_read_other_it : Access → Detector → ℕ → Detector
unfolding handle
race_check_read_other_it a = handle (check_read a)

pub race_check_write_other_it : Access → Detector → ℕ → Detector
unfolding handle
race_check_write_other_it a = handle (check_write a)

pub atomrace_check_write : Option Access → Detector → ℕ → Detector
unfolding when_clocked handle
atomrace_check_write a d location = when_clocked a (λ b. handle (check_atomic_write b) d location) d

pub atomrace_check_read : Option Access → Detector → ℕ → Detector
unfolding when_clocked publish
atomrace_check_read a d location =
    when_clocked a
      (λ b. publish (check_atomic_read b location (d.shadow (lookup_address_entry location))) d) d

-- These two read the clock vector without a test, so `none` is a crash.
pub record_write : Option Access → Detector → ℕ → Option Detector
unfolding write_cell
record_write none d location = none
record_write (some a) d location =
    let entry = lookup_address_entry location in
    some (write_cell d entry (record_write_cell a (d.shadow entry)))

unfoldable pub is_full : Shadow → Bool
is_full (full r) = true
is_full (word w) = false

-- A record, old or new, ends the loop.
calloc_bytes : Access → ℕ → Detector → ℕ → Detector
unfolding write_cell is_full
calloc_bytes a zero d location = d
calloc_bytes a (suc size) d location =
    let entry = lookup_address_entry location in
    let c = record_calloc_cell a (d.shadow entry) in
    let d' = write_cell d entry c in
    let rest = calloc_bytes a size d' (location + 1) in if is_full c then d' else rest

pub record_calloc : Option Access → Detector → ℕ → ℕ → Option Detector
unfolding calloc_bytes
record_calloc a d location zero = some d
record_calloc none d location (suc size) = none
record_calloc (some a) d location (suc size) = some (calloc_bytes a (suc size) d location)

-- The accesses of 8, 16, 32 and 64 bits. The first byte is checked, and says which word to expect
-- in the cells behind it and which to put there; where the expectation fails the rest of the bytes
-- are checked one by one.
abbrev expected : Option (ℕ × ℕ) → ℕ × ℕ
expected none = (invalid_shadow_val, invalid_shadow_val)
expected (some p) = p

-- `shadow[k] == old_shadowval`
holds_word : Shadow → ℕ → Bool
holds_word (word w) old = w == old
holds_word (full r) old = false

-- CHECKBOUNDARY: the n bytes behind the first lie in the same base table.
check_boundary : ℕ → ℕ → Bool
check_boundary location n = leb (bit_and location 0xffff + n) 0xffff

module _ (check : ℕ → Shadow → Checked) (location : ℕ) where
  -- L_k: the bytes k .. k + n - 1.
  pub others : ℕ → ℕ → Detector → Detector
  unfolding handle
  others zero k d = d
  others (suc n) k d = others n (k + 1) (handle check d (location + k))

  copies : ℕ × ℕ → ℕ → ℕ → Detector → Detector
  unfolding others write_cell holds_word
  copies vals zero k d = d
  copies vals (suc n) k d =
      let entry = lookup_address_entry location + k in
      let copied = copies vals n (k + 1) (write_cell d entry (word vals.1)) in
      if holds_word (d.shadow entry) vals.0 then copied else others (suc n) k d

  pub wide : ℕ → Detector → Detector
  unfolding handle copies check_boundary others
  wide n d =
      let vals = expected (checked check d location).copied in
      let d' = handle check d location in
      if check_boundary location n then copies vals n 1 d' else others n 1 d'

-- Without a clock vector the first byte leaves the expectation invalid, and no byte is checked;
-- a cell never holds the invalid word.
pub race_check_read8 : Option Access → Detector → ℕ → Detector
unfolding when_clocked race_check_read_other_it
race_check_read8 a d location = when_clocked a (λ b. race_check_read_other_it b d location) d

pub race_check_read16 : Option Access → Detector → ℕ → Detector
unfolding when_clocked wide
race_check_read16 a d location = when_clocked a (λ b. wide (check_read b) location 1 d) d

pub race_check_read32 : Option Access → Detector → ℕ → Detector
unfolding when_clocked wide
race_check_read32 a d location = when_clocked a (λ b. wide (check_read b) location 3 d) d

pub race_check_read64 : Option Access → Detector → ℕ → Detector
unfolding when_clocked wide
race_check_read64 a d location = when_clocked a (λ b. wide (check_read b) location 7 d) d

pub race_check_write8 : Option Access → Detector → ℕ → Detector
unfolding when_clocked race_check_write_other_it
race_check_write8 a d location = when_clocked a (λ b. race_check_write_other_it b d location) d

pub race_check_write16 : Option Access → Detector → ℕ → Detector
unfolding when_clocked wide
race_check_write16 a d location = when_clocked a (λ b. wide (check_write b) location 1 d) d

pub race_check_write32 : Option Access → Detector → ℕ → Detector
unfolding when_clocked wide
race_check_write32 a d location = when_clocked a (λ b. wide (check_write b) location 3 d) d

pub race_check_write64 : Option Access → Detector → ℕ → Detector
unfolding when_clocked wide
race_check_write64 a d location = when_clocked a (λ b. wide (check_write b) location 7 d) d

-- The handlers for blocks of memory, as they are written: each round looks up `location` again.
-- A write stops publishing after its first race; a read never sets that flag.
abbrev silenced : Bool → Option DataRace → Option DataRace
silenced already race = if already then none else race

raised : Bool → Option DataRace → Bool
raised already none = already
raised already (some r) = true

-- `for (uint i = 0; i < size; i++)` counts 32 bits against a `size_t`. The first argument is fuel,
-- and `none` says that it ran out.
write_rounds : ℕ → Access → ℕ → ℕ → Bool → Detector → ℕ → Option Detector
unfolding write_cell publish raised
write_rounds zero a size i already d location = none
write_rounds (suc fuel) a size i already d location =
    let done = checked (check_write a) d location in
    let d' = write_cell d (lookup_address_entry location) done.cell in
    let rest =
      write_rounds fuel a size ((i + 1) % 2 ^ 32) (raised already done.race)
        (publish (silenced already done.race) d') location in
    if ltb i size then rest else some d

read_rounds : ℕ → Access → ℕ → ℕ → Detector → ℕ → Option Detector
unfolding handle
read_rounds zero a size i d location = none
read_rounds (suc fuel) a size i d location =
    let rest =
      read_rounds fuel a size ((i + 1) % 2 ^ 32) (handle (check_read a) d location) location in
    if ltb i size then rest else some d

pub race_check_write_memop : ℕ → Option Access → Detector → ℕ → ℕ → Option Detector
unfolding write_rounds
race_check_write_memop fuel none d location size = some d
race_check_write_memop fuel (some a) d location size = write_rounds fuel a size 0 false d location

pub race_check_read_memop : ℕ → Option Access → Detector → ℕ → ℕ → Option Detector
unfolding read_rounds
race_check_read_memop fuel none d location size = some d
race_check_read_memop fuel (some a) d location size = read_rounds fuel a size 0 d location

-- What the execution asks of the memory.
unfoldable pub non_atomic_store_at : Detector → ℕ → Bool
non_atomic_store_at d address = has_non_atomic_store (d.shadow (lookup_address_entry address))

pub flag_atomic_store_at : Detector → ℕ → Detector
unfolding write_cell
flag_atomic_store_at d address =
    let entry = lookup_address_entry address in
    write_cell d entry (set_atomic_store_flag (d.shadow entry))

pub store_at : Detector → ℕ → ℕ × ℕ
store_at d address = get_store_thread_and_clock (d.shadow (lookup_address_entry address))
