-- ===== src/DataRace/Detector/Block.antt =====
-- The handlers for blocks of memory (datarace.cc, raceCheckWriteMemop, raceCheckReadMemop,
-- recordCalloc).
use c11tester.Base.{
  ◌+◌, ◌%◌, ◌^◌, ◌<◌, ◌≤◌, ltb, leb, ◌&&◌, if◌then◌else◌, inl, inr, Bool-cases, ℕ, zero, suc, ◌≡◌,
  ◌≢◌, refl, sym, ap, ◌∙◌, subst, fun_ext, Bool, true, false, Option, none, some, update, arith,
}
use c11tester.DataRace.Cell.{Shadow, Access, Checked, check_write, check_read, record_calloc_cell}
use c11tester.DataRace.Cell.Again.{IsIdle, check_write_again}
use c11tester.DataRace.Detector.{
  Detector, lookup_address_entry, publish, write_cell, checked, handle, race_check_write_other_it,
  race_check_write8, race_check_write_memop, race_check_read_memop, write_rounds, read_rounds,
  silenced, raised, record_calloc, calloc_bytes, is_full, when_clocked,
}
use c11tester.DataRace.Detector.Wide.{publish-shadow}

update_again {ℓ} :
    {A : Type ℓ} (f : ℕ → A) (i : ℕ) (v : A) → update (update f i v) i v ≡ update f i v
update_again f i v = fun_ext λ j. ground arith

update_same {ℓ} : {A : Type ℓ} (f : ℕ → A) (i : ℕ) (v : A) → f i ≡ v → update f i v ≡ f
update_same f i v e = fun_ext λ j. ground arith

update_at {ℓ} : {A : Type ℓ} (f : ℕ → A) (i : ℕ) (v : A) → update f i v i ≡ v
update_at f i v = ground arith

-- Where the check of the cell leaves it and finds no race, a round does nothing.
round_idle :
    (a : Access) (already : Bool) (d : Detector) (location : ℕ)
    → IsIdle a location (d.shadow (lookup_address_entry location))
    → (raised already (checked (check_write a) d location).race ≡ already)
      × (publish
            (silenced already (checked (check_write a) d location).race)
            (write_cell d (lookup_address_entry location) (checked (check_write a) d location).cell)
          ≡ d)
unfolding write_cell publish raised
round_idle a already d location (same, quiet) =
    let entry = lookup_address_entry location in
    rw (quiet, same, update_same d.shadow entry (d.shadow entry) refl) (refl, silent already)
  where
    silent : (b : Bool) → publish (silenced b none) d ≡ d
    silent true = refl
    silent false = refl

-- The counter below the size, and the next one.
counts : (i size : ℕ) → ltb i size ≡ true → size < 2 ^ 32 → (i + 1) % 2 ^ 32 ≡ i + 1
counts i size more small = ground arith

rounds_idle :
    (fuel : ℕ) (a : Access) (size i : ℕ) (already : Bool) (d : Detector) (location : ℕ)
    → size < 2 ^ 32
    → size < fuel + i
    → IsIdle a location (d.shadow (lookup_address_entry location))
    → i ≤ size
    → write_rounds fuel a size i already d location ≡ some d
unfolding write_rounds
rounds_idle zero a size i already d location small enough idle inside = absurd (omega arith)
rounds_idle (suc fuel) a size i already d location small enough idle inside =
    elim (Bool-cases (ltb i size)) [
      | inr done ↦ rw done refl
      | inl more ↦
          let (kept, left) = round_idle a already d location idle in
          rw (more, kept, left, counts i size more small)
            (rounds_idle fuel a size (i + 1) already d location small (omega arith) idle
              (ground arith))
    ]

-- The cell of the address after its check.
handled :
    (check : ℕ → Shadow → Checked) (d : Detector) (location : ℕ)
    → (handle check d location).shadow (lookup_address_entry location)
      ≡ (checked check d location).cell
unfolding handle write_cell
handled check d location =
    let done = checked check d location in
    let entry = lookup_address_entry location in
    ap (λ (f : ℕ → Shadow). f entry) (publish-shadow done.race (write_cell d entry done.cell))
    ∙ update_at d.shadow entry done.cell

-- The block write of a size below 2 ^ 32, but 0, ends with enough fuel. It checks the first byte of
-- the block, as `raceCheckWrite8` does, and no other byte: the loop never moves on from `location`.
pub race_check_write_memop_first :
    (fuel : ℕ) (a : Option Access) (d : Detector) (location size : ℕ)
    → 0 < size
    → size < 2 ^ 32
    → size < fuel
    → race_check_write_memop fuel a d location size ≡ some (race_check_write8 a d location)
unfolding race_check_write_memop race_check_write8 when_clocked race_check_write_other_it
    write_rounds
race_check_write_memop_first zero a d location size some_byte small enough =
    absurd (omega (arith, enough))
race_check_write_memop_first (suc fuel) none d location size some_byte small enough = refl
race_check_write_memop_first (suc fuel) (some a) d location size some_byte small enough =
    let more : ltb 0 size ≡ true = ground arith in
    rw more (
      rounds_idle fuel a size 1 (raised false (checked (check_write a) d location).race)
        (handle (check_write a) d location) location small (omega arith)
        (subst (IsIdle a location) (sym (handled (check_write a) d location))
          (check_write_again a location (d.shadow (lookup_address_entry location))))
        (omega arith))

write_rounds_endless :
    (fuel : ℕ) (a : Access) (size i : ℕ) (already : Bool) (d : Detector) (location : ℕ)
    → 2 ^ 32 ≤ size
    → i < 2 ^ 32
    → write_rounds fuel a size i already d location ≡ none
unfolding write_rounds
write_rounds_endless zero a size i already d location large inside = refl
write_rounds_endless (suc fuel) a size i already d location large inside =
    let more : ltb i size ≡ true = ground arith in
    rw more (write_rounds_endless fuel a size ((i + 1) % 2 ^ 32) _ _ location large (omega arith))

read_rounds_endless :
    (fuel : ℕ) (a : Access) (size i : ℕ) (d : Detector) (location : ℕ)
    → 2 ^ 32 ≤ size
    → i < 2 ^ 32
    → read_rounds fuel a size i d location ≡ none
unfolding read_rounds
read_rounds_endless zero a size i d location large inside = refl
read_rounds_endless (suc fuel) a size i d location large inside =
    let more : ltb i size ≡ true = ground arith in
    rw more (read_rounds_endless fuel a size ((i + 1) % 2 ^ 32) _ location large (omega arith))

-- The handlers of a block of 2 ^ 32 bytes or more never end, for a thread with a clock vector: no
-- fuel is enough, since the 32-bit counter goes round below the size.
pub memops_endless :
    (fuel : ℕ) (a : Access) (d : Detector) (location size : ℕ)
    → 2 ^ 32 ≤ size
    → (race_check_write_memop fuel (some a) d location size ≡ none)
      × (race_check_read_memop fuel (some a) d location size ≡ none)
unfolding race_check_write_memop race_check_read_memop
memops_endless fuel a d location size large = (
  write_rounds_endless fuel a size 0 false d location large (omega arith),
  read_rounds_endless fuel a size 0 d location large (omega arith),
)

read_rounds_elsewhere :
    (fuel : ℕ) (a : Access) (size i : ℕ) (d : Detector) (location entry : ℕ)
    → lookup_address_entry location ≢ entry
    → size < 2 ^ 32
    → size < fuel + i
    → i ≤ size
    → (d' : Detector) × (read_rounds fuel a size i d location ≡ some d')
      × (d'.shadow entry ≡ d.shadow entry)
unfolding read_rounds handle write_cell
read_rounds_elsewhere zero a size i d location entry h small enough inside =
    absurd (omega (arith, enough, inside))
read_rounds_elsewhere (suc fuel) a size i d location entry h small enough inside =
    elim (Bool-cases (ltb i size)) [
      | inr stop ↦ (d, rw stop refl, refl)
      | inl more ↦
          let done = checked (check_read a) d location in
          let at = lookup_address_entry location in
          let (d', e, same) =
            read_rounds_elsewhere fuel a size (i + 1) (handle (check_read a) d location) location
              entry h small (omega arith) (ground arith) in
          (
            d',
            rw (more, counts i size more small) e,
            same
                ∙ ap (λ (f : ℕ → Shadow). f entry)
                    (publish-shadow done.race (write_cell d at done.cell))
                ∙ ground arith,
          )
    ]

-- The block read of a size below 2 ^ 32 ends with enough fuel, and leaves every cell but that of its
-- first byte as it was: the reads of the other bytes are not recorded.
pub race_check_read_memop_elsewhere :
    (fuel : ℕ) (a : Option Access) (d : Detector) (location size entry : ℕ)
    → lookup_address_entry location ≢ entry
    → size < 2 ^ 32
    → size < fuel
    → (d' : Detector) × (race_check_read_memop fuel a d location size ≡ some d')
      × (d'.shadow entry ≡ d.shadow entry)
unfolding race_check_read_memop
race_check_read_memop_elsewhere fuel none d location size entry h small enough = (d, refl, refl)
race_check_read_memop_elsewhere fuel (some a) d location size entry h small enough =
    read_rounds_elsewhere fuel a size 0 d location entry h small (omega arith) (omega arith)

-- An address of 48 bits is its own entry.
lookup_low : (address : ℕ) → address < 2 ^ 48 → lookup_address_entry address ≡ address
unfolding lookup_address_entry
lookup_low address low = omega (arith, low)

-- The cell of a byte ends the loop of `recordCalloc`: it is a record, or becomes one.
abbrev pub ends_loop : Access → Detector → ℕ → Bool
ends_loop a d address = is_full (record_calloc_cell a (d.shadow address))

-- The cells of the bytes from `location` to `last` are recorded.
abbrev pub cleared_to : Access → Detector → ℕ → ℕ → Detector
cleared_to a d location last = record d {
  shadow =
      λ x. if leb location x && leb x last then record_calloc_cell a (d.shadow x) else d.shadow x;
}

calloc_bytes_until :
    (a : Access) (n size : ℕ) (d : Detector) (location : ℕ)
    → location + size ≤ 2 ^ 48
    → n < size
    → ((i : ℕ) → i < n → ends_loop a d (location + i) ≡ false)
    → ends_loop a d (location + n) ≡ true
    → calloc_bytes a size d location ≡ cleared_to a d location (location + n)
unfolding calloc_bytes write_cell
calloc_bytes_until a n zero d location low inside goes stops = absurd (omega arith)
calloc_bytes_until a zero (suc size) d location low inside goes stops =
    let here : lookup_address_entry location ≡ location = lookup_low location (omega arith) in
    let all : update d.shadow location (record_calloc_cell a (d.shadow location))
        ≡ (cleared_to a d location (location + 0)).shadow =
      fun_ext λ x. ground arith in
    let at : (location + 0) ≡ location = omega arith in
    let ends : is_full (record_calloc_cell a (d.shadow location)) ≡ true = rw at at stops in
    rw (here, ends) (ap (λ (f : ℕ → Shadow). record d { shadow = f }) all)
calloc_bytes_until a (suc n) (suc size) d location low inside goes stops =
    let here : lookup_address_entry location ≡ location = lookup_low location (omega arith) in
    let c = record_calloc_cell a (d.shadow location) in
    let d₁ = write_cell d location c in
    let first : location + 0 ≡ location = omega arith in
    let on : is_full c ≡ false = rw (← first) (goes 0 (omega arith)) in
    let next : (i : ℕ) → d₁.shadow (location + 1 + i) ≡ d.shadow (location + suc i) =
      λ i. ground arith in
    let rest : calloc_bytes a size d₁ (location + 1)
        ≡ cleared_to a d₁ (location + 1) (location + 1 + n) =
      calloc_bytes_until a n size d₁ (location + 1) (omega arith) (omega arith)
        (λ i lt. rw (next i) (goes (suc i) (omega arith))) (rw (next n) stops) in
    let all : (cleared_to a d₁ (location + 1) (location + 1 + n)).shadow
        ≡ (cleared_to a d location (location + suc n)).shadow =
      fun_ext λ x. ground arith in
    rw (here, on) (rest ∙ ap (λ (f : ℕ → Shadow). record d { shadow = f }) all)

-- In a block below 2 ^ 48, let `n` count the bytes before the first whose cell is a record, or becomes
-- one since the thread or its clock is too large for a packed word. `recordCalloc` records a write to
-- these and to that first one, and returns: the cells of the bytes behind are left as they were.
pub record_calloc_until :
    (a : Access) (d : Detector) (location size n : ℕ)
    → location + size ≤ 2 ^ 48
    → n < size
    → ((i : ℕ) → i < n → ends_loop a d (location + i) ≡ false)
    → ends_loop a d (location + n) ≡ true
    → record_calloc (some a) d location size ≡ some (cleared_to a d location (location + n))
unfolding record_calloc
record_calloc_until a d location zero n low inside goes stops = absurd (omega arith)
record_calloc_until a d location (suc size) n low inside goes stops =
    ap some (calloc_bytes_until a n (suc size) d location low inside goes stops)
