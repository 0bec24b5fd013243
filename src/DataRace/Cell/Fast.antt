-- ===== src/DataRace/Cell/Fast.antt =====
-- A check whose word may be copied to the bytes behind does not depend on the address, but for
-- the address in the race.
use c11tester.Base.{
  ℕ, ◌≡◌, refl, true, false, Option, none, some, List, [], ◌∷◌, arith, bit_or, bit_and, ap,
  Option-cases, Bool-cases, inl, inr,
}
use c11tester.DataRace.Encoding.{encode_op, wr_thread_id, write_vector, atomic_mask}
use c11tester.DataRace.Cell.{
  Shadow, word, full, DataRace, Access, Checked, races, report_data_race, write_race, read_race,
  check_write, check_read, too_large, last_read, last_write, our_clock, first_race,
}

-- A race has the stack of one that was found already.
abbrev pub Covered : Option DataRace → Option DataRace → Type 0
Covered none first = Unit {0}
Covered (some r) first = (q : DataRace) × (first ≡ some q) × (q.backtrace ≡ r.backtrace)

pub record IsUniform (check : ℕ → Shadow → Checked) : Type 0 where
  pub before :
      (location : ℕ) (c : Shadow) (old new : ℕ)
      → (check location c).copied ≡ some (old, new)
      → c ≡ word old
  pub after :
      (location other : ℕ) (c : Shadow) (old new : ℕ)
      → (check location c).copied ≡ some (old, new)
      → (check other (word old)).cell ≡ word new
  pub race :
      (location other : ℕ) (c : Shadow) (old new : ℕ)
      → (check location c).copied ≡ some (old, new)
      → Covered (check other (word old)).race (check location c).race

write_race-Covered :
    (a : Access) (location other : ℕ) (reads : List (ℕ × ℕ)) (write : ℕ × ℕ)
    → Covered (write_race a other reads write) (write_race a location reads write)
unfolding write_race report_data_race
write_race-Covered a location other reads write = elim (Option-cases (first_race a reads)) [
  | inr (r, e) ↦ rw (e, write_race) (report_data_race a r false true location, refl, refl)
  | inl e ↦ elim (Bool-cases (races a write)) [
    | inl on ↦ rw (e, write_race, on) (report_data_race a write true true location, refl, refl)
    | inr off ↦ rw (e, write_race, off) tt
  ]
]

read_race-Covered :
    (a : Access) (location other : ℕ) (write : ℕ × ℕ)
    → Covered (read_race a other write) (read_race a location write)
unfolding read_race report_data_race
read_race-Covered a location other write = elim (Bool-cases (races a write)) [
  | inl on ↦ rw on (report_data_race a write true false location, refl, refl)
  | inr off ↦ rw off tt
]

fast_fits :
    (a : Access) (location w old new : ℕ)
    → (check_write a location (word w)).copied ≡ some (old, new)
    → (too_large a ≡ false) × (w ≡ old) × (encode_op 0 0 a.thread (our_clock a) ≡ new)
unfolding check_write
fast_fits a location w old new h = ground arith

write_before :
    (a : Access) (location : ℕ) (c : Shadow) (old new : ℕ)
    → (check_write a location c).copied ≡ some (old, new)
    → c ≡ word old
unfolding check_write
write_before a location (full r) old new h = cc
write_before a location (word w) old new h = ap word (fast_fits a location w old new h).1

write_after :
    (a : Access) (location other : ℕ) (c : Shadow) (old new : ℕ)
    → (check_write a location c).copied ≡ some (old, new)
    → (check_write a other (word old)).cell ≡ word new
unfolding check_write
write_after a location other (full r) old new h = cc
write_after a location other (word w) old new h =
    let (fits, _, made) = fast_fits a location w old new h in rw fits (ap word made)

check_write-Covered :
    (a : Access) (location other : ℕ) (c : Shadow) (old new : ℕ)
    → (check_write a location c).copied ≡ some (old, new)
    → Covered (check_write a other (word old)).race (check_write a location c).race
unfolding check_write
check_write-Covered a location other (full r) old new h = cc
check_write-Covered a location other (word w) old new h =
    let (fits, same, _) = fast_fits a location w old new h in
    rw (fits, same) (write_race-Covered a location other (last_read old ∷ []) (last_write old))

pub check_write-IsUniform : (a : Access) → IsUniform (check_write a)
check_write-IsUniform a = record {
  before = write_before a;
  after = write_after a;
  race = check_write-Covered a;
}

abbrev read_word : Access → ℕ → ℕ
read_word a w =
    bit_or (encode_op a.thread (our_clock a) (wr_thread_id w) (write_vector w))
      (bit_and w atomic_mask)

read_fits :
    (a : Access) (location w old new : ℕ)
    → (check_read a location (word w)).copied ≡ some (old, new)
    → (too_large a ≡ false) × (races a (last_read w) ≡ false) × (w ≡ old) × (read_word a w ≡ new)
unfolding check_read
read_fits a location w old new h = ground arith

read_before :
    (a : Access) (location : ℕ) (c : Shadow) (old new : ℕ)
    → (check_read a location c).copied ≡ some (old, new)
    → c ≡ word old
unfolding check_read
read_before a location (full r) old new h = cc
read_before a location (word w) old new h = ap word (read_fits a location w old new h).2

read_after :
    (a : Access) (location other : ℕ) (c : Shadow) (old new : ℕ)
    → (check_read a location c).copied ≡ some (old, new)
    → (check_read a other (word old)).cell ≡ word new
unfolding check_read
read_after a location other (full r) old new h = cc
read_after a location other (word w) old new h =
    let (fits, quiet, same, made) = read_fits a location w old new h in
    rw (← same) (rw (fits, quiet) (ap word made))

check_read-Covered :
    (a : Access) (location other : ℕ) (c : Shadow) (old new : ℕ)
    → (check_read a location c).copied ≡ some (old, new)
    → Covered (check_read a other (word old)).race (check_read a location c).race
unfolding check_read
check_read-Covered a location other (full r) old new h = cc
check_read-Covered a location other (word w) old new h =
    let (fits, quiet, same, _) = read_fits a location w old new h in
    rw (← same) (rw (fits, quiet) (read_race-Covered a location other (last_write w)))

pub check_read-IsUniform : (a : Access) → IsUniform (check_read a)
check_read-IsUniform a = record {
  before = read_before a;
  after = read_after a;
  race = check_read-Covered a;
}
