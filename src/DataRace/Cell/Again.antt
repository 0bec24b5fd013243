-- ===== src/DataRace/Cell/Again.antt =====
-- A write that is checked a second time, with nothing in between.
use c11tester.Base.{ℕ, ◌≡◌, refl, inl, inr, true, false, none, arith, Bool-cases, subst, sym}
use c11tester.DataRace.Encoding.{encode_op}
use c11tester.DataRace.RoundTrip.{accessors-packed}
use c11tester.DataRace.Cell.{
  Shadow, word, full, RaceRecord, Access, clock_may_race, our_clock, overwrite, first_race,
  write_race, full_race_check_write, expand_record, too_large, check_write,
}

full_again :
    (a : Access) (location : ℕ) (r : RaceRecord)
    → (check_write a location (full (overwrite a false r))).cell ≡ full (overwrite a false r)
unfolding check_write full_race_check_write overwrite
full_again a location r = refl

full_quiet :
    (a : Access) (location : ℕ) (r : RaceRecord)
    → (check_write a location (full (overwrite a false r))).race ≡ none
unfolding check_write full_race_check_write overwrite write_race first_race clock_may_race
full_quiet a location r = ground arith

word_again :
    (a : Access) (location : ℕ)
    → too_large a ≡ false
    → let c = word (encode_op 0 0 a.thread (our_clock a)) in
      ((check_write a location c).cell ≡ c) × ((check_write a location c).race ≡ none)
unfolding check_write write_race first_race clock_may_race
word_again a location fits =
    let parts =
      accessors-packed 0 0 a.thread (our_clock a) false (omega arith) (omega arith) (ground arith)
        (ground arith) in
    rw fits (refl, ground (arith, parts))

-- What a check of a write leaves.
left_full :
    (a : Access) (location : ℕ) (r : RaceRecord)
    → (check_write a location (full r)).cell ≡ full (overwrite a false r)
unfolding check_write full_race_check_write
left_full a location r = refl

left_large :
    (a : Access) (location w : ℕ)
    → too_large a ≡ true
    → (check_write a location (word w)).cell ≡ full (overwrite a false (expand_record w))
unfolding check_write full_race_check_write
left_large a location w large = rw large

left_word :
    (a : Access) (location w : ℕ)
    → too_large a ≡ false
    → (check_write a location (word w)).cell ≡ word (encode_op 0 0 a.thread (our_clock a))
unfolding check_write
left_word a location w fits = rw fits

abbrev pub IsIdle : Access → ℕ → Shadow → Type 0
IsIdle a location c =
    ((check_write a location c).cell ≡ c) × ((check_write a location c).race ≡ none)

-- The second check changes nothing and finds nothing.
pub check_write_again :
    (a : Access) (location : ℕ) (c : Shadow) → IsIdle a location (check_write a location c).cell
check_write_again a location (full r) =
    subst (IsIdle a location) (sym (left_full a location r))
      (full_again a location r, full_quiet a location r)
check_write_again a location (word w) = elim (Bool-cases (too_large a)) [
  | inl large ↦
      subst (IsIdle a location) (sym (left_large a location w large))
        (full_again a location (expand_record w), full_quiet a location (expand_record w))
  | inr fits ↦
      subst (IsIdle a location) (sym (left_word a location w fits)) (word_again a location fits)
]
