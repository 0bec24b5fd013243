-- ===== src/DataRace/Detector/Wide.antt =====
-- The accesses of several bytes check one byte and copy the result where the cells agree; this
-- is the same as to check each byte (datarace.cc, raceCheckRead16 to raceCheckWrite64).
use c11tester.Base.{
  ℕ, zero, suc, ◌+◌, ◌%◌, ◌^◌, ◌≤◌, ◌≡◌, inl, inr, refl, sym, ap, ◌∙◌, true, false, ◌==◌, Option,
  none, some, List, [], ◌∷◌, update, arith, Bool-cases, Option-cases, ==_iff,
}
use native.Mathlib.Nat.{add-zero}
use c11tester.Base.Bits.{and_mask}
use c11tester.DataRace.Encoding.{invalid_shadow_val}
use c11tester.DataRace.RoundTrip.{is_short_record_lem}
use c11tester.DataRace.Cell.{Shadow, word, full, DataRace, Access, Checked, check_write, check_read}
use c11tester.DataRace.Cell.Bounds.{IsSound, checks-IsSound}
use c11tester.DataRace.Cell.Fast.{Covered, IsUniform, check_write-IsUniform, check_read-IsUniform}
use c11tester.DataRace.Detector.{
  Detector, lookup_address_entry, race_equals, same_frames, first_stack_frame, drop, contains,
  publish, write_cell, checked, handle, holds_word, others, copies, check_boundary, wide,
  race_check_read64, race_check_read32, race_check_read16, race_check_write64, race_check_write32,
  race_check_write16, when_clocked,
}

-- The table indices together are the lowest 48 bits of the address.
pub lookup-mod : (address : ℕ) → lookup_address_entry address ≡ address % 2 ^ 48
unfolding lookup_address_entry
lookup-mod address = omega arith

same_frames_refl : (xs : List ℕ) → same_frames xs xs ≡ true
unfolding same_frames
same_frames_refl [] = refl
same_frames_refl (x ∷ xs) = ground (arith, same_frames_refl xs)

race_equals_refl : (r : DataRace) → race_equals r r ≡ true
unfolding race_equals
race_equals_refl r = ground (arith, same_frames_refl (drop first_stack_frame r.backtrace))

race_equals_cong :
    (x r q : DataRace) → r.backtrace ≡ q.backtrace → race_equals x r ≡ race_equals x q
unfolding race_equals
race_equals_cong x r q e = rw e

contains_cong :
    (rs : List DataRace) (r q : DataRace)
    → r.backtrace ≡ q.backtrace
    → contains rs r ≡ contains rs q
unfolding contains
contains_cong [] r q e = refl
contains_cong (x ∷ rs) r q e = rw (race_equals_cong x r q e, contains_cong rs r q e)

-- A race that was published is contained.
contains-publish : (r : DataRace) (d : Detector) → contains (publish (some r) d).raceset r ≡ true
unfolding publish
contains-publish r d = elim (Bool-cases (contains d.raceset r)) [
  | inl old ↦ rw old old
  | inr new ↦ rw new (unfold contains in rw (race_equals_refl r))
]

publish_known :
    (race first : Option DataRace) (d : Detector)
    → Covered race first
    → ((r : DataRace) → first ≡ some r → contains d.raceset r ≡ true)
    → publish race d ≡ d
unfolding publish
publish_known none first d cov known = refl
publish_known (some r) first d cov known =
    let (q, e, same) = cov in
    let old : contains d.raceset r ≡ true = sym (contains_cong d.raceset q r same) ∙ known q e in
    rw old

-- Every cell is in order.
abbrev pub IsSoundDetector : Detector → Type 0
IsSoundDetector d = (entry : ℕ) → IsSound (d.shadow entry)

-- The entries of the bytes behind an address lie behind its entry, within the base table.
lookup_behind :
    (location n k : ℕ)
    → check_boundary location n ≡ true
    → k ≤ n
    → lookup_address_entry (location + k) ≡ lookup_address_entry location + k
unfolding check_boundary
lookup_behind location n k h le =
    let low : location % 2 ^ 16 + n ≤ 0xffff = ground (arith, and_mask 16 location) in
    omega (arith, lookup-mod location, lookup-mod (location + k))

word_of_holds : (c : Shadow) (old : ℕ) → holds_word c old ≡ true → c ≡ word old
unfolding holds_word
word_of_holds (word w) old h = ap word ((==_iff w old).0 h)
word_of_holds (full r) old h = cc

-- The invalid word stands in no cell that is in order.
not-holds_invalid : (c : Shadow) → IsSound c → holds_word c invalid_shadow_val ≡ false
unfolding holds_word
not-holds_invalid (word w) s = ground (arith, is_short_record_lem w)
not-holds_invalid (full r) s = refl

copies_invalid :
    (check : ℕ → Shadow → Checked) (location m k : ℕ) (d : Detector)
    → IsSound (d.shadow (lookup_address_entry location + k))
    → copies check location (invalid_shadow_val, invalid_shadow_val) m k d
      ≡ others check location m k d
unfolding copies others
copies_invalid check location zero k d sound = refl
copies_invalid check location (suc m) k d sound =
    rw (not-holds_invalid (d.shadow (lookup_address_entry location + k)) sound)

pub publish-shadow : (race : Option DataRace) (d : Detector) → (publish race d).shadow ≡ d.shadow
unfolding publish
publish-shadow none d = refl
publish-shadow (some r) d = ground arith

-- A check keeps every cell in order.
abbrev pub KeepsSound : (ℕ → Shadow → Checked) → Type 0
KeepsSound check = (location : ℕ) (c : Shadow) → IsSound c → IsSound (check location c).cell

pub handle-IsSound :
    (check : ℕ → Shadow → Checked) (d : Detector) (location : ℕ)
    → KeepsSound check
    → IsSoundDetector d
    → IsSoundDetector (handle check d location)
unfolding handle write_cell
handle-IsSound check d location keeps sound entry =
    let at = lookup_address_entry location in
    let kept = keeps location (d.shadow at) (sound at) in
    rw
      (publish-shadow (checked check d location).race
        (record d { shadow = update d.shadow at (checked check d location).cell }))
      (elim (Bool-cases (at == entry)) [
        | inl here ↦ rw here kept
        | inr other ↦ rw other (sound entry)
      ])

module _ (check : ℕ → Shadow → Checked) (location n : ℕ)
    (near : check_boundary location n ≡ true) where
  module _ (uniform : IsUniform check) (c : Shadow) (old new : ℕ)
      (fast : (check location c).copied ≡ some (old, new)) where
    -- A check of a byte whose cell holds the expected word puts the word that is copied.
    handle-copied :
        (d : Detector) (place entry : ℕ)
        → lookup_address_entry place ≡ entry
        → d.shadow entry ≡ word old
        → ((r : DataRace) → (check location c).race ≡ some r → contains d.raceset r ≡ true)
        → handle check d place ≡ write_cell d entry (word new)
    unfolding handle
    handle-copied d place entry e held known =
        let seen : checked check d place ≡ check place (word old) =
          ap (λ x. check place (d.shadow x)) e ∙ ap (check place) held in
        rw (seen, e, uniform.after location place c old new fast)
          (publish_known (check place (word old)).race (check location c).race
            (write_cell d entry (word new)) (uniform.race location place c old new fast)
            (unfold write_cell in known))

    copies-others :
        (m k : ℕ) (d : Detector)
        → m + k ≤ suc n
        → ((r : DataRace) → (check location c).race ≡ some r → contains d.raceset r ≡ true)
        → copies check location (old, new) m k d ≡ others check location m k d
    unfolding copies others holds_word
    copies-others zero k d le known = refl
    copies-others (suc m) k d le known =
        let entry = lookup_address_entry location + k in
        elim (Bool-cases (holds_word (d.shadow entry) old)) [
          | inr differs ↦ rw differs
          | inl held ↦ rw held (
              copies-others m (k + 1) (write_cell d entry (word new)) (omega arith)
                (unfold write_cell in known)
              ∙ ap (others check location m (k + 1)) (
                  sym (
                    handle-copied d (location + k) entry
                      (lookup_behind location n k near (omega arith))
                      (word_of_holds (d.shadow entry) old held) known)))
        ]

first_known :
    (check : ℕ → Shadow → Checked) (d : Detector) (location : ℕ) (r : DataRace)
    → (checked check d location).race ≡ some r
    → contains (handle check d location).raceset r ≡ true
unfolding handle
first_known check d location r e = rw e (
    contains-publish r
      (write_cell d (lookup_address_entry location) (checked check d location).cell))

-- Whatever the fast path does, a wide access leaves what byte by byte checks leave: the same
-- cells, the same set of races, and the same reports.
pub wide-others :
    (check : ℕ → Shadow → Checked) (location n : ℕ) (d : Detector)
    → IsUniform check
    → KeepsSound check
    → IsSoundDetector d
    → wide check location n d ≡ others check location (suc n) 0 d
unfolding wide others
wide-others check location n d uniform keeps sound =
    let first = checked check d location in
    let d' = handle check d location in
    rw (add-zero location) (elim (Option-cases first.copied) [
      | inl none_copied ↦ rw none_copied (
          ground (
            arith,
            copies_invalid check location n 1 d'
                (handle-IsSound check d location keeps sound (lookup_address_entry location + 1)),
          ))
      | inr ((old, new), copied) ↦ rw copied (elim (Bool-cases (check_boundary location n)) [
        | inl near ↦ rw near (
            copies-others check location n near uniform (d.shadow (lookup_address_entry location))
              old new copied n 1 d' (omega arith) (first_known check d location))
        | inr far ↦ rw far
      ])
    ])

-- Byte by byte: the checks of the n bytes from an address on, in order.
abbrev pub bytewise : (Access → ℕ → Shadow → Checked) → Option Access → ℕ → Detector → ℕ → Detector
bytewise check none n d location = d
bytewise check (some a) n d location = others (check a) location n 0 d

-- In a detector whose cells are in order (`IsSound`), the handlers of 16, 32 and 64 bits leave the
-- cells, the set of races and the reports that the checks of their 2, 4 and 8 bytes, one after the
-- other, leave.
pub race_check_wide-bytewise :
    (a : Option Access) (d : Detector) (location : ℕ)
    → IsSoundDetector d
    → (race_check_write16 a d location ≡ bytewise check_write a 2 d location)
      × (race_check_write32 a d location ≡ bytewise check_write a 4 d location)
      × (race_check_write64 a d location ≡ bytewise check_write a 8 d location)
      × (race_check_read16 a d location ≡ bytewise check_read a 2 d location)
      × (race_check_read32 a d location ≡ bytewise check_read a 4 d location)
      × (race_check_read64 a d location ≡ bytewise check_read a 8 d location)
unfolding race_check_write16 race_check_write32 race_check_write64 race_check_read16
    race_check_read32 race_check_read64 when_clocked
race_check_wide-bytewise none d location sound = (refl, refl, refl, refl, refl, refl)
race_check_wide-bytewise (some a) d location sound =
    let writes = λ (n : ℕ).
      wide-others (check_write a) location n d (check_write-IsUniform a)
        (λ l c s. (checks-IsSound a l c s).0) sound in
    let reads = λ (n : ℕ).
      wide-others (check_read a) location n d (check_read-IsUniform a)
        (λ l c s. (checks-IsSound a l c s).1) sound in
    (writes 1, writes 3, writes 7, reads 1, reads 3, reads 7)
