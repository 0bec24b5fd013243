-- ===== src/DataRace/RoundTrip.antt =====
-- What a packed word gives back.
use c11tester.Base.{
  ℕ, ◌+◌, ◌*◌, ◌/◌, ◌%◌, ◌^◌, ◌<◌, ◌≤◌, ◌≡◌, refl, ap, ◌∙◌, Bool, true, false, not, bit_and, bit_or,
  ◌==◌, if◌then◌else◌, arith, Bool-cases, inl, inr,
}
use c11tester.Base.Bits.{or_shifted, and_mask, and_bit}
use c11tester.DataRace.Encoding.{
  thread_mask, read_mask, write_mask, atomic_mask, is_short_record, rd_thread_id, read_vector,
  wr_thread_id, write_vector, has_atomic_mask, encode_op,
}

-- The word as a sum of its fields.
abbrev pub packed : ℕ → ℕ → ℕ → ℕ → ℕ
packed rt rc wt wc = 1 + rt * 2 + rc * 2 ^ 7 + wt * 2 ^ 32 + wc * 2 ^ 38

pub encode_op-packed :
    (rt rc wt wc : ℕ)
    → rt ≤ thread_mask
    → rc ≤ read_mask
    → wt ≤ thread_mask
    → wc ≤ write_mask
    → encode_op rt rc wt wc ≡ packed rt rc wt wc
unfolding encode_op
encode_op-packed rt rc wt wc h1 h2 h3 h4 =
    let e1 : rt * 2 ^ 1 % 2 ^ 32 ≡ rt * 2 ^ 1 = omega arith in
    let e2 : rc * 2 ^ 7 % 2 ^ 32 ≡ rc * 2 ^ 7 = omega arith in
    let e3 : wt * 2 ^ 32 % 2 ^ 64 ≡ wt * 2 ^ 32 = omega arith in
    let e4 : wc * 2 ^ 38 % 2 ^ 64 ≡ wc * 2 ^ 38 = omega arith in
    let a1 = or_shifted 1 1 rt (omega arith) in
    let a2 = or_shifted 7 (1 + rt * 2 ^ 1) rc (omega arith) in
    let a3 = or_shifted 32 (1 + rt * 2 ^ 1 + rc * 2 ^ 7) wt (omega arith) in
    let a4 = or_shifted 38 (1 + rt * 2 ^ 1 + rc * 2 ^ 7 + wt * 2 ^ 32) wc (omega arith) in
    rw (e1, e2, e3, e4, a1, a2, a3, a4)

-- The word with the flag of an atomic write.
abbrev pub flagged : Bool → ℕ → ℕ
flagged atomic w = if atomic then w + 2 ^ 63 else w

-- Setting the flag in a word that does not have it.
pub or-atomic_mask : (w : ℕ) → w < 2 ^ 63 → bit_or w atomic_mask ≡ flagged true w
or-atomic_mask w h = or_shifted 63 w 1 h

-- The word that keeps the flag of another: `w | (v & ATOMICMASK)`.
pub or-kept_flag :
    (w v : ℕ) → w < 2 ^ 63 → bit_or w (bit_and v atomic_mask) ≡ flagged (has_atomic_mask v) w
unfolding has_atomic_mask
or-kept_flag w v h =
    let bit = and_bit 63 v in
    elim (Bool-cases (v / 2 ^ 63 % 2 == 0)) [
      | inl off ↦
          let none_set : bit_and v atomic_mask ≡ 0 = ground (arith, bit) in
          rw (none_set) (or_shifted 63 w 0 h ∙ omega arith)
      | inr on ↦
          let set : bit_and v atomic_mask ≡ 2 ^ 63 = ground (arith, bit) in
          rw set (or_shifted 63 w 1 h)
    ]

-- Each accessor as a division and a remainder.
pub rd_thread_id_lem : (x : ℕ) → rd_thread_id x ≡ x / 2 ^ 1 % 2 ^ 6
unfolding rd_thread_id
rd_thread_id_lem x = and_mask 6 (x / 2 ^ 1)

pub read_vector_lem : (x : ℕ) → read_vector x ≡ x / 2 ^ 7 % 2 ^ 25
unfolding read_vector
read_vector_lem x = and_mask 25 (x / 2 ^ 7)

pub wr_thread_id_lem : (x : ℕ) → wr_thread_id x ≡ x / 2 ^ 32 % 2 ^ 6
unfolding wr_thread_id
wr_thread_id_lem x = and_mask 6 (x / 2 ^ 32)

pub write_vector_lem : (x : ℕ) → write_vector x ≡ x / 2 ^ 38 % 2 ^ 25
unfolding write_vector
write_vector_lem x = and_mask 25 (x / 2 ^ 38)

pub is_short_record_lem : (x : ℕ) → is_short_record x ≡ not (x % 2 == 0)
unfolding is_short_record
is_short_record_lem x = ap (λ (b : ℕ). not (b == 0)) (and_mask 1 x)

pub has_atomic_mask_lem : (x : ℕ) → has_atomic_mask x ≡ not (x / 2 ^ 63 % 2 == 0)
unfolding has_atomic_mask
has_atomic_mask_lem x = ground (arith, and_bit 63 x)

fields_of_sum :
    (rt rc wt wc a w : ℕ)
    → rt < 2 ^ 6
    → rc < 2 ^ 25
    → wt < 2 ^ 6
    → wc < 2 ^ 25
    → a < 2
    → w ≡ packed rt rc wt wc + a * 2 ^ 63
    → (w % 2 ≡ 1)
      × (w / 2 ^ 1 % 2 ^ 6 ≡ rt)
      × (w / 2 ^ 7 % 2 ^ 25 ≡ rc)
      × (w / 2 ^ 32 % 2 ^ 6 ≡ wt)
      × (w / 2 ^ 38 % 2 ^ 25 ≡ wc)
      × (w / 2 ^ 63 % 2 ≡ a)
fields_of_sum rt rc wt wc a w h1 h2 h3 h4 h5 e = omega arith

abbrev bit : Bool → ℕ
bit true = 1
bit false = 0

flagged-sum : (b : Bool) (w : ℕ) → flagged b w ≡ w + bit b * 2 ^ 63
flagged-sum true w = refl
flagged-sum false w = omega arith

-- Whatever flag and fields were packed, the fields no larger than their masks, each accessor gives
-- its own back, and the word is a short record.
pub accessors-packed :
    (rt rc wt wc : ℕ) (atomic : Bool)
    → rt ≤ thread_mask
    → rc ≤ read_mask
    → wt ≤ thread_mask
    → wc ≤ write_mask
    → let w = flagged atomic (encode_op rt rc wt wc) in
      (is_short_record w ≡ true)
      × (rd_thread_id w ≡ rt)
      × (read_vector w ≡ rc)
      × (wr_thread_id w ≡ wt)
      × (write_vector w ≡ wc)
      × (has_atomic_mask w ≡ atomic)
accessors-packed rt rc wt wc atomic h1 h2 h3 h4 =
    let w = flagged atomic (encode_op rt rc wt wc) in
    let sum : w ≡ packed rt rc wt wc + bit atomic * 2 ^ 63 =
      flagged-sum atomic (encode_op rt rc wt wc)
      ∙ ap (λ (x : ℕ). x + bit atomic * 2 ^ 63) (encode_op-packed rt rc wt wc h1 h2 h3 h4) in
    let (low, f1, f2, f3, f4, top) =
      fields_of_sum rt rc wt wc (bit atomic) w (omega arith) (omega arith) (omega arith)
        (omega arith) (bit_lt atomic) sum in
    (
      is_short_record_lem w ∙ ap (λ (b : ℕ). not (b == 0)) low,
      rd_thread_id_lem w ∙ f1,
      read_vector_lem w ∙ f2,
      wr_thread_id_lem w ∙ f3,
      write_vector_lem w ∙ f4,
      has_atomic_mask_lem w ∙ ap (λ (b : ℕ). not (b == 0)) top ∙ bit_set atomic,
    )
  where
    bit_lt : (b : Bool) → bit b < 2
    bit_lt true = omega arith
    bit_lt false = omega arith

    bit_set : (b : Bool) → not (bit b == 0) ≡ b
    bit_set true = refl
    bit_set false = refl
