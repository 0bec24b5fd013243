-- ===== src/HashTable/Refinement.antt =====
-- What the table of hashtable.h promises: it keeps a finite map, whatever the hash function is.
use c11tester.Base.{
  ℕ, zero, suc, ◌+◌, ◌-◌, ◌*◌, ◌^◌, ◌≤◌, ◌≡◌, ◌≢◌, ◌↔◌, refl, ◌∙◌, inl, inr, bit_and, Bool, true,
  false, ◌==◌, if◌then◌else◌, Option, none, some, arith, Bool-cases, Option-cases,
}
use c11tester.HashTable.{HashTable, get, contains}
use c11tester.HashTable.Cycle.{Masks, pow-Masks, dist-lt}
use c11tester.HashTable.Occupied.{occupied, has_blank}
use c11tester.HashTable.Probes.{
  IsProbed, FirstStop, first_stop, get_from-stops, contains_from-stops,
}
use c11tester.HashTable.Filling.{absent}
use c11tester.HashTable.Hole.{Holds}

-- What the load factor has to leave: an empty bin after one more entry, and room for it when the
-- table doubles.
pub record IsLoad (scaled : ℕ → ℕ) : Type 0 where
  pub roomy : (c : ℕ) → 4 ≤ c → scaled c + 2 ≤ c
  pub grows : (c : ℕ) → 4 ≤ c → scaled c + 1 ≤ scaled (c * 2)

pub record IsValid (scaled hash : ℕ → ℕ) (t : HashTable) : Type 0 where
  pub bits : ℕ
  pub cap : t.capacity ≡ 2 ^ bits
  pub mask : t.capacitymask ≡ t.capacity - 1
  pub limit : t.threshold ≡ scaled t.capacity
  pub big : 4 ≤ t.capacity
  pub small : t.capacity ≤ 2 ^ 31
  pub probed : IsProbed t.capacity (λ key. bit_and (hash key) t.capacitymask) t.table
  pub room : occupied t.table t.capacity ≤ t.threshold + 1
  pub count : t.size ≡ occupied t.table t.capacity + elim t.zero [ none ↦ 0 | some v ↦ 1 ]

-- The table keeps the map `m`.
pub record Models (scaled hash : ℕ → ℕ) (t : HashTable) (m : ℕ → Option ℕ) : Type 0 where
  pub valid : IsValid scaled hash t
  pub entries : (key val : ℕ) → key ≢ 0 → (m key ≡ some val) ↔ Holds t.capacity t.table key val
  pub at_zero : t.zero ≡ m 0

abbrev pub value : Option ℕ → ℕ
value none = 0
value (some v) = v

abbrev pub is_some : Option ℕ → Bool
is_some none = false
is_some (some v) = true

module _ (scaled hash : ℕ → ℕ) (load : IsLoad scaled) where
  pub masks : {t : HashTable} → IsValid scaled hash t → Masks t.capacity t.capacitymask
  masks {t} v = pow-Masks t.capacity t.capacitymask v.bits v.cap v.mask

  pub stop_of :
      {t : HashTable} (v : IsValid scaled hash t) (key : ℕ)
      → (s : ℕ) × FirstStop t.capacity t.table (bit_and (hash key) t.capacitymask) key s
  stop_of {t} v key =
      let b =
        has_blank t.table t.capacity
          (omega (arith, v.room, v.limit, load.roomy t.capacity v.big)) in
      first_stop t.capacity t.table (bit_and (hash key) t.capacitymask) key
        ((masks v).low (hash key)) b.0 b.1 b.2

  -- What the bin of the first stop says of the map.
  pub stop_reads :
      {t : HashTable} {m : ℕ → Option ℕ} (h : Models scaled hash t m) (key s : ℕ)
      → key ≢ 0
      → FirstStop t.capacity t.table (bit_and (hash key) t.capacitymask) key s
      → m key ≡ (if (t.table s).key == 0 then none else some (t.table s).val)
  stop_reads {t} {m} h key s k0 first = elim (Bool-cases ((t.table s).key == 0)) [
    | inl z ↦ rw z (elim (Option-cases (m key)) [
      | inl e ↦ e
      | inr (v, e) ↦
          let (i, ic, k, _) = (h.entries key v k0).0 e in
          absurd (
            absent h.valid.probed s i key ((masks h.valid).low (hash key)) first (ground arith) k0
              ic k)
    ])
    | inr nz ↦ rw nz (
        (h.entries key (t.table s).val k0).1
          (s, first.within, elim first.stop [ inl z ↦ absurd (ground arith) | inr e ↦ e ], refl))
  ]

  -- `get` returns what the map has, and the null pointer for a key that it has not; the search
  -- ends.
  pub get-value :
      {t : HashTable} {m : ℕ → Option ℕ} (h : Models scaled hash t m) (key : ℕ)
      → get hash t key ≡ some (value (m key))
  unfolding get
  get-value {t} {m} h zero =
      rw (← h.at_zero) (elim (Option-cases t.zero) [ inl e ↦ rw e | inr (v, e) ↦ rw e ])
  get-value {t} {m} h (suc k) =
      let (s, first) = stop_of h.valid (suc k) in
      let home = bit_and (hash (suc k)) t.capacitymask in
      let ms = masks h.valid in
      let hc = ms.low (hash (suc k)) in
      let run =
        get_from-stops hc first t.capacitymask ms t.capacity home hc (ground arith)
          (omega (arith, dist-lt t.capacity home s hc first.within)) (λ e. absurd (ground arith))
          (h.valid.probed.empty s) in
      run
      ∙ ground
          (arith, stop_reads h (suc k) s (λ e. absurd (ground arith)) first, h.valid.probed.empty s)

  -- `contains` says whether the map has the key.
  pub contains-is_some :
      {t : HashTable} {m : ℕ → Option ℕ} (h : Models scaled hash t m) (key : ℕ)
      → contains hash t key ≡ some (is_some (m key))
  unfolding contains
  contains-is_some {t} {m} h zero =
      rw (← h.at_zero) (elim (Option-cases t.zero) [ inl e ↦ rw e | inr (v, e) ↦ rw e ])
  contains-is_some {t} {m} h (suc k) =
      let (s, first) = stop_of h.valid (suc k) in
      let home = bit_and (hash (suc k)) t.capacitymask in
      let ms = masks h.valid in
      let hc = ms.low (hash (suc k)) in
      let run =
        contains_from-stops hc first t.capacitymask ms t.capacity (hash (suc k)) home refl hc
          (ground arith) (omega (arith, dist-lt t.capacity home s hc first.within))
          (h.valid.probed.empty s) in
      run ∙ ground (arith, stop_reads h (suc k) s (λ e. absurd (ground arith)) first)
