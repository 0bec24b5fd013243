-- ===== src/HashTable/Removing.antt =====
-- `remove` and `reset` of hashtable.h, and the table that the constructor makes.
use c11tester.Base.{
  ℕ, zero, suc, ◌+◌, ◌-◌, ◌%◌, ◌^◌, ◌<◌, ◌≤◌, ◌≡◌, ◌≢◌, ◌↔◌, refl, sym, ◌∙◌, inl, inr, bit_and,
  ◌==◌, Option, none, some, arith, Bool-cases, Option-cases, update,
}
use c11tester.HashTable.{HashListNode, HashTable, blank, remove, reset, new}
use c11tester.HashTable.Cycle.{dist-lt}
use c11tester.HashTable.Occupied.{occupied, occupied-update, occupied-blank, occupied-le, has_blank}
use c11tester.HashTable.Probes.{remove_from-stops}
use c11tester.HashTable.Hole.{Holds}
use c11tester.HashTable.Closing.{IsRearranged, close-again}
use c11tester.HashTable.Rehash.{blank-IsProbed}
use c11tester.HashTable.Refinement.{IsLoad, IsValid, Models, masks, stop_of, stop_reads, value}

clear-Holds :
    (c : ℕ) (table : ℕ → HashListNode) (s key val : ℕ)
    → ((i : ℕ) → i < c → (table i).key ≡ (table s).key → s ≡ i)
    → key ≢ 0
    → Holds c (update table s blank) key val ↔ (((table s).key ≢ key) × Holds c table key val)
clear-Holds c table s key val only k0 = (
  λ (i, ic, k, v). elim (Bool-cases (s == i)) [
    | inl si ↦ absurd (k0 (ground arith))
    | inr si ↦
        let same : update table s blank i ≡ table i = ground arith in
        let ki : (table i).key ≡ key = rw same at k in
        let ne : s ≢ i = ground arith in
        (λ sk. ne (only i ic (ki ∙ sym sk)), (i, ic, ki, rw same at v))
  ],
  λ (nk, (i, ic, k, v)). elim (Bool-cases (s == i)) [
    | inl si ↦ absurd (nk (ground arith))
    | inr si ↦ (i, ic, ground arith, ground arith)
  ],
)

module _ (scaled hash : ℕ → ℕ) (load : IsLoad scaled) where
  cleared-entries :
      {t : HashTable} {m : ℕ → Option ℕ} (h : Models scaled hash t m) (key s : ℕ)
      → key ≢ 0
      → s < t.capacity
      → (t.table s).key ≡ key
      → (k v : ℕ) → k ≢ 0
      → (update m key none k ≡ some v) ↔ Holds t.capacity (update t.table s blank) k v
  cleared-entries {t} {m} h key s k0 sc e k v k0' =
      let only : (i : ℕ) → i < t.capacity → (t.table i).key ≡ (t.table s).key → s ≡ i =
        λ i ic ki. h.valid.probed.once s i sc ic (λ z. k0 (sym e ∙ z)) (sym ki) in
      let clear = clear-Holds t.capacity t.table s k v only k0' in
      elim (Bool-cases (key == k)) [
        | inl same ↦
            rw same (λ e'. absurd (ground arith), λ a. absurd ((clear.0 a).0 (e ∙ ground arith)))
        | inr other ↦ rw other (
          λ e'. clear.1 (λ e''. absurd (ground arith), (h.entries k v k0').0 e'),
          λ a. (h.entries k v k0').1 (clear.0 a).1,
        )
      ]

  absent-entries :
      {t : HashTable} {m : ℕ → Option ℕ} (h : Models scaled hash t m) (key : ℕ)
      → m key ≡ none
      → Models scaled hash t (update m key none)
  absent-entries {t} {m} h key e = record {
    valid = h.valid;
    entries = λ k v k0'. elim (Bool-cases (key == k)) [
      | inl same ↦
          let ke : key ≡ k = ground arith in
          rw same (
            λ e'. absurd (ground arith),
            λ a. let found = (h.entries k v k0').1 a in absurd (ground arith),
          )
      | inr other ↦ rw other (h.entries k v k0')
    ];
    at_zero = ground (arith, h.at_zero, e);
  }

  removed-Models :
      {t : HashTable} {m : ℕ → Option ℕ} (h : Models scaled hash t m) (key s : ℕ)
      → key ≢ 0
      → s < t.capacity
      → (t.table s).key ≡ key
      → {after : ℕ → HashListNode}
      → IsRearranged t.capacity
          (λ k. bit_and (hash k) t.capacitymask)
          (update t.table s blank)
          after
      → Models scaled hash
          (record t { table = after; size = (t.size + 2 ^ 32 - 1) % 2 ^ 32 })
          (update m key none)
  removed-Models {t} {m} h key s k0 sc e {after} r =
      let v = h.valid in
      let counted : occupied (update t.table s blank) t.capacity + 1 ≡ occupied t.table t.capacity =
        ground (arith, occupied-update t.table t.capacity s blank sc) in
      record {
        valid = record {
          bits = v.bits;
          cap = v.cap;
          mask = v.mask;
          limit = v.limit;
          big = v.big;
          small = v.small;
          probed = r.probed;
          room = omega (arith, r.count, counted, v.room);
          count = ground (arith, r.count, counted, v.count, occupied-le t.table t.capacity);
        };
        entries = λ k w k0'.
            let a = cleared-entries h key s k0 sc e k w k0' in
            let b = r.same k w k0' in (λ e'. b.1 (a.0 e'), λ e'. a.1 (b.0 e'));
        at_zero = ground (arith, h.at_zero);
      }

  -- `remove` ends; it returns what the map has for the key, the null pointer where it has nothing,
  -- and the table then keeps the map without the key.
  pub remove-Models :
      {t : HashTable} {m : ℕ → Option ℕ} (h : Models scaled hash t m) (key : ℕ)
      → (t' : HashTable) × (remove hash t key ≡ some (value (m key), t'))
        × Models scaled hash t' (update m key none)
  unfolding remove
  remove-Models {t} {m} h zero = elim (Option-cases t.zero) [
    | inl e ↦ let z : m 0 ≡ none = sym h.at_zero ∙ e in (t, ground (arith, z), absent-entries h 0 z)
    | inr (w, e) ↦
        let v = h.valid in
        let z : m 0 ≡ some w = sym h.at_zero ∙ e in
        (
          record t { zero = none; size = (t.size + 2 ^ 32 - 1) % 2 ^ 32 },
          ground (arith, z),
          record {
            valid = record {
              bits = v.bits;
              cap = v.cap;
              mask = v.mask;
              limit = v.limit;
              big = v.big;
              small = v.small;
              probed = v.probed;
              room = v.room;
              count = ground (arith, v.count, occupied-le t.table t.capacity);
            };
            entries = λ k u k0. ground (arith, h.entries k u k0);
            at_zero = refl;
          },
        )
  ]
  remove-Models {t} {m} h (suc k) =
      let v = h.valid in
      let key : ℕ = suc k in
      let k0 : key ≢ 0 = λ e. absurd (ground arith) in
      let (s, first) = stop_of scaled hash load v key in
      let home = bit_and (hash key) t.capacitymask in
      let ms = masks scaled hash load v in
      let hc = ms.low (hash key) in
      let run =
        remove_from-stops hc first t.capacitymask ms t.capacity (hash key) home refl hc
          (ground arith) (omega (arith, dist-lt t.capacity home s hc first.within))
          (v.probed.empty s) in
      let reads = stop_reads scaled hash load h key s k0 first in
      elim (Bool-cases ((t.table s).key == 0)) [
        | inl z ↦
            let none' : m key ≡ none = ground (arith, reads) in
            (t, ground (arith, run, none'), absent-entries h key none')
        | inr nz ↦
            let e : (t.table s).key ≡ key = elim first.stop [
              | inl z ↦ absurd (ground arith)
              | inr e ↦ e
            ] in
            let b =
              has_blank t.table t.capacity
                (omega (arith, v.room, v.limit, load.roomy t.capacity v.big)) in
            let again =
              close-again t.capacity t.capacitymask ms hash t.table s b.0 v.probed first.within b.1
                (λ z. k0 (sym e ∙ z)) b.2 in
            (
              record t { table = again.0; size = (t.size + 2 ^ 32 - 1) % 2 ^ 32 },
              ground (arith, run, reads, again.1),
              removed-Models h key s k0 first.within e again.2,
            )
      ]

  -- The table of the constructor, with a power of two for its number of bins, keeps the empty map,
  -- and `reset` brings any table back to that.
  pub new-Models :
      (c k : ℕ) → c ≡ 2 ^ k → 4 ≤ c → c ≤ 2 ^ 31 → Models scaled hash (new scaled c) (λ _. none)
  unfolding new
  new-Models c k e le ge = record {
    valid = record {
      bits = k;
      cap = e;
      mask = refl;
      limit = refl;
      big = le;
      small = ge;
      probed = blank-IsProbed c (λ key. bit_and (hash key) (c - 1));
      room = omega (arith, occupied-blank c);
      count = omega (arith, occupied-blank c);
    };
    entries = λ k w k0. (λ e'. absurd (ground arith), λ (i, ic, e', _). absurd (k0 (sym e')));
    at_zero = refl;
  }

  pub reset-Models :
      {t : HashTable} → IsValid scaled hash t → Models scaled hash (reset t) (λ _. none)
  unfolding reset
  reset-Models {t} v = record {
    valid = record {
      bits = v.bits;
      cap = v.cap;
      mask = v.mask;
      limit = v.limit;
      big = v.big;
      small = v.small;
      probed = blank-IsProbed t.capacity (λ key. bit_and (hash key) t.capacitymask);
      room = omega (arith, occupied-blank t.capacity);
      count = omega (arith, occupied-blank t.capacity);
    };
    entries = λ k w k0. (λ e. absurd (ground arith), λ (i, ic, e, _). absurd (k0 (sym e)));
    at_zero = refl;
  }
