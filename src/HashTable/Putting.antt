-- ===== src/HashTable/Putting.antt =====
-- `put` of hashtable.h, with the doubling of a table that is full enough.
use c11tester.Base.{
  ℕ, zero, suc, ◌+◌, ◌-◌, ◌*◌, ◌%◌, ◌^◌, ◌<◌, ◌≤◌, ◌≡◌, ◌≢◌, refl, sym, ap, ◌∙◌, inl, inr, bit_and,
  ◌==◌, ltb, Option, none, some, arith, Bool-cases, update,
}
use c11tester.HashTable.{HashListNode, HashTable, put, put_in, resize}
use c11tester.HashTable.Cycle.{Masks, pow-Masks, dist-lt}
use c11tester.HashTable.Occupied.{occupied, occupied-update, occupied-le}
use c11tester.HashTable.Probes.{FirstStop, put_from-stops}
use c11tester.HashTable.Filling.{insert-IsProbed, assign-IsProbed}
use c11tester.HashTable.Rehash.{rehash-copies}
use c11tester.HashTable.Entries.{fresh-entries, old-entries}
use c11tester.HashTable.Refinement.{IsLoad, IsValid, Models, masks, stop_of, stop_reads}

module _ (scaled hash : ℕ → ℕ) (load : IsLoad scaled) where
  fresh-IsValid :
      {t : HashTable} (v : IsValid scaled hash t) (s : ℕ) (node : HashListNode)
      → FirstStop t.capacity t.table (bit_and (hash node.key) t.capacitymask) node.key s
      → (t.table s).key ≡ 0
      → node.key ≢ 0
      → occupied t.table t.capacity ≤ t.threshold
      → IsValid scaled hash
          (record t { table = update t.table s node; size = (t.size + 1) % 2 ^ 32 })
  fresh-IsValid {t} v s node first z k0 room =
      let counted = occupied-update t.table t.capacity s node first.within in
      let filled : occupied (update t.table s node) t.capacity ≡ occupied t.table t.capacity + 1 =
        ground (arith, counted) in
      record {
        bits = v.bits;
        cap = v.cap;
        mask = v.mask;
        limit = v.limit;
        big = v.big;
        small = v.small;
        probed =
            insert-IsProbed v.probed s node ((masks scaled hash load v).low (hash node.key)) first z
              k0;
        room = omega (arith, filled, room);
        count = ground (arith, filled, v.count, v.small, occupied-le t.table t.capacity);
      }

  old-IsValid :
      {t : HashTable} (v : IsValid scaled hash t) (s : ℕ) (node : HashListNode)
      → s < t.capacity
      → (t.table s).key ≡ node.key
      → node.key ≢ 0
      → IsValid scaled hash (record t { table = update t.table s node })
  old-IsValid {t} v s node sc e k0 =
      let counted : occupied (update t.table s node) t.capacity ≡ occupied t.table t.capacity =
        ground (arith, occupied-update t.table t.capacity s node sc) in
      record {
        bits = v.bits;
        cap = v.cap;
        mask = v.mask;
        limit = v.limit;
        big = v.big;
        small = v.small;
        probed = assign-IsProbed v.probed s node (λ z. k0 (sym e ∙ z)) e;
        room = omega (arith, counted, v.room);
        count = v.count ∙ ap (λ n. n + elim t.zero [ none ↦ 0 | some v ↦ 1 ]) (sym counted);
      }

  -- A table with room takes the entry.
  put_in-Models :
      {t : HashTable} {m : ℕ → Option ℕ} (h : Models scaled hash t m) (key val : ℕ)
      → key ≢ 0
      → occupied t.table t.capacity ≤ t.threshold
      → (t' : HashTable) × (put_in hash t key val ≡ some t')
        × Models scaled hash t' (update m key (some val))
  unfolding put_in
  put_in-Models {t} {m} h key val k0 room =
      let v = h.valid in
      let (s, first) = stop_of scaled hash load v key in
      let home = bit_and (hash key) t.capacitymask in
      let ms = masks scaled hash load v in
      let hc = ms.low (hash key) in
      let run =
        put_from-stops hc first t.capacitymask ms t.capacity home hc (ground arith)
          (omega (arith, dist-lt t.capacity home s hc first.within)) k0 (v.probed.empty s) in
      let reads = stop_reads scaled hash load h key s k0 first in
      let node : HashListNode = record { key = key; val = val } in
      elim (Bool-cases ((t.table s).key == 0)) [
        | inl z ↦
            let z' : (t.table s).key ≡ 0 = ground arith in
            (
              record t { table = update t.table s node; size = (t.size + 1) % 2 ^ 32 },
              ground (arith, run),
              record {
                valid = fresh-IsValid v s node first z' k0 room;
                entries =
                    fresh-entries scaled hash load h key val s k0 first.within z'
                      (ground (arith, reads));
                at_zero = ground (arith, h.at_zero);
              },
            )
        | inr nz ↦
            let e : (t.table s).key ≡ key = elim first.stop [
              | inl z ↦ absurd (ground arith)
              | inr e ↦ e
            ] in
            (
              record t { table = update t.table s node },
              ground (arith, run),
              record {
                valid = old-IsValid v s node first.within e k0;
                entries = old-entries scaled hash load h key val s k0 first.within e;
                at_zero = ground (arith, h.at_zero);
              },
            )
      ]

  double-bits : (c k : ℕ) → c ≡ 2 ^ k → c * 2 ≡ 2 ^ suc k
  double-bits c k e = omega arith

  -- The doubled table keeps the same map, with room for one more entry.
  resize-Models :
      {t : HashTable} {m : ℕ → Option ℕ} (h : Models scaled hash t m)
      → t.capacity ≤ 2 ^ 30
      → (t' : HashTable) × (resize scaled hash t (t.capacity * 2 % 2 ^ 32) ≡ some t')
        × Models scaled hash t' m
        × (occupied t'.table t'.capacity ≤ t'.threshold)
        × (t'.capacity ≡ t.capacity * 2)
  unfolding resize
  resize-Models {t} {m} h small =
      let v = h.valid in
      let c' = t.capacity * 2 in
      let wrap : t.capacity * 2 % 2 ^ 32 ≡ c' = omega arith in
      let ms : Masks c' (c' - 1) =
        pow-Masks c' (c' - 1) (suc v.bits) (double-bits t.capacity v.bits v.cap) refl in
      let copies =
        rehash-copies t.capacity c' (c' - 1) t.table v.probed.once ms (omega arith) hash in
      let copied = copies.2 in
      let room : occupied copies.0 c' ≤ scaled c' =
        omega (arith, copied.count, v.room, v.limit, load.grows t.capacity v.big) in
      (
        record t { table = copies.0; capacity = c'; capacitymask = c' - 1; threshold = scaled c' },
        rw wrap (ground (arith, copies.1)),
        record {
          valid = record {
            bits = suc v.bits;
            cap = double-bits t.capacity v.bits v.cap;
            mask = refl;
            limit = refl;
            big = omega (arith, v.big);
            small = omega (arith, small);
            probed = copied.probed;
            room = omega (arith, room);
            count = rw copied.count v.count;
          };
          entries = λ k w k0.
              let a = h.entries k w k0 in
              let b = copied.same k w k0 in (λ e. b.1 (a.0 e), λ e. a.1 (b.0 e));
          at_zero = h.at_zero;
        },
        room,
        refl,
      )

  -- `put` ends and does not exit, on a table of at most 2 ^ 30 bins; the table then keeps the map
  -- with the entry in the place of the key's old one, if it had one.
  pub put-Models :
      {t : HashTable} {m : ℕ → Option ℕ} (h : Models scaled hash t m) (key val : ℕ)
      → t.capacity ≤ 2 ^ 30
      → (t' : HashTable) × (put scaled hash t key val ≡ some t')
        × Models scaled hash t' (update m key (some val))
  unfolding put
  put-Models {t} {m} h zero val small =
      let v = h.valid in
      (
        record t {
          zero = some val;
          size = elim t.zero [ none ↦ (t.size + 1) % 2 ^ 32 | some v ↦ t.size ];
        },
        refl,
        record {
          valid = record {
            bits = v.bits;
            cap = v.cap;
            mask = v.mask;
            limit = v.limit;
            big = v.big;
            small = v.small;
            probed = v.probed;
            room = v.room;
            count = ground (arith, v.count, occupied-le t.table t.capacity);
          };
          entries = λ k w k0. ground (arith, h.entries k w k0);
          at_zero = refl;
        },
      )
  put-Models {t} {m} h (suc k) val small = elim (Bool-cases (ltb t.threshold t.size)) [
    | inl crowded ↦
        let r = resize-Models h small in
        let p = put_in-Models r.2 (suc k) val (λ e. absurd (ground arith)) r.3 in
        (p.0, ground (arith, r.1, p.1), p.2)
    | inr roomy ↦
        let p =
          put_in-Models h (suc k) val (λ e. absurd (ground arith))
            (ground (arith, h.valid.count)) in
        (p.0, ground (arith, p.1), p.2)
  ]
