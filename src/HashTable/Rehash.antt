-- ===== src/HashTable/Rehash.antt =====
-- How `resize` of hashtable.h fills the new table from the bins of the old one.
use c11tester.Base.{
  ℕ, zero, suc, ◌+◌, ◌<◌, ◌≤◌, ◌≡◌, ◌≢◌, ◌↔◌, ◌⊎◌, refl, sym, ◌∙◌, inl, inr, true, false, ◌==◌,
  some, arith, Bool-cases, update,
}
use c11tester.HashTable.{HashListNode, blank, find_blank, rehash}
use c11tester.HashTable.Cycle.{Masks, dist-lt}
use c11tester.HashTable.Occupied.{
  occupied, occupied-update, occupied-blank, occupied-zero, occupied-suc, occupied-le, has_blank,
}
use c11tester.HashTable.Probes.{IsProbed, first_stop, find_blank-stops}
use c11tester.HashTable.Filling.{insert-IsProbed}
use c11tester.HashTable.Hole.{Holds}
use c11tester.HashTable.Closing.{home}

pub fill-Holds :
    (c : ℕ) (table : ℕ → HashListNode) (s : ℕ) (node : HashListNode) (key val : ℕ)
    → s < c
    → (table s).key ≡ 0
    → key ≢ 0
    → Holds c (update table s node) key val
      ↔ (Holds c table key val ⊎ ((node.key ≡ key) × (node.val ≡ val)))
fill-Holds c table s node key val sc z k0 = (
  λ (i, ic, k, v). elim (Bool-cases (s == i)) [
    | inl e ↦ inr (ground arith, ground arith)
    | inr e ↦ inl (i, ic, ground arith, ground arith)
  ],
  λ h. elim h [
    | inl (i, ic, k, v) ↦ elim (Bool-cases (s == i)) [
      | inl e ↦ absurd (k0 (ground arith))
      | inr e ↦ (i, ic, ground arith, ground arith)
    ]
    | inr (k, v) ↦ (s, sc, ground arith, ground arith)
  ],
)

Holds-suc :
    (n : ℕ) (table : ℕ → HashListNode) (key val : ℕ)
    → Holds (n + 1) table key val
      ↔ (Holds n table key val ⊎ (((table n).key ≡ key) × ((table n).val ≡ val)))
Holds-suc n table key val = (
  λ (i, ic, k, v). elim (Bool-cases (i == n)) [
    | inl e ↦ inr (ground arith, ground arith)
    | inr e ↦ inl (i, ground arith, k, v)
  ],
  λ h. elim h [ inl (i, ic, k, v) ↦ (i, omega arith, k, v) | inr (k, v) ↦ (n, omega arith, k, v) ],
)

pub blank-IsProbed : (c : ℕ) (home : ℕ → ℕ) → IsProbed c home (λ _. blank)
blank-IsProbed c home = record {
  reach = λ i j ic jc n. absurd (n refl);
  once = λ i j ic jc n. absurd (n refl);
  empty = λ i e. refl;
}

-- The new table has the entries of the first `n` bins.
pub record IsCopied (c : ℕ) (home : ℕ → ℕ) (old : ℕ → HashListNode) (n : ℕ)
    (table : ℕ → HashListNode) : Type 0 where
  pub probed : IsProbed c home table
  pub same : (key val : ℕ) → key ≢ 0 → Holds c table key val ↔ Holds n old key val
  pub count : occupied table c ≡ occupied old n

module _ (hash : ℕ → ℕ) (left : ℕ) (old : ℕ → HashListNode) (n c' mask : ℕ)
    (table : ℕ → HashListNode) where
  rehash-skip :
      ((old n).key == 0) ≡ true
      → rehash hash (suc left) old n c' mask table ≡ rehash hash left old (n + 1) c' mask table
  unfolding rehash
  rehash-skip z = ground arith

  rehash-copy :
      (s : ℕ)
      → ((old n).key == 0) ≡ false
      → find_blank c' table mask (hash (old n).key) ≡ some s
      → rehash hash (suc left) old n c' mask table
        ≡ rehash hash left old (n + 1) c' mask (update table s (old n))
  unfolding rehash
  rehash-copy s nz e = ground arith

rehash-zero :
    (hash : ℕ → ℕ) (old : ℕ → HashListNode) (n c' mask : ℕ) (table : ℕ → HashListNode)
    → rehash hash zero old n c' mask table ≡ some table
unfolding rehash
rehash-zero hash old n c' mask table = refl

module _ (c c' mask : ℕ) (old : ℕ → HashListNode)
    (apart : (i j : ℕ) → i < c → j < c → (old i).key ≢ 0 → (old i).key ≡ (old j).key → i ≡ j)
    (masks : Masks c' mask) (room : c ≤ c') (hash : ℕ → ℕ) where
  skip_bin :
      (n : ℕ) (table : ℕ → HashListNode)
      → (old n).key ≡ 0
      → IsCopied c' (home c' mask masks hash) old n table
      → IsCopied c' (home c' mask masks hash) old (n + 1) table
  skip_bin n table z h = record {
    probed = h.probed;
    same = λ k v k0. (
      λ a. (Holds-suc n old k v).1 (inl ((h.same k v k0).0 a)),
      λ a. elim ((Holds-suc n old k v).0 a) [
        | inl b ↦ (h.same k v k0).1 b
        | inr (e, _) ↦ absurd (k0 (sym e ∙ z))
      ],
    );
    count = ground (arith, h.count, occupied-suc old n);
  }

  copy_bin :
      (n : ℕ) (table : ℕ → HashListNode)
      → n < c
      → (old n).key ≢ 0
      → IsCopied c' (home c' mask masks hash) old n table
      → (s : ℕ) × (find_blank c' table mask (hash (old n).key) ≡ some s)
        × IsCopied c' (home c' mask masks hash) old (n + 1) (update table s (old n))
  copy_bin n table nc k0 h =
      let node = old n in
      let at = home c' mask masks hash node.key in
      let atc : at < c' = masks.low (hash node.key) in
      let b = has_blank table c' (omega (arith, h.count, occupied-le old n, room, nc)) in
      let (s, first) = first_stop c' table at node.key atc b.0 b.1 b.2 in
      let z : (table s).key ≡ 0 = elim first.stop [
        | inl z ↦ z
        | inr e ↦
            let (i, ic, k, v) = (h.same node.key (table s).val k0).0 (s, first.within, e, refl) in
            absurd (
              let same = apart n i nc (omega (arith, ic, nc)) k0 (sym k) in omega (arith, ic, same))
      ] in
      (
        s,
        find_blank-stops atc first mask masks c' (hash node.key) at refl atc (ground arith)
            (omega (arith, dist-lt c' at s atc first.within)) z,
        record {
          probed = insert-IsProbed h.probed s node atc first z k0;
          same = λ k v k0'. (
            λ a. elim ((fill-Holds c' table s node k v first.within z k0').0 a) [
              | inl a' ↦ (Holds-suc n old k v).1 (inl ((h.same k v k0').0 a'))
              | inr e ↦ (Holds-suc n old k v).1 (inr e)
            ],
            λ a. elim ((Holds-suc n old k v).0 a) [
              | inl a' ↦
                  (fill-Holds c' table s node k v first.within z k0').1
                    (inl ((h.same k v k0').1 a'))
              | inr e ↦ (fill-Holds c' table s node k v first.within z k0').1 (inr e)
            ],
          );
          count =
              ground
                (arith, h.count, occupied-suc old n, occupied-update table c' s node first.within);
        },
      )

  rehash-IsCopied :
      (left n : ℕ) (table : ℕ → HashListNode)
      → n + left ≡ c
      → IsCopied c' (home c' mask masks hash) old n table
      → (after : ℕ → HashListNode) × (rehash hash left old n c' mask table ≡ some after)
        × IsCopied c' (home c' mask masks hash) old c after
  rehash-IsCopied zero n table e h =
      let nc : n ≡ c = omega arith in (table, rehash-zero hash old n c' mask table, rw nc at h)
  rehash-IsCopied (suc left) n table e h = elim (Bool-cases ((old n).key == 0)) [
    | inl z ↦
        let rest =
          rehash-IsCopied left (n + 1) table (omega arith) (skip_bin n table (ground arith) h) in
        (rest.0, rehash-skip hash left old n c' mask table z ∙ rest.1, rest.2)
    | inr nz ↦
        let one = copy_bin n table (omega arith) (ground arith) h in
        let rest = rehash-IsCopied left (n + 1) (update table one.0 (old n)) (omega arith) one.2 in
        (rest.0, rehash-copy hash left old n c' mask table one.0 nz one.1 ∙ rest.1, rest.2)
  ]

  blank-IsCopied : IsCopied c' (home c' mask masks hash) old 0 (λ _. blank)
  blank-IsCopied = record {
    probed = blank-IsProbed c' (home c' mask masks hash);
    same = λ k v k0. (λ (i, ic, e, _). absurd (k0 (sym e)), λ (i, ic, _, _). absurd (omega arith));
    count = occupied-blank c' ∙ sym (occupied-zero old);
  }

  -- The rehashed table has the entries of the old one, and can be searched.
  pub rehash-copies :
      (after : ℕ → HashListNode) × (rehash hash c old 0 c' mask (λ _. blank) ≡ some after)
      × IsCopied c' (home c' mask masks hash) old c after
  rehash-copies = rehash-IsCopied c 0 (λ _. blank) (omega arith) blank-IsCopied
