-- ===== src/HashTable/Filling.antt =====
-- Entries that come into the bins of hashtable.h, and the searches for the others.
use c11tester.Base.{ℕ, ◌<◌, ◌≡◌, ◌≢◌, sym, ap, ◌∙◌, inl, inr, ◌==◌, leb, arith, Bool-cases, update}
use c11tester.HashTable.{HashListNode}
use c11tester.HashTable.Cycle.{dist}
use c11tester.HashTable.Probes.{IsProbed, FirstStop, at_or_before}

module _ {c : ℕ} {home : ℕ → ℕ} {table : ℕ → HashListNode} (p : IsProbed c home table) where
  -- A search that stops at an empty bin has shown that no bin holds the key.
  pub absent :
      (s i : ℕ) (key : ℕ)
      → home key < c
      → FirstStop c table (home key) key s
      → (table s).key ≡ 0
      → key ≢ 0
      → i < c
      → (table i).key ≢ key
  absent s i key hc first z k0 ic e =
      elim (Bool-cases (leb (dist c (home key) i) (dist c (home key) s))) [
        | inl le ↦ elim (at_or_before hc first i ic (ground arith)) [
          | inl same ↦ k0 (sym e ∙ ap (λ j. (table j).key) same ∙ z)
          | inr lt ↦ (first.passed i ic lt).1 e
        ]
        | inr gt ↦ p.reach i s ic first.within (λ z'. k0 (sym e ∙ z')) (rw e (ground arith)) z
      ]

  -- A fresh entry goes into the first empty bin.
  pub insert-IsProbed :
      (s : ℕ) (node : HashListNode)
      → home node.key < c
      → FirstStop c table (home node.key) node.key s
      → (table s).key ≡ 0
      → node.key ≢ 0
      → IsProbed c home (update table s node)
  insert-IsProbed s node hc first z k0 = record {
    reach = λ i j ic jc. elim (Bool-cases (s == i)) [
      | inl e ↦ rw e (λ n lt. elim (Bool-cases (s == j)) [
        | inl e' ↦ rw e' k0
        | inr e' ↦ rw e' (first.passed j jc (ground arith)).0
      ])
      | inr e ↦ rw e (λ n lt. elim (Bool-cases (s == j)) [
        | inl e' ↦ rw e' k0
        | inr e' ↦ rw e' (p.reach i j ic jc n lt)
      ])
    ];
    once = λ i j ic jc. elim (Bool-cases (s == i)) [
      | inl e ↦ rw e (elim (Bool-cases (s == j)) [
        | inl e' ↦ λ n k. ground arith
        | inr e' ↦ rw e' (λ n k. absurd (absent s j node.key hc first z k0 jc (sym k)))
      ])
      | inr e ↦ rw e (elim (Bool-cases (s == j)) [
        | inl e' ↦ rw e' (λ n k. absurd (absent s i node.key hc first z k0 ic k))
        | inr e' ↦ rw e' (λ n k. p.once i j ic jc n k)
      ])
    ];
    empty = λ i. elim (Bool-cases (s == i)) [
      | inl e ↦ rw e (λ k. absurd (k0 k))
      | inr e ↦ rw e (p.empty i)
    ];
  }

  -- A new value for a key changes no search.
  pub assign-IsProbed :
      (s : ℕ) (node : HashListNode)
      → (table s).key ≢ 0
      → (table s).key ≡ node.key
      → IsProbed c home (update table s node)
  assign-IsProbed s node n e =
      let same : (i : ℕ) → (update table s node i).key ≡ (table i).key = λ i. ground arith in
      record {
        reach = λ i j ic jc. rw (same i, same j) (p.reach i j ic jc);
        once = λ i j ic jc. rw (same i, same j) (p.once i j ic jc);
        empty = λ i. ground (arith, p.empty i);
      }
