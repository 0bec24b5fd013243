-- ===== src/HashTable/Entries.antt =====
-- The map that a table of hashtable.h keeps, before and after a bin is written.
use c11tester.Base.{
  ℕ, ◌<◌, ◌≡◌, ◌≢◌, ◌↔◌, ◌⊎◌, sym, ap, ◌∙◌, inl, inr, ◌==◌, Option, none, some, arith, Bool-cases,
  update,
}
use c11tester.HashTable.{HashListNode, HashTable}
use c11tester.HashTable.Hole.{Holds}
use c11tester.HashTable.Rehash.{fill-Holds}
use c11tester.HashTable.Refinement.{IsLoad, Models}

assign-Holds :
    (c : ℕ) (table : ℕ → HashListNode) (s : ℕ) (node : HashListNode) (key val : ℕ)
    → ((i : ℕ) → i < c → (table i).key ≡ node.key → s ≡ i)
    → s < c
    → (table s).key ≡ node.key
    → Holds c (update table s node) key val
      ↔ (((node.key ≢ key) × Holds c table key val) ⊎ ((node.key ≡ key) × (node.val ≡ val)))
assign-Holds c table s node key val only sc e = (
  λ (i, ic, k, v). elim (Bool-cases (s == i)) [
    | inl si ↦ inr (ground arith, ground arith)
    | inr si ↦
        let same : update table s node i ≡ table i = ground arith in
        let ki : (table i).key ≡ key = rw same at k in
        let ne : s ≢ i = ground arith in
        inl (λ nk. ne (only i ic (ki ∙ sym nk)), (i, ic, ki, rw same at v))
  ],
  λ h. elim h [
    | inl (nk, (i, ic, k, v)) ↦ elim (Bool-cases (s == i)) [
      | inl si ↦ absurd (nk (ground arith))
      | inr si ↦ (i, ic, ground arith, ground arith)
    ]
    | inr (k, v) ↦ (s, sc, ground arith, ground arith)
  ],
)

module _ (scaled hash : ℕ → ℕ) (load : IsLoad scaled) where
  -- The map with the entry of a bin that was empty.
  pub fresh-entries :
      {t : HashTable} {m : ℕ → Option ℕ} (h : Models scaled hash t m) (key val s : ℕ)
      → key ≢ 0
      → s < t.capacity
      → (t.table s).key ≡ 0
      → m key ≡ none
      → (k v : ℕ) → k ≢ 0
      → (update m key (some val) k ≡ some v)
        ↔ Holds t.capacity (update t.table s (record { key = key; val = val })) k v
  fresh-entries {t} {m} h key val s k0 sc z e k v k0' =
      let node : HashListNode = record { key = key; val = val } in
      let fill = fill-Holds t.capacity t.table s node k v sc z k0' in
      elim (Bool-cases (key == k)) [
        | inl same ↦
            let ke : key ≡ k = ground arith in
            rw same (
              λ e'. fill.1 (inr (ke, ground arith)),
              λ a. elim (fill.0 a) [
                | inl b ↦ let found = (h.entries k v k0').1 b in absurd (ground arith)
                | inr (_, e') ↦ ap some e'
              ],
            )
        | inr other ↦ rw other (
          λ e'. fill.1 (inl ((h.entries k v k0').0 e')),
          λ a. elim (fill.0 a) [
            | inl b ↦ (h.entries k v k0').1 b
            | inr (e', _) ↦ absurd (ground arith)
          ],
        )
      ]

  pub old-entries :
      {t : HashTable} {m : ℕ → Option ℕ} (h : Models scaled hash t m) (key val s : ℕ)
      → key ≢ 0
      → s < t.capacity
      → (t.table s).key ≡ key
      → (k v : ℕ) → k ≢ 0
      → (update m key (some val) k ≡ some v)
        ↔ Holds t.capacity (update t.table s (record { key = key; val = val })) k v
  old-entries {t} {m} h key val s k0 sc e k v k0' =
      let node : HashListNode = record { key = key; val = val } in
      let only : (i : ℕ) → i < t.capacity → (t.table i).key ≡ key → s ≡ i =
        λ i ic ki. h.valid.probed.once s i sc ic (λ z. k0 (sym e ∙ z)) (e ∙ sym ki) in
      let assign = assign-Holds t.capacity t.table s node k v only sc e in
      elim (Bool-cases (key == k)) [
        | inl same ↦ rw same (
          λ e'. assign.1 (inr (ground arith, ground arith)),
          λ a. elim (assign.0 a) [ inl (ne, _) ↦ absurd (ground arith) | inr (_, e') ↦ ap some e' ],
        )
        | inr other ↦ rw other (
          λ e'. assign.1 (inl (ground arith, (h.entries k v k0').0 e')),
          λ a. elim (assign.0 a) [
            | inl (_, b) ↦ (h.entries k v k0').1 b
            | inr (e', _) ↦ absurd (ground arith)
          ],
        )
      ]
