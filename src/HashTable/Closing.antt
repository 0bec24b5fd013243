-- ===== src/HashTable/Closing.antt =====
-- How `remove` of hashtable.h ends: the bins are contiguous again.
use c11tester.Base.{
  ℕ, zero, suc, ◌<◌, ◌≤◌, ◌≡◌, ◌≢◌, ◌↔◌, refl, sym, ap, ◌∙◌, inl, inr, bit_and, ◌==◌, some, arith,
  Bool-cases, update,
}
use c11tester.HashTable.{HashListNode, blank, stays, close}
use c11tester.HashTable.Cycle.{Masks, succ, dist, succ-lt}
use c11tester.HashTable.Occupied.{occupied, occupied-update}
use c11tester.HashTable.Probes.{IsProbed}
use c11tester.HashTable.Hole.{
  Holds, IsHoled, shifted, old_bin, old_bin-lt, origin, nearer, dist_zero, closed, checked_next,
  moved_next,
}

shifted-Holds :
    (c : ℕ) (table : ℕ → HashListNode) (x y key val : ℕ)
    → x < c
    → y < c
    → x ≢ y
    → (table x).key ≡ 0
    → key ≢ 0
    → Holds c (shifted table x y) key val ↔ Holds c table key val
shifted-Holds c table x y key val xc yc ne hole k0 = (
  λ (i, ic, k, v). elim (Bool-cases (i == y)) [
    | inl e ↦ absurd (k0 (ground arith))
    | inr e ↦
        let o = origin table x y i (ground arith) in
        (old_bin x y i, old_bin-lt c x y i yc ic, rw (← o) k, rw (← o) v)
  ],
  λ (i, ic, k, v). elim (Bool-cases (i == y)) [
    | inl e ↦ (x, xc, ground arith, ground arith)
    | inr e ↦ elim (Bool-cases (i == x)) [
      | inl e' ↦ absurd (k0 (ground arith))
      | inr e' ↦ (i, ic, ground arith, ground arith)
    ]
  ],
)

shifted-occupied :
    (c : ℕ) (table : ℕ → HashListNode) (x y : ℕ)
    → x < c
    → y < c
    → x ≢ y
    → (table x).key ≡ 0
    → occupied (shifted table x y) c ≡ occupied table c
shifted-occupied c table x y xc yc ne hole = ground (
  arith,
  occupied-update (update table x (table y)) c y blank,
  occupied-update table c x (table y),
)

-- A table that can be searched, with the entries of another.
pub record IsRearranged (c : ℕ) (home : ℕ → ℕ) (before after : ℕ → HashListNode) : Type 0 where
  pub probed : IsProbed c home after
  pub same : (key val : ℕ) → key ≢ 0 → Holds c after key val ↔ Holds c before key val
  pub count : occupied after c ≡ occupied before c

module _ (c mask : ℕ) (masks : Masks c mask) (hash : ℕ → ℕ) where
  abbrev pub home : ℕ → ℕ
  home key = bit_and (hash key) mask

  low : (k : ℕ) → home k < c
  low k = masks.low (hash k)

  -- The loop ends at the next empty bin, with the entries that the table had.
  close-IsRearranged :
      (f : ℕ) (table : ℕ → HashListNode) (x j b : ℕ)
      → IsHoled c home table x j b
      → dist c j b ≤ f
      → (after : ℕ → HashListNode) × (close f hash table mask x j ≡ some after)
        × IsRearranged c home table after
  unfolding close
  close-IsRearranged zero table x j b h le =
      absurd (h.ahead (dist_zero c j b h.j_lt h.b_lt (ground arith)))
  close-IsRearranged (suc f) table x j b h le =
      let y = succ c j in
      let next = masks.step j h.j_lt in
      let near = nearer c j b h.j_lt h.b_lt h.ahead in
      elim (Bool-cases ((table y).key == 0)) [
        | inl z ↦
            let z' : (table y).key ≡ 0 = ground arith in
            (
              table,
              rw next (ground (arith, h.empty y)),
              record {
                probed = closed c home low h z';
                same = λ k v n. (λ e. e, λ e. e);
                count = refl;
              },
            )
        | inr n ↦
            let n' : (table y).key ≢ 0 = ground arith in
            elim (Bool-cases (stays x y (home (table y).key))) [
              | inl st ↦
                  let rest =
                    close-IsRearranged f table x y b (checked_next c home low h n' st)
                      (omega (arith, near)) in
                  (rest.0, rw (next, st) (ground (arith, rest.1)), rest.2)
              | inr st ↦
                  let rest =
                    close-IsRearranged f (shifted table x y) y y b (moved_next c home low h n' st)
                      (omega (arith, near)) in
                  let ne : x ≢ y = λ e. n' (sym (ap (λ a. (table a).key) e) ∙ h.hole) in
                  let yc = succ-lt c j h.j_lt in
                  (
                    rest.0,
                    rw (next, st) (ground (arith, rest.1)),
                    record {
                      probed = rest.2.probed;
                      same = λ k v k0.
                          let one = rest.2.same k v k0 in
                          let two = shifted-Holds c table x y k v h.x_lt yc ne h.hole k0 in
                          (λ e. two.0 (one.0 e), λ e. one.1 (two.1 e));
                      count = rest.2.count ∙ shifted-occupied c table x y h.x_lt yc ne h.hole;
                    },
                  )
            ]
      ]

  -- A bin that is emptied in a table with another empty bin is closed again.
  pub close-again :
      (table : ℕ → HashListNode) (x b : ℕ)
      → IsProbed c home table
      → x < c
      → b < c
      → (table x).key ≢ 0
      → (table b).key ≡ 0
      → (after : ℕ → HashListNode) × (close c hash (update table x blank) mask x x ≡ some after)
        × IsRearranged c home (update table x blank) after
  close-again table x b p xc bc n z =
      let ne : b ≢ x = λ e. n (sym (ap (λ a. (table a).key) e) ∙ z) in
      let at_x : update table x blank x ≡ blank = ground arith in
      let elsewhere : (i : ℕ) → i ≢ x → update table x blank i ≡ table i = λ i q. ground arith in
      let not_x : (i : ℕ) → (update table x blank i).key ≢ 0 → i ≢ x =
        λ i k e. k (rw (e, at_x) refl) in
      close-IsRearranged c (update table x blank) x x b
        (record {
          x_lt = xc;
          j_lt = xc;
          b_lt = bc;
          hole = ap (λ (a : HashListNode). a.key) at_x;
          other = rw (elsewhere b ne) z;
          apart = ne;
          ahead = ne;
          reach = λ i m ic mc k mx.
              let same = elsewhere i (not_x i k) in
              rw (same, elsewhere m mx) (p.reach i m ic mc (rw same at k));
          once = λ i m ic mc k e.
              let same = elsewhere i (not_x i k) in
              let same' = elsewhere m (not_x m (λ z'. k (e ∙ z'))) in
              p.once i m ic mc (rw same at k) (ground arith);
          empty = λ i. ground (arith, p.empty i);
          checked = λ i ic k le. absurd (not_x i k (dist_zero c x i xc ic le));
        })
        (ground arith)
