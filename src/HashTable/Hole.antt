-- ===== src/HashTable/Hole.antt =====
-- The empty bin that `remove` of hashtable.h moves on: an entry whose search would pass the empty
-- bin is moved there, and its own bin is the next one to fill.
use c11tester.Base.{
  ℕ, ◌+◌, ◌<◌, ◌≤◌, ◌≡◌, ◌≢◌, ◌↔◌, refl, sym, ap, ◌∙◌, inl, inr, true, false, ◌==◌, leb,
  if◌then◌else◌, arith, Bool-cases, update,
}
use c11tester.HashTable.{HashListNode, blank, stays}
use c11tester.HashTable.Cycle.{succ, dist, succ-lt}
use c11tester.HashTable.Probes.{IsProbed}

-- A bin holds the key with the value.
abbrev pub Holds : ℕ → (ℕ → HashListNode) → ℕ → ℕ → Type 0
Holds c table key val = (i : ℕ) × (i < c) × ((table i).key ≡ key) × ((table i).val ≡ val)

-- Bin `x` is empty and may stand in the way of a search, but not of one for the entries from `x` up
-- to `j`; bin `b` is another empty one.
pub record IsHoled (c : ℕ) (home : ℕ → ℕ) (table : ℕ → HashListNode) (x j b : ℕ) : Type 0 where
  pub x_lt : x < c
  pub j_lt : j < c
  pub b_lt : b < c
  pub hole : (table x).key ≡ 0
  pub other : (table b).key ≡ 0
  pub apart : b ≢ x
  pub ahead : b ≢ j
  pub reach :
      (i m : ℕ)
      → i < c
      → m < c
      → (table i).key ≢ 0
      → m ≢ x
      → dist c (home (table i).key) m < dist c (home (table i).key) i
      → (table m).key ≢ 0
  pub once : (i m : ℕ) → i < c → m < c → (table i).key ≢ 0 → (table i).key ≡ (table m).key → i ≡ m
  pub empty : (i : ℕ) → (table i).key ≡ 0 → (table i).val ≡ 0
  pub checked :
      (i : ℕ)
      → i < c
      → (table i).key ≢ 0
      → dist c x i ≤ dist c x j
      → dist c (home (table i).key) i ≤ dist c (home (table i).key) x

stays_iff :
    (c x j h : ℕ) → x < c → j < c → h < c → x ≢ j → (stays x j h ≡ true) ↔ (dist c h j ≤ dist c h x)
unfolding stays
stays_iff c x j h xc jc hc ne = ground arith

between :
    (c h x j i : ℕ)
    → h < c
    → x < c
    → j < c
    → i < c
    → dist c h x < dist c h i
    → dist c x j < dist c x i
    → succ c j ≢ i
    → (dist c h (succ c j) < dist c h i) × (succ c j ≢ x)
between c h x j i hc xc jc ic p q r = (ground arith, λ e. absurd (ground arith))

pub nearer : (c j b : ℕ) → j < c → b < c → b ≢ j → dist c (succ c j) b + 1 ≡ dist c j b
nearer c j b jc bc ne = ground arith

farther : (c x j : ℕ) → j < c → x < c → succ c j ≢ x → dist c x (succ c j) ≡ dist c x j + 1
farther c x j jc xc ne = ground arith

pub dist_zero : (c y i : ℕ) → y < c → i < c → dist c y i ≤ dist c y y → i ≡ y
dist_zero c y i yc ic le = ground arith

-- The table with the entry of bin `j` in bin `x`.
abbrev pub shifted : (ℕ → HashListNode) → ℕ → ℕ → ℕ → HashListNode
shifted table x j = update (update table x (table j)) j blank

-- The bin where the entry of a bin was before.
pub old_bin : ℕ → ℕ → ℕ → ℕ
old_bin x y i = if x == i then y else i

pub old_bin-lt : (c x y i : ℕ) → y < c → i < c → old_bin x y i < c
unfolding old_bin
old_bin-lt c x y i yc ic = ground arith

pub origin :
    (table : ℕ → HashListNode) (x y i : ℕ) → i ≢ y → shifted table x y i ≡ table (old_bin x y i)
unfolding old_bin
origin table x y i ne = ground arith

origin_inj : (x y i m : ℕ) → i ≢ y → m ≢ y → old_bin x y i ≡ old_bin x y m → i ≡ m
unfolding old_bin
origin_inj x y i m p q e = ground arith

module _ (c : ℕ) (home : ℕ → ℕ) (low : (k : ℕ) → home k < c) where
  -- When the next bin is empty, no search is in the way of the hole.
  pub closed :
      {table : ℕ → HashListNode} {x j b : ℕ}
      → IsHoled c home table x j b
      → (table (succ c j)).key ≡ 0
      → IsProbed c home table
  closed {table} {x} {j} h z = record {
    reach = λ i m ic mc n lt. elim (Bool-cases (m == x)) [
      | inr e ↦ h.reach i m ic mc n (ground arith) lt
      | inl e ↦ λ z'. elim (Bool-cases (leb (dist c x i) (dist c x j))) [
        | inl le ↦
            let k = h.checked i ic n (ground arith) in
            let mx : m ≡ x = ground arith in absurd (let lt' = rw mx at lt in omega arith)
        | inr gt ↦
            let mx : m ≡ x = ground arith in
            let lt' = rw mx at lt in
            let far : dist c x j < dist c x i = ground arith in
            let b =
              between c (home (table i).key) x j i (low (table i).key) h.x_lt h.j_lt ic lt' far
                (λ e'. n (sym (ap (λ a. (table a).key) e') ∙ z)) in
            h.reach i (succ c j) ic (succ-lt c j h.j_lt) n b.1 b.0 z
      ]
    ];
    once = h.once;
    empty = h.empty;
  }

  -- An entry that stays has been checked.
  pub checked_next :
      {table : ℕ → HashListNode} {x j b : ℕ}
      → IsHoled c home table x j b
      → (table (succ c j)).key ≢ 0
      → stays x (succ c j) (home (table (succ c j)).key) ≡ true
      → IsHoled c home table x (succ c j) b
  checked_next {table} {x} {j} {b} h n st =
      let jc = succ-lt c j h.j_lt in
      let ne : succ c j ≢ x = λ e. n (ap (λ a. (table a).key) e ∙ h.hole) in
      let far = farther c x j h.j_lt h.x_lt ne in
      let kept =
        (stays_iff c x (succ c j) (home (table (succ c j)).key) h.x_lt jc
            (low (table (succ c j)).key) (λ e. ne (sym e))).0
          st in
      record {
        x_lt = h.x_lt;
        j_lt = jc;
        b_lt = h.b_lt;
        hole = h.hole;
        other = h.other;
        apart = h.apart;
        ahead = λ e. n (sym (ap (λ a. (table a).key) e) ∙ h.other);
        reach = h.reach;
        once = h.once;
        empty = h.empty;
        checked = λ i ic k le. elim (Bool-cases (i == succ c j)) [
          | inl e ↦ let same : i ≡ succ c j = ground arith in rw same kept
          | inr e ↦ h.checked i ic k (ground arith)
        ];
      }

  pub moved_next :
      {table : ℕ → HashListNode} {x j b : ℕ}
      → IsHoled c home table x j b
      → (table (succ c j)).key ≢ 0
      → stays x (succ c j) (home (table (succ c j)).key) ≡ false
      → IsHoled c home (shifted table x (succ c j)) (succ c j) (succ c j) b
  moved_next {table} {x} {j} {b} h n st =
      let y = succ c j in
      let yc : y < c = succ-lt c j h.j_lt in
      let ne : y ≢ x = λ e. n (ap (λ a. (table a).key) e ∙ h.hole) in
      let by : b ≢ y = λ e. n (sym (ap (λ a. (table a).key) e) ∙ h.other) in
      let nearer_x : dist c (home (table y).key) x < dist c (home (table y).key) y = ground (
        arith,
        stays_iff c x y (home (table y).key) h.x_lt yc (low (table y).key) (λ e. ne (sym e)),
      ) in
      let elsewhere : (i : ℕ) → i ≢ x → i ≢ y → shifted table x y i ≡ table i =
        λ i p q. ground arith in
      let at_x : shifted table x y x ≡ table y = ground arith in
      let at_y : shifted table x y y ≡ blank = ground arith in
      record {
        x_lt = yc;
        j_lt = yc;
        b_lt = h.b_lt;
        hole = ap (λ (a : HashListNode). a.key) at_y;
        other = rw (elsewhere b h.apart by) h.other;
        apart = by;
        ahead = by;
        reach = λ i m ic mc. elim (Bool-cases (m == x)) [
          | inl e ↦ let mx : m ≡ x = ground arith in λ k my lt. rw (mx, at_x) n
          | inr e ↦ λ k my. rw (elsewhere m (ground arith) my) (elim (Bool-cases (i == x)) [
            | inl e' ↦
                let ix : i ≡ x = ground arith in
                rw (ix, at_x) (λ lt. h.reach y m yc mc n (ground arith) (omega arith))
            | inr e' ↦ elim (Bool-cases (i == y)) [
              | inl e'' ↦ let iy : i ≡ y = ground arith in absurd (k (rw (iy, at_y) refl))
              | inr e'' ↦
                  let same = elsewhere i (ground arith) (ground arith) in
                  rw same (h.reach i m ic mc (rw same at k) (ground arith))
            ]
          ])
        ];
        once = λ i m ic mc k. elim (Bool-cases (i == y)) [
          | inl e ↦ let iy : i ≡ y = ground arith in absurd (k (rw (iy, at_y) refl))
          | inr e ↦ λ same.
              let iy : i ≢ y = ground arith in
              let my : m ≢ y = λ e'. k (same ∙ rw (e', at_y) refl) in
              let fi = origin table x y i iy in
              let fm = origin table x y m my in
              origin_inj x y i m iy my (
                h.once (old_bin x y i) (old_bin x y m) (old_bin-lt c x y i yc ic)
                  (old_bin-lt c x y m yc mc) (rw fi at k)
                  (ap (λ (a : HashListNode). a.key) (sym fi)
                    ∙ same
                    ∙ ap (λ (a : HashListNode). a.key) fm))
        ];
        empty = λ i. ground (arith, h.empty i, h.empty y);
        checked = λ i ic k le. let d = dist_zero c y i yc ic le in absurd (k (rw (d, at_y) refl));
      }
