-- ===== src/HashTable/Probes.antt =====
-- The searches of hashtable.h: from the home of a key to the first bin that is empty or holds it.
use c11tester.Base.{
  ℕ, zero, suc, ◌+◌, ◌<◌, ◌≤◌, ◌≡◌, ◌≢◌, ap, ◌∙◌, subst, ◌⊎◌, inl, inr, bit_and, false, not, ◌==◌,
  leb, if◌then◌else◌, none, some, arith, Bool-cases,
}
use c11tester.HashTable.{
  HashListNode, get_from, contains_from, remove_from, put_from, find_blank, old, fresh,
}
use c11tester.HashTable.Cycle.{
  Masks, succ, dist, along, dist-succ, succ-lt, dist-lt, dist_inj, along-lt, dist-along, along-dist,
}

-- Between the home of an entry and its bin no bin is empty, no key stands in two bins, and an
-- empty bin has no value.
pub record IsProbed (c : ℕ) (home : ℕ → ℕ) (table : ℕ → HashListNode) : Type 0 where
  pub reach :
      (i j : ℕ)
      → i < c
      → j < c
      → (table i).key ≢ 0
      → dist c (home (table i).key) j < dist c (home (table i).key) i
      → (table j).key ≢ 0
  pub once : (i j : ℕ) → i < c → j < c → (table i).key ≢ 0 → (table i).key ≡ (table j).key → i ≡ j
  pub empty : (i : ℕ) → (table i).key ≡ 0 → (table i).val ≡ 0

-- The first bin from `h` on that is empty or holds the key.
pub record FirstStop (c : ℕ) (table : ℕ → HashListNode) (h key s : ℕ) : Type 0 where
  pub within : s < c
  pub stop : ((table s).key ≡ 0) ⊎ ((table s).key ≡ key)
  pub passed :
      (j : ℕ) → j < c → dist c h j < dist c h s → ((table j).key ≢ 0) × ((table j).key ≢ key)

module _ (c : ℕ) (table : ℕ → HashListNode) (h key : ℕ) (hc : h < c) where
  scan :
      (n : ℕ)
      → n ≤ c
      → ((s : ℕ) × FirstStop c table h key s)
        ⊎ ((d : ℕ) → d < n → ((table (along c h d)).key ≢ 0) × ((table (along c h d)).key ≢ key))
  scan zero le = inr (λ d p. absurd (omega arith))
  scan (suc n) le = elim (scan n (omega arith)) [
    | inl found ↦ inl found
    | inr pass ↦
        let s = along c h n in
        let earlier : (j : ℕ)
            → j < c
            → dist c h j < dist c h s
            → ((table j).key ≢ 0) × ((table j).key ≢ key) =
          λ j jc p.
            subst (λ i. ((table i).key ≢ 0) × ((table i).key ≢ key)) (along-dist c h j hc jc)
              (pass (dist c h j) (omega (arith, p, dist-along c h n hc le))) in
        elim (Bool-cases ((table s).key == 0)) [
          | inl e ↦ inl (
            s,
            record { within = along-lt c h n hc le; stop = inl (ground arith); passed = earlier },
          )
          | inr e ↦ elim (Bool-cases ((table s).key == key)) [
            | inl k ↦ inl (
              s,
              record { within = along-lt c h n hc le; stop = inr (ground arith); passed = earlier },
            )
            | inr k ↦ inr (λ d p. elim (Bool-cases (d == n)) [
              | inl same ↦ let dn : d ≡ n = ground arith in rw dn (ground arith, ground arith)
              | inr other ↦ pass d (ground arith)
            ])
          ]
        ]
  ]

  -- A table with an empty bin ends every search.
  pub first_stop : (b : ℕ) → b < c → (table b).key ≡ 0 → (s : ℕ) × FirstStop c table h key s
  first_stop b bc e = elim (scan c (omega arith)) [
    | inl found ↦ found
    | inr pass ↦ absurd (
        (pass (dist c h b) (dist-lt c h b hc bc)).0
          (ap (λ i. (table i).key) (along-dist c h b hc bc) ∙ e))
  ]

module _ {c : ℕ} {table : ℕ → HashListNode} {h key s : ℕ} (hc : h < c)
    (first : FirstStop c table h key s) where
  pub at_or_before : (i : ℕ) → i < c → dist c h i ≤ dist c h s → (i ≡ s) ⊎ (dist c h i < dist c h s)
  at_or_before i ic le = elim (Bool-cases (leb (dist c h s) (dist c h i))) [
    | inl e ↦ inl (dist_inj c h i s hc ic first.within (ground arith))
    | inr e ↦ inr (ground arith)
  ]

  -- What a round does before the stop: it passes the bin, and comes one nearer.
  before :
      (i : ℕ)
      → i < c
      → dist c h i < dist c h s
      → ((table i).key ≢ 0)
        × ((table i).key ≢ key)
        × (succ c i < c)
        × (dist c h (succ c i) ≡ dist c h i + 1)
        × (succ c i ≢ h)
  before i ic lt =
      let p = first.passed i ic lt in
      let d = dist-succ c h i hc ic (omega (arith, lt, dist-lt c h s hc first.within)) in
      (p.0, p.1, succ-lt c i ic, d, λ e. absurd (ground arith))

  module _ (mask : ℕ) (masks : Masks c mask) where
    pub get_from-stops :
        (f i : ℕ)
        → i < c
        → dist c h i ≤ dist c h s
        → dist c h s < f + dist c h i
        → key ≢ 0
        → ((table s).key ≡ 0 → (table s).val ≡ 0)
        → get_from f table mask key h i ≡ some (table s).val
    unfolding get_from
    get_from-stops zero i ic le fuel k0 ev = absurd (omega arith)
    get_from-stops (suc f) i ic le fuel k0 ev = elim (at_or_before i ic le) [
      | inl e ↦ rw e (elim first.stop [ inl z ↦ ground (arith, ev z) | inr k ↦ ground arith ])
      | inr lt ↦
          let b = before i ic lt in
          let next = masks.step i ic in
          let rest =
            get_from-stops f (succ c i) b.2 (omega (arith, b.3)) (omega (arith, b.3)) k0 ev in
          rw next (ground (arith, rest, b))
    ]

    pub contains_from-stops :
        (f x i : ℕ)
        → bit_and x mask ≡ i
        → i < c
        → dist c h i ≤ dist c h s
        → dist c h s < f + dist c h i
        → ((table s).key ≡ 0 → (table s).val ≡ 0)
        → contains_from f table mask key x ≡ some (not ((table s).key == 0))
    unfolding contains_from
    contains_from-stops zero x i xi ic le fuel ev = absurd (omega arith)
    contains_from-stops (suc f) x i xi ic le fuel ev = elim (at_or_before i ic le) [
      | inl e ↦ rw (xi, e) (elim first.stop [ inl z ↦ ground (arith, ev z) | inr k ↦ ground arith ])
      | inr lt ↦
          let b = before i ic lt in
          let rest =
            contains_from-stops f (i + 1) (succ c i) (masks.step i ic) b.2 (omega (arith, b.3))
              (omega (arith, b.3)) ev in
          rw xi (ground (arith, rest, b))
    ]

    pub remove_from-stops :
        (f x i : ℕ)
        → bit_and x mask ≡ i
        → i < c
        → dist c h i ≤ dist c h s
        → dist c h s < f + dist c h i
        → ((table s).key ≡ 0 → (table s).val ≡ 0)
        → remove_from f table mask key x ≡ some (if (table s).key == 0 then none else some s)
    unfolding remove_from
    remove_from-stops zero x i xi ic le fuel ev = absurd (omega arith)
    remove_from-stops (suc f) x i xi ic le fuel ev = elim (at_or_before i ic le) [
      | inl e ↦ rw (xi, e) (elim first.stop [ inl z ↦ ground (arith, ev z) | inr k ↦ ground arith ])
      | inr lt ↦
          let b = before i ic lt in
          let rest =
            remove_from-stops f (i + 1) (succ c i) (masks.step i ic) b.2 (omega (arith, b.3))
              (omega (arith, b.3)) ev in
          rw xi (ground (arith, rest, b))
    ]

    pub put_from-stops :
        (f i : ℕ)
        → i < c
        → dist c h i ≤ dist c h s
        → dist c h s < f + dist c h i
        → key ≢ 0
        → ((table s).key ≡ 0 → (table s).val ≡ 0)
        → put_from f table mask key h none i ≡ (if (table s).key == 0 then fresh s else old s)
    unfolding put_from
    put_from-stops zero i ic le fuel k0 ev = absurd (omega arith)
    put_from-stops (suc f) i ic le fuel k0 ev = elim (at_or_before i ic le) [
      | inl e ↦ rw e (elim first.stop [ inl z ↦ ground (arith, ev z) | inr k ↦ ground arith ])
      | inr lt ↦
          let b = before i ic lt in
          let next = masks.step i ic in
          let rest =
            put_from-stops f (succ c i) b.2 (omega (arith, b.3)) (omega (arith, b.3)) k0 ev in
          let filled : ((table i).key == 0) ≡ false = ground (arith, b.0) in
          rw (next, filled) (ground (arith, rest, b))
    ]

    -- The search of `resize` is for the key of no bin.
    pub find_blank-stops :
        (f x i : ℕ)
        → bit_and x mask ≡ i
        → i < c
        → dist c h i ≤ dist c h s
        → dist c h s < f + dist c h i
        → (table s).key ≡ 0
        → find_blank f table mask x ≡ some s
    unfolding find_blank
    find_blank-stops zero x i xi ic le fuel z = absurd (omega arith)
    find_blank-stops (suc f) x i xi ic le fuel z = elim (at_or_before i ic le) [
      | inl e ↦ rw (xi, e) (ground arith)
      | inr lt ↦
          let b = before i ic lt in
          let rest =
            find_blank-stops f (i + 1) (succ c i) (masks.step i ic) b.2 (omega (arith, b.3))
              (omega (arith, b.3)) z in
          rw xi (ground (arith, rest, b))
    ]
