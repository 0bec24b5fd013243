-- ===== src/ActionList/Search.antt =====
-- What `findPrev` of actionlist.cc finds: the last entry before a clock.
use c11tester.Base.{
  ℕ, zero, suc, ◌+◌, ◌-◌, ◌*◌, ◌/◌, ◌%◌, ◌^◌, ◌<◌, ◌≤◌, ◌≡◌, ◌≢◌, ◌⊎◌, inl, inr, refl, sym, ap,
  subst, ◌∙◌, true, false, ◌==◌, Option, none, some, arith, Bool-cases, Option-cases,
}
use native.Mathlib.Numerals.{add-one}
use c11tester.ActionList.{ActionList, has, is_some, word, descend, ascend, find_prev}
use c11tester.ActionList.Digits.{
  Level, l0, index, digit, earlier, up-Level, prefix-suc, scale-suc, index-suc, increment-down,
  increment-up, Level-cases, Level-le,
}

-- Below a node that ends before the clock stands an entry, and over every entry a node.
pub record IsIndexed (t : ActionList) (clock : ℕ) : Type 0 where
  pub below :
      (k q : ℕ)
      → Level (suc k)
      → (q + 1) * 16 ^ suc k ≤ clock
      → t.node (suc k) q ≡ true
      → (m : ℕ) × (m / 16 ^ suc k ≡ q) × (is_some (t.leaf m) ≡ true)
  pub above :
      (k m : ℕ) → Level (suc k) → is_some (t.leaf m) ≡ true → t.node (suc k) (m / 16 ^ suc k) ≡ true

-- `r` is the last entry before the clock, the null pointer if there is none.
abbrev pub IsBefore : ActionList → ℕ → Option ℕ → Type 0
IsBefore t clock r =
    ((r ≡ none) × ((m : ℕ) → m < clock → t.leaf m ≡ none))
    ⊎ ((m : ℕ) × (m < clock)
        × (t.leaf m ≡ r)
        × (is_some r ≡ true)
        × ((m' : ℕ) → m < m' → m' < clock → t.leaf m' ≡ none))

module _ (t : ActionList) (fuel k p n idx inc : ℕ) (child : 16 * p + idx / 16 ^ k % 16 ≡ n) where
  descend-earlier :
      has t k n ≡ false
      → descend (suc fuel) t k p idx inc ≡ descend fuel t k p ((idx + word - inc) % word) inc
  unfolding descend
  descend-earlier gone = rw (child, gone) refl

module _ (t : ActionList) (fuel p n idx inc : ℕ) where
  descend-lower :
      (k : ℕ)
      → 16 * p + idx / 16 ^ suc k % 16 ≡ n
      → has t (suc k) n ≡ true
      → descend (suc fuel) t (suc k) p idx inc ≡ descend fuel t k n idx (inc / 16)
  unfolding descend
  descend-lower k child there =
      let below : suc k - 1 ≡ k = omega arith in
      let inner : (suc k == 0) ≡ false = ground arith in rw (child, there, below, inner) refl

  descend-stop :
      16 * p + idx / 16 ^ 0 % 16 ≡ n
      → has t 0 n ≡ true
      → descend (suc fuel) t 0 p idx inc ≡ some (t.leaf n)
  unfolding descend
  descend-stop child there = rw (child, there) refl

module _ (t : ActionList) (fuel k p n idx inc : ℕ) where
  ascend-up :
      idx / 16 ^ k % 16 ≡ 15
      → k ≢ 7
      → ascend (suc fuel) t k p idx inc ≡ ascend fuel t (suc k) (p / 16) idx (inc * 16 % word)
  unfolding ascend
  ascend-up d ne = let other : (k == 7) ≡ false = ground arith in rw (d, other, add-one) refl

  ascend-top : idx / 16 ^ k % 16 ≡ 15 → k ≡ 7 → ascend (suc fuel) t k p idx inc ≡ some none
  unfolding ascend
  ascend-top d e = let same : (k == 7) ≡ true = ground arith in rw (d, same) refl

  ascend-earlier :
      idx / 16 ^ k % 16 ≢ 15
      → 16 * p + idx / 16 ^ k % 16 ≡ n
      → has t k n ≡ false
      → ascend (suc fuel) t k p idx inc ≡ ascend fuel t k p ((idx + word - inc) % word) inc
  unfolding ascend
  ascend-earlier d child gone =
      let on : (idx / 16 ^ k % 16 == 15) ≡ false = ground arith in rw (on, child, gone) refl

module _ (t : ActionList) (fuel p n idx inc : ℕ) where
  ascend-stop :
      idx / 16 ^ 0 % 16 ≢ 15
      → 16 * p + idx / 16 ^ 0 % 16 ≡ n
      → has t 0 n ≡ true
      → ascend (suc fuel) t 0 p idx inc ≡ some (t.leaf n)
  unfolding ascend
  ascend-stop d child there =
      let on : (idx / 16 ^ 0 % 16 == 15) ≡ false = ground arith in rw (on, child, there) refl

  ascend-enter :
      (k : ℕ)
      → idx / 16 ^ suc k % 16 ≢ 15
      → 16 * p + idx / 16 ^ suc k % 16 ≡ n
      → has t (suc k) n ≡ true
      → ascend (suc fuel) t (suc k) p idx inc ≡ descend 256 t k n idx (inc / 16)
  unfolding ascend
  ascend-enter k d child there =
      let on : (idx / 16 ^ suc k % 16 == 15) ≡ false = ground arith in
      let below : suc k - 1 ≡ k = omega arith in
      let inner : (suc k == 0) ≡ false = ground arith in rw (on, child, there, below, inner) refl

-- The bounds that the searches keep.
shrink : (k n' n clock : ℕ) → n' + 1 ≤ n → (n + 1) * 16 ^ k ≤ clock → (n' + 1) * 16 ^ k ≤ clock
shrink k n' n clock h le = grind arith

fits : (k n clock : ℕ) → (n + 1) * 16 ^ k ≤ clock → clock < 2 ^ 32 → n * 16 ^ k + 16 ^ k ≤ 2 ^ 32
fits k n clock le lt = grind arith

shrink' : (k n' n clock : ℕ) → n' ≤ n → n * 16 ^ k ≤ clock → n' * 16 ^ k ≤ clock
shrink' k n' n clock h le = grind arith

top_zero :
    (k p n : ℕ) → k ≡ 7 → n ≡ 16 * p → (clock : ℕ) → n * 16 ^ k ≤ clock → clock < 2 ^ 32 → n ≡ 0
top_zero k p n k7 e clock le lt =
    let le' : n * 16 ^ 7 ≤ clock = subst (λ (x : ℕ). n * 16 ^ x ≤ clock) k7 le in omega arith

module _ (t : ActionList) (clock : ℕ) (i : IsIndexed t clock) (small : clock < 2 ^ 32) where
  no_entry : (k q m : ℕ) → Level k → has t k q ≡ false → m / 16 ^ k ≡ q → t.leaf m ≡ none
  no_entry zero q m l h e =
      let mq : m ≡ q = omega arith in
      rw mq (elim (Option-cases (t.leaf q)) [ inl n ↦ n | inr (p, s) ↦ ground arith ])
  no_entry (suc k) q m l h e = elim (Option-cases (t.leaf m)) [
    | inl n ↦ n
    | inr (p, s) ↦
        let there = i.above k m l (rw s refl) in let there' = rw e at there in absurd (ground arith)
  ]

  -- No entry stands from `n` on at a level, before the clock.
  abbrev Gap : ℕ → ℕ → Type 0
  Gap k n = (m : ℕ) → n ≤ m / 16 ^ k → m < clock → t.leaf m ≡ none

  Gap-earlier : (k n : ℕ) → Level k → has t k n ≡ false → Gap k (n + 1) → Gap k n
  Gap-earlier k n l h gap m le lt = elim (Bool-cases (m / 16 ^ k == n)) [
    | inl e ↦ no_entry k n m l h (ground arith)
    | inr e ↦ gap m (ground arith) lt
  ]

  Gap-lower : (k n : ℕ) → Level (suc k) → Gap (suc k) n → Gap k (16 * n)
  Gap-lower k n l gap m le lt = gap m (omega (arith, prefix-suc l m)) lt

  Gap-upper : (k p : ℕ) → Level (suc k) → Gap k (16 * p) → Gap (suc k) p
  Gap-upper k p l gap m le lt = gap m (omega (arith, prefix-suc l m)) lt

  abbrev Descends : ℕ → Type 0
  Descends fuel =
      (k p n m : ℕ)
      → Level k
      → 16 * p ≤ n
      → n < 16 * p + 16
      → (n + 1) * 16 ^ k ≤ clock
      → Gap k (n + 1)
      → 16 * p ≤ m / 16 ^ k
      → m / 16 ^ k ≤ n
      → is_some (t.leaf m) ≡ true
      → k * 17 + (n + 1 - 16 * p) < fuel
      → (r : Option ℕ) × (descend fuel t k p (index k (n + 1)) (16 ^ k) ≡ some r)
        × IsBefore t clock r

  -- Into a node that is there, from its last child on.
  enter :
      (fuel : ℕ)
      → Descends fuel
      → (k n : ℕ) → Level (suc k)
      → (n + 1) * 16 ^ suc k ≤ clock
      → Gap (suc k) (n + 1)
      → has t (suc k) n ≡ true
      → k * 17 + 16 < fuel
      → (r : Option ℕ) × (descend fuel t k n (index (suc k) (n + 1)) (16 ^ suc k / 16) ≡ some r)
        × IsBefore t clock r
  enter fuel down k n l le gap there f =
      let (m, e, sm) = i.below k n l le there in
      let up = up-Level l in
      let pm = prefix-suc l m in
      let last : 16 * (n + 1) ≡ 16 * n + 15 + 1 = omega arith in
      let rest =
        down k n (16 * n + 15) m up (omega arith) (omega arith)
          (rw (← last) (rw (← scale-suc l (n + 1)) le)) (rw (← last) (Gap-lower k (n + 1) l gap))
          (omega (arith, e, pm)) (omega (arith, e, pm)) sm (omega arith) in
      (
        rest.0,
        (λ j. descend fuel t k n ((index-suc l (n + 1) ∙ ap (index k) last) j) (increment-down l j))
            ∙ rest.1,
        rest.2,
      )

  found_here :
      (n : ℕ) → n + 1 ≤ clock → Gap 0 (n + 1) → has t 0 n ≡ true → IsBefore t clock (t.leaf n)
  found_here n le gap there =
      inr (n, omega arith, refl, there, λ m' lt lt'. gap m' (omega arith) lt')

  reach_below :
      (fuel : ℕ)
      → Descends fuel
      → (k p n : ℕ) → Level k
      → (n + 1) * 16 ^ k ≤ clock
      → Gap k (n + 1)
      → k * 17 + (n + 1 - 16 * p) < suc fuel
      → 16 * p ≤ n
      → 16 * p + index k (n + 1) / 16 ^ k % 16 ≡ n
      → has t k n ≡ true
      → (r : Option ℕ) × (descend (suc fuel) t k p (index k (n + 1)) (16 ^ k) ≡ some r)
        × IsBefore t clock r
  reach_below fuel down zero p n l le gap f lo child there = (
    t.leaf n,
    descend-stop t fuel p n (index 0 (n + 1)) (16 ^ 0) child there,
    found_here n (omega arith) gap there,
  )
  reach_below fuel down (suc k) p n l le gap f lo child there =
      let rest = enter fuel down k n l le gap there (omega arith) in
      (
        rest.0,
        descend-lower t fuel p n (index (suc k) (n + 1)) (16 ^ suc k) k child there ∙ rest.1,
        rest.2,
      )

  -- The way down ends at the last entry before the clock.
  descend-IsBefore : (fuel : ℕ) → Descends fuel
  descend-IsBefore zero k p n m l lo hi le gap ml mh sm f = absurd (omega arith)
  descend-IsBefore (suc fuel) k p n m l lo hi le gap ml mh sm f =
      let d = digit l (n + 1) (omega (arith, small)) in
      let child : 16 * p + index k (n + 1) / 16 ^ k % 16 ≡ n = omega (arith, d) in
      elim (Bool-cases (has t k n)) [
        | inl there ↦ reach_below fuel (descend-IsBefore fuel) k p n l le gap f lo child there
        | inr gone ↦
            let ne : m / 16 ^ k ≢ n = λ e. let none' = no_entry k n m l gone e in ground arith in
            let n' : n ≡ n - 1 + 1 = ground arith in
            let rest =
              descend-IsBefore fuel k p (n - 1) m l (ground arith) (omega arith)
                (shrink k (n - 1) n clock (omega arith) le) (rw (← n') (Gap-earlier k n l gone gap))
                ml (ground arith) sm (omega arith) in
            (
              rest.0,
              descend-earlier t fuel k p n (index k (n + 1)) (16 ^ k) child gone
                  ∙ ap (λ (x : ℕ). descend fuel t k p x (16 ^ k))
                      (earlier l n (fits k n clock le small) ∙ ap (index k) n')
                  ∙ rest.1,
              rest.2,
            )
      ]

  found_above :
      (fuel k p n : ℕ)
      → Level k
      → (n + 1) * 16 ^ k ≤ clock
      → Gap k (n + 1)
      → index k (n + 1) / 16 ^ k % 16 ≢ 15
      → 16 * p + index k (n + 1) / 16 ^ k % 16 ≡ n
      → has t k n ≡ true
      → (r : Option ℕ) × (ascend (suc fuel) t k p (index k (n + 1)) (16 ^ k) ≡ some r)
        × IsBefore t clock r
  found_above fuel zero p n l le gap d child there = (
    t.leaf n,
    ascend-stop t fuel p n (index 0 (n + 1)) (16 ^ 0) d child there,
    found_here n (omega arith) gap there,
  )
  found_above fuel (suc k) p n l le gap d child there =
      let small_level = Level-le l in
      let rest = enter 256 (descend-IsBefore 256) k n l le gap there (omega arith) in
      (
        rest.0,
        ascend-enter t fuel p n (index (suc k) (n + 1)) (16 ^ suc k) k d child there ∙ rest.1,
        rest.2,
      )

  -- The search from a node upwards ends too.
  ascend-IsBefore :
      (fuel k p n : ℕ)
      → Level k
      → 16 * p ≤ n
      → n ≤ 16 * p + 15
      → n * 16 ^ k ≤ clock
      → Gap k n
      → (8 - k) * 17 + (n - 16 * p) < fuel
      → (r : Option ℕ) × (ascend fuel t k p (index k n) (16 ^ k) ≡ some r) × IsBefore t clock r
  ascend-IsBefore zero k p n l lo hi le gap f = absurd (omega arith)
  ascend-IsBefore (suc fuel) k p n l lo hi le gap f =
      let d = digit l n (omega (arith, small)) in
      elim (Bool-cases (n == 16 * p)) [
        | inl e ↦
            let same : n ≡ 16 * p = ground arith in
            let full : index k n / 16 ^ k % 16 ≡ 15 = omega (arith, d, same) in
            elim (Level-cases l) [
              | inl up ↦
                  let rest =
                    ascend-IsBefore fuel (suc k) (p / 16) p up (omega arith) (omega arith)
                      (rw (scale-suc up p) (rw (← same) le)) (Gap-upper k p up (rw (← same) gap))
                      (omega (arith, Level-le up)) in
                  (
                    rest.0,
                    ascend-up t fuel k p n (index k n) (16 ^ k) full
                          (λ k7. let k6 = Level-le up in omega arith)
                        ∙ (λ j.
                            ascend fuel t (suc k) (p / 16)
                              ((ap (index k) same ∙ sym (index-suc up p)) j) (increment-up up j))
                        ∙ rest.1,
                    rest.2,
                  )
              | inr k7 ↦
                  let n0 : n ≡ 0 = top_zero k p n k7 same clock le small in
                  (
                    none,
                    ascend-top t fuel k p n (index k n) (16 ^ k) full k7,
                    inl (refl, λ m lt. gap m (omega (arith, n0)) lt),
                  )
            ]
        | inr e ↦
            let n1 : n ≡ n - 1 + 1 = ground arith in
            let d' : index k n / 16 ^ k % 16 ≢ 15 = ground (arith, d) in
            let child : 16 * p + index k n / 16 ^ k % 16 ≡ n - 1 = ground (arith, d) in
            elim (Bool-cases (has t k (n - 1))) [
              | inl there ↦
                  subst
                    (λ x.
                      (r : Option ℕ) × (ascend (suc fuel) t k p (index k x) (16 ^ k) ≡ some r)
                      × IsBefore t clock r)
                    (sym n1)
                    (found_above fuel k p (n - 1) l (rw (← n1) le) (rw (← n1) gap) (rw (← n1) d')
                      (rw (← n1) child) there)
              | inr gone ↦
                  let rest =
                    ascend-IsBefore fuel k p (n - 1) l (ground arith) (omega arith)
                      (shrink' k (n - 1) n clock (omega arith) le)
                      (Gap-earlier k (n - 1) l gone (rw (← n1) gap)) (ground arith) in
                  (
                    rest.0,
                    ascend-earlier t fuel k p (n - 1) (index k n) (16 ^ k) d' child gone
                        ∙ ap (λ (x : ℕ). ascend fuel t k p x (16 ^ k))
                            (ap (λ (x : ℕ). (index k x + word - 16 ^ k) % word) n1
                              ∙ earlier l (n - 1) (fits k (n - 1) clock (rw (← n1) le) small))
                        ∙ rest.1,
                    rest.2,
                  )
            ]
      ]

  -- The search ends within its fuel at the last entry before the clock, in the order of the
  -- clocks, and returns the null pointer exactly where there is none.
  pub find_prev-IsBefore :
      (r : Option ℕ) × (find_prev t (clock / 16) clock ≡ some r) × IsBefore t clock r
  unfolding find_prev
  find_prev-IsBefore =
      let e : (clock + word - 1) % word ≡ index 0 clock = omega arith in
      rw e (
        ascend-IsBefore 256 0 (clock / 16) clock l0 (omega arith) (omega arith) (omega arith)
          (λ m le lt. absurd (omega arith)) (omega arith))
