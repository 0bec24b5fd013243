-- ===== src/ActionList/Growing.antt =====
-- The nodes that `addAction` of actionlist.cc makes on the way down to its entry.
use c11tester.Base.{
  ℕ, zero, suc, ◌+◌, ◌*◌, ◌/◌, ◌%◌, ◌^◌, ◌<◌, ◌≡◌, ◌⊎◌, inl, inr, refl, sym, ap, subst, ◌∙◌, true,
  false, ◌&&◌, ◌==◌, if◌then◌else◌, none, arith, Bool-cases, Option-cases,
}
use c11tester.ActionList.{ActionList, is_some, new_node, add_from, add_leaf}
use c11tester.ActionList.Digits.{Level, up-Level, prefix-suc}
use c11tester.ActionList.Search.{IsIndexed}

-- Nodes stand over the entries, and nowhere else.
pub record IsTree (t : ActionList) : Type 0 where
  pub below :
      (k q : ℕ)
      → Level (suc k)
      → t.node (suc k) q ≡ true
      → (m : ℕ) × (m / 16 ^ suc k ≡ q) × (is_some (t.leaf m) ≡ true)
  pub above :
      (k m : ℕ) → Level (suc k) → is_some (t.leaf m) ≡ true → t.node (suc k) (m / 16 ^ suc k) ≡ true

pub tree-IsIndexed : (t : ActionList) (clock : ℕ) → IsTree t → IsIndexed t clock
tree-IsIndexed t clock h = record { below = λ k q l le e. h.below k q l e; above = h.above }

-- What the loop has changed from the level `k` on: nodes on the way to the clock, nothing else.
pub record IsGrown (t₀ : ActionList) (clock k : ℕ) (t : ActionList) : Type 0 where
  pub leaf_same : (m : ℕ) → t.leaf m ≡ t₀.leaf m
  pub list_same : t.list ≡ t₀.list
  pub from_old : (s q : ℕ) → t.node s q ≡ true → (t₀.node s q ≡ true) ⊎ (q ≡ clock / 16 ^ s)
  pub over :
      (s m : ℕ) → Level (suc s) → is_some (t.leaf m) ≡ true → t.node (suc s) (m / 16 ^ suc s) ≡ true
  pub made : (s : ℕ) → k < s → Level s → t.node s (clock / 16 ^ s) ≡ true

child_of :
    (k ptr clock : ℕ) → clock / 16 ^ k / 16 ≡ ptr → 16 * ptr + clock / 16 ^ k % 16 ≡ clock / 16 ^ k
child_of k ptr clock e = omega arith

-- Under a node that is not there stands no entry.
nothing_under :
    (t : ActionList) (k q m : ℕ)
    → ((m : ℕ) → is_some (t.leaf m) ≡ true → t.node (suc k) (m / 16 ^ suc k) ≡ true)
    → t.node (suc k) q ≡ false
    → m / 16 ^ suc k ≡ q
    → t.leaf m ≡ none
nothing_under t k q m over gone e = elim (Option-cases (t.leaf m)) [
  | inl n ↦ n
  | inr (p, s) ↦
      let there = over m (rw s refl) in let there' = rw e at there in absurd (ground arith)
]

-- What a look-up reads once a node is new.
module _ (t : ActionList) (level ptr child : ℕ) where
  new_node-node :
      (s q : ℕ)
      → (new_node t level ptr child).node s q ≡ (
          if s == level && q == child
          then true
          else if s + 1 == level && q / 16 == child
          then false
          else t.node s q)
  unfolding new_node
  new_node-node s q = refl

  new_node-leaf :
      (q : ℕ)
      → (new_node t level ptr child).leaf q
        ≡ (if level == 1 && q / 16 == child then none else t.leaf q)
  unfolding new_node
  new_node-leaf q = refl

  new_node-list : (new_node t level ptr child).list ≡ t.list
  unfolding new_node
  new_node-list = refl

-- A new node on the way.
module _ (t₀ : ActionList) (clock k ptr : ℕ) (t : ActionList) (l : Level (suc k))
    (g : IsGrown t₀ clock (suc k) t) (gone : t.node (suc k) (clock / 16 ^ suc k) ≡ false) where
  abbrev child : ℕ
  child = clock / 16 ^ suc k

  abbrev grown : ActionList
  grown = new_node t (suc k) ptr child

  under : (m : ℕ) → m / 16 ^ suc k ≡ child → t.leaf m ≡ none
  under m e = nothing_under t k child m (λ m'. g.over k m' l) gone e

  leaf_kept : (m : ℕ) → grown.leaf m ≡ t.leaf m
  leaf_kept m =
      new_node-leaf t (suc k) ptr child m ∙ elim (Bool-cases (suc k == 1 && m / 16 == child)) [
        | inl e ↦
            let k0 : k ≡ 0 = ground arith in
            let low : m / 16 ≡ child = ground arith in
            let one : m / 16 ^ suc k ≡ m / 16 = ap (λ (j : ℕ). m / 16 ^ suc j) k0 in
            rw e (sym (under m (one ∙ low)))
        | inr e ↦ rw e refl
      ]

  kept_old : (s q : ℕ) → grown.node s q ≡ true → (t₀.node s q ≡ true) ⊎ (q ≡ clock / 16 ^ s)
  kept_old s q h = elim (Bool-cases (s == suc k && q == child)) [
    | inl e ↦
        let sk : s ≡ suc k = ground arith in
        let qc : q ≡ child = ground arith in inr (qc ∙ ap (λ (j : ℕ). clock / 16 ^ j) (sym sk))
    | inr e ↦ elim (Bool-cases (s + 1 == suc k && q / 16 == child)) [
      | inl e' ↦
          let off = sym h ∙ new_node-node t (suc k) ptr child s q in absurd (ground (arith, off))
      | inr e' ↦
          let on = sym h ∙ new_node-node t (suc k) ptr child s q in
          g.from_old s q (ground (arith, on))
    ]
  ]

  kept_over :
      (s m : ℕ)
      → Level (suc s)
      → is_some (t.leaf m) ≡ true
      → grown.node (suc s) (m / 16 ^ suc s) ≡ true
  kept_over s m ls h =
      new_node-node t (suc k) ptr child (suc s) (m / 16 ^ suc s)
      ∙ elim (Bool-cases (suc s == suc k && m / 16 ^ suc s == child)) [
        | inl e ↦ rw e refl
        | inr e ↦ elim (Bool-cases (suc s + 1 == suc k && m / 16 ^ suc s / 16 == child)) [
          | inl e' ↦
              let sk : k ≡ suc s = ground arith in
              let low : m / 16 ^ suc s / 16 ≡ child = ground arith in
              let up : m / 16 ^ suc k ≡ m / 16 ^ suc s / 16 =
                ap (λ (j : ℕ). m / 16 ^ suc j) sk
                ∙ prefix-suc (subst (λ (j : ℕ). Level (suc j)) sk l) m in
              let nothing = under m (up ∙ low) in absurd (ground (arith, nothing))
          | inr e' ↦ rw (e, e') (g.over s m ls h)
        ]
      ]

  kept_made : (s : ℕ) → k < s → Level s → grown.node s (clock / 16 ^ s) ≡ true
  kept_made s lt ls =
      new_node-node t (suc k) ptr child s (clock / 16 ^ s) ∙ elim (Bool-cases (s == suc k)) [
        | inl e ↦
            let sk : s ≡ suc k = ground arith in
            let same : clock / 16 ^ s ≡ child = ap (λ (j : ℕ). clock / 16 ^ j) sk in ground arith
        | inr e ↦
            let off : (s + 1 == suc k) ≡ false = ground arith in
            rw (e, off) (g.made s (ground arith) ls)
      ]

  new_node-IsGrown : IsGrown t₀ clock k grown
  new_node-IsGrown = record {
    leaf_same = λ m. leaf_kept m ∙ g.leaf_same m;
    list_same = new_node-list t (suc k) ptr child ∙ g.list_same;
    from_old = kept_old;
    over = λ s m ls h. kept_over s m ls (subst (λ o. is_some o ≡ true) (leaf_kept m) h);
    made = kept_made;
  }

-- A node that is there already.
old_node-IsGrown :
    (t₀ : ActionList) (clock k : ℕ) (t : ActionList)
    → IsGrown t₀ clock (suc k) t
    → t.node (suc k) (clock / 16 ^ suc k) ≡ true
    → IsGrown t₀ clock k t
old_node-IsGrown t₀ clock k t g there = record {
  leaf_same = g.leaf_same;
  list_same = g.list_same;
  from_old = g.from_old;
  over = g.over;
  made = λ s lt ls. elim (Bool-cases (s == suc k)) [
    | inl e ↦ let sk : s ≡ suc k = ground arith in rw sk there
    | inr e ↦ g.made s (ground arith) ls
  ];
}

-- The loop comes down to the entries with the nodes on the way made.
pub add_from-grows :
    (t₀ : ActionList) (clock llnode act k ptr : ℕ) (t : ActionList)
    → Level k
    → clock / 16 ^ k / 16 ≡ ptr
    → IsGrown t₀ clock k t
    → (t₁ : ActionList) × (add_from k t ptr clock llnode act
        ≡ add_leaf t₁ (clock / 16) clock llnode act)
      × IsGrown t₀ clock 0 t₁
unfolding add_from
add_from-grows t₀ clock llnode act zero ptr t l e g =
    (t, ap (λ (p : ℕ). add_leaf t p clock llnode act) (sym e ∙ ground arith), g)
add_from-grows t₀ clock llnode act (suc k) ptr t l e g =
    let at = child_of (suc k) ptr clock e in
    let up = sym (prefix-suc l clock) in
    elim (Bool-cases (t.node (suc k) (clock / 16 ^ suc k))) [
      | inl there ↦
          let rest =
            add_from-grows t₀ clock llnode act k (clock / 16 ^ suc k) t (up-Level l) up
              (old_node-IsGrown t₀ clock k t g there) in
          (rest.0, rw (at, there) rest.1, rest.2)
      | inr gone ↦
          let rest =
            add_from-grows t₀ clock llnode act k (clock / 16 ^ suc k)
              (new_node t (suc k) ptr (clock / 16 ^ suc k)) (up-Level l) up
              (new_node-IsGrown t₀ clock k ptr t l g gone) in
          (rest.0, rw (at, gone) rest.1, rest.2)
    ]
