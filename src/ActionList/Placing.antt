-- ===== src/ActionList/Placing.antt =====
-- Where the node of a new action comes into the list of actionlist.cc.
use c11tester.Base.{
  ℕ, suc, ◌+◌, ◌*◌, ◌/◌, ◌%◌, ◌^◌, ◌<◌, ◌≤◌, ◌≡◌, inl, inr, refl, sym, ap, subst, ◌∙◌, true, ◌&&◌,
  ◌==◌, if◌then◌else◌, Option, none, some, List, [], ◌∷◌, ◌++◌, All, IsIn, arith, update,
  Bool-cases, Option-cases,
}
use mathlib.Core.List.{reverse, append_assoc}
use c11tester.Action.{ModelAction}
use c11tester.SnapList.{SnapList, add_front, insert_after}
use c11tester.SnapList.Chains.{IsList, values}
use c11tester.SnapList.Insertion.{
  add_front-IsList, add_front-val, insert_after-IsList, insert_after-val,
}
use c11tester.ActionList.{ActionList, is_some, find_prev, link_after, add_leaf, add_entry}
use c11tester.ActionList.Digits.{Level-le, past}
use c11tester.ActionList.Search.{IsIndexed, find_prev-IsBefore}
use c11tester.ActionList.Sorted.{last_with, IsSorted, split_at, from_first, append-All}
use c11tester.ActionList.Linking.{link_after-eq, not_itself}
use c11tester.ActionList.Growing.{IsTree, IsGrown}

pub start-IsGrown : (t : ActionList) (clock : ℕ) → IsTree t → IsGrown t clock 7 t
start-IsGrown t clock h = record {
  leaf_same = λ m. refl;
  list_same = refl;
  from_old = λ s q e. inl e;
  over = h.above;
  made = λ s lt l. let le = Level-le l in absurd (omega arith);
}

module _ (t₀ : ActionList) (h : IsTree t₀) (clock : ℕ) (t : ActionList)
    (g : IsGrown t₀ clock 0 t) where
  grown-IsIndexed : IsIndexed t clock
  grown-IsIndexed = record {
    below = λ k q l le e. elim (g.from_old (suc k) q e) [
      | inl e' ↦
          let (m, p, sm) = h.below k q l e' in
          (m, p, subst (λ o. is_some o ≡ true) (sym (g.leaf_same m)) sm)
      | inr qc ↦
          let le' = subst (λ x. (x + 1) * 16 ^ suc k ≤ clock) qc le in
          let lt = past l clock in absurd (omega arith)
    ];
    above = g.over;
  }

  -- With the entry for the clock the tree is complete again.
  pub entered-IsTree :
      (tmp : ℕ) (t' : ActionList)
      → ((s q : ℕ) → t'.node s q ≡ t.node s q)
      → ((m : ℕ) → t'.leaf m ≡ update t.leaf clock (some tmp) m)
      → IsTree t'
  entered-IsTree tmp t' nodes leaves = record {
    below = λ k q l e. elim (g.from_old (suc k) q (sym (nodes (suc k) q) ∙ e)) [
      | inl e' ↦
          let (m, p, sm) = h.below k q l e' in
          let same = g.leaf_same m in
          let sm' : is_some (t.leaf m) ≡ true = subst (λ o. is_some o ≡ true) (sym same) sm in
          (m, p, subst (λ o. is_some o ≡ true) (sym (leaves m)) (ground arith))
      | inr qc ↦ (clock, sym qc, subst (λ o. is_some o ≡ true) (sym (leaves clock)) (ground arith))
    ];
    above = λ k m l sm. nodes (suc k) (m / 16 ^ suc k) ∙ elim (Bool-cases (clock == m)) [
      | inl e ↦
          let cm : clock ≡ m = ground arith in
          subst (λ x. t.node (suc k) (x / 16 ^ suc k) ≡ true) cm (g.made (suc k) (omega arith) l)
      | inr e ↦ g.over k m l (let sm' = subst (λ o. is_some o ≡ true) (leaves m) sm in rw e at sm')
    ];
  }

-- The two outcomes of `add_leaf`.
abbrev occupied : ActionList → ℕ → ℕ → ℕ → ℕ → ℕ → ActionList
occupied t ptr clock llnode act n = record t {
  leaf = update t.leaf clock (some llnode);
  list = link_after t.list n llnode act;
}

abbrev vacant : ActionList → ℕ → ℕ → ℕ → ℕ → Option ℕ → ActionList
vacant t ptr clock llnode act found = record t {
  leaf = update t.leaf clock (some llnode);
  count = λ k q. if k == 1 && q == ptr then t.count k q + 1 else t.count k q;
  list = elim found [
    | none ↦ add_front t.list llnode act
    | some llnodeprev ↦ link_after t.list llnodeprev llnode act
  ];
}

module _ (t : ActionList) (ptr clock llnode act : ℕ) where
  add_leaf-occupied :
      (n : ℕ)
      → 16 * ptr + clock % 16 ≡ clock
      → t.leaf clock ≡ some n
      → add_leaf t ptr clock llnode act ≡ some (occupied t ptr clock llnode act n)
  unfolding add_leaf add_entry
  add_leaf-occupied n place e =
      ap (λ (a : ℕ). add_entry t ptr a clock llnode act) place ∙ rw (e, add_entry) refl

  add_leaf-vacant :
      (found : Option ℕ)
      → 16 * ptr + clock % 16 ≡ clock
      → t.leaf clock ≡ none
      → find_prev t ptr clock ≡ some found
      → add_leaf t ptr clock llnode act ≡ some (vacant t ptr clock llnode act found)
  unfolding add_leaf add_entry
  add_leaf-vacant found place e run =
      ap (λ (a : ℕ). add_entry t ptr a clock llnode act) place ∙ rw (e, run, add_entry) refl

module _ (actions : ℕ → ModelAction) where
  -- The sequence number of the action in a node.
  abbrev pub key_of : SnapList → ℕ → ℕ
  key_of l x = (actions (l.nodes x).val).seq_number

  -- The list of the nodes `xs` in the order of the sequence numbers, with the tree over it.
  pub record IsActionList (t : ActionList) (xs : List ℕ) : Type 0 where
    pub listed : IsList t.list xs
    pub sorted : IsSorted (key_of t.list) xs
    pub leaves : (c : ℕ) → t.leaf c ≡ last_with (key_of t.list) c xs
    pub tree : IsTree t

  -- The actions of the list, the newest first.
  abbrev pub backwards : SnapList → List ℕ → List ℕ
  backwards l xs = reverse (values l.nodes xs)

  -- A node came in between `xs` and `ys`.
  pub record IsInserted (l l' : SnapList) (xs ys : List ℕ) (tmp act : ℕ) : Type 0 where
    pub listed : IsList l' (xs ++ tmp ∷ ys)
    pub vals : (x : ℕ) → (l'.nodes x).val ≡ (if tmp == x then act else (l.nodes x).val)
    pub upto : All (λ y. key_of l y ≤ (actions act).seq_number) xs
    pub after : All (λ y. (actions act).seq_number < key_of l y) ys

  after_node :
      (l : SnapList) (xs ys pre post : List ℕ) (n tmp act : ℕ)
      → IsList l xs
      → xs ≡ pre ++ n ∷ post
      → (IsIn tmp xs → ⊥)
      → key_of l n ≤ (actions act).seq_number
      → All (λ y. key_of l y ≤ (actions act).seq_number) pre
      → All (λ y. (actions act).seq_number < key_of l y) post
      → (xs ≡ (pre ++ n ∷ []) ++ post)
        × IsInserted l (link_after l n tmp act) (pre ++ n ∷ []) post tmp act
  after_node l xs ys pre post n tmp act h e fresh kn upto after =
      let h' = subst (IsList l) e h in
      let same = link_after-eq l n tmp act (not_itself l pre n post h') in
      (
        e ∙ sym (append_assoc pre (n ∷ []) post),
        record {
          listed =
              subst (λ m. IsList m ((pre ++ n ∷ []) ++ tmp ∷ post)) (sym same)
                (subst (IsList (insert_after l n tmp act))
                  (sym (append_assoc pre (n ∷ []) (tmp ∷ post)))
                  (insert_after-IsList l pre n post tmp act h'
                    (subst (λ zs. IsIn tmp zs → ⊥) e fresh)).0);
          vals = λ x.
              subst
                (λ (m : SnapList). (m.nodes x).val ≡ (if tmp == x then act else (l.nodes x).val))
                (sym same) (insert_after-val l n tmp act x);
          upto = append-All (λ y. key_of l y ≤ (actions act).seq_number) pre (n ∷ []) upto (kn, tt);
          after = after;
        },
      )

  -- What `add_leaf` makes of the tree and of the list.
  pub record IsEntered (t₀ t t' : ActionList) (xs : List ℕ) (tmp act : ℕ) : Type 0 where
    pub before_part : List ℕ
    pub after_part : List ℕ
    pub split : xs ≡ before_part ++ after_part
    pub inserted : IsInserted t₀.list t'.list before_part after_part tmp act
    pub nodes : (s q : ℕ) → t'.node s q ≡ t.node s q
    pub leaves : (m : ℕ) → t'.leaf m ≡ update t.leaf (actions act).seq_number (some tmp) m

  module _ (t₀ : ActionList) (xs : List ℕ) (h : IsActionList t₀ xs) (tmp act : ℕ)
      (fresh : IsIn tmp xs → ⊥) (t : ActionList) (g : IsGrown t₀ (actions act).seq_number 0 t)
      (small : (actions act).seq_number < 2 ^ 32) where
    abbrev clock : ℕ
    clock = (actions act).seq_number

    reads : (m : ℕ) → t.leaf m ≡ last_with (key_of t₀.list) m xs
    reads m = g.leaf_same m ∙ h.leaves m

    place : 16 * (clock / 16) + clock % 16 ≡ clock
    place = omega arith

    -- After the last node with a key, where none of the next clocks is there.
    enter_after :
        (m n : ℕ)
        → m ≤ clock
        → t.leaf m ≡ some n
        → ((c : ℕ) → m < c → c ≤ clock → t.leaf c ≡ none)
        → (t' : ActionList) → ((s q : ℕ) → t'.node s q ≡ t.node s q)
        → ((c : ℕ) → t'.leaf c ≡ update t.leaf clock (some tmp) c)
        → t'.list ≡ link_after t.list n tmp act
        → IsEntered t₀ t t' xs tmp act
    enter_after m n le e none' t' nodes leaves list =
        let (pre, post, eq, kn, after, upto) =
          split_at (key_of t₀.list) clock m n xs h.sorted le (sym (reads m) ∙ e)
            (λ c lo hi. sym (reads c) ∙ none' c lo hi) in
        let (split, ins) =
          after_node t₀.list xs [] pre post n tmp act h.listed eq fresh (omega (arith, kn, le)) upto
            after in
        record {
          before_part = pre ++ n ∷ [];
          after_part = post;
          split = split;
          inserted =
              subst (λ l. IsInserted t₀.list l (pre ++ n ∷ []) post tmp act)
                (sym (list ∙ ap (λ l. link_after l n tmp act) g.list_same)) ins;
          nodes = nodes;
          leaves = leaves;
        }

    enter_first :
        ((c : ℕ) → c ≤ clock → t.leaf c ≡ none)
        → (t' : ActionList) → ((s q : ℕ) → t'.node s q ≡ t.node s q)
        → ((c : ℕ) → t'.leaf c ≡ update t.leaf clock (some tmp) c)
        → t'.list ≡ add_front t.list tmp act
        → IsEntered t₀ t t' xs tmp act
    enter_first none' t' nodes leaves list =
        let same : add_front t₀.list tmp act ≡ t'.list =
          sym (list ∙ ap (λ l. add_front l tmp act) g.list_same) in
        record {
          before_part = [];
          after_part = xs;
          split = refl;
          inserted =
              subst (λ l. IsInserted t₀.list l [] xs tmp act) same
                (record {
                  listed = (add_front-IsList xs tmp act h.listed fresh).0;
                  vals = add_front-val t₀.list tmp act;
                  upto = tt;
                  after = from_first (key_of t₀.list) clock xs (λ c le. sym (reads c) ∙ none' c le);
                });
          nodes = nodes;
          leaves = leaves;
        }

    pub add_leaf-IsEntered :
        (t' : ActionList) × (add_leaf t (clock / 16) clock tmp act ≡ some t')
        × IsEntered t₀ t t' xs tmp act
    add_leaf-IsEntered = elim (Option-cases (t.leaf clock)) [
      | inr (n, e) ↦ (
        occupied t (clock / 16) clock tmp act n,
        add_leaf-occupied t (clock / 16) clock tmp act n place e,
        enter_after clock n (omega arith) e (λ c lo hi. absurd (omega arith))
            (occupied t (clock / 16) clock tmp act n) (λ s q. refl) (λ c. refl) refl,
      )
      | inl e ↦
          let (r, run, b) =
            find_prev-IsBefore t clock (grown-IsIndexed t₀ h.tree clock t g) small in
          let upto : (c : ℕ) → c ≤ clock → (c < clock → t.leaf c ≡ none) → t.leaf c ≡ none =
            λ c le lt. elim (Bool-cases (c == clock)) [
              | inl same ↦ let cc' : c ≡ clock = ground arith in rw cc' e
              | inr other ↦ lt (ground arith)
            ] in
          elim b [
            | inl (rn, none') ↦ (
              vacant t (clock / 16) clock tmp act none,
              add_leaf-vacant t (clock / 16) clock tmp act none place e (run ∙ ap some rn),
              enter_first (λ c le. upto c le (none' c)) (vacant t (clock / 16) clock tmp act none)
                  (λ s q. refl) (λ c. refl) refl,
            )
            | inr (m, lt, mr, sr, none') ↦ elim (Option-cases r) [
              | inl rn ↦ absurd (ground arith)
              | inr (n, rs) ↦ (
                vacant t (clock / 16) clock tmp act (some n),
                add_leaf-vacant t (clock / 16) clock tmp act (some n) place e (run ∙ ap some rs),
                enter_after m n (omega arith) (mr ∙ rs)
                    (λ c lo hi. upto c hi (λ hi'. none' c lo hi'))
                    (vacant t (clock / 16) clock tmp act (some n)) (λ s q. refl) (λ c. refl) refl,
              )
            ]
          ]
    ]
