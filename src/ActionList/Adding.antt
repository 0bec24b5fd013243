-- ===== src/ActionList/Adding.antt =====
-- `addAction` of actionlist.cc against the ordered list that the execution works with.
use c11tester.Base.{
  ℕ, ◌/◌, ◌^◌, ◌<◌, ◌≤◌, ◌≡◌, ◌≢◌, ◌⊎◌, inl, inr, refl, sym, ap, subst, fun_ext, ◌∙◌, true, false,
  ◌==◌, leb, if◌then◌else◌, some, List, [], ◌∷◌, ◌++◌, All, IsIn, IsIn-append, append_left-IsIn,
  append_right-IsIn, arith, Bool-cases,
}
use mathlib.Core.List.{reverse, reverse-append, reverse-cons, append_assoc}
use c11tester.Action.{ModelAction}
use c11tester.Execution.Lists
use c11tester.SnapList
use c11tester.SnapList.{SllNode, SnapList, set_next, set_prev, more, add_front, insert_after}
use c11tester.SnapList.Chains.{values}
use c11tester.ActionList.{ActionList, add_action, new, clear}
use c11tester.ActionList.Digits.{l7}
use c11tester.ActionList.Sorted.{
  last_with, IsSorted, with_key, insert-IsSorted, last_with-insert, append-All,
}
use c11tester.ActionList.Growing.{IsGrown, add_from-grows}
use c11tester.ActionList.Placing.{
  start-IsGrown, entered-IsTree, key_of, IsActionList, backwards, IsEntered, add_leaf-IsEntered,
}

one_more : (x tmp : ℕ) (xs ys : List ℕ) → IsIn x (xs ++ tmp ∷ ys) → (x ≡ tmp) ⊎ IsIn x (xs ++ ys)
one_more x tmp xs ys i = elim (IsIn-append x xs (tmp ∷ ys) i) [
  | inl j ↦ inr (append_left-IsIn x xs ys j)
  | inr j ↦ elim j [ inl e ↦ inl e | inr j' ↦ inr (append_right-IsIn x xs ys j') ]
]

module _ (actions : ℕ → ModelAction) where
  values-other :
      (l l' : SnapList) (tmp act : ℕ) (xs : List ℕ)
      → ((x : ℕ) → (l'.nodes x).val ≡ (if tmp == x then act else (l.nodes x).val))
      → (IsIn tmp xs → ⊥)
      → values l'.nodes xs ≡ values l.nodes xs
  values-other l l' tmp act [] h fresh = refl
  values-other l l' tmp act (x ∷ xs) h fresh =
      let ne : tmp ≢ x = λ e. fresh (inl e) in
      let same : (l'.nodes x).val ≡ (l.nodes x).val = ground (arith, h x) in
      λ i. same i ∷ values-other l l' tmp act xs h (λ j. fresh (inr j)) i

  values-append :
      (nodes : ℕ → SllNode) (xs ys : List ℕ)
      → values nodes (xs ++ ys) ≡ values nodes xs ++ values nodes ys
  values-append nodes [] ys = refl
  values-append nodes (x ∷ xs) ys = ap (λ zs. (nodes x).val ∷ zs) (values-append nodes xs ys)

  abbrev seq : ℕ → ℕ
  seq a = (actions a).seq_number

  -- The ordered list passes the newer actions, and stops at the first other one.
  add-pass :
      (act : ℕ) (xs ys : List ℕ)
      → All (λ a. seq act < seq a) xs
      → Lists.add_action actions (xs ++ ys) act ≡ xs ++ Lists.add_action actions ys act
  unfolding Lists.add_action
  add-pass act [] ys h = refl
  add-pass act (x ∷ xs) ys h =
      let newer : leb (seq x) (seq act) ≡ false = ground arith in
      rw newer (ap (λ zs. x ∷ zs) (add-pass act xs ys h.1))

  add-stop :
      (act : ℕ) (xs : List ℕ)
      → All (λ a. seq a ≤ seq act) xs
      → Lists.add_action actions xs act ≡ act ∷ xs
  unfolding Lists.add_action
  add-stop act [] h = refl
  add-stop act (x ∷ xs) h = let older : leb (seq x) (seq act) ≡ true = ground arith in rw older refl

  All-reverse : (P : ℕ → Type 0) (xs : List ℕ) → All P xs → All P (reverse xs)
  All-reverse P [] h = tt
  All-reverse P (x ∷ xs) h =
      subst (All P) (sym (reverse-cons x xs))
        (append-All P (reverse xs) (x ∷ []) (All-reverse P xs h.1) (h.0, tt))

  All-values :
      (P : ℕ → Type 0) (l : SnapList) (xs : List ℕ)
      → All (λ y. P (l.nodes y).val) xs
      → All P (values l.nodes xs)
  All-values P l [] h = tt
  All-values P l (x ∷ xs) h = (h.0, All-values P l xs h.1)

  choose_key :
      (tmp x act val : ℕ)
      → seq (if tmp == x then act else val) ≡ (if tmp == x then seq act else seq val)
  choose_key tmp x act val = elim (Bool-cases (tmp == x)) [ inl e ↦ rw e refl | inr e ↦ rw e refl ]

  -- An action in its place, against the ordered list.
  in_order :
      (act : ℕ) (xs ys : List ℕ)
      → All (λ a. seq a ≤ seq act) xs
      → All (λ a. seq act < seq a) ys
      → reverse (xs ++ act ∷ ys) ≡ Lists.add_action actions (reverse (xs ++ ys)) act
  in_order act xs ys upto after =
      reverse-append xs (act ∷ ys)
      ∙ ap (λ zs. zs ++ reverse xs) (reverse-cons act ys)
      ∙ append_assoc (reverse ys) (act ∷ []) (reverse xs)
      ∙ sym (
          ap (λ zs. Lists.add_action actions zs act) (reverse-append xs ys)
          ∙ add-pass act (reverse ys) (reverse xs) (All-reverse (λ a. seq act < seq a) ys after)
          ∙ ap (λ zs. reverse ys ++ zs)
              (add-stop act (reverse xs) (All-reverse (λ a. seq a ≤ seq act) xs upto)))

  module _ (t₀ : ActionList) (xs : List ℕ) (h : IsActionList actions t₀ xs) (tmp act : ℕ)
      (fresh : IsIn tmp xs → ⊥) (t : ActionList) (g : IsGrown t₀ (seq act) 0 t) (t' : ActionList)
      (e : IsEntered actions t₀ t t' xs tmp act) where
    entered-backwards :
        backwards actions t'.list (e.before_part ++ tmp ∷ e.after_part)
        ≡ Lists.add_action actions (backwards actions t₀.list xs) act
    entered-backwards =
        let l = t₀.list in
        let l' = t'.list in
        let fresh' = subst (λ zs. IsIn tmp zs → ⊥) e.split fresh in
        let left =
          values-other l l' tmp act e.before_part e.inserted.vals
            (λ i. fresh' (append_left-IsIn tmp e.before_part e.after_part i)) in
        let right =
          values-other l l' tmp act e.after_part e.inserted.vals
            (λ i. fresh' (append_right-IsIn tmp e.before_part e.after_part i)) in
        let mid : (l'.nodes tmp).val ≡ act = ground (arith, e.inserted.vals tmp) in
        ap reverse (
          values-append l'.nodes e.before_part (tmp ∷ e.after_part)
          ∙ (λ i. left i ++ (mid i ∷ right i)))
        ∙ in_order act (values l.nodes e.before_part) (values l.nodes e.after_part)
            (All-values (λ a. seq a ≤ seq act) l e.before_part e.inserted.upto)
            (All-values (λ a. seq act < seq a) l e.after_part e.inserted.after)
        ∙ ap (λ zs. Lists.add_action actions (reverse zs) act)
            (sym (values-append l.nodes e.before_part e.after_part)
              ∙ ap (values l.nodes) (sym e.split))

    entered-IsActionList : IsActionList actions t' (e.before_part ++ tmp ∷ e.after_part)
    entered-IsActionList =
        let fresh' = subst (λ zs. IsIn tmp zs → ⊥) e.split fresh in
        let key = key_of actions t₀.list in
        let keys : key_of actions t'.list ≡ with_key key tmp (seq act) =
          fun_ext (λ x. ap seq (e.inserted.vals x) ∙ choose_key tmp x act (t₀.list.nodes x).val) in
        record {
          listed = e.inserted.listed;
          sorted =
              subst (λ k. IsSorted k (e.before_part ++ tmp ∷ e.after_part)) (sym keys)
                (insert-IsSorted key tmp (seq act) e.before_part e.after_part fresh'
                  (subst (IsSorted key) e.split h.sorted) e.inserted.upto e.inserted.after);
          leaves = λ c.
              e.leaves c
              ∙ ap (λ o. if seq act == c then some tmp else o)
                  (g.leaf_same c ∙ h.leaves c ∙ ap (last_with key c) e.split)
              ∙ sym (
                  ap (λ k. last_with k c (e.before_part ++ tmp ∷ e.after_part)) keys
                  ∙ last_with-insert key tmp (seq act) c e.before_part e.after_part fresh'
                      e.inserted.after);
          tree = entered-IsTree t₀ h.tree (seq act) t g tmp t' e.nodes e.leaves;
        }

  -- `addAction` ends within its fuel, on a list in the order of the sequence numbers and for a new
  -- node and a 32-bit sequence number, wherever the action comes in; it keeps the order and the
  -- tree, and the actions are then those of the ordered list of the execution with this one added;
  -- no other node comes into the list.
  pub add_action-Lists :
      (t : ActionList) (xs : List ℕ) (tmp act : ℕ)
      → IsActionList actions t xs
      → (IsIn tmp xs → ⊥)
      → (actions act).seq_number < 2 ^ 32
      → (t' : ActionList) × (xs' : List ℕ) × (add_action t (actions act).seq_number tmp act
          ≡ some t')
        × IsActionList actions t' xs'
        × (backwards actions t'.list xs'
            ≡ Lists.add_action actions (backwards actions t.list xs) act)
        × ((x : ℕ) → IsIn x xs' → (x ≡ tmp) ⊎ IsIn x xs)
  unfolding add_action
  add_action-Lists t xs tmp act h fresh small =
      let top : seq act / 16 ^ 7 / 16 ≡ 0 = omega arith in
      let (t₁, down, g) =
        add_from-grows t (seq act) tmp act 7 0 t l7 top (start-IsGrown t (seq act) h.tree) in
      let (t', leaf, e) = add_leaf-IsEntered actions t xs h tmp act fresh t₁ g small in
      (
        t',
        e.before_part ++ tmp ∷ e.after_part,
        down ∙ leaf,
        entered-IsActionList t xs h tmp act fresh t₁ g t' e,
        entered-backwards t xs h tmp act fresh t₁ g t' e,
        λ x i.
            subst (λ zs. (x ≡ tmp) ⊎ IsIn x zs) (sym e.split)
              (one_more x tmp e.before_part e.after_part i),
      )

  -- A new list, and one that was cleared, has no action.
  pub new-IsActionList : IsActionList actions new []
  unfolding new
  new-IsActionList = record {
    listed = record {
      from_head = refl;
      to_tail = refl;
      chain = tt;
      apart = tt;
      count = omega arith;
    };
    sorted = tt;
    leaves = λ c. refl;
    tree = record {
      below = λ k q l e. absurd (ground arith);
      above = λ k m l e. absurd (ground arith);
    };
  }

  pub clear-IsActionList : (t : ActionList) → IsActionList actions (clear t) []
  unfolding clear SnapList.clear
  clear-IsActionList t = record {
    listed = record {
      from_head = refl;
      to_tail = refl;
      chain = tt;
      apart = tt;
      count = omega arith;
    };
    sorted = tt;
    leaves = λ c. refl;
    tree = record {
      below = λ k q l e. absurd (ground arith);
      above = λ k m l e. absurd (ground arith);
    };
  }
