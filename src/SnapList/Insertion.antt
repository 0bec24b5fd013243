-- ===== src/SnapList/Insertion.antt =====
-- Nodes that come into a list of stl-model.h: at its front, and after a node of it.
use c11tester.Base.{
  ℕ, ◌≡◌, ◌≢◌, inl, inr, refl, sym, ap, ◌∙◌, Option, none, some, ◌==◌, if◌then◌else◌, List, [], ◌∷◌,
  ◌++◌, length-append, IsIn, append_right-IsIn, append_left-IsIn, arith, subst, update,
  Option-cases,
}
use c11tester.SnapList.{SllNode, SnapList, set_next, set_prev, add_front, add_back, insert_after}
use c11tester.SnapList.Chains.{
  first, last, Chain, IsApart, IsList, values, Chain-append, Chain-elsewhere, Chain-set_prev,
  IsApart-append, last-append, first-append, values-same, values-elsewhere,
}

cons-eq : {a b : ℕ} {xs ys : List ℕ} → a ≡ b → xs ≡ ys → a ∷ xs ≡ b ∷ ys
cons-eq p q = λ i. p i ∷ q i

append-eq : {xs ys xs' ys' : List ℕ} → xs ≡ xs' → ys ≡ ys' → xs ++ ys ≡ xs' ++ ys'
append-eq p q = λ i. p i ++ q i

values-append :
    (nodes : ℕ → SllNode) (xs ys : List ℕ)
    → values nodes (xs ++ ys) ≡ values nodes xs ++ values nodes ys
values-append nodes [] ys = refl
values-append nodes (x ∷ xs) ys = ap (λ zs. (nodes x).val ∷ zs) (values-append nodes xs ys)

-- `add_front` puts the new node before the others, and these keep what they hold.
pub add_front-IsList :
    {l : SnapList} (xs : List ℕ) (tmp val : ℕ)
    → IsList l xs
    → (IsIn tmp xs → ⊥)
    → IsList (add_front l tmp val) (tmp ∷ xs)
      × (values (add_front l tmp val).nodes (tmp ∷ xs) ≡ val ∷ values l.nodes xs)
unfolding add_front
add_front-IsList {l} [] tmp val h fresh = (
  record {
    from_head = refl;
    to_tail = rw h.from_head refl;
    chain = rw h.from_head (ground arith, ground arith, tt);
    apart = (fresh, tt);
    count = omega (arith, h.count);
  },
  rw h.from_head (ground arith),
)
add_front-IsList {l} (x ∷ xs) tmp val h fresh =
    let node : SllNode = record { next = l.head; prev = none; val = val } in
    let nodes = update l.nodes tmp node in
    let ne : x ≢ tmp = λ e. fresh (inl (sym e)) in
    let c = Chain-elsewhere l.nodes tmp node none (x ∷ xs) none fresh h.chain in
    let told : Option ℕ → ℕ → SllNode =
      λ o. elim o [ none ↦ nodes | some first ↦ set_prev nodes first (some tmp) ] in
    let all : (add_front l tmp val).nodes ≡ set_prev nodes x (some tmp) = ap told h.from_head in
    (
      record {
        from_head = refl;
        to_tail = rw h.from_head h.to_tail;
        chain =
            subst (λ n. Chain n none (tmp ∷ x ∷ xs) none) (sym all)
              (
                ground arith,
                ground (arith, h.from_head),
                Chain-set_prev nodes none (some tmp) x xs none h.apart c,
              );
        apart = (fresh, h.apart);
        count = omega (arith, h.count);
      },
      subst (λ n. values n (tmp ∷ x ∷ xs) ≡ val ∷ values l.nodes (x ∷ xs)) (sym all)
          (values-same (set_prev nodes x (some tmp)) nodes (λ y. ground arith) (tmp ∷ x ∷ xs)
            ∙ cons-eq (ground arith) (values-elsewhere l.nodes tmp node (x ∷ xs) fresh)),
    )

-- The links around a node that comes in.
module _ (l : SnapList) (xs : List ℕ) (n : ℕ) (ys : List ℕ) (tmp val : ℕ)
    (h : IsList l (xs ++ n ∷ ys)) (fresh : IsIn tmp (xs ++ n ∷ ys) → ⊥) where
  parts : Chain l.nodes none xs (some n) × Chain l.nodes (last none xs) (n ∷ ys) none
  parts = (Chain-append l.nodes none xs (n ∷ ys) none).0 h.chain

  between : SllNode
  between = record { next = first ys none; prev = some n; val = val }

  -- The nodes with the new one, before the node after it is told.
  linked : ℕ → SllNode
  linked = set_next (update l.nodes tmp between) n (some tmp)

  around : (x : ℕ) → x ≢ tmp → x ≢ n → linked x ≡ l.nodes x
  unfolding linked between
  around x p q = ground arith

  linked-chain :
      Chain linked none xs (some n)
      × ((linked n).prev ≡ last none xs)
      × ((linked n).next ≡ some tmp)
      × ((linked tmp).prev ≡ some n)
      × ((linked tmp).next ≡ first ys none)
      × Chain linked (some n) ys none
  unfolding linked between
  linked-chain =
      let a = (IsApart-append xs (n ∷ ys)).0 h.apart in
      let tn : tmp ≢ n = λ e. fresh (append_right-IsIn tmp xs (n ∷ ys) (inl e)) in
      let mid = update l.nodes tmp between in
      (
        Chain-elsewhere mid n (record (mid n) { next = some tmp }) none xs (some n)
            (λ i. a.2 n i (inl refl))
            (Chain-elsewhere l.nodes tmp between none xs (some n)
              (λ i. fresh (append_left-IsIn tmp xs (n ∷ ys) i)) parts.0),
        ground (arith, parts.1.0),
        ground arith,
        ground arith,
        ground arith,
        Chain-elsewhere mid n (record (mid n) { next = some tmp }) (some n) ys none a.1.0
            (Chain-elsewhere l.nodes tmp between (some n) ys none
              (λ i. fresh (append_right-IsIn tmp xs (n ∷ ys) (inr i))) parts.1.2),
      )

  linked-values :
      values linked (xs ++ n ∷ tmp ∷ ys)
      ≡ values l.nodes xs ++ (l.nodes n).val ∷ val ∷ values l.nodes ys
  unfolding linked between
  linked-values =
      let a = (IsApart-append xs (n ∷ ys)).0 h.apart in
      let tn : tmp ≢ n = λ e. fresh (append_right-IsIn tmp xs (n ∷ ys) (inl e)) in
      let mid = update l.nodes tmp between in
      let part : (zs : List ℕ) → (IsIn tmp zs → ⊥) → values linked zs ≡ values l.nodes zs = λ zs p.
        values-same linked mid (λ y. ground arith) zs ∙ values-elsewhere l.nodes tmp between zs p in
      values-append linked xs (n ∷ tmp ∷ ys)
      ∙ append-eq (part xs (λ i. fresh (append_left-IsIn tmp xs (n ∷ ys) i))) (
          cons-eq (ground arith) (
            cons-eq (ground arith)
              (part ys (λ i. fresh (append_right-IsIn tmp xs (n ∷ ys) (inr i))))))

-- The nodes of `insert_after`, by the link that the given node had.
told : SnapList → ℕ → ℕ → ℕ → Option ℕ → ℕ → SllNode
told l n tmp val o =
    let nodes =
      set_next (update l.nodes tmp (record { next = o; prev = some n; val = val })) n (some tmp) in
    elim o [ none ↦ nodes | some after ↦ set_prev nodes after (some tmp) ]

module _ (l : SnapList) (xs : List ℕ) (n : ℕ) where
  told-none :
      (tmp val : ℕ) (h : IsList l (xs ++ n ∷ [])) (fresh : IsIn tmp (xs ++ n ∷ []) → ⊥)
      → told l n tmp val none ≡ linked l xs n [] tmp val h fresh
  unfolding told linked between
  told-none tmp val h fresh = refl

  told-some :
      (y : ℕ) (ys : List ℕ) (tmp val : ℕ) (h : IsList l (xs ++ n ∷ y ∷ ys))
      (fresh : IsIn tmp (xs ++ n ∷ y ∷ ys) → ⊥)
      → told l n tmp val (some y) ≡ set_prev (linked l xs n (y ∷ ys) tmp val h fresh) y (some tmp)
  unfolding told linked between
  told-some y ys tmp val h fresh = refl

-- The new node is no other one.
fresh-IsApart :
    (xs : List ℕ) (n : ℕ) (ys : List ℕ) (tmp : ℕ)
    → IsApart (xs ++ n ∷ ys)
    → (IsIn tmp (xs ++ n ∷ ys) → ⊥)
    → IsApart (xs ++ n ∷ tmp ∷ ys)
fresh-IsApart xs n ys tmp h fresh =
    let a = (IsApart-append xs (n ∷ ys)).0 h in
    (IsApart-append xs (n ∷ tmp ∷ ys)).1 (
      a.0,
      (
        λ i. elim i [
          | inl e ↦ fresh (append_right-IsIn tmp xs (n ∷ ys) (inl (sym e)))
          | inr k ↦ a.1.0 k
        ],
        (λ i. fresh (append_right-IsIn tmp xs (n ∷ ys) (inr i)), a.1.1),
      ),
      λ b i j. elim j [
        | inl e ↦ a.2 b i (inl e)
        | inr k ↦ elim k [
          | inl e ↦ fresh (append_left-IsIn tmp xs (n ∷ ys) (subst (λ c. IsIn c xs) e i))
          | inr k' ↦ a.2 b i (inr k')
        ]
      ],
    )

-- `insert_after` puts the new node after the given one, and all others keep what they hold.
pub insert_after-IsList :
    (l : SnapList) (xs : List ℕ) (n : ℕ) (ys : List ℕ) (tmp val : ℕ)
    → IsList l (xs ++ n ∷ ys)
    → (IsIn tmp (xs ++ n ∷ ys) → ⊥)
    → IsList (insert_after l n tmp val) (xs ++ n ∷ tmp ∷ ys)
      × (values (insert_after l n tmp val).nodes (xs ++ n ∷ tmp ∷ ys)
          ≡ values l.nodes xs ++ (l.nodes n).val ∷ val ∷ values l.nodes ys)
unfolding insert_after told
insert_after-IsList l xs n [] tmp val h fresh =
    let c = linked-chain l xs n [] tmp val h fresh in
    let next : (l.nodes n).next ≡ none = (parts l xs n [] tmp val h fresh).1.1 in
    let all : (insert_after l n tmp val).nodes ≡ linked l xs n [] tmp val h fresh =
      ap (told l n tmp val) next ∙ told-none l xs n tmp val h fresh in
    (
      record {
        from_head = h.from_head ∙ first-append xs n [] (tmp ∷ []) none none;
        to_tail = rw next (sym (last-append none xs n (tmp ∷ [])));
        chain =
            subst (λ f. Chain f none (xs ++ n ∷ tmp ∷ []) none) (sym all)
              ((Chain-append (linked l xs n [] tmp val h fresh) none xs (n ∷ tmp ∷ []) none).1
                (c.0, (c.1, c.2, (c.3, c.4, tt))));
        apart = fresh-IsApart xs n [] tmp h.apart fresh;
        count = omega (arith, h.count, length-append xs (n ∷ []), length-append xs (n ∷ tmp ∷ []));
      },
      subst (λ f. values f (xs ++ n ∷ tmp ∷ []) ≡ values l.nodes xs ++ (l.nodes n).val ∷ val ∷ [])
          (sym all) (linked-values l xs n [] tmp val h fresh),
    )
insert_after-IsList l xs n (y ∷ ys) tmp val h fresh =
    let c = linked-chain l xs n (y ∷ ys) tmp val h fresh in
    let f = linked l xs n (y ∷ ys) tmp val h fresh in
    let next : (l.nodes n).next ≡ some y = (parts l xs n (y ∷ ys) tmp val h fresh).1.1 in
    let all : (insert_after l n tmp val).nodes ≡ set_prev f y (some tmp) =
      ap (told l n tmp val) next ∙ told-some l xs n y ys tmp val h fresh in
    let a = (IsApart-append xs (n ∷ y ∷ ys)).0 h.apart in
    let ny : n ≢ y = λ e. a.1.0 (inl e) in
    let ty : tmp ≢ y = λ e. fresh (append_right-IsIn tmp xs (n ∷ y ∷ ys) (inr (inl e))) in
    (
      record {
        from_head = h.from_head ∙ first-append xs n (y ∷ ys) (tmp ∷ y ∷ ys) none none;
        to_tail = rw next (
            h.to_tail
            ∙ last-append none xs n (y ∷ ys)
            ∙ sym (last-append none xs n (tmp ∷ y ∷ ys)));
        chain =
            subst (λ g. Chain g none (xs ++ n ∷ tmp ∷ y ∷ ys) none) (sym all)
              ((Chain-append (set_prev f y (some tmp)) none xs (n ∷ tmp ∷ y ∷ ys) none).1 (
                Chain-elsewhere f y (record (f y) { prev = some tmp }) none xs (some n)
                    (λ i. a.2 y i (inr (inl refl))) c.0,
                (
                  ground (arith, c.1),
                  ground (arith, c.2),
                  (
                    ground (arith, c.3),
                    ground (arith, c.4),
                    Chain-set_prev f (some n) (some tmp) y ys none a.1.1 c.5,
                  ),
                ),
              ));
        apart = fresh-IsApart xs n (y ∷ ys) tmp h.apart fresh;
        count =
            omega
              (arith, h.count, length-append xs (n ∷ y ∷ ys), length-append xs (n ∷ tmp ∷ y ∷ ys));
      },
      subst
          (λ g.
            values g (xs ++ n ∷ tmp ∷ y ∷ ys)
            ≡ values l.nodes xs ++ (l.nodes n).val ∷ val ∷ values l.nodes (y ∷ ys))
          (sym all)
          (values-same (set_prev f y (some tmp)) f (λ x. ground arith) (xs ++ n ∷ tmp ∷ y ∷ ys)
            ∙ linked-values l xs n (y ∷ ys) tmp val h fresh),
    )

-- What the nodes hold, once there is a new one.
pub insert_after-val :
    (l : SnapList) (n tmp val x : ℕ)
    → ((insert_after l n tmp val).nodes x).val ≡ (if tmp == x then val else (l.nodes x).val)
unfolding insert_after
insert_after-val l n tmp val x = elim (Option-cases (l.nodes n).next) [
  | inl e ↦ ground (arith, e)
  | inr (y, e) ↦ ground (arith, e)
]

pub add_back-val :
    (l : SnapList) (tmp val x : ℕ)
    → ((add_back l tmp val).nodes x).val ≡ (if tmp == x then val else (l.nodes x).val)
unfolding add_back
add_back-val l tmp val x = elim (Option-cases l.tail) [
  | inl e ↦ ground (arith, e)
  | inr (y, e) ↦ ground (arith, e)
]

pub add_front-val :
    (l : SnapList) (tmp val x : ℕ)
    → ((add_front l tmp val).nodes x).val ≡ (if tmp == x then val else (l.nodes x).val)
unfolding add_front
add_front-val l tmp val x = elim (Option-cases l.head) [
  | inl e ↦ ground (arith, e)
  | inr (y, e) ↦ ground (arith, e)
]
