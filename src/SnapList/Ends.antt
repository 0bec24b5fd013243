-- ===== src/SnapList/Ends.antt =====
-- The two ends of a list of stl-model.h.
use c11tester.Base.{
  ℕ, ◌≡◌, ◌⊎◌, inl, inr, refl, sym, ap, ◌∙◌, Option, none, some, List, [], ◌∷◌, ◌++◌, length,
  length-append, IsIn, arith, subst, update,
}
use mathlib.Core.List.{append_assoc}
use c11tester.SnapList.{
  SnapList, set_next, set_prev, more, fewer, add_front, add_back, insert_after, pop_front, pop_back,
}
use c11tester.SnapList.Chains.{
  first, last, Chain, IsApart, IsList, Chain-append, Chain-set_prev, Chain-set_next, IsApart-append,
  last-append, first-append,
}
use c11tester.SnapList.Insertion.{add_front-IsList, insert_after-IsList}

-- The insertions, as functions of the link that they test.
by_tail : SnapList → ℕ → ℕ → Option ℕ → SnapList
by_tail l tmp val o =
    let nodes = update l.nodes tmp (record { next = none; prev = o; val = val }) in
    record {
      nodes = elim o [ none ↦ nodes | some last ↦ set_next nodes last (some tmp) ];
      head = elim o [ none ↦ some tmp | some last ↦ l.head ];
      tail = some tmp;
      size = more l.size;
    }

by_head : SnapList → ℕ → ℕ → Option ℕ → SnapList
by_head l tmp val o =
    let nodes = update l.nodes tmp (record { next = o; prev = none; val = val }) in
    record {
      nodes = elim o [ none ↦ nodes | some first ↦ set_prev nodes first (some tmp) ];
      head = some tmp;
      tail = elim o [ none ↦ some tmp | some first ↦ l.tail ];
      size = more l.size;
    }

by_next : SnapList → ℕ → ℕ → ℕ → Option ℕ → SnapList
by_next l node tmp val o =
    let nodes =
      set_next (update l.nodes tmp (record { next = o; prev = some node; val = val })) node
        (some tmp) in
    record {
      nodes = elim o [ none ↦ nodes | some after ↦ set_prev nodes after (some tmp) ];
      head = l.head;
      tail = elim o [ none ↦ some tmp | some after ↦ l.tail ];
      size = more l.size;
    }

-- A node after the last one.
add_back-insert_after :
    (l : SnapList) (n tmp val : ℕ)
    → l.tail ≡ some n
    → (l.nodes n).next ≡ none
    → add_back l tmp val ≡ insert_after l n tmp val
unfolding add_back insert_after by_tail by_next
add_back-insert_after l n tmp val t e = ap (by_tail l tmp val) t ∙ sym (ap (by_next l n tmp val) e)

add_back-add_front :
    (l : SnapList) (tmp val : ℕ)
    → l.tail ≡ none
    → l.head ≡ none
    → add_back l tmp val ≡ add_front l tmp val
unfolding add_back add_front by_tail by_head
add_back-add_front l tmp val t h = ap (by_tail l tmp val) t ∙ sym (ap (by_head l tmp val) h)

last_node : (xs : List ℕ) → (xs ≡ []) ⊎ ((i : List ℕ) × (n : ℕ) × (xs ≡ i ++ n ∷ []))
last_node [] = inl refl
last_node (x ∷ xs) = elim (last_node xs) [
  | inl e ↦ inr ([], x, ap (λ ys. x ∷ ys) e)
  | inr (i, n, e) ↦ inr (x ∷ i, n, ap (λ ys. x ∷ ys) e)
]

-- `add_back` puts the new node behind the others.
pub add_back-IsList :
    (l : SnapList) (xs : List ℕ) (tmp val : ℕ)
    → IsList l xs
    → (IsIn tmp xs → ⊥)
    → IsList (add_back l tmp val) (xs ++ tmp ∷ [])
add_back-IsList l xs tmp val h fresh = elim (last_node xs) [
  | inl e ↦
      let h' = subst (IsList l) e h in
      subst (λ ys. IsList (add_back l tmp val) (ys ++ tmp ∷ [])) (sym e)
        (subst (λ m. IsList m (tmp ∷ []))
          (sym (add_back-add_front l tmp val h'.to_tail h'.from_head))
          (add_front-IsList [] tmp val h' (λ i. i)).0)
  | inr (i, n, e) ↦
      let h' = subst (IsList l) e h in
      let t : l.tail ≡ some n = h'.to_tail ∙ last-append none i n [] in
      let c = ((Chain-append l.nodes none i (n ∷ []) none).0 h'.chain).1 in
      subst (λ ys. IsList (add_back l tmp val) (ys ++ tmp ∷ [])) (sym e)
        (subst (λ m. IsList m ((i ++ n ∷ []) ++ tmp ∷ []))
          (sym (add_back-insert_after l n tmp val t c.1))
          (subst (IsList (insert_after l n tmp val)) (sym (append_assoc i (n ∷ []) (tmp ∷ [])))
            (insert_after-IsList l i n [] tmp val h' (subst (λ ys. IsIn tmp ys → ⊥) e fresh)).0))
]

-- `pop_front` takes the first node away.
pub pop_front-IsList :
    (l : SnapList) (x : ℕ) (xs : List ℕ)
    → IsList l (x ∷ xs)
    → (l' : SnapList) × (pop_front l ≡ some l') × IsList l' xs
unfolding pop_front
pop_front-IsList l x [] h = (
  record { nodes = l.nodes; head = none; tail = none; size = fewer l.size },
  rw (h.from_head, h.chain.1) refl,
  record {
    from_head = refl;
    to_tail = refl;
    chain = tt;
    apart = tt;
    count = omega (arith, h.count);
  },
)
pop_front-IsList l x (y ∷ ys) h = (
  record { nodes = set_prev l.nodes y none; head = some y; tail = l.tail; size = fewer l.size },
  rw (h.from_head, h.chain.1) refl,
  record {
    from_head = refl;
    to_tail = h.to_tail;
    chain = Chain-set_prev l.nodes (some x) none y ys none h.apart.1 h.chain.2;
    apart = h.apart.1;
    count = omega (arith, h.count);
  },
)

-- `pop_back` takes the last node away.
pub pop_back-IsList :
    (l : SnapList) (xs : List ℕ) (n : ℕ)
    → IsList l (xs ++ n ∷ [])
    → (l' : SnapList) × (pop_back l ≡ some l') × IsList l' xs
unfolding pop_back
pop_back-IsList l xs n h =
    let t : l.tail ≡ some n = h.to_tail ∙ last-append none xs n [] in
    let c = (Chain-append l.nodes none xs (n ∷ []) none).0 h.chain in
    let a = (IsApart-append xs (n ∷ [])).0 h.apart in
    elim (last_node xs) [
      | inl e ↦
          let p : (l.nodes n).prev ≡ none = c.1.0 ∙ ap (last none) e in
          (
            record { nodes = l.nodes; head = none; tail = none; size = fewer l.size },
            rw (t, p) refl,
            subst
                (IsList (record { nodes = l.nodes; head = none; tail = none; size = fewer l.size }))
                (sym e)
                (record {
                  from_head = refl;
                  to_tail = refl;
                  chain = tt;
                  apart = tt;
                  count = omega (arith, h.count, length-append xs (n ∷ []), ap length e);
                }),
          )
      | inr (i, m, e) ↦
          let p : (l.nodes n).prev ≡ some m = c.1.0 ∙ ap (last none) e ∙ last-append none i m [] in
          let l' : SnapList = record {
            nodes = set_next l.nodes m none;
            head = l.head;
            tail = some m;
            size = fewer l.size;
          } in
          (
            l',
            rw (t, p) refl,
            subst (IsList l') (sym e) (record {
              from_head =
                  h.from_head
                  ∙ ap (λ ys. first (ys ++ n ∷ []) none) e
                  ∙ ap (λ ys. first ys none) (append_assoc i (m ∷ []) (n ∷ []))
                  ∙ first-append i m (n ∷ []) [] none none;
              to_tail = sym (last-append none i m []);
              chain =
                  Chain-set_next l.nodes none i m (some n) none (subst IsApart e a.0)
                    (subst (λ ys. Chain l.nodes none ys (some n)) e c.0);
              apart = subst IsApart e a.0;
              count = omega (arith, h.count, length-append xs (n ∷ []), ap length e);
            }),
          )
    ]
