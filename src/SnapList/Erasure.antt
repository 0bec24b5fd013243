-- ===== src/SnapList/Erasure.antt =====
-- Nodes that leave a list of stl-model.h.
use c11tester.Base.{
  ℕ, ◌%◌, ◌^◌, ◌≡◌, ◌≢◌, ◌⊎◌, inl, inr, refl, sym, ap, ◌∙◌, Bool, true, false, Option, none, some,
  List, [], ◌∷◌, ◌++◌, length, length-append, IsIn, append_right-IsIn, arith, subst,
}
use mathlib.Core.List.{append-nil}
use c11tester.SnapList.{SllNode, SnapList, set_next, set_prev, erase, unlink, is_ptr, fewer}
use c11tester.SnapList.Chains.{
  first, last, Chain, IsApart, IsList, Chain-append, Chain-elsewhere, Chain-set_prev,
  Chain-set_next, IsApart-append, last-append,
}

-- The nodes once the one before is told, and once the one after is.
abbrev pub skip_next : (ℕ → SllNode) → Option ℕ → Option ℕ → ℕ → SllNode
skip_next nodes none next = nodes
skip_next nodes (some p) next = set_next nodes p next

abbrev pub skip_prev : (ℕ → SllNode) → Option ℕ → Option ℕ → ℕ → SllNode
skip_prev nodes none prev = nodes
skip_prev nodes (some p) prev = set_prev nodes p prev

last_cases : (xs : List ℕ) → (xs ≡ []) ⊎ ((i : List ℕ) × (x : ℕ) × (xs ≡ i ++ x ∷ []))
last_cases [] = inl refl
last_cases (x ∷ xs) = elim (last_cases xs) [
  | inl e ↦ inr ([], x, ap (λ ys. x ∷ ys) e)
  | inr (i, y, e) ↦ inr (x ∷ i, y, ap (λ ys. x ∷ ys) e)
]

skip_next-Chain :
    (nodes : ℕ → SllNode) (xs : List ℕ) (after after' : Option ℕ)
    → IsApart xs
    → Chain nodes none xs after
    → Chain (skip_next nodes (last none xs) after') none xs after'
skip_next-Chain nodes xs after after' a c = elim (last_cases xs) [
  | inl e ↦ subst (λ ys. Chain (skip_next nodes (last none ys) after') none ys after') (sym e) tt
  | inr (i, x, e) ↦
      subst (λ ys. Chain (skip_next nodes (last none ys) after') none ys after') (sym e)
        (subst (λ o. Chain (skip_next nodes o after') none (i ++ x ∷ []) after')
          (sym (last-append none i x []))
          (Chain-set_next nodes none i x after after' (subst IsApart e a)
            (subst (λ ys. Chain nodes none ys after) e c)))
]

-- The last node of a list is one of it.
last-cases : (xs : List ℕ) → (last none xs ≡ none) ⊎ ((x : ℕ) × (last none xs ≡ some x) × IsIn x xs)
last-cases xs = elim (last_cases xs) [
  | inl e ↦ inl (ap (last none) e)
  | inr (i, x, e) ↦ inr (
    x,
    ap (last none) e ∙ last-append none i x [],
    subst (λ ys. IsIn x ys) (sym e) (append_right-IsIn x i (x ∷ []) (inl refl)),
  )
]

module _ (nodes : ℕ → SllNode) (xs ys : List ℕ) (n : ℕ) (a : IsApart (xs ++ n ∷ ys))
    (c : Chain nodes none (xs ++ n ∷ ys) none) where
  skipped : ℕ → SllNode
  skipped =
      skip_prev (skip_next nodes (last none xs) (first ys none)) (first ys none) (last none xs)

  skip_next-elsewhere :
      (zs : List ℕ) (before after : Option ℕ)
      → ((x : ℕ) → IsIn x xs → IsIn x zs → ⊥)
      → Chain nodes before zs after
      → Chain (skip_next nodes (last none xs) (first ys none)) before zs after
  skip_next-elsewhere zs before after far d = elim (last-cases xs) [
    | inl e ↦ rw e d
    | inr (x, e, i) ↦
        subst (λ o. Chain (skip_next nodes o (first ys none)) before zs after) (sym e)
          (Chain-elsewhere nodes x (record (nodes x) { next = first ys none }) before zs after
            (far x i) d)
  ]

skipped-Chain :
    (nodes : ℕ → SllNode) (xs ys : List ℕ) (n : ℕ) (a : IsApart (xs ++ n ∷ ys))
    (c : Chain nodes none (xs ++ n ∷ ys) none)
    → Chain (skipped nodes xs ys n a c) none (xs ++ ys) none
unfolding skipped
skipped-Chain nodes xs [] n a c =
    let ap' = (IsApart-append xs (n ∷ [])).0 a in
    let parts = (Chain-append nodes none xs (n ∷ []) none).0 c in
    (Chain-append (skip_next nodes (last none xs) none) none xs [] none).1
      (skip_next-Chain nodes xs (some n) none ap'.0 parts.0, tt)
skipped-Chain nodes xs (y ∷ ys) n a c =
    let ap' = (IsApart-append xs (n ∷ y ∷ ys)).0 a in
    let parts = (Chain-append nodes none xs (n ∷ y ∷ ys) none).0 c in
    let f = skip_next nodes (last none xs) (some y) in
    (Chain-append (set_prev f y (last none xs)) none xs (y ∷ ys) none).1 (
      Chain-elsewhere f y (record (f y) { prev = last none xs }) none xs (some y)
          (λ i. ap'.2 y i (inr (inl refl)))
          (skip_next-Chain nodes xs (some n) (some y) ap'.0 parts.0),
      Chain-set_prev f (some n) (last none xs) y ys none ap'.1.1 (
          skip_next-elsewhere nodes xs (y ∷ ys) n a c (y ∷ ys) (some n) none
            (λ x i j. ap'.2 x i (inr j)) parts.1.2),
    )

skip_next_val :
    (nodes : ℕ → SllNode) (o next : Option ℕ) (x : ℕ)
    → (skip_next nodes o next x).val ≡ (nodes x).val
skip_next_val nodes none next x = refl
skip_next_val nodes (some p) next x = ground arith

skip_prev_val :
    (nodes : ℕ → SllNode) (o prev : Option ℕ) (x : ℕ)
    → (skip_prev nodes o prev x).val ≡ (nodes x).val
skip_prev_val nodes none prev x = refl
skip_prev_val nodes (some p) prev x = ground arith

skipped-val :
    (nodes : ℕ → SllNode) (xs ys : List ℕ) (n : ℕ) (a : IsApart (xs ++ n ∷ ys))
    (c : Chain nodes none (xs ++ n ∷ ys) none) (x : ℕ)
    → (skipped nodes xs ys n a c x).val ≡ (nodes x).val
unfolding skipped
skipped-val nodes xs ys n a c x =
    let f = skip_next nodes (last none xs) (first ys none) in
    skip_prev_val f (first ys none) (last none xs) x
    ∙ skip_next_val nodes (last none xs) (first ys none) x

last-some : (b : ℕ) (xs : List ℕ) → (w : ℕ) × (last (some b) xs ≡ some w) × IsIn w (b ∷ xs)
last-some b [] = (b, refl, inl refl)
last-some b (x ∷ xs) = let (w, e, i) = last-some x xs in (w, e, inr i)

unlink_lem :
    (l : SnapList) (next prev head tail : Option ℕ) (f t : Bool)
    → ((prev ≡ none) × (f ≡ true) × (next ≡ head))
      ⊎ ((x : ℕ) × (prev ≡ some x) × (f ≡ false) × (l.head ≡ head))
    → ((next ≡ none) × (t ≡ true) × (prev ≡ tail))
      ⊎ ((y : ℕ) × (next ≡ some y) × (t ≡ false) × (l.tail ≡ tail))
    → unlink l next prev f t
      ≡ some (
        next,
        record {
          nodes = skip_prev (skip_next l.nodes prev next) next prev;
          head = head;
          tail = tail;
          size = fewer l.size;
        },
      )
unfolding unlink
unlink_lem l next prev head tail f t (inl (p, pf, ph)) (inl (q, qt, qh)) =
    rw (pf, qt, p, q)
      (λ i. some (
        none,
        record {
          nodes = l.nodes;
          head = (sym q ∙ ph) i;
          tail = (sym p ∙ qh) i;
          size = fewer l.size;
        },
      ))
unlink_lem l next prev head tail f t (inl (p, pf, ph)) (inr (y, q, qt, qh)) =
    rw (pf, qt, p, q)
      (λ i. some (
        some y,
        record {
          nodes = set_prev l.nodes y none;
          head = (sym q ∙ ph) i;
          tail = qh i;
          size = fewer l.size;
        },
      ))
unlink_lem l next prev head tail f t (inr (x, p, pf, ph)) (inl (q, qt, qh)) =
    rw (pf, qt, p, q)
      (λ i. some (
        none,
        record {
          nodes = set_next l.nodes x none;
          head = ph i;
          tail = (sym p ∙ qh) i;
          size = fewer l.size;
        },
      ))
unlink_lem l next prev head tail f t (inr (x, p, pf, ph)) (inr (y, q, qt, qh)) =
    rw (pf, qt, p, q)
      (λ i. some (
        some y,
        record {
          nodes = set_prev (set_next l.nodes x (some y)) y (some x);
          head = ph i;
          tail = qh i;
          size = fewer l.size;
        },
      ))

pub head_end :
    (l : SnapList) (xs ys : List ℕ) (n : ℕ)
    → IsList l (xs ++ n ∷ ys)
    → ((last none xs ≡ none) × (is_ptr l.head n ≡ true) × (first ys none ≡ first (xs ++ ys) none))
      ⊎ ((x : ℕ) × (last none xs ≡ some x)
          × (is_ptr l.head n ≡ false)
          × (l.head ≡ first (xs ++ ys) none))
head_end l [] ys n h = inl (refl, rw h.from_head (ground arith), refl)
head_end l (x ∷ xs) ys n h =
    let (w, e, i) = last-some x xs in
    let ne : x ≢ n = λ e'. h.apart.0 (append_right-IsIn x xs (n ∷ ys) (inl e')) in
    inr (w, e, rw h.from_head (ground arith), h.from_head)

pub tail_end :
    (l : SnapList) (xs ys : List ℕ) (n : ℕ)
    → IsList l (xs ++ n ∷ ys)
    → ((first ys none ≡ none) × (is_ptr l.tail n ≡ true) × (last none xs ≡ last none (xs ++ ys)))
      ⊎ ((y : ℕ) × (first ys none ≡ some y)
          × (is_ptr l.tail n ≡ false)
          × (l.tail ≡ last none (xs ++ ys)))
tail_end l xs [] n h =
    let e : l.tail ≡ some n = h.to_tail ∙ last-append none xs n [] in
    inl (refl, rw e (ground arith), ap (last none) (sym (append-nil xs)))
tail_end l xs (y ∷ ys) n h =
    let (w, e, i) = last-some y ys in
    let t : l.tail ≡ some w = h.to_tail ∙ last-append none xs n (y ∷ ys) ∙ e in
    let a = (IsApart-append xs (n ∷ y ∷ ys)).0 h.apart in
    let ne : w ≢ n = λ e'. a.1.0 (subst (λ b. IsIn b (y ∷ ys)) e' i) in
    inr (y, refl, rw t (ground arith), t ∙ sym e ∙ sym (last-append none xs y ys))

module _ (l : SnapList) (xs ys : List ℕ) (n : ℕ) (h : IsList l (xs ++ n ∷ ys)) where
  -- The list without the node.
  without : SnapList
  without = record {
    nodes = skipped l.nodes xs ys n h.apart h.chain;
    head = first (xs ++ ys) none;
    tail = last none (xs ++ ys);
    size = fewer l.size;
  }

  pub without-IsList :
      (l' : SnapList)
      → l'.nodes
        ≡ skip_prev
            (skip_next l.nodes (last none xs) (first ys none))
            (first ys none)
            (last none xs)
      → l'.head ≡ first (xs ++ ys) none
      → l'.tail ≡ last none (xs ++ ys)
      → l'.size ≡ length (xs ++ ys) % 2 ^ 32
      → IsList l' (xs ++ ys) × ((x : ℕ) → (l'.nodes x).val ≡ (l.nodes x).val)
  unfolding skipped
  without-IsList l' nodes head tail size =
      let a = (IsApart-append xs (n ∷ ys)).0 h.apart in
      (
        record {
          from_head = head;
          to_tail = tail;
          chain =
              subst (λ f. Chain f none (xs ++ ys) none) (sym nodes)
                (skipped-Chain l.nodes xs ys n h.apart h.chain);
          apart = (IsApart-append xs ys).1 (a.0, a.1.1, λ b i j. a.2 b i (inr j));
          count = size;
        },
        λ x.
            ap (λ (f : ℕ → SllNode). (f x).val) nodes
            ∙ skipped-val l.nodes xs ys n h.apart h.chain x,
      )

  erase-without : erase l n ≡ some (first ys none, without)
  unfolding erase without skipped
  erase-without =
      let parts = (Chain-append l.nodes none xs (n ∷ ys) none).0 h.chain in
      let prev : (l.nodes n).prev ≡ last none xs = parts.1.0 in
      let next : (l.nodes n).next ≡ first ys none = parts.1.1 in
      (λ i. unlink l (next i) (prev i) (is_ptr l.head n) (is_ptr l.tail n))
      ∙ unlink_lem l (first ys none) (last none xs) (first (xs ++ ys) none) (last none (xs ++ ys))
          (is_ptr l.head n) (is_ptr l.tail n) (head_end l xs ys n h) (tail_end l xs ys n h)

  -- `erase` of a node of the list does not fault; it returns the node after it, and the list is the
  -- one without it, where all others keep what they hold.
  pub erase-IsList :
      (l' : SnapList) × (erase l n ≡ some (first ys none, l'))
      × IsList l' (xs ++ ys)
      × ((x : ℕ) → (l'.nodes x).val ≡ (l.nodes x).val)
  unfolding without skipped
  erase-IsList =
      let size : fewer l.size ≡ length (xs ++ ys) % 2 ^ 32 =
        omega (arith, h.count, length-append xs (n ∷ ys), length-append xs ys) in
      let (list, vals) = without-IsList without refl refl refl size in
      (without, erase-without, list, vals)
