-- ===== src/SnapList/Chains.antt =====
-- What the links of a list of stl-model.h say: the nodes between two pointers, in order.
use c11tester.Base.{
  ℕ, ◌%◌, ◌^◌, ◌≡◌, ◌≢◌, ◌↔◌, inl, inr, refl, sym, ap, ◌∙◌, Option, none, some, ◌==◌, List, [], ◌∷◌,
  ◌++◌, length, map, IsIn, IsIn-append, append_left-IsIn, append_right-IsIn, arith, subst, update,
  Bool-cases,
}
use c11tester.SnapList.{SllNode, SnapList, set_next, set_prev}

-- The pointer to the first node, and to the last.
abbrev pub first : List ℕ → Option ℕ → Option ℕ
first [] after = after
first (x ∷ xs) after = some x

abbrev pub last : Option ℕ → List ℕ → Option ℕ
last before [] = before
last before (x ∷ xs) = last (some x) xs

abbrev pub Chain : (ℕ → SllNode) → Option ℕ → List ℕ → Option ℕ → Type 0
Chain nodes before [] after = Unit {0}
Chain nodes before (x ∷ xs) after =
    ((nodes x).prev ≡ before) × ((nodes x).next ≡ first xs after) × Chain nodes (some x) xs after

-- No node stands twice.
abbrev pub IsApart : List ℕ → Type 0
IsApart [] = Unit {0}
IsApart (x ∷ xs) = (IsIn x xs → ⊥) × IsApart xs

-- The list consists of the nodes `xs`, from the head to the tail.
pub record IsList (l : SnapList) (xs : List ℕ) : Type 0 where
  pub from_head : l.head ≡ first xs none
  pub to_tail : l.tail ≡ last none xs
  pub chain : Chain l.nodes none xs none
  pub apart : IsApart xs
  pub count : l.size ≡ length xs % 2 ^ 32

-- What the nodes hold.
abbrev pub values : (ℕ → SllNode) → List ℕ → List ℕ
values nodes xs = map (λ x. (nodes x).val) xs

pub Chain-append :
    (nodes : ℕ → SllNode) (before : Option ℕ) (xs ys : List ℕ) (after : Option ℕ)
    → Chain nodes before (xs ++ ys) after
      ↔ (Chain nodes before xs (first ys after) × Chain nodes (last before xs) ys after)
Chain-append nodes before [] ys after = (λ c. (tt, c), λ c. c.1)
Chain-append nodes before (x ∷ []) ys after = (λ c. ((c.0, c.1, tt), c.2), λ c. (c.0.0, c.0.1, c.1))
Chain-append nodes before (x ∷ y ∷ xs) ys after =
    let rest = Chain-append nodes (some x) (y ∷ xs) ys after in
    (λ c. ((c.0, c.1, (rest.0 c.2).0), (rest.0 c.2).1), λ c. (c.0.0, c.0.1, rest.1 (c.0.2, c.1)))

-- A write to a node that is not in the chain.
pub Chain-elsewhere :
    (nodes : ℕ → SllNode) (p : ℕ) (node : SllNode) (before : Option ℕ) (xs : List ℕ)
    (after : Option ℕ)
    → (IsIn p xs → ⊥)
    → Chain nodes before xs after
    → Chain (update nodes p node) before xs after
Chain-elsewhere nodes p node before [] after h c = tt
Chain-elsewhere nodes p node before (x ∷ xs) after h c =
    let same : update nodes p node x ≡ nodes x = elim (Bool-cases (p == x)) [
      | inl e ↦ absurd (h (inl (ground arith)))
      | inr e ↦ rw e
    ] in
    (
      ap (λ (n : SllNode). n.prev) same ∙ c.0,
      ap (λ (n : SllNode). n.next) same ∙ c.1,
      Chain-elsewhere nodes p node (some x) xs after (λ i. h (inr i)) c.2,
    )

-- The first node of a chain takes another one before it.
pub Chain-set_prev :
    (nodes : ℕ → SllNode) (before before' : Option ℕ) (x : ℕ) (xs : List ℕ) (after : Option ℕ)
    → IsApart (x ∷ xs)
    → Chain nodes before (x ∷ xs) after
    → Chain (set_prev nodes x before') before' (x ∷ xs) after
Chain-set_prev nodes before before' x xs after h c = (
  ground arith,
  ground (arith, c.1),
  Chain-elsewhere nodes x (record (nodes x) { prev = before' }) (some x) xs after h.0 c.2,
)

first-snoc :
    (xs : List ℕ) (x : ℕ) (a b : Option ℕ) → first (xs ++ x ∷ []) a ≡ first (xs ++ x ∷ []) b
first-snoc [] x a b = refl
first-snoc (y ∷ xs) x a b = refl

-- The last node of a chain takes another one after it.
pub Chain-set_next :
    (nodes : ℕ → SllNode) (before : Option ℕ) (xs : List ℕ) (x : ℕ) (after after' : Option ℕ)
    → IsApart (xs ++ x ∷ [])
    → Chain nodes before (xs ++ x ∷ []) after
    → Chain (set_next nodes x after') before (xs ++ x ∷ []) after'
Chain-set_next nodes before [] x after after' h c = (ground (arith, c.0), ground arith, tt)
Chain-set_next nodes before (y ∷ xs) x after after' h c =
    let ne : x ≢ y = λ e. h.0 (append_right-IsIn y xs (x ∷ []) (inl (sym e))) in
    let same : set_next nodes x after' y ≡ nodes y = ground arith in
    (
      ap (λ (n : SllNode). n.prev) same ∙ c.0,
      ap (λ (n : SllNode). n.next) same ∙ c.1 ∙ first-snoc xs x after after',
      Chain-set_next nodes (some y) xs x after after' h.1 c.2,
    )

pub IsApart-append :
    (xs ys : List ℕ)
    → IsApart (xs ++ ys) ↔ (IsApart xs × IsApart ys × ((a : ℕ) → IsIn a xs → IsIn a ys → ⊥))
IsApart-append [] ys = (λ h. (tt, h, λ a i j. i), λ h. h.1)
IsApart-append (x ∷ xs) ys =
    let rest = IsApart-append xs ys in
    (
      λ h. (
        (λ i. h.0 (append_left-IsIn x xs ys i), (rest.0 h.1).0),
        (rest.0 h.1).1,
        λ a i j. elim i [
          | inl e ↦ h.0 (append_right-IsIn x xs ys (subst (λ b. IsIn b ys) e j))
          | inr k ↦ (rest.0 h.1).2 a k j
        ],
      ),
      λ h. (
        λ i. elim (IsIn-append x xs ys i) [ inl k ↦ h.0.0 k | inr k ↦ h.2 x (inl refl) k ],
        rest.1 (h.0.1, h.1, λ a i j. h.2 a (inr i) j),
      ),
    )

pub last-append :
    (before : Option ℕ) (xs : List ℕ) (y : ℕ) (ys : List ℕ)
    → last before (xs ++ y ∷ ys) ≡ last (some y) ys
last-append before [] y ys = refl
last-append before (x ∷ xs) y ys = last-append (some x) xs y ys

pub first-append :
    (xs : List ℕ) (y : ℕ) (ys zs : List ℕ) (a b : Option ℕ)
    → first (xs ++ y ∷ ys) a ≡ first (xs ++ y ∷ zs) b
first-append [] y ys zs a b = refl
first-append (x ∷ xs) y ys zs a b = refl

-- A write that keeps what a node holds.
pub values-same :
    (f g : ℕ → SllNode)
    → ((x : ℕ) → (f x).val ≡ (g x).val)
    → (xs : List ℕ) → values f xs ≡ values g xs
values-same f g h [] = refl
values-same f g h (x ∷ xs) = λ i. h x i ∷ values-same f g h xs i

pub values-elsewhere :
    (nodes : ℕ → SllNode) (p : ℕ) (node : SllNode) (xs : List ℕ)
    → (IsIn p xs → ⊥)
    → values (update nodes p node) xs ≡ values nodes xs
values-elsewhere nodes p node [] h = refl
values-elsewhere nodes p node (x ∷ xs) h =
    let ne : p ≢ x = λ e. h (inl e) in
    let same : update nodes p node x ≡ nodes x = ground arith in
    λ i. (same i).val ∷ values-elsewhere nodes p node xs (λ j. h (inr j)) i
