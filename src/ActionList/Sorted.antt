-- ===== src/ActionList/Sorted.antt =====
-- The order of the list of actionlist.cc: for each clock the last node with it.
use c11tester.Base.{
  ℕ, ◌<◌, ◌≤◌, ◌≡◌, ◌≢◌, inl, inr, refl, sym, ap, ◌∙◌, ◌==◌, leb, if◌then◌else◌, Option, none, some,
  List, [], ◌∷◌, ◌++◌, All, All-map, IsIn, append_left-IsIn, append_right-IsIn, arith, subst,
  Bool-cases, Option-cases,
}

-- A choice, the second where the first is null.
abbrev pub or_else : Option ℕ → Option ℕ → Option ℕ
or_else none o = o
or_else (some x) o = some x

abbrev pub here : (ℕ → ℕ) → ℕ → ℕ → Option ℕ
here key c x = if key x == c then some x else none

-- The last node whose key is `c`.
abbrev pub last_with : (ℕ → ℕ) → ℕ → List ℕ → Option ℕ
last_with key c [] = none
last_with key c (x ∷ xs) = or_else (last_with key c xs) (here key c x)

abbrev pub IsSorted : (ℕ → ℕ) → List ℕ → Type 0
IsSorted key [] = Unit {0}
IsSorted key (x ∷ xs) = All (λ y. key x ≤ key y) xs × IsSorted key xs

or_else-none : (a b : Option ℕ) → or_else a b ≡ none → (a ≡ none) × (b ≡ none)
or_else-none none b h = (refl, h)
or_else-none (some x) b h = absurd (ground arith)

or_else-right : (a : Option ℕ) → or_else a none ≡ a
or_else-right none = refl
or_else-right (some x) = refl

or_else_assoc : (a b c : Option ℕ) → or_else (or_else a b) c ≡ or_else a (or_else b c)
or_else_assoc none b c = refl
or_else_assoc (some x) b c = refl

last_with-append :
    (key : ℕ → ℕ) (c : ℕ) (xs ys : List ℕ)
    → last_with key c (xs ++ ys) ≡ or_else (last_with key c ys) (last_with key c xs)
last_with-append key c [] ys = sym (or_else-right (last_with key c ys))
last_with-append key c (x ∷ xs) ys =
    ap (λ o. or_else o (here key c x)) (last_with-append key c xs ys)
    ∙ or_else_assoc (last_with key c ys) (last_with key c xs) (here key c x)

last_with-none :
    (key : ℕ → ℕ) (c : ℕ) (xs : List ℕ) → last_with key c xs ≡ none → All (λ y. key y ≢ c) xs
last_with-none key c [] h = tt
last_with-none key c (x ∷ xs) h =
    let both = or_else-none (last_with key c xs) (here key c x) h in
    (λ e. absurd (ground (arith, both.1)), last_with-none key c xs both.0)

last_with-beyond :
    (key : ℕ → ℕ) (c clock : ℕ) (xs : List ℕ)
    → All (λ y. clock < key y) xs
    → c ≤ clock
    → last_with key c xs ≡ none
last_with-beyond key c clock [] h le = refl
last_with-beyond key c clock (x ∷ xs) h le =
    let rest = last_with-beyond key c clock xs h.1 le in rw rest (ground (arith, h.0))

All-middle {κ} : (P : ℕ → Type κ) (xs : List ℕ) (n : ℕ) (ys : List ℕ) → All P (xs ++ n ∷ ys) → P n
All-middle P [] n ys h = h.0
All-middle P (x ∷ xs) n ys h = All-middle P xs n ys h.1

-- No node of a list with keys from `m` on has a key up to the clock.
module _ (key : ℕ → ℕ) (clock : ℕ) where
  All-beyond :
      (m : ℕ) (xs : List ℕ)
      → All (λ y. m ≤ key y) xs
      → ((c : ℕ) → m ≤ c → c ≤ clock → last_with key c xs ≡ none)
      → All (λ y. clock < key y) xs
  All-beyond m [] h none' = tt
  All-beyond m (x ∷ xs) h none' =
      let rest =
        All-beyond m xs h.1
          (λ c le le'. (or_else-none (last_with key c xs) (here key c x) (none' c le le')).0) in
      (
        elim (Bool-cases (leb (key x) clock)) [
          | inl le ↦
              absurd
                ((last_with-none key (key x) (x ∷ xs) (none' (key x) h.0 (ground arith))).0 refl)
          | inr gt ↦ ground arith
        ],
        rest,
      )

  pub from_first :
      (xs : List ℕ)
      → ((c : ℕ) → c ≤ clock → last_with key c xs ≡ none)
      → All (λ y. clock < key y) xs
  from_first xs h = All-beyond 0 xs (each xs) (λ c le le'. h c le')
    where
      each : (xs : List ℕ) → All (λ y. 0 ≤ key y) xs
      each [] = tt
      each (x ∷ xs) = (omega arith, each xs)

  -- The list up to the last node with a key, when no later key comes up to the clock.
  pub split_at :
      (m n : ℕ) (xs : List ℕ)
      → IsSorted key xs
      → m ≤ clock
      → last_with key m xs ≡ some n
      → ((c : ℕ) → m < c → c ≤ clock → last_with key c xs ≡ none)
      → (pre : List ℕ) × (post : List ℕ) × (xs ≡ pre ++ n ∷ post)
        × (key n ≡ m)
        × All (λ y. clock < key y) post
        × All (λ y. key y ≤ clock) pre
  split_at m n [] s le h none' = absurd (ground arith)
  split_at m n (x ∷ xs) s le h none' = elim (Option-cases (last_with key m xs)) [
    | inl e ↦
        let e' : here key m x ≡ some n = subst (λ o. or_else o (here key m x) ≡ some n) e h in
        let nx : x ≡ n = ground (arith, e') in
        let kx : key x ≡ m = ground (arith, e') in
        (
          [],
          xs,
          ap (λ y. y ∷ xs) nx,
          ap key (sym nx) ∙ kx,
          All-beyond m xs (All-map (λ y p. omega arith) xs s.0) (λ c lo hi.
              elim (Bool-cases (c == m)) [
                | inl same ↦ let cm : c ≡ m = ground arith in rw cm e
                | inr other ↦
                    (or_else-none (last_with key c xs) (here key c x) (none' c (ground arith) hi)).0
              ]),
          tt,
        )
    | inr (y, e) ↦
        let yn : y ≡ n = ground (arith, e, h) in
        let (pre, post, eq, kn, after, upto) =
          split_at m n xs s.1 le (e ∙ ap some yn)
            (λ c lo hi. (or_else-none (last_with key c xs) (here key c x) (none' c lo hi)).0) in
        (
          x ∷ pre,
          post,
          ap (λ ys. x ∷ ys) eq,
          kn,
          after,
          (
            let first : key x ≤ key n =
                  All-middle (λ z. key x ≤ key z) pre n post
                    (subst (All (λ z. key x ≤ key z)) eq s.0) in
                omega (arith, first, kn, le),
            upto,
          ),
        )
  ]

pub All-append {κ} : (P : ℕ → Type κ) (xs ys : List ℕ) → All P (xs ++ ys) → All P xs × All P ys
All-append P [] ys h = (tt, h)
All-append P (x ∷ xs) ys h = let rest = All-append P xs ys h.1 in ((h.0, rest.0), rest.1)

pub append-All {κ} : (P : ℕ → Type κ) (xs ys : List ℕ) → All P xs → All P ys → All P (xs ++ ys)
append-All P [] ys h k = k
append-All P (x ∷ xs) ys h k = (h.0, append-All P xs ys h.1 k)

-- The keys with one for a new node.
abbrev pub with_key : (ℕ → ℕ) → ℕ → ℕ → ℕ → ℕ
with_key key tmp clock x = if tmp == x then clock else key x

module _ (key : ℕ → ℕ) (tmp clock : ℕ) where
  same_key : (x : ℕ) (xs : List ℕ) → (IsIn tmp (x ∷ xs) → ⊥) → with_key key tmp clock x ≡ key x
  same_key x xs h = let ne : tmp ≢ x = λ e. h (inl e) in ground arith

  last_with-same :
      (c : ℕ) (xs : List ℕ)
      → (IsIn tmp xs → ⊥)
      → last_with (with_key key tmp clock) c xs ≡ last_with key c xs
  last_with-same c [] h = refl
  last_with-same c (x ∷ xs) h = λ i.
      or_else (last_with-same c xs (λ j. h (inr j)) i)
        (if same_key x xs h i == c then some x else none)

  All-same :
      (P : ℕ → Type 0) (xs : List ℕ)
      → (IsIn tmp xs → ⊥)
      → All (λ y. P (key y)) xs
      → All (λ y. P (with_key key tmp clock y)) xs
  All-same P [] h a = tt
  All-same P (x ∷ xs) h a =
      (subst P (sym (same_key x xs h)) a.0, All-same P xs (λ j. h (inr j)) a.1)

  IsSorted-same :
      (xs : List ℕ) → (IsIn tmp xs → ⊥) → IsSorted key xs → IsSorted (with_key key tmp clock) xs
  IsSorted-same [] h s = tt
  IsSorted-same (x ∷ xs) h s =
      let h' : IsIn tmp xs → ⊥ = λ j. h (inr j) in
      (rw (same_key x xs h) (All-same (λ k. key x ≤ k) xs h' s.0), IsSorted-same xs h' s.1)

  self_key : with_key key tmp clock tmp ≡ clock
  self_key = ground arith

  -- A node that comes in where its key belongs keeps the order.
  pub insert-IsSorted :
      (xs ys : List ℕ)
      → (IsIn tmp (xs ++ ys) → ⊥)
      → IsSorted key (xs ++ ys)
      → All (λ y. key y ≤ clock) xs
      → All (λ y. clock < key y) ys
      → IsSorted (with_key key tmp clock) (xs ++ tmp ∷ ys)
  insert-IsSorted [] ys h s upto after = (
    rw self_key (All-same (λ k. clock ≤ k) ys h (All-map (λ y p. omega arith) ys after)),
    IsSorted-same ys h s,
  )
  insert-IsSorted (x ∷ xs) ys h s upto after =
      let h' : IsIn tmp (xs ++ ys) → ⊥ = λ j. h (inr j) in
      let parts = All-append (λ y. key x ≤ key y) xs ys s.0 in
      (
        rw (same_key x (xs ++ ys) h) (
            append-All (λ y. key x ≤ with_key key tmp clock y) xs (tmp ∷ ys)
              (All-same (λ k. key x ≤ k) xs (λ j. h' (append_left-IsIn tmp xs ys j)) parts.0)
              (
                rw self_key upto.0,
                All-same (λ k. key x ≤ k) ys (λ j. h' (append_right-IsIn tmp xs ys j)) parts.1,
              )),
        insert-IsSorted xs ys h' s.1 upto.1 after,
      )

  -- The last nodes with each key, once the node is in.
  pub last_with-insert :
      (c : ℕ) (xs ys : List ℕ)
      → (IsIn tmp (xs ++ ys) → ⊥)
      → All (λ y. clock < key y) ys
      → last_with (with_key key tmp clock) c (xs ++ tmp ∷ ys)
        ≡ (if clock == c then some tmp else last_with key c (xs ++ ys))
  last_with-insert c xs ys h after =
      let new = with_key key tmp clock in
      let left = last_with-same c xs (λ j. h (append_left-IsIn tmp xs ys j)) in
      let right = last_with-same c ys (λ j. h (append_right-IsIn tmp xs ys j)) in
      last_with-append new c xs (tmp ∷ ys)
      ∙ (λ i. or_else (or_else (right i) (if self_key i == c then some tmp else none)) (left i))
      ∙ elim (Bool-cases (clock == c)) [
        | inl e ↦
            let ce : clock ≡ c = ground arith in
            rw (e, last_with-beyond key c clock ys after (ground arith)) refl
        | inr e ↦ rw e (
            ap (λ o. or_else o (last_with key c xs)) (or_else-right (last_with key c ys))
            ∙ sym (last_with-append key c xs ys))
      ]
