-- ===== src/HashSet/Members.antt =====
-- What the hash set of hashset.h promises: its list has each key once, and the table finds the keys
-- of the list.
use c11tester.Base.{
  ℕ, ◌%◌, ◌^◌, ◌≤◌, ◌≡◌, ◌≢◌, ◌⊎◌, inl, inr, refl, sym, ap, subst, ◌∙◌, true, false, ◌==◌,
  if◌then◌else◌, Option, none, some, List, [], ◌∷◌, ◌++◌, length, IsIn, arith, Bool-cases,
  Option-cases,
}
use c11tester.HashTable
use c11tester.HashTable.{HashTable}
use c11tester.HashTable.Refinement.{IsLoad, Models, value, get-value}
use c11tester.HashTable.Removing.{new-Models}
use c11tester.SnapList.{SllNode, SnapList}
use c11tester.SnapList.Chains.{IsList, values}
use c11tester.HashSet.{HashSet, new, get, contains}

pub if_other : {A : Type 0} (a b : ℕ) (x y : A) → a ≢ b → (if a == b then x else y) ≡ y
if_other a b x y ne = elim (Bool-cases (a == b)) [
  | inl e ↦ absurd (ne (ground arith))
  | inr e ↦ rw e refl
]

pub if_same : {A : Type 0} (a : ℕ) (x y : A) → (if a == a then x else y) ≡ x
if_same a x y = elim (Bool-cases (a == a)) [ inl e ↦ rw e refl | inr e ↦ absurd (ground arith) ]

-- The links of the set, as a list of its nodes.
abbrev pub as_list : HashSet → List ℕ → SnapList
as_list set xs = record {
  nodes = set.nodes;
  head = set.list;
  tail = set.tail;
  size = length xs % 2 ^ 32;
}

pub record IsHashSet (scaled hash : ℕ → ℕ) (set : HashSet) (xs : List ℕ) : Type 0 where
  pub find : ℕ → Option ℕ
  pub models : Models scaled hash set.table find
  pub listed : IsList (as_list set xs) xs
  pub node_of : (key p : ℕ) → find key ≡ some p → IsIn p xs × ((set.nodes p).val ≡ key)
  pub key_of : (p : ℕ) → IsIn p xs → find (set.nodes p).val ≡ some p
  pub proper : (p : ℕ) → IsIn p xs → p ≢ 0

pub values-IsIn :
    (nodes : ℕ → SllNode) (p : ℕ) (xs : List ℕ) → IsIn p xs → IsIn (nodes p).val (values nodes xs)
values-IsIn nodes p [] h = absurd h
values-IsIn nodes p (x ∷ xs) (inl e) = inl (ap (λ y. (nodes y).val) e)
values-IsIn nodes p (x ∷ xs) (inr i) = inr (values-IsIn nodes p xs i)

pub IsIn-values :
    (nodes : ℕ → SllNode) (k : ℕ) (xs : List ℕ)
    → IsIn k (values nodes xs)
    → (p : ℕ) × IsIn p xs × (k ≡ (nodes p).val)
IsIn-values nodes k [] h = absurd h
IsIn-values nodes k (x ∷ xs) (inl e) = (x, inl refl, e)
IsIn-values nodes k (x ∷ xs) (inr i) = let (p, j, e) = IsIn-values nodes k xs i in (p, inr j, e)

pub split_in :
    (p : ℕ) (xs : List ℕ) → IsIn p xs → (pre : List ℕ) × (post : List ℕ) × (xs ≡ pre ++ p ∷ post)
split_in p [] h = absurd h
split_in p (x ∷ xs) (inl e) = ([], xs, ap (λ y. y ∷ xs) (sym e))
split_in p (x ∷ xs) (inr i) =
    let (pre, post, e) = split_in p xs i in (x ∷ pre, post, ap (λ ys. x ∷ ys) e)

module _ (scaled hash : ℕ → ℕ) (load : IsLoad scaled) where
  -- What the look-up that every operation begins with returns.
  pub found :
      (set : HashSet) (xs : List ℕ) (h : IsHashSet scaled hash set xs) (key : ℕ)
      → ((p : ℕ) × (HashTable.get hash set.table key ≡ some p)
          × (h.find key ≡ some p)
          × ((p == 0) ≡ false)
          × IsIn p xs
          × ((set.nodes p).val ≡ key))
        ⊎ ((HashTable.get hash set.table key ≡ some 0)
            × (h.find key ≡ none)
            × (IsIn key (values set.nodes xs) → ⊥))
  found set xs h key =
      let run = get-value scaled hash load h.models key in
      elim (Option-cases (h.find key)) [
        | inr (p, e) ↦
            let (i, k) = h.node_of key p e in
            let ne = h.proper p i in
            inl (p, run ∙ ap (λ o. some (value o)) e, e, ground arith, i, k)
        | inl e ↦ inr (
          run ∙ ap (λ o. some (value o)) e,
          e,
          λ i.
              let (p, j, k) = IsIn-values set.nodes key xs i in
              absurd (ground (arith, sym e ∙ ap h.find k ∙ h.key_of p j)),
        )
      ]

  -- `get` returns the key if it is in the set, and the null pointer otherwise; `contains` says
  -- which.
  pub get-contains :
      (set : HashSet) (xs : List ℕ) (h : IsHashSet scaled hash set xs) (key : ℕ)
      → (IsIn key (values set.nodes xs)
          × (get hash set key ≡ some key)
          × (contains hash set key ≡ some true))
        ⊎ ((IsIn key (values set.nodes xs) → ⊥)
            × (get hash set key ≡ some 0)
            × (contains hash set key ≡ some false))
  unfolding get contains
  get-contains set xs h key = elim (found set xs h key) [
    | inl (p, run, e, ne, i, k) ↦ inl (
      subst (λ x. IsIn x (values set.nodes xs)) k (values-IsIn set.nodes p xs i),
      rw (run, ne, get) (ap some k),
      rw (run, ne, contains) refl,
    )
    | inr (run, e, out) ↦ inr (out, rw (run, get) refl, rw (run, contains) refl)
  ]

  -- A new set is empty.
  pub new-IsHashSet :
      (c k : ℕ) → c ≡ 2 ^ k → 4 ≤ c → c ≤ 2 ^ 31 → IsHashSet scaled hash (new scaled c) []
  unfolding new
  new-IsHashSet c k e le ge = record {
    find = λ _. none;
    models = new-Models scaled hash load c k e le ge;
    listed = record { from_head = refl; to_tail = refl; chain = tt; apart = tt; count = refl };
    node_of = λ key p h. absurd (ground arith);
    key_of = λ p i. absurd i;
    proper = λ p i. absurd i;
  }
