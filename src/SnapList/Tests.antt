-- ===== src/SnapList/Tests.antt =====
-- A list of stl-model.h with two nodes: the second comes in after the first, and the first leaves.
use c11tester.Base.{ℕ, ◌≡◌, inl, inr, refl, none, some, [], ◌∷◌, IsIn, arith}
use c11tester.SnapList.{SnapList, add_front, insert_after, erase}
use c11tester.SnapList.Chains.{IsList, values}
use c11tester.SnapList.Insertion.{add_front-IsList, insert_after-IsList}
use c11tester.SnapList.Erasure.{erase-IsList}

abbrev empty_list : SnapList
empty_list = record {
  nodes = λ p. record { next = none; prev = none; val = 0 };
  head = none;
  tail = none;
  size = 0;
}

empty_IsList : IsList empty_list []
empty_IsList = record {
  from_head = refl;
  to_tail = refl;
  chain = tt;
  apart = tt;
  count = omega arith;
}

one_IsList : IsList (add_front empty_list 64 7) (64 ∷ [])
one_IsList = (add_front-IsList [] 64 7 empty_IsList (λ i. i)).0

absent_65 : IsIn {A = ℕ} 65 (64 ∷ []) → ⊥
absent_65 (inl e) = absurd (omega arith)
absent_65 (inr i) = i

two_IsList :
    IsList (insert_after (add_front empty_list 64 7) 64 65 8) (64 ∷ 65 ∷ [])
    × (values (insert_after (add_front empty_list 64 7) 64 65 8).nodes (64 ∷ 65 ∷ [])
        ≡ ((add_front empty_list 64 7).nodes 64).val ∷ 8 ∷ [])
two_IsList = insert_after-IsList (add_front empty_list 64 7) [] 64 [] 65 8 one_IsList absent_65

insert_after-IsList_example :
    IsList (insert_after (add_front empty_list 64 7) 64 65 8) (64 ∷ 65 ∷ [])
    × (values (insert_after (add_front empty_list 64 7) 64 65 8).nodes (64 ∷ 65 ∷ [])
        ≡ ((add_front empty_list 64 7).nodes 64).val ∷ 8 ∷ [])
insert_after-IsList_example =
    insert_after-IsList (add_front empty_list 64 7) [] 64 [] 65 8 one_IsList absent_65

erase-IsList_example :
    (l' : SnapList) × (erase (insert_after (add_front empty_list 64 7) 64 65 8) 64
      ≡ some (some 65, l'))
    × IsList l' (65 ∷ [])
    × ((x : ℕ)
        → (l'.nodes x).val ≡ ((insert_after (add_front empty_list 64 7) 64 65 8).nodes x).val)
erase-IsList_example =
    erase-IsList (insert_after (add_front empty_list 64 7) 64 65 8) [] (65 ∷ []) 64 two_IsList.0
