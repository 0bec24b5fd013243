-- ===== src/HashSet/Tests.antt =====
-- A hash set of hashset.h with one key, which is added twice and removed.
use c11tester.Base.{ℕ, ◌/◌, ◌≡◌, ◌⊎◌, inl, inr, true, false, some, List, [], ◌∷◌, ◌++◌, IsIn, arith}
use c11tester.HashTable
use c11tester.HashTable.{default_hash_function}
use c11tester.HashTable.Refinement.{IsLoad}
use c11tester.SnapList.Chains.{values}
use c11tester.HashSet.{HashSet, new, add, remove}
use c11tester.HashSet.Members.{IsHashSet, new-IsHashSet}
use c11tester.HashSet.Adding.{add-IsHashSet}
use c11tester.HashSet.Removing.{remove-IsHashSet}

-- The factor 0.5, and keys that are pointers.
abbrev half : ℕ → ℕ
half c = c / 2

half-IsLoad : IsLoad half
half-IsLoad = record { roomy = λ c h. omega arith; grows = λ c h. omega arith }

abbrev shift4 : ℕ → ℕ
shift4 = default_hash_function 4

start_IsHashSet : IsHashSet half shift4 (new half 16) []
start_IsHashSet =
    new-IsHashSet half shift4 half-IsLoad 16 4 (omega arith) (omega arith) (omega arith)

with_key :
    (IsIn 32 (values (new half 16).nodes [])
      × (add half shift4 (new half 16) 32 64 ≡ some (false, new half 16)))
    ⊎ ((IsIn 32 (values (new half 16).nodes []) → ⊥)
        × ((set' : HashSet) × (add half shift4 (new half 16) 32 64 ≡ some (true, set'))
            × IsHashSet half shift4 set' (64 ∷ [])
            × (values set'.nodes (64 ∷ []) ≡ 32 ∷ [])))
unfolding new HashTable.new
with_key =
    add-IsHashSet half shift4 half-IsLoad (new half 16) [] start_IsHashSet 32 64 (λ i. i)
      (omega arith) (omega arith)

add-IsHashSet_example :
    (IsIn 32 (values (new half 16).nodes [])
      × (add half shift4 (new half 16) 32 64 ≡ some (false, new half 16)))
    ⊎ ((IsIn 32 (values (new half 16).nodes []) → ⊥)
        × ((set' : HashSet) × (add half shift4 (new half 16) 32 64 ≡ some (true, set'))
            × IsHashSet half shift4 set' (64 ∷ [])
            × (values set'.nodes (64 ∷ []) ≡ 32 ∷ [])))
unfolding new HashTable.new
add-IsHashSet_example =
    add-IsHashSet half shift4 half-IsLoad (new half 16) [] start_IsHashSet 32 64 (λ i. i)
      (omega arith) (omega arith)

-- The set with the key 32.
with_key_set : HashSet
with_key_set = elim with_key [ inl h ↦ new half 16 | inr h ↦ h.1.0 ]

with_key_IsHashSet : IsHashSet half shift4 with_key_set (64 ∷ [])
unfolding with_key_set
with_key_IsHashSet =
    elim with_key
      as (λ e. IsHashSet half shift4 (elim e [ inl h ↦ new half 16 | inr h ↦ h.1.0 ]) (64 ∷ [])) [
        | inl h ↦ absurd h.0
        | inr h ↦ h.1.2
      ]

remove-IsHashSet_example :
    ((IsIn 32 (values with_key_set.nodes (64 ∷ [])) → ⊥)
      × (remove shift4 with_key_set 32 ≡ some (false, with_key_set)))
    ⊎ ((pre : List ℕ) × (p : ℕ) × (post : List ℕ) × (64 ∷ [] ≡ pre ++ p ∷ post)
        × ((with_key_set.nodes p).val ≡ 32)
        × ((set' : HashSet) × (remove shift4 with_key_set 32 ≡ some (true, set'))
            × IsHashSet half shift4 set' (pre ++ post)
            × ((x : ℕ) → (set'.nodes x).val ≡ (with_key_set.nodes x).val)))
remove-IsHashSet_example =
    remove-IsHashSet half shift4 half-IsLoad with_key_set (64 ∷ []) with_key_IsHashSet 32
