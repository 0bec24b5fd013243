-- ===== src/HashTable/Tests.antt =====
-- The hash table of hashtable.h at a small table: two keys that hash to the same bin, and a removal
-- that moves one of them.
use c11tester.Base.{ℕ, ◌/◌, ◌≡◌, Option, none, some, arith, update}
use c11tester.HashTable.{HashTable, default_hash_function, new, get, put, remove}
use c11tester.HashTable.Refinement.{IsLoad, Models, get-value}
use c11tester.HashTable.Putting.{put-Models}
use c11tester.HashTable.Removing.{remove-Models, new-Models}

-- The factor 0.5.
abbrev half : ℕ → ℕ
half c = c / 2

half-IsLoad : IsLoad half
half-IsLoad = record { roomy = λ c h. omega arith; grows = λ c h. omega arith }

abbrev shift4 : ℕ → ℕ
shift4 = default_hash_function 4

abbrev empty_map : ℕ → Option ℕ
empty_map k = none

start_Models : Models half shift4 (new half 4) empty_map
start_Models = new-Models half shift4 half-IsLoad 4 2 (omega arith) (omega arith) (omega arith)

one_key :
    (t : HashTable) × (put half shift4 (new half 4) 0x20 7 ≡ some t)
    × Models half shift4 t (update empty_map 0x20 (some 7))
unfolding new
one_key = put-Models half shift4 half-IsLoad start_Models 0x20 7 (omega arith)

put-Models_example :
    (t : HashTable) × (put half shift4 (new half 4) 0x20 7 ≡ some t)
    × Models half shift4 t (update empty_map 0x20 (some 7))
unfolding new
put-Models_example = put-Models half shift4 half-IsLoad start_Models 0x20 7 (omega arith)

remove-Models_example :
    (t : HashTable) × (remove shift4 one_key.0 0x20 ≡ some (7, t))
    × Models half shift4 t (update (update empty_map 0x20 (some 7)) 0x20 none)
remove-Models_example = remove-Models half shift4 half-IsLoad one_key.2 0x20

get-value_example : get shift4 one_key.0 0x20 ≡ some 7
get-value_example = get-value half shift4 half-IsLoad one_key.2 0x20
