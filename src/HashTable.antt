-- ===== src/HashTable.antt =====
-- The hash table (hashtable.h): open addressing with linear probing. The hash function
-- is the template's parameter, keys and values are pointers, 0 the null pointer, and
-- `scaled c` stands for `(unsigned int)(c * loadfactor)`. A loop takes fuel, and `none` says that
-- it ran out, or that the program exits.
pub mod Cycle
pub mod Occupied
pub mod Probes
pub mod Filling
pub mod Hole
pub mod Closing
pub mod Rehash
pub mod Refinement
pub mod Entries
pub mod Putting
pub mod Removing
mod Tests
use c11tester.Base.{
  ℕ, zero, suc, ◌+◌, ◌-◌, ◌*◌, ◌/◌, ◌%◌, ◌^◌, bit_and, Bool, true, false, ◌&&◌, ◌||◌, ltb, leb,
  ◌==◌, if◌then◌else◌, Option, none, some, update,
}

pub record HashListNode : Type 0 where
  pub key : ℕ
  pub val : ℕ

abbrev pub blank : HashListNode
blank = record { key = 0; val = 0 }

-- A bin that ends a search.
abbrev pub is_blank : HashListNode → Bool
is_blank node = node.key == 0 && node.val == 0

-- The field `zero` holds the value of the key 0.
pub record HashTable : Type 0 where
  pub table : ℕ → HashListNode
  pub zero : Option ℕ
  pub capacity : ℕ
  pub size : ℕ
  pub capacitymask : ℕ
  pub threshold : ℕ

pub default_hash_function : ℕ → ℕ → ℕ
default_hash_function shift key = key / 2 ^ shift % 2 ^ 32

unfoldable pub new : (ℕ → ℕ) → ℕ → HashTable
new scaled initialcapacity = record {
  table = λ _. blank;
  zero = none;
  capacity = initialcapacity;
  size = 0;
  capacitymask = initialcapacity - 1;
  threshold = scaled initialcapacity;
}

unfoldable pub reset : HashTable → HashTable
reset t = record t { table = λ _. blank; zero = none; size = 0 }

-- The loop of `get`.
pub get_from : ℕ → (ℕ → HashListNode) → ℕ → ℕ → ℕ → ℕ → Option ℕ
get_from zero table mask key oindex index = none
get_from (suc fuel) table mask key oindex index =
    let search = table index in
    let next = bit_and (index + 1) mask in
    let rest = get_from fuel table mask key oindex next in
    let onward = if next == oindex then some 0 else rest in
    if search.key == 0
    then if search.val == 0 then some 0 else onward
    else if search.key == key
    then some search.val
    else onward

unfoldable pub get : (ℕ → ℕ) → HashTable → ℕ → Option ℕ
unfolding get_from
get hash t zero = elim t.zero [ none ↦ some 0 | some v ↦ some v ]
get hash t (suc k) =
    let oindex = bit_and (hash (suc k)) t.capacitymask in
    get_from t.capacity t.table t.capacitymask (suc k) oindex oindex

-- The loop of `contains`, which masks the index when a round begins and stops at a blank bin only.
pub contains_from : ℕ → (ℕ → HashListNode) → ℕ → ℕ → ℕ → Option Bool
contains_from zero table mask key index = none
contains_from (suc fuel) table mask key index =
    let at = bit_and index mask in
    let search = table at in
    let rest = contains_from fuel table mask key (at + 1) in
    if search.key == 0
    then if search.val == 0 then some false else rest
    else if search.key == key
    then some true
    else rest

unfoldable pub contains : (ℕ → ℕ) → HashTable → ℕ → Option Bool
unfolding contains_from
contains hash t zero = elim t.zero [ none ↦ some false | some v ↦ some true ]
contains hash t (suc k) = contains_from t.capacity t.table t.capacitymask (suc k) (hash (suc k))

-- How the search of `put` ends: at the bin of the key, at a bin to fill, by `exit`, or not at all.
pub data Place : Type 0 where
  old : ℕ → Place
  fresh : ℕ → Place
  full : Place
  unfinished : Place

-- The loop of `put`, with the first bin that may be used again.
pub put_from : ℕ → (ℕ → HashListNode) → ℕ → ℕ → ℕ → Option ℕ → ℕ → Place
put_from zero table mask key oindex first index = unfinished
put_from (suc fuel) table mask key oindex first index =
    let search = table index in
    let first' : Option ℕ = elim first [
      | none ↦ if search.key == 0 then some index else none
      | some i ↦ some i
    ] in
    let next = bit_and (index + 1) mask in
    let rest = put_from fuel table mask key oindex first' next in
    if is_blank search
    then elim first [ none ↦ fresh index | some i ↦ fresh i ]
    else if search.key == key
    then old index
    else if next == oindex
    then elim first' [ none ↦ full | some i ↦ fresh i ]
    else rest

-- The inner loop of `resize`.
pub find_blank : ℕ → (ℕ → HashListNode) → ℕ → ℕ → Option ℕ
find_blank zero table mask index = none
find_blank (suc fuel) table mask index =
    let at = bit_and index mask in
    let rest = find_blank fuel table mask (at + 1) in if (table at).key == 0 then some at else rest

-- The outer loop of `resize`: the bins that are left, from `bin` on.
pub rehash :
    (ℕ → ℕ) → ℕ → (ℕ → HashListNode) → ℕ → ℕ → ℕ → (ℕ → HashListNode) → Option (ℕ → HashListNode)
rehash hash zero oldtable bin newsize mask table = some table
rehash hash (suc left) oldtable bin newsize mask table =
    let node = oldtable bin in
    elim (node.key == 0) [
      | true ↦ rehash hash left oldtable (bin + 1) newsize mask table
      | false ↦ elim (find_blank newsize table mask (hash node.key)) [
        | none ↦ none
        | some at ↦ rehash hash left oldtable (bin + 1) newsize mask (update table at node)
      ]
    ]

pub resize : (ℕ → ℕ) → (ℕ → ℕ) → HashTable → ℕ → Option HashTable
unfolding rehash find_blank
resize scaled hash t newsize =
    elim (rehash hash t.capacity t.table 0 newsize (newsize - 1) (λ _. blank)) [
      | none ↦ none
      | some table ↦ some (record t {
        table = table;
        capacity = newsize;
        capacitymask = newsize - 1;
        threshold = scaled newsize;
      })
    ]

-- `put` once there is room: the search, and the write.
pub put_in : (ℕ → ℕ) → HashTable → ℕ → ℕ → Option HashTable
unfolding put_from
put_in hash t key val =
    let oindex = bit_and (hash key) t.capacitymask in
    elim (put_from t.capacity t.table t.capacitymask key oindex none oindex) [
      | old i ↦ some (record t { table = update t.table i (record { key = key; val = val }) })
      | fresh i ↦ some (record t {
        table = update t.table i (record { key = key; val = val });
        size = (t.size + 1) % 2 ^ 32;
      })
      | full ↦ none
      | unfinished ↦ none
    ]

unfoldable pub put : (ℕ → ℕ) → (ℕ → ℕ) → HashTable → ℕ → ℕ → Option HashTable
unfolding put_in resize
put scaled hash t zero val = some (record t {
  zero = some val;
  size = elim t.zero [ none ↦ (t.size + 1) % 2 ^ 32 | some v ↦ t.size ];
})
put scaled hash t (suc k) val = elim (ltb t.threshold t.size) [
  | true ↦ elim (resize scaled hash t (t.capacity * 2 % 2 ^ 32)) [
    | none ↦ none
    | some t' ↦ put_in hash t' (suc k) val
  ]
  | false ↦ put_in hash t (suc k) val
]

-- The search of `remove`: the bin of the key, if there is one.
pub remove_from : ℕ → (ℕ → HashListNode) → ℕ → ℕ → ℕ → Option (Option ℕ)
remove_from zero table mask key index = none
remove_from (suc fuel) table mask key index =
    let at = bit_and index mask in
    let search = table at in
    let rest = remove_from fuel table mask key (at + 1) in
    if search.key == 0
    then if search.val == 0 then some none else rest
    else if search.key == key
    then some (some at)
    else rest

-- An entry in bin `j` that hashes to `hash` stays there while bin `index` is empty.
pub stays : ℕ → ℕ → ℕ → Bool
stays index j hash =
    leb index j && (ltb index hash && leb hash j) || ltb j index && (ltb index hash || leb hash j)

-- The loops of `remove` that keep the bins contiguous: bin `index` is empty, and the bins from there
-- to `j` may stay.
pub close : ℕ → (ℕ → ℕ) → (ℕ → HashListNode) → ℕ → ℕ → ℕ → Option (ℕ → HashListNode)
close zero hash table mask index j = none
close (suc fuel) hash table mask index j =
    let j' = bit_and (j + 1) mask in
    let replace = table j' in
    let on = close fuel hash table mask index j' in
    let moved = close fuel hash (update (update table index replace) j' blank) mask j' j' in
    if is_blank replace
    then some table
    else if stays index j' (bit_and (hash replace.key) mask)
    then on
    else moved

-- The value that is returned, and the table.
unfoldable pub remove : (ℕ → ℕ) → HashTable → ℕ → Option (ℕ × HashTable)
unfolding remove_from close
remove hash t zero = elim t.zero [
  | none ↦ some (0, t)
  | some v ↦ some (v, record t { zero = none; size = (t.size + 2 ^ 32 - 1) % 2 ^ 32 })
]
remove hash t (suc k) =
    elim (remove_from t.capacity t.table t.capacitymask (suc k) (hash (suc k))) [
      | none ↦ none
      | some none ↦ some (0, t)
      | some (some i) ↦ elim (close t.capacity hash (update t.table i blank) t.capacitymask i i) [
        | none ↦ none
        | some table ↦
            some
              ((t.table i).val, record t { table = table; size = (t.size + 2 ^ 32 - 1) % 2 ^ 32 })
      ]
    ]
