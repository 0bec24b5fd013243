-- ===== src/HashSet.antt =====
-- The hash set of hashset.h: a hash table from keys to the nodes of a list in the order of
-- insertion. A `LinkNode` is a node of a list whose value is the key; the pointer of a new one is an
-- argument.
pub mod Members
pub mod Adding
pub mod Removing
mod Tests
use c11tester.Base.{
  ℕ, suc, Bool, true, false, not, ◌==◌, if◌then◌else◌, Option, none, some, update, List, [], ◌∷◌,
}
use c11tester.HashTable
use c11tester.HashTable.{HashTable}
use c11tester.SnapList.{SllNode, SnapList, set_next, set_prev}

pub record HashSet : Type 0 where
  pub table : HashTable
  pub nodes : ℕ → SllNode
  pub list : Option ℕ
  pub tail : Option ℕ

-- A new set has a table of `initialcapacity` bins.
unfoldable pub new : (ℕ → ℕ) → ℕ → HashSet
new scaled initialcapacity = record {
  table = HashTable.new scaled initialcapacity;
  nodes = λ p. record { next = none; prev = none; val = 0 };
  list = none;
  tail = none;
}

-- The value of the table that is not a node is the null pointer.
unfoldable pub add : (ℕ → ℕ) → (ℕ → ℕ) → HashSet → ℕ → ℕ → Option (Bool × HashSet)
add scaled hash set key newnode = elim (HashTable.get hash set.table key) [
  | none ↦ none
  | some val ↦ elim (val == 0) [
    | false ↦ some (false, set)
    | true ↦
        let nodes = update set.nodes newnode (record { next = none; prev = set.tail; val = key }) in
        elim (HashTable.put scaled hash set.table key newnode) [
          | none ↦ none
          | some table ↦ some (
            true,
            record {
              table = table;
              nodes = elim set.tail [
                | none ↦ nodes
                | some last ↦ set_next nodes last (some newnode)
              ];
              list = elim set.tail [ none ↦ some newnode | some last ↦ set.list ];
              tail = some newnode;
            },
          )
        ]
  ]
]

-- The key in the set, the null pointer if it is not there.
unfoldable pub get : (ℕ → ℕ) → HashSet → ℕ → Option ℕ
get hash set key = elim (HashTable.get hash set.table key) [
  | none ↦ none
  | some val ↦ some (if val == 0 then 0 else (set.nodes val).val)
]

unfoldable pub contains : (ℕ → ℕ) → HashSet → ℕ → Option Bool
contains hash set key = elim (HashTable.get hash set.table key) [
  | none ↦ none
  | some val ↦ some (not (val == 0))
]

-- What the nodes around a node that leaves are told.
unfoldable pub unlink_links : (ℕ → SllNode) → Option ℕ → Option ℕ → ℕ → SllNode
unlink_links nodes next prev =
    let told : ℕ → SllNode = elim prev [
      | none ↦ nodes
      | some before ↦ set_next nodes before next
    ] in
    elim next [ none ↦ told | some after ↦ set_prev told after prev ]

-- The list without a node.
unfoldable pub unlink : HashSet → HashTable → ℕ → HashSet
unfolding unlink_links
unlink set table oldlinknode =
    let next = (set.nodes oldlinknode).next in
    let prev = (set.nodes oldlinknode).prev in
    record {
      table = table;
      nodes = unlink_links set.nodes next prev;
      list = elim prev [ none ↦ next | some before ↦ set.list ];
      tail = elim next [ none ↦ prev | some after ↦ set.tail ];
    }

unfoldable pub remove : (ℕ → ℕ) → HashSet → ℕ → Option (Bool × HashSet)
remove hash set key = elim (HashTable.get hash set.table key) [
  | none ↦ none
  | some oldlinknode ↦ elim (oldlinknode == 0) [
    | true ↦ some (false, set)
    | false ↦ elim (HashTable.remove hash set.table key) [
      | none ↦ none
      | some (v, table) ↦ some (true, unlink set table oldlinknode)
    ]
  ]
]

unfoldable pub reset : HashSet → HashSet
reset set = record set { table = HashTable.reset set.table; list = none; tail = none }
