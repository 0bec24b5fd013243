-- ===== src/SnapList.antt =====
-- The doubly linked lists of stl-model.h. A node is named by its pointer, `none` is the null
-- pointer, and a read through it is a fault, `none`. The pointer of a new node is an argument.
-- `ModelList` has the same code over another allocator.
pub mod Chains
pub mod Insertion
pub mod Erasure
pub mod Ends
mod Tests
use c11tester.Base.{
  ℕ, ◌+◌, ◌-◌, ◌%◌, ◌^◌, Bool, true, false, ◌==◌, if◌then◌else◌, Option, none, some, update,
}

-- `sllnode`.
pub record SllNode : Type 0 where
  pub next : Option ℕ
  pub prev : Option ℕ
  pub val : ℕ

pub record SnapList : Type 0 where
  pub nodes : ℕ → SllNode
  pub head : Option ℕ
  pub tail : Option ℕ
  pub size : ℕ

abbrev pub set_next : (ℕ → SllNode) → ℕ → Option ℕ → ℕ → SllNode
set_next nodes p next = update nodes p (record (nodes p) { next = next })

abbrev pub set_prev : (ℕ → SllNode) → ℕ → Option ℕ → ℕ → SllNode
set_prev nodes p prev = update nodes p (record (nodes p) { prev = prev })

-- A comparison of two pointers.
abbrev pub is_ptr : Option ℕ → ℕ → Bool
is_ptr none p = false
is_ptr (some q) p = q == p

-- `size++` and `size--` on the `uint` that counts the nodes.
abbrev pub more : ℕ → ℕ
more size = (size + 1) % 2 ^ 32

abbrev pub fewer : ℕ → ℕ
fewer size = (size + 2 ^ 32 - 1) % 2 ^ 32

-- `add_front`, which returns the new node; `push_front` does the same.
unfoldable pub add_front : SnapList → ℕ → ℕ → SnapList
add_front l tmp val =
    let nodes = update l.nodes tmp (record { next = l.head; prev = none; val = val }) in
    record {
      nodes = elim l.head [ none ↦ nodes | some first ↦ set_prev nodes first (some tmp) ];
      head = some tmp;
      tail = elim l.head [ none ↦ some tmp | some first ↦ l.tail ];
      size = more l.size;
    }

unfoldable pub add_back : SnapList → ℕ → ℕ → SnapList
add_back l tmp val =
    let nodes = update l.nodes tmp (record { next = none; prev = l.tail; val = val }) in
    record {
      nodes = elim l.tail [ none ↦ nodes | some last ↦ set_next nodes last (some tmp) ];
      head = elim l.tail [ none ↦ some tmp | some last ↦ l.head ];
      tail = some tmp;
      size = more l.size;
    }

unfoldable pub pop_front : SnapList → Option SnapList
pop_front l = elim l.head [
  | none ↦ none
  | some tmp ↦
      let head = (l.nodes tmp).next in
      some (record {
        nodes = elim head [ none ↦ l.nodes | some first ↦ set_prev l.nodes first none ];
        head = head;
        tail = elim head [ none ↦ none | some first ↦ l.tail ];
        size = fewer l.size;
      })
]

unfoldable pub pop_back : SnapList → Option SnapList
pop_back l = elim l.tail [
  | none ↦ none
  | some tmp ↦
      let tail = (l.nodes tmp).prev in
      some (record {
        nodes = elim tail [ none ↦ l.nodes | some last ↦ set_next l.nodes last none ];
        head = elim tail [ none ↦ none | some last ↦ l.head ];
        tail = tail;
        size = fewer l.size;
      })
]

unfoldable pub insert_after : SnapList → ℕ → ℕ → ℕ → SnapList
insert_after l node tmp val =
    let next = (l.nodes node).next in
    let nodes =
      set_next (update l.nodes tmp (record { next = next; prev = some node; val = val })) node
        (some tmp) in
    record {
      nodes = elim next [ none ↦ nodes | some after ↦ set_prev nodes after (some tmp) ];
      head = l.head;
      tail = elim next [ none ↦ some tmp | some after ↦ l.tail ];
      size = more l.size;
    }

unfoldable pub insert_before : SnapList → ℕ → ℕ → ℕ → SnapList
insert_before l node tmp val =
    let prev = (l.nodes node).prev in
    let nodes =
      set_prev (update l.nodes tmp (record { next = some node; prev = prev; val = val })) node
        (some tmp) in
    record {
      nodes = elim prev [ none ↦ nodes | some before ↦ set_next nodes before (some tmp) ];
      head = elim prev [ none ↦ some tmp | some before ↦ l.head ];
      tail = l.tail;
      size = more l.size;
    }

-- `p->next = next`, a fault at the null pointer.
abbrev pub store_next : (ℕ → SllNode) → Option ℕ → Option ℕ → Option (ℕ → SllNode)
store_next nodes none next = none
store_next nodes (some p) next = some (set_next nodes p next)

abbrev pub store_prev : (ℕ → SllNode) → Option ℕ → Option ℕ → Option (ℕ → SllNode)
store_prev nodes none prev = none
store_prev nodes (some p) prev = some (set_prev nodes p prev)

-- The assignments of `erase`, whose tests are `head == node` and `tail == node`.
unfoldable pub unlink : SnapList → Option ℕ → Option ℕ → Bool → Bool → Option (Option ℕ × SnapList)
unlink l next prev first last =
    elim (if first then some l.nodes else store_next l.nodes prev next) [
      | none ↦ none
      | some nodes ↦ elim (if last then some nodes else store_prev nodes next prev) [
        | none ↦ none
        | some nodes' ↦ some (
          next,
          record {
            nodes = nodes';
            head = if first then next else l.head;
            tail = if last then prev else l.tail;
            size = fewer l.size;
          },
        )
      ]
    ]

-- The node after the erased one, and the list.
unfoldable pub erase : SnapList → ℕ → Option (Option ℕ × SnapList)
unfolding unlink
erase l node =
    unlink l (l.nodes node).next (l.nodes node).prev (is_ptr l.head node) (is_ptr l.tail node)

unfoldable pub clear : SnapList → SnapList
clear l = record l { head = none; tail = none; size = 0 }
