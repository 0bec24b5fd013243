-- ===== src/ActionList.antt =====
-- The list of actions in the order of their sequence numbers (actionlist.cc): a linked list, and a
-- tree of nodes with 16 children, by the digits of the sequence number, that finds the place of an
-- action. A node is named by its place: the one at level `k` for the prefix `q` has the clocks
-- `q * 16 ^ k` and on, its children are at the level below it, and the root is the node at level 8
-- for 0. Below level 1 stand the nodes of the list. `totalshift` and `shiftbits` are 4 * `level`.
-- A search takes fuel, and `none` says that it ran out.
pub mod Digits
pub mod Search
pub mod Sorted
pub mod Growing
pub mod Linking
pub mod Placing
pub mod Adding
pub mod Removal
mod Tests
use c11tester.Base.{
  ℕ, zero, suc, ◌+◌, ◌-◌, ◌*◌, ◌/◌, ◌%◌, ◌^◌, Bool, true, false, not, ◌&&◌, ◌==◌, if◌then◌else◌,
  Option, none, some, update,
}
use c11tester.SnapList
use c11tester.SnapList.{SllNode, SnapList, set_next, set_prev, more, add_front}

pub record ActionList : Type 0 where
  pub node : ℕ → ℕ → Bool
  pub count : ℕ → ℕ → ℕ
  pub leaf : ℕ → Option ℕ
  pub list : SnapList

abbrev pub is_some : Option ℕ → Bool
is_some none = false
is_some (some p) = true

-- The child pointer at a level, for a prefix, is not null.
abbrev pub has : ActionList → ℕ → ℕ → Bool
has t zero q = is_some (t.leaf q)
has t (suc k) q = t.node (suc k) q

abbrev pub word : ℕ
word = 2 ^ 32

-- The second loop of `allnode::findPrev`: down to the last entry of a node.
pub descend : ℕ → ActionList → ℕ → ℕ → ℕ → ℕ → Option (Option ℕ)
descend zero t level ptr index increment = none
descend (suc fuel) t level ptr index increment =
    let currindex = index / 16 ^ level % 16 in
    let child = 16 * ptr + currindex in
    let lower = descend fuel t (level - 1) child index (increment / 16) in
    let earlier = descend fuel t level ptr ((index + word - increment) % word) increment in
    if has t level child then if level == 0 then some (t.leaf child) else lower else earlier

-- The first loop: earlier at this level, or up where it went negative.
pub ascend : ℕ → ActionList → ℕ → ℕ → ℕ → ℕ → Option (Option ℕ)
ascend zero t level ptr index increment = none
ascend (suc fuel) t level ptr index increment =
    let currindex = index / 16 ^ level % 16 in
    let child = 16 * ptr + currindex in
    let earlier = ascend fuel t level ptr ((index + word - increment) % word) increment in
    let upper = ascend fuel t (level + 1) (ptr / 16) index (increment * 16 % word) in
    if not (currindex == 15)
    then if not (has t level child)
      then earlier
      else if level == 0
      then some (t.leaf child)
      else descend 256 t (level - 1) child index (increment / 16)
    else if level == 7
    then some none
    else upper

pub find_prev : ActionList → ℕ → ℕ → Option (Option ℕ)
find_prev t ptr index = ascend 256 t 0 ptr ((index + word - 1) % word) 1

-- `new allnode()`, set as a child of the node for `ptr`: it has no children.
unfoldable pub new_node : ActionList → ℕ → ℕ → ℕ → ActionList
new_node t level ptr child = record t {
  node = λ k q.
      if k == level && q == child
      then true
      else if k + 1 == level && q / 16 == child
      then false
      else t.node k q;
  leaf = λ q. if level == 1 && q / 16 == child then none else t.leaf q;
  count = λ k q.
      if k == level && q == child
      then 0
      else if k == level + 1 && q == ptr
      then t.count k q + 1
      else t.count k q;
}

-- A node of the list that comes after another one, in the order of the assignments.
unfoldable pub link_after : SnapList → ℕ → ℕ → ℕ → SnapList
link_after l llnodeprev llnode act =
    let next = (l.nodes llnodeprev).next in
    let nodes = update l.nodes llnode (record { next = next; prev = some llnodeprev; val = act }) in
    record {
      nodes =
          set_next (elim next [ none ↦ nodes | some after ↦ set_prev nodes after (some llnode) ])
            llnodeprev (some llnode);
      head = l.head;
      tail = elim next [ none ↦ some llnode | some after ↦ l.tail ];
      size = more l.size;
    }

-- The body of the loop of `addAction` at `shiftbits == 0`, in the node for `ptr` with the child
-- pointer `at`.
unfoldable pub add_entry : ActionList → ℕ → ℕ → ℕ → ℕ → ℕ → Option ActionList
unfolding link_after
add_entry t ptr at clock llnode act = elim (t.leaf at) [
  | none ↦ elim (find_prev t ptr clock) [
    | none ↦ none
    | some found ↦ some (record t {
      leaf = update t.leaf at (some llnode);
      count = λ k q. if k == 1 && q == ptr then t.count k q + 1 else t.count k q;
      list = elim found [
        | none ↦ add_front t.list llnode act
        | some llnodeprev ↦ link_after t.list llnodeprev llnode act
      ];
    })
  ]
  | some llnodeprev ↦ some (record t {
    leaf = update t.leaf at (some llnode);
    list = link_after t.list llnodeprev llnode act;
  })
]

unfoldable pub add_leaf : ActionList → ℕ → ℕ → ℕ → ℕ → Option ActionList
unfolding add_entry
add_leaf t ptr clock llnode act = add_entry t ptr (16 * ptr + clock % 16) clock llnode act

-- The loop of `addAction`, from the level of the child pointers that it looks at.
pub add_from : ℕ → ActionList → ℕ → ℕ → ℕ → ℕ → Option ActionList
unfolding add_leaf new_node
add_from zero t ptr clock llnode act = add_leaf t ptr clock llnode act
add_from (suc level) t ptr clock llnode act =
    let child = 16 * ptr + clock / 16 ^ suc level % 16 in
    add_from level (if t.node (suc level) child then t else new_node t (suc level) ptr child) child
      clock llnode act

-- `actionlist::addAction` of an action with the sequence number `clock`, from the root on.
unfoldable pub add_action : ActionList → ℕ → ℕ → ℕ → Option ActionList
add_action t clock llnode act = add_from 7 t 0 clock llnode act

-- `actionlist()`.
unfoldable pub new : ActionList
new = record {
  node = λ k q. false;
  count = λ k q. 0;
  leaf = λ q. none;
  list = record {
    nodes = λ p. record { next = none; prev = none; val = 0 };
    head = none;
    tail = none;
    size = 0;
  };
}

-- The children of the root are deleted, and what is below them, and the list is freed.
unfoldable pub clear : ActionList → ActionList
unfolding SnapList.clear
clear t = record {
  node = λ k q. false;
  count = λ k q. if k == 8 && q == 0 then 0 else t.count k q;
  leaf = λ q. none;
  list = SnapList.clear t.list;
}

unfoldable pub is_empty : ActionList → Bool
is_empty t = t.count 8 0 == 0
