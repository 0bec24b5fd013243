-- ===== src/ActionList/Removal.antt =====
-- `actionlist::removeAction` and `decrementCount` of actionlist.cc. The freed nodes keep what they
-- hold.
use c11tester.Base.{
  ℕ, zero, suc, ◌+◌, ◌-◌, ◌*◌, ◌/◌, ◌%◌, ◌^◌, Bool, true, false, ◌&&◌, ◌==◌, if◌then◌else◌, Option,
  none, some, update,
}
use c11tester.Action.{ModelAction}
use c11tester.SnapList.{SllNode, SnapList, set_next, set_prev, fewer}
use c11tester.ActionList.{ActionList}

-- `ptr->count--`.
abbrev pub lowered : ActionList → ℕ → ℕ → ActionList
lowered t level ptr = record t {
  count = λ k q. if k == level && q == ptr then t.count k q - 1 else t.count k q;
}

-- The child pointer of the parent is set to null, and the node is deleted.
abbrev pub cut_off : ActionList → ℕ → ℕ → ActionList
cut_off t level ptr = record t {
  node = λ k q. if k == level && q == ptr then false else t.node k q;
}

-- The first argument is how many levels the node is below the root, which has no parent.
pub decrement_count : ℕ → ActionList → ℕ → ℕ → ActionList
decrement_count zero t level ptr = lowered t level ptr
decrement_count (suc up) t level ptr =
    let t' = lowered t level ptr in
    let rest = decrement_count up (cut_off t' level ptr) (level + 1) (ptr / 16) in
    if t'.count level ptr == 0 then rest else t'

-- The first loop of `removeAction`, from the node for a prefix at the level above: is there an
-- entry for the clock?
pub reaches : ℕ → ActionList → ℕ → ℕ → Bool
reaches zero t ptr clock = elim (t.leaf (16 * ptr + clock % 16)) [ none ↦ false | some p ↦ true ]
reaches (suc level) t ptr clock =
    let child = 16 * ptr + clock / 16 ^ suc level % 16 in
    let rest = reaches level t child clock in if t.node (suc level) child then rest else false

-- The assignments that take a node out of the list.
unfoldable pub take_out : SnapList → ℕ → SnapList
take_out l llnode =
    let llnodeprev = (l.nodes llnode).prev in
    let llnodenext = (l.nodes llnode).next in
    let nodes : ℕ → SllNode = elim llnodeprev [
      | none ↦ l.nodes
      | some before ↦ set_next l.nodes before llnodenext
    ] in
    record {
      nodes = elim llnodenext [ none ↦ nodes | some after ↦ set_prev nodes after llnodeprev ];
      head = elim llnodeprev [ none ↦ llnodenext | some before ↦ l.head ];
      tail = elim llnodenext [ none ↦ llnodeprev | some after ↦ l.tail ];
      size = fewer l.size;
    }

module _ (actions : ℕ → ModelAction) where
  -- Does the node hold an action with the clock?
  has_clock : SnapList → Option ℕ → ℕ → Bool
  has_clock l none clock = false
  has_clock l (some p) clock = (actions (l.nodes p).val).seq_number == clock

  -- The entry of the tree for the clock, when the node that it points to goes.
  unfoldable pub give_entry : ActionList → Option ℕ → ℕ → ActionList
  unfolding has_clock decrement_count
  give_entry t llnodeprev clock =
      if has_clock t.list llnodeprev clock
      then record t { leaf = update t.leaf clock llnodeprev }
      else decrement_count 7 (record t { leaf = update t.leaf clock none }) 1 (clock / 16)

  -- The second loop, from a node on.
  pub remove_from : ℕ → ActionList → ℕ → Bool → ℕ → ℕ → Option ActionList
  unfolding give_entry take_out
  remove_from zero t llnode first clock act = none
  remove_from (suc fuel) t llnode first clock act =
      let node = t.list.nodes llnode in
      let earlier : Option ActionList = elim node.prev [
        | none ↦ some t
        | some p ↦
            let rest = remove_from fuel t p false clock act in
            if (actions (t.list.nodes p).val).seq_number == clock then rest else some t
      ] in
      let kept = if first then give_entry t node.prev clock else t in
      if node.val == act then some (record kept { list = take_out t.list llnode }) else earlier

  -- `removeAction` of the action `act`; the second loop takes as fuel the number of nodes.
  unfoldable pub remove_action : ActionList → ℕ → Option ActionList
  unfolding reaches remove_from
  remove_action t act =
      let clock = (actions act).seq_number in
      if reaches 7 t 0 clock
      then elim (t.leaf clock) [
        | none ↦ some t
        | some llnode ↦ remove_from t.list.size t llnode true clock act
      ]
      else some t
