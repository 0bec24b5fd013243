-- ===== src/ActionList/Tests.antt =====
-- The action list of actionlist.cc with two actions, the second of which comes in late: the tree is
-- searched through two of its levels.
use c11tester.Base.{
  refl, Bool, true, false, ℕ, ◌*◌, ◌/◌, ◌≡◌, ◌⊎◌, inl, inr, Option, none, some, List, [], IsIn,
  arith,
}
use c11tester.Action.{ModelAction, reads_from}
use c11tester.Action.Kinds.{atomic_write, release}
use c11tester.Execution.Lists
use c11tester.SnapList.{add_front}
use c11tester.ActionList.{ActionList, new, add_action, add_from, ascend, find_prev, is_empty}
use c11tester.ActionList.Removal.{remove_action}
use c11tester.ActionList.Growing.{tree-IsIndexed}
use c11tester.ActionList.Search.{IsBefore, find_prev-IsBefore}
use c11tester.ActionList.Placing.{IsActionList, backwards}
use c11tester.ActionList.Adding.{add_action-Lists, new-IsActionList}

-- Action `n` has the number 10 * n.
abbrev numbered : ℕ → ModelAction
numbered n = record {
  location = 4096;
  position = none;
  shared = reads_from none;
  last_fence_release = none;
  cv = none;
  value = 0;
  type = atomic_write;
  order = release;
  original_order = release;
  tid = 1;
  seq_number = 10 * n;
  thread_operand = none;
}

first_action :
    (t' : ActionList) × (xs' : List ℕ) × (add_action new 90 64 9 ≡ some t')
    × IsActionList numbered t' xs'
    × (backwards numbered t'.list xs' ≡ Lists.add_action numbered [] 9)
    × ((x : ℕ) → IsIn x xs' → (x ≡ 64) ⊎ IsIn {A = ℕ} x [])
first_action =
    add_action-Lists numbered new [] 64 9 (new-IsActionList numbered) (λ i. i) (omega arith)

absent_65 : IsIn 65 first_action.1 → ⊥
absent_65 i = elim (first_action.5 65 i) [ inl e ↦ absurd (omega arith) | inr j ↦ j ]

add_action-Lists_example :
    (t' : ActionList) × (xs' : List ℕ) × (add_action first_action.0 20 65 2 ≡ some t')
    × IsActionList numbered t' xs'
    × (backwards numbered t'.list xs'
        ≡ Lists.add_action numbered (backwards numbered first_action.0.list first_action.1) 2)
    × ((x : ℕ) → IsIn x xs' → (x ≡ 65) ⊎ IsIn x first_action.1)
add_action-Lists_example =
    add_action-Lists numbered first_action.0 first_action.1 65 2 first_action.3 absent_65
      (omega arith)

find_prev-IsBefore_example :
    (r : Option ℕ) × (find_prev first_action.0 (100 / 16) 100 ≡ some r)
    × IsBefore first_action.0 100 r
find_prev-IsBefore_example =
    find_prev-IsBefore first_action.0 100 (tree-IsIndexed first_action.0 100 first_action.3.tree)
      (omega arith)

-- Is the list empty once its one action is removed, and once it is removed beside another one?
abbrev empty_after : Option ActionList → ℕ → Option Bool
empty_after none act = none
empty_after (some t) act = elim (remove_action numbered t act) [
  | none ↦ none
  | some t' ↦ some (is_empty t')
]

removed_only : empty_after (add_action new 90 64 9) 9 ≡ some true
unfolding add_action new remove_action is_empty add_from find_prev ascend add_front
removed_only = refl

abbrev two_actions : Option ActionList
unfolding add_action new
two_actions = elim (add_action new 90 64 9) [ none ↦ none | some t ↦ add_action t 20 65 2 ]

removed_one : empty_after two_actions 9 ≡ some false
unfolding add_action new remove_action is_empty add_from find_prev ascend add_front
removed_one = refl

removed_other : empty_after two_actions 3 ≡ some false
unfolding add_action new remove_action is_empty add_from find_prev ascend
removed_other = refl
