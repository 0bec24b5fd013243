-- ===== src/Execution/Fences.antt =====
-- The last sequentially consistent write and fence, and the last unlock (execution.cc).
pub mod Newest
use c11tester.Base.{ℕ, ◌==◌, Bool, ◌&&◌, ◌||◌, if◌then◌else◌, Option, none, some, List, [], ◌∷◌}
use c11tester.Action.Kinds.{is_fence, is_seqcst, is_unlock, is_wait}
use c11tester.Execution.State.{Execution}

abbrev pub fence_location : ℕ
fence_location = 0x7

pub get_last_seq_cst_write : Execution → ℕ → Option ℕ
get_last_seq_cst_write e curr = e.obj_last_sc_map (e.actions curr).location

-- The list behind an action; `none` is the failed assertion that the action is there.
pub behind : ℕ → List ℕ → Option (List ℕ)
behind fence [] = none
behind fence (a ∷ list) = if a == fence then some list else behind fence list

-- The first action of a list that passes a test: the newest one.
unfoldable pub newest : (ℕ → Bool) → List ℕ → Option ℕ
newest test [] = none
newest test (a ∷ list) = if test a then some a else newest test list

unfoldable pub is_fence_of : Execution → ℕ → ℕ → Bool
is_fence_of e tid a =
    is_fence (e.actions a).type && tid == (e.actions a).tid && is_seqcst (e.actions a).order

from_fence : Option ℕ → List ℕ → Option (List ℕ)
unfolding behind
from_fence none list = some list
from_fence (some fence) list = behind fence list

-- The outer option is a failed assertion.
unfoldable pub get_last_seq_cst_fence : Execution → ℕ → Option ℕ → Option (Option ℕ)
unfolding from_fence newest is_fence_of
get_last_seq_cst_fence e tid before_fence = elim (e.obj_map fence_location) [
  | none ↦ some none
  | some list ↦ elim (from_fence before_fence list) [
    | none ↦ none
    | some rest ↦ some (newest (is_fence_of e tid) rest)
  ]
]

unfoldable pub ends_lock : Execution → ℕ → Bool
ends_lock e a = is_unlock (e.actions a).type || is_wait (e.actions a).type

unfoldable pub get_last_unlock : Execution → ℕ → Option ℕ
unfolding newest ends_lock
get_last_unlock e curr = elim (e.obj_map (e.actions curr).location) [
  | none ↦ none
  | some list ↦ newest (ends_lock e) list
]
