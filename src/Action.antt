-- ===== src/Action.antt =====
-- Model actions (action.h, action.cc): one operation of a thread on the shared memory.
-- `Kinds` has the enumerations and the class's tests, `Rmw` the conversions and values,
-- `Sync` the clock vectors of actions and happens-before.
-- A pointer to an action, a thread or a memory word is a number; NULL is 0 for locations and
-- `none` elsewhere. Thread ids are `int`s as 32-bit patterns, so -1 is `thread_id_none`.
pub mod Conflicts
pub mod Kinds
pub mod KindsLaws
pub mod Names
pub mod Rmw
pub mod Sync
mod Tests
use Kinds.{ActionType, MemoryOrder, type_code, thread_create, atomic_fence, atomic_nop}
use c11tester.Base.{ℕ, ◌-◌, ◌^◌, Bool, true, ◌||◌, ◌==◌, not, Option, none, some, if◌then◌else◌}
use c11tester.ClockVector.{ClockVector}

-- The union of the three members that share their storage.
pub data Shared : Type 0 where
  reads_from : Option ℕ → Shared
  size : ℕ → Shared
  time : ℕ → Shared

-- `action_ref` and `rf_cv` are caches of the execution, and are not kept here.
pub record ModelAction : Type 0 where
  pub location : ℕ
  pub position : Option ℕ
  pub shared : Shared
  pub last_fence_release : Option ℕ
  pub cv : Option ClockVector
  pub value : ℕ
  pub type : ActionType
  pub order : MemoryOrder
  pub original_order : MemoryOrder
  pub tid : ℕ
  pub seq_number : ℕ
  pub thread_operand : Option ℕ

abbrev pub value_none : ℕ
value_none = 0xdeadbeef

abbrev pub action_initial_clock : ℕ
action_initial_clock = 0

abbrev pub thread_id_none : ℕ
thread_id_none = 2 ^ 32 - 1

blank : ActionType → MemoryOrder → ℕ → ℕ → Shared → ℕ → ModelAction
blank type order loc value shared tid = record {
  location = loc;
  position = none;
  shared = shared;
  last_fence_release = none;
  cv = none;
  value = value;
  type = type;
  order = order;
  original_order = order;
  tid = tid;
  seq_number = action_initial_clock;
  thread_operand = none;
}

-- `t != NULL ? t->get_id() : -1`, where a thread that is given comes before the current one.
abbrev pub owner : Option ℕ → Option ℕ → ℕ
owner (some id) current = id
owner none (some id) = id
owner none none = thread_id_none

-- The constructors. `none` is a failed assertion, which ends the process. A thread enters by its
-- id, and `current` is the id of the thread that runs.
pub new : ActionType → MemoryOrder → ℕ → ℕ → Option ℕ → Option ℕ → Option ModelAction
unfolding blank
new type order loc value thread current =
    if not (loc == 0)
      || type_code type == type_code atomic_fence
      || type_code type == type_code atomic_nop
    then some (blank type order loc value (reads_from none) (owner thread current))
    else none

pub new_sleep : ActionType → MemoryOrder → ℕ → ℕ → Option ℕ → ModelAction
unfolding blank
new_sleep type order value now current = blank type order 0 value (time now) (owner none current)

pub new_sized : ActionType → MemoryOrder → ℕ → ℕ → ℕ → ℕ → Option ModelAction
unfolding blank
new_sized type order loc value bytes current_id =
    if not (loc == 0) then some (blank type order loc value (size bytes) current_id) else none

at_position : Option ℕ → Option ModelAction → Option ModelAction
at_position p none = none
at_position p (some a) = some (record a { position = p })

pub new_sized_at : ActionType → Option ℕ → MemoryOrder → ℕ → ℕ → ℕ → ℕ → Option ModelAction
unfolding at_position new_sized
new_sized_at type position order loc value bytes current_id =
    at_position position (new_sized type order loc value bytes current_id)

-- With no thread at all, this constructor reads the id of a null thread.
abbrev some_thread : Option ℕ → Option ℕ → Option ℕ
some_thread (some id) current = some id
some_thread none current = current

pub new_at : ActionType → Option ℕ → MemoryOrder → ℕ → ℕ → Option ℕ → Option ℕ → Option ModelAction
unfolding at_position blank
new_at type position order loc value thread current =
    if not (loc == 0) || type_code type == type_code atomic_fence
    then elim (some_thread thread current) [
      | none ↦ none
      | some id ↦ at_position position (some (blank type order loc value (reads_from none) id))
    ]
    else none

-- `set_seq_number` asserts that the action has no number yet.
pub set_seq_number : ModelAction → ℕ → Option ModelAction
set_seq_number this num =
    if this.seq_number == action_initial_clock
    then some (record this { seq_number = num })
    else none

pub copy_from_new : ModelAction → ModelAction → ModelAction
copy_from_new this newaction = record this { seq_number = newaction.seq_number }

pub reset_seq_number : ModelAction → ModelAction
reset_seq_number this = record this { seq_number = 0 }
