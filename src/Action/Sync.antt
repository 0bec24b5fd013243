-- ===== src/Action/Sync.antt =====
-- The clock vectors of actions, and happens-before (action.cc).
-- `none` is the use of a clock vector that the action has not been given yet.
use c11tester.Base.{
  ℕ, ◌≡◌, ◌≤◌, ◌<◌, ◌⊎◌, ◌↔◌, Bool, true, false, ltb, ◌==◌, if◌then◌else◌, Option, none, some,
  arith, refl, inl, inr, lt→ltb, Bool-cases,
}
use native.Mathlib.Decide.{dec_lt}
use c11tester.ClockVector.{ClockVector, Stamp, merge, synchronized_since, get_clock}
use c11tester.ClockVector
use c11tester.ClockVector.Lattice.{synchronized_since_lem, get_clock-merge, get_clock-new}
use c11tester.Action.{set_seq_number, ModelAction}

-- What a clock vector reads of an action.
abbrev pub stamp : ModelAction → Stamp
stamp a = record { tid = a.tid; seq_number = a.seq_number }

abbrev parent_cv : Option ModelAction → Option ClockVector
parent_cv none = none
parent_cv (some parent) = parent.cv

pub create_cv : ModelAction → Option ModelAction → ModelAction
create_cv this parent = record this {
  cv = some (ClockVector.new (parent_cv parent) (some (stamp this)));
}

merge_into : ModelAction → Option ClockVector → Option ClockVector → Option (ModelAction × Bool)
merge_into this none d = none
merge_into this (some c) none = none
merge_into this (some c) (some d) = some (record this { cv = some (merge c d).0 }, true)

pub synchronize_with : ModelAction → ModelAction → Option (ModelAction × Bool)
unfolding merge_into
synchronize_with this act =
    if ltb this.seq_number act.seq_number
    then some (this, false)
    else merge_into this this.cv act.cv

pub has_synchronized_with : ModelAction → ModelAction → Option Bool
has_synchronized_with this act = elim this.cv [
  | none ↦ none
  | some c ↦ some (synchronized_since c (stamp act))
]

pub happens_before : ModelAction → ModelAction → Option Bool
happens_before this act = elim act.cv [
  | none ↦ none
  | some c ↦ some (synchronized_since c (stamp this))
]

-- `x` happens before `a`.
abbrev pub Hb : ModelAction → ModelAction → Type 0
Hb x a = happens_before x a ≡ some true

-- Happens-before read off the vector of the later action.
pub Hb-iff :
    (x a : ModelAction) (c : ClockVector)
    → a.cv ≡ some c
    → 0 < x.seq_number
    → Hb x a ↔ (x.seq_number ≤ get_clock c x.tid)
unfolding happens_before
Hb-iff x a c e h = ground (arith, synchronized_since_lem c (stamp x) h)

Hb-merge :
    (x this act : ModelAction) (c d : ClockVector)
    → this.cv ≡ some c
    → act.cv ≡ some d
    → 0 < x.seq_number
    → Hb x (record this { cv = some (merge c d).0 }) ↔ (Hb x this ⊎ Hb x act)
Hb-merge x this act c d hc hd h = ground (
  arith,
  Hb-iff x (record this { cv = some (merge c d).0 }) (merge c d).0 refl h,
  Hb-iff x this c hc h,
  Hb-iff x act d hd h,
  get_clock-merge c d x.tid,
)

-- Two actions with clock vectors: one synchronises only with an action that is not later in the
-- execution order. If it does, then what happens before it is what did so before or happens before
-- the other action, and it keeps its stamp; if it does not, nothing changes.
pub synchronize_with_lem :
    (this act : ModelAction) (c d : ClockVector)
    → this.cv ≡ some c
    → act.cv ≡ some d
    → (this.seq_number < act.seq_number) × (synchronize_with this act ≡ some (this, false))
      ⊎ (act.seq_number ≤ this.seq_number)
        × ((this' : ModelAction) × (synchronize_with this act ≡ some (this', true))
            × (stamp this' ≡ stamp this)
            × ((x : ModelAction) → 0 < x.seq_number → Hb x this' ↔ (Hb x this ⊎ Hb x act)))
unfolding synchronize_with happens_before
synchronize_with_lem this act c d hc hd = elim (dec_lt this.seq_number act.seq_number) [
  | yes p ↦ inl (p, rw (lt→ltb _ _ p))
  | no p ↦ inr (
    omega arith,
    (
      record this { cv = some (merge c d).0 },
      ground arith,
      refl,
      λ x h. Hb-merge x this act c d hc hd h,
    ),
  )
]

-- A new vector, from a parent that has one: a numbered action of another thread happens before
-- this action exactly if it did so before the parent, and one of this thread exactly if its number
-- is not larger than this one's.
pub create_cv-Hb :
    (this parent x : ModelAction) (c : ClockVector)
    → parent.cv ≡ some c
    → 0 < x.seq_number
    → Hb x (create_cv this (some parent))
      ↔ (if x.tid == this.tid then x.seq_number ≤ this.seq_number else Hb x parent)
unfolding create_cv
create_cv-Hb this parent x c e h = elim (Bool-cases (x.tid == this.tid)) [
  | inl same ↦ rw same (ground (arith, made, clock))
  | inr other ↦ rw other (ground (arith, made, clock, Hb-iff x parent c e h))
]
  where
    cv' : ClockVector
    cv' = ClockVector.new (some c) (some (stamp this))

    made : Hb x (create_cv this (some parent)) ↔ (x.seq_number ≤ get_clock cv' x.tid)
    made = Hb-iff x (create_cv this (some parent)) cv' (ground arith) h

    clock : get_clock cv' x.tid ≡ (if x.tid == this.tid then this.seq_number else get_clock c x.tid)
    clock = get_clock-new (some c) (stamp this) x.tid

-- An action without a number can be numbered.
pub set_seq_number_lem :
    (this : ModelAction) (num : ℕ)
    → this.seq_number ≡ 0
    → set_seq_number this num ≡ some (record this { seq_number = num })
unfolding set_seq_number
set_seq_number_lem this num h = ground arith

-- A new vector changes nothing else, and the last release fence plays no part in it.
pub create_cv-seq_number :
    (this : ModelAction) (parent : Option ModelAction)
    → (create_cv this parent).seq_number ≡ this.seq_number
unfolding create_cv
create_cv-seq_number this parent = refl

pub happens_before-fence :
    (x this : ModelAction) (fence : Option ℕ)
    → happens_before x (record this { last_fence_release = fence }) ≡ happens_before x this
unfolding happens_before
happens_before-fence x this fence = refl
