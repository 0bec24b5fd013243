-- ===== src/Execution/Lists/Order.antt =====
-- The lists of actions stay in the order of the sequence numbers (execution.cc, actionlist.cc), and
-- what is noted of an action is found again.
use c11tester.Base.{
  ℕ, ◌-◌, ◌<◌, ◌≤◌, ◌≡◌, ◌≢◌, inl, inr, ◌∙◌, Bool, leb, none, some, List, [], ◌∷◌, ◌++◌, length,
  get_or, set, replicate, All, All-map, arith, Bool-cases, get_or-set_self, get_or-set_ne,
  length-append, length-replicate, get_or-pad,
}
use mathlib.Core.List.{Perm}
use mathlib.Core.List.Perm
use c11tester.Action.{ModelAction}
use c11tester.Execution.State.{Execution, get_last_action}
use c11tester.Execution.Lists.{
  resize, add_action, add_to_object, add_to_trace, add_to_thread, note_last_action,
  note_fence_release, add_action_to_lists,
}

module _ (actions : ℕ → ModelAction) where
  abbrev NotNewer : ℕ → ℕ → Type 0
  NotNewer a b = (actions b).seq_number ≤ (actions a).seq_number

  -- Newest first: the sequence numbers never grow along the list.
  abbrev pub IsOrdered : List ℕ → Type 0
  IsOrdered [] = Unit {0}
  IsOrdered (a ∷ list) = All (NotNewer a) list × IsOrdered list

  add_action-All :
      (P : ℕ → Type 0) (list : List ℕ) (act : ℕ)
      → P act
      → All P list
      → All P (add_action actions list act)
  unfolding add_action
  add_action-All P [] act p h = (p, tt)
  add_action-All P (a ∷ list) act p h =
      elim (Bool-cases (leb (actions a).seq_number (actions act).seq_number)) [
        | inl le ↦ rw (le, add_action) (p, h)
        | inr gt ↦ rw (gt, add_action) (h.0, add_action-All P list act p h.1)
      ]

  -- Adding an action keeps the list in order, also where it comes late.
  pub add_action-IsOrdered :
      (list : List ℕ) (act : ℕ) → IsOrdered list → IsOrdered (add_action actions list act)
  unfolding add_action
  add_action-IsOrdered [] act h = (tt, tt)
  add_action-IsOrdered (a ∷ list) act h =
      elim (Bool-cases (leb (actions a).seq_number (actions act).seq_number)) [
        | inl le ↦
            let first : NotNewer act a = ground arith in
            rw (le, add_action) ((first, All-map (λ b k. omega arith) list h.0), h)
        | inr gt ↦
            let first : NotNewer a act = ground arith in
            rw (gt, add_action)
              (add_action-All (NotNewer a) list act first h.0, add_action-IsOrdered list act h.1)
      ]

  -- The list with the action has the same elements as the list before it and the action.
  pub add_action-Perm : (list : List ℕ) (act : ℕ) → Perm (add_action actions list act) (act ∷ list)
  unfolding add_action
  add_action-Perm [] act = Perm.refl (act ∷ [])
  add_action-Perm (a ∷ list) act =
      elim (Bool-cases (leb (actions a).seq_number (actions act).seq_number)) [
        | inl le ↦ rw (le, add_action) (Perm.refl (act ∷ a ∷ list))
        | inr gt ↦
            rw (gt, add_action)
              (Perm.trans (Perm.cons a (add_action-Perm list act)) (Perm.swap act a list))
      ]

-- A vector that was resized for an index holds what is written there.
get_or-set-resize :
    {A : Type 0} (vec : List A) (i n : ℕ) (blank v : A)
    → i < n
    → get_or (set (resize vec i n blank) i v) i blank ≡ v
unfolding resize
get_or-set-resize vec i n blank v h = elim (Bool-cases (leb (length vec) i)) [
  | inl short ↦ rw short (
      get_or-set_self (vec ++ replicate (n - length vec) blank) i v blank (
        omega (
          arith,
          length-append vec (replicate (n - length vec) blank),
          length-replicate (n - length vec) blank,
          h,
        )))
  | inr long ↦ rw long (get_or-set_self vec i v blank (ground arith))
]

get_or-set-resize_ne :
    {A : Type 0} (vec : List A) (i j n : ℕ) (blank v : A)
    → i ≢ j
    → get_or (set (resize vec i n blank) i v) j blank ≡ get_or vec j blank
unfolding resize
get_or-set-resize_ne vec i j n blank v h = elim (Bool-cases (leb (length vec) i)) [
  | inl short ↦ rw short (
      get_or-set_ne (vec ++ replicate (n - length vec) blank) i j v blank h
      ∙ get_or-pad vec (n - length vec) j blank)
  | inr long ↦ rw long (get_or-set_ne vec i j v blank h)
]

-- What the other steps of `add_action_to_lists` leave as it is.
last_actions :
    (act : ℕ) (canprune : Bool) (e : Execution)
    → (add_action_to_lists act canprune e).thrd_last_action
      ≡ set
          (resize e.thrd_last_action (e.actions act).tid e.next_thread_id none)
          (e.actions act).tid
          (some act)
unfolding add_action_to_lists add_to_object add_to_trace add_to_thread note_last_action
    note_fence_release
last_actions act canprune e = ground arith

trace_after :
    (act : ℕ) (canprune : Bool) (e : Execution)
    → (add_action_to_lists act canprune e).action_trace ≡ add_action e.actions e.action_trace act
unfolding add_action_to_lists add_to_object add_to_trace add_to_thread note_last_action
    note_fence_release
trace_after act canprune e = ground arith

-- When an action of a thread is added, the trace stays in the order of the sequence numbers and
-- gets this action and no other; the action is the last one of its thread, and the last actions of
-- the other threads stay.
pub add_action_to_lists-IsOrdered :
    (act : ℕ) (canprune : Bool) (e : Execution)
    → (e.actions act).tid < e.next_thread_id
    → IsOrdered e.actions e.action_trace
    → IsOrdered e.actions (add_action_to_lists act canprune e).action_trace
      × Perm (add_action_to_lists act canprune e).action_trace (act ∷ e.action_trace)
      × (get_last_action (add_action_to_lists act canprune e) (e.actions act).tid ≡ some act)
      × ((t : ℕ)
          → (e.actions act).tid ≢ t
          → get_last_action (add_action_to_lists act canprune e) t ≡ get_last_action e t)
unfolding get_last_action
add_action_to_lists-IsOrdered act canprune e h o = (
  rw (trace_after act canprune e) (add_action-IsOrdered e.actions e.action_trace act o),
  rw (trace_after act canprune e) (add_action-Perm e.actions e.action_trace act),
  rw (last_actions act canprune e)
      (get_or-set-resize e.thrd_last_action (e.actions act).tid e.next_thread_id none (some act) h),
  λ t ne. rw (last_actions act canprune e) (
      get_or-set-resize_ne e.thrd_last_action (e.actions act).tid t e.next_thread_id none (some act)
        ne),
)
