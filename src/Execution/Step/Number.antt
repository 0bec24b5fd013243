-- ===== src/Execution/Step/Number.antt =====
-- A new action gets its number and its clock vector (execution.cc, `initialize_curr_action`).
use c11tester.Base.{
  ℕ, ◌+◌, ◌<◌, ◌≤◌, ◌≡◌, ◌≢◌, ◌↔◌, refl, true, false, ◌||◌, ◌==◌, if◌then◌else◌, some, update,
  arith, ==_iff,
}
use c11tester.ClockVector.{ClockVector}
use c11tester.Action.{ModelAction}
use c11tester.Action.Kinds.{is_rmw, is_rmwc}
use c11tester.Action.Sync.{
  create_cv, create_cv-Hb, create_cv-seq_number, happens_before-fence, set_seq_number_lem, Hb,
}
use c11tester.Execution.State.{
  Execution, Source, get_last_action, get_parent_action, get_last_fence_release, get_next_seq_num,
}
use c11tester.Execution.Step.{number_action, parent_of, initialize_curr_action}

-- The action with its number, and then with its vector.
abbrev with_number : Execution → ℕ → ModelAction
with_number e curr = record (e.actions curr) { seq_number = e.used_sequence_numbers + 1 }

abbrev numbered : Execution → ℕ → ℕ → ModelAction
numbered e curr p = record (create_cv (with_number e curr) (some (e.actions p))) {
  last_fence_release = get_last_fence_release e (e.actions curr).tid;
}

update_self : (f : ℕ → ModelAction) (a : ℕ) (v : ModelAction) → update f a v a ≡ v
update_self f a v = rw ((==_iff a a).1 refl) refl

update_other : (f : ℕ → ModelAction) (a b : ℕ) (v : ModelAction) → b ≢ a → update f a v b ≡ f b
update_other f a b v h = ground arith

number_action_lem :
    (e : Execution) (curr p : ℕ)
    → (e.actions curr).seq_number ≡ 0
    → get_parent_action e (e.actions curr).tid ≡ some p
    → p ≢ curr
    → number_action curr e
      ≡ some (
        tt,
        record e {
          used_sequence_numbers = e.used_sequence_numbers + 1;
          actions = update (update e.actions curr (with_number e curr)) curr (numbered e curr p);
        },
      )
unfolding number_action parent_of get_next_seq_num get_parent_action get_last_action
    get_last_fence_release
number_action_lem e curr p fresh parent other = ground (
  arith,
  set_seq_number_lem (e.actions curr) (e.used_sequence_numbers + 1) fresh,
  update_self e.actions curr (with_number e curr),
  update_other e.actions curr p (with_number e curr) other,
)

-- An action without a number, of a thread that has a parent action with a clock vector, and that
-- is no second half of an RMW: it is taken as a new one, and has the next sequence number and the
-- last release fence of its thread. A numbered action of another thread happens before it
-- exactly if it happens before the parent action, and one of its own thread exactly if its number
-- is not larger.
pub initialize_curr_action_new :
    (source : Source) (e : Execution) (curr p : ℕ) (c : ClockVector)
    → (is_rmwc (e.actions curr).type || is_rmw (e.actions curr).type) ≡ false
    → (e.actions curr).seq_number ≡ 0
    → get_parent_action e (e.actions curr).tid ≡ some p
    → p ≢ curr
    → (e.actions p).cv ≡ some c
    → (e' : Execution) × (initialize_curr_action source curr e ≡ some ((curr, true), e'))
      × (e'.used_sequence_numbers ≡ e.used_sequence_numbers + 1)
      × ((e'.actions curr).seq_number ≡ e.used_sequence_numbers + 1)
      × ((e'.actions curr).last_fence_release ≡ get_last_fence_release e (e.actions curr).tid)
      × ((x : ModelAction)
          → 0 < x.seq_number
          → Hb x (e'.actions curr) ↔ (
              if x.tid == (e.actions curr).tid
              then x.seq_number ≤ e.used_sequence_numbers + 1
              else Hb x (e.actions p)))
unfolding initialize_curr_action
initialize_curr_action_new source e curr p c new fresh parent other hc =
    let last = update e.actions curr (with_number e curr) in
    let self = update_self last curr (numbered e curr p) in
    (
      record e {
        used_sequence_numbers = e.used_sequence_numbers + 1;
        actions = update last curr (numbered e curr p);
      },
      ground (arith, new, number_action_lem e curr p fresh parent other),
      refl,
      rw (self, create_cv-seq_number (with_number e curr) (some (e.actions p))) refl,
      rw self refl,
      λ x h.
          rw
            (
              self,
              happens_before-fence x (create_cv (with_number e curr) (some (e.actions p)))
                  (get_last_fence_release e (e.actions curr).tid),
            )
            (create_cv-Hb (with_number e curr) (e.actions p) x c hc h),
    )
