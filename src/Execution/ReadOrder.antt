-- ===== src/Execution/ReadOrder.antt =====
-- What a read from a store adds to the modification order (execution.cc, `r_modification_order`).
pub mod Acyclic
pub mod Coherent
pub mod Own
use c11tester.Base.{
  ℕ, zero, suc, ◌+◌, Bool, true, false, not, ◌&&◌, ◌||◌, ◌==◌, if◌then◌else◌, Option, none, some,
  List, [], ◌∷◌, ◌++◌, length, get_or, update,
}
use c11tester.ClockVector.{get_clock}
use c11tester.Action.Kinds.{is_read, is_write, is_seqcst}
use c11tester.Action.Rmw.{store_read}
use c11tester.CycleGraph.{check_reachable_actions}
use c11tester.Execution.State.{Execution, M, before, earlier}
use c11tester.Execution.Fences.{get_last_seq_cst_fence}
use c11tester.Execution.Lists.{resize}

-- The fences that count for the actions of one thread.
pub record ScFences : Type 0 where
  pub last_sc_fence_local : Option ℕ
  pub last_sc_fence_thread_local : Option ℕ
  pub last_sc_fence_thread_before : Option ℕ

-- What the walk through the actions of one thread finds: a write that must come before the store,
-- whether the read can be pruned, and `prev_same_thread`.
pub record Seen : Type 0 where
  pub prior : Option ℕ
  pub canprune : Bool
  pub prev_same_thread : Option ℕ

pub data Walk : Type 0 where
  faults : Walk
  violates : Walk
  sees : Seen → Walk

-- The result: the order forbids the store, or `priorset` and `canprune`.
pub data Outcome : Type 0 where
  infeasible : Outcome
  feasible : List ℕ → Bool → Outcome

abbrev pub nothing_seen : Seen
nothing_seen = record { prior = none; canprune = false; prev_same_thread = none }

abbrev pub is_some : Option ℕ → Bool
is_some none = false
is_some (some a) = true

unfoldable pub or_else : Option ℕ → Option ℕ → Option ℕ
or_else (some a) b = some a
or_else none b = b

unfoldable pub push_back : List ℕ → Option ℕ → List ℕ
push_back xs none = xs
push_back xs (some a) = xs ++ a ∷ []

module _ (e : Execution) (curr rf : ℕ) where
  -- `fence && *act < *fence`
  unfoldable pub precedes : ℕ → Option ℕ → Bool
  precedes act none = false
  precedes act (some fence) = earlier e act fence

  -- Statements 5, 4 and 6 of C++, section 29.3.
  unfoldable pub fence_orders : ScFences → ℕ → Bool
  unfolding precedes
  fence_orders fences act =
      is_write (e.actions act).type
      && (is_seqcst (e.actions curr).order && precedes act fences.last_sc_fence_thread_local
          || is_seqcst (e.actions act).order && precedes act fences.last_sc_fence_local
          || precedes act fences.last_sc_fence_thread_before)

  -- A write that must come before the store that is read.
  unfoldable pub order_before : ℕ → Option ℕ → Walk
  order_before act prev =
      if check_reachable_actions e.mo_graph rf act
      then violates
      else sees (record { prior = some act; canprune = false; prev_same_thread = prev })

  -- `last_sc_fence_local == NULL || *last_sc_fence_local < *act`
  no_fence_since : Option ℕ → ℕ → Bool
  no_fence_since none act = true
  no_fence_since (some fence) act = earlier e fence act

  unfoldable pub read_before : ℕ → Option ℕ → Option ℕ → Walk
  read_before act prev none = faults
  read_before act prev (some prevrf) =
      if prevrf == rf
      then sees (record {
        prior = none;
        canprune = (e.actions act).tid == (e.actions curr).tid;
        prev_same_thread = prev;
      })
      else order_before prevrf prev

  -- An action that happens before the read.
  unfoldable pub happened : Bool → ScFences → ℕ → Walk
  unfolding no_fence_since
  happened first fences act =
      let prev =
        if first && no_fence_since fences.last_sc_fence_local act then some act else none in
      if is_write (e.actions act).type
      then order_before act prev
      else read_before act prev (store_read (e.actions act).shared)

  -- The loop over the actions of a thread, the newest one first.
  unfoldable pub walk : Bool → ScFences → List ℕ → Walk
  walk first fences [] = sees nothing_seen
  walk first fences (act ∷ list) =
      let older = walk first fences list in
      if act == curr
      then older
      else if act == rf
      then elim (before e act curr) [
        | none ↦ faults
        | some stop ↦ if stop then sees nothing_seen else older
      ]
      else if fence_orders fences act
      then order_before act none
      else elim (before e act curr) [
        | none ↦ faults
        | some stop ↦ if stop then happened first fences act else older
      ]

  -- `a->get_cv()->getClock(tid)`; `none` where there is no clock vector.
  clock_of : ℕ → ℕ → Option ℕ
  clock_of a tid = elim (e.actions a).cv [ none ↦ none | some c ↦ some (get_clock c tid) ]

  -- Neither happens-before nor a fence tells more of the thread than the last action of the
  -- reader's own thread does.
  unfoldable pub skips : Option ℕ → Option ℕ → ℕ → Option Bool
  unfolding clock_of
  skips none fence tid = some false
  skips (some prev) fence tid = elim (clock_of prev tid) [
    | none ↦ none
    | some seen ↦ elim (clock_of curr tid) [
      | none ↦ none
      | some known ↦ some (seen == known && elim fence [ none ↦ true | some f ↦ earlier e f prev ])
    ]
  ]

  unfoldable pub fences_of : Option ℕ → Bool → ℕ → Option ScFences
  fences_of local first tid =
      elim (if first then some none else get_last_seq_cst_fence e tid none) [
        | none ↦ none
        | some thread_local ↦
            elim (if is_some local then get_last_seq_cst_fence e tid local else some none) [
              | none ↦ none
              | some thread_before ↦ some (record {
                last_sc_fence_local = local;
                last_sc_fence_thread_local = thread_local;
                last_sc_fence_thread_before = thread_before;
              })
            ]
      ]

  module _ (lists : List (List ℕ)) (local : Option ℕ) where
    -- The loop over the threads, from the reader's own one on; `n` of them are left.
    unfoldable pub visit : ℕ → ℕ → Bool → Option ℕ → List ℕ → Bool → Option Outcome
    unfolding push_back
    visit zero tid first prev priorset canprune = some (feasible priorset canprune)
    visit (suc n) tid first prev priorset canprune = elim (fences_of local first tid) [
      | none ↦ none
      | some fences ↦
          let next = if tid + 1 == length lists then 0 else tid + 1 in
          elim (skips prev fences.last_sc_fence_thread_local tid) [
            | none ↦ none
            | some true ↦ visit n next false prev priorset canprune
            | some false ↦ elim (walk first fences (get_or lists tid [])) [
              | faults ↦ none
              | violates ↦ some infeasible
              | sees seen ↦
                  visit n next false (or_else seen.prev_same_thread prev)
                    (push_back priorset seen.prior) (canprune || seen.canprune)
            ]
          ]
    ]

unfoldable pub r_modification_order : ℕ → ℕ → M Outcome
unfolding visit
r_modification_order curr rf e =
    let c = e.actions curr in
    elim (e.obj_thrd_map c.location) [
      | none ↦ none
      | some thrd_lists ↦
          let lists = resize thrd_lists c.tid e.next_thread_id [] in
          let e' = record e { obj_thrd_map = update e.obj_thrd_map c.location (some lists) } in
          if is_read c.type
          then elim (get_last_seq_cst_fence e c.tid none) [
            | none ↦ none
            | some local ↦
                elim (visit e' curr rf lists local (length lists) c.tid true none [] false) [
                  | none ↦ none
                  | some outcome ↦ some (outcome, e')
                ]
          ]
          else none
    ]
