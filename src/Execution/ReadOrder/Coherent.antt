-- ===== src/Execution/ReadOrder/Coherent.antt =====
-- `r_modification_order` (execution.cc) as a whole: what it asks for, and what it has asked of the
-- modification order graph.
use c11tester.Base.{
  ℕ, ◌≡◌, ◌⊎◌, inl, inr, ap, Bool, true, false, ◌==◌, if◌then◌else◌, Option, none, some, List, [],
  ◌∷◌, IsIn, length, get_or, update, arith, Bool-cases, Option-cases,
}
use c11tester.Action.Kinds.{is_read, is_write}
use c11tester.Action.Rmw.{store_read}
use c11tester.CycleGraph.{check_reachable_actions}
use c11tester.CycleGraph.Monotone.{IsConsistent, IsClosed, CanTell, Walk, unreached_no_Walk}
use c11tester.Execution.State.{Execution, before}
use c11tester.Execution.Fences.{get_last_seq_cst_fence}
use c11tester.Execution.Lists.{resize, resize_long}
use c11tester.Execution.ReadOrder.{Outcome, feasible, visit, r_modification_order}
use c11tester.Execution.ReadOrder.Own.{visit_own, visit_keeps, in_bounds}

module _ (e : Execution) (curr rf : ℕ) where
  -- The lists of the location, long enough for the reader's thread.
  abbrev with_lists : List (List ℕ) → Execution
  with_lists lists = record e {
    obj_thrd_map = update e.obj_thrd_map (e.actions curr).location (some lists);
  }

  visited :
      (lists : List (List ℕ)) (local : Option ℕ) {outcome : Outcome} {e' : Execution}
      → (elim (visit
            (with_lists lists)
            curr
            rf
            lists
            local
            (length lists)
            (e.actions curr).tid
            true
            none
            []
            false)
          as (λ _. Option (Outcome × Execution)) [
            | none ↦ none
            | some o ↦ some (o, with_lists lists)
          ])
        ≡ some (outcome, e')
      → visit
          (with_lists lists)
          curr
          rf
          lists
          local
          (length lists)
          (e.actions curr).tid
          true
          none
          []
          false
        ≡ some outcome
  visited lists local h = ground arith

  r_modification_order_inv :
      (outcome : Outcome) (e' : Execution)
      → r_modification_order curr rf e ≡ some (outcome, e')
      → (thrd_lists : List (List ℕ)) × (local : Option ℕ) × (e.obj_thrd_map
            (e.actions curr).location
          ≡ some thrd_lists)
        × (let lists = resize thrd_lists (e.actions curr).tid e.next_thread_id [] in
            visit
              (with_lists lists)
              curr
              rf
              lists
              local
              (length lists)
              (e.actions curr).tid
              true
              none
              []
              false
            ≡ some outcome)
  unfolding r_modification_order
  r_modification_order_inv outcome e' h =
      elim (Option-cases (e.obj_thrd_map (e.actions curr).location)) [
        | inl fault ↦ absurd (ground arith)
        | inr (thrd_lists, p) ↦ elim (Bool-cases (is_read (e.actions curr).type)) [
          | inr no_read ↦ absurd (ground arith)
          | inl reads ↦ elim (Option-cases (get_last_seq_cst_fence e (e.actions curr).tid none)) [
            | inl fault ↦ absurd (ground arith)
            | inr (local, q) ↦ (
              thrd_lists,
              local,
              p,
              visited (resize thrd_lists (e.actions curr).tid e.next_thread_id []) local
                  (rw (p, r_modification_order, reads, q) at h),
            )
          ]
        ]
      ]

  -- In a consistent modification order graph, whose edges join nodes that were made: if the order
  -- allows a read from the store, then no path of edges leads from the store to any of the writes
  -- that are to come before it, and the reachability test says so. The store has a number, or the
  -- vectors have an entry for its thread.
  pub r_modification_order-IsUnreached :
      (priorset : List ℕ) (canprune : Bool) (e' : Execution)
      → IsConsistent e.mo_graph
      → IsClosed e.mo_graph
      → ((a : ℕ) → CanTell e.mo_graph rf a)
      → r_modification_order curr rf e ≡ some (feasible priorset canprune, e')
      → (a : ℕ) → IsIn a priorset
      → (check_reachable_actions e.mo_graph rf a ≡ false) × (Walk e.mo_graph rf a → ⊥)
  unfolding visit
  r_modification_order-IsUnreached priorset canprune e' consistent closed tell h a m =
      let (thrd_lists, local, p, v) = r_modification_order_inv (feasible priorset canprune) e' h in
      let lists = resize thrd_lists (e.actions curr).tid e.next_thread_id [] in
      let unreached : check_reachable_actions e.mo_graph rf a ≡ false =
        (visit_keeps (with_lists lists) curr rf lists local (length lists) (e.actions curr).tid true
            none [] false priorset canprune v).1
          (λ b n. absurd n) a m in
      (unreached, unreached_no_Walk e.mo_graph rf a consistent closed (tell a) unreached)

  -- If the order allows a read from a store, and the newest action of the reader's own thread at
  -- the location happens before the read, then the write that this action is, or has read, is the
  -- store itself or is to come before it: the thread does not go back.
  pub r_modification_order_own :
      (lists : List (List ℕ)) (act : ℕ) (older : List ℕ) (w : ℕ) (priorset : List ℕ)
      (canprune : Bool) (e' : Execution)
      → is_write (e.actions rf).type ≡ true
      → e.obj_thrd_map (e.actions curr).location ≡ some lists
      → get_or lists (e.actions curr).tid [] ≡ act ∷ older
      → (act == curr) ≡ false
      → before e act curr ≡ some true
      → (if is_write (e.actions act).type then some act else store_read (e.actions act).shared)
        ≡ some w
      → r_modification_order curr rf e ≡ some (feasible priorset canprune, e')
      → (w ≡ rf) ⊎ IsIn w priorset
  unfolding before
  r_modification_order_own lists act older w priorset canprune e' writes at own other b p h =
      let (thrd_lists, local, at', v) =
        r_modification_order_inv (feasible priorset canprune) e' h in
      let same : thrd_lists ≡ lists = cc in
      let inside = in_bounds lists (e.actions curr).tid act older own in
      first_round (resize thrd_lists (e.actions curr).tid e.next_thread_id []) local
        (rw same (resize_long lists (e.actions curr).tid e.next_thread_id [] inside)) v
    where
      first_round :
          (long : List (List ℕ)) (local : Option ℕ)
          → long ≡ lists
          → visit
              (with_lists long)
              curr
              rf
              long
              local
              (length long)
              (e.actions curr).tid
              true
              none
              []
              false
            ≡ some (feasible priorset canprune)
          → (w ≡ rf) ⊎ IsIn w priorset
      first_round [] local same v = absurd (
          omega (
            arith,
            in_bounds lists (e.actions curr).tid act older own,
            ap (λ (l : List (List ℕ)). length l) same,
          ))
      first_round (l ∷ ls) local same v =
          visit_own (with_lists (l ∷ ls)) curr rf (l ∷ ls) local (length ls) (e.actions curr).tid
            act older w priorset canprune v (rw same own) other b writes p
