-- ===== src/Execution/WriteOrder.antt =====
-- What a write adds to the modification order (execution.cc, `w_modification_order`).
use c11tester.Base.{
  ℕ, ◌+◌, Bool, false, ◌&&◌, ◌==◌, if◌then◌else◌, Option, none, some, List, [], ◌∷◌, update,
}
use c11tester.Action.{value_none}
use c11tester.Action.Kinds.{is_read, is_write, is_rmw, is_seqcst}
use c11tester.Action.Rmw.{store_read}
use c11tester.CycleGraph.Edgeset.{add_edges}
use c11tester.Execution.State.{
  Execution, Source, M, ◌>>=◌, ◌>>◌, gets, modify, need, assert, on_graph, set_return_value, before,
  earlier, stamps,
}
use c11tester.Execution.Fences.{get_last_seq_cst_write, get_last_seq_cst_fence}
use c11tester.Execution.ReadOrder.{is_some, push_back}

-- What the walk through the actions of one thread finds: a write that comes before the new one.
pub data WriteWalk : Type 0 where
  faults : WriteWalk
  finds : Option ℕ → WriteWalk

module _ (e : Execution) (curr : ℕ) where
  -- Statement 7 of C++, section 29.3.
  pub sc_orders : Option ℕ → ℕ → Bool
  sc_orders none act = false
  sc_orders (some fence) act = is_write (e.actions act).type && earlier e act fence

  -- An RMW that has read has the edges that it needs.
  pub has_read : Bool
  has_read = is_rmw (e.actions curr).type && is_some (store_read (e.actions curr).shared)

  -- A write itself, or the write that a read has read.
  pub source_of : ℕ → WriteWalk
  source_of act =
      if is_write (e.actions act).type
      then finds (some act)
      else if is_read (e.actions act).type
      then elim (store_read (e.actions act).shared) [ none ↦ faults | some rf ↦ finds (some rf) ]
      else finds none

  pub walk : Option ℕ → List ℕ → WriteWalk
  unfolding sc_orders has_read source_of
  walk fence [] = finds none
  walk fence (act ∷ list) =
      let older = walk fence list in
      if act == curr
      then if has_read then finds none else older
      else if sc_orders fence act
      then finds (some act)
      else elim (before e act curr) [
        | none ↦ faults
        | some stop ↦ if stop then source_of act else older
      ]

  fence_before : Option ℕ → ℕ → Option (Option ℕ)
  fence_before none tid = some none
  fence_before (some fence) tid =
      if tid == (e.actions curr).tid then some none else get_last_seq_cst_fence e tid (some fence)

  -- The loop over the threads.
  pub collect : Option ℕ → ℕ → List (List ℕ) → List ℕ → Option (List ℕ)
  unfolding fence_before walk
  collect local tid [] edgeset = some edgeset
  collect local tid (list ∷ lists) edgeset = elim (fence_before local tid) [
    | none ↦ none
    | some fence ↦ elim (walk fence list) [
      | faults ↦ none
      | finds from ↦ collect local (tid + 1) lists (push_back edgeset from)
    ]
  ]

  -- The last write that is sequentially consistent, where there is one.
  first_edge : List ℕ
  first_edge =
      if is_seqcst (e.actions curr).order
      then elim (get_last_seq_cst_write e curr) [ none ↦ [] | some last ↦ last ∷ [] ]
      else []

  pub edges_of : Option (List ℕ)
  unfolding first_edge collect
  edges_of = elim (e.obj_thrd_map (e.actions curr).location) [
    | none ↦ none
    | some thrd_lists ↦ elim (get_last_seq_cst_fence e (e.actions curr).tid none) [
      | none ↦ none
      | some local ↦ collect local 0 thrd_lists first_edge
    ]
  ]

-- The map of the last such writes, which the next query reads.
note_sc_write : ℕ → Execution → Execution
note_sc_write curr e =
    if is_seqcst (e.actions curr).order
    then record e {
      obj_last_sc_map = update e.obj_last_sc_map (e.actions curr).location (some curr);
    }
    else e

pub w_modification_order : Source → ℕ → M (Unit {0})
unfolding edges_of note_sc_write
w_modification_order source curr = do
  type ← gets (λ e. (e.actions curr).type)
  assert (is_write type)
  edges ← gets (λ e. edges_of e curr)
  edgeset ← need edges
  modify (note_sc_write curr)
  e ← gets (λ e. e)
  on_graph (λ g. add_edges (stamps e) source.rounds g edgeset curr)

pub process_write : Source → ℕ → M (Unit {0})
unfolding w_modification_order
process_write source curr = do
  w_modification_order source curr
  tid ← gets (λ e. (e.actions curr).tid)
  set_return_value tid value_none
