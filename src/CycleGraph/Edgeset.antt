-- ===== src/CycleGraph/Edgeset.antt =====
-- Edges from a set of actions to one (cyclegraph.cc, `addEdges`): actions behind which another one
-- of the set stands are taken out of the set first. The set is a list of actions without the
-- nodes, which `getNode` makes on the way.
pub mod Pruning
use c11tester.Base.{
  ℕ, zero, suc, ◌+◌, ◌≡◌, Bool, true, false, ◌==◌, if◌then◌else◌, Option, none, some, List, [], ◌∷◌,
  length,
}
use c11tester.ClockVector.{Stamp}
use c11tester.CycleGraph.{CycleGraph, get_node, check_reachable, add_edge}

module _ (actions : ℕ → Stamp) where
  -- The inner loop: whether `act` stays, and what stays of the actions behind it.
  pub compare_with : CycleGraph → ℕ → List ℕ → CycleGraph × Bool × List ℕ
  compare_with g act [] = (g, true, [])
  compare_with g act (act2 ∷ edgeset) =
      let g₁ = get_node actions g act2 in
      let (g₂, stays, rest) = compare_with g₁ act edgeset in
      if check_reachable g₁ act act2
      then (g₁, false, act2 ∷ edgeset)
      else if check_reachable g₁ act2 act
      then (g₂, stays, rest)
      else (g₂, stays, act2 ∷ rest)

  -- The outer loop, one round for each action of the set.
  pub prune : ℕ → CycleGraph → List ℕ → CycleGraph × List ℕ
  unfolding compare_with
  prune zero g edgeset = (g, edgeset)
  prune (suc rounds) g [] = (g, [])
  prune (suc rounds) g (act ∷ edgeset) =
      let (g₁, stays, rest) = compare_with (get_node actions g act) act edgeset in
      let (g₂, kept) = prune rounds g₁ rest in (g₂, if stays then act ∷ kept else kept)

  -- The second loop. An edge within one thread is forced.
  pub add_each : ℕ → CycleGraph → List ℕ → ℕ → Option CycleGraph
  add_each fuel g [] to = some g
  add_each fuel g (from ∷ edgeset) to =
      elim (add_edge actions fuel g from to ((actions from).tid == (actions to).tid)) [
        | none ↦ none
        | some h ↦ add_each fuel h edgeset to
      ]

  pub add_edges : ℕ → CycleGraph → List ℕ → ℕ → Option CycleGraph
  unfolding prune add_each
  add_edges fuel g edgeset to =
      let (g₁, kept) = prune (length edgeset) g edgeset in add_each fuel g₁ kept to
