-- ===== src/CycleGraph.antt =====
-- The modification order graph (cyclegraph.cc, cyclegraph.h). A node belongs to one store, and is
-- named by it: a pointer to a node is the number of its action, `node` is the memory of nodes and
-- `present` says for which actions `actionToNode` has one. Vectors of nodes are lists, with the
-- back of a vector at the end; the work queue is used as a stack, its top at the front.
-- The two loops that follow pointers take fuel, and give `none` when it is out.
pub mod Adding
pub mod Building
pub mod Deficit
pub mod Edges
pub mod Edgeset
pub mod Monotone
pub mod Propagation
pub mod Rmw
mod Tests
use c11tester.Base.{
  ℕ, zero, suc, ◌≡◌, Bool, true, false, not, ◌&&◌, ◌||◌, ◌==◌, if◌then◌else◌, Option, none, some,
  List, [], ◌∷◌, ◌++◌, update, arith,
}
use c11tester.ClockVector.{ClockVector, Stamp, merge, synchronized_since}
use c11tester.ClockVector

pub record CycleNode : Type 0 where
  pub action : Stamp
  pub edges : List ℕ
  pub inedges : List ℕ
  pub has_rmw : Option ℕ
  pub cv : ClockVector

pub record CycleGraph : Type 0 where
  pub node : ℕ → CycleNode
  pub present : ℕ → Bool

-- The constructor of a node.
pub new_node : Stamp → CycleNode
new_node act = record {
  action = act;
  edges = [];
  inedges = [];
  has_rmw = none;
  cv = ClockVector.new none (some act);
}

abbrev pub has_edge : ℕ → List ℕ → Bool
has_edge n [] = false
has_edge n (x ∷ xs) = x == n || has_edge n xs

abbrev pub put : CycleGraph → ℕ → CycleNode → CycleGraph
put g n c = record g { node = update g.node n c }

-- CycleNode::addEdge
pub add_edge_once : CycleGraph → ℕ → ℕ → CycleGraph
add_edge_once g from to =
    if has_edge to (g.node from).edges
    then g
    else let g₁ = put g from (record (g.node from) { edges = (g.node from).edges ++ to ∷ [] }) in
      put g₁ to (record (g₁.node to) { inedges = (g₁.node to).inedges ++ from ∷ [] })

-- The first occurrence is overwritten by the last element, and the vector shortened.
last_or : ℕ → List ℕ → ℕ
last_or d [] = d
last_or d (x ∷ xs) = last_or x xs

but_last : List ℕ → List ℕ
but_last [] = []
but_last (x ∷ []) = []
but_last (x ∷ y ∷ xs) = x ∷ but_last (y ∷ xs)

fill_first : List ℕ → List ℕ
unfolding last_or but_last
fill_first [] = []
fill_first (x ∷ xs) = last_or x xs ∷ but_last (x ∷ xs)

pub swap_remove : ℕ → List ℕ → List ℕ
unfolding fill_first
swap_remove n [] = []
swap_remove n (x ∷ xs) = if x == n then fill_first xs else x ∷ swap_remove n xs

pub remove_in_edge : CycleGraph → ℕ → ℕ → CycleGraph
unfolding swap_remove
remove_in_edge g n src =
    put g n (record (g.node n) { inedges = swap_remove src (g.node n).inedges })

pub remove_edge : CycleGraph → ℕ → ℕ → CycleGraph
unfolding swap_remove
remove_edge g n dst = put g n (record (g.node n) { edges = swap_remove dst (g.node n).edges })

-- CycleNode::setRMW: an RMW that is set stays.
pub set_rmw : CycleGraph → ℕ → ℕ → CycleGraph
set_rmw g n rmw = elim ((g.node n).has_rmw) [
  | none ↦ put g n (record (g.node n) { has_rmw = some rmw })
  | some r ↦ g
]

pub check_reachable : CycleGraph → ℕ → ℕ → Bool
check_reachable g from to = synchronized_since (g.node to).cv (g.node from).action

-- `while (CycleNode * nextnode = fromnode->getRMW()) ...`
pub follow_rmw : ℕ → CycleGraph → ℕ → ℕ → Option ℕ
follow_rmw zero g from to = none
follow_rmw (suc fuel) g from to = elim ((g.node from).has_rmw) [
  | none ↦ some from
  | some next ↦ let rest = follow_rmw fuel g next to in if next == to then some from else rest
]

-- One merge of the clock of `n` into that of `e`, with the push if it changed something.
pub relax : CycleGraph → ℕ → ℕ → List ℕ → CycleGraph × List ℕ
relax g n e queue =
    let (cv, changed) = merge (g.node e).cv (g.node n).cv in
    (put g e (record (g.node e) { cv = cv }), if changed then e ∷ queue else queue)

-- The loop over the edges of `n`.
pub relax_edges : CycleGraph → ℕ → List ℕ → List ℕ → CycleGraph × List ℕ
unfolding relax
relax_edges g n [] queue = (g, queue)
relax_edges g n (e ∷ es) queue = let (g₁, queue₁) = relax g n e queue in relax_edges g₁ n es queue₁

-- The loop over the queue.
pub propagate : ℕ → CycleGraph → List ℕ → Option CycleGraph
unfolding relax_edges
propagate fuel g [] = some g
propagate zero g (n ∷ queue) = none
propagate (suc fuel) g (n ∷ queue) =
    let (g₁, queue₁) = relax_edges g n (g.node n).edges queue in propagate fuel g₁ queue₁

-- The part of `addNodeEdge` behind the RMW chain.
pub link : ℕ → CycleGraph → ℕ → ℕ → Option CycleGraph
unfolding add_edge_once relax propagate
link fuel g from to =
    let g₁ = add_edge_once g from to in
    let (g₂, queue) = relax g₁ from to [] in propagate fuel g₂ queue

pub add_node_edge : ℕ → CycleGraph → ℕ → ℕ → Bool → Option CycleGraph
unfolding check_reachable follow_rmw link
add_node_edge fuel g from to forceedge =
    if check_reachable g from to && not forceedge
    then some g
    else elim (follow_rmw fuel g from to) [ none ↦ none | some last ↦ link fuel g last to ]

-- The edges out of `from` move to `rmw`.
transfer_edge : CycleGraph → ℕ → ℕ → ℕ → CycleGraph
unfolding add_edge_once remove_in_edge
transfer_edge g from rmw to =
    let g₁ = if to == rmw then g else add_edge_once g rmw to in remove_in_edge g₁ to from

transfer : CycleGraph → ℕ → ℕ → List ℕ → CycleGraph
unfolding transfer_edge
transfer g from rmw [] = g
transfer g from rmw (to ∷ es) = transfer (transfer_edge g from rmw to) from rmw es

pub clear_edges : CycleGraph → ℕ → CycleGraph
clear_edges g n = put g n (record (g.node n) { edges = [] })

-- `checkReachable` on actions, which makes no nodes.
unfoldable pub check_reachable_actions : CycleGraph → ℕ → ℕ → Bool
unfolding check_reachable
check_reachable_actions g from to =
    if not (g.present from) || not (g.present to) then false else check_reachable g from to

remove_in_edges : CycleGraph → List ℕ → ℕ → CycleGraph
unfolding remove_in_edge
remove_in_edges g [] n = g
remove_in_edges g (dst ∷ es) n = remove_in_edges (remove_in_edge g dst n) es n

remove_edges : CycleGraph → List ℕ → ℕ → CycleGraph
unfolding remove_edge
remove_edges g [] n = g
remove_edges g (src ∷ es) n = remove_edges (remove_edge g src n) es n

-- `none` where the action has no node: the source reads through the null pointer.
pub free_action : CycleGraph → ℕ → Option CycleGraph
unfolding remove_in_edges remove_edges
free_action g a =
    let g₁ = record g { present = update g.present a false } in
    let g₂ = remove_in_edges g₁ (g₁.node a).edges a in
    if g.present a then some (remove_edges g₂ (g₂.node a).inedges a) else none

-- `setRMW`, and the moves of the edges.
pub move_edges : CycleGraph → ℕ → ℕ → CycleGraph
unfolding set_rmw transfer clear_edges
move_edges g from rmw =
    let g₂ = set_rmw g from rmw in clear_edges (transfer g₂ from rmw (g₂.node from).edges) from

-- `addRMWEdge` behind the look-up of its nodes. `none` is a failed assertion too: the RMW is read
-- by another RMW already.
pub rmw_edge : ℕ → CycleGraph → ℕ → ℕ → Option CycleGraph
unfolding move_edges add_node_edge
rmw_edge fuel g from rmw = elim ((g.node rmw).has_rmw) [
  | some r ↦ none
  | none ↦ add_node_edge fuel (move_edges g from rmw) from rmw true
]

module _ (actions : ℕ → Stamp) where
  pub get_node : CycleGraph → ℕ → CycleGraph
  unfolding new_node
  get_node g a = if g.present a then g else record {
    node = update g.node a (new_node (actions a));
    present = update g.present a true;
  }

  pub add_edge : ℕ → CycleGraph → ℕ → ℕ → Bool → Option CycleGraph
  unfolding get_node add_node_edge
  add_edge fuel g from to forceedge =
      add_node_edge fuel (get_node (get_node g from) to) from to forceedge

  pub add_rmw_edge : ℕ → CycleGraph → ℕ → ℕ → Option CycleGraph
  unfolding get_node rmw_edge
  add_rmw_edge fuel g from rmw = rmw_edge fuel (get_node (get_node g from) rmw) from rmw
