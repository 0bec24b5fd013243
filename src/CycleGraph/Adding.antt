-- ===== src/CycleGraph/Adding.antt =====
-- Adding an edge to the modification order, RMW chain and quick exit included (cyclegraph.cc,
-- `addNodeEdge`).
use c11tester.Base.{
  ℕ, zero, suc, ◌≤◌, ◌<◌, ◌≡◌, ◌≢◌, ◌⊎◌, ◌↔◌, inl, inr, refl, sym, ap, ◌∙◌, subst, Bool, true,
  false, not, ◌&&◌, ◌==◌, ==_iff, none, some, [], arith, Bool-cases, Option-cases,
}
use c11tester.ClockVector.{num_threads}
use c11tester.CycleGraph.{CycleGraph, add_edge_once, check_reachable, follow_rmw, add_node_edge}
use c11tester.CycleGraph.Edges.{In, Edge, clock_at, Grows}
use c11tester.CycleGraph.Propagation.{Ordered, Settled}
use c11tester.CycleGraph.Deficit.{Bounded, deficit}
use c11tester.CycleGraph.Monotone.{
  IsConsistent, CanTell, Edge-once, clock-once, same-once, check_reachable-Ordered, link_lem,
}

-- The node that an edge from a store to `to` starts at: the end of the chain of RMWs that begins
-- with the store, or the node before `to` where `to` stands in the chain.
pub data ChainEnd (g : CycleGraph) (to : ℕ) : ℕ → ℕ → Type 0 where
  unread : {n : ℕ} → (g.node n).has_rmw ≡ none → ChainEnd g to n n
  meets : {n : ℕ} → (g.node n).has_rmw ≡ some to → ChainEnd g to n n
  along :
      {n next last : ℕ}
      → (g.node n).has_rmw ≡ some next
      → next ≢ to
      → ChainEnd g to next last
      → ChainEnd g to n last

-- The new edge, and no other.
abbrev pub HasNewEdge : CycleGraph → CycleGraph → ℕ → ℕ → Type 0
HasNewEdge g h from to =
    (last : ℕ) × ChainEnd g to from last
    × ((u v : ℕ) → Edge h u v ↔ (Edge g u v ⊎ (u ≡ last) × (v ≡ to)))

-- What an added edge does to a graph.
pub record Adds (g h : CycleGraph) (from to : ℕ) (force : Bool) : Type 0 where
  pub consistent : IsConsistent h
  pub edges :
      (check_reachable g from to ≡ true) × (force ≡ false) × (h ≡ g)
      ⊎ ((check_reachable g from to && not force) ≡ false) × HasNewEdge g h from to
  pub same_action : (u : ℕ) → (h.node u).action ≡ (g.node u).action
  pub same_rmw : (u : ℕ) → (h.node u).has_rmw ≡ (g.node u).has_rmw
  pub clocks : (u t : ℕ) → clock_at g u t ≤ clock_at h u t
  pub found : check_reachable h from to ≡ true

-- `last` knows what `from` knows wherever the edges of `g` are in order.
Follows : CycleGraph → ℕ → ℕ → Type 0
Follows g from last =
    (h : CycleGraph) → ((u v : ℕ) → Edge g u v → Ordered h u v) → Ordered h from last

module _ (rank : ℕ → ℕ) (g : CycleGraph) where
  -- The chain of RMWs ends, at a node that knows what its start knows.
  follow_rmw_lem :
      (fuel from to : ℕ)
      → IsConsistent g
      → ((u v : ℕ) → (g.node u).has_rmw ≡ some v → rank v < rank u)
      → rank from < fuel
      → (last : ℕ) × (follow_rmw fuel g from to ≡ some last)
        × ChainEnd g to from last
        × Follows g from last
  unfolding follow_rmw Follows
  follow_rmw_lem zero from to c falls enough = absurd (omega arith)
  follow_rmw_lem (suc fuel) from to c falls enough = elim (Option-cases ((g.node from).has_rmw)) [
    | inl e ↦ (from, rw (follow_rmw, e) refl, unread e, λ h o t. omega arith)
    | inr (next, e) ↦ elim (Bool-cases (next == to)) [
      | inl stop ↦
          let at : next ≡ to = (==_iff next to).0 stop in
          (from, rw (follow_rmw, e, stop) refl, meets (rw (← at) e), λ h o t. omega arith)
      | inr go ↦
          let (last, p, chain, f) =
            follow_rmw_lem fuel next to c falls (omega (arith, falls from next e)) in
          (
            last,
            rw (follow_rmw, e, go) p,
            along e (λ q. ground arith) chain,
            λ h o t. omega (arith, f h o t, o from next (c.linked from next e) t),
          )
    ]
  ]

module _ (g h : CycleGraph) (from last to : ℕ) (c : IsConsistent g) (settled : Settled h [])
    (grown : Grows (add_edge_once g last to) h) where
  Edge-of : (u v : ℕ) → Edge g u v ⊎ (u ≡ last) × (v ≡ to) → Edge h u v
  Edge-of u v e = subst (In v) (sym (grown.same_edges u)) ((Edge-once g last to u v).1 e)

  Edge-from : (u v : ℕ) → Edge h u v → Edge g u v ⊎ (u ≡ last) × (v ≡ to)
  Edge-from u v e = (Edge-once g last to u v).0 (subst (In v) (grown.same_edges u) e)

  in_order : (u v : ℕ) → Edge h u v → Ordered h u v
  in_order u v e = elim (settled u v e) [ inl x ↦ absurd x | inr p ↦ p ]

  same_action : (u : ℕ) → (h.node u).action ≡ (g.node u).action
  same_action u = grown.same_action u ∙ (same-once g last to u).0

  same_rmw : (u : ℕ) → (h.node u).has_rmw ≡ (g.node u).has_rmw
  same_rmw u = grown.same_rmw u ∙ (same-once g last to u).1

  clock_grows : (u t : ℕ) → clock_at g u t ≤ clock_at h u t
  clock_grows u t = omega (arith, clock-once g last to u t, grown.clocks u t)

  linked_Adds :
      (force : Bool)
      → (check_reachable g from to && not force) ≡ false
      → CanTell g from to
      → ChainEnd g to from last
      → Follows g from last
      → Adds g h from to force
  unfolding Follows
  linked_Adds force slow tell chain follows =
      let consistent : IsConsistent h = record {
        ordered = in_order;
        own = λ u. rw (same_action u) (omega (arith, c.own u, clock_grows u (g.node u).action.tid));
        linked = λ u v e. Edge-of u v (inl (c.linked u v (sym (same_rmw u) ∙ e)));
      } in
      let still : CanTell h from to = elim tell [
        | inl n ↦ inl (rw (same_action from) n)
        | inr w ↦ inr (
            rw (same_action from)
              (omega (arith, w, grown.widths to, ap num_threads (same-once g last to to).2)))
      ] in
      let behind = follows h (λ u v e. in_order u v (Edge-of u v (inl e))) in
      record {
        consistent = consistent;
        edges = inr (slow, (last, chain, λ u v. (Edge-from u v, Edge-of u v)));
        same_action = same_action;
        same_rmw = same_rmw;
        clocks = clock_grows;
        found =
            check_reachable-Ordered h from to consistent still (λ t.
              omega (arith, behind t, in_order last to (Edge-of last to (inr (refl, refl))) t));
      }

already_Adds :
    (g : CycleGraph) (from to : ℕ) (force : Bool)
    → IsConsistent g
    → check_reachable g from to ≡ true
    → force ≡ false
    → Adds g g from to force
already_Adds g from to force c found free = record {
  consistent = c;
  edges = inl (found, free, refl);
  same_action = λ u. refl;
  same_rmw = λ u. refl;
  clocks = λ u t. omega arith;
  found = found;
}

-- `addNodeEdge` ends on a consistent, bounded graph. Where `to` is reachable already and the edge is
-- not forced the graph is left alone; everywhere else there is afterwards exactly one edge more,
-- unless it was there: the one to `to` from the end of the chain of RMWs behind `from`, or from the
-- node before `to` where `to` stands in that chain. The graph is consistent again, its actions and
-- RMWs are the same, no clock is smaller, and the reachability test from `from` to `to` answers
-- true. The store of `from` has a number, or `to` has an entry for its thread; the chain of RMWs is
-- not a cycle: a rank falls along it. Fuel above the rank of `from`, and not below the deficit of
-- the graph, is enough.
pub add_node_edge-Adds :
    (nodes width top : ℕ) (rank : ℕ → ℕ) (fuel : ℕ) (g : CycleGraph) (from to : ℕ) (force : Bool)
    → IsConsistent g
    → Bounded nodes width top g
    → to < nodes
    → CanTell g from to
    → ((u v : ℕ) → (g.node u).has_rmw ≡ some v → rank v < rank u)
    → rank from < fuel
    → deficit nodes width top g ≤ fuel
    → (h : CycleGraph) × (add_node_edge fuel g from to force ≡ some h) × Adds g h from to force
unfolding add_node_edge
add_node_edge-Adds nodes width top rank fuel g from to force c b inside tell falls short enough =
    elim (Bool-cases (check_reachable g from to && not force)) [
      | inl quick ↦ (g, rw quick refl, already_Adds g from to force c (ground arith) (ground arith))
      | inr slow ↦
          let (last, p, chain, follows) = follow_rmw_lem rank g fuel from to c falls short in
          let (h, e, settled, grown) = link_lem nodes width top fuel g last to c b inside enough in
          (
            h,
            rw (slow, p) e,
            linked_Adds g h from last to c settled grown force slow tell chain follows,
          )
    ]
