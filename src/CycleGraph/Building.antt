-- ===== src/CycleGraph/Building.antt =====
-- The graph at the start of an execution, and the nodes that `getNode` of cyclegraph.cc makes.
use c11tester.Base.{
  ℕ, ◌≤◌, ◌≡◌, ◌⊎◌, inl, inr, refl, true, false, none, some, ◌==◌, arith, Bool-cases,
}
use c11tester.ClockVector.{Stamp, get_clock, num_threads}
use c11tester.ClockVector
use c11tester.ClockVector.Lattice.{get_clock-new}
use c11tester.CycleGraph.{CycleGraph, new_node, get_node}
use c11tester.CycleGraph.Edges.{Edge}
use c11tester.CycleGraph.Monotone.{IsConsistent}

-- A graph whose nodes were not made yet.
abbrev pub empty_graph : Stamp → CycleGraph
empty_graph act = record { node = λ a. new_node act; present = λ a. false }

new_own : (act : Stamp) → act.seq_number ≤ get_clock (ClockVector.new none (some act)) act.tid
new_own act = ground (arith, get_clock-new none act act.tid)

-- The graph at the start is consistent.
pub empty_graph-IsConsistent : (act : Stamp) → IsConsistent (empty_graph act)
unfolding new_node
empty_graph-IsConsistent act = record {
  ordered = λ u v e. absurd e;
  own = λ u. new_own act;
  linked = λ u v e. cc;
}

module _ (actions : ℕ → Stamp) (g : CycleGraph) (a : ℕ) (c : IsConsistent g)
    (apart : (u : ℕ) → Edge g u a → ⊥) (absent : g.present a ≡ false) where
  made : (a == a) ≡ true
  made = ground arith

  -- What a node other than the new one, or the new one, has.
  node_of :
      (u : ℕ)
      → ((u ≡ a) × ((get_node actions g a).node u ≡ new_node (actions a)))
        ⊎ ((get_node actions g a).node u ≡ g.node u)
  unfolding get_node
  node_of u = elim (Bool-cases (a == u)) [
    | inl here ↦ inl (ground arith, rw (absent, here) refl)
    | inr other ↦ inr (rw (absent, other) refl)
  ]

  old_edge :
      (u v : ℕ)
      → Edge (get_node actions g a) u v
      → Edge g u v × ((get_node actions g a).node u ≡ g.node u)
  unfolding new_node
  old_edge u v e = elim (node_of u) [ inl (_, q) ↦ absurd (rw q at e) | inr q ↦ (rw q at e, q) ]

  -- A graph stays consistent when a node is made that no edge leads to.
  pub get_node-IsConsistent : IsConsistent (get_node actions g a)
  unfolding new_node
  get_node-IsConsistent = record {
    ordered = λ u v e t.
        let (old, q) = old_edge u v e in
        elim (node_of v) [
          | inl (here, _) ↦ absurd (apart u (rw (← here) old))
          | inr r ↦ rw (q, r) (c.ordered u v old t)
        ];
    own =
        λ u. elim (node_of u) [ inl (_, q) ↦ rw q (new_own (actions a)) | inr q ↦ rw q (c.own u) ];
    linked = λ u v e. elim (node_of u) [
      | inl (_, q) ↦ absurd (cc (rw q at e))
      | inr q ↦ rw q (c.linked u v (rw q at e))
    ];
  }
