-- ===== src/CycleGraph/Tests.antt =====
-- A small modification order: a store of thread 1, an RMW of thread 2 that reads from it, and a
-- store of thread 3.
use c11tester.Base.{
  ℕ, zero, suc, ◌+◌, ◌<◌, ◌≤◌, ◌≡◌, ◌≢◌, inl, inr, refl, Bool, true, ltb, none, some, [], ◌∷◌,
  arith,
}
use c11tester.ClockVector.{ClockVector, get_clock, num_threads}
use c11tester.CycleGraph.{
  CycleNode, CycleGraph, check_reachable, propagate, add_node_edge, add_rmw_edge,
}
use c11tester.CycleGraph.Edges.{Edge, clock_at, Grows}
use c11tester.CycleGraph.Propagation.{Ordered, Settled, propagate-Settled}
use c11tester.CycleGraph.Deficit.{Bounded, deficit, propagate_total}
use c11tester.CycleGraph.Monotone.{IsConsistent, edge, check_reachable-Walk}
use c11tester.CycleGraph.Adding.{Adds, add_node_edge-Adds}
use c11tester.CycleGraph.Rmw.{add_rmw_edge_silent}

abbrev store_node : CycleNode
store_node = record {
  action = record { tid = 1; seq_number = 2 };
  edges = 1 ∷ [];
  inedges = [];
  has_rmw = some 1;
  cv = record { clock = 0 ∷ 2 ∷ [] };
}

abbrev rmw_node : ClockVector → CycleNode
rmw_node c = record {
  action = record { tid = 2; seq_number = 3 };
  edges = [];
  inedges = 0 ∷ [];
  has_rmw = none;
  cv = c;
}

-- A store of thread 3.
abbrev last_node : CycleNode
last_node = record {
  action = record { tid = 3; seq_number = 4 };
  edges = [];
  inedges = [];
  has_rmw = none;
  cv = record { clock = 0 ∷ 0 ∷ 0 ∷ 4 ∷ [] };
}

-- The other nodes were not made yet.
abbrev blank_node : CycleNode
blank_node = record {
  action = record { tid = 0; seq_number = 0 };
  edges = [];
  inedges = [];
  has_rmw = none;
  cv = record { clock = 0 ∷ [] };
}

abbrev made : ℕ → Bool
made a = ltb a 3

abbrev nodes_of : ClockVector → ℕ → CycleNode
nodes_of c zero = store_node
nodes_of c (suc zero) = rmw_node c
nodes_of c (suc (suc zero)) = last_node
nodes_of c (suc (suc (suc n))) = blank_node

-- The RMW knows of the store, or does not know yet.
abbrev small : CycleGraph
small = record { node = nodes_of (record { clock = 0 ∷ 2 ∷ 3 ∷ [] }); present = made }

abbrev stale : CycleGraph
stale = record { node = nodes_of (record { clock = 0 ∷ 0 ∷ 3 ∷ [] }); present = made }

small-IsConsistent : IsConsistent small
unfolding get_clock
small-IsConsistent = record { ordered = ordered; own = own; linked = linked }
  where
    ordered : (u v : ℕ) → Edge small u v → Ordered small u v
    ordered zero v (inl e) t = rw e (ground arith)
    ordered zero v (inr x) t = absurd x
    ordered (suc zero) v h t = absurd h
    ordered (suc (suc zero)) v h t = absurd h
    ordered (suc (suc (suc u))) v h t = absurd h

    own : (u : ℕ) → (small.node u).action.seq_number ≤ clock_at small u (small.node u).action.tid
    own zero = omega arith
    own (suc zero) = omega arith
    own (suc (suc zero)) = omega arith
    own (suc (suc (suc u))) = omega arith

    linked : (u v : ℕ) → (small.node u).has_rmw ≡ some v → Edge small u v
    linked zero v e = inl (ground arith)
    linked (suc zero) v e = cc
    linked (suc (suc zero)) v e = cc
    linked (suc (suc (suc u))) v e = cc

nodes-Bounded :
    (c : ClockVector)
    → ((t : ℕ) → get_clock c t ≤ 4)
    → num_threads c ≤ 4
    → Bounded 3 4 4 (record { node = nodes_of c; present = made })
unfolding get_clock
nodes-Bounded c low few = record { closed = closed; below = below; narrow = narrow }
  where
    g : CycleGraph
    g = record { node = nodes_of c; present = made }

    closed : (u v : ℕ) → Edge g u v → v < 3
    closed zero v (inl e) = omega (arith, e)
    closed zero v (inr x) = absurd x
    closed (suc zero) v h = absurd h
    closed (suc (suc zero)) v h = absurd h
    closed (suc (suc (suc u))) v h = absurd h

    below : (u t : ℕ) → clock_at g u t ≤ 4
    below zero t = ground arith
    below (suc zero) t = low t
    below (suc (suc zero)) t = ground arith
    below (suc (suc (suc u))) t = ground arith

    narrow : (u : ℕ) → num_threads (g.node u).cv ≤ 4
    narrow zero = omega arith
    narrow (suc zero) = few
    narrow (suc (suc zero)) = omega arith
    narrow (suc (suc (suc u))) = omega arith

small-Bounded : Bounded 3 4 4 small
unfolding get_clock
small-Bounded = nodes-Bounded (record { clock = 0 ∷ 2 ∷ 3 ∷ [] }) (λ t. ground arith) (omega arith)

stale-Bounded : Bounded 3 4 4 stale
unfolding get_clock
stale-Bounded = nodes-Bounded (record { clock = 0 ∷ 0 ∷ 3 ∷ [] }) (λ t. ground arith) (omega arith)

small-deficit : deficit 3 4 4 small ≤ 40
unfolding deficit get_clock
small-deficit = omega arith

-- The RMW stands behind the store.
abbrev rank : ℕ → ℕ
rank zero = 1
rank (suc n) = 0

rank_falls : (u v : ℕ) → (small.node u).has_rmw ≡ some v → rank v < rank u
rank_falls zero v e = let at : v ≡ 1 = ground arith in rw at (omega arith)
rank_falls (suc zero) v e = cc
rank_falls (suc (suc zero)) v e = cc
rank_falls (suc (suc (suc u))) v e = cc

-- The third store is ordered behind the first, so behind the RMW too.
add_node_edge-Adds_example :
    (h : CycleGraph) × (add_node_edge 40 small 0 2 true ≡ some h) × Adds small h 0 2 true
add_node_edge-Adds_example =
    add_node_edge-Adds 3 4 4 rank 40 small 0 2 true small-IsConsistent small-Bounded (omega arith)
      (inl (omega arith)) rank_falls (omega arith) small-deficit

check_reachable-Walk_example : check_reachable small 0 1 ≡ true
check_reachable-Walk_example =
    check_reachable-Walk small 0 1 small-IsConsistent (inl (omega arith)) (edge (inl refl))

stale-deficit : 1 + deficit 3 4 4 stale ≤ 40
unfolding deficit get_clock
stale-deficit = omega arith

propagate_total_example : (h : CycleGraph) × (propagate 40 stale (0 ∷ []) ≡ some h)
propagate_total_example = propagate_total 3 4 4 40 stale (0 ∷ []) stale-Bounded stale-deficit

stale-Settled : Settled stale (0 ∷ [])
stale-Settled zero v h = inl (inl refl)
stale-Settled (suc zero) v h = absurd h
stale-Settled (suc (suc zero)) v h = absurd h
stale-Settled (suc (suc (suc u))) v h = absurd h

abbrev done : (h : CycleGraph) × (propagate 40 stale (0 ∷ []) ≡ some h)
done = propagate_total 3 4 4 40 stale (0 ∷ []) stale-Bounded stale-deficit

propagate-Settled_example : Settled done.0 [] × Grows stale done.0
propagate-Settled_example = propagate-Settled 40 stale done.0 (0 ∷ []) stale-Settled done.1

-- Thread 1 has stored, thread 3 has stored behind it, and now an RMW of thread 1 reads from the
-- first store.
abbrev before_rmw : ℕ → CycleNode
before_rmw zero = record store_node { edges = 2 ∷ []; has_rmw = none }
before_rmw (suc zero) = record {
  action = record { tid = 1; seq_number = 5 };
  edges = [];
  inedges = [];
  has_rmw = none;
  cv = record { clock = 0 ∷ 5 ∷ [] };
}
before_rmw (suc (suc (suc n))) = blank_node
before_rmw (suc (suc zero)) = record last_node {
  inedges = 0 ∷ [];
  cv = record { clock = 0 ∷ 2 ∷ 0 ∷ 4 ∷ [] };
}

abbrev unread : CycleGraph
unread = record { node = before_rmw; present = made }

knows : (t : ℕ) → clock_at unread 0 t ≤ clock_at unread 1 t
unfolding get_clock
knows t = ground arith

add_rmw_edge_silent_example :
    (h : CycleGraph) × (add_rmw_edge (λ a. (before_rmw a).action) 1 unread 0 1 ≡ some h)
    × ((v : ℕ) → Edge unread 0 v → v ≢ 1 → Edge h 1 v)
    × ((u t : ℕ) → clock_at h u t ≡ clock_at unread u t)
add_rmw_edge_silent_example =
    add_rmw_edge_silent (λ a. (before_rmw a).action) 0 unread 0 1 refl refl
      (λ e. absurd (omega (arith, e))) refl refl knows
