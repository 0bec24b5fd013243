-- ===== src/CycleGraph/Monotone.antt =====
-- Graphs whose clocks say what their edges say, and how two nodes are linked in one (cyclegraph.cc,
-- `checkReachable`, and `addNodeEdge` behind the RMW chain).
use c11tester.Base.{
  ℕ, ◌≤◌, ◌<◌, ◌≡◌, ◌⊎◌, ◌↔◌, inl, inr, true, false, not, ◌&&◌, ◌==◌, if◌then◌else◌, some, List, [],
  ◌∷◌, ◌++◌, arith, Bool-cases,
}
use c11tester.ClockVector.{ClockVector, Stamp, get_clock, num_threads, synchronized_since}
use c11tester.CycleGraph.{
  CycleGraph, has_edge, add_edge_once, check_reachable, check_reachable_actions, relax, link,
}
use c11tester.CycleGraph.Edges.{In, Edge, clock_at, Grows, Grows-trans, Grows-relax}
use c11tester.CycleGraph.Propagation.{
  Ordered, Settled, Settling, Settling-relax, close_node, propagate-Settled,
}
use c11tester.CycleGraph.Deficit.{
  Bounded, Bounded-relax, deficit, deficit-relax, deficit_mono, propagate_total,
}

In-has_edge : (n : ℕ) (xs : List ℕ) → has_edge n xs ≡ true → In n xs
In-has_edge n [] h = cc
In-has_edge n (x ∷ xs) h = ground (arith, In-has_edge n xs)

In-append : (n b : ℕ) (xs : List ℕ) → In n (xs ++ b ∷ []) ↔ (In n xs ⊎ (n ≡ b))
In-append n b [] = (
  λ h. elim h [ inl e ↦ inr e | inr x ↦ absurd x ],
  λ h. elim h [ inl x ↦ absurd x | inr e ↦ inl e ],
)
In-append n b (x ∷ xs) = ground (arith, In-append n b xs)

module _ (g : CycleGraph) (from to : ℕ) where
  edges-once :
      (u : ℕ)
      → ((add_edge_once g from to).node u).edges ≡ (
          if from == u && not (has_edge to (g.node from).edges)
          then (g.node from).edges ++ to ∷ []
          else (g.node u).edges)
  unfolding add_edge_once
  edges-once u = ground arith

  -- The edge is there afterwards, and no other is new.
  pub Edge-once :
      (u v : ℕ) → Edge (add_edge_once g from to) u v ↔ (Edge g u v ⊎ (u ≡ from) × (v ≡ to))
  Edge-once u v = elim (Bool-cases (has_edge to (g.node from).edges)) [
    | inl old ↦
        let there = In-has_edge to (g.node from).edges old in
        let e : ((add_edge_once g from to).node u).edges ≡ (g.node u).edges =
          ground (arith, edges-once u) in
        rw e (inl, λ h. elim h [ inl x ↦ x | inr (p, q) ↦ rw (p, q) there ])
    | inr fresh ↦ elim (Bool-cases (from == u)) [
      | inr other ↦
          let e : ((add_edge_once g from to).node u).edges ≡ (g.node u).edges =
            ground (arith, edges-once u) in
          rw e (inl, λ h. elim h [ inl x ↦ x | inr (p, q) ↦ absurd (ground arith) ])
      | inl here ↦
          let p : u ≡ from = ground arith in
          let e : ((add_edge_once g from to).node u).edges ≡ (g.node u).edges ++ to ∷ [] =
            ground (arith, edges-once u, p) in
          let app = In-append v to (g.node u).edges in
          rw e (
            λ h. elim (app.0 h) [ inl x ↦ inl x | inr q ↦ inr (p, q) ],
            λ h. app.1 (elim h [ inl x ↦ inl x | inr (_, q) ↦ inr q ]),
          )
    ]
  ]

  pub clock-once : (u t : ℕ) → clock_at (add_edge_once g from to) u t ≡ clock_at g u t
  unfolding add_edge_once
  clock-once u t = ground arith

  pub same-once :
      (u : ℕ)
      → (((add_edge_once g from to).node u).action ≡ (g.node u).action)
        × (((add_edge_once g from to).node u).has_rmw ≡ (g.node u).has_rmw)
        × (((add_edge_once g from to).node u).cv ≡ (g.node u).cv)
  unfolding add_edge_once
  same-once u = ground arith

-- A graph in which the clocks say what the edges say: each node knows itself and what its
-- predecessors know, and the RMW that reads from a store comes right behind it. It says nothing of
-- which nodes there are: the nodes that were not made yet have the number 0 and no edges.
pub record IsConsistent (g : CycleGraph) : Type 0 where
  pub ordered : (u v : ℕ) → Edge g u v → Ordered g u v
  pub own : (u : ℕ) → (g.node u).action.seq_number ≤ clock_at g u (g.node u).action.tid
  pub linked : (u v : ℕ) → (g.node u).has_rmw ≡ some v → Edge g u v

-- The clock vector of `v` has an entry that can tell of `u`: the store of `u` has a number, or the
-- vector is long enough for its thread, as every vector is for thread 0, to which the memory that
-- nothing was stored to belongs.
abbrev pub CanTell : CycleGraph → ℕ → ℕ → Type 0
CanTell g u v =
    (0 < (g.node u).action.seq_number) ⊎ ((g.node u).action.tid < num_threads (g.node v).cv)

known :
    (c : ClockVector) (act : Stamp)
    → (0 < act.seq_number) ⊎ (act.tid < num_threads c)
    → act.seq_number ≤ get_clock c act.tid
    → synchronized_since c act ≡ true
unfolding synchronized_since get_clock
known c act (inl h) le = ground arith
known c act (inr h) le = ground arith

-- A node that knows what `u` knows is reachable from `u`.
pub check_reachable-Ordered :
    (g : CycleGraph) (u v : ℕ)
    → IsConsistent g
    → CanTell g u v
    → Ordered g u v
    → check_reachable g u v ≡ true
unfolding check_reachable
check_reachable-Ordered g u v c tell o =
    let act = (g.node u).action in known (g.node v).cv act tell (omega (arith, c.own u, o act.tid))

-- A path of edges.
pub data Walk (g : CycleGraph) (u : ℕ) : ℕ → Type 0 where
  edge : {v : ℕ} → Edge g u v → Walk g u v
  step : {v w : ℕ} → Walk g u v → Edge g v w → Walk g u w

-- Edges join nodes that were made.
abbrev pub IsClosed : CycleGraph → Type 0
IsClosed g = (u v : ℕ) → Edge g u v → (g.present u ≡ true) × (g.present v ≡ true)

pub Walk-present :
    (g : CycleGraph) (u : ℕ) {v : ℕ}
    → IsClosed g
    → Walk g u v
    → (g.present u ≡ true) × (g.present v ≡ true)
Walk-present g u {v} c (edge h) = c u v h
Walk-present g u {v = w} c (step {v = x} p h) = ((Walk-present g u c p).0, (c x w h).1)

Walk-Ordered : (g : CycleGraph) (u : ℕ) {v : ℕ} → IsConsistent g → Walk g u v → Ordered g u v
Walk-Ordered g u {v} c (edge h) = c.ordered u v h
Walk-Ordered g u {v = w} c (step {v = x} p h) =
    λ t. omega (arith, Walk-Ordered g u c p t, c.ordered x w h t)

-- In a consistent graph the reachability test, which looks at two clocks only, answers true
-- wherever a path of edges leads, from a store with a number or one of a thread that the target's
-- vector has an entry for.
pub check_reachable-Walk :
    (g : CycleGraph) (u v : ℕ)
    → IsConsistent g
    → CanTell g u v
    → Walk g u v
    → check_reachable g u v ≡ true
check_reachable-Walk g u v c tell p = check_reachable-Ordered g u v c tell (Walk-Ordered g u c p)

-- Where the test on actions answers false, no path of edges leads.
pub unreached_no_Walk :
    (g : CycleGraph) (u v : ℕ)
    → IsConsistent g
    → IsClosed g
    → CanTell g u v
    → check_reachable_actions g u v ≡ false
    → Walk g u v
    → ⊥
unfolding check_reachable_actions
unreached_no_Walk g u v c closed tell miss w =
    let (pu, pv) = Walk-present g u closed w in
    let hit : check_reachable g u v ≡ true = check_reachable-Walk g u v c tell w in
    ground (arith, pu, pv, hit, miss)

module _ (nodes width top : ℕ) where
  Bounded-once :
      (g : CycleGraph) (from to : ℕ)
      → to < nodes
      → Bounded nodes width top g
      → Bounded nodes width top (add_edge_once g from to)
  Bounded-once g from to lt b = record {
    closed = λ u v h. elim ((Edge-once g from to u v).0 h) [
      | inl old ↦ b.closed u v old
      | inr (_, q) ↦ rw q lt
    ];
    below = λ u t. rw (clock-once g from to u t) (b.below u t);
    narrow = λ u. rw ((same-once g from to u).2) (b.narrow u);
  }

  -- Linking two nodes: the propagation ends, and every edge is in order again, the new one too.
  pub link_lem :
      (fuel : ℕ) (g : CycleGraph) (from to : ℕ)
      → IsConsistent g
      → Bounded nodes width top g
      → to < nodes
      → deficit nodes width top g ≤ fuel
      → (h : CycleGraph) × (link fuel g from to ≡ some h)
        × Settled h []
        × Grows (add_edge_once g from to) h
  unfolding link
  link_lem fuel g from to c b lt enough =
      let g₁ = add_edge_once g from to in
      let b₁ = Bounded-once g from to lt b in
      let before : Settling g₁ [] from (to ∷ []) =
        λ u v h. new_edge u v ((Edge-once g from to u v).0 h) in
      let settled : Settled (relax g₁ from to []).0 (relax g₁ from to []).1 =
        close_node (relax g₁ from to []).0 from (relax g₁ from to []).1
          (Settling-relax g₁ from to [] [] before) in
      let (h, e) =
        propagate_total nodes width top fuel (relax g₁ from to []).0 (relax g₁ from to []).1
          (Bounded-relax nodes width top g₁ from to [] b₁)
          (omega (
            arith,
            deficit-relax nodes width top g₁ from to [] b₁ lt,
            deficit_mono nodes width top g g₁ (λ u t. omega (arith, clock-once g from to u t)),
          )) in
      let (done, grown) =
        propagate-Settled fuel (relax g₁ from to []).0 h (relax g₁ from to []).1 settled e in
      (h, e, done, Grows-trans (Grows-relax g₁ from to []) grown)
    where
      new_edge :
          (u v : ℕ)
          → Edge g u v ⊎ (u ≡ from) × (v ≡ to)
          → In u [] ⊎ (Ordered (add_edge_once g from to) u v ⊎ (u ≡ from) × In v (to ∷ []))
      new_edge u v (inl old) = inr (
          inl λ t.
            omega (arith, c.ordered u v old t, clock-once g from to u t, clock-once g from to v t))
      new_edge u v (inr (p, q)) = inr (inr (p, inl q))
