-- ===== src/CycleGraph/Deficit.antt =====
-- The propagation of clocks ends: how far all clocks are below a bound falls with each push
-- (cyclegraph.cc, `addNodeEdge`).
use c11tester.Base.{
  ℕ, zero, suc, ◌+◌, ◌-◌, ◌≤◌, ◌<◌, ◌≡◌, inl, inr, refl, subst, ◌==◌, some, List, [], ◌∷◌, arith,
  Bool-cases, length,
}
use c11tester.ClockVector.{num_threads}
use c11tester.ClockVector.Lattice.{num_threads-merge}
use c11tester.ClockVector.Order.{merge_changed}
use c11tester.CycleGraph.{CycleGraph, relax, relax_edges, propagate}
use c11tester.CycleGraph.Edges.{In, Edge, clock_at, Grows-relax, clock-relax, relax_cases}

abbrev pub sum_below : ℕ → (ℕ → ℕ) → ℕ
sum_below zero f = 0
sum_below (suc n) f = f n + sum_below n f

sum_below-le : (n : ℕ) (f h : ℕ → ℕ) → ((i : ℕ) → f i ≤ h i) → sum_below n f ≤ sum_below n h
sum_below-le zero f h le = omega arith
sum_below-le (suc n) f h le = omega (arith, le n, sum_below-le n f h le)

sum_below-lt :
    (n k : ℕ) (f h : ℕ → ℕ)
    → ((i : ℕ) → f i ≤ h i)
    → k < n
    → f k < h k
    → sum_below n f < sum_below n h
sum_below-lt zero k f h le lt less = absurd (omega arith)
sum_below-lt (suc n) k f h le lt less = elim (Bool-cases (n == k)) [
  | inl same ↦
      let e : n ≡ k = ground arith in
      let here : f n < h n = rw e less in omega (arith, sum_below-le n f h le)
  | inr other ↦ omega (arith, le n, sum_below-lt n k f h le (ground arith) less)
]

-- The nodes in play are below `nodes`, no clock is above `top`, and no vector has more than
-- `width` entries.
pub record Bounded (nodes width top : ℕ) (g : CycleGraph) : Type 0 where
  pub closed : (u v : ℕ) → Edge g u v → v < nodes
  pub below : (u t : ℕ) → clock_at g u t ≤ top
  pub narrow : (u : ℕ) → num_threads (g.node u).cv ≤ width

module _ (nodes width top : ℕ) where
  abbrev node_deficit : CycleGraph → ℕ → ℕ
  node_deficit g u = sum_below width (λ t. top - clock_at g u t)

  -- What is missing to the bound, over all nodes and threads.
  unfoldable pub deficit : CycleGraph → ℕ
  deficit g = sum_below nodes (node_deficit g)

  pub Bounded-relax :
      (g : CycleGraph) (n e : ℕ) (queue : List ℕ)
      → Bounded nodes width top g
      → Bounded nodes width top (relax g n e queue).0
  Bounded-relax g n e queue b = record {
    closed = λ u v h. b.closed u v (subst (In v) ((Grows-relax g n e queue).same_edges u) h);
    below =
        λ u t. ground (arith, clock-relax g n e queue u t, b.below u t, b.below e t, b.below n t);
    narrow = λ u. narrow_relax u;
  }
    where
      narrow_relax : (u : ℕ) → num_threads ((relax g n e queue).0.node u).cv ≤ width
      narrow_relax u =
          unfold relax in
          elim (Bool-cases (e == u)) [
            | inl same ↦ rw same (
                omega
                  (arith, num_threads-merge (g.node e).cv (g.node n).cv, b.narrow e, b.narrow n))
            | inr other ↦ rw other (b.narrow u)
          ]

  pub deficit-relax :
      (g : CycleGraph) (n e : ℕ) (queue : List ℕ)
      → Bounded nodes width top g
      → e < nodes
      → length (relax g n e queue).1 + deficit (relax g n e queue).0 ≤ length queue + deficit g
  unfolding deficit
  deficit-relax g n e queue b lt =
      let g' = (relax g n e queue).0 in
      let less = λ (u t : ℕ). (Grows-relax g n e queue).clocks u t in
      let nodewise = λ (u : ℕ).
        sum_below-le width (λ t. top - clock_at g' u t) (λ t. top - clock_at g u t)
          (λ t. omega (arith, less u t)) in
      elim (relax_cases g n e queue) [
        | inr (kept, _, _) ↦
            rw kept (omega (arith, sum_below-le nodes (node_deficit g') (node_deficit g) nodewise))
        | inl (pushed, changed) ↦
            let (t, p, q) = merge_changed (g.node e).cv (g.node n).cv changed in
            let grown : clock_at g' e t ≡ clock_at g n t =
              ground (arith, clock-relax g n e queue e t) in
            let strict =
              sum_below-lt width t (λ t. top - clock_at g' e t) (λ t. top - clock_at g e t)
                (λ i. omega (arith, less e i)) (omega (arith, b.narrow n))
                (omega (arith, b.below n t)) in
            rw pushed (
              omega
                (arith, sum_below-lt nodes e (node_deficit g') (node_deficit g) nodewise lt strict))
      ]

  relax_edges_bound :
      (g : CycleGraph) (n : ℕ) (es queue : List ℕ)
      → Bounded nodes width top g
      → ((v : ℕ) → In v es → v < nodes)
      → Bounded nodes width top (relax_edges g n es queue).0
        × (length (relax_edges g n es queue).1 + deficit (relax_edges g n es queue).0
            ≤ length queue + deficit g)
  unfolding relax_edges
  relax_edges_bound g n [] queue b inside = (b, omega arith)
  relax_edges_bound g n (e ∷ es) queue b inside =
      let (b', le) =
        relax_edges_bound (relax g n e queue).0 n es (relax g n e queue).1
          (Bounded-relax g n e queue b) (λ v h. inside v (inr h)) in
      (b', omega (arith, deficit-relax g n e queue b (inside e (inl refl))))

  -- In a bounded graph the propagation ends, from any queue: fuel for each node in the queue and
  -- for the deficit of the graph, which each push makes smaller, is enough.
  pub propagate_total :
      (fuel : ℕ) (g : CycleGraph) (queue : List ℕ)
      → Bounded nodes width top g
      → length queue + deficit g ≤ fuel
      → (h : CycleGraph) × (propagate fuel g queue ≡ some h)
  unfolding propagate
  propagate_total zero g [] b le = (g, refl)
  propagate_total (suc fuel) g [] b le = (g, refl)
  propagate_total zero g (n ∷ queue) b le = absurd (omega arith)
  propagate_total (suc fuel) g (n ∷ queue) b le =
      let (b', smaller) = relax_edges_bound g n (g.node n).edges queue b (λ v h. b.closed n v h) in
      propagate_total fuel (relax_edges g n (g.node n).edges queue).0
        (relax_edges g n (g.node n).edges queue).1 b' (omega arith)

  pub deficit_mono :
      (g h : CycleGraph) → ((u t : ℕ) → clock_at g u t ≤ clock_at h u t) → deficit h ≤ deficit g
  unfolding deficit
  deficit_mono g h le = sum_below-le nodes (node_deficit h) (node_deficit g) λ u.
      sum_below-le width (λ t. top - clock_at h u t) (λ t. top - clock_at g u t)
        λ t. omega (arith, le u t)
