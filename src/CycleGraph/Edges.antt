-- ===== src/CycleGraph/Edges.antt =====
-- One merge of the propagation, seen through the clocks of every node.
use c11tester.Base.{
  ℕ, ◌≤◌, ◌≡◌, ◌⊎◌, inl, inr, refl, ◌∙◌, max, true, ◌==◌, if◌then◌else◌, List, [], ◌∷◌, arith,
  Bool-cases,
}
use c11tester.ClockVector.{num_threads, merge, get_clock}
use c11tester.ClockVector.Lattice.{get_clock-merge, num_threads-merge}
use c11tester.ClockVector.Order.{merge_unchanged_iff}
use c11tester.CycleGraph.{CycleGraph, relax}

-- Membership that `ground` can take apart.
abbrev pub In : ℕ → List ℕ → Type 0
In n [] = ⊥
In n (x ∷ xs) = (n ≡ x) ⊎ In n xs

abbrev pub Edge : CycleGraph → ℕ → ℕ → Type 0
Edge g u v = In v (g.node u).edges

-- The clock that node `u` has for thread `t`.
abbrev pub clock_at : CycleGraph → ℕ → ℕ → ℕ
clock_at g u t = get_clock (g.node u).cv t

-- What propagation leaves alone, and that clocks only grow.
pub record Grows (g h : CycleGraph) : Type 0 where
  pub same_edges : (u : ℕ) → (h.node u).edges ≡ (g.node u).edges
  pub same_action : (u : ℕ) → (h.node u).action ≡ (g.node u).action
  pub same_rmw : (u : ℕ) → (h.node u).has_rmw ≡ (g.node u).has_rmw
  pub clocks : (u t : ℕ) → clock_at g u t ≤ clock_at h u t
  pub widths : (u : ℕ) → num_threads (g.node u).cv ≤ num_threads (h.node u).cv

pub Grows-refl : (g : CycleGraph) → Grows g g
Grows-refl g = record {
  same_edges = λ u. refl;
  same_action = λ u. refl;
  same_rmw = λ u. refl;
  clocks = λ u t. omega arith;
  widths = λ u. omega arith;
}

pub Grows-trans : {g h k : CycleGraph} → Grows g h → Grows h k → Grows g k
Grows-trans p q = record {
  same_edges = λ u. q.same_edges u ∙ p.same_edges u;
  same_action = λ u. q.same_action u ∙ p.same_action u;
  same_rmw = λ u. q.same_rmw u ∙ p.same_rmw u;
  clocks = λ u t. omega (arith, p.clocks u t, q.clocks u t);
  widths = λ u. omega (arith, p.widths u, q.widths u);
}

module _ (g : CycleGraph) (n e : ℕ) (queue : List ℕ) where
  pub clock-relax :
      (u t : ℕ)
      → clock_at (relax g n e queue).0 u t
        ≡ (if e == u then max (clock_at g e t) (clock_at g n t) else clock_at g u t)
  unfolding relax
  clock-relax u t = ground (arith, get_clock-merge (g.node e).cv (g.node n).cv t)

  pub Grows-relax : Grows g (relax g n e queue).0
  unfolding relax
  Grows-relax = record {
    same_edges = λ u. ground arith;
    same_action = λ u. ground arith;
    same_rmw = λ u. ground arith;
    clocks = λ u t. ground (arith, clock-relax u t);
    widths = λ u. ground (arith, num_threads-merge (g.node e).cv (g.node n).cv);
  }

  -- The queue says whether the clock of `e` changed.
  pub relax_cases :
      ((relax g n e queue).1 ≡ e ∷ queue) × ((merge (g.node e).cv (g.node n).cv).1 ≡ true)
      ⊎ ((relax g n e queue).1 ≡ queue)
        × ((t : ℕ) → clock_at g n t ≤ clock_at g e t)
        × ((u t : ℕ) → clock_at (relax g n e queue).0 u t ≡ clock_at g u t)
  unfolding relax
  relax_cases = elim (Bool-cases (merge (g.node e).cv (g.node n).cv).1) [
    | inl changed ↦ inl (rw changed, changed)
    | inr kept ↦
        let below = (merge_unchanged_iff (g.node e).cv (g.node n).cv).0 kept in
        inr (rw kept, below, λ u t. ground (arith, clock-relax u t, below t))
  ]
