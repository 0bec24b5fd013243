-- ===== src/CycleGraph/Edgeset/Pruning.antt =====
-- What is left of a set of actions when it is pruned (cyclegraph.cc, `addEdges`).
use c11tester.Base.{
  ℕ, zero, suc, ◌≤◌, ◌≡◌, ◌⊎◌, inl, inr, refl, sym, ◌∙◌, Bool, true, false, if◌then◌else◌, List, [],
  ◌∷◌, length, arith, Bool-cases, ==_iff,
}
use c11tester.ClockVector.{Stamp, synchronized_since}
use c11tester.CycleGraph.{CycleGraph, CycleNode, new_node, get_node, check_reachable}
use c11tester.CycleGraph.Edges.{In}
use c11tester.CycleGraph.Edgeset.{compare_with, prune}

module _ (actions : ℕ → Stamp) where
  -- The node of an action, made already or not.
  pub node_of : CycleGraph → ℕ → CycleNode
  node_of g a = if g.present a then g.node a else new_node (actions a)

  -- Reachability between actions, of which both have nodes or get them.
  pub reach : CycleGraph → ℕ → ℕ → Bool
  unfolding node_of
  reach g a b = synchronized_since (node_of g b).cv (node_of g a).action

  -- Graphs that differ in the nodes made only.
  pub record Same (g h : CycleGraph) : Type 0 where
    pub nodes : (a : ℕ) → node_of h a ≡ node_of g a
    pub present : (a : ℕ) → g.present a ≡ true → h.present a ≡ true

  Same-refl : (g : CycleGraph) → Same g g
  Same-refl g = record { nodes = λ a. refl; present = λ a p. p }

  Same-trans : {g h k : CycleGraph} → Same g h → Same h k → Same g k
  Same-trans p q = record {
    nodes = λ a. q.nodes a ∙ p.nodes a;
    present = λ a e. q.present a (p.present a e);
  }

  Same-get_node : (g : CycleGraph) (a : ℕ) → Same g (get_node actions g a)
  unfolding get_node node_of
  Same-get_node g a = record { nodes = λ b. same b; present = λ b e. ground arith }
    where
      same : (b : ℕ) → node_of (get_node actions g a) b ≡ node_of g b
      same b = ground (arith, ==_iff a b)

  present-get_node : (g : CycleGraph) (a : ℕ) → (get_node actions g a).present a ≡ true
  unfolding get_node
  present-get_node g a = ground arith

  check_reachable-reach :
      (g : CycleGraph) (a b : ℕ)
      → g.present a ≡ true
      → g.present b ≡ true
      → check_reachable g a b ≡ reach g a b
  unfolding check_reachable reach node_of
  check_reachable-reach g a b p q = rw (p, q) refl

  reach-Same : (g h : CycleGraph) (a b : ℕ) → Same g h → reach h a b ≡ reach g a b
  unfolding reach
  reach-Same g h a b s = rw (s.nodes a, s.nodes b) refl

  -- What the inner loop gives for the action `act` against the list `es`.
  record Compared (g : CycleGraph) (act : ℕ) (es : List ℕ) (r : CycleGraph × Bool × List ℕ)
      : Type 0 where
    same : Same g r.0
    inside : (b : ℕ) → In b r.2 → In b es
    apart : r.1 ≡ true → (b : ℕ) → In b r.2 → (reach g act b ≡ false) × (reach g b act ≡ false)
    behind : r.1 ≡ false → (b : ℕ) × In b es × (reach g act b ≡ true)
    dropped : (b : ℕ) → In b es → In b r.2 ⊎ (reach g b act ≡ true)
    shorter : length r.2 ≤ length es

  compare_with-Compared :
      (g : CycleGraph) (act : ℕ) (es : List ℕ)
      → g.present act ≡ true
      → Compared g act es (compare_with actions g act es)
  unfolding compare_with
  compare_with-Compared g act [] here = record {
    same = Same-refl g;
    inside = λ b h. h;
    apart = λ _ b h. absurd h;
    behind = λ e. cc;
    dropped = λ b h. inl h;
    shorter = omega arith;
  }
  compare_with-Compared g act (act2 ∷ es) here =
      let g₁ = get_node actions g act2 in
      let s = Same-get_node g act2 in
      let rest = compare_with actions g₁ act es in
      let here₁ = s.present act here in
      let c = compare_with-Compared g₁ act es here₁ in
      let there = present-get_node g act2 in
      let to₂ = check_reachable-reach g₁ act act2 here₁ there ∙ reach-Same g g₁ act act2 s in
      let from₂ = check_reachable-reach g₁ act2 act there here₁ ∙ reach-Same g g₁ act2 act s in
      elim (Bool-cases (check_reachable g₁ act act2)) [
        | inl reaches ↦ rw reaches (record {
          same = s;
          inside = λ b h. h;
          apart = λ e. cc;
          behind = λ _. (act2, inl refl, sym to₂ ∙ reaches);
          dropped = λ b h. inl h;
          shorter = omega arith;
        })
        | inr no_reach ↦ elim (Bool-cases (check_reachable g₁ act2 act)) [
          | inl reached ↦
              rw (no_reach, reached)
                (record {
                  same = Same-trans s c.same;
                  inside = λ b h. inr (c.inside b h);
                  apart = λ e b h. apart_before b s (c.apart e b h);
                  behind = λ e. behind_before s (c.behind e);
                  dropped = λ b h. elim h [
                    | inl e ↦ inr (rw e (sym from₂ ∙ reached))
                    | inr later ↦ dropped_before b rest.2 s (c.dropped b later)
                  ];
                  shorter = omega (arith, c.shorter);
                })
          | inr unrelated ↦
              rw (no_reach, unrelated)
                (record {
                  same = Same-trans s c.same;
                  inside = λ b h. elim h [ inl e ↦ inl e | inr later ↦ inr (c.inside b later) ];
                  apart = λ e b h. elim h [
                    | inl p ↦ rw p (sym to₂ ∙ no_reach, sym from₂ ∙ unrelated)
                    | inr later ↦ apart_before b s (c.apart e b later)
                  ];
                  behind = λ e. behind_before s (c.behind e);
                  dropped = λ b h. elim h [
                    | inl e ↦ inl (inl e)
                    | inr later ↦ elim (dropped_before b rest.2 s (c.dropped b later)) [
                      | inl k ↦ inl (inr k)
                      | inr r ↦ inr r
                    ]
                  ];
                  shorter = omega (arith, c.shorter);
                })
        ]
      ]
    where
      apart_before :
          {h : CycleGraph} (b : ℕ)
          → Same g h
          → (reach h act b ≡ false) × (reach h b act ≡ false)
          → (reach g act b ≡ false) × (reach g b act ≡ false)
      apart_before {h} b s (p, q) =
          (sym (reach-Same g h act b s) ∙ p, sym (reach-Same g h b act s) ∙ q)

      behind_before :
          {h : CycleGraph}
          → Same g h
          → (b : ℕ) × In b es × (reach h act b ≡ true)
          → (b : ℕ) × In b (act2 ∷ es) × (reach g act b ≡ true)
      behind_before {h} s (b, i, p) = (b, inr i, sym (reach-Same g h act b s) ∙ p)

      dropped_before :
          {h : CycleGraph} (b : ℕ) (kept : List ℕ)
          → Same g h
          → In b kept ⊎ (reach h b act ≡ true)
          → In b kept ⊎ (reach g b act ≡ true)
      dropped_before b kept s (inl k) = inl k
      dropped_before {h} b kept s (inr p) = inr (sym (reach-Same g h b act s) ∙ p)

  -- No two entries of the list reach one another.
  abbrev pub Unrelated : CycleGraph → List ℕ → Type 0
  Unrelated g [] = Unit {0}
  Unrelated g (a ∷ rest) =
      ((b : ℕ) → In b rest → (reach g a b ≡ false) × (reach g b a ≡ false)) × Unrelated g rest

  Unrelated-Same : (g h : CycleGraph) (es : List ℕ) → Same g h → Unrelated h es → Unrelated g es
  Unrelated-Same g h [] s u = tt
  Unrelated-Same g h (a ∷ es) s (first, rest) = (
    λ b i.
        let (p, q) = first b i in (sym (reach-Same g h a b s) ∙ p, sym (reach-Same g h b a s) ∙ q),
    Unrelated-Same g h es s rest,
  )

  pub record Pruned (g : CycleGraph) (es : List ℕ) (r : CycleGraph × List ℕ) : Type 0 where
    pub same : Same g r.0
    pub inside : (b : ℕ) → In b r.1 → In b es
    pub apart : Unrelated g r.1
    pub dropped : (b : ℕ) → In b es → In b r.1 ⊎ ((c : ℕ) × In c es × (reach g b c ≡ true))

  nothing : (g : CycleGraph) → Pruned g [] (g, [])
  nothing g = record { same = Same-refl g; inside = λ b h. h; apart = tt; dropped = λ b h. inl h }

  -- What is left of the set is a part of it; no two actions that are left reach one another; an
  -- action is dropped only if it reaches some action of the set; and the graph has got nodes for
  -- actions, but is otherwise as before. One round for each action is enough fuel.
  pub prune-Pruned :
      (rounds : ℕ) (g : CycleGraph) (es : List ℕ)
      → length es ≤ rounds
      → Pruned g es (prune actions rounds g es)
  unfolding prune
  prune-Pruned zero g [] enough = nothing g
  prune-Pruned zero g (act ∷ es) enough = absurd (omega arith)
  prune-Pruned (suc rounds) g [] enough = nothing g
  prune-Pruned (suc rounds) g (act ∷ es) enough =
      let g₀ = get_node actions g act in
      let s = Same-get_node g act in
      let c = compare_with-Compared g₀ act es (present-get_node g act) in
      let next = compare_with actions g₀ act es in
      let p = prune-Pruned rounds next.0 next.2 (omega (arith, c.shorter)) in
      let all = Same-trans s c.same in
      let kept = (prune actions rounds next.0 next.2).1 in
      let later : (b : ℕ)
          → In b es
          → In b kept ⊎ ((d : ℕ) × In d (act ∷ es) × (reach g b d ≡ true)) =
        λ b i. elim (c.dropped b i) [
          | inr r ↦ inr (act, inl refl, sym (reach-Same g g₀ b act s) ∙ r)
          | inl k ↦ elim (p.dropped b k) [
            | inl left ↦ inl left
            | inr (d, j, r) ↦ inr (d, inr (c.inside d j), sym (reach-Same g next.0 b d all) ∙ r)
          ]
        ] in
      elim (Bool-cases next.1) [
        | inl stays ↦ rw stays (record {
          same = Same-trans all p.same;
          inside =
              λ b h. elim h [ inl e ↦ inl e | inr later ↦ inr (c.inside b (p.inside b later)) ];
          apart = (
            λ b h.
                let (x, y) = c.apart stays b (p.inside b h) in
                (sym (reach-Same g g₀ act b s) ∙ x, sym (reach-Same g g₀ b act s) ∙ y),
            Unrelated-Same g next.0 kept all p.apart,
          );
          dropped = λ b h. elim h [
            | inl e ↦ inl (inl e)
            | inr i ↦ elim (later b i) [ inl k ↦ inl (inr k) | inr r ↦ inr r ]
          ];
        })
        | inr goes ↦ rw goes (record {
          same = Same-trans all p.same;
          inside = λ b h. inr (c.inside b (p.inside b h));
          apart = Unrelated-Same g next.0 kept all p.apart;
          dropped = λ b h. elim h [
            | inl e ↦
                let (d, i, r) = c.behind goes in
                inr (d, inr i, rw e (sym (reach-Same g g₀ act d s) ∙ r))
            | inr i ↦ later b i
          ];
        })
      ]
