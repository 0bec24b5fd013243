-- ===== src/CycleGraph/Rmw.antt =====
-- The edge between a store and the RMW that reads from it (cyclegraph.cc, `addRMWEdge`).
use c11tester.Base.{
  ℕ, suc, ◌≤◌, ◌≡◌, ◌≢◌, inl, inr, refl, sym, ap, ◌∙◌, subst, Bool, true, ◌==◌, if◌then◌else◌,
  Option, none, some, List, [], ◌∷◌, arith, Bool-cases, ==_iff,
}
use c11tester.ClockVector.{Stamp, get_clock}
use c11tester.ClockVector.Order.{merge_unchanged_iff}
use c11tester.CycleGraph.{
  CycleGraph, get_node, set_rmw, remove_in_edge, add_edge_once, transfer, transfer_edge,
  clear_edges, check_reachable, follow_rmw, relax, propagate, link, add_node_edge, rmw_edge,
  move_edges, add_rmw_edge,
}
use c11tester.CycleGraph.Edges.{In, Edge, clock_at, Grows-relax, relax_cases}
use c11tester.CycleGraph.Monotone.{Edge-once, clock-once, same-once}

-- A step that changes no clock and no RMW link, and takes no edge out of `n` away.
record Keeps (g h : CycleGraph) (n : ℕ) : Type 0 where
  cv : (u : ℕ) → (h.node u).cv ≡ (g.node u).cv
  has_rmw : (u : ℕ) → (h.node u).has_rmw ≡ (g.node u).has_rmw
  edges : (v : ℕ) → Edge g n v → Edge h n v

Keeps-trans : {g h k : CycleGraph} {n : ℕ} → Keeps g h n → Keeps h k n → Keeps g k n
Keeps-trans p q = record {
  cv = λ u. q.cv u ∙ p.cv u;
  has_rmw = λ u. q.has_rmw u ∙ p.has_rmw u;
  edges = λ v e. q.edges v (p.edges v e);
}

remove_in_edge-Keeps : (g : CycleGraph) (m src n : ℕ) → Keeps g (remove_in_edge g m src) n
unfolding remove_in_edge
remove_in_edge-Keeps g m src n = record {
  cv = λ u. ground arith;
  has_rmw = λ u. ground arith;
  edges = λ v e. subst (In v) (same m) e;
}
  where
    same : (m : ℕ) → (g.node n).edges ≡ ((remove_in_edge g m src).node n).edges
    same m = ground arith

add_edge_once-Keeps : (g : CycleGraph) (from to n : ℕ) → Keeps g (add_edge_once g from to) n
add_edge_once-Keeps g from to n = record {
  cv = λ u. (same-once g from to u).2;
  has_rmw = λ u. (same-once g from to u).1;
  edges = λ v e. (Edge-once g from to n v).1 (inl e);
}

transfer_edge-Keeps :
    (g : CycleGraph) (from rmw to : ℕ)
    → Keeps g (transfer_edge g from rmw to) rmw
      × (to ≢ rmw → Edge (transfer_edge g from rmw to) rmw to)
unfolding transfer_edge
transfer_edge-Keeps g from rmw to =
    let at = λ (b : Bool). remove_in_edge (if b then g else add_edge_once g rmw to) to from in
    let goal = λ (h : CycleGraph). Keeps g h rmw × (to ≢ rmw → Edge h rmw to) in
    elim (Bool-cases (to == rmw)) [
      | inl same ↦
          subst goal (sym (ap at same))
            (remove_in_edge-Keeps g to from rmw, λ other. absurd (other ((==_iff to rmw).0 same)))
      | inr moved ↦
          let last = remove_in_edge-Keeps (add_edge_once g rmw to) to from rmw in
          subst goal (sym (ap at moved)) (
            Keeps-trans (add_edge_once-Keeps g rmw to rmw) last,
            λ _. last.edges to ((Edge-once g rmw to rmw to).1 (inr (refl, refl))),
          )
    ]

-- The edges that are moved arrive.
transfer-Keeps :
    (g : CycleGraph) (from rmw : ℕ) (es : List ℕ)
    → Keeps g (transfer g from rmw es) rmw
      × ((v : ℕ) → In v es → v ≢ rmw → Edge (transfer g from rmw es) rmw v)
unfolding transfer
transfer-Keeps g from rmw [] =
    (record { cv = λ u. refl; has_rmw = λ u. refl; edges = λ v e. e }, λ v h. absurd h)
transfer-Keeps g from rmw (to ∷ es) =
    let (first, there) = transfer_edge-Keeps g from rmw to in
    let (keeps, arrive) = transfer-Keeps (transfer_edge g from rmw to) from rmw es in
    (
      Keeps-trans first keeps,
      λ v h other. elim h [
        | inl e ↦ keeps.edges v (
            subst (λ x. Edge (transfer_edge g from rmw to) rmw x) (sym e)
              (there λ p. other (e ∙ p)))
        | inr later ↦ arrive v later other
      ],
    )

-- A forced edge to a node that knows all that the source of the edge knows changes no clock.
add_node_edge_silent :
    (fuel : ℕ) (g : CycleGraph) (from to : ℕ)
    → (g.node from).has_rmw ≡ some to
    → ((t : ℕ) → clock_at g from t ≤ clock_at g to t)
    → (h : CycleGraph) × (add_node_edge (suc fuel) g from to true ≡ some h)
      × ((u v : ℕ) → Edge g u v → Edge h u v)
      × ((u t : ℕ) → clock_at h u t ≡ clock_at g u t)
unfolding follow_rmw
add_node_edge_silent fuel g from to e below =
    let g₁ = add_edge_once g from to in
    let below₁ : (t : ℕ) → clock_at g₁ from t ≤ clock_at g₁ to t =
      λ t. omega (arith, below t, clock-once g from to from t, clock-once g from to to t) in
    let grows = Grows-relax g₁ from to [] in
    elim (relax_cases g₁ from to []) [
      | inl (_, changed) ↦
          let kept = (merge_unchanged_iff (g₁.node to).cv (g₁.node from).cv).1 below₁ in cc
      | inr (empty, _, same) ↦ (
        (relax g₁ from to []).0,
        run empty,
        λ u v old. subst (In v) (sym (grows.same_edges u)) ((Edge-once g from to u v).1 (inl old)),
        λ u t. same u t ∙ clock-once g from to u t,
      )
    ]
  where
    chain : follow_rmw (suc fuel) g from to ≡ some from
    chain = rw (follow_rmw, e, (==_iff to to).1 refl) refl

    linked :
        (relax (add_edge_once g from to) from to []).1 ≡ []
        → link (suc fuel) g from to ≡ some (relax (add_edge_once g from to) from to []).0
    linked empty = unfold link in unfold propagate in rw empty refl

    run :
        (relax (add_edge_once g from to) from to []).1 ≡ []
        → add_node_edge (suc fuel) g from to true
          ≡ some (relax (add_edge_once g from to) from to []).0
    run empty =
        unfold add_node_edge in
        elim (Bool-cases (check_reachable g from to)) [
          | inl already ↦ rw (already, chain) (linked empty)
          | inr unknown ↦ rw (unknown, chain) (linked empty)
        ]

get_node-present :
    (actions : ℕ → Stamp) (g : CycleGraph) (a : ℕ) → g.present a ≡ true → get_node actions g a ≡ g
unfolding get_node
get_node-present actions g a e = rw e refl

set_rmw_lem :
    (g : CycleGraph) (n rmw : ℕ)
    → (g.node n).has_rmw ≡ none
    → (((set_rmw g n rmw).node n).has_rmw ≡ some rmw)
      × ((u : ℕ) → ((set_rmw g n rmw).node u).cv ≡ (g.node u).cv)
      × ((u : ℕ) → ((set_rmw g n rmw).node u).edges ≡ (g.node u).edges)
unfolding set_rmw
set_rmw_lem g n rmw e = rw (set_rmw, e) (ground arith, λ u. ground arith, λ u. ground arith)

clear_edges_lem :
    (g : CycleGraph) (n : ℕ)
    → ((u : ℕ) → ((clear_edges g n).node u).cv ≡ (g.node u).cv)
      × ((u : ℕ) → ((clear_edges g n).node u).has_rmw ≡ (g.node u).has_rmw)
      × ((u : ℕ) → n ≢ u → ((clear_edges g n).node u).edges ≡ (g.node u).edges)
unfolding clear_edges
clear_edges_lem g n = (λ u. ground arith, λ u. ground arith, λ u other. ground arith)

move_edges_lem :
    (g : CycleGraph) (from rmw : ℕ)
    → from ≢ rmw
    → (g.node from).has_rmw ≡ none
    → (((move_edges g from rmw).node from).has_rmw ≡ some rmw)
      × ((u : ℕ) → ((move_edges g from rmw).node u).cv ≡ (g.node u).cv)
      × ((v : ℕ) → Edge g from v → v ≢ rmw → Edge (move_edges g from rmw) rmw v)
unfolding move_edges
move_edges_lem g from rmw apart free =
    let g₂ = set_rmw g from rmw in
    let (linked, cv₂, edges₂) = set_rmw_lem g from rmw free in
    let (keeps, arrive) = transfer-Keeps g₂ from rmw (g₂.node from).edges in
    let (cv₃, links₃, edges₃) = clear_edges_lem (transfer g₂ from rmw (g₂.node from).edges) from in
    (
      links₃ from ∙ keeps.has_rmw from ∙ linked,
      λ u. cv₃ u ∙ keeps.cv u ∙ cv₂ u,
      λ v e other.
          subst (In v) (sym (edges₃ rmw apart))
            (arrive v (subst (In v) (sym (edges₂ from)) e) other),
    )

-- Two different nodes, neither read by an RMW yet, where the node of the RMW knows already all
-- that the node of its store knows (the two are in one thread, say): the edges out of the store
-- move to the RMW, but no clock changes, so the targets of the moved edges do not learn of the
-- RMW.
pub add_rmw_edge_silent :
    (actions : ℕ → Stamp) (fuel : ℕ) (g : CycleGraph) (from rmw : ℕ)
    → g.present from ≡ true
    → g.present rmw ≡ true
    → from ≢ rmw
    → (g.node from).has_rmw ≡ none
    → (g.node rmw).has_rmw ≡ none
    → ((t : ℕ) → clock_at g from t ≤ clock_at g rmw t)
    → (h : CycleGraph) × (add_rmw_edge actions (suc fuel) g from rmw ≡ some h)
      × ((v : ℕ) → Edge g from v → v ≢ rmw → Edge h rmw v)
      × ((u t : ℕ) → clock_at h u t ≡ clock_at g u t)
unfolding add_rmw_edge rmw_edge
add_rmw_edge_silent actions fuel g from rmw here there apart free unread below =
    let (linked, cv, arrive) = move_edges_lem g from rmw apart free in
    let clock = λ (u t : ℕ). ap (λ c. get_clock c t) (cv u) in
    let (h, e, kept, same) =
      add_node_edge_silent fuel (move_edges g from rmw) from rmw linked
        (λ t. omega (arith, below t, clock from t, clock rmw t)) in
    (h, run e, λ v old other. kept rmw v (arrive v old other), λ u t. same u t ∙ clock u t)
  where
    known : get_node actions (get_node actions g from) rmw ≡ g
    known =
        ap (λ k. get_node actions k rmw) (get_node-present actions g from here)
        ∙ get_node-present actions g rmw there

    node_edge :
        rmw_edge (suc fuel) g from rmw
        ≡ add_node_edge (suc fuel) (move_edges g from rmw) from rmw true
    node_edge = rw (rmw_edge, unread) refl

    run :
        {h : Option CycleGraph}
        → add_node_edge (suc fuel) (move_edges g from rmw) from rmw true ≡ h
        → add_rmw_edge actions (suc fuel) g from rmw ≡ h
    run e = ap (λ k. rmw_edge (suc fuel) k from rmw) known ∙ node_edge ∙ e
