-- ===== src/Execution/ReadOrder/Acyclic.antt =====
-- What `r_modification_order` (execution.cc) allows, and what it asks for.
use c11tester.Base.{
  ℕ, suc, ◌+◌, ◌≡◌, ◌≢◌, ◌⊎◌, inl, inr, refl, subst, Bool, true, false, ◌||◌, ◌==◌, if◌then◌else◌,
  Option, none, some, List, [], ◌∷◌, length, get_or, arith, Bool-cases, Option-cases,
}
use c11tester.Action.Kinds.{is_write}
use c11tester.Action.Rmw.{store_read}
use c11tester.CycleGraph.{check_reachable_actions}
use c11tester.Execution.State.{Execution, before}
use c11tester.Execution.ReadOrder.{
  ScFences, Seen, Walk, faults, violates, sees, Outcome, infeasible, or_else, push_back,
  fence_orders, order_before, read_before, happened, walk, skips, fences_of, visit,
}

Walk-cases : (w : Walk) → (w ≡ faults) ⊎ ((w ≡ violates) ⊎ ((seen : Seen) × (w ≡ sees seen)))
Walk-cases faults = inl refl
Walk-cases violates = inr (inl refl)
Walk-cases (sees seen) = inr (inr (seen, refl))

-- A test that may fault.
tested : (t : Option Bool) → (t ≡ none) ⊎ ((t ≡ some true) ⊎ (t ≡ some false))
tested none = inl refl
tested (some true) = inr (inl refl)
tested (some false) = inr (inr refl)

module _ (e : Execution) (curr rf : ℕ) where
  -- The store does not reach the write in the modification order.
  abbrev pub IsUnreached : ℕ → Type 0
  IsUnreached a = check_reachable_actions e.mo_graph rf a ≡ false

  order_before_sees :
      (a : ℕ) (prev : Option ℕ) (seen : Seen)
      → order_before e curr rf a prev ≡ sees seen
      → (seen.prior ≡ some a) × IsUnreached a
  unfolding order_before
  order_before_sees a prev seen h = elim (Bool-cases (check_reachable_actions e.mo_graph rf a)) [
    | inl hit ↦ absurd (ground arith)
    | inr miss ↦ (ground arith, miss)
  ]

  read_before_sees :
      (a : ℕ) (prev prevrf : Option ℕ) (seen : Seen) (w : ℕ)
      → read_before e curr rf a prev prevrf ≡ sees seen
      → seen.prior ≡ some w
      → IsUnreached w
  unfolding read_before
  read_before_sees a prev none seen w h p = cc
  read_before_sees a prev (some x) seen w h p = elim (Bool-cases (x == rf)) [
    | inl same ↦ absurd (ground arith)
    | inr other ↦
        let (q, u) = order_before_sees x prev seen (ground arith) in
        let eq : x ≡ w = cc in subst IsUnreached eq u
  ]

  before_sees :
      (a : ℕ) (prev : Option ℕ) (seen : Seen) (w : ℕ)
      → order_before e curr rf a prev ≡ sees seen
      → seen.prior ≡ some w
      → IsUnreached w
  before_sees a prev seen w h p =
      let (q, u) = order_before_sees a prev seen h in let eq : a ≡ w = cc in subst IsUnreached eq u

  happened_sees :
      (first : Bool) (fences : ScFences) (a : ℕ) (seen : Seen) (w : ℕ)
      → happened e curr rf first fences a ≡ sees seen
      → seen.prior ≡ some w
      → IsUnreached w
  unfolding happened
  happened_sees first fences a seen w h p = elim (Bool-cases (is_write (e.actions a).type)) [
    | inl writes ↦ before_sees a _ seen w (rw writes at h) p
    | inr reads ↦ read_before_sees a _ (store_read (e.actions a).shared) seen w (rw reads at h) p
  ]

  pub walk_sees :
      (first : Bool) (fences : ScFences) (list : List ℕ) (seen : Seen) (w : ℕ)
      → walk e curr rf first fences list ≡ sees seen
      → seen.prior ≡ some w
      → IsUnreached w
  unfolding walk
  walk_sees first fences [] seen w h p = absurd (ground arith)
  walk_sees first fences (a ∷ list) seen w h p = elim (Bool-cases (a == curr)) [
    | inl same ↦ walk_sees first fences list seen w (ground arith) p
    | inr other ↦ elim (Bool-cases (a == rf)) [
      | inl store ↦ elim (tested (before e a curr)) [
        | inl null ↦ absurd (ground arith)
        | inr (inl b) ↦ absurd (ground arith)
        | inr (inr b) ↦ walk_sees first fences list seen w (ground arith) p
      ]
      | inr no_store ↦ elim (Bool-cases (fence_orders e curr rf fences a)) [
        | inl fenced ↦ before_sees a none seen w (ground arith) p
        | inr free ↦ elim (tested (before e a curr)) [
          | inl null ↦ absurd (ground arith)
          | inr (inl b) ↦ happened_sees first fences a seen w (ground arith) p
          | inr (inr b) ↦ walk_sees first fences list seen w (ground arith) p
        ]
      ]
    ]
  ]

  module _ (lists : List (List ℕ)) (local : Option ℕ) where
    abbrev pub next : ℕ → ℕ
    next tid = if tid + 1 == length lists then 0 else tid + 1

    -- One round of the loop that does not end it: the thread is passed over, or walked through.
    pub visit_inv :
        (n tid : ℕ) (first : Bool) (prev : Option ℕ) (priors : List ℕ) (canprune : Bool)
        (outcome : Outcome)
        → visit e curr rf lists local (suc n) tid first prev priors canprune ≡ some outcome
        → outcome ≢ infeasible
        → (fences : ScFences) × (fences_of e curr rf local first tid ≡ some fences)
          × (((skips e curr rf prev fences.last_sc_fence_thread_local tid ≡ some true)
                × (visit e curr rf lists local n (next tid) false prev priors canprune
                    ≡ some outcome))
              ⊎ ((skips e curr rf prev fences.last_sc_fence_thread_local tid ≡ some false)
                  × ((seen : Seen) × (walk e curr rf first fences (get_or lists tid []) ≡ sees seen)
                      × (visit e curr rf lists local n
                            (next tid)
                            false
                            (or_else seen.prev_same_thread prev)
                            (push_back priors seen.prior)
                            (canprune || seen.canprune)
                          ≡ some outcome))))
    unfolding visit
    visit_inv n tid first prev priors canprune outcome h ne =
        elim (Option-cases (fences_of e curr rf local first tid)) [
          | inl fault ↦ absurd (ground arith)
          | inr (fences, p) ↦
              elim (tested (skips e curr rf prev fences.last_sc_fence_thread_local tid)) [
                | inl null ↦ absurd (ground arith)
                | inr (inl s) ↦ (fences, p, inl (s, ground arith))
                | inr (inr s) ↦ (fences, p, inr (s, walked fences p s))
              ]
        ]
      where
        walked :
            (fences : ScFences)
            → fences_of e curr rf local first tid ≡ some fences
            → skips e curr rf prev fences.last_sc_fence_thread_local tid ≡ some false
            → (seen : Seen) × (walk e curr rf first fences (get_or lists tid []) ≡ sees seen)
              × (visit e curr rf lists local n
                    (next tid)
                    false
                    (or_else seen.prev_same_thread prev)
                    (push_back priors seen.prior)
                    (canprune || seen.canprune)
                  ≡ some outcome)
        walked fences p s = elim (Walk-cases (walk e curr rf first fences (get_or lists tid []))) [
          | inl fault ↦ absurd (ground arith)
          | inr (inl bad) ↦ absurd (ne (ground arith))
          | inr (inr (seen, w)) ↦ (seen, w, ground arith)
        ]
