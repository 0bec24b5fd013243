-- ===== src/Execution/Reads/Candidate.antt =====
-- `process_read` (execution.cc) makes the read take one of its candidates.
use c11tester.Base.{
  ℕ, zero, suc, ◌-◌, ◌%◌, ◌<◌, ◌≡◌, inl, inr, refl, sym, ap, ◌∙◌, subst, Bool, true, false, Option,
  none, some, List, [], ◌∷◌, length, get_or, set, update, IsIn, arith, Option-cases, ==_iff,
  length-set, take-IsIn, set-IsIn, get_or-IsIn, length-take,
}
use c11tester.ClockVector.{ClockVector}
use c11tester.CycleGraph.{CycleGraph, add_edge}
use c11tester.Action.{ModelAction, reads_from}
use c11tester.Action.Kinds.{is_write, is_acquire}
use c11tester.Action.Rmw.{set_read_from, get_write_value}
use c11tester.Execution.State.{Execution, Source, M, need, assert, set_action, on_graph, stamps}
use c11tester.Execution.State.After.{After, bind-After, then-After, need-After}
use c11tester.Execution.Release.{hb_from_write, get_hb_from_write}
use c11tester.Execution.ReadOrder.{Outcome, infeasible, feasible, r_modification_order}
use c11tester.Execution.Reads.{
  merge_cv, take_over, acquire_from, acquire_if, accept, read_from, add_priors, merge_acq_fence,
  take_write, drop_at, try_writes,
}

-- The actions are as they were.
abbrev Keeps : {A : Type 0} → M A → Execution → Type 0
Keeps m e = After m e (λ a e'. e'.actions ≡ e.actions)

get_hb_from_write-Keeps : (rf : ℕ) (e : Execution) → Keeps (get_hb_from_write rf) e
unfolding get_hb_from_write
get_hb_from_write-Keeps rf e a e' q =
    elim (Option-cases (hb_from_write e.actions (suc e.made) e.rf_cv rf)) [
      | inl fault ↦ absurd (ground arith)
      | inr ((v, c), p) ↦ ground arith
    ]

on_graph-Keeps : (f : CycleGraph → Option CycleGraph) (e : Execution) → Keeps (on_graph f) e
on_graph-Keeps f e a e' q = elim (Option-cases (f e.mo_graph)) [
  | inl fault ↦ absurd (ground arith)
  | inr (g, p) ↦ ground arith
]

add_priors-Keeps :
    (source : Source) (priors : List ℕ) (rf : ℕ) (e : Execution)
    → Keeps (add_priors source priors rf) e
unfolding add_priors
add_priors-Keeps source [] rf e = λ a e' q. ground arith
add_priors-Keeps source (p ∷ priors) rf e =
    then-After (on_graph (λ g. add_edge (stamps e) source.rounds g p rf false))
      (add_priors source priors rf) e (λ a e'. e'.actions ≡ e.actions)
      (λ a e₁ k b e' q.
        add_priors-Keeps source priors rf e₁ b e' q
        ∙ on_graph-Keeps (λ g. add_edge (stamps e) source.rounds g p rf false) e a e₁ k)

merge_acq_fence-Keeps :
    (tid : ℕ) (cv : Option ClockVector) (e : Execution) → Keeps (merge_acq_fence tid cv) e
unfolding merge_acq_fence
merge_acq_fence-Keeps tid none e a e' q = ground arith
merge_acq_fence-Keeps tid (some c) e a e' q = ground arith

merge_cv-shared :
    (cv : Option ClockVector) (act act' : ModelAction)
    → merge_cv cv act ≡ some act'
    → act'.shared ≡ act.shared
unfolding merge_cv
merge_cv-shared none act act' h = cc
merge_cv-shared (some cv) act act' h = elim (Option-cases act.cv) [
  | inl fault ↦ absurd (ground arith)
  | inr (c, p) ↦ ground arith
]

-- What the read has read.
abbrev Shows : ℕ → ℕ → Execution → Type 0
Shows curr rf e = (e.actions curr).shared ≡ reads_from (some rf)

update_self : (f : ℕ → ModelAction) (a : ℕ) (v : ModelAction) → update f a v a ≡ v
update_self f a v = rw ((==_iff a a).1 refl) refl

take_over-Shows :
    (curr rf : ℕ) (cv : Option ClockVector) (e : Execution)
    → Shows curr rf e
    → After (take_over curr cv) e (λ a e'. Shows curr rf e')
unfolding take_over
take_over-Shows curr rf none e h = λ a e' q. ground arith
take_over-Shows curr rf (some c) e h =
    bind-After (need (merge_cv (some c) (e.actions curr))) _ e (λ a e'. Shows curr rf e')
      (λ b e₁ k a e' q.
        let merged = need-After (merge_cv (some c) (e.actions curr)) e b e₁ k in
        let shared = merge_cv-shared (some c) (e.actions curr) b (merged.0) in
        ground (arith, shared, h, update_self e₁.actions curr b))

acquire_from-Shows :
    (curr rf : ℕ) (e : Execution)
    → Shows curr rf e
    → After (acquire_from curr rf) e (λ a e'. Shows curr rf e')
unfolding acquire_from
acquire_from-Shows curr rf e h =
    bind-After (get_hb_from_write rf) _ e (λ a e'. Shows curr rf e')
      (λ cv e₁ k.
        let same = get_hb_from_write-Keeps rf e cv e₁ k in
        take_over-Shows curr rf cv e₁ (ap (λ (f : ℕ → ModelAction). (f curr).shared) same ∙ h))

acquire_if-Shows :
    (acquires : Bool) (curr rf : ℕ) (e : Execution)
    → Shows curr rf e
    → After (acquire_if acquires curr rf) e (λ a e'. Shows curr rf e')
unfolding acquire_if
acquire_if-Shows true curr rf e h = acquire_from-Shows curr rf e h
acquire_if-Shows false curr rf e h = λ a e' q. ground arith

read_from-Shows :
    (curr rf : ℕ) (e : Execution) → After (read_from curr rf) e (λ a e'. Shows curr rf e')
unfolding read_from set_read_from
read_from-Shows curr rf e =
    then-After (assert (is_write (e.actions rf).type)) _ e (λ a e'. Shows curr rf e')
      (λ a e₁ k.
        let e₂ = set_action e₁ curr (set_read_from (e₁.actions curr) rf) in
        let shown : Shows curr rf e₂ =
          rw (update_self e₁.actions curr (set_read_from (e₁.actions curr) rf)) refl in
        acquire_if-Shows (is_acquire (e₂.actions curr).order) curr rf e₂ shown)

take_write-Shows :
    (source : Source) (curr rf : ℕ) (priors : List ℕ) (canprune : Bool) (e : Execution)
    → After (take_write source curr rf priors canprune) e (λ a e'. Shows curr rf e')
unfolding take_write
take_write-Shows source curr rf priors canprune e =
    then-After (add_priors source priors rf) _ e (λ a e'. Shows curr rf e')
      (λ a e₁ p₁.
        then-After (read_from curr rf) _ e₁ (λ a e'. Shows curr rf e')
          (λ a e₂ p₂.
            let shown = read_from-Shows curr rf e₁ a e₂ p₂ in
            bind-After (need (get_write_value (e₂.actions rf))) _ e₂ (λ a e'. Shows curr rf e')
              (λ value e₃ p₃.
                let (v, same) = need-After (get_write_value (e₂.actions rf)) e₂ value e₃ p₃ in
                bind-After (get_hb_from_write rf) _ _ (λ a e'. Shows curr rf e')
                  (λ hbcv e₅ p₅.
                    then-After (merge_acq_fence (e₂.actions curr).tid hbcv) _ e₅
                      (λ a e'. Shows curr rf e')
                      (λ c e₆ p₆ b e' q.
                        let s₅ = get_hb_from_write-Keeps rf _ hbcv e₅ p₅ in
                        let s₆ = merge_acq_fence-Keeps (e₂.actions curr).tid hbcv e₅ c e₆ p₆ in
                        let s₃ = ap (λ (x : Execution). x.actions) same in
                        let eq : e₆ ≡ e' = ground arith in
                        subst (Shows curr rf) eq (
                          ap (λ (f : ℕ → ModelAction). (f curr).shared) (s₆ ∙ (s₅ ∙ s₃))
                          ∙ shown))))))

drop_at-IsIn :
    (a index : ℕ) (rf_set : List ℕ)
    → 0 < length rf_set
    → IsIn a (drop_at index rf_set)
    → IsIn a rf_set
unfolding drop_at
drop_at-IsIn a index rf_set h m =
    let last = length rf_set - 1 in
    let back = get_or rf_set last 0 in
    elim (set-IsIn a rf_set index back (take-IsIn a last (set rf_set index back) m)) [
      | inl e ↦ subst (λ x. IsIn x rf_set) (sym e) (get_or-IsIn rf_set last 0 (omega arith))
      | inr k ↦ k
    ]

length-drop_at : (index : ℕ) (rf_set : List ℕ) → length (drop_at index rf_set) ≡ length rf_set - 1
unfolding drop_at
length-drop_at index rf_set =
    let last = length rf_set - 1 in
    let back = get_or rf_set last 0 in
    length-take last (set rf_set index back) (omega (arith, length-set rf_set index back))

-- The read took one of some stores.
abbrev pub TakesOneOf : ℕ → List ℕ → Execution → Type 0
TakesOneOf curr rf_set e =
    (rf : ℕ) × IsIn rf rf_set × ((e.actions curr).shared ≡ reads_from (some rf))

accept-TakesOneOf :
    (source : Source) (curr rf : ℕ) (rf_set : List ℕ) (retry : M Bool) (outcome : Outcome)
    (e : Execution)
    → IsIn rf rf_set
    → After retry e (λ b e'. TakesOneOf curr rf_set e')
    → After (accept source curr rf retry outcome) e (λ b e'. TakesOneOf curr rf_set e')
unfolding accept
accept-TakesOneOf source curr rf rf_set retry infeasible e m h = h
accept-TakesOneOf source curr rf rf_set retry (feasible priors canprune) e m h =
    λ b e' q. (rf, m, take_write-Shows source curr rf priors canprune e b e' q)

pub try_writes-TakesOneOf :
    (source : Source) (n curr : ℕ) (rf_set : List ℕ) (e : Execution)
    → n ≡ length rf_set
    → After (try_writes source n curr rf_set) e (λ b e'. TakesOneOf curr rf_set e')
unfolding try_writes
try_writes-TakesOneOf source zero curr rf_set e h = λ b e' q. cc
try_writes-TakesOneOf source (suc n) curr rf_set e h =
    let index = source.random e.drawn % length rf_set in
    let rf = get_or rf_set index 0 in
    let inside : index < length rf_set = grind arith in
    let rest = drop_at index rf_set in
    bind-After (r_modification_order curr rf) _ _ (λ b e'. TakesOneOf curr rf_set e')
      (λ outcome e₁ k.
        accept-TakesOneOf source curr rf rf_set (try_writes source n curr rest) outcome e₁
          (get_or-IsIn rf_set index 0 inside)
          (λ b e' q.
            let (w, m, shown) =
              try_writes-TakesOneOf source n curr rest e₁
                (omega (arith, length-drop_at index rf_set)) b e' q in
            (w, drop_at-IsIn w index rf_set (omega arith) m, shown)))
