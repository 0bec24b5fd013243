-- ===== src/Execution/ReadOrder/Own.antt =====
-- The edges that `r_modification_order` (execution.cc) asks for, and that of the reader's own thread
-- among them.
use c11tester.Base.{
  ℕ, zero, suc, ◌≡◌, ◌⊎◌, inl, inr, sym, ap, subst, Bool, true, false, ◌||◌, ◌==◌, if◌then◌else◌,
  Option, none, some, List, [], ◌∷◌, ◌∙◌, ◌<◌, IsIn, IsIn-append, append_left-IsIn,
  append_right-IsIn, length, get_or, arith, Bool-cases, ==_iff,
}
use c11tester.Action.Kinds.{is_write}
use c11tester.Action.Rmw.{store_read}
use c11tester.Execution.State.{Execution, before}
use c11tester.Execution.ReadOrder.{
  ScFences, Seen, sees, feasible, or_else, push_back, fence_orders, order_before, read_before,
  happened, walk, skips, visit,
}
use c11tester.Execution.ReadOrder.Acyclic.{IsUnreached, walk_sees, next, visit_inv}

push_back_inv :
    (xs : List ℕ) (o : Option ℕ) (a : ℕ) → IsIn a (push_back xs o) → IsIn a xs ⊎ (o ≡ some a)
unfolding push_back
push_back_inv xs none a h = inl h
push_back_inv xs (some b) a h = elim (IsIn-append a xs (b ∷ []) h) [
  | inl old ↦ inl old
  | inr new ↦ inr (last new)
]
  where
    last : IsIn a (b ∷ []) → some b ≡ some a
    last (inl e) = ap some (sym e)
    last (inr e) = absurd e

push_back_keeps : (xs : List ℕ) (o : Option ℕ) (a : ℕ) → IsIn a xs → IsIn a (push_back xs o)
unfolding push_back
push_back_keeps xs none a h = h
push_back_keeps xs (some b) a h = append_left-IsIn a xs (b ∷ []) h

push_back_new : (xs : List ℕ) (o : Option ℕ) (a : ℕ) → o ≡ some a → IsIn a (push_back xs o)
unfolding push_back
push_back_new xs none a h = cc
push_back_new xs (some b) a h = append_right-IsIn a xs (b ∷ []) (inl (cc))

module _ (e : Execution) (curr rf : ℕ) where
  abbrev AllIn : (ℕ → Type 0) → List ℕ → Type 0
  AllIn P xs = (a : ℕ) → IsIn a xs → P a

  push_back_all :
      (xs : List ℕ) (o : Option ℕ)
      → AllIn (IsUnreached e curr rf) xs
      → ((a : ℕ) → o ≡ some a → IsUnreached e curr rf a)
      → AllIn (IsUnreached e curr rf) (push_back xs o)
  push_back_all xs o h k a m = elim (push_back_inv xs o a m) [
    | inl old ↦ h a old
    | inr new ↦ k a new
  ]

  module _ (lists : List (List ℕ)) (local : Option ℕ) where
    -- The loop keeps what it has, and adds nothing that the store reaches.
    pub visit_keeps :
        (n tid : ℕ) (first : Bool) (prev : Option ℕ) (priors : List ℕ) (canprune : Bool)
        (priors' : List ℕ) (canprune' : Bool)
        → visit e curr rf lists local n tid first prev priors canprune
          ≡ some (feasible priors' canprune')
        → ((a : ℕ) → IsIn a priors → IsIn a priors')
          × (AllIn (IsUnreached e curr rf) priors → AllIn (IsUnreached e curr rf) priors')
    unfolding visit
    visit_keeps zero tid first prev priors canprune priors' canprune' h =
        let same : priors ≡ priors' = cc in
        (λ a m. subst (IsIn a) same m, λ all. subst (AllIn (IsUnreached e curr rf)) same all)
    visit_keeps (suc n) tid first prev priors canprune priors' canprune' h =
        let (fences, p, r) =
          visit_inv e curr rf lists local n tid first prev priors canprune
            (feasible priors' canprune') h (λ q. cc) in
        elim r [
          | inl (s, rest) ↦
              visit_keeps n (next e curr rf lists local tid) false prev priors canprune priors'
                canprune' rest
          | inr (s, (seen, w, rest)) ↦
              let (keeps, safe) =
                visit_keeps n (next e curr rf lists local tid) false
                  (or_else seen.prev_same_thread prev) (push_back priors seen.prior)
                  (canprune || seen.canprune) priors' canprune' rest in
              (
                λ a m. keeps a (push_back_keeps priors seen.prior a m),
                λ all. safe (
                    push_back_all priors seen.prior all
                      (λ a q. walk_sees e curr rf first fences (get_or lists tid []) seen a w q)),
              )
        ]

  -- The write that an action shows: itself, or what it has read.
  abbrev pub shown : ℕ → Option ℕ
  shown a = if is_write (e.actions a).type then some a else store_read (e.actions a).shared

  order_before_own :
      (a : ℕ) (prev : Option ℕ) (seen : Seen)
      → order_before e curr rf a prev ≡ sees seen
      → seen.prior ≡ some a
  unfolding order_before
  order_before_own a prev seen h = ground arith

  read_before_own :
      (a : ℕ) (prev prevrf : Option ℕ) (seen : Seen) (w : ℕ)
      → read_before e curr rf a prev prevrf ≡ sees seen
      → prevrf ≡ some w
      → (w ≡ rf) ⊎ (seen.prior ≡ some w)
  unfolding read_before
  read_before_own a prev none seen w h p = cc
  read_before_own a prev (some x) seen w h p = elim (Bool-cases (x == rf)) [
    | inl same ↦ inl (ground arith)
    | inr other ↦
        let q : seen.prior ≡ some x = order_before_own x prev seen (ground arith) in inr (cc)
  ]

  happened_own :
      (first : Bool) (fences : ScFences) (a : ℕ) (seen : Seen) (w : ℕ)
      → happened e curr rf first fences a ≡ sees seen
      → shown a ≡ some w
      → (w ≡ rf) ⊎ (seen.prior ≡ some w)
  unfolding happened
  happened_own first fences a seen w h p = elim (Bool-cases (is_write (e.actions a).type)) [
    | inl writes ↦
        let q : seen.prior ≡ some a = order_before_own a _ seen (rw writes at h) in
        let eq : some a ≡ some w = rw writes at p in inr (q ∙ eq)
    | inr reads ↦
        read_before_own a _ (store_read (e.actions a).shared) seen w (rw reads at h) (rw reads at p)
  ]

  walk_own :
      (first : Bool) (fences : ScFences) (a : ℕ) (older : List ℕ) (seen : Seen) (w : ℕ)
      → walk e curr rf first fences (a ∷ older) ≡ sees seen
      → (a == curr) ≡ false
      → before e a curr ≡ some true
      → is_write (e.actions rf).type ≡ true
      → shown a ≡ some w
      → (w ≡ rf) ⊎ (seen.prior ≡ some w)
  unfolding walk fence_orders
  walk_own first fences a older seen w h other b writes p = elim (Bool-cases (a == rf)) [
    | inl store ↦
        let same : a ≡ rf = (==_iff a rf).0 store in
        let wa : is_write (e.actions a).type ≡ true = rw same writes in
        let eq : some a ≡ some w = rw wa at p in inl (cc)
    | inr no_store ↦ elim (Bool-cases (fence_orders e curr rf fences a)) [
      | inl fenced ↦
          let q : seen.prior ≡ some a = order_before_own a none seen (ground arith) in
          let wa : is_write (e.actions a).type ≡ true = ground arith in
          let eq : some a ≡ some w = rw wa at p in inr (q ∙ eq)
      | inr free ↦ happened_own first fences a seen w (ground arith) p
    ]
  ]

  -- The first round, with the reader's own thread.
  pub visit_own :
      (lists : List (List ℕ)) (local : Option ℕ) (n tid a : ℕ) (older : List ℕ) (w : ℕ)
      (priors : List ℕ) (canprune : Bool)
      → visit e curr rf lists local (suc n) tid true none [] false ≡ some (feasible priors canprune)
      → get_or lists tid [] ≡ a ∷ older
      → (a == curr) ≡ false
      → before e a curr ≡ some true
      → is_write (e.actions rf).type ≡ true
      → shown a ≡ some w
      → (w ≡ rf) ⊎ IsIn w priors
  unfolding skips
  visit_own lists local n tid a older w priors canprune h own other b writes p =
      let (fences, q, r) =
        visit_inv e curr rf lists local n tid true none [] false (feasible priors canprune) h
          (λ q. cc) in
      elim r [
        | inl (s, rest) ↦ absurd (ground arith)
        | inr (s, (seen, walked, rest)) ↦
            let keeps =
              (visit_keeps lists local n (next e curr rf lists local tid) false
                (or_else seen.prev_same_thread none) (push_back [] seen.prior)
                (false || seen.canprune) priors canprune rest).0 in
            elim (walk_own true fences a older seen w (rw own at walked) other b writes p) [
              | inl same ↦ inl same
              | inr new ↦ inr (keeps w (push_back_new [] seen.prior w new))
            ]
      ]

pub in_bounds :
    (lists : List (List ℕ)) (i a : ℕ) (older : List ℕ)
    → get_or lists i [] ≡ a ∷ older
    → i < length lists
in_bounds [] i a older h = cc
in_bounds (x ∷ lists) zero a older h = omega arith
in_bounds (x ∷ lists) (suc i) a older h = omega (arith, in_bounds lists i a older h)
