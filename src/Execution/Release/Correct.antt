-- ===== src/Execution/Release/Correct.antt =====
-- `get_hb_from_write` (execution.cc) finds the vector of the release sequence.
use c11tester.Base.{
  ℕ, zero, suc, ◌≡◌, ◌<◌, ◌⊎◌, inl, inr, refl, true, false, ◌==◌, ap, ◌∙◌, Option, none, some, List,
  [], ◌∷◌, ◌++◌, update, arith, Bool-cases, Option-cases, ==_iff, subst,
}
use c11tester.ClockVector.{ClockVector, merge}
use c11tester.ClockVector.Lattice.{append_nil, new_copy}
use c11tester.Action.{ModelAction}
use c11tester.Action.Kinds.{is_write, is_rmw, is_release}
use c11tester.Action.Rmw.{store_read}
use c11tester.Execution.Release.{
  Cache, has_vector, stops, collect, keep, by_fence, uncached, round, rounds, hb_from_write,
}
use c11tester.Execution.Release.Sequence.{
  vector_of, fence_cv, released, heads, HbFrom, head, joins, IsClocked, Sequence, starts, follows,
  IsConsistent, uncached_joins,
}

module _ (actions : ℕ → ModelAction) where
  -- A step of the second loop that comes out right for `a`.
  abbrev IsRight : ℕ → Option (Option ClockVector × Cache) → Type 0
  IsRight a r =
      (vec : Option ClockVector) × (rf_cv : Cache) × (r ≡ some (vec, rf_cv))
      × HbFrom actions a vec
      × IsConsistent actions rf_cv

  update-IsConsistent :
      (rf_cv : Cache) (a : ℕ) (vec : Option ClockVector)
      → IsConsistent actions rf_cv
      → HbFrom actions a vec
      → IsConsistent actions (update rf_cv a vec)
  update-IsConsistent rf_cv a vec ok h b c e = elim (Bool-cases (a == b)) [
    | inl same ↦
        let p : vec ≡ some c = ground arith in
        subst (λ x. HbFrom actions x (some c)) ((==_iff a b).0 same)
          (subst (λ v. HbFrom actions a v) p h)
    | inr other ↦ ok b c (ground arith)
  ]

  by_fence_alone :
      (a : ℕ)
      → IsClocked actions a
      → is_rmw (actions a).type ≡ false
      → by_fence actions none a (actions a).last_fence_release
        ≡ some (fence_cv actions (actions a).last_fence_release)
  unfolding by_fence
  by_fence_alone a k r = elim (Option-cases (actions a).last_fence_release) [
    | inl e ↦ rw (e, r) refl
    | inr (f, e) ↦ let (c, q) = k.fenced f e in rw e (ground (arith, q, new_copy c))
  ]

  -- The head of a sequence, reached with no vector yet.
  uncached_head :
      (rf_cv : Cache) (a : ℕ)
      → IsClocked actions a
      → heads actions a ≡ true
      → (uncached actions rf_cv none a ≡ some (released actions (actions a), rf_cv))
        ⊎ (uncached actions rf_cv none a
            ≡ some (released actions (actions a), update rf_cv a (released actions (actions a))))
  unfolding uncached keep
  uncached_head rf_cv a k h = elim (Bool-cases (is_release (actions a).order)) [
    | inl w ↦ inl (rw w (ground arith))
    | inr w ↦ inr (rw (w, by_fence_alone a k (ground arith)) (ground arith))
  ]

  round_head :
      (rf_cv : Cache) (a : ℕ)
      → IsConsistent actions rf_cv
      → IsClocked actions a
      → heads actions a ≡ true
      → IsRight a (round actions rf_cv none a)
  unfolding round
  round_head rf_cv a ok k h = elim (Option-cases (rf_cv a)) [
    | inl e ↦
        rw (e, round)
          (elim (uncached_head rf_cv a k h) [
            | inl same ↦ rw same (released actions (actions a), rf_cv, refl, head a h, ok)
            | inr kept ↦ rw kept (
              released actions (actions a),
              update rf_cv a (released actions (actions a)),
              refl,
              head a h,
              update-IsConsistent rf_cv a (released actions (actions a)) ok (head a h),
            )
          ])
    | inr (c, e) ↦ rw (e, round) (some c, rf_cv, refl, ok a c e, ok)
  ]

  round_joins :
      (rf_cv : Cache) (a b : ℕ) {vec : Option ClockVector}
      → IsConsistent actions rf_cv
      → heads actions a ≡ false
      → store_read (actions a).shared ≡ some b
      → IsClocked actions a
      → HbFrom actions b vec
      → IsRight a (round actions rf_cv vec a)
  unfolding round
  round_joins rf_cv a b {vec} ok h r k hb = elim (Option-cases (rf_cv a)) [
    | inl e ↦
        let c = some (merge (vector_of vec) (vector_of (released actions (actions a)))).0 in
        let right = joins a b h r hb in
        rw (e, round, uncached_joins actions rf_cv vec a k h)
          (c, update rf_cv a c, refl, right, update-IsConsistent rf_cv a c ok right)
    | inr (c, e) ↦ rw (e, round) (some c, rf_cv, refl, ok a c e, ok)
  ]

  rounds_last :
      (rf_cv : Cache) (vec : Option ClockVector) (xs : List ℕ) (a : ℕ) {vec' : Option ClockVector}
      {rf_cv' : Cache}
      → rounds actions rf_cv vec xs ≡ some (vec', rf_cv')
      → rounds actions rf_cv vec (xs ++ a ∷ []) ≡ round actions rf_cv' vec' a
  unfolding rounds
  rounds_last rf_cv vec [] a h = ground arith
  rounds_last rf_cv vec (x ∷ xs) a {vec'} {rf_cv'} h =
      elim (Option-cases (round actions rf_cv vec x)) [
        | inl e ↦ absurd (ground arith)
        | inr ((v, c), e) ↦
            rw (e, rounds) (rounds_last c v xs a {vec' = vec'} {rf_cv' = rf_cv'} (ground arith))
      ]

  append_assoc : (xs ys zs : List ℕ) → (xs ++ ys) ++ zs ≡ xs ++ (ys ++ zs)
  append_assoc [] ys zs = refl
  append_assoc (x ∷ xs) ys zs = ap (λ r. x ∷ r) (append_assoc xs ys zs)

  -- What the two loops give together from a store on, before what is collected already.
  abbrev Finds : ℕ → Cache → ℕ → Type 0
  Finds fuel rf_cv a =
      (front : List ℕ) × (last : ℕ) × ((set : List ℕ)
        → collect actions fuel rf_cv set a ≡ some (front ++ set, last))
      × IsRight a (rounds actions rf_cv none (last ∷ front))

  alone :
      (rf_cv : Cache) (a : ℕ)
      → IsRight a (round actions rf_cv none a)
      → IsRight a (rounds actions rf_cv none (a ∷ []))
  unfolding rounds
  alone rf_cv a (v, c, e, hb, ok) = (v, c, ground arith, hb, ok)

  Finds-here :
      (fuel : ℕ) (rf_cv : Cache) (a : ℕ)
      → is_write (actions a).type ≡ true
      → stops actions rf_cv a ≡ true
      → IsRight a (round actions rf_cv none a)
      → Finds (suc fuel) rf_cv a
  unfolding collect
  Finds-here fuel rf_cv a w s r = ([], a, (λ set. ground arith), alone rf_cv a r)

  finds :
      (fuel : ℕ) (rf_cv : Cache) {n a : ℕ}
      → IsConsistent actions rf_cv
      → Sequence actions n a
      → n < fuel
      → Finds fuel rf_cv a
  unfolding collect stops has_vector round
  finds zero rf_cv ok s h = absurd (omega arith)
  finds (suc fuel) rf_cv ok (starts a e k) h =
      Finds-here fuel rf_cv a k.is_store (ground arith) (round_head rf_cv a ok k e)
  finds (suc fuel) rf_cv ok (follows a b e r k s) h = elim (Option-cases (rf_cv a)) [
    | inr (c, q) ↦
        Finds-here fuel rf_cv a k.is_store (ground arith)
          (some c, rf_cv, ground arith, ok a c q, ok)
    | inl q ↦
        let (front, last, found, (vec, rf_cv', done, hb, ok')) =
          finds fuel rf_cv ok s (omega arith) in
        let (v, c, e', right, ok'') = round_joins rf_cv' a b ok' e r k hb in
        (
          front ++ a ∷ [],
          last,
          (λ set. ground (arith, k.is_store, found (a ∷ set), append_assoc front (a ∷ []) set)),
          (v, c, rounds_last rf_cv none (last ∷ front) a done ∙ e', right, ok''),
        )
  ]

  -- For a store at the end of a release sequence of `n` RMWs, whose actions and release fences
  -- have their vectors, and with a cache that is right: with more fuel than RMWs the loops end,
  -- and give the vector that the sequence has by its definition. What they leave in the cache is
  -- right again.
  pub hb_from_write-HbFrom :
      (fuel : ℕ) (rf_cv : Cache) {n : ℕ} (a : ℕ)
      → IsConsistent actions rf_cv
      → Sequence actions n a
      → n < fuel
      → (vec : Option ClockVector) × (rf_cv' : Cache) × (hb_from_write actions fuel rf_cv a
          ≡ some (vec, rf_cv'))
        × HbFrom actions a vec
        × IsConsistent actions rf_cv'
  unfolding hb_from_write
  hb_from_write-HbFrom fuel rf_cv a ok s h =
      let (front, last, found, (vec, rf_cv', done, hb, ok')) = finds fuel rf_cv ok s h in
      (vec, rf_cv', rw (found [], append_nil front, hb_from_write) done, hb, ok')
