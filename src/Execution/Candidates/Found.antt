-- ===== src/Execution/Candidates/Found.antt =====
-- `build_may_read_from` (execution.cc) finds its candidates without a failed assertion.
use c11tester.Base.{
  ℕ, ◌≡◌, ◌↔◌, ◌⊎◌, inl, inr, refl, Bool, true, false, ◌||◌, ◌==◌, Option, none, some, List, [],
  ◌∷◌, ◌++◌, IsIn, arith, Option-cases,
}
use c11tester.ClockVector.{ClockVector, synchronized_since}
use c11tester.Action.{size}
use c11tester.Action.Kinds.{is_read, is_rmwrcas}
use c11tester.Execution.State.{Execution, before, stamps}
use c11tester.Execution.Candidates.{
  valequals, get_size, sc_forbids, rmw_forbids, allow_read, scan_writes, scan_threads, last_sc,
  build_may_read_from,
}
use c11tester.Execution.Candidates.Coherence.{SomeVisible, scan_threads_iff}

module _ (e : Execution) (curr : ℕ) where
  -- A CAS has the size of a machine word.
  abbrev pub HasWidth : Type 0
  HasWidth =
      (is_rmwrcas (e.actions curr).type ≡ false)
      ⊎ ((bytes : ℕ) × ((e.actions curr).shared ≡ size bytes)
          × ((bytes == 1 || bytes == 2 || bytes == 4 || bytes == 8) ≡ true))

  -- What the walk compares with has a clock vector: the read, and the last write that is
  -- sequentially consistent, where the walk asks for one.
  abbrev pub HasVector : ℕ → Type 0
  HasVector a = (c : ClockVector) × ((e.actions a).cv ≡ some c)

  abbrev pub HasVectors : Option ℕ → Type 0
  HasVectors none = HasVector curr
  HasVectors (some p) = HasVector curr × HasVector p

  own_vector : (l : Option ℕ) → HasVectors l → HasVector curr
  own_vector none v = v
  own_vector (some p) v = v.0

  before_total : (a b : ℕ) → HasVector b → (w : Bool) × (before e a b ≡ some w)
  unfolding before
  before_total a b (c, v) = (synchronized_since c (stamps e a), rw (before, v) refl)

  sc_forbids_total :
      (l : Option ℕ) (a : ℕ) → HasVectors l → (w : Bool) × (sc_forbids e curr l a ≡ some w)
  unfolding sc_forbids
  sc_forbids_total none a v = elim (Option-cases (sc_forbids e curr none a)) [
    | inl fault ↦ absurd (ground arith)
    | inr r ↦ r
  ]
  sc_forbids_total (some p) a v = elim (Option-cases (sc_forbids e curr (some p) a)) [
    | inl fault ↦ absurd (ground (arith, (before_total a p v.1).1))
    | inr r ↦ r
  ]

  valequals_total :
      (a b bytes : ℕ)
      → (bytes == 1 || bytes == 2 || bytes == 4 || bytes == 8) ≡ true
      → (w : Bool) × (valequals a b bytes ≡ some w)
  unfolding valequals
  valequals_total a b bytes h = elim (Option-cases (valequals a b bytes)) [
    | inl fault ↦ absurd (ground arith)
    | inr r ↦ r
  ]

  rmw_forbids_total : (a : ℕ) → HasWidth → (w : Bool) × (rmw_forbids e curr a ≡ some w)
  unfolding rmw_forbids get_size
  rmw_forbids_total a h = elim (Option-cases (rmw_forbids e curr a)) [
    | inr r ↦ r
    | inl fault ↦ elim h [
      | inl plain ↦ absurd (ground arith)
      | inr (bytes, s, k) ↦ absurd (
          ground (arith, s, (valequals_total (e.actions curr).value (e.actions a).value bytes k).1))
    ]
  ]

  allow_total :
      (l : Option ℕ) (a : ℕ)
      → HasWidth
      → HasVectors l
      → (w : Bool) × (allow_read e curr l a ≡ some w)
  unfolding allow_read
  allow_total l a h v = elim (Option-cases (allow_read e curr l a)) [
    | inl fault ↦ absurd (ground (arith, (rmw_forbids_total a h).1, (sc_forbids_total l a v).1))
    | inr r ↦ r
  ]

  scan_writes_total :
      (l : Option ℕ) (list : List ℕ)
      → HasWidth
      → HasVectors l
      → (found : List ℕ) × (scan_writes e curr l list ≡ some found)
  unfolding scan_writes
  scan_writes_total l [] h v = ([], refl)
  scan_writes_total l (x ∷ list) h v =
      let (w, p) = allow_total l x h v in
      let (b, s) = before_total x curr (own_vector l v) in
      let (older, q) = scan_writes_total l list h v in
      elim (Option-cases (scan_writes e curr l (x ∷ list))) [
        | inl fault ↦ absurd (ground (arith, p, q, s))
        | inr r ↦ r
      ]

  scan_threads_total :
      (l : Option ℕ) (lists : List (List ℕ))
      → HasWidth
      → HasVectors l
      → (rf_set : List ℕ) × (scan_threads e curr l lists ≡ some rf_set)
  unfolding scan_threads
  scan_threads_total l [] h v = ([], refl)
  scan_threads_total l (list ∷ lists) h v =
      let (found, p) = scan_writes_total l list h v in
      let (others, q) = scan_threads_total l lists h v in
      (found ++ others, rw (p, q, scan_threads) refl)

  -- If the candidates are found, they are the visible writes of the threads' lists.
  pub built_iff :
      (lists : List (List ℕ)) (rf_set : List ℕ)
      → e.obj_wr_thrd_map (e.actions curr).location ≡ some lists
      → build_may_read_from e curr ≡ some rf_set
      → (a : ℕ) → IsIn a rf_set ↔ SomeVisible e curr (last_sc e curr) lists a
  unfolding build_may_read_from
  built_iff lists rf_set m built a =
      scan_threads_iff e curr (last_sc e curr) lists rf_set a (ground arith)

  -- For a read, which has the size of a machine word if it is a CAS, at a location that has been
  -- written, where the read has a clock vector, and so has the last write that is sequentially
  -- consistent, if the read is and there is one: the candidates are found, and they are the writes
  -- of the threads' lists there, other than the read itself, that a read of its kind may read from
  -- and to which no newer write of the same list that happens before the read bars the way.
  pub build_may_read_from_iff :
      (lists : List (List ℕ))
      → is_read (e.actions curr).type ≡ true
      → e.obj_wr_thrd_map (e.actions curr).location ≡ some lists
      → HasWidth
      → HasVectors (last_sc e curr)
      → (rf_set : List ℕ) × (build_may_read_from e curr ≡ some rf_set)
        × ((a : ℕ) → IsIn a rf_set ↔ SomeVisible e curr (last_sc e curr) lists a)
  unfolding build_may_read_from
  build_may_read_from_iff lists r m h v =
      let (rf_set, p) = scan_threads_total (last_sc e curr) lists h v in
      (
        rf_set,
        ground (arith, r, m, p),
        λ a. scan_threads_iff e curr (last_sc e curr) lists rf_set a p,
      )
