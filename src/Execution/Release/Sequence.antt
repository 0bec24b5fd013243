-- ===== src/Execution/Release/Sequence.antt =====
-- The vector of a release sequence: what `get_hb_from_write` (execution.cc) is to compute.
use c11tester.Base.{
  ℕ, zero, suc, ◌≡◌, inl, inr, Bool, true, false, not, ◌||◌, if◌then◌else◌, Option, none, some, [],
  update, arith, Bool-cases, Option-cases,
}
use c11tester.ClockVector.{ClockVector, merge}
use c11tester.ClockVector.Lattice.{merge-empty_left, merge-empty_right, new_copy, new_empty}
use c11tester.Action.{ModelAction}
use c11tester.Action.Kinds.{is_write, is_rmw, is_release}
use c11tester.Action.Rmw.{store_read}
use c11tester.Execution.Release.{Cache, acquires_and_releases, joined, by_fence, keep, uncached}

-- No vector at all counts as the empty one.
abbrev pub vector_of : Option ClockVector → ClockVector
vector_of none = record { clock = [] }
vector_of (some c) = c

module _ (actions : ℕ → ModelAction) where
  abbrev pub fence_cv : Option ℕ → Option ClockVector
  fence_cv none = none
  fence_cv (some fence) = (actions fence).cv

  -- What a store itself releases: its own vector, or that of the last release fence before it.
  abbrev pub released : ModelAction → Option ClockVector
  released act = if is_release act.order then act.cv else fence_cv act.last_fence_release

  -- A store that heads its release sequence: all but RMWs, and the RMWs that acquire and release.
  abbrev pub heads : ℕ → Bool
  heads a = not (is_rmw (actions a).type) || acquires_and_releases actions a

  -- The vector of the release sequence that a store belongs to: the head gives what it releases,
  -- and each RMW of the sequence joins what it releases to the vector of the store that it reads.
  pub data HbFrom : ℕ → Option ClockVector → Type 0 where
    head : (a : ℕ) → heads a ≡ true → HbFrom a (released (actions a))
    joins :
        (a b : ℕ) {vec : Option ClockVector}
        → heads a ≡ false
        → store_read (actions a).shared ≡ some b
        → HbFrom b vec
        → HbFrom a (some (merge (vector_of vec) (vector_of (released (actions a)))).0)

  -- A store whose action and last release fence have their vectors.
  pub record IsClocked (a : ℕ) : Type 0 where
    pub is_store : is_write (actions a).type ≡ true
    pub own : (c : ClockVector) × ((actions a).cv ≡ some c)
    pub fenced :
        (fence : ℕ)
        → (actions a).last_fence_release ≡ some fence
        → (c : ClockVector) × ((actions fence).cv ≡ some c)

  -- `n` RMWs lead from a store to the head of its release sequence.
  pub data Sequence : ℕ → ℕ → Type 0 where
    starts : (a : ℕ) → heads a ≡ true → IsClocked a → Sequence zero a
    follows :
        {n : ℕ} (a b : ℕ)
        → heads a ≡ false
        → store_read (actions a).shared ≡ some b
        → IsClocked a
        → Sequence n b
        → Sequence (suc n) a

  -- All that the cache holds is right.
  abbrev pub IsConsistent : Cache → Type 0
  IsConsistent rf_cv = (a : ℕ) (c : ClockVector) → rf_cv a ≡ some c → HbFrom a (some c)

module _ (actions : ℕ → ModelAction) where
  by_fence_lem :
      (vec : Option ClockVector) (a : ℕ)
      → IsClocked actions a
      → is_rmw (actions a).type ≡ true
      → is_release (actions a).order ≡ false
      → by_fence actions vec a (actions a).last_fence_release
        ≡ some (some (merge (vector_of vec) (vector_of (released actions (actions a)))).0)
  unfolding by_fence joined
  by_fence_lem none a k r w = elim (Option-cases (actions a).last_fence_release) [
    | inl e ↦ rw (e, w, r) (ground (arith, new_empty, merge-empty_right (record { clock = [] })))
    | inr (f, e) ↦
        let (c, q) = k.fenced f e in rw (e, w) (ground (arith, q, new_copy c, merge-empty_left c))
  ]
  by_fence_lem (some v) a k r w = elim (Option-cases (actions a).last_fence_release) [
    | inl e ↦ rw (e, w) (ground (arith, new_copy v, merge-empty_right v))
    | inr (f, e) ↦ let (c, q) = k.fenced f e in rw (e, w) (ground (arith, q, new_copy v))
  ]

  joined_lem :
      (vec : Option ClockVector) (c : ClockVector)
      → joined actions vec (some c) ≡ some (merge (vector_of vec) c).0
  unfolding joined
  joined_lem none c = ground (arith, new_empty)
  joined_lem (some v) c = ground (arith, new_copy v)

  heads-false :
      (a : ℕ)
      → heads actions a ≡ false
      → (is_rmw (actions a).type ≡ true) × (acquires_and_releases actions a ≡ false)
  heads-false a h = ground arith

  -- An RMW that does not acquire and release, after the store that it reads.
  pub uncached_joins :
      (rf_cv : Cache) (vec : Option ClockVector) (a : ℕ)
      → IsClocked actions a
      → heads actions a ≡ false
      → (let c = (merge (vector_of vec) (vector_of (released actions (actions a)))).0 in
          uncached actions rf_cv vec a ≡ some (some c, update rf_cv a (some c)))
  unfolding uncached keep joined
  uncached_joins rf_cv vec a k h = elim (Bool-cases (is_release (actions a).order)) [
    | inl w ↦ let (c, q) = k.own in rw (w, q) (ground (arith, heads-false a h, joined_lem vec c))
    | inr w ↦ rw (w, by_fence_lem vec a k (heads-false a h).0 w) (ground arith)
  ]
