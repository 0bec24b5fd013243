-- ===== src/Execution/Release.antt =====
-- What happens before a read from a store: the release sequences (execution.cc,
-- `get_hb_from_write`). The vectors that were found are kept in `rf_cv`; the loop along the RMWs of
-- a sequence has fuel.
pub mod Correct
pub mod Sequence
use c11tester.Base.{
  ℕ, zero, suc, Bool, true, false, not, ◌&&◌, ◌||◌, if◌then◌else◌, Option, none, some, List, [],
  ◌∷◌, update,
}
use c11tester.ClockVector.{ClockVector, merge}
use c11tester.ClockVector
use c11tester.Action.{ModelAction}
use c11tester.Action.Kinds.{is_write, is_rmw, is_acquire, is_release}
use c11tester.Action.Rmw.{store_read}
use c11tester.Execution.State.{M}

-- `rf_cv` of each action.
abbrev pub Cache : Type 0
Cache = ℕ → Option ClockVector

unfoldable pub has_vector : Option ClockVector → Bool
has_vector none = false
has_vector (some c) = true

module _ (actions : ℕ → ModelAction) where
  abbrev pub acquires_and_releases : ℕ → Bool
  acquires_and_releases a = is_acquire (actions a).order && is_release (actions a).order

  -- The test that ends the first loop.
  unfoldable pub stops : Cache → ℕ → Bool
  unfolding has_vector
  stops rf_cv a = not (is_rmw (actions a).type) || acquires_and_releases a || has_vector (rf_cv a)

  -- The first loop: `processset` with its back at the front, and the store where it stops.
  -- `none` is a failed assertion, a null pointer, or fuel that is out.
  unfoldable pub collect : ℕ → Cache → List ℕ → ℕ → Option (List ℕ × ℕ)
  unfolding stops
  collect zero rf_cv processset rf = none
  collect (suc fuel) rf_cv processset rf =
      if not (is_write (actions rf).type) then none else elim (stops rf_cv rf) [
        | true ↦ some (processset, rf)
        | false ↦ elim (store_read (actions rf).shared) [
          | none ↦ none
          | some next ↦ collect fuel rf_cv (rf ∷ processset) next
        ]
      ]

  -- `(vec = new ClockVector(vec, NULL))->merge(cv)`
  pub joined : Option ClockVector → Option ClockVector → Option ClockVector
  joined vec none = none
  joined vec (some cv) = some (merge (ClockVector.new vec none) cv).0

  -- A store that is no release: what its thread's last release fence gives it.
  unfoldable pub by_fence : Option ClockVector → ℕ → Option ℕ → Option (Option ClockVector)
  unfolding joined
  by_fence none a (some fence) = some (some (ClockVector.new (actions fence).cv none))
  by_fence (some vec) a (some fence) = elim (joined (some vec) (actions fence).cv) [
    | none ↦ none
    | some c ↦ some (some c)
  ]
  by_fence none a none =
      some (if is_rmw (actions a).type then some (ClockVector.new none none) else none)
  by_fence (some vec) a none = some (some (ClockVector.new (some vec) none))

  -- `rf->set_rfcv(vec)`
  unfoldable pub keep :
      Cache → ℕ → Option (Option ClockVector) → Option (Option ClockVector × Cache)
  keep rf_cv a none = none
  keep rf_cv a (some vec) = some (vec, update rf_cv a vec)

  -- A store without a vector in the cache.
  unfoldable pub uncached : Cache → Option ClockVector → ℕ → Option (Option ClockVector × Cache)
  unfolding joined by_fence keep
  uncached rf_cv vec a =
      if acquires_and_releases a
      then some ((actions a).cv, rf_cv)
      else if is_release (actions a).order && not (is_rmw (actions a).type)
      then some ((actions a).cv, rf_cv)
      else if is_release (actions a).order
      then elim (joined vec (actions a).cv) [ none ↦ none | some c ↦ keep rf_cv a (some (some c)) ]
      else keep rf_cv a (by_fence vec a (actions a).last_fence_release)

  -- One round of the second loop.
  unfoldable pub round : Cache → Option ClockVector → ℕ → Option (Option ClockVector × Cache)
  unfolding uncached
  round rf_cv vec a = elim (rf_cv a) [ some c ↦ some (some c, rf_cv) | none ↦ uncached rf_cv vec a ]

  unfoldable pub rounds : Cache → Option ClockVector → List ℕ → Option (Option ClockVector × Cache)
  unfolding round
  rounds rf_cv vec [] = some (vec, rf_cv)
  rounds rf_cv vec (a ∷ processset) = elim (round rf_cv vec a) [
    | none ↦ none
    | some (vec', rf_cv') ↦ rounds rf_cv' vec' processset
  ]

  unfoldable pub hb_from_write : ℕ → Cache → ℕ → Option (Option ClockVector × Cache)
  unfolding collect rounds
  hb_from_write fuel rf_cv rf = elim (collect fuel rf_cv [] rf) [
    | none ↦ none
    | some (processset, last) ↦ rounds rf_cv none (last ∷ processset)
  ]

-- On the execution: there are fewer RMWs in a sequence than actions were made.
unfoldable pub get_hb_from_write : ℕ → M (Option ClockVector)
unfolding hb_from_write
get_hb_from_write rf e = elim (hb_from_write e.actions (suc e.made) e.rf_cv rf) [
  | none ↦ none
  | some (vec, rf_cv) ↦ some (vec, record e { rf_cv = rf_cv })
]
