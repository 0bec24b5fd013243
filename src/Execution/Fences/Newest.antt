-- ===== src/Execution/Fences/Newest.antt =====
-- The last fence that is sequentially consistent (execution.cc, `get_last_seq_cst_fence`).
use c11tester.Base.{
  ℕ, ◌≡◌, inl, inr, refl, ap, Bool, true, false, ◌==◌, Option, none, some, List, [], ◌∷◌, ◌++◌, All,
  arith, Bool-cases, Option-cases,
}
use c11tester.Execution.State.{Execution}
use c11tester.Execution.Fences.{
  fence_location, behind, newest, is_fence_of, from_fence, get_last_seq_cst_fence,
}

-- The first element that passes a test, with none before it.
pub newest_inv :
    (test : ℕ → Bool) (list : List ℕ) (a : ℕ)
    → newest test list ≡ some a
    → (newer : List ℕ) × (older : List ℕ) × (list ≡ newer ++ a ∷ older)
      × (test a ≡ true)
      × All (λ b. test b ≡ false) newer
unfolding newest
newest_inv test [] a h = cc
newest_inv test (x ∷ list) a h = elim (Bool-cases (test x)) [
  | inl hit ↦ let same : x ≡ a = ground arith in ([], list, rw same refl, rw (← same) hit, tt)
  | inr miss ↦
      let (newer, older, split, hit, all) = newest_inv test list a (ground arith) in
      (x ∷ newer, older, ap (λ r. x ∷ r) split, hit, (miss, all))
]

pub newest-none :
    (test : ℕ → Bool) (list : List ℕ) → newest test list ≡ none → All (λ b. test b ≡ false) list
unfolding newest
newest-none test [] h = tt
newest-none test (x ∷ list) h = elim (Bool-cases (test x)) [
  | inl hit ↦ absurd (ground arith)
  | inr miss ↦ (miss, newest-none test list (ground arith))
]

behind_newest :
    (test : ℕ → Bool) (list : List ℕ) (a : ℕ)
    → newest test list ≡ some a
    → (rest : List ℕ) × (behind a list ≡ some rest)
unfolding newest behind
behind_newest test [] a h = cc
behind_newest test (x ∷ list) a h = elim (Bool-cases (x == a)) [
  | inl same ↦ (list, ground arith)
  | inr other ↦ let (rest, p) = behind_newest test list a (ground arith) in (rest, ground arith)
]

-- Without a fence to begin at, the search does not fail; beginning at the fence that it found for
-- any thread, it does not fail for any other thread.
pub get_last_seq_cst_fence_total :
    (e : Execution) (tid : ℕ)
    → (local : Option ℕ) × (get_last_seq_cst_fence e tid none ≡ some local)
      × ((t fence : ℕ)
          → local ≡ some fence
          → (r : Option ℕ) × (get_last_seq_cst_fence e t (some fence) ≡ some r))
unfolding get_last_seq_cst_fence from_fence
get_last_seq_cst_fence_total e tid = elim (Option-cases (e.obj_map fence_location)) [
  | inl empty ↦ (none, ground arith, λ t fence h. cc)
  | inr (list, p) ↦ (
    newest (is_fence_of e tid) list,
    ground arith,
    λ t fence h.
        let (rest, q) = behind_newest (is_fence_of e tid) list fence h in
        (newest (is_fence_of e t) rest, ground arith),
  )
]
