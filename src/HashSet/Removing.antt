-- ===== src/HashSet/Removing.antt =====
-- Keys that leave a hash set of hashset.h.
use c11tester.Base.{
  ℕ, ◌≡◌, ◌≢◌, ◌⊎◌, inl, inr, refl, sym, ap, subst, ◌∙◌, true, false, ◌==◌, if◌then◌else◌, Option,
  none, some, update, List, ◌∷◌, ◌++◌, IsIn, IsIn-append, append_left-IsIn, append_right-IsIn,
  arith, Bool-cases,
}
use c11tester.HashTable.{HashTable}
use c11tester.HashTable.Refinement.{IsLoad, Models}
use c11tester.HashTable.Removing.{remove-Models}
use c11tester.SnapList.{SllNode}
use c11tester.SnapList.Chains.{IsList, values, Chain-append, IsApart-append}
use c11tester.SnapList.Erasure.{skip_next, skip_prev, head_end, tail_end, without-IsList}
use c11tester.HashSet.{HashSet, remove, unlink, unlink_links}
use c11tester.HashSet.Members.{as_list, IsHashSet, split_in, found, if_other}

some_inj : (q p : ℕ) → some q ≡ some p → q ≡ p
some_inj q p e = ground arith

if_off : {A : Type 0} (a b : ℕ) (x y : A) → (a == b) ≡ false → (if a == b then x else y) ≡ y
if_off a b x y e = rw e refl

-- The members of a list with and without one node of it.
kept_in : (q p : ℕ) (pre post : List ℕ) → IsIn q (pre ++ p ∷ post) → q ≢ p → IsIn q (pre ++ post)
kept_in q p pre post i ne = elim (IsIn-append q pre (p ∷ post) i) [
  | inl j ↦ append_left-IsIn q pre post j
  | inr j ↦ elim j [ inl e ↦ absurd (ne e) | inr j' ↦ append_right-IsIn q pre post j' ]
]

others_in :
    (q p : ℕ) (pre post : List ℕ)
    → ((a : ℕ) → IsIn a pre → IsIn a (p ∷ post) → ⊥)
    → (IsIn p post → ⊥)
    → IsIn q (pre ++ post)
    → IsIn q (pre ++ p ∷ post) × (q ≢ p)
others_in q p pre post far out i = elim (IsIn-append q pre post i) [
  | inl j ↦ (append_left-IsIn q pre (p ∷ post) j, λ e. far q j (inl e))
  | inr j ↦ (append_right-IsIn q pre (p ∷ post) (inr j), λ e. out (subst (λ r. IsIn r post) e j))
]

unlink_skips :
    (nodes : ℕ → SllNode) (next prev : Option ℕ)
    → unlink_links nodes next prev ≡ skip_prev (skip_next nodes prev next) next prev
unfolding unlink_links
unlink_skips nodes none none = refl
unlink_skips nodes none (some p) = refl
unlink_skips nodes (some n) none = refl
unlink_skips nodes (some n) (some p) = refl

module _ (scaled hash : ℕ → ℕ) (load : IsLoad scaled) where
  -- What the list is once a node is unlinked.
  unlink-nodes :
      (set : HashSet) (table : HashTable) (pre post : List ℕ) (p : ℕ)
      → IsList (as_list set (pre ++ p ∷ post)) (pre ++ p ∷ post)
      → IsList (as_list (unlink set table p) (pre ++ post)) (pre ++ post)
        × ((x : ℕ) → ((unlink set table p).nodes x).val ≡ (set.nodes x).val)
  unfolding unlink unlink_links
  unlink-nodes set table pre post p h =
      let parts = (Chain-append set.nodes none pre (p ∷ post) none).0 h.chain in
      without-IsList (as_list set (pre ++ p ∷ post)) pre post p h
        (as_list (unlink set table p) (pre ++ post))
        (unlink_skips set.nodes (set.nodes p).next (set.nodes p).prev ∙ (λ i.
          skip_prev (skip_next set.nodes (parts.1.0 i) (parts.1.1 i)) (parts.1.1 i) (parts.1.0 i)))
        (elim (head_end (as_list set (pre ++ p ∷ post)) pre post p h) [
          | inl (e, f, g) ↦ let prev = parts.1.0 ∙ e in rw prev (parts.1.1 ∙ g)
          | inr (x, e, f, t) ↦ let prev = parts.1.0 ∙ e in rw prev t
        ])
        (elim (tail_end (as_list set (pre ++ p ∷ post)) pre post p h) [
          | inl (e, f, g) ↦ let next = parts.1.1 ∙ e in rw next (parts.1.0 ∙ g)
          | inr (y, e, f, t) ↦ let next = parts.1.1 ∙ e in rw next t
        ])
        refl

  unlink-table : (set : HashSet) (table : HashTable) (p : ℕ) → (unlink set table p).table ≡ table
  unfolding unlink
  unlink-table set table p = refl

  unlink-IsHashSet :
      (set : HashSet) (xs pre post : List ℕ) (p key : ℕ) (h : IsHashSet scaled hash set xs)
      → xs ≡ pre ++ p ∷ post
      → (set.nodes p).val ≡ key
      → (table : HashTable) → Models scaled hash table (update h.find key none)
      → IsHashSet scaled hash (unlink set table p) (pre ++ post)
        × ((x : ℕ) → ((unlink set table p).nodes x).val ≡ (set.nodes x).val)
  unlink-IsHashSet set xs pre post p key h split k table models =
      let listed = subst (λ zs. IsList (as_list set zs) zs) split h.listed in
      let (list, vals) = unlink-nodes set table pre post p listed in
      let a = (IsApart-append pre (p ∷ post)).0 listed.apart in
      let into : (q : ℕ) → IsIn q (pre ++ p ∷ post) → IsIn q xs =
        λ q i. subst (λ zs. IsIn q zs) (sym split) i in
      let find_p : h.find key ≡ some p =
        ap h.find (sym k) ∙ h.key_of p (into p (append_right-IsIn p pre (p ∷ post) (inl refl))) in
      (
        record {
          find = update h.find key none;
          models =
              subst (λ t. Models scaled hash t (update h.find key none))
                (sym (unlink-table set table p)) models;
          listed = list;
          node_of = λ c q e. elim (Bool-cases (key == c)) [
            | inl same ↦ absurd (ground arith)
            | inr other ↦
                let e' : h.find c ≡ some q = sym (if_off key c none (h.find c) other) ∙ e in
                let (j, v) = h.node_of c q e' in
                let ne : q ≢ p = λ qp.
                  let kc : key ≡ c = sym k ∙ ap (λ r. (set.nodes r).val) (sym qp) ∙ v in
                  absurd (ground arith) in
                (kept_in q p pre post (subst (λ zs. IsIn q zs) split j) ne, vals q ∙ v)
          ];
          key_of = λ q i.
              let (j, ne) = others_in q p pre post a.2 a.1.0 i in
              let here = h.key_of q (into q j) in
              let other : key ≢ (set.nodes q).val = λ e.
                let both : some q ≡ some p = sym here ∙ ap h.find (sym e) ∙ find_p in
                ne (some_inj q p both) in
              ap (update h.find key none) (vals q)
              ∙ if_other key (set.nodes q).val none (h.find (set.nodes q).val) other
              ∙ here;
          proper = λ q i. h.proper q (into q (others_in q p pre post a.2 a.1.0 i).0);
        },
        vals,
      )

  -- `remove` of a key that is not in the set changes nothing; otherwise the node of the key leaves
  -- the list, and all others keep their keys.
  pub remove-IsHashSet :
      (set : HashSet) (xs : List ℕ) (h : IsHashSet scaled hash set xs) (key : ℕ)
      → ((IsIn key (values set.nodes xs) → ⊥) × (remove hash set key ≡ some (false, set)))
        ⊎ ((pre : List ℕ) × (p : ℕ) × (post : List ℕ) × (xs ≡ pre ++ p ∷ post)
            × ((set.nodes p).val ≡ key)
            × ((set' : HashSet) × (remove hash set key ≡ some (true, set'))
                × IsHashSet scaled hash set' (pre ++ post)
                × ((x : ℕ) → (set'.nodes x).val ≡ (set.nodes x).val)))
  unfolding remove
  remove-IsHashSet set xs h key = elim (found scaled hash load set xs h key) [
    | inr (run, e, out) ↦ inl (out, rw (run, remove) refl)
    | inl (p, run, e, ne, i, k) ↦
        let (pre, post, split) = split_in p xs i in
        let (table, gone, models) = remove-Models scaled hash load h.models key in
        let done = unlink-IsHashSet set xs pre post p key h split k table models in
        inr (
          pre,
          p,
          post,
          split,
          k,
          (unlink set table p, rw (run, ne, gone, remove) refl, done.0, done.1),
        )
  ]
