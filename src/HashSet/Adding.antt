-- ===== src/HashSet/Adding.antt =====
-- Keys that come into a hash set of hashset.h.
use c11tester.Base.{
  ℕ, ◌^◌, ◌≤◌, ◌≡◌, ◌≢◌, ◌⊎◌, inl, inr, refl, sym, ap, subst, ◌∙◌, true, false, ◌==◌, none, some,
  update, List, [], ◌∷◌, ◌++◌, IsIn, IsIn-append, append_left-IsIn, append_right-IsIn, arith,
  Bool-cases,
}
use c11tester.HashTable.{HashTable}
use c11tester.HashTable.Refinement.{IsLoad, Models}
use c11tester.HashTable.Putting.{put-Models}
use c11tester.SnapList.{add_back, set_next}
use c11tester.SnapList.Chains.{last, values}
use c11tester.SnapList.Insertion.{add_back-val}
use c11tester.SnapList.Ends.{add_back-IsList}
use c11tester.HashSet.{HashSet, add}
use c11tester.HashSet.Members.{as_list, IsHashSet, values-IsIn, found, if_other, if_same}

module _ (scaled hash : ℕ → ℕ) (load : IsLoad scaled) where
  -- The set with a node more.
  abbrev larger : HashSet → HashTable → ℕ → ℕ → HashSet
  larger set table key newnode =
      let nodes = update set.nodes newnode (record { next = none; prev = set.tail; val = key }) in
      record {
        table = table;
        nodes = elim set.tail [ none ↦ nodes | some last ↦ set_next nodes last (some newnode) ];
        list = elim set.tail [ none ↦ some newnode | some last ↦ set.list ];
        tail = some newnode;
      }

  larger-IsHashSet :
      (set : HashSet) (xs : List ℕ) (h : IsHashSet scaled hash set xs) (key newnode : ℕ)
      → (IsIn newnode xs → ⊥)
      → newnode ≢ 0
      → (IsIn key (values set.nodes xs) → ⊥)
      → (table : HashTable) → Models scaled hash table (update h.find key (some newnode))
      → IsHashSet scaled hash (larger set table key newnode) (xs ++ newnode ∷ [])
  unfolding add_back
  larger-IsHashSet set xs h key newnode fresh n0 out table models =
      let l = as_list set xs in
      let back = add_back-IsList l xs newnode key h.listed fresh in
      let vals = add_back-val l newnode key in
      record {
        find = update h.find key (some newnode);
        models = models;
        listed = record {
          from_head = back.from_head;
          to_tail = back.to_tail;
          chain = back.chain;
          apart = back.apart;
          count = refl;
        };
        node_of = λ k p e. elim (Bool-cases (key == k)) [
          | inl same ↦
              let pn : p ≡ newnode = ground arith in
              rw pn (
                append_right-IsIn newnode xs (newnode ∷ []) (inl refl),
                ground (arith, vals newnode),
              )
          | inr other ↦
              let (i, v) = h.node_of k p (ground arith) in
              let ne : newnode ≢ p = λ e'. fresh (subst (λ q. IsIn q xs) (sym e') i) in
              (
                append_left-IsIn p xs (newnode ∷ []) i,
                vals p ∙ if_other newnode p key (set.nodes p).val ne ∙ v,
              )
        ];
        key_of = λ p i. elim (IsIn-append p xs (newnode ∷ []) i) [
          | inl j ↦
              let ne : newnode ≢ p = λ e'. fresh (subst (λ q. IsIn q xs) (sym e') j) in
              let k : key ≢ (set.nodes p).val = λ e'. out (
                subst (λ q. IsIn q (values set.nodes xs)) (sym e')
                  (values-IsIn set.nodes p xs j)) in
              ap (update h.find key (some newnode))
                (vals p ∙ if_other newnode p key (set.nodes p).val ne)
              ∙ if_other key (set.nodes p).val (some newnode) (h.find (set.nodes p).val) k
              ∙ h.key_of p j
          | inr j ↦ elim j [
            | inl e ↦ rw e (
                ap (update h.find key (some newnode))
                  (vals newnode ∙ if_same newnode key (set.nodes newnode).val)
                ∙ if_same key (some newnode) (h.find key))
            | inr j' ↦ absurd j'
          ]
        ];
        proper = λ p i. elim (IsIn-append p xs (newnode ∷ []) i) [
          | inl j ↦ h.proper p j
          | inr j ↦ elim j [ inl e ↦ λ z. n0 (sym e ∙ z) | inr j' ↦ absurd j' ]
        ];
      }

  values-larger :
      (set : HashSet) (table : HashTable) (key newnode : ℕ) (xs : List ℕ)
      → (IsIn newnode xs → ⊥)
      → values (larger set table key newnode).nodes (xs ++ newnode ∷ [])
        ≡ values set.nodes xs ++ key ∷ []
  unfolding add_back
  values-larger set table key newnode [] fresh = λ i.
      (add_back-val (as_list set []) newnode key newnode
          ∙ if_same newnode key (set.nodes newnode).val)
        i
      ∷ []
  values-larger set table key newnode (x ∷ xs) fresh = λ i.
      (add_back-val (as_list set []) newnode key x
          ∙ if_other newnode x key (set.nodes x).val (λ e. fresh (inl e)))
        i
      ∷ values-larger set table key newnode xs (λ j. fresh (inr j)) i

  -- `add` of a key that is in the set changes nothing; any other key it puts behind the others, and
  -- says so. The table has at most 2 ^ 30 bins, and the node is new.
  pub add-IsHashSet :
      (set : HashSet) (xs : List ℕ) (h : IsHashSet scaled hash set xs) (key newnode : ℕ)
      → (IsIn newnode xs → ⊥)
      → newnode ≢ 0
      → set.table.capacity ≤ 2 ^ 30
      → (IsIn key (values set.nodes xs) × (add scaled hash set key newnode ≡ some (false, set)))
        ⊎ ((IsIn key (values set.nodes xs) → ⊥)
            × ((set' : HashSet) × (add scaled hash set key newnode ≡ some (true, set'))
                × IsHashSet scaled hash set' (xs ++ newnode ∷ [])
                × (values set'.nodes (xs ++ newnode ∷ []) ≡ values set.nodes xs ++ key ∷ [])))
  unfolding add
  add-IsHashSet set xs h key newnode fresh n0 small = elim (found scaled hash load set xs h key) [
    | inl (p, run, e, ne, i, k) ↦ inl (
      subst (λ x. IsIn x (values set.nodes xs)) k (values-IsIn set.nodes p xs i),
      rw (run, ne, add) refl,
    )
    | inr (run, e, out) ↦
        let (table, put, models) = put-Models scaled hash load h.models key newnode small in
        inr (
          out,
          (
            larger set table key newnode,
            rw (run, put, add) refl,
            larger-IsHashSet set xs h key newnode fresh n0 out table models,
            values-larger set table key newnode xs fresh,
          ),
        )
  ]
