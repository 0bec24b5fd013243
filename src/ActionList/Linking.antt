-- ===== src/ActionList/Linking.antt =====
-- The links that `addAction` of actionlist.cc sets around a new node.
use c11tester.Base.{
  ℕ, ◌≡◌, ◌≢◌, inl, refl, sym, ap, fun_ext, Option, none, some, List, [], ◌∷◌, ◌++◌, arith, update,
}
use c11tester.SnapList.{SllNode, SnapList, set_next, set_prev, more, insert_after}
use c11tester.SnapList.Chains.{IsList, Chain-append, IsApart-append}
use c11tester.ActionList.{link_after}

-- The order of two assignments does not matter, where they are to two nodes.
tell : (ℕ → SllNode) → Option ℕ → ℕ → ℕ → SllNode
tell nodes o tmp = elim o [ none ↦ nodes | some after ↦ set_prev nodes after (some tmp) ]

tell-set_next :
    (nodes : ℕ → SllNode) (o : Option ℕ) (n tmp : ℕ)
    → o ≢ some n
    → (j : ℕ)
    → set_next (tell nodes o tmp) n (some tmp) j ≡ tell (set_next nodes n (some tmp)) o tmp j
unfolding tell
tell-set_next nodes none n tmp ne j = refl
tell-set_next nodes (some y) n tmp ne j = let yn : y ≢ n = λ e. ne (ap some e) in ground arith

pub link_after-eq :
    (l : SnapList) (n tmp val : ℕ)
    → (l.nodes n).next ≢ some n
    → link_after l n tmp val ≡ insert_after l n tmp val
unfolding link_after insert_after tell
link_after-eq l n tmp val ne =
    let next = (l.nodes n).next in
    let nodes = update l.nodes tmp (record { next = next; prev = some n; val = val }) in
    let list : (ℕ → SllNode) → SnapList = λ f. record {
      nodes = f;
      head = l.head;
      tail = elim next [ none ↦ some tmp | some after ↦ l.tail ];
      size = more l.size;
    } in
    ap list (fun_ext (tell-set_next nodes next n tmp ne))

-- No node comes after itself.
pub not_itself :
    (l : SnapList) (xs : List ℕ) (n : ℕ) (ys : List ℕ)
    → IsList l (xs ++ n ∷ ys)
    → (l.nodes n).next ≢ some n
not_itself l xs n [] h e =
    let c = ((Chain-append l.nodes none xs (n ∷ []) none).0 h.chain).1 in
    absurd (ground (arith, c.1))
not_itself l xs n (y ∷ ys) h e =
    let c = ((Chain-append l.nodes none xs (n ∷ y ∷ ys) none).0 h.chain).1 in
    let a = ((IsApart-append xs (n ∷ y ∷ ys)).0 h.apart).1.0 in
    let yn : y ≡ n = ground (arith, c.1) in a (inl (sym yn))
