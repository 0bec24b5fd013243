-- ===== src/Execution/Candidates/Coherence.antt =====
-- Which writes `build_may_read_from` (execution.cc) finds.
use c11tester.Base.{
  ℕ, ◌≡◌, ◌≢◌, ◌↔◌, ◌⊎◌, inl, inr, refl, sym, ap, subst, Bool, true, false, ◌==◌, if◌then◌else◌,
  Option, some, List, [], ◌∷◌, ◌++◌, All, IsIn, IsIn-append, append_left-IsIn, append_right-IsIn,
  arith, Bool-cases, Option-cases,
}
use c11tester.Execution.State.{Execution, before}
use c11tester.Execution.Candidates.{allow_read, scan_writes, scan_threads}

module _ (e : Execution) (curr : ℕ) where
  -- The walk goes on behind `b`: it is the read itself, or does not happen before it.
  abbrev pub IsPassed : ℕ → Type 0
  IsPassed b = ((b == curr) ≡ true) ⊎ (before e b curr ≡ some false)

  -- A write of the list that is allowed, with no newer one that happens before the read.
  pub record Visible (last_sc_write : Option ℕ) (list : List ℕ) (act : ℕ) : Type 0 where
    pub newer : List ℕ
    pub older : List ℕ
    pub split : list ≡ newer ++ act ∷ older
    pub other : (act == curr) ≡ false
    pub allowed : allow_read e curr last_sc_write act ≡ some true
    pub passed : All IsPassed newer

  later-Visible :
      {l : Option ℕ} {list : List ℕ} {a : ℕ} (x : ℕ)
      → IsPassed x
      → Visible l list a
      → Visible l (x ∷ list) a
  later-Visible x p v = record {
    newer = x ∷ v.newer;
    older = v.older;
    split = ap (λ r. x ∷ r) v.split;
    other = v.other;
    allowed = v.allowed;
    passed = (p, v.passed);
  }

  -- The head of the list, or a later one.
  abbrev HeadOrLater : Option ℕ → List ℕ → ℕ → ℕ → Type 0
  HeadOrLater l list a x =
      ((a ≡ x) × ((x == curr) ≡ false) × (allow_read e curr l x ≡ some true))
      ⊎ (IsPassed x × Visible l list a)

  head_or_later :
      (l : Option ℕ) (list : List ℕ) (a x : ℕ) (newer older : List ℕ)
      → x ∷ list ≡ newer ++ a ∷ older
      → (a == curr) ≡ false
      → allow_read e curr l a ≡ some true
      → All IsPassed newer
      → HeadOrLater l list a x
  head_or_later l list a x [] older s o w p =
      let same : a ≡ x = cc in inl (same, rw (← same) o, rw (← same) w)
  head_or_later l list a x (n ∷ newer) older s o w p =
      let same : n ≡ x = cc in
      let split : list ≡ newer ++ a ∷ older = cc in
      inr (
        rw (← same) p.0,
        record {
          newer = newer;
          older = older;
          split = split;
          other = o;
          allowed = w;
          passed = p.1;
        },
      )

  head-Visible :
      (l : Option ℕ) (list : List ℕ) (x : ℕ)
      → (x == curr) ≡ false
      → allow_read e curr l x ≡ some true
      → Visible l (x ∷ list) x
  head-Visible l list x o w = record {
    newer = [];
    older = list;
    split = refl;
    other = o;
    allowed = w;
    passed = tt;
  }

  -- What is found behind the head.
  abbrev Behind : Option ℕ → ℕ → List ℕ → List ℕ → Type 0
  Behind l x list rest =
      (stop : Bool) × (before e x curr ≡ some stop)
      × ((if stop then some [] else scan_writes e curr l list) ≡ some rest)

  -- One step of the walk: what is found is the head, if it is allowed, and what is found behind.
  scan_cons :
      (l : Option ℕ) (x : ℕ) (list found : List ℕ)
      → scan_writes e curr l (x ∷ list) ≡ some found
      → ((x == curr) ≡ true) × (scan_writes e curr l list ≡ some found)
        ⊎ ((x == curr) ≡ false)
          × ((w : Bool) × (rest : List ℕ) × (allow_read e curr l x ≡ some w)
              × Behind l x list rest
              × (found ≡ (if w then x ∷ rest else rest)))
  unfolding scan_writes
  scan_cons l x list found h = elim (Bool-cases (x == curr)) [
    | inl same ↦ inl (same, ground arith)
    | inr other ↦ elim (Option-cases (allow_read e curr l x)) [
      | inl fault ↦ absurd (ground arith)
      | inr (w, allowed) ↦ elim (Option-cases (before e x curr)) [
        | inl null ↦ absurd (ground arith)
        | inr (stop, b) ↦
            elim (Option-cases (if stop then some [] else scan_writes e curr l list)) [
              | inl fault ↦ absurd (ground arith)
              | inr (rest, older) ↦ inr (other, (w, rest, allowed, (stop, b, older), ground arith))
            ]
      ]
    ]
  ]

  Behind-cases :
      (l : Option ℕ) (x : ℕ) (list rest : List ℕ)
      → (x == curr) ≡ false
      → Behind l x list rest
      → ((before e x curr ≡ some true) × (rest ≡ []))
        ⊎ ((before e x curr ≡ some false) × (scan_writes e curr l list ≡ some rest))
  Behind-cases l x list rest o (true, b, h) = inl (b, cc)
  Behind-cases l x list rest o (false, b, h) = inr (b, h)

  -- From what holds of the older writes.
  tail_sound :
      (l : Option ℕ) (x : ℕ) (list : List ℕ) (a : ℕ)
      → ((rest : List ℕ) → scan_writes e curr l list ≡ some rest → IsIn a rest → Visible l list a)
      → (rest : List ℕ) → (x == curr) ≡ false
      → Behind l x list rest
      → IsIn a rest
      → Visible l (x ∷ list) a
  tail_sound l x list a ih rest other older m = elim (Behind-cases l x list rest other older) [
    | inl (b, nil) ↦ absurd (subst (IsIn a) nil m)
    | inr (b, go) ↦ later-Visible x (inr b) (ih rest go m)
  ]

  Behind-sound :
      (l : Option ℕ) (x : ℕ) (list : List ℕ) (a : ℕ)
      → ((rest : List ℕ) → scan_writes e curr l list ≡ some rest → IsIn a rest → Visible l list a)
      → (w : Bool) (rest : List ℕ) → (x == curr) ≡ false
      → allow_read e curr l x ≡ some w
      → Behind l x list rest
      → IsIn a (if w then x ∷ rest else rest)
      → Visible l (x ∷ list) a
  Behind-sound l x list a ih true rest other allowed older (inl eq) =
      subst (Visible l (x ∷ list)) (sym eq) (head-Visible l list x other allowed)
  Behind-sound l x list a ih true rest other allowed older (inr m) =
      tail_sound l x list a ih rest other older m
  Behind-sound l x list a ih false rest other allowed older m =
      tail_sound l x list a ih rest other older m

  scan_writes_sound :
      (l : Option ℕ) (list found : List ℕ) (a : ℕ)
      → scan_writes e curr l list ≡ some found
      → IsIn a found
      → Visible l list a
  unfolding scan_writes
  scan_writes_sound l [] found a h m = let nil : found ≡ [] = cc in absurd (subst (IsIn a) nil m)
  scan_writes_sound l (x ∷ list) found a h m = elim (scan_cons l x list found h) [
    | inl (same, go) ↦ later-Visible x (inl same) (scan_writes_sound l list found a go m)
    | inr (other, (w, rest, allowed, older, eq)) ↦
        Behind-sound l x list a (λ rest' go m'. scan_writes_sound l list rest' a go m') w rest other
          allowed older (subst (IsIn a) eq m)
  ]

  no_split : (a : ℕ) (newer older : List ℕ) → [] ≢ newer ++ a ∷ older
  no_split a [] older h = cc
  no_split a (x ∷ newer) older h = cc

  complete_cons :
      (l : Option ℕ) (x : ℕ) (list found : List ℕ) (a : ℕ)
      → ((rest : List ℕ) → scan_writes e curr l list ≡ some rest → Visible l list a → IsIn a rest)
      → scan_writes e curr l (x ∷ list) ≡ some found
      → HeadOrLater l list a x
      → IsIn a found
  complete_cons l x list found a ih h v = elim (scan_cons l x list found h) [
    | inl (same, go) ↦ elim v [
      | inl (eq, other, allowed) ↦ absurd (ground arith)
      | inr (p, v') ↦ ih found go v'
    ]
    | inr (other, (w, rest, allowed, older, eq)) ↦ elim v [
      | inl (same, other', allowed') ↦
          let holds : w ≡ true = cc in subst (IsIn a) (sym eq) (rw holds (inl same))
      | inr (p, v') ↦ subst (IsIn a) (sym eq) (
          in_rest w rest (elim (Behind-cases l x list rest other older) [
            | inl (b, nil) ↦ absurd (ground arith)
            | inr (b, go) ↦ ih rest go v'
          ]))
    ]
  ]
    where
      in_rest : (w : Bool) (rest : List ℕ) → IsIn a rest → IsIn a (if w then x ∷ rest else rest)
      in_rest true rest m = inr m
      in_rest false rest m = m

  scan_writes_complete :
      (l : Option ℕ) (list found : List ℕ) (a : ℕ)
      → scan_writes e curr l list ≡ some found
      → Visible l list a
      → IsIn a found
  scan_writes_complete l [] found a h v = absurd (no_split a v.newer v.older v.split)
  scan_writes_complete l (x ∷ list) found a h v =
      complete_cons l x list found a (λ rest go v'. scan_writes_complete l list rest a go v') h
        (head_or_later l list a x v.newer v.older v.split v.other v.allowed v.passed)

  -- A write that a list of one of the threads makes visible.
  abbrev pub SomeVisible : Option ℕ → List (List ℕ) → ℕ → Type 0
  SomeVisible l [] a = ⊥
  SomeVisible l (list ∷ lists) a = Visible l list a ⊎ SomeVisible l lists a

  scan_threads_inv :
      (l : Option ℕ) (list : List ℕ) (lists : List (List ℕ)) (rf_set : List ℕ)
      → scan_threads e curr l (list ∷ lists) ≡ some rf_set
      → (found : List ℕ) × (others : List ℕ) × (scan_writes e curr l list ≡ some found)
        × (scan_threads e curr l lists ≡ some others)
        × (rf_set ≡ found ++ others)
  unfolding scan_threads
  scan_threads_inv l list lists rf_set h = elim (Option-cases (scan_writes e curr l list)) [
    | inl fault ↦ absurd (ground arith)
    | inr (found, p) ↦ elim (Option-cases (scan_threads e curr l lists)) [
      | inl fault ↦ absurd (ground arith)
      | inr (others, q) ↦ (found, others, p, q, ground arith)
    ]
  ]

  -- If the candidates are found, a write is one of them exactly if it stands in the list of some
  -- thread, is not the read itself, may be read by a read of its kind, and no newer write of that
  -- list happens before the read.
  pub scan_threads_iff :
      (l : Option ℕ) (lists : List (List ℕ)) (rf_set : List ℕ) (a : ℕ)
      → scan_threads e curr l lists ≡ some rf_set
      → IsIn a rf_set ↔ SomeVisible l lists a
  unfolding scan_threads
  scan_threads_iff l [] rf_set a h =
      let nil : rf_set ≡ [] = cc in (λ m. subst (IsIn a) nil m, λ v. absurd v)
  scan_threads_iff l (list ∷ lists) rf_set a h =
      let (found, others, p, q, eq) = scan_threads_inv l list lists rf_set h in
      let rest = scan_threads_iff l lists others a q in
      (
        λ m. elim (IsIn-append a found others (subst (IsIn a) eq m)) [
          | inl here ↦ inl (scan_writes_sound l list found a p here)
          | inr there ↦ inr (rest.0 there)
        ],
        λ v. subst (IsIn a) (sym eq) (elim v [
          | inl here ↦ append_left-IsIn a found others (scan_writes_complete l list found a p here)
          | inr there ↦ append_right-IsIn a found others (rest.1 there)
        ]),
      )
