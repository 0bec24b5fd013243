-- ===== src/Execution/Candidates.antt =====
-- The writes that a read may read from (execution.cc, `build_may_read_from`). The list of writes of
-- a thread at a location has the newest one first.
pub mod Coherence
pub mod Found
use c11tester.Base.{
  ℕ, ◌%◌, ◌^◌, Bool, true, false, not, ◌&&◌, ◌||◌, ◌==◌, if◌then◌else◌, Option, none, some, List,
  [], ◌∷◌, ◌++◌,
}
use c11tester.Action.{Shared, reads_from, size, time}
use c11tester.Action.Kinds.{is_read, is_seqcst, is_rmwr, is_rmwrcas}
use c11tester.Execution.State.{Execution, before}
use c11tester.Execution.Fences.{get_last_seq_cst_write}

-- `none` is a failed assertion.
pub valequals : ℕ → ℕ → ℕ → Option Bool
valequals val1 val2 bytes =
    if bytes == 1
    then some (val1 % 2 ^ 8 == val2 % 2 ^ 8)
    else if bytes == 2
    then some (val1 % 2 ^ 16 == val2 % 2 ^ 16)
    else if bytes == 4
    then some (val1 % 2 ^ 32 == val2 % 2 ^ 32)
    else if bytes == 8
    then some (val1 == val2)
    else none

-- `getSize()`, from the union that holds the size until the action reads.
get_size : Shared → Option ℕ
get_size (reads_from act) = none
get_size (size bytes) = some bytes
get_size (time t) = none

-- `act != p`
differs : ℕ → Option ℕ → Bool
differs act none = true
differs act (some p) = not (act == p)

-- `p != NULL && act->happens_before(p)`
before_opt : Execution → ℕ → Option ℕ → Option Bool
before_opt e act none = some false
before_opt e act (some p) = before e act p

module _ (e : Execution) (curr : ℕ) where
  -- A read that is sequentially consistent passes over other such writes than the last one, and
  -- over what happens before that one.
  unfoldable pub sc_forbids : Option ℕ → ℕ → Option Bool
  unfolding differs before_opt
  sc_forbids last_sc_write act =
      if not (is_seqcst (e.actions curr).order)
      then some false
      else if is_seqcst (e.actions act).order
      then some (differs act last_sc_write)
      else elim (before_opt e act last_sc_write) [
        | none ↦ none
        | some earlier ↦ some (earlier && differs act last_sc_write)
      ]

  pub read_by_rmw : ℕ → Bool
  read_by_rmw act =
      e.mo_graph.present act
      && elim ((e.mo_graph.node act).has_rmw) [ none ↦ false | some rmw ↦ true ]

  -- Whether the write may be what the first half of an RMW reads; a CAS that fails may read any.
  unfoldable pub rmw_forbids : ℕ → Option Bool
  unfolding read_by_rmw valequals get_size
  rmw_forbids act =
      let c = e.actions curr in
      if not (is_rmwr c.type)
      then some false
      else if not (is_rmwrcas c.type)
      then some (read_by_rmw act)
      else elim (get_size c.shared) [
        | none ↦ none
        | some bytes ↦ elim (valequals c.value (e.actions act).value bytes) [
          | none ↦ none
          | some same ↦ some (same && read_by_rmw act)
        ]
      ]

  unfoldable pub allow_read : Option ℕ → ℕ → Option Bool
  unfolding sc_forbids rmw_forbids
  allow_read last_sc_write act = elim (sc_forbids last_sc_write act) [
    | none ↦ none
    | some passed_over ↦ elim (rmw_forbids act) [
      | none ↦ none
      | some forbidden ↦ some (not passed_over && not forbidden)
    ]
  ]

  -- The loop over the writes of a thread.
  unfoldable pub scan_writes : Option ℕ → List ℕ → Option (List ℕ)
  scan_writes last_sc_write [] = some []
  scan_writes last_sc_write (act ∷ list) =
      let older = scan_writes last_sc_write list in
      if act == curr then older else elim (allow_read last_sc_write act) [
        | none ↦ none
        | some allowed ↦ elim (before e act curr) [
          | none ↦ none
          | some stop ↦ elim (if stop then some [] else older) [
            | none ↦ none
            | some found ↦ some (if allowed then act ∷ found else found)
          ]
        ]
      ]

  -- The loop over the threads.
  unfoldable pub scan_threads : Option ℕ → List (List ℕ) → Option (List ℕ)
  unfolding scan_writes
  scan_threads last_sc_write [] = some []
  scan_threads last_sc_write (list ∷ lists) = elim (scan_writes last_sc_write list) [
    | none ↦ none
    | some found ↦ elim (scan_threads last_sc_write lists) [
      | none ↦ none
      | some others ↦ some (found ++ others)
    ]
  ]

  unfoldable pub last_sc : Option ℕ
  last_sc = if is_seqcst (e.actions curr).order then get_last_seq_cst_write e curr else none

  unfoldable pub build_may_read_from : Option (List ℕ)
  unfolding last_sc scan_threads
  build_may_read_from =
      if is_read (e.actions curr).type
      then elim (e.obj_wr_thrd_map (e.actions curr).location) [
        | none ↦ some []
        | some lists ↦ scan_threads last_sc lists
      ]
      else none
