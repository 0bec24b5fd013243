-- ===== src/ClockVector.antt =====
-- Clock vectors (clockvector.cc, clockvector.h): the Lamport clocks that encode happens-before.
-- The array `clock[0 .. num_threads)` is the list `clock`, so `num_threads` is its length, and a
-- clock is a number; the counters are far from 2 ^ 32. An action enters by its thread id and its
-- sequence number, all that this class reads of it. Allocation never fails here.
pub mod Lattice
pub mod Order
mod Tests
use c11tester.Base.{
  ℕ, ◌+◌, ◌-◌, ◌≡◌, Bool, true, false, ◌||◌, Option, none, some, List, [], ◌∷◌, ◌++◌, ltb, leb,
  if◌then◌else◌, length, get_or, set, replicate, max,
}

pub record ClockVector : Type 0 where
  pub clock : List ℕ

-- `get_tid()` and `get_seq_number()` of an action.
pub record Stamp : Type 0 where
  pub tid : ℕ
  pub seq_number : ℕ

abbrev pub num_threads : ClockVector → ℕ
num_threads c = length c.clock

-- `realloc` to n entries with the new ones set to 0; nothing is cut off.
abbrev pub grow : List ℕ → ℕ → List ℕ
grow xs n = xs ++ replicate (n - length xs) 0

-- The clock of the parent, or no entries.
abbrev pub inherited : Option ClockVector → List ℕ
inherited none = []
inherited (some parent) = parent.clock

-- The constructor ClockVector(parent, act).
pub new : Option ClockVector → Option Stamp → ClockVector
new parent none = record { clock = inherited parent }
new parent (some act) = record {
  clock = set (grow (inherited parent) (act.tid + 1)) act.tid act.seq_number;
}

-- The loop of `merge`: the entries of `cv` against those of this vector, which has as many.
-- The second result says whether an entry changed.
pub merge_max : List ℕ → List ℕ → List ℕ × Bool
merge_max [] xs = (xs, false)
merge_max (y ∷ ys) [] = ([], false)
merge_max (y ∷ ys) (x ∷ xs) =
    let (rest, changed) = merge_max ys xs in
    if ltb x y then (y ∷ rest, true) else (x ∷ rest, changed)

pub merge : ClockVector → ClockVector → ClockVector × Bool
merge this cv =
    let (entries, changed) = merge_max cv.clock (grow this.clock (num_threads cv)) in
    (record { clock = entries }, changed)

pub merge_min : List ℕ → List ℕ → List ℕ × Bool
merge_min [] xs = (xs, false)
merge_min (y ∷ ys) [] = ([], false)
merge_min (y ∷ ys) (x ∷ xs) =
    let (rest, changed) = merge_min ys xs in
    if ltb y x then (y ∷ rest, true) else (x ∷ rest, changed)

pub minmerge : ClockVector → ClockVector → ClockVector × Bool
minmerge this cv =
    let (entries, changed) = merge_min cv.clock (grow this.clock (num_threads cv)) in
    (record { clock = entries }, changed)

unfoldable pub synchronized_since : ClockVector → Stamp → Bool
synchronized_since this act =
    if ltb act.tid (num_threads this)
    then leb act.seq_number (get_or this.clock act.tid 0)
    else false

unfoldable pub get_clock : ClockVector → ℕ → ℕ
get_clock this thread = if ltb thread (num_threads this) then get_or this.clock thread 0 else 0
