-- ===== src/ClockVector/Lattice.antt =====
-- What each operation of clockvector.cc does to the clock of every thread.
use c11tester.Base.{
  ℕ, zero, suc, ◌+◌, ◌-◌, ◌≡◌, ◌≤◌, ◌<◌, refl, true, Option, none, some, List, [], ◌∷◌, ◌++◌, ltb,
  ◌==◌, if◌then◌else◌, length, get_or, replicate, max, min, arith, length-append, length-replicate,
  get_or-pad, get_or-beyond, get_or-set_self, get_or-set_ne, ◌↔◌, sym, ap,
}
use c11tester.ClockVector.{
  ClockVector, Stamp, num_threads, grow, inherited, new, merge_max, merge, merge_min, minmerge,
  synchronized_since, get_clock,
}

-- The bounds test of `getClock` is the default of a read out of range.
pub get_clock_lem : (c : ClockVector) (t : ℕ) → get_clock c t ≡ get_or c.clock t 0
unfolding get_clock
get_clock_lem c t = ground (arith, get_or-beyond c.clock t 0)

pub length-grow : (xs : List ℕ) (n : ℕ) → length (grow xs n) ≡ max (length xs) n
length-grow xs n = omega (
  arith,
  length-append xs (replicate (n - length xs) 0),
  length-replicate {A = ℕ} (n - length xs) 0,
)

get_or-merge_max :
    (ys xs : List ℕ) (t : ℕ)
    → length ys ≤ length xs
    → get_or (merge_max ys xs).0 t 0 ≡ max (get_or xs t 0) (get_or ys t 0)
unfolding merge_max
get_or-merge_max [] xs t h = omega arith
get_or-merge_max (y ∷ ys) [] t h = absurd (omega arith)
get_or-merge_max (y ∷ ys) (x ∷ xs) zero h = ground arith
get_or-merge_max (y ∷ ys) (x ∷ xs) (suc t) h =
    ground (arith, get_or-merge_max ys xs t (omega arith))

-- `merge` takes the maximum of the two clocks of each thread.
pub get_clock-merge :
    (a b : ClockVector) (t : ℕ) → get_clock (merge a b).0 t ≡ max (get_clock a t) (get_clock b t)
unfolding merge
get_clock-merge a b t = omega (
  arith,
  get_clock_lem a t,
  get_clock_lem b t,
  get_clock_lem (merge a b).0 t,
  get_or-merge_max b.clock (grow a.clock (num_threads b)) t
      (omega (arith, length-grow a.clock (num_threads b))),
  get_or-pad a.clock (num_threads b - num_threads a) t 0,
)

pub length-merge_max :
    (ys xs : List ℕ) → length ys ≤ length xs → length (merge_max ys xs).0 ≡ length xs
unfolding merge_max
length-merge_max [] xs h = refl
length-merge_max (y ∷ ys) [] h = absurd (omega arith)
length-merge_max (y ∷ ys) (x ∷ xs) h = ground (arith, length-merge_max ys xs (omega arith))

-- The vector gets as many entries as the larger of the two.
pub num_threads-merge :
    (a b : ClockVector) → num_threads (merge a b).0 ≡ max (num_threads a) (num_threads b)
unfolding merge
num_threads-merge a b =
    let room = length-grow a.clock (num_threads b) in
    omega (arith, room, length-merge_max b.clock (grow a.clock (num_threads b)) (omega arith))

get_or-merge_min :
    (ys xs : List ℕ) (t : ℕ)
    → length ys ≤ length xs
    → get_or (merge_min ys xs).0 t 0
      ≡ (if ltb t (length ys) then min (get_or xs t 0) (get_or ys t 0) else get_or xs t 0)
unfolding merge_min
get_or-merge_min [] xs t h = ground arith
get_or-merge_min (y ∷ ys) [] t h = absurd (omega arith)
get_or-merge_min (y ∷ ys) (x ∷ xs) zero h = ground arith
get_or-merge_min (y ∷ ys) (x ∷ xs) (suc t) h =
    ground (arith, get_or-merge_min ys xs t (omega arith))

-- `minmerge` takes the minimum for the threads that the other vector has an entry for, and
-- leaves the clocks of all other threads alone.
pub get_clock-minmerge :
    (a b : ClockVector) (t : ℕ)
    → get_clock (minmerge a b).0 t
      ≡ (if ltb t (num_threads b) then min (get_clock a t) (get_clock b t) else get_clock a t)
unfolding minmerge
get_clock-minmerge a b t = ground (
  arith,
  get_clock_lem a t,
  get_clock_lem b t,
  get_clock_lem (minmerge a b).0 t,
  get_or-merge_min b.clock (grow a.clock (num_threads b)) t
      (omega (arith, length-grow a.clock (num_threads b))),
  get_or-pad a.clock (num_threads b - num_threads a) t 0,
)

-- The clocks of the optional parent.
abbrev pub parent_clock : Option ClockVector → ℕ → ℕ
parent_clock none t = 0
parent_clock (some p) t = get_clock p t

get_or-inherited : (p : Option ClockVector) (t : ℕ) → get_or (inherited p) t 0 ≡ parent_clock p t
get_or-inherited none t = refl
get_or-inherited (some p) t = sym (get_clock_lem p t)

-- A new vector has the clocks of its parent, but for the thread of the action, whose clock is
-- the action's sequence number.
pub get_clock-new :
    (p : Option ClockVector) (act : Stamp) (t : ℕ)
    → get_clock (new p (some act)) t ≡ (if t == act.tid then act.seq_number else parent_clock p t)
unfolding new
get_clock-new p act t = ground (
  arith,
  get_clock_lem (new p (some act)) t,
  get_or-set_self (grow (inherited p) (act.tid + 1)) act.tid act.seq_number 0,
  get_or-set_ne (grow (inherited p) (act.tid + 1)) act.tid t act.seq_number 0,
  length-grow (inherited p) (act.tid + 1),
  get_or-pad (inherited p) (act.tid + 1 - length (inherited p)) t 0,
  get_or-inherited p t,
)

-- An action with a sequence number above 0 passes the synchronisation test exactly if its number
-- is not above the clock of its thread; a thread without an entry has clock 0.
pub synchronized_since_lem :
    (c : ClockVector) (act : Stamp)
    → 0 < act.seq_number
    → (synchronized_since c act ≡ true) ↔ (act.seq_number ≤ get_clock c act.tid)
unfolding synchronized_since get_clock
synchronized_since_lem c act h = ground arith

merge_max_zeros : (ys : List ℕ) → (merge_max ys (replicate (length ys) 0)).0 ≡ ys
unfolding merge_max
merge_max_zeros [] = refl
merge_max_zeros (y ∷ ys) = ground (arith, merge_max_zeros ys)

pub append_nil : (xs : List ℕ) → xs ++ [] ≡ xs
append_nil [] = refl
append_nil (x ∷ xs) = ap (λ r. x ∷ r) (append_nil xs)

-- The vector with no entries is neutral.
pub merge-empty_left : (c : ClockVector) → (merge (record { clock = [] }) c).0 ≡ c
unfolding merge
merge-empty_left c = ground (arith, merge_max_zeros c.clock)

pub merge-empty_right : (c : ClockVector) → (merge c (record { clock = [] })).0 ≡ c
unfolding merge merge_max
merge-empty_right c = ground (arith, append_nil c.clock)

-- Without an action the constructor copies.
pub new_copy : (c : ClockVector) → new (some c) none ≡ c
unfolding new
new_copy c = refl

pub new_empty : new none none ≡ record { clock = [] }
unfolding new
new_empty = refl
