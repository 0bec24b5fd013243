-- ===== src/HashTable/Occupied.antt =====
-- The number of filled bins (hashtable.h keeps it in `size`), and the empty bin that is left.
use c11tester.Base.{
  ℕ, zero, suc, ◌+◌, ◌<◌, ◌≤◌, ◌≡◌, refl, inl, inr, ◌==◌, if◌then◌else◌, arith, update, Bool-cases,
}
use native.Mathlib.Numerals.{add-one}
use c11tester.HashTable.{HashListNode, blank}

abbrev pub one : HashListNode → ℕ
one node = if node.key == 0 then 0 else 1

pub occupied : (ℕ → HashListNode) → ℕ → ℕ
occupied table zero = 0
occupied table (suc n) = one (table n) + occupied table n

pub occupied-update_above :
    (table : ℕ → HashListNode) (n i : ℕ) (x : HashListNode)
    → n ≤ i
    → occupied (update table i x) n ≡ occupied table n
unfolding occupied
occupied-update_above table zero i x h = refl
occupied-update_above table (suc n) i x h = ground (arith, occupied-update_above table n i x)

pub occupied-update :
    (table : ℕ → HashListNode) (n i : ℕ) (x : HashListNode)
    → i < n
    → occupied (update table i x) n + one (table i) ≡ occupied table n + one x
unfolding occupied
occupied-update table zero i x h = absurd (omega arith)
occupied-update table (suc n) i x h =
    ground (arith, occupied-update table n i x, occupied-update_above table n i x)

pub occupied-blank : (n : ℕ) → occupied (λ _. blank) n ≡ 0
unfolding occupied
occupied-blank zero = refl
occupied-blank (suc n) = omega (arith, occupied-blank n)

pub occupied-zero : (table : ℕ → HashListNode) → occupied table 0 ≡ 0
unfolding occupied
occupied-zero table = refl

pub occupied-suc :
    (table : ℕ → HashListNode) (n : ℕ) → occupied table (n + 1) ≡ one (table n) + occupied table n
unfolding occupied
occupied-suc table n = rw add-one

pub occupied-le : (table : ℕ → HashListNode) (n : ℕ) → occupied table n ≤ n
unfolding occupied
occupied-le table zero = omega arith
occupied-le table (suc n) = ground (arith, occupied-le table n)

pub has_blank :
    (table : ℕ → HashListNode) (n : ℕ)
    → occupied table n < n
    → (i : ℕ) × (i < n) × ((table i).key ≡ 0)
unfolding occupied
has_blank table zero h = absurd (omega arith)
has_blank table (suc n) h = elim (Bool-cases ((table n).key == 0)) [
  | inl e ↦ (n, omega arith, ground arith)
  | inr e ↦ let rest = has_blank table n (ground arith) in (rest.0, omega (arith, rest.1), rest.2)
]
