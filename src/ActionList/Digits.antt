-- ===== src/ActionList/Digits.antt =====
-- The arithmetic of the search in actionlist.cc: the clock just before `n * 16 ^ k`, as a 32-bit
-- word.
use c11tester.Base.{
  ℕ, suc, ◌+◌, ◌-◌, ◌*◌, ◌/◌, ◌%◌, ◌^◌, ◌<◌, ◌≤◌, ◌≡◌, ◌⊎◌, inl, inr, ap, refl, arith,
}

-- A digit of a clock is at one of eight levels.
pub data Level : ℕ → Type 0 where
  l0 : Level 0
  l1 : Level 1
  l2 : Level 2
  l3 : Level 3
  l4 : Level 4
  l5 : Level 5
  l6 : Level 6
  l7 : Level 7

abbrev pub index : ℕ → ℕ → ℕ
index k n = (n * 16 ^ k + 2 ^ 32 - 1) % 2 ^ 32

pub digit :
    {k : ℕ} → Level k → (n : ℕ) → n * 16 ^ k ≤ 2 ^ 32 → index k n / 16 ^ k % 16 ≡ (n + 15) % 16
digit l0 n h = omega arith
digit l1 n h = omega arith
digit l2 n h = omega arith
digit l3 n h = omega arith
digit l4 n h = omega arith
digit l5 n h = omega arith
digit l6 n h = omega arith
digit l7 n h = omega arith

pub earlier :
    {k : ℕ}
    → Level k
    → (n : ℕ) → n * 16 ^ k + 16 ^ k ≤ 2 ^ 32
    → (index k (n + 1) + 2 ^ 32 - 16 ^ k) % 2 ^ 32 ≡ index k n
earlier l0 n h = omega arith
earlier l1 n h = omega arith
earlier l2 n h = omega arith
earlier l3 n h = omega arith
earlier l4 n h = omega arith
earlier l5 n h = omega arith
earlier l6 n h = omega arith
earlier l7 n h = omega arith

-- The prefix of a clock at a level lies below `n` where the clock lies below `n * 16 ^ k`.
pub prefix_lt :
    {k : ℕ}
    → Level k
    → (m n : ℕ) → (m < n * 16 ^ k → m / 16 ^ k < n) × (m / 16 ^ k < n → m < n * 16 ^ k)
prefix_lt l0 m n = (λ h. omega arith, λ h. omega arith)
prefix_lt l1 m n = (λ h. omega arith, λ h. omega arith)
prefix_lt l2 m n = (λ h. omega arith, λ h. omega arith)
prefix_lt l3 m n = (λ h. omega arith, λ h. omega arith)
prefix_lt l4 m n = (λ h. omega arith, λ h. omega arith)
prefix_lt l5 m n = (λ h. omega arith, λ h. omega arith)
prefix_lt l6 m n = (λ h. omega arith, λ h. omega arith)
prefix_lt l7 m n = (λ h. omega arith, λ h. omega arith)

-- One level up, and one down.
pub up-Level : {k : ℕ} → Level (suc k) → Level k
up-Level l1 = l0
up-Level l2 = l1
up-Level l3 = l2
up-Level l4 = l3
up-Level l5 = l4
up-Level l6 = l5
up-Level l7 = l6

pub prefix-suc : {k : ℕ} → Level (suc k) → (m : ℕ) → m / 16 ^ suc k ≡ m / 16 ^ k / 16
prefix-suc l1 m = omega arith
prefix-suc l2 m = omega arith
prefix-suc l3 m = omega arith
prefix-suc l4 m = omega arith
prefix-suc l5 m = omega arith
prefix-suc l6 m = omega arith
prefix-suc l7 m = omega arith

pub scale-suc : {k : ℕ} → Level (suc k) → (n : ℕ) → n * 16 ^ suc k ≡ 16 * n * 16 ^ k
scale-suc l1 n = omega arith
scale-suc l2 n = omega arith
scale-suc l3 n = omega arith
scale-suc l4 n = omega arith
scale-suc l5 n = omega arith
scale-suc l6 n = omega arith
scale-suc l7 n = omega arith

pub index-suc : {k : ℕ} → Level (suc k) → (n : ℕ) → index (suc k) n ≡ index k (16 * n)
index-suc l n = ap (λ (x : ℕ). (x + 2 ^ 32 - 1) % 2 ^ 32) (scale-suc l n)

pub increment-down : {k : ℕ} → Level (suc k) → 16 ^ suc k / 16 ≡ 16 ^ k
increment-down l1 = refl
increment-down l2 = refl
increment-down l3 = refl
increment-down l4 = refl
increment-down l5 = refl
increment-down l6 = refl
increment-down l7 = refl

pub increment-up : {k : ℕ} → Level (suc k) → 16 ^ k * 16 % 2 ^ 32 ≡ 16 ^ suc k
increment-up l1 = refl
increment-up l2 = refl
increment-up l3 = refl
increment-up l4 = refl
increment-up l5 = refl
increment-up l6 = refl
increment-up l7 = refl

-- A level has one above it, or is the root's.
pub Level-cases : {k : ℕ} → Level k → Level (suc k) ⊎ (k ≡ 7)
Level-cases l0 = inl l1
Level-cases l1 = inl l2
Level-cases l2 = inl l3
Level-cases l3 = inl l4
Level-cases l4 = inl l5
Level-cases l5 = inl l6
Level-cases l6 = inl l7
Level-cases l7 = inr refl

pub Level-le : {k : ℕ} → Level k → k ≤ 7
Level-le l0 = omega arith
Level-le l1 = omega arith
Level-le l2 = omega arith
Level-le l3 = omega arith
Level-le l4 = omega arith
Level-le l5 = omega arith
Level-le l6 = omega arith
Level-le l7 = omega arith

-- The block of a clock does not end before it.
pub past : {k : ℕ} → Level k → (clock : ℕ) → clock < (clock / 16 ^ k + 1) * 16 ^ k
past l0 clock = omega arith
past l1 clock = omega arith
past l2 clock = omega arith
past l3 clock = omega arith
past l4 clock = omega arith
past l5 clock = omega arith
past l6 clock = omega arith
past l7 clock = omega arith
