-- ===== src/HashTable/Cycle.antt =====
-- Slots on a circle: the probing of hashtable.h goes round by the mask.
use c11tester.Base.{
  ℕ, zero, suc, ◌+◌, ◌-◌, ◌%◌, ◌^◌, ◌<◌, ◌≡◌, ◌∙◌, bit_and, leb, ◌==◌, if◌then◌else◌, arith,
}
use c11tester.Base.Bits.{and_mask}

-- The slot after one, and the rounds that a search takes from one slot to another.
abbrev pub succ : ℕ → ℕ → ℕ
succ c i = if i + 1 == c then 0 else i + 1

abbrev pub dist : ℕ → ℕ → ℕ → ℕ
dist c h i = if leb h i then i - h else c + i - h

-- The slot at a distance.
abbrev pub along : ℕ → ℕ → ℕ → ℕ
along c h d = if leb c (h + d) then h + d - c else h + d

-- What the mask does on a table of `c` bins.
pub record Masks (c mask : ℕ) : Type 0 where
  pub low : (x : ℕ) → bit_and x mask < c
  pub same : (i : ℕ) → i < c → bit_and i mask ≡ i
  pub step : (i : ℕ) → i < c → bit_and (i + 1) mask ≡ succ c i

pow_pos : (k : ℕ) → 0 < 2 ^ k
pow_pos zero = omega arith
pow_pos (suc k) = omega (arith, pow_pos k)

mod_self : (c : ℕ) → 0 < c → c % c ≡ 0
mod_self c h = grind arith

mod_low : (i c : ℕ) → i < c → i % c ≡ i
mod_low i c h = grind arith

pub pow-Masks : (c mask k : ℕ) → c ≡ 2 ^ k → mask ≡ c - 1 → Masks c mask
pow-Masks c mask k e f =
    let masked : (x : ℕ) → bit_and x mask ≡ x % c = λ x. rw (f, e) (and_mask k x) in
    let pos : 0 < c = rw e (pow_pos k) in
    record {
      low = λ x. rw (masked x) (grind arith);
      same = λ i h. masked i ∙ mod_low i c h;
      step = λ i h. masked (i + 1) ∙ ground (arith, mod_self c pos, mod_low (i + 1) c);
    }

pub dist-succ :
    (c h i : ℕ) → h < c → i < c → dist c h i + 1 < c → dist c h (succ c i) ≡ dist c h i + 1
dist-succ c h i p q r = ground arith

pub succ-lt : (c i : ℕ) → i < c → succ c i < c
succ-lt c i h = ground arith

pub dist-lt : (c h i : ℕ) → h < c → i < c → dist c h i < c
dist-lt c h i p q = ground arith

pub dist_inj : (c h i j : ℕ) → h < c → i < c → j < c → dist c h i ≡ dist c h j → i ≡ j
dist_inj c h i j p q r e = ground arith

pub along-lt : (c h d : ℕ) → h < c → d < c → along c h d < c
along-lt c h d p q = ground arith

pub dist-along : (c h d : ℕ) → h < c → d < c → dist c h (along c h d) ≡ d
dist-along c h d p q = ground arith

pub along-dist : (c h i : ℕ) → h < c → i < c → along c h (dist c h i) ≡ i
along-dist c h i p q = ground arith
