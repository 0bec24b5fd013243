-- ===== src/Base/Bits.antt =====
-- Bit masks and shifted fields: what `bit_and` and `bit_or` do at the masks of a packed word.
use Prim.Native.Nat.{
  ℕ, zero, suc, ◌+◌, ◌-◌, ◌*◌, ◌/◌, ◌%◌, ◌^◌, ◌≤◌, ◌<◌, min, max, bit_and, bit_or, digits,
  bit_and-bitwise, bit_or-bitwise,
}
use mathlib.Core.Path.{◌≡◌, refl, sym, ap, ◌∙◌}
use native.Mathlib.Nat.{pow-suc, mul_comm, div-add-mod, div-div-eq-div-mul}
use native.Mathlib.Omega.{arith}

-- Both operations go through the binary digits, for a number of rounds. One round more than the
-- first number changes nothing, so any number of rounds that is large enough does.
module _ (z : ℕ → ℕ) (f : ℕ → ℕ → ℕ) where
  one_more : (rounds x y : ℕ) → x ≤ rounds → digits z f (suc rounds) x y ≡ digits z f rounds x y
  one_more zero (suc x) y few = absurd (omega arith)
  one_more (suc rounds) (suc x) y few =
      ap (λ (rest : ℕ). rest * 2 + f (suc x % 2) (y % 2))
        (one_more rounds (suc x / 2) (y / 2) (omega arith))
  one_more zero zero y few = refl
  one_more (suc rounds) zero y few = refl

  many_more : (more x y : ℕ) → digits z f (more + x) x y ≡ digits z f x x y
  many_more zero x y =
      let same : 0 + x ≡ x = omega arith in ap (λ (rounds : ℕ). digits z f rounds x y) same
  many_more (suc more) x y =
      let last : suc more + x ≡ suc (more + x) = omega arith in
      ap (λ (rounds : ℕ). digits z f rounds x y) last
      ∙ one_more (more + x) x y (omega arith)
      ∙ many_more more x y

  lowest_digit :
      (x y : ℕ)
      → digits z f (suc x) (suc x) y
        ≡ digits z f (suc x / 2) (suc x / 2) (y / 2) * 2 + f (suc x % 2) (y % 2)
  lowest_digit x y =
      let half : suc x / 2 ≤ x = omega arith in
      let split : x ≡ x - suc x / 2 + suc x / 2 = omega arith in
      ap (λ (rest : ℕ). rest * 2 + f (suc x % 2) (y % 2))
        (ap (λ (rounds : ℕ). digits z f rounds (suc x / 2) (y / 2)) split
          ∙ many_more (x - suc x / 2) (suc x / 2) (y / 2))

pub and_step : (a b : ℕ) → bit_and a b ≡ bit_and (a / 2) (b / 2) * 2 + min (a % 2) (b % 2)
and_step zero b = bit_and-bitwise zero b ∙ omega (arith, bit_and-bitwise zero (b / 2))
and_step (suc x) y =
    bit_and-bitwise (suc x) y
    ∙ lowest_digit (λ _. 0) min x y
    ∙ ap (λ (rest : ℕ). rest * 2 + min (suc x % 2) (y % 2))
        (sym (bit_and-bitwise (suc x / 2) (y / 2)))

pub or_step : (a b : ℕ) → bit_or a b ≡ bit_or (a / 2) (b / 2) * 2 + max (a % 2) (b % 2)
or_step zero b = bit_or-bitwise zero b ∙ omega (arith, bit_or-bitwise zero (b / 2))
or_step (suc x) y =
    bit_or-bitwise (suc x) y
    ∙ lowest_digit (λ y. y) max x y
    ∙ ap (λ (rest : ℕ). rest * 2 + max (suc x % 2) (y % 2))
        (sym (bit_or-bitwise (suc x / 2) (y / 2)))

and_zero_right : (n a : ℕ) → a ≤ n → bit_and a 0 ≡ 0
and_zero_right zero a h = let e : a ≡ 0 = omega arith in ap (λ (x : ℕ). bit_and x 0) e
and_zero_right (suc n) zero h = refl
and_zero_right (suc n) (suc a) h =
    omega (arith, and_step (suc a) 0, and_zero_right n (suc a / 2) (omega arith))

one-le-pow : (k : ℕ) → 1 ≤ 2 ^ k
one-le-pow zero = omega arith
one-le-pow (suc k) = omega (arith, pow-suc 2 k, one-le-pow k)

or_zero_right : (n a : ℕ) → a ≤ n → bit_or a 0 ≡ a
or_zero_right zero a h = let e : a ≡ 0 = omega arith in ap (λ (x : ℕ). bit_or x 0) e ∙ sym e
or_zero_right (suc n) zero h = refl
or_zero_right (suc n) (suc a) h =
    omega (arith, or_step (suc a) 0, or_zero_right n (suc a / 2) (omega arith))

-- A field shifted past the bits in use is added to them.
pub or_shifted : (k a b : ℕ) → a < 2 ^ k → bit_or a (b * 2 ^ k) ≡ a + b * 2 ^ k
or_shifted zero a b h =
    let e : a ≡ 0 = omega arith in
    ap (λ (x : ℕ). bit_or x (b * 2 ^ 0)) e ∙ omega (arith, bit_or-bitwise 0 (b * 2 ^ 0))
or_shifted (suc k) a b h = omega (
  arith,
  or_step a (b * 2 ^ suc k),
  or_shifted k (a / 2) b (omega (arith, pow-suc 2 k)),
  ap (λ (x : ℕ). bit_or (a / 2) x) half,
  ap (λ (x : ℕ). b * x) (pow-suc 2 k),
)
  where
    half : b * 2 ^ suc k / 2 ≡ b * 2 ^ k
    half = omega (arith, ap (λ (x : ℕ). b * x) (pow-suc 2 k))

mod_double : (p a : ℕ) → a % (p * 2) ≡ a / 2 % p * 2 + a % 2
mod_double p a = omega (
  arith,
  ap (λ (x : ℕ). a % x) (mul_comm p 2),
  ap (λ (x : ℕ). p * x) (div-div-eq-div-mul a 2 p),
  div-add-mod (a / 2) p,
  div-add-mod a (2 * p),
)

-- The mask of the k lowest bits.
pub and_mask : (k a : ℕ) → bit_and a (2 ^ k - 1) ≡ a % 2 ^ k
and_mask zero a = and_zero_right a a (omega arith) ∙ omega arith
and_mask (suc k) a =
    let pos : 1 ≤ 2 ^ k = one-le-pow k in
    let low : (2 ^ suc k - 1) % 2 ≡ 1 = omega (arith, pow-suc 2 k) in
    let high : (2 ^ suc k - 1) / 2 ≡ 2 ^ k - 1 = omega (arith, pow-suc 2 k) in
    omega (
      arith,
      and_step a (2 ^ suc k - 1),
      ap (bit_and (a / 2)) high,
      and_mask k (a / 2),
      mod_double (2 ^ k) a,
      ap (λ (x : ℕ). a % x) (pow-suc 2 k),
    )

-- The mask of bit k alone.
pub and_bit : (k a : ℕ) → bit_and a (2 ^ k) ≡ a / 2 ^ k % 2 * 2 ^ k
and_bit zero a = omega (arith, and_step a 1, and_zero_right (a / 2) (a / 2) (omega arith))
and_bit (suc k) a =
    let half : 2 ^ suc k / 2 ≡ 2 ^ k = omega (arith, pow-suc 2 k) in
    let quot : a / 2 / 2 ^ k ≡ a / 2 ^ suc k =
      div-div-eq-div-mul a 2 (2 ^ k) ∙ ap (λ (x : ℕ). a / x) (omega (arith, pow-suc 2 k)) in
    let shown : a / 2 / 2 ^ k % 2 * 2 ^ k * 2 ≡ a / 2 ^ suc k % 2 * 2 ^ suc k =
      ap (λ (x : ℕ). x % 2 * 2 ^ k * 2) quot
      ∙ omega (arith, ap (λ (x : ℕ). a / 2 ^ suc k % 2 * x) (pow-suc 2 k)) in
    omega (
      arith,
      and_step a (2 ^ suc k),
      ap (bit_and (a / 2)) half,
      and_bit k (a / 2),
      pow-suc 2 k,
      shown,
    )

-- To set a bit that is set already.
pub or_bit_set : (k a : ℕ) → a / 2 ^ k % 2 ≡ 1 → bit_or a (2 ^ k) ≡ a
or_bit_set zero a h = omega (arith, or_step a 1, or_zero_right (a / 2) (a / 2) (omega arith))
or_bit_set (suc k) a h =
    let half : 2 ^ suc k / 2 ≡ 2 ^ k = omega (arith, pow-suc 2 k) in
    let quot : a / 2 / 2 ^ k ≡ a / 2 ^ suc k =
      div-div-eq-div-mul a 2 (2 ^ k) ∙ ap (λ (x : ℕ). a / x) (omega (arith, pow-suc 2 k)) in
    omega (
      arith,
      or_step a (2 ^ suc k),
      ap (bit_or (a / 2)) half,
      or_bit_set k (a / 2) (ap (λ (x : ℕ). x % 2) quot ∙ h),
      pow-suc 2 k,
    )
