-- ===== src/Base/Bits.antt =====
-- The masks and field joins of the C code, as arithmetic at every width.
use Prim.Native.Nat.{
  ℕ, zero, suc, ◌+◌, ◌-◌, ◌*◌, ◌/◌, ◌%◌, ◌^◌, ◌≤◌, ◌<◌, min, max, bit_and, bit_or, digits,
  bit_and-bitwise, bit_or-bitwise,
}
use mathlib.Core.Path.{◌≡◌, refl, ap, ◌∙◌, sym}
use native.Mathlib.Nat.{pow-suc, one-le-pow, mod-lt, div-add-mod', div-div-eq-div-mul}
use native.Mathlib.Omega.{arith}

-- More fuel than the value of the first number changes nothing.
module _ (at_end : ℕ → ℕ) (join : ℕ → ℕ → ℕ) where
  digits_enough :
      (f g a b : ℕ) → a ≤ f → a ≤ g → digits at_end join f a b ≡ digits at_end join g a b
  digits_enough zero zero a b p q = refl
  digits_enough zero (suc g) zero b p q = refl
  digits_enough (suc f) zero zero b p q = refl
  digits_enough (suc f) (suc g) zero b p q = refl
  digits_enough zero g (suc a) b p q = absurd (omega arith)
  digits_enough (suc f) zero (suc a) b p q = absurd (omega arith)
  digits_enough (suc f) (suc g) (suc a) b p q =
      omega (arith, digits_enough f g (suc a / 2) (b / 2) (omega arith) (omega arith))

pub bit_and_halves : (a b : ℕ) → bit_and a b ≡ bit_and (a / 2) (b / 2) * 2 + min (a % 2) (b % 2)
bit_and_halves zero b = omega (arith, bit_and-bitwise 0 b, bit_and-bitwise 0 (b / 2))
bit_and_halves (suc a) b = omega (
  arith,
  bit_and-bitwise (suc a) b,
  bit_and-bitwise (suc a / 2) (b / 2),
  digits_enough (λ n. 0) min a (suc a / 2) (suc a / 2) (b / 2) (omega arith) (omega arith),
)

pub bit_or_halves : (a b : ℕ) → bit_or a b ≡ bit_or (a / 2) (b / 2) * 2 + max (a % 2) (b % 2)
bit_or_halves zero b = omega (arith, bit_or-bitwise 0 b, bit_or-bitwise 0 (b / 2))
bit_or_halves (suc a) b = omega (
  arith,
  bit_or-bitwise (suc a) b,
  bit_or-bitwise (suc a / 2) (b / 2),
  digits_enough (λ n. n) max a (suc a / 2) (suc a / 2) (b / 2) (omega arith) (omega arith),
)

-- A shift by `k` in terms of one by `k + 1`.
scale_suc : (q k : ℕ) → q * 2 ^ suc k ≡ 2 * (q * 2 ^ k)
scale_suc q k = omega (arith, ap (λ (t : ℕ). q * t) (pow-suc 2 k))

-- `k` low bits are masked off, and the rest of the mask acts on the rest of the number.
pub bit_and_shifted :
    (k q r m : ℕ) → r < 2 ^ k → bit_and (q * 2 ^ k + r) (m * 2 ^ k) ≡ bit_and q m * 2 ^ k
bit_and_shifted zero q r m h = ground arith
bit_and_shifted (suc k) q r m h = ground (
  arith,
  bit_and_halves (q * 2 ^ suc k + r) (m * 2 ^ suc k),
  scale_suc q k,
  scale_suc m k,
  scale_suc (bit_and q m) k,
  pow-suc 2 k,
  bit_and_shifted k q (r / 2) m (omega (arith, pow-suc 2 k)),
)

bit_and-zero_fuel : (f a : ℕ) → a ≤ f → bit_and a 0 ≡ 0
bit_and-zero_fuel f zero h = omega (arith, bit_and-bitwise 0 0)
bit_and-zero_fuel zero (suc a) h = absurd (omega arith)
bit_and-zero_fuel (suc f) (suc a) h =
    omega (arith, bit_and_halves (suc a) 0, bit_and-zero_fuel f (suc a / 2) (omega arith))

pub bit_and-zero : (a : ℕ) → bit_and a 0 ≡ 0
bit_and-zero a = bit_and-zero_fuel a a (omega arith)

bit_or-zero_fuel : (f a : ℕ) → a ≤ f → bit_or a 0 ≡ a
bit_or-zero_fuel f zero h = omega (arith, bit_or-bitwise 0 0)
bit_or-zero_fuel zero (suc a) h = absurd (omega arith)
bit_or-zero_fuel (suc f) (suc a) h =
    omega (arith, bit_or_halves (suc a) 0, bit_or-zero_fuel f (suc a / 2) (omega arith))

pub bit_or-zero : (a : ℕ) → bit_or a 0 ≡ a
bit_or-zero a = bit_or-zero_fuel a a (omega arith)

pub zero-bit_or : (a : ℕ) → bit_or 0 a ≡ a
zero-bit_or a = omega (arith, bit_or-bitwise 0 a)

-- Only the low bits stay under a mask of low ones.
bit_and_low : (k q r : ℕ) → r < 2 ^ k → bit_and (q * 2 ^ k + r) (2 ^ k - 1) ≡ r
bit_and_low zero q r h = omega (arith, bit_and-zero (q * 1 + r))
bit_and_low (suc k) q r h = ground (
  arith,
  bit_and_halves (q * 2 ^ suc k + r) (2 ^ suc k - 1),
  scale_suc q k,
  pow-suc 2 k,
  one-le-pow k 2,
  bit_and_low k q (r / 2) (omega (arith, pow-suc 2 k)),
)

rest-lt : (k a : ℕ) → a % 2 ^ k < 2 ^ k
rest-lt k a = mod-lt a (omega (arith, one-le-pow k 2))

-- `a & ((1 << k) - 1)`.
pub bit_and_ones : (k a : ℕ) → bit_and a (2 ^ k - 1) ≡ a % 2 ^ k
bit_and_ones k a =
    ground (arith, div-add-mod' a (2 ^ k), bit_and_low k (a / 2 ^ k) (a % 2 ^ k) (rest-lt k a))

-- A mask of `k` ones at bit `s` picks one field.
pub bit_and_field : (k s a : ℕ) → bit_and a ((2 ^ k - 1) * 2 ^ s) ≡ a / 2 ^ s % 2 ^ k * 2 ^ s
bit_and_field k s a = ground (
  arith,
  div-add-mod' a (2 ^ s),
  bit_and_shifted s (a / 2 ^ s) (a % 2 ^ s) (2 ^ k - 1) (rest-lt s a),
  bit_and_ones k (a / 2 ^ s),
)

-- A field above `k` bits joined with the low bits is a sum, in either order.
pub bit_or_above : (k q r : ℕ) → r < 2 ^ k → bit_or r (q * 2 ^ k) ≡ q * 2 ^ k + r
bit_or_above zero q r h = ground (arith, zero-bit_or q)
bit_or_above (suc k) q r h = ground (
  arith,
  bit_or_halves r (q * 2 ^ suc k),
  scale_suc q k,
  pow-suc 2 k,
  bit_or_above k q (r / 2) (omega (arith, pow-suc 2 k)),
)

pub bit_or_below : (k q r : ℕ) → r < 2 ^ k → bit_or (q * 2 ^ k) r ≡ q * 2 ^ k + r
bit_or_below zero q r h = ground (arith, bit_or-zero q)
bit_or_below (suc k) q r h = ground (
  arith,
  bit_or_halves (q * 2 ^ suc k) r,
  scale_suc q k,
  pow-suc 2 k,
  bit_or_below k q (r / 2) (omega (arith, pow-suc 2 k)),
)

halve : (n : ℕ) → 2 * n / 2 ≡ n
halve n = omega arith

by_two : (k a : ℕ) → a / 2 ^ suc k ≡ a / 2 / 2 ^ k
by_two k a =
    let doubled : 2 ^ suc k ≡ 2 * 2 ^ k = omega (arith, pow-suc 2 k) in
    ap (λ (t : ℕ). a / t) doubled ∙ sym (div-div-eq-div-mul a 2 (2 ^ k))

-- A field set at bit `k` shows after a shift by `k`.
pub bit_or_shifted : (k a q : ℕ) → bit_or a (q * 2 ^ k) / 2 ^ k ≡ bit_or (a / 2 ^ k) q
bit_or_shifted zero a q = ground arith
bit_or_shifted (suc k) a q =
    let halved : bit_or a (q * 2 ^ suc k) / 2 ≡ bit_or (a / 2) (q * 2 ^ k) =
      ap (λ (t : ℕ). bit_or a t / 2) (scale_suc q k)
      ∙ omega (arith, bit_or_halves a (2 * (q * 2 ^ k)))
      ∙ ap (bit_or (a / 2)) (halve (q * 2 ^ k)) in
    by_two k (bit_or a (q * 2 ^ suc k))
    ∙ ap (λ (t : ℕ). t / 2 ^ k) halved
    ∙ bit_or_shifted k (a / 2) q
    ∙ ap (λ (t : ℕ). bit_or t q) (sym (by_two k a))

-- Setting the lowest bit gives an odd number.
pub bit_or-one : (a : ℕ) → bit_or a 1 % 2 ≡ 1
bit_or-one a = omega (arith, bit_or_halves a 1)
