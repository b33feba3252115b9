-- ===== src/Base/Bits.antt =====
-- The bit operations of the codec as arithmetic: masks by powers of two, and `|` of disjoint fields.
use Prim.Native.Nat.{
  ℕ, zero, suc, ◌+◌, ◌*◌, ◌/◌, ◌%◌, ◌^◌, ◌≤◌, ◌<◌, min, max, bit_and, bit_or, bitwise, digits,
  bit_and-bitwise, bit_or-bitwise,
}
use mathlib.Core.Path.{◌≡◌, refl, ap, ◌∙◌}
use native.Mathlib.Decide.{dec_le}
use native.Mathlib.Nat.{pow-suc}
use native.Mathlib.Omega.{arith}

-- Any operation on digits, lowest first: the count of digits may be larger than the first number.
module _ (z : ℕ → ℕ) (f : ℕ → ℕ → ℕ) where
  digits_more : (n a b : ℕ) → a ≤ n → digits z f (suc n) a b ≡ digits z f n a b
  digits_more zero zero b h = refl
  digits_more (suc n) zero b h = refl
  digits_more zero (suc a) b h = absurd (omega arith)
  digits_more (suc n) (suc a) b h =
      ap (λ t. t * 2 + f (suc a % 2) (b % 2)) (digits_more n (suc a / 2) (b / 2) (omega arith))

  digits-bitwise : (n a b : ℕ) → a ≤ n → digits z f n a b ≡ bitwise z f a b
  digits-bitwise zero zero b h = refl
  digits-bitwise zero (suc a) b h = absurd (omega arith)
  digits-bitwise (suc n) a b h = elim (dec_le a n) [
    | yes le ↦ digits_more n a b le ∙ digits-bitwise n a b le
    | no more ↦ let e : suc n ≡ a = omega arith in ap (λ t. digits z f t a b) e
  ]

  -- One digit of each number, and the rest of them.
  bitwise_halves :
      (a b : ℕ)
      → z b ≡ z (b / 2) * 2 + f 0 (b % 2)
      → bitwise z f a b ≡ bitwise z f (a / 2) (b / 2) * 2 + f (a % 2) (b % 2)
  bitwise_halves zero b h = h
  bitwise_halves (suc a) b h =
      ap (λ t. t * 2 + f (suc a % 2) (b % 2)) (digits-bitwise a (suc a / 2) (b / 2) (omega arith))

bit_or_halves : (a b : ℕ) → bit_or a b ≡ bit_or (a / 2) (b / 2) * 2 + max (a % 2) (b % 2)
bit_or_halves a b = omega (
  arith,
  bit_or-bitwise a b,
  bit_or-bitwise (a / 2) (b / 2),
  bitwise_halves (λ t. t) max a b (omega arith),
)

bit_and_halves : (a b : ℕ) → bit_and a b ≡ bit_and (a / 2) (b / 2) * 2 + min (a % 2) (b % 2)
bit_and_halves a b = omega (
  arith,
  bit_and-bitwise a b,
  bit_and-bitwise (a / 2) (b / 2),
  bitwise_halves (λ _. 0) min a b (omega arith),
)

pub zero-bit_or : (b : ℕ) → bit_or 0 b ≡ b
zero-bit_or = bit_or-bitwise 0

two-pow_scaled : (x s : ℕ) → x * 2 ^ suc s ≡ x * 2 ^ s * 2
two-pow_scaled x s = omega (arith, ap (λ (t : ℕ). x * t) (pow-suc 2 s))

-- `low | (x << s)` where `low` fits in the `s` bits below.
pub bit_or_above : (s low x : ℕ) → low < 2 ^ s → bit_or low (x * 2 ^ s) ≡ low + x * 2 ^ s
bit_or_above zero low x h = ground (arith, zero-bit_or (x * 1))
bit_or_above (suc s) low x h = ground (
  arith,
  pow-suc 2 s,
  two-pow_scaled x s,
  bit_or_halves low (x * 2 ^ suc s),
  bit_or_above s (low / 2) x (omega (arith, pow-suc 2 s)),
)

-- No digits on the other side.
digits-min : (n a : ℕ) → digits (λ _. 0) min n a 0 ≡ 0
digits-min zero a = refl
digits-min (suc n) zero = refl
digits-min (suc n) (suc a) = omega (arith, digits-min n (suc a / 2))

digits-max : (n a : ℕ) → a ≤ n → digits (λ t. t) max n a 0 ≡ a
digits-max zero a h = omega arith
digits-max (suc n) zero h = refl
digits-max (suc n) (suc a) h = omega (arith, digits-max n (suc a / 2) (omega arith))

bit_and-zero : (a : ℕ) → bit_and a 0 ≡ 0
bit_and-zero a = bit_and-bitwise a 0 ∙ digits-min a a

bit_or-zero : (a : ℕ) → bit_or a 0 ≡ a
bit_or-zero a = bit_or-bitwise a 0 ∙ digits-max a a (omega arith)

bit_and-one : (a : ℕ) → bit_and a 1 ≡ a % 2
bit_and-one a = omega (arith, bit_and-zero (a / 2), bit_and_halves a 1)

-- `tag & 0x7`
pub bit_and_seven : (a : ℕ) → bit_and a 7 ≡ a % 8
bit_and_seven a =
    omega (arith, bit_and-one (a / 2 / 2), bit_and_halves (a / 2) 3, bit_and_halves a 7)

bit_and_low_five : (a : ℕ) → bit_and a 0x1f ≡ a % 32
bit_and_low_five a =
    omega (arith, bit_and_halves a 0x1f, bit_and_halves (a / 2) 0x0f, bit_and_seven (a / 2 / 2))

-- `b & 0x7f`
pub bit_and_low_seven : (a : ℕ) → bit_and a 0x7f ≡ a % 128
bit_and_low_seven a =
    omega (arith, bit_and_halves a 0x7f, bit_and_halves (a / 2) 0x3f, bit_and_low_five (a / 2 / 2))

bit_and_two : (a : ℕ) → bit_and a 0x2 ≡ a / 2 % 2 * 2
bit_and_two a = omega (arith, bit_and_halves a 0x2, bit_and-one (a / 2))

bit_and_eight : (a : ℕ) → bit_and a 0x8 ≡ a / 8 % 2 * 8
bit_and_eight a =
    omega (arith, bit_and_halves a 0x8, bit_and_halves (a / 2) 0x4, bit_and_two (a / 2 / 2))

bit_and_thirty_two : (a : ℕ) → bit_and a 0x20 ≡ a / 32 % 2 * 32
bit_and_thirty_two a =
    omega (arith, bit_and_halves a 0x20, bit_and_halves (a / 2) 0x10, bit_and_eight (a / 2 / 2))

-- `b & 0x80`
pub bit_and_top : (a : ℕ) → bit_and a 0x80 ≡ a / 128 % 2 * 128
bit_and_top a =
    omega
      (arith, bit_and_halves a 0x80, bit_and_halves (a / 2) 0x40, bit_and_thirty_two (a / 2 / 2))

bit_or_one : (a : ℕ) → a < 2 → bit_or a 1 ≡ 1
bit_or_one zero h = refl
bit_or_one (suc zero) h = refl
bit_or_one (suc (suc a)) h = absurd (omega arith)

bit_or_set : (s t low : ℕ) → t < 2 → low < 2 ^ s → bit_or (t * 2 ^ s + low) (2 ^ s) ≡ 2 ^ s + low
bit_or_set zero t low h k = ground (arith, bit_or_one (t * 1 + low) (omega arith))
bit_or_set (suc s) t low h k = ground (
  arith,
  pow-suc 2 s,
  two-pow_scaled t s,
  bit_or_halves (t * 2 ^ suc s + low) (2 ^ suc s),
  bit_or_set s t (low / 2) h (omega (arith, pow-suc 2 s)),
)

-- `(v as u8) | 0x80`
pub bit_or_top : (a : ℕ) → a < 256 → bit_or a 0x80 ≡ a % 128 + 128
bit_or_top a h = ground (arith, bit_or_set 7 (a / 128) (a % 128), e)
  where
    e : a / 128 * 128 + a % 128 ≡ a
    e = omega arith

-- `(high << s) | low` where `low` fits in the `s` bits below.
pub bit_or_below : (s x low : ℕ) → low < 2 ^ s → bit_or (x * 2 ^ s) low ≡ x * 2 ^ s + low
bit_or_below zero x low h = ground (arith, bit_or-zero x)
bit_or_below (suc s) x low h = ground (
  arith,
  pow-suc 2 s,
  two-pow_scaled x s,
  bit_or_halves (x * 2 ^ suc s) low,
  bit_or_below s x (low / 2) (omega (arith, pow-suc 2 s)),
)

-- `|` stays in the width of its operands.
pub bit_or-lt : (n a b : ℕ) → a < 2 ^ n → b < 2 ^ n → bit_or a b < 2 ^ n
bit_or-lt zero zero b ha hb = ground (arith, zero-bit_or b)
bit_or-lt zero (suc a) b ha hb = absurd (omega arith)
bit_or-lt (suc n) a b ha hb = ground (
  arith,
  pow-suc 2 n,
  bit_or_halves a b,
  bit_or-lt n (a / 2) (b / 2) (omega (arith, pow-suc 2 n)) (omega (arith, pow-suc 2 n)),
)
