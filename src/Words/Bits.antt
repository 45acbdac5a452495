-- ===== src/Words/Bits.antt =====
-- `&` and `|` on numbers, field by field: both work digit by digit, so they split at any bit.
use Prim.Native.Nat.{digits, max, bit_and-bitwise, bit_or-bitwise}
use native.Mathlib.Nat.{pow-suc}
use rustybug.Prelude.{
  ℕ, zero, suc, ◌+◌, ◌-◌, ◌*◌, ◌/◌, ◌%◌, ◌^◌, ◌≤◌, ◌<◌, bit_and, bit_or, min, ◌≡◌, refl, ap, arith,
}

-- What both operations are made of: `rest` where the left number has run out, `op` on a digit.
module _ (rest : ℕ → ℕ) (op : ℕ → ℕ → ℕ) where
  -- Any fuel from the left number on gives the same digits.
  digits_enough :
      (fuel more a b : ℕ) → a ≤ fuel → a ≤ more → digits rest op fuel a b ≡ digits rest op more a b
  digits_enough zero zero zero b p q = refl
  digits_enough zero (suc more) zero b p q = refl
  digits_enough (suc fuel) zero zero b p q = refl
  digits_enough (suc fuel) (suc more) zero b p q = refl
  digits_enough zero more (suc a) b p q = absurd (omega arith)
  digits_enough (suc fuel) zero (suc a) b p q = absurd (omega arith)
  digits_enough (suc fuel) (suc more) (suc a) b p q =
      omega (arith, digits_enough fuel more (suc a / 2) (b / 2) (omega arith) (omega arith))

  digits_last :
      (a b : ℕ)
      → digits rest op (suc a) (suc a) b
        ≡ digits rest op (suc a / 2) (suc a / 2) (b / 2) * 2 + op (suc a % 2) (b % 2)
  digits_last a b =
      omega (arith, digits_enough a (suc a / 2) (suc a / 2) (b / 2) (omega arith) (omega arith))

pub zero-bit_and : (b : ℕ) → bit_and 0 b ≡ 0
zero-bit_and b = bit_and-bitwise 0 b

pub zero-bit_or : (b : ℕ) → bit_or 0 b ≡ b
zero-bit_or b = bit_or-bitwise 0 b

-- The law for the lowest digit.
bit_and_last : (a b : ℕ) → bit_and a b ≡ bit_and (a / 2) (b / 2) * 2 + min (a % 2) (b % 2)
bit_and_last zero b = omega (arith, zero-bit_and b, zero-bit_and (b / 2))
bit_and_last (suc a) b = omega (
  arith,
  bit_and-bitwise (suc a) b,
  bit_and-bitwise (suc a / 2) (b / 2),
  digits_last (λ b. zero) min a b,
)

bit_or_last : (a b : ℕ) → bit_or a b ≡ bit_or (a / 2) (b / 2) * 2 + max (a % 2) (b % 2)
bit_or_last zero b = omega (arith, zero-bit_or b, zero-bit_or (b / 2))
bit_or_last (suc a) b = omega (
  arith,
  bit_or-bitwise (suc a) b,
  bit_or-bitwise (suc a / 2) (b / 2),
  digits_last (λ b. b) max a b,
)

shift_suc : (q k : ℕ) → q * 2 ^ suc k ≡ 2 * (q * 2 ^ k)
shift_suc q k = omega (arith, ap (λ (t : ℕ). q * t) (pow-suc 2 k))

-- The two halves of a split at bit `k` do not meet under `&`.
pub bit_and_split :
    (k h l m n : ℕ)
    → l < 2 ^ k
    → n < 2 ^ k
    → bit_and (h * 2 ^ k + l) (m * 2 ^ k + n) ≡ bit_and h m * 2 ^ k + bit_and l n
bit_and_split zero h zero m zero p q = ground arith
bit_and_split zero h (suc l) m n p q = absurd (omega arith)
bit_and_split zero h zero m (suc n) p q = absurd (omega arith)
bit_and_split (suc k) h l m n p q = ground (
  arith,
  bit_and_last (h * 2 ^ suc k + l) (m * 2 ^ suc k + n),
  bit_and_last l n,
  shift_suc h k,
  shift_suc m k,
  shift_suc (bit_and h m) k,
  pow-suc 2 k,
  bit_and_split k h (l / 2) m (n / 2) (omega (arith, pow-suc 2 k)) (omega (arith, pow-suc 2 k)),
)

-- Nor under `|`.
pub bit_or_split :
    (k h l m n : ℕ)
    → l < 2 ^ k
    → n < 2 ^ k
    → bit_or (h * 2 ^ k + l) (m * 2 ^ k + n) ≡ bit_or h m * 2 ^ k + bit_or l n
bit_or_split zero h zero m zero p q = ground arith
bit_or_split zero h (suc l) m n p q = absurd (omega arith)
bit_or_split zero h zero m (suc n) p q = absurd (omega arith)
bit_or_split (suc k) h l m n p q = ground (
  arith,
  bit_or_last (h * 2 ^ suc k + l) (m * 2 ^ suc k + n),
  bit_or_last l n,
  shift_suc h k,
  shift_suc m k,
  shift_suc (bit_or h m) k,
  pow-suc 2 k,
  bit_or_split k h (l / 2) m (n / 2) (omega (arith, pow-suc 2 k)) (omega (arith, pow-suc 2 k)),
)

-- A mask of `k` ones keeps the low `k` bits.
pub bit_and_ones : (k a : ℕ) → a < 2 ^ k → bit_and a (2 ^ k - 1) ≡ a
bit_and_ones zero zero h = refl
bit_and_ones zero (suc a) h = absurd (omega arith)
bit_and_ones (suc k) a h = ground (
  arith,
  bit_and_last a (2 ^ suc k - 1),
  pow-suc 2 k,
  bit_and_ones k (a / 2) (omega (arith, pow-suc 2 k)),
)

bit_and_zero_fuel : (n a : ℕ) → a ≤ n → bit_and a 0 ≡ 0
bit_and_zero_fuel zero a h = ground (arith, zero-bit_and 0)
bit_and_zero_fuel (suc n) zero h = zero-bit_and 0
bit_and_zero_fuel (suc n) (suc a) h =
    omega (arith, bit_and_last (suc a) 0, bit_and_zero_fuel n (suc a / 2) (omega arith))

bit_or_zero_fuel : (n a : ℕ) → a ≤ n → bit_or a 0 ≡ a
bit_or_zero_fuel zero a h = ground (arith, zero-bit_or 0)
bit_or_zero_fuel (suc n) zero h = zero-bit_or 0
bit_or_zero_fuel (suc n) (suc a) h =
    omega (arith, bit_or_last (suc a) 0, bit_or_zero_fuel n (suc a / 2) (omega arith))

pub bit_and_zero : (a : ℕ) → bit_and a 0 ≡ 0
bit_and_zero a = bit_and_zero_fuel a a (omega arith)

pub bit_or_zero : (a : ℕ) → bit_or a 0 ≡ a
bit_or_zero a = bit_or_zero_fuel a a (omega arith)
