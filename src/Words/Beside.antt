-- ===== src/Words/Beside.antt =====
-- The bytes of a word beside the one that is replaced.
use native.Mathlib.Nat.{mul-add-div_right, one-le-pow, div-add-mod', div-div-eq-div-mul, pow-suc}
use rustybug.Prelude.{
  ℕ, zero, suc, ◌+◌, ◌-◌, ◌*◌, ◌/◌, ◌%◌, ◌^◌, ◌<◌, ◌≡◌, ◌≢◌, sym, ◌∙◌, arith, inl, inr, Bool-cases,
  ltb, ◌⊎◌,
}
use rustybug.Words.Byte.{byte_at, with_byte, with_byte-SameBeside}

split_div : (a b q r : ℕ) → 0 < a → (q * (a * (256 * b)) + r) / a ≡ q * b * 256 + r / a
split_div a b q r pos =
    let e : q * (a * (256 * b)) + r ≡ q * b * 256 * a + r = grind arith in
    rw e (mul-add-div_right pos (q * b * 256) r)

-- The low bits of a word fix every byte within them.
field_of_low : (a b w : ℕ) → 0 < a → w / a % 256 ≡ w % (a * (256 * b)) / a % 256
field_of_low a b w pos =
    let m = a * (256 * b) in
    let e : w / a ≡ w / m * b * 256 + w % m / a =
      rw (← split_div a b (w / m) (w % m) pos) (rw (div-add-mod' w m)) in
    omega arith

pow_add : (a b : ℕ) → 2 ^ (a + b) ≡ 2 ^ a * 2 ^ b
pow_add a zero = grind arith
pow_add a (suc b) = grind (arith, pow_add a b, pow-suc 2 (a + b), pow-suc 2 b)

pow_sum : (s d : ℕ) → 2 ^ (s + 8 + d) ≡ 2 ^ s * (256 * 2 ^ d)
pow_sum s d = rw (pow_add (s + 8) d, pow_add s 8) (grind arith)

byte_of_low : (s d v w : ℕ) → v % 2 ^ (s + 8 + d) ≡ w % 2 ^ (s + 8 + d) → byte_at s v ≡ byte_at s w
byte_of_low s d v w e =
    let p = pow_sum s d in
    let pos : 0 < 2 ^ s = one-le-pow s 2 (omega arith) in
    field_of_low (2 ^ s) (2 ^ d) v pos
    ∙ rw (← p, e) (rw p (sym (field_of_low (2 ^ s) (2 ^ d) w pos)))

high_div : (s d w : ℕ) → w / 2 ^ (s + 8 + d) ≡ w / 2 ^ s / 256 / 2 ^ d
high_div s d w = rw (
  pow_sum s d,
  div-div-eq-div-mul (w / 2 ^ s) 256 (2 ^ d),
  div-div-eq-div-mul w (2 ^ s) (256 * 2 ^ d),
)

byte_of_high :
    (s d v w : ℕ)
    → v / 2 ^ s / 256 ≡ w / 2 ^ s / 256
    → byte_at (s + 8 + d) v ≡ byte_at (s + 8 + d) w
byte_of_high s d v w e = rw (high_div s d v, high_div s d w, e)

apart : (j k : ℕ) → j ≢ k → (j < k) ⊎ (k < j)
apart j k ne = elim (Bool-cases (ltb j k)) [
  | inl lt ↦ inl (ground arith)
  | inr ge ↦ inr (ground arith)
]

-- A write of one byte of a word is not seen at the other seven.
pub byte_at-with_byte_ne :
    (j k b w : ℕ) → j ≢ k → b < 256 → byte_at (8 * j) (with_byte (8 * k) b w) ≡ byte_at (8 * j) w
byte_at-with_byte_ne j k b w ne hb =
    let (low, high) = with_byte-SameBeside (8 * k) b w hb in
    elim (apart j k ne) [
      | inl lt ↦
          let at : 8 * j + 8 + 8 * (k - j - 1) ≡ 8 * k = omega arith in
          byte_of_low (8 * j) (8 * (k - j - 1)) (with_byte (8 * k) b w) w (rw at low)
      | inr gt ↦
          let at : 8 * k + 8 + 8 * (j - k - 1) ≡ 8 * j = omega arith in
          rw (← at) (byte_of_high (8 * k) (8 * (j - k - 1)) (with_byte (8 * k) b w) w high)
    ]
