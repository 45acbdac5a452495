-- ===== src/Commands/Numbers/Decimal.antt =====
-- Numbers as the standard library's `Display` writes them, read back by its `parse`.
use rustybug.Prelude.{
  ℕ, zero, suc, ◌+◌, ◌-◌, ◌*◌, ◌/◌, ◌%◌, ◌^◌, ◌≤◌, ◌<◌, ◌≡◌, refl, ap, subst, ◌∙◌, false, [], ◌∷◌,
  All, ltb, ◌==◌, some, arith, Bool-cases, inl, inr, if◌then◌else◌,
}
use rustybug.Prelude.Outcome.{ok}
use rustybug.Host.{Text}
use rustybug.Commands.Numbers.{
  IntError, pos_overflow, neg_overflow, to_digit, scan_digits, digits_only, parse_u64, parse_i32,
  u64_max,
}

-- The digits of `n` in front of `more`. A number has fewer digits than its successor is large.
unfoldable pub digits_of : ℕ → ℕ → Text → Text
digits_of zero n more = more
digits_of (suc fuel) n more =
    let rest = digits_of fuel (n / 10) ((b'0' + n % 10) ∷ more) in
    if ltb n 10 then (b'0' + n) ∷ more else rest

-- `to_string` of a `u64`.
unfoldable pub display_u64 : ℕ → Text
unfolding digits_of
display_u64 n = digits_of (suc n) n []

-- `to_string` of an `i32` that is kept as its bit pattern.
unfoldable pub display_i32 : ℕ → Text
unfolding display_u64
display_i32 n = if ltb n (2 ^ 31) then display_u64 n else b'-' ∷ display_u64 (2 ^ 32 - n)

to_digit-digit : (d : ℕ) → d < 10 → to_digit 10 (b'0' + d) ≡ some d
unfolding to_digit
to_digit-digit d h = ground arith

scan_digits-digit :
    (limit a d : ℕ) (overflow : IntError) (more : Text)
    → d < 10
    → a * 10 + d ≤ limit
    → scan_digits 10 limit overflow a ((b'0' + d) ∷ more)
      ≡ scan_digits 10 limit overflow (a * 10 + d) more
unfolding scan_digits
scan_digits-digit limit a d overflow more h le =
    let fits : ltb limit (a * 10 + d) ≡ false = ground arith in
    rw (scan_digits, to_digit-digit d h) (rw fits refl)

digits_of_step :
    (fuel n : ℕ) (more : Text)
    → digits_of (suc fuel) n more
      ≡ (if ltb n 10 then (b'0' + n) ∷ more else digits_of fuel (n / 10) ((b'0' + n % 10) ∷ more))
unfolding digits_of
digits_of_step fuel n more = refl

scan_digits-digits_of :
    (limit fuel n : ℕ) (overflow : IntError) (more : Text)
    → n < fuel
    → n ≤ limit
    → scan_digits 10 limit overflow 0 (digits_of fuel n more) ≡ scan_digits 10 limit overflow n more
scan_digits-digits_of limit zero n overflow more h le = absurd (omega arith)
scan_digits-digits_of limit (suc fuel) n overflow more h le =
    rw (digits_of_step fuel n more) (elim (Bool-cases (ltb n 10)) [
      | inl small ↦
          let first : 0 * 10 + n ≡ n = omega arith in
          rw small (
            scan_digits-digit limit 0 n overflow more (ground arith) (omega arith)
            ∙ ap (λ (k : ℕ). scan_digits 10 limit overflow k more) first)
      | inr large ↦
          let whole : n / 10 * 10 + n % 10 ≡ n = omega arith in
          rw large (
            scan_digits-digits_of limit fuel (n / 10) overflow ((b'0' + n % 10) ∷ more)
              (ground arith) (omega arith)
            ∙ scan_digits-digit limit (n / 10) (n % 10) overflow more (omega arith) (omega arith)
            ∙ rw whole refl)
    ])

-- A digit character.
abbrev pub IsDigit : ℕ → Type 0
IsDigit c = (b'0' ≤ c) × (c ≤ b'9')

digits_of-IsDigit :
    (fuel n : ℕ) (more : Text) → n < fuel → All IsDigit more → All IsDigit (digits_of fuel n more)
digits_of-IsDigit zero n more h all = absurd (omega arith)
digits_of-IsDigit (suc fuel) n more h all =
    rw (digits_of_step fuel n more) (elim (Bool-cases (ltb n 10)) [
      | inl small ↦ rw small ((omega arith, ground arith), all)
      | inr large ↦ rw large (
          digits_of-IsDigit fuel (n / 10) ((b'0' + n % 10) ∷ more) (ground arith)
            ((omega arith, omega arith), all))
    ])

digits_of-cons :
    (fuel n : ℕ) (more : Text) → n < fuel → (c : ℕ) × (s : Text) × (digits_of fuel n more ≡ c ∷ s)
digits_of-cons zero n more h = absurd (omega arith)
digits_of-cons (suc fuel) n more h = elim (Bool-cases (ltb n 10)) [
  | inl small ↦ (b'0' + n, more, rw (digits_of_step fuel n more, small))
  | inr large ↦
      let (c, s, e) = digits_of-cons fuel (n / 10) ((b'0' + n % 10) ∷ more) (ground arith) in
      (c, s, rw (digits_of_step fuel n more, large) e)
]

-- What is displayed is a digit and more digits.
pub display_u64-IsDigit :
    (n : ℕ) → (c : ℕ) × (s : Text) × (display_u64 n ≡ c ∷ s) × IsDigit c × All IsDigit s
unfolding display_u64
display_u64-IsDigit n =
    let (c, s, e) = digits_of-cons (suc n) n [] (omega arith) in
    let all : All IsDigit (c ∷ s) =
      subst (All IsDigit) e (digits_of-IsDigit (suc n) n [] (omega arith) tt) in
    (c, s, e, all.0, all.1)

scan_digits-display_u64 :
    (limit n : ℕ) (overflow : IntError)
    → n ≤ limit
    → scan_digits 10 limit overflow 0 (display_u64 n) ≡ ok n
unfolding display_u64 scan_digits
scan_digits-display_u64 limit n overflow le =
    scan_digits-digits_of limit (suc n) n overflow [] (omega arith) le

digits_only-display_u64 :
    (limit n : ℕ) (overflow : IntError)
    → n ≤ limit
    → digits_only 10 limit overflow (display_u64 n) ≡ ok n
digits_only-display_u64 limit n overflow le =
    let (c, s, e, digit, more) = display_u64-IsDigit n in
    rw e (rw (← e) (scan_digits-display_u64 limit n overflow le))

pub parse_u64-display_u64 : (n : ℕ) → n < 2 ^ 64 → parse_u64 10 (display_u64 n) ≡ ok n
unfolding parse_u64
parse_u64-display_u64 n h =
    let (c, s, e, digit, more) = display_u64-IsDigit n in
    let unsigned : (c == b'+') ≡ false = ground arith in
    rw e (rw unsigned (rw (← e) (scan_digits-display_u64 u64_max n pos_overflow (omega arith))))

i32_of_digits : (n : ℕ) → n < 2 ^ 31 → parse_i32 (display_u64 n) ≡ ok n
unfolding parse_i32
i32_of_digits n h =
    let (c, s, e, digit, more) = display_u64-IsDigit n in
    let plus : (c == b'+') ≡ false = ground arith in
    let minus : (c == b'-') ≡ false = ground arith in
    rw e (
      rw (plus, minus)
        (rw (← e) (scan_digits-display_u64 (2 ^ 31 - 1) n pos_overflow (omega arith))))

pub parse_i32-display_i32 : (n : ℕ) → n < 2 ^ 32 → parse_i32 (display_i32 n) ≡ ok n
unfolding display_i32 parse_i32
parse_i32-display_i32 n h = elim (Bool-cases (ltb n (2 ^ 31))) [
  | inl pos ↦ rw pos (i32_of_digits n (ground arith))
  | inr neg ↦ rw neg (
      rw (digits_only-display_u64 (2 ^ 31) (2 ^ 32 - n) neg_overflow (ground arith)) (ground arith))
]
