-- ===== src/Commands/Numbers/Value.antt =====
-- The parsing of numbers against the value that a digit string has.
use native.Mathlib.Nat.{mul-le-mul_left}
use rustybug.Prelude.{
  ℕ, ◌+◌, ◌*◌, ◌≤◌, ◌<◌, ◌≡◌, refl, false, none, some, some-injective, Option, [], ◌∷◌, ltb, ◌==◌,
  arith, Bool-cases, Option-cases, inl, inr, ◌⊎◌, if◌then◌else◌,
}
use rustybug.Prelude.Outcome.{Outcome, ok, err}
use rustybug.Host.{Text}
use rustybug.Commands.Numbers.{
  IntError, invalid_digit, pos_overflow, to_digit, scan_digits, parse_u64, u64_max,
}

-- The number that a text of digits stands for, `acc` in front of it; nothing for other texts.
abbrev next_value : (ℕ → Option ℕ) → ℕ → ℕ → Option ℕ → Option ℕ
next_value rest radix acc none = none
next_value rest radix acc (some d) = rest (acc * radix + d)

pub value : ℕ → ℕ → Text → Option ℕ
value radix acc [] = some acc
value radix acc (c ∷ s) = next_value (λ n. value radix n s) radix acc (to_digit radix c)

acc-le-next : (radix acc d : ℕ) → 0 < radix → acc ≤ acc * radix + d
acc-le-next radix acc d h = omega (arith, mul-le-mul_left acc h)

acc-le-after :
    (radix acc v : ℕ) (rest : ℕ → Option ℕ) (o : Option ℕ)
    → 0 < radix
    → ((n : ℕ) → rest n ≡ some v → n ≤ v)
    → next_value rest radix acc o ≡ some v
    → acc ≤ v
acc-le-after radix acc v rest none h ih e = cc
acc-le-after radix acc v rest (some d) h ih e =
    let first = acc-le-next radix acc d h in let later = ih (acc * radix + d) e in omega arith

acc-le-value : (radix acc v : ℕ) (s : Text) → 0 < radix → value radix acc s ≡ some v → acc ≤ v
unfolding value
acc-le-value radix acc v [] h e = let same = some-injective acc v e in omega arith
acc-le-value radix acc v (c ∷ s) h e =
    acc-le-after radix acc v (λ n. value radix n s) (to_digit radix c) h
      (λ n. acc-le-value radix n v s h) e

-- What parsing gives, by the value of the text.
abbrev pub Parses : ℕ → IntError → Option ℕ → Outcome IntError ℕ → Type 0
Parses limit overflow (some v) r = ((v ≤ limit) × (r ≡ ok v)) ⊎ ((limit < v) × (r ≡ err overflow))
Parses limit overflow none r = (r ≡ err invalid_digit) ⊎ (r ≡ err overflow)

-- The value of the rest is beyond the limit if what has been read is.
Parses-beyond :
    (radix limit n : ℕ) (overflow : IntError) (s : Text)
    → 0 < radix
    → limit < n
    → Parses limit overflow (value radix n s) (err overflow)
Parses-beyond radix limit n overflow s h over = elim (Option-cases (value radix n s)) [
  | inl bad ↦ rw bad (inr refl)
  | inr (v, e) ↦ let le = acc-le-value radix n v s h e in rw e (inr (omega arith, refl))
]

abbrev next_scan : (ℕ → Outcome IntError ℕ) → ℕ → ℕ → IntError → ℕ → Option ℕ → Outcome IntError ℕ
next_scan rest radix limit overflow acc o = elim o [
  | none ↦ err invalid_digit
  | some d ↦ let n = acc * radix + d in if ltb limit n then err overflow else rest n
]

next_scan-Parses :
    (radix limit acc : ℕ) (overflow : IntError) (s : Text) (o : Option ℕ)
    → 0 < radix
    → ((n : ℕ)
        → n ≤ limit
        → Parses limit overflow (value radix n s) (scan_digits radix limit overflow n s))
    → Parses limit overflow
        (next_value (λ n. value radix n s) radix acc o)
        (next_scan (λ n. scan_digits radix limit overflow n s) radix limit overflow acc o)
next_scan-Parses radix limit acc overflow s none h ih = inl refl
next_scan-Parses radix limit acc overflow s (some d) h ih =
    elim (Bool-cases (ltb limit (acc * radix + d))) [
      | inl over ↦
          rw (next_scan, over)
            (Parses-beyond radix limit (acc * radix + d) overflow s h (ground arith))
      | inr fits ↦ rw (next_scan, fits) (ih (acc * radix + d) (ground arith))
    ]

pub scan_digits-Parses :
    (radix limit acc : ℕ) (overflow : IntError) (s : Text)
    → 0 < radix
    → acc ≤ limit
    → Parses limit overflow (value radix acc s) (scan_digits radix limit overflow acc s)
unfolding value scan_digits
scan_digits-Parses radix limit acc overflow [] h le = inl (le, refl)
scan_digits-Parses radix limit acc overflow (c ∷ s) h le =
    next_scan-Parses radix limit acc overflow s (to_digit radix c) h
      (λ n fits. scan_digits-Parses radix limit n overflow s h fits)

-- A text that is not empty and does not begin with a plus sign, in a radix of at least 1: if all of
-- it is digits, the parsing of a `u64` gives its value where that is below 2^64, and an overflow
-- error where it is not; if not all of it is digits, the parsing gives an error.
pub parse_u64-Parses :
    (radix c : ℕ) (s : Text)
    → 0 < radix
    → (c == b'+') ≡ false
    → Parses u64_max pos_overflow (value radix 0 (c ∷ s)) (parse_u64 radix (c ∷ s))
unfolding parse_u64
parse_u64-Parses radix c s h unsigned =
    rw (parse_u64, unsigned)
      (scan_digits-Parses radix u64_max 0 pos_overflow (c ∷ s) h (omega arith))

-- The number that a text of digits stands for, of which there must be one, and which may have a plus
-- sign in front.
abbrev pub digits_value : ℕ → Text → Option ℕ
digits_value radix [] = none
digits_value radix (c ∷ s) = value radix 0 (c ∷ s)

abbrev pub signed_value : ℕ → Text → Option ℕ
signed_value radix [] = none
signed_value radix (c ∷ s) = if c == b'+' then digits_value radix s else value radix 0 (c ∷ s)
