-- ===== src/Commands/Numbers.antt =====
-- The standard library's integer parsing, as src/commands.rs uses it: `from_str_radix` and `parse`
-- of `u64`, `usize` (64 bits) and `i32`.
pub mod Value
pub mod Decimal
use rustybug.Prelude.{
  ℕ, ◌+◌, ◌-◌, ◌*◌, ◌%◌, ◌^◌, ◌&&◌, Option, none, some, [], ◌∷◌, ltb, leb, ◌==◌, if◌then◌else◌,
}
use rustybug.Prelude.Texts.{codes}
use rustybug.Prelude.Outcome.{Outcome, ok, err, map_ok}
use rustybug.Host.{Text}

-- `IntErrorKind`
pub data IntError : Type 0 where
  empty invalid_digit pos_overflow neg_overflow : IntError

-- `to_string()` of the error.
abbrev pub message : IntError → Text
message empty = codes "cannot parse integer from empty string"
message invalid_digit = codes "invalid digit found in string"
message pos_overflow = codes "number too large to fit in target type"
message neg_overflow = codes "number too small to fit in target type"

-- `char::to_digit`, for a radix of at most 36
abbrev digit_value : ℕ → Option ℕ
digit_value c =
    if leb b'0' c && leb c b'9'
    then some (c - b'0')
    else if leb b'a' c && leb c b'z'
    then some (c - b'a' + 10)
    else if leb b'A' c && leb c b'Z'
    then some (c - b'A' + 10)
    else none

unfoldable pub to_digit : ℕ → ℕ → Option ℕ
to_digit radix c = elim (digit_value c) [
  | none ↦ none
  | some d ↦ if ltb d radix then some d else none
]

-- The loop over the digits: `checked_mul` and `checked_add` fail exactly above the limit.
unfoldable pub scan_digits : ℕ → ℕ → IntError → ℕ → Text → Outcome IntError ℕ
scan_digits radix limit overflow acc [] = ok acc
scan_digits radix limit overflow acc (c ∷ s) =
    let rest = λ (n : ℕ). scan_digits radix limit overflow n s in
    elim (to_digit radix c) [
      | none ↦ err invalid_digit
      | some d ↦ let n = acc * radix + d in if ltb limit n then err overflow else rest n
    ]

-- Digits, of which there must be one.
abbrev pub digits_only : ℕ → ℕ → IntError → Text → Outcome IntError ℕ
digits_only radix limit overflow [] = err invalid_digit
digits_only radix limit overflow (c ∷ s) = scan_digits radix limit overflow 0 (c ∷ s)

abbrev pub u64_max : ℕ
u64_max = 2 ^ 64 - 1

-- `u64::from_str_radix`, and `parse::<u64>` at radix 10. A leading `+` is taken, a `-` is not.
unfoldable pub parse_u64 : ℕ → Text → Outcome IntError ℕ
unfolding scan_digits to_digit
parse_u64 radix [] = err empty
parse_u64 radix (c ∷ s) =
    if c == b'+'
    then digits_only radix u64_max pos_overflow s
    else digits_only radix u64_max pos_overflow (c ∷ s)

-- `parse::<i32>`; the result is the bit pattern.
unfoldable pub parse_i32 : Text → Outcome IntError ℕ
unfolding scan_digits to_digit
parse_i32 [] = err empty
parse_i32 (c ∷ s) =
    if c == b'+'
    then digits_only 10 (2 ^ 31 - 1) pos_overflow s
    else if c == b'-'
    then map_ok (λ m. (2 ^ 32 - m) % 2 ^ 32) (digits_only 10 (2 ^ 31) neg_overflow s)
    else digits_only 10 (2 ^ 31 - 1) pos_overflow (c ∷ s)
