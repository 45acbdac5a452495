-- ===== src/Commands/Parse/Address.antt =====
-- The one-word location of src/commands.rs: an address or a function's name.
use rustybug.Prelude.{Bool-cases, []}
use rustybug.Prelude.{
  ℕ, ◌≤◌, ◌<◌, ◌≡◌, refl, false, none, some, Option, ◌∷◌, ◌==◌, ◌⊎◌, inl, inr, arith,
}
use rustybug.Prelude.Texts.{codes}
use rustybug.Prelude.Outcome.{Outcome, ok, err, map_err, map_ok}
use rustybug.Host.{Text}
use rustybug.Commands.Syntax.{Location, LocationError, invalid_hex_address}
use rustybug.Commands.Numbers.{IntError, pos_overflow, scan_digits, digits_only, parse_u64, u64_max}
use rustybug.Commands.Numbers.Value.{
  value, digits_value, signed_value, Parses, scan_digits-Parses, parse_u64-Parses,
}
use rustybug.Commands.Parse.{strip_prefix, address_or_function, location_of_word}

-- A value that fits is the address; a text without one, or one that is too large, goes by `other`.
abbrev pub Locates :
    Outcome LocationError Location → Option ℕ → Outcome LocationError Location → Type 0
Locates other (some v) r =
    ((v ≤ u64_max) × (r ≡ ok (Location.address v))) ⊎ ((u64_max < v) × (r ≡ other))
Locates other none r = r ≡ other

hex-Locates :
    (o : Option ℕ) (r : Outcome IntError ℕ)
    → Parses u64_max pos_overflow o r
    → Locates
        (err invalid_hex_address)
        o
        (map_ok Location.address (map_err (λ _. invalid_hex_address) r))
hex-Locates (some v) r (inl (le, e)) = inl (le, rw e refl)
hex-Locates (some v) r (inr (lt, e)) = inr (lt, rw e refl)
hex-Locates none r (inl e) = rw e refl
hex-Locates none r (inr e) = rw e refl

decimal-Locates :
    (word : Text) (o : Option ℕ) (r : Outcome IntError ℕ)
    → Parses u64_max pos_overflow o r
    → Locates (ok (Location.function word)) o (ok (address_or_function word r))
decimal-Locates word (some v) r (inl (le, e)) = inl (le, rw e refl)
decimal-Locates word (some v) r (inr (lt, e)) = inr (lt, rw e refl)
decimal-Locates word none r (inl e) = rw e refl
decimal-Locates word none r (inr e) = rw e refl

-- By whether there is a plus sign, and a digit after it.
plus-Locates :
    (s : Text)
    → Locates (err invalid_hex_address) (digits_value 16 s) (
        map_ok Location.address
          (map_err (λ _. invalid_hex_address) (digits_only 16 u64_max pos_overflow s)))
plus-Locates [] = refl
plus-Locates (d ∷ s) =
    hex-Locates (value 16 0 (d ∷ s)) (scan_digits 16 u64_max pos_overflow 0 (d ∷ s))
      (scan_digits-Parses 16 u64_max 0 pos_overflow (d ∷ s) (omega arith) (omega arith))

-- A word that begins with `0x` stands for the address that the rest has for a value if the rest is
-- hexadecimal digits, of which there is one at least, with a plus sign in front or without one, and
-- the value is below 2^64; with a larger value, or with any other rest, the empty one included, it is
-- refused as a hexadecimal address.
pub location_of_word-hex :
    (rest : Text)
    → Locates
        (err invalid_hex_address)
        (signed_value 16 rest)
        (location_of_word (b'0' ∷ b'x' ∷ rest))
unfolding location_of_word strip_prefix parse_u64
location_of_word-hex [] = refl
location_of_word-hex (c ∷ s) = elim (Bool-cases (c == b'+')) [
  | inl plus ↦ rw plus (plus-Locates s)
  | inr unsigned ↦ rw unsigned (
      hex-Locates (value 16 0 (c ∷ s)) (scan_digits 16 u64_max pos_overflow 0 (c ∷ s))
        (scan_digits-Parses 16 u64_max 0 pos_overflow (c ∷ s) (omega arith) (omega arith)))
]

-- A word that begins neither with `0x` nor with a plus sign stands for the address that its decimal
-- digits have for a value if all of it is digits and that is below 2^64; any other word, one with
-- too large a value included, is the name of a function.
pub location_of_word-decimal :
    (c : ℕ) (s : Text)
    → (c == b'+') ≡ false
    → strip_prefix (codes "0x") (c ∷ s) ≡ none
    → Locates (ok (Location.function (c ∷ s))) (value 10 0 (c ∷ s)) (location_of_word (c ∷ s))
unfolding location_of_word
location_of_word-decimal c s unsigned plain =
    rw (location_of_word, plain)
      (decimal-Locates (c ∷ s) (value 10 0 (c ∷ s)) (parse_u64 10 (c ∷ s))
        (parse_u64-Parses 10 c s (omega arith) unsigned))
