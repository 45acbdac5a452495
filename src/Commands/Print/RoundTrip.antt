-- ===== src/Commands/Print/RoundTrip.antt =====
-- What is typed for a command is parsed as that command by src/commands.rs.
use rustybug.Prelude.{
  ℕ, ◌^◌, ◌<◌, ◌≡◌, refl, sym, ap, subst, ◌∙◌, false, none, [], ◌∷◌, ◌++◌, arith, All, inl, inr,
  Bool-cases, ltb, Option,
}
use rustybug.Prelude.Texts.{codes, text_eq}
use rustybug.Prelude.Outcome.{Outcome, ok, map_err, map_ok}
use rustybug.Host.{Text}
use rustybug.Commands.Syntax.{Command, Location, Expression, invalid_location}
use rustybug.Commands.Numbers.{parse_u64, IntError}
use rustybug.Commands.Numbers.Decimal.{
  display_u64, display_i32, IsDigit, display_u64-IsDigit, parse_u64-display_u64,
  parse_i32-display_i32,
}
use rustybug.Commands.Parse.{
  strip_prefix, is_whitespace, trim_start_matches, keyword, with_argument, attach_command, from_str,
  location_from_str, location_of, location_of_word, expression_from_str, trim_rounds, is_blank,
  address_or_function,
}
use rustybug.Commands.Parse.Trim.{
  IsWord, trim_start_matches-append, split_whitespace-word, split_whitespace-words,
}
use rustybug.Commands.Parse.Address.{Locates, location_of_word-decimal}
use rustybug.Commands.Print.{location_text, command_text, IsOneWord, IsNoNumber, IsTypable}

load_text :
    (s : Text)
    → from_str (codes "load " ++ s)
      ≡ ok (Command.load (trim_start_matches (codes "load ") (codes "load " ++ s)))
unfolding from_str keyword text_eq with_argument strip_prefix
load_text s = refl

attach_text :
    (s : Text)
    → from_str (codes "attach " ++ s)
      ≡ attach_command (trim_start_matches (codes "attach ") (codes "attach " ++ s))
unfolding from_str keyword text_eq with_argument strip_prefix
attach_text s = refl

break_text :
    (s : Text)
    → from_str (codes "break " ++ s)
      ≡ map_ok Command.break (
          map_err invalid_location
            (location_from_str (trim_start_matches (codes "break ") (codes "break " ++ s))))
unfolding from_str keyword text_eq with_argument strip_prefix
break_text s = refl

-- A prefix with a space in it is not in a word.
strip_prefix-word : (p q s : Text) → IsWord s → strip_prefix (p ++ b' ' ∷ q) s ≡ none
unfolding strip_prefix is_whitespace
strip_prefix-word [] q [] h = refl
strip_prefix-word (a ∷ p) q [] h = refl
strip_prefix-word [] q (c ∷ s) (plain, h) = ground arith
strip_prefix-word (a ∷ p) q (c ∷ s) (plain, h) = ground (arith, strip_prefix-word p q s h)

digit-plain : (c : ℕ) → IsDigit c → is_whitespace c ≡ false
unfolding is_whitespace
digit-plain c (lo, hi) = ground arith

digits-IsWord : (s : Text) → All IsDigit s → IsWord s
digits-IsWord [] all = tt
digits-IsWord (c ∷ s) (d, all) = (digit-plain c d, digits-IsWord s all)

digit_no_prefix :
    (c p : ℕ) (ps s : Text) → IsDigit c → b'9' < p → strip_prefix (p ∷ ps) (c ∷ s) ≡ none
unfolding strip_prefix
digit_no_prefix c p ps s (lo, hi) h = ground arith

digits_no_hex : (c : ℕ) (s : Text) → All IsDigit (c ∷ s) → strip_prefix (codes "0x") (c ∷ s) ≡ none
unfolding strip_prefix
digits_no_hex c [] (d, all) = ground arith
digits_no_hex c (e ∷ s) (d, (d', all)) = ground arith

one_word :
    (c : ℕ) (s : Text) → IsWord (c ∷ s) → location_from_str (c ∷ s) ≡ location_of_word (c ∷ s)
unfolding location_from_str location_of
one_word c s h = ap location_of (split_whitespace-word c s h)

plain_word :
    (c : ℕ) (s : Text)
    → strip_prefix (codes "0x") (c ∷ s) ≡ none
    → location_of_word (c ∷ s) ≡ ok (address_or_function (c ∷ s) (parse_u64 10 (c ∷ s)))
unfolding location_of_word
plain_word c s h = rw (location_of_word, h) refl

address-round : (a : ℕ) → a < 2 ^ 64 → location_from_str (display_u64 a) ≡ ok (Location.address a)
address-round a h =
    let (c, s, e, digit, more) = display_u64-IsDigit a in
    rw e (
      one_word c s (digits-IsWord (c ∷ s) (digit, more))
      ∙ plain_word c s (digits_no_hex c s (digit, more))
      ∙ ap (λ (r : Outcome IntError ℕ). ok (address_or_function (c ∷ s) r))
          (ap (parse_u64 10) (sym e) ∙ parse_u64-display_u64 a h))

function-round :
    (name : Text)
    → IsOneWord name
    → IsNoNumber name
    → location_from_str name ≡ ok (Location.function name)
function-round [] word plain = absurd word
function-round (c ∷ s) word (unsigned, no_hex, no_number) =
    let found = location_of_word-decimal c s unsigned no_hex in
    one_word c s word
    ∙ subst
        (λ (o : Option ℕ). Locates (ok (Location.function (c ∷ s))) o (location_of_word (c ∷ s)))
        no_number found

line-round :
    (file : Text) (line : ℕ)
    → IsOneWord file
    → line < 2 ^ 64
    → location_from_str (location_text (Location.line file line)) ≡ ok (Location.line file line)
unfolding location_from_str location_of location_text
line-round [] line word h = absurd word
line-round (c ∷ s) line word h =
    let (d, t, e, digit, more) = display_u64-IsDigit line in
    rw e (
      rw (split_whitespace-words c s d t word (digits-IsWord (d ∷ t) (digit, more)))
        (rw (← e) (rw (parse_u64-display_u64 line h) refl)))

break-round :
    (loc : Location)
    → strip_prefix (codes "break ") (location_text loc) ≡ none
    → location_from_str (location_text loc) ≡ ok loc
    → from_str (command_text (Command.break loc)) ≡ ok (Command.break loc)
unfolding command_text
break-round loc once parsed =
    break_text (location_text loc)
    ∙ rw (trim_start_matches-append b'b' (codes "reak ") (location_text loc) once) (rw parsed refl)

address_once : (a : ℕ) → strip_prefix (codes "break ") (display_u64 a) ≡ none
address_once a =
    let (c, s, e, digit, more) = display_u64-IsDigit a in
    rw e (digit_no_prefix c b'b' (codes "reak ") s digit (omega arith))

i32_once : (n : ℕ) → strip_prefix (codes "attach ") (display_i32 n) ≡ none
unfolding display_i32 strip_prefix
i32_once n = elim (Bool-cases (ltb n (2 ^ 31))) [
  | inl pos ↦
      let (c, s, e, digit, more) = display_u64-IsDigit n in
      rw pos (rw e (digit_no_prefix c b'a' (codes "ttach ") s digit (omega arith)))
  | inr neg ↦ rw neg refl
]

name_once : (name : Text) → IsOneWord name → strip_prefix (codes "break ") name ≡ none
name_once [] h = absurd h
name_once (c ∷ s) h = strip_prefix-word (codes "break") [] (c ∷ s) h

attach-round :
    (pid : ℕ)
    → pid < 2 ^ 32
    → from_str (command_text (Command.attach pid)) ≡ ok (Command.attach pid)
unfolding command_text attach_command
attach-round pid h =
    attach_text (display_i32 pid)
    ∙ rw (trim_start_matches-append b'a' (codes "ttach ") (display_i32 pid) (i32_once pid))
        (rw (attach_command, parse_i32-display_i32 pid h) refl)

-- The text that is typed for a command is parsed as that command, if its numbers are in their
-- range, its names are single words, a function's name looks like no number, and no path or file
-- name repeats the keyword in front of it.
pub from_str-command_text : (c : Command) → IsTypable c → from_str (command_text c) ≡ ok c
unfolding command_text from_str keyword text_eq with_argument strip_prefix expression_from_str
    trim_rounds is_blank
from_str-command_text (Command.load path) h =
    load_text path ∙ rw (trim_start_matches-append b'l' (codes "oad ") path h) refl
from_str-command_text (Command.attach pid) h = attach-round pid h
from_str-command_text (Command.break (Location.address a)) h =
    break-round (Location.address a) (address_once a) (address-round a h)
from_str-command_text (Command.break (Location.line file line)) (word, fits, once) =
    break-round (Location.line file line) once (line-round file line word fits)
from_str-command_text (Command.break (Location.function name)) (word, plain) =
    break-round (Location.function name) (name_once name word) (function-round name word plain)
from_str-command_text (Command.print Expression.registers) h = refl
from_str-command_text Command.quit h = refl
from_str-command_text Command.toggle_logs h = refl
from_str-command_text Command.help h = refl
from_str-command_text Command.restart h = refl
from_str-command_text Command.continue h = refl
from_str-command_text Command.step h = refl
from_str-command_text Command.null h = refl
from_str-command_text Command.list_breakpoints h = refl
from_str-command_text Command.status h = refl
