-- ===== src/Commands/Parse.antt =====
-- src/commands.rs: the three `from_str` functions, over texts as code points.
pub mod Blank
pub mod Address
pub mod Trim
use rustybug.Prelude.{
  ℕ, zero, suc, Bool, true, false, ◌&&◌, ◌||◌, Option, none, some, List, [], ◌∷◌, ◌++◌, leb, ◌==◌,
  length, if◌then◌else◌,
}
use rustybug.Prelude.Texts.{codes, text_eq}
use rustybug.Prelude.Outcome.{Outcome, ok, err, panic, out_of_fuel, map_err, map_ok}
use rustybug.Host.{Text}
use rustybug.Commands.Syntax.{
  LocationError, invalid_hex_address, invalid_line_number, too_many_args, ExpressionError,
  ParseError, invalid_command, invalid_argument, invalid_location, Expression, Location, Command,
}
use rustybug.Commands.Numbers.{message, parse_u64, parse_i32}

-- `char::is_whitespace`: Unicode's White_Space.
unfoldable pub is_whitespace : ℕ → Bool
is_whitespace c =
    (leb 9 c && leb c 13)
    || c == 32
    || c == 0x85
    || c == 0xA0
    || c == 0x1680
    || (leb 0x2000 c && leb c 0x200A)
    || c == 0x2028
    || c == 0x2029
    || c == 0x202F
    || c == 0x205F
    || c == 0x3000

-- `s.trim().is_empty()`
unfoldable pub is_blank : Text → Bool
is_blank [] = true
is_blank (c ∷ s) = is_whitespace c && is_blank s

-- `str::strip_prefix`
unfoldable pub strip_prefix : Text → Text → Option Text
strip_prefix [] s = some s
strip_prefix (p ∷ ps) [] = none
strip_prefix (p ∷ ps) (c ∷ s) = if p == c then strip_prefix ps s else none

abbrev pub starts_with : Text → Text → Bool
starts_with p s = elim (strip_prefix p s) [ none ↦ false | some _ ↦ true ]

-- `str::trim_start_matches`: the prefix is taken off as often as it is there. Each time takes a
-- character at least, so the length is enough.
unfoldable pub trim_rounds : ℕ → Text → Text → Text
trim_rounds zero p s = s
trim_rounds (suc n) p s =
    let more = λ (t : Text). trim_rounds n p t in
    elim (strip_prefix p s) [ none ↦ s | some t ↦ more t ]

abbrev pub trim_start_matches : Text → Text → Text
trim_start_matches p s = trim_rounds (length s) p s

-- `split_whitespace().collect()`, with the word that is being read
abbrev pub push_word : Text → List Text → List Text
push_word [] ws = ws
push_word (c ∷ w) ws = (c ∷ w) ∷ ws

unfoldable pub words_from : Text → Text → List Text
words_from word [] = push_word word []
words_from word (c ∷ s) =
    let closed = words_from [] s in
    let longer = words_from (word ++ c ∷ []) s in
    if is_whitespace c then push_word word closed else longer

unfoldable pub split_whitespace : Text → List Text
unfolding words_from is_whitespace
split_whitespace s = words_from [] s

-- `if let Ok(addr) = …`
abbrev pub address_or_function : {E : Type 0} → Text → Outcome E ℕ → Location
address_or_function word (ok a) = Location.address a
address_or_function word _ = Location.function word

unfoldable pub location_of_word : Text → Outcome LocationError Location
unfolding strip_prefix
location_of_word word = elim (strip_prefix (codes "0x") word) [
  | some hex_addr ↦
      map_ok Location.address (map_err (λ _. invalid_hex_address) (parse_u64 16 hex_addr))
  | none ↦ ok (address_or_function word (parse_u64 10 word))
]

unfoldable pub location_of : List Text → Outcome LocationError Location
location_of [] = err LocationError.empty
location_of (word ∷ []) = location_of_word word
location_of (file ∷ number ∷ []) =
    map_ok (Location.line file) (map_err (λ _. invalid_line_number) (parse_u64 10 number))
location_of (a ∷ b ∷ c ∷ more) = err (too_many_args (length (a ∷ b ∷ c ∷ more)))

unfoldable pub location_from_str : Text → Outcome LocationError Location
location_from_str location = location_of (split_whitespace location)

unfoldable pub expression_from_str : Text → Outcome ExpressionError Expression
unfolding text_eq
expression_from_str value =
    if text_eq value (codes "registers")
    then ok Expression.registers
    else err ExpressionError.invalid_expression

-- The commands that are one word.
unfoldable pub keyword : Text → Option Command
keyword s =
    if text_eq s (codes "q") || text_eq s (codes "quit")
    then some Command.quit
    else if text_eq s (codes "logs")
    then some Command.toggle_logs
    else if text_eq s (codes "?") || text_eq s (codes "help")
    then some Command.help
    else if text_eq s (codes "continue") || text_eq s (codes "cont") || text_eq s (codes "c")
    then some Command.continue
    else if text_eq s (codes "step")
    then some Command.step
    else if text_eq s (codes "status")
    then some Command.status
    else if text_eq s (codes "restart")
    then some Command.restart
    else if text_eq s (codes "list") || text_eq s (codes "l")
    then some Command.list_breakpoints
    else none

unfoldable pub attach_command : Text → Outcome ParseError Command
attach_command pid_str = elim (parse_i32 pid_str) [
  | ok pid ↦ ok (Command.attach pid)
  | err e ↦ err (invalid_argument 0 pid_str (message e))
  | panic ↦ panic
  | out_of_fuel ↦ out_of_fuel
]

-- The commands that take an argument, and what is left.
unfoldable pub with_argument : Text → Outcome ParseError Command
with_argument x =
    if starts_with (codes "print ") x
    then map_ok Command.print (
        map_err ParseError.invalid_expression
          (expression_from_str (trim_start_matches (codes "print ") x)))
    else if starts_with (codes "load ") x
    then ok (Command.load (trim_start_matches (codes "load ") x))
    else if starts_with (codes "attach ") x
    then attach_command (trim_start_matches (codes "attach ") x)
    else if starts_with (codes "break ") x
    then map_ok Command.break
        (map_err invalid_location (location_from_str (trim_start_matches (codes "break ") x)))
    else if is_blank x
    then ok Command.null
    else err (invalid_command x)

unfoldable pub from_str : Text → Outcome ParseError Command
from_str command = elim (keyword command) [ some c ↦ ok c | none ↦ with_argument command ]
