-- ===== src/Commands/Tests.antt =====
-- The unit tests of src/commands.rs, and the witnesses of this component's theorems.
use rustybug.Prelude.{◌≡◌, ◌↔◌, none, true, refl, arith}
use rustybug.Commands.Print.{command_text}
use rustybug.Commands.Print.RoundTrip.{from_str-command_text}
use rustybug.Commands.Parse.Blank.{from_str-null}
use rustybug.Commands.Numbers.Value.{value}
use rustybug.Commands.Numbers.Value.{signed_value}
use rustybug.Commands.Parse.Address.{Locates, location_of_word-hex, location_of_word-decimal}
use rustybug.Prelude.Texts.{codes, text_eq}
use rustybug.Prelude.Outcome.{ok, err}
use rustybug.Commands.Syntax.{
  Command, Location, Expression, invalid_argument, invalid_location, invalid_command,
  invalid_hex_address, invalid_line_number, too_many_args, LocationError,
}
use rustybug.Commands.Numbers.{parse_u64, parse_i32, message, invalid_digit}
use rustybug.Commands.Parse.{
  from_str, keyword, with_argument, attach_command, location_from_str, location_of,
  location_of_word, expression_from_str, split_whitespace, strip_prefix, trim_rounds, is_blank,
  is_whitespace,
}

parser : Unit {0}
unfolding from_str keyword with_argument attach_command location_from_str location_of
    location_of_word expression_from_str split_whitespace strip_prefix trim_rounds is_blank
    is_whitespace text_eq parse_u64 parse_i32
parser = tt

basic_parsing :
    (from_str (codes "quit") ≡ ok Command.quit)
    × (from_str (codes "?") ≡ ok Command.help)
    × (from_str (codes "load help.rs") ≡ ok (Command.load (codes "help.rs")))
    × (from_str (codes "attach 546") ≡ ok (Command.attach 546))
    × (from_str (codes "print registers") ≡ ok (Command.print Expression.registers))
    × (from_str (codes "") ≡ ok Command.null)
    × (from_str (codes "break main") ≡ ok (Command.break (Location.function (codes "main"))))
unfolding parser
basic_parsing = (refl, refl, refl, refl, refl, refl, refl)

invalid_command_args :
    (from_str (codes "attach boop")
      ≡ err (invalid_argument 0 (codes "boop") (message invalid_digit)))
    × (from_str (codes "dance") ≡ err (invalid_command (codes "dance")))
    × (from_str (codes "break 1 main.rs") ≡ err (invalid_location invalid_line_number))
    × (from_str (codes "break main.rs 1 2") ≡ err (invalid_location (too_many_args 3)))
    × (from_str (codes "break ") ≡ err (invalid_location LocationError.empty))
    × (from_str (codes "break 0xgg") ≡ err (invalid_location invalid_hex_address))
unfolding parser
invalid_command_args = (refl, refl, refl, refl, refl, refl)

break_command_parsing :
    (from_str (codes "break main.rs 5") ≡ ok (Command.break (Location.line (codes "main.rs") 5)))
    × (from_str (codes "break 0x12AD6") ≡ ok (Command.break (Location.address 0x12ad6)))
    × (from_str (codes "break 1234") ≡ ok (Command.break (Location.address 1234)))
unfolding parser
break_command_parsing = (refl, refl, refl)

from_str-null_example : (from_str (codes "  ") ≡ ok Command.null) ↔ (is_blank (codes "  ") ≡ true)
from_str-null_example = from_str-null (codes "  ")

location_of_word-hex_example :
    Locates
      (err invalid_hex_address)
      (signed_value 16 (codes "+ff"))
      (location_of_word (codes "0x+ff"))
location_of_word-hex_example = location_of_word-hex (codes "+ff")

plain_number : strip_prefix (codes "0x") (codes "18446744073709551616") ≡ none
unfolding parser
plain_number = refl

location_of_word-decimal_example :
    Locates
      (ok (Location.function (codes "18446744073709551616")))
      (value 10 0 (codes "18446744073709551616"))
      (location_of_word (codes "18446744073709551616"))
location_of_word-decimal_example =
    location_of_word-decimal b'1' (codes "8446744073709551616") refl plain_number

-- "break 4198400"
from_str-command_text_example :
    from_str (command_text (Command.break (Location.address 0x401000)))
    ≡ ok (Command.break (Location.address 0x401000))
from_str-command_text_example =
    from_str-command_text (Command.break (Location.address 0x401000)) (omega arith)
