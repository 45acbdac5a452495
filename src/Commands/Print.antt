-- ===== src/Commands/Print.antt =====
-- The commands as the help text of src/main.rs has them written: the text that a user types for one.
pub mod RoundTrip
use rustybug.Prelude.{ℕ, ◌^◌, ◌<◌, ◌≡◌, false, none, [], ◌∷◌, ◌++◌, ◌==◌}
use rustybug.Prelude.Texts.{codes}
use rustybug.Host.{Text}
use rustybug.Commands.Syntax.{Command, Location, Expression}
use rustybug.Commands.Numbers.Decimal.{display_u64, display_i32}
use rustybug.Commands.Numbers.Value.{value}
use rustybug.Commands.Parse.{strip_prefix}
use rustybug.Commands.Parse.Trim.{IsWord}

unfoldable pub location_text : Location → Text
unfolding display_u64
location_text (Location.address a) = display_u64 a
location_text (Location.line file line) = file ++ b' ' ∷ display_u64 line
location_text (Location.function name) = name

unfoldable pub command_text : Command → Text
unfolding location_text display_i32
command_text Command.quit = codes "quit"
command_text Command.toggle_logs = codes "logs"
command_text Command.help = codes "help"
command_text Command.restart = codes "restart"
command_text (Command.load path) = codes "load " ++ path
command_text (Command.attach pid) = codes "attach " ++ display_i32 pid
command_text Command.continue = codes "continue"
command_text Command.step = codes "step"
command_text (Command.break loc) = codes "break " ++ location_text loc
command_text Command.null = []
command_text (Command.print Expression.registers) = codes "print registers"
command_text Command.list_breakpoints = codes "list"
command_text Command.status = codes "status"

-- A text that is one word.
abbrev pub IsOneWord : Text → Type 0
IsOneWord [] = ⊥
IsOneWord (c ∷ s) = IsWord (c ∷ s)

-- It looks like no number.
abbrev pub IsNoNumber : Text → Type 0
IsNoNumber [] = ⊥
IsNoNumber (c ∷ s) =
    ((c == b'+') ≡ false) × (strip_prefix (codes "0x") (c ∷ s) ≡ none) × (value 10 0 (c ∷ s) ≡ none)

-- Numbers are in their range; names are one word, and a function's is no number; a path does not
-- begin with the keyword again, nor does a file that is called `break` go before a line.
abbrev pub IsTypable : Command → Type 0
IsTypable (Command.load path) = strip_prefix (codes "load ") path ≡ none
IsTypable (Command.attach pid) = pid < 2 ^ 32
IsTypable (Command.break (Location.address a)) = a < 2 ^ 64
IsTypable (Command.break (Location.line file line)) =
    IsOneWord file
    × (line < 2 ^ 64)
    × (strip_prefix (codes "break ") (location_text (Location.line file line)) ≡ none)
IsTypable (Command.break (Location.function name)) = IsOneWord name × IsNoNumber name
IsTypable _ = Unit
