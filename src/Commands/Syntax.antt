-- ===== src/Commands/Syntax.antt =====
-- src/commands.rs: the commands, where a breakpoint goes, and what a text can fail of.
use rustybug.Prelude.{ℕ, Bool, true, false}
use rustybug.Host.{Text, Pid}

pub data LocationError : Type 0 where
  unknown_source_location invalid_hex_address invalid_line_number invalid_file_name : LocationError
  too_many_args : ℕ → LocationError
  empty : LocationError

pub data ExpressionError : Type 0 where
  invalid_expression : ExpressionError

pub data ParseError : Type 0 where
  invalid_command : Text → ParseError
  -- the index, the argument and the message
  invalid_argument : ℕ → Text → Text → ParseError
  invalid_location : LocationError → ParseError
  invalid_expression : ExpressionError → ParseError

pub data Expression : Type 0 where
  registers : Expression

pub data Location : Type 0 where
  address : ℕ → Location
  -- the file and the line
  line : Text → ℕ → Location
  function : Text → Location

pub data Command : Type 0 where
  quit toggle_logs help restart : Command
  load : Text → Command
  attach : Pid → Command
  continue step : Command
  break : Location → Command
  null : Command
  print : Expression → Command
  list_breakpoints status : Command

unfoldable pub store_in_history : Command → Bool
store_in_history Command.null = false
store_in_history Command.help = false
store_in_history Command.quit = false
store_in_history _ = true
