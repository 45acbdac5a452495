-- ===== src/App/Report.antt =====
-- src/main.rs: what `run_command` tells the log of its answers.
pub mod Added
use rustybug.Prelude.{ℕ, Option, none, some, List, [], ◌∷◌}
use rustybug.Prelude.Outcome.{Outcome, ok, err, panic, out_of_fuel}
use rustybug.Host.{Host, World}
use rustybug.Commands.Syntax.{Command, Location, Expression}
use rustybug.Elf.{Formats}
use rustybug.Breakpoint.{Breakpoint}
use rustybug.Process.{Registers, ProcessError}
use rustybug.Debugger.{Error, process_error, Debugger, get_registers, set_break}
use rustybug.Debugger.Show.{Status, list_breakpoints, log_status}
use rustybug.App.{App}

-- What is logged, before it is made into text.
pub data Message (Regs FpRegs : Type 0) : Type 0 where
  no_process : Message Regs FpRegs
  status : Status → Message Regs FpRegs
  breakpoints : List Breakpoint → Message Regs FpRegs
  registers : Registers Regs FpRegs → Message Regs FpRegs
  no_registers : Error → Message Regs FpRegs
  not_debugging : Message Regs FpRegs
  added : ℕ → Message Regs FpRegs
  not_added : Error → Message Regs FpRegs

-- One message where a call succeeds, and another where it fails.
abbrev pub tell :
    {E F A Regs FpRegs : Type 0}
    → (A → Message Regs FpRegs)
    → (E → Message Regs FpRegs)
    → Outcome E A
    → Outcome F (Option (Message Regs FpRegs))
tell good bad (ok a) = ok (some (good a))
tell good bad (err e) = ok (some (bad e))
tell good bad panic = panic
tell good bad out_of_fuel = out_of_fuel

module _ {Os Regs FpRegs Obj Dwarf Header CompUnit : Type 0} (host : Host Os Regs FpRegs)
    (formats : Formats Obj Dwarf Header CompUnit) where
  -- The message of a command that finds the application in this state; the commands that are not
  -- listed log nothing themselves. `log_status` reports no error.
  unfoldable pub answer :
      Command → App Obj Dwarf → World Os → Outcome Error (Option (Message Regs FpRegs))
  unfolding list_breakpoints log_status
  answer Command.status a w = elim a.debugger [
    | none ↦ ok (some no_process)
    | some d ↦ tell status (λ e. no_process) (log_status host d w.os)
  ]
  answer Command.list_breakpoints a w = elim a.debugger [
    | none ↦ ok (some (breakpoints []))
    | some d ↦ ok (some (breakpoints (list_breakpoints d)))
  ]
  answer (Command.print Expression.registers) a w = elim a.debugger [
    | none ↦ ok (some not_debugging)
    | some d ↦ tell registers no_registers (get_registers host formats d w.os)
  ]
  answer (Command.break loc) a w = elim a.debugger [
    | none ↦ ok none
    | some d ↦ tell added not_added (set_break host formats loc (d, w)).0
  ]
  answer _ a w = ok none
