-- ===== src/Debugger/Show.antt =====
-- src/lib.rs: what is shown of the arguments and of the process. A message is what the log is told,
-- before it is made into text.
use rustybug.Prelude.{ℕ, Option, none, some, List, ◌++◌, if◌then◌else◌}
use rustybug.Prelude.Texts.{codes}
use rustybug.Prelude.Outcome.{Outcome, ok, err, panic, out_of_fuel}
use rustybug.Host.{Text, Pid, Host}
use rustybug.Commands.Numbers.Decimal.{display_i32}
use rustybug.Breakpoint.{Breakpoint}
use rustybug.Process.{State, ProcessError, is_stopped}
use rustybug.Process.Access.{pc}
use rustybug.Debugger.{Args, Debugger}

-- A path displays as its text.
abbrev shown_name : Option Text → Option Pid → Text
shown_name (some input) pid = input
shown_name none (some pid) = codes "pid: " ++ display_i32 pid
shown_name none none = codes "No Attached Process"

unfoldable pub name : Args → Text
name a = shown_name a.input a.pid

-- The messages of `log_status`.
pub data Status : Type 0 where
  stopped_at : ℕ → Status
  stopped_somewhere : Status
  in_state : State → Status

-- `if let Ok(addr) = self.root.pc()`
abbrev pub stopped_status : Outcome ProcessError ℕ → Outcome ProcessError Status
stopped_status (ok addr) = ok (stopped_at addr)
stopped_status (err e) = ok stopped_somewhere
stopped_status panic = panic
stopped_status out_of_fuel = out_of_fuel

module _ {Obj Dwarf : Type 0} where
  unfoldable pub list_breakpoints : Debugger Obj Dwarf → List Breakpoint
  list_breakpoints d = d.root.breakpoints

  unfoldable pub log_status :
      {Os Regs FpRegs : Type 0}
      → Host Os Regs FpRegs
      → Debugger Obj Dwarf
      → Os
      → Outcome ProcessError Status
  log_status host d os =
      if is_stopped d.root.state
      then stopped_status (pc host d.root os)
      else ok (in_state d.root.state)
