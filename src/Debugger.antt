-- ===== src/Debugger.antt =====
-- src/lib.rs: the arguments and `DebuggerStateMachine`.
pub mod States
pub mod Break
pub mod Show
pub mod Start
pub mod Owned
mod Tests
use rustybug.Prelude.{ℕ, Bool, true, false, Option, none, some, List, [], ◌∷◌, if◌then◌else◌}
use rustybug.Prelude.Outcome.{
  Outcome, ok, err, panic, out_of_fuel, Action, pure, fail, gets, reads, map_err, with_err, ◌>>=◌,
  ◌>>◌,
}
use rustybug.Host.{Text, Pid, Errno, Host, World, add_u64}
use rustybug.Commands.Syntax.{Location}
use rustybug.Elf.{ObjectError, addr, Die, Formats, ExecutableFile, runtime_address_offset}
use rustybug.Elf.Cache.{load}
use rustybug.Elf.Lookup.{find_functions}
use rustybug.Process.{Registers, State, is_stopped, StopReason, ProcessError, Process}
use rustybug.Process.Wait.{wait_on_signal, blocking_wait_on_signal}
use rustybug.Process.Exec
use rustybug.Process.Exec.{set_breakpoint}
use rustybug.Process.Access.{mapped_address, get_all_registers}
use rustybug.Process.Life.{drop, launch, attach}

pub record Args : Type 0 where
  pub input : Option Text
  pub pid : Option Pid

unfoldable pub set_input : Text → Args → Args
set_input input a = record { input = some input; pid = none }

unfoldable pub set_pid : Pid → Args → Args
set_pid pid a = record { input = none; pid = some pid }

-- The `anyhow::Error` of these methods.
pub data Error : Type 0 where
  process_error : ProcessError → Error
  object_error : ObjectError → Error
  read_error : Error
  not_stopped : State → Error
  io_error : Errno → Error
  line_unimplemented no_function no_elf : Error

pub record Debugger (Obj Dwarf : Type 0) : Type 0 where
  pub root : Process
  pub elf : Option (ExecutableFile Obj Dwarf)
  pub args : Args

module _ {Os Regs FpRegs Obj Dwarf Header CompUnit : Type 0} (host : Host Os Regs FpRegs)
    (formats : Formats Obj Dwarf Header CompUnit) where
  -- A method on `&mut self`.
  abbrev pub Method : Type 0 → Type 0
  Method A = Action (Debugger Obj Dwarf × World Os) Error A

  -- A failed load is only logged.
  abbrev load_or_none : Text → Action (World Os) Error (Option (ExecutableFile Obj Dwarf))
  load_or_none input w =
      let (r, w') = load host formats input w in
      (
        elim r [
          | ok elf ↦ ok (some elf)
          | err _ ↦ ok none
          | panic ↦ panic
          | out_of_fuel ↦ out_of_fuel
        ],
        w',
      )

  abbrev root_and_elf :
      ℕ
      → Option Text
      → Option Pid
      → Action (World Os) Error (Process × Option (ExecutableFile Obj Dwarf))
  root_and_elf fuel (some input) pid = do
    elf ← load_or_none input
    root ← with_err process_error (launch host fuel input)
    pure (root, elf)
  root_and_elf fuel none (some pid) = do
    root ← with_err process_error (attach host fuel pid)
    pure (root, none)
  root_and_elf fuel none none = λ w. (panic, w)

  abbrev offset_for : Process → Option (ExecutableFile Obj Dwarf) → Option ℕ → Outcome Error Process
  offset_for root (some elf) (some mapped) =
      elim (runtime_address_offset formats {E = Error} host.overflow_checks elf mapped) [
        | ok n ↦ ok (record root { addr_offset = n })
        | err e ↦ err e
        | panic ↦ panic
        | out_of_fuel ↦ out_of_fuel
      ]
  offset_for root _ _ = ok root

  -- Where the offset panics, the process is dropped on the way out.
  abbrev pub begun :
      Args
      → Option (ExecutableFile Obj Dwarf)
      → Process
      → Outcome Error Process
      → Action (World Os) Error (Debugger Obj Dwarf)
  begun args elf root (ok root') w = (ok (record { root = root'; elf = elf; args = args }), w)
  begun args elf root (err e) w = (do with_err process_error (drop host root); λ w'. (err e, w')) w
  begun args elf root panic w = (do with_err process_error (drop host root); λ w'. (panic, w')) w
  begun args elf root out_of_fuel w = (out_of_fuel, w)

  unfoldable pub start : ℕ → Args → Action (World Os) Error (Debugger Obj Dwarf)
  start fuel args = do
    (root, elf) ← root_and_elf fuel args.input args.pid
    λ w. begun args elf root (offset_for root elf (mapped_address host root w.os)) w

  -- A method of the root process.
  abbrev pub on_root : {A : Type 0} → Action (Process × World Os) ProcessError A → Method A
  on_root m (d, w) =
      let (r, (p, w')) = m (d.root, w) in (map_err process_error r, (record d { root = p }, w'))

  unfoldable pub blocking_wait : ℕ → ℕ → Method StopReason
  blocking_wait fuel duration = on_root (blocking_wait_on_signal host fuel duration)

  unfoldable pub wait : Method (Option StopReason)
  wait = on_root (wait_on_signal host)

  unfoldable pub cont : Method (Unit {0})
  cont (d, w) =
      if is_stopped d.root.state then on_root (Exec.resume host) (d, w) else (ok tt, (d, w))

  unfoldable pub step : Method (Unit {0})
  step (d, w) = if is_stopped d.root.state then on_root (Exec.step host) (d, w) else (ok tt, (d, w))

  unfoldable pub get_registers : Debugger Obj Dwarf → Os → Outcome Error (Registers Regs FpRegs)
  get_registers d os =
      if is_stopped d.root.state
      then map_err process_error (get_all_registers host d.root os)
      else err (not_stopped d.root.state)

  abbrev pub low_pc_of : Die → Option ℕ
  low_pc_of die = elim die.low_pc [ ok (some (addr x)) ↦ some x | _ ↦ none ]

  abbrev break_at : ℕ → Method ℕ
  break_at low_pc = do
    place ← reads (λ (d, w). add_u64 host.overflow_checks low_pc d.root.addr_offset)
    on_root (set_breakpoint host place)

  -- The first of the functions that has an address takes the breakpoint.
  unfoldable pub break_first : List (CompUnit × ℕ) → Method ℕ
  break_first [] = fail no_function
  break_first ((unit, offset) ∷ more) =
      let rest = break_first more in
      elim (formats.entry unit offset) [
        | ok die ↦ elim (low_pc_of die) [ some low ↦ break_at low | none ↦ rest ]
        | err _ ↦ fail read_error
        | panic ↦ λ s. (panic, s)
        | out_of_fuel ↦ λ s. (out_of_fuel, s)
      ]

  abbrev pub break_function : Text → Option (ExecutableFile Obj Dwarf) → Method ℕ
  break_function name none = fail no_elf
  break_function name (some elf) = do
    functions ← with_err object_error (reads (λ _. find_functions formats elf name))
    break_first functions

  unfoldable pub set_break : Location → Method ℕ
  set_break (Location.address a) = on_root (set_breakpoint host a)
  set_break (Location.line file line) = fail line_unimplemented
  set_break (Location.function fn_name) = do
    elf ← gets (λ (d, w). d.elf)
    break_function fn_name elf

  unfoldable pub has_elf_file : Debugger Obj Dwarf → Bool
  has_elf_file d = elim d.elf [ none ↦ false | some _ ↦ true ]
