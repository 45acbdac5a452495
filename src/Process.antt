-- ===== src/Process.antt =====
-- src/process.rs: the types of a traced process. Its methods are in the modules below: waiting in
-- Wait, running and breakpoints in Exec, registers, memory and output in Access, launch, attach
-- and teardown in Life.
use rustybug.Prelude.{ℕ, Bool, true, false, Option, none, some, List, ◌==◌, if◌then◌else◌}
use rustybug.Prelude.Outcome.{Outcome, ok, err, Action}
use rustybug.Host.{Pid, Errno, unknown_errno, Signal, World}
use rustybug.Breakpoint.{Breakpoint}
pub mod Wait
pub mod Exec
pub mod Access
pub mod Life
pub mod Session
mod Tests

pub record Registers (Regs FpRegs : Type 0) : Type 0 where
  pub regs : Regs
  pub fpregs : FpRegs

pub data TrapType : Type 0 where
  single_step software_break hardware_break : TrapType

pub data Event : Type 0 where
  exit exec fork vfork spawn : Event

-- PTRACE_EVENT_FORK, _VFORK, _CLONE, _EXEC and _EXIT
unfoldable pub try_from : ℕ → Outcome Errno Event
try_from event =
    if event == 1
    then ok fork
    else if event == 2
    then ok vfork
    else if event == 3
    then ok spawn
    else if event == 4
    then ok exec
    else if event == 6
    then ok exit
    else err unknown_errno

pub data Info : Type 0 where
  signalled : Signal → Info
  return : ℕ → Info

pub data State : Type 0 where
  stopped running exited terminated : State

unfoldable pub is_closed : State → Bool
is_closed exited = true
is_closed terminated = true
is_closed _ = false

abbrev pub is_running : State → Bool
is_running running = true
is_running _ = false

abbrev pub is_stopped : State → Bool
is_stopped stopped = true
is_stopped _ = false

pub record StopReason : Type 0 where
  pub reason : State
  pub info : Info
  pub event : Option Event
  pub trap_reason : Option TrapType

abbrev pub new_stop : State → Info → StopReason
new_stop reason info = record { reason = reason; info = info; event = none; trap_reason = none }

pub data ProcessError : Type 0 where
  no_pid launch_failed attach_failed wait_failed continue_failed single_step_failed timeout
        write_failed register_read_failed fp_register_read_failed register_write_failed
        fp_register_write_failed breakpoint_set_failed kill_failed :
      ProcessError

pub record Process : Type 0 where
  pub pid : Pid
  pub stdout_reader : Option ℕ
  pub addr_offset : ℕ
  pub terminate_on_end : Bool
  pub state : State
  pub breakpoints : List Breakpoint

-- A method on `&mut self`.
abbrev pub Method : Type 0 → Type 0 → Type 0
Method Os A = Action (Process × World Os) ProcessError A
