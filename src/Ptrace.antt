-- ===== src/Ptrace.antt =====
-- src/ptrace_control.rs: the thin wrappers over the ptrace calls.
use rustybug.Prelude.{ℕ, ◌-◌, ◌*◌, ◌^◌, bit_or, Option, none, ◌==◌, if◌then◌else◌}
use rustybug.Prelude.Outcome.{Outcome, ok, err, panic, out_of_fuel, map_ok, Action}
use rustybug.Host.{Pid, Errno, Signal, unknown_errno, Host}

-- `Errno::result`: a return of -1 stands for the error in `errno`.
abbrev pub errno_result : ℕ × ℕ → Outcome Errno ℕ
errno_result (ret, e) = if ret == 2 ^ 64 - 1 then err e else ok ret

-- libc::RIP
abbrev pub pc_index : ℕ
pc_index = 16

module _ {Os Regs FpRegs : Type 0} (host : Host Os Regs FpRegs) where
  -- TRACESYSGOOD, TRACEEXEC, TRACEEXIT, TRACECLONE, TRACEFORK and TRACEVFORK
  unfoldable pub trace_children : Pid → Action Os Errno (Unit {0})
  trace_children pid =
      let options = bit_or (bit_or (bit_or (bit_or (bit_or 0x1 0x10) 0x40) 0x8) 0x2) 0x4 in
      host.ptrace_setoptions pid options

  unfoldable pub detach_child : Pid → Action Os Errno (Unit {0})
  detach_child pid = host.ptrace_detach pid none

  unfoldable pub continue_exec : Pid → Option Signal → Action Os Errno (Unit {0})
  continue_exec pid sig = host.ptrace_cont pid sig

  unfoldable pub single_step : Pid → Action Os Errno (Unit {0})
  single_step pid = host.ptrace_step pid none

  unfoldable pub read_address : Pid → ℕ → Os → Outcome Errno ℕ
  read_address pid address = host.ptrace_read pid address

  unfoldable pub write_to_address : Pid → ℕ → ℕ → Action Os Errno (Unit {0})
  write_to_address pid address word = host.ptrace_write pid address word

  -- `errno` is cleared before the call, so a register that holds -1 is told from an error.
  unfoldable pub current_instruction_pointer : Pid → Os → Outcome Errno ℕ
  current_instruction_pointer pid os =
      let answer = host.peek_user pid (pc_index * 8) os in
      elim (errno_result answer) [
        | ok _ ↦ ok answer.0
        | err e ↦ if e == unknown_errno then ok answer.0 else err e
        | panic ↦ panic
        | out_of_fuel ↦ out_of_fuel
      ]

  unfoldable pub set_instruction_pointer : Pid → ℕ → Action Os Errno ℕ
  set_instruction_pointer pid pc os =
      let (answer, os') = host.poke_user pid (pc_index * 8) pc os in
      (map_ok (λ _. 0) (errno_result answer), os')

  unfoldable pub request_trace : Action Os Errno (Unit {0})
  request_trace = host.ptrace_traceme

  unfoldable pub get_event_data : Pid → Os → Outcome Errno ℕ
  get_event_data pid = host.ptrace_getevent pid
