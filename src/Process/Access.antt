-- ===== src/Process/Access.antt =====
-- src/process.rs: registers, memory, the program counter, the mapped address and the output.
use rustybug.Prelude.{ℕ, Bool, false, Option, none, some, List, [], ◌∷◌, ltb, length, if◌then◌else◌}
use rustybug.Prelude.Outcome.{Outcome, ok, map_err, and_then, with_err, ◌>>◌}
use rustybug.Prelude.Paths.{path_eq}
use rustybug.Host.{Text, sigstop, MemoryMap, Host, on_os, on_world}
use rustybug.Ptrace.{current_instruction_pointer, trace_children, write_to_address}
use rustybug.Process.{
  Registers, ProcessError, write_failed, register_read_failed, fp_register_read_failed,
  register_write_failed, fp_register_write_failed, kill_failed, Process, Method,
}

abbrev names : Text → MemoryMap → Bool
names path m = elim m.pathname [ none ↦ false | some p ↦ path_eq p path ]

unfoldable pub first_address : Text → List MemoryMap → Option ℕ
first_address path [] = none
first_address path (m ∷ ms) = if names path m then some m.address else first_address path ms

module _ {Os Regs FpRegs : Type 0} (host : Host Os Regs FpRegs) where
  unfoldable pub stop : Method Os (Unit {0})
  stop (p, w) =
      with_err (λ _. kill_failed) (on_world {T = Process} (on_os (host.kill p.pid sigstop))) (p, w)

  unfoldable pub pc : Process → Os → Outcome ProcessError ℕ
  pc p os = map_err (λ _. register_read_failed) (current_instruction_pointer host p.pid os)

  -- The error is only logged.
  unfoldable pub stop_on_events : Process → Os → Os
  stop_on_events p os = (trace_children host p.pid os).1

  -- The start of the first mapping of the process's own executable.
  unfoldable pub mapped_address : Process → Os → Option ℕ
  mapped_address p os = elim (host.exe p.pid os) [
    | none ↦ none
    | some exe ↦ elim (host.maps p.pid os) [ none ↦ none | some ms ↦ first_address exe ms ]
  ]

  unfoldable pub write_user_area : ℕ → ℕ → Method Os (Unit {0})
  write_user_area offset word (p, w) =
      with_err (λ _. write_failed)
        (on_world {T = Process} (on_os (write_to_address host p.pid offset word))) (p, w)

  unfoldable pub get_all_registers : Process → Os → Outcome ProcessError (Registers Regs FpRegs)
  get_all_registers p os =
      and_then (map_err (λ _. register_read_failed) (host.ptrace_getregs p.pid os)) λ regs.
        and_then (map_err (λ _. fp_register_read_failed) (host.ptrace_getfpregs p.pid os))
          λ fpregs. ok (record { regs = regs; fpregs = fpregs })

  unfoldable pub write_gp_registers : Regs → Method Os (Unit {0})
  write_gp_registers regs (p, w) =
      with_err (λ _. register_write_failed)
        (on_world {T = Process} (on_os (host.ptrace_setregs p.pid regs))) (p, w)

  unfoldable pub write_fp_registers : FpRegs → Method Os (Unit {0})
  write_fp_registers fpregs (p, w) =
      with_err (λ _. fp_register_write_failed)
        (on_world {T = Process} (on_os (host.ptrace_setfpregs p.pid fpregs))) (p, w)

  unfoldable pub write_all_registers : Registers Regs FpRegs → Method Os (Unit {0})
  unfolding write_gp_registers write_fp_registers
  write_all_registers registers = do
    write_gp_registers registers.regs
    write_fp_registers registers.fpregs

  -- At most 1024 bytes; nothing read is no output. The text is kept as its bytes, before
  -- `String::from_utf8_lossy`.
  unfoldable pub read_stdout : Process → Os → Option (List ℕ) × Os
  read_stdout p os = elim p.stdout_reader [
    | none ↦ (none, os)
    | some reader ↦
        let (got, os') = host.read_fd reader 1024 os in
        (elim got [ none ↦ none | some buf ↦ if ltb 0 (length buf) then some buf else none ], os')
  ]
