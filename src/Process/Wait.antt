-- ===== src/Process/Wait.antt =====
-- src/process.rs: `wait_on_signal` and `blocking_wait_on_signal`.
pub mod Report
pub mod Loop
pub mod Kept
use rustybug.Prelude.{ℕ, zero, suc, ◌-◌, ◌%◌, true, Option, none, some, ◌==◌, ltb, if◌then◌else◌}
use rustybug.Prelude.Outcome.{
  Outcome, ok, err, panic, out_of_fuel, to_option, reads, with_err, ◌>>=◌,
}
use rustybug.Host.{Pid, Errno, WaitStatus, Host, World, on_os, on_world}
use rustybug.Process.{
  TrapType, single_step, software_break, hardware_break, try_from, signalled, return, State,
  stopped, running, exited, terminated, StopReason, new_stop, ProcessError, wait_failed, timeout,
  Process, Method,
}

-- What the `match` on the wait status gives: the reason, if any, the next state, and the pid.
pub record Waited : Type 0 where
  pub stop : Option StopReason
  pub next : State
  pub next_pid : Pid

abbrev waited : StopReason → State → Pid → Outcome ProcessError Waited
waited r s pid = ok (record { stop = some r; next = s; next_pid = pid })

-- `unimplemented!` is a panic. A `PtraceEvent` that is not known keeps no event.
unfoldable pub on_status : Process → WaitStatus → Outcome ProcessError Waited
unfolding try_from
on_status p WaitStatus.still_alive = ok (record { stop = none; next = p.state; next_pid = p.pid })
on_status p (WaitStatus.exited child ret_code) =
    let reason = new_stop exited (return (ret_code % 256)) in
    if child == p.pid then waited reason exited 0 else waited reason running p.pid
on_status p (WaitStatus.stopped child signal) =
    waited (new_stop stopped (signalled signal)) stopped p.pid
on_status p (WaitStatus.signaled pid signal core) =
    waited (new_stop terminated (signalled signal)) terminated p.pid
on_status p (WaitStatus.ptrace_event pid signal event) =
    let reason = new_stop stopped (signalled signal) in
    waited (record reason { event = to_option (try_from event) }) stopped p.pid
on_status p _ = panic

-- TRAP_TRACE, SI_KERNEL and TRAP_HWBKPT
unfoldable pub trap_type : ℕ → Option TrapType
trap_type si_code =
    if si_code == 2
    then some single_step
    else if si_code == 0x80
    then some software_break
    else if si_code == 4
    then some hardware_break
    else none

-- An error of `getsiginfo` leaves the reason as it is.
abbrev pub trap_of : Outcome Errno ℕ → Option TrapType
trap_of (ok si_code) = trap_type si_code
trap_of _ = none

abbrev pub with_trap : Outcome Errno ℕ → Option StopReason → Option StopReason
with_trap info none = none
with_trap info (some r) = some (record r { trap_reason = trap_of info })

module _ {Os Regs FpRegs : Type 0} (host : Host Os Regs FpRegs) where
  -- The signal's details are asked of the pid as it is by then, which is 0 after an exit.
  unfoldable pub wait_on_signal : Method Os (Option StopReason)
  unfolding on_status trap_type
  wait_on_signal = do
    status ← λ (p, w).
        with_err (λ _. wait_failed) (on_world {T = Process} (on_os (host.waitpid p.pid true)))
          (p, w)
    found ← reads (λ (p, w). on_status p status)
    λ (p, w). (
      ok (with_trap (host.ptrace_getsiginfo found.next_pid w.os) found.stop),
      (record p { pid = found.next_pid; state = found.next }, w),
    )

  -- The loop, on fuel; `started` is the reading of the clock before it.
  unfoldable pub wait_loop : ℕ → ℕ → ℕ → Method Os StopReason
  wait_loop zero started limit s = (out_of_fuel, s)
  wait_loop (suc fuel) started limit s =
      let again = λ (s' : Process × World Os). wait_loop fuel started limit s' in
      if ltb (host.now s.1.os - started) limit
      then (do res ← wait_on_signal; λ s'. elim res [ some stop ↦ (ok stop, s') | none ↦ again s' ])
          s
      else (err timeout, s)

  unfoldable pub blocking_wait_on_signal : ℕ → ℕ → Method Os StopReason
  unfolding wait_loop
  blocking_wait_on_signal fuel limit s = wait_loop fuel (host.now s.1.os) limit s
