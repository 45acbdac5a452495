-- ===== src/Process/Session.antt =====
-- A session with a traced process of src/process.rs, as a step relation: breakpoints are set, and the
-- process is resumed or stepped and waited for until it has stopped again.
pub mod Waited
pub mod Overlaid
mod Tests
use rustybug.Prelude.{ℕ, ◌-◌, ◌%◌, ◌^◌, ◌<◌, ◌≡◌, true, none, some, Bool}
use rustybug.Prelude.Outcome.{Outcome, ok, Returned}
use rustybug.Host.{Pid, Signal, WaitStatus, Host, World}
use rustybug.Process.{State, StopReason, ProcessError, Process, stopped}
use rustybug.Process.Wait.{wait_on_signal}
use rustybug.Process.Exec
use rustybug.Process.Exec.{resume, set_breakpoint}
use rustybug.Process.Exec.Armed.{IsFree}

module _ {Os Regs FpRegs : Type 0} (host : Host Os Regs FpRegs) where
  -- The answers of waitpid up to the one that the process has stopped.
  pub data Stops (pid : Pid) : Os → Os → Type 0 where
    stops :
        {os os' : Os} {child : Pid} {signal : Signal}
        → host.waitpid pid true os ≡ (ok (WaitStatus.stopped child signal), os')
        → Stops pid os os'
    reports :
        {os os' : Os} {child : Pid} {signal : Signal} {event : ℕ}
        → host.waitpid pid true os ≡ (ok (WaitStatus.ptrace_event child signal event), os')
        → Stops pid os os'
    runs_on :
        {os os1 os' : Os}
        → host.waitpid pid true os ≡ (ok WaitStatus.still_alive, os1)
        → Stops pid os1 os'
        → Stops pid os os'

  -- A process that has run and has stopped again has the code that it had: the pages that hold it
  -- are not writable for the process, and the kernel keeps them.
  pub record CodeLaws (is_code : ℕ → Bool) : Type 0 where
    pub continued :
        (pid : Pid) (c : ℕ) (os os1 os' : Os)
        → host.ptrace_cont pid none os ≡ (ok tt, os1)
        → Stops pid os1 os'
        → c % 8 ≡ 0
        → is_code c ≡ true
        → host.ptrace_read pid c os' ≡ host.ptrace_read pid c os
    pub stepped :
        (pid : Pid) (c : ℕ) (os os1 os' : Os)
        → host.ptrace_step pid none os ≡ (ok tt, os1)
        → Stops pid os1 os'
        → c % 8 ≡ 0
        → is_code c ≡ true
        → host.ptrace_read pid c os' ≡ host.ptrace_read pid c os

  -- Polls that report nothing, and then one that reports that the process has stopped.
  pub data Waits : Process × World Os → Process × World Os → Type 0 where
    stopped_now :
        {s s' : Process × World Os} {r : StopReason}
        → wait_on_signal host s ≡ (ok (some r), s')
        → s'.0.state ≡ stopped
        → Waits s s'
    not_yet :
        {s s1 s' : Process × World Os}
        → wait_on_signal host s ≡ (ok none, s1)
        → Waits s1 s'
        → Waits s s'

  -- A call of `set_breakpoint`, whether it succeeds or not, at an address in the code that has no
  -- breakpoint yet; a `resume`, or a `step`, and a wait.
  pub data Move (is_code : ℕ → Bool) : Process × World Os → Process × World Os → Type 0 where
    sets :
        {s s' : Process × World Os} {addr : ℕ} {r : Outcome ProcessError ℕ}
        → addr < 2 ^ 64
        → is_code (addr - addr % 8) ≡ true
        → IsFree addr s.0.breakpoints
        → set_breakpoint host addr s ≡ (r, s')
        → Returned r
        → Move is_code s s'
    resumes :
        {s s1 s' : Process × World Os}
        → resume host s ≡ (ok tt, s1)
        → Waits s1 s'
        → Move is_code s s'
    steps :
        {s s1 s' : Process × World Os}
        → Exec.step host s ≡ (ok tt, s1)
        → Waits s1 s'
        → Move is_code s s'

  pub data Session (is_code : ℕ → Bool) : Process × World Os → Process × World Os → Type 0 where
    ends : {s : Process × World Os} → Session is_code s s
    goes_on :
        {s s1 s' : Process × World Os}
        → Move is_code s s1
        → Session is_code s1 s'
        → Session is_code s s'
