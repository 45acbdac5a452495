-- ===== src/Process/Life.antt =====
-- src/process.rs: `launch`, `attach` and the teardown of `Drop`.
pub mod Spare
pub mod Sends
pub mod Toy
use rustybug.Prelude.{ℕ, ◌*◌, ◌^◌, true, false, Option, none, some, [], ◌==◌, if◌then◌else◌}
use rustybug.Prelude.Outcome.{
  ok, err, panic, out_of_fuel, Action, pure, with_err, ok_or, ◌>>=◌, ◌>>◌, ignore,
}
use rustybug.Host.{Text, Pid, sigkill, sigcont, sigstop, Host, World, on_os}
use rustybug.Ptrace.{detach_child}
use rustybug.Linux.{launch_program}
use rustybug.Process.{
  stopped, is_running, ProcessError, no_pid, launch_failed, attach_failed, Process,
}
use rustybug.Process.Wait.{blocking_wait_on_signal}

-- `Duration::from_secs(15)`
abbrev pub fifteen_seconds : ℕ
fifteen_seconds = 15 * 10 ^ 9

module _ {Os Regs FpRegs : Type 0} (host : Host Os Regs FpRegs) where
  -- `impl Drop for Process`: the calls in their order, and an error of any of them is only logged.
  unfoldable pub tear_down : Process → Action (World Os) ProcessError (Unit {0})
  tear_down p = if p.pid == 0 then pure tt else (do
    (if is_running p.state
        then (do
          ignore (on_os (host.kill p.pid sigstop))
          ignore (on_os (host.waitpid p.pid false)))
        else pure tt)
    ignore (on_os (detach_child host p.pid))
    ignore (on_os (host.kill p.pid sigcont))
    (if p.terminate_on_end
        then (do
          ignore (on_os (host.kill p.pid sigkill))
          ignore (on_os (host.waitpid p.pid false)))
        else pure tt))

  -- The end of the pipe that is read from is closed.
  abbrev pub close_output : Option ℕ → World Os → World Os
  close_output none w = w
  close_output (some fd) w = record w { os = host.close_fd fd w.os }

  -- A process that goes out of scope: `Drop::drop`, and then its fields are dropped, however that ends.
  unfoldable pub drop : Process → Action (World Os) ProcessError (Unit {0})
  drop p w = let (r, w') = tear_down p w in (r, close_output p.stdout_reader w')

  -- The first wait of `launch` and `attach`. If it fails, the new process is dropped on the way out.
  abbrev pub wait_first : ℕ → Process → Action (World Os) ProcessError Process
  wait_first fuel p w =
      let (r, (p', w')) = blocking_wait_on_signal host fuel fifteen_seconds (p, w) in
      elim r [
        | ok _ ↦ (ok p', w')
        | err e ↦ (do drop p'; λ w''. (err e, w'')) w'
        | panic ↦ (do drop p'; λ w''. (panic, w'')) w'
        | out_of_fuel ↦ (out_of_fuel, w')
      ]

  unfoldable pub launch : ℕ → Text → Action (World Os) ProcessError Process
  launch fuel path = do
    found ← with_err (λ _. launch_failed) (on_os (launch_program host path))
    handle ← (λ w. (ok_or no_pid found, w))
    wait_first fuel (record {
      pid = handle.pid;
      stdout_reader = handle.stdout_reader;
      addr_offset = 0;
      terminate_on_end = true;
      state = stopped;
      breakpoints = [];
    })

  unfoldable pub attach : ℕ → Pid → Action (World Os) ProcessError Process
  attach fuel pid = do
    with_err (λ _. attach_failed) (on_os (host.ptrace_attach pid))
    wait_first fuel (record {
      pid = pid;
      stdout_reader = none;
      addr_offset = 0;
      terminate_on_end = false;
      state = stopped;
      breakpoints = [];
    })
