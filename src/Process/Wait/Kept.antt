-- ===== src/Process/Wait/Kept.antt =====
-- What the waits of src/process.rs leave alone in the process.
use rustybug.Prelude.{
  ℕ, zero, suc, ◌-◌, ◌≡◌, refl, Bool, true, false, Option, none, some, ltb, arith, if◌then◌else◌,
}
use rustybug.Prelude.Outcome.{Outcome, ok, err, panic, out_of_fuel, run_then}
use rustybug.Host.{Host, World}
use rustybug.Process.{StopReason, ProcessError, timeout, Process, Method}
use rustybug.Process.Wait.{wait_on_signal, wait_loop, blocking_wait_on_signal}

-- All but the pid and the state is the same.
pub record IsSameBeside (p p' : Process) : Type 0 where
  pub stdout_reader : p'.stdout_reader ≡ p.stdout_reader
  pub addr_offset : p'.addr_offset ≡ p.addr_offset
  pub terminate_on_end : p'.terminate_on_end ≡ p.terminate_on_end
  pub breakpoints : p'.breakpoints ≡ p.breakpoints

module _ {Os Regs FpRegs : Type 0} (host : Host Os Regs FpRegs) where
  pub wait_on_signal_same :
      (p p0 : Process) (w : World Os)
      → IsSameBeside p0 p
      → IsSameBeside p0 (wait_on_signal host (p, w)).1.0
  unfolding wait_on_signal
  wait_on_signal_same p p0 w same = ground (arith, same)

  if_same :
      {A : Type 0} (p0 : Process) (b : Bool) (x y : Outcome ProcessError A × (Process × World Os))
      → IsSameBeside p0 x.1.0
      → IsSameBeside p0 y.1.0
      → IsSameBeside p0
          (if◌then◌else◌ {A = Outcome ProcessError A × (Process × World Os)} b x y).1.0
  if_same p0 true x y sx sy = sx
  if_same p0 false x y sx sy = sy

  -- What the loop does with the answer of a poll.
  abbrev go_on :
      (Process × World Os → Outcome ProcessError StopReason × (Process × World Os))
      → Option StopReason
      → Method Os StopReason
  go_on k res s = elim res [ some stop ↦ (ok stop, s) | none ↦ k s ]

  go_on_same :
      (p0 : Process)
      (k : Process × World Os → Outcome ProcessError StopReason × (Process × World Os))
      (m : Outcome ProcessError (Option StopReason) × (Process × World Os))
      → ((p : Process) (w : World Os) → IsSameBeside p0 p → IsSameBeside p0 (k (p, w)).1.0)
      → IsSameBeside p0 m.1.0
      → IsSameBeside p0 (run_then m (go_on k)).1.0
  go_on_same p0 k (ok none, (p, w)) ks s = ks p w s
  go_on_same p0 k (ok (some stop), s) ks same = same
  go_on_same p0 k (err e, s) ks same = same
  go_on_same p0 k (panic, s) ks same = same
  go_on_same p0 k (out_of_fuel, s) ks same = same

  wait_loop_same :
      (fuel started limit : ℕ) (p p0 : Process) (w : World Os)
      → IsSameBeside p0 p
      → IsSameBeside p0 (wait_loop host fuel started limit (p, w)).1.0
  unfolding wait_loop
  wait_loop_same zero started limit p p0 w same = same
  wait_loop_same (suc fuel) started limit p p0 w same =
      if_same p0 (ltb (host.now w.os - started) limit) _ (err timeout, (p, w))
        (go_on_same p0 (λ s. wait_loop host fuel started limit s) (wait_on_signal host (p, w))
          (λ p' w' s. wait_loop_same fuel started limit p' p0 w' s)
          (wait_on_signal_same p p0 w same))
        same

  pub blocking_wait_on_signal_same :
      (fuel limit : ℕ) (p : Process) (w : World Os)
      → IsSameBeside p (blocking_wait_on_signal host fuel limit (p, w)).1.0
  unfolding blocking_wait_on_signal
  blocking_wait_on_signal_same fuel limit p w =
      wait_loop_same fuel (host.now w.os) limit p p w (record {
        stdout_reader = refl;
        addr_offset = refl;
        terminate_on_end = refl;
        breakpoints = refl;
      })
