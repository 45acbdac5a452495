-- ===== src/Process/Wait/Loop.antt =====
-- The loop of `blocking_wait_on_signal` of src/process.rs: it ends, and how.
use rustybug.Prelude.{
  ℕ, zero, suc, ◌-◌, ◌<◌, ◌≤◌, ◌≡◌, ◌≢◌, refl, subst, true, Option, none, some, ltb, arith,
  Bool-cases, inl, inr,
}
use rustybug.Prelude.Outcome.{Outcome, ok, err, panic, out_of_fuel, run_then}
use rustybug.Host.{Host, World}
use rustybug.Host.Laws.{WaitLaws}
use rustybug.Process.{StopReason, ProcessError, timeout, Process}
use rustybug.Process.Wait.{wait_on_signal, wait_loop, blocking_wait_on_signal}

module _ {Os Regs FpRegs : Type 0} (host : Host Os Regs FpRegs) where
  abbrev pub Here : Type 0
  Here = Process × World Os

  -- A run of the loop as polls that report nothing, up to the one that ends it: the time is up
  -- before a poll, or a poll reports a stop, fails or panics.
  pub data Polls (started limit : ℕ) : Here → Outcome ProcessError StopReason × Here → Type 0 where
    expired :
        {s : Here} → limit ≤ host.now s.1.os - started → Polls started limit s (err timeout, s)
    seen :
        {s t : Here} {stop : StopReason}
        → host.now s.1.os - started < limit
        → wait_on_signal host s ≡ (ok (some stop), t)
        → Polls started limit s (ok stop, t)
    failed :
        {s t : Here} {e : ProcessError}
        → host.now s.1.os - started < limit
        → wait_on_signal host s ≡ (err e, t)
        → Polls started limit s (err e, t)
    panicked :
        {s t : Here}
        → host.now s.1.os - started < limit
        → wait_on_signal host s ≡ (panic, t)
        → Polls started limit s (panic, t)
    again :
        {s t : Here} {r : Outcome ProcessError StopReason × Here}
        → host.now s.1.os - started < limit
        → wait_on_signal host s ≡ (ok none, t)
        → Polls started limit t r
        → Polls started limit s r

  -- One round of the loop, by what its poll gives.
  abbrev round :
      (Here → Outcome ProcessError StopReason × Here)
      → Outcome ProcessError (Option StopReason) × Here
      → Outcome ProcessError StopReason × Here
  round k m = run_then m (λ res s'. elim res [ some stop ↦ (ok stop, s') | none ↦ k s' ])

  round-Polls :
      (started limit : ℕ) (s : Here) (k : Here → Outcome ProcessError StopReason × Here)
      (m : Outcome ProcessError (Option StopReason) × Here)
      → host.now s.1.os - started < limit
      → wait_on_signal host s ≡ m
      → m.0 ≢ out_of_fuel
      → ((t : Here) → m ≡ (ok none, t) → Polls started limit t (k t))
      → Polls started limit s (round k m)
  round-Polls started limit s k (ok none, t) early e live next = again early e (next t refl)
  round-Polls started limit s k (ok (some stop), t) early e live next = seen early e
  round-Polls started limit s k (err x, t) early e live next = failed early e
  round-Polls started limit s k (panic, t) early e live next = panicked early e
  round-Polls started limit s k (out_of_fuel, t) early e live next = absurd (live refl)

  module _ (laws : WaitLaws host) where
    -- Each poll moves the clock, and does not run out of fuel.
    wait_on_signal-later :
        (s : Here)
        → (host.now s.1.os < host.now (wait_on_signal host s).1.1.os)
          × ((wait_on_signal host s).0 ≢ out_of_fuel)
    unfolding wait_on_signal
    wait_on_signal-later s =
        ground (arith, laws.later s.0.pid true s.1.os, laws.returns s.0.pid true s.1.os)

    wait_loop-Polls :
        (fuel started limit : ℕ) (s : Here)
        → limit - (host.now s.1.os - started) < fuel
        → started ≤ host.now s.1.os
        → Polls started limit s (wait_loop host fuel started limit s)
    unfolding wait_loop
    wait_loop-Polls zero started limit s h k = absurd (omega arith)
    wait_loop-Polls (suc fuel) started limit s h k =
        elim (Bool-cases (ltb (host.now s.1.os - started) limit)) [
          | inl early ↦
              let (later, live) = wait_on_signal-later s in
              let before : host.now s.1.os - started < limit = ground arith in
              rw early (
                round-Polls started limit s (wait_loop host fuel started limit)
                  (wait_on_signal host s) before refl live
                  (λ t e.
                    let moved : host.now s.1.os < host.now t.1.os =
                      subst
                        (λ (x : Outcome ProcessError (Option StopReason) × Here).
                          host.now s.1.os < host.now x.1.1.os)
                        e later in
                    wait_loop-Polls fuel started limit t (omega arith) (omega arith)))
          | inr late ↦ rw late (expired (ground arith))
        ]

    -- If the kernel keeps WaitLaws, so that each wait moves the clock, fuel above the time limit in
    -- nanoseconds is enough: the loop comes to an end, and what it returns is what polling gives.
    -- Each poll but the last reports nothing and is made before the time is up; the last one gives
    -- the stop, the error or the panic; and `Timeout` is returned only when the time is up.
    pub blocking_wait_on_signal-Polls :
        (fuel limit : ℕ) (s : Here)
        → limit < fuel
        → Polls (host.now s.1.os) limit s (blocking_wait_on_signal host fuel limit s)
    unfolding blocking_wait_on_signal
    blocking_wait_on_signal-Polls fuel limit s h =
        wait_loop-Polls fuel (host.now s.1.os) limit s (omega arith) (omega arith)
