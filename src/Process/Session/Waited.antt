-- ===== src/Process/Session/Waited.antt =====
-- What a wait of src/process.rs that ends with the process stopped has been told by waitpid, and
-- what it leaves alone.
use rustybug.Prelude.{◌≡◌, ◌≢◌, refl, sym, subst, ◌∙◌, true, none, some, ◌==◌, Bool-cases, inl, inr}
use rustybug.Prelude.Outcome.{Outcome, ok, err, panic, out_of_fuel}
use rustybug.Host.{Pid, Errno, WaitStatus, Host, World}
use rustybug.Process.{stopped, running, exited, terminated, StopReason, Process}
use rustybug.Process.Wait.{on_status, wait_on_signal}
use rustybug.Process.Session.{Stops, Waits}

exited-ne-stopped : exited ≢ stopped
exited-ne-stopped e = cc e

running-ne-stopped : running ≢ stopped
running-ne-stopped e = cc e

terminated-ne-stopped : terminated ≢ stopped
terminated-ne-stopped e = cc e

module _ {Os Regs FpRegs : Type 0} (host : Host Os Regs FpRegs) where
  -- The same process, and the same breakpoints.
  abbrev pub Same : Process → Process → Type 0
  Same p p' = (p'.pid ≡ p.pid) × (p'.breakpoints ≡ p.breakpoints)

  -- By the answer of waitpid: a poll that reports a stopped process has seen it stop.
  wait_found :
      (p p' : Process) (w w' : World Os) (os1 : Os) (found : Outcome Errno WaitStatus)
      (r : StopReason)
      → host.waitpid p.pid true w.os ≡ (found, os1)
      → wait_on_signal host (p, w) ≡ (ok (some r), (p', w'))
      → p'.state ≡ stopped
      → Stops host p.pid w.os w'.os × Same p p'
  unfolding wait_on_signal on_status
  wait_found p p' w w' os1 (ok (WaitStatus.stopped child signal)) r e run is =
      let told = rw (wait_on_signal, e) at run in
      (
        Stops.stops (e ∙ (λ i. (ok (WaitStatus.stopped child signal), (told i).1.1.os))),
        (sym (λ i. (told i).1.0.pid), sym (λ i. (told i).1.0.breakpoints)),
      )
  wait_found p p' w w' os1 (ok (WaitStatus.ptrace_event child signal event)) r e run is =
      let told = rw (wait_on_signal, e) at run in
      (
        Stops.reports
            (e ∙ (λ i. (ok (WaitStatus.ptrace_event child signal event), (told i).1.1.os))),
        (sym (λ i. (told i).1.0.pid), sym (λ i. (told i).1.0.breakpoints)),
      )
  wait_found p p' w w' os1 (ok (WaitStatus.exited child code)) r e run is =
      elim (Bool-cases (child == p.pid)) [
        | inl own ↦
            absurd
              (exited-ne-stopped ((λ i. (rw (wait_on_signal, e, own) at run i).1.0.state) ∙ is))
        | inr other ↦
            absurd
              (running-ne-stopped ((λ i. (rw (wait_on_signal, e, other) at run i).1.0.state) ∙ is))
      ]
  wait_found p p' w w' os1 (ok (WaitStatus.signaled child signal core)) r e run is =
      absurd (terminated-ne-stopped ((λ i. (rw (wait_on_signal, e) at run i).1.0.state) ∙ is))
  wait_found p p' w w' os1 (ok WaitStatus.still_alive) r e run is =
      absurd (cc (rw (wait_on_signal, e) at run))
  wait_found p p' w w' os1 (ok (WaitStatus.ptrace_syscall child)) r e run is =
      absurd (cc (rw (wait_on_signal, e) at run))
  wait_found p p' w w' os1 (ok (WaitStatus.continued child)) r e run is =
      absurd (cc (rw (wait_on_signal, e) at run))
  wait_found p p' w w' os1 (err x) r e run is = absurd (cc (rw (wait_on_signal, e) at run))
  wait_found p p' w w' os1 panic r e run is = absurd (cc (rw (wait_on_signal, e) at run))
  wait_found p p' w w' os1 out_of_fuel r e run is = absurd (cc (rw (wait_on_signal, e) at run))

  wait_none :
      (p p1 : Process) (w w1 : World Os) (os1 : Os) (found : Outcome Errno WaitStatus)
      → host.waitpid p.pid true w.os ≡ (found, os1)
      → wait_on_signal host (p, w) ≡ (ok none, (p1, w1))
      → (host.waitpid p.pid true w.os ≡ (ok WaitStatus.still_alive, w1.os)) × Same p p1
  unfolding wait_on_signal on_status
  wait_none p p1 w w1 os1 (ok WaitStatus.still_alive) e run =
      let told = rw (wait_on_signal, e) at run in
      (
        e ∙ (λ i. (ok WaitStatus.still_alive, (told i).1.1.os)),
        (sym (λ i. (told i).1.0.pid), sym (λ i. (told i).1.0.breakpoints)),
      )
  wait_none p p1 w w1 os1 (ok (WaitStatus.exited child code)) e run =
      elim (Bool-cases (child == p.pid)) [
        | inl own ↦ absurd (cc (rw (wait_on_signal, e, own) at run))
        | inr other ↦ absurd (cc (rw (wait_on_signal, e, other) at run))
      ]
  wait_none p p1 w w1 os1 (ok (WaitStatus.signaled child signal core)) e run =
      absurd (cc (rw (wait_on_signal, e) at run))
  wait_none p p1 w w1 os1 (ok (WaitStatus.stopped child signal)) e run =
      absurd (cc (rw (wait_on_signal, e) at run))
  wait_none p p1 w w1 os1 (ok (WaitStatus.ptrace_event child signal event)) e run =
      absurd (cc (rw (wait_on_signal, e) at run))
  wait_none p p1 w w1 os1 (ok (WaitStatus.ptrace_syscall child)) e run =
      absurd (cc (rw (wait_on_signal, e) at run))
  wait_none p p1 w w1 os1 (ok (WaitStatus.continued child)) e run =
      absurd (cc (rw (wait_on_signal, e) at run))
  wait_none p p1 w w1 os1 (err x) e run = absurd (cc (rw (wait_on_signal, e) at run))
  wait_none p p1 w w1 os1 panic e run = absurd (cc (rw (wait_on_signal, e) at run))
  wait_none p p1 w w1 os1 out_of_fuel e run = absurd (cc (rw (wait_on_signal, e) at run))

  -- A wait that finds the process stopped has seen it stop, and nothing else of it has changed.
  pub waited_for :
      (s s' : Process × World Os)
      → Waits host s s'
      → Stops host s.0.pid s.1.os s'.1.os × Same s.0 s'.0
  waited_for s s' (Waits.stopped_now {r = r} run is) =
      let (found, os1) = host.waitpid s.0.pid true s.1.os in
      wait_found s.0 s'.0 s.1 s'.1 os1 found r refl run is
  waited_for s s' (Waits.not_yet {s1 = s1} run rest) =
      let (found, os1) = host.waitpid s.0.pid true s.1.os in
      let (alive, (owner, list)) = wait_none s.0 s1.0 s.1 s1.1 os1 found refl run in
      let (later, (owner', list')) = waited_for s1 s' rest in
      (
        Stops.runs_on alive (subst (λ (x : Pid). Stops host x s1.1.os s'.1.os) owner later),
        (owner' ∙ owner, list' ∙ list),
      )
