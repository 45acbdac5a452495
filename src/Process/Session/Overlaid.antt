-- ===== src/Process/Session/Overlaid.antt =====
-- Throughout a session with a process of src/process.rs its code is the program, with interrupts
-- at the armed addresses and nowhere else.
use rustybug.Prelude.{ℕ, ◌-◌, ◌%◌, ◌^◌, ◌<◌, ◌≡◌, refl, sym, ap, subst, ◌∙◌, true, List}
use rustybug.Prelude.Outcome.{Outcome, ok, err, panic, out_of_fuel, Returned, run_then-eq-ok, ◌>>◌}
use rustybug.Host.{Pid, Host, World}
use rustybug.Host.Laws.{PtraceLaws}
use rustybug.Ptrace.{continue_exec, single_step}
use rustybug.Breakpoint.{Breakpoint}
use rustybug.Breakpoint.Overlay.{Program}
use rustybug.Process.{stopped, running, ProcessError, Process}
use rustybug.Process.Exec
use rustybug.Process.Exec.{hits_from, resume_at, step_at, set_state, resume, set_breakpoint}
use rustybug.Process.Exec.Armed.{armed_of, IsFree, IsOverlaid, Shows-kept}
use rustybug.Process.Exec.Refine.{Arms, set_breakpoint-Arms}
use rustybug.Process.Exec.Visit.{resume-Turns, step-Turns}
use rustybug.Process.Session.{Stops, CodeLaws, Waits, Move, Session}
use rustybug.Process.Session.Waited.{waited_for}

module _ {Os Regs FpRegs : Type 0} (host : Host Os Regs FpRegs) where
  resume_hits :
      (p p' : Process) (w w' : World Os)
      → resume host (p, w) ≡ (ok tt, (p', w'))
      → (is : List ℕ) × (hits_from host 0 p.pid p.breakpoints w.os ≡ ok is)
  unfolding resume
  resume_hits p p' w w' run =
      let (is, _, found, _) =
        run_then-eq-ok (hits_from host 0 p.pid p.breakpoints w.os, (p, w))
          (λ is. do resume_at host is; set_state host running) tt (p', w') run in
      (is, λ i. (found i).0)

  step_hits :
      (p p' : Process) (w w' : World Os)
      → Exec.step host (p, w) ≡ (ok tt, (p', w'))
      → (is : List ℕ) × (hits_from host 0 p.pid p.breakpoints w.os ≡ ok is)
  unfolding Exec.step
  step_hits p p' w w' run =
      let (is, _, found, _) =
        run_then-eq-ok (hits_from host 0 p.pid p.breakpoints w.os, (p, w))
          (λ is. do step_at host is; set_state host stopped) tt (p', w') run in
      (is, λ i. (found i).0)

  -- The process that it was, and its code and breakpoints an overlay of the program.
  abbrev pub Keeps : Program → Process × World Os → Process × World Os → Type 0
  Keeps program s s' =
      (s'.0.pid ≡ s.0.pid) × IsOverlaid host s.0.pid program s'.0.breakpoints s'.1.os

  -- The overlay that was handed to the kernel is still there when the process has stopped.
  stopped-IsOverlaid :
      (program : Program) (pid : Pid) (bs bs' : List Breakpoint) (os os' : Os)
      → ((c : ℕ)
          → c % 8 ≡ 0
          → program.is_code c ≡ true
          → host.ptrace_read pid c os' ≡ host.ptrace_read pid c os)
      → bs' ≡ bs
      → IsOverlaid host pid program bs os
      → IsOverlaid host pid program bs' os'
  stopped-IsOverlaid program pid bs bs' os os' kept list over = rw list (record {
    fits = over.fits;
    distinct = over.distinct;
    shows = Shows-kept host pid program (armed_of pid bs) os os' kept over.shows;
  })

  module _ (laws : PtraceLaws host) where
    set_breakpoint-Keeps :
        (program : Program) (addr : ℕ) (p : Process) (w : World Os) (s' : Process × World Os)
        (r : Outcome ProcessError ℕ)
        → addr < 2 ^ 64
        → program.is_code (addr - addr % 8) ≡ true
        → IsFree addr p.breakpoints
        → IsOverlaid host p.pid program p.breakpoints w.os
        → set_breakpoint host addr (p, w) ≡ (r, s')
        → Returned r
        → Keeps program (p, w) s'
    set_breakpoint-Keeps program addr p w s' (ok id) h hcode free over run done =
        let (over', owner, _) =
          subst
            (λ (end : Outcome ProcessError ℕ × (Process × World Os)).
              Arms host addr program p end.1.0 end.1.1.os end.0)
            run (set_breakpoint-Arms host laws addr program p w h free hcode over) in
        (owner, over')
    set_breakpoint-Keeps program addr p w s' (err e) h hcode free over run done =
        let (same, over') =
          subst
            (λ (end : Outcome ProcessError ℕ × (Process × World Os)).
              Arms host addr program p end.1.0 end.1.1.os end.0)
            run (set_breakpoint-Arms host laws addr program p w h free hcode over) in
        (
          ap (λ (x : Process). x.pid) same,
          subst (λ (bs : List Breakpoint). IsOverlaid host p.pid program bs s'.1.os)
              (sym (ap (λ (x : Process). x.breakpoints) same)) over',
        )
    set_breakpoint-Keeps program addr p w s' panic h hcode free over run done = elim done [ ]
    set_breakpoint-Keeps program addr p w s' out_of_fuel h hcode free over run done = elim done [ ]

    resume-Keeps :
        (program : Program) (p p1 p' : Process) (w w1 w' : World Os)
        → CodeLaws host program.is_code
        → IsOverlaid host p.pid program p.breakpoints w.os
        → resume host (p, w) ≡ (ok tt, (p1, w1))
        → Waits host (p1, w1) (p', w')
        → Keeps program (p, w) (p', w')
    unfolding continue_exec
    resume-Keeps program p p1 p' w w1 w' code over run wait =
        let (is, hits) = resume_hits p p1 w w1 run in
        let (before, over1, _, owner, _, went) =
          resume-Turns host laws program p p1 is w w1 over hits run in
        let (seen, (owner', list)) = waited_for host (p1, w1) (p', w') wait in
        let halted = subst (λ (x : Pid). Stops host x w1.os w'.os) owner seen in
        (
          owner' ∙ owner,
          stopped-IsOverlaid program p.pid p1.breakpoints p'.breakpoints before.os w'.os
              (λ c. code.continued p.pid c before.os w1.os w'.os went halted) list over1,
        )

    step-Keeps :
        (program : Program) (p p1 p' : Process) (w w1 w' : World Os)
        → CodeLaws host program.is_code
        → IsOverlaid host p.pid program p.breakpoints w.os
        → Exec.step host (p, w) ≡ (ok tt, (p1, w1))
        → Waits host (p1, w1) (p', w')
        → Keeps program (p, w) (p', w')
    unfolding single_step
    step-Keeps program p p1 p' w w1 w' code over run wait =
        let (is, hits) = step_hits p p1 w w1 run in
        let (before, over1, _, owner, _, went) =
          step-Turns host laws program p p1 is w w1 over hits run in
        let (seen, (owner', list)) = waited_for host (p1, w1) (p', w') wait in
        let halted = subst (λ (x : Pid). Stops host x w1.os w'.os) owner seen in
        (
          owner' ∙ owner,
          stopped-IsOverlaid program p.pid p1.breakpoints p'.breakpoints before.os w'.os
              (λ c. code.stepped p.pid c before.os w1.os w'.os went halted) list over1,
        )

    Move-Keeps :
        (program : Program) (s s' : Process × World Os)
        → CodeLaws host program.is_code
        → IsOverlaid host s.0.pid program s.0.breakpoints s.1.os
        → Move host program.is_code s s'
        → Keeps program s s'
    Move-Keeps program s s' code over (Move.sets {addr = addr} {r = r} h hcode free run done) =
        set_breakpoint-Keeps program addr s.0 s.1 s' r h hcode free over run done
    Move-Keeps program s s' code over (Move.resumes {s1 = s1} run wait) =
        resume-Keeps program s.0 s1.0 s'.0 s.1 s1.1 s'.1 code over run wait
    Move-Keeps program s s' code over (Move.steps {s1 = s1} run wait) =
        step-Keeps program s.0 s1.0 s'.0 s.1 s1.1 s'.1 code over run wait

    -- If each breakpoint of a process is well placed with the program's byte saved, no two are at one
    -- address and the code in memory is the program's with interrupts at the armed addresses, then
    -- it is just so after any sequence of calls of `set_breakpoint` at addresses in the code without
    -- a breakpoint, successful or refused, and of successful calls of `resume` and `step`, each
    -- followed by polls with `wait_on_signal` until one reports that the process has stopped; and it
    -- is the same process. The kernel keeps PtraceLaws, and a process that runs leaves its code
    -- alone.
    pub Session-IsOverlaid :
        (program : Program) (s s' : Process × World Os)
        → CodeLaws host program.is_code
        → IsOverlaid host s.0.pid program s.0.breakpoints s.1.os
        → Session host program.is_code s s'
        → Keeps program s s'
    Session-IsOverlaid program s s' code over Session.ends = (refl, over)
    Session-IsOverlaid program s s' code over (Session.goes_on {s1 = s1} move rest) =
        let (owner, over1) = Move-Keeps program s s1 code over move in
        let (owner', over') =
          Session-IsOverlaid program s1 s' code
            (subst (λ (x : Pid). IsOverlaid host x program s1.0.breakpoints s1.1.os) (sym owner)
              over1)
            rest in
        (
          owner' ∙ owner,
          subst (λ (x : Pid). IsOverlaid host x program s'.0.breakpoints s'.1.os) owner over',
        )
