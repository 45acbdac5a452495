-- ===== src/Process/Exec/Visit.antt =====
-- `resume` and `step` of src/process.rs: they turn one address of the armed set over, the one of the
-- first breakpoint that was hit, and then hand the process to the kernel.
use rustybug.Prelude.{ℕ, ◌≡◌, sym, ap, subst, ◌∙◌, true, none, List, [], ◌∷◌, All-get_elem?}
use rustybug.Prelude.Outcome.{ok, run_then-eq-ok, ◌>>◌}
use rustybug.Host.{Pid, Host, World}
use rustybug.Host.Laws.{PtraceLaws}
use rustybug.Ptrace.{continue_exec, single_step}
use rustybug.Breakpoint.{Breakpoint, jump_to, process}
use rustybug.Process.{running, stopped, single_step_failed, continue_failed, Process}
use rustybug.Process.Exec
use rustybug.Process.Exec.{
  hits_from, resume_at, step_at, step_now, on_breakpoint, continue_now, set_state, resume,
}
use rustybug.Process.Exec.Resume.{on_breakpoint-ok, on_pid-ok, visited}
use rustybug.Process.Exec.Armed.{armed_of, Fits, IsOverlaid, Shows-kept}
use rustybug.Breakpoint.Overlay.{Program}
use rustybug.Process.Exec.Turns.{Turns, Turns-list, on_breakpoint_found, processed-Turns}

module _ {Os Regs FpRegs : Type 0} (host : Host Os Regs FpRegs) where
  module _ (laws : PtraceLaws host) where
    -- What `resume` does before it hands the process over.
    resume_at-Turns :
        (program : Program) (p p' : Process) (is : List ℕ) (w w' : World Os)
        → IsOverlaid host p.pid program p.breakpoints w.os
        → resume_at host is (p, w) ≡ (ok tt, (p', w'))
        → (w1 : World Os) × IsOverlaid host p.pid program p'.breakpoints w1.os
          × Turns host is p p'
          × (p'.pid ≡ p.pid)
          × (continue_exec host p.pid none w1.os ≡ (ok tt, w'.os))
    resume_at-Turns program p p' [] w w' over run =
        let (went, kept) =
          on_pid-ok host continue_failed (λ pid. continue_exec host pid none) p p' w w' run in
        let list : p'.breakpoints ≡ p.breakpoints = ap (λ (x : Process). x.breakpoints) kept in
        (w, rw list over, list, ap (λ (x : Process). x.pid) kept, went)
    resume_at-Turns program p p' (i ∷ is) w w' over run =
        let (_, (p1, w1), jumped, rest) =
          run_then-eq-ok (on_breakpoint host continue_failed i (λ pid. jump_to host pid) (p, w))
            (λ _. do
              on_breakpoint host continue_failed i (λ pid. process host pid true)
              continue_now host)
            tt (p', w') run in
        let (r, (p2, w2), processed, cont) =
          run_then-eq-ok
            (on_breakpoint host continue_failed i (λ pid. process host pid true) (p1, w1))
            (λ _. continue_now host) tt (p', w') rest in
        let (b, found) =
          on_breakpoint_found host continue_failed i (λ pid. jump_to host pid) p p1 w w1 tt
            jumped in
        let fits = All-get_elem? (Fits program) p.breakpoints i b over.fits found in
        let (b', ran, kept, moved) =
          visited host laws p p1 p2 w w1 w2 i b r found fits.0.pc_lt jumped processed in
        let (went, same) =
          on_pid-ok host continue_failed (λ pid. continue_exec host pid none) p2 p' w2 w' cont in
        let over1 : IsOverlaid host p.pid program p.breakpoints w1.os = record {
          fits = over.fits;
          distinct = over.distinct;
          shows =
              Shows-kept host p.pid program (armed_of p.pid p.breakpoints) w.os w1.os
                (λ c _ _. kept c) over.shows;
        } in
        let (over', turned) =
          processed-Turns host laws program p p' i is b b' r w1 w2 over1 found ran (same ∙ moved) in
        let same_pid : p2.pid ≡ p.pid = ap (λ (x : Process). x.pid) moved in
        (
          w2,
          over',
          turned,
          ap (λ (x : Process). x.pid) same ∙ same_pid,
          subst (λ (x : Pid). continue_exec host x none w2.os ≡ (ok tt, w'.os)) same_pid went,
        )

    -- What `step` does before it hands the process over.
    step_at-Turns :
        (program : Program) (p p' : Process) (is : List ℕ) (w w' : World Os)
        → IsOverlaid host p.pid program p.breakpoints w.os
        → step_at host is (p, w) ≡ (ok tt, (p', w'))
        → (w1 : World Os) × IsOverlaid host p.pid program p'.breakpoints w1.os
          × Turns host is p p'
          × (p'.pid ≡ p.pid)
          × (single_step host p.pid w1.os ≡ (ok tt, w'.os))
    step_at-Turns program p p' [] w w' over run =
        let (went, kept) =
          on_pid-ok host single_step_failed (λ pid. single_step host pid) p p' w w' run in
        let list : p'.breakpoints ≡ p.breakpoints = ap (λ (x : Process). x.breakpoints) kept in
        (w, rw list over, list, ap (λ (x : Process). x.pid) kept, went)
    step_at-Turns program p p' (i ∷ is) w w' over run =
        let (r, (p2, w2), processed, step) =
          run_then-eq-ok
            (on_breakpoint host continue_failed i (λ pid. process host pid true) (p, w))
            (λ _. step_now host) tt (p', w') run in
        let (b, found) =
          on_breakpoint_found host continue_failed i (λ pid. process host pid true) p p2 w w2 r
            processed in
        let (b', ran, moved) =
          on_breakpoint-ok host continue_failed i (λ pid. process host pid true) p p2 b w w2 r found
            processed in
        let (went, same) =
          on_pid-ok host single_step_failed (λ pid. single_step host pid) p2 p' w2 w' step in
        let (over', turned) =
          processed-Turns host laws program p p' i is b b' r w w2 over found ran (same ∙ moved) in
        let same_pid : p2.pid ≡ p.pid = ap (λ (x : Process). x.pid) moved in
        (
          w2,
          over',
          turned,
          ap (λ (x : Process). x.pid) same ∙ same_pid,
          subst (λ (x : Pid). single_step host x w2.os ≡ (ok tt, w'.os)) same_pid went,
        )

    -- If each breakpoint of the process is well placed with the program's byte saved, no two are at
    -- one address, the code in memory is the program's with interrupts at the armed addresses, `is`
    -- are the positions of the breakpoints that are hit, and `resume` succeeds, then code and
    -- breakpoints are just so again when the kernel is told to continue the process. Without a hit
    -- the breakpoints are as they were; with one, the first hit's address is armed then if it was
    -- not, and not if it was, and no other has changed. The process has the pid that it had and is
    -- running. The kernel keeps PtraceLaws.
    pub resume-Turns :
        (program : Program) (p p' : Process) (is : List ℕ) (w w' : World Os)
        → IsOverlaid host p.pid program p.breakpoints w.os
        → hits_from host 0 p.pid p.breakpoints w.os ≡ ok is
        → resume host (p, w) ≡ (ok tt, (p', w'))
        → (w1 : World Os) × IsOverlaid host p.pid program p'.breakpoints w1.os
          × Turns host is p p'
          × (p'.pid ≡ p.pid)
          × (p'.state ≡ running)
          × (continue_exec host p.pid none w1.os ≡ (ok tt, w'.os))
    unfolding resume
    resume-Turns program p p' is w w' over hits run =
        let (_, (p1, w2), body, end) =
          run_then-eq-ok (resume_at host is (p, w)) (λ _. set_state host running) tt (p', w')
            (rw hits at run) in
        let (w1, over', turned, owner, went) = resume_at-Turns program p p1 is w w2 over body in
        let list : p1.breakpoints ≡ p'.breakpoints = λ k. (end k).1.0.breakpoints in
        let same : w2.os ≡ w'.os = λ k. (end k).1.1.os in
        (
          w1,
          subst (λ (bs : List Breakpoint). IsOverlaid host p.pid program bs w1.os) list over',
          Turns-list host is p p1 p' list turned,
          sym (λ k. (end k).1.0.pid) ∙ owner,
          sym (λ k. (end k).1.0.state),
          subst (λ (os : Os). continue_exec host p.pid none w1.os ≡ (ok tt, os)) same went,
        )

    -- The same of `step`, which then has the kernel run one instruction and leaves the process
    -- stopped: under the conditions of the overlay, and if `is` are the hits and `step` succeeds, the
    -- overlay holds again when the kernel is told to step, with the address of the first hit, if
    -- there is one, turned over and no other changed, and the pid is as before. The kernel keeps
    -- PtraceLaws.
    pub step-Turns :
        (program : Program) (p p' : Process) (is : List ℕ) (w w' : World Os)
        → IsOverlaid host p.pid program p.breakpoints w.os
        → hits_from host 0 p.pid p.breakpoints w.os ≡ ok is
        → Exec.step host (p, w) ≡ (ok tt, (p', w'))
        → (w1 : World Os) × IsOverlaid host p.pid program p'.breakpoints w1.os
          × Turns host is p p'
          × (p'.pid ≡ p.pid)
          × (p'.state ≡ stopped)
          × (single_step host p.pid w1.os ≡ (ok tt, w'.os))
    unfolding Exec.step
    step-Turns program p p' is w w' over hits run =
        let (_, (p1, w2), body, end) =
          run_then-eq-ok (step_at host is (p, w)) (λ _. set_state host stopped) tt (p', w')
            (rw hits at run) in
        let (w1, over', turned, owner, went) = step_at-Turns program p p1 is w w2 over body in
        let list : p1.breakpoints ≡ p'.breakpoints = λ k. (end k).1.0.breakpoints in
        let same : w2.os ≡ w'.os = λ k. (end k).1.1.os in
        (
          w1,
          subst (λ (bs : List Breakpoint). IsOverlaid host p.pid program bs w1.os) list over',
          Turns-list host is p p1 p' list turned,
          sym (λ k. (end k).1.0.pid) ∙ owner,
          sym (λ k. (end k).1.0.state),
          subst (λ (os : Os). single_step host p.pid w1.os ≡ (ok tt, os)) same went,
        )
