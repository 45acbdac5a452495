-- ===== src/Process/Exec/Resume.antt =====
-- `resume` of src/process.rs at a breakpoint that was hit.
use rustybug.Prelude.{
  ℕ, ◌-◌, ◌%◌, ◌^◌, ◌<◌, ◌≡◌, sym, ap, subst, ◌∙◌, Bool, true, none, some, List, ◌∷◌, get_elem?,
  set, get_elem?-set_self, set-set,
}
use rustybug.Prelude.Dict.{lookup}
use rustybug.Prelude.Outcome.{
  Outcome, ok, err, panic, out_of_fuel, map_err, Action, run_then-eq-ok, ◌>>◌,
}
use rustybug.Host.{Pid, Errno, Host, World}
use rustybug.Host.Laws.{PtraceLaws}
use rustybug.Ptrace.{continue_exec}
use rustybug.Breakpoint.{Breakpoint, running_or_true, jump_to, process}
use rustybug.Breakpoint.Patch.{IsPlaced}
use rustybug.Breakpoint.Step.{IsDisarmed, process_disarms}
use rustybug.Breakpoint.Touch.{jump_to_lem}
use rustybug.Process.{running, ProcessError, continue_failed, Process}
use rustybug.Process.Exec.{
  hits_from, resume_at, on_breakpoint, on_pid, continue_now, set_state, resume,
}

-- `?` with another error: the value comes through.
pub with_err-ok :
    {S E F A : Type 0} (f : E → F) (m : Outcome E A × S) (a : A) (s : S)
    → ◌≡◌ {A = Outcome F A × S} (map_err f m.0, m.1) (ok a, s)
    → m ≡ (ok a, s)
with_err-ok f (ok b, t) a s e = cc
with_err-ok f (err x, t) a s e = cc
with_err-ok f (panic, t) a s e = cc
with_err-ok f (out_of_fuel, t) a s e = cc

module _ {Os Regs FpRegs : Type 0} (host : Host Os Regs FpRegs) where
  pub on_breakpoint-ok :
      {A : Type 0} (e : ProcessError) (i : ℕ) (m : Pid → Action (Breakpoint × World Os) Errno A)
      (p p' : Process) (b : Breakpoint) (w w' : World Os) (a : A)
      → get_elem? p.breakpoints i ≡ some b
      → on_breakpoint host e i m (p, w) ≡ (ok a, (p', w'))
      → (b' : Breakpoint) × (m p.pid (b, w) ≡ (ok a, (b', w')))
        × (p' ≡ record p { breakpoints = set p.breakpoints i b' })
  unfolding on_breakpoint
  on_breakpoint-ok e i m p p' b w w' a found run =
      let ran = rw (found, on_breakpoint) at run in
      let (b1, w1) = (m p.pid (b, w)).1 in
      let done =
        with_err-ok {F = ProcessError} (λ _. e) (m p.pid (b, w)) a (b1, w1)
          (λ i. ((ran i).0, (b1, w1))) in
      (b1, done ∙ (λ i. (ok a, (b1, (ran i).1.1))), sym (λ i. (ran i).1.0))

  pub on_pid-ok :
      (e : ProcessError) (m : Pid → Action Os Errno (Unit {0})) (p p' : Process) (w w' : World Os)
      → on_pid host e m (p, w) ≡ (ok tt, (p', w'))
      → (m p.pid w.os ≡ (ok tt, w'.os)) × (p' ≡ p)
  on_pid-ok e m p p' w w' run =
      let done =
        with_err-ok {F = ProcessError} (λ _. e) (m p.pid w.os) tt w'.os
          (λ i. ((run i).0, (run i).1.1.os)) in
      (done, sym (λ i. (run i).1.0))

  module _ (laws : PtraceLaws host) where
    -- The two calls that `resume` makes on the breakpoint.
    pub visited :
        (p p1 p2 : Process) (w w1 w2 : World Os) (i : ℕ) (b : Breakpoint) (r : Bool)
        → get_elem? p.breakpoints i ≡ some b
        → b.pc < 2 ^ 64
        → on_breakpoint host continue_failed i (λ pid. jump_to host pid) (p, w) ≡ (ok tt, (p1, w1))
        → on_breakpoint host continue_failed i (λ pid. process host pid true) (p1, w1)
          ≡ (ok r, (p2, w2))
        → (b' : Breakpoint) × (process host p.pid true (b, w1) ≡ (ok r, (b', w2)))
          × ((c : ℕ) → host.ptrace_read p.pid c w1.os ≡ host.ptrace_read p.pid c w.os)
          × (p2 ≡ record p { breakpoints = set p.breakpoints i b' })
    visited p p1 p2 w w1 w2 i b r found lt jumped processed =
        let (b1, jump, moved) =
          on_breakpoint-ok continue_failed i (λ pid. jump_to host pid) p p1 b w w1 tt found
            jumped in
        let (same, _, kept) = jump_to_lem host laws p.pid b b1 w w1 lt jump in
        let q : Process = record p { breakpoints = set p.breakpoints i b } in
        let at_q : p1 ≡ q =
          moved ∙ ap (λ (x : Breakpoint). record p { breakpoints = set p.breakpoints i x }) same in
        let (b2, ran, moved') =
          on_breakpoint-ok continue_failed i (λ pid. process host pid true) q p2 b w1 w2 r
            (get_elem?-set_self p.breakpoints i b b found)
            (subst
              (λ (x : Process).
                on_breakpoint host continue_failed i (λ pid. process host pid true) (x, w1)
                ≡ (ok r, (p2, w2)))
              at_q processed) in
        (
          b2,
          ran,
          kept,
          moved'
              ∙ ap (λ (x : List Breakpoint). record p { breakpoints = x })
                  (set-set p.breakpoints i b b2),
        )

    -- ... at an armed one.
    visit_disarms :
        (p p1 p2 : Process) (w w1 w2 : World Os) (i word : ℕ) (b : Breakpoint) (r : Bool)
        → get_elem? p.breakpoints i ≡ some b
        → IsPlaced b
        → host.ptrace_read p.pid (b.pc - b.pc % 8) w.os ≡ ok word
        → running_or_true (lookup p.pid b.is_running) ≡ true
        → on_breakpoint host continue_failed i (λ pid. jump_to host pid) (p, w) ≡ (ok tt, (p1, w1))
        → on_breakpoint host continue_failed i (λ pid. process host pid true) (p1, w1)
          ≡ (ok r, (p2, w2))
        → (b' : Breakpoint) × IsDisarmed host p.pid b b' word w.os w2.os
          × (p2 ≡ record p { breakpoints = set p.breakpoints i b' })
    visit_disarms p p1 p2 w w1 w2 i word b r found placed e active jumped processed =
        let (b2, ran, kept, moved) =
          visited p p1 p2 w w1 w2 i b r found placed.pc_lt jumped processed in
        let (_, (entry, patch, there)) =
          process_disarms host laws p.pid true r b b2 w1 w2 word placed (kept _ ∙ e) active ran in
        (
          b2,
          (
            entry,
            record { here = patch.here; elsewhere = λ c hc ne. patch.elsewhere c hc ne ∙ kept c },
            there,
          ),
          moved,
        )

    -- The three calls that `resume` makes at a breakpoint that was hit.
    visit :
        (p p3 : Process) (w w3 : World Os) (i word : ℕ) (b : Breakpoint)
        → get_elem? p.breakpoints i ≡ some b
        → IsPlaced b
        → host.ptrace_read p.pid (b.pc - b.pc % 8) w.os ≡ ok word
        → running_or_true (lookup p.pid b.is_running) ≡ true
        → (do
          on_breakpoint host continue_failed i (λ pid. jump_to host pid)
          on_breakpoint host continue_failed i (λ pid. process host pid true)
          continue_now host)
            (p, w)
          ≡ (ok tt, (p3, w3))
        → (b' : Breakpoint) × (w1 : World Os) × IsDisarmed host p.pid b b' word w.os w1.os
          × (continue_exec host p.pid none w1.os ≡ (ok tt, w3.os))
          × (p3 ≡ record p { breakpoints = set p.breakpoints i b' })
    visit p p3 w w3 i word b found placed e active run =
        let (_, (p1, w1), jumped, rest) =
          run_then-eq-ok (on_breakpoint host continue_failed i (λ pid. jump_to host pid) (p, w))
            (λ _. do
              on_breakpoint host continue_failed i (λ pid. process host pid true)
              continue_now host)
            tt (p3, w3) run in
        let (r, (p2, w2), processed, cont) =
          run_then-eq-ok
            (on_breakpoint host continue_failed i (λ pid. process host pid true) (p1, w1))
            (λ _. continue_now host) tt (p3, w3) rest in
        let (b2, disarmed, moved) =
          visit_disarms p p1 p2 w w1 w2 i word b r found placed e active jumped processed in
        let (went, kept) =
          on_pid-ok continue_failed (λ pid. continue_exec host pid none) p2 p3 w2 w3 cont in
        let same_pid : p2.pid ≡ p.pid = ap (λ (x : Process). x.pid) moved in
        (
          b2,
          w2,
          disarmed,
          subst (λ (x : Pid). continue_exec host x none w2.os ≡ (ok tt, w3.os)) same_pid went,
          kept ∙ moved,
        )

    -- If breakpoint `i` is the first hit, it is well placed, its word can be read, its entry for the
    -- process is true or missing, and `resume` succeeds, then just before the process is continued the breakpoint is disarmed: the
    -- saved byte is back and every other word is as it was, and the program counter stands on it.
    -- Afterwards the process is running, and only that breakpoint's entry has changed: it
    -- is not armed again. The kernel keeps PtraceLaws.
    pub resume_disarms :
        (p p' : Process) (w w' : World Os) (i word : ℕ) (is : List ℕ) (b : Breakpoint)
        → hits_from host 0 p.pid p.breakpoints w.os ≡ ok (i ∷ is)
        → get_elem? p.breakpoints i ≡ some b
        → IsPlaced b
        → host.ptrace_read p.pid (b.pc - b.pc % 8) w.os ≡ ok word
        → running_or_true (lookup p.pid b.is_running) ≡ true
        → resume host (p, w) ≡ (ok tt, (p', w'))
        → (b' : Breakpoint) × (w1 : World Os) × IsDisarmed host p.pid b b' word w.os w1.os
          × (continue_exec host p.pid none w1.os ≡ (ok tt, w'.os))
          × (p' ≡ record p { state = running; breakpoints = set p.breakpoints i b' })
    unfolding resume
    resume_disarms p p' w w' i word is b hits found placed e active run =
        let (_, (p3, w3), body, end) =
          run_then-eq-ok (resume_at host (i ∷ is) (p, w)) (λ _. set_state host running) tt (p', w')
            (rw hits at run) in
        let (b', w1, disarmed, went, moved) = visit p p3 w w3 i word b found placed e active body in
        let same : w3.os ≡ w'.os = λ k. (end k).1.1.os in
        (
          b',
          w1,
          disarmed,
          subst (λ (x : Os). continue_exec host p.pid none w1.os ≡ (ok tt, x)) same went,
          sym (λ k. (end k).1.0) ∙ ap (λ (x : Process). record x { state = running }) moved,
        )
