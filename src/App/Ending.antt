-- ===== src/App/Ending.antt =====
-- The end of `main` of src/main.rs: what becomes of the process that is debugged then.
mod Tests
use mathlib.Core.List.{append_assoc}
use rustybug.Prelude.{
  ℕ, ◌≡◌, ◌≢◌, refl, sym, ap, subst, ◌∙◌, Bool, true, false, Option, none, some, List, [], ◌∷◌,
  ◌++◌, ◌==◌, All, All-append, if◌then◌else◌, arith,
}
use rustybug.Prelude.Outcome.{Outcome, ok}
use rustybug.Host.{Text, Pid, Signal, sigkill, sigcont, sigstop, Host, World}
use rustybug.Elf.{Formats, ExecutableFile}
use rustybug.Process.{Process, is_running}
use rustybug.Process.Life.Sends.{farewell, IsLog, drop-Sends}
use rustybug.Debugger.{Args, Error, Debugger}
use rustybug.Debugger.Start.{Owns}
use rustybug.App.{App, Turn, run}
use rustybug.App.Owned.{run-HasOwned}
use rustybug.App.Start.{initial, main}

-- By the input of the debugger's arguments: the last signal is SIGKILL to the process, or none is.
abbrev pub Ends : Option Text → Pid → List (Pid × Signal) → Type 0
Ends (some path) pid calls =
    (before : List (Pid × Signal)) × (calls ≡ before ++ (pid, sigkill) ∷ [])
Ends none pid calls = All (λ (call : Pid × Signal). call.1 ≢ sigkill) calls

-- What is sent before the kill.
abbrev halt_and_go : Process → List (Pid × Signal)
halt_and_go p = if is_running p.state then (p.pid, sigstop) ∷ [] else []

no_kill :
    (b : Bool) (pid : Pid)
    → All (λ (call : Pid × Signal). call.1 ≢ sigkill) (if b then (pid, sigstop) ∷ [] else [])
no_kill true pid = (omega arith, tt)
no_kill false pid = tt

nonzero : (n : ℕ) → n ≢ 0 → (n == 0) ≡ false
nonzero n h = ground (arith, h)

module _ {Os Regs FpRegs Obj Dwarf Header CompUnit : Type 0} (host : Host Os Regs FpRegs)
    (formats : Formats Obj Dwarf Header CompUnit) where
  farewell-Ends :
      (input : Option Text) (pid : Option Pid) (p : Process)
      (elf : Option (ExecutableFile Obj Dwarf))
      → p.pid ≢ 0
      → Owns host formats input pid p elf
      → Ends input p.pid (farewell p)
  farewell-Ends (some path) pid p elf h owns = (
    halt_and_go p ++ (p.pid, sigcont) ∷ [],
    rw (nonzero p.pid h, owns)
        (sym (append_assoc (halt_and_go p) ((p.pid, sigcont) ∷ []) ((p.pid, sigkill) ∷ []))),
  )
  farewell-Ends none (some pid) p elf h (spared, _, _) =
      rw (nonzero p.pid h, spared)
        (All-append (λ (call : Pid × Signal). call.1 ≢ sigkill) (halt_and_go p)
          ((p.pid, sigcont) ∷ []) (no_kill (is_running p.state) p.pid) (omega arith, tt))
  farewell-Ends none none p elf h owns = absurd owns

  module _ (fuel : ℕ) (sent : Os → List (Pid × Signal)) (log : IsLog host sent) where
    -- If the run of the application ends with a debugger, whose process has not been seen to exit,
    -- and a log records the calls of `kill` and nothing else of the teardown, whose calls return, then
    -- `main` adds these calls to the log after the run: for a debugger that has an input in its
    -- arguments, some, and then SIGKILL to its process as the last; for one that was attached, none
    -- with SIGKILL.
    pub main-Ends :
        (events : List Turn) (args : Args) (r : Outcome Error (Unit {0})) (a : App Obj Dwarf)
        (d : Debugger Obj Dwarf) (w w' : World Os)
        → run host formats fuel events (initial args, w) ≡ (r, (a, w'))
        → a.debugger ≡ some d
        → d.root.pid ≢ 0
        → (calls : List (Pid × Signal)) × (sent (main host formats fuel (ok tt) events args w).1.os
            ≡ sent w'.os ++ calls)
          × Ends d.args.input d.root.pid calls
    unfolding main
    main-Ends events args r a d w w' ran has h =
        let owned = run-HasOwned host formats fuel events (initial args) w tt in
        let owns : Owns host formats d.args.input d.args.pid d.root d.elf =
          rw has at (rw ran at owned) in
        (
          farewell d.root,
          rw (main, ran, has) ((drop-Sends host sent log d.root w').1),
          farewell-Ends d.args.input d.args.pid d.root d.elf h owns,
        )
