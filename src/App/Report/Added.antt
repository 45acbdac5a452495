-- ===== src/App/Report/Added.antt =====
-- src/main.rs: what the log says of a break command is what has happened to the process.
use rustybug.Prelude.{ℕ, ◌+◌, ◌^◌, ◌<◌, ◌≡◌, refl, ap, Option, some, [], ◌∷◌, ◌++◌}
use rustybug.Prelude.Outcome.{Outcome, ok, err, panic, out_of_fuel, map_err, ignored}
use rustybug.Host.{Host, World}
use rustybug.Commands.Syntax.{Command, Location}
use rustybug.Elf.{Formats}
use rustybug.Breakpoint.{Breakpoint}
use rustybug.Process.{Process, ProcessError, breakpoint_set_failed}
use rustybug.Process.Exec.{set_breakpoint}
use rustybug.Process.Exec.Numbered.{IsNumbered, Adds, set_breakpoint-IsNumbered}
use rustybug.Debugger.{Error, process_error, Debugger, set_break}
use rustybug.App.{App, run_command}
use rustybug.App.Report.{Message, added, not_added, answer, tell}

module _ {Os Regs FpRegs Obj Dwarf Header CompUnit : Type 0} (host : Host Os Regs FpRegs)
    (formats : Formats Obj Dwarf Header CompUnit) (fuel : ℕ) where
  -- The debugger, with one more breakpoint at the end of its process's list.
  abbrev pub with_breakpoint : Breakpoint → Debugger Obj Dwarf → Debugger Obj Dwarf
  with_breakpoint b d = record d {
    root = record d.root { breakpoints = d.root.breakpoints ++ b ∷ [] };
  }

  -- What has come of a break command at `addr` where the counter was at `n`, by what it logged.
  abbrev pub Answered :
      ℕ
      → ℕ
      → Debugger Obj Dwarf
      → Outcome Error (Unit {0}) × (App Obj Dwarf × World Os)
      → Outcome Error (Option (Message Regs FpRegs))
      → Type 0
  Answered addr n d (r, (a', w')) (ok (some (added id))) =
      (r ≡ ok tt)
      × (id ≡ n)
      × ((b : Breakpoint) × (b.id ≡ n) × (b.pc ≡ addr) × (a'.debugger ≡ some (with_breakpoint b d)))
  Answered addr n d (r, (a', w')) (ok (some (not_added e))) =
      (r ≡ ok tt) × (e ≡ process_error breakpoint_set_failed) × (a'.debugger ≡ some d)
  Answered addr n d (r, (a', w')) (ok _) = ⊥
  Answered addr n d (r, (a', w')) (err e) = ⊥
  Answered addr n d (r, (a', w')) panic = (r ≡ panic) × (a'.debugger ≡ some d)
  Answered addr n d (r, (a', w')) out_of_fuel = (r ≡ out_of_fuel) × (a'.debugger ≡ some d)

  -- The call of `set_breakpoint` seen from the application.
  abbrev outcome :
      App Obj Dwarf
      → Debugger Obj Dwarf
      → Outcome ProcessError ℕ
      → Process
      → World Os
      → Outcome Error (Unit {0}) × (App Obj Dwarf × World Os)
  outcome a d r p w' = (
    ignored (map_err process_error r),
    (record a { debugger = some (record d { root = p }) }, w'),
  )

  outcome-Answered :
      (addr n : ℕ) (a : App Obj Dwarf) (d : Debugger Obj Dwarf) (r : Outcome ProcessError ℕ)
      (p : Process) (w' : World Os)
      → Adds host addr n d.root p r
      → Answered addr n d (outcome a d r p w') (tell added not_added (map_err process_error r))
  outcome-Answered addr n a d (ok id) p w' (same, (b, is, at, list)) =
      (refl, same, (b, is, at, ap (λ (x : Process). some (record d { root = x })) list))
  outcome-Answered addr n a d (err e) p w' (is, kept) =
      (refl, ap process_error is, ap (λ (x : Process). some (record d { root = x })) kept)
  outcome-Answered addr n a d panic p w' kept =
      (refl, ap (λ (x : Process). some (record d { root = x })) kept)
  outcome-Answered addr n a d out_of_fuel p w' kept =
      (refl, ap (λ (x : Process). some (record d { root = x })) kept)

  -- If there is a debugger, no two breakpoints of its process have the same identifier, all are
  -- below the counter, and the counter does not wrap around, then a break command at an address logs
  -- either that a breakpoint was added, or that it was not, or it panics. Where one was added the
  -- message has the counter's value, and a breakpoint with that identifier and that address is at the
  -- end of the process's list; nothing else has changed in the debugger. Where none was added the
  -- error is `BreakpointSetFailed` and the debugger is as it was. Either way the command succeeds.
  pub break-Answered :
      (addr : ℕ) (a : App Obj Dwarf) (d : Debugger Obj Dwarf) (w : World Os)
      → a.debugger ≡ some d
      → w.current_id + 1 < 2 ^ 64
      → IsNumbered d.root.breakpoints w.current_id
      → (let c = Command.break (Location.address addr) in
          Answered addr w.current_id d
            (run_command host formats fuel c (a, w))
            (answer host formats c a w))
  unfolding run_command answer set_break
  break-Answered addr a d w e h i =
      let (r, (p, w')) = set_breakpoint host addr (d.root, w) in
      let (adds, numbered) = set_breakpoint-IsNumbered host addr d.root w h i in
      rw e (outcome-Answered addr w.current_id a d r p w' adds)
