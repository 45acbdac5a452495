-- ===== src/Process/Exec.antt =====
-- src/process.rs: `resume`, `step` and `set_breakpoint`. The code collects `&mut` references to the
-- breakpoints that were hit and works on the first; here they are positions in the list.
pub mod Hits
pub mod Resume
pub mod Numbered
pub mod Armed
pub mod Refine
pub mod Turns
pub mod Visit
pub mod Kept
pub mod Sample
mod Tests
use rustybug.Prelude.{ℕ, suc, Bool, true, false, none, some, List, [], ◌∷◌, ◌++◌, get_elem?, set}
use rustybug.Prelude.Outcome.{
  Outcome, ok, err, panic, out_of_fuel, and_then, Action, pure, reads, modify, with_err, ◌>>=◌,
  ◌>>◌,
}
use rustybug.Host.{Pid, Errno, Host, World, on_os, on_world}
use rustybug.Ptrace.{continue_exec, single_step}
use rustybug.Breakpoint.{Breakpoint, has_hit, jump_to, process, new}
use rustybug.Process.{
  State, stopped, running, ProcessError, continue_failed, single_step_failed, breakpoint_set_failed,
  Process, Method,
}

-- `.unwrap_or_default()`
abbrev pub or_false : Outcome Errno Bool → Outcome ProcessError Bool
or_false (ok b) = ok b
or_false (err e) = ok false
or_false panic = panic
or_false out_of_fuel = out_of_fuel

abbrev pub keep_if : Bool → ℕ → List ℕ → List ℕ
keep_if true i rest = i ∷ rest
keep_if false i rest = rest

module _ {Os Regs FpRegs : Type 0} (host : Host Os Regs FpRegs) where
  -- `.filter(|bp| bp.has_hit(pid).unwrap_or_default())`, with positions from `i` on
  unfoldable pub hits_from : ℕ → Pid → List Breakpoint → Os → Outcome ProcessError (List ℕ)
  hits_from i pid [] os = ok []
  hits_from i pid (b ∷ bs) os =
      let rest = hits_from (suc i) pid bs os in
      and_then (or_false (has_hit host b pid os))
        (λ hit. and_then rest (λ is. ok (keep_if hit i is)))

  -- A call of a breakpoint's method through `bps[0]`.
  unfoldable pub on_breakpoint :
      {A : Type 0} → ProcessError → ℕ → (Pid → Action (Breakpoint × World Os) Errno A) → Method Os A
  on_breakpoint e i m (p, w) = elim (get_elem? p.breakpoints i) [
    | none ↦ (panic, (p, w))
    | some b ↦
        let (r, (b', w')) = with_err (λ _. e) (m p.pid) (b, w) in
        (r, (record p { breakpoints = set p.breakpoints i b' }, w'))
  ]

  -- A plain ptrace call on the process.
  abbrev pub on_pid : ProcessError → (Pid → Action Os Errno (Unit {0})) → Method Os (Unit {0})
  on_pid e m (p, w) = with_err (λ _. e) (on_world {T = Process} (on_os (m p.pid))) (p, w)

  abbrev pub set_state : State → Method Os (Unit {0})
  set_state s = modify (λ (p, w). (record p { state = s }, w))

  abbrev pub continue_now : Method Os (Unit {0})
  continue_now = on_pid continue_failed (λ pid. continue_exec host pid none)

  abbrev pub resume_at : List ℕ → Method Os (Unit {0})
  resume_at [] = continue_now
  resume_at (i ∷ _) = do
    on_breakpoint continue_failed i (λ pid. jump_to host pid)
    on_breakpoint continue_failed i (λ pid. process host pid true)
    continue_now

  unfoldable pub resume : Method Os (Unit {0})
  resume = do
    hit ← reads (λ (p, w). hits_from 0 p.pid p.breakpoints w.os)
    resume_at hit
    set_state running

  abbrev pub step_now : Method Os (Unit {0})
  step_now = on_pid single_step_failed (λ pid. single_step host pid)

  abbrev pub step_at : List ℕ → Method Os (Unit {0})
  step_at [] = step_now
  step_at (i ∷ _) = do on_breakpoint continue_failed i (λ pid. process host pid true); step_now

  unfoldable pub step : Method Os (Unit {0})
  step = do
    hit ← reads (λ (p, w). hits_from 0 p.pid p.breakpoints w.os)
    step_at hit
    set_state stopped

  unfoldable pub set_breakpoint : ℕ → Method Os ℕ
  set_breakpoint addr = do
    bp ← λ (p, w).
        with_err (λ _. breakpoint_set_failed) (on_world {T = Process} (new host p.pid addr)) (p, w)
    modify (λ (p, w). (record p { breakpoints = p.breakpoints ++ bp ∷ [] }, w))
    pure bp.id
