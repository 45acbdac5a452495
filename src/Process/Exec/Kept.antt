-- ===== src/Process/Exec/Kept.antt =====
-- `resume`, `step` and `set_breakpoint` of src/process.rs, whatever comes of them: the process keeps
-- its output, and what is done with it at the end.
use rustybug.Prelude.{
  ℕ, ◌≡◌, refl, ◌∙◌, Option-cases, inl, inr, true, none, ◌++◌, List, [], ◌∷◌, get_elem?,
}
use rustybug.Prelude.Outcome.{
  Outcome, ok, err, panic, out_of_fuel, Action, run_then, reads, modify, pure, with_err, ◌>>◌,
  ◌>>=◌,
}
use rustybug.Host.{Pid, Errno, Host, World, on_world}
use rustybug.Ptrace.{continue_exec, single_step}
use rustybug.Breakpoint.{Breakpoint, jump_to, process, new}
use rustybug.Process.{
  State, running, stopped, ProcessError, continue_failed, single_step_failed, breakpoint_set_failed,
  Process, Method,
}
use rustybug.Process.Wait.{wait_on_signal}
use rustybug.Process.Wait.Kept.{wait_on_signal_same}
use rustybug.Process.Exec
use rustybug.Process.Exec.{
  hits_from, on_breakpoint, on_pid, continue_now, step_now, set_state, resume_at, step_at, resume,
  set_breakpoint,
}

pub record HasFate (p0 p : Process) : Type 0 where
  pub terminate_on_end : p.terminate_on_end ≡ p0.terminate_on_end
  pub stdout_reader : p.stdout_reader ≡ p0.stdout_reader

module _ {Os Regs FpRegs : Type 0} (host : Host Os Regs FpRegs) (p0 : Process) where
  -- A method that a process of this fate keeps its fate in.
  abbrev pub IsSteady : {A : Type 0} → Method Os A → Type 0
  IsSteady m = (p : Process) (w : World Os) → HasFate p0 p → HasFate p0 (m (p, w)).1.0

  run_then-HasFate :
      {A B : Type 0} (m : Outcome ProcessError A × (Process × World Os)) (k : A → Method Os B)
      → HasFate p0 m.1.0
      → ((a : A) → IsSteady (k a))
      → HasFate p0 (run_then m k).1.0
  run_then-HasFate (ok a, (p, w)) k f next = next a p w f
  run_then-HasFate (err e, s) k f next = f
  run_then-HasFate (panic, s) k f next = f
  run_then-HasFate (out_of_fuel, s) k f next = f

  bind-IsSteady :
      {A B : Type 0} (m : Method Os A) (k : A → Method Os B)
      → IsSteady m
      → ((a : A) → IsSteady (k a))
      → IsSteady (m >>= k)
  bind-IsSteady m k sm sk p w f = run_then-HasFate (m (p, w)) k (sm p w f) sk

  then-IsSteady :
      {A B : Type 0} (m : Method Os A) (k : Method Os B)
      → IsSteady m
      → IsSteady k
      → IsSteady (m >> k)
  then-IsSteady m k sm sk p w f = run_then-HasFate (m (p, w)) (λ _. k) (sm p w f) (λ _. sk)

  set_state-IsSteady : (s : State) → IsSteady (set_state host s)
  set_state-IsSteady s p w f = record {
    terminate_on_end = f.terminate_on_end;
    stdout_reader = f.stdout_reader;
  }

  on_pid-IsSteady :
      (e : ProcessError) (m : Pid → Action Os Errno (Unit {0})) → IsSteady (on_pid host e m)
  on_pid-IsSteady e m p w f = f

  on_breakpoint-IsSteady :
      {A : Type 0} (e : ProcessError) (i : ℕ) (m : Pid → Action (Breakpoint × World Os) Errno A)
      → IsSteady (on_breakpoint host e i m)
  unfolding on_breakpoint
  on_breakpoint-IsSteady e i m p w f = elim (Option-cases (get_elem? p.breakpoints i)) [
    | inl nowhere ↦ rw (on_breakpoint, nowhere) f
    | inr (b, found) ↦
        rw (on_breakpoint, found)
          (record { terminate_on_end = f.terminate_on_end; stdout_reader = f.stdout_reader })
  ]

  resume_at-IsSteady : (is : List ℕ) → IsSteady (resume_at host is)
  resume_at-IsSteady [] = on_pid-IsSteady continue_failed (λ pid. continue_exec host pid none)
  resume_at-IsSteady (i ∷ is) =
      then-IsSteady (on_breakpoint host continue_failed i (λ pid. jump_to host pid))
        (on_breakpoint host continue_failed i (λ pid. process host pid true) >> continue_now host)
        (on_breakpoint-IsSteady continue_failed i (λ pid. jump_to host pid))
        (then-IsSteady (on_breakpoint host continue_failed i (λ pid. process host pid true))
          (continue_now host)
          (on_breakpoint-IsSteady continue_failed i (λ pid. process host pid true))
          (on_pid-IsSteady continue_failed (λ pid. continue_exec host pid none)))

  pub resume-IsSteady : IsSteady (resume host)
  unfolding resume
  resume-IsSteady =
      bind-IsSteady (reads (λ (p, w). hits_from host 0 p.pid p.breakpoints w.os))
        (λ hit. do resume_at host hit; set_state host running) (λ p w f. f)
        (λ hit.
          then-IsSteady (resume_at host hit) (set_state host running) (resume_at-IsSteady hit)
            (set_state-IsSteady running))

  step_at-IsSteady : (is : List ℕ) → IsSteady (step_at host is)
  step_at-IsSteady [] = on_pid-IsSteady single_step_failed (λ pid. single_step host pid)
  step_at-IsSteady (i ∷ is) =
      then-IsSteady (on_breakpoint host continue_failed i (λ pid. process host pid true))
        (step_now host) (on_breakpoint-IsSteady continue_failed i (λ pid. process host pid true))
        (on_pid-IsSteady single_step_failed (λ pid. single_step host pid))

  pub step-IsSteady : IsSteady (Exec.step host)
  unfolding Exec.step
  step-IsSteady =
      bind-IsSteady (reads (λ (p, w). hits_from host 0 p.pid p.breakpoints w.os))
        (λ hit. do step_at host hit; set_state host stopped) (λ p w f. f)
        (λ hit.
          then-IsSteady (step_at host hit) (set_state host stopped) (step_at-IsSteady hit)
            (set_state-IsSteady stopped))

  pub set_breakpoint-IsSteady : (addr : ℕ) → IsSteady (set_breakpoint host addr)
  unfolding set_breakpoint
  set_breakpoint-IsSteady addr =
      bind-IsSteady
        (λ (p, w).
          with_err (λ _. breakpoint_set_failed) (on_world {T = Process} (new host p.pid addr))
            (p, w))
        (λ bp. do
          modify (λ (p, w). (record p { breakpoints = p.breakpoints ++ bp ∷ [] }, w))
          pure bp.id)
        (λ p w f. f)
        (λ bp p w f. record {
          terminate_on_end = f.terminate_on_end;
          stdout_reader = f.stdout_reader;
        })

  pub wait_on_signal-IsSteady : IsSteady (wait_on_signal host)
  unfolding wait_on_signal
  wait_on_signal-IsSteady p w f =
      let same = wait_on_signal_same host p p w (record {
        stdout_reader = refl;
        addr_offset = refl;
        terminate_on_end = refl;
        breakpoints = refl;
      }) in
      record {
        terminate_on_end = same.terminate_on_end ∙ f.terminate_on_end;
        stdout_reader = same.stdout_reader ∙ f.stdout_reader;
      }
