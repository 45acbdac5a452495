-- ===== src/Process/Life/Sends.antt =====
-- The teardown of src/process.rs: the signals that are sent, in their order.
use mathlib.Core.List.{append-nil, append_assoc}
use rustybug.Prelude.{ℕ}
use rustybug.Prelude.{
  ◌≡◌, refl, sym, ap, ◌∙◌, Bool, true, false, Option, none, some, List, [], ◌∷◌, ◌++◌, ◌==◌,
  if◌then◌else◌,
}
use rustybug.Prelude.Outcome.{
  Outcome, ok, err, panic, out_of_fuel, Returned, Action, ◌>>◌, run_then, ignore, ignored, pure,
}
use rustybug.Host.{Pid, Errno, Signal, sigkill, sigcont, sigstop, Host, World, on_os}
use rustybug.Ptrace.{detach_child}
use rustybug.Process.{Process, ProcessError, is_running}
use rustybug.Process.Life.{tear_down, close_output, drop}

-- The signals for a process that is given up: nothing if it is gone; else it is stopped if it runs,
-- continued, and killed if it is to be.
abbrev pub farewell : Process → List (Pid × Signal)
farewell p =
    if p.pid == 0
    then []
    else (if is_running p.state then (p.pid, sigstop) ∷ [] else [])
      ++ ((p.pid, sigcont) ∷ (if p.terminate_on_end then (p.pid, sigkill) ∷ [] else []))

module _ {Os Regs FpRegs : Type 0} (host : Host Os Regs FpRegs)
    (sent : Os → List (Pid × Signal)) where
  -- `sent` is what `kill` has been called with so far. The calls return, with an error or without.
  pub record IsLog : Type 0 where
    pub killed :
        (pid : Pid) (s : Signal) (os : Os) → sent (host.kill pid s os).1 ≡ sent os ++ (pid, s) ∷ []
    pub waited :
        (pid : Pid) (nohang : Bool) (os : Os) → sent (host.waitpid pid nohang os).1 ≡ sent os
    pub detached :
        (pid : Pid) (s : Option Signal) (os : Os) → sent (host.ptrace_detach pid s os).1 ≡ sent os
    pub closed : (fd : ℕ) (os : Os) → sent (host.close_fd fd os) ≡ sent os
    pub kill_returns : (pid : Pid) (s : Signal) (os : Os) → Returned (host.kill pid s os).0
    pub wait_returns :
        (pid : Pid) (nohang : Bool) (os : Os) → Returned (host.waitpid pid nohang os).0
    pub detach_returns :
        (pid : Pid) (s : Option Signal) (os : Os) → Returned (host.ptrace_detach pid s os).0

  -- It succeeds, and these signals have been sent.
  abbrev pub Sends : Action (World Os) ProcessError (Unit {0}) → List (Pid × Signal) → Type 0
  Sends m l = (w : World Os) → ((m w).0 ≡ ok tt) × (sent (m w).1.os ≡ sent w.os ++ l)

  run_then-Sends :
      (w : World Os) (m : Outcome ProcessError (Unit {0}) × World Os)
      (k : Action (World Os) ProcessError (Unit {0})) (l l' : List (Pid × Signal))
      → m.0 ≡ ok tt
      → sent m.1.os ≡ sent w.os ++ l
      → Sends k l'
      → ((run_then m (λ _. k)).0 ≡ ok tt)
        × (sent (run_then m (λ _. k)).1.os ≡ sent w.os ++ (l ++ l'))
  run_then-Sends w (ok u, w1) k l l' e s sk =
      let (done, sent_on) = sk w1 in
      (done, sent_on ∙ ap (λ (x : List (Pid × Signal)). x ++ l') s ∙ append_assoc (sent w.os) l l')
  run_then-Sends w (err x, w1) k l l' e s sk = absurd (cc e)
  run_then-Sends w (panic, w1) k l l' e s sk = absurd (cc e)
  run_then-Sends w (out_of_fuel, w1) k l l' e s sk = absurd (cc e)

  then-Sends :
      (m k : Action (World Os) ProcessError (Unit {0})) (l l' : List (Pid × Signal))
      → Sends m l
      → Sends k l'
      → Sends (m >> k) (l ++ l')
  then-Sends m k l l' sm sk w = run_then-Sends w (m w) k l l' (sm w).0 (sm w).1 sk

  if-Sends :
      (b : Bool) (m k : Action (World Os) ProcessError (Unit {0})) (l l' : List (Pid × Signal))
      → Sends m l
      → Sends k l'
      → Sends
          (if◌then◌else◌ {A = Action (World Os) ProcessError (Unit {0})} b m k)
          (if b then l else l')
  if-Sends true m k l l' sm sk = sm
  if-Sends false m k l l' sm sk = sk

  nothing-Sends : Sends (pure tt) []
  nothing-Sends w = (refl, sym (append-nil (sent w.os)))

  ignored_done :
      {A : Type 0} (r : Outcome Errno A)
      → Returned r
      → ◌≡◌ {A = Outcome ProcessError (Unit {0})} (ignored r) (ok tt)
  ignored_done (ok a) returned = refl
  ignored_done (err e) returned = refl
  ignored_done panic returned = absurd returned
  ignored_done out_of_fuel returned = absurd returned

  module _ (log : IsLog) where
    abbrev signal : Pid → Signal → Action (World Os) ProcessError (Unit {0})
    signal pid s = ignore (on_os (host.kill pid s))

    abbrev settle : Pid → Action (World Os) ProcessError (Unit {0})
    settle pid = ignore (on_os (host.waitpid pid false))

    signal-Sends : (pid : Pid) (s : Signal) → Sends (signal pid s) ((pid, s) ∷ [])
    signal-Sends pid s w =
        (ignored_done (host.kill pid s w.os).0 (log.kill_returns pid s w.os), log.killed pid s w.os)

    settle-Sends : (pid : Pid) → Sends (settle pid) []
    settle-Sends pid w = (
      ignored_done (host.waitpid pid false w.os).0 (log.wait_returns pid false w.os),
      log.waited pid false w.os ∙ sym (append-nil (sent w.os)),
    )

    detach-Sends : (pid : Pid) → Sends (ignore (on_os (detach_child host pid))) []
    unfolding detach_child
    detach-Sends pid w = (
      ignored_done (host.ptrace_detach pid none w.os).0 (log.detach_returns pid none w.os),
      log.detached pid none w.os ∙ sym (append-nil (sent w.os)),
    )

    -- A signal, and the wait for what it does.
    strike-Sends :
        (b : Bool) (pid : Pid) (s : Signal)
        → Sends
            (if◌then◌else◌ {A = Action (World Os) ProcessError (Unit {0})} b
              (do signal pid s; settle pid)
              (pure tt))
            (if b then (pid, s) ∷ [] else [])
    strike-Sends b pid s =
        if-Sends b (do signal pid s; settle pid) (pure tt) ((pid, s) ∷ []) []
          (then-Sends (signal pid s) (settle pid) ((pid, s) ∷ []) [] (signal-Sends pid s)
            (settle-Sends pid))
          nothing-Sends

    closed-Sends :
        (o : Option ℕ) (m : Action (World Os) ProcessError (Unit {0})) (l : List (Pid × Signal))
        → Sends m l
        → Sends (λ w. let (r, w') = m w in (r, close_output host o w')) l
    closed-Sends none m l sends w = sends w
    closed-Sends (some fd) m l sends w =
        let (done, sent_on) = sends w in (done, log.closed fd (m w).1.os ∙ sent_on)

    tear_down-Sends : (p : Process) → Sends (tear_down host p) (farewell p)
    unfolding tear_down
    tear_down-Sends p = if-Sends (p.pid == 0) (pure tt) _ [] _ nothing-Sends (
        then-Sends _ _ _ _ (strike-Sends (is_running p.state) p.pid sigstop) (
          then-Sends (ignore (on_os (detach_child host p.pid))) _ [] _ (detach-Sends p.pid) (
            then-Sends (signal p.pid sigcont) _ ((p.pid, sigcont) ∷ []) _
              (signal-Sends p.pid sigcont) (strike-Sends p.terminate_on_end p.pid sigkill))))

    -- If `sent` logs the calls of `kill` and nothing else of the teardown, and the calls return, then
    -- dropping a process succeeds, whatever errors they return, and sends, all to the process, in
    -- this order: SIGSTOP if it is recorded as running, SIGCONT, and SIGKILL if it is to be terminated
    -- at the end; for a process whose pid is 0 it sends nothing.
    pub drop-Sends : (p : Process) → Sends (drop host p) (farewell p)
    unfolding drop
    drop-Sends p = closed-Sends p.stdout_reader (tear_down host p) (farewell p) (tear_down-Sends p)
