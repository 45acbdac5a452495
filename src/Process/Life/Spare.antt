-- ===== src/Process/Life/Spare.antt =====
-- The teardown and the attaching of src/process.rs: what they never do to a process that was
-- attached to.
use rustybug.Prelude.{
  ℕ, zero, suc, ◌-◌, ◌≡◌, ◌≢◌, refl, sym, ◌∙◌, false≢true, Bool, true, false, none, some, Option,
  [], ltb, ◌==◌, arith, if◌then◌else◌,
}
use rustybug.Prelude.Outcome.{
  Outcome, ok, err, panic, out_of_fuel, Action, ◌>>◌, run_then, ignore, pure, fail, with_err,
}
use rustybug.Host.{Pid, Signal, sigkill, sigcont, sigstop, Host, World, on_os}
use rustybug.Ptrace.{detach_child}
use rustybug.Process.{
  Process, ProcessError, is_running, StopReason, timeout, attach_failed, stopped, Method,
}
use rustybug.Process.Wait.{wait_on_signal, wait_loop, blocking_wait_on_signal}
use rustybug.Process.Life.{fifteen_seconds, tear_down, close_output, drop, wait_first, attach}

module _ {Os Regs FpRegs : Type 0} (host : Host Os Regs FpRegs) (Q : Os → Type 0) where
  -- `Q` survives the kernel calls that the code makes on a process it attached to; of the signals,
  -- all but SIGKILL.
  pub record Survives : Type 0 where
    pub any_but_kill :
        (pid : Pid) (s : Signal) (os : Os) → s ≢ sigkill → Q os → Q (host.kill pid s os).1
    pub waitpid : (pid : Pid) (nohang : Bool) (os : Os) → Q os → Q (host.waitpid pid nohang os).1
    pub detach :
        (pid : Pid) (s : Option Signal) (os : Os) → Q os → Q (host.ptrace_detach pid s os).1
    pub close : (fd : ℕ) (os : Os) → Q os → Q (host.close_fd fd os)
    pub attach : (pid : Pid) (os : Os) → Q os → Q (host.ptrace_attach pid os).1

  -- A call that keeps `Q`.
  abbrev pub Keeps : {E A : Type 0} → Action (World Os) E A → Type 0
  Keeps m = (w : World Os) → Q w.os → Q (m w).1.os

  run_then-Keeps :
      {E A B : Type 0} (m : Outcome E A × World Os) (k : A → Action (World Os) E B)
      → Q m.1.os
      → ((a : A) → Keeps (k a))
      → Q (run_then m k).1.os
  run_then-Keeps (ok a, w) k q next = next a w q
  run_then-Keeps (err e, w) k q next = q
  run_then-Keeps (panic, w) k q next = q
  run_then-Keeps (out_of_fuel, w) k q next = q

  then-Keeps :
      {E A B : Type 0} (m : Action (World Os) E A) (k : Action (World Os) E B)
      → Keeps m
      → Keeps k
      → Keeps (m >> k)
  then-Keeps m k km kk w q = run_then-Keeps (m w) (λ _. k) (km w q) (λ _. kk)

  if-Keeps :
      {E A : Type 0} (b : Bool) (m : Action (World Os) E A) (k : Action (World Os) E A)
      → ((b ≡ true) → Keeps m)
      → Keeps k
      → Keeps (if◌then◌else◌ {A = Action (World Os) E A} b m k)
  if-Keeps true m k km kk w q = km refl w q
  if-Keeps false m k km kk w q = kk w q

  module _ (survives : Survives) where
    -- The parts of `drop`.
    abbrev signal : Pid → Signal → Action (World Os) ProcessError (Unit {0})
    signal pid s = ignore (on_os (host.kill pid s))

    abbrev settle : Pid → Action (World Os) ProcessError (Unit {0})
    settle pid = ignore (on_os (host.waitpid pid false))

    abbrev halt : Process → Action (World Os) ProcessError (Unit {0})
    halt p = if is_running p.state then (do signal p.pid sigstop; settle p.pid) else pure tt

    abbrev finish : Process → Action (World Os) ProcessError (Unit {0})
    finish p = if p.terminate_on_end then (do signal p.pid sigkill; settle p.pid) else pure tt

    abbrev let_go : Process → Action (World Os) ProcessError (Unit {0})
    let_go p = do ignore (on_os (detach_child host p.pid)); signal p.pid sigcont; finish p

    signal-Keeps : (pid : Pid) (s : Signal) → s ≢ sigkill → Keeps (signal pid s)
    signal-Keeps pid s ne w q = survives.any_but_kill pid s w.os ne q

    settle-Keeps : (pid : Pid) → Keeps (settle pid)
    settle-Keeps pid w q = survives.waitpid pid false w.os q

    halt-Keeps : (p : Process) → Keeps (halt p)
    halt-Keeps p =
        if-Keeps (is_running p.state) (do signal p.pid sigstop; settle p.pid) (pure tt)
          (λ _.
            then-Keeps (signal p.pid sigstop) (settle p.pid)
              (signal-Keeps p.pid sigstop (omega arith)) (settle-Keeps p.pid))
          (λ w q. q)

    finish-Keeps : (p : Process) → p.terminate_on_end ≡ false → Keeps (finish p)
    finish-Keeps p spare =
        if-Keeps p.terminate_on_end (do signal p.pid sigkill; settle p.pid) (pure tt)
          (λ kills. absurd (false≢true (sym spare ∙ kills))) (λ w q. q)

    let_go-Keeps : (p : Process) → p.terminate_on_end ≡ false → Keeps (let_go p)
    unfolding detach_child
    let_go-Keeps p spare =
        then-Keeps (ignore (on_os (detach_child host p.pid))) (signal p.pid sigcont >> finish p)
          (λ w q. survives.detach p.pid none w.os q)
          (then-Keeps (signal p.pid sigcont) (finish p) (signal-Keeps p.pid sigcont (omega arith))
            (finish-Keeps p spare))

    tear_down-Keeps : (p : Process) → p.terminate_on_end ≡ false → Keeps (tear_down host p)
    unfolding tear_down
    tear_down-Keeps p spare =
        if-Keeps (p.pid == 0) (pure tt) (halt p >> let_go p) (λ _ w q. q)
          (then-Keeps (halt p) (let_go p) (halt-Keeps p) (let_go-Keeps p spare))

    closed-Keeps :
        (o : Option ℕ) (m : Action (World Os) ProcessError (Unit {0}))
        → Keeps m
        → Keeps (λ w. let (r, w') = m w in (r, close_output host o w'))
    closed-Keeps none m k w q = k w q
    closed-Keeps (some fd) m k w q = survives.close fd (m w).1.os (k w q)

    -- If a predicate on the system survives detaching, closing, every wait and every signal but
    -- SIGKILL (and attaching, which the teardown does not do), then it survives dropping a process
    -- that is not to be terminated at the end.
    pub drop-Keeps : (p : Process) → p.terminate_on_end ≡ false → Keeps (drop host p)
    unfolding drop
    drop-Keeps p spare = closed-Keeps p.stdout_reader (tear_down host p) (tear_down-Keeps p spare)

    -- `Q` holds, and the process is not to be killed at the end.
    abbrev Spared : Process × World Os → Type 0
    Spared (p, w) = Q w.os × (p.terminate_on_end ≡ false)

    run_then-Spared :
        {A B : Type 0} (m : Outcome ProcessError A × (Process × World Os)) (k : A → Method Os B)
        → Spared m.1
        → ((a : A) (s : Process × World Os) → Spared s → Spared (k a s).1)
        → Spared (run_then m k).1
    run_then-Spared (ok a, s) k q next = next a s q
    run_then-Spared (err e, s) k q next = q
    run_then-Spared (panic, s) k q next = q
    run_then-Spared (out_of_fuel, s) k q next = q

    if-Spared :
        {A : Type 0} (b : Bool) (x y : Outcome ProcessError A × (Process × World Os))
        → Spared x.1
        → Spared y.1
        → Spared (if◌then◌else◌ {A = Outcome ProcessError A × (Process × World Os)} b x y).1
    if-Spared true x y sx sy = sx
    if-Spared false x y sx sy = sy

    wait_on_signal-Spared : (s : Process × World Os) → Spared s → Spared (wait_on_signal host s).1
    unfolding wait_on_signal
    wait_on_signal-Spared (p, w) (q, spare) =
        ground (arith, spare, survives.waitpid p.pid true w.os q)

    -- What the loop does with the answer of a poll.
    abbrev after_poll :
        (Process × World Os → Outcome ProcessError StopReason × (Process × World Os))
        → Option StopReason
        → Method Os StopReason
    after_poll k res s = elim res [ some stop ↦ (ok stop, s) | none ↦ k s ]

    after_poll-Spared :
        (k : Process × World Os → Outcome ProcessError StopReason × (Process × World Os))
        → ((s : Process × World Os) → Spared s → Spared (k s).1)
        → (res : Option StopReason) (s : Process × World Os) → Spared s
        → Spared (after_poll k res s).1
    after_poll-Spared k ks none s q = ks s q
    after_poll-Spared k ks (some stop) s q = q

    wait_loop-Spared :
        (fuel started limit : ℕ) (s : Process × World Os)
        → Spared s
        → Spared (wait_loop host fuel started limit s).1
    unfolding wait_loop
    wait_loop-Spared zero started limit s q = q
    wait_loop-Spared (suc fuel) started limit s q =
        if-Spared (ltb (host.now s.1.os - started) limit)
          (run_then (wait_on_signal host s) (after_poll (wait_loop host fuel started limit)))
          (err timeout, s)
          (run_then-Spared (wait_on_signal host s) (after_poll (wait_loop host fuel started limit))
            (wait_on_signal-Spared s q)
            (after_poll-Spared (wait_loop host fuel started limit)
              (wait_loop-Spared fuel started limit)))
          q

    -- What `attach` does with the answer of the first wait.
    abbrev after_wait :
        Outcome ProcessError StopReason → Process → Action (World Os) ProcessError Process
    after_wait r p w = elim r [
      | ok _ ↦ (ok p, w)
      | err e ↦ (do drop host p; λ w'. (err e, w')) w
      | panic ↦ (do drop host p; λ w'. (panic, w')) w
      | out_of_fuel ↦ (out_of_fuel, w)
    ]

    first_wait-Spared :
        (fuel : ℕ) (p : Process) (w : World Os)
        → Spared (p, w)
        → Spared (blocking_wait_on_signal host fuel fifteen_seconds (p, w)).1
    unfolding blocking_wait_on_signal
    first_wait-Spared fuel p w q = wait_loop-Spared fuel (host.now w.os) fifteen_seconds (p, w) q

    abbrev panics : Outcome ProcessError Process
    panics = panic

    after_wait-Keeps :
        (r : Outcome ProcessError StopReason) (p : Process) (w : World Os)
        → Spared (p, w)
        → Q (after_wait r p w).1.os
    after_wait-Keeps (ok stop) p w (q, spare) = q
    after_wait-Keeps (err e) p w (q, spare) =
        then-Keeps (drop host p) (fail {A = Process} e) (drop-Keeps p spare) (λ w q. q) w q
    after_wait-Keeps panic p w (q, spare) =
        then-Keeps (drop host p) (λ w'. (panics, w')) (drop-Keeps p spare) (λ w q. q) w q
    after_wait-Keeps out_of_fuel p w (q, spare) = q

    abbrev attached : Pid → Process
    attached pid = record {
      pid = pid;
      stdout_reader = none;
      addr_offset = 0;
      terminate_on_end = false;
      state = stopped;
      breakpoints = [];
    }

    -- If a predicate on the system survives attaching, detaching, closing, every wait and every signal
    -- but SIGKILL, then it survives a call of `attach`, however its first wait goes, the teardown after
    -- a failed one included. So `attach` never sends SIGKILL.
    pub attach-Keeps : (fuel : ℕ) (pid : Pid) → Keeps (attach host fuel pid)
    unfolding attach
    attach-Keeps fuel pid w q =
        then-Keeps (with_err (λ _. attach_failed) (on_os (host.ptrace_attach pid)))
          (wait_first host fuel (attached pid)) (λ w q. survives.attach pid w.os q)
          (λ w q.
            let (r, (p, w')) =
              blocking_wait_on_signal host fuel fifteen_seconds (attached pid, w) in
            after_wait-Keeps r p w' (first_wait-Spared fuel (attached pid) w (q, refl)))
          w q
