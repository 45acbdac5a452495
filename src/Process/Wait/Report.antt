-- ===== src/Process/Wait/Report.antt =====
-- What a call of `wait_on_signal` of src/process.rs tells and records, by the answer of waitpid.
use rustybug.Prelude.{
  ℕ, ◌%◌, ◌≡◌, ◌≢◌, refl, true, ◌==◌, ◌⊎◌, inl, inr, Option, none, some, arith, Bool-cases,
}
use rustybug.Prelude.Outcome.{Outcome, ok, err, panic, out_of_fuel, to_option}
use rustybug.Host.{Pid, Errno, WaitStatus, Host, World}
use rustybug.Process.{
  TrapType, single_step, software_break, hardware_break, Event, fork, vfork, spawn, exec, exit,
  try_from, Info, signalled, return, State, stopped, running, exited, terminated, StopReason,
  ProcessError, wait_failed, Process,
}
use rustybug.Process.Wait.{trap_type, trap_of, on_status, wait_on_signal}

-- The kind of a trap, by the signal's details: TRAP_TRACE, SI_KERNEL, TRAP_HWBKPT, any other code, or
-- no details.
pub data IsTrap : Outcome Errno ℕ → Option TrapType → Type 0 where
  trace : IsTrap (ok 2) (some single_step)
  kernel : IsTrap (ok 0x80) (some software_break)
  hardware : IsTrap (ok 4) (some hardware_break)
  another : {code : ℕ} → code ≢ 2 → code ≢ 0x80 → code ≢ 4 → IsTrap (ok code) none
  unasked : {info : Outcome Errno ℕ} → ((code : ℕ) → info ≢ ok code) → IsTrap info none

-- The kind of a ptrace event, by its number.
pub data IsEvent : ℕ → Option Event → Type 0 where
  forks : IsEvent 1 (some fork)
  vforks : IsEvent 2 (some vfork)
  clones : IsEvent 3 (some spawn)
  execs : IsEvent 4 (some exec)
  exits : IsEvent 6 (some exit)
  another : {n : ℕ} → n ≢ 1 → n ≢ 2 → n ≢ 3 → n ≢ 4 → n ≢ 6 → IsEvent n none

module _ {Os Regs FpRegs : Type 0} (host : Host Os Regs FpRegs) where
  -- A stop is reported, with the trap's kind by the signal's details for the pid as it is by then, and
  -- of the process no more than the pid and the state has changed.
  abbrev pub Stop :
      Process
      → Process
      → Os
      → Outcome ProcessError (Option StopReason)
      → State
      → Info
      → Option Event
      → State
      → Pid
      → Type 0
  Stop p p' os' r reason info event state pid =
      (trap : Option TrapType) × IsTrap (host.ptrace_getsiginfo pid os') trap
      × (r ≡ ok (some (record { reason = reason; info = info; event = event; trap_reason = trap })))
      × (p' ≡ record p { pid = pid; state = state })

  -- What is returned, and the process, by the answer of waitpid.
  abbrev pub Reports :
      Process
      → Outcome Errno WaitStatus
      → Process
      → Os
      → Outcome ProcessError (Option StopReason)
      → Type 0
  Reports p (ok (WaitStatus.stopped child signal)) p' os' r =
      Stop p p' os' r stopped (signalled signal) none stopped p.pid
  Reports p (ok (WaitStatus.signaled child signal core)) p' os' r =
      Stop p p' os' r terminated (signalled signal) none terminated p.pid
  Reports p (ok (WaitStatus.ptrace_event child signal number)) p' os' r =
      (event : Option Event) × IsEvent number event
      × Stop p p' os' r stopped (signalled signal) event stopped p.pid
  Reports p (ok (WaitStatus.exited child code)) p' os' r =
      ((child ≡ p.pid) × Stop p p' os' r exited (return (code % 256)) none exited 0)
      ⊎ ((child ≢ p.pid) × Stop p p' os' r exited (return (code % 256)) none running p.pid)
  Reports p (ok WaitStatus.still_alive) p' os' r = (r ≡ ok none) × (p' ≡ p)
  Reports p (ok (WaitStatus.ptrace_syscall child)) p' os' r = (r ≡ panic) × (p' ≡ p)
  Reports p (ok (WaitStatus.continued child)) p' os' r = (r ≡ panic) × (p' ≡ p)
  Reports p (err e) p' os' r = (r ≡ err wait_failed) × (p' ≡ p)
  Reports p panic p' os' r = (r ≡ panic) × (p' ≡ p)
  Reports p out_of_fuel p' os' r = (r ≡ out_of_fuel) × (p' ≡ p)

trap_of-IsTrap : (info : Outcome Errno ℕ) → IsTrap info (trap_of info)
unfolding trap_type
trap_of-IsTrap (ok code) = elim (Bool-cases (code == 2)) [
  | inl two ↦ let same : code ≡ 2 = ground arith in rw same trace
  | inr not2 ↦ elim (Bool-cases (code == 0x80)) [
    | inl high ↦ let same : code ≡ 0x80 = ground arith in rw same kernel
    | inr not80 ↦ elim (Bool-cases (code == 4)) [
      | inl four ↦ let same : code ≡ 4 = ground arith in rw same hardware
      | inr not4 ↦
          rw (not2, not80, not4) (IsTrap.another (ground arith) (ground arith) (ground arith))
    ]
  ]
]
trap_of-IsTrap (err e) = unasked (λ c h. cc h)
trap_of-IsTrap panic = unasked (λ c h. cc h)
trap_of-IsTrap out_of_fuel = unasked (λ c h. cc h)

try_from-IsEvent : (n : ℕ) → IsEvent n (to_option (try_from n))
unfolding try_from
try_from-IsEvent n = elim (Bool-cases (n == 1)) [
  | inl e ↦ let same : n ≡ 1 = ground arith in rw same forks
  | inr n1 ↦ elim (Bool-cases (n == 2)) [
    | inl e ↦ let same : n ≡ 2 = ground arith in rw same vforks
    | inr n2 ↦ elim (Bool-cases (n == 3)) [
      | inl e ↦ let same : n ≡ 3 = ground arith in rw same clones
      | inr n3 ↦ elim (Bool-cases (n == 4)) [
        | inl e ↦ let same : n ≡ 4 = ground arith in rw same execs
        | inr n4 ↦ elim (Bool-cases (n == 6)) [
          | inl e ↦ let same : n ≡ 6 = ground arith in rw same exits
          | inr n6 ↦
              rw (n1, n2, n3, n4, n6)
                (IsEvent.another (ground arith) (ground arith) (ground arith) (ground arith)
                  (ground arith))
        ]
      ]
    ]
  ]
]

module _ {Os Regs FpRegs : Type 0} (host : Host Os Regs FpRegs) where
  -- By the answer.
  told-Reports :
      (p : Process) (w : World Os) (os' : Os) (status : Outcome Errno WaitStatus)
      → host.waitpid p.pid true w.os ≡ (status, os')
      → (let (r, (p', w')) = wait_on_signal host (p, w) in
          (w' ≡ record w { os = os' }) × Reports host p status p' os' r)
  unfolding wait_on_signal on_status
  told-Reports p w os' (ok (WaitStatus.stopped child signal)) e =
      rw (wait_on_signal, e)
        (refl, (trap_of (host.ptrace_getsiginfo p.pid os'), trap_of-IsTrap _, refl, refl))
  told-Reports p w os' (ok (WaitStatus.signaled child signal core)) e =
      rw (wait_on_signal, e)
        (refl, (trap_of (host.ptrace_getsiginfo p.pid os'), trap_of-IsTrap _, refl, refl))
  told-Reports p w os' (ok (WaitStatus.ptrace_event child signal number)) e =
      rw (wait_on_signal, e)
        (
          refl,
          (
            to_option (try_from number),
            try_from-IsEvent number,
            (trap_of (host.ptrace_getsiginfo p.pid os'), trap_of-IsTrap _, refl, refl),
          ),
        )
  told-Reports p w os' (ok (WaitStatus.exited child code)) e = elim (Bool-cases (child == p.pid)) [
    | inl own ↦
        rw (wait_on_signal, e, own)
          (
            refl,
            inl (
              ground (arith, own),
              (trap_of (host.ptrace_getsiginfo 0 os'), trap_of-IsTrap _, refl, refl),
            ),
          )
    | inr foreign ↦
        rw (wait_on_signal, e, foreign)
          (
            refl,
            inr (
              ground (arith, foreign),
              (trap_of (host.ptrace_getsiginfo p.pid os'), trap_of-IsTrap _, refl, refl),
            ),
          )
  ]
  told-Reports p w os' (ok WaitStatus.still_alive) e = rw (wait_on_signal, e) (refl, (refl, refl))
  told-Reports p w os' (ok (WaitStatus.ptrace_syscall child)) e =
      rw (wait_on_signal, e) (refl, (refl, refl))
  told-Reports p w os' (ok (WaitStatus.continued child)) e =
      rw (wait_on_signal, e) (refl, (refl, refl))
  told-Reports p w os' (err x) e = rw (wait_on_signal, e) (refl, (refl, refl))
  told-Reports p w os' panic e = rw (wait_on_signal, e) (refl, (refl, refl))
  told-Reports p w os' out_of_fuel e = rw (wait_on_signal, e) (refl, (refl, refl))

  -- A call of `wait_on_signal`, by the one answer that waitpid gives. A stop by a signal is reported as
  -- Stopped, an end by one as Terminated, each with the signal and recorded as such; a ptrace event
  -- as Stopped with the signal and the kind of event by its number, none for a number that is not
  -- known; the process's own exit as Exited with the low byte of the code, recorded with the pid at
  -- 0, and another's just so, but the process is recorded as running and keeps its pid. With each of
  -- these comes the trap's kind by the signal's details for the recorded pid, and no more of the
  -- process than pid and state changes. While it runs nothing is reported, an error is `WaitFailed`,
  -- and any other answer is a panic; the process is then as it was.
  pub wait_on_signal-Reports :
      (p : Process) (w : World Os)
      → (let (status, os') = host.waitpid p.pid true w.os in
          let (r, (p', w')) = wait_on_signal host (p, w) in
          (w' ≡ record w { os = os' }) × Reports host p status p' os' r)
  wait_on_signal-Reports p w =
      let (status, os') = host.waitpid p.pid true w.os in told-Reports p w os' status refl
