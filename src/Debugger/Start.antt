-- ===== src/Debugger/Start.antt =====
-- What `DebuggerStateMachine::start` of src/lib.rs starts, by its arguments.
use rustybug.Prelude.{ℕ, ◌≡◌, refl, sym, ap, subst, ◌∙◌, true, false, Option, none, some, []}
use rustybug.Prelude.Outcome.{
  Outcome, ok, err, panic, out_of_fuel, ok-injective, ok_or, with_err, run_then-eq-ok, ◌>>◌,
}
use rustybug.Host.{Text, Pid, Host, World, on_os}
use rustybug.Linux.{launch_program}
use rustybug.Elf.{Formats, ExecutableFile, runtime_address_offset}
use rustybug.Process.{Process, ProcessError, StopReason, launch_failed, attach_failed, no_pid}
use rustybug.Process.Access.{mapped_address}
use rustybug.Process.Wait.{blocking_wait_on_signal}
use rustybug.Process.Wait.Kept.{IsSameBeside, blocking_wait_on_signal_same}
use rustybug.Process.Life.{fifteen_seconds, drop, wait_first, launch, attach}
use rustybug.Process.Exec.Resume.{with_err-ok}
use rustybug.Debugger.{
  Args, Error, process_error, Debugger, start, begun, root_and_elf, load_or_none, offset_for,
}

module _ {Os Regs FpRegs : Type 0} (host : Host Os Regs FpRegs) where
  -- A process dropped on the way out of a failure is not returned.
  not_dropped :
      {A : Type 0} (p : Process) (r : Outcome ProcessError A) (a : A) (w w' : World Os)
      → ((s : World Os) → ◌≡◌ {A = Outcome ProcessError A × World Os} (r, s) (ok a, w') → ⊥)
      → (do drop host p; λ s. (r, s)) w ≡ (ok a, w')
      → ⊥
  not_dropped p r a w w' never run =
      let (_, s, _, rest) = run_then-eq-ok (drop host p w) (λ _ s. (r, s)) a w' run in never s rest

  -- The end of `wait_first`.
  abbrev settled :
      Outcome ProcessError StopReason × (Process × World Os)
      → Outcome ProcessError Process × World Os
  settled (r, (p', w1)) = elim r [
    | ok _ ↦ (ok p', w1)
    | err e ↦ (do drop host p'; λ w''. (err e, w'')) w1
    | panic ↦ (do drop host p'; λ w''. (panic, w'')) w1
    | out_of_fuel ↦ (out_of_fuel, w1)
  ]

  after_first :
      (q p : Process) (w' : World Os) (m : Outcome ProcessError StopReason × (Process × World Os))
      → IsSameBeside q m.1.0
      → settled m ≡ (ok p, w')
      → IsSameBeside q p
  after_first q p w' (ok stop, (p1, w1)) same run =
      subst (IsSameBeside q) (ok-injective (λ i. (run i).0)) same
  after_first q p w' (err e, (p1, w1)) same run =
      absurd (not_dropped p1 (err e) p w1 w' (λ s r. cc r) run)
  after_first q p w' (panic, (p1, w1)) same run =
      absurd (not_dropped p1 panic p w1 w' (λ s r. cc r) run)
  after_first q p w' (out_of_fuel, (p1, w1)) same run = absurd (cc run)

  wait_first_same :
      (fuel : ℕ) (q p : Process) (w w' : World Os)
      → wait_first host fuel q w ≡ (ok p, w')
      → IsSameBeside q p
  wait_first_same fuel q p w w' run =
      after_first q p w' (blocking_wait_on_signal host fuel fifteen_seconds (q, w))
        (blocking_wait_on_signal_same host fuel fifteen_seconds q w) run

  launch_owns :
      (fuel : ℕ) (path : Text) (p : Process) (w w' : World Os)
      → launch host fuel path w ≡ (ok p, w')
      → (p.terminate_on_end ≡ true) × (p.breakpoints ≡ [])
  unfolding launch
  launch_owns fuel path p w w' run =
      let (found, w1, _, rest) =
        run_then-eq-ok (with_err (λ _. launch_failed) (on_os (launch_program host path)) w) _ p w'
          run in
      let (handle, w2, _, last) = run_then-eq-ok (ok_or no_pid found, w1) _ p w' rest in
      let same = wait_first_same fuel _ p w2 w' last in (same.terminate_on_end, same.breakpoints)

  attach_owns :
      (fuel : ℕ) (pid : Pid) (p : Process) (w w' : World Os)
      → attach host fuel pid w ≡ (ok p, w')
      → (p.terminate_on_end ≡ false) × (p.breakpoints ≡ []) × (p.stdout_reader ≡ none)
  unfolding attach
  attach_owns fuel pid p w w' run =
      let (_, w1, _, rest) =
        run_then-eq-ok (with_err (λ _. attach_failed) (on_os (host.ptrace_attach pid)) w) _ p w'
          run in
      let same = wait_first_same fuel _ p w1 w' rest in
      (same.terminate_on_end, same.breakpoints, same.stdout_reader)

module _ {Os Regs FpRegs Obj Dwarf Header CompUnit : Type 0} (host : Host Os Regs FpRegs)
    (formats : Formats Obj Dwarf Header CompUnit) where
  -- By the input and the pid of the arguments: a program is launched, and killed at the end; with no
  -- program a process is attached to, without an executable or output, and spared at the end; with
  -- neither nothing is started.
  abbrev pub Owns : Option Text → Option Pid → Process → Option (ExecutableFile Obj Dwarf) → Type 0
  Owns (some input) pid root elf = root.terminate_on_end ≡ true
  Owns none (some pid) root elf =
      (root.terminate_on_end ≡ false) × (root.stdout_reader ≡ none) × (elf ≡ none)
  Owns none none root elf = ⊥

  root_and_elf-Owns :
      (fuel : ℕ) (input : Option Text) (pid : Option Pid) (root : Process)
      (elf : Option (ExecutableFile Obj Dwarf)) (w w' : World Os)
      → root_and_elf host formats fuel input pid w ≡ (ok (root, elf), w')
      → (root.breakpoints ≡ []) × Owns input pid root elf
  root_and_elf-Owns fuel (some input) pid root elf w w' run =
      let (elf', w1, _, rest) =
        run_then-eq-ok (load_or_none host formats input w) _ (root, elf) w' run in
      let (root', w2, launched, last) =
        run_then-eq-ok (with_err process_error (launch host fuel input) w1) _ (root, elf) w' rest in
      let owns =
        launch_owns host fuel input root' w1 w2 (with_err-ok process_error _ root' w2 launched) in
      let same : root' ≡ root = λ i. (ok-injective (λ j. (last j).0) i).0 in
      (
        ap (λ (p : Process). p.breakpoints) (sym same) ∙ owns.1,
        ap (λ (p : Process). p.terminate_on_end) (sym same) ∙ owns.0,
      )
  root_and_elf-Owns fuel none (some pid) root elf w w' run =
      let (root', w1, attached, last) =
        run_then-eq-ok (with_err process_error (attach host fuel pid) w) _ (root, elf) w' run in
      let owns =
        attach_owns host fuel pid root' w w1 (with_err-ok process_error _ root' w1 attached) in
      let same : ◌≡◌ {A = Process × Option (ExecutableFile Obj Dwarf)} (root', none) (root, elf) =
        ok-injective (λ j. (last j).0) in
      let same_root : root' ≡ root = λ i. (same i).0 in
      (
        ap (λ (p : Process). p.breakpoints) (sym same_root) ∙ owns.1,
        (
          ap (λ (p : Process). p.terminate_on_end) (sym same_root) ∙ owns.0,
          ap (λ (p : Process). p.stdout_reader) (sym same_root) ∙ owns.2,
          sym (λ i. (same i).1),
        ),
      )
  root_and_elf-Owns fuel none none root elf w w' run = absurd (cc run)

  -- The offset is all that changes.
  relocated :
      (root root' : Process) (r : Outcome Error ℕ)
      → (elim r [
        | ok n ↦ ok (record root { addr_offset = n })
        | err e ↦ err e
        | panic ↦ panic
        | out_of_fuel ↦ out_of_fuel
      ])
        ≡ ok root'
      → root' ≡ record root { addr_offset = root'.addr_offset }
  relocated root root' (ok n) e =
      let same = ok-injective (sym e) in
      same
      ∙ ap (λ (n : ℕ). record root { addr_offset = n })
          (ap (λ (p : Process). p.addr_offset) (sym same))
  relocated root root' (err x) e = absurd (cc e)
  relocated root root' panic e = absurd (cc e)
  relocated root root' out_of_fuel e = absurd (cc e)

  offset_for-ok :
      (root root' : Process) (elf : Option (ExecutableFile Obj Dwarf)) (mapped : Option ℕ)
      → offset_for host formats root elf mapped ≡ ok root'
      → root' ≡ record root { addr_offset = root'.addr_offset }
  offset_for-ok root root' (some elf) (some mapped) e =
      relocated root root'
        (runtime_address_offset formats {E = Error} host.overflow_checks elf mapped) e
  offset_for-ok root root' (some elf) none e = cc e
  offset_for-ok root root' none mapped e = cc e

  Owns-moved :
      (input : Option Text) (pid : Option Pid) (root root' : Process)
      (elf : Option (ExecutableFile Obj Dwarf))
      → root' ≡ record root { addr_offset = root'.addr_offset }
      → Owns input pid root elf
      → Owns input pid root' elf
  Owns-moved (some input) pid root root' elf moved owns =
      ap (λ (p : Process). p.terminate_on_end) moved ∙ owns
  Owns-moved none (some pid) root root' elf moved (spared, silent, bare) = (
    ap (λ (p : Process). p.terminate_on_end) moved ∙ spared,
    ap (λ (p : Process). p.stdout_reader) moved ∙ silent,
    bare,
  )
  Owns-moved none none root root' elf moved owns = owns

  -- Nothing comes after dropping the process.
  dropped :
      (root : Process) (r : Outcome Error (Debugger Obj Dwarf)) (d : Debugger Obj Dwarf)
      (w w' : World Os)
      → ((s : World Os)
          → ◌≡◌ {A = Outcome Error (Debugger Obj Dwarf) × World Os} (r, s) (ok d, w')
          → ⊥)
      → (do with_err process_error (drop host root); λ s. (r, s)) w ≡ (ok d, w')
      → ⊥
  dropped root r d w w' never run =
      let (_, s, _, rest) =
        run_then-eq-ok (with_err process_error (drop host root) w) (λ _ s. (r, s)) d w' run in
      never s rest

  begun-ok :
      (args : Args) (elf : Option (ExecutableFile Obj Dwarf)) (root : Process)
      (o : Outcome Error Process) (d : Debugger Obj Dwarf) (w w' : World Os)
      → begun host formats args elf root o w ≡ (ok d, w')
      → (root' : Process) × (o ≡ ok root')
        × (◌≡◌ {A = Debugger Obj Dwarf} (record { root = root'; elf = elf; args = args }) d)
  begun-ok args elf root (ok root') d w w' run = (root', refl, ok-injective (λ i. (run i).0))
  begun-ok args elf root (err e) d w w' run = absurd (dropped root (err e) d w w' (λ s r. cc r) run)
  begun-ok args elf root panic d w w' run = absurd (dropped root panic d w w' (λ s r. cc r) run)
  begun-ok args elf root out_of_fuel d w w' run = absurd (cc run)

  -- If `start` returns a debugger, it is for the arguments given, its process has no breakpoints,
  -- and with an input it has launched the program, which it will kill at the end; with no input but
  -- a pid it has attached to that process, which it will not kill, and has no executable and no
  -- output of it. With neither it never returns one.
  pub start-Owns :
      (fuel : ℕ) (args : Args) (d : Debugger Obj Dwarf) (w w' : World Os)
      → start host formats fuel args w ≡ (ok d, w')
      → (d.args ≡ args) × (d.root.breakpoints ≡ []) × Owns args.input args.pid d.root d.elf
  unfolding start
  start-Owns fuel args d w w' run =
      let ((root, elf), w1, begun, rest) =
        run_then-eq-ok (root_and_elf host formats fuel args.input args.pid w) _ d w' run in
      let (root', offset, done) =
        begun-ok args elf root (offset_for host formats root elf (mapped_address host root w1.os)) d
          w1 w' rest in
      let (clean, owns) = root_and_elf-Owns fuel args.input args.pid root elf w w1 begun in
      let moved = offset_for-ok root root' elf (mapped_address host root w1.os) offset in
      let list : d.root.breakpoints ≡ root.breakpoints =
        sym (λ i. (done i).root.breakpoints) ∙ ap (λ (p : Process). p.breakpoints) moved in
      (
        sym (λ i. (done i).args),
        list ∙ clean,
        subst (λ (x : Debugger Obj Dwarf). Owns args.input args.pid x.root x.elf) done
            (Owns-moved args.input args.pid root root' elf moved owns),
      )
