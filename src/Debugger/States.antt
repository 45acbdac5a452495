-- ===== src/Debugger/States.antt =====
-- When `cont` and `step` of src/lib.rs act on the process, and the state they leave.
use rustybug.Prelude.{◌≡◌, refl, sym, ap, ◌∙◌, true, false, Bool, if◌then◌else◌}
use rustybug.Prelude.Outcome.{
  Outcome, ok, err, panic, out_of_fuel, map_err, reads, ◌>>◌, run_then-eq-ok,
}
use rustybug.Host.{Host, World}
use rustybug.Elf.{Formats}
use rustybug.Process.{Process, State, stopped, running, exited, terminated, is_stopped}
use rustybug.Process
use rustybug.Process.Exec
use rustybug.Debugger.{
  Error, Debugger, not_stopped, process_error, cont, step, get_registers, on_root,
}

pub map_err-ok :
    {E F A : Type 0} (f : E → F) (a : A) (r : Outcome E A) → map_err f r ≡ ok a → r ≡ ok a
map_err-ok f a (ok b) e = cc
map_err-ok f a (err x) e = cc
map_err-ok f a panic e = cc
map_err-ok f a out_of_fuel e = cc

is_stopped_at : {s : State} → s ≡ stopped → is_stopped s ≡ true
is_stopped_at e = rw e refl

if_no : {A : Type 0} {b : Bool} (x y : A) → b ≡ false → (if b then x else y) ≡ y
if_no x y e = rw e refl

if_yes : {A : Type 0} {b : Bool} (x y : A) → b ≡ true → (if b then x else y) ≡ x
if_yes x y e = rw e refl

module _ {Os Regs FpRegs Obj Dwarf Header CompUnit : Type 0} (host : Host Os Regs FpRegs)
    (formats : Formats Obj Dwarf Header CompUnit) where
  resumed :
      (p p' : Process) (w w' : World Os)
      → Exec.resume host (p, w) ≡ (ok tt, (p', w'))
      → p'.state ≡ running
  unfolding Exec.resume
  resumed p p' w w' run =
      let (hit, s, _, rest) =
        run_then-eq-ok (reads (λ (p, w). Exec.hits_from host 0 p.pid p.breakpoints w.os) (p, w))
          (λ hit. do Exec.resume_at host hit; Exec.set_state host running) tt (p', w') run in
      let (_, s', _, end) =
        run_then-eq-ok (Exec.resume_at host hit s) (λ _. Exec.set_state host running) tt (p', w')
          rest in
      sym (λ i. (end i).1.0.state)

  stepped :
      (p p' : Process) (w w' : World Os)
      → Exec.step host (p, w) ≡ (ok tt, (p', w'))
      → p'.state ≡ stopped
  unfolding Exec.step
  stepped p p' w w' run =
      let (hit, s, _, rest) =
        run_then-eq-ok (reads (λ (p, w). Exec.hits_from host 0 p.pid p.breakpoints w.os) (p, w))
          (λ hit. do Exec.step_at host hit; Exec.set_state host stopped) tt (p', w') run in
      let (_, s', _, end) =
        run_then-eq-ok (Exec.step_at host hit s) (λ _. Exec.set_state host stopped) tt (p', w')
          rest in
      sym (λ i. (end i).1.0.state)

  pub on_root_ok :
      {A : Type 0} (a : A) (m : Process.Method Os A) (d d' : Debugger Obj Dwarf) (w w' : World Os)
      → on_root host formats m (d, w) ≡ (ok a, (d', w'))
      → (p : Process) × (m (d.root, w) ≡ (ok a, (p, w'))) × (d'.root ≡ p)
  on_root_ok a m d d' w w' run =
      let (p, w1) = (m (d.root, w)).1 in
      let done = map_err-ok process_error a (m (d.root, w)).0 (λ i. (run i).0) in
      (p, (λ i. (done i, (p, (run i).1.1))), sym (λ i. (run i).1.0.root))

  -- A call that succeeds leaves the process in the state `s`.
  abbrev pub Leaves : State → Outcome Error (Unit {0}) × (Debugger Obj Dwarf × World Os) → Type 0
  Leaves s (ok u, (d, w)) = d.root.state ≡ s
  Leaves s (err e, (d, w)) = Unit
  Leaves s (panic, (d, w)) = Unit
  Leaves s (out_of_fuel, (d, w)) = Unit

  -- `cont` and `step` succeed and change nothing, and there are no registers to be had.
  abbrev pub Idles : Debugger Obj Dwarf → World Os → Type 0
  Idles d w =
      (cont host formats (d, w) ≡ (ok tt, (d, w)))
      × (step host formats (d, w) ≡ (ok tt, (d, w)))
      × (get_registers host formats d w.os ≡ err (not_stopped d.root.state))

  -- What the debugger does, by the state of its process.
  abbrev pub Acts : State → Debugger Obj Dwarf → World Os → Type 0
  Acts stopped d w =
      Leaves running (cont host formats (d, w)) × Leaves stopped (step host formats (d, w))
  Acts running d w = Idles d w
  Acts exited d w = Idles d w
  Acts terminated d w = Idles d w

  Leaves-by :
      (s : State) (m : Outcome Error (Unit {0}) × (Debugger Obj Dwarf × World Os))
      → ((d' : Debugger Obj Dwarf) (w' : World Os) → m ≡ (ok tt, (d', w')) → d'.root.state ≡ s)
      → Leaves s m
  Leaves-by s (ok u, (d, w)) h = h d w refl
  Leaves-by s (err e, (d, w)) h = tt
  Leaves-by s (panic, (d, w)) h = tt
  Leaves-by s (out_of_fuel, (d, w)) h = tt

  idle : (d : Debugger Obj Dwarf) (w : World Os) → is_stopped d.root.state ≡ false → Idles d w
  unfolding cont step get_registers
  idle d w off = (if_no _ _ off, if_no _ _ off, if_no _ _ off)

  active :
      (d : Debugger Obj Dwarf) (w : World Os)
      → is_stopped d.root.state ≡ true
      → Leaves running (cont host formats (d, w)) × Leaves stopped (step host formats (d, w))
  unfolding cont step
  active d w go = (
    Leaves-by running (cont host formats (d, w)) (λ d' w' run.
        let (p, ran, same) =
          on_root_ok tt (Exec.resume host) d d' w w' (sym (if_yes _ _ go) ∙ run) in
        ap (λ (x : Process). x.state) same ∙ resumed d.root p w w' ran),
    Leaves-by stopped (step host formats (d, w)) (λ d' w' run.
        let (p, ran, same) = on_root_ok tt (Exec.step host) d d' w w' (sym (if_yes _ _ go) ∙ run) in
        ap (λ (x : Process). x.state) same ∙ stepped d.root p w w' ran),
  )

  Acts-by : (s : State) (d : Debugger Obj Dwarf) (w : World Os) → d.root.state ≡ s → Acts s d w
  Acts-by stopped d w e = active d w (is_stopped_at e)
  Acts-by running d w e = idle d w (rw e refl)
  Acts-by exited d w e = idle d w (rw e refl)
  Acts-by terminated d w e = idle d w (rw e refl)

  -- The debugger acts on its process only while that is stopped: in any other state `cont` and
  -- `step` succeed and change nothing, and asking for the registers is an error that names the
  -- state. From a stopped process, a `cont` that succeeds leaves it running, and a `step` that
  -- succeeds leaves it stopped.
  pub cont-step_states : (d : Debugger Obj Dwarf) (w : World Os) → Acts d.root.state d w
  cont-step_states d w = Acts-by d.root.state d w refl
