-- ===== src/Debugger/Owned.antt =====
-- What the methods of src/lib.rs leave alone: whether the process was launched or attached to, and so
-- what becomes of it at the end.
use rustybug.Prelude.{
  ℕ, refl, ◌∙◌, Bool, true, false, Option, none, some, List, [], ◌∷◌, if◌then◌else◌,
}
use rustybug.Prelude.Outcome.{Outcome, ok, err, panic, out_of_fuel, run_then, map_err}
use rustybug.Host.{Text, Pid, Host, World, add_u64}
use rustybug.Commands.Syntax.{Location}
use rustybug.Elf.{Formats, ExecutableFile, ReadError, Die}
use rustybug.Elf.Lookup.{find_functions}
use rustybug.Process.{Process, ProcessError, is_stopped}
use rustybug.Process
use rustybug.Process.Exec
use rustybug.Process.Exec.{set_breakpoint}
use rustybug.Process.Exec.Kept.{
  HasFate, IsSteady, resume-IsSteady, step-IsSteady, set_breakpoint-IsSteady,
  wait_on_signal-IsSteady,
}
use rustybug.Process.Wait.{wait_on_signal}
use rustybug.Debugger
use rustybug.Debugger.{
  Error, object_error, Debugger, Method, on_root, cont, step, wait, break_at, break_first,
  break_function, low_pc_of, set_break,
}
use rustybug.Debugger.Start.{Owns}

module _ {Os Regs FpRegs Obj Dwarf Header CompUnit : Type 0} (host : Host Os Regs FpRegs)
    (formats : Formats Obj Dwarf Header CompUnit) where
  -- It was started with these arguments, and is what `start` makes of them.
  abbrev pub IsOwned : Debugger Obj Dwarf → Type 0
  IsOwned d = Owns host formats d.args.input d.args.pid d.root d.elf

  Owns-HasFate :
      (input : Option Text) (pid : Option Pid) (p p' : Process)
      (elf : Option (ExecutableFile Obj Dwarf))
      → HasFate p p'
      → Owns host formats input pid p elf
      → Owns host formats input pid p' elf
  Owns-HasFate (some path) pid p p' elf f owns = f.terminate_on_end ∙ owns
  Owns-HasFate none (some pid) p p' elf f (spared, silent, bare) =
      (f.terminate_on_end ∙ spared, f.stdout_reader ∙ silent, bare)
  Owns-HasFate none none p p' elf f owns = owns

  pub HasFate-IsOwned :
      (d : Debugger Obj Dwarf) (p : Process)
      → HasFate d.root p
      → IsOwned d
      → IsOwned (record d { root = p })
  HasFate-IsOwned d p f owns = Owns-HasFate d.args.input d.args.pid d.root p d.elf f owns

  abbrev pub KeepsOwned : {A : Type 0} → Method host formats A → Type 0
  KeepsOwned m = (d : Debugger Obj Dwarf) (w : World Os) → IsOwned d → IsOwned (m (d, w)).1.0

  on_root-KeepsOwned :
      {A : Type 0} (m : Process.Method Os A)
      → ((p0 : Process) → IsSteady host p0 m)
      → KeepsOwned (on_root host formats m)
  on_root-KeepsOwned m steady d w owns =
      HasFate-IsOwned d (m (d.root, w)).1.0
        (steady d.root d.root w (record { terminate_on_end = refl; stdout_reader = refl })) owns

  run_then-IsOwned :
      {A B : Type 0} (m : Outcome Error A × (Debugger Obj Dwarf × World Os))
      (k : A → Method host formats B)
      → IsOwned m.1.0
      → ((a : A) → KeepsOwned (k a))
      → IsOwned (run_then m k).1.0
  run_then-IsOwned (ok a, (d, w)) k owns next = next a d w owns
  run_then-IsOwned (err e, s) k owns next = owns
  run_then-IsOwned (panic, s) k owns next = owns
  run_then-IsOwned (out_of_fuel, s) k owns next = owns

  if-IsOwned :
      {A : Type 0} (b : Bool) (x y : Outcome Error A × (Debugger Obj Dwarf × World Os))
      → IsOwned x.1.0
      → IsOwned y.1.0
      → IsOwned (if◌then◌else◌ {A = Outcome Error A × (Debugger Obj Dwarf × World Os)} b x y).1.0
  if-IsOwned true x y ox oy = ox
  if-IsOwned false x y ox oy = oy

  pub wait-KeepsOwned : KeepsOwned (wait host formats)
  unfolding wait
  wait-KeepsOwned = on_root-KeepsOwned (wait_on_signal host) (λ p0. wait_on_signal-IsSteady host p0)

  pub cont-KeepsOwned : KeepsOwned (cont host formats)
  unfolding cont
  cont-KeepsOwned d w owns =
      if-IsOwned (is_stopped d.root.state) _ (ok tt, (d, w))
        (on_root-KeepsOwned (Exec.resume host) (λ p0. resume-IsSteady host p0) d w owns) owns

  pub step-KeepsOwned : KeepsOwned (step host formats)
  unfolding step
  step-KeepsOwned d w owns =
      if-IsOwned (is_stopped d.root.state) _ (ok tt, (d, w))
        (on_root-KeepsOwned (Exec.step host) (λ p0. step-IsSteady host p0) d w owns) owns

  break_at-KeepsOwned : (low : ℕ) → KeepsOwned (break_at host formats low)
  break_at-KeepsOwned low d w owns =
      run_then-IsOwned (add_u64 host.overflow_checks low d.root.addr_offset, (d, w))
        (λ place. on_root host formats (set_breakpoint host place)) owns
        (λ place.
          on_root-KeepsOwned (set_breakpoint host place)
            (λ p0. set_breakpoint-IsSteady host p0 place))

  -- What is done with the entry of the first function.
  abbrev entry_step : Method host formats ℕ → Outcome ReadError Die → Method host formats ℕ
  entry_step rest o = elim o [
    | ok die ↦ elim (low_pc_of host formats die) [
      | some low ↦ break_at host formats low
      | none ↦ rest
    ]
    | err _ ↦ λ s. (err Debugger.read_error, s)
    | panic ↦ λ s. (panic, s)
    | out_of_fuel ↦ λ s. (out_of_fuel, s)
  ]

  pc_step-KeepsOwned :
      (rest : Method host formats ℕ) (low : Option ℕ)
      → KeepsOwned rest
      → KeepsOwned (elim low as (λ _. Method host formats ℕ) [
        | some n ↦ break_at host formats n
        | none ↦ rest
      ])
  pc_step-KeepsOwned rest none k = k
  pc_step-KeepsOwned rest (some n) k = break_at-KeepsOwned n

  entry_step-KeepsOwned :
      (rest : Method host formats ℕ) (o : Outcome ReadError Die)
      → KeepsOwned rest
      → KeepsOwned (entry_step rest o)
  entry_step-KeepsOwned rest (ok die) k d w owns =
      pc_step-KeepsOwned rest (low_pc_of host formats die) k d w owns
  entry_step-KeepsOwned rest (err e) k d w owns = owns
  entry_step-KeepsOwned rest panic k d w owns = owns
  entry_step-KeepsOwned rest out_of_fuel k d w owns = owns

  break_first-KeepsOwned : (fs : List (CompUnit × ℕ)) → KeepsOwned (break_first host formats fs)
  unfolding break_first
  break_first-KeepsOwned [] d w owns = owns
  break_first-KeepsOwned ((unit, offset) ∷ more) d w owns =
      entry_step-KeepsOwned (break_first host formats more) (formats.entry unit offset)
        (break_first-KeepsOwned more) d w owns

  break_function-KeepsOwned :
      (name : Text) (elf : Option (ExecutableFile Obj Dwarf))
      → KeepsOwned (break_function host formats name elf)
  break_function-KeepsOwned name none d w owns = owns
  break_function-KeepsOwned name (some elf) d w owns =
      run_then-IsOwned (map_err object_error (find_functions formats elf name), (d, w))
        (λ functions. break_first host formats functions) owns
        (λ functions. break_first-KeepsOwned functions)

  pub set_break-KeepsOwned : (loc : Location) → KeepsOwned (set_break host formats loc)
  unfolding set_break
  set_break-KeepsOwned (Location.address a) d w owns =
      on_root-KeepsOwned (set_breakpoint host a) (λ p0. set_breakpoint-IsSteady host p0 a) d w owns
  set_break-KeepsOwned (Location.line file line) d w owns = owns
  set_break-KeepsOwned (Location.function name) d w owns =
      break_function-KeepsOwned name d.elf d w owns
