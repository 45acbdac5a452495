-- ===== src/Process/Exec/Tests.antt =====
-- A breakpoint is set in a small machine, hit, and stepped from: the witnesses of the theorems on the
-- armed addresses.
use rustybug.Prelude.{ℕ, ◌≡◌, refl, true, false, none, [], ◌∷◌, ◌==◌, if◌then◌else◌, arith}
use rustybug.Prelude.Dict.{lookup, insert}
use rustybug.Prelude.Outcome.{ok}
use rustybug.Host.{World}
use rustybug.Host.Toy.{Machine, toy, toy-PtraceLaws, at_rest, world_at}
use rustybug.Ptrace.{
  read_address, write_to_address, current_instruction_pointer, set_instruction_pointer,
  continue_exec, single_step,
}
use rustybug.Breakpoint.{
  Breakpoint, set_running, enable, disable, jump_to, has_hit, new, align_address, aligned_address,
}
use rustybug.Breakpoint
use rustybug.Breakpoint.Create.{fresh}
use rustybug.Process.{Process, running, stopped}
use rustybug.Process.Exec.{hits_from, on_breakpoint, resume, set_breakpoint}
use rustybug.Process.Exec
use rustybug.Process.Exec.Armed.{armed_of, IsOverlaid}
use rustybug.Process.Exec.Sample.{program, traced, traced-IsOverlaid}
use rustybug.Process.Exec.Refine.{Arms, set_breakpoint-Arms}
use rustybug.Process.Exec.Turns.{Turns}
use rustybug.Process.Exec.Visit.{resume-Turns, step-Turns}

set_breakpoint-Arms_example :
    (let (r, (p', w')) = set_breakpoint toy 0x1003 (traced, world_at at_rest) in
      Arms toy 0x1003 program traced p' w'.os r)
set_breakpoint-Arms_example =
    set_breakpoint-Arms toy toy-PtraceLaws 0x1003 program traced (world_at at_rest) (omega arith) tt
      refl traced-IsOverlaid

calls : Unit {0}
unfolding enable disable jump_to Breakpoint.step Breakpoint.process has_hit new align_address
    read_address write_to_address current_instruction_pointer set_instruction_pointer lookup insert
    continue_exec single_step hits_from on_breakpoint resume Exec.step set_breakpoint armed_of
calls = tt

abbrev armed : Breakpoint
armed = set_running 7 true (fresh 0 0x1003 0x8877665544332211)

abbrev broken : Process
broken = record traced { breakpoints = armed ∷ [] }

abbrev with_word : ℕ → Machine → Machine
with_word v m = record m { memory = λ a. if a == 0x1000 then v else m.memory a }

abbrev after_set : Machine
after_set = with_word 0x88776655CC332211 at_rest

set_run :
    set_breakpoint toy 0x1003 (traced, world_at at_rest)
    ≡ (ok 0, (broken, record (world_at after_set) { current_id = 1 }))
unfolding calls
set_run = refl

broken-IsOverlaid : IsOverlaid toy 7 program (armed ∷ []) after_set
broken-IsOverlaid =
    let left : (let (r, (p', w')) = set_breakpoint toy 0x1003 (traced, world_at at_rest) in
        Arms toy 0x1003 program traced p' w'.os r) =
      set_breakpoint-Arms toy toy-PtraceLaws 0x1003 program traced (world_at at_rest) (omega arith)
        tt refl traced-IsOverlaid in
    (rw set_run at left).0

-- The interrupt has been run: the program counter stands behind it.
abbrev hit : Machine
hit = record after_set { rip = 0x1004 }

hit-IsOverlaid : IsOverlaid toy 7 program (armed ∷ []) hit
hit-IsOverlaid =
    let o = broken-IsOverlaid in record { fits = o.fits; distinct = o.distinct; shows = o.shows }

hits : hits_from toy 0 7 broken.breakpoints hit ≡ ok (0 ∷ [])
unfolding calls
hits = refl

abbrev disarmed : Breakpoint
disarmed = set_running 7 false (set_running 7 true armed)

abbrev resumed : Process
resumed = record broken { breakpoints = disarmed ∷ [] }

abbrev back : Machine
back = record (with_word 0x8877665544332211 hit) { rip = 0x1003 }

resume_run : resume toy (broken, world_at hit) ≡ (ok tt, (resumed, world_at back))
unfolding calls
resume_run = refl

resume-Turns_example :
    (w1 : World Machine) × IsOverlaid toy 7 program (disarmed ∷ []) w1.os
    × Turns toy (0 ∷ []) broken resumed
    × (resumed.pid ≡ broken.pid)
    × (running ≡ running)
    × (continue_exec toy 7 none w1.os ≡ (ok tt, back))
resume-Turns_example =
    resume-Turns toy toy-PtraceLaws program broken resumed (0 ∷ []) (world_at hit) (world_at back)
      hit-IsOverlaid hits resume_run

abbrev stepped : Process
stepped = record resumed { state = stopped }

abbrev beyond : Machine
beyond = record back { rip = 0x1004 }

step_run : Exec.step toy (broken, world_at hit) ≡ (ok tt, (stepped, world_at beyond))
unfolding calls
step_run = refl

step-Turns_example :
    (w1 : World Machine) × IsOverlaid toy 7 program (disarmed ∷ []) w1.os
    × Turns toy (0 ∷ []) broken stepped
    × (stepped.pid ≡ broken.pid)
    × (stopped ≡ stopped)
    × (single_step toy 7 w1.os ≡ (ok tt, beyond))
step-Turns_example =
    step-Turns toy toy-PtraceLaws program broken stepped (0 ∷ []) (world_at hit) (world_at beyond)
      hit-IsOverlaid hits step_run
