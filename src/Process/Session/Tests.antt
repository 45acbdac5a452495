-- ===== src/Process/Session/Tests.antt =====
-- A breakpoint is set in the small machine, run into and resumed from, and the process is waited for:
-- the witness of the theorem on sessions.
use rustybug.Prelude.{
  ℕ, ◌%◌, ◌^◌, ◌≡◌, refl, sym, ◌∙◌, true, false, none, some, [], ◌∷◌, ◌==◌, if◌then◌else◌, arith,
}
use rustybug.Prelude.Dict.{lookup, insert}
use rustybug.Prelude.Outcome.{Outcome, ok}
use rustybug.Host.{WaitStatus, World}
use rustybug.Host.Toy.{Machine, toy, toy-PtraceLaws, at_rest, world_at}
use rustybug.Ptrace.{
  read_address, write_to_address, current_instruction_pointer, set_instruction_pointer,
  continue_exec, single_step,
}
use rustybug.Breakpoint
use rustybug.Breakpoint.{
  Breakpoint, set_running, enable, disable, jump_to, has_hit, new, align_address, aligned_address,
}
use rustybug.Breakpoint.Create.{fresh}
use rustybug.Process.{Process, running, stopped, signalled, StopReason, software_break, new_stop}
use rustybug.Process.Wait.{wait_on_signal, on_status, trap_type}
use rustybug.Process.Exec
use rustybug.Process.Exec.{hits_from, on_breakpoint, resume, set_breakpoint}
use rustybug.Process.Exec.Armed.{armed_of, IsOverlaid}
use rustybug.Process.Exec.Sample.{program, traced, traced-IsOverlaid}
use rustybug.Process.Session.{Stops, CodeLaws, Waits, Move, Session}
use rustybug.Process.Session.Overlaid.{Keeps, Session-IsOverlaid}

-- The machine has just run the byte at 0x1003, and will report the stop at the second poll.
abbrev start : Machine
start = record at_rest {
  rip = 0x1004;
  statuses = WaitStatus.still_alive ∷ WaitStatus.stopped 7 5 ∷ [];
}

toy_stops :
    (pid c : ℕ) (m m' : Machine)
    → Stops toy pid m m'
    → ◌≡◌ {A = Outcome ℕ ℕ} (ok (m'.memory c % 2 ^ 64)) (ok (m.memory c % 2 ^ 64))
toy_stops pid c m m' (Stops.stops e) = sym (λ i. ok ((e i).1.memory c % 2 ^ 64))
toy_stops pid c m m' (Stops.reports e) = sym (λ i. ok ((e i).1.memory c % 2 ^ 64))
toy_stops pid c m m' (Stops.runs_on {os1 = m1} e rest) =
    toy_stops pid c m1 m' rest ∙ sym (λ i. ok ((e i).1.memory c % 2 ^ 64))

-- The small machine writes nothing by itself.
toy-CodeLaws : CodeLaws toy program.is_code
toy-CodeLaws = record {
  continued = λ pid c m m1 m' e seen _ _.
      toy_stops pid c m1 m' seen ∙ sym (λ i. ok ((e i).1.memory c % 2 ^ 64));
  stepped = λ pid c m m1 m' e seen _ _.
      toy_stops pid c m1 m' seen ∙ sym (λ i. ok ((e i).1.memory c % 2 ^ 64));
}

calls : Unit {0}
unfolding enable disable jump_to Breakpoint.step Breakpoint.process has_hit new align_address
    read_address write_to_address current_instruction_pointer set_instruction_pointer lookup insert
    continue_exec single_step hits_from on_breakpoint resume Exec.step set_breakpoint armed_of
    wait_on_signal on_status trap_type
calls = tt

abbrev armed : Breakpoint
armed = set_running 7 true (fresh 0 0x1003 0x8877665544332211)

abbrev broken : Process
broken = record traced { breakpoints = armed ∷ [] }

abbrev with_word : ℕ → Machine → Machine
with_word v m = record m { memory = λ a. if a == 0x1000 then v else m.memory a }

abbrev numbered : Machine → World Machine
numbered m = record (world_at m) { current_id = 1 }

abbrev after_set : Machine
after_set = with_word 0x88776655CC332211 start

set_run : set_breakpoint toy 0x1003 (traced, world_at start) ≡ (ok 0, (broken, numbered after_set))
unfolding calls
set_run = refl

abbrev disarmed : Breakpoint
disarmed = set_running 7 false (set_running 7 true armed)

abbrev resumed : Process
resumed = record broken { breakpoints = disarmed ∷ []; state = running }

abbrev back : Machine
back = record (with_word 0x8877665544332211 after_set) { rip = 0x1003 }

resume_run : resume toy (broken, numbered after_set) ≡ (ok tt, (resumed, numbered back))
unfolding calls
resume_run = refl

abbrev polled : Machine
polled = record back { statuses = WaitStatus.stopped 7 5 ∷ []; clock = 1 }

poll_run : wait_on_signal toy (resumed, numbered back) ≡ (ok none, (resumed, numbered polled))
unfolding calls
poll_run = refl

abbrev halted : Machine
halted = record back { statuses = []; clock = 2 }

abbrev reason : StopReason
reason = record (new_stop stopped (signalled 5)) { trap_reason = some software_break }

abbrev at_stop : Process
at_stop = record resumed { state = stopped }

halt_run :
    wait_on_signal toy (resumed, numbered polled) ≡ (ok (some reason), (at_stop, numbered halted))
unfolding calls
halt_run = refl

session : Session toy program.is_code (traced, world_at start) (at_stop, numbered halted)
session = Session.goes_on (Move.sets (omega arith) refl tt set_run tt) (
    Session.goes_on
      (Move.resumes resume_run (Waits.not_yet poll_run (Waits.stopped_now halt_run refl)))
      Session.ends)

start-IsOverlaid : IsOverlaid toy 7 program [] start
start-IsOverlaid =
    let o = traced-IsOverlaid in record { fits = o.fits; distinct = o.distinct; shows = o.shows }

Session-IsOverlaid_example : Keeps toy program (traced, world_at start) (at_stop, numbered halted)
Session-IsOverlaid_example =
    Session-IsOverlaid toy toy-PtraceLaws program (traced, world_at start)
      (at_stop, numbered halted) toy-CodeLaws start-IsOverlaid session
