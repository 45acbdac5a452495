-- ===== src/Process/Tests.antt =====
-- Small machines: the witnesses of the theorems on src/process.rs.
use rustybug.Prelude.{◌≡◌, refl, true, false, none, [], ◌∷◌, ◌==◌, if◌then◌else◌, set, arith}
use rustybug.Prelude.Dict.{lookup, insert}
use rustybug.Prelude.Outcome.{ok}
use rustybug.Host.{World, still_alive}
use rustybug.Host
use rustybug.Host.Toy.{Machine, toy, toy-PtraceLaws, toy-WaitLaws, at_rest, world_at}
use rustybug.Ptrace.{
  read_address, write_to_address, current_instruction_pointer, set_instruction_pointer,
  continue_exec,
}
use rustybug.Breakpoint.{
  Breakpoint, set_running, running_or_true, enable, disable, jump_to, has_hit, aligned_address,
  align_address,
}
use rustybug.Breakpoint
use rustybug.Breakpoint.Patch.{IsPlaced}
use rustybug.Breakpoint.Create.{fresh}
use rustybug.Breakpoint.Step.{IsDisarmed}
use rustybug.Process.{Process, running, stopped}
use rustybug.Process
use rustybug.Process.Wait.{wait_on_signal, blocking_wait_on_signal}
use rustybug.Process.Wait.Report.{Reports, wait_on_signal-Reports}
use rustybug.Process.Wait.Loop.{Polls, blocking_wait_on_signal-Polls}
use rustybug.Process.Exec.{hits_from, on_breakpoint, resume}
use rustybug.Process.Exec.Hits.{Says, hits_from-Says}
use rustybug.Process.Exec.Resume.{resume_disarms}
use rustybug.Process.Exec.Numbered.{IsNumbered, Adds, set_breakpoint-IsNumbered}
use rustybug.Process.Exec.{set_breakpoint}
use rustybug.Process.Life.Spare.{Survives, attach-Keeps}
use rustybug.Process.Life.{attach, drop}
use rustybug.Host.{Pid, Signal, sigkill}
use rustybug.Process.Life.Toy.{toy-IsLog}
use rustybug.Process.Life.Sends.{farewell, drop-Sends}
use rustybug.Prelude.{All, All-append, ◌≢◌, ◌++◌}

abbrev armed : Breakpoint
armed = set_running 7 true (fresh 0 0x1003 0x8877665544332211)

abbrev traced : Process
traced = record {
  pid = 7;
  stdout_reader = none;
  addr_offset = 0;
  terminate_on_end = true;
  state = Process.running;
  breakpoints = armed ∷ [];
}

-- The process is still running at the first wait, and stops by the second.
abbrev stopping : Machine
stopping = record at_rest { statuses = still_alive ∷ Host.stopped 7 5 ∷ [] }

-- The process has forked.
abbrev forked : Machine
forked = record at_rest { statuses = Host.ptrace_event 7 5 1 ∷ [] }

wait_on_signal-Reports_example :
    (let (r, (p', w')) = wait_on_signal toy (traced, world_at forked) in
      (w' ≡ world_at (record at_rest { clock = 1 }))
      × Reports toy traced (ok (Host.ptrace_event 7 5 1)) p' w'.os r)
wait_on_signal-Reports_example = wait_on_signal-Reports toy traced (world_at forked)

blocking_wait_on_signal-Polls_example :
    Polls toy 0 5
      (traced, world_at stopping)
      (blocking_wait_on_signal toy 6 5 (traced, world_at stopping))
blocking_wait_on_signal-Polls_example =
    blocking_wait_on_signal-Polls toy toy-WaitLaws 6 5 (traced, world_at stopping) (omega arith)

-- The interrupt is in memory, and the program counter stands behind it.
abbrev hit : Machine
hit = record at_rest { memory = λ a. if a == 0x1000 then 0x88776655CC332211 else 0; rip = 0x1004 }

calls : Unit {0}
unfolding enable disable jump_to Breakpoint.step Breakpoint.process has_hit read_address
    write_to_address current_instruction_pointer set_instruction_pointer lookup insert continue_exec
    hits_from on_breakpoint resume
calls = tt

hits : hits_from toy 0 7 traced.breakpoints hit ≡ ok (0 ∷ [])
unfolding calls
hits = refl

hits_from-Says_example : Says toy 7 hit 0 traced.breakpoints (0 ∷ [])
hits_from-Says_example = hits_from-Says toy 7 hit 0 traced.breakpoints (0 ∷ []) hits

abbrev disarmed : Breakpoint
disarmed = set_running 7 false (set_running 7 true armed)

abbrev resumed : Process
resumed = record traced { breakpoints = set traced.breakpoints 0 disarmed }

abbrev after : World Machine
after = world_at (record hit {
  memory = λ a. if a == 0x1000 then 0x8877665544332211 else hit.memory a;
  rip = 0x1003;
})

resume_run : resume toy (traced, world_at hit) ≡ (ok tt, (resumed, after))
unfolding calls
resume_run = refl

armed-IsPlaced : IsPlaced armed
armed-IsPlaced = omega arith

armed_running : running_or_true (lookup 7 armed.is_running) ≡ true
unfolding calls
armed_running = refl

resume_disarms_example :
    (b' : Breakpoint) × (w1 : World Machine) × IsDisarmed toy 7 armed b' 0x88776655CC332211 hit
      w1.os
    × (continue_exec toy 7 none w1.os ≡ (ok tt, after.os))
    × (resumed
        ≡ record traced { state = Process.running; breakpoints = set traced.breakpoints 0 b' })
resume_disarms_example =
    resume_disarms toy toy-PtraceLaws traced resumed (world_at hit) after 0 0x88776655CC332211 []
      armed hits refl armed-IsPlaced refl armed_running resume_run

-- One breakpoint, with the identifier 0, and the counter at 1.
abbrev numbered : World Machine
numbered = record (world_at at_rest) { current_id = 1 }

traced-IsNumbered : IsNumbered traced.breakpoints 1
traced-IsNumbered = record { distinct = (tt, tt); below = (omega arith, tt) }

set_breakpoint-IsNumbered_example :
    (let (r, (p', w')) = set_breakpoint toy 0x1000 (traced, numbered) in
      Adds toy 0x1000 1 traced p' r × IsNumbered p'.breakpoints w'.current_id)
set_breakpoint-IsNumbered_example =
    set_breakpoint-IsNumbered toy 0x1000 traced numbered (omega arith) traced-IsNumbered

-- No SIGKILL has been sent.
abbrev Unkilled : Machine → Type 0
Unkilled m = All (λ (call : Pid × Signal). call.1 ≢ sigkill) m.signals

Unkilled-Survives : Survives toy Unkilled
Unkilled-Survives = record {
  any_but_kill = λ pid s m ne q.
      All-append (λ (call : Pid × Signal). call.1 ≢ sigkill) m.signals ((pid, s) ∷ []) q (ne, tt);
  waitpid = λ pid nohang m q. q;
  detach = λ pid s m q. q;
  close = λ fd m q. q;
  attach = λ pid m q. q;
}

attach-Keeps_example : Unkilled (attach toy 6 7 (world_at stopping)).1.os
attach-Keeps_example = attach-Keeps toy Unkilled Unkilled-Survives 6 7 (world_at stopping) tt

drop-Sends_example :
    ((drop toy traced (world_at at_rest)).0 ≡ ok tt)
    × ((drop toy traced (world_at at_rest)).1.os.signals ≡ [] ++ farewell traced)
drop-Sends_example = drop-Sends toy (λ m. m.signals) toy-IsLog traced (world_at at_rest)
