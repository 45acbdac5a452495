-- ===== src/Breakpoint/Tests.antt =====
-- A breakpoint at 0x1003 of a small machine: the witnesses of the theorems on breakpoints.
use rustybug.Breakpoint.{thread_killed}
use rustybug.Breakpoint.Toggle.{entry}
use rustybug.Breakpoint.Frame.{IsFramed, process-IsFramed}
use rustybug.Prelude.{ℕ, ◌%◌, ◌^◌, ◌+◌, ◌≡◌, ◌≢◌, refl, true, false, ◌==◌, if◌then◌else◌, arith}
use rustybug.Prelude.Dict.{lookup, insert}
use rustybug.Prelude.Outcome.{ok, err}
use rustybug.Host.{World, unknown_errno}
use rustybug.Host.Toy.{Machine, toy, toy-PtraceLaws, at_rest, world_at}
use rustybug.Ptrace.{
  read_address, write_to_address, current_instruction_pointer, set_instruction_pointer,
}
use rustybug.Breakpoint.{
  int3, Breakpoint, set_running, running_or_true, new, enable, disable, jump_to, step, process,
}
use rustybug.Breakpoint.Patch.{IsPlaced, IsPatched}
use rustybug.Breakpoint.Create.{fresh, id_taken, new_arms, new_refuses, disable-new}
use rustybug.Breakpoint.Step.{IsDisarmed, process_disarms, process_rearms}

abbrev place : ℕ
place = 0x1003

abbrev word : ℕ
word = 0x8877665544332211

-- The same word with the interrupt at its fourth byte.
abbrev armed_word : ℕ
armed_word = 0x88776655CC332211

abbrev with_word : ℕ → Machine → Machine
with_word v m = record m { memory = λ a. if a == 0x1000 then v else m.memory a }

abbrev start : World Machine
start = world_at at_rest

abbrev unarmed : Breakpoint
unarmed = fresh 0 place word

abbrev armed : Breakpoint
armed = set_running 7 true unarmed

abbrev after_new : World Machine
after_new = record start { os = with_word armed_word at_rest; current_id = 1 }

calls : Unit {0}
unfolding new enable disable jump_to step process read_address write_to_address
    current_instruction_pointer set_instruction_pointer lookup insert
calls = tt

new_run : new toy 7 place start ≡ (ok armed, after_new)
unfolding calls
new_run = refl

new_arms_example :
    (armed ≡ set_running 7 true (fresh 0 place word))
    × (armed.data_byte ≢ int3)
    × IsPatched toy 7 (fresh 0 place word) int3 word at_rest after_new.os
    × (after_new.current_id ≡ (0 + 1) % 2 ^ 64)
new_arms_example =
    new_arms toy toy-PtraceLaws 7 place word armed start after_new (omega arith) refl new_run

new_refuses_example : new toy 7 place after_new ≡ (err unknown_errno, id_taken after_new)
new_refuses_example =
    new_refuses toy toy-PtraceLaws 7 place armed_word after_new (omega arith) refl refl

abbrev after_disable : World Machine
after_disable = record after_new { os = with_word word after_new.os }

disable_run : disable toy 7 (armed, after_new) ≡ (ok tt, (armed, after_disable))
unfolding calls
disable_run = refl

disable-new_example : toy.ptrace_read 7 0x1000 after_disable.os ≡ toy.ptrace_read 7 0x1000 at_rest
disable-new_example =
    disable-new toy toy-PtraceLaws 7 place word armed armed start after_new after_disable
      (omega arith) refl new_run disable_run 0x1000 refl

abbrev disarmed : Breakpoint
disarmed = set_running 7 false (set_running 7 true armed)

-- The first visit finds the interrupt in place: `enable` reports an error, which is dropped.
abbrev after_visit : World Machine
after_visit = record after_new { os = record (with_word word after_new.os) { rip = place } }

visit_run : process toy 7 true (armed, after_new) ≡ (ok true, (disarmed, after_visit))
unfolding calls
visit_run = refl

armed-IsPlaced : IsPlaced armed
armed-IsPlaced = omega arith

visit_running : running_or_true (lookup 7 armed.is_running) ≡ true
unfolding calls
visit_running = refl

process_disarms_example :
    (true ≡ true) × IsDisarmed toy 7 armed disarmed armed_word after_new.os after_visit.os
process_disarms_example =
    process_disarms toy toy-PtraceLaws 7 true true armed disarmed after_new after_visit armed_word
      armed-IsPlaced refl visit_running visit_run

disarmed-IsPlaced : IsPlaced disarmed
disarmed-IsPlaced = omega arith

visit_resting : running_or_true (lookup 7 disarmed.is_running) ≡ false
unfolding calls
visit_resting = refl

abbrev rearmed : Breakpoint
rearmed = set_running 7 true (set_running 7 true disarmed)

abbrev after_second : World Machine
after_second = record after_visit { os = with_word armed_word (with_word word after_visit.os) }

second_visit_run : process toy 7 true (disarmed, after_visit) ≡ (ok false, (rearmed, after_second))
unfolding calls
second_visit_run = refl

process_rearms_example :
    (false ≡ false)
    × (rearmed ≡ set_running 7 true (set_running 7 true disarmed))
    × IsPatched toy 7 disarmed int3 word after_visit.os after_second.os
process_rearms_example =
    process_rearms toy toy-PtraceLaws 7 false disarmed rearmed after_visit after_second word
      disarmed-IsPlaced refl visit_resting second_visit_run

process-IsFramed_example :
    IsFramed 7 armed (process toy 7 true (armed, after_new)).1.0
    × IsFramed 7 armed (thread_killed toy 7 armed)
    × (entry 7 (thread_killed toy 7 armed) ≡ true)
process-IsFramed_example = process-IsFramed toy 7 true armed after_new
