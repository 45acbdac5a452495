-- ===== src/Debugger/Tests.antt =====
-- The witness of the theorem on src/lib.rs.
use rustybug.Prelude.{false}
use rustybug.Host
use rustybug.Process.Life.{attach}
use rustybug.Process.Wait.{wait_on_signal, on_status, trap_type, blocking_wait_on_signal, wait_loop}
use rustybug.Process.Access.{mapped_address}
use rustybug.Breakpoint.{Breakpoint}
use rustybug.Debugger.{Args, start}
use rustybug.Debugger.Start.{Owns, start-Owns}
use rustybug.Prelude.{ℕ, true, none, []}
use rustybug.Host.Toy.{toy, at_rest, world_at}
use rustybug.Elf.Lookup.Sound.{IsFunction}
use rustybug.Elf.Toy.{toy_formats-DemangleLaws, toy_formats, toy_file}
use rustybug.Prelude.{◌≡◌, refl, some, List, ◌∷◌, ◌==◌, if◌then◌else◌}
use rustybug.Prelude.Outcome.{ok}
use rustybug.Prelude.Texts.{codes, text_eq}
use rustybug.Prelude.Dict.{lookup, insert}
use rustybug.Host.{World}
use rustybug.Host.Toy.{Machine}
use rustybug.Ptrace.{read_address, write_to_address}
use rustybug.Breakpoint.{set_running, new, enable}
use rustybug.Breakpoint.Create.{fresh}
use rustybug.Commands.Syntax.{Location}
use rustybug.Elf.{ExecutableFile, name_matches}
use rustybug.Elf.Lookup.{find_functions}
use rustybug.Process.Exec.{set_breakpoint}
use rustybug.Debugger.{set_break, break_first}
use rustybug.Debugger.Break.{PlacesAt, set_break-PlacesAt}
use rustybug.Process.{stopped}
use rustybug.Debugger.{Debugger}
use rustybug.Debugger.States.{Acts, cont-step_states}

abbrev debugged : Debugger ℕ ℕ
debugged = record {
  root = record {
    pid = 7;
    stdout_reader = none;
    addr_offset = 0;
    terminate_on_end = true;
    state = stopped;
    breakpoints = [];
  };
  elf = none;
  args = record { input = none; pid = none };
}

cont-step_states_example : Acts toy toy_formats stopped debugged (world_at at_rest)
cont-step_states_example = cont-step_states toy toy_formats debugged (world_at at_rest)

-- The function main of the small file, at 0x1139, in a process that is loaded at no offset.
abbrev loaded : Debugger ℕ ℕ
loaded = record debugged { elf = some toy_file }

abbrev broken : Debugger ℕ ℕ
broken = record loaded {
  root = record loaded.root { breakpoints = set_running 7 true (fresh 0 0x1139 0) ∷ [] };
}

abbrev with_break : World Machine
with_break = record (world_at at_rest) {
  os = record at_rest { memory = λ a. if a == 0x1138 then 0xCC00 else at_rest.memory a };
  current_id = 1;
}

break_run :
    set_break toy toy_formats (Location.function (codes "main")) (loaded, world_at at_rest)
    ≡ (ok 0, (broken, with_break))
unfolding set_break break_first find_functions name_matches text_eq set_breakpoint new enable
    read_address write_to_address lookup insert
break_run = refl

set_break-PlacesAt_example :
    (elf : ExecutableFile ℕ ℕ) × (found : List (ℕ × ℕ)) × (loaded.elf ≡ some elf)
    × (find_functions toy_formats elf (codes "main") ≡ ok found)
    × ((placed : PlacesAt toy toy_formats found loaded (world_at at_rest) 0 broken with_break)
        × IsFunction toy_formats elf.dwarf (codes "main") placed.fun.0 placed.fun.1)
set_break-PlacesAt_example =
    set_break-PlacesAt toy toy_formats toy_formats-DemangleLaws (codes "main") loaded broken
      (world_at at_rest) with_break 0 break_run

-- Attaching to process 7, which stops at once.
abbrev attaching : Args
attaching = record { input = none; pid = some 7 }

abbrev attached : Debugger ℕ ℕ
attached = record {
  root = record debugged.root { terminate_on_end = false };
  elf = none;
  args = attaching;
}

abbrev stopping : Machine
stopping = record at_rest { statuses = Host.stopped 7 19 ∷ [] }

abbrev settled : Machine
settled = record at_rest { clock = 1 }

start_run : start toy toy_formats 5 attaching (world_at stopping) ≡ (ok attached, world_at settled)
unfolding start attach blocking_wait_on_signal wait_loop wait_on_signal on_status trap_type
    mapped_address
start_run = refl

start-Owns_example :
    (attaching ≡ attaching)
    × (◌≡◌ {A = List Breakpoint} [] [])
    × Owns toy toy_formats none (some 7) attached.root none
start-Owns_example =
    start-Owns toy toy_formats 5 attaching attached (world_at stopping) (world_at settled) start_run
