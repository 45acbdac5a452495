-- ===== src/App/Ending/Tests.antt =====
-- The application of src/main.rs attaches to a process of the small machine, and is quit: the witness
-- of the theorem on the end.
use rustybug.Prelude.{ℕ, ◌≡◌, refl, true, false, none, some, List, [], ◌∷◌, ◌++◌, arith}
use rustybug.Prelude.Texts.{text_eq}
use rustybug.Prelude.Outcome.{ok}
use rustybug.Host.{Pid, Signal, WaitStatus}
use rustybug.Host.Toy.{Machine, toy, at_rest, world_at}
use rustybug.Commands.Syntax.{store_in_history}
use rustybug.Commands.Parse.{from_str, keyword}
use rustybug.Process.{stopped, is_closed}
use rustybug.Process.Access.{read_stdout, mapped_address}
use rustybug.Process.Wait.{wait_on_signal, blocking_wait_on_signal, wait_loop, on_status, trap_type}
use rustybug.Process.Life.{attach}
use rustybug.Process.Life.Toy.{toy-IsLog}
use rustybug.Elf.Toy.{toy_formats}
use rustybug.Debugger
use rustybug.Debugger.{Args, Debugger, start}
use rustybug.App.{
  App, Turn, KeyCode, key, char, enter, press, start_again, run_command, key_enter, press_key,
  handle_key_event, handle_event, handle_events, collect_stdout, poll, turn, run_loop, run,
}
use rustybug.App.Ending.{Ends, main-Ends}
use rustybug.App.Start.{initial, main}

abbrev halting : Machine
halting = record at_rest { statuses = WaitStatus.stopped 7 19 ∷ [] }

abbrev seven : Args
seven = record { input = none; pid = some 7 }

-- A turn in which the drawing succeeds and a key is pressed.
abbrev typed : KeyCode → Turn
typed code = record {
  drawn = ok tt;
  event = ok (key (record { code = code; modifiers = 0; kind = press }));
}

abbrev quits : List Turn
quits = typed (char b'q') ∷ typed enter ∷ []

abbrev attached : Debugger ℕ ℕ
attached = record {
  root = record {
    pid = 7;
    stdout_reader = none;
    addr_offset = 0;
    terminate_on_end = false;
    state = stopped;
    breakpoints = [];
  };
  elf = none;
  args = seven;
}

abbrev last : App ℕ ℕ
last = record {
  args = seven;
  exit = true;
  show_help = false;
  show_logs = true;
  current_command = [];
  history_len = 10;
  current_stdout = [];
  debugger = some attached;
  command_history = [];
  history_index = none;
}

abbrev after : Machine
after = record at_rest { clock = 3 }

ran :
    run toy toy_formats 10 quits (initial seven, world_at halting) ≡ (ok tt, (last, world_at after))
unfolding initial run run_loop turn poll handle_events handle_event handle_key_event press_key
    key_enter run_command start_again collect_stdout start Debugger.wait attach
    blocking_wait_on_signal wait_loop wait_on_signal on_status trap_type from_str keyword text_eq
    store_in_history is_closed mapped_address read_stdout
ran = refl

main-Ends_example :
    (calls : List (Pid × Signal)) × ((main toy toy_formats 10
        (ok tt)
        quits
        seven
        (world_at halting)).1.os.signals
      ≡ [] ++ calls)
    × Ends none 7 calls
main-Ends_example =
    main-Ends toy toy_formats 10 (λ m. m.signals) toy-IsLog quits seven (ok tt) last attached
      (world_at halting) (world_at after) ran refl (omega arith)
