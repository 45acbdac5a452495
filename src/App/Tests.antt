-- ===== src/App/Tests.antt =====
-- The witnesses of the theorems on src/main.rs.
use rustybug.Commands.Syntax.{Location}
use rustybug.Process.{stopped}
use rustybug.Process.Exec.Numbered.{IsNumbered}
use rustybug.Debugger.{Debugger}
use rustybug.App.{run_command}
use rustybug.App.Report.{answer}
use rustybug.App.Report.Added.{Answered, break-Answered}
use rustybug.App.Start.{initial, run-initial}
use rustybug.App.Owned.{HasOwned, run-HasOwned}
use rustybug.Prelude.{
  ℕ, suc, ◌-◌, ◌≤◌, ◌≡◌, ◌≢◌, refl, ap, true, false, none, some, List, [], ◌∷◌, length, get_elem?,
  arith,
}
use rustybug.Prelude.Texts.{codes, text_eq}
use rustybug.Prelude.Outcome.{ok}
use rustybug.Host.{Text}
use rustybug.Host.{WaitStatus}
use rustybug.Host.Toy.{Machine, toy, at_rest, world_at}
use rustybug.Commands.Syntax.{Command, store_in_history}
use rustybug.Commands.Parse.{from_str, keyword}
use rustybug.Elf.Toy.{toy_formats}
use rustybug.App.{App, Turn, KeyCode, key, up, enter, press, run}
use rustybug.App.History.{Prompt, back, push_command, key_up}
use rustybug.App.History.Keep.{IsHistory, Stores, push_command-IsHistory, push_command_stuck}
use rustybug.App.History.Recall.{key_ups, key_ups-nth_last}
use rustybug.App.Invariant.{IsApp}
use rustybug.App.Invariant.Loop.{run-IsApp}

abbrev step_text : Text
step_text = codes "step"

abbrev cont_text : Text
cont_text = codes "c"

abbrev two : List Text
two = cont_text ∷ step_text ∷ []

texts : Unit {0}
unfolding text_eq key_up push_command from_str keyword store_in_history
texts = tt

differ : cont_text ≢ step_text
differ e =
    let same : length cont_text ≡ length step_text = ap (λ (t : Text). length t) e in omega arith

two-IsHistory : IsHistory 3 two
two-IsHistory = record { short = omega arith; no_repeats = (differ, tt) }

push_command-IsHistory_example :
    (h' : List Text) × (push_command 3 3 cont_text two ≡ some h')
    × IsHistory 3 h'
    × (back h' ≡ some cont_text)
    × (length two ≤ length h')
    × Stores two cont_text h'
push_command-IsHistory_example =
    push_command-IsHistory 3 3 cont_text two (omega arith) two-IsHistory (omega arith)

push_command_stuck_example : push_command 1000 1 step_text [] ≡ none
push_command_stuck_example = push_command_stuck 1000 step_text [] (λ e. cc)

abbrev fresh_prompt : Prompt
fresh_prompt = record { current_command = codes "lo"; history_index = none }

key_ups-nth_last_example :
    get_elem? two (length two - 1 - 1) ≡ some (key_ups (suc 1) two fresh_prompt).current_command
key_ups-nth_last_example = key_ups-nth_last 1 two fresh_prompt refl (omega arith)

abbrev started : App ℕ ℕ
started = record {
  args = record { input = none; pid = some 7 };
  exit = false;
  show_help = false;
  show_logs = false;
  current_command = [];
  history_len = 10;
  current_stdout = [];
  debugger = none;
  command_history = two;
  history_index = none;
}

parsed_cont : from_str cont_text ≡ ok Command.continue
unfolding texts
parsed_cont = refl

parsed_step : from_str step_text ≡ ok Command.step
unfolding texts
parsed_step = refl

stored : (store_in_history Command.continue ≡ true) × (store_in_history Command.step ≡ true)
unfolding texts
stored = (refl, refl)

started-IsApp : IsApp 10 started
started-IsApp = record {
  enough = omega arith;
  roomy = omega arith;
  history = record { short = omega arith; no_repeats = (differ, tt) };
  index = tt;
  entries =
      ((Command.continue, parsed_cont, stored.0), ((Command.step, parsed_step, stored.1), tt));
}

-- A turn in which the drawing succeeds and a key is pressed.
abbrev typed : KeyCode → Turn
typed code = record {
  drawn = ok tt;
  event = ok (key (record { code = code; modifiers = 0; kind = press }));
}

abbrev events : List Turn
events = typed up ∷ typed enter ∷ []

-- The process stops at the first poll, so that the debugger attaches to it and the run begins.
abbrev halting : Machine
halting = record at_rest { statuses = WaitStatus.stopped 7 19 ∷ [] }

run-IsApp_example : IsApp 10 (run toy toy_formats 10 events (started, world_at halting)).1.0
run-IsApp_example = run-IsApp toy toy_formats 10 events started (world_at halting) started-IsApp

abbrev debugged : Debugger ℕ ℕ
debugged = record {
  root = record {
    pid = 7;
    stdout_reader = none;
    addr_offset = 0;
    terminate_on_end = true;
    state = stopped;
    breakpoints = [];
  };
  elf = none;
  args = started.args;
}

abbrev debugging : App ℕ ℕ
debugging = record started { debugger = some debugged }

debugged-IsNumbered : IsNumbered debugged.root.breakpoints 0
debugged-IsNumbered = record { distinct = tt; below = tt }

break-Answered_example :
    (let c = Command.break (Location.address 0x1003) in
      Answered toy toy_formats 10 0x1003 0 debugged
        (run_command toy toy_formats 10 c (debugging, world_at at_rest))
        (answer toy toy_formats c debugging (world_at at_rest)))
break-Answered_example =
    break-Answered toy toy_formats 10 0x1003 debugging debugged (world_at at_rest) refl
      (omega arith) debugged-IsNumbered

initial-run :
    IsApp 10
      (run toy toy_formats 10 events
        (initial {Obj = ℕ} {Dwarf = ℕ} started.args, world_at at_rest)).1.0
initial-run = run-initial toy toy_formats 10 started.args events (world_at at_rest) (omega arith)

run-HasOwned_example :
    HasOwned toy toy_formats 10 (run toy toy_formats 10 events (started, world_at halting)).1.0
run-HasOwned_example = run-HasOwned toy toy_formats 10 events started (world_at halting) tt
