-- ===== src/App/Start.antt =====
-- src/main.rs: `main`, from the parsed arguments on. The terminal is set up before the run and
-- restored after it; the application is given up last, and its process with it.
use rustybug.Prelude.{ℕ, ◌≤◌, true, false, Option, none, some, List, [], arith}
use rustybug.Prelude.Outcome.{Outcome, ok, err, panic, out_of_fuel}
use rustybug.Host.{Host, World}
use rustybug.Elf.{Formats}
use rustybug.Debugger.{Args, Error}
use rustybug.App.{App, Turn, run, drop_debugger}
use rustybug.App.Invariant.{IsApp}
use rustybug.App.Invariant.Loop.{run-IsApp}

-- The application that `main` starts with.
unfoldable pub initial : {Obj Dwarf : Type 0} → Args → App Obj Dwarf
initial args = record {
  args = args;
  exit = false;
  show_help = false;
  show_logs = true;
  current_command = [];
  history_len = 10;
  current_stdout = [];
  debugger = none;
  command_history = [];
  history_index = none;
}

-- `init_logging()?`, and `eprintln!` for an error of the run: `main` itself fails only with the
-- first.
abbrev pub printed : Outcome Error (Unit {0}) → Outcome Error (Option Error)
printed (ok u) = ok none
printed (err e) = ok (some e)
printed panic = panic
printed out_of_fuel = out_of_fuel

module _ {Os Regs FpRegs Obj Dwarf Header CompUnit : Type 0} (host : Host Os Regs FpRegs)
    (formats : Formats Obj Dwarf Header CompUnit) (fuel : ℕ) where
  -- `logging` is the outcome of setting up the logger.
  unfoldable pub main :
      Outcome Error (Unit {0})
      → List Turn
      → Args
      → World Os
      → Outcome Error (Option Error) × World Os
  unfolding initial
  main (ok u) events args w =
      let (r, (a, w')) = run host formats fuel events (initial args, w) in
      (printed r, drop_debugger host formats fuel a.debugger w')
  main (err e) events args w = (err e, w)
  main panic events args w = (panic, w)
  main out_of_fuel events args w = (out_of_fuel, w)

  initial-IsApp : (args : Args) → 10 ≤ fuel → IsApp fuel (initial {Obj = Obj} {Dwarf = Dwarf} args)
  unfolding initial
  initial-IsApp args h = record {
    enough = h;
    roomy = omega arith;
    history = record { short = omega arith; no_repeats = tt };
    index = tt;
    entries = tt;
  }

  -- With fuel for ten entries, the application that `main` starts with is well-formed at the end
  -- of its run over any events and failures of the terminal, whatever the arguments and whatever
  -- ends the run: the history holds at most nine texts, none of which repeats the one before it,
  -- that parse to a command for the history, and the position of the Up and Down keys is within
  -- the history.
  pub run-initial :
      (args : Args) (events : List Turn) (w : World Os)
      → 10 ≤ fuel
      → IsApp fuel (run host formats fuel events (initial args, w)).1.0
  run-initial args events w h =
      run-IsApp host formats fuel events (initial args) w (initial-IsApp args h)
