-- ===== src/App/Invariant/Loop.antt =====
-- What every key and every turn of the main loop of src/main.rs keeps of the application's state:
-- the keys that edit and recall, the main loop and the whole run.
use rustybug.Prelude.{ℕ, refl, Bool, true, false, none, List, [], ◌∷◌, arith, if◌then◌else◌}
use rustybug.Prelude.Outcome.{
  run_then, Outcome, ok, err, panic, out_of_fuel, map_err, ◌>>◌, ignored,
}
use rustybug.Host.{Errno, Host, World}
use rustybug.Commands.Parse.{from_str}
use rustybug.Process.Access.{stop}
use rustybug.Elf.{Formats}
use rustybug.Debugger.{io_error, Error, Debugger, set_input, set_pid}
use rustybug.Debugger
use rustybug.App.{
  App, KeyCode, KeyEvent, TermEvent, char, down, up, enter, esc, backspace, other, start_again,
  on_debugger, closes, run, Method, interrupt, key, anything_else, press_key, handle_key_event,
  handle_event, handle_events, Turn, collect_stdout, poll, turn, run_loop,
}
use rustybug.App.History.{key_up, key_down, Prompt}
use rustybug.App.History.Recall.{Shows, Shows-InBounds, key_up-Shows}
use rustybug.App.Invariant.{
  IsApp, Keeps, Keeps-IsApp, on_debugger-Keeps, start_again-Keeps, parsed-IsApp,
}

module _ {Os Regs FpRegs Obj Dwarf Header CompUnit : Type 0} (host : Host Os Regs FpRegs)
    (formats : Formats Obj Dwarf Header CompUnit) (fuel : ℕ) where
  prompt-IsApp :
      (a : App Obj Dwarf) (p : Prompt)
      → IsApp fuel a
      → Shows a.command_history p.current_command p.history_index
      → IsApp fuel
          (record a { current_command = p.current_command; history_index = p.history_index })
  prompt-IsApp a p i s = record {
    enough = i.enough;
    roomy = i.roomy;
    history = i.history;
    index = Shows-InBounds a.command_history p.current_command p.history_index s;
    entries = i.entries;
  }

  press_key-IsApp :
      (k : KeyCode) (a : App Obj Dwarf) (w : World Os)
      → IsApp fuel a
      → IsApp fuel (press_key host formats fuel k (a, w)).1.0
  unfolding press_key
  press_key-IsApp (char c) a w i = Keeps-IsApp fuel a _ (ground arith) i
  press_key-IsApp down a w i =
      let p : Prompt = record {
        current_command = a.current_command;
        history_index = a.history_index;
      } in
      prompt-IsApp a (key_down a.command_history p) i (key_up-Shows a.command_history p i.index).1
  press_key-IsApp up a w i =
      let p : Prompt = record {
        current_command = a.current_command;
        history_index = a.history_index;
      } in
      prompt-IsApp a (key_up a.command_history p) i (key_up-Shows a.command_history p i.index).0
  press_key-IsApp enter a w i =
      parsed-IsApp host formats fuel a w (from_str a.current_command) refl i
  press_key-IsApp esc a w i = Keeps-IsApp fuel a _ (ground arith) i
  press_key-IsApp backspace a w i = Keeps-IsApp fuel a _ (ground arith) i
  press_key-IsApp other a w i = i

  helped-IsApp : (a : App Obj Dwarf) → IsApp fuel a → IsApp fuel (record a { show_help = false })
  helped-IsApp a i = Keeps-IsApp fuel a _ (ground arith) i

  interrupt-Keeps :
      (a : App Obj Dwarf) (w : World Os) → Keeps a (interrupt host formats fuel (a, w)).1.0
  interrupt-Keeps a w =
      on_debugger-Keeps host formats fuel tt
        (λ (d, w).
          let (r, (p, w')) = stop host (d.root, w) in (ignored r, (record d { root = p }, w')))
        a w

  handle_key_event-IsApp :
      (e : KeyEvent) (a : App Obj Dwarf) (w : World Os)
      → IsApp fuel a
      → IsApp fuel (handle_key_event host formats fuel e (a, w)).1.0
  unfolding handle_key_event
  handle_key_event-IsApp e a w i = ground (
    arith,
    i,
    press_key-IsApp e.code a w i,
    Keeps-IsApp fuel a _ (interrupt-Keeps a w) i,
    helped-IsApp a i,
  )

  handle_event-IsApp :
      (e : TermEvent) (a : App Obj Dwarf) (w : World Os)
      → IsApp fuel a
      → IsApp fuel (handle_event host formats fuel e (a, w)).1.0
  unfolding handle_event
  handle_event-IsApp (key e) a w i = ground (arith, i, handle_key_event-IsApp e a w i)
  handle_event-IsApp anything_else a w i = i

  collect_stdout-Keeps :
      (a : App Obj Dwarf) (w : World Os) → Keeps a (collect_stdout host formats fuel (a, w)).0
  unfolding collect_stdout
  collect_stdout-Keeps a w = ground arith

  run_then-IsApp :
      {A B : Type 0} (m : Outcome Error A × (App Obj Dwarf × World Os))
      (k : A → Method host formats fuel B)
      → IsApp fuel m.1.0
      → ((x : A) (a : App Obj Dwarf) (w : World Os) → IsApp fuel a → IsApp fuel (k x (a, w)).1.0)
      → IsApp fuel (run_then m k).1.0
  run_then-IsApp (ok x, (a, w)) k i next = next x a w i
  run_then-IsApp (err e, s) k i next = i
  run_then-IsApp (panic, s) k i next = i
  run_then-IsApp (out_of_fuel, s) k i next = i

  if-IsApp :
      {A : Type 0} (b : Bool) (x y : Outcome Error A × (App Obj Dwarf × World Os))
      → IsApp fuel x.1.0
      → IsApp fuel y.1.0
      → IsApp fuel (if◌then◌else◌ {A = Outcome Error A × (App Obj Dwarf × World Os)} b x y).1.0
  if-IsApp true x y ix iy = ix
  if-IsApp false x y ix iy = iy

  poll-IsApp :
      (a : App Obj Dwarf) (w : World Os)
      → IsApp fuel a
      → IsApp fuel (poll host formats fuel (a, w)).1.0
  unfolding poll
  poll-IsApp a w i =
      let (a1, w1) = collect_stdout host formats fuel (a, w) in
      let i1 = Keeps-IsApp fuel a a1 (collect_stdout-Keeps a w) i in
      let i2 =
        Keeps-IsApp fuel a1 _
          (on_debugger-Keeps host formats fuel none (Debugger.wait host formats) a1 w1) i1 in
      run_then-IsApp (on_debugger host formats fuel none (Debugger.wait host formats) (a1, w1)) _ i2
        (λ found a w i.
          if-IsApp (closes host formats fuel found) _ _ (Keeps-IsApp fuel a _ (ground arith) i) i)

  handle_events-IsApp :
      (answer : Outcome Errno TermEvent) (a : App Obj Dwarf) (w : World Os)
      → IsApp fuel a
      → IsApp fuel (handle_events host formats fuel answer (a, w)).1.0
  unfolding handle_events
  handle_events-IsApp answer a w i =
      run_then-IsApp (map_err io_error answer, (a, w)) (λ e. handle_event host formats fuel e) i
        (λ e a w i. handle_event-IsApp e a w i)

  turn-IsApp :
      (t : Turn) (a : App Obj Dwarf) (w : World Os)
      → IsApp fuel a
      → IsApp fuel (turn host formats fuel t (a, w)).1.0
  unfolding turn
  turn-IsApp t a w i =
      run_then-IsApp (map_err io_error t.drawn, (a, w))
        (λ _. do handle_events host formats fuel t.event; poll host formats fuel) i
        (λ _ a w i.
          run_then-IsApp (handle_events host formats fuel t.event (a, w)) _
            (handle_events-IsApp t.event a w i) (λ _ a w i. poll-IsApp a w i))

  run_loop-IsApp :
      (ts : List Turn) (a : App Obj Dwarf) (w : World Os)
      → IsApp fuel a
      → IsApp fuel (run_loop host formats fuel ts (a, w)).1.0
  unfolding run_loop
  run_loop-IsApp [] a w i = ground (arith, i)
  run_loop-IsApp (t ∷ ts) a w i = if-IsApp a.exit _ _ i (
      run_then-IsApp (turn host formats fuel t (a, w)) _ (turn-IsApp t a w i)
        (λ _ a w i. run_loop-IsApp ts a w i))

  -- If the application's state is well-formed, it is so at the end of a run over any events and
  -- failures of the terminal, whatever ends the run. Well-formed: `history_len` is at least 2 and
  -- within the fuel, the history is shorter than it, has no entry that repeats the one before it and
  -- holds only texts that parse to a command for the history, and the position of the Up and Down
  -- keys is within the history.
  pub run-IsApp :
      (ts : List Turn) (a : App Obj Dwarf) (w : World Os)
      → IsApp fuel a
      → IsApp fuel (run host formats fuel ts (a, w)).1.0
  unfolding run
  run-IsApp ts a w i =
      run_then-IsApp (start_again host formats fuel (a, w)) _
        (Keeps-IsApp fuel a _ (start_again-Keeps host formats fuel a w) i)
        (λ _ a w i. run_loop-IsApp ts a w i)
