-- ===== src/App/Owned.antt =====
-- Whatever a user does with the application of src/main.rs, the process of its debugger is the one
-- that its arguments speak of: a program that was launched, and is killed at the end, or a process
-- that was attached to, and is spared.
use rustybug.Prelude.{
  ℕ, ◌≡◌, refl, Bool, true, false, Option, none, some, List, [], ◌∷◌, ◌==◌, if◌then◌else◌, arith,
}
use rustybug.Prelude.Outcome.{
  Outcome, ok, err, panic, out_of_fuel, map_err, Action, run_then, ignored, ◌>>◌,
}
use rustybug.Host.{Errno, Text, Host, World}
use rustybug.Commands.Syntax.{Command, ParseError}
use rustybug.Commands.Parse.{from_str}
use rustybug.Elf.{Formats}
use rustybug.Process.Access.{stop}
use rustybug.Debugger
use rustybug.Debugger.{io_error, Args, Error, Debugger, set_input, set_pid, start}
use rustybug.Debugger.Start.{start-Owns}
use rustybug.Debugger.Owned.{
  IsOwned, HasFate-IsOwned, cont-KeepsOwned, step-KeepsOwned, wait-KeepsOwned, set_break-KeepsOwned,
}
use rustybug.App.{
  App, Method, KeyCode, KeyEvent, TermEvent, char, down, up, enter, esc, backspace, other, key,
  anything_else, start_again, on_debugger, run_command, after_command, settle, key_enter, press_key,
  interrupt, is_char_c, control, handle_key_event, handle_event, handle_events, Turn,
  collect_stdout, closes, poll, turn, run_loop, run,
}

module _ {Os Regs FpRegs Obj Dwarf Header CompUnit : Type 0} (host : Host Os Regs FpRegs)
    (formats : Formats Obj Dwarf Header CompUnit) (fuel : ℕ) where
  abbrev Owned : Option (Debugger Obj Dwarf) → Type 0
  Owned none = Unit
  Owned (some d) = IsOwned host formats d

  abbrev pub HasOwned : App Obj Dwarf → Type 0
  HasOwned a = Owned a.debugger

  abbrev KeepsOwned : {A : Type 0} → Method host formats fuel A → Type 0
  KeepsOwned m = (a : App Obj Dwarf) (w : World Os) → HasOwned a → HasOwned (m (a, w)).1.0

  run_then-HasOwned :
      {A B : Type 0} (m : Outcome Error A × (App Obj Dwarf × World Os))
      (k : A → Method host formats fuel B)
      → HasOwned m.1.0
      → ((x : A) → KeepsOwned (k x))
      → HasOwned (run_then m k).1.0
  run_then-HasOwned (ok x, (a, w)) k o next = next x a w o
  run_then-HasOwned (err e, s) k o next = o
  run_then-HasOwned (panic, s) k o next = o
  run_then-HasOwned (out_of_fuel, s) k o next = o

  if-HasOwned :
      {A : Type 0} (b : Bool) (x y : Outcome Error A × (App Obj Dwarf × World Os))
      → HasOwned x.1.0
      → HasOwned y.1.0
      → HasOwned (if◌then◌else◌ {A = Outcome Error A × (App Obj Dwarf × World Os)} b x y).1.0
  if-HasOwned true x y ox oy = ox
  if-HasOwned false x y ox oy = oy

  -- By the outcome of starting.
  started-HasOwned :
      (a : App Obj Dwarf) (w w' : World Os) (r : Outcome Error (Debugger Obj Dwarf))
      → start host formats fuel a.args w ≡ (r, w')
      → HasOwned a
      → HasOwned (start_again host formats fuel (a, w)).1.0
  unfolding start_again
  started-HasOwned a w w' (ok d) e o =
      let (same, _, owns) = start-Owns host formats fuel a.args d w w' e in
      let owned : IsOwned host formats d = rw same owns in rw (start_again, e) owned
  started-HasOwned a w w' (err x) e o = rw (start_again, e) o
  started-HasOwned a w w' panic e o = rw (start_again, e) o
  started-HasOwned a w w' out_of_fuel e o = rw (start_again, e) o

  start_again-KeepsOwned : KeepsOwned (start_again host formats fuel)
  start_again-KeepsOwned a w o =
      let (r, w') = start host formats fuel a.args w in started-HasOwned a w w' r refl o

  method-Owned :
      {A : Type 0} (x : A) (m : Action (Debugger Obj Dwarf × World Os) Error A) (a : App Obj Dwarf)
      (w : World Os) (o : Option (Debugger Obj Dwarf))
      → a.debugger ≡ o
      → ((d : Debugger Obj Dwarf) (w : World Os)
          → IsOwned host formats d
          → IsOwned host formats (m (d, w)).1.0)
      → HasOwned a
      → HasOwned (on_debugger host formats fuel x m (a, w)).1.0
  method-Owned x m a w none e keeps o = rw (on_debugger, e) o
  method-Owned x m a w (some d) e keeps o = rw (on_debugger, e) (keeps d w (rw e at o))

  on_debugger-KeepsOwned :
      {A : Type 0} (x : A) (m : Action (Debugger Obj Dwarf × World Os) Error A)
      → ((d : Debugger Obj Dwarf) (w : World Os)
          → IsOwned host formats d
          → IsOwned host formats (m (d, w)).1.0)
      → KeepsOwned (on_debugger host formats fuel x m)
  on_debugger-KeepsOwned x m keeps a w o = method-Owned x m a w a.debugger refl keeps o

  run_command-KeepsOwned : (c : Command) → KeepsOwned (run_command host formats fuel c)
  unfolding run_command
  run_command-KeepsOwned Command.quit a w o = o
  run_command-KeepsOwned Command.toggle_logs a w o = o
  run_command-KeepsOwned Command.help a w o = o
  run_command-KeepsOwned Command.restart a w o = start_again-KeepsOwned a w o
  run_command-KeepsOwned (Command.load path) a w o =
      start_again-KeepsOwned (record a { args = set_input path a.args }) w o
  run_command-KeepsOwned (Command.attach pid) a w o =
      start_again-KeepsOwned (record a { args = set_pid pid a.args }) w o
  run_command-KeepsOwned Command.continue a w o =
      on_debugger-KeepsOwned tt (Debugger.cont host formats) (cont-KeepsOwned host formats) a w o
  run_command-KeepsOwned Command.step a w o =
      on_debugger-KeepsOwned tt (Debugger.step host formats) (step-KeepsOwned host formats) a w o
  run_command-KeepsOwned (Command.break loc) a w o =
      on_debugger-KeepsOwned tt
        (λ s. let (r, s') = Debugger.set_break host formats loc s in (ignored r, s'))
        (set_break-KeepsOwned host formats loc) a w o
  run_command-KeepsOwned Command.null a w o = o
  run_command-KeepsOwned (Command.print e) a w o = o
  run_command-KeepsOwned Command.list_breakpoints a w o = o
  run_command-KeepsOwned Command.status a w o = o

  store-HasOwned :
      (c : Command) (text : Text) (r : Outcome Error (Unit {0})) (a : App Obj Dwarf) (w : World Os)
      → HasOwned a
      → HasOwned (settle host formats fuel a w (after_command host formats fuel c text r a)).1.0
  store-HasOwned c text (ok u) a w o = ground (arith, o)
  store-HasOwned c text (err e) a w o = o
  store-HasOwned c text panic a w o = o
  store-HasOwned c text out_of_fuel a w o = o

  -- By what the text is parsed as.
  parsed-HasOwned :
      (a : App Obj Dwarf) (w : World Os) (parsed : Outcome ParseError Command)
      → from_str a.current_command ≡ parsed
      → HasOwned a
      → HasOwned (key_enter host formats fuel (a, w)).1.0
  unfolding key_enter
  parsed-HasOwned a w (ok c) e o =
      let cleared : App Obj Dwarf = record a { current_command = [] } in
      let (r, (a', w')) = run_command host formats fuel c (cleared, w) in
      rw (key_enter, e)
        (store-HasOwned c a.current_command r a' w' (run_command-KeepsOwned c cleared w o))
  parsed-HasOwned a w (err x) e o = rw (key_enter, e) o
  parsed-HasOwned a w panic e o = rw (key_enter, e) o
  parsed-HasOwned a w out_of_fuel e o = rw (key_enter, e) o

  press_key-KeepsOwned : (k : KeyCode) → KeepsOwned (press_key host formats fuel k)
  unfolding press_key
  press_key-KeepsOwned (char c) a w o = o
  press_key-KeepsOwned down a w o = o
  press_key-KeepsOwned up a w o = o
  press_key-KeepsOwned enter a w o = parsed-HasOwned a w (from_str a.current_command) refl o
  press_key-KeepsOwned esc a w o = o
  press_key-KeepsOwned backspace a w o = o
  press_key-KeepsOwned other a w o = o

  interrupt-KeepsOwned : KeepsOwned (interrupt host formats fuel)
  unfolding stop
  interrupt-KeepsOwned =
      on_debugger-KeepsOwned tt
        (λ (d, w).
          let (r, (p, w')) = stop host (d.root, w) in (ignored r, (record d { root = p }, w')))
        (λ d w owns.
          HasFate-IsOwned host formats d d.root
            (record { terminate_on_end = refl; stdout_reader = refl }) owns)

  handle_key_event-KeepsOwned : (e : KeyEvent) → KeepsOwned (handle_key_event host formats fuel e)
  unfolding handle_key_event
  handle_key_event-KeepsOwned e a w o =
      if-HasOwned a.show_help (ok tt, (record a { show_help = false }, w)) _ o
        (if-HasOwned (e.modifiers == control) _ (press_key host formats fuel e.code (a, w))
          (if-HasOwned (is_char_c e.code) (interrupt host formats fuel (a, w)) (ok tt, (a, w))
            (interrupt-KeepsOwned a w o) o)
          (press_key-KeepsOwned e.code a w o))

  handle_event-KeepsOwned : (e : TermEvent) → KeepsOwned (handle_event host formats fuel e)
  unfolding handle_event
  handle_event-KeepsOwned (key e) a w o = ground (arith, o, handle_key_event-KeepsOwned e a w o)
  handle_event-KeepsOwned anything_else a w o = o

  handle_events-KeepsOwned :
      (answer : Outcome Errno TermEvent) → KeepsOwned (handle_events host formats fuel answer)
  unfolding handle_events
  handle_events-KeepsOwned answer a w o =
      run_then-HasOwned (map_err io_error answer, (a, w)) (λ e. handle_event host formats fuel e) o
        (λ e. handle_event-KeepsOwned e)

  collect_stdout-HasOwned :
      (a : App Obj Dwarf) (w : World Os)
      → HasOwned a
      → HasOwned (collect_stdout host formats fuel (a, w)).0
  unfolding collect_stdout
  collect_stdout-HasOwned a w o = ground (arith, o)

  poll-KeepsOwned : KeepsOwned (poll host formats fuel)
  unfolding poll
  poll-KeepsOwned a w o =
      let (a1, w1) = collect_stdout host formats fuel (a, w) in
      let o1 = collect_stdout-HasOwned a w o in
      run_then-HasOwned (on_debugger host formats fuel none (Debugger.wait host formats) (a1, w1)) _
        (on_debugger-KeepsOwned none (Debugger.wait host formats) (wait-KeepsOwned host formats) a1
          w1 o1)
        (λ found a w o. if-HasOwned (closes host formats fuel found) _ (ok tt, (a, w)) tt o)

  turn-KeepsOwned : (t : Turn) → KeepsOwned (turn host formats fuel t)
  unfolding turn
  turn-KeepsOwned t a w o =
      run_then-HasOwned (map_err io_error t.drawn, (a, w))
        (λ _. do handle_events host formats fuel t.event; poll host formats fuel) o
        (λ _ a w o.
          run_then-HasOwned (handle_events host formats fuel t.event (a, w))
            (λ _. poll host formats fuel) (handle_events-KeepsOwned t.event a w o)
            (λ _. poll-KeepsOwned))

  run_loop-KeepsOwned : (ts : List Turn) → KeepsOwned (run_loop host formats fuel ts)
  unfolding run_loop
  run_loop-KeepsOwned [] a w o = if-HasOwned a.exit (ok tt, (a, w)) (out_of_fuel, (a, w)) o o
  run_loop-KeepsOwned (t ∷ ts) a w o =
      if-HasOwned a.exit (ok tt, (a, w)) _ o
        (run_then-HasOwned (turn host formats fuel t (a, w)) (λ _. run_loop host formats fuel ts)
          (turn-KeepsOwned t a w o) (λ _. run_loop-KeepsOwned ts))

  -- If the debugger that the application has, if any, is as `start` makes one of its arguments, then
  -- the debugger at the end of a run over any events and failures of the terminal, whatever ends the
  -- run, is so too, if there is one: with an input its process is to be killed at the end, with no
  -- input but a pid its process is to be spared, and it has no output of it and no executable.
  pub run-HasOwned :
      (events : List Turn) (a : App Obj Dwarf) (w : World Os)
      → HasOwned a
      → HasOwned (run host formats fuel events (a, w)).1.0
  unfolding run
  run-HasOwned events a w o =
      run_then-HasOwned (start_again host formats fuel (a, w))
        (λ _. run_loop host formats fuel events) (start_again-KeepsOwned a w o)
        (λ _. run_loop-KeepsOwned events)
