-- ===== src/App.antt =====
-- src/main.rs: the application's state, its keys and its commands. Drawing and logging are left
-- out. A `DebuggerStateMachine` that is replaced or given up is dropped, and its process with it.
use rustybug.Prelude.{
  ℕ, Bool, true, false, not, ◌&&◌, Option, none, some, List, [], ◌∷◌, ◌++◌, ltb, ◌==◌,
  if◌then◌else◌,
}
use rustybug.Prelude.Outcome.{
  Outcome, ok, err, panic, out_of_fuel, Action, pure, gets, modify, reads, map_err, ◌>>=◌, ◌>>◌,
  ignored,
}
use rustybug.Host.{Errno, Text, Host, World}
use rustybug.Commands.Syntax.{Command, store_in_history}
use rustybug.Commands.Parse.{from_str}
use rustybug.Elf.{Formats}
use rustybug.Process.{StopReason, is_closed}
use rustybug.Process.Access.{stop, read_stdout}
use rustybug.Process.Life.{drop}
use rustybug.Debugger
use rustybug.Debugger.{io_error, Args, set_input, set_pid, Error, Debugger}
use History.{Prompt, push_command, key_up, key_down}
pub mod History
pub mod Invariant
pub mod Report
pub mod Draw
pub mod Start
pub mod Owned
pub mod Ending
mod Tests

pub record App (Obj Dwarf : Type 0) : Type 0 where
  pub args : Args
  pub exit : Bool
  pub show_help : Bool
  pub show_logs : Bool
  pub current_command : Text
  pub history_len : ℕ
  pub current_stdout : Text
  pub debugger : Option (Debugger Obj Dwarf)
  pub command_history : List Text
  pub history_index : Option ℕ

-- crossterm's events, as far as the code looks.
pub data KeyCode : Type 0 where
  char : ℕ → KeyCode
  down up enter esc backspace other : KeyCode

pub data KeyEventKind : Type 0 where
  press repeat release : KeyEventKind

pub record KeyEvent : Type 0 where
  pub code : KeyCode
  -- the bits of `KeyModifiers`
  pub modifiers : ℕ
  pub kind : KeyEventKind

-- `KeyModifiers::CONTROL`
abbrev pub control : ℕ
control = 2

pub data TermEvent : Type 0 where
  key : KeyEvent → TermEvent
  anything_else : TermEvent

-- What the terminal answers in a turn of the main loop: to the drawing, and to the reading.
pub record Turn : Type 0 where
  pub drawn : Outcome Errno (Unit {0})
  pub event : Outcome Errno TermEvent

-- `String::pop`
abbrev pub pop : Text → Text
pop [] = []
pop (c ∷ []) = []
pop (c ∷ d ∷ s) = c ∷ pop (d ∷ s)

abbrev pub is_char_c : KeyCode → Bool
is_char_c (char c) = c == b'c'
is_char_c _ = false

module _ {Os Regs FpRegs Obj Dwarf Header CompUnit : Type 0} (host : Host Os Regs FpRegs)
    (formats : Formats Obj Dwarf Header CompUnit) (fuel : ℕ) where
  -- A method on `&mut self`. The fuel is for the loops below it: the first wait of a process, and
  -- the one that makes room in the history.
  abbrev pub Method : Type 0 → Type 0
  Method A = Action (App Obj Dwarf × World Os) Error A

  abbrev pub drop_debugger : Option (Debugger Obj Dwarf) → World Os → World Os
  drop_debugger none w = w
  drop_debugger (some d) w = (drop host d.root w).1

  -- `self.debugger = Some(DebuggerStateMachine::start(self.args.clone())?)`: the new one is started
  -- before the old one is dropped.
  unfoldable pub start_again : Method (Unit {0})
  start_again (a, w) =
      let (r, w') = Debugger.start host formats fuel a.args w in
      elim r [
        | ok d ↦ (ok tt, (record a { debugger = some d }, drop_debugger a.debugger w'))
        | err e ↦ (err e, (a, w'))
        | panic ↦ (panic, (a, w'))
        | out_of_fuel ↦ (out_of_fuel, (a, w'))
      ]

  -- A method of the debugger, if there is one.
  abbrev pub on_debugger :
      {A : Type 0} → A → Action (Debugger Obj Dwarf × World Os) Error A → Method A
  on_debugger default m (a, w) = elim a.debugger [
    | none ↦ (ok default, (a, w))
    | some d ↦ let (r, (d', w')) = m (d, w) in (r, (record a { debugger = some d' }, w'))
  ]

  abbrev pub update : (App Obj Dwarf → App Obj Dwarf) → Method (Unit {0})
  update f = modify (λ (a, w). (f a, w))

  -- What `Status`, `ListBreakpoints` and `Print` find out is only logged.
  unfoldable pub run_command : Command → Method (Unit {0})
  unfolding set_input set_pid
  run_command Command.quit = update (λ a. record a { exit = true })
  run_command Command.toggle_logs = update (λ a. record a { show_logs = not a.show_logs })
  run_command Command.help = update (λ a. record a { show_help = true })
  run_command Command.restart = start_again
  run_command (Command.load path) =
      update (λ a. record a { args = set_input path a.args }) >> start_again
  run_command (Command.attach pid) =
      update (λ a. record a { args = set_pid pid a.args }) >> start_again
  run_command Command.continue = on_debugger tt (Debugger.cont host formats)
  run_command Command.step = on_debugger tt (Debugger.step host formats)
  run_command (Command.break loc) =
      on_debugger tt (λ s. let (r, s') = Debugger.set_break host formats loc s in (ignored r, s'))
  run_command Command.null = pure tt
  run_command (Command.print expr) = pure tt
  run_command Command.list_breakpoints = pure tt
  run_command Command.status = pure tt

  abbrev prompt_of : App Obj Dwarf → Prompt
  prompt_of a = record { current_command = a.current_command; history_index = a.history_index }

  abbrev with_prompt : Prompt → App Obj Dwarf → App Obj Dwarf
  with_prompt p a = record a {
    current_command = p.current_command;
    history_index = p.history_index;
  }

  -- After a command has run: errors are logged, and a command that is worth it is stored.
  abbrev pub store : Command → Text → App Obj Dwarf → Outcome Error (App Obj Dwarf)
  store command text a =
      if store_in_history command && ltb 0 a.history_len
      then elim (push_command fuel a.history_len text a.command_history) [
        | none ↦ out_of_fuel
        | some history ↦ ok (record a { command_history = history })
      ]
      else ok a

  abbrev pub after_command :
      Command → Text → Outcome Error (Unit {0}) → App Obj Dwarf → Outcome Error (App Obj Dwarf)
  after_command command text (ok _) a = store command text a
  after_command command text (err _) a = ok a
  after_command command text panic a = panic
  after_command command text out_of_fuel a = out_of_fuel

  abbrev pub settle :
      App Obj Dwarf
      → World Os
      → Outcome Error (App Obj Dwarf)
      → Outcome Error (Unit {0}) × (App Obj Dwarf × World Os)
  settle a w (ok a') = (ok tt, (a', w))
  settle a w (err e) = (err e, (a, w))
  settle a w panic = (panic, (a, w))
  settle a w out_of_fuel = (out_of_fuel, (a, w))

  -- A text that is no command is logged, and gone from the prompt.
  unfoldable pub key_enter : Method (Unit {0})
  key_enter (a, w) =
      let text = a.current_command in
      let cleared = record a { current_command = [] } in
      elim (from_str text) [
        | ok command ↦
            let (r, (a', w')) = run_command command (cleared, w) in
            settle a' w' (after_command command text r a')
        | err _ ↦ (ok tt, (cleared, w))
        | panic ↦ (panic, (cleared, w))
        | out_of_fuel ↦ (out_of_fuel, (cleared, w))
      ]

  unfoldable pub press_key : KeyCode → Method (Unit {0})
  press_key (char c) = update (λ a. record a { current_command = a.current_command ++ c ∷ [] })
  press_key down = update (λ a. with_prompt (key_down a.command_history (prompt_of a)) a)
  press_key up = update (λ a. with_prompt (key_up a.command_history (prompt_of a)) a)
  press_key enter = key_enter
  press_key esc = update (λ a. record a { current_command = [] })
  press_key backspace = update (λ a. record a { current_command = pop a.current_command })
  press_key other = pure tt

  -- Ctrl+C sends SIGSTOP to the child; what comes of it is ignored.
  abbrev pub interrupt : Method (Unit {0})
  interrupt = on_debugger tt (λ (d, w).
      let (r, (p, w')) = stop host (d.root, w) in (ignored r, (record d { root = p }, w')))

  unfoldable pub handle_key_event : KeyEvent → Method (Unit {0})
  handle_key_event e (a, w) =
      if a.show_help
      then (ok tt, (record a { show_help = false }, w))
      else if e.modifiers == control
      then (if is_char_c e.code then interrupt (a, w) else (ok tt, (a, w)))
      else press_key e.code (a, w)

  -- A press and a release are handled alike; a repeat is not handled.
  unfoldable pub handle_event : TermEvent → Method (Unit {0})
  handle_event (key e) = elim e.kind [
    | press ↦ handle_key_event e
    | release ↦ handle_key_event e
    | repeat ↦ pure tt
  ]
  handle_event anything_else = pure tt

  -- A failure of `event::read` ends the run.
  unfoldable pub handle_events : Outcome Errno TermEvent → Method (Unit {0})
  unfolding handle_event
  handle_events answer = do event ← reads (λ _. map_err io_error answer); handle_event event

  -- The output that is there is kept, as its bytes.
  unfoldable pub collect_stdout : App Obj Dwarf × World Os → App Obj Dwarf × World Os
  collect_stdout (a, w) = elim a.debugger [
    | none ↦ (a, w)
    | some d ↦
        let (got, os') = read_stdout host d.root w.os in
        (
          elim got [
            | none ↦ a
            | some text ↦ record a { current_stdout = a.current_stdout ++ text }
          ],
          record w { os = os' },
        )
  ]

  -- A stop that closes the process gives the debugger up.
  abbrev pub closes : Option StopReason → Bool
  closes none = false
  closes (some r) = is_closed r.reason

  unfoldable pub poll : Method (Unit {0})
  unfolding collect_stdout is_closed
  poll s =
      (do
        found ← on_debugger none (Debugger.wait host formats)
        λ (a, w).
            if closes found
            then (ok tt, (record a { debugger = none }, drop_debugger a.debugger w))
            else (ok tt, (a, w)))
        (collect_stdout s)

  -- The body of the main loop, and the loop, over the terminal's answers; where none are left, it
  -- waits for the next.
  unfoldable pub turn : Turn → Method (Unit {0})
  turn t = do reads (λ _. map_err io_error t.drawn); handle_events t.event; poll

  unfoldable pub run_loop : List Turn → Method (Unit {0})
  run_loop [] s = if s.0.exit then (ok tt, s) else (out_of_fuel, s)
  run_loop (t ∷ ts) s =
      let on = λ (s' : App Obj Dwarf × World Os). run_loop ts s' in
      if s.0.exit then (ok tt, s) else (do turn t; on) s

  -- `start_again` drops the old debugger: here there is none.
  unfoldable pub run : List Turn → Method (Unit {0})
  run events = do start_again; run_loop events
