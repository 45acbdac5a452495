-- ===== src/App/Invariant.antt =====
-- What every key and every turn of the main loop of src/main.rs keeps of the application's state:
-- the invariant, the commands and the Enter key.
pub mod Loop
use rustybug.Prelude.{
  ℕ, zero, suc, ◌≤◌, ◌<◌, ◌≡◌, refl, sym, ap, subst, ◌∙◌, Bool, true, false, ◌==◌, ltb, Option,
  none, some, List, [], ◌∷◌, ◌++◌, length, All, All-append, arith, Bool-cases, inl, inr, ◌⊎◌,
  if◌then◌else◌, ◌&&◌,
}
use rustybug.Prelude.Outcome.{run_then, Outcome, ok, err, panic, out_of_fuel, Action, ignored}
use rustybug.Host.{Text, Host, World}
use rustybug.Commands.Syntax.{Command, ParseError, store_in_history}
use rustybug.Commands.Parse.{from_str}
use rustybug.Process.Access.{stop}
use rustybug.Elf.{Formats}
use rustybug.Debugger.{Error, Debugger, set_input, set_pid}
use rustybug.Debugger
use rustybug.App.{
  App, KeyCode, KeyEvent, TermEvent, char, down, up, enter, esc, backspace, other, run_command,
  start_again, on_debugger, store, settle, after_command, closes, drop_debugger, run, Method,
  interrupt, key, anything_else, press, repeat, release, key_enter, press_key, handle_key_event,
  handle_events, collect_stdout, poll, turn, run_loop,
}
use rustybug.App.History.{pop_front, push_command, key_up, key_down, Prompt}
use rustybug.App.History.Keep.{IsHistory, push_command-IsHistory, drop_front, Stores}
use rustybug.App.History.Recall.{InBounds, Shows, Shows-InBounds, key_up-Shows}

-- The text is a command that the history is for.
abbrev pub IsStorable : Text → Type 0
IsStorable t = (c : Command) × (from_str t ≡ ok c) × (store_in_history c ≡ true)

module _ {Obj Dwarf : Type 0} where
  pub record IsApp (fuel : ℕ) (a : App Obj Dwarf) : Type 0 where
    pub enough : a.history_len ≤ fuel
    pub roomy : 2 ≤ a.history_len
    pub history : IsHistory a.history_len a.command_history
    pub index : InBounds a.command_history a.history_index
    pub entries : All IsStorable a.command_history

  -- The fields that the invariant reads are the same.
  pub record Keeps (a a' : App Obj Dwarf) : Type 0 where
    pub same_len : a'.history_len ≡ a.history_len
    pub same_history : a'.command_history ≡ a.command_history
    pub same_index : a'.history_index ≡ a.history_index

  pub Keeps-IsApp : (fuel : ℕ) (a a' : App Obj Dwarf) → Keeps a a' → IsApp fuel a → IsApp fuel a'
  Keeps-IsApp fuel a a' k i = record {
    enough = rw k.same_len i.enough;
    roomy = rw k.same_len i.roomy;
    history = rw k.same_len (rw k.same_history i.history);
    index = rw k.same_history (rw k.same_index i.index);
    entries = rw k.same_history i.entries;
  }

module _ {Os Regs FpRegs Obj Dwarf Header CompUnit : Type 0} (host : Host Os Regs FpRegs)
    (formats : Formats Obj Dwarf Header CompUnit) (fuel : ℕ) where
  pub on_debugger-Keeps :
      {A : Type 0} (x : A) (m : Action (Debugger Obj Dwarf × World Os) Error A) (a : App Obj Dwarf)
      (w : World Os)
      → Keeps a (on_debugger host formats fuel x m (a, w)).1.0
  on_debugger-Keeps x m a w = ground arith

  pub start_again-Keeps :
      (a : App Obj Dwarf) (w : World Os) → Keeps a (start_again host formats fuel (a, w)).1.0
  unfolding start_again
  start_again-Keeps a w = ground arith

  run_command-Keeps :
      (c : Command) (a : App Obj Dwarf) (w : World Os)
      → Keeps a (run_command host formats fuel c (a, w)).1.0
  unfolding run_command
  run_command-Keeps Command.quit a w = ground arith
  run_command-Keeps Command.toggle_logs a w = ground arith
  run_command-Keeps Command.help a w = ground arith
  run_command-Keeps Command.restart a w = start_again-Keeps a w
  run_command-Keeps (Command.load path) a w =
      let k = start_again-Keeps (record a { args = set_input path a.args }) w in
      record { same_len = k.same_len; same_history = k.same_history; same_index = k.same_index }
  run_command-Keeps (Command.attach pid) a w =
      let k = start_again-Keeps (record a { args = set_pid pid a.args }) w in
      record { same_len = k.same_len; same_history = k.same_history; same_index = k.same_index }
  run_command-Keeps Command.continue a w = on_debugger-Keeps tt (Debugger.cont host formats) a w
  run_command-Keeps Command.step a w = on_debugger-Keeps tt (Debugger.step host formats) a w
  run_command-Keeps (Command.break loc) a w =
      on_debugger-Keeps tt
        (λ s. let (r, s') = Debugger.set_break host formats loc s in (ignored r, s')) a w
  run_command-Keeps Command.null a w = ground arith
  run_command-Keeps (Command.print e) a w = ground arith
  run_command-Keeps Command.list_breakpoints a w = ground arith
  run_command-Keeps Command.status a w = ground arith

  All-drop_front : (k : ℕ) (h : List Text) → All IsStorable h → All IsStorable (drop_front k h)
  All-drop_front zero h s = s
  All-drop_front (suc k) [] s = All-drop_front k [] tt
  All-drop_front (suc k) (x ∷ h) s = All-drop_front k h s.1

  All-Stores :
      (h h' : List Text) (t : Text)
      → IsStorable t
      → All IsStorable h
      → Stores h t h'
      → All IsStorable h'
  All-Stores h h' t st all (inl same) = rw same all
  All-Stores h h' t st all (inr (k, e)) =
      rw e (All-append IsStorable (drop_front k h) (t ∷ []) (All-drop_front k h all) (st, tt))

  InBounds-longer :
      (h h' : List Text) (o : Option ℕ) → length h ≤ length h' → InBounds h o → InBounds h' o
  InBounds-longer h h' none le i = tt
  InBounds-longer h h' (some n) le i = omega arith

  store-IsApp :
      (c : Command) (text : Text) (a : App Obj Dwarf)
      → from_str text ≡ ok c
      → IsApp fuel a
      → (a' : App Obj Dwarf) × (store host formats fuel c text a ≡ ok a') × IsApp fuel a'
  store-IsApp c text a parsed i =
      let len = i.roomy in
      let enough = i.enough in
      let short = i.history.short in
      let some_room : ltb 0 a.history_len ≡ true = ground arith in
      elim (Bool-cases (store_in_history c)) [
        | inr dropped ↦ (a, rw (dropped, store) refl, i)
        | inl kept ↦
            let (h, done, hist, _, longer, how) =
              push_command-IsHistory fuel a.history_len text a.command_history len i.history
                (omega arith) in
            (
              record a { command_history = h },
              rw kept (rw some_room (rw done refl)),
              record {
                enough = enough;
                roomy = len;
                history = hist;
                index = InBounds-longer a.command_history h a.history_index longer i.index;
                entries = All-Stores a.command_history h text (c, parsed, kept) i.entries how;
              },
            )
      ]

  after_command-IsApp :
      (c : Command) (text : Text) (r : Outcome Error (Unit {0})) (a : App Obj Dwarf) (w : World Os)
      → from_str text ≡ ok c
      → IsApp fuel a
      → IsApp fuel (settle host formats fuel a w (after_command host formats fuel c text r a)).1.0
  after_command-IsApp c text (ok u) a w parsed i =
      let (a', done, i') = store-IsApp c text a parsed i in rw (after_command, done) i'
  after_command-IsApp c text (err e) a w parsed i = i
  after_command-IsApp c text panic a w parsed i = i
  after_command-IsApp c text out_of_fuel a w parsed i = i

  cleared-IsApp :
      (a : App Obj Dwarf) → IsApp fuel a → IsApp fuel (record a { current_command = [] })
  cleared-IsApp a i = record {
    enough = i.enough;
    roomy = i.roomy;
    history = i.history;
    index = i.index;
    entries = i.entries;
  }

  pub parsed-IsApp :
      (a : App Obj Dwarf) (w : World Os) (o : Outcome ParseError Command)
      → from_str a.current_command ≡ o
      → IsApp fuel a
      → IsApp fuel (key_enter host formats fuel (a, w)).1.0
  unfolding key_enter
  parsed-IsApp a w (ok c) e i =
      let cleared : App Obj Dwarf = record a { current_command = [] } in
      let (r, (a', w')) = run_command host formats fuel c (cleared, w) in
      let i' = Keeps-IsApp fuel cleared a' (run_command-Keeps c cleared w) (cleared-IsApp a i) in
      rw (key_enter, e) (after_command-IsApp c a.current_command r a' w' e i')
  parsed-IsApp a w (err x) e i = rw (key_enter, e) (cleared-IsApp a i)
  parsed-IsApp a w panic e i = rw (key_enter, e) (cleared-IsApp a i)
  parsed-IsApp a w out_of_fuel e i = rw (key_enter, e) (cleared-IsApp a i)
