-- ===== src/App/Draw.antt =====
-- src/main.rs: what is drawn, and where. ratatui's layout is a parameter: how a split divides an area.
pub mod Within
pub mod Tests
use rustybug.Prelude.{ℕ, Bool, true, false, List, [], ◌∷◌, ◌++◌, if◌then◌else◌}
use rustybug.Prelude.Texts.{codes}
use rustybug.Host.{Text}
use rustybug.Debugger.Show.{name}
use rustybug.App.{App}

pub record Rect : Type 0 where
  pub x : ℕ
  pub y : ℕ
  pub width : ℕ
  pub height : ℕ

-- ratatui's `Constraint`, `Direction`, `Flex` and `Layout`, as far as they are used.
pub data Constraint : Type 0 where
  fill max percentage : ℕ → Constraint

pub data Direction : Type 0 where
  vertical horizontal : Direction

pub data Flex : Type 0 where
  start center : Flex

pub record Layout : Type 0 where
  pub direction : Direction
  pub constraints : List Constraint
  pub flex : Flex

-- `layout.areas(area)`: the array of areas by position, of which there are as many as constraints.
abbrev pub Areas : Type 0
Areas = Layout → Rect → ℕ → Rect

-- The widgets, whose styles and settings are fixed: the log's, the window with its title, its
-- instructions and its text, the prompt line with its two spans, the blank, and the help.
pub data Widget : Type 0 where
  log_widget : Widget
  view_window : Text → Text → Text → Widget
  prompt_line : Text → Text → Widget
  clear : Widget
  help_window : Text → Text → Widget

abbrev pub Drawn : Type 0
Drawn = Widget × Rect

abbrev layout : Direction → List Constraint → Flex → Layout
layout direction constraints flex = record {
  direction = direction;
  constraints = constraints;
  flex = flex;
}

abbrev pub help_text : Text
help_text =
    codes "Rustybug\n"
    ++ codes
        "This is a simple debugger mainly for playing with ptrace. But being a debugger there are\n"
    ++ codes "some commands to learn:\n"
    ++ codes "\n"
    ++ codes "attach <PID>       Attach to the given PID for debugging\n"
    ++ codes "load <PATH>        Loads the given program and starts debugging it. TODO args\n"
    ++ codes "restart            Restart the program/attached pid you launched rustybug with\n"
    ++ codes "print              Print a given expression (currently only accepts 'registers')\n"
    ++ codes
        "break <LOCATION>   Add a breakpoint at a given location - either an <ADDR> or <FILE> <LINE>\n"
    ++ codes "l list             List all breakpoints\n"
    ++ codes "logs               Show the debug logs\n"
    ++ codes "q quit             Quit rustybuy\n"
    ++ codes "? help             Show this message\n"
    ++ codes "\n"
    ++ codes "Press any key to dismiss this message.\n"

abbrev with_logs : Layout
with_logs = layout vertical (fill 5 ∷ fill 3 ∷ max 1 ∷ []) start

abbrev without_logs : Layout
without_logs = layout vertical (fill 8 ∷ max 1 ∷ []) start

unfoldable pub popup_area : Areas → Rect → ℕ → ℕ → Rect
popup_area areas area percent_x percent_y =
    let rows = layout vertical (percentage percent_y ∷ []) center in
    let columns = layout horizontal (percentage percent_x ∷ []) center in
    areas columns (areas rows area 0) 0

module _ {Obj Dwarf : Type 0} (areas : Areas) where
  -- The view and the prompt, in the areas that are left for them.
  abbrev view_and_prompt : App Obj Dwarf → Rect → Rect → List Drawn
  view_and_prompt a view prompt =
      (view_window (codes " RustyBug ") (codes " Quit <Q>  Help <?> ") (name a.args), view)
      ∷ (prompt_line (codes "rb> ") a.current_command, prompt)
      ∷ []

  -- What is drawn onto the buffer, in this order.
  unfoldable pub render : App Obj Dwarf → Rect → List Drawn
  unfolding name
  render a area =
      if a.show_logs
      then (log_widget, areas with_logs area 1)
        ∷ view_and_prompt a (areas with_logs area 0) (areas with_logs area 2)
      else view_and_prompt a (areas without_logs area 0) (areas without_logs area 1)

  -- The popup's place is blanked, but the help is drawn over the whole frame.
  unfoldable pub draw : App Obj Dwarf → Rect → List Drawn
  unfolding render popup_area
  draw a area =
      render a area
      ++ (if a.show_help
          then (clear, popup_area areas area 80 60)
            ∷ (help_window (codes "Help") help_text, area)
            ∷ []
          else [])
