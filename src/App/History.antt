-- ===== src/App/History.antt =====
-- src/main.rs: the history of commands, a `VecDeque` with its oldest entry in front, and the Up and
-- Down keys.
pub mod Keep
pub mod Recall
use rustybug.Prelude.{
  ℕ, zero, suc, ◌+◌, ◌-◌, Bool, false, Option, none, some, List, [], ◌∷◌, ◌++◌, length, get_elem?,
  leb, if◌then◌else◌,
}
use rustybug.Prelude.Texts.{text_eq}
use rustybug.Host.{Text}

-- `back()`
abbrev pub back : List Text → Option Text
back [] = none
back (x ∷ []) = some x
back (x ∷ y ∷ xs) = back (y ∷ xs)

abbrev pub pop_front : List Text → List Text
pop_front [] = []
pop_front (x ∷ xs) = xs

-- `while history.len() >= limit { history.pop_front(); }`, on fuel
unfoldable pub make_room : ℕ → ℕ → List Text → Option (List Text)
make_room zero limit history = none
make_room (suc fuel) limit history =
    let again = make_room fuel limit (pop_front history) in
    if leb limit (length history) then again else some history

-- The command is stored unless it repeats the last one. `saturating_sub(1)` is `- 1` here.
abbrev pub is_last : Text → List Text → Bool
is_last command history = elim (back history) [ none ↦ false | some last ↦ text_eq last command ]

unfoldable pub push_command : ℕ → ℕ → Text → List Text → Option (List Text)
push_command fuel history_len command history =
    if is_last command history
    then some history
    else elim (make_room fuel (history_len - 1) history) [
      | none ↦ none
      | some room ↦ some (room ++ command ∷ [])
    ]

-- The text on the prompt and the position in the history.
pub record Prompt : Type 0 where
  pub current_command : Text
  pub history_index : Option ℕ

abbrev pub recall : Text → Option Text → Text
recall current none = current
recall current (some command) = command

abbrev down_from : List Text → Text → ℕ → Prompt
down_from history current index =
    if leb (length history) (index + 1)
    then record { current_command = []; history_index = none }
    else record {
      current_command = recall current (get_elem? history (index + 1));
      history_index = some (index + 1);
    }

unfoldable pub key_down : List Text → Prompt → Prompt
key_down history p = elim p.history_index [
  | none ↦ p
  | some index ↦ down_from history p.current_command index
]

unfoldable pub key_up : List Text → Prompt → Prompt
key_up history p = elim p.history_index [
  | some index ↦ record {
    current_command = recall p.current_command (get_elem? history (index - 1));
    history_index = some (index - 1);
  }
  | none ↦ elim (back history) [
    | none ↦ p
    | some last ↦ record { current_command = last; history_index = some (length history - 1) }
  ]
]
