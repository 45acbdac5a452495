-- ===== src/Commands/Parse/Blank.antt =====
-- Blank lines, which `Command::from_str` of src/commands.rs takes for the command that does nothing.
use rustybug.Prelude.{
  ℕ, ◌≡◌, ◌↔◌, ◌≢◌, refl, ◌∙◌, ap, true, false, none, some, Option, [], ◌∷◌, arith,
}
use rustybug.Prelude.Texts.{codes, text_eq}
use rustybug.Prelude.Outcome.{ok, ok-injective}
use rustybug.Host.{Text}
use rustybug.Commands.Syntax.{Command}
use rustybug.Commands.Parse.{
  is_whitespace, is_blank, strip_prefix, starts_with, keyword, with_argument, attach_command,
  trim_start_matches, from_str,
}

keyword-space : (c : ℕ) (s : Text) → is_whitespace c ≡ true → keyword (c ∷ s) ≡ none
unfolding keyword text_eq is_whitespace
keyword-space c s h = ground arith

no_prefix-space :
    (c : ℕ) (s : Text)
    → is_whitespace c ≡ true
    → (starts_with (codes "print ") (c ∷ s) ≡ false)
      × (starts_with (codes "load ") (c ∷ s) ≡ false)
      × (starts_with (codes "attach ") (c ∷ s) ≡ false)
      × (starts_with (codes "break ") (c ∷ s) ≡ false)
unfolding strip_prefix is_whitespace
no_prefix-space c s h = ground arith

keyword-ne-null : (s : Text) → keyword s ≢ some Command.null
unfolding keyword
keyword-ne-null s = ground arith

attach_command-ne-null : (s : Text) → attach_command s ≢ ok Command.null
unfolding attach_command
attach_command-ne-null s = ground arith

with_argument-null : (s : Text) → with_argument s ≡ ok Command.null → is_blank s ≡ true
unfolding with_argument
with_argument-null s h =
    ground (arith, attach_command-ne-null (trim_start_matches (codes "attach ") s))

from_str-null_blank :
    (s : Text) (o : Option Command)
    → keyword s ≡ o
    → from_str s ≡ ok Command.null
    → is_blank s ≡ true
unfolding from_str
from_str-null_blank s none e h = with_argument-null s (rw (from_str, e) at h)
from_str-null_blank s (some c) e h =
    let same : c ≡ Command.null = ok-injective (rw (from_str, e) at h) in
    absurd (keyword-ne-null s (e ∙ ap (λ (x : Command). some x) same))

blank-from_str : (s : Text) → is_blank s ≡ true → from_str s ≡ ok Command.null
unfolding from_str with_argument is_blank keyword text_eq strip_prefix
blank-from_str [] h = refl
blank-from_str (c ∷ s) h =
    let space : is_whitespace c ≡ true = ground arith in
    let (no_print, no_load, no_attach, no_break) = no_prefix-space c s space in
    rw (from_str, keyword-space c s space)
      (rw (with_argument, no_print) (rw no_load (rw no_attach (rw no_break (rw h refl)))))

-- A line parses to the command that does nothing exactly if it is blank.
pub from_str-null : (s : Text) → (from_str s ≡ ok Command.null) ↔ (is_blank s ≡ true)
from_str-null s = (from_str-null_blank s (keyword s) refl, blank-from_str s)
