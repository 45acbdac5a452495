-- ===== src/Commands/Parse/Trim.antt =====
-- `trim_start_matches` and `split_whitespace` on texts that are put together from words.
use mathlib.Core.List.{append_assoc, append-nil}
use rustybug.Prelude.{
  ℕ, zero, suc, ◌≡◌, refl, sym, ap, ◌∙◌, false, none, some, List, [], ◌∷◌, ◌++◌, All, length,
  ==_refl,
}
use rustybug.Host.{Text}
use rustybug.Commands.Parse.{
  strip_prefix, trim_rounds, trim_start_matches, is_whitespace, words_from, split_whitespace,
}

pub strip_prefix-append : (p s : Text) → strip_prefix p (p ++ s) ≡ some s
unfolding strip_prefix
strip_prefix-append [] s = refl
strip_prefix-append (c ∷ p) s = rw (==_refl c) (strip_prefix-append p s)

trim_rounds-none : (n : ℕ) (p s : Text) → strip_prefix p s ≡ none → trim_rounds n p s ≡ s
unfolding trim_rounds
trim_rounds-none zero p s e = refl
trim_rounds-none (suc n) p s e = rw (trim_rounds, e) refl

-- A prefix that stands there once is taken off.
pub trim_start_matches-append :
    (c : ℕ) (p s : Text)
    → strip_prefix (c ∷ p) s ≡ none
    → trim_start_matches (c ∷ p) (c ∷ p ++ s) ≡ s
unfolding trim_rounds
trim_start_matches-append c p s e =
    rw (trim_rounds, strip_prefix-append (c ∷ p) s) (trim_rounds-none (length (p ++ s)) (c ∷ p) s e)

-- No character of the text is white space.
abbrev pub IsWord : Text → Type 0
IsWord s = All (λ (c : ℕ). is_whitespace c ≡ false) s

words_from-append :
    (word s t : Text) → IsWord s → words_from word (s ++ t) ≡ words_from (word ++ s) t
unfolding words_from
words_from-append word [] t h = ap (λ (u : Text). words_from u t) (sym (append-nil word))
words_from-append word (c ∷ s) t (plain, h) =
    rw (words_from, plain)
      (words_from-append (word ++ c ∷ []) s t h
        ∙ ap (λ (u : Text). words_from u t) (append_assoc word (c ∷ []) s))

pub split_whitespace-word :
    (c : ℕ) (s : Text) → IsWord (c ∷ s) → split_whitespace (c ∷ s) ≡ (c ∷ s) ∷ []
unfolding split_whitespace words_from
split_whitespace-word c s h =
    ap (λ (u : Text). words_from [] u) (sym (append-nil (c ∷ s)))
    ∙ words_from-append [] (c ∷ s) [] h

pub split_whitespace-words :
    (a : ℕ) (s : Text) (b : ℕ) (t : Text)
    → IsWord (a ∷ s)
    → IsWord (b ∷ t)
    → split_whitespace ((a ∷ s) ++ b' ' ∷ b ∷ t) ≡ (a ∷ s) ∷ (b ∷ t) ∷ []
unfolding split_whitespace is_whitespace words_from
split_whitespace-words a s b t h k =
    words_from-append [] (a ∷ s) (b' ' ∷ b ∷ t) h
    ∙ ap (λ (ws : List Text). (a ∷ s) ∷ ws) (split_whitespace-word b t k)
