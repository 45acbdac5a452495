-- ===== src/App/History/Recall.antt =====
-- The Up and Down keys of src/main.rs: the entry they bring to the prompt.
use rustybug.Prelude.{
  ℕ, zero, suc, ◌+◌, ◌-◌, ◌<◌, ◌≡◌, refl, ap, false, Option, none, some, some-injective, List, [],
  ◌∷◌, length, get_elem?, leb, arith, Bool-cases, Option-cases, inl, inr,
}
use rustybug.Host.{Text}
use rustybug.App.History.{back, Prompt, recall, key_up, key_down}

-- The position, if there is one, is within the history.
abbrev pub InBounds : List Text → Option ℕ → Type 0
InBounds history none = Unit
InBounds history (some i) = i < length history

-- The prompt shows the entry at the position, if there is one.
abbrev pub Shows : List Text → Text → Option ℕ → Type 0
Shows history text none = Unit
Shows history text (some i) = (i < length history) × (get_elem? history i ≡ some text)

pub Shows-InBounds : (h : List Text) (text : Text) (o : Option ℕ) → Shows h text o → InBounds h o
Shows-InBounds h text none s = tt
Shows-InBounds h text (some i) s = s.0

entry_at :
    (h : List Text) (text : Text) (o : Option ℕ) (i : ℕ)
    → Shows h text o
    → o ≡ some i
    → get_elem? h i ≡ some text
entry_at h text none i s e = cc
entry_at h text (some j) i s e = let same = some-injective j i e in rw (← same) s.1

get_elem?-lt : (h : List Text) (i : ℕ) → i < length h → (t : Text) × (get_elem? h i ≡ some t)
get_elem?-lt [] i lt = absurd (omega arith)
get_elem?-lt (x ∷ h) zero lt = (x, refl)
get_elem?-lt (x ∷ h) (suc i) lt = get_elem?-lt h i (omega arith)

recall_lem :
    (h : List Text) (text : Text) (i : ℕ)
    → i < length h
    → get_elem? h i ≡ some (recall text (get_elem? h i))
recall_lem h text i lt = let (t, e) = get_elem?-lt h i lt in rw e refl

back_lem :
    (h : List Text) (t : Text)
    → back h ≡ some t
    → (n : ℕ) × (length h ≡ suc n) × (get_elem? h n ≡ some t)
back_lem [] t e = cc
back_lem (x ∷ []) t e = (zero, refl, e)
back_lem (x ∷ y ∷ h) t e = let (n, l, g) = back_lem (y ∷ h) t e in (suc n, ap suc l, g)

last_shown : (h : List Text) (t : Text) → back h ≡ some t → Shows h t (some (length h - 1))
last_shown h t e =
    let (n, l, g) = back_lem h t e in
    let at : n ≡ length h - 1 = omega arith in (omega arith, rw (← at) g)

up_Shown :
    (h : List Text) (p : Prompt) (o : Option ℕ)
    → p.history_index ≡ o
    → InBounds h o
    → Shows h (key_up h p).current_command (key_up h p).history_index
unfolding key_up
up_Shown h p none e inside = elim (Option-cases (back h)) [
  | inl empty ↦ rw e (rw (key_up, empty) tt)
  | inr (t, last) ↦ rw e (rw (key_up, last) (last_shown h t last))
]
up_Shown h p (some i) e inside =
    rw e (omega arith, recall_lem h p.current_command (i - 1) (omega arith))

down_Shown :
    (h : List Text) (p : Prompt) (o : Option ℕ)
    → p.history_index ≡ o
    → Shows h (key_down h p).current_command (key_down h p).history_index
unfolding key_down
down_Shown h p none e = rw e tt
down_Shown h p (some i) e = elim (Bool-cases (leb (length h) (i + 1))) [
  | inl past ↦ rw e (rw (key_down, past) tt)
  | inr before ↦
      rw e (
        rw (key_down, before) (ground arith, recall_lem h p.current_command (i + 1) (ground arith)))
]

-- From a prompt whose position is within the history, the Up key and the Down key leave a position
-- that is within it, if they leave one, and the prompt then shows the entry there.
pub key_up-Shows :
    (h : List Text) (p : Prompt)
    → InBounds h p.history_index
    → Shows h (key_up h p).current_command (key_up h p).history_index
      × Shows h (key_down h p).current_command (key_down h p).history_index
key_up-Shows h p inside =
    (up_Shown h p p.history_index refl inside, down_Shown h p p.history_index refl)

-- `n` presses of the Up key.
abbrev pub key_ups : ℕ → List Text → Prompt → Prompt
key_ups zero h p = p
key_ups (suc n) h p = key_up h (key_ups n h p)

back-some : (h : List Text) → 0 < length h → (t : Text) × (back h ≡ some t)
back-some [] lt = absurd (omega arith)
back-some (x ∷ []) lt = (x, refl)
back-some (x ∷ y ∷ h) lt = back-some (y ∷ h) (omega arith)

ups_index :
    (n : ℕ) (h : List Text) (p : Prompt)
    → p.history_index ≡ none
    → n < length h
    → (key_ups (suc n) h p).history_index ≡ some (length h - 1 - n)
unfolding key_up
ups_index zero h p e lt =
    let (t, last) = back-some h lt in
    rw e (rw (key_up, last) (ap (λ (i : ℕ). some i) (omega arith)))
ups_index (suc n) h p e lt =
    let before = ups_index n h p e (omega arith) in
    rw (key_up, before) (ap (λ (i : ℕ). some i) (omega arith))

ups_Shown :
    (n : ℕ) (h : List Text) (p : Prompt)
    → InBounds h p.history_index
    → Shows h (key_ups (suc n) h p).current_command (key_ups (suc n) h p).history_index
ups_Shown zero h p inside = up_Shown h p p.history_index refl inside
ups_Shown (suc n) h p inside =
    up_Shown h (key_ups (suc n) h p) (key_ups (suc n) h p).history_index refl (
      Shows-InBounds h (key_ups (suc n) h p).current_command (key_ups (suc n) h p).history_index
        (ups_Shown n h p inside))

-- From a prompt with no position, `n + 1` presses of the Up key bring up the entry that is `n`
-- before the last one, for each `n` below the length of the history.
pub key_ups-nth_last :
    (n : ℕ) (h : List Text) (p : Prompt)
    → p.history_index ≡ none
    → n < length h
    → get_elem? h (length h - 1 - n) ≡ some (key_ups (suc n) h p).current_command
key_ups-nth_last n h p e lt =
    entry_at h (key_ups (suc n) h p).current_command (key_ups (suc n) h p).history_index
      (length h - 1 - n) (ups_Shown n h p (rw e tt)) (ups_index n h p e lt)

-- A press of the Up key and one of the Down key come back to the same entry: from a position `i`
-- that is not the first and whose entry the prompt shows.
pub key_down-key_up :
    (h : List Text) (i : ℕ) (text : Text)
    → 0 < i
    → i < length h
    → get_elem? h i ≡ some text
    → (let p : Prompt = record { current_command = text; history_index = some i } in
        key_down h (key_up h p) ≡ p)
unfolding key_up key_down
key_down-key_up h i text pos lt e =
    let inside : leb (length h) (i - 1 + 1) ≡ false = ground arith in
    let back_at : i - 1 + 1 ≡ i = omega arith in rw (key_down, inside) (rw back_at (rw e refl))
