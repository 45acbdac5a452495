-- ===== src/App/History/Keep.antt =====
-- What src/main.rs keeps of the commands: the room it makes and what it stores.
use rustybug.Prelude.{
  ℕ, zero, suc, ◌+◌, ◌-◌, ◌<◌, ◌≤◌, ◌≡◌, ◌≢◌, refl, sym, ap, ◌∙◌, true, none, some, List, [], ◌∷◌,
  ◌++◌, length, length-append, leb, false≢true, arith, Bool-cases, inl, inr, ◌⊎◌,
}
use rustybug.Prelude.Texts.{text_eq→eq, text_eq_refl}
use rustybug.Host.{Text}
use rustybug.App.History.{back, pop_front, make_room, is_last, push_command}

-- The last entries, from position `k` on.
abbrev pub drop_front : ℕ → List Text → List Text
drop_front zero h = h
drop_front (suc k) h = drop_front k (pop_front h)

length-pop_front : (h : List Text) → length (pop_front h) ≡ length h - 1
length-pop_front [] = refl
length-pop_front (x ∷ h) = omega arith

-- With a limit of at least 1 the loop of `make_room` ends, on fuel above the length: the oldest
-- entries are gone, no more of them than it takes.
pub make_room_lem :
    (fuel limit : ℕ) (h : List Text)
    → 0 < limit
    → length h < fuel
    → (k : ℕ) × (make_room fuel limit h ≡ some (drop_front k h))
      × (length (drop_front k h) + k ≡ length h)
      × (k ≡ length h + 1 - limit)
unfolding make_room
make_room_lem zero limit h hl hf = absurd (omega arith)
make_room_lem (suc fuel) limit h hl hf = elim (Bool-cases (leb limit (length h))) [
  | inl full ↦
      let (k, done, total, least) =
        make_room_lem fuel limit (pop_front h) hl (ground (arith, length-pop_front h)) in
      (suc k, rw full done, ground (arith, length-pop_front h), ground (arith, length-pop_front h))
  | inr fits ↦ (zero, rw fits refl, omega arith, ground arith)
]

back-snoc : (h : List Text) (c : Text) → back (h ++ c ∷ []) ≡ some c
back-snoc [] c = refl
back-snoc (x ∷ []) c = refl
back-snoc (x ∷ y ∷ h) c = back-snoc (y ∷ h) c

-- No entry repeats the one before it.
abbrev pub NoRepeats : List Text → Type 0
NoRepeats [] = Unit
NoRepeats (x ∷ []) = Unit
NoRepeats (x ∷ y ∷ h) = (x ≢ y) × NoRepeats (y ∷ h)

NoRepeats-pop_front : (h : List Text) → NoRepeats h → NoRepeats (pop_front h)
NoRepeats-pop_front [] n = tt
NoRepeats-pop_front (x ∷ []) n = tt
NoRepeats-pop_front (x ∷ y ∷ h) n = n.1

NoRepeats-drop_front : (k : ℕ) (h : List Text) → NoRepeats h → NoRepeats (drop_front k h)
NoRepeats-drop_front zero h n = n
NoRepeats-drop_front (suc k) h n = NoRepeats-drop_front k (pop_front h) (NoRepeats-pop_front h n)

NoRepeats-snoc :
    (h : List Text) (c : Text) → NoRepeats h → back h ≢ some c → NoRepeats (h ++ c ∷ [])
NoRepeats-snoc [] c n ne = tt
NoRepeats-snoc (x ∷ []) c n ne = (λ e. ne (ap (λ (t : Text). some t) e), tt)
NoRepeats-snoc (x ∷ y ∷ h) c n ne = (n.0, NoRepeats-snoc (y ∷ h) c n.1 ne)

-- What is left has the last entry it had, unless nothing is left.
back-pop_front : (h : List Text) (c : Text) → back (pop_front h) ≡ some c → back h ≡ some c
back-pop_front [] c e = e
back-pop_front (x ∷ []) c e = cc
back-pop_front (x ∷ y ∷ h) c e = e

back-drop_front :
    (k : ℕ) (h : List Text) (c : Text) → back (drop_front k h) ≡ some c → back h ≡ some c
back-drop_front zero h c e = e
back-drop_front (suc k) h c e = back-pop_front h c (back-drop_front k (pop_front h) c e)

is_last_lem : (c : Text) (h : List Text) → is_last c h ≡ true → back h ≡ some c
is_last_lem c [] e = cc
is_last_lem c (x ∷ []) e = ap (λ (t : Text). some t) (text_eq→eq x c e)
is_last_lem c (x ∷ y ∷ h) e = is_last_lem c (y ∷ h) e

is_last-back : (c : Text) (h : List Text) → back h ≡ some c → is_last c h ≡ true
is_last-back c h e = rw (is_last, e) (text_eq_refl c)

-- The invariant of the history that `App` keeps with `history_len` set to `n`.
pub record IsHistory (n : ℕ) (h : List Text) : Type 0 where
  pub short : length h < n
  pub no_repeats : NoRepeats h

-- The history is left as it was, or its oldest entries are dropped and the command is added.
abbrev pub Stores : List Text → Text → List Text → Type 0
Stores h command h' = (h' ≡ h) ⊎ ((k : ℕ) × (h' ≡ drop_front k h ++ command ∷ []))

-- If `history_len` is at least 2 and the history is shorter than that and has no entry that repeats
-- the one before it, storing a command ends on fuel above the history's length; the new history is
-- again so, its last entry is the command, it is no shorter than before, and it is the old one, or
-- the old one without some of its oldest entries and with the command at the end.
pub push_command-IsHistory :
    (fuel n : ℕ) (command : Text) (h : List Text)
    → 2 ≤ n
    → IsHistory n h
    → length h < fuel
    → (h' : List Text) × (push_command fuel n command h ≡ some h')
      × IsHistory n h'
      × (back h' ≡ some command)
      × (length h ≤ length h')
      × Stores h command h'
unfolding push_command
push_command-IsHistory fuel n command h hn inv hf = elim (Bool-cases (is_last command h)) [
  | inl same ↦ (h, rw same refl, inv, is_last_lem command h same, omega arith, inl refl)
  | inr new ↦
      let (k, done, total, least) = make_room_lem fuel (n - 1) h (omega arith) hf in
      let room = drop_front k h in
      let count = length-append room (command ∷ []) in
      let short = inv.short in
      (
        room ++ command ∷ [],
        rw new (rw done refl),
        record {
          short = omega arith;
          no_repeats =
              NoRepeats-snoc room command (NoRepeats-drop_front k h inv.no_repeats) (λ e.
                false≢true (sym new ∙ is_last-back command h (back-drop_front k h command e)));
        },
        back-snoc room command,
        omega arith,
        inr (k, refl),
      )
]

make_room_stuck : (fuel : ℕ) (h : List Text) → make_room fuel 0 h ≡ none
unfolding make_room
make_room_stuck zero h = refl
make_room_stuck (suc fuel) h = ground (arith, make_room_stuck fuel (pop_front h))

-- With `history_len` set to 1, storing a command that does not repeat the last one does not end: no
-- fuel is enough.
pub push_command_stuck :
    (fuel : ℕ) (command : Text) (h : List Text)
    → back h ≢ some command
    → push_command fuel 1 command h ≡ none
unfolding push_command
push_command_stuck fuel command h ne = elim (Bool-cases (is_last command h)) [
  | inl same ↦ absurd (ne (is_last_lem command h same))
  | inr new ↦ rw new (rw (make_room_stuck fuel h) refl)
]
