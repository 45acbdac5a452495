-- ===== src/App/Draw/Within.antt =====
-- Where src/main.rs draws: ratatui answers with a panic what is drawn outside the frame.
use rustybug.Prelude.{
  ℕ, ◌+◌, ◌≤◌, ◌<◌, ◌≡◌, refl, false, List, [], ◌∷◌, All, All-append, length, arith, Bool-cases,
  ◌⊎◌, inl, inr,
}
use mathlib.Core.List.{append-nil}
use rustybug.App.{App}
use rustybug.App.Draw.{Rect, Layout, Areas, Drawn, vertical, render, popup_area, draw}

-- The first area is part of the second.
pub record IsWithin (inner outer : Rect) : Type 0 where
  pub left : outer.x ≤ inner.x
  pub top : outer.y ≤ inner.y
  pub right : inner.x + inner.width ≤ outer.x + outer.width
  pub bottom : inner.y + inner.height ≤ outer.y + outer.height

IsWithin-refl : (r : Rect) → IsWithin r r
IsWithin-refl r = omega arith

IsWithin-trans : (a b c : Rect) → IsWithin a b → IsWithin b c → IsWithin a c
IsWithin-trans a b c h k =
    let left = h.left in
    let left' = k.left in
    let top = h.top in
    let top' = k.top in
    let right = h.right in
    let right' = k.right in
    let bottom = h.bottom in
    let bottom' = k.bottom in
    record { left = omega arith; top = omega arith; right = omega arith; bottom = omega arith }

-- What ratatui documents of a split: its areas are parts of the area that is split, one for each
-- constraint, and those of a vertical split lie below one another.
pub record Splits (areas : Areas) : Type 0 where
  pub within :
      (l : Layout) (area : Rect) (i : ℕ) → i < length l.constraints → IsWithin (areas l area i) area
  pub below :
      (l : Layout) (area : Rect) (i j : ℕ)
      → l.direction ≡ vertical
      → i < j
      → j < length l.constraints
      → (areas l area i).y + (areas l area i).height ≤ (areas l area j).y

-- It is drawn within the area.
abbrev pub Inside : Rect → Drawn → Type 0
Inside area d = IsWithin d.1 area

-- One of the two ends above the other.
abbrev pub Apart : Drawn → Drawn → Type 0
Apart d e = (d.1.y + d.1.height ≤ e.1.y) ⊎ (e.1.y + e.1.height ≤ d.1.y)

abbrev pub AllApart : List Drawn → Type 0
AllApart [] = Unit
AllApart (d ∷ ds) = All (Apart d) ds × AllApart ds

module _ {Obj Dwarf : Type 0} (areas : Areas) (splits : Splits areas) where
  render-IsWithin : (a : App Obj Dwarf) (area : Rect) → All (Inside area) (render areas a area)
  unfolding render
  render-IsWithin a area = elim (Bool-cases a.show_logs) [
    | inl logs ↦ rw logs (
      splits.within _ area 1 (omega arith),
      (splits.within _ area 0 (omega arith), (splits.within _ area 2 (omega arith), tt)),
    )
    | inr hidden ↦
        rw hidden (splits.within _ area 0 (omega arith), (splits.within _ area 1 (omega arith), tt))
  ]

  render-AllApart : (a : App Obj Dwarf) (area : Rect) → AllApart (render areas a area)
  unfolding render
  render-AllApart a area = elim (Bool-cases a.show_logs) [
    | inl logs ↦ rw logs (
      (
        inr (splits.below _ area 0 1 refl (omega arith) (omega arith)),
        (inl (splits.below _ area 1 2 refl (omega arith) (omega arith)), tt),
      ),
      ((inl (splits.below _ area 0 2 refl (omega arith) (omega arith)), tt), (tt, tt)),
    )
    | inr hidden ↦
        rw hidden ((inl (splits.below _ area 0 1 refl (omega arith) (omega arith)), tt), (tt, tt))
  ]

  draw-IsWithin : (a : App Obj Dwarf) (area : Rect) → All (Inside area) (draw areas a area)
  unfolding draw popup_area
  draw-IsWithin a area = elim (Bool-cases a.show_help) [
    | inl help ↦ rw help (
        All-append (Inside area) (render areas a area) _ (render-IsWithin a area) (
          IsWithin-trans _ _ area (splits.within _ _ 0 (omega arith))
              (splits.within _ area 0 (omega arith)),
          (IsWithin-refl area, tt),
        ))
    | inr plain ↦
        rw plain (All-append (Inside area) (render areas a area) [] (render-IsWithin a area) tt)
  ]

  -- What `draw` draws without the help overlaps nowhere.
  plain-AllApart :
      (a : App Obj Dwarf) (area : Rect) → a.show_help ≡ false → AllApart (draw areas a area)
  unfolding draw
  plain-AllApart a area plain =
      rw (plain, append-nil (render areas a area)) (render-AllApart a area)

  -- If the areas of a split are parts of the area that is split, those of a vertical one below one
  -- another, then whatever `draw` draws is within the frame, and without the help no two of the
  -- things drawn overlap: of each two, one ends above the other.
  pub draw_apart :
      (a : App Obj Dwarf) (area : Rect)
      → All (Inside area) (draw areas a area)
        × AllApart (draw areas (record a { show_help = false }) area)
  draw_apart a area =
      (draw-IsWithin a area, plain-AllApart (record a { show_help = false }) area refl)
