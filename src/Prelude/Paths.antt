-- ===== src/Prelude/Paths.antt =====
-- Paths as `std::path::Path` compares them on Unix: by their components. A slash at the front is one;
-- empty parts and dots are none, but for a dot at the front of a relative path.
use Prim.Native.Nat.{ℕ}
use mathlib.Core.Path.{◌≡◌, refl, ap}
use mathlib.Core.Bool.{Bool, true, false}
use mathlib.Core.List.{List, [], ◌∷◌, ◌++◌}
use native.Mathlib.Omega.{arith}
use rustybug.Prelude.Tests.{◌==◌, if◌then◌else◌}
use rustybug.Prelude.Texts.{text_eq, text_eq→eq, text_eq_refl}

-- The parts between slashes, with the one that is being read.
unfoldable pub parts_from : List ℕ → List ℕ → List (List ℕ)
parts_from part [] = part ∷ []
parts_from part (c ∷ s) =
    let closed = parts_from [] s in
    let longer = parts_from (part ++ c ∷ []) s in if c == b'/' then part ∷ closed else longer

abbrev is_skipped : List ℕ → Bool
is_skipped [] = true
is_skipped (c ∷ []) = c == b'.'
is_skipped (c ∷ d ∷ s) = false

unfoldable pub kept_parts : List (List ℕ) → List (List ℕ)
kept_parts [] = []
kept_parts (p ∷ ps) = let rest = kept_parts ps in if is_skipped p then rest else p ∷ rest

-- The root, or the dot at the front.
abbrev front : List ℕ → List (List ℕ) → List (List ℕ)
front [] parts = []
front (c ∷ s) [] = []
front (c ∷ s) (p ∷ ps) =
    if c == b'/' then (c ∷ []) ∷ [] else if text_eq p (b'.' ∷ []) then p ∷ [] else []

unfoldable pub components : List ℕ → List (List ℕ)
unfolding parts_from kept_parts text_eq
components path = let parts = parts_from [] path in front path parts ++ kept_parts parts

unfoldable pub texts_eq : List (List ℕ) → List (List ℕ) → Bool
texts_eq [] [] = true
texts_eq (a ∷ s) (b ∷ t) = if text_eq a b then texts_eq s t else false
texts_eq _ _ = false

-- `==` on paths.
unfoldable pub path_eq : List ℕ → List ℕ → Bool
unfolding components texts_eq
path_eq a b = texts_eq (components a) (components b)

texts_eq→eq : (s t : List (List ℕ)) → texts_eq s t ≡ true → s ≡ t
unfolding texts_eq
texts_eq→eq [] [] h = refl
texts_eq→eq (a ∷ s) (b ∷ t) h = ground (arith, text_eq→eq a b, texts_eq→eq s t)
texts_eq→eq [] (b ∷ t) h = cc
texts_eq→eq (a ∷ s) [] h = cc

texts_eq_refl : (s : List (List ℕ)) → texts_eq s s ≡ true
unfolding texts_eq
texts_eq_refl [] = refl
texts_eq_refl (a ∷ s) = rw (text_eq_refl a) (texts_eq_refl s)

pub path_eq→eq : (a b : List ℕ) → path_eq a b ≡ true → components a ≡ components b
unfolding path_eq
path_eq→eq a b h = texts_eq→eq (components a) (components b) h

-- Paths with the same components are told apart by no path.
pub path_eq_same : (k a b : List ℕ) → components a ≡ components b → path_eq k a ≡ path_eq k b
unfolding path_eq
path_eq_same k a b same = ap (λ (cs : List (List ℕ)). texts_eq (components k) cs) same

pub path_eq_self : (a b : List ℕ) → components a ≡ components b → path_eq a b ≡ true
unfolding path_eq
path_eq_self a b same = rw (← same) (texts_eq_refl (components a))
