-- ===== src/Prelude/Outcome.antt =====
-- What a Rust call gives: a value, an error, or a panic; a loop that is run on fuel may also be
-- cut short. A method on `&mut self` is an action on
-- the state that it may change; the state comes back after an error and after a panic too.
use mathlib.Core.Option.{Option, none, some}
use mathlib.Core.Path.{◌≡◌, refl}
use mathlib.Core.Logic.{◌≢◌}

pub data Outcome (E A : Type 0) : Type 0 where
  ok : A → Outcome E A
  err : E → Outcome E A
  panic : Outcome E A
  out_of_fuel : Outcome E A

-- `Result::map_err`
abbrev pub map_err : {E F A : Type 0} → (E → F) → Outcome E A → Outcome F A
map_err f (ok a) = ok a
map_err f (err e) = err (f e)
map_err f panic = panic
map_err f out_of_fuel = out_of_fuel

-- `Result::map`
abbrev pub map_ok : {E A B : Type 0} → (A → B) → Outcome E A → Outcome E B
map_ok f (ok a) = ok (f a)
map_ok f (err e) = err e
map_ok f panic = panic
map_ok f out_of_fuel = out_of_fuel

-- `Result::ok`, on a call that does not panic
abbrev pub to_option : {E A : Type 0} → Outcome E A → Option A
to_option (ok a) = some a
to_option _ = none

-- `Option::ok_or`
abbrev pub ok_or : {E A : Type 0} → E → Option A → Outcome E A
ok_or e none = err e
ok_or e (some a) = ok a

-- The `?` operator on plain results.
abbrev pub and_then : {E A B : Type 0} → Outcome E A → (A → Outcome E B) → Outcome E B
and_then (ok a) k = k a
and_then (err e) k = err e
and_then panic k = panic
and_then out_of_fuel k = out_of_fuel

abbrev pub Action : Type 0 → Type 0 → Type 0 → Type 0
Action S E A = S → Outcome E A × S

abbrev pub pure : {S E A : Type 0} → A → Action S E A
pure a s = (ok a, s)

abbrev pub fail : {S E A : Type 0} → E → Action S E A
fail e s = (err e, s)

abbrev pub gets : {S E A : Type 0} → (S → A) → Action S E A
gets f s = (ok (f s), s)

abbrev pub reads : {S E A : Type 0} → (S → Outcome E A) → Action S E A
reads f s = (f s, s)

abbrev pub modify : {S E : Type 0} → (S → S) → Action S E (Unit {0})
modify f s = (ok tt, f s)

abbrev pub run_then : {S E A B : Type 0} → Outcome E A × S → (A → Action S E B) → Outcome E B × S
run_then (ok a, s) f = f a s
run_then (err e, s) f = (err e, s)
run_then (panic, s) f = (panic, s)
run_then (out_of_fuel, s) f = (out_of_fuel, s)

infixl 5 ◌>>=◌ ◌>>◌
abbrev pub ◌>>=◌ : {S E A B : Type 0} → Action S E A → (A → Action S E B) → Action S E B
◌>>=◌ m f s = run_then (m s) f

abbrev pub ◌>>◌ : {S E A B : Type 0} → Action S E A → Action S E B → Action S E B
m >> k = m >>= λ _. k

-- `.map_err(f)` on an action
abbrev pub with_err : {S E F A : Type 0} → (E → F) → Action S E A → Action S F A
with_err f m s = let (r, s') = m s in (map_err f r, s')

-- `if let Err(e) = … { warn!(…) }` and `let _ = …`: the error is dropped, a panic is not.
abbrev pub ignored : {E F A : Type 0} → Outcome E A → Outcome F (Unit {0})
ignored (ok a) = ok tt
ignored (err e) = ok tt
ignored panic = panic
ignored out_of_fuel = out_of_fuel

abbrev pub ignore : {S E F A : Type 0} → Action S E A → Action S F (Unit {0})
ignore m s = let (r, s') = m s in (ignored r, s')

pub ok-injective : {E A : Type 0} {a b : A} → ◌≡◌ {A = Outcome E A} (ok a) (ok b) → a ≡ b
ok-injective e = cc

pub err-ne-ok : {E A : Type 0} {x : E} {a : A} → ◌≢◌ {A = Outcome E A} (err x) (ok a)
err-ne-ok e = cc

-- Inversion of a run that ended well.
pub run_then-eq-ok :
    {S E A B : Type 0} (m : Outcome E A × S) (f : A → Action S E B) (b : B) (s : S)
    → run_then m f ≡ (ok b, s)
    → (a : A) × (s' : S) × (m ≡ (ok a, s')) × (f a s' ≡ (ok b, s))
run_then-eq-ok (ok a, s') f b s e = (a, s', refl, e)
run_then-eq-ok (err x, s') f b s e = cc
run_then-eq-ok (panic, s') f b s e = cc
run_then-eq-ok (out_of_fuel, s') f b s e = cc

-- It ended by returning, with a value or with an error.
abbrev pub Returned : {E A : Type 0} → Outcome E A → Type 0
Returned (ok a) = Unit
Returned (err e) = Unit
Returned panic = ⊥
Returned out_of_fuel = ⊥

-- A call whose error is dropped has returned if the run goes on.
pub ignore-Returned :
    {S E F A : Type 0} (m : Outcome E A × S) (u : Unit {0}) (s : S)
    → ◌≡◌ {A = Outcome F (Unit {0}) × S} (ignored m.0, m.1) (ok u, s)
    → Returned m.0
ignore-Returned (ok a, s') u s e = tt
ignore-Returned (err x, s') u s e = tt
ignore-Returned (panic, s') u s e = cc
ignore-Returned (out_of_fuel, s') u s e = cc

pub and_then-ok :
    {E A B : Type 0} (m : Outcome E A) (k : A → Outcome E B) (b : B)
    → and_then m k ≡ ok b
    → (a : A) × (m ≡ ok a) × (k a ≡ ok b)
and_then-ok (ok a) k b run = (a, refl, run)
and_then-ok (err e) k b run = absurd (err-ne-ok run)
and_then-ok panic k b run = cc
and_then-ok out_of_fuel k b run = cc
