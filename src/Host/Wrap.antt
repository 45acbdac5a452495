-- ===== src/Host/Wrap.antt =====
-- The u64 addition of the source against the sum.
use rustybug.Prelude.{
  ℕ, ◌+◌, ◌-◌, ◌^◌, ◌<◌, ◌≡◌, refl, sym, Bool, true, false, ltb, ◌⊎◌, inl, inr, arith, Bool-cases,
  if◌then◌else◌,
}
use rustybug.Prelude.Outcome.{Outcome, ok, panic, ok-injective}
use rustybug.Host.{add_u64}

-- `m` is what is left of `n` in 64 bits, where `n` takes no more than 65.
abbrev pub Wraps : ℕ → ℕ → Type 0
Wraps n m = ((m ≡ n) × (n < 2 ^ 64)) ⊎ (n ≡ m + 2 ^ 64)

pub add_u64-Wraps :
    {E : Type 0} (checks : Bool) (a b m : ℕ)
    → ◌≡◌ {A = Outcome E ℕ} (add_u64 checks a b) (ok m)
    → Wraps (a + b) m
add_u64-Wraps checks a b m h = elim (Bool-cases (ltb (a + b) (2 ^ 64))) [
  | inl fits ↦
      let same : a + b ≡ m = ok-injective (rw (add_u64, fits) at h) in
      inl (sym same, ground (arith, fits))
  | inr over ↦ wrapped checks (rw (add_u64, over) at h) over
]
  where
    wrapped :
        {E : Type 0} (c : Bool)
        → ◌≡◌ {A = Outcome E ℕ} (if c then panic else ok (a + b - 2 ^ 64)) (ok m)
        → ltb (a + b) (2 ^ 64) ≡ false
        → Wraps (a + b) m
    wrapped true e over = absurd (cc e)
    wrapped false e over = let same : a + b - 2 ^ 64 ≡ m = ok-injective e in inr (ground arith)

-- The other way round: such a sum is computed, unless the build checks and it does not fit.
pub Wraps-add_u64 :
    {E : Type 0} (checks : Bool) (a b m : ℕ)
    → Wraps (a + b) m
    → ◌⊎◌
        (◌≡◌ {A = Outcome E ℕ} (add_u64 checks a b) (ok m))
        (◌≡◌ {A = Outcome E ℕ} (add_u64 checks a b) panic)
Wraps-add_u64 checks a b m (inl (same, lt)) =
    let fits : ltb (a + b) (2 ^ 64) ≡ true = ground arith in inl (rw (add_u64, fits) (rw same refl))
Wraps-add_u64 true a b m (inr over) =
    let big : ltb (a + b) (2 ^ 64) ≡ false = ground arith in inr (rw (add_u64, big) refl)
Wraps-add_u64 false a b m (inr over) =
    let big : ltb (a + b) (2 ^ 64) ≡ false = ground arith in
    let rest : a + b - 2 ^ 64 ≡ m = omega arith in inl (rw (add_u64, big) (rw rest refl))
