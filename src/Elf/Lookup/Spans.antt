-- ===== src/Elf/Lookup/Spans.antt =====
-- The addresses that an entry of src/elf.rs spans, by its attributes.
use rustybug.Prelude.{
  ℕ, ◌+◌, ◌≤◌, ◌<◌, ◌≡◌, ◌≢◌, refl, sym, Bool, true, Option, none, some, ◌⊎◌, inl, inr, arith,
}
use rustybug.Prelude.Outcome.{and_then-ok, Outcome, ok, err, panic, out_of_fuel, ok-injective}
use rustybug.Host.Wrap.{Wraps, add_u64-Wraps, Wraps-add_u64}
use rustybug.Elf.{
  ObjectError, Die, ReadError, AttributeValue, addr, udata, debug_str_ref, other, Formats, in_range,
  addr_or_zero,
}
use rustybug.Elf.Lookup.{high_of, spans}

-- The low program counter: the attribute's address, or 0 where it is no address.
abbrev pub IsLow : Outcome ReadError (Option AttributeValue) → ℕ → Type 0
IsLow v low = (v ≡ ok (some (addr low))) ⊎ ((low ≡ 0) × ((x : ℕ) → v ≢ ok (some (addr x))))

-- The high one: a length above the low one, or an address.
abbrev pub IsHigh : ℕ → Outcome ReadError (Option AttributeValue) → ℕ → Type 0
IsHigh low v high =
    ((x : ℕ) × (v ≡ ok (some (udata x))) × Wraps (low + x) high) ⊎ (v ≡ ok (some (addr high)))

addr_or_zero-IsLow : (v : Outcome ReadError (Option AttributeValue)) → IsLow v (addr_or_zero v)
addr_or_zero-IsLow (ok (some (addr x))) = inl refl
addr_or_zero-IsLow (ok (some (udata x))) = inr (refl, λ y e. cc e)
addr_or_zero-IsLow (ok (some (debug_str_ref x))) = inr (refl, λ y e. cc e)
addr_or_zero-IsLow (ok (some other)) = inr (refl, λ y e. cc e)
addr_or_zero-IsLow (ok none) = inr (refl, λ y e. cc e)
addr_or_zero-IsLow (err x) = inr (refl, λ y e. cc e)
addr_or_zero-IsLow panic = inr (refl, λ y e. cc e)
addr_or_zero-IsLow out_of_fuel = inr (refl, λ y e. cc e)

IsLow-addr_or_zero :
    (v : Outcome ReadError (Option AttributeValue)) (low : ℕ) → IsLow v low → addr_or_zero v ≡ low
IsLow-addr_or_zero v low (inl e) = rw e refl
IsLow-addr_or_zero (ok (some (addr x))) low (inr (zero, never)) = absurd (never x refl)
IsLow-addr_or_zero (ok (some (udata x))) low (inr (zero, never)) = sym zero
IsLow-addr_or_zero (ok (some (debug_str_ref x))) low (inr (zero, never)) = sym zero
IsLow-addr_or_zero (ok (some other)) low (inr (zero, never)) = sym zero
IsLow-addr_or_zero (ok none) low (inr (zero, never)) = sym zero
IsLow-addr_or_zero (err x) low (inr (zero, never)) = sym zero
IsLow-addr_or_zero panic low (inr (zero, never)) = sym zero
IsLow-addr_or_zero out_of_fuel low (inr (zero, never)) = sym zero

module _ {Obj Dwarf Header CompUnit : Type 0} (formats : Formats Obj Dwarf Header CompUnit)
    (checks : Bool) where
  -- Where there is no high program counter the code takes 0, which no address is below.
  high_of-IsHigh :
      (low address high : ℕ) (v : Outcome ReadError (Option AttributeValue))
      → address < high
      → high_of formats checks low v ≡ ok high
      → IsHigh low v high
  high_of-IsHigh low address high (ok (some (udata x))) lt h =
      inl (x, refl, add_u64-Wraps {E = ObjectError} checks low x high h)
  high_of-IsHigh low address high (ok (some (addr x))) lt h =
      let same : x ≡ high = ok-injective h in inr (rw same refl)
  high_of-IsHigh low address high (ok (some (debug_str_ref x))) lt h =
      let nought : 0 ≡ high = ok-injective h in absurd (omega arith)
  high_of-IsHigh low address high (ok (some other)) lt h =
      let nought : 0 ≡ high = ok-injective h in absurd (omega arith)
  high_of-IsHigh low address high (ok none) lt h =
      let nought : 0 ≡ high = ok-injective h in absurd (omega arith)
  high_of-IsHigh low address high (err x) lt h =
      let nought : 0 ≡ high = ok-injective h in absurd (omega arith)
  high_of-IsHigh low address high panic lt h =
      let nought : 0 ≡ high = ok-injective h in absurd (omega arith)
  high_of-IsHigh low address high out_of_fuel lt h =
      let nought : 0 ≡ high = ok-injective h in absurd (omega arith)

  pub spans-Bounds :
      (address : ℕ) (die : Die)
      → spans formats checks address die ≡ ok true
      → (low : ℕ) × (high : ℕ) × IsLow die.low_pc low
        × IsHigh low die.high_pc high
        × (low ≤ address)
        × (address < high)
  spans-Bounds address die h =
      let low = addr_or_zero die.low_pc in
      let (high, e, inside) =
        and_then-ok (high_of formats checks low die.high_pc)
          (λ high. ok (in_range low high address)) true h in
      let range = ok-injective inside in
      let below : address < high = ground arith in
      (
        low,
        high,
        addr_or_zero-IsLow die.low_pc,
        high_of-IsHigh low address high die.high_pc below e,
        ground arith,
        below,
      )

  IsHigh-high_of :
      (low high : ℕ) (v : Outcome ReadError (Option AttributeValue))
      → IsHigh low v high
      → (high_of formats checks low v ≡ ok high) ⊎ (high_of formats checks low v ≡ panic)
  IsHigh-high_of low high v (inl (x, e, wraps)) = rw e (Wraps-add_u64 checks low x high wraps)
  IsHigh-high_of low high v (inr e) = inl (rw e refl)

  -- An entry that spans the address is found to, or the build panics at the overflow of its length.
  pub Bounds-spans :
      (address low high : ℕ) (die : Die)
      → IsLow die.low_pc low
      → IsHigh low die.high_pc high
      → low ≤ address
      → address < high
      → (spans formats checks address die ≡ ok true) ⊎ (spans formats checks address die ≡ panic)
  Bounds-spans address low high die is_low is_high above below =
      let at : addr_or_zero die.low_pc ≡ low = IsLow-addr_or_zero die.low_pc low is_low in
      let inside : in_range low high address ≡ true = ground arith in
      elim (IsHigh-high_of low high die.high_pc is_high) [
        | inl e ↦ inl (rw (spans, at, e, inside) refl)
        | inr e ↦ inr (rw (spans, at, e) refl)
      ]
