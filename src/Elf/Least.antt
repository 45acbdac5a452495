-- ===== src/Elf/Least.antt =====
-- The offset at which src/elf.rs takes a position-independent file to be loaded.
use rustybug.Prelude.{
  ℕ, ◌+◌, leb, ◌≤◌, ◌<◌, ◌≡◌, refl, true, none, some, Option, List, [], ◌∷◌, ltb, ◌⊎◌, inl, inr,
  arith, Bool-cases,
}
use rustybug.Prelude.Outcome.{Outcome, err, out_of_fuel, ok, panic}
use rustybug.Host.{sub_u64}
use rustybug.Elf.{
  Segment, least, min_address, or_zero, dynamic, Formats, ExecutableFile, runtime_address_offset,
}

-- `m` is the address of a segment that is not empty.
abbrev pub HasAddress : ℕ → List Segment → Type 0
HasAddress m [] = ⊥
HasAddress m (s ∷ ss) = ((0 < s.size) × (s.address ≡ m)) ⊎ HasAddress m ss

-- No segment that is not empty lies below `m`.
abbrev pub IsLower : ℕ → List Segment → Type 0
IsLower m [] = Unit
IsLower m (s ∷ ss) = ((0 < s.size) → m ≤ s.address) × IsLower m ss

abbrev pub AllEmpty : List Segment → Type 0
AllEmpty [] = Unit
AllEmpty (s ∷ ss) = (s.size ≡ 0) × AllEmpty ss

-- What the minimum over `ss`, started at `acc`, says.
abbrev pub IsMinimum : Option ℕ → List Segment → Option ℕ → Type 0
IsMinimum none ss none = AllEmpty ss
IsMinimum none ss (some m) = HasAddress m ss × IsLower m ss
IsMinimum (some a) ss none = ⊥
IsMinimum (some a) ss (some m) = ((a ≡ m) ⊎ HasAddress m ss) × (m ≤ a) × IsLower m ss

skipped :
    (acc : Option ℕ) (s : Segment) (ss : List Segment) (r : Option ℕ)
    → s.size ≡ 0
    → IsMinimum acc ss r
    → IsMinimum acc (s ∷ ss) r
skipped none s ss none e m = (e, m)
skipped none s ss (some x) e m = (inr m.0, ((λ h. absurd (omega arith)), m.1))
skipped (some a) s ss none e m = m
skipped (some a) s ss (some x) e (inl here, le, low) =
    (inl here, le, ((λ h. absurd (omega arith)), low))
skipped (some a) s ss (some x) e (inr later, le, low) =
    (inr (inr later), le, ((λ h. absurd (omega arith)), low))

taken :
    (acc : Option ℕ) (s : Segment) (ss : List Segment) (r : Option ℕ)
    → 0 < s.size
    → IsMinimum (least acc s.address) ss r
    → IsMinimum acc (s ∷ ss) r
taken none s ss none h m = absurd m
taken none s ss (some x) h (inl e, le, low) = (inl (h, e), ((λ _. le), low))
taken none s ss (some x) h (inr later, le, low) = (inr later, ((λ _. le), low))
taken (some a) s ss none h m = m
taken (some a) s ss (some x) h (inr later, le, low) =
    (inr (inr later), omega arith, ((λ _. omega arith), low))
taken (some a) s ss (some x) h (inl e, le, low) = elim (Bool-cases (ltb s.address a)) [
  | inl below ↦
      let is_it : s.address ≡ x = ground arith in
      (inr (inl (h, is_it)), omega arith, ((λ _. omega arith), low))
  | inr above ↦
      let is_it : a ≡ x = ground arith in (inl is_it, omega arith, ((λ _. omega arith), low))
]

min_address-IsMinimum : (acc : Option ℕ) (ss : List Segment) → IsMinimum acc ss (min_address acc ss)
unfolding min_address
min_address-IsMinimum none [] = tt
min_address-IsMinimum (some a) [] = (inl refl, omega arith, tt)
min_address-IsMinimum acc (s ∷ ss) = elim (Bool-cases (ltb 0 s.size)) [
  | inl full ↦ rw full (
      taken acc s ss (min_address (least acc s.address) ss) (ground arith)
        (min_address-IsMinimum (least acc s.address) ss))
  | inr empty ↦
      rw empty (skipped acc s ss (min_address acc ss) (ground arith) (min_address-IsMinimum acc ss))
]

-- The base of the file: the least address of a segment that is not empty, or 0 if there is none.
abbrev pub IsBase : ℕ → List Segment → Type 0
IsBase m ss = (HasAddress m ss × IsLower m ss) ⊎ (AllEmpty ss × (m ≡ 0))

IsBase-of : (ss : List Segment) (o : Option ℕ) → IsMinimum none ss o → IsBase (or_zero o) ss
IsBase-of ss none m = inr (m, refl)
IsBase-of ss (some x) m = inl m

-- What comes of the subtraction, in a build that checks arithmetic.
abbrev pub IsOffset : {E : Type 0} → ℕ → ℕ → Outcome E ℕ → Type 0
IsOffset base mapped (ok n) = n + base ≡ mapped
IsOffset base mapped (err e) = ⊥
IsOffset base mapped panic = mapped < base
IsOffset base mapped out_of_fuel = ⊥

sub_u64-IsOffset :
    (E : Type 0) (mapped base : ℕ) → IsOffset {E = E} base mapped (sub_u64 true mapped base)
sub_u64-IsOffset E mapped base = elim (Bool-cases (leb base mapped)) [
  | inl le ↦ rw (sub_u64, le) (ground arith)
  | inr gt ↦ rw (sub_u64, gt) (ground arith)
]

module _ {Obj Dwarf Header CompUnit : Type 0} (formats : Formats Obj Dwarf Header CompUnit) where
  -- For a position-independent file in a build that checks arithmetic: the offset that is returned
  -- and the file's base add up to the address that the file is mapped at, and the code panics
  -- exactly where the base is above that address. The base is the least address of a segment that
  -- is not empty, or 0 without one.
  pub runtime_address_offset-IsBase :
      (E : Type 0) (file : ExecutableFile Obj Dwarf) (mapped : ℕ)
      → formats.kind file.elf_file ≡ dynamic
      → (base : ℕ) × IsBase base (formats.segments file.elf_file)
        × IsOffset base mapped (runtime_address_offset formats {E = E} true file mapped)
  unfolding runtime_address_offset
  runtime_address_offset-IsBase E file mapped kind =
      let ss = formats.segments file.elf_file in
      let m = or_zero (min_address none ss) in
      (
        m,
        IsBase-of ss (min_address none ss) (min_address-IsMinimum none ss),
        rw (runtime_address_offset, kind) (sub_u64-IsOffset E mapped m),
      )
