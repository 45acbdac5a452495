-- ===== src/Elf/Lookup/Contains.antt =====
-- The lookup of src/elf.rs by address: what it finds contains the address.
use rustybug.Prelude.{
  ℕ, ◌≤◌, ◌<◌, ◌≡◌, refl, ap, subst, ◌∙◌, false≢true, Bool, true, false, none, some, some-injective,
  Option, List, [], ◌∷◌, ◌==◌, if◌then◌else◌, inl, inr, arith, Bool-cases,
}
use rustybug.Prelude.Outcome.{
  and_then-ok, Outcome, ok, err, panic, out_of_fuel, map_ok, ok-injective, err-ne-ok,
}
use rustybug.Elf.{
  ObjectError, Die, Range, ReadError, Formats, ExecutableFile, dw_tag_subprogram, in_range,
}
use rustybug.Elf.Lookup.{
  any_range, covers, unit_in, compile_unit_containing_address, spans, function_in,
  function_containing_address,
}
use rustybug.Elf.Lookup.Spans.{IsLow, IsHigh, spans-Bounds}
use rustybug.Elf.Lookup.Sound.{Among}

-- One of the ranges holds the address.
abbrev pub HasRange : ℕ → List (Outcome ReadError Range) → Type 0
HasRange address rs = (r : Range) × Among r rs × (r.begin ≤ address) × (address < r.end)

any_range-HasRange :
    (address : ℕ) (rs : List (Outcome ReadError Range))
    → any_range address rs ≡ true
    → HasRange address rs
unfolding any_range
any_range-HasRange address [] h = cc
any_range-HasRange address (ok r ∷ rs) h = elim (Bool-cases (in_range r.begin r.end address)) [
  | inl inside ↦ (r, inl refl, ground arith, ground arith)
  | inr outside ↦
      let (r', among, low, high) = any_range-HasRange address rs (rw outside at h) in
      (r', inr among, low, high)
]
any_range-HasRange address (err e ∷ rs) h = cc
any_range-HasRange address (panic ∷ rs) h = cc
any_range-HasRange address (out_of_fuel ∷ rs) h = cc

module _ {Obj Dwarf Header CompUnit : Type 0} (formats : Formats Obj Dwarf Header CompUnit)
    (checks : Bool) where
  -- A function of the unit that holds the address, by its entry's attributes.
  pub record HasFunction (u : CompUnit) (address offset : ℕ) : Type 0 where
    pub die : Die
    pub low : ℕ
    pub high : ℕ
    pub among : Among die (formats.entries u)
    pub at : die.offset ≡ offset
    pub subprogram : die.tag ≡ dw_tag_subprogram
    pub low_pc : IsLow die.low_pc low
    pub high_pc : IsHigh low die.high_pc high
    pub above : low ≤ address
    pub below : address < high

  -- A unit of the file that holds the address.
  abbrev pub HasUnit : Dwarf → ℕ → CompUnit → Type 0
  HasUnit dwarf address u =
      (header : Header) × (ranges : List (Outcome ReadError Range)) × Among header
        (formats.units dwarf)
      × (formats.unit dwarf header ≡ ok u)
      × (formats.unit_ranges dwarf u ≡ ok ranges)
      × HasRange address ranges

  covers-HasRange :
      (dwarf : Dwarf) (address : ℕ) (u : CompUnit)
      (o : Outcome ReadError (List (Outcome ReadError Range)))
      → formats.unit_ranges dwarf u ≡ o
      → covers formats checks dwarf address u ≡ true
      → (ranges : List (Outcome ReadError Range)) × (formats.unit_ranges dwarf u ≡ ok ranges)
        × HasRange address ranges
  covers-HasRange dwarf address u (ok rs) e h =
      (rs, e, any_range-HasRange address rs (rw (covers, e) at h))
  covers-HasRange dwarf address u (err x) e h = absurd (false≢true (rw (covers, e) at h))
  covers-HasRange dwarf address u panic e h = absurd (false≢true (rw (covers, e) at h))
  covers-HasRange dwarf address u out_of_fuel e h = absurd (false≢true (rw (covers, e) at h))

  -- By whether the entry holds the address.
  hit_or_next :
      (u : CompUnit) (address offset : ℕ) (die : Die) (ds : List (Outcome ReadError Die))
      (hit : Bool)
      → Among die (formats.entries u)
      → die.tag ≡ dw_tag_subprogram
      → spans formats checks address die ≡ ok hit
      → (if hit then ok (some die.offset) else function_in formats checks address ds)
        ≡ ok (some offset)
      → (function_in formats checks address ds ≡ ok (some offset) → HasFunction u address offset)
      → HasFunction u address offset
  hit_or_next u address offset die ds false among fun e run next = next run
  hit_or_next u address offset die ds true among fun e run next =
      let (low, high, low_pc, high_pc, above, below) = spans-Bounds formats checks address die e in
      record {
        die = die;
        low = low;
        high = high;
        among = among;
        at = some-injective die.offset offset (ok-injective run);
        subprogram = fun;
        low_pc = low_pc;
        high_pc = high_pc;
        above = above;
        below = below;
      }

  function_in-HasFunction :
      (u : CompUnit) (address offset : ℕ) (ds : List (Outcome ReadError Die))
      → ((d : Die) → Among d ds → Among d (formats.entries u))
      → function_in formats checks address ds ≡ ok (some offset)
      → HasFunction u address offset
  unfolding function_in
  function_in-HasFunction u address offset [] sub run = absurd (cc run)
  function_in-HasFunction u address offset (ok die ∷ ds) sub run =
      let next = function_in-HasFunction u address offset ds (λ d a. sub d (inr a)) in
      elim (Bool-cases (die.tag == dw_tag_subprogram)) [
        | inr other_tag ↦ next (rw other_tag at run)
        | inl fun ↦
            let (hit, e, rest) =
              and_then-ok (spans formats checks address die)
                (λ hit. if hit then ok (some die.offset) else function_in formats checks address ds)
                (some offset) (rw fun at run) in
            hit_or_next u address offset die ds hit (sub die (inl refl)) (ground arith) e rest next
      ]
  function_in-HasFunction u address offset (err e ∷ ds) sub run = absurd (err-ne-ok run)
  function_in-HasFunction u address offset (panic ∷ ds) sub run = absurd (err-ne-ok run)
  function_in-HasFunction u address offset (out_of_fuel ∷ ds) sub run = absurd (err-ne-ok run)

  -- By how the unit of the next header is read.
  unit_or_next :
      (dwarf : Dwarf) (address : ℕ) (header : Header) (hs : List (Outcome ReadError Header))
      (u : CompUnit) (o : Outcome ReadError CompUnit)
      → Among header (formats.units dwarf)
      → formats.unit dwarf header ≡ o
      → (elim o as (λ _. Option CompUnit) [
        | ok v ↦
            if covers formats checks dwarf address v
            then some v
            else unit_in formats checks dwarf address hs
        | _ ↦ unit_in formats checks dwarf address hs
      ])
        ≡ some u
      → (unit_in formats checks dwarf address hs ≡ some u → HasUnit dwarf address u)
      → HasUnit dwarf address u
  unit_or_next dwarf address header hs u (ok v) among e run next =
      elim (Bool-cases (covers formats checks dwarf address v)) [
        | inr apart ↦ next (rw apart at run)
        | inl inside ↦
            let same : v ≡ u = some-injective v u (rw inside at run) in
            let (ranges, at, has) =
              covers-HasRange dwarf address v (formats.unit_ranges dwarf v) refl inside in
            (
              header,
              ranges,
              among,
              e ∙ ap (λ (x : CompUnit). ok x) same,
              subst (λ (x : CompUnit). formats.unit_ranges dwarf x ≡ ok ranges) same at,
              has,
            )
      ]
  unit_or_next dwarf address header hs u (err x) among e run next = next run
  unit_or_next dwarf address header hs u panic among e run next = next run
  unit_or_next dwarf address header hs u out_of_fuel among e run next = next run

  pub unit_in-HasUnit :
      (dwarf : Dwarf) (address : ℕ) (u : CompUnit) (hs : List (Outcome ReadError Header))
      → ((h : Header) → Among h hs → Among h (formats.units dwarf))
      → unit_in formats checks dwarf address hs ≡ some u
      → HasUnit dwarf address u
  unfolding unit_in
  unit_in-HasUnit dwarf address u [] sub run = cc
  unit_in-HasUnit dwarf address u (ok header ∷ hs) sub run =
      unit_or_next dwarf address header hs u (formats.unit dwarf header) (sub header (inl refl))
        refl run (unit_in-HasUnit dwarf address u hs (λ h a. sub h (inr a)))
  unit_in-HasUnit dwarf address u (err e ∷ hs) sub run = cc
  unit_in-HasUnit dwarf address u (panic ∷ hs) sub run = cc
  unit_in-HasUnit dwarf address u (out_of_fuel ∷ hs) sub run = cc

  -- What was found in the unit, if anything, as `function_containing_address` gives it.
  abbrev pub found_in : CompUnit → Option ℕ → Option (CompUnit × ℕ)
  found_in cu found = elim found [ none ↦ none | some offset ↦ some (cu, offset) ]

  found_in_lem :
      (cu u : CompUnit) (address offset : ℕ) (r : Outcome ObjectError (Option ℕ))
      → map_ok (found_in cu) r ≡ ok (some (u, offset))
      → (r ≡ ok (some offset)) × (cu ≡ u)
  found_in_lem cu u address offset (ok none) run = absurd (cc run)
  found_in_lem cu u address offset (ok (some n)) run =
      let same = some-injective (cu, n) (u, offset) (ok-injective run) in
      (ap (λ (k : ℕ). ok (some k)) (λ i. (same i).1), λ i. (same i).0)
  found_in_lem cu u address offset (err e) run = absurd (cc run)
  found_in_lem cu u address offset panic run = absurd (cc run)
  found_in_lem cu u address offset out_of_fuel run = absurd (cc run)

  in_unit :
      (file : ExecutableFile Obj Dwarf) (u : CompUnit) (address offset : ℕ) (o : Option CompUnit)
      → compile_unit_containing_address formats checks file address ≡ o
      → function_containing_address formats checks file address ≡ ok (some (u, offset))
      → HasUnit file.dwarf address u × HasFunction u address offset
  unfolding function_containing_address
  in_unit file u address offset none e run =
      absurd (cc (rw (function_containing_address, e) at run))
  in_unit file u address offset (some cu) e run =
      let (inside, same) =
        found_in_lem cu u address offset (function_in formats checks address (formats.entries cu))
          (rw (function_containing_address, e) at run) in
      let unit = unit_in-HasUnit file.dwarf address cu (formats.units file.dwarf) (λ h a. a) e in
      let fun = function_in-HasFunction cu address offset (formats.entries cu) (λ d a. a) inside in
      (
        subst (HasUnit file.dwarf address) same unit,
        subst (λ (x : CompUnit). HasFunction x address offset) same fun,
      )

  -- If `function_containing_address` returns an entry, then its unit is one of the file's and has a
  -- range that holds the address, and the entry is among those of the unit, tagged as a subprogram,
  -- and the address is at or above its low program counter and below its high one: the low one is the
  -- attribute's address, or 0 where it is no address, and the high one is the attribute's address, or
  -- the low one and the attribute's length on 64 bits.
  pub function_containing_address-HasFunction :
      (file : ExecutableFile Obj Dwarf) (u : CompUnit) (address offset : ℕ)
      → function_containing_address formats checks file address ≡ ok (some (u, offset))
      → HasUnit file.dwarf address u × HasFunction u address offset
  function_containing_address-HasFunction file u address offset run =
      in_unit file u address offset (compile_unit_containing_address formats checks file address)
        refl run
