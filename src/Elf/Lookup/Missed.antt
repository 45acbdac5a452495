-- ===== src/Elf/Lookup/Missed.antt =====
-- The lookup of src/elf.rs by address: what it misses.
use rustybug.Prelude.{◌⊎◌}
use rustybug.Prelude.{
  ℕ, ◌≡◌, refl, ap, ◌∙◌, Bool, true, none, some, Option, List, [], ◌∷◌, ◌==◌, if◌then◌else◌, inl,
  inr, arith, Bool-cases,
}
use rustybug.Prelude.Outcome.{
  and_then-ok, Outcome, ok, err, panic, out_of_fuel, map_ok, ok-injective, err-ne-ok,
}
use rustybug.Elf.{
  ObjectError, Die, Range, ReadError, Formats, ExecutableFile, dw_tag_subprogram, in_range,
}
use rustybug.Elf.Lookup.{
  any_range, covers, unit_in, compile_unit_containing_address, spans, function_in,
  function_containing_address,
}
use rustybug.Elf.Lookup.Spans.{Bounds-spans}
use rustybug.Elf.Lookup.Sound.{Among}
use rustybug.Elf.Lookup.Complete.{Readable}
use rustybug.Elf.Lookup.Contains.{HasRange, HasFunction, HasUnit, found_in, unit_in-HasUnit}

any_range-true :
    (address : ℕ) (rs : List (Outcome ReadError Range))
    → Readable rs
    → HasRange address rs
    → any_range address rs ≡ true
unfolding any_range
any_range-true address [] all (r, among, low, high) = absurd among
any_range-true address (ok r' ∷ rs) all (r, inl here, low, high) =
    let same : r' ≡ r = ok-injective here in
    let inside : in_range r'.begin r'.end address ≡ true = rw same (ground arith) in rw inside refl
any_range-true address (ok r' ∷ rs) all (r, inr later, low, high) =
    let rest = any_range-true address rs all (r, later, low, high) in
    elim (Bool-cases (in_range r'.begin r'.end address)) [
      | inl inside ↦ rw inside refl
      | inr outside ↦ rw outside rest
    ]
any_range-true address (err e ∷ rs) all has = absurd all
any_range-true address (panic ∷ rs) all has = absurd all
any_range-true address (out_of_fuel ∷ rs) all has = absurd all

module _ {Obj Dwarf Header CompUnit : Type 0} (formats : Formats Obj Dwarf Header CompUnit)
    (checks : Bool) where
  covers-true :
      (dwarf : Dwarf) (address : ℕ) (u : CompUnit) (ranges : List (Outcome ReadError Range))
      → formats.unit_ranges dwarf u ≡ ok ranges
      → Readable ranges
      → HasRange address ranges
      → covers formats checks dwarf address u ≡ true
  covers-true dwarf address u ranges e all has =
      rw (covers, e) (any_range-true address ranges all has)

  -- What is done with the unit of the next header.
  abbrev unit_step :
      Dwarf → ℕ → List (Outcome ReadError Header) → Outcome ReadError CompUnit → Option CompUnit
  unit_step dwarf address hs o = elim o [
    | ok v ↦
        if covers formats checks dwarf address v
        then some v
        else unit_in formats checks dwarf address hs
    | _ ↦ unit_in formats checks dwarf address hs
  ]

  unit_step-some :
      (dwarf : Dwarf) (address : ℕ) (hs : List (Outcome ReadError Header)) (v : CompUnit)
      (o : Outcome ReadError CompUnit)
      → unit_in formats checks dwarf address hs ≡ some v
      → (v' : CompUnit) × (unit_step dwarf address hs o ≡ some v')
  unit_step-some dwarf address hs v (ok w) rest =
      elim (Bool-cases (covers formats checks dwarf address w)) [
        | inl inside ↦ (w, rw inside refl)
        | inr outside ↦ (v, rw outside rest)
      ]
  unit_step-some dwarf address hs v (err e) rest = (v, rest)
  unit_step-some dwarf address hs v panic rest = (v, rest)
  unit_step-some dwarf address hs v out_of_fuel rest = (v, rest)

  unit_in-some :
      (dwarf : Dwarf) (address : ℕ) (header : Header) (u : CompUnit)
      (hs : List (Outcome ReadError Header))
      → Readable hs
      → Among header hs
      → formats.unit dwarf header ≡ ok u
      → covers formats checks dwarf address u ≡ true
      → (v : CompUnit) × (unit_in formats checks dwarf address hs ≡ some v)
  unfolding unit_in
  unit_in-some dwarf address header u [] all among e inside = absurd among
  unit_in-some dwarf address header u (ok h ∷ hs) all (inl here) e inside =
      let read : formats.unit dwarf h ≡ ok u =
        ap (λ (x : Header). formats.unit dwarf x) (ok-injective here) ∙ e in
      (u, rw (unit_in, read, inside) refl)
  unit_in-some dwarf address header u (ok h ∷ hs) all (inr later) e inside =
      let (v, rest) = unit_in-some dwarf address header u hs all later e inside in
      unit_step-some dwarf address hs v (formats.unit dwarf h) rest
  unit_in-some dwarf address header u (err x ∷ hs) all among e inside = absurd all
  unit_in-some dwarf address header u (panic ∷ hs) all among e inside = absurd all
  unit_in-some dwarf address header u (out_of_fuel ∷ hs) all among e inside = absurd all

  -- An entry that spans the address is not passed over: it is found, or the build panics at it.
  function_in-none :
      (address : ℕ) (die : Die) (ds : List (Outcome ReadError Die))
      → Among die ds
      → die.tag ≡ dw_tag_subprogram
      → (spans formats checks address die ≡ ok true) ⊎ (spans formats checks address die ≡ panic)
      → function_in formats checks address ds ≡ ok none
      → ⊥
  unfolding function_in
  function_in-none address die [] among fun spanned run = among
  function_in-none address die (ok d ∷ ds) (inl here) fun spanned run =
      let same : d ≡ die = ok-injective here in
      let tagged : (d.tag == dw_tag_subprogram) ≡ true = rw (same, fun) refl in
      elim spanned [
        | inl found ↦
            let hit : spans formats checks address d ≡ ok true = rw same found in
            cc (rw (tagged, hit) at run)
        | inr over ↦
            let stop : spans formats checks address d ≡ panic = rw same over in
            cc (rw (tagged, stop) at run)
      ]
  function_in-none address die (ok d ∷ ds) (inr later) fun spanned run =
      elim (Bool-cases (d.tag == dw_tag_subprogram)) [
        | inr other ↦ function_in-none address die ds later fun spanned (rw other at run)
        | inl tagged ↦
            let (hit, _, rest) =
              and_then-ok (spans formats checks address d)
                (λ hit. if hit then ok (some d.offset) else function_in formats checks address ds)
                none (rw tagged at run) in
            elim (Bool-cases hit) [
              | inl here ↦ cc (rw here at rest)
              | inr apart ↦ function_in-none address die ds later fun spanned (rw apart at rest)
            ]
      ]
  function_in-none address die (err e ∷ ds) among fun spanned run = err-ne-ok run
  function_in-none address die (panic ∷ ds) among fun spanned run = err-ne-ok run
  function_in-none address die (out_of_fuel ∷ ds) among fun spanned run = err-ne-ok run

  none-HasFunction :
      (u : CompUnit) (address offset : ℕ)
      → function_in formats checks address (formats.entries u) ≡ ok none
      → ¬ HasFunction formats checks u address offset
  none-HasFunction u address offset run f =
      function_in-none address f.die (formats.entries u) f.among f.subprogram
        (Bounds-spans formats checks address f.low f.high f.die f.low_pc f.high_pc f.above f.below)
        run

  -- The unit that was looked through, which holds the address and has no function that does.
  abbrev pub Misses : ExecutableFile Obj Dwarf → ℕ → Type 0
  Misses file address =
      (v : CompUnit) × (compile_unit_containing_address formats checks file address ≡ some v)
      × HasUnit formats checks file.dwarf address v
      × ((offset : ℕ) → ¬ HasFunction formats checks v address offset)

  none_in :
      (u : CompUnit) (r : Outcome ObjectError (Option ℕ))
      → map_ok (found_in formats checks u) r ≡ ok none
      → r ≡ ok none
  none_in u (ok none) run = refl
  none_in u (ok (some n)) run = absurd (cc run)
  none_in u (err e) run = absurd (err-ne-ok run)
  none_in u panic run = absurd (cc run)
  none_in u out_of_fuel run = absurd (cc run)

  -- If `function_containing_address` answers that there is no function, though the header of a unit
  -- that has a range with the address, that unit, its ranges and all headers of the file can be read,
  -- then there is a unit that was looked through, the one that `compile_unit_containing_address`
  -- gives; it has a range with the address too, and no function of it holds the address. So a
  -- function that holds the address is missed only if it is in another unit.
  pub function_containing_address-Misses :
      (file : ExecutableFile Obj Dwarf) (address : ℕ) (header : Header) (u : CompUnit)
      (ranges : List (Outcome ReadError Range))
      → Readable (formats.units file.dwarf)
      → Among header (formats.units file.dwarf)
      → formats.unit file.dwarf header ≡ ok u
      → formats.unit_ranges file.dwarf u ≡ ok ranges
      → Readable ranges
      → HasRange address ranges
      → function_containing_address formats checks file address ≡ ok none
      → Misses file address
  unfolding function_containing_address compile_unit_containing_address
  function_containing_address-Misses file address header u ranges all among e at read has run =
      let inside = covers-true file.dwarf address u ranges at read has in
      let (v, chosen) =
        unit_in-some file.dwarf address header u (formats.units file.dwarf) all among e inside in
      (
        v,
        chosen,
        unit_in-HasUnit formats checks file.dwarf address v (formats.units file.dwarf) (λ h a. a)
            chosen,
        λ offset. none-HasFunction v address offset (
            none_in v (function_in formats checks address (formats.entries v))
              (rw (function_containing_address, chosen) at run)),
      )
