-- ===== src/Elf/Lookup.antt =====
-- src/elf.rs: units and functions by address and by name.
pub mod Sound
pub mod Spans
pub mod Contains
pub mod Complete
pub mod Missed
use rustybug.Prelude.{
  ℕ, Bool, true, false, Option, none, some, List, [], ◌∷◌, ◌++◌, ◌==◌, if◌then◌else◌,
}
use rustybug.Prelude.Outcome.{Outcome, ok, err, to_option, and_then, map_ok}
use rustybug.Host.{Text, add_u64}
use rustybug.Elf.{
  ObjectError, failed_to_parse_die_tree, Range, AttributeValue, addr, udata, debug_str_ref,
  ReadError, Die, dw_tag_subprogram, Formats, ExecutableFile, in_range, addr_or_zero, name_matches,
}

-- `while let Ok(Some(r)) = ranges.next()`: the loop ends at the first error too.
unfoldable pub any_range : ℕ → List (Outcome ReadError Range) → Bool
any_range address [] = false
any_range address (ok r ∷ rs) =
    if in_range r.begin r.end address then true else any_range address rs
any_range address (_ ∷ rs) = false

module _ {Obj Dwarf Header CompUnit : Type 0} (formats : Formats Obj Dwarf Header CompUnit)
    (checks : Bool) where
  abbrev pub covers : Dwarf → ℕ → CompUnit → Bool
  covers dwarf address u = elim (formats.unit_ranges dwarf u) [
    | ok ranges ↦ any_range address ranges
    | _ ↦ false
  ]

  unfoldable pub unit_in : Dwarf → ℕ → List (Outcome ReadError Header) → Option CompUnit
  unit_in dwarf address [] = none
  unit_in dwarf address (ok header ∷ hs) =
      let rest = unit_in dwarf address hs in
      elim (formats.unit dwarf header) [
        | ok u ↦ if covers dwarf address u then some u else rest
        | _ ↦ rest
      ]
  unit_in dwarf address (_ ∷ hs) = none

  unfoldable pub compile_unit_containing_address : ExecutableFile Obj Dwarf → ℕ → Option CompUnit
  unfolding unit_in any_range
  compile_unit_containing_address file address =
      unit_in file.dwarf address (formats.units file.dwarf)

  -- `high_pc` is an offset from `low_pc`, or an address.
  abbrev pub high_of : ℕ → Outcome ReadError (Option AttributeValue) → Outcome ObjectError ℕ
  high_of low (ok (some (udata x))) = add_u64 checks low x
  high_of low (ok (some (addr x))) = ok x
  high_of low _ = ok 0

  abbrev pub spans : ℕ → Die → Outcome ObjectError Bool
  spans address die =
      let low = addr_or_zero die.low_pc in
      and_then (high_of low die.high_pc) (λ high. ok (in_range low high address))

  unfoldable pub function_in : ℕ → List (Outcome ReadError Die) → Outcome ObjectError (Option ℕ)
  function_in address [] = ok none
  function_in address (ok die ∷ ds) =
      let rest = function_in address ds in
      if die.tag == dw_tag_subprogram
      then and_then (spans address die) (λ hit. if hit then ok (some die.offset) else rest)
      else rest
  function_in address (_ ∷ ds) = err failed_to_parse_die_tree

  unfoldable pub function_containing_address :
      ExecutableFile Obj Dwarf → ℕ → Outcome ObjectError (Option (CompUnit × ℕ))
  unfolding compile_unit_containing_address function_in
  function_containing_address file address = elim (compile_unit_containing_address file address) [
    | none ↦ ok none
    | some cu ↦
        map_ok (λ found. elim found [ none ↦ none | some offset ↦ some (cu, offset) ])
          (function_in address (formats.entries cu))
  ]

module _ {Obj Dwarf Header CompUnit : Type 0} (formats : Formats Obj Dwarf Header CompUnit) where
  -- The entry's name, if it is a string that can be read.
  abbrev pub name_of : Dwarf → Die → Option Text
  name_of dwarf die = elim die.name [
    | ok (some (debug_str_ref offset)) ↦ to_option (formats.string dwarf offset)
    | _ ↦ none
  ]

  abbrev pub is_named : Dwarf → Text → Die → Bool
  is_named dwarf name die = elim (name_of dwarf die) [
    | none ↦ false
    | some fn_name ↦ name_matches formats name fn_name
  ]

  abbrev pub is_function_named : Dwarf → Text → Die → Bool
  is_function_named dwarf name die =
      if die.tag == dw_tag_subprogram then is_named dwarf name die else false

  -- `result.push(…)` for each entry that fits; an unreadable entry ends the search with an error.
  unfoldable pub functions_of :
      Dwarf
      → Text
      → CompUnit
      → List (Outcome ReadError Die)
      → List (CompUnit × ℕ)
      → Outcome ObjectError (List (CompUnit × ℕ))
  functions_of dwarf name u [] result = ok result
  functions_of dwarf name u (ok die ∷ ds) result =
      functions_of dwarf name u ds
        (if is_function_named dwarf name die then result ++ (u, die.offset) ∷ [] else result)
  functions_of dwarf name u (_ ∷ ds) result = err failed_to_parse_die_tree

  unfoldable pub functions_in :
      Dwarf
      → Text
      → List (Outcome ReadError Header)
      → List (CompUnit × ℕ)
      → Outcome ObjectError (List (CompUnit × ℕ))
  functions_in dwarf name [] result = ok result
  functions_in dwarf name (ok header ∷ hs) result =
      let skip = functions_in dwarf name hs result in
      let more = λ (found : List (CompUnit × ℕ)). functions_in dwarf name hs found in
      elim (formats.unit dwarf header) [
        | ok u ↦ and_then (functions_of dwarf name u (formats.entries u) result) more
        | _ ↦ skip
      ]
  functions_in dwarf name (_ ∷ hs) result = ok result

  unfoldable pub find_functions :
      ExecutableFile Obj Dwarf → Text → Outcome ObjectError (List (CompUnit × ℕ))
  unfolding functions_in functions_of
  find_functions file name = functions_in file.dwarf name (formats.units file.dwarf) []
