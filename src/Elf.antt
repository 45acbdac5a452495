-- ===== src/Elf.antt =====
-- src/elf.rs: the executable file and its debug information. The crates object, gimli and
-- rustc-demangle are a parameter, the record `Formats`; an iterator of theirs is the list of the
-- answers of its `next` up to the first `Ok(None)`.
use rustybug.Prelude.{
  ℕ, ◌≡◌, ◌+◌, ◌%◌, ◌^◌, Bool, true, false, ◌&&◌, ◌||◌, Option, none, some, List, [], ◌∷◌, ◌++◌,
  min, ltb, leb, ◌==◌, if◌then◌else◌,
}
use rustybug.Prelude.Texts.{codes, text_eq}
use rustybug.Prelude.Outcome.{
  Outcome, ok, err, panic, out_of_fuel, map_err, map_ok, and_then, Action,
}
use rustybug.Host.{Text, Host, sub_u64, add_u64, World}
use rustybug.Commands.Syntax.{Location}
pub mod Cache
pub mod Lookup
pub mod Least
pub mod Toy
mod Tests

pub data ObjectError : Type 0 where
  cant_open_elf couldnt_parse no_text_section bad_location dwarf_parsing_failed : ObjectError
  section_missing couldnt_read_section_data : Text → ObjectError
  failed_to_parse_die_tree : ObjectError

pub data ObjectKind : Type 0 where
  unknown relocatable executable dynamic core : ObjectKind

pub data RunTimeEndian : Type 0 where
  little big : RunTimeEndian

pub record Segment : Type 0 where
  pub address : ℕ
  pub size : ℕ

pub record Range : Type 0 where
  pub begin : ℕ
  pub end : ℕ

-- A section's bytes with their order, gimli's `EndianSlice`.
pub record EndianSlice : Type 0 where
  pub bytes : List ℕ
  pub endian : RunTimeEndian

pub data AttributeValue : Type 0 where
  addr udata debug_str_ref : ℕ → AttributeValue
  other : AttributeValue

-- Errors of gimli and object are told apart by nothing in the code.
abbrev pub ReadError : Type 0
ReadError = Unit {0}

-- An entry of a unit: its tag, its offset, and the three attributes that the code asks for.
pub record Die : Type 0 where
  pub tag : ℕ
  pub offset : ℕ
  pub name : Outcome ReadError (Option AttributeValue)
  pub low_pc : Outcome ReadError (Option AttributeValue)
  pub high_pc : Outcome ReadError (Option AttributeValue)

abbrev pub dw_tag_subprogram : ℕ
dw_tag_subprogram = 0x2e

pub record Formats (Obj Dwarf Header CompUnit : Type 0) : Type 0 where
  -- object
  pub parse : List ℕ → Outcome ReadError Obj
  pub is_little_endian : Obj → Bool
  pub kind : Obj → ObjectKind
  pub segments : Obj → List Segment
  pub section_by_name : Obj → Text → Option (Outcome ReadError (List ℕ))
  -- gimli; a section is known by its name
  pub load_dwarf : (Text → Outcome ObjectError EndianSlice) → Outcome ObjectError Dwarf
  pub units : Dwarf → List (Outcome ReadError Header)
  pub unit : Dwarf → Header → Outcome ReadError CompUnit
  pub unit_ranges : Dwarf → CompUnit → Outcome ReadError (List (Outcome ReadError Range))
  pub entries : CompUnit → List (Outcome ReadError Die)
  pub entry : CompUnit → ℕ → Outcome ReadError Die
  pub string : Dwarf → ℕ → Outcome ReadError Text
  -- rustc-demangle: `demangle(s).as_str()`
  pub demangle_as_str : Text → Text

pub record ExecutableFile (Obj Dwarf : Type 0) : Type 0 where
  pub elf_file : Obj
  pub dwarf : Dwarf

-- `iter().min()` over the non-empty segments, `unwrap_or_default()`
abbrev pub least : Option ℕ → ℕ → Option ℕ
least none a = some a
least (some b) a = some (min b a)

unfoldable pub min_address : Option ℕ → List Segment → Option ℕ
min_address acc [] = acc
min_address acc (s ∷ ss) = min_address (if ltb 0 s.size then least acc s.address else acc) ss

abbrev pub or_zero : Option ℕ → ℕ
or_zero none = 0
or_zero (some a) = a

abbrev is_dynamic : ObjectKind → Bool
is_dynamic dynamic = true
is_dynamic _ = false

-- `(begin..end).contains(&address)`
abbrev pub in_range : ℕ → ℕ → ℕ → Bool
in_range begin end address = leb begin address && ltb address end

abbrev pub addr_or_zero : Outcome ReadError (Option AttributeValue) → ℕ
addr_or_zero (ok (some (addr x))) = x
addr_or_zero _ = 0

module _ {Obj Dwarf Header CompUnit : Type 0} (formats : Formats Obj Dwarf Header CompUnit) where
  unfoldable pub try_get_file_section_reader :
      Text → RunTimeEndian → Obj → Outcome ObjectError EndianSlice
  try_get_file_section_reader name endian object = elim (formats.section_by_name object name) [
    | none ↦ err (section_missing name)
    | some found ↦
        map_ok (λ bytes. record { bytes = bytes; endian = endian })
          (map_err (λ _. couldnt_read_section_data name) found)
  ]

  -- A section that is missing or cannot be read is an empty one.
  unfoldable pub get_file_section_reader :
      Text → RunTimeEndian → Obj → Outcome ObjectError EndianSlice
  get_file_section_reader name endian object =
      elim (try_get_file_section_reader name endian object) [
        | ok slice ↦ ok slice
        | err _ ↦ ok (record { bytes = []; endian = endian })
        | panic ↦ panic
        | out_of_fuel ↦ out_of_fuel
      ]

  unfoldable pub endianness : ExecutableFile Obj Dwarf → RunTimeEndian
  endianness file = if formats.is_little_endian file.elf_file then little else big

  unfoldable pub runtime_address_offset :
      {E : Type 0} → Bool → ExecutableFile Obj Dwarf → ℕ → Outcome E ℕ
  runtime_address_offset checks file mapped_address =
      if is_dynamic (formats.kind file.elf_file)
      then sub_u64 checks mapped_address
          (or_zero (min_address none (formats.segments file.elf_file)))
      else ok 0

  -- `todo!()` is a panic.
  unfoldable pub get_address : Location → Outcome ObjectError ℕ
  get_address (Location.address a) = ok a
  get_address (Location.line file n) = panic
  get_address (Location.function name) = panic

  -- `as_str` of a `Demangle` is the text that it was made of.
  pub record DemangleLaws : Type 0 where
    pub as_str : (s : Text) → formats.demangle_as_str s ≡ s

  unfoldable pub name_matches : Text → Text → Bool
  name_matches name compiled_name =
      text_eq name compiled_name || text_eq (formats.demangle_as_str compiled_name) name
