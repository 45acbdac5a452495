-- ===== src/Elf/Cache.antt =====
-- src/elf.rs: the files that were read, and `ExecutableFile::load`.
pub mod Once
use rustybug.Prelude.{ℕ, Bool, true, false, not, Option, none, some, List, [], ◌∷◌, if◌then◌else◌}
use rustybug.Prelude.Paths.{path_eq}
use rustybug.Prelude.Outcome.{
  Outcome, ok, panic, map_err, and_then, Action, reads, with_err, ◌>>=◌, ◌>>◌,
}
use rustybug.Host.{Text, Errno, Host, World}
use rustybug.Elf.{
  ObjectError, cant_open_elf, couldnt_parse, little, big, Formats, ExecutableFile,
  get_file_section_reader,
}

-- `HashMap::get` with paths as keys.
unfoldable pub get_bytes : Text → List (Text × List ℕ) → Option (List ℕ)
get_bytes path [] = none
get_bytes path ((k, bytes) ∷ cache) = if path_eq k path then some bytes else get_bytes path cache

abbrev pub is_some : {A : Type 0} → Option A → Bool
is_some none = false
is_some (some a) = true

module _ {Os Regs FpRegs : Type 0} (host : Host Os Regs FpRegs) where
  unfoldable pub cache_file : Text → Action (World Os) Errno (Unit {0})
  cache_file path w =
      if not (is_some (get_bytes path w.loaded_files))
      then (do
        bytes ← reads (λ w. host.read_file path w.os)
        λ w. (ok tt, record w { loaded_files = (path, bytes) ∷ w.loaded_files }))
          w
      else (ok tt, w)

module _ {Os Regs FpRegs Obj Dwarf Header CompUnit : Type 0} (host : Host Os Regs FpRegs)
    (formats : Formats Obj Dwarf Header CompUnit) where
  abbrev pub parsed : List ℕ → Outcome ObjectError (ExecutableFile Obj Dwarf)
  parsed bytes = and_then (map_err (λ _. couldnt_parse) (formats.parse bytes)) λ elf_file.
      let endian = if formats.is_little_endian elf_file then little else big in
      and_then (formats.load_dwarf (λ name. get_file_section_reader formats name endian elf_file))
        λ dwarf. ok (record { elf_file = elf_file; dwarf = dwarf })

  -- `get_bytes(path).unwrap()` panics where the file is not there.
  unfoldable pub load : Text → Action (World Os) ObjectError (ExecutableFile Obj Dwarf)
  load path = do
    with_err (λ _. cant_open_elf) (cache_file host path)
    λ w. (elim (get_bytes path w.loaded_files) [ none ↦ panic | some bytes ↦ parsed bytes ], w)
