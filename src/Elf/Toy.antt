-- ===== src/Elf/Toy.antt =====
-- A small file format, for the witnesses: a file of one unit with one function, `main` at 0x1139.
use rustybug.Prelude.{ℕ, refl, true, none, some, [], ◌∷◌}
use rustybug.Prelude.Texts.{codes}
use rustybug.Prelude.Outcome.{ok}
use rustybug.Elf.{
  Die, addr, udata, debug_str_ref, dw_tag_subprogram, dynamic, Formats, ExecutableFile,
  DemangleLaws,
}

abbrev pub main_die : Die
main_die = record {
  tag = dw_tag_subprogram;
  offset = 42;
  name = ok (some (debug_str_ref 0));
  low_pc = ok (some (addr 0x1139));
  high_pc = ok (some (udata 0x20));
}

-- An object and its debug information are numbers that nothing looks at; the first segment is empty.
abbrev pub toy_formats : Formats ℕ ℕ ℕ ℕ
toy_formats = record {
  parse = λ bytes. ok 0;
  is_little_endian = λ o. true;
  kind = λ o. dynamic;
  segments = λ o.
      record { address = 0; size = 0 }
      ∷ record { address = 0x4000; size = 8 }
      ∷ record { address = 0x1000; size = 16 }
      ∷ [];
  section_by_name = λ o name. none;
  load_dwarf = λ load. ok 0;
  units = λ d. ok 0 ∷ [];
  unit = λ d h. ok 0;
  unit_ranges = λ d u. ok (ok (record { begin = 0x1000; end = 0x2000 }) ∷ []);
  entries = λ u. ok main_die ∷ [];
  entry = λ u offset. ok main_die;
  string = λ d offset. ok (codes "main");
  demangle_as_str = λ name. name;
}

abbrev pub toy_file : ExecutableFile ℕ ℕ
toy_file = record { elf_file = 0; dwarf = 0 }

pub toy_formats-DemangleLaws : DemangleLaws toy_formats
toy_formats-DemangleLaws = record { as_str = λ s. refl }
