-- ===== src/Elf/Tests.antt =====
-- The witnesses of the theorems on src/elf.rs, on a small file.
use rustybug.Prelude.{ℕ, ◌≡◌, refl, sym, subst, true, none, arith, [], ◌∷◌, All}
use rustybug.Prelude.Paths.{components, path_eq}
use rustybug.Prelude.Texts.{codes, text_eq}
use rustybug.Prelude.Outcome.{ok}
use rustybug.Elf.{runtime_address_offset, name_matches}
use rustybug.Elf.Least.{IsBase, IsOffset, runtime_address_offset-IsBase}
use rustybug.Elf.Lookup.{find_functions}
use rustybug.Elf.Lookup.Sound.{IsFunction, Found, find_functions-Found}
use rustybug.Prelude.{some, List}
use rustybug.Host.{World}
use rustybug.Host.Toy.{Machine, toy, at_rest, world_at}
use rustybug.Elf.Lookup.{function_containing_address}
use rustybug.Elf.Lookup.Contains.{HasUnit, HasFunction, function_containing_address-HasFunction}
use rustybug.Elf.Lookup.Missed.{Misses, function_containing_address-Misses}
use rustybug.Elf.Cache.{cache_file, get_bytes, load, parsed}
use rustybug.Elf.Cache.Once.{Later, now, loads, load-once}
use rustybug.Elf.Toy.{main_die, toy_formats, toy_file, toy_formats-DemangleLaws}
use rustybug.Prelude.{inl}
use rustybug.Elf.Lookup.Complete.{Holds, find_functions-Holds}

runtime_address_offset-IsBase_example :
    (base : ℕ) × IsBase base (toy_formats.segments 0)
    × IsOffset base 0x555000 (runtime_address_offset toy_formats {E = ℕ} true toy_file 0x555000)
runtime_address_offset-IsBase_example =
    runtime_address_offset-IsBase toy_formats ℕ toy_file 0x555000 refl

main_found : find_functions toy_formats toy_file (codes "main") ≡ ok ((0, 42) ∷ [])
unfolding find_functions name_matches text_eq
main_found = refl

find_functions-Found_example : All (Found toy_formats 0 (codes "main")) ((0, 42) ∷ [])
find_functions-Found_example =
    find_functions-Found toy_formats toy_formats-DemangleLaws toy_file (codes "main") ((0, 42) ∷ [])
      main_found

-- Main is found by an address within it.
main_contains : function_containing_address toy_formats true toy_file 0x1140 ≡ ok (some (0, 42))
unfolding function_containing_address
main_contains = refl

function_containing_address-HasFunction_example :
    HasUnit toy_formats true 0 0x1140 0 × HasFunction toy_formats true 0 0x1140 42
function_containing_address-HasFunction_example =
    function_containing_address-HasFunction toy_formats true toy_file 0 0x1140 42 main_contains

abbrev filled : World Machine
filled = record (world_at at_rest) { loaded_files = (codes "a.out", []) ∷ [] }

read_once : cache_file toy (codes "a.out") (world_at at_rest) ≡ (ok tt, filled)
unfolding cache_file get_bytes
read_once = refl

-- By then another file has been loaded, and the first is asked for by another spelling.
abbrev fuller : World Machine
fuller = record filled { loaded_files = (codes "b.out", []) ∷ filled.loaded_files }

read_other : (load toy toy_formats (codes "b.out") filled).1 ≡ fuller
unfolding load cache_file get_bytes path_eq
read_other = refl

then_other : Later toy toy_formats filled fuller
then_other =
    loads (codes "b.out")
      (subst (λ (w : World Machine). Later toy toy_formats w fuller) (sym read_other) now)

spelled : components (codes "a.out/.") ≡ components (codes "a.out")
unfolding components
spelled = refl

load-once_example :
    (bytes : List ℕ) × (load toy toy_formats (codes "a.out") (world_at at_rest)
      ≡ (parsed toy toy_formats bytes, filled))
    × (load toy toy_formats (codes "a.out/.") fuller ≡ (parsed toy toy_formats bytes, fuller))
load-once_example =
    load-once toy toy_formats (codes "a.out") (codes "a.out/.") (world_at at_rest) filled fuller
      read_once then_other spelled

main-IsFunction : IsFunction toy_formats 0 (codes "main") 0 42
main-IsFunction = record {
  die = main_die;
  string_at = 0;
  among = inl refl;
  at = refl;
  subprogram = refl;
  name_at = refl;
  named = refl;
}

find_functions-Holds_example : Holds {A = ℕ × ℕ} (0, 42) ((0, 42) ∷ [])
find_functions-Holds_example =
    find_functions-Holds toy_formats toy_file (codes "main") ((0, 42) ∷ []) 0 0 42 tt (inl refl)
      refl main-IsFunction main_found

-- The unit has a range with the address, and its one function ends before it.
none_there : function_containing_address toy_formats true toy_file 0x1200 ≡ ok none
unfolding function_containing_address
none_there = refl

function_containing_address-Misses_example : Misses toy_formats true toy_file 0x1200
function_containing_address-Misses_example =
    function_containing_address-Misses toy_formats true toy_file 0x1200 0 0
      (ok (record { begin = 0x1000; end = 0x2000 }) ∷ []) tt (inl refl) refl refl tt
      (record { begin = 0x1000; end = 0x2000 }, inl refl, omega arith, omega arith) none_there
