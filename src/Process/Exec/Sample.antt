-- ===== src/Process/Exec/Sample.antt =====
-- A process of the small machine without a breakpoint, and its program: the data of the tests of
-- src/process.rs.
use rustybug.Prelude.{ℕ, ◌+◌, ◌-◌, ◌*◌, ◌%◌, ◌^◌, ◌<◌, ◌≡◌, true, none, [], ◌==◌, arith}
use rustybug.Prelude.Outcome.{Outcome, ok, ok-injective}
use rustybug.Words.Byte.{byte_at}
use rustybug.Host.Toy.{toy, at_rest}
use rustybug.Breakpoint.Overlay.{Program}
use rustybug.Process.{Process, running}
use rustybug.Process.Exec.Armed.{armed_of, IsOverlaid}

-- The bytes of the machine at rest, of which one word is code.
abbrev pub program : Program
program = record {
  image = λ a. byte_at (8 * (a % 8)) (at_rest.memory (a - a % 8) % 2 ^ 64);
  is_code = λ c. c == 0x1000;
}

abbrev pub traced : Process
traced = record {
  pid = 7;
  stdout_reader = none;
  addr_offset = 0;
  terminate_on_end = true;
  state = running;
  breakpoints = [];
}

program_shown :
    (c j word : ℕ)
    → c % 8 ≡ 0
    → program.is_code c ≡ true
    → j < 8
    → ◌≡◌ {A = Outcome ℕ ℕ} (ok (at_rest.memory c % 2 ^ 64)) (ok word)
    → byte_at (8 * j) word ≡ program.image (c + j)
program_shown c j word hc hcode hj e =
    let low : (c + j) % 8 ≡ j = omega arith in
    let base : c + j - j ≡ c = omega arith in rw (low, base, ← ok-injective e)

pub traced-IsOverlaid : IsOverlaid toy 7 program [] at_rest
unfolding armed_of
traced-IsOverlaid = record { fits = tt; distinct = tt; shows = program_shown }
