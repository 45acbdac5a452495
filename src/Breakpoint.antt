-- ===== src/Breakpoint.antt =====
-- src/breakpoint.rs: a software breakpoint. The code patches one byte of the tracee's memory, an
-- aligned word at a time. `data` is a reserved word here: the field is `data_byte`.
pub mod Patch
pub mod Arm
pub mod Create
pub mod Touch
pub mod Step
pub mod Overlay
pub mod Toggle
pub mod Frame
pub mod Hit
mod Tests
use rustybug.Prelude.{
  ℕ, ◌+◌, ◌-◌, ◌*◌, ◌%◌, ◌^◌, bit_and, bit_or, Bool, true, false, Option, none, some, List, [],
  ◌==◌, if◌then◌else◌,
}
use rustybug.Prelude.Dict.{lookup, insert, remove}
use rustybug.Prelude.Outcome.{
  Outcome, ok, map_ok, and_then, Action, pure, fail, gets, modify, ◌>>=◌, ◌>>◌, ignore,
}
use rustybug.Words.{not_u64, shl, sar}
use rustybug.Host.{Pid, Errno, unknown_errno, Host, sub_u64, World, on_os, on_world}
use rustybug.Ptrace.{
  read_address, write_to_address, current_instruction_pointer, set_instruction_pointer,
}

-- INT3
abbrev pub int3 : ℕ
int3 = 0xCC

pub record Breakpoint : Type 0 where
  pub id : ℕ
  -- the program counter
  pub pc : ℕ
  -- the byte that the interrupt replaces
  pub data_byte : ℕ
  pub shift : ℕ
  -- by process or thread
  pub is_running : List (Pid × Bool)

unfoldable pub align_address : ℕ → ℕ
align_address addr = bit_and addr (not_u64 7)

unfoldable pub aligned_address : Breakpoint → ℕ
unfolding align_address
aligned_address b = align_address b.pc

-- A word with the byte at `shift` cleared and `byte` put there.
abbrev pub patched : ℕ → ℕ → ℕ → ℕ
patched word shift byte = bit_or (bit_and word (not_u64 (shl 0xFF shift))) (shl byte shift)

abbrev pub set_running : Pid → Bool → Breakpoint → Breakpoint
set_running pid r b = record b { is_running = insert pid r b.is_running }

-- `HashMap::get` with the default `true` of `process`.
abbrev pub running_or_true : Option Bool → Bool
running_or_true none = true
running_or_true (some r) = r

module _ {Os Regs FpRegs : Type 0} (host : Host Os Regs FpRegs) where
  -- A method on `&mut self`.
  abbrev pub Method : Type 0 → Type 0
  Method A = Action (Breakpoint × World Os) Errno A

  abbrev this : {E : Type 0} → Action (Breakpoint × World Os) E Breakpoint
  this = gets (λ s. s.0)

  unfoldable pub has_hit : Breakpoint → Pid → Os → Outcome Errno Bool
  has_hit b pid os = and_then (current_instruction_pointer host pid os) λ pc.
      if pc == b.pc
      then ok true
      else map_ok (λ before. before == b.pc) (sub_u64 host.overflow_checks pc 1)

  unfoldable pub jump_to : Pid → Method (Unit {0})
  jump_to pid = do b ← this; on_world (on_os (set_instruction_pointer host pid b.pc)); pure tt

  -- The entry of `pid` is set before the word is tested, also where the test then fails.
  unfoldable pub enable : Pid → Method (Unit {0})
  unfolding aligned_address
  enable pid = do
    b ← this
    word ← (λ (b, w). (read_address host pid (aligned_address b) w.os, (b, w)))
    modify (λ (b, w). (set_running pid true b, w))
    let intdata = patched word b.shift int3
    if word == intdata
        then fail unknown_errno
        else on_world (on_os (write_to_address host pid (aligned_address b) intdata))

  unfoldable pub disable : Pid → Method (Unit {0})
  unfolding aligned_address
  disable pid = do
    b ← this
    word ← (λ (b, w). (read_address host pid (aligned_address b) w.os, (b, w)))
    let orgdata = patched word b.shift b.data_byte
    on_world (on_os (write_to_address host pid (aligned_address b) orgdata))

  -- Removes the breakpoint and sets the program counter back to it. It does not step yet.
  unfoldable pub step : Pid → Method (Unit {0})
  step pid = do disable pid; jump_to pid; pure tt

  unfoldable pub process : Pid → Bool → Method Bool
  process pid reenable = do
    b ← this
    if running_or_true (lookup pid b.is_running)
        then (do
          ignore {E = Errno} (enable pid)
          step pid
          modify (λ (b, w). (set_running pid false b, w))
          pure true)
        else (do
          disable pid
          (if reenable then enable pid else pure tt)
          modify (λ (b, w). (set_running pid true b, w))
          pure false)

  unfoldable pub thread_killed : Pid → Breakpoint → Breakpoint
  thread_killed pid b = record b { is_running = remove pid b.is_running }

  -- The id is taken before the breakpoint is enabled, and stays taken if that fails.
  unfoldable pub new : Pid → ℕ → Action (World Os) Errno Breakpoint
  unfolding align_address
  new pid pc = do
    let aligned = align_address pc
    word ← (λ w. (read_address host pid aligned w.os, w))
    let shift = 8 * (pc - aligned)
    let data_byte = bit_and (sar word shift) 0xFF % 256
    id ← (λ w. (ok w.current_id, record w { current_id = (w.current_id + 1) % 2 ^ 64 }))
    let b : Breakpoint = record {
      id = id;
      pc = pc;
      data_byte = data_byte;
      shift = shift;
      is_running = [];
    }
    λ w. let (r, (b', w')) = enable pid (b, w) in (map_ok (λ _. b') r, w')
