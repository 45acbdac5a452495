-- ===== src/Breakpoint/Patch.antt =====
-- What `enable` and `disable` of src/breakpoint.rs do to the tracee, in terms of one byte of one
-- aligned word: the masks and shifts are gone from these statements.
use native.Mathlib.Decide.{ℕ_discrete}
use rustybug.Prelude.{
  ℕ, ◌-◌, ◌*◌, ◌%◌, ◌^◌, ◌<◌, ◌≡◌, ◌≢◌, sym, ap, ◌∙◌, Bool, true, ◌==◌, if◌then◌else◌, arith,
  Bool-cases, inl, inr,
}
use rustybug.Prelude.Outcome.{Outcome, ok, err}
use rustybug.Words.Byte.{
  byte_at, with_byte, set_byte_lem, align_down, byte_at-with_byte, with_byte-byte_at, with_byte-lt,
  with_byte-with_byte,
}
use rustybug.Host.{Pid, Errno, unknown_errno, Host, World}
use rustybug.Host.Laws.{PtraceLaws}
use rustybug.Ptrace.{read_address, write_to_address}
use rustybug.Breakpoint.{int3, Breakpoint, aligned_address, patched, set_running, enable, disable}

-- The shift fits the program counter, and the saved byte is one.
pub record IsPlaced (b : Breakpoint) : Type 0 where
  pub pc_lt : b.pc < 2 ^ 64
  pub shift_eq : b.shift ≡ 8 * (b.pc % 8)
  pub byte_lt : b.data_byte < 256

pub running-IsPlaced :
    (pid : Pid) (r : Bool) (b : Breakpoint) → IsPlaced b → IsPlaced (set_running pid r b)
running-IsPlaced pid r b p = record { pc_lt = p.pc_lt; shift_eq = p.shift_eq; byte_lt = p.byte_lt }

-- The word that a breakpoint lies in begins at the last multiple of eight.
pub aligned_address_lem : (b : Breakpoint) → b.pc < 2 ^ 64 → aligned_address b ≡ b.pc - b.pc % 8
unfolding aligned_address
aligned_address_lem b h = align_down b.pc h

pub patched_lem :
    (b : Breakpoint) (word byte : ℕ)
    → IsPlaced b
    → word < 2 ^ 64
    → byte < 256
    → patched word b.shift byte ≡ with_byte b.shift byte word
patched_lem b word byte placed hw hb =
    rw placed.shift_eq (set_byte_lem (b.pc % 8) word byte (omega arith) hw hb)

with_byte-same : (s byte word : ℕ) → byte_at s word ≡ byte → with_byte s byte word ≡ word
with_byte-same s byte word e = rw (← e) (with_byte-byte_at s word)

same_word :
    (s byte word v : ℕ)
    → byte_at s v ≡ byte
    → (byte_at s word ≡ byte → v ≡ word)
    → (word == v) ≡ (byte_at s word == byte)
same_word s byte word v e back = ground arith

patch_small :
    (b : Breakpoint) (byte word : ℕ)
    → IsPlaced b
    → byte < 256
    → word < 2 ^ 64
    → with_byte b.shift byte word < 2 ^ 64
patch_small b byte word placed hb hw =
    rw placed.shift_eq (with_byte-lt (b.pc % 8) byte word (omega arith) hb hw)

-- A word that is the same after the interrupt was put in had it before.
same_iff :
    (s byte word : ℕ) → byte < 256 → (word == with_byte s byte word) ≡ (byte_at s word == byte)
same_iff s byte word h =
    same_word s byte word (with_byte s byte word) (byte_at-with_byte s byte word h)
      (with_byte-same s byte word)

module _ {Os Regs FpRegs : Type 0} (host : Host Os Regs FpRegs) where
  -- What is left of a call that writes `byte` over the breakpoint's place in `word`.
  abbrev pub write_byte :
      (pid : Pid) (b : Breakpoint) (byte word : ℕ) → World Os → Outcome Errno (Unit {0}) × World Os
  write_byte pid b byte word w =
      let (r, o) = host.ptrace_write pid (b.pc - b.pc % 8) (with_byte b.shift byte word) w.os in
      (r, record w { os = o })

  -- In `os'` the word of `b` is `word` with `byte` at its place, and every other aligned word of
  -- the process is the one of `os`.
  pub record IsPatched (pid : Pid) (b : Breakpoint) (byte word : ℕ) (os os' : Os) : Type 0 where
    pub here : host.ptrace_read pid (b.pc - b.pc % 8) os' ≡ ok (with_byte b.shift byte word)
    pub elsewhere :
        (c : ℕ)
        → c % 8 ≡ 0
        → c ≢ b.pc - b.pc % 8
        → host.ptrace_read pid c os' ≡ host.ptrace_read pid c os

  -- A second patch of the same byte replaces the first.
  pub IsPatched-trans :
      (pid : Pid) (b : Breakpoint) (first second word : ℕ) (os os' os'' : Os)
      → first < 256
      → IsPatched pid b first word os os'
      → IsPatched pid b second (with_byte b.shift first word) os' os''
      → IsPatched pid b second word os os''
  IsPatched-trans pid b first second word os os' os'' h p q = record {
    here = q.here ∙ ap (λ (v : ℕ). ok v) (with_byte-with_byte b.shift second first word h);
    elsewhere = λ c hc ne. q.elsewhere c hc ne ∙ p.elsewhere c hc ne;
  }

  -- Patching a word with the byte that it had leaves every word as it was.
  pub IsPatched-undone :
      (pid : Pid) (b : Breakpoint) (word : ℕ) (os os' : Os)
      → host.ptrace_read pid (b.pc - b.pc % 8) os ≡ ok word
      → IsPatched pid b (byte_at b.shift word) word os os'
      → (c : ℕ) → c % 8 ≡ 0
      → host.ptrace_read pid c os' ≡ host.ptrace_read pid c os
  IsPatched-undone pid b word os os' e p c hc = elim (ℕ_discrete c (b.pc - b.pc % 8)) [
    | yes same ↦ rw same (p.here ∙ ap (λ (v : ℕ). ok v) (with_byte-byte_at b.shift word) ∙ sym e)
    | no ne ↦ p.elsewhere c hc ne
  ]

module _ {Os Regs FpRegs : Type 0} (host : Host Os Regs FpRegs) (laws : PtraceLaws host) where
  pub enable_lem :
      (pid : Pid) (b : Breakpoint) (w : World Os) (word : ℕ)
      → IsPlaced b
      → host.ptrace_read pid (b.pc - b.pc % 8) w.os ≡ ok word
      → enable host pid (b, w) ≡ (
          if byte_at b.shift word == int3
          then (err unknown_errno, (set_running pid true b, w))
          else let (r, w') = write_byte host pid b int3 word w in (r, (set_running pid true b, w')))
  unfolding enable read_address write_to_address
  enable_lem pid b w word placed e =
      let small = laws.read_lt pid (b.pc - b.pc % 8) word w.os e in
      rw (aligned_address_lem b placed.pc_lt, e)
        (rw (patched_lem b word int3 placed small (omega arith)) (
          rw (same_iff b.shift int3 word (omega arith))
            (elim (Bool-cases (byte_at b.shift word == int3)) [ inl c ↦ rw c | inr c ↦ rw c ])))

  pub disable_lem :
      (pid : Pid) (b : Breakpoint) (w : World Os) (word : ℕ)
      → IsPlaced b
      → host.ptrace_read pid (b.pc - b.pc % 8) w.os ≡ ok word
      → disable host pid (b, w)
        ≡ (let (r, w') = write_byte host pid b b.data_byte word w in (r, (b, w')))
  unfolding disable read_address write_to_address
  disable_lem pid b w word placed e =
      let small = laws.read_lt pid (b.pc - b.pc % 8) word w.os e in
      rw (aligned_address_lem b placed.pc_lt, e)
        (rw (patched_lem b word b.data_byte placed small placed.byte_lt))

  pub write_byte-IsPatched :
      (pid : Pid) (b : Breakpoint) (byte word : ℕ) (w w' : World Os)
      → IsPlaced b
      → byte < 256
      → word < 2 ^ 64
      → write_byte host pid b byte word w ≡ (ok tt, w')
      → IsPatched host pid b byte word w.os w'.os × (w'.current_id ≡ w.current_id)
  write_byte-IsPatched pid b byte word w w' placed hb hw e =
      let written : host.ptrace_write pid (b.pc - b.pc % 8) (with_byte b.shift byte word) w.os
          ≡ (ok tt, w'.os) =
        λ i. ((e i).0, (e i).1.os) in
      (
        record {
          here =
              laws.read_written pid (b.pc - b.pc % 8) (with_byte b.shift byte word) w.os w'.os
                (patch_small b byte word placed hb hw) written;
          elsewhere = λ c hc ne.
              laws.read_elsewhere pid (b.pc - b.pc % 8) (with_byte b.shift byte word) c w.os w'.os
                (omega arith) hc ne written;
        },
        sym (λ i. (e i).1.current_id),
      )
