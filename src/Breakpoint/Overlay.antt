-- ===== src/Breakpoint/Overlay.antt =====
-- The tracee's memory byte by byte, as the program is meant to be with interrupts laid over it: the
-- view of src/breakpoint.rs in which a breakpoint is an address and no word, mask or shift is left.
use native.Mathlib.Decide.{ℕ_discrete}
use rustybug.Prelude.{
  ℕ, ◌+◌, ◌-◌, ◌*◌, ◌%◌, ◌<◌, ◌≡◌, ◌≢◌, sym, ap, ◌∙◌, Bool, true, arith, ◌==◌, if◌then◌else◌,
}
use rustybug.Prelude.Outcome.{ok, ok-injective}
use rustybug.Words.Byte.{byte_at, with_byte, byte_at-with_byte}
use rustybug.Words.Beside.{byte_at-with_byte_ne}
use rustybug.Host.{Pid, Host}
use rustybug.Breakpoint.{int3, Breakpoint}
use rustybug.Breakpoint.Patch.{IsPlaced, IsPatched}

-- The program as it is meant to be: its bytes, and the aligned words that are its code.
pub record Program : Type 0 where
  pub image : ℕ → ℕ
  pub is_code : ℕ → Bool

-- The byte at an address: an interrupt where one is armed, and the program's own elsewhere.
abbrev pub overlay : (ℕ → ℕ) → (ℕ → Bool) → ℕ → ℕ
overlay image armed a = if armed a then int3 else image a

-- The set, changed at one address.
abbrev pub put : ℕ → Bool → (ℕ → Bool) → ℕ → Bool
put at on armed a = if a == at then on else armed a

module _ {Os Regs FpRegs : Type 0} (host : Host Os Regs FpRegs) where
  -- Every byte of the code that can be read, at the place `j` of the aligned word at `c`, is the
  -- overlay's.
  abbrev pub Shows : Pid → Program → (ℕ → Bool) → Os → Type 0
  Shows pid program armed os =
      (c j word : ℕ)
      → c % 8 ≡ 0
      → program.is_code c ≡ true
      → j < 8
      → host.ptrace_read pid c os ≡ ok word
      → byte_at (8 * j) word ≡ overlay program.image armed (c + j)

  overlay-put_ne :
      (image : ℕ → ℕ) (armed : ℕ → Bool) (at a : ℕ) (on : Bool)
      → a ≢ at
      → overlay image (put at on armed) a ≡ overlay image armed a
  overlay-put_ne image armed at a on ne = ground arith

  overlay-put_self :
      (image : ℕ → ℕ) (armed : ℕ → Bool) (at : ℕ) (on : Bool)
      → overlay image (put at on armed) at ≡ (if on then int3 else image at)
  overlay-put_self image armed at on = ground arith

  -- The patched word itself.
  here_Shows :
      (pid : Pid) (program : Program) (armed : ℕ → Bool) (b : Breakpoint) (on : Bool) (v word j : ℕ)
      (os : Os)
      → IsPlaced b
      → v < 256
      → v ≡ (if on then int3 else program.image b.pc)
      → Shows pid program armed os
      → host.ptrace_read pid (b.pc - b.pc % 8) os ≡ ok word
      → program.is_code (b.pc - b.pc % 8) ≡ true
      → j < 8
      → byte_at (8 * j) (with_byte (8 * (b.pc % 8)) v word)
        ≡ overlay program.image (put b.pc on armed) (b.pc - b.pc % 8 + j)
  here_Shows pid program armed b on v word j os placed hv is shows e hcode hj =
      elim (ℕ_discrete j (b.pc % 8)) [
        | yes same ↦
            let at : b.pc - b.pc % 8 + b.pc % 8 ≡ b.pc = omega arith in
            rw (same, at)
              (byte_at-with_byte (8 * (b.pc % 8)) v word hv
                ∙ is
                ∙ sym (overlay-put_self program.image armed b.pc on))
        | no ne ↦
            byte_at-with_byte_ne j (b.pc % 8) v word ne hv
            ∙ shows (b.pc - b.pc % 8) j word (omega arith) hcode hj e
            ∙ sym (overlay-put_ne program.image armed b.pc (b.pc - b.pc % 8 + j) on (omega arith))
      ]

  -- A patch at a breakpoint's place changes the overlay there, and nowhere else.
  pub IsPatched-Shows :
      (pid : Pid) (program : Program) (armed : ℕ → Bool) (b : Breakpoint) (on : Bool) (v word : ℕ)
      (os os' : Os)
      → IsPlaced b
      → v < 256
      → v ≡ (if on then int3 else program.image b.pc)
      → host.ptrace_read pid (b.pc - b.pc % 8) os ≡ ok word
      → IsPatched host pid b v word os os'
      → Shows pid program armed os
      → Shows pid program (put b.pc on armed) os'
  IsPatched-Shows pid program armed b on v word os os' placed hv is e patch shows c j word' hc hcode
        hj e' =
      elim (ℕ_discrete c (b.pc - b.pc % 8)) [
        | yes same ↦
            let found : with_byte b.shift v word ≡ word' =
              ok-injective
                (sym patch.here ∙ ap (λ (x : ℕ). host.ptrace_read pid x os') (sym same) ∙ e') in
            rw (same, ← found, placed.shift_eq)
              (here_Shows pid program armed b on v word j os placed hv is shows e
                (rw (← same) hcode) hj)
        | no ne ↦
            shows c j word' hc hcode hj (sym (patch.elsewhere c hc ne) ∙ e')
            ∙ sym (overlay-put_ne program.image armed b.pc (c + j) on (omega arith))
      ]
