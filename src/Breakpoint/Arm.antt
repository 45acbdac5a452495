-- ===== src/Breakpoint/Arm.antt =====
-- Setting and removing a breakpoint: what `enable`, `disable` and `new` have done when they return.
use rustybug.Prelude.{ℕ, ◌-◌, ◌%◌, ◌≡◌, ◌≢◌, sym, ◌∙◌, true, ◌==◌, arith, Bool-cases, inl, inr}
use rustybug.Prelude.Outcome.{ok, err}
use rustybug.Words.Byte.{byte_at}
use rustybug.Host.{Pid, unknown_errno, Host, World}
use rustybug.Host.Laws.{PtraceLaws}
use rustybug.Breakpoint.{int3, Breakpoint, set_running, enable, disable}
use rustybug.Breakpoint.Patch.{IsPlaced, enable_lem, disable_lem, IsPatched, write_byte-IsPatched}

module _ {Os Regs FpRegs : Type 0} (host : Host Os Regs FpRegs) (laws : PtraceLaws host) where
  -- If `enable` succeeds ...
  pub enable_arms :
      (pid : Pid) (b b' : Breakpoint) (w w' : World Os) (word : ℕ)
      → IsPlaced b
      → host.ptrace_read pid (b.pc - b.pc % 8) w.os ≡ ok word
      → enable host pid (b, w) ≡ (ok tt, (b', w'))
      → (b' ≡ set_running pid true b)
        × (byte_at b.shift word ≢ int3)
        × IsPatched host pid b int3 word w.os w'.os
        × (w'.current_id ≡ w.current_id)
  enable_arms pid b b' w w' word placed e run =
      let outcome = sym (enable_lem host laws pid b w word placed e) ∙ run in
      elim (Bool-cases (byte_at b.shift word == int3)) [
        | inl same ↦ absurd (cc (rw same at outcome))
        | inr differs ↦
            let written = rw differs at outcome in
            let (patch, id) =
              write_byte-IsPatched host laws pid b int3 word w w' placed (omega arith)
                (laws.read_lt pid (b.pc - b.pc % 8) word w.os e)
                (λ i. ((written i).0, (written i).1.1)) in
            (sym (λ i. (written i).1.0), ground arith, patch, id)
      ]

  -- If the byte is an interrupt already ...
  pub enable_refuses :
      (pid : Pid) (b : Breakpoint) (w : World Os) (word : ℕ)
      → IsPlaced b
      → host.ptrace_read pid (b.pc - b.pc % 8) w.os ≡ ok word
      → byte_at b.shift word ≡ int3
      → enable host pid (b, w) ≡ (err unknown_errno, (set_running pid true b, w))
  enable_refuses pid b w word placed e same =
      let c : (byte_at b.shift word == int3) ≡ true = ground arith in
      enable_lem host laws pid b w word placed e ∙ rw c

  pub disable_restores :
      (pid : Pid) (b b' : Breakpoint) (w w' : World Os) (word : ℕ)
      → IsPlaced b
      → host.ptrace_read pid (b.pc - b.pc % 8) w.os ≡ ok word
      → disable host pid (b, w) ≡ (ok tt, (b', w'))
      → (b' ≡ b) × IsPatched host pid b b.data_byte word w.os w'.os × (w'.current_id ≡ w.current_id)
  disable_restores pid b b' w w' word placed e run =
      let outcome = sym (disable_lem host laws pid b w word placed e) ∙ run in
      let (patch, id) =
        write_byte-IsPatched host laws pid b b.data_byte word w w' placed placed.byte_lt
          (laws.read_lt pid (b.pc - b.pc % 8) word w.os e)
          (λ i. ((outcome i).0, (outcome i).1.1)) in
      (sym (λ i. (outcome i).1.0), patch, id)
