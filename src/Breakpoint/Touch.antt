-- ===== src/Breakpoint/Touch.antt =====
-- `jump_to` and `enable` of src/breakpoint.rs, as `process` calls them: the program counter is moved,
-- and whatever comes of enabling, at most the breakpoint's own byte is touched.
use native.Mathlib.Nat.{mod-lt}
use rustybug.Prelude.{
  ℕ, ◌-◌, ◌*◌, ◌%◌, ◌^◌, ◌<◌, ◌≡◌, ◌≢◌, sym, ap, ◌∙◌, true, ◌==◌, arith, Bool-cases, inl, inr,
}
use rustybug.Prelude.Outcome.{Outcome, ok, err, panic, out_of_fuel, Returned, pure, run_then-eq-ok}
use rustybug.Words.Byte.{byte_at, with_byte, with_byte-byte_at}
use rustybug.Host.{Pid, Errno, Host, World, on_os, on_world}
use rustybug.Host.Laws.{PtraceLaws}
use rustybug.Ptrace.{current_instruction_pointer, set_instruction_pointer}
use rustybug.Breakpoint.{int3, Breakpoint, set_running, enable, jump_to}
use rustybug.Breakpoint.Patch.{IsPlaced, IsPatched, enable_lem}
use rustybug.Breakpoint.Arm.{enable_arms}

module _ {Os Regs FpRegs : Type 0} (host : Host Os Regs FpRegs) (laws : PtraceLaws host) where
  -- The program counter is set by a call that reports no error, and read back; no memory changes.
  set_instruction_pointer_lem :
      (pid : Pid) (pc n : ℕ) (os os' : Os)
      → pc < 2 ^ 64
      → set_instruction_pointer host pid pc os ≡ (ok n, os')
      → (current_instruction_pointer host pid os' ≡ ok pc)
        × ((c : ℕ) → host.ptrace_read pid c os' ≡ host.ptrace_read pid c os)
  unfolding set_instruction_pointer current_instruction_pointer
  set_instruction_pointer_lem pid pc n os os' h run =
      let ((ret, e), os1) = host.poke_user pid (16 * 8) pc os in
      let good : ret ≢ 2 ^ 64 - 1 = ground arith in
      let end : os1 ≡ os' = λ i. (run i).1 in
      let poked : host.poke_user pid (16 * 8) pc os ≡ ((ret, e), os') = λ i. ((ret, e), end i) in
      let (e', peeked, quiet) = laws.peek_poked pid pc ret e os os' h good poked in
      (ground arith, λ c. laws.read_poked pid pc c ret e os os' poked)

  pub jump_to_lem :
      (pid : Pid) (b b' : Breakpoint) (w w' : World Os)
      → b.pc < 2 ^ 64
      → jump_to host pid (b, w) ≡ (ok tt, (b', w'))
      → (b' ≡ b)
        × (current_instruction_pointer host pid w'.os ≡ ok b.pc)
        × ((c : ℕ) → host.ptrace_read pid c w'.os ≡ host.ptrace_read pid c w.os)
  unfolding jump_to
  jump_to_lem pid b b' w w' h run =
      let (n, mid, poked, rest) =
        run_then-eq-ok (on_world (on_os (set_instruction_pointer host pid b.pc)) (b, w))
          (λ _. pure tt) tt (b', w') run in
      let poked' : set_instruction_pointer host pid b.pc w.os ≡ (ok n, w'.os) =
        (λ i. ((poked i).0, (poked i).1.1.os)) ∙ (λ i. (ok n, (rest i).1.1.os)) in
      let (there, kept) = set_instruction_pointer_lem pid b.pc n w.os w'.os h poked' in
      (sym ((λ i. (poked i).1.0) ∙ (λ i. (rest i).1.0)), there, kept)

  -- Memory that has not changed is memory patched with the byte that it had.
  untouched :
      (pid : Pid) (b : Breakpoint) (word : ℕ) (os os' : Os)
      → host.ptrace_read pid (b.pc - b.pc % 8) os ≡ ok word
      → ((c : ℕ) → host.ptrace_read pid c os' ≡ host.ptrace_read pid c os)
      → (v : ℕ) × (v < 256) × IsPatched host pid b v word os os'
  untouched pid b word os os' e kept = (
    byte_at b.shift word,
    mod-lt _ (omega arith),
    record {
      here = kept _ ∙ e ∙ ap (λ (v : ℕ). ok v) (sym (with_byte-byte_at b.shift word));
      elsewhere = λ c hc ne. kept c;
    },
  )

  -- A failed `enable` has written nothing: the interrupt was there already, or the write failed.
  pub enable_spares :
      (pid : Pid) (b b' : Breakpoint) (w w' : World Os) (word : ℕ) (x : Errno)
      → IsPlaced b
      → host.ptrace_read pid (b.pc - b.pc % 8) w.os ≡ ok word
      → enable host pid (b, w) ≡ (err x, (b', w'))
      → (b' ≡ set_running pid true b)
        × ((c : ℕ) → host.ptrace_read pid c w'.os ≡ host.ptrace_read pid c w.os)
  enable_spares pid b b' w w' word x placed e run =
      let outcome = sym (enable_lem host laws pid b w word placed e) ∙ run in
      elim (Bool-cases (byte_at b.shift word == int3)) [
        | inl same ↦
            let stop = rw same at outcome in
            (sym (λ i. (stop i).1.0), λ c. sym (λ i. host.ptrace_read pid c (stop i).1.1.os))
        | inr differs ↦
            let stop = rw differs at outcome in
            (
              sym (λ i. (stop i).1.0),
              λ c.
                  laws.read_unwritten pid (b.pc - b.pc % 8) (with_byte b.shift int3 word) c x w.os
                    w'.os (λ i. ((stop i).0, (stop i).1.1.os)),
            )
      ]

  -- Whatever comes of `enable`, short of a panic: the entry of `pid` is set, and at most the
  -- breakpoint's own byte has changed.
  pub enable_touches :
      (pid : Pid) (b b' : Breakpoint) (w w' : World Os) (word : ℕ) (r : Outcome Errno (Unit {0}))
      → IsPlaced b
      → host.ptrace_read pid (b.pc - b.pc % 8) w.os ≡ ok word
      → Returned r
      → enable host pid (b, w) ≡ (r, (b', w'))
      → (b' ≡ set_running pid true b)
        × ((v : ℕ) × (v < 256) × IsPatched host pid b v word w.os w'.os)
  enable_touches pid b b' w w' word (ok done) placed e live run =
      let (same, _, patch, _) = enable_arms host laws pid b b' w w' word placed e run in
      (same, (int3, omega arith, patch))
  enable_touches pid b b' w w' word panic placed e live run = absurd live
  enable_touches pid b b' w w' word out_of_fuel placed e live run = absurd live
  enable_touches pid b b' w w' word (err x) placed e live run =
      let (same, kept) = enable_spares pid b b' w w' word x placed e run in
      (same, untouched pid b word w.os w'.os e kept)
