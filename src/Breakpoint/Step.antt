-- ===== src/Breakpoint/Step.antt =====
-- `Breakpoint::process` of src/breakpoint.rs, which `Process::resume` and `Process::step` run at a
-- breakpoint that was hit: it takes the interrupt out on one visit and puts it back on the next.
use rustybug.Prelude.{ℕ, ◌-◌, ◌%◌, ◌<◌, ◌≡◌, sym, ap, subst, ◌∙◌, Bool, true, false, arith}
use rustybug.Prelude.Dict.{lookup}
use rustybug.Prelude.Outcome.{ok, pure, modify, ignore, ignore-Returned, ◌>>◌, run_then-eq-ok}
use rustybug.Words.Byte.{with_byte}
use rustybug.Host.{Pid, Errno, Host, World}
use rustybug.Host.Laws.{PtraceLaws}
use rustybug.Ptrace.{current_instruction_pointer}
use rustybug.Breakpoint.{
  int3, Breakpoint, set_running, running_or_true, enable, disable, jump_to, step, process,
}
use rustybug.Breakpoint.Patch.{IsPlaced, running-IsPlaced, IsPatched, IsPatched-trans}
use rustybug.Breakpoint.Touch.{jump_to_lem, enable_touches}
use rustybug.Breakpoint.Arm.{enable_arms, disable_restores}

module _ {Os Regs FpRegs : Type 0} (host : Host Os Regs FpRegs) where
  -- What `process` has done on a visit that takes the interrupt out: the byte that `new` saved is
  -- back, no other has changed, the program counter is on it, and the entry of `pid` is false.
  abbrev pub IsDisarmed : Pid → Breakpoint → Breakpoint → ℕ → Os → Os → Type 0
  IsDisarmed pid b b' word os os' =
      (b' ≡ set_running pid false (set_running pid true b))
      × IsPatched host pid b b.data_byte word os os'
      × (current_instruction_pointer host pid os' ≡ ok b.pc)

module _ {Os Regs FpRegs : Type 0} (host : Host Os Regs FpRegs) (laws : PtraceLaws host) where
  -- `step` takes the interrupt out and moves the program counter back to it.
  step_lem :
      (pid : Pid) (b b' : Breakpoint) (w w' : World Os) (word : ℕ)
      → IsPlaced b
      → host.ptrace_read pid (b.pc - b.pc % 8) w.os ≡ ok word
      → step host pid (b, w) ≡ (ok tt, (b', w'))
      → (b' ≡ b)
        × IsPatched host pid b b.data_byte word w.os w'.os
        × (current_instruction_pointer host pid w'.os ≡ ok b.pc)
  unfolding step
  step_lem pid b b' w w' word placed e run =
      let (_, (b1, w1), out, rest) =
        run_then-eq-ok (disable host pid (b, w)) (λ _. do jump_to host pid; pure tt) tt (b', w')
          run in
      let (_, (b2, w2), jump, done) =
        run_then-eq-ok (jump_to host pid (b1, w1)) (λ _. pure tt) tt (b', w') rest in
      let (same, patch, _) = disable_restores host laws pid b b1 w w1 word placed e out in
      let pc_kept : b1.pc ≡ b.pc = ap (λ (x : Breakpoint). x.pc) same in
      let (same', there, kept) =
        jump_to_lem host laws pid b1 b2 w1 w2 (rw pc_kept placed.pc_lt) jump in
      let mem : w2.os ≡ w'.os = λ i. (done i).1.1.os in
      (
        sym (λ i. (done i).1.0) ∙ same' ∙ same,
        record {
          here = rw (← mem) (kept _ ∙ patch.here);
          elsewhere = λ c hc ne. rw (← mem) (kept c ∙ patch.elsewhere c hc ne);
        },
        rw (← mem) (there ∙ ap (λ (v : ℕ). ok v) pc_kept),
      )

  running-IsPatched :
      (pid : Pid) (r : Bool) (b : Breakpoint) (v word : ℕ) (os os' : Os)
      → IsPatched host pid (set_running pid r b) v word os os'
      → IsPatched host pid b v word os os'
  running-IsPatched pid r b v word os os' p = record { here = p.here; elsewhere = p.elsewhere }

  step_out :
      (pid : Pid) (r : Bool) (b b1 b' : Breakpoint) (w w1 w' : World Os) (word v : ℕ)
      → IsPlaced b
      → v < 256
      → b1 ≡ set_running pid true b
      → IsPatched host pid b v word w.os w1.os
      → (do step host pid; modify (λ (b, w). (set_running pid false b, w)); pure true) (b1, w1)
        ≡ (ok r, (b', w'))
      → (r ≡ true) × IsDisarmed host pid b b' word w.os w'.os
  step_out pid r b b1 b' w w1 w' word v placed hv same patch run =
      let (_, (b2, w2), stepped, done) =
        run_then-eq-ok (step host pid (b1, w1))
          (λ _. do modify (λ (b, w). (set_running pid false b, w)); pure true) r (b', w') run in
      let (same', out, there) =
        step_lem pid (set_running pid true b) b2 w1 w2 (with_byte b.shift v word)
          (running-IsPlaced pid true b placed) patch.here
          (subst (λ (x : Breakpoint). step host pid (x, w1) ≡ (ok tt, (b2, w2))) same stepped) in
      let restored =
        IsPatched-trans host pid b v b.data_byte word w.os w1.os w2.os hv patch
          (running-IsPatched pid true b b.data_byte (with_byte b.shift v word) w1.os w2.os out) in
      let mem : w2.os ≡ w'.os = λ i. (done i).1.1.os in
      (
        ground arith,
        (
          sym (λ i. (done i).1.0) ∙ ap (set_running pid false) same',
          subst (λ (x : Os). IsPatched host pid b b.data_byte word w.os x) mem restored,
          rw (← mem) there,
        ),
      )

  -- If the breakpoint is well placed, its word can be read, its entry for `pid` is true or missing
  -- and a call of `process` succeeds, then the call returns true and
  -- the breakpoint is disarmed: the saved byte is back in memory, every other word is as it was,
  -- the program counter stands on the breakpoint, and the entry is false. What `enable` did on the
  -- way, and whether the caller asked to re-enable, makes no difference. The kernel keeps PtraceLaws.
  pub process_disarms :
      (pid : Pid) (reenable r : Bool) (b b' : Breakpoint) (w w' : World Os) (word : ℕ)
      → IsPlaced b
      → host.ptrace_read pid (b.pc - b.pc % 8) w.os ≡ ok word
      → running_or_true (lookup pid b.is_running) ≡ true
      → process host pid reenable (b, w) ≡ (ok r, (b', w'))
      → (r ≡ true) × IsDisarmed host pid b b' word w.os w'.os
  unfolding process
  process_disarms pid reenable r b b' w w' word placed e running run =
      let (_, (b1, w1), first, rest) =
        run_then-eq-ok (ignore {E = Errno} (enable host pid) (b, w))
          (λ _. do step host pid; modify (λ (b, w). (set_running pid false b, w)); pure true) r
          (b', w') (rw running at run) in
      let (same, (v, hv, patch)) =
        enable_touches host laws pid b b1 w w1 word (enable host pid (b, w)).0 placed e
          (ignore-Returned {F = Errno} (enable host pid (b, w)) tt (b1, w1) first)
          (λ i. ((enable host pid (b, w)).0, (first i).1)) in
      step_out pid r b b1 b' w w1 w' word v placed hv same patch rest

  -- If the breakpoint is well placed, its word can be read, its entry for `pid` is false and a call
  -- of `process` with `reenable` set succeeds, then the call returns false, the interrupt is at the
  -- breakpoint's place, every other byte and word is as it was, and the entry is true again. The
  -- kernel keeps PtraceLaws.
  pub process_rearms :
      (pid : Pid) (r : Bool) (b b' : Breakpoint) (w w' : World Os) (word : ℕ)
      → IsPlaced b
      → host.ptrace_read pid (b.pc - b.pc % 8) w.os ≡ ok word
      → running_or_true (lookup pid b.is_running) ≡ false
      → process host pid true (b, w) ≡ (ok r, (b', w'))
      → (r ≡ false)
        × (b' ≡ set_running pid true (set_running pid true b))
        × IsPatched host pid b int3 word w.os w'.os
  unfolding process
  process_rearms pid r b b' w w' word placed e resting run =
      let (_, (b1, w1), out, rest) =
        run_then-eq-ok (disable host pid (b, w))
          (λ _. do enable host pid; modify (λ (b, w). (set_running pid true b, w)); pure false) r
          (b', w') (rw resting at run) in
      let (same, patch, _) = disable_restores host laws pid b b1 w w1 word placed e out in
      let (_, (b2, w2), armed, done) =
        run_then-eq-ok (enable host pid (b1, w1))
          (λ _. do modify (λ (b, w). (set_running pid true b, w)); pure false) r (b', w') rest in
      let (same', _, patch', _) =
        enable_arms host laws pid b b2 w1 w2 (with_byte b.shift b.data_byte word) placed patch.here
          (subst (λ (x : Breakpoint). enable host pid (x, w1) ≡ (ok tt, (b2, w2))) same armed) in
      let both =
        IsPatched-trans host pid b b.data_byte int3 word w.os w1.os w2.os placed.byte_lt patch
          patch' in
      (
        ground arith,
        sym (λ i. (done i).1.0) ∙ ap (set_running pid true) same',
        subst (λ (x : Os). IsPatched host pid b int3 word w.os x) (λ i. (done i).1.1.os) both,
      )
