-- ===== src/Breakpoint/Create.antt =====
-- `Breakpoint::new` of src/breakpoint.rs: the id that it takes, the byte that it saves, and what
-- the tracee's memory holds afterwards.
use native.Mathlib.Nat.{mod-lt}
use rustybug.Prelude.{
  ℕ, ◌+◌, ◌-◌, ◌*◌, ◌%◌, ◌^◌, ◌<◌, ◌≡◌, ◌≢◌, refl, sym, ap, subst, ◌∙◌, true, [], arith,
}
use rustybug.Prelude.Outcome.{Outcome, ok, err, panic, out_of_fuel, map_ok}
use rustybug.Words.Byte.{byte_at, with_byte, align_down, byte_of_sar}
use rustybug.Host.{Pid, Errno, unknown_errno, Host, World}
use rustybug.Host.Laws.{PtraceLaws}
use rustybug.Ptrace.{read_address}
use rustybug.Breakpoint.{int3, Breakpoint, set_running, enable, disable, new}
use rustybug.Breakpoint.Patch.{IsPlaced, IsPatched, IsPatched-trans, IsPatched-undone}
use rustybug.Breakpoint.Touch.{enable_spares}
use rustybug.Breakpoint.Arm.{enable_arms, enable_refuses, disable_restores}

-- The breakpoint that `new` builds at `pc` in the word `word`, before it enables it.
abbrev pub fresh : ℕ → ℕ → ℕ → Breakpoint
fresh id pc word = record {
  id = id;
  pc = pc;
  data_byte = byte_at (8 * (pc % 8)) word;
  shift = 8 * (pc % 8);
  is_running = [];
}

pub fresh-IsPlaced : (id pc word : ℕ) → pc < 2 ^ 64 → IsPlaced (fresh id pc word)
fresh-IsPlaced id pc word h = record {
  pc_lt = h;
  shift_eq = refl;
  byte_lt = mod-lt _ (omega arith);
}

-- CURRENT_ID after `fetch_add(1)`.
abbrev pub id_taken : {Os : Type 0} → World Os → World Os
id_taken w = record w { current_id = (w.current_id + 1) % 2 ^ 64 }

module _ {Os Regs FpRegs : Type 0} (host : Host Os Regs FpRegs) (laws : PtraceLaws host) where
  new_lem :
      (pid : Pid) (pc word : ℕ) (w : World Os)
      → pc < 2 ^ 64
      → host.ptrace_read pid (pc - pc % 8) w.os ≡ ok word
      → new host pid pc w ≡ (
          let (r, (b', w')) = enable host pid (fresh w.current_id pc word, id_taken w) in
          (map_ok (λ _. b') r, w'))
  unfolding new read_address
  new_lem pid pc word w h e =
      let small = laws.read_lt pid (pc - pc % 8) word w.os e in
      let shift : 8 * (pc - (pc - pc % 8)) ≡ 8 * (pc % 8) = omega arith in
      let byte : byte_at (8 * (pc % 8)) word % 256 ≡ byte_at (8 * (pc % 8)) word = omega arith in
      rw (align_down pc h, e)
        (rw shift (rw (byte_of_sar (pc % 8) word (omega arith) small) (rw byte)))

  -- What a call of `new` leaves behind, by the outcome of the `enable` that it ends with.
  created :
      (m : Outcome Errno (Unit {0}) × (Breakpoint × World Os)) (b : Breakpoint) (w' : World Os)
      → (let (r, (b', w1)) = m in
          ◌≡◌ {A = Outcome Errno Breakpoint × World Os} (map_ok (λ _. b') r, w1) (ok b, w'))
      → m ≡ (ok tt, (b, w'))
  created (ok done, (b', w1)) b w' e = cc
  created (err x, (b', w1)) b w' e = cc
  created (panic, (b', w1)) b w' e = cc
  created (out_of_fuel, (b', w1)) b w' e = cc

  -- If `pc` is below 2^64, the word at `pc` can be read and `new` returns a breakpoint, then that
  -- breakpoint has the id that the counter held, which has moved on by one modulo 2^64, knows the
  -- byte that stood at `pc`, which was no interrupt, and has put an interrupt there; every other
  -- byte of the word and every other word of the process is as it was. The kernel keeps PtraceLaws.
  pub new_arms :
      (pid : Pid) (pc word : ℕ) (b : Breakpoint) (w w' : World Os)
      → pc < 2 ^ 64
      → host.ptrace_read pid (pc - pc % 8) w.os ≡ ok word
      → new host pid pc w ≡ (ok b, w')
      → (b ≡ set_running pid true (fresh w.current_id pc word))
        × (b.data_byte ≢ int3)
        × IsPatched host pid (fresh w.current_id pc word) int3 word w.os w'.os
        × (w'.current_id ≡ (w.current_id + 1) % 2 ^ 64)
  new_arms pid pc word b w w' h e run =
      let enabled =
        created (enable host pid (fresh w.current_id pc word, id_taken w)) b w'
          (sym (new_lem pid pc word w h e) ∙ run) in
      let (same, differs, patch, id) =
        enable_arms host laws pid (fresh w.current_id pc word) b (id_taken w) w' word
          (fresh-IsPlaced w.current_id pc word h) e enabled in
      (same, rw same differs, patch, id)

  failed :
      (m : Outcome Errno (Unit {0}) × (Breakpoint × World Os)) (x : Errno) (w' : World Os)
      → (let (r, (b', w1)) = m in
          ◌≡◌ {A = Outcome Errno Breakpoint × World Os} (map_ok (λ _. b') r, w1) (err x, w'))
      → (b' : Breakpoint) × (m ≡ (err x, (b', w')))
  failed (ok done, (b', w1)) x w' e = absurd (cc e)
  failed (err y, (b', w1)) x w' e = (b', cc)
  failed (panic, (b', w1)) x w' e = absurd (cc e)
  failed (out_of_fuel, (b', w1)) x w' e = absurd (cc e)

  -- A failed `new` has written nothing.
  pub new_spares :
      (pid : Pid) (pc : ℕ) (x : Errno) (w w' : World Os) (found : Outcome Errno ℕ)
      → pc < 2 ^ 64
      → host.ptrace_read pid (pc - pc % 8) w.os ≡ found
      → new host pid pc w ≡ (err x, w')
      → (c : ℕ) → host.ptrace_read pid c w'.os ≡ host.ptrace_read pid c w.os
  unfolding new read_address
  new_spares pid pc x w w' (ok word) h e run c =
      let (b', ran) =
        failed (enable host pid (fresh w.current_id pc word, id_taken w)) x w'
          (sym (new_lem pid pc word w h e) ∙ run) in
      (enable_spares host laws pid (fresh w.current_id pc word) b' (id_taken w) w' word x
          (fresh-IsPlaced w.current_id pc word h) e ran).1
        c
  new_spares pid pc x w w' (err y) h e run c =
      let stop = rw (align_down pc h, e) at run in
      ap (λ (v : World Os). host.ptrace_read pid c v.os) (sym (λ i. (stop i).1))
  new_spares pid pc x w w' panic h e run c = absurd (cc (rw (align_down pc h, e) at run))
  new_spares pid pc x w w' out_of_fuel h e run c = absurd (cc (rw (align_down pc h, e) at run))

  -- A `new` that succeeds has read the word.
  pub new_reads :
      (pid : Pid) (pc : ℕ) (b : Breakpoint) (w w' : World Os) (found : Outcome Errno ℕ)
      → pc < 2 ^ 64
      → host.ptrace_read pid (pc - pc % 8) w.os ≡ found
      → new host pid pc w ≡ (ok b, w')
      → (word : ℕ) × (host.ptrace_read pid (pc - pc % 8) w.os ≡ ok word)
  unfolding new read_address
  new_reads pid pc b w w' (ok word) h e run = (word, e)
  new_reads pid pc b w w' (err y) h e run = absurd (cc (rw (align_down pc h, e) at run))
  new_reads pid pc b w w' panic h e run = absurd (cc (rw (align_down pc h, e) at run))
  new_reads pid pc b w w' out_of_fuel h e run = absurd (cc (rw (align_down pc h, e) at run))

  -- If `pc` is below 2^64, the word at `pc` can be read and the byte there is an interrupt already,
  -- then `new` fails with the unknown error; nothing changes, but an id is used up. The kernel keeps
  -- PtraceLaws.
  pub new_refuses :
      (pid : Pid) (pc word : ℕ) (w : World Os)
      → pc < 2 ^ 64
      → host.ptrace_read pid (pc - pc % 8) w.os ≡ ok word
      → byte_at (8 * (pc % 8)) word ≡ int3
      → new host pid pc w ≡ (err unknown_errno, id_taken w)
  new_refuses pid pc word w h e same =
      new_lem pid pc word w h e
      ∙ rw (
          enable_refuses host laws pid (fresh w.current_id pc word) (id_taken w) word
            (fresh-IsPlaced w.current_id pc word h) e same)

  -- If `pc` is below 2^64, the word at `pc` can be read, `new` returns a breakpoint there and
  -- `disable` on it succeeds, then every aligned word of the process is again what it was before.
  -- The kernel keeps PtraceLaws.
  pub disable-new :
      (pid : Pid) (pc word : ℕ) (b b' : Breakpoint) (w w' w'' : World Os)
      → pc < 2 ^ 64
      → host.ptrace_read pid (pc - pc % 8) w.os ≡ ok word
      → new host pid pc w ≡ (ok b, w')
      → disable host pid (b, w') ≡ (ok tt, (b', w''))
      → (c : ℕ) → c % 8 ≡ 0
      → host.ptrace_read pid c w''.os ≡ host.ptrace_read pid c w.os
  disable-new pid pc word b b' w w' w'' h e run undo c hc =
      let (same, differs, patch, id) = new_arms pid pc word b w w' h e run in
      let b0 = fresh w.current_id pc word in
      let b1 = set_running pid true b0 in
      let placed = fresh-IsPlaced w.current_id pc word h in
      let undo' =
        subst (λ (x : Breakpoint). disable host pid (x, w') ≡ (ok tt, (b', w''))) same undo in
      let restored =
        (disable_restores host laws pid b1 b' w' w'' (with_byte b0.shift int3 word)
          (record { pc_lt = h; shift_eq = refl; byte_lt = placed.byte_lt }) patch.here undo').1 in
      IsPatched-undone host pid b0 word w.os w''.os e
        (IsPatched-trans host pid b0 int3 b0.data_byte word w.os w'.os w''.os (omega arith) patch
          (record { here = restored.here; elsewhere = restored.elsewhere }))
        c hc
