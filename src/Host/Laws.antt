-- ===== src/Host/Laws.antt =====
-- What the code relies on in the ptrace calls, as ptrace(2) documents it. A word is read back
-- after it was written; a write changes one aligned word of one process, and none if it fails; the
-- instruction pointer is a register of its own.
use rustybug.Prelude.{ℕ, ◌-◌, ◌*◌, ◌%◌, ◌^◌, ◌<◌, ◌≡◌, ◌≢◌, Bool}
use rustybug.Prelude.Outcome.{ok, err, Returned}
use rustybug.Host.{Pid, Errno, Host}

-- The offset of `rip` in the user area: PC_INDEX * size_of::<usize>().
abbrev pub pc_offset : ℕ
pc_offset = 16 * 8

module _ {Os Regs FpRegs : Type 0} where
  pub record PtraceLaws (host : Host Os Regs FpRegs) : Type 0 where
    pub read_lt : (pid : Pid) (a v : ℕ) (os : Os) → host.ptrace_read pid a os ≡ ok v → v < 2 ^ 64
    pub read_written :
        (pid : Pid) (a v : ℕ) (os os' : Os)
        → v < 2 ^ 64
        → host.ptrace_write pid a v os ≡ (ok tt, os')
        → host.ptrace_read pid a os' ≡ ok v
    pub read_elsewhere :
        (pid : Pid) (a v c : ℕ) (os os' : Os)
        → a % 8 ≡ 0
        → c % 8 ≡ 0
        → c ≢ a
        → host.ptrace_write pid a v os ≡ (ok tt, os')
        → host.ptrace_read pid c os' ≡ host.ptrace_read pid c os
    pub read_unwritten :
        (pid : Pid) (a v c : ℕ) (e : Errno) (os os' : Os)
        → host.ptrace_write pid a v os ≡ (err e, os')
        → host.ptrace_read pid c os' ≡ host.ptrace_read pid c os
    -- A POKEUSER that succeeds returns 0, which is no -1; PEEKUSER then gives the value, with
    -- `errno` at 0 if it looks like an error. It writes no memory.
    pub peek_poked :
        (pid : Pid) (v ret e : ℕ) (os os' : Os)
        → v < 2 ^ 64
        → ret ≢ 2 ^ 64 - 1
        → host.poke_user pid pc_offset v os ≡ ((ret, e), os')
        → (e' : ℕ) × (host.peek_user pid pc_offset os' ≡ (v, e')) × (v ≡ 2 ^ 64 - 1 → e' ≡ 0)
    pub read_poked :
        (pid : Pid) (v c ret e : ℕ) (os os' : Os)
        → host.poke_user pid pc_offset v os ≡ ((ret, e), os')
        → host.ptrace_read pid c os' ≡ host.ptrace_read pid c os

  -- The clock moves on at each wait, and waitpid(2) as nix wraps it returns.
  pub record WaitLaws (host : Host Os Regs FpRegs) : Type 0 where
    pub later :
        (pid : Pid) (nohang : Bool) (os : Os)
        → host.now os < host.now (host.waitpid pid nohang os).1
    pub returns : (pid : Pid) (nohang : Bool) (os : Os) → Returned (host.waitpid pid nohang os).0
