-- ===== src/Process/Exec/Refine.antt =====
-- `set_breakpoint` of src/process.rs puts an address into the set of armed ones.
use rustybug.Prelude.{
  ℕ, ◌+◌, ◌-◌, ◌*◌, ◌%◌, ◌^◌, ◌<◌, ◌≡◌, refl, ap, ◌∙◌, Bool, true, List, [], ◌∷◌, ◌++◌, All-append,
  arith,
}
use rustybug.Prelude.Outcome.{Outcome, ok, err, panic, out_of_fuel}
use rustybug.Words.Byte.{byte_at}
use rustybug.Host.{Pid, Errno, Host, World}
use rustybug.Host.Laws.{PtraceLaws}
use rustybug.Breakpoint.{int3, Breakpoint, set_running, new}
use rustybug.Breakpoint.Patch.{running-IsPlaced}
use rustybug.Breakpoint.Create.{fresh, fresh-IsPlaced, new_arms, new_reads, new_spares}
use rustybug.Breakpoint.Overlay.{Program, put, IsPatched-Shows}
use rustybug.Breakpoint.Toggle.{entry-set_running}
use rustybug.Process.{ProcessError, Process}
use rustybug.Process.Exec.{set_breakpoint}
use rustybug.Process.Exec.Armed.{
  armed_of, Fits, IsFree, armed_of-IsFree, armed_of-snoc, DistinctPcs-snoc, IsOverlaid, Shows-ext,
  Shows-kept,
}

module _ {Os Regs FpRegs : Type 0} (host : Host Os Regs FpRegs) where
  -- What is left of a call of `set_breakpoint`, by its outcome: the address is armed, and no other
  -- has changed; or the process is as before, and so is the overlay.
  abbrev pub Arms : ℕ → Program → Process → Process → Os → Outcome ProcessError ℕ → Type 0
  Arms addr program p p' os' (ok id) =
      IsOverlaid host p.pid program p'.breakpoints os'
      × (p'.pid ≡ p.pid)
      × ((a : ℕ) → armed_of p.pid p'.breakpoints a ≡ put addr true (armed_of p.pid p.breakpoints) a)
  Arms addr program p p' os' (err e) = (p' ≡ p) × IsOverlaid host p.pid program p.breakpoints os'
  Arms addr program p p' os' panic = Unit
  Arms addr program p p' os' out_of_fuel = Unit

  module _ (laws : PtraceLaws host) where
    -- Where nothing is armed, memory has the program's byte.
    program_byte :
        (program : Program) (pid : Pid) (addr word : ℕ) (bs : List Breakpoint) (os : Os)
        → IsFree addr bs
        → program.is_code (addr - addr % 8) ≡ true
        → IsOverlaid host pid program bs os
        → host.ptrace_read pid (addr - addr % 8) os ≡ ok word
        → byte_at (8 * (addr % 8)) word ≡ program.image addr
    program_byte program pid addr word bs os free hcode over e =
        let at : addr - addr % 8 + addr % 8 ≡ addr = omega arith in
        let shown =
          over.shows (addr - addr % 8) (addr % 8) word (omega arith) hcode (omega arith) e in
        rw (at, armed_of-IsFree pid addr bs free) at shown

    armed_by_new :
        (program : Program) (pid : Pid) (addr word : ℕ) (bs : List Breakpoint) (b : Breakpoint)
        (w w1 : World Os)
        → addr < 2 ^ 64
        → IsFree addr bs
        → program.is_code (addr - addr % 8) ≡ true
        → IsOverlaid host pid program bs w.os
        → host.ptrace_read pid (addr - addr % 8) w.os ≡ ok word
        → new host pid addr w ≡ (ok b, w1)
        → IsOverlaid host pid program (bs ++ b ∷ []) w1.os
          × ((a : ℕ) → armed_of pid (bs ++ b ∷ []) a ≡ put addr true (armed_of pid bs) a)
    armed_by_new program pid addr word bs b w w1 h free hcode over e run =
        let (same, differs, patch, id) = new_arms host laws pid addr word b w w1 h e run in
        let b0 = fresh w.current_id addr word in
        let placed = fresh-IsPlaced w.current_id addr word h in
        let byte = program_byte program pid addr word bs w.os free hcode over e in
        let set = λ (a : ℕ).
          armed_of-snoc pid a bs (set_running pid true b0) free
          ∙ ap (λ (on : Bool). put addr on (armed_of pid bs) a) (entry-set_running pid true b0) in
        rw same (
          record {
            fits =
                All-append (Fits program) bs (set_running pid true b0 ∷ []) over.fits
                  ((running-IsPlaced pid true b0 placed, byte), tt);
            distinct = DistinctPcs-snoc bs (set_running pid true b0) free over.distinct;
            shows =
                Shows-ext host pid program (put addr true (armed_of pid bs))
                  (armed_of pid (bs ++ set_running pid true b0 ∷ [])) w1.os set
                  (IsPatched-Shows host pid program (armed_of pid bs) b0 true int3 word w.os w1.os
                    placed (omega arith) refl e patch over.shows);
          },
          set,
        )

    set_by_new :
        (addr : ℕ) (program : Program) (p : Process) (w w1 : World Os)
        (r : Outcome Errno Breakpoint)
        → addr < 2 ^ 64
        → IsFree addr p.breakpoints
        → program.is_code (addr - addr % 8) ≡ true
        → IsOverlaid host p.pid program p.breakpoints w.os
        → new host p.pid addr w ≡ (r, w1)
        → (let (r', (p', w')) = set_breakpoint host addr (p, w) in Arms addr program p p' w'.os r')
    unfolding set_breakpoint
    set_by_new addr program p w w1 (ok b) h free hcode over run =
        let (word, e) = new_reads host laws p.pid addr b w w1 _ h refl run in
        let (over', armed) =
          armed_by_new program p.pid addr word p.breakpoints b w w1 h free hcode over e run in
        rw (set_breakpoint, run) (over', refl, armed)
    set_by_new addr program p w w1 (err x) h free hcode over run =
        rw (set_breakpoint, run)
          (
            refl,
            record {
              fits = over.fits;
              distinct = over.distinct;
              shows =
                  Shows-kept host p.pid program (armed_of p.pid p.breakpoints) w.os w1.os
                    (λ c _ _. new_spares host laws p.pid addr x w w1 _ h refl run c) over.shows;
            },
          )
    set_by_new addr program p w w1 panic h free hcode over run = rw (set_breakpoint, run) tt
    set_by_new addr program p w w1 out_of_fuel h free hcode over run = rw (set_breakpoint, run) tt

    -- If the address is below 2^64 and in the program's code, none of the process's breakpoints
    -- stands there, each of them is well placed with the program's byte saved, no two are at one
    -- address, and the code in memory is the program's with interrupts at the armed addresses, then a
    -- call of `set_breakpoint` that succeeds leaves it so with just this address armed too, and the
    -- pid as it was; one that fails leaves the process as it was and the same overlay in memory. The
    -- kernel keeps PtraceLaws.
    pub set_breakpoint-Arms :
        (addr : ℕ) (program : Program) (p : Process) (w : World Os)
        → addr < 2 ^ 64
        → IsFree addr p.breakpoints
        → program.is_code (addr - addr % 8) ≡ true
        → IsOverlaid host p.pid program p.breakpoints w.os
        → (let (r, (p', w')) = set_breakpoint host addr (p, w) in Arms addr program p p' w'.os r)
    set_breakpoint-Arms addr program p w h free hcode over =
        let (r, w1) = new host p.pid addr w in
        set_by_new addr program p w w1 r h free hcode over refl
