-- ===== src/Breakpoint/Toggle.antt =====
-- `Breakpoint::process` of src/breakpoint.rs as one operation: it turns the breakpoint's entry for the
-- process over, and the byte in memory with it.
use rustybug.Prelude.{
  ℕ, ◌-◌, ◌%◌, ◌^◌, ◌<◌, ◌≡◌, refl, sym, ap, ◌∙◌, Bool, true, false, not, some, List, [], ◌∷◌,
  if◌then◌else◌, arith, Bool-cases, inl, inr,
}
use rustybug.Prelude.Dict.{lookup, insert}
use rustybug.Prelude.Outcome.{Outcome, ok, err, panic, out_of_fuel}
use rustybug.Host.{Pid, Errno, Host, World}
use rustybug.Host.Laws.{PtraceLaws}
use rustybug.Breakpoint.{
  int3, Breakpoint, set_running, running_or_true, process, step, enable, disable,
}
use rustybug.Ptrace.{read_address}
use rustybug.Breakpoint.Patch.{IsPlaced, aligned_address_lem, IsPatched}
use rustybug.Breakpoint.Step.{process_disarms, process_rearms}

pub lookup-insert_self :
    {V : Type 0} (key : ℕ) (v : V) (m : List (ℕ × V)) → lookup key (insert key v m) ≡ some v
unfolding lookup insert
lookup-insert_self key v [] = ground arith
lookup-insert_self key v ((at, here) ∷ more) = ground (arith, lookup-insert_self key v more)

-- The breakpoint's entry for the process: where there is none it counts as true.
abbrev pub entry : Pid → Breakpoint → Bool
entry pid b = running_or_true (lookup pid b.is_running)

pub entry-set_running :
    (pid : Pid) (r : Bool) (b : Breakpoint) → entry pid (set_running pid r b) ≡ r
entry-set_running pid r b = ap running_or_true (lookup-insert_self pid r b.is_running)

module _ {Os Regs FpRegs : Type 0} (host : Host Os Regs FpRegs) where
  -- The breakpoint has its entry turned over and is else the same, and its byte in memory is the
  -- saved one if the entry was true, and an interrupt if it was false.
  pub record IsToggled (pid : Pid) (b b' : Breakpoint) (word : ℕ) (os os' : Os) : Type 0 where
    pub pc_eq : b'.pc ≡ b.pc
    pub data_byte_eq : b'.data_byte ≡ b.data_byte
    pub shift_eq : b'.shift ≡ b.shift
    pub entry_eq : entry pid b' ≡ not (entry pid b)
    pub patch : IsPatched host pid b (if entry pid b then b.data_byte else int3) word os os'

  twice-IsToggled :
      (pid : Pid) (b b' : Breakpoint) (r was : Bool) (word : ℕ) (os os' : Os)
      → b' ≡ set_running pid r (set_running pid true b)
      → entry pid b ≡ was
      → r ≡ not was
      → IsPatched host pid b (if was then b.data_byte else int3) word os os'
      → IsToggled pid b b' word os os'
  twice-IsToggled pid b b' r was word os os' same e flip patch = record {
    pc_eq = ap (λ (x : Breakpoint). x.pc) same;
    data_byte_eq = ap (λ (x : Breakpoint). x.data_byte) same;
    shift_eq = ap (λ (x : Breakpoint). x.shift) same;
    entry_eq =
        ap (entry pid) same
        ∙ entry-set_running pid r (set_running pid true b)
        ∙ flip
        ∙ ap not (sym e);
    patch = rw e patch;
  }

  step_unread :
      (pid : Pid) (b : Breakpoint) (w : World Os) (x : Errno)
      → b.pc < 2 ^ 64
      → host.ptrace_read pid (b.pc - b.pc % 8) w.os ≡ err x
      → step host pid (b, w) ≡ (err x, (b, w))
  unfolding step disable read_address
  step_unread pid b w x h e = rw (aligned_address_lem b h, e)

  -- A visit that succeeds has read the breakpoint's word.
  pub process_reads :
      (pid : Pid) (r reenable : Bool) (b b' : Breakpoint) (w w' : World Os)
      (found : Outcome Errno ℕ)
      → b.pc < 2 ^ 64
      → host.ptrace_read pid (b.pc - b.pc % 8) w.os ≡ found
      → process host pid reenable (b, w) ≡ (ok r, (b', w'))
      → (word : ℕ) × (host.ptrace_read pid (b.pc - b.pc % 8) w.os ≡ ok word)
  unfolding process step enable disable read_address
  process_reads pid r reenable b b' w w' (ok word) h e run = (word, e)
  process_reads pid r reenable b b' w w' (err x) h e run = elim (Bool-cases (entry pid b)) [
    | inl on ↦
        absurd (cc (rw (step_unread pid b w x h e) at (rw (on, aligned_address_lem b h, e) at run)))
    | inr off ↦ absurd (cc (rw (off, aligned_address_lem b h, e) at run))
  ]
  process_reads pid r reenable b b' w w' panic h e run = elim (Bool-cases (entry pid b)) [
    | inl on ↦ absurd (cc (rw (on, aligned_address_lem b h, e) at run))
    | inr off ↦ absurd (cc (rw (off, aligned_address_lem b h, e) at run))
  ]
  process_reads pid r reenable b b' w w' out_of_fuel h e run = elim (Bool-cases (entry pid b)) [
    | inl on ↦ absurd (cc (rw (on, aligned_address_lem b h, e) at run))
    | inr off ↦ absurd (cc (rw (off, aligned_address_lem b h, e) at run))
  ]

  module _ (laws : PtraceLaws host) where
    pub process-IsToggled :
        (pid : Pid) (r : Bool) (b b' : Breakpoint) (w w' : World Os) (word : ℕ)
        → IsPlaced b
        → host.ptrace_read pid (b.pc - b.pc % 8) w.os ≡ ok word
        → process host pid true (b, w) ≡ (ok r, (b', w'))
        → (r ≡ entry pid b) × IsToggled pid b b' word w.os w'.os
    process-IsToggled pid r b b' w w' word placed e run =
        elim (Bool-cases (entry pid b))
          as (λ _. (r ≡ entry pid b) × IsToggled pid b b' word w.os w'.os) [
            | inl on ↦
                let (was, (same, patch, there)) =
                  process_disarms host laws pid true r b b' w w' word placed e on run in
                (
                  was ∙ sym on,
                  twice-IsToggled pid b b' false true word w.os w'.os same on refl patch,
                )
            | inr off ↦
                let (was, same, patch) =
                  process_rearms host laws pid r b b' w w' word placed e off run in
                (
                  was ∙ sym off,
                  twice-IsToggled pid b b' true false word w.os w'.os same off refl patch,
                )
          ]
