-- ===== src/Process/Exec/Turns.antt =====
-- `Breakpoint::process` on one breakpoint of a process, as `resume` and `step` of src/process.rs call
-- it, turns one address of the armed set over, in the list and in memory.
use rustybug.Prelude.{
  ℕ, ◌-◌, ◌%◌, ◌<◌, ◌≡◌, refl, sym, ap, ◌∙◌, Bool, true, false, not, Option-cases, some, List, [],
  ◌∷◌, All-get_elem?, All-set, get_elem?, set, arith, if◌then◌else◌, inl, inr,
}
use rustybug.Prelude.Outcome.{ok, Action}
use rustybug.Host.{Pid, Errno, Host, World}
use rustybug.Host.Laws.{PtraceLaws}
use rustybug.Breakpoint.{int3, Breakpoint, process}
use rustybug.Breakpoint.Overlay.{Program, put, IsPatched-Shows}
use rustybug.Breakpoint.Toggle.{entry, IsToggled, process-IsToggled, process_reads}
use rustybug.Process.{ProcessError, Process}
use rustybug.Process.Exec.{on_breakpoint}
use rustybug.Process.Exec.Armed.{
  armed_of, Fits, armed_of-set, DistinctPcs-set, IsOverlaid, Shows-ext,
}

module _ {Os Regs FpRegs : Type 0} (host : Host Os Regs FpRegs) where
  -- The armed set of `p'` is that of `p`, turned over at the first of the hits if there is one.
  abbrev pub Turns : List ℕ → Process → Process → Type 0
  Turns [] p p' = p'.breakpoints ≡ p.breakpoints
  Turns (i ∷ is) p p' =
      (b : Breakpoint) × (get_elem? p.breakpoints i ≡ some b)
      × ((a : ℕ)
          → armed_of p.pid p'.breakpoints a
            ≡ put b.pc (not (entry p.pid b)) (armed_of p.pid p.breakpoints) a)

  -- It is about the list of breakpoints only.
  pub Turns-list :
      (is : List ℕ) (p p1 p' : Process)
      → p1.breakpoints ≡ p'.breakpoints
      → Turns is p p1
      → Turns is p p'
  Turns-list [] p p1 p' list t = sym list ∙ t
  Turns-list (i ∷ is) p p1 p' list (b, found, turned) = (b, found, λ a. rw (← list) (turned a))

  toggled_byte :
      (program : Program) (b : Breakpoint) (was : Bool)
      → Fits program b
      → ((if was then b.data_byte else int3) < 256)
        × ((if was then b.data_byte else int3) ≡ (if not was then int3 else program.image b.pc))
  toggled_byte program b true (placed, byte) = (placed.byte_lt, byte)
  toggled_byte program b false (placed, byte) = (omega arith, refl)

  toggled-Fits :
      (program : Program) (pid : Pid) (b b' : Breakpoint) (word : ℕ) (os os' : Os)
      → IsToggled host pid b b' word os os'
      → Fits program b
      → Fits program b'
  toggled-Fits program pid b b' word os os' t (placed, byte) = (
    record {
      pc_lt = rw t.pc_eq placed.pc_lt;
      shift_eq = rw (t.pc_eq, t.shift_eq) placed.shift_eq;
      byte_lt = rw t.data_byte_eq placed.byte_lt;
    },
    t.data_byte_eq ∙ byte ∙ ap program.image (sym t.pc_eq),
  )

  -- A toggled breakpoint in the list turns its address over, in the list and in memory.
  toggled-IsOverlaid :
      (program : Program) (pid : Pid) (i word : ℕ) (bs : List Breakpoint) (b b' : Breakpoint)
      (os os' : Os)
      → IsOverlaid host pid program bs os
      → get_elem? bs i ≡ some b
      → host.ptrace_read pid (b.pc - b.pc % 8) os ≡ ok word
      → IsToggled host pid b b' word os os'
      → IsOverlaid host pid program (set bs i b') os'
        × ((a : ℕ)
            → armed_of pid (set bs i b') a ≡ put b.pc (not (entry pid b)) (armed_of pid bs) a)
  toggled-IsOverlaid program pid i word bs b b' os os' over found e t =
      let fits = All-get_elem? (Fits program) bs i b over.fits found in
      let (small, byte) = toggled_byte program b (entry pid b) fits in
      let turned = λ (a : ℕ).
        armed_of-set pid i a bs b b' found t.pc_eq over.distinct
        ∙ ap (λ (on : Bool). put b.pc on (armed_of pid bs) a) t.entry_eq in
      (
        record {
          fits =
              All-set (Fits program) bs i b' over.fits
                (toggled-Fits program pid b b' word os os' t fits);
          distinct = DistinctPcs-set i bs b b' found t.pc_eq over.distinct;
          shows =
              Shows-ext host pid program (put b.pc (not (entry pid b)) (armed_of pid bs))
                (armed_of pid (set bs i b')) os' turned
                (IsPatched-Shows host pid program (armed_of pid bs) b (not (entry pid b))
                  (if entry pid b then b.data_byte else int3) word os os' fits.0 small byte e
                  t.patch over.shows);
        },
        turned,
      )

  -- A call through `bps[0]` that succeeds had a breakpoint to call.
  pub on_breakpoint_found :
      {A : Type 0} (e : ProcessError) (i : ℕ) (m : Pid → Action (Breakpoint × World Os) Errno A)
      (p p' : Process) (w w' : World Os) (a : A)
      → on_breakpoint host e i m (p, w) ≡ (ok a, (p', w'))
      → (b : Breakpoint) × (get_elem? p.breakpoints i ≡ some b)
  unfolding on_breakpoint
  on_breakpoint_found e i m p p' w w' a run = elim (Option-cases (get_elem? p.breakpoints i)) [
    | inl nowhere ↦ absurd (cc (rw (nowhere, on_breakpoint) at run))
    | inr found ↦ found
  ]

  module _ (laws : PtraceLaws host) where
    -- `process` on the breakpoint at position `i`.
    pub processed-Turns :
        (program : Program) (p p' : Process) (i : ℕ) (is : List ℕ) (b b' : Breakpoint) (r : Bool)
        (w w' : World Os)
        → IsOverlaid host p.pid program p.breakpoints w.os
        → get_elem? p.breakpoints i ≡ some b
        → process host p.pid true (b, w) ≡ (ok r, (b', w'))
        → p' ≡ record p { breakpoints = set p.breakpoints i b' }
        → IsOverlaid host p.pid program p'.breakpoints w'.os × Turns (i ∷ is) p p'
    processed-Turns program p p' i is b b' r w w' over found run moved =
        let placed = (All-get_elem? (Fits program) p.breakpoints i b over.fits found).0 in
        let (word, e) = process_reads host p.pid r true b b' w w' _ placed.pc_lt refl run in
        let (_, t) = process-IsToggled host laws p.pid r b b' w w' word placed e run in
        let (over', turned) =
          toggled-IsOverlaid program p.pid i word p.breakpoints b b' w.os w'.os over found e t in
        let list : p'.breakpoints ≡ set p.breakpoints i b' =
          ap (λ (x : Process). x.breakpoints) moved in
        rw list (over', (b, found, turned))
