-- ===== src/Process/Exec/Armed.antt =====
-- The breakpoints of a process as a set of armed addresses, and when the tracee's memory is the
-- program with interrupts at those: the abstract view of `set_breakpoint`, `resume` and `step` of
-- src/process.rs.
use rustybug.Prelude.{
  ℕ, zero, suc, ◌+◌, ◌%◌, ◌≡◌, ◌≢◌, refl, sym, ap, ◌∙◌, Bool, true, false, ◌&&◌, ◌||◌, List, [],
  ◌∷◌, ◌++◌, ◌==◌, All, All-append, get_elem?, set, some, some-injective, arith,
}
use rustybug.Host.{Pid, Host}
use rustybug.Breakpoint.{Breakpoint}
use rustybug.Breakpoint.Patch.{IsPlaced}
use rustybug.Breakpoint.Overlay.{Program, put, Shows}
use rustybug.Breakpoint.Toggle.{entry}

-- Whether a breakpoint stands there whose entry for the process is true.
unfoldable pub armed_of : Pid → List Breakpoint → ℕ → Bool
armed_of pid [] a = false
armed_of pid (b ∷ bs) a = let rest = armed_of pid bs a in (a == b.pc && entry pid b) || rest

-- It is well placed, and the byte that it saved is the program's.
abbrev pub Fits : Program → Breakpoint → Type 0
Fits program b = IsPlaced b × (b.data_byte ≡ program.image b.pc)

-- No breakpoint of the list stands there.
abbrev pub IsFree : ℕ → List Breakpoint → Type 0
IsFree a bs = All (λ (b : Breakpoint). a ≢ b.pc) bs

abbrev pub DistinctPcs : List Breakpoint → Type 0
DistinctPcs [] = Unit
DistinctPcs (b ∷ bs) = IsFree b.pc bs × DistinctPcs bs

pub armed_of-IsFree :
    (pid : Pid) (a : ℕ) (bs : List Breakpoint) → IsFree a bs → armed_of pid bs a ≡ false
unfolding armed_of
armed_of-IsFree pid a [] f = refl
armed_of-IsFree pid a (b ∷ bs) (ne, f) = ground (arith, armed_of-IsFree pid a bs f)

pub IsFree-get_elem? :
    (a i : ℕ) (bs : List Breakpoint) (b : Breakpoint)
    → IsFree a bs
    → get_elem? bs i ≡ some b
    → a ≢ b.pc
IsFree-get_elem? a i [] b f e = cc
IsFree-get_elem? a zero (c ∷ bs) b (ne, f) e = ground arith
IsFree-get_elem? a (suc i) (c ∷ bs) b (ne, f) e = IsFree-get_elem? a i bs b f e

-- A breakpoint in the list whose entry changes, changes the set at its address.
pub armed_of-set :
    (pid : Pid) (i a : ℕ) (bs : List Breakpoint) (b b' : Breakpoint)
    → get_elem? bs i ≡ some b
    → b'.pc ≡ b.pc
    → DistinctPcs bs
    → armed_of pid (set bs i b') a ≡ put b.pc (entry pid b') (armed_of pid bs) a
unfolding armed_of
armed_of-set pid i a [] b b' e same d = absurd (cc e)
armed_of-set pid zero a (c ∷ bs) b b' e same (free, d) =
    let at : c.pc ≡ b.pc = ap (λ (x : Breakpoint). x.pc) (some-injective c b e) in
    ground (arith, armed_of-IsFree pid c.pc bs free)
armed_of-set pid (suc i) a (c ∷ bs) b b' e same (free, d) =
    ground (arith, armed_of-set pid i a bs b b' e same d, IsFree-get_elem? c.pc i bs b free e)

pub armed_of-snoc :
    (pid : Pid) (a : ℕ) (bs : List Breakpoint) (b : Breakpoint)
    → IsFree b.pc bs
    → armed_of pid (bs ++ b ∷ []) a ≡ put b.pc (entry pid b) (armed_of pid bs) a
unfolding armed_of
armed_of-snoc pid a [] b f = ground arith
armed_of-snoc pid a (c ∷ bs) b (ne, f) = ground (arith, armed_of-snoc pid a bs b f)

IsFree-set :
    (a i : ℕ) (bs : List Breakpoint) (b b' : Breakpoint)
    → get_elem? bs i ≡ some b
    → b'.pc ≡ b.pc
    → IsFree a bs
    → IsFree a (set bs i b')
IsFree-set a i [] b b' e same f = tt
IsFree-set a zero (c ∷ bs) b b' e same (ne, f) =
    let at : c.pc ≡ b.pc = ap (λ (x : Breakpoint). x.pc) (some-injective c b e) in
    ((λ h. ne (h ∙ same ∙ sym at)), f)
IsFree-set a (suc i) (c ∷ bs) b b' e same (ne, f) = (ne, IsFree-set a i bs b b' e same f)

pub DistinctPcs-set :
    (i : ℕ) (bs : List Breakpoint) (b b' : Breakpoint)
    → get_elem? bs i ≡ some b
    → b'.pc ≡ b.pc
    → DistinctPcs bs
    → DistinctPcs (set bs i b')
DistinctPcs-set i [] b b' e same d = tt
DistinctPcs-set zero (c ∷ bs) b b' e same (f, d) =
    let at : b'.pc ≡ c.pc = same ∙ sym (ap (λ (x : Breakpoint). x.pc) (some-injective c b e)) in
    (rw at f, d)
DistinctPcs-set (suc i) (c ∷ bs) b b' e same (f, d) =
    (IsFree-set c.pc i bs b b' e same f, DistinctPcs-set i bs b b' e same d)

pub DistinctPcs-snoc :
    (bs : List Breakpoint) (b : Breakpoint)
    → IsFree b.pc bs
    → DistinctPcs bs
    → DistinctPcs (bs ++ b ∷ [])
DistinctPcs-snoc [] b f d = (tt, tt)
DistinctPcs-snoc (c ∷ bs) b (ne, f) (g, d) = (
  All-append (λ (x : Breakpoint). c.pc ≢ x.pc) bs (b ∷ []) g ((λ h. ne (sym h)), tt),
  DistinctPcs-snoc bs b f d,
)

module _ {Os Regs FpRegs : Type 0} (host : Host Os Regs FpRegs) where
  -- The list of breakpoints and the tracee's memory together stand for the program with
  -- interrupts at the armed addresses.
  pub record IsOverlaid (pid : Pid) (program : Program) (bs : List Breakpoint) (os : Os)
      : Type 0 where
    pub fits : All (Fits program) bs
    pub distinct : DistinctPcs bs
    pub shows : Shows host pid program (armed_of pid bs) os

  pub Shows-ext :
      (pid : Pid) (program : Program) (f g : ℕ → Bool) (os : Os)
      → ((a : ℕ) → g a ≡ f a)
      → Shows host pid program f os
      → Shows host pid program g os
  Shows-ext pid program f g os same shows c j word hc hcode hj e =
      shows c j word hc hcode hj e ∙ rw (same (c + j)) refl

  -- The same code in memory.
  pub Shows-kept :
      (pid : Pid) (program : Program) (armed : ℕ → Bool) (os os' : Os)
      → ((c : ℕ)
          → c % 8 ≡ 0
          → program.is_code c ≡ true
          → host.ptrace_read pid c os' ≡ host.ptrace_read pid c os)
      → Shows host pid program armed os
      → Shows host pid program armed os'
  Shows-kept pid program armed os os' kept shows c j word hc hcode hj e =
      shows c j word hc hcode hj (sym (kept c hc hcode) ∙ e)
