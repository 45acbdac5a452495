-- ===== src/Process/Exec/Numbered.antt =====
-- The identifiers of a process's breakpoints, as `set_breakpoint` of src/process.rs gives them out.
use native.Mathlib.Nat.{mod-eq_of_lt}
use rustybug.Prelude.{
  ℕ, ◌+◌, ◌^◌, ◌<◌, ◌≤◌, ◌≡◌, ◌≢◌, refl, ◌∙◌, List, [], ◌∷◌, ◌++◌, All, All-append, arith, ◌⊎◌, inl,
  inr,
}
use rustybug.Prelude.Outcome.{Outcome, ok, err, panic, out_of_fuel, map_ok}
use rustybug.Host.{Pid, Errno, Host, World}
use rustybug.Breakpoint.{Breakpoint, enable, new, align_address}
use rustybug.Ptrace.{read_address}
use rustybug.Process.{ProcessError, breakpoint_set_failed, Process}
use rustybug.Process.Exec.{set_breakpoint}

abbrev OtherId : Breakpoint → Breakpoint → Type 0
OtherId b c = c.id ≢ b.id

abbrev pub DistinctIds : List Breakpoint → Type 0
DistinctIds [] = Unit
DistinctIds (b ∷ bs) = All (OtherId b) bs × DistinctIds bs

abbrev HasIdBelow : ℕ → Breakpoint → Type 0
HasIdBelow n b = b.id < n

-- No two breakpoints have the same identifier, and the counter is above them all.
pub record IsNumbered (bs : List Breakpoint) (next : ℕ) : Type 0 where
  pub distinct : DistinctIds bs
  pub below : All (HasIdBelow next) bs

All-HasIdBelow :
    (n m : ℕ) (bs : List Breakpoint) → n ≤ m → All (HasIdBelow n) bs → All (HasIdBelow m) bs
All-HasIdBelow n m [] le a = tt
All-HasIdBelow n m (b ∷ bs) le (h, a) = (omega arith, All-HasIdBelow n m bs le a)

IsNumbered-up : (n m : ℕ) (bs : List Breakpoint) → n ≤ m → IsNumbered bs n → IsNumbered bs m
IsNumbered-up n m bs le i = record {
  distinct = i.distinct;
  below = All-HasIdBelow n m bs le i.below;
}

DistinctIds-snoc :
    (n : ℕ) (bs : List Breakpoint) (b : Breakpoint)
    → b.id ≡ n
    → IsNumbered bs n
    → DistinctIds (bs ++ b ∷ [])
DistinctIds-snoc n [] b e i = (tt, tt)
DistinctIds-snoc n (c ∷ bs) b e i =
    let lt = i.below.0 in
    (
      All-append (OtherId c) bs (b ∷ []) i.distinct.0 ((omega arith), tt),
      DistinctIds-snoc n bs b e (record { distinct = i.distinct.1; below = i.below.1 }),
    )

IsNumbered-snoc :
    (n : ℕ) (bs : List Breakpoint) (b : Breakpoint)
    → b.id ≡ n
    → IsNumbered bs n
    → IsNumbered (bs ++ b ∷ []) (n + 1)
IsNumbered-snoc n bs b e i = record {
  distinct = DistinctIds-snoc n bs b e i;
  below =
      All-append (HasIdBelow (n + 1)) bs (b ∷ [])
        (All-HasIdBelow n (n + 1) bs (omega arith) i.below) ((omega arith), tt);
}

module _ {Os Regs FpRegs : Type 0} (host : Host Os Regs FpRegs) where
  enable-id :
      (pid : Pid) (b : Breakpoint) (w : World Os)
      → (let (r, (b', w')) = enable host pid (b, w) in
          (b'.id ≡ b.id) × (b'.pc ≡ b.pc) × (w'.current_id ≡ w.current_id))
  unfolding enable
  enable-id pid b w = ground arith

  -- What `new` gives, and what it does to the counter.
  abbrev Made : ℕ → ℕ → ℕ → Outcome Errno Breakpoint → Type 0
  Made pc n n' (ok b) = (b.id ≡ n) × (b.pc ≡ pc) × (n' ≡ n + 1)
  Made pc n n' _ = (n' ≡ n) ⊎ (n' ≡ n + 1)

  Made-map_ok :
      (pc n n' : ℕ) (b : Breakpoint) (r : Outcome Errno (Unit {0}))
      → b.id ≡ n
      → b.pc ≡ pc
      → n' ≡ n + 1
      → Made pc n n' (map_ok (λ _. b) r)
  Made-map_ok pc n n' b (ok u) e f g = (e, f, g)
  Made-map_ok pc n n' b (err x) e f g = inr g
  Made-map_ok pc n n' b panic e f g = inr g
  Made-map_ok pc n n' b out_of_fuel e f g = inr g

  numbered_enable :
      (pid : Pid) (pc n : ℕ) (b : Breakpoint) (w : World Os)
      → b.id ≡ n
      → b.pc ≡ pc
      → w.current_id ≡ n + 1
      → (let (r, (b', w')) = enable host pid (b, w) in Made pc n w'.current_id (map_ok (λ _. b') r))
  numbered_enable pid pc n b w e f g =
      let (r, (b', w')) = enable host pid (b, w) in
      let (same_id, same_pc, same_next) = enable-id pid b w in
      Made-map_ok pc n w'.current_id b' r (same_id ∙ e) (same_pc ∙ f) (same_next ∙ g)

  Made-of_read :
      (pid : Pid) (pc : ℕ) (w : World Os) (found : Outcome Errno ℕ)
      → read_address host pid (align_address pc) w.os ≡ found
      → w.current_id + 1 < 2 ^ 64
      → (let (r, w') = new host pid pc w in Made pc w.current_id w'.current_id r)
  unfolding new
  Made-of_read pid pc w (ok word) e h =
      rw (new, e) (numbered_enable pid pc w.current_id _ _ refl refl (mod-eq_of_lt h))
  Made-of_read pid pc w (err x) e h = rw (new, e) (inl refl)
  Made-of_read pid pc w panic e h = rw (new, e) (inl refl)
  Made-of_read pid pc w out_of_fuel e h = rw (new, e) (inl refl)

  -- The list after a call of `set_breakpoint`, by what it returned.
  abbrev pub Adds : ℕ → ℕ → Process → Process → Outcome ProcessError ℕ → Type 0
  Adds addr n p p' (ok id) =
      (id ≡ n)
      × ((b : Breakpoint) × (b.id ≡ n)
          × (b.pc ≡ addr)
          × (p' ≡ record p { breakpoints = p.breakpoints ++ b ∷ [] }))
  Adds addr n p p' (err e) = (e ≡ breakpoint_set_failed) × (p' ≡ p)
  Adds addr n p p' panic = p' ≡ p
  Adds addr n p p' out_of_fuel = p' ≡ p

  next_up :
      (w w1 : World Os)
      → (w1.current_id ≡ w.current_id) ⊎ (w1.current_id ≡ w.current_id + 1)
      → w.current_id ≤ w1.current_id
  next_up w w1 (inl e) = omega arith
  next_up w w1 (inr e) = omega arith

  set_after_new :
      (addr : ℕ) (p : Process) (w w1 : World Os) (r : Outcome Errno Breakpoint)
      → new host p.pid addr w ≡ (r, w1)
      → IsNumbered p.breakpoints w.current_id
      → Made addr w.current_id w1.current_id r
      → (let (r', (p', w')) = set_breakpoint host addr (p, w) in
          Adds addr w.current_id p p' r' × IsNumbered p'.breakpoints w'.current_id)
  unfolding set_breakpoint
  set_after_new addr p w w1 (ok b) e i (same_id, same_pc, next) =
      rw (set_breakpoint, e)
        (
          (same_id, (b, same_id, same_pc, refl)),
          rw next (IsNumbered-snoc w.current_id p.breakpoints b same_id i),
        )
  set_after_new addr p w w1 (err x) e i made =
      rw (set_breakpoint, e)
        ((refl, refl), IsNumbered-up w.current_id w1.current_id p.breakpoints (next_up w w1 made) i)
  set_after_new addr p w w1 panic e i made =
      rw (set_breakpoint, e)
        (refl, IsNumbered-up w.current_id w1.current_id p.breakpoints (next_up w w1 made) i)
  set_after_new addr p w w1 out_of_fuel e i made =
      rw (set_breakpoint, e)
        (refl, IsNumbered-up w.current_id w1.current_id p.breakpoints (next_up w w1 made) i)

  -- If no two breakpoints of the process have the same identifier, all are below the counter, and
  -- the counter does not wrap around, then a call of `set_breakpoint` keeps that so. If it succeeds
  -- it returns the counter, and has added a breakpoint with that identifier and the address at the
  -- end of the list; if not, the process is as it was, and an error is `BreakpointSetFailed`.
  pub set_breakpoint-IsNumbered :
      (addr : ℕ) (p : Process) (w : World Os)
      → w.current_id + 1 < 2 ^ 64
      → IsNumbered p.breakpoints w.current_id
      → (let (r, (p', w')) = set_breakpoint host addr (p, w) in
          Adds addr w.current_id p p' r × IsNumbered p'.breakpoints w'.current_id)
  set_breakpoint-IsNumbered addr p w h i =
      let (r, w1) = new host p.pid addr w in
      set_after_new addr p w w1 r refl i
        (Made-of_read p.pid addr w (read_address host p.pid (align_address addr) w.os) refl h)
