-- ===== src/Breakpoint/Frame.antt =====
-- What the methods of src/breakpoint.rs leave alone, however they end: the breakpoint's place and
-- saved byte, and the entries of the other threads.
use rustybug.Prelude.{
  ℕ, ◌≡◌, ◌≢◌, refl, ap, ◌∙◌, Bool, Bool-cases, inl, inr, true, false, none, List, [], ◌∷◌,
  if◌then◌else◌, arith,
}
use rustybug.Prelude.Dict.{lookup, insert, remove}
use rustybug.Prelude.Outcome.{
  Outcome, ok, err, panic, out_of_fuel, run_then, pure, modify, ignore, ◌>>◌,
}
use rustybug.Host.{Pid, Errno, Host, World}
use rustybug.Breakpoint.{
  Breakpoint, set_running, running_or_true, Method, enable, disable, jump_to, step, process,
  thread_killed,
}
use rustybug.Breakpoint.Toggle.{entry}

lookup-insert_ne :
    {V : Type 0} (key other : ℕ) (v : V) (m : List (ℕ × V))
    → other ≢ key
    → lookup other (insert key v m) ≡ lookup other m
unfolding lookup insert
lookup-insert_ne key other v [] ne = ground arith
lookup-insert_ne key other v ((at, here) ∷ more) ne =
    ground (arith, lookup-insert_ne key other v more ne)

lookup-remove_self : {V : Type 0} (key : ℕ) (m : List (ℕ × V)) → lookup key (remove key m) ≡ none
unfolding lookup remove
lookup-remove_self key [] = refl
lookup-remove_self key ((at, here) ∷ more) = ground (arith, lookup-remove_self key more)

lookup-remove_ne :
    {V : Type 0} (key other : ℕ) (m : List (ℕ × V))
    → other ≢ key
    → lookup other (remove key m) ≡ lookup other m
unfolding lookup remove
lookup-remove_ne key other [] ne = refl
lookup-remove_ne key other ((at, here) ∷ more) ne =
    ground (arith, lookup-remove_ne key other more ne)

-- All but the entry of `pid` is the same.
pub record IsFramed (pid : Pid) (b b' : Breakpoint) : Type 0 where
  pub same_id : b'.id ≡ b.id
  pub same_pc : b'.pc ≡ b.pc
  pub same_byte : b'.data_byte ≡ b.data_byte
  pub same_shift : b'.shift ≡ b.shift
  pub others : (q : Pid) → q ≢ pid → lookup q b'.is_running ≡ lookup q b.is_running

IsFramed-refl : (pid : Pid) (b : Breakpoint) → IsFramed pid b b
IsFramed-refl pid b = record {
  same_id = refl;
  same_pc = refl;
  same_byte = refl;
  same_shift = refl;
  others = λ q ne. refl;
}

IsFramed-running :
    (pid : Pid) (r : Bool) (b b' : Breakpoint)
    → IsFramed pid b b'
    → IsFramed pid b (set_running pid r b')
IsFramed-running pid r b b' f = record {
  same_id = f.same_id;
  same_pc = f.same_pc;
  same_byte = f.same_byte;
  same_shift = f.same_shift;
  others = λ q ne. lookup-insert_ne pid q r b'.is_running ne ∙ f.others q ne;
}

module _ {Os Regs FpRegs : Type 0} (host : Host Os Regs FpRegs) where
  -- A method that keeps the frame from any state on.
  abbrev Frames : {A : Type 0} → Pid → Breakpoint → Method host A → Type 0
  Frames pid b0 m =
      (b : Breakpoint) (w : World Os) → IsFramed pid b0 b → IsFramed pid b0 (m (b, w)).1.0

  run_then-Frames :
      {A B : Type 0} (pid : Pid) (b0 : Breakpoint) (m : Outcome Errno A × (Breakpoint × World Os))
      (k : A → Method host B)
      → IsFramed pid b0 m.1.0
      → ((a : A) → Frames pid b0 (k a))
      → IsFramed pid b0 (run_then m k).1.0
  run_then-Frames pid b0 (ok a, (b, w)) k f next = next a b w f
  run_then-Frames pid b0 (err e, s) k f next = f
  run_then-Frames pid b0 (panic, s) k f next = f
  run_then-Frames pid b0 (out_of_fuel, s) k f next = f

  then-Frames :
      {A B : Type 0} (pid : Pid) (b0 : Breakpoint) (m : Method host A) (k : Method host B)
      → Frames pid b0 m
      → Frames pid b0 k
      → Frames pid b0 (m >> k)
  then-Frames pid b0 m k fm fk b w f =
      run_then-Frames pid b0 (m (b, w)) (λ _. k) (fm b w f) (λ _. fk)

  enable-Frames : (pid : Pid) (b0 : Breakpoint) → Frames pid b0 (enable host pid)
  unfolding enable
  enable-Frames pid b0 b w f = ground (arith, f, IsFramed-running pid true b0 b f)

  disable-Frames : (pid : Pid) (b0 : Breakpoint) → Frames pid b0 (disable host pid)
  unfolding disable
  disable-Frames pid b0 b w f = ground (arith, f)

  jump_to-Frames : (pid : Pid) (b0 : Breakpoint) → Frames pid b0 (jump_to host pid)
  unfolding jump_to
  jump_to-Frames pid b0 b w f = ground (arith, f)

  step-Frames : (pid : Pid) (b0 : Breakpoint) → Frames pid b0 (step host pid)
  unfolding step
  step-Frames pid b0 =
      then-Frames pid b0 (disable host pid) (do jump_to host pid; pure tt) (disable-Frames pid b0)
        (then-Frames pid b0 (jump_to host pid) (pure tt) (jump_to-Frames pid b0) (λ b w f. f))

  ignore-Frames :
      (pid : Pid) (b0 : Breakpoint) → Frames pid b0 (ignore {F = Errno} (enable host pid))
  ignore-Frames pid b0 b w f = enable-Frames pid b0 b w f

  set-Frames :
      (pid : Pid) (r r' : Bool) (b0 : Breakpoint)
      → Frames pid b0 (do modify (λ (b, w). (set_running pid r b, w)); pure r')
  set-Frames pid r r' b0 b w f = IsFramed-running pid r b0 b f

  visit-Frames :
      (pid : Pid) (b0 : Breakpoint)
      → Frames pid b0 (do
        ignore {E = Errno} (enable host pid)
        step host pid
        modify (λ (b, w). (set_running pid false b, w))
        pure true)
  visit-Frames pid b0 =
      then-Frames pid b0 (ignore (enable host pid))
        (do step host pid; modify (λ (b, w). (set_running pid false b, w)); pure true)
        (ignore-Frames pid b0)
        (then-Frames pid b0 (step host pid)
          (do modify (λ (b, w). (set_running pid false b, w)); pure true) (step-Frames pid b0)
          (set-Frames pid false true b0))

  again-Frames :
      (pid : Pid) (reenable : Bool) (b0 : Breakpoint)
      → Frames pid b0 (if reenable then enable host pid else pure tt)
  again-Frames pid true b0 = enable-Frames pid b0
  again-Frames pid false b0 = λ b w f. f

  revisit-Frames :
      (pid : Pid) (reenable : Bool) (b0 : Breakpoint)
      → Frames pid b0 (do
        disable host pid
        (if reenable then enable host pid else pure tt)
        modify (λ (b, w). (set_running pid true b, w))
        pure false)
  revisit-Frames pid reenable b0 =
      then-Frames pid b0 (disable host pid)
        (do
          (if reenable then enable host pid else pure tt)
          modify (λ (b, w). (set_running pid true b, w))
          pure false)
        (disable-Frames pid b0)
        (then-Frames pid b0 (if reenable then enable host pid else pure tt)
          (do modify (λ (b, w). (set_running pid true b, w)); pure false)
          (again-Frames pid reenable b0) (set-Frames pid true false b0))

  killed-IsFramed : (pid : Pid) (b : Breakpoint) → IsFramed pid b (thread_killed host pid b)
  unfolding thread_killed
  killed-IsFramed pid b = record {
    same_id = refl;
    same_pc = refl;
    same_byte = refl;
    same_shift = refl;
    others = λ q ne. lookup-remove_ne pid q b.is_running ne;
  }

  -- A visit of a breakpoint for one thread, however it ends, leaves the breakpoint's identifier, its
  -- place, its saved byte and the entries of all other threads as they were, and so does the news
  -- that the thread was killed. After that news the thread counts as running again.
  pub process-IsFramed :
      (pid : Pid) (reenable : Bool) (b : Breakpoint) (w : World Os)
      → IsFramed pid b (process host pid reenable (b, w)).1.0
        × IsFramed pid b (thread_killed host pid b)
        × (entry pid (thread_killed host pid b) ≡ true)
  unfolding process thread_killed
  process-IsFramed pid reenable b w = (
    elim (Bool-cases (entry pid b))
        as (λ _. IsFramed pid b (process host pid reenable (b, w)).1.0) [
          | inl on ↦ rw (process, on) (visit-Frames pid b b w (IsFramed-refl pid b))
          | inr off ↦ rw (process, off) (revisit-Frames pid reenable b b w (IsFramed-refl pid b))
        ],
    killed-IsFramed pid b,
    ap running_or_true (lookup-remove_self pid b.is_running),
  )
