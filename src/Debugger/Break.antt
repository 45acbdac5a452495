-- ===== src/Debugger/Break.antt =====
-- Where `set_break` of src/lib.rs puts the breakpoint of a function.
use rustybug.Prelude.{
  ℕ, ◌+◌, ◌≡◌, ◌≢◌, refl, sym, ap, subst, some-injective, All, ◌++◌, ◌∙◌, Option, Option-cases,
  none, some, List, [], ◌∷◌, inl, inr,
}
use rustybug.Prelude.Outcome.{Outcome, ok, err, panic, out_of_fuel, reads, with_err, run_then-eq-ok}
use rustybug.Host.{Text, Host, World, add_u64}
use rustybug.Commands.Syntax.{Location}
use rustybug.Elf.{
  ReadError, AttributeValue, addr, udata, debug_str_ref, other, Die, Formats, ExecutableFile,
  DemangleLaws,
}
use rustybug.Elf.Lookup.Sound.{IsFunction, Found, find_functions-Found}
use rustybug.Host.Wrap.{Wraps, add_u64-Wraps}
use rustybug.Elf.Lookup.{find_functions}
use rustybug.Process.Exec.{set_breakpoint}
use rustybug.Debugger.{
  Debugger, Error, object_error, on_root, low_pc_of, break_at, break_first, break_function,
  set_break,
}
use rustybug.Debugger.States.{map_err-ok, on_root_ok}

module _ {Os Regs FpRegs Obj Dwarf Header CompUnit : Type 0} (host : Host Os Regs FpRegs)
    (formats : Formats Obj Dwarf Header CompUnit) where
  -- An entry whose low program counter is no address, if it has one.
  abbrev pub HasNoAddress : CompUnit × ℕ → Type 0
  HasNoAddress (u, offset) =
      (die : Die) × (formats.entry u offset ≡ ok die) × ((x : ℕ) → die.low_pc ≢ ok (some (addr x)))

  -- The run put a breakpoint with the identifier `n` at the runtime address of the first of the
  -- functions whose entry has an address.
  pub record PlacesAt (found : List (CompUnit × ℕ)) (d : Debugger Obj Dwarf) (w : World Os) (n : ℕ)
      (d' : Debugger Obj Dwarf) (w' : World Os) : Type 0 where
    pub before : List (CompUnit × ℕ)
    pub after : List (CompUnit × ℕ)
    pub fun : CompUnit × ℕ
    pub die : Die
    pub low : ℕ
    pub place : ℕ
    pub split : found ≡ before ++ fun ∷ after
    pub passed : All HasNoAddress before
    pub is_entry : formats.entry fun.0 fun.1 ≡ ok die
    pub low_pc : die.low_pc ≡ ok (some (addr low))
    pub at : Wraps (low + d.root.addr_offset) place
    pub breakpoint : set_breakpoint host place (d.root, w) ≡ (ok n, (d'.root, w'))

  low_pc_of-some :
      (die : Die) (low : ℕ) (v : Outcome ReadError (Option AttributeValue))
      → die.low_pc ≡ v
      → low_pc_of host formats die ≡ some low
      → die.low_pc ≡ ok (some (addr low))
  low_pc_of-some die low (ok (some (addr x))) e h =
      let same : x ≡ low = some-injective x low (rw e at h) in
      e ∙ ap (λ (y : ℕ). ok (some (addr y))) same
  low_pc_of-some die low (ok (some (udata x))) e h = absurd (cc (rw e at h))
  low_pc_of-some die low (ok (some (debug_str_ref x))) e h = absurd (cc (rw e at h))
  low_pc_of-some die low (ok (some other)) e h = absurd (cc (rw e at h))
  low_pc_of-some die low (ok none) e h = absurd (cc (rw e at h))
  low_pc_of-some die low (err x) e h = absurd (cc (rw e at h))
  low_pc_of-some die low panic e h = absurd (cc (rw e at h))
  low_pc_of-some die low out_of_fuel e h = absurd (cc (rw e at h))

  low_pc_of-none :
      (die : Die) (x : ℕ) → low_pc_of host formats die ≡ none → die.low_pc ≢ ok (some (addr x))
  low_pc_of-none die x h e = cc (rw e at h)

  later :
      {g : CompUnit × ℕ} {found : List (CompUnit × ℕ)} {d d' : Debugger Obj Dwarf} {w w' : World Os}
      {n : ℕ}
      → HasNoAddress g
      → PlacesAt found d w n d' w'
      → PlacesAt (g ∷ found) d w n d' w'
  later {g} skipped p = record {
    before = g ∷ p.before;
    after = p.after;
    fun = p.fun;
    die = p.die;
    low = p.low;
    place = p.place;
    split = ap (λ (fs : List (CompUnit × ℕ)). g ∷ fs) p.split;
    passed = (skipped, p.passed);
    is_entry = p.is_entry;
    low_pc = p.low_pc;
    at = p.at;
    breakpoint = p.breakpoint;
  }

  break_at_lem :
      (low : ℕ) (d d' : Debugger Obj Dwarf) (w w' : World Os) (n : ℕ)
      → break_at host formats low (d, w) ≡ (ok n, (d', w'))
      → (place : ℕ) × (◌≡◌ {A = Outcome Error ℕ}
          (add_u64 host.overflow_checks low d.root.addr_offset)
          (ok place))
        × (set_breakpoint host place (d.root, w) ≡ (ok n, (d'.root, w')))
  break_at_lem low d d' w w' n run =
      let (place, s, at, rest) =
        run_then-eq-ok
          (reads {E = Error}
            (λ (s : Debugger Obj Dwarf × World Os).
              add_u64 host.overflow_checks low s.0.root.addr_offset)
            (d, w))
          (λ place. on_root host formats (set_breakpoint host place)) n (d', w') run in
      let same : on_root host formats (set_breakpoint host place) (d, w) ≡ (ok n, (d', w')) =
        (λ i. on_root host formats (set_breakpoint host place) ((at i).1)) ∙ rest in
      let (p, set, kept) = on_root_ok host formats n (set_breakpoint host place) d d' w w' same in
      (place, (λ i. (at i).0), set ∙ (λ i. (ok n, (sym kept i, w'))))

  entry_PlacesAt :
      (u : CompUnit) (offset : ℕ) (more : List (CompUnit × ℕ)) (d d' : Debugger Obj Dwarf)
      (w w' : World Os) (n : ℕ) (o : Outcome ReadError Die)
      → formats.entry u offset ≡ o
      → break_first host formats ((u, offset) ∷ more) (d, w) ≡ (ok n, (d', w'))
      → (break_first host formats more (d, w) ≡ (ok n, (d', w')) → PlacesAt more d w n d' w')
      → PlacesAt ((u, offset) ∷ more) d w n d' w'
  unfolding break_first
  entry_PlacesAt u offset more d d' w w' n (ok die) e run next =
      elim (Option-cases (low_pc_of host formats die)) [
        | inl no_low ↦
            later (die, e, λ x. low_pc_of-none die x no_low)
              (next (rw no_low at (rw (break_first, e) at run)))
        | inr (low, has) ↦
            let (place, at, set) =
              break_at_lem low d d' w w' n (rw has at (rw (break_first, e) at run)) in
            record {
              fun = (u, offset);
              die = die;
              low = low;
              place = place;
              before = [];
              after = more;
              split = refl;
              passed = tt;
              is_entry = e;
              low_pc = low_pc_of-some die low die.low_pc refl has;
              at = add_u64-Wraps {E = Error} host.overflow_checks low d.root.addr_offset place at;
              breakpoint = set;
            }
      ]
  entry_PlacesAt u offset more d d' w w' n (err x) e run next =
      absurd (cc (rw (break_first, e) at run))
  entry_PlacesAt u offset more d d' w w' n panic e run next =
      absurd (cc (rw (break_first, e) at run))
  entry_PlacesAt u offset more d d' w w' n out_of_fuel e run next =
      absurd (cc (rw (break_first, e) at run))

  break_first-PlacesAt :
      (found : List (CompUnit × ℕ)) (d d' : Debugger Obj Dwarf) (w w' : World Os) (n : ℕ)
      → break_first host formats found (d, w) ≡ (ok n, (d', w'))
      → PlacesAt found d w n d' w'
  unfolding break_first
  break_first-PlacesAt [] d d' w w' n run = absurd (cc run)
  break_first-PlacesAt ((u, offset) ∷ more) d d' w w' n run =
      entry_PlacesAt u offset more d d' w w' n (formats.entry u offset) refl run
        (λ rest. break_first-PlacesAt more d d' w w' n rest)

  break_function-PlacesAt :
      (name : Text) (o : Option (ExecutableFile Obj Dwarf)) (d d' : Debugger Obj Dwarf)
      (w w' : World Os) (n : ℕ)
      → d.elf ≡ o
      → break_function host formats name o (d, w) ≡ (ok n, (d', w'))
      → (elf : ExecutableFile Obj Dwarf) × (found : List (CompUnit × ℕ)) × (d.elf ≡ some elf)
        × (find_functions formats elf name ≡ ok found)
        × PlacesAt found d w n d' w'
  break_function-PlacesAt name none d d' w w' n e run = absurd (cc run)
  break_function-PlacesAt name (some elf) d d' w w' n e run =
      let (found, s, got, rest) =
        run_then-eq-ok
          (with_err object_error
            (reads (λ (s : Debugger Obj Dwarf × World Os). find_functions formats elf name)) (d, w))
          (λ found. break_first host formats found) n (d', w') run in
      let same : break_first host formats found (d, w) ≡ (ok n, (d', w')) =
        (λ i. break_first host formats found ((got i).1)) ∙ rest in
      (
        elf,
        found,
        e,
        map_err-ok object_error found (find_functions formats elf name) (λ i. (got i).0),
        break_first-PlacesAt found d d' w w' n same,
      )

  All-middle :
      (P : CompUnit × ℕ → Type 0) (before : List (CompUnit × ℕ)) (f : CompUnit × ℕ)
      (after : List (CompUnit × ℕ))
      → All P (before ++ f ∷ after)
      → P f
  All-middle P [] f after (p, all) = p
  All-middle P (g ∷ before) f after (p, all) = All-middle P before f after all

  -- If `set_break` on a function's name succeeds, then an executable is loaded, `find_functions` has
  -- found functions in it, and the breakpoint whose identifier is returned has been set by
  -- `set_breakpoint` at the address of the first of them that has one: it is a subprogram of that
  -- very name, the low program counter of its entry is an address, and the place is this and the
  -- process's offset on 64 bits; the entries before it can be read and have no such address. `as_str`
  -- of a `Demangle` is taken to be the text that it was made of.
  pub set_break-PlacesAt :
      (laws : DemangleLaws formats) (name : Text) (d d' : Debugger Obj Dwarf) (w w' : World Os)
      (n : ℕ)
      → set_break host formats (Location.function name) (d, w) ≡ (ok n, (d', w'))
      → (elf : ExecutableFile Obj Dwarf) × (found : List (CompUnit × ℕ)) × (d.elf ≡ some elf)
        × (find_functions formats elf name ≡ ok found)
        × ((placed : PlacesAt found d w n d' w') × IsFunction formats elf.dwarf name placed.fun.0
              placed.fun.1)
  unfolding set_break
  set_break-PlacesAt laws name d d' w w' n run =
      let (elf, found, has, got, placed) =
        break_function-PlacesAt name d.elf d d' w w' n refl run in
      let all = find_functions-Found formats laws elf name found got in
      (
        elf,
        found,
        has,
        got,
        (
          placed,
          All-middle (Found formats elf.dwarf name) placed.before placed.fun placed.after
              (subst (All (Found formats elf.dwarf name)) placed.split all),
        ),
      )
