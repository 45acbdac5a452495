-- ===== src/Elf/Lookup/Complete.antt =====
-- The lookup of src/elf.rs by name: nothing that it is asked for is missed.
use rustybug.Prelude.{
  ℕ, ◌≡◌, refl, sym, ap, subst, ◌∙◌, true, some, List, [], ◌∷◌, ◌++◌, ◌==◌, if◌then◌else◌, ◌⊎◌, inl,
  inr, arith, Bool-cases,
}
use rustybug.Prelude.Outcome.{
  and_then-ok, Outcome, ok, err, panic, out_of_fuel, and_then, ok-injective, err-ne-ok,
}
use rustybug.Prelude.Texts.{text_eq_refl}
use rustybug.Host.{Text}
use rustybug.Elf.{
  ObjectError, Die, ReadError, Formats, ExecutableFile, dw_tag_subprogram, name_matches,
}
use rustybug.Elf.Lookup.{
  is_function_named, is_named, name_of, functions_of, functions_in, find_functions,
}
use rustybug.Elf.Lookup.Sound.{Among, IsFunction}

-- It is in the list.
abbrev pub Holds : {A : Type 0} → A → List A → Type 0
Holds x [] = ⊥
Holds x (y ∷ ys) = (y ≡ x) ⊎ Holds x ys

Holds-before : {A : Type 0} (x : A) (xs ys : List A) → Holds x xs → Holds x (xs ++ ys)
Holds-before x [] ys h = absurd h
Holds-before x (y ∷ xs) ys (inl e) = inl e
Holds-before x (y ∷ xs) ys (inr h) = inr (Holds-before x xs ys h)

Holds-last : {A : Type 0} (x : A) (xs : List A) → Holds x (xs ++ x ∷ [])
Holds-last x [] = inl refl
Holds-last x (y ∷ xs) = inr (Holds-last x xs)

-- Every answer of the iterator is a value.
abbrev pub Readable : {E A : Type 0} → List (Outcome E A) → Type 0
Readable [] = Unit
Readable (ok x ∷ rs) = Readable rs
Readable (err e ∷ rs) = ⊥
Readable (panic ∷ rs) = ⊥
Readable (out_of_fuel ∷ rs) = ⊥

-- Every name matches itself.
name_matches_self :
    {Obj Dwarf Header CompUnit : Type 0} (formats : Formats Obj Dwarf Header CompUnit) (name : Text)
    → name_matches formats name name ≡ true
unfolding name_matches
name_matches_self formats name = rw (text_eq_refl name) refl

module _ {Obj Dwarf Header CompUnit : Type 0} (formats : Formats Obj Dwarf Header CompUnit)
    (dwarf : Dwarf) (name : Text) where
  abbrev step_of : CompUnit → Die → List (CompUnit × ℕ) → List (CompUnit × ℕ)
  step_of u die result =
      if is_function_named formats dwarf name die then result ++ (u, die.offset) ∷ [] else result

  named_entry :
      (u : CompUnit) (offset : ℕ) (f : IsFunction formats dwarf name u offset)
      → is_function_named formats dwarf name f.die ≡ true
  named_entry u offset f =
      let tag : (f.die.tag == dw_tag_subprogram) ≡ true = (let e = f.subprogram in ground arith) in
      let named : name_of formats dwarf f.die ≡ some name = rw (f.name_at, f.named) refl in
      rw (is_function_named, tag) (rw (is_named, named) (name_matches_self formats name))

  step_of-keeps :
      (x : CompUnit × ℕ) (u : CompUnit) (die : Die) (result : List (CompUnit × ℕ))
      → Holds x result
      → Holds x (step_of u die result)
  step_of-keeps x u die result h = elim (Bool-cases (is_function_named formats dwarf name die)) [
    | inl fits ↦ rw (step_of, fits) (Holds-before x result ((u, die.offset) ∷ []) h)
    | inr unfit ↦ rw (step_of, unfit) h
  ]

  functions_of-keeps :
      (x : CompUnit × ℕ) (u : CompUnit) (ds : List (Outcome ReadError Die))
      (result found : List (CompUnit × ℕ))
      → functions_of formats dwarf name u ds result ≡ ok found
      → Holds x result
      → Holds x found
  unfolding functions_of
  functions_of-keeps x u [] result found run h = subst (Holds x) (ok-injective run) h
  functions_of-keeps x u (ok die ∷ ds) result found run h =
      functions_of-keeps x u ds (step_of u die result) found run (step_of-keeps x u die result h)
  functions_of-keeps x u (err e ∷ ds) result found run h = absurd (err-ne-ok run)
  functions_of-keeps x u (panic ∷ ds) result found run h = absurd (err-ne-ok run)
  functions_of-keeps x u (out_of_fuel ∷ ds) result found run h = absurd (err-ne-ok run)

  functions_of-adds :
      (u : CompUnit) (die : Die) (ds : List (Outcome ReadError Die))
      (result found : List (CompUnit × ℕ))
      → is_function_named formats dwarf name die ≡ true
      → Among die ds
      → functions_of formats dwarf name u ds result ≡ ok found
      → Holds (u, die.offset) found
  unfolding functions_of
  functions_of-adds u die [] result found fits among run = absurd among
  functions_of-adds u die (ok d ∷ ds) result found fits (inl e) run =
      let same : d ≡ die = ok-injective e in
      functions_of-keeps (u, die.offset) u ds (step_of u d result) found run
        (subst (λ (x : Die). Holds (u, die.offset) (step_of u x result)) (sym same)
          (rw (step_of, fits) (Holds-last (u, die.offset) result)))
  functions_of-adds u die (ok d ∷ ds) result found fits (inr later) run =
      functions_of-adds u die ds (step_of u d result) found fits later run
  functions_of-adds u die (err e ∷ ds) result found fits among run = absurd (err-ne-ok run)
  functions_of-adds u die (panic ∷ ds) result found fits among run = absurd (err-ne-ok run)
  functions_of-adds u die (out_of_fuel ∷ ds) result found fits among run = absurd (err-ne-ok run)

  -- What is done with the unit of the next header.
  abbrev unit_step :
      List (Outcome ReadError Header)
      → List (CompUnit × ℕ)
      → Outcome ReadError CompUnit
      → Outcome ObjectError (List (CompUnit × ℕ))
  unit_step hs result o = elim o [
    | ok u ↦
        and_then (functions_of formats dwarf name u (formats.entries u) result)
          (λ r. functions_in formats dwarf name hs r)
    | _ ↦ functions_in formats dwarf name hs result
  ]

  unit_step-keeps :
      (x : CompUnit × ℕ) (hs : List (Outcome ReadError Header)) (result found : List (CompUnit × ℕ))
      (o : Outcome ReadError CompUnit)
      → unit_step hs result o ≡ ok found
      → ((r : List (CompUnit × ℕ))
          → functions_in formats dwarf name hs r ≡ ok found
          → Holds x r
          → Holds x found)
      → Holds x result
      → Holds x found
  unit_step-keeps x hs result found (ok u) run next h =
      let (r, one, rest) =
        and_then-ok (functions_of formats dwarf name u (formats.entries u) result)
          (λ r. functions_in formats dwarf name hs r) found run in
      next r rest (functions_of-keeps x u (formats.entries u) result r one h)
  unit_step-keeps x hs result found (err e) run next h = next result run h
  unit_step-keeps x hs result found panic run next h = next result run h
  unit_step-keeps x hs result found out_of_fuel run next h = next result run h

  functions_in-keeps :
      (x : CompUnit × ℕ) (hs : List (Outcome ReadError Header)) (result found : List (CompUnit × ℕ))
      → functions_in formats dwarf name hs result ≡ ok found
      → Holds x result
      → Holds x found
  unfolding functions_in
  functions_in-keeps x [] result found run h = subst (Holds x) (ok-injective run) h
  functions_in-keeps x (ok header ∷ hs) result found run h =
      unit_step-keeps x hs result found (formats.unit dwarf header) run
        (λ r rest h'. functions_in-keeps x hs r found rest h') h
  functions_in-keeps x (err e ∷ hs) result found run h = subst (Holds x) (ok-injective run) h
  functions_in-keeps x (panic ∷ hs) result found run h = subst (Holds x) (ok-injective run) h
  functions_in-keeps x (out_of_fuel ∷ hs) result found run h = subst (Holds x) (ok-injective run) h

  -- The unit that the function stands in is read: the function is added.
  unit_step-adds :
      (u : CompUnit) (offset : ℕ) (hs : List (Outcome ReadError Header))
      (result found : List (CompUnit × ℕ)) (o : Outcome ReadError CompUnit)
      → o ≡ ok u
      → IsFunction formats dwarf name u offset
      → unit_step hs result o ≡ ok found
      → Holds (u, offset) found
  unit_step-adds u offset hs result found o e f run =
      let (r, one, rest) =
        and_then-ok (functions_of formats dwarf name u (formats.entries u) result)
          (λ r. functions_in formats dwarf name hs r) found (rw e at run) in
      let added =
        functions_of-adds u f.die (formats.entries u) result r (named_entry u offset f) f.among
          one in
      functions_in-keeps (u, offset) hs r found rest (subst (λ (n : ℕ). Holds (u, n) r) f.at added)

  -- By how the unit of a header before it is read.
  unit_step-later :
      (x : CompUnit × ℕ) (hs : List (Outcome ReadError Header)) (result found : List (CompUnit × ℕ))
      (o : Outcome ReadError CompUnit)
      → unit_step hs result o ≡ ok found
      → ((r : List (CompUnit × ℕ))
          → functions_in formats dwarf name hs r ≡ ok found
          → Holds x found)
      → Holds x found
  unit_step-later x hs result found (ok u) run next =
      let (r, one, rest) =
        and_then-ok (functions_of formats dwarf name u (formats.entries u) result)
          (λ r. functions_in formats dwarf name hs r) found run in
      next r rest
  unit_step-later x hs result found (err e) run next = next result run
  unit_step-later x hs result found panic run next = next result run
  unit_step-later x hs result found out_of_fuel run next = next result run

  functions_in-Holds :
      (header : Header) (u : CompUnit) (offset : ℕ) (hs : List (Outcome ReadError Header))
      (result found : List (CompUnit × ℕ))
      → Readable hs
      → Among header hs
      → formats.unit dwarf header ≡ ok u
      → IsFunction formats dwarf name u offset
      → functions_in formats dwarf name hs result ≡ ok found
      → Holds (u, offset) found
  unfolding functions_in
  functions_in-Holds header u offset [] result found all among e f run = absurd among
  functions_in-Holds header u offset (ok h ∷ hs) result found all (inl here) e f run =
      let same : h ≡ header = ok-injective here in
      unit_step-adds u offset hs result found (formats.unit dwarf h)
        (ap (λ (x : Header). formats.unit dwarf x) same ∙ e) f run
  functions_in-Holds header u offset (ok h ∷ hs) result found all (inr later) e f run =
      unit_step-later (u, offset) hs result found (formats.unit dwarf h) run
        (λ r rest. functions_in-Holds header u offset hs r found all later e f rest)
  functions_in-Holds header u offset (err x ∷ hs) result found all among e f run = absurd all
  functions_in-Holds header u offset (panic ∷ hs) result found all among e f run = absurd all
  functions_in-Holds header u offset (out_of_fuel ∷ hs) result found all among e f run = absurd all

module _ {Obj Dwarf Header CompUnit : Type 0} (formats : Formats Obj Dwarf Header CompUnit) where
  -- If every header of the file can be read and `find_functions` returns a list, then every function
  -- of the name that was asked for, in a unit that can be read, is in the list: an entry among those
  -- of its unit, tagged as a subprogram, whose name is a string of the file that can be read and is
  -- the one asked for.
  pub find_functions-Holds :
      (file : ExecutableFile Obj Dwarf) (name : Text) (found : List (CompUnit × ℕ))
      (header : Header) (u : CompUnit) (offset : ℕ)
      → Readable (formats.units file.dwarf)
      → Among header (formats.units file.dwarf)
      → formats.unit file.dwarf header ≡ ok u
      → IsFunction formats file.dwarf name u offset
      → find_functions formats file name ≡ ok found
      → Holds (u, offset) found
  unfolding find_functions
  find_functions-Holds file name found header u offset all among e f run =
      functions_in-Holds formats file.dwarf name header u offset (formats.units file.dwarf) [] found
        all among e f run
