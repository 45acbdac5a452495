-- ===== src/Elf/Lookup/Sound.antt =====
-- What the lookups of src/elf.rs find.
use rustybug.Prelude.{
  ℕ, ◌≡◌, refl, sym, ap, ◌∙◌, some-injective, subst, false≢true, Bool, true, false, none, some,
  Option, List, [], ◌∷◌, ◌++◌, All, All-append, ◌==◌, if◌then◌else◌, ◌⊎◌, inl, inr, arith,
  Bool-cases,
}
use rustybug.Prelude.Outcome.{
  Outcome, ok, err, panic, out_of_fuel, and_then, and_then-ok, ok-injective, err-ne-ok,
}
use rustybug.Prelude.Texts.{text_eq, text_eq→eq}
use rustybug.Host.{Text}
use rustybug.Elf.{
  ObjectError, Die, ReadError, Formats, ExecutableFile, dw_tag_subprogram, name_matches,
  AttributeValue, addr, udata, debug_str_ref, other, DemangleLaws,
}
use rustybug.Elf.Lookup.{is_function_named, name_of, functions_of, functions_in, find_functions}

-- It is one of the list's answers.
abbrev pub Among : {E A : Type 0} → A → List (Outcome E A) → Type 0
Among x [] = ⊥
Among x (r ∷ rs) = (r ≡ ok x) ⊎ Among x rs

module _ {Obj Dwarf Header CompUnit : Type 0} (formats : Formats Obj Dwarf Header CompUnit)
    (dwarf : Dwarf) (name : Text) where
  -- A function of that name: an entry of its unit that is a subprogram, with a name that is a string
  -- which can be read and that is this one.
  pub record IsFunction (u : CompUnit) (offset : ℕ) : Type 0 where
    pub die : Die
    pub string_at : ℕ
    pub among : Among die (formats.entries u)
    pub at : die.offset ≡ offset
    pub subprogram : die.tag ≡ dw_tag_subprogram
    pub name_at : die.name ≡ ok (some (debug_str_ref string_at))
    pub named : formats.string dwarf string_at ≡ ok name

  abbrev pub Found : CompUnit × ℕ → Type 0
  Found (u, offset) = IsFunction u offset

  -- Where an entry says that its name is, by the attribute and the string.
  abbrev pub IsNamed : Die → Text → Type 0
  IsNamed die t =
      (o : ℕ) × (die.name ≡ ok (some (debug_str_ref o))) × (formats.string dwarf o ≡ ok t)

  string-IsNamed :
      (die : Die) (o : ℕ) (t : Text) (r : Outcome ReadError Text)
      → die.name ≡ ok (some (debug_str_ref o))
      → formats.string dwarf o ≡ r
      → name_of formats dwarf die ≡ some t
      → IsNamed die t
  string-IsNamed die o t (ok s) e read h =
      let same : s ≡ t = some-injective s t (rw (e, read) at h) in
      (o, e, read ∙ ap (λ (x : Text). ok x) same)
  string-IsNamed die o t (err x) e read h = absurd (cc (rw (e, read) at h))
  string-IsNamed die o t panic e read h = absurd (cc (rw (e, read) at h))
  string-IsNamed die o t out_of_fuel e read h = absurd (cc (rw (e, read) at h))

  name_of-IsNamed :
      (die : Die) (t : Text) (v : Outcome ReadError (Option AttributeValue))
      → die.name ≡ v
      → name_of formats dwarf die ≡ some t
      → IsNamed die t
  name_of-IsNamed die t (ok (some (debug_str_ref o))) e h =
      string-IsNamed die o t (formats.string dwarf o) e refl h
  name_of-IsNamed die t (ok (some (addr x))) e h = absurd (cc (rw e at h))
  name_of-IsNamed die t (ok (some (udata x))) e h = absurd (cc (rw e at h))
  name_of-IsNamed die t (ok (some other)) e h = absurd (cc (rw e at h))
  name_of-IsNamed die t (ok none) e h = absurd (cc (rw e at h))
  name_of-IsNamed die t (err x) e h = absurd (cc (rw e at h))
  name_of-IsNamed die t panic e h = absurd (cc (rw e at h))
  name_of-IsNamed die t out_of_fuel e h = absurd (cc (rw e at h))

  abbrev fits : Option Text → Bool
  fits o = elim o [ none ↦ false | some fn_name ↦ name_matches formats name fn_name ]

  named_of :
      (o : Option Text)
      → (fits o ≡ true)
      → (t : Text) × (o ≡ some t) × (name_matches formats name t ≡ true)
  named_of none h = cc
  named_of (some t) h = (t, refl, h)

module _ {Obj Dwarf Header CompUnit : Type 0} (formats : Formats Obj Dwarf Header CompUnit)
    (laws : DemangleLaws formats) (dwarf : Dwarf) (name : Text) where
  matched_name : (t : Text) → name_matches formats name t ≡ true → t ≡ name
  unfolding name_matches
  matched_name t h = elim (Bool-cases (text_eq name t)) [
    | inl same ↦ sym (text_eq→eq name t same)
    | inr differs ↦ text_eq→eq t name (rw (differs, laws.as_str t) at h)
  ]

  IsFunction-of :
      (u : CompUnit) (die : Die)
      → Among die (formats.entries u)
      → is_function_named formats dwarf name die ≡ true
      → IsFunction formats dwarf name u die.offset
  IsFunction-of u die among h = elim (Bool-cases (die.tag == dw_tag_subprogram)) [
    | inl sub ↦
        let (t, named, matches) =
          named_of formats dwarf name (name_of formats dwarf die) (rw sub at h) in
        let (o, name_at, read) = name_of-IsNamed formats dwarf name die t die.name refl named in
        record {
          die = die;
          string_at = o;
          among = among;
          at = refl;
          subprogram = ground arith;
          name_at = name_at;
          named = read ∙ ap (λ (x : Text). ok x) (matched_name t matches);
        }
    | inr differs ↦ absurd (false≢true (rw differs at h))
  ]

  abbrev pushed : CompUnit → Die → List (CompUnit × ℕ) → List (CompUnit × ℕ)
  pushed u die result =
      if is_function_named formats dwarf name die then result ++ (u, die.offset) ∷ [] else result

  pushed-Found :
      (u : CompUnit) (die : Die) (result : List (CompUnit × ℕ))
      → Among die (formats.entries u)
      → All (Found formats dwarf name) result
      → All (Found formats dwarf name) (pushed u die result)
  pushed-Found u die result among all =
      elim (Bool-cases (is_function_named formats dwarf name die)) [
        | inl fits ↦
            rw (pushed, fits)
              (All-append (Found formats dwarf name) result ((u, die.offset) ∷ []) all
                (IsFunction-of u die among fits, tt))
        | inr no_fit ↦ rw (pushed, no_fit) all
      ]

  functions_of-Found :
      (u : CompUnit) (ds : List (Outcome ReadError Die)) (result found : List (CompUnit × ℕ))
      → ((d : Die) → Among d ds → Among d (formats.entries u))
      → All (Found formats dwarf name) result
      → functions_of formats dwarf name u ds result ≡ ok found
      → All (Found formats dwarf name) found
  unfolding functions_of
  functions_of-Found u [] result found sub all run =
      subst (All (Found formats dwarf name)) (ok-injective run) all
  functions_of-Found u (ok die ∷ ds) result found sub all run =
      functions_of-Found u ds (pushed u die result) found (λ d a. sub d (inr a))
        (pushed-Found u die result (sub die (inl refl)) all) run
  functions_of-Found u (err e ∷ ds) result found sub all run = absurd (err-ne-ok run)
  functions_of-Found u (panic ∷ ds) result found sub all run = absurd (err-ne-ok run)
  functions_of-Found u (out_of_fuel ∷ ds) result found sub all run = absurd (err-ne-ok run)

  -- By how the unit of the next header is read.
  after_unit-Found :
      (hs : List (Outcome ReadError Header)) (result found : List (CompUnit × ℕ))
      (u : Outcome ReadError CompUnit)
      → All (Found formats dwarf name) result
      → ((r : List (CompUnit × ℕ))
          → All (Found formats dwarf name) r
          → functions_in formats dwarf name hs r ≡ ok found
          → All (Found formats dwarf name) found)
      → (elim u as (λ _. Outcome ObjectError (List (CompUnit × ℕ))) [
        | ok u ↦
            and_then
              (functions_of formats dwarf name u (formats.entries u) result)
              (λ r. functions_in formats dwarf name hs r)
        | _ ↦ functions_in formats dwarf name hs result
      ])
        ≡ ok found
      → All (Found formats dwarf name) found
  after_unit-Found hs result found (ok u) all next run =
      let (r, one, rest) =
        and_then-ok (functions_of formats dwarf name u (formats.entries u) result)
          (λ r. functions_in formats dwarf name hs r) found run in
      next r (functions_of-Found u (formats.entries u) result r (λ d a. a) all one) rest
  after_unit-Found hs result found (err e) all next run = next result all run
  after_unit-Found hs result found panic all next run = next result all run
  after_unit-Found hs result found out_of_fuel all next run = next result all run

  functions_in-Found :
      (hs : List (Outcome ReadError Header)) (result found : List (CompUnit × ℕ))
      → All (Found formats dwarf name) result
      → functions_in formats dwarf name hs result ≡ ok found
      → All (Found formats dwarf name) found
  unfolding functions_in
  functions_in-Found [] result found all run =
      subst (All (Found formats dwarf name)) (ok-injective run) all
  functions_in-Found (ok header ∷ hs) result found all run =
      after_unit-Found hs result found (formats.unit dwarf header) all
        (λ r a e. functions_in-Found hs r found a e) run
  functions_in-Found (err e ∷ hs) result found all run =
      subst (All (Found formats dwarf name)) (ok-injective run) all
  functions_in-Found (panic ∷ hs) result found all run =
      subst (All (Found formats dwarf name)) (ok-injective run) all
  functions_in-Found (out_of_fuel ∷ hs) result found all run =
      subst (All (Found formats dwarf name)) (ok-injective run) all

module _ {Obj Dwarf Header CompUnit : Type 0} (formats : Formats Obj Dwarf Header CompUnit) where
  -- If `as_str` of a `Demangle` is the text that it was made of, everything that `find_functions`
  -- returns is a function of the name that was asked for: an entry among those of its unit, tagged as
  -- a subprogram, whose name is a string of the file that can be read and is that name.
  pub find_functions-Found :
      (laws : DemangleLaws formats) (file : ExecutableFile Obj Dwarf) (name : Text)
      (found : List (CompUnit × ℕ))
      → find_functions formats file name ≡ ok found
      → All (Found formats file.dwarf name) found
  unfolding find_functions
  find_functions-Found laws file name found run =
      functions_in-Found formats laws file.dwarf name (formats.units file.dwarf) [] found tt run
