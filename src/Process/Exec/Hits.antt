-- ===== src/Process/Exec/Hits.antt =====
-- Which breakpoint `resume` and `step` of src/process.rs work on: the first one that was hit.
use rustybug.Prelude.{
  ℕ, zero, suc, ◌+◌, ◌<◌, ◌≡◌, refl, sym, subst, ◌∙◌, false≢true, Bool, true, false, some,
  some-injective, List, [], ◌∷◌, get_elem?, arith,
}
use rustybug.Prelude.Outcome.{
  Outcome, ok, err, panic, out_of_fuel, and_then, ok-injective, err-ne-ok,
}
use rustybug.Host.{Pid, Host}
use rustybug.Breakpoint.{Breakpoint, has_hit}
use rustybug.Breakpoint.Hit.{IsHit, has_hit-IsHit, IsHit-has_hit}
use rustybug.Process.{ProcessError}
use rustybug.Process.Exec.{or_false, keep_if, hits_from}

module _ {Os Regs FpRegs : Type 0} (host : Host Os Regs FpRegs) (pid : Pid) (os : Os) where
  -- At position `n` of `bs` stands the first breakpoint that was hit.
  pub record IsFirstHit (n : ℕ) (bs : List Breakpoint) (b : Breakpoint) : Type 0 where
    pub there : get_elem? bs n ≡ some b
    pub hit : IsHit host pid os b
    pub before : (j : ℕ) (c : Breakpoint) → j < n → get_elem? bs j ≡ some c → ¬ IsHit host pid os c

  abbrev pub NoneHit : List Breakpoint → Type 0
  NoneHit bs = (j : ℕ) (c : Breakpoint) → get_elem? bs j ≡ some c → ¬ IsHit host pid os c

  -- What the list of positions that starts at `i` says of the breakpoints `bs`.
  abbrev pub Says : ℕ → List Breakpoint → List ℕ → Type 0
  Says i bs [] = NoneHit bs
  Says i bs (m ∷ _) = (n : ℕ) × (b : Breakpoint) × (m ≡ i + n) × IsFirstHit n bs b

  hit_of_same : {b c : Breakpoint} → b ≡ c → IsHit host pid os c → IsHit host pid os b
  hit_of_same same h = rw same h

  NoneHit-cons :
      (b : Breakpoint) (bs : List Breakpoint)
      → ¬ IsHit host pid os b
      → NoneHit bs
      → NoneHit (b ∷ bs)
  NoneHit-cons b bs miss none zero c e = λ h. miss (hit_of_same (some-injective b c e) h)
  NoneHit-cons b bs miss none (suc j) c e = none j c e

  later_hit :
      (n : ℕ) (b c : Breakpoint) (bs : List Breakpoint)
      → ¬ IsHit host pid os b
      → IsFirstHit n bs c
      → IsFirstHit (suc n) (b ∷ bs) c
  later_hit n b c bs miss first = record { there = first.there; hit = first.hit; before = before' }
    where
      before' :
          (j : ℕ) (d : Breakpoint)
          → j < suc n
          → get_elem? (b ∷ bs) j ≡ some d
          → ¬ IsHit host pid os d
      before' zero d lt e = λ h. miss (hit_of_same (some-injective b d e) h)
      before' (suc j) d lt e = first.before j d (omega arith) e

  first_here :
      (b : Breakpoint) (bs : List Breakpoint) → IsHit host pid os b → IsFirstHit zero (b ∷ bs) b
  first_here b bs h = record { there = refl; hit = h; before = λ j c lt e. absurd (omega arith) }

  Says-skip :
      (i : ℕ) (b : Breakpoint) (bs : List Breakpoint) (is : List ℕ)
      → ¬ IsHit host pid os b
      → Says (suc i) bs is
      → Says i (b ∷ bs) is
  Says-skip i b bs [] miss none = NoneHit-cons b bs miss none
  Says-skip i b bs (m ∷ is) miss (n, c, e, first) =
      (suc n, c, omega arith, later_hit n b c bs miss first)

  -- By the answer `h` for the first breakpoint and the positions `r` of the others.
  hits_cons :
      (i : ℕ) (b : Breakpoint) (bs : List Breakpoint) (is : List ℕ) (h : Outcome ℕ Bool)
      (r : Outcome ProcessError (List ℕ))
      → has_hit host b pid os ≡ h
      → ((js : List ℕ) → r ≡ ok js → Says (suc i) bs js)
      → and_then (or_false h) (λ hit. and_then r (λ js. ok (keep_if hit i js))) ≡ ok is
      → Says i (b ∷ bs) is
  hits_cons i b bs is (ok true) (ok js) e later run =
      subst (Says i (b ∷ bs)) (ok-injective run)
        (zero, b, omega arith, first_here b bs (has_hit-IsHit host pid os b e))
  hits_cons i b bs is (ok false) (ok js) e later run =
      Says-skip i b bs is (λ t. false≢true (ok-injective (sym e ∙ IsHit-has_hit host pid os b t)))
        (later is run)
  hits_cons i b bs is (err x) (ok js) e later run =
      Says-skip i b bs is (λ t. err-ne-ok (sym e ∙ IsHit-has_hit host pid os b t)) (later is run)
  hits_cons i b bs is (ok true) (err x) e later run = absurd (cc run)
  hits_cons i b bs is (ok true) panic e later run = absurd (cc run)
  hits_cons i b bs is (ok true) out_of_fuel e later run = absurd (cc run)
  hits_cons i b bs is (ok false) (err x) e later run = absurd (cc run)
  hits_cons i b bs is (ok false) panic e later run = absurd (cc run)
  hits_cons i b bs is (ok false) out_of_fuel e later run = absurd (cc run)
  hits_cons i b bs is (err x) (err y) e later run = absurd (cc run)
  hits_cons i b bs is (err x) panic e later run = absurd (cc run)
  hits_cons i b bs is (err x) out_of_fuel e later run = absurd (cc run)
  hits_cons i b bs is panic r e later run = absurd (cc run)
  hits_cons i b bs is out_of_fuel r e later run = absurd (cc run)

  -- If the filter of `resume` and `step` over the breakpoints gives a list of positions, counted from
  -- `i`: where the list is empty no breakpoint was hit, and where it is not its head is the position
  -- of the first breakpoint that was hit, with none before it. A breakpoint is hit if the program
  -- counter can be read and stands on it or right behind it, where in a build that lets arithmetic
  -- wrap 0 is right behind the last address; one whose test fails is not.
  pub hits_from-Says :
      (i : ℕ) (bs : List Breakpoint) (is : List ℕ)
      → hits_from host i pid bs os ≡ ok is
      → Says i bs is
  unfolding hits_from
  hits_from-Says i [] [] h = λ j c e. absurd (cc e)
  hits_from-Says i [] (m ∷ is) h = absurd (cc h)
  hits_from-Says i (b ∷ bs) is h =
      hits_cons i b bs is (has_hit host b pid os) (hits_from host (suc i) pid bs os) refl
        (λ js. hits_from-Says (suc i) bs js) h
