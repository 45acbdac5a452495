-- ===== src/Breakpoint/Hit.antt =====
-- When a breakpoint of src/breakpoint.rs is hit: where the program counter of the tracee stands.
use rustybug.Prelude.{
  ℕ, ◌+◌, ◌-◌, ◌^◌, ◌≡◌, ◌≢◌, refl, sym, ap, Bool, true, false, ◌==◌, leb, ◌⊎◌, inl, inr, arith,
  Bool-cases, if◌then◌else◌,
}
use rustybug.Prelude.Outcome.{
  Outcome, ok, err, panic, out_of_fuel, map_ok, and_then-ok, ok-injective, err-ne-ok,
}
use rustybug.Host.{Pid, Errno, Host, unknown_errno, sub_u64}
use rustybug.Ptrace.{errno_result, current_instruction_pointer}
use rustybug.Breakpoint.{Breakpoint, has_hit}

-- The program counter that an answer of the kernel gives; 2^64 - 1 is told from an error by `errno`.
abbrev pub Gives : ℕ × ℕ → ℕ → Type 0
Gives (ret, errno) pc = (pc ≡ ret) × ((ret ≢ 2 ^ 64 - 1) ⊎ (errno ≡ 0))

-- What the code makes of the answer.
abbrev read_as : ℕ × ℕ → Outcome Errno ℕ
read_as answer = elim (errno_result answer) [
  | ok _ ↦ ok answer.0
  | err e ↦ if e == unknown_errno then ok answer.0 else err e
  | panic ↦ panic
  | out_of_fuel ↦ out_of_fuel
]

read_as-Gives : (answer : ℕ × ℕ) (pc : ℕ) → read_as answer ≡ ok pc → Gives answer pc
read_as-Gives (ret, errno) pc h = elim (Bool-cases (ret == 2 ^ 64 - 1)) [
  | inr differs ↦
      let same : ret ≡ pc = ok-injective (rw (read_as, differs) at h) in
      (sym same, inl (ground (arith, differs)))
  | inl last ↦ elim (Bool-cases (errno == 0)) [
    | inr failed ↦ absurd (err-ne-ok (rw (read_as, last, failed) at h))
    | inl fine ↦
        let same : ret ≡ pc = ok-injective (rw (read_as, last, fine) at h) in
        (sym same, inr (ground (arith, fine)))
  ]
]

Gives-read_as : (answer : ℕ × ℕ) (pc : ℕ) → Gives answer pc → read_as answer ≡ ok pc
Gives-read_as (ret, errno) pc (same, inr fine) = elim (Bool-cases (ret == 2 ^ 64 - 1)) [
  | inr differs ↦ rw (read_as, differs) (ap (λ (n : ℕ). ok n) (sym same))
  | inl last ↦
      let zero : (errno == 0) ≡ true = ground arith in
      rw (read_as, last, zero) (ap (λ (n : ℕ). ok n) (sym same))
]
Gives-read_as (ret, errno) pc (same, inl ne) =
    let differs : (ret == 2 ^ 64 - 1) ≡ false = ground (arith, ne) in
    rw (read_as, differs) (ap (λ (n : ℕ). ok n) (sym same))

module _ {Os Regs FpRegs : Type 0} (host : Host Os Regs FpRegs) (pid : Pid) (os : Os) where
  abbrev pub IsPc : ℕ → Type 0
  IsPc pc = Gives (host.peek_user pid 128 os) pc

  -- A breakpoint is hit if the program counter can be read and stands on it, or right behind it: just
  -- behind the last address is 0 in a build that lets arithmetic wrap.
  abbrev pub IsHit : Breakpoint → Type 0
  IsHit b =
      (pc : ℕ) × IsPc pc
      × ((pc ≡ b.pc)
          ⊎ ((pc ≡ b.pc + 1) ⊎ ((host.overflow_checks ≡ false) × (pc ≡ 0) × (b.pc ≡ 2 ^ 64 - 1))))

  abbrev behind : Breakpoint → ℕ → Outcome Errno Bool
  behind b pc =
      if pc == b.pc
      then ok true
      else map_ok (λ before. before == b.pc) (sub_u64 host.overflow_checks pc 1)

  current_instruction_pointer-IsPc :
      (pc : ℕ) → current_instruction_pointer host pid os ≡ ok pc → IsPc pc
  unfolding current_instruction_pointer
  current_instruction_pointer-IsPc pc h = read_as-Gives (host.peek_user pid 128 os) pc h

  IsPc-pc : (pc : ℕ) → IsPc pc → current_instruction_pointer host pid os ≡ ok pc
  unfolding current_instruction_pointer
  IsPc-pc pc is = Gives-read_as (host.peek_user pid 128 os) pc is

  behind-IsHit : (b : Breakpoint) (pc : ℕ) → IsPc pc → behind b pc ≡ ok true → IsHit b
  behind-IsHit b pc is h = elim (Bool-cases (pc == b.pc)) [
    | inl on ↦ (pc, is, inl (ground (arith, on)))
    | inr off ↦ elim (Bool-cases (leb 1 pc)) [
      | inl positive ↦
          let one : (pc - 1 == b.pc) ≡ true = ok-injective (rw (off, positive) at h) in
          (pc, is, inr (inl (ground (arith, one, positive))))
      | inr nought ↦ elim (Bool-cases host.overflow_checks) [
        | inl checks ↦ absurd (cc (rw (off, nought, checks) at h))
        | inr wraps ↦
            let one : (pc + 2 ^ 64 - 1 == b.pc) ≡ true =
              ok-injective (rw (off, nought, wraps) at h) in
            let zero : pc ≡ 0 = ground (arith, nought) in
            (pc, is, inr (inr (wraps, zero, ground (arith, one, zero))))
      ]
    ]
  ]

  pub has_hit-IsHit : (b : Breakpoint) → has_hit host b pid os ≡ ok true → IsHit b
  unfolding has_hit
  has_hit-IsHit b h =
      let (pc, e, at) =
        and_then-ok (current_instruction_pointer host pid os) (λ pc. behind b pc) true h in
      behind-IsHit b pc (current_instruction_pointer-IsPc pc e) at

  IsHit-behind :
      (b : Breakpoint) (pc : ℕ)
      → (pc ≡ b.pc)
        ⊎ ((pc ≡ b.pc + 1) ⊎ ((host.overflow_checks ≡ false) × (pc ≡ 0) × (b.pc ≡ 2 ^ 64 - 1)))
      → behind b pc ≡ ok true
  IsHit-behind b pc (inl on) = let same : (pc == b.pc) ≡ true = ground (arith, on) in rw same refl
  IsHit-behind b pc (inr (inl next)) =
      let off : (pc == b.pc) ≡ false = ground (arith, next) in
      let positive : leb 1 pc ≡ true = ground (arith, next) in
      let one : (pc - 1 == b.pc) ≡ true = ground (arith, next) in rw (off, positive, one) refl
  IsHit-behind b pc (inr (inr (wraps, zero, last))) =
      let off : (pc == b.pc) ≡ false = ground (arith, zero, last) in
      let nought : leb 1 pc ≡ false = ground (arith, zero) in
      let one : (pc + 2 ^ 64 - 1 == b.pc) ≡ true = ground (arith, zero, last) in
      rw (off, nought, wraps, one) refl

  pub IsHit-has_hit : (b : Breakpoint) → IsHit b → has_hit host b pid os ≡ ok true
  unfolding has_hit
  IsHit-has_hit b (pc, is, at) = rw (has_hit, IsPc-pc pc is) (IsHit-behind b pc at)
