-- ===== src/Linux/Aslr.antt =====
-- Address randomisation, as `execute` of src/linux.rs turns it off.
use rustybug.Prelude.{
  ℕ, zero, suc, ◌/◌, ◌%◌, ◌^◌, ◌<◌, bit_and, bit_or, ◌≡◌, refl, ◌∙◌, false, arith,
}
use rustybug.Prelude.Outcome.{ok, reads, pure, ◌>>◌, run_then-eq-ok}
use rustybug.Words.Bits.{bit_and_split, bit_or_split, bit_and_zero, bit_or_zero}
use rustybug.Host.{Host, Errno}
use rustybug.Linux.{addr_no_randomize, disable_aslr, is_aslr_enabled}

low_bit_set : (r : ℕ) → r < 2 → bit_or r 1 ≡ 1
low_bit_set zero h = refl
low_bit_set (suc zero) h = refl
low_bit_set (suc (suc r)) h = absurd (omega arith)

bit_or_one : (q : ℕ) → bit_and (bit_or q 1) 1 ≡ 1
bit_or_one q = ground (
  arith,
  bit_or_split 1 (q / 2) (q % 2) 0 1,
  bit_or_zero (q / 2),
  low_bit_set (q % 2),
  bit_and_split 1 (q / 2) 1 0 1,
  bit_and_zero (q / 2),
)

-- A flag that was set is found set.
flag_set : (x : ℕ) → bit_and (bit_or x addr_no_randomize) addr_no_randomize ≡ addr_no_randomize
flag_set x = ground (
  arith,
  bit_or_split 18 (x / 2 ^ 18) (x % 2 ^ 18) 1 0,
  bit_or_zero (x % 2 ^ 18),
  bit_and_split 18 (bit_or (x / 2 ^ 18) 1) (x % 2 ^ 18) 1 0,
  bit_and_zero (x % 2 ^ 18),
  bit_or_one (x / 2 ^ 18),
)

module _ {Os Regs FpRegs : Type 0} (host : Host Os Regs FpRegs) where
  -- The persona that personality(2) reports is the one last set.
  pub record PersonalityLaws : Type 0 where
    pub get_set :
        (p n : ℕ) (os os' : Os)
        → host.set_personality p os ≡ (ok n, os')
        → host.get_personality os' ≡ ok p

  module _ (laws : PersonalityLaws) where
    -- If `disable_aslr` succeeds, `is_aslr_enabled` is false after it, whatever the persona was
    -- before. The kernel keeps PersonalityLaws.
    pub disable_aslr-is_aslr_enabled :
        (os os' : Os) → disable_aslr host os ≡ (ok tt, os') → is_aslr_enabled host os' ≡ false
    unfolding disable_aslr is_aslr_enabled
    disable_aslr-is_aslr_enabled os os' run =
        let (this, os1, got, rest) =
          run_then-eq-ok (reads {E = Errno} host.get_personality os)
            (λ this. do host.set_personality (bit_or this addr_no_randomize); pure tt) tt os' run in
        let (n, os2, done, end) =
          run_then-eq-ok (host.set_personality (bit_or this addr_no_randomize) os1) (λ _. pure tt)
            tt os' rest in
        let now =
          laws.get_set (bit_or this addr_no_randomize) n os1 os'
            (done ∙ (λ i. (ok n, (end i).1))) in
        rw (now, is_aslr_enabled) (rw (flag_set this))
