-- ===== src/Words/Byte.antt =====
-- One byte of a 64-bit word: the masks and shifts of breakpoint.rs as a read and a write of it.
use native.Mathlib.Nat.{one-le-pow, div-add-mod', mod-lt}
use rustybug.Prelude.{
  ℕ, zero, suc, ◌+◌, ◌-◌, ◌*◌, ◌/◌, ◌%◌, ◌^◌, ◌<◌, bit_and, bit_or, ◌≡◌, ◌∙◌, arith,
}
use rustybug.Words.{not_u64, shl, sar}
use rustybug.Words.Bits.{
  zero-bit_or, bit_and_split, bit_or_split, bit_and_ones, bit_and_zero, bit_or_zero,
}

-- The byte that stands `s` bits up in the word `w`.
abbrev pub byte_at : ℕ → ℕ → ℕ
byte_at s w = w / 2 ^ s % 256

-- The word `w` with that byte replaced by `b`.
abbrev pub with_byte : ℕ → ℕ → ℕ → ℕ
with_byte s b w = (w / 2 ^ s / 256 * 256 + b) * 2 ^ s + w % 2 ^ s

-- Clearing the middle field of a word and putting `b` into it leaves the fields beside it alone.
clear_and_set :
    (s t h m l b : ℕ)
    → l < 2 ^ s
    → h < 2 ^ t
    → m < 256
    → b < 256
    → bit_or
        (bit_and ((h * 256 + m) * 2 ^ s + l) ((2 ^ t - 1) * 256 * 2 ^ s + (2 ^ s - 1)))
        (b * 2 ^ s)
      ≡ (h * 256 + b) * 2 ^ s + l
clear_and_set s t h m l b low high mid new = ground (
  arith,
  one-le-pow s 2,
  bit_and_split s (h * 256 + m) l ((2 ^ t - 1) * 256) (2 ^ s - 1),
  bit_and_ones s l,
  bit_and_split 8 h m (2 ^ t - 1) 0,
  bit_and_zero m,
  bit_and_ones t h,
  bit_or_split s (h * 256) l b 0,
  bit_or_zero l,
  bit_or_split 8 h 0 0 b,
  bit_or_zero h,
  zero-bit_or b,
)

-- Rejoining the fields of a word.
word_fields : (s w : ℕ) → (w / 2 ^ s / 256 * 256 + byte_at s w) * 2 ^ s + w % 2 ^ s ≡ w
word_fields s w =
    let high : w / 2 ^ s / 256 * 256 + byte_at s w ≡ w / 2 ^ s = omega arith in
    rw high (div-add-mod' w (2 ^ s))

-- A mask that spares all bits but those of one byte, and a new byte in its place.
set_byte_at :
    (s t w b : ℕ)
    → w / 2 ^ s / 256 < 2 ^ t
    → b < 256
    → bit_or (bit_and w ((2 ^ t - 1) * 256 * 2 ^ s + (2 ^ s - 1))) (b * 2 ^ s) ≡ with_byte s b w
set_byte_at s t w b high new = ground (
  arith,
  word_fields s w,
  clear_and_set s t (w / 2 ^ s / 256) (byte_at s w) (w % 2 ^ s) b,
  mod-lt w (one-le-pow s 2 (omega arith)),
)

-- What the mask, the shift and the two bit operations of breakpoint.rs do to a word.
pub set_byte_lem :
    (j w b : ℕ)
    → j < 8
    → w < 2 ^ 64
    → b < 256
    → bit_or (bit_and w (not_u64 (shl 0xFF (8 * j)))) (shl b (8 * j)) ≡ with_byte (8 * j) b w
set_byte_lem zero w b hj hw hb = ground (arith, set_byte_at 0 56 w b (omega arith) hb)
set_byte_lem (suc zero) w b hj hw hb = ground (arith, set_byte_at 8 48 w b (omega arith) hb)
set_byte_lem (suc (suc zero)) w b hj hw hb = ground (arith, set_byte_at 16 40 w b (omega arith) hb)
set_byte_lem (suc (suc (suc zero))) w b hj hw hb =
    ground (arith, set_byte_at 24 32 w b (omega arith) hb)
set_byte_lem (suc (suc (suc (suc zero)))) w b hj hw hb =
    ground (arith, set_byte_at 32 24 w b (omega arith) hb)
set_byte_lem (suc (suc (suc (suc (suc zero))))) w b hj hw hb =
    ground (arith, set_byte_at 40 16 w b (omega arith) hb)
set_byte_lem (suc (suc (suc (suc (suc (suc zero)))))) w b hj hw hb =
    ground (arith, set_byte_at 48 8 w b (omega arith) hb)
set_byte_lem (suc (suc (suc (suc (suc (suc (suc zero))))))) w b hj hw hb =
    ground (arith, set_byte_at 56 0 w b (omega arith) hb)
set_byte_lem (suc (suc (suc (suc (suc (suc (suc (suc j)))))))) w b hj hw hb = absurd (omega arith)

bit_and_byte : (x : ℕ) → bit_and x 0xFF ≡ x % 256
bit_and_byte x = ground (
  arith,
  bit_and_split 8 (x / 256) (x % 256) 0 255,
  bit_and_zero (x / 256),
  bit_and_ones 8 (x % 256),
)

-- The low byte behind an arithmetic shift is the byte at that place.
pub byte_of_sar : (j w : ℕ) → j < 8 → w < 2 ^ 64 → bit_and (sar w (8 * j)) 0xFF ≡ byte_at (8 * j) w
byte_of_sar zero w hj hw = ground (arith, bit_and_byte (sar w 0))
byte_of_sar (suc zero) w hj hw = ground (arith, bit_and_byte (sar w 8))
byte_of_sar (suc (suc zero)) w hj hw = ground (arith, bit_and_byte (sar w 16))
byte_of_sar (suc (suc (suc zero))) w hj hw = ground (arith, bit_and_byte (sar w 24))
byte_of_sar (suc (suc (suc (suc zero)))) w hj hw = ground (arith, bit_and_byte (sar w 32))
byte_of_sar (suc (suc (suc (suc (suc zero))))) w hj hw = ground (arith, bit_and_byte (sar w 40))
byte_of_sar (suc (suc (suc (suc (suc (suc zero)))))) w hj hw =
    ground (arith, bit_and_byte (sar w 48))
byte_of_sar (suc (suc (suc (suc (suc (suc (suc zero))))))) w hj hw =
    ground (arith, bit_and_byte (sar w 56))
byte_of_sar (suc (suc (suc (suc (suc (suc (suc (suc j)))))))) w hj hw = absurd (omega arith)

-- The two parts of `q * 2 ^ s + r`.
high_part : (s q r : ℕ) → r < 2 ^ s → (q * 2 ^ s + r) / 2 ^ s ≡ q
high_part s q r h = grind arith

low_part : (s q r : ℕ) → r < 2 ^ s → (q * 2 ^ s + r) % 2 ^ s ≡ r
low_part s q r h = grind arith

low_lt : (s w : ℕ) → w % 2 ^ s < 2 ^ s
low_lt s w = mod-lt w (one-le-pow s 2 (omega arith))

with_byte_high : (s b w : ℕ) → with_byte s b w / 2 ^ s ≡ w / 2 ^ s / 256 * 256 + b
with_byte_high s b w = high_part s (w / 2 ^ s / 256 * 256 + b) (w % 2 ^ s) (low_lt s w)

with_byte_low : (s b w : ℕ) → with_byte s b w % 2 ^ s ≡ w % 2 ^ s
with_byte_low s b w = low_part s (w / 2 ^ s / 256 * 256 + b) (w % 2 ^ s) (low_lt s w)

-- Two words that differ at most in the byte that stands `s` bits up.
abbrev pub SameBeside : ℕ → ℕ → ℕ → Type 0
SameBeside s v w = (v % 2 ^ s ≡ w % 2 ^ s) × (v / 2 ^ s / 256 ≡ w / 2 ^ s / 256)

-- A byte that was written is read back, and the others stay.
pub byte_at-with_byte : (s b w : ℕ) → b < 256 → byte_at s (with_byte s b w) ≡ b
byte_at-with_byte s b w hb = omega (arith, with_byte_high s b w)

pub with_byte-SameBeside : (s b w : ℕ) → b < 256 → SameBeside s (with_byte s b w) w
with_byte-SameBeside s b w hb = (with_byte_low s b w, omega (arith, with_byte_high s b w))

-- Only the last of two writes counts, and writing the byte that is there changes nothing.
pub with_byte-with_byte :
    (s a b w : ℕ) → b < 256 → with_byte s a (with_byte s b w) ≡ with_byte s a w
with_byte-with_byte s a b w hb =
    let high : with_byte s b w / 2 ^ s / 256 ≡ w / 2 ^ s / 256 =
      omega (arith, with_byte_high s b w) in
    rw (high, with_byte_low s b w)

pub with_byte-byte_at : (s w : ℕ) → with_byte s (byte_at s w) w ≡ w
with_byte-byte_at s w = word_fields s w

-- Writing back the byte that was there before restores the word.
pub with_byte_undo : (s b w : ℕ) → b < 256 → with_byte s (byte_at s w) (with_byte s b w) ≡ w
with_byte_undo s b w hb = with_byte-with_byte s (byte_at s w) b w hb ∙ with_byte-byte_at s w

pub with_byte-lt : (j b w : ℕ) → j < 8 → b < 256 → w < 2 ^ 64 → with_byte (8 * j) b w < 2 ^ 64
with_byte-lt zero b w hj hb hw = omega arith
with_byte-lt (suc zero) b w hj hb hw = omega arith
with_byte-lt (suc (suc zero)) b w hj hb hw = omega arith
with_byte-lt (suc (suc (suc zero))) b w hj hb hw = omega arith
with_byte-lt (suc (suc (suc (suc zero)))) b w hj hb hw = omega arith
with_byte-lt (suc (suc (suc (suc (suc zero))))) b w hj hb hw = omega arith
with_byte-lt (suc (suc (suc (suc (suc (suc zero)))))) b w hj hb hw = omega arith
with_byte-lt (suc (suc (suc (suc (suc (suc (suc zero))))))) b w hj hb hw = omega arith
with_byte-lt (suc (suc (suc (suc (suc (suc (suc (suc j)))))))) b w hj hb hw = absurd (omega arith)

-- `addr & !7` clears the three low bits.
pub align_down : (a : ℕ) → a < 2 ^ 64 → bit_and a (not_u64 7) ≡ a - a % 8
align_down a h = ground (
  arith,
  bit_and_split 3 (a / 8) (a % 8) (2 ^ 61 - 1) 0,
  bit_and_ones 61 (a / 8),
  bit_and_zero (a % 8),
)
