-- ===== src/Rtc/Pcf8563/Chip.antt =====
-- What the PCF8563 data sheet says of the registers behind the bus, as hypotheses on the bus, and
-- what the driver's register access then does to them.
use hydro_logger.Prelude.{
  ℕ, zero, suc, ◌+◌, ◌≡◌, ◌≢◌, refl, ◌≤◌, ◌<◌, ◌⊎◌, inl, inr, List, [], ◌∷◌, ◌&&◌, some, length,
  get_or, bit_and, arith, Option-cases,
}
use hydro_logger.Prelude.Bytes.{has_bits}
use hydro_logger.Rtc.I2c.{Bus, write_link, read_link}
use hydro_logger.Rtc.Pcf8563.{i2c_addr, Status, Reply, done, fail, Io, ◌>>=◌, write_regs, read_regs}

-- The bits of a register that the chip implements; what the others read as is undefined.
abbrev pub implemented_bits : List ℕ
implemented_bits =
    0xA8 ∷ 0x1F ∷ 0xFF ∷ 0x7F ∷ 0x3F ∷ 0x3F ∷ 0x07 ∷ 0x9F ∷ 0xFF ∷ 0xFF ∷ 0xBF ∷ 0xBF ∷ 0x87 ∷ 0x83
    ∷ 0x83 ∷ 0xFF ∷ []

abbrev pub implemented : ℕ → ℕ
implemented i = get_or implemented_bits i 0

-- The registers from `r` on, `n` of them.
abbrev pub from : (ℕ → ℕ) → ℕ → ℕ → List ℕ
from reg r zero = []
from reg r (suc n) = reg r ∷ from reg (r + 1) n

-- An acknowledged write stores the implemented bits of what it carries and leaves the other
-- registers alone. In Control_status_2 the flags AF (8) and TF (4) are cleared by a 0 and left by
-- a 1. An acknowledged read gives the registers and changes none. No second passes in between.
pub record Chip (b : Bus) : Type 0 where
  pub reg : b.Dev → ℕ → ℕ
  pub reg_byte : (d : b.Dev) (i : ℕ) → reg d i < 256
  pub write_stores :
      (r : ℕ) (w bytes : List ℕ) (d d' : b.Dev) (k mask : ℕ)
      → b.cmd_begin (write_link i2c_addr r w) d ≡ (some bytes, d')
      → k < length w
      → r + k ≢ 1
      → bit_and mask (implemented (r + k)) ≡ mask
      → bit_and (reg d' (r + k)) mask ≡ bit_and (get_or w k 0) mask
  pub write_keeps :
      (r : ℕ) (w bytes : List ℕ) (d d' : b.Dev) (i : ℕ)
      → b.cmd_begin (write_link i2c_addr r w) d ≡ (some bytes, d')
      → (i < r) ⊎ (r + length w ≤ i)
      → reg d' i ≡ reg d i
  pub write_control :
      (v : ℕ) (bytes : List ℕ) (d d' : b.Dev)
      → b.cmd_begin (write_link i2c_addr 1 (v ∷ [])) d ≡ (some bytes, d')
      → (has_bits (reg d' 1) 1 ≡ has_bits v 1)
        × (has_bits (reg d' 1) 2 ≡ has_bits v 2)
        × (has_bits (reg d' 1) 16 ≡ has_bits v 16)
        × (has_bits (reg d' 1) 8 ≡ (has_bits (reg d 1) 8 && has_bits v 8))
        × (has_bits (reg d' 1) 4 ≡ (has_bits (reg d 1) 4 && has_bits v 4))
  pub read_gives :
      (r n : ℕ) (bytes : List ℕ) (d d' : b.Dev)
      → 1 ≤ n
      → b.cmd_begin (read_link i2c_addr r n) d ≡ (some bytes, d')
      → bytes ≡ from (reg d) r n
  pub read_keeps :
      (r n : ℕ) (bytes : List ℕ) (d d' : b.Dev) (i : ℕ)
      → b.cmd_begin (read_link i2c_addr r n) d ≡ (some bytes, d')
      → reg d' i ≡ reg d i

pub Reply-cases :
    {A : Type 0} (r : Reply A) → ((a : A) × (r ≡ done a)) ⊎ ((s : Status) × (r ≡ fail s))
Reply-cases (done a) = inl (a, refl)
Reply-cases (fail s) = inr (s, refl)

pub done-injective :
    {D A : Type 0} (x y : A) (d e : D)
    → ◌≡◌ {A = Reply A × D} (done x, d) (done y, e)
    → (x ≡ y) × (d ≡ e)
done-injective x y d e h = (cc, cc)

-- A chain that ends well has ended well at its first call.
pub >>=-done :
    {D A B : Type 0} (m : Io D A) (f : A → Io D B) (d d'' : D) (r : B)
    → (m >>= f) d ≡ (done r, d'')
    → (a : A) × (d' : D) × (m d ≡ (done a, d')) × (f a d' ≡ (done r, d''))
>>=-done m f d d'' r h = elim (Reply-cases (m d).0) [
  | inl (a, e) ↦ (a, (m d).1, ground (arith, e), ground (arith, e, h))
  | inr (s, e) ↦ ground (arith, e, h)
]

module _ (b : Bus) where
  -- An access that ends well is one acknowledged command link.
  pub write_regs-done :
      (r : ℕ) (w : List ℕ) (d d' : b.Dev) {u : Unit {0}}
      → write_regs b r w d ≡ (done u, d')
      → (bytes : List ℕ) × (b.cmd_begin (write_link i2c_addr r w) d ≡ (some bytes, d'))
  unfolding write_regs
  write_regs-done r w d d' h = elim (Option-cases (b.cmd_begin (write_link i2c_addr r w) d).0) [
    | inl e ↦ ground (arith, e)
    | inr (bytes, e) ↦ (bytes, ground (arith, e))
  ]

  pub read_regs-done :
      (r n : ℕ) (d d' : b.Dev) {bytes : List ℕ}
      → n < 256
      → read_regs b r n d ≡ (done bytes, d')
      → b.cmd_begin (read_link i2c_addr r n) d ≡ (some bytes, d')
  unfolding read_regs
  read_regs-done r n d d' small h = elim (Option-cases (b.cmd_begin (read_link i2c_addr r n) d).0) [
    | inl e ↦ ground (arith, e)
    | inr (bytes, e) ↦ ground (arith, e)
  ]
