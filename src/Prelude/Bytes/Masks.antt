-- ===== src/Prelude/Bytes/Masks.antt =====
-- A mask of eight bits reads only the low byte of a number.
use Prim.Native.Nat.{
  ℕ, zero, suc, ◌+◌, ◌*◌, ◌/◌, ◌%◌, ◌≤◌, ◌<◌, min, bit_and, digits, bit_and-bitwise,
}
use mathlib.Core.Path.{◌≡◌, refl, ap, sym, ◌∙◌}
use native.Mathlib.Omega.{arith}

-- The digits do not depend on the fuel, once it covers the number.
enough_digits :
    (n k x m : ℕ) → x ≤ n → x ≤ k → digits (λ _. zero) min k x m ≡ digits (λ _. zero) min n x m
enough_digits n k zero m h g = ap (λ z. z) (no_digits n k)
  where
    no_digits : (n k : ℕ) → digits (λ _. zero) min k 0 m ≡ digits (λ _. zero) min n 0 m
    no_digits zero zero = refl
    no_digits zero (suc k) = refl
    no_digits (suc n) zero = refl
    no_digits (suc n) (suc k) = refl
enough_digits zero k (suc x) m h g = absurd (omega arith)
enough_digits (suc n) zero (suc x) m h g = absurd (omega arith)
enough_digits (suc n) (suc k) (suc x) m h g =
    omega (arith, enough_digits n k (suc x / 2) (m / 2) (omega arith) (omega arith))

low_digit : (x m : ℕ) → bit_and x m ≡ bit_and (x / 2) (m / 2) * 2 + min (x % 2) (m % 2)
low_digit zero m = omega (arith, bit_and-bitwise 0 m, bit_and-bitwise 0 (m / 2))
low_digit (suc x) m = omega (
  arith,
  bit_and-bitwise (suc x) m,
  bit_and-bitwise (suc x / 2) (m / 2),
  enough_digits (suc x / 2) x (suc x / 2) (m / 2) (omega arith) (omega arith),
)

no_mask : (n x : ℕ) → x ≤ n → bit_and x 0 ≡ 0
no_mask n zero h = refl
no_mask zero (suc x) h = absurd (omega arith)
no_mask (suc n) (suc x) h = omega (arith, low_digit (suc x) 0, no_mask n (suc x / 2) (omega arith))

same_digit :
    (x y m : ℕ)
    → x % 2 ≡ y % 2
    → bit_and (x / 2) (m / 2) ≡ bit_and (y / 2) (m / 2)
    → bit_and x m ≡ bit_and y m
same_digit x y m h g = omega (arith, low_digit x m, low_digit y m)

done_digits : (x y m : ℕ) → m ≡ 0 → bit_and x m ≡ bit_and y m
done_digits x y m h =
    ap (bit_and x) h
    ∙ no_mask x x (omega arith)
    ∙ sym (no_mask y y (omega arith))
    ∙ ap (bit_and y) (sym h)

low_nibble : (x y m : ℕ) → m < 16 → x % 16 ≡ y % 16 → bit_and x m ≡ bit_and y m
low_nibble x y m h g = same_digit x y m (omega arith) (
    same_digit (x / 2) (y / 2) (m / 2) (omega arith) (
      same_digit (x / 2 / 2) (y / 2 / 2) (m / 2 / 2) (omega arith) (
        same_digit (x / 2 / 2 / 2) (y / 2 / 2 / 2) (m / 2 / 2 / 2) (omega arith)
          (done_digits _ _ (m / 2 / 2 / 2 / 2) (omega arith)))))

pub low_byte : (x m : ℕ) → m < 256 → bit_and (x % 256) m ≡ bit_and x m
low_byte x m h =
    let y = x % 256 in
    same_digit y x m (omega arith) (
      same_digit (y / 2) (x / 2) (m / 2) (omega arith) (
        same_digit (y / 2 / 2) (x / 2 / 2) (m / 2 / 2) (omega arith) (
          same_digit (y / 2 / 2 / 2) (x / 2 / 2 / 2) (m / 2 / 2 / 2) (omega arith) (
            low_nibble (y / 2 / 2 / 2 / 2) (x / 2 / 2 / 2 / 2) (m / 2 / 2 / 2 / 2) (omega arith)
              (omega arith)))))

masked_le : (n x m : ℕ) → x ≤ n → bit_and x m ≤ x
masked_le n zero m h = omega (arith, bit_and-bitwise 0 m)
masked_le zero (suc x) m h = absurd (omega arith)
masked_le (suc n) (suc x) m h =
    omega (arith, low_digit (suc x) m, masked_le n (suc x / 2) (m / 2) (omega arith))

-- A mask that survives a byte is a byte.
pub mask_small : (mask i : ℕ) → i < 256 → bit_and mask i ≡ mask → mask < 256
mask_small mask i h e =
    omega (arith, low_byte mask i h, masked_le (mask % 256) (mask % 256) i (omega arith))
