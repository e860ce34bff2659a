-- ===== src/Prelude/Decimal.antt =====
-- Decimal numerals of C: what `%d`, `%02d` and `std::to_string` print, and what `%d` scans.
use Prim.Native.Nat.{ℕ, zero, suc, ◌+◌, ◌-◌, ◌*◌, ◌/◌, ◌%◌, ◌<◌}
use mathlib.Core.Path.{◌≡◌, refl, ap, ◌∙◌}
use mathlib.Core.Logic.{inl, inr}
use mathlib.Core.Bool.{Bool, true, false, ◌&&◌, ◌||◌}
use mathlib.Core.Option.{Option, none, some}
use mathlib.Core.List.{List, [], ◌∷◌, ◌++◌, append_assoc}
use native.Mathlib.Omega.{arith}
use hydro_logger.Prelude.Tests.{Bool-cases, ltb, leb, ◌==◌, if◌then◌else◌}
use hydro_logger.Prelude.Lists.{length, replicate}
use hydro_logger.Prelude.Int.{ℤ, pos, negsuc, neg}

abbrev pub is_digit : ℕ → Bool
is_digit c = leb 48 c && leb c 57

-- `isspace`
abbrev pub is_space : ℕ → Bool
is_space c = (c == 32) || (leb 9 c && leb c 13)

-- The digits of `n` in front of `s`; fuel above `n` is enough.
unfoldable pub digits_to : ℕ → ℕ → List ℕ → List ℕ
digits_to zero n s = s
digits_to (suc f) n s =
    let rest = digits_to f (n / 10) ((48 + n % 10) ∷ s) in if ltb n 10 then (48 + n) ∷ s else rest

unfoldable pub decimal : ℕ → List ℕ
unfolding digits_to
decimal n = digits_to (suc n) n []

abbrev pub zero_padded : ℕ → List ℕ → List ℕ
zero_padded width s = replicate (width - length s) 48 ++ s

-- `%0<width>d`; the sign counts for the width. With a width of zero this is `%d`.
unfoldable pub format_int : ℕ → ℤ → List ℕ
unfolding decimal
format_int width (pos n) = zero_padded width (decimal n)
format_int width (negsuc n) = 45 ∷ zero_padded (width - 1) (decimal (suc n))

-- The digits at the front, on top of what they follow.
unfoldable pub scan_digits : ℕ → List ℕ → ℕ × List ℕ
scan_digits value [] = (value, [])
scan_digits value (c ∷ s) =
    let rest = scan_digits (value * 10 + (c - 48)) s in if is_digit c then rest else (value, c ∷ s)

unfoldable pub starts_with_digit : List ℕ → Bool
starts_with_digit [] = false
starts_with_digit (c ∷ s) = is_digit c

unfoldable pub scan_unsigned : List ℕ → Option (ℕ × List ℕ)
unfolding scan_digits starts_with_digit
scan_unsigned s = if starts_with_digit s then some (scan_digits 0 s) else none

unfoldable pub skip_spaces : List ℕ → List ℕ
skip_spaces [] = []
skip_spaces (c ∷ s) = let rest = skip_spaces s in if is_space c then rest else c ∷ s

abbrev pub signed : (ℕ → ℤ) → Option (ℕ × List ℕ) → Option (ℤ × List ℕ)
signed f none = none
signed f (some (n, s)) = some (f n, s)

-- One `%d` of `sscanf`: spaces, a sign, digits. A numeral that does not fit an `int` is undefined in C.
unfoldable pub scan_sign : List ℕ → Option (ℤ × List ℕ)
unfolding scan_unsigned
scan_sign [] = none
scan_sign (c ∷ s) =
    if c == 45
    then signed (λ n. neg (pos n)) (scan_unsigned s)
    else if c == 43
    then signed pos (scan_unsigned s)
    else signed pos (scan_unsigned (c ∷ s))

unfoldable pub scan_int : List ℕ → Option (ℤ × List ℕ)
unfolding scan_sign skip_spaces
scan_int s = scan_sign (skip_spaces s)

-- A text at whose front no digit stands: a numeral before it ends there.
unfoldable pub ends_number : List ℕ → Bool
ends_number [] = true
ends_number (c ∷ s) = ltb c 48 || ltb 57 c

digit_lem :
    (v d : ℕ) (s : List ℕ) → d < 10 → scan_digits v ((48 + d) ∷ s) ≡ scan_digits (v * 10 + d) s
unfolding scan_digits
digit_lem v d s h =
    let digit : is_digit (48 + d) ≡ true = ground arith in
    let value : v * 10 + (48 + d - 48) ≡ v * 10 + d = omega arith in
    λ i. if digit i then scan_digits (value i) s else (v, (48 + d) ∷ s)

scan_digits-digits_to :
    (f n : ℕ) (s : List ℕ) → n < f → scan_digits 0 (digits_to f n s) ≡ scan_digits n s
unfolding digits_to
scan_digits-digits_to zero n s h = absurd (omega arith)
scan_digits-digits_to (suc f) n s h = elim (Bool-cases (ltb n 10)) [
  | inl e ↦
      (λ i. scan_digits 0 (if e i then (48 + n) ∷ s else digits_to f (n / 10) ((48 + n % 10) ∷ s)))
      ∙ digit_lem 0 n s (ground arith)
      ∙ ap (λ t. scan_digits t s) (omega arith)
  | inr e ↦
      let value : n / 10 * 10 + n % 10 ≡ n = omega arith in
      (λ i. scan_digits 0 (if e i then (48 + n) ∷ s else digits_to f (n / 10) ((48 + n % 10) ∷ s)))
      ∙ scan_digits-digits_to f (n / 10) ((48 + n % 10) ∷ s) (ground arith)
      ∙ digit_lem (n / 10) (n % 10) s (omega arith)
      ∙ ap (λ t. scan_digits t s) value
]

digits_to-append : (f n : ℕ) (s t : List ℕ) → digits_to f n s ++ t ≡ digits_to f n (s ++ t)
unfolding digits_to
digits_to-append zero n s t = refl
digits_to-append (suc f) n s t = elim (Bool-cases (ltb n 10)) [
  | inl e ↦ ground (arith, e)
  | inr e ↦ ground (arith, e, digits_to-append f (n / 10) ((48 + n % 10) ∷ s) t)
]

digits_to-starts : (f n : ℕ) (s : List ℕ) → n < f → starts_with_digit (digits_to f n s) ≡ true
unfolding digits_to starts_with_digit
digits_to-starts zero n s h = absurd (omega arith)
digits_to-starts (suc f) n s h = elim (Bool-cases (ltb n 10)) [
  | inl e ↦
      (λ i.
        starts_with_digit (if e i then (48 + n) ∷ s else digits_to f (n / 10) ((48 + n % 10) ∷ s)))
      ∙ ground (arith, e)
  | inr e ↦
      (λ i.
        starts_with_digit (if e i then (48 + n) ∷ s else digits_to f (n / 10) ((48 + n % 10) ∷ s)))
      ∙ digits_to-starts f (n / 10) ((48 + n % 10) ∷ s) (ground arith)
]

scan_digits-ends : (n : ℕ) (s : List ℕ) → ends_number s ≡ true → scan_digits n s ≡ (n, s)
unfolding scan_digits ends_number
scan_digits-ends n [] h = refl
scan_digits-ends n (c ∷ s) h = ground (arith, h)

-- Zeros in front change neither the value nor that a digit stands first.
zeros_scan :
    (k : ℕ) (s : List ℕ)
    → starts_with_digit s ≡ true
    → (scan_digits 0 (replicate k 48 ++ s) ≡ scan_digits 0 s)
      × (starts_with_digit (replicate k 48 ++ s) ≡ true)
unfolding starts_with_digit
zeros_scan zero s h = (refl, h)
zeros_scan (suc k) s h =
    (digit_lem 0 0 (replicate k 48 ++ s) (omega arith) ∙ (zeros_scan k s h).0, refl)

decimal_text :
    (k n : ℕ) (s : List ℕ)
    → (replicate k 48 ++ decimal n) ++ s ≡ replicate k 48 ++ digits_to (suc n) n s
unfolding decimal
decimal_text k n s =
    append_assoc (replicate k 48) (digits_to (suc n) n []) s
    ∙ ap (λ t. replicate k 48 ++ t) (digits_to-append (suc n) n [] s)

pub decimal_starts :
    (k n : ℕ) (s : List ℕ) → starts_with_digit ((replicate k 48 ++ decimal n) ++ s) ≡ true
decimal_starts k n s =
    ap starts_with_digit (decimal_text k n s)
    ∙ (zeros_scan k (digits_to (suc n) n s) (digits_to-starts (suc n) n s (omega arith))).1

pub scan_unsigned-decimal :
    (k n : ℕ) (s : List ℕ)
    → ends_number s ≡ true
    → scan_unsigned ((replicate k 48 ++ decimal n) ++ s) ≡ some (n, s)
unfolding scan_unsigned
scan_unsigned-decimal k n s h =
    let start = digits_to-starts (suc n) n s (omega arith) in
    let (value, first) = zeros_scan k (digits_to (suc n) n s) start in
    ap scan_unsigned (decimal_text k n s) ∙ (λ i.
      if first i
      then some
          ((value ∙ scan_digits-digits_to (suc n) n s (omega arith) ∙ scan_digits-ends n s h) i)
      else none)

-- A text that begins with a digit has neither a space nor a sign there.
scan_int-digit :
    (s : List ℕ) → starts_with_digit s ≡ true → scan_int s ≡ signed pos (scan_unsigned s)
unfolding scan_int starts_with_digit
scan_int-digit [] h = ground (arith, h)
scan_int-digit (c ∷ s) h = ground (arith, h)

-- What `%d` reads back of a printed `int`, whatever the width it was printed with.
pub scan_int-format_int :
    (width : ℕ) (z : ℤ) (s : List ℕ)
    → ends_number s ≡ true
    → scan_int (format_int width z ++ s) ≡ some (z, s)
unfolding format_int scan_int
scan_int-format_int width (pos n) s h =
    let k = width - length (decimal n) in
    scan_int-digit (zero_padded width (decimal n) ++ s) (decimal_starts k n s)
    ∙ ap (signed pos) (scan_unsigned-decimal k n s h)
scan_int-format_int width (negsuc n) s h =
    let k = width - 1 - length (decimal (suc n)) in
    ap (signed (λ n. neg (pos n))) (scan_unsigned-decimal k (suc n) s h) ∙ ground arith
