-- ===== src/Console/Serial.antt =====
-- What the console makes of a serial number that is typed.
use hydro_logger.Prelude.{
  ℕ, zero, suc, ◌+◌, ◌-◌, ◌*◌, ◌/◌, ◌%◌, ◌≡◌, ◌≤◌, ◌<◌, refl, ap, sym, ◌∙◌, Bool, true, false, ◌&&◌,
  none, some, List, [], ◌∷◌, ◌++◌, All, All-append, append-nil, length, length-append, take,
  take_all, replicate, ltb, if◌then◌else◌, arith,
}
use hydro_logger.Prelude.Bytes.{codes, equals}
use hydro_logger.Prelude.Decimal.{
  is_digit, digits_to, decimal, format_int, zero_padded, skip_spaces, starts_with_digit,
  scan_unsigned-decimal, scan_unsigned, ends_number,
}
use hydro_logger.Nvs.Settings.{Store, set_device_code, get_device_serial, serial_text}
use hydro_logger.Nvs.Settings.Kept.{StoreLaws, code_set}
use hydro_logger.Console.{
  put_unless_space, trim_back, trim, all_digits, digit_suffix, parse_serial_code, code_of,
  handle_command, handle_line, handle_serial_number, split_colon, key, keys,
}
use hydro_logger.Console.Line.{is_plain, typed}

-- A numeral: digits, of which at least one.
Digits : List ℕ → Type 0
Digits s = All (λ c. is_digit c ≡ true) s

abbrev power : ℕ → ℕ
power zero = 10
power (suc k) = 10 * power k

Digits-if :
    (test : Bool) (s t : List ℕ)
    → (test ≡ true → Digits s)
    → Digits t
    → Digits (if test then s else t)
Digits-if true s t p q = p refl
Digits-if false s t p q = q

digits_to-Digits : (f n : ℕ) (s : List ℕ) → Digits s → Digits (digits_to f n s)
unfolding digits_to Digits
digits_to-Digits zero n s h = h
digits_to-Digits (suc f) n s h =
    Digits-if (ltb n 10) ((48 + n) ∷ s) (digits_to f (n / 10) ((48 + n % 10) ∷ s))
      (λ e. (ground (arith, e), h))
      (digits_to-Digits f (n / 10) ((48 + n % 10) ∷ s) (ground arith, h))

-- A number has as many digits as the power of ten above it says.
digits_to-short :
    (k f n : ℕ) (s : List ℕ) → n < power k → length (digits_to f n s) ≤ suc k + length s
unfolding digits_to
digits_to-short k zero n s h = omega arith
digits_to-short zero (suc f) n s h = ground (arith, h)
digits_to-short (suc k) (suc f) n s h =
    ground (arith, h, digits_to-short k f (n / 10) ((48 + n % 10) ∷ s))

length-replicate : (k c : ℕ) → length (replicate k c) ≡ k
length-replicate zero c = refl
length-replicate (suc k) c = ap suc (length-replicate k c)

replicate-Digits : (k : ℕ) → Digits (replicate k 48)
unfolding Digits
replicate-Digits zero = tt
replicate-Digits (suc k) = (refl, replicate-Digits k)

all_digits_lem : (s : List ℕ) → Digits s → all_digits s ≡ true
unfolding all_digits Digits
all_digits_lem [] h = refl
all_digits_lem (c ∷ s) (h, hs) = ground (arith, h, all_digits_lem s hs)

digit_suffix_lem : (c : ℕ) (s : List ℕ) → Digits (c ∷ s) → digit_suffix (c ∷ s) ≡ c ∷ s
unfolding digit_suffix
digit_suffix_lem c s h = ground (arith, all_digits_lem (c ∷ s) h)

-- Digits at the end are not trimmed.
trim_back-Digits : (s : List ℕ) → Digits s → trim_back s ≡ s
unfolding trim_back Digits
trim_back-Digits [] h = refl
trim_back-Digits (c ∷ []) (h, hs) = ground (arith, h)
trim_back-Digits (c ∷ d ∷ s) (h, hs) = ap (put_unless_space c) (trim_back-Digits (d ∷ s) hs)

trim_back-append :
    (s : List ℕ) (c : ℕ) (t : List ℕ) → Digits (c ∷ t) → trim_back (s ++ c ∷ t) ≡ s ++ c ∷ t
unfolding trim_back
trim_back-append [] c t h = trim_back-Digits (c ∷ t) h
trim_back-append (d ∷ []) c t h = ap (put_unless_space d) (trim_back-append [] c t h)
trim_back-append (d ∷ e ∷ s) c t h = ap (put_unless_space d) (trim_back-append (e ∷ s) c t h)

-- The digits of a serial number.
padded-Digits : (width n : ℕ) → Digits (zero_padded width (decimal n))
unfolding Digits decimal
padded-Digits width n =
    All-append (λ c. is_digit c ≡ true) (replicate (width - length (decimal n)) 48) (decimal n)
      (replicate-Digits (width - length (decimal n))) (digits_to-Digits (suc n) n [] tt)

padded_short : (n : ℕ) → n ≤ 65535 → length (zero_padded 4 (decimal n)) ≤ 5
unfolding decimal
padded_short n h =
    let k = 4 - length (decimal n) in
    omega (
      arith,
      length-append (replicate k 48) (decimal n),
      length-replicate k 48,
      digits_to-short 4 (suc n) n [] (omega (arith, h)),
    )

padded_scan : (n : ℕ) → scan_unsigned (zero_padded 4 (decimal n)) ≡ some (n, [])
unfolding ends_number
padded_scan n =
    ap scan_unsigned (sym (append-nil (zero_padded 4 (decimal n))))
    ∙ scan_unsigned-decimal (4 - length (decimal n)) n [] refl

parsed :
    (c : ℕ) (s : List ℕ)
    → Digits (c ∷ s)
    → parse_serial_code (codes "TD_MW_" ++ (c ∷ s)) ≡ code_of (scan_unsigned (c ∷ s))
unfolding parse_serial_code trim skip_spaces digit_suffix all_digits
parsed c s h =
    ap (λ t. code_of (scan_unsigned (digit_suffix t))) (trim_back-append (codes "TD_MW_") c s h)
    ∙ ap (λ t. code_of (scan_unsigned t)) (digit_suffix_lem c s h)

handled :
    (store : Store) (c : ℕ) (s : List ℕ) (f : store.Flash)
    → Digits (c ∷ s)
    → handle_line store (codes "serial_number:TD_MW_" ++ (c ∷ s)) f
      ≡ handle_serial_number store (codes "TD_MW_" ++ (c ∷ s)) f
unfolding handle_line trim split_colon equals skip_spaces
handled store c s f h =
    ap (λ t. handle_command store (split_colon t) f)
      (trim_back-append (codes "serial_number:TD_MW_") c s h)
    ∙ ap (λ t. handle_serial_number store t f) (trim_back-append (codes "TD_MW_") c s h)

-- A line that holds a serial number stores its code.
stored :
    (store : Store) (code : ℕ) (s : List ℕ) (f : store.Flash)
    → Digits s
    → scan_unsigned s ≡ some (code, [])
    → code ≤ 65535
    → handle_line store (codes "serial_number:TD_MW_" ++ s) f ≡ set_device_code store code f
unfolding scan_unsigned starts_with_digit handle_serial_number
stored store code [] f d e h = ground (arith, e)
stored store code (c ∷ s) f d e h =
    let fits : code_of (some (code, [])) ≡ some code = ground (arith, h) in
    handled store c s f d
    ∙ ap (λ o. elim o [ none ↦ f | some code ↦ set_device_code store code f ])
        (parsed c s d ∙ (ap code_of e ∙ fits))

plain-Digits : (s : List ℕ) → Digits s → All (λ c. is_plain c ≡ true) s
unfolding Digits
plain-Digits [] h = tt
plain-Digits (c ∷ s) (h, hs) = (ground (arith, h), plain-Digits s hs)

abbrev command : List ℕ
command = codes "serial_number:TD_MW_"

abbrev all_plain : List ℕ → Bool
all_plain [] = true
all_plain (c ∷ s) = is_plain c && all_plain s

plain_all : (s : List ℕ) → all_plain s ≡ true → All (λ c. is_plain c ≡ true) s
plain_all [] h = tt
plain_all (c ∷ s) h = (ground (arith, h), plain_all s (ground (arith, h)))

-- With Enter behind it.
entered :
    (store : Store) (s : List ℕ) (f : store.Flash)
    → Digits s
    → length s ≤ 5
    → keys store ((command ++ s) ++ 13 ∷ []) (record { line = []; flash = f })
      ≡ record { line = []; flash = handle_line store (command ++ s) f }
unfolding keys key
entered store s f d h =
    typed store (command ++ s) [] f (13 ∷ [])
      (All-append (λ c. is_plain c ≡ true) command s (plain_all command refl) (plain-Digits s d))
      (omega (arith, h, length-append command s))

serial_cut : (code : ℕ) → code ≤ 65535 → take 31 (serial_text code) ≡ serial_text code
unfolding serial_text format_int
serial_cut code h = take_all (serial_text code) 31 (
    omega
      (arith, padded_short code h, length-append (codes "TD_MW_") (zero_padded 4 (decimal code))))

-- With a flash that works: a serial number that is typed behind `serial_number:` and closed with
-- Enter, for a code of 16 bits, leaves an empty line and is the serial number from then on.
pub typed_serial :
    (store : Store) (laws : StoreLaws store) (code : ℕ) (f : store.Flash)
    → code ≤ 65535
    → let t =
        keys store
          (codes "serial_number:" ++ (serial_text code ++ 13 ∷ []))
          (record { line = []; flash = f }) in
      (t.line ≡ []) × (get_device_serial store 32 t.flash ≡ serial_text code)
unfolding serial_text format_int get_device_serial
typed_serial store laws code f h =
    let digits = zero_padded 4 (decimal code) in
    let done = entered store digits f (padded-Digits 4 code) (padded_short code h) in
    let flash = stored store code digits f (padded-Digits 4 code) (padded_scan code) h in
    (
      ap (λ t. t.line) done,
      ap (λ t. get_device_serial store 32 t.flash) done
          ∙ (ap (get_device_serial store 32) flash
              ∙ (ap (λ n. take 31 (serial_text n)) (code_set store laws code 12 f)
                  ∙ serial_cut code h)),
    )
