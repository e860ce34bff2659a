-- ===== src/Console.antt =====
-- The configuration console: main/app/config_console.cpp. What it prints is left out. The prefix of a
-- serial number is only warned about, so it is not looked at.
pub mod Line
pub mod Serial
mod Tests
use hydro_logger.Prelude.{
  ℕ, ◌+◌, Bool, true, false, ◌&&◌, ◌||◌, Option, none, some, List, [], ◌∷◌, ◌++◌, length, ltb, leb,
  ◌==◌, if◌then◌else◌,
}
use hydro_logger.Prelude.Bytes.{codes, equals}
use hydro_logger.Prelude.Decimal.{is_digit, is_space, skip_spaces, scan_unsigned}
use hydro_logger.Nvs.Settings.{Store, set_device_code}

abbrev pub max_line_len : ℕ
max_line_len = 128

abbrev pub put_unless_space : ℕ → List ℕ → List ℕ
put_unless_space c [] = if is_space c then [] else c ∷ []
put_unless_space c (d ∷ t) = c ∷ d ∷ t

-- The end of `trim`.
unfoldable pub trim_back : List ℕ → List ℕ
trim_back [] = []
trim_back (c ∷ s) = put_unless_space c (trim_back s)

unfoldable pub trim : List ℕ → List ℕ
unfolding skip_spaces trim_back
trim s = trim_back (skip_spaces s)

unfoldable pub all_digits : List ℕ → Bool
all_digits [] = true
all_digits (c ∷ s) = is_digit c && all_digits s

-- The trailing run of digits.
unfoldable pub digit_suffix : List ℕ → List ℕ
unfolding all_digits
digit_suffix [] = []
digit_suffix (c ∷ s) = let rest = digit_suffix s in if all_digits (c ∷ s) then c ∷ s else rest

-- `strtol` of the digits; a number past the range of a `long` stays past that of the code.
abbrev pub code_of : Option (ℕ × List ℕ) → Option ℕ
code_of none = none
code_of (some (n, s)) = if leb n 65535 then some n else none

unfoldable pub parse_serial_code : List ℕ → Option ℕ
unfolding trim digit_suffix scan_unsigned
parse_serial_code value = code_of (scan_unsigned (digit_suffix (trim value)))

-- The two sides of the first colon.
unfoldable pub split_colon : List ℕ → Option (List ℕ × List ℕ)
split_colon [] = none
split_colon (c ∷ s) =
    let rest = split_colon s in
    if c == 58 then some ([], s) else elim rest [ none ↦ none | some (a, b) ↦ some (c ∷ a, b) ]

module _ (store : Store) where
  unfoldable pub handle_serial_number : List ℕ → store.Flash → store.Flash
  handle_serial_number value f = elim (parse_serial_code value) [
    | none ↦ f
    | some code ↦ set_device_code store code f
  ]

  abbrev pub handle_command : Option (List ℕ × List ℕ) → store.Flash → store.Flash
  handle_command none f = f
  handle_command (some (key, value)) f =
      if equals (trim key) (codes "serial_number") then handle_serial_number (trim value) f else f

  unfoldable pub handle_line : List ℕ → store.Flash → store.Flash
  unfolding trim split_colon equals
  handle_line raw_line f = handle_command (split_colon (trim raw_line)) f

  -- The line that is typed, and the flash.
  pub record State : Type 0 where
    pub line : List ℕ
    pub flash : store.Flash

  abbrev pub without_last : List ℕ → List ℕ
  without_last [] = []
  without_last (c ∷ []) = []
  without_last (c ∷ d ∷ s) = c ∷ without_last (d ∷ s)

  -- A key in the loop of `console_task`; a read that gives nothing changes nothing.
  unfoldable pub key : ℕ → State → State
  key ch s =
      if ch == 13 || ch == 10
      then record { line = []; flash = handle_line s.line s.flash }
      else if ch == 8 || ch == 127
      then record { line = without_last s.line; flash = s.flash }
      else if ltb (length s.line) max_line_len
      then record { line = s.line ++ ch ∷ []; flash = s.flash }
      else s

  unfoldable pub keys : List ℕ → State → State
  unfolding key
  keys [] s = s
  keys (c ∷ cs) s = keys cs (key c s)
