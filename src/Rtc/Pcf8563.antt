-- ===== src/Rtc/Pcf8563.antt =====
-- The PCF8563 driver, main/modules/rtc/pcf8563.h and pcf8563.cpp: its types, the BCD and calendar
-- helpers and the register access. Its children hold the clock, the alarm and the timer.
pub mod Chip
pub mod Bcd
pub mod Control
pub mod Clock
pub mod Calendar
pub mod Alarm
pub mod Flags
pub mod Timer
pub mod Simulated
use hydro_logger.Prelude.{
  ℕ, zero, suc, ◌+◌, ◌-◌, ◌*◌, ◌/◌, ◌%◌, List, [], ◌∷◌, Bool, true, false, ◌&&◌, ◌||◌, not, Option,
  none, some, length, get_or, ◌==◌, ltb, leb, if◌then◌else◌, bit_and, bit_or,
}
use hydro_logger.Prelude.Bytes.{u8, u16, has_bits}
use hydro_logger.Rtc.I2c.{Bus, i2c_port_write, i2c_port_write_read}

abbrev pub i2c_addr : ℕ
i2c_addr = 0x51

abbrev pub century_base : ℕ
century_base = 2000

-- `PCF8563_Status` without `PCF8563_OK`, which is the answer `done`.
pub data Status : Type 0 where
  error invalid_arg i2c_error time_invalid : Status

pub data Reply (A : Type 0) : Type 0 where
  done : A → Reply A
  fail : Status → Reply A

-- A call of the driver: it changes the device and ends in a status or with a value.
abbrev pub Io : Type 0 → Type 0 → Type 0
Io D A = D → Reply A × D

-- `if (st != PCF8563_OK) return st;`
infixl 5 ◌>>=◌ ◌>>◌
abbrev pub ◌>>=◌ : {D A B : Type 0} → Io D A → (A → Io D B) → Io D B
◌>>=◌ m f d = let (r, d') = m d in elim r [ done a ↦ f a d' | fail s ↦ (fail s, d') ]

abbrev pub ◌>>◌ : {D B : Type 0} → Io D (Unit {0}) → Io D B → Io D B
m >> k = m >>= λ _. k

abbrev pub return : {D A : Type 0} → A → Io D A
return a d = (done a, d)

abbrev pub refuse : {D A : Type 0} → Status → Io D A
refuse s d = (fail s, d)

pub record Time : Type 0 where
  pub second : ℕ
  pub minute : ℕ
  pub hour : ℕ

pub record Date : Type 0 where
  pub day : ℕ
  pub weekday : ℕ
  pub month : ℕ
  pub year : ℕ

pub record ClockTime : Type 0 where
  pub time : Time
  pub date : Date
  pub voltage_low : Bool
  pub century_bit : Bool

unfoldable pub dec_to_bcd : ℕ → ℕ
dec_to_bcd value = u8 (bit_or (value / 10 * 16) (value % 10))

unfoldable pub bcd_to_dec : ℕ → ℕ
bcd_to_dec value = u8 (value / 16 * 10 + bit_and value 0x0F)

unfoldable pub is_leap_year : ℕ → Bool
is_leap_year year = year % 4 == 0

abbrev pub month_days : List ℕ
month_days = 31 ∷ 28 ∷ 31 ∷ 30 ∷ 31 ∷ 30 ∷ 31 ∷ 31 ∷ 30 ∷ 31 ∷ 30 ∷ 31 ∷ []

unfoldable pub days_in_month : ℕ → ℕ → ℕ
unfolding is_leap_year
days_in_month year month =
    if ltb month 1 || ltb 12 month
    then 0
    else if month == 2 && is_leap_year year
    then 29
    else get_or month_days (month - 1) 0

unfoldable pub is_valid_time : Time → Bool
is_valid_time t = leb t.second 59 && (leb t.minute 59 && leb t.hour 23)

unfoldable pub is_valid_date : Date → Bool
is_valid_date d =
    if ltb 6 d.weekday || (ltb d.month 1 || ltb 12 d.month)
    then false
    else if ltb d.year century_base || ltb (century_base + 199) d.year
    then false
    else leb 1 d.day && leb d.day (days_in_month d.year d.month)

module _ (b : Bus) where
  -- `pcf8563_write_regs`: at most 16 bytes, behind the number of the first register.
  unfoldable pub write_regs : ℕ → List ℕ → Io b.Dev (Unit {0})
  unfolding i2c_port_write
  write_regs start_reg data' d =
      let (sent, d') = i2c_port_write b i2c_addr (start_reg ∷ data') d in
      if length data' == 0 || ltb 16 (length data')
      then (fail invalid_arg, d)
      else if sent
      then (done tt, d')
      else (fail i2c_error, d')

  unfoldable pub read_regs : ℕ → ℕ → Io b.Dev (List ℕ)
  unfolding i2c_port_write_read
  read_regs start_reg len d =
      let (answer, d') = i2c_port_write_read b i2c_addr (start_reg ∷ []) len d in
      if len == 0
      then (fail invalid_arg, d)
      else elim answer [ none ↦ (fail i2c_error, d') | some bytes ↦ (done bytes, d') ]

  unfoldable pub write_reg : ℕ → ℕ → Io b.Dev (Unit {0})
  unfolding write_regs
  write_reg reg value = write_regs reg (value ∷ [])

  unfoldable pub read_reg : ℕ → Io b.Dev ℕ
  unfolding read_regs
  read_reg reg = do bytes ← read_regs reg 1; return (get_or bytes 0 0)

  unfoldable pub read_cs2 : Io b.Dev ℕ
  unfolding read_reg
  read_cs2 = read_reg 0x01

-- The byte that `pcf8563_write_cs2` composes from its five arguments.
unfoldable pub cs2_value : Bool → Bool → Bool → Bool → Bool → ℕ
cs2_value preserve_af preserve_tf aie tie ti_tp =
    let or_bit = λ (on : Bool) (mask : ℕ) (value : ℕ). if on then bit_or value mask else value in
    or_bit tie 1 (or_bit aie 2 (or_bit preserve_tf 4 (or_bit preserve_af 8 (or_bit ti_tp 16 0))))

module _ (b : Bus) where
  unfoldable pub write_cs2 : Bool → Bool → Bool → Bool → Bool → Io b.Dev (Unit {0})
  unfolding write_reg
  write_cs2 preserve_af preserve_tf aie tie ti_tp =
      write_reg b 0x01 (cs2_value preserve_af preserve_tf aie tie ti_tp)
