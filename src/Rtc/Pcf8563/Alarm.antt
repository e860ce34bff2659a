-- ===== src/Rtc/Pcf8563/Alarm.antt =====
-- `pcf8563_setAlarm`, `pcf8563_disableAlarm`, `pcf8563_clearAlarmFlag`, `pcf8563_isAlarmTriggered`.
pub mod Laws
use hydro_logger.Prelude.{
  ℕ, List, [], ◌∷◌, Bool, true, false, ◌&&◌, ◌||◌, ltb, if◌then◌else◌, bit_and,
}
use hydro_logger.Prelude.Bytes.{u8, has_bits}
use hydro_logger.Rtc.I2c.{Bus}
use hydro_logger.Rtc.Pcf8563.{
  invalid_arg, Io, ◌>>=◌, ◌>>◌, return, refuse, dec_to_bcd, write_regs, read_cs2, write_cs2,
}

pub record Alarm : Type 0 where
  pub enable_minute : Bool
  pub enable_hour : Bool
  pub enable_day : Bool
  pub enable_weekday : Bool
  pub minute : ℕ
  pub hour : ℕ
  pub day : ℕ
  pub weekday : ℕ
  pub interrupt_enable : Bool

-- The four range tests with which `pcf8563_setAlarm` begins, in their order.
unfoldable pub out_of_range : Alarm → Bool
out_of_range a =
    (a.enable_minute && ltb 59 a.minute)
    || ((a.enable_hour && ltb 23 a.hour)
        || ((a.enable_day && (ltb a.day 1 || ltb 31 a.day))
            || (a.enable_weekday && ltb 6 a.weekday)))

unfoldable pub alarm_regs : Alarm → List ℕ
alarm_regs a =
    (if a.enable_minute then dec_to_bcd a.minute else 0x80)
    ∷ (if a.enable_hour then dec_to_bcd a.hour else 0x80)
    ∷ (if a.enable_day then dec_to_bcd a.day else 0x80)
    ∷ (if a.enable_weekday then u8 (bit_and a.weekday 0x07) else 0x80)
    ∷ []

module _ (b : Bus) where
  unfoldable pub set_alarm : Alarm → Io b.Dev (Unit {0})
  unfolding out_of_range alarm_regs
  set_alarm a = if out_of_range a then refuse invalid_arg else (do
    write_regs b 0x09 (alarm_regs a)
    cs2 ← read_cs2 b
    write_cs2 b false true a.interrupt_enable (has_bits cs2 1) (has_bits cs2 16))

  unfoldable pub disable_alarm : Io b.Dev (Unit {0})
  disable_alarm = do
    write_regs b 0x09 (0x80 ∷ 0x80 ∷ 0x80 ∷ 0x80 ∷ [])
    cs2 ← read_cs2 b
    write_cs2 b false true false (has_bits cs2 1) (has_bits cs2 16)

  unfoldable pub clear_alarm_flag : Io b.Dev (Unit {0})
  clear_alarm_flag = do
    cs2 ← read_cs2 b
    write_cs2 b false true (has_bits cs2 2) (has_bits cs2 1) (has_bits cs2 16)

  unfoldable pub is_alarm_triggered : Io b.Dev Bool
  is_alarm_triggered = do cs2 ← read_cs2 b; return (has_bits cs2 8)
