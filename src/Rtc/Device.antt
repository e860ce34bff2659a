-- ===== src/Rtc/Device.antt =====
-- The clock as the application uses it: main/modules/rtc/rtc_base.hpp and rtc_pcf8563.cpp.
pub mod TimeLaws
pub mod FlagLaws
use hydro_logger.Prelude.{
  ℕ, ◌==◌, Bool, true, false, Option, none, some, List, [], ◌∷◌, get_or, pos, if◌then◌else◌,
  bit_and,
}
use hydro_logger.Prelude.Int.{to_unsigned}
use hydro_logger.Prelude.Bytes.{u8, has_bits}
use hydro_logger.Models.{DateTime}
use hydro_logger.Rtc.I2c.{Bus, read_reg, write_reg}
use hydro_logger.Rtc.Pcf8563.{
  Reply, done, fail, Status, time_invalid, error, invalid_arg, i2c_error, Io, Time, Date, ClockTime,
}
use hydro_logger.Rtc.Pcf8563.Clock.{init, get_date_time, set_date_time}
use hydro_logger.Rtc.Pcf8563.Alarm.{
  Alarm, set_alarm, disable_alarm, clear_alarm_flag, is_alarm_triggered,
}
use hydro_logger.Rtc.Pcf8563.Timer.{TimerConfig, set_timer, disable_timer}

-- `== PCF8563_OK`
abbrev pub is_ok : {A : Type 0} → Reply A → Bool
is_ok (done a) = true
is_ok (fail s) = false

abbrev pub out_time : ClockTime → DateTime
out_time dt = record {
  year = pos dt.date.year;
  month = pos dt.date.month;
  day = pos dt.date.day;
  hour = pos dt.time.hour;
  minute = pos dt.time.minute;
  second = pos dt.time.second;
}

-- The casts of `RtcBase::setTime`.
abbrev pub in_time : DateTime → ClockTime
in_time t = record {
  time = record {
    second = to_unsigned 256 t.second;
    minute = to_unsigned 256 t.minute;
    hour = to_unsigned 256 t.hour;
  };
  date = record {
    day = to_unsigned 256 t.day;
    weekday = 0;
    month = to_unsigned 256 t.month;
    year = to_unsigned 65536 t.year;
  };
  voltage_low = false;
  century_bit = false;
}

abbrev pub minute_alarm : ℕ → Alarm
minute_alarm minute = record {
  enable_minute = true;
  enable_hour = false;
  enable_day = false;
  enable_weekday = false;
  minute = minute;
  hour = 0;
  day = 0;
  weekday = 0;
  interrupt_enable = true;
}

abbrev pub timer_address : ℕ
timer_address = 0x51

module _ (b : Bus) where
  -- `RtcPcf8563::init`; `i2c_ok` is the answer of `I2cDrv::init`. A clock that lost its time is not
  -- refused.
  unfoldable pub start : Bool → b.Dev → Bool × b.Dev
  start i2c_ok d =
      let (r, d') = init b d in
      if i2c_ok
      then (elim r [ done _ ↦ true | fail time_invalid ↦ true | fail _ ↦ false ], d')
      else (false, d)

  -- `RtcBase::getTime`: `out` is written only on success.
  unfoldable pub get_time : DateTime → b.Dev → Bool × (DateTime × b.Dev)
  get_time out d =
      let (r, d') = get_date_time b d in
      elim r [ done dt ↦ (true, (out_time dt, d')) | fail _ ↦ (false, (out, d')) ]

  unfoldable pub set_time : DateTime → b.Dev → Bool × b.Dev
  set_time t d = let (r, d') = set_date_time b (in_time t) d in (is_ok r, d')

  -- The timer counts seconds; a period of zero is refused.
  unfoldable pub enable_timer_interrupt : ℕ → b.Dev → Bool × b.Dev
  enable_timer_interrupt seconds d =
      let (r, d') =
        set_timer b
          (record { value = seconds; clock = 2; interrupt_enable = true; pulse_interrupt = false })
          d in
      if seconds == 0 then (false, d) else (is_ok r, d')

  unfoldable pub disable_timer_interrupt : b.Dev → Bool × b.Dev
  disable_timer_interrupt d = let (r, d') = disable_timer b d in (is_ok r, d')

  unfoldable pub clear_timer_flag : b.Dev → Bool × b.Dev
  clear_timer_flag d =
      let (r, d1) = is_alarm_triggered b d in
      let (answer, d2) = read_reg b timer_address 0x01 1 d1 in
      if is_ok r
      then elim answer [
        | none ↦ (false, d2)
        | some bytes ↦ write_reg b timer_address 0x01 (bit_and (get_or bytes 0 0) 0xFB ∷ []) d2
      ]
      else (false, d1)

  unfoldable pub is_timer_triggered : Bool → b.Dev → Bool × (Bool × b.Dev)
  is_timer_triggered triggered d =
      let (answer, d') = read_reg b timer_address 0x01 1 d in
      elim answer [
        | none ↦ (false, (triggered, d'))
        | some bytes ↦ (true, (has_bits (get_or bytes 0 0) 4, d'))
      ]

  unfoldable pub set_minute_alarm : ℕ → b.Dev → Bool × b.Dev
  set_minute_alarm minute d = let (r, d') = set_alarm b (minute_alarm minute) d in (is_ok r, d')

  unfoldable pub clear_alarm : b.Dev → Bool × b.Dev
  clear_alarm d = let (r, d') = clear_alarm_flag b d in (is_ok r, d')

  unfoldable pub stop_alarm : b.Dev → Bool × b.Dev
  stop_alarm d = let (r, d') = disable_alarm b d in (is_ok r, d')
