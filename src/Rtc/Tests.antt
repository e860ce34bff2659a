-- ===== src/Rtc/Tests.antt =====
-- The clock, the alarm and the timer at concrete inputs, on the simulated chip.
use hydro_logger.Prelude.{[], ◌∷◌, ◌≡◌, ◌<◌, refl, true, false, pos, some, none, arith}
use hydro_logger.Models.{DateTime}
use hydro_logger.Rtc.I2c.{
  write_reg, read_reg, write_link, read_link, i2c_port_write, i2c_port_write_read,
}
use hydro_logger.Rtc.Pcf8563.{
  ClockTime, dec_to_bcd, bcd_to_dec, is_leap_year, days_in_month, is_valid_time, is_valid_date,
  write_regs, read_regs, cs2_value, read_cs2, write_cs2,
}
use hydro_logger.Rtc.Pcf8563.Simulated.{Simulated, simulated, simulated_chip, registers}
use hydro_logger.Rtc.Pcf8563.Clock.{decode, encode, get_date_time, set_date_time}
use hydro_logger.Rtc.Pcf8563.Clock.RoundTrip.{get_date_time-set_date_time}
use hydro_logger.Rtc.Pcf8563.Alarm.{Alarm, set_alarm, out_of_range, alarm_regs}
use hydro_logger.Rtc.Pcf8563.Alarm.Laws.{match_of, matches, wanted, set_alarm-matches}
use hydro_logger.Rtc.Pcf8563.Flags.{flags}
use hydro_logger.Rtc.Pcf8563.Timer.{TimerConfig, set_timer}
use hydro_logger.Rtc.Pcf8563.Timer.Laws.{countdown, set_timer_counts}
use hydro_logger.Rtc.Pcf8563.Calendar.{gregorian_days, days_in_month-gregorian}
use hydro_logger.Rtc.Device.{get_time, set_time, set_minute_alarm}
use hydro_logger.Rtc.Device.TimeLaws.{FitsDriver, get_time-set_time}
use hydro_logger.Rtc.Device.FlagLaws.{set_minute_alarm_arms}

-- A chip that has fired its alarm and its timer.
abbrev fired : Simulated
fired = record { cells = λ _. 0x80; af = true; tf = true; aie = true; tie = true; ti_tp = true }

abbrev chip_time : ClockTime
chip_time = record {
  time = record { second = 59; minute = 8; hour = 23 };
  date = record { day = 29; weekday = 5; month = 2; year = 2196 };
  voltage_low = false;
  century_bit = false;
}

get_date_time-set_date_time_example :
    let d = (set_date_time simulated chip_time fired).1 in
    let got = decode (0x59 ∷ 0x08 ∷ 0x23 ∷ 0x29 ∷ 0x05 ∷ 0x82 ∷ 0x96 ∷ []) in
    (got.time ≡ chip_time.time)
    × (got.date ≡ chip_time.date)
    × (got.voltage_low ≡ false)
    × (got.century_bit ≡ true)
unfolding set_date_time is_valid_time is_valid_date days_in_month is_leap_year write_regs
    i2c_port_write write_reg write_link encode dec_to_bcd get_date_time read_regs
    i2c_port_write_read read_reg read_link
get_date_time-set_date_time_example =
    get_date_time-set_date_time simulated simulated_chip chip_time
      (decode (0x59 ∷ 0x08 ∷ 0x23 ∷ 0x29 ∷ 0x05 ∷ 0x82 ∷ 0x96 ∷ [])) fired
      (set_date_time simulated chip_time fired).1 (set_date_time simulated chip_time fired).1 refl
      refl

abbrev alarm : Alarm
alarm = record {
  enable_minute = true;
  enable_hour = false;
  enable_day = true;
  enable_weekday = true;
  minute = 59;
  hour = 99;
  day = 31;
  weekday = 6;
  interrupt_enable = true;
}

set_alarm-matches_example :
    let d = (set_alarm simulated alarm fired).1 in
    (out_of_range alarm ≡ false)
    × (matches (registers d)
        ≡ record { minute = some 59; hour = none; day = some 31; weekday = some 6 })
    × (flags (registers d 1)
        ≡ record { af = false; aie = true; tf = true; tie = true; ti_tp = true })
unfolding set_alarm out_of_range alarm_regs write_regs i2c_port_write write_reg write_link
    dec_to_bcd wanted matches match_of read_regs i2c_port_write_read read_reg read_link read_cs2
    write_cs2 cs2_value flags
set_alarm-matches_example =
    set_alarm-matches simulated simulated_chip alarm fired (set_alarm simulated alarm fired).1 refl

abbrev timer : TimerConfig
timer = record { value = 90; clock = 2; interrupt_enable = true; pulse_interrupt = false }

set_timer_counts_example :
    let d = (set_timer simulated timer fired).1 in
    (countdown (registers d) ≡ record { running = true; clock = 2; value = 90 })
    × (flags (registers d 1)
        ≡ record { af = true; aie = true; tf = false; tie = true; ti_tp = false })
unfolding set_timer write_regs i2c_port_write write_reg write_link read_regs i2c_port_write_read
    read_reg read_link read_cs2 write_cs2 cs2_value flags
set_timer_counts_example =
    set_timer_counts simulated simulated_chip timer fired (set_timer simulated timer fired).1
      (omega arith) refl

abbrev date_time : DateTime
date_time = record {
  year = pos 2026;
  month = pos 12;
  day = pos 31;
  hour = pos 23;
  minute = pos 59;
  second = pos 7;
}

date_time-FitsDriver : FitsDriver date_time
date_time-FitsDriver = record {
  year = (2026, refl, omega arith);
  month = (12, refl, omega arith);
  day = (31, refl, omega arith);
  hour = (23, refl, omega arith);
  minute = (59, refl, omega arith);
  second = (7, refl, omega arith);
}

get_time-set_time_example :
    (get_time simulated date_time (set_time simulated date_time fired).1).1.0 ≡ date_time
unfolding set_time get_time set_date_time is_valid_time is_valid_date days_in_month is_leap_year
    write_regs i2c_port_write write_reg write_link encode dec_to_bcd get_date_time decode bcd_to_dec
    read_regs i2c_port_write_read read_reg read_link
get_time-set_time_example =
    get_time-set_time simulated simulated_chip date_time date_time date_time fired
      (set_time simulated date_time fired).1 (set_time simulated date_time fired).1
      date_time-FitsDriver refl refl

set_minute_alarm_arms_example :
    let d = (set_minute_alarm simulated 50 fired).1 in
    (50 < 60)
    × (matches (registers d) ≡ record { minute = some 50; hour = none; day = none; weekday = none })
    × (flags (registers d 1)
        ≡ record { af = false; aie = true; tf = true; tie = true; ti_tp = true })
unfolding set_minute_alarm set_alarm out_of_range alarm_regs write_regs i2c_port_write write_reg
    write_link dec_to_bcd read_regs i2c_port_write_read read_reg read_link read_cs2 write_cs2
    cs2_value flags
set_minute_alarm_arms_example =
    set_minute_alarm_arms simulated simulated_chip 50 fired (set_minute_alarm simulated 50 fired).1
      refl

days_in_month-gregorian_example : days_in_month 2024 2 ≡ gregorian_days 2024 2
days_in_month-gregorian_example =
    days_in_month-gregorian 2024 2 (omega arith) (omega arith) (omega arith) (omega arith)
      (omega arith)
