-- ===== src/Rtc/Pcf8563/Clock.antt =====
-- `pcf8563_init`, `pcf8563_getDateTime`, `pcf8563_setDateTime`, `pcf8563_getTime`, `pcf8563_setTime`.
pub mod RoundTrip
use hydro_logger.Prelude.{
  ℕ, ◌+◌, ◌-◌, ◌%◌, List, [], ◌∷◌, Bool, true, false, ◌&&◌, not, get_or, leb, if◌then◌else◌,
  bit_and, bit_or,
}
use hydro_logger.Prelude.Bytes.{u8, u16, has_bits}
use hydro_logger.Rtc.I2c.{Bus}
use hydro_logger.Rtc.Pcf8563.{
  century_base, Status, invalid_arg, time_invalid, Reply, done, fail, Io, ◌>>=◌, ◌>>◌, return,
  refuse, Time, Date, ClockTime, dec_to_bcd, bcd_to_dec, is_valid_time, is_valid_date, write_regs,
  read_regs, write_reg, read_reg,
}

-- What `pcf8563_getDateTime` makes of the seven registers from `VL_seconds` on.
unfoldable pub decode : List ℕ → ClockTime
decode regs = record {
  time = record {
    second = bcd_to_dec (bit_and (get_or regs 0 0) 0x7F);
    minute = bcd_to_dec (bit_and (get_or regs 1 0) 0x7F);
    hour = bcd_to_dec (bit_and (get_or regs 2 0) 0x3F);
  };
  date = record {
    day = bcd_to_dec (bit_and (get_or regs 3 0) 0x3F);
    weekday = bit_and (get_or regs 4 0) 0x07;
    month = bcd_to_dec (bit_and (get_or regs 5 0) 0x1F);
    year = u16 (year_base + bcd_to_dec (get_or regs 6 0));
  };
  voltage_low = has_bits (get_or regs 0 0) 0x80;
  century_bit = century;
}
  where
    century : Bool
    century = has_bits (get_or regs 5 0) 0x80

    year_base : ℕ
    year_base = if century then century_base + 100 else century_base

-- The seven registers that `pcf8563_setDateTime` writes.
unfoldable pub encode : ClockTime → List ℕ
encode dt =
    dec_to_bcd dt.time.second
    ∷ dec_to_bcd dt.time.minute
    ∷ dec_to_bcd dt.time.hour
    ∷ dec_to_bcd dt.date.day
    ∷ u8 (bit_and dt.date.weekday 0x07)
    ∷ (if leb 100 year_offset then bit_or month_reg 0x80 else month_reg)
    ∷ dec_to_bcd (u8 (year_offset % 100))
    ∷ []
  where
    year_offset : ℕ
    year_offset = u16 (dt.date.year - century_base)

    month_reg : ℕ
    month_reg = dec_to_bcd dt.date.month

module _ (b : Bus) where
  -- The start-up writes; a low voltage is reported after them.
  unfoldable pub init : Io b.Dev (Unit {0})
  init = do
    write_reg b 0x00 0x00
    write_reg b 0x01 0x00
    write_regs b 0x09 (0x80 ∷ 0x80 ∷ 0x80 ∷ 0x80 ∷ [])
    write_reg b 0x0D 0x00
    write_reg b 0x0E 0x03
    sec_reg ← read_reg b 0x02
    if has_bits sec_reg 0x80 then refuse time_invalid else return tt

  unfoldable reset : Io b.Dev (Unit {0})
  unfolding init
  reset = init

  unfoldable pub get_date_time : Io b.Dev ClockTime
  unfolding decode
  get_date_time = do regs ← read_regs b 0x02 7; return (decode regs)

  unfoldable pub set_date_time : ClockTime → Io b.Dev (Unit {0})
  unfolding encode
  set_date_time dt =
      if not (is_valid_time dt.time && is_valid_date dt.date)
      then refuse invalid_arg
      else write_regs b 0x02 (encode dt)

  unfoldable pub get_time : Io b.Dev Time
  unfolding get_date_time
  get_time = do dt ← get_date_time; return dt.time

  -- `st != PCF8563_OK && st != PCF8563_TIME_INVALID`: a read that ends in `TIME_INVALID` would go on,
  -- and `pcf8563_getDateTime` never does.
  unfoldable pub set_time : Time → Io b.Dev (Unit {0})
  unfolding get_date_time set_date_time
  set_time time =
      if not (is_valid_time time)
      then refuse invalid_arg
      else (do dt ← get_date_time; set_date_time (record dt { time = time }))
