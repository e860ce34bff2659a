-- ===== src/Rtc/Pcf8563/Clock/RoundTrip.antt =====
-- Setting the clock and reading it back through the chip's registers.
use hydro_logger.Prelude.{
  ℕ, ◌+◌, ◌-◌, ◌%◌, ◌≡◌, refl, ap, sym, ◌∙◌, ◌≤◌, ◌<◌, List, Bool, true, false, not, get_or, leb,
  if◌then◌else◌, bit_and, bit_or, arith, get_or-le, ◌==◌,
}
use hydro_logger.Prelude.Bytes.{u8, u16, has_bits}
use hydro_logger.Rtc.I2c.{Bus}
use hydro_logger.Rtc.Pcf8563.{
  done, return, Time, Date, ClockTime, dec_to_bcd, bcd_to_dec, is_valid_time, is_valid_date,
  days_in_month, month_days, write_regs, read_regs,
}
use hydro_logger.Rtc.Pcf8563.Bcd.{
  minute_reads_back, day_reads_back, month_reads_back, year_reads_back, century_lem, low_lem,
  weekday_lem, byte_lem,
}
use hydro_logger.Rtc.Pcf8563.Chip.{
  Chip, from, >>=-done, done-injective, write_regs-done, read_regs-done,
}
use hydro_logger.Rtc.Pcf8563.Clock.{decode, encode, get_date_time, set_date_time}

valid_time_bounds :
    (t : Time) → is_valid_time t ≡ true → (t.second < 60) × (t.minute < 60) × (t.hour < 24)
unfolding is_valid_time
valid_time_bounds t h = ground arith

pub days_in_month-le : (year month : ℕ) → days_in_month year month ≤ 31
unfolding days_in_month
days_in_month-le year month = ground (arith, get_or-le 31 (month - 1) month_days (omega arith))

-- What the driver accepts as a date.
record DateBounds (d : Date) : Type 0 where
  weekday : d.weekday < 7
  month_lo : 1 ≤ d.month
  month_hi : d.month ≤ 12
  year_lo : 2000 ≤ d.year
  year_hi : d.year ≤ 2199
  day_lo : 1 ≤ d.day
  day_hi : d.day ≤ days_in_month d.year d.month

valid-DateBounds : (d : Date) → is_valid_date d ≡ true → DateBounds d
unfolding is_valid_date
valid-DateBounds d h = ground arith

-- The seven registers agree with those that were written, on the bits that the driver reads.
record Agrees (regs e : List ℕ) : Type 0 where
  seconds : bit_and (get_or regs 0 0) 0x7F ≡ bit_and (get_or e 0 0) 0x7F
  low : bit_and (get_or regs 0 0) 0x80 ≡ bit_and (get_or e 0 0) 0x80
  minutes : bit_and (get_or regs 1 0) 0x7F ≡ bit_and (get_or e 1 0) 0x7F
  hours : bit_and (get_or regs 2 0) 0x3F ≡ bit_and (get_or e 2 0) 0x3F
  days : bit_and (get_or regs 3 0) 0x3F ≡ bit_and (get_or e 3 0) 0x3F
  weekdays : bit_and (get_or regs 4 0) 0x07 ≡ bit_and (get_or e 4 0) 0x07
  months : bit_and (get_or regs 5 0) 0x1F ≡ bit_and (get_or e 5 0) 0x1F
  century : bit_and (get_or regs 5 0) 0x80 ≡ bit_and (get_or e 5 0) 0x80
  years : bit_and (get_or regs 6 0) 0xFF ≡ bit_and (get_or e 6 0) 0xFF
  year_byte : get_or regs 6 0 < 256

month_lem :
    (century : Bool) (m : ℕ)
    → m < 13
    → let reg = if century then bit_or (dec_to_bcd m) 0x80 else dec_to_bcd m in
      (bcd_to_dec (bit_and reg 0x1F) ≡ m) × (has_bits reg 0x80 ≡ century)
month_lem true m h = let (a, b, _) = century_lem m h in (a, b)
month_lem false m h = (month_reads_back m h, (century_lem m h).2)

year_lem :
    (year : ℕ)
    → 2000 ≤ year
    → year ≤ 2199
    → u16 ((if leb 100 (u16 (year - 2000)) then 2100 else 2000) + u8 (u16 (year - 2000) % 100))
      ≡ year
year_lem year lo hi = ground arith

decode_lem :
    (dt : ClockTime) (regs : List ℕ)
    → is_valid_time dt.time ≡ true
    → is_valid_date dt.date ≡ true
    → Agrees regs (encode dt)
    → ((decode regs).time ≡ dt.time)
      × ((decode regs).date ≡ dt.date)
      × ((decode regs).voltage_low ≡ false)
      × ((decode regs).century_bit ≡ leb 2100 dt.date.year)
unfolding decode encode
decode_lem dt regs vt vd a =
    let (s, m, h) = valid_time_bounds dt.time vt in
    let v = valid-DateBounds dt.date vd in
    let century = leb 100 (u16 (dt.date.year - 2000)) in
    let (month, century_bit) = month_lem century dt.date.month (omega arith) in
    let low : bit_and (get_or regs 0 0) 0x80 ≡ bit_and (dec_to_bcd dt.time.second) 0x80 = a.low in
    let bit : has_bits (get_or regs 5 0) 0x80 ≡ century =
      ap (λ t. not (t == 0)) a.century ∙ century_bit in
    let year_reg : get_or regs 6 0
        ≡ bit_and (dec_to_bcd (u8 (u16 (dt.date.year - 2000) % 100))) 0xFF =
      sym (byte_lem (get_or regs 6 0) a.year_byte) ∙ a.years in
    let year : bcd_to_dec (get_or regs 6 0) ≡ u8 (u16 (dt.date.year - 2000) % 100) =
      ap bcd_to_dec year_reg ∙ year_reads_back _ (omega arith) in
    (
      λ i. record {
        second = (ap bcd_to_dec a.seconds ∙ minute_reads_back dt.time.second s) i;
        minute = (ap bcd_to_dec a.minutes ∙ minute_reads_back dt.time.minute m) i;
        hour = (ap bcd_to_dec a.hours ∙ day_reads_back dt.time.hour (omega arith)) i;
      },
      λ i. record {
        day =
            (ap bcd_to_dec a.days
                ∙ day_reads_back dt.date.day
                    (omega (arith, days_in_month-le dt.date.year dt.date.month)))
              i;
        weekday = (a.weekdays ∙ weekday_lem dt.date.weekday v.weekday) i;
        month = (ap bcd_to_dec a.months ∙ month) i;
        year =
            ((λ j. u16 ((if bit j then 2100 else 2000) + year j))
                ∙ year_lem dt.date.year v.year_lo v.year_hi)
              i;
      },
      ap (λ t. not (t == 0)) low ∙ low_lem dt.time.second s,
      bit ∙ ground (arith, v.year_lo, v.year_hi),
    )

module _ (b : Bus) (chip : Chip b) where
  set_date_time-done :
      (dt : ClockTime) (d d' : b.Dev)
      → set_date_time b dt d ≡ (done tt, d')
      → (is_valid_time dt.time ≡ true)
        × (is_valid_date dt.date ≡ true)
        × (write_regs b 2 (encode dt) d ≡ (done tt, d'))
  unfolding set_date_time
  set_date_time-done dt d d' h = ground arith

  get_date_time-done :
      (d d' : b.Dev) (got : ClockTime)
      → get_date_time b d ≡ (done got, d')
      → got ≡ decode (from (chip.reg d) 2 7)
  unfolding get_date_time
  get_date_time-done d d' got h =
      let (regs, e, read, decoded) =
        >>=-done (read_regs b 2 7) (λ r. return (decode r)) d d' got h in
      let same =
        chip.read_gives 2 7 regs d e (omega arith) (read_regs-done b 2 7 d e (omega arith) read) in
      sym (done-injective (decode regs) got e d' decoded).0 ∙ ap decode same

  written-Agrees :
      (dt : ClockTime) (d d' : b.Dev)
      → write_regs b 2 (encode dt) d ≡ (done tt, d')
      → Agrees (from (chip.reg d') 2 7) (encode dt)
  unfolding encode
  written-Agrees dt d d' h =
      let (bytes, e) = write_regs-done b 2 (encode dt) d d' h in
      let stored = λ (k mask : ℕ). chip.write_stores 2 (encode dt) bytes d d' k mask e in
      record {
        seconds = stored 0 0x7F (omega arith) (omega arith) refl;
        low = stored 0 0x80 (omega arith) (omega arith) refl;
        minutes = stored 1 0x7F (omega arith) (omega arith) refl;
        hours = stored 2 0x3F (omega arith) (omega arith) refl;
        days = stored 3 0x3F (omega arith) (omega arith) refl;
        weekdays = stored 4 0x07 (omega arith) (omega arith) refl;
        months = stored 5 0x1F (omega arith) (omega arith) refl;
        century = stored 5 0x80 (omega arith) (omega arith) refl;
        years = stored 6 0xFF (omega arith) (omega arith) refl;
        year_byte = chip.reg_byte d' 8;
      }

  -- A time that `pcf8563_setDateTime` accepts and writes is what `pcf8563_getDateTime` then reads, in
  -- every field, for all years from 2000 to 2199: the century bit tells the two centuries apart, and
  -- the low-voltage mark is cleared.
  pub get_date_time-set_date_time :
      (dt got : ClockTime) (d d' d'' : b.Dev)
      → set_date_time b dt d ≡ (done tt, d')
      → get_date_time b d' ≡ (done got, d'')
      → (got.time ≡ dt.time)
        × (got.date ≡ dt.date)
        × (got.voltage_low ≡ false)
        × (got.century_bit ≡ leb 2100 dt.date.year)
  get_date_time-set_date_time dt got d d' d'' set get =
      let (vt, vd, w) = set_date_time-done dt d d' set in
      rw (get_date_time-done d' d'' got get)
        (decode_lem dt (from (chip.reg d') 2 7) vt vd (written-Agrees dt d d' w))
