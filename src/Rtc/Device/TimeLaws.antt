-- ===== src/Rtc/Device/TimeLaws.antt =====
-- Setting the clock with a `DateTime` and reading it back.
use hydro_logger.Prelude.{ℕ, ℤ, ◌%◌, ◌<◌, ◌≡◌, ap, sym, ◌∙◌, true, arith, inl, inr, pos}
use hydro_logger.Prelude.Int.{to_unsigned}
use hydro_logger.Models.{DateTime}
use hydro_logger.Rtc.I2c.{Bus}
use hydro_logger.Rtc.Pcf8563.{done, ClockTime}
use hydro_logger.Rtc.Pcf8563.Chip.{Chip, Reply-cases}
use hydro_logger.Rtc.Pcf8563.Clock.{get_date_time, set_date_time}
use hydro_logger.Rtc.Pcf8563.Clock.RoundTrip.{get_date_time-set_date_time}
use hydro_logger.Rtc.Device.{out_time, in_time, get_time, set_time}

-- A number of an unsigned type of `m` values.
abbrev pub Below : ℕ → ℤ → Type 0
Below m z = (n : ℕ) × (z ≡ pos n) × (n < m)

-- Each field fits the type that the driver has for it.
pub record FitsDriver (t : DateTime) : Type 0 where
  pub year : Below 65536 t.year
  pub month : Below 256 t.month
  pub day : Below 256 t.day
  pub hour : Below 256 t.hour
  pub minute : Below 256 t.minute
  pub second : Below 256 t.second

cast_lem : (m : ℕ) (z : ℤ) → ((n : ℕ) → n < m → n % m ≡ n) → Below m z → pos (to_unsigned m z) ≡ z
cast_lem m z keeps (n, e, small) =
    ap (λ t. pos (to_unsigned m t)) e ∙ ap pos (keeps n small) ∙ sym e

byte_field : (z : ℤ) → Below 256 z → pos (to_unsigned 256 z) ≡ z
byte_field z h = cast_lem 256 z (λ n small. omega arith) h

in_time_lem : (t : DateTime) → FitsDriver t → out_time (in_time t) ≡ t
in_time_lem t f i = record {
  year = cast_lem 65536 t.year (λ n small. omega arith) f.year i;
  month = byte_field t.month f.month i;
  day = byte_field t.day f.day i;
  hour = byte_field t.hour f.hour i;
  minute = byte_field t.minute f.minute i;
  second = byte_field t.second f.second i;
}

-- `out_time` reads the two parts that the round trip gives.
out_time_lem :
    (got dt : ClockTime) → got.time ≡ dt.time → got.date ≡ dt.date → out_time got ≡ out_time dt
out_time_lem got dt t e i = record {
  year = pos (e i).year;
  month = pos (e i).month;
  day = pos (e i).day;
  hour = pos (t i).hour;
  minute = pos (t i).minute;
  second = pos (t i).second;
}

module _ (b : Bus) (chip : Chip b) where
  set_time-ok :
      (t : DateTime) (d d' : b.Dev)
      → set_time b t d ≡ (true, d')
      → set_date_time b (in_time t) d ≡ (done tt, d')
  unfolding set_time
  set_time-ok t d d' h = elim (Reply-cases (set_date_time b (in_time t) d).0) [
    | inl (tt, e) ↦ ground (arith, e, h)
    | inr (s, e) ↦ ground (arith, e, h)
  ]

  get_time-ok :
      (out got : DateTime) (d d' : b.Dev)
      → get_time b out d ≡ (true, (got, d'))
      → (dt : ClockTime) × (get_date_time b d ≡ (done dt, d')) × (got ≡ out_time dt)
  unfolding get_time
  get_time-ok out got d d' h = elim (Reply-cases (get_date_time b d).0) [
    | inl (dt, e) ↦ (dt, ground (arith, e, h), ground (arith, e, h))
    | inr (s, e) ↦ ground (arith, e, h)
  ]

  -- A time that `RtcBase::setTime` sets and whose fields fit the driver's types is the time that
  -- `RtcBase::getTime` then reads.
  pub get_time-set_time :
      (t out got : DateTime) (d d' d'' : b.Dev)
      → FitsDriver t
      → set_time b t d ≡ (true, d')
      → get_time b out d' ≡ (true, (got, d''))
      → got ≡ t
  get_time-set_time t out got d d' d'' fits set get =
      let (dt, read, same) = get_time-ok out got d' d'' get in
      let (time, date, _, _) =
        get_date_time-set_date_time b chip (in_time t) dt d d' d'' (set_time-ok t d d' set) read in
      same ∙ out_time_lem dt (in_time t) time date ∙ in_time_lem t fits
