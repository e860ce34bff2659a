-- ===== src/Rtc/Pcf8563/Alarm/Laws.antt =====
-- What the chip's alarm is after `pcf8563_setAlarm`, `pcf8563_disableAlarm` and
-- `pcf8563_clearAlarmFlag`.
use hydro_logger.Prelude.{
  ℕ, ◌≡◌, refl, ap, ◌∙◌, ◌≤◌, inl, inr, List, Bool, true, false, not, Option, none, some,
  if◌then◌else◌, bit_and, arith, Bool-cases, ◌==◌,
}
use hydro_logger.Prelude.Bytes.{u8, has_bits}
use hydro_logger.Rtc.I2c.{Bus}
use hydro_logger.Rtc.Pcf8563.{
  done, ◌>>=◌, ◌>>◌, dec_to_bcd, bcd_to_dec, write_regs, read_cs2, write_cs2,
}
use hydro_logger.Rtc.Pcf8563.Bcd.{minute_reads_back, day_reads_back, low_lem, weekday_match_lem}
use hydro_logger.Rtc.Pcf8563.Chip.{Chip, >>=-done, write_regs-done}
use hydro_logger.Rtc.Pcf8563.Alarm.{
  Alarm, out_of_range, alarm_regs, set_alarm, disable_alarm, clear_alarm_flag,
}
use hydro_logger.Rtc.Pcf8563.Flags.{flags, rewrite_done}

-- An alarm register as the chip compares it: switched off by bit 7, or a value under the mask.
unfoldable pub match_of : ℕ → ℕ → Option ℕ
match_of mask reg = if has_bits reg 0x80 then none else some (bcd_to_dec (bit_and reg mask))

-- What the four alarm registers of the chip are to match.
pub record Matches : Type 0 where
  pub minute : Option ℕ
  pub hour : Option ℕ
  pub day : Option ℕ
  pub weekday : Option ℕ

unfoldable pub matches : (ℕ → ℕ) → Matches
matches reg = record {
  minute = match_of 0x7F (reg 9);
  hour = match_of 0x3F (reg 10);
  day = match_of 0x3F (reg 11);
  weekday = match_of 0x07 (reg 12);
}

unfoldable pub wanted : Alarm → Matches
wanted a = record {
  minute = if a.enable_minute then some a.minute else none;
  hour = if a.enable_hour then some a.hour else none;
  day = if a.enable_day then some a.day else none;
  weekday = if a.enable_weekday then some a.weekday else none;
}

-- A register that agrees with what was written, on the bits that count.
match_of_lem :
    (mask v reg : ℕ) (on : Bool)
    → bit_and reg 0x80 ≡ bit_and (if on then v else 0x80) 0x80
    → bit_and reg mask ≡ bit_and (if on then v else 0x80) mask
    → (on ≡ true → has_bits v 0x80 ≡ false)
    → match_of mask reg ≡ (if on then some (bcd_to_dec (bit_and v mask)) else none)
unfolding match_of
match_of_lem mask v reg true top low clear =
    let bit : has_bits reg 0x80 ≡ false = ap (λ t. not (t == 0)) top ∙ clear refl in
    λ i. if bit i then none else some (bcd_to_dec (low i))
match_of_lem mask v reg false top low clear =
    let bit : has_bits reg 0x80 ≡ true = ap (λ t. not (t == 0)) top in
    λ i. if bit i then none else some (bcd_to_dec (low i))

when :
    {A : Type 0} (on : Bool) (x y : A)
    → (on ≡ true → x ≡ y)
    → (if on then some x else none) ≡ (if on then some y else none)
when true x y h = ap some (h refl)
when false x y h = refl

abbrev no_alarm : Alarm
no_alarm = record {
  enable_minute = false;
  enable_hour = false;
  enable_day = false;
  enable_weekday = false;
  minute = 0;
  hour = 0;
  day = 0;
  weekday = 0;
  interrupt_enable = false;
}

module _ (b : Bus) (chip : Chip b) where
  written_matches :
      (a : Alarm) (d d' : b.Dev)
      → out_of_range a ≡ false
      → write_regs b 9 (alarm_regs a) d ≡ (done tt, d')
      → matches (chip.reg d') ≡ wanted a
  unfolding matches wanted alarm_regs out_of_range
  written_matches a d d' valid h =
      let (bytes, e) = write_regs-done b 9 (alarm_regs a) d d' h in
      let stored = λ (k mask : ℕ). chip.write_stores 9 (alarm_regs a) bytes d d' k mask e in
      λ i. record {
        minute =
            (match_of_lem 0x7F (dec_to_bcd a.minute) (chip.reg d' 9) a.enable_minute
                  (stored 0 0x80 (omega arith) (omega arith) refl)
                  (stored 0 0x7F (omega arith) (omega arith) refl)
                  (λ on. low_lem a.minute (ground arith))
                ∙ when a.enable_minute _ _ (λ on. minute_reads_back a.minute (ground arith)))
              i;
        hour =
            (match_of_lem 0x3F (dec_to_bcd a.hour) (chip.reg d' 10) a.enable_hour
                  (stored 1 0x80 (omega arith) (omega arith) refl)
                  (stored 1 0x3F (omega arith) (omega arith) refl)
                  (λ on. low_lem a.hour (ground arith))
                ∙ when a.enable_hour _ _ (λ on. day_reads_back a.hour (ground arith)))
              i;
        day =
            (match_of_lem 0x3F (dec_to_bcd a.day) (chip.reg d' 11) a.enable_day
                  (stored 2 0x80 (omega arith) (omega arith) refl)
                  (stored 2 0x3F (omega arith) (omega arith) refl)
                  (λ on. low_lem a.day (ground arith))
                ∙ when a.enable_day _ _ (λ on. day_reads_back a.day (ground arith)))
              i;
        weekday =
            (match_of_lem 0x07 (u8 (bit_and a.weekday 0x07)) (chip.reg d' 12) a.enable_weekday
                  (stored 3 0x80 (omega arith) (omega arith) refl)
                  (stored 3 0x07 (omega arith) (omega arith) refl)
                  (λ on. (weekday_match_lem a.weekday (ground arith)).0)
                ∙ when a.enable_weekday _ _ (λ on. (weekday_match_lem a.weekday (ground arith)).1))
              i;
      }

  set_alarm-done :
      (a : Alarm) (d d' : b.Dev)
      → set_alarm b a d ≡ (done tt, d')
      → (out_of_range a ≡ false)
        × ((do
          write_regs b 9 (alarm_regs a)
          cs2 ← read_cs2 b
          write_cs2 b false true a.interrupt_enable (has_bits cs2 1) (has_bits cs2 16))
              d
            ≡ (done tt, d'))
  unfolding set_alarm
  set_alarm-done a d d' h = elim (Bool-cases (out_of_range a)) [
    | inl e ↦ ground (arith, e, h)
    | inr e ↦ ground (arith, e, h)
  ]

  -- The alarm registers after a chain that ends in the flags.
  matches_kept :
      (d d' : b.Dev)
      → ((i : ℕ) → 2 ≤ i → chip.reg d' i ≡ chip.reg d i)
      → matches (chip.reg d') ≡ matches (chip.reg d)
  unfolding matches
  matches_kept d d' kept i = record {
    minute = match_of 0x7F (kept 9 (omega arith) i);
    hour = match_of 0x3F (kept 10 (omega arith) i);
    day = match_of 0x3F (kept 11 (omega arith) i);
    weekday = match_of 0x07 (kept 12 (omega arith) i);
  }

  -- The write of the four alarm registers leaves the flags.
  flags_kept :
      (w : List ℕ) (d d' : b.Dev)
      → write_regs b 9 w d ≡ (done tt, d')
      → chip.reg d' 1 ≡ chip.reg d 1
  flags_kept w d d' h =
      let (bytes, e) = write_regs-done b 9 w d d' h in
      chip.write_keeps 9 w bytes d d' 1 e (inl (omega arith))

  -- An alarm that `pcf8563_setAlarm` accepts and writes is in range, is the one that the chip then
  -- matches, field by field with the disabled fields off, and is armed with no alarm pending: AF is
  -- clear and AIE is as asked. The timer's flag, interrupt and mode are as they were.
  pub set_alarm-matches :
      (a : Alarm) (d d' : b.Dev)
      → set_alarm b a d ≡ (done tt, d')
      → (out_of_range a ≡ false)
        × (matches (chip.reg d') ≡ wanted a)
        × (flags (chip.reg d' 1)
            ≡ record (flags (chip.reg d 1)) { af = false; aie = a.interrupt_enable })
  set_alarm-matches a d d' h =
      let (valid, chain) = set_alarm-done a d d' h in
      let (_, e, written, rewritten) =
        >>=-done (write_regs b 9 (alarm_regs a))
          (λ _. do
            cs2 ← read_cs2 b
            write_cs2 b false true a.interrupt_enable (has_bits cs2 1) (has_bits cs2 16))
          d d' tt chain in
      let (f, kept) = rewrite_done b chip (λ _. a.interrupt_enable) e d' rewritten in
      (
        valid,
        matches_kept e d' kept ∙ written_matches a d e valid written,
        f
            ∙ ap (λ r. record (flags r) { af = false; aie = a.interrupt_enable })
                (flags_kept (alarm_regs a) d e written),
      )

  -- After `pcf8563_disableAlarm` has written, no alarm register is compared, no alarm is pending and
  -- the alarm interrupt is off; the timer's flags are as they were.
  pub disable_alarm-matches :
      (d d' : b.Dev)
      → disable_alarm b d ≡ (done tt, d')
      → (matches (chip.reg d') ≡ record { minute = none; hour = none; day = none; weekday = none })
        × (flags (chip.reg d' 1) ≡ record (flags (chip.reg d 1)) { af = false; aie = false })
  unfolding disable_alarm set_alarm out_of_range alarm_regs wanted
  disable_alarm-matches d d' h = let (_, m, f) = set_alarm-matches no_alarm d d' h in (m, f)

  -- After `pcf8563_clearAlarmFlag` has written, no alarm is pending; the other flags and the alarm
  -- are as they were.
  pub clear_alarm_flag-matches :
      (d d' : b.Dev)
      → clear_alarm_flag b d ≡ (done tt, d')
      → (flags (chip.reg d' 1) ≡ record (flags (chip.reg d 1)) { af = false })
        × (matches (chip.reg d') ≡ matches (chip.reg d))
  unfolding clear_alarm_flag flags
  clear_alarm_flag-matches d d' h =
      let (f, kept) = rewrite_done b chip (λ cs2. has_bits cs2 2) d d' h in
      (f, matches_kept d d' kept)
