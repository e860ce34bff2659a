-- ===== src/Rtc/Device/FlagLaws.antt =====
-- The alarm and the timer of the application against the chip.
use hydro_logger.Prelude.{
  ℕ, ◌≡◌, ◌≢◌, refl, ap, sym, ◌∙◌, ◌<◌, List, [], ◌∷◌, Bool, true, false, ◌&&◌, not, none, some,
  inl, inr, get_or, ◌==◌, bit_and, arith, Option-cases, all_below, all_below_sound,
}
use hydro_logger.Prelude.Bytes.{has_bits}
use hydro_logger.Rtc.I2c.{Bus, write_link, read_reg, write_reg}
use hydro_logger.Rtc.Pcf8563.{i2c_addr, done, return, read_cs2}
use hydro_logger.Rtc.Pcf8563.Chip.{Chip, done-injective, Reply-cases, >>=-done}
use hydro_logger.Rtc.Pcf8563.Control.{read_cs2-done}
use hydro_logger.Rtc.Pcf8563.Flags.{flags, and_false}
use hydro_logger.Rtc.Pcf8563.Alarm.{out_of_range, set_alarm, is_alarm_triggered}
use hydro_logger.Rtc.Pcf8563.Alarm.Laws.{matches, wanted, set_alarm-matches}
use hydro_logger.Rtc.Pcf8563.Timer.{TimerConfig, set_timer}
use hydro_logger.Rtc.Pcf8563.Timer.Laws.{countdown, set_timer_counts}
use hydro_logger.Rtc.Device.{
  minute_alarm, timer_address, set_minute_alarm, enable_timer_interrupt, clear_timer_flag,
}

-- Clearing bit 2 of a byte: the other flags stay.
mask_table : ℕ → Bool
mask_table v =
    let w = bit_and v 0xFB in
    (bit_and w 1 == bit_and v 1)
    && ((bit_and w 2 == bit_and v 2)
        && ((bit_and w 16 == bit_and v 16) && ((bit_and w 8 == bit_and v 8) && (bit_and w 4 == 0))))

record Masked (v : ℕ) : Type 0 where
  b1 : bit_and (bit_and v 0xFB) 1 ≡ bit_and v 1
  b2 : bit_and (bit_and v 0xFB) 2 ≡ bit_and v 2
  b16 : bit_and (bit_and v 0xFB) 16 ≡ bit_and v 16
  b8 : bit_and (bit_and v 0xFB) 8 ≡ bit_and v 8
  b4 : bit_and (bit_and v 0xFB) 4 ≡ 0

masked_lem : (v : ℕ) → v < 256 → Masked v
unfolding mask_table all_below
masked_lem v h =
    let table = all_below_sound 256 mask_table v refl h in
    record {
      b1 = ground (arith, table);
      b2 = ground (arith, table);
      b16 = ground (arith, table);
      b8 = ground (arith, table);
      b4 = ground (arith, table);
    }

and_same : (x : Bool) → (x && x) ≡ x
and_same x = ground arith

module _ (b : Bus) (chip : Chip b) where
  -- An alarm that `RtcPcf8563::setMinuteAlarm` sets is on a minute of the hour, matches that minute
  -- and nothing else, and is armed with no alarm pending; the timer's flags are as they were.
  pub set_minute_alarm_arms :
      (minute : ℕ) (d d' : b.Dev)
      → set_minute_alarm b minute d ≡ (true, d')
      → (minute < 60)
        × (matches (chip.reg d')
            ≡ record { minute = some minute; hour = none; day = none; weekday = none })
        × (flags (chip.reg d' 1) ≡ record (flags (chip.reg d 1)) { af = false; aie = true })
  unfolding set_minute_alarm wanted out_of_range
  set_minute_alarm_arms minute d d' h = elim (Reply-cases (set_alarm b (minute_alarm minute) d).0) [
    | inl (tt, e) ↦
        let (valid, m, f) =
          set_alarm-matches b chip (minute_alarm minute) d d' (ground (arith, e, h)) in
        (ground (arith, valid), m, f)
    | inr (s, e) ↦ ground (arith, e, h)
  ]

  -- A timer that `RtcPcf8563::enableTimerInterrupt` starts has a period above zero, counts those
  -- seconds at 1 Hz (clock 2), and asserts a level interrupt with no expiry pending; the alarm's flag
  -- and interrupt are as they were.
  pub enable_timer_counts :
      (seconds : ℕ) (d d' : b.Dev)
      → seconds < 256
      → enable_timer_interrupt b seconds d ≡ (true, d')
      → (seconds ≢ 0)
        × (countdown (chip.reg d') ≡ record { running = true; clock = 2; value = seconds })
        × (flags (chip.reg d' 1)
            ≡ record (flags (chip.reg d 1)) { tf = false; tie = true; ti_tp = false })
  unfolding enable_timer_interrupt
  enable_timer_counts seconds d d' small h =
      let cfg : TimerConfig = record {
        value = seconds;
        clock = 2;
        interrupt_enable = true;
        pulse_interrupt = false;
      } in
      elim (Reply-cases (set_timer b cfg d).0) [
        | inl (tt, e) ↦
            let (c, f) = set_timer_counts b chip cfg d d' small (ground (arith, e, h)) in
            (ground (arith, e, h), c, f)
        | inr (s, e) ↦ ground (arith, e, h)
      ]

  is_alarm_triggered-keeps :
      (triggered : Bool) (d d' : b.Dev)
      → is_alarm_triggered b d ≡ (done triggered, d')
      → (i : ℕ) → chip.reg d' i ≡ chip.reg d i
  unfolding is_alarm_triggered
  is_alarm_triggered-keeps triggered d d' h i =
      let (cs2, e, read, value) =
        >>=-done (read_cs2 b) (λ cs2. return (has_bits cs2 8)) d d' triggered h in
      let (_, kept) = read_cs2-done b chip cs2 d e read in
      ap (λ t. chip.reg t i) (sym (done-injective (has_bits cs2 8) triggered e d' value).1) ∙ kept i

  -- The two accesses with which `clearTimerFlag` ends.
  rewritten :
      (d d' : b.Dev) (bytes : List ℕ)
      → read_reg b timer_address 1 1 d ≡ (some bytes, d')
      → (get_or bytes 0 0 ≡ chip.reg d 1) × ((i : ℕ) → chip.reg d' i ≡ chip.reg d i)
  unfolding read_reg
  rewritten d d' bytes h = (
    ap (λ w. get_or w 0 0) (chip.read_gives 1 1 bytes d d' (omega arith) h),
    λ i. chip.read_keeps 1 1 bytes d d' i h,
  )

  cleared :
      (v : ℕ) (d d' : b.Dev)
      → v ≡ chip.reg d 1
      → write_reg b timer_address 1 (bit_and v 0xFB ∷ []) d ≡ (true, d')
      → flags (chip.reg d' 1) ≡ record (flags (chip.reg d 1)) { tf = false }
  unfolding write_reg flags
  cleared v d d' same h =
      elim (Option-cases (b.cmd_begin (write_link i2c_addr 1 (bit_and v 0xFB ∷ [])) d).0) [
        | inl e ↦ ground (arith, e, h)
        | inr (bytes, e) ↦
            let (l1, l2, l16, l8, l4) =
              chip.write_control (bit_and v 0xFB) bytes d d' (ground (arith, e, h)) in
            let m = masked_lem v (ground (arith, same, chip.reg_byte d 1)) in
            λ i. record {
              af =
                  (l8
                      ∙ ap (λ t. has_bits (chip.reg d 1) 8 && t)
                          (ap (λ t. not (t == 0)) m.b8 ∙ ap (λ t. has_bits t 8) same)
                      ∙ and_same (has_bits (chip.reg d 1) 8))
                    i;
              aie = (l2 ∙ ap (λ t. not (t == 0)) m.b2 ∙ ap (λ t. has_bits t 2) same) i;
              tf =
                  (l4
                      ∙ ap (λ t. has_bits (chip.reg d 1) 4 && t) (ap (λ t. not (t == 0)) m.b4)
                      ∙ and_false (has_bits (chip.reg d 1) 4))
                    i;
              tie = (l1 ∙ ap (λ t. not (t == 0)) m.b1 ∙ ap (λ t. has_bits t 1) same) i;
              ti_tp = (l16 ∙ ap (λ t. not (t == 0)) m.b16 ∙ ap (λ t. has_bits t 16) same) i;
            }
      ]

  -- After `RtcPcf8563::clearTimerFlag` has succeeded no timer expiry is pending, and every other flag is
  -- as it was.
  pub clear_timer_flag_clears :
      (d d' : b.Dev)
      → clear_timer_flag b d ≡ (true, d')
      → flags (chip.reg d' 1) ≡ record (flags (chip.reg d 1)) { tf = false }
  unfolding clear_timer_flag
  clear_timer_flag_clears d d' h = elim (Reply-cases (is_alarm_triggered b d).0) [
    | inr (s, e) ↦ ground (arith, e, h)
    | inl (x, e) ↦
        let d1 = (is_alarm_triggered b d).1 in
        let same1 : chip.reg d1 1 ≡ chip.reg d 1 =
          is_alarm_triggered-keeps x d d1 (λ i. (e i, d1)) 1 in
        elim (Option-cases (read_reg b timer_address 1 1 d1).0) [
          | inl e2 ↦ ground (arith, e, e2, h)
          | inr (bytes, e2) ↦
              let d2 = (read_reg b timer_address 1 1 d1).1 in
              let (value, kept) = rewritten d1 d2 bytes (λ i. (e2 i, d2)) in
              cleared (get_or bytes 0 0) d2 d' (value ∙ sym (kept 1)) (ground (arith, e, e2, h))
              ∙ ap (λ t. record (flags t) { tf = false }) (kept 1 ∙ same1)
        ]
  ]
