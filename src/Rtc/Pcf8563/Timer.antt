-- ===== src/Rtc/Pcf8563/Timer.antt =====
-- `pcf8563_setTimer`, `pcf8563_disableTimer` and the two CLKOUT functions.
pub mod Laws
use hydro_logger.Prelude.{ℕ, Bool, true, false, ltb, if◌then◌else◌, bit_and, bit_or, ◌-◌}
use hydro_logger.Prelude.Bytes.{u8, has_bits}
use hydro_logger.Rtc.I2c.{Bus}
use hydro_logger.Rtc.Pcf8563.{
  invalid_arg, Io, ◌>>=◌, ◌>>◌, return, refuse, write_reg, read_reg, read_cs2, write_cs2,
}

-- `clock` is the number of the `PCF8563_TimerClock`.
pub record TimerConfig : Type 0 where
  pub value : ℕ
  pub clock : ℕ
  pub interrupt_enable : Bool
  pub pulse_interrupt : Bool

module _ (b : Bus) where
  unfoldable pub set_timer : TimerConfig → Io b.Dev (Unit {0})
  set_timer cfg = if ltb 3 (u8 cfg.clock) then refuse invalid_arg else (do
    write_reg b 0x0E (u8 cfg.clock)
    write_reg b 0x0F cfg.value
    write_reg b 0x0E (u8 (bit_or (u8 cfg.clock) 0x80))
    cs2 ← read_cs2 b
    write_cs2 b true false (has_bits cs2 2) cfg.interrupt_enable cfg.pulse_interrupt)

  unfoldable pub disable_timer : Io b.Dev (Unit {0})
  disable_timer = do
    write_reg b 0x0E 0x03
    cs2 ← read_cs2 b
    write_cs2 b true false (has_bits cs2 2) false false

  unfoldable pub set_clkout_enabled : Bool → Io b.Dev (Unit {0})
  set_clkout_enabled enable = do
    reg ← read_reg b 0x0D
    write_reg b 0x0D (if enable then bit_or reg 0x80 else bit_and reg 0x7F)

  unfoldable pub set_clkout_frequency : ℕ → Io b.Dev (Unit {0})
  set_clkout_frequency fd = if ltb 3 fd then refuse invalid_arg else (do
    reg ← read_reg b 0x0D
    write_reg b 0x0D (bit_or (bit_and reg 0xFC) (bit_and fd 0x03)))
