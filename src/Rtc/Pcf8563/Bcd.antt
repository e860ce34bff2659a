-- ===== src/Rtc/Pcf8563/Bcd.antt =====
-- Packed decimal digits: the driver's two conversions are inverse where they meet the masks that it
-- reads with, by evaluation over the ranges of the fields.
use hydro_logger.Prelude.{
  ℕ, ◌≡◌, refl, ◌<◌, Bool, true, false, ◌&&◌, ◌==◌, ==→eq, all_below, all_below_sound, bit_and,
  bit_or, arith, not,
}
use hydro_logger.Prelude.Bytes.{u8, has_bits}
use hydro_logger.Rtc.Pcf8563.{dec_to_bcd, bcd_to_dec}

reads_back : ℕ → ℕ → Bool
unfolding dec_to_bcd bcd_to_dec
reads_back mask v = bcd_to_dec (bit_and (dec_to_bcd v) mask) == v

reads_back_lem :
    (n mask v : ℕ)
    → all_below n (reads_back mask) ≡ true
    → v < n
    → bcd_to_dec (bit_and (dec_to_bcd v) mask) ≡ v
unfolding reads_back
reads_back_lem n mask v table h = ==→eq _ _ (all_below_sound n (reads_back mask) v table h)

pub minute_reads_back : (v : ℕ) → v < 60 → bcd_to_dec (bit_and (dec_to_bcd v) 0x7F) ≡ v
unfolding reads_back all_below
minute_reads_back v h = reads_back_lem 60 0x7F v refl h

-- Hours, and days up to 31.
pub day_reads_back : (v : ℕ) → v < 32 → bcd_to_dec (bit_and (dec_to_bcd v) 0x3F) ≡ v
unfolding reads_back all_below
day_reads_back v h = reads_back_lem 32 0x3F v refl h

pub month_reads_back : (v : ℕ) → v < 13 → bcd_to_dec (bit_and (dec_to_bcd v) 0x1F) ≡ v
unfolding reads_back all_below
month_reads_back v h = reads_back_lem 13 0x1F v refl h

pub year_reads_back : (v : ℕ) → v < 100 → bcd_to_dec (bit_and (dec_to_bcd v) 0xFF) ≡ v
unfolding reads_back all_below
year_reads_back v h = reads_back_lem 100 0xFF v refl h

-- The month register with the century bit set.
century_table : ℕ → Bool
unfolding dec_to_bcd bcd_to_dec
century_table v =
    let reg = bit_or (dec_to_bcd v) 0x80 in
    (bcd_to_dec (bit_and reg 0x1F) == v)
    && (has_bits reg 0x80 && not (has_bits (dec_to_bcd v) 0x80))

pub century_lem :
    (v : ℕ)
    → v < 13
    → (bcd_to_dec (bit_and (bit_or (dec_to_bcd v) 0x80) 0x1F) ≡ v)
      × (has_bits (bit_or (dec_to_bcd v) 0x80) 0x80 ≡ true)
      × (has_bits (dec_to_bcd v) 0x80 ≡ false)
unfolding century_table all_below
century_lem v h =
    let table = all_below_sound 13 century_table v refl h in
    (ground (arith, table), ground (arith, table), ground (arith, table))

low_table : ℕ → Bool
unfolding dec_to_bcd
low_table v = not (has_bits (dec_to_bcd v) 0x80)

-- The seconds leave the voltage bit clear.
pub low_lem : (v : ℕ) → v < 60 → has_bits (dec_to_bcd v) 0x80 ≡ false
unfolding low_table all_below
low_lem v h = let table = all_below_sound 60 low_table v refl h in ground (arith, table)

weekday_table : ℕ → Bool
weekday_table v = bit_and (u8 (bit_and v 0x07)) 0x07 == v

pub weekday_lem : (v : ℕ) → v < 7 → bit_and (u8 (bit_and v 0x07)) 0x07 ≡ v
unfolding weekday_table all_below
weekday_lem v h = ==→eq _ _ (all_below_sound 7 weekday_table v refl h)

byte_table : ℕ → Bool
byte_table v = bit_and v 0xFF == v

pub byte_lem : (v : ℕ) → v < 256 → bit_and v 0xFF ≡ v
unfolding byte_table all_below
byte_lem v h = ==→eq _ _ (all_below_sound 256 byte_table v refl h)

weekday_match_table : ℕ → Bool
unfolding bcd_to_dec
weekday_match_table v =
    let reg = u8 (bit_and v 0x07) in not (has_bits reg 0x80) && (bcd_to_dec (bit_and reg 0x07) == v)

-- The weekday as the alarm register holds it.
pub weekday_match_lem :
    (v : ℕ)
    → v < 7
    → (has_bits (u8 (bit_and v 0x07)) 0x80 ≡ false)
      × (bcd_to_dec (bit_and (u8 (bit_and v 0x07)) 0x07) ≡ v)
unfolding weekday_match_table all_below
weekday_match_lem v h =
    let table = all_below_sound 7 weekday_match_table v refl h in
    (ground (arith, table), ground (arith, table))
