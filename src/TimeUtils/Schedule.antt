-- ===== src/TimeUtils/Schedule.antt =====
-- The wake-up schedule of timeu::nextScheduledMinute.
use hydro_logger.Prelude.{
  ℕ, ◌+◌, ◌-◌, ◌%◌, ◌≡◌, ◌≤◌, ◌<◌, ◌⊎◌, ℤ, pos, negsuc, true, false, arith, inl, inr, Bool-cases,
}
use hydro_logger.Prelude.Int.{ltb_ℤ, leb_ℤ, pos_part}
use hydro_logger.TimeUtils.{is_scheduled_minute, is_sync_minute, next_scheduled_minute}

next_scheduled : (current : ℤ) → is_scheduled_minute (next_scheduled_minute current) ≡ true
unfolding is_scheduled_minute next_scheduled_minute
next_scheduled (pos c) = ground arith
next_scheduled (negsuc c) = ground arith

-- A next minute after the current one skips none.
skips_none :
    (current m : ℤ)
    → is_scheduled_minute m ≡ true
    → ltb_ℤ current (next_scheduled_minute current) ≡ true
    → (ltb_ℤ current m ≡ false) ⊎ (leb_ℤ (next_scheduled_minute current) m ≡ true)
unfolding is_scheduled_minute next_scheduled_minute
skips_none (pos c) (pos m) h later = ground arith
skips_none (pos c) (negsuc m) h later = ground arith
skips_none (negsuc c) (pos m) h later = ground arith
skips_none (negsuc c) (negsuc m) h later = ground arith

-- One that is not after the current one is minute 0 of the next hour.
next_hour :
    (current m : ℤ)
    → is_scheduled_minute m ≡ true
    → ltb_ℤ current (next_scheduled_minute current) ≡ false
    → (is_sync_minute (next_scheduled_minute current) ≡ true) × (leb_ℤ m current ≡ true)
unfolding is_scheduled_minute next_scheduled_minute is_sync_minute
next_hour (pos c) (pos m) h over = ground arith
next_hour (pos c) (negsuc m) h over = ground arith
next_hour (negsuc c) (pos m) h over = ground arith
next_hour (negsuc c) (negsuc m) h over = ground arith

-- The next minute is a scheduled one. It lies after the current minute, with no scheduled minute
-- skipped; or no scheduled minute lies after the current one, and it is minute 0 of the next hour,
-- the minute that syncs.
pub next_scheduled_minute_first :
    (current m : ℤ)
    → is_scheduled_minute m ≡ true
    → (is_scheduled_minute (next_scheduled_minute current) ≡ true)
      × (((ltb_ℤ current (next_scheduled_minute current) ≡ true)
            × ((ltb_ℤ current m ≡ false) ⊎ (leb_ℤ (next_scheduled_minute current) m ≡ true)))
          ⊎ ((is_sync_minute (next_scheduled_minute current) ≡ true) × (leb_ℤ m current ≡ true)))
next_scheduled_minute_first current m h = (
  next_scheduled current,
  elim (Bool-cases (ltb_ℤ current (next_scheduled_minute current))) [
    | inl later ↦ inl (later, skips_none current m h later)
    | inr over ↦ inr (next_hour current m h over)
  ],
)

-- From any minute of an hour the next scheduled minute is reached in one to ten minutes, counted
-- around the hour, and it is a minute of an hour.
pub next_scheduled_minute_near :
    (c : ℕ)
    → c < 60
    → let next = pos_part (next_scheduled_minute (pos c)) in
      (next < 60) × (1 ≤ (next + 60 - c) % 60) × ((next + 60 - c) % 60 ≤ 10)
unfolding next_scheduled_minute
next_scheduled_minute_near c h = ground arith
