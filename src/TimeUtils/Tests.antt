-- ===== src/TimeUtils/Tests.antt =====
-- The schedule and the time text at concrete inputs.
use hydro_logger.Prelude.{◌+◌, ◌-◌, ◌%◌, ◌≡◌, ◌≤◌, ◌<◌, ◌⊎◌, refl, pos, negsuc, true, false, arith}
use hydro_logger.Prelude.Int.{ltb_ℤ, leb_ℤ, pos_part}
use hydro_logger.Prelude.Bytes.{codes}
use hydro_logger.Prelude.Decimal.{ends_number}
use hydro_logger.Models.{DateTime, default_time}
use hydro_logger.TimeUtils.{
  parse_server_time, is_scheduled_minute, is_sync_minute, next_scheduled_minute,
}
use hydro_logger.TimeUtils.Schedule.{next_scheduled_minute_first, next_scheduled_minute_near}
use hydro_logger.TimeUtils.ServerTime.{server_text, parse_server_time-server_text}

next_scheduled_minute_first_example :
    (is_scheduled_minute (next_scheduled_minute (pos 25)) ≡ true)
    × (((ltb_ℤ (pos 25) (next_scheduled_minute (pos 25)) ≡ true)
          × ((ltb_ℤ (pos 25) (pos 30) ≡ false)
              ⊎ (leb_ℤ (next_scheduled_minute (pos 25)) (pos 30) ≡ true)))
        ⊎ ((is_sync_minute (next_scheduled_minute (pos 25)) ≡ true)
            × (leb_ℤ (pos 30) (pos 25) ≡ true)))
unfolding is_scheduled_minute
next_scheduled_minute_first_example = next_scheduled_minute_first (pos 25) (pos 30) refl

next_scheduled_minute_near_example :
    let next = pos_part (next_scheduled_minute (pos 59)) in
    (next < 60) × (1 ≤ (next + 60 - 59) % 60) × ((next + 60 - 59) % 60 ≤ 10)
next_scheduled_minute_near_example = next_scheduled_minute_near 59 (omega arith)

abbrev time : DateTime
time = record {
  year = pos 2026;
  month = pos 4;
  day = pos 9;
  hour = pos 23;
  minute = pos 5;
  second = negsuc 0;
}

parse_server_time-server_text_example :
    parse_server_time (server_text time (codes " GMT")) default_time ≡ (true, time)
unfolding ends_number
parse_server_time-server_text_example =
    parse_server_time-server_text time default_time (codes " GMT") refl
