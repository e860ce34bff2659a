-- ===== src/SyncTask/TimeSync/Tests.antt =====
-- The synchronisation of the time with a server that answers at the second try.
use hydro_logger.Prelude.{
  ℕ, ◌+◌, ◌≡◌, refl, pos, Bool, true, false, Option, none, some, List, [], ◌∷◌,
}
use hydro_logger.Prelude.Bytes.{codes}
use hydro_logger.Models.{DateTime, default_time, c_str}
use hydro_logger.LogBuffer.{LogBuffer, new_log}
use hydro_logger.SyncTask.TimeSync.{Calls, sync_time_with_retry}
use hydro_logger.SyncTask.TimeSync.Synced.{Synced}
use hydro_logger.TimeUtils.{field, last_field}
use hydro_logger.Prelude.Decimal.{scan_int}

record World : Type 0 where
  pub ticks : ℕ
  pub rtc : DateTime
  pub answers : List (List ℕ)

abbrev answer : List (List ℕ) → (Bool × List ℕ) × List (List ℕ)
answer [] = ((false, []), [])
answer (text ∷ texts) = ((true, text), texts)

abbrev calls : Calls World
calls = record {
  now = λ w. w.ticks;
  delay = λ ms w. record w { ticks = w.ticks + ms };
  fetch = λ log w. (
    (answer w.answers).0,
    log,
    record w { ticks = w.ticks + 10; answers = (answer w.answers).1 },
  );
  get_time = λ w. (some w.rtc, w);
  set_time = λ t w. (true, record w { rtc = t });
  mktime = λ t. t.tm_sec;
}

abbrev world : World
world = record {
  ticks = 500;
  rtc = default_time;
  answers = codes "busy" ∷ codes "12:30:99_24:12:2026" ∷ [];
}

-- The clock after it.
abbrev seen : Option (Bool × LogBuffer × World) → Option (Bool × (ℕ × DateTime))
seen none = none
seen (some (ok, log, w)) = some (ok, (w.ticks, w.rtc))

synced :
    seen (sync_time_with_retry calls new_log world)
    ≡ some (
      true,
      (
        2520,
        record {
          year = pos 2026;
          month = pos 12;
          day = pos 24;
          hour = pos 12;
          minute = pos 30;
          second = pos 99;
        },
      ),
    )
unfolding field scan_int c_str last_field sync_time_with_retry
synced = refl
