-- ===== src/SyncTask/TimeSync.antt =====
-- `syncTimeWithRetry` of main/app/sync_task.cpp, and the seconds between two times of
-- main/common/time_utils.cpp.
pub mod Synced
mod Tests
use hydro_logger.Prelude.{
  ℕ, zero, suc, ◌+◌, ◌-◌, ℤ, pos, negsuc, Bool, true, false, ◌&&◌, Option, none, some, List, [],
  ◌∷◌, ◌++◌, ltb, if◌then◌else◌,
}
use hydro_logger.Prelude.Int.{sub_ℕ, pos_part, neg_part, abs}
use hydro_logger.Prelude.Bytes.{codes}
use hydro_logger.Prelude.Decimal.{format_int}
use hydro_logger.Models.{DateTime, default_time, c_str}
use hydro_logger.LogBuffer.{LogBuffer, appendf}
use hydro_logger.TimeUtils.{parse_server_time}

-- The fields of `struct tm` that are set.
pub record Tm : Type 0 where
  pub tm_year : ℤ
  pub tm_mon : ℤ
  pub tm_mday : ℤ
  pub tm_hour : ℤ
  pub tm_min : ℤ
  pub tm_sec : ℤ

abbrev pub minus : ℤ → ℤ → ℤ
minus x y = sub_ℕ (pos_part x + neg_part y) (neg_part x + pos_part y)

module _ (mktime : Tm → ℤ) where
  unfoldable pub to_epoch_seconds : DateTime → ℤ
  to_epoch_seconds dt = mktime (record {
    tm_year = minus dt.year (pos 1900);
    tm_mon = minus dt.month (pos 1);
    tm_mday = dt.day;
    tm_hour = dt.hour;
    tm_min = dt.minute;
    tm_sec = dt.second;
  })

  unfoldable pub delta_seconds : DateTime → DateTime → ℕ
  unfolding to_epoch_seconds
  delta_seconds a b = abs (minus (to_epoch_seconds a) (to_epoch_seconds b))

abbrev pub fetch_timeout_ms : ℕ
fetch_timeout_ms = 20000

abbrev pub fetch_retry_delay_ms : ℕ
fetch_retry_delay_ms = 2000

-- What the loop calls: the tick counter in milliseconds, the fetch over the active module or the server
-- API, and the clock. `get_time` gives nothing where the clock cannot be read.
pub record Calls (W : Type 0) : Type 0 where
  pub now : W → ℕ
  pub delay : ℕ → W → W
  pub fetch : LogBuffer → W → (Bool × List ℕ) × LogBuffer × W
  pub get_time : W → Option DateTime × W
  pub set_time : DateTime → W → Bool × W
  pub mktime : Tm → ℤ

abbrev pub time_or_default : Option DateTime → DateTime
time_or_default none = default_time
time_or_default (some t) = t

abbrev pub line : List ℕ → LogBuffer → LogBuffer
line text log = appendf (codes "[Sync] " ++ (text ++ 10 ∷ [])) log

abbrev number : ℕ → ℤ → List ℕ
number width z = format_int width z

abbrev pub updated_text : DateTime → List ℕ
updated_text t =
    codes "RTC updated -> "
    ++ (number 4 t.year
        ++ (codes "-"
            ++ (number 2 t.month
                ++ (codes "-"
                    ++ (number 2 t.day
                        ++ (codes " "
                            ++ (number 2 t.hour
                                ++ (codes ":"
                                    ++ (number 2 t.minute
                                        ++ (codes ":" ++ number 2 t.second))))))))))

module _ {W : Type 0} (calls : Calls W) where
  -- With the server's time: the clock is set if it is more than a minute off; whether that worked is
  -- not looked at.
  unfoldable pub adjust : DateTime → LogBuffer → W → Bool × LogBuffer × W
  unfolding delta_seconds
  adjust server_time log w =
      let (rtc_now, w1) = calls.get_time w in
      let delta = delta_seconds calls.mktime server_time (time_or_default rtc_now) in
      let log1 = line (codes "time delta=" ++ (number 0 (pos delta) ++ codes "s")) log in
      if ltb 60 delta
      then (true, line (updated_text server_time) log1, (calls.set_time server_time w1).1)
      else (true, line (codes "RTC OK (delta <= 60s)") log1, w1)

  -- The loop; none where the fuel runs out.
  unfoldable pub sync_loop : ℕ → ℕ → LogBuffer → W → Option (Bool × LogBuffer × W)
  unfolding adjust parse_server_time
  sync_loop zero start log w = none
  sync_loop (suc fuel) start log w =
      let ((fetched, text), log1, w1) = calls.fetch log w in
      let (parsed, server_time) = parse_server_time (c_str text) default_time in
      let log2 =
        if fetched
        then line (codes "time parse FAIL: '" ++ (c_str text ++ codes "'")) log1
        else line (codes "time fetch FAIL, retry in 2s") log1 in
      let again = sync_loop fuel start log2 (calls.delay fetch_retry_delay_ms w1) in
      if ltb (calls.now w - start) fetch_timeout_ms
      then (if fetched && parsed then some (adjust server_time log1 w1) else again)
      else some (false, line (codes "time sync TIMEOUT (20s)") log, w)

  unfoldable pub sync_time_with_retry : LogBuffer → W → Option (Bool × LogBuffer × W)
  unfolding sync_loop
  sync_time_with_retry log w =
      sync_loop 11 (calls.now w) (line (codes "time sync start (timeout 20s)") log) w
