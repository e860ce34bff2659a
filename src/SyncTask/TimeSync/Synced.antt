-- ===== src/SyncTask/TimeSync/Synced.antt =====
-- What the synchronisation of the time ensures.
use hydro_logger.Prelude.{
  ℕ, ◌+◌, ◌-◌, ◌≡◌, ◌≤◌, ◌⊎◌, Bool, true, false, ◌&&◌, Option, some, ◌++◌, ltb, if◌then◌else◌,
}
use hydro_logger.Prelude.Bytes.{codes}
use hydro_logger.Models.{DateTime, default_time, c_str}
use hydro_logger.LogBuffer.{LogBuffer}
use hydro_logger.TimeUtils.{parse_server_time}
use hydro_logger.SyncTask.TimeSync.{
  line, delta_seconds, fetch_timeout_ms, fetch_retry_delay_ms, Calls,
}

-- The tick counter does not go back and a delay takes its time; the clock can be read, and a time that
-- it takes is the one it shows then.
pub record ClockLaws {W : Type 0} (calls : Calls W) : Type 0 where
  pub clock : W → DateTime
  pub fetch_now : (log : LogBuffer) (w : W) → calls.now w ≤ calls.now (calls.fetch log w).2
  pub delay_now : (ms : ℕ) (w : W) → calls.now w + ms ≤ calls.now (calls.delay ms w)
  pub get_reads : (w : W) → (calls.get_time w).0 ≡ some (clock w)
  pub get_clock : (w : W) → clock (calls.get_time w).1 ≡ clock w
  pub set_clock :
      (t : DateTime) (w : W) → (calls.set_time t w).0 ≡ true → clock (calls.set_time t w).1 ≡ t

module _ {W : Type 0} (calls : Calls W) (laws : ClockLaws calls) where
  -- A turn within the twenty seconds that fetched no text that holds a time.
  unfoldable pub InVain : ℕ → LogBuffer → W → Type 0
  InVain start log v =
      let ((fetched, text), log1, v1) = calls.fetch log v in
      (ltb (calls.now v - start) fetch_timeout_ms ≡ true)
      × (fetched && (parse_server_time (c_str text) default_time).0 ≡ false)

  -- The log that such a turn leaves.
  unfoldable pub vain_log : LogBuffer → W → LogBuffer
  vain_log log v =
      let ((fetched, text), log1, v1) = calls.fetch log v in
      if fetched
      then line (codes "time parse FAIL: '" ++ (c_str text ++ codes "'")) log1
      else line (codes "time fetch FAIL, retry in 2s") log1

  -- Turns that asked in vain: from the first log and state to those of a later turn.
  pub data Retried (start : ℕ) (first : LogBuffer × W) : LogBuffer → W → Type 0 where
    none_yet : Retried start first first.0 first.1
    once_more :
        (log : LogBuffer) (v : W)
        → Retried start first log v
        → InVain start log v
        → Retried start first
            (vain_log log v)
            (calls.delay fetch_retry_delay_ms (calls.fetch log v).2)

  -- What a turn ends with that fetched the time `server` and was left by the fetch in the state `v`:
  -- the clock was read, and it is at most a minute off and stays as it is, or it is further off and was
  -- set, and then it shows the time of the server, unless it refused that.
  unfoldable pub Near : DateTime → W → W → Type 0
  Near server v w =
      let read = (calls.get_time v).1 in
      ((w ≡ read) × (delta_seconds calls.mktime server (laws.clock w) ≤ 60))
      ⊎ ((w ≡ (calls.set_time server read).1)
          × (61 ≤ delta_seconds calls.mktime server (laws.clock v))
          × ((laws.clock w ≡ server) ⊎ ((calls.set_time server read).0 ≡ false)))

  -- A turn within the twenty seconds, after turns that asked in vain, fetched a text that holds the
  -- time `server`.
  pub record InTime (start : ℕ) (first : LogBuffer × W) (w : W) : Type 0 where
    pub log : LogBuffer
    pub asked : W
    pub server : DateTime
    pub retried : Retried start first log asked
    pub within : ltb (calls.now asked - start) fetch_timeout_ms ≡ true
    pub fetched : (calls.fetch log asked).0.0 ≡ true
    pub parsed : parse_server_time (c_str (calls.fetch log asked).0.1) default_time ≡ (true, server)
    pub near : Near server (calls.fetch log asked).2 w

  pub record Synced (start : ℕ) (first : LogBuffer × W) (ok : Bool) (w : W) : Type 0 where
    pub in_time : ok ≡ true → InTime start first w
    pub timed_out :
        ok ≡ false
        → ((log : LogBuffer) × Retried start first log w) × (fetch_timeout_ms ≤ calls.now w - start)

  Ends : ℕ → LogBuffer × W → Option (Bool × LogBuffer × W) → Type 0
  Ends start first o = (r : Bool × LogBuffer × W) × (o ≡ some r) × Synced start first r.0 r.2
