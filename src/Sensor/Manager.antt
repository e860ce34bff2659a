-- ===== src/Sensor/Manager.antt =====
-- main/modules/sensor/sensor_manager.cpp. The sensor that the build selects is an argument.
pub mod Samples
use hydro_logger.Prelude.{
  ℕ, zero, suc, ◌+◌, ℤ, pos, Bool, true, false, ◌&&◌, Option, none, some, List, [], ◌∷◌, ◌++◌,
  if◌then◌else◌,
}
use hydro_logger.Prelude.Int.{ltb_ℤ, leb_ℤ, pos_part, neg_part}
use hydro_logger.Prelude.Bytes.{codes}
use hydro_logger.Prelude.Decimal.{format_int}
use hydro_logger.Models.{distance_samples}
use hydro_logger.LogBuffer.{LogBuffer, appendf}
use hydro_logger.Sensor.{Sensor, SensorType, laser, ultrasonic, pressure}

-- `cfg::kMaxDistanceMm` and `cfg::kMaxRepeatRead`
abbrev pub max_distance_mm : ℕ
max_distance_mm = 30000

abbrev pub max_repeat_read : ℕ
max_repeat_read = 5

-- A `\n` at the end of a text.
abbrev newline : List ℕ
newline = 10 ∷ []

unfoldable pub sensor_name : SensorType → List ℕ
sensor_name laser = codes "Laser"
sensor_name ultrasonic = codes "Ultrasonic"
sensor_name pressure = codes "Pressure"

unfoldable pub is_valid_distance : ℤ → Bool
is_valid_distance mm = ltb_ℤ (pos 0) mm && leb_ℤ mm (pos max_distance_mm)

module _ {S : Type 0} where
  unfoldable pub ensure_ready :
      Option (Sensor S) → LogBuffer → S → Bool × Option (Sensor S) × LogBuffer × S
  unfolding sensor_name
  ensure_ready none log s = (
    false,
    none,
    appendf (codes "[SensorManager] no sensor selected by build macro" ++ newline) log,
    s,
  )
  ensure_ready (some sensor) log s =
      let selected =
        appendf
          (codes "[SensorManager] selected="
            ++ (sensor_name sensor.type ++ (codes " (build)" ++ newline)))
          log in
      let (ready, log', s') = sensor.warmup selected s in
      if ready
      then (
        true,
        some sensor,
        appendf (codes "[SensorManager] active=" ++ (sensor_name sensor.type ++ newline)) log',
        s',
      )
      else (false, none, appendf (codes "[SensorManager] warmup FAIL" ++ newline) log', s')

  -- The inner loop of `read3` with `n` tries left, from try `r` on; `mm` is the variable of that name.
  unfoldable pub try_read : Sensor S → ℕ → ℕ → ℤ → LogBuffer → S → Bool × ℤ × LogBuffer × S
  unfolding is_valid_distance
  try_read sensor zero r mm log s = (false, mm, log, s)
  try_read sensor (suc n) r mm log s =
      let (read, mm', log', s') = sensor.read_distance_mm mm log s in
      let try = format_int 0 (pos (r + 1)) ++ (codes ")" ++ newline) in
      let failed = appendf (codes "[SensorManager] read fail (try " ++ try) log' in
      let invalid =
        appendf
          (codes "[SensorManager] invalid dist=" ++ (format_int 0 mm' ++ (codes " (try " ++ try)))
          log' in
      let after_failure = try_read sensor n (r + 1) mm' failed s' in
      let after_invalid = try_read sensor n (r + 1) mm' invalid s' in
      if read
      then (if is_valid_distance mm' then (true, mm', log', s') else after_invalid)
      else after_failure

  -- The outer loop with `n` samples to go: the samples in their order, and whether all are good.
  unfoldable pub read_samples : Sensor S → ℕ → LogBuffer → S → Bool × List ℤ × LogBuffer × S
  unfolding try_read
  read_samples sensor zero log s = (true, [], log, s)
  read_samples sensor (suc n) log s =
      let (ok, mm, log', s') = try_read sensor max_repeat_read 0 (pos 0) log s in
      let (all_ok, out, log2, s2) = read_samples sensor n log' s' in
      (ok && all_ok, (if ok then mm else pos 0) ∷ out, log2, s2)

  -- `out` is what the array held.
  unfoldable pub read3 : Option (Sensor S) → List ℤ → LogBuffer → S → Bool × List ℤ × LogBuffer × S
  unfolding read_samples
  read3 none out log s = (false, out, log, s)
  read3 (some sensor) out log s = read_samples sensor distance_samples log s
