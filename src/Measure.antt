-- ===== src/Measure.antt =====
-- One turn of the loop of main/app/measure_task.cpp. The clock, the voltage and the sensor work on one
-- state of the hardware; the bus is given by its two publish calls. A turn is taken as a whole, without
-- the steps of other tasks in between.
pub mod Turn
mod Tests
use hydro_logger.Prelude.{
  ℕ, ℤ, pos, Bool, true, false, Option, none, some, List, [], ◌∷◌, ◌++◌, take, ◌-◌, if◌then◌else◌,
}
use hydro_logger.Prelude.Bytes.{codes, u16}
use Prim.Native.Nat.{min}
use hydro_logger.Models.{
  DateTime, default_time, DeviceMeta, MeasurementMsg, LogMsg, in_array, c_str, session_log_size,
}
use hydro_logger.LogBuffer.{LogBuffer, new_log, appendf}
use hydro_logger.Sensor.{Sensor}
use hydro_logger.Sensor.Manager.{ensure_ready, read3}
use hydro_logger.AppState.{Bits}

-- What the turn calls, over the hardware `H` and the bus `B`.
pub record Board (H B : Type 0) : Type 0 where
  -- `RtcPcf8563::getTime`
  pub get_time : DateTime → H → Bool × DateTime × H
  -- `AdcDrv::readMilliVolts`
  pub read_milli_volts : H → ℤ × H
  -- `SensorManager::selected`
  pub selected : Option (Sensor H)
  -- `PublishApi`, whose results the turn does not look at.
  pub publish_measurement : MeasurementMsg → B → B
  pub publish_log : LogMsg → B → B

abbrev newline : List ℕ
newline = 10 ∷ []

abbrev pub no_samples : List ℤ
no_samples = pos 0 ∷ pos 0 ∷ pos 0 ∷ []

-- `snprintf(lm.text, sizeof(lm.text), "%s", log.c_str())` on the zeroed array, and the length.
unfoldable pub log_msg : DateTime → DeviceMeta → LogBuffer → LogMsg
log_msg now meta log = record {
  time = now;
  text = in_array session_log_size (take (session_log_size - 1) (c_str log.buf));
  len = u16 (min log.len (session_log_size - 1));
  meta = meta;
}

abbrev finish : {H : Type 0} → Option (Sensor H) → LogBuffer → H → LogBuffer × H
finish none log h = (log, h)
finish (some sensor) log h = sensor.finish_measurement log h

module _ {H B : Type 0} (board : Board H B) where
  -- The branch of a sensor that is not ready.
  unfoldable pub not_ready : DateTime → DeviceMeta → LogBuffer → Bits → B → Bits × B
  unfolding log_msg
  not_ready now meta log bits b =
      let mm : MeasurementMsg = record {
        time = now;
        dist_mm = no_samples;
        valid = false;
        meta = meta;
      } in
      (
        record bits { last_measure_fail = true; measure_running = false },
        board.publish_measurement mm (board.publish_log (log_msg now meta log) b),
      )

  -- The branch that measures.
  unfoldable pub ready :
      Option (Sensor H) → DateTime → DeviceMeta → LogBuffer → Bits → H → B → Bits × H × B
  unfolding log_msg
  ready active now meta log bits h b =
      let (ok, out, log1, h1) = read3 active no_samples log h in
      let (log2, h2) = finish active log1 h1 in
      let mm : MeasurementMsg = record { time = now; dist_mm = out; valid = ok; meta = meta } in
      (
        record bits { last_measure_fail = if ok then false else true; measure_running = false },
        h2,
        board.publish_log (log_msg now meta log2) (board.publish_measurement mm b),
      )

  -- `meta` is what the constructor of the message makes.
  unfoldable pub measure_turn : DeviceMeta → Bits → H → B → Bits × H × B
  unfolding not_ready ready
  measure_turn meta bits h b =
      let log = appendf (codes "[Measure] start" ++ newline) new_log in
      let (_, now, h1) = board.get_time default_time h in
      let (voltage, h2) = board.read_milli_volts h1 in
      let meta' = record meta { voltage_mv = voltage } in
      let (is_ready, active, log', h3) = ensure_ready board.selected log h2 in
      let (failed_bits, failed_b) = not_ready now meta' log' bits b in
      let measured = ready active now meta' log' bits h3 b in
      if bits.ota_running
      then (bits, h, b)
      else if is_ready
      then measured
      else (failed_bits, h3, failed_b)
