-- ===== src/Measure/Turn.antt =====
-- What a turn of the measurement publishes and leaves behind.
use hydro_logger.Prelude.{
  ◌≡◌, refl, ◌⊎◌, inl, inr, Bool, true, false, not, Option, none, some, length, if◌then◌else◌,
  arith,
}
use hydro_logger.Models.{DateTime, DeviceMeta, MeasurementMsg, LogMsg}
use hydro_logger.LogBuffer.{LogBuffer}
use hydro_logger.Sensor.{Sensor}
use hydro_logger.Sensor.Manager.{is_valid_distance, read3}
use hydro_logger.Sensor.Manager.Samples.{all_valid, read3-valid}
use hydro_logger.AppState.{Bits}
use hydro_logger.Measure.{Board, no_samples, log_msg, not_ready, ready, measure_turn}

-- One measurement and one log of the same time and device went to the bus, in either order; the
-- measurement has three samples and says of itself whether they are all valid; the bits say the same,
-- and that no measurement runs.
pub record Published {H B : Type 0} (board : Board H B) (bits : Bits) (before after : B)
    : Type 0 where
  pub mm : MeasurementMsg
  pub lm : LogMsg
  pub bus :
      (after ≡ board.publish_measurement mm (board.publish_log lm before))
      ⊎ (after ≡ board.publish_log lm (board.publish_measurement mm before))
  pub same_time : lm.time ≡ mm.time
  pub same_meta : lm.meta ≡ mm.meta
  pub samples : length mm.dist_mm ≡ 3
  pub valid : mm.valid ≡ all_valid mm.dist_mm
  pub failed : bits.last_measure_fail ≡ not mm.valid
  pub idle : bits.measure_running ≡ false

negated : (b : Bool) → (if b then false else true) ≡ not b
negated true = refl
negated false = refl

module _ {H B : Type 0} (board : Board H B) where
  not_ready-Published :
      (now : DateTime) (meta : DeviceMeta) (log : LogBuffer) (bits : Bits) (b : B)
      → Published board
          (not_ready board now meta log bits b).0
          b
          (not_ready board now meta log bits b).1
  unfolding not_ready log_msg all_valid is_valid_distance
  not_ready-Published now meta log bits b = record {
    mm = record { time = now; dist_mm = no_samples; valid = false; meta = meta };
    lm = log_msg now meta log;
    bus = inl refl;
    same_time = refl;
    same_meta = refl;
    samples = refl;
    valid = refl;
    failed = refl;
    idle = refl;
  }

  -- The samples of `read3`, also where there is no sensor.
  read3_lem :
      (active : Option (Sensor H)) (log : LogBuffer) (h : H)
      → (length (read3 active no_samples log h).1 ≡ 3)
        × ((read3 active no_samples log h).0 ≡ all_valid (read3 active no_samples log h).1)
  unfolding read3 all_valid is_valid_distance
  read3_lem none log h = (refl, refl)
  read3_lem (some sensor) log h = read3-valid sensor no_samples log h

  ready-Published :
      (active : Option (Sensor H)) (now : DateTime) (meta : DeviceMeta) (log : LogBuffer)
      (bits : Bits) (h : H) (b : B)
      → Published board
          (ready board active now meta log bits h b).0
          b
          (ready board active now meta log bits h b).2
  unfolding ready log_msg
  ready-Published active now meta log bits h b =
      let q = read3 active no_samples log h in
      let (size, valid) = read3_lem active log h in
      record {
        mm = record { time = now; dist_mm = q.1; valid = q.0; meta = meta };
        lm = log_msg now meta _;
        bus = inr refl;
        same_time = refl;
        same_meta = refl;
        samples = size;
        valid = valid;
        failed = negated q.0;
        idle = refl;
      }

  choose-Published :
      (b : Bool) (x y : Bits × H × B) (before : B)
      → Published board x.0 before x.2
      → Published board y.0 before y.2
      → Published board (if b then x else y).0 before (if b then x else y).2
  choose-Published true x y before p q = p
  choose-Published false x y before p q = q

  past-guard :
      (b : Bool) (x y : Bits × H × B) (before : B)
      → b ≡ false
      → Published board y.0 before y.2
      → Published board (if b then x else y).0 before (if b then x else y).2
  past-guard true x y before h q = ground (arith, h)
  past-guard false x y before h q = q

  -- While no update is being downloaded, a turn puts exactly one measurement and one log on the bus,
  -- of the same time and device, whatever the sensor does: the measurement has three samples and is
  -- marked valid exactly if all three are in range, the failure bit says the opposite, and no
  -- measurement is left running.
  pub measure_turn-Published :
      (meta : DeviceMeta) (bits : Bits) (h : H) (b : B)
      → bits.ota_running ≡ false
      → Published board (measure_turn board meta bits h b).0 b (measure_turn board meta bits h b).2
  unfolding measure_turn
  measure_turn-Published meta bits h b idle = past-guard bits.ota_running _ _ b idle (
      choose-Published _ _ _ b (ready-Published _ _ _ _ bits _ b)
        (not_ready-Published _ _ _ bits b))
