-- ===== src/Measure/Tests.antt =====
-- A turn of the measurement at a concrete board.
use hydro_logger.Prelude.{refl, ℤ, pos, Bool, true, false, Option, none, some, List, [], ◌∷◌}
use hydro_logger.Models.{device_meta, MeasurementMsg, LogMsg}
use hydro_logger.LogBuffer.{LogBuffer}
use hydro_logger.Sensor.{Sensor, ultrasonic}
use hydro_logger.AppState.{Bits}
use hydro_logger.Measure.{Board, measure_turn}
use hydro_logger.Measure.Turn.{Published, measure_turn-Published}

-- A sensor that plays a list of readings; `none` is a failed one.
abbrev play : ℤ → LogBuffer → List (Option ℤ) → Bool × ℤ × LogBuffer × List (Option ℤ)
play mm log [] = (false, mm, log, [])
play mm log (none ∷ s) = (false, mm, log, s)
play mm log (some z ∷ s) = (true, z, log, s)

abbrev player : Sensor (List (Option ℤ))
player = record {
  warmup = λ log s. (true, log, s);
  read_distance_mm = play;
  finish_measurement = λ log s. (log, s);
  type = ultrasonic;
}

-- The bus keeps what is published, the last first.
abbrev board : Board (List (Option ℤ)) (List MeasurementMsg × List LogMsg)
board = record {
  get_time = λ out h. (false, out, h);
  read_milli_volts = λ h. (pos 12000, h);
  selected = some player;
  publish_measurement = λ mm b. (mm ∷ b.0, b.1);
  publish_log = λ lm b. (b.0, lm ∷ b.1);
}

abbrev bits : Bits
bits = record {
  conn_ok = false;
  conn_fail = false;
  sync_running = false;
  last_sync_fail = false;
  last_measure_fail = true;
  ota_running = false;
  measure_running = false;
}

abbrev readings : List (Option ℤ)
readings = some (pos 1200) ∷ none ∷ some (pos 1201) ∷ some (pos 1202) ∷ []

measure_turn-Published_example :
    let (bits', h, b) = measure_turn board (device_meta []) bits readings ([], []) in
    Published board bits' ([], []) b
measure_turn-Published_example =
    measure_turn-Published board (device_meta []) bits readings ([], []) refl
