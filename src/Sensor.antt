-- ===== src/Sensor.antt =====
-- The sensors: main/modules/sensor/ over the UART of main/board/uart_drv.cpp, which is a parameter.
pub mod Manager
pub mod Ultrasonic
mod Tests
use hydro_logger.Prelude.{ℕ, ℤ, Bool, List, ◌++◌, ◌∷◌, []}
use hydro_logger.LogBuffer.{LogBuffer}

-- `SensorType`
pub data SensorType : Type 0 where
  laser ultrasonic pressure : SensorType

-- `ISensor`, over the state of the hardware: each call may change it and the log, and a reading also
-- the distance that it is given by reference.
pub record Sensor (S : Type 0) : Type 0 where
  pub warmup : LogBuffer → S → Bool × LogBuffer × S
  pub read_distance_mm : ℤ → LogBuffer → S → Bool × ℤ × LogBuffer × S
  pub finish_measurement : LogBuffer → S → LogBuffer × S
  pub type : SensorType
