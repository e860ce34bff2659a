-- ===== src/AppState.antt =====
-- The event bits that the tasks share: main/app/app_state.hpp, one Boolean for each bit.
use hydro_logger.Prelude.{Bool}

pub record Bits : Type 0 where
  pub conn_ok : Bool
  pub conn_fail : Bool
  pub sync_running : Bool
  pub last_sync_fail : Bool
  pub last_measure_fail : Bool
  pub ota_running : Bool
  pub measure_running : Bool
