-- ===== src/Sim4g/AsModule.antt =====
-- The modem as the module that connectivity_manager.cpp tries: `Sim4GModule` as an `ICommModule`. The
-- log that a call is given takes the place of the one that the state holds.
pub mod Tried
use hydro_logger.Prelude.{ℕ, Bool, false, Option, none, some}
use hydro_logger.LogBuffer.{LogBuffer}
use hydro_logger.Nvs.{sim4g}
use hydro_logger.Connectivity.{CommModule}
use hydro_logger.Sim4g.{Board, Modem, M}
use hydro_logger.Sim4g.Power.{power_on, power_off}
use hydro_logger.Sim4g.Network.{check_internet}

module _ {b : Board} where
  -- What a run gives; without enough fuel, `default` and nothing done.
  abbrev pub given :
      {A : Type 0} → A → LogBuffer → Modem b → Option (A × Modem b) → A × LogBuffer × Modem b
  given default log s none = (default, log, s)
  given default log s (some (a, t)) = (a, t.log, t)

  abbrev pub with_log : LogBuffer → Modem b → Modem b
  with_log log s = record s { log = log }

  abbrev pub sim_module : CommModule (Modem b)
  sim_module = record {
    power_on = λ log s. given false log s (power_on (with_log log s));
    check_internet = λ ms log s. given false log s (check_internet ms (with_log log s));
    power_off =
        λ log s. let (_, log', t) = given tt log s (power_off (with_log log s)) in (log', t);
    type = sim4g;
  }
