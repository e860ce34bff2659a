-- ===== src/Connectivity/Tests.antt =====
-- The choice of the link at concrete inputs.
use hydro_logger.Prelude.{ℕ, ◌≡◌, refl, Bool, true, false, Option, none, some, []}
use hydro_logger.Models.{default_time, device_meta, LogMsg}
use hydro_logger.LogBuffer.{new_log}
use hydro_logger.Nvs.{CommType, sim4g, dcom, Key, last_comm, sim_apn, Nvs, Keeps}
use hydro_logger.Connectivity.{
  CommModule, Link, select_preferred, sync_send_fail, enqueue_failover_request, failover_turn,
}
use hydro_logger.Connectivity.Choice.{failover-prefers}

-- A flash of two cells.
abbrev read_cell : Key → Option ℕ × Option ℕ → Option ℕ
read_cell last_comm f = f.0
read_cell sim_apn f = f.1

abbrev write_cell : Key → ℕ → Option ℕ × Option ℕ → Option ℕ × Option ℕ
write_cell last_comm v f = (some v, f.1)
write_cell sim_apn v f = (f.0, some v)

abbrev cells : Nvs
cells = record { Flash = Option ℕ × Option ℕ; read_u8 = read_cell; write_u8 = write_cell }

read-write_cell :
    (k : Key) (v : ℕ) (f : Option ℕ × Option ℕ) → read_cell k (write_cell k v f) ≡ some v
read-write_cell last_comm v f = refl
read-write_cell sim_apn v f = refl

cells-Keeps : Keeps cells
cells-Keeps = record { read-write = read-write_cell }

-- A module that is online or not.
abbrev link_module : CommType → Bool → CommModule ℕ
link_module t online = record {
  power_on = λ log s. (true, log, s);
  check_internet = λ ms log s. (online, log, s);
  power_off = λ log s. (log, s);
  type = t;
}

-- The SIM module is preferred and offline, so the other one is taken up.
abbrev before : Link cells (link_module sim4g false) (link_module dcom true)
before = record { active = none; flash = (none, none); log = new_log; hardware = 0 }

abbrev count : LogMsg → ℕ → ℕ
count msg n = ℕ.suc n

failover-prefers_example :
    let (ok, q) = enqueue_failover_request sim4g sync_send_fail (some none) in
    let (q', f', bus') =
      failover_turn cells count default_time (device_meta []) q (some 0, none) 0 in
    (ok ≡ true)
    × (q' ≡ some none)
    × (select_preferred cells (link_module sim4g false) (link_module dcom true) f'
        ≡ link_module dcom true)
failover-prefers_example =
    failover-prefers cells cells-Keeps (link_module sim4g false) (link_module dcom true) refl refl
      count default_time (device_meta []) 0 sim4g sync_send_fail none (some 0, none)
