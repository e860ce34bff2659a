-- ===== src/Sim4g/Power.antt =====
-- Phases 1 and 2 of sim4g_module.cpp: power, the AT handshake and the LTE mode; and `powerOff`.
pub mod Active
pub mod Ready
use hydro_logger.Prelude.{
  ℕ, zero, suc, ◌-◌, Bool, true, false, not, none, some, List, [], ◌∷◌, ◌++◌, ltb, if◌then◌else◌,
  pos,
}
use hydro_logger.Prelude.Bytes.{codes}
use hydro_logger.Sim4g.{
  Board, Modem, M, ◌>>=◌, ◌>>◌, return, call, now, delay, set_sim_power, set_active,
  set_http_inited, get, say, dec,
}
use hydro_logger.Sim4g.At.{turns, send_at_ok}

-- The constants of main/common/config.hpp.
abbrev pub power_edge_delay_ms : ℕ
power_edge_delay_ms = 100

abbrev pub boot_delay_ms : ℕ
boot_delay_ms = 5000

abbrev pub at_handshake_timeout_ms : ℕ
at_handshake_timeout_ms = 12000

abbrev pub at_retry_delay_ms : ℕ
at_retry_delay_ms = 500

module _ {b : Board} where
  unfoldable pub power_on_hardware : M b (Unit {0})
  power_on_hardware = do
    say (codes "power seq LOW->HIGH")
    set_sim_power false
    delay power_edge_delay_ms
    set_sim_power true
    say (codes "wait boot " ++ (dec (pos boot_delay_ms) ++ codes "ms"))
    delay boot_delay_ms

  -- The UART is initialised once.
  unfoldable pub init_uart_once : M b Bool
  init_uart_once s =
      let (ok, d) = b.init_uart s.dev in
      some (if s.uart_inited then (true, s) else (ok, record s { uart_inited = ok; dev = d }))

  unfoldable pub handshake : ℕ → ℕ → ℕ → M b Bool
  handshake zero start timeout_ms = λ s. none
  handshake (suc fuel) start timeout_ms = do
    t ← now
    (if ltb (t - start) timeout_ms
        then (do
          ok ← send_at_ok (codes "AT") 1000
          (if ok
              then (do say (codes "AT ready"); return true)
              else (do delay at_retry_delay_ms; handshake fuel start timeout_ms)))
        else (do say (codes "AT handshake FAIL"); return false))

  unfoldable pub wait_for_at_ready : ℕ → M b Bool
  wait_for_at_ready timeout_ms = do
    inited ← init_uart_once
    (if not inited then (do say (codes "uart init FAIL"); return false) else (do
      say (codes "AT handshake start")
      start ← now
      handshake (turns b timeout_ms) start timeout_ms))

  -- The answer of `configureLteMode` is always true and not looked at.
  unfoldable pub configure_lte_mode : M b (Unit {0})
  configure_lte_mode = do
    say (codes "configure LTE mode")
    _ ← send_at_ok (codes "ATE0") 1000
    _ ← send_at_ok (codes "AT+CMEE=2") 1000
    lte ← send_at_ok (codes "AT+CNMP=38") 3000
    (if lte then say (codes "LTE-only mode OK") else say (codes "CNMP not supported, default mode"))

  unfoldable pub power_on : M b Bool
  power_on = do
    power_on_hardware
    ready ← wait_for_at_ready at_handshake_timeout_ms
    (if not ready
        then (do set_sim_power false; set_active false; return false)
        else (do configure_lte_mode; set_active true; return true))

  unfoldable pub power_off : M b (Unit {0})
  power_off = do
    say (codes "power idle LOW")
    set_sim_power false
    set_active false
    set_http_inited false
