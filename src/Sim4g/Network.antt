-- ===== src/Sim4g/Network.antt =====
-- `checkInternet` of sim4g_module.cpp: phase 3, within one deadline.
pub mod Talks
pub mod Remembers
use hydro_logger.Prelude.{ℕ, ◌+◌, pos, Bool, true, false, not, List, ◌++◌, ltb, if◌then◌else◌}
use Prim.Native.Nat.{min}
use hydro_logger.Prelude.Bytes.{codes}
use hydro_logger.Nvs.{ApnProfile, set_last_sim_apn}
use hydro_logger.Sim4g.{
  Board, M, ◌>>=◌, ◌>>◌, return, now, get, say, dec, ms_remaining, clamp_timeout,
}
use hydro_logger.Sim4g.At.{send_at_ok}
use hydro_logger.Sim4g.Registration.{check_sim_ready, wait_lte_registration}
use hydro_logger.Sim4g.Carrier.{other_apn, detect_carrier, apn_name}
use hydro_logger.Sim4g.DataContext.{try_apn_connect}

abbrev pub network_timeout_ms : ℕ
network_timeout_ms = 40000

abbrev pub fallback_text : ApnProfile → List ℕ
fallback_text p =
    codes "APN " ++ (apn_name p ++ (codes " FAIL -> fallback " ++ apn_name (other_apn p)))

module _ {b : Board} where
  -- The access point that connected is the active one and the saved one.
  unfoldable pub use_apn : ApnProfile → M b Bool
  use_apn p s =
      (do say (codes "network ready APN=" ++ apn_name p); return true)
        (record s { active_apn = p; flash = set_last_sim_apn b.nvs p s.flash })

  unfoldable pub fail_both : M b Bool
  fail_both = do say (codes "checkInternet FAIL: both APNs failed"); return false

  -- The second access point, with `left` milliseconds left.
  unfoldable pub second_apn : ApnProfile → ℕ → ℕ → M b Bool
  second_apn second deadline left =
      if ltb 0 left
      then (do ok ← try_apn_connect second deadline; (if ok then use_apn second else fail_both))
      else fail_both

  -- The access points in order.
  unfoldable pub connect_apns : ℕ → M b Bool
  connect_apns deadline = do
    first ← detect_carrier
    ok ← try_apn_connect first deadline
    (if ok then use_apn first else (do
      say (fallback_text first)
      tmo ← clamp_timeout deadline 2000
      _ ← send_at_ok (codes "AT+CGACT=0,1") tmo
      left ← ms_remaining deadline
      second_apn (other_apn first) deadline left))

  -- The phases of an active module.
  unfoldable pub network_phases : ℕ → M b Bool
  network_phases deadline = do
    ready ← check_sim_ready deadline
    (if not ready then return false else (do
      registered ← wait_lte_registration deadline
      (if not registered then return false else connect_apns deadline)))

  unfoldable pub check_internet : ℕ → M b Bool
  check_internet timeout_ms = do
    t ← now
    let budget = min timeout_ms network_timeout_ms
    say (codes "checkInternet budget=" ++ (dec (pos budget) ++ codes "ms"))
    active ← get (λ s. s.active)
    (if not active
        then (do say (codes "module not active"); return false)
        else network_phases (t + budget))
