-- ===== src/Sim4g/DataContext.antt =====
-- Phases 3c to 3e of sim4g_module.cpp: the access point, the attach and the data context.
use hydro_logger.Prelude.{
  ℕ, zero, suc, Bool, true, false, not, Option, none, some, List, ◌++◌, take, ltb, ◌==◌,
  if◌then◌else◌,
}
use hydro_logger.Prelude.Bytes.{codes}
use hydro_logger.Models.{c_str}
use hydro_logger.Nvs.{ApnProfile}
use hydro_logger.Sim4g.{Board, M, ◌>>=◌, ◌>>◌, return, delay, say, ms_remaining, clamp_timeout}
use hydro_logger.Sim4g.Parse.{contains_text}
use hydro_logger.Sim4g.At.{answered, send_at_expect, send_at_ok}
use hydro_logger.Sim4g.Registration.{reg_poll_interval_ms, polls}
use hydro_logger.Sim4g.Carrier.{apn_name, apn_string}

module _ {b : Board} where
  -- Phase 3c; the command is cut to 95 characters.
  unfoldable pub configure_apn_phase : ApnProfile → ℕ → M b Bool
  configure_apn_phase profile deadline = do
    say (codes "phase: APN_CONFIG (" ++ (apn_name profile ++ codes ")"))
    tmo ← clamp_timeout deadline 3000
    ok ←
        send_at_ok (take 95 (codes "AT+CGDCONT=1,\"IP\",\"" ++ (apn_string profile ++ codes "\"")))
          tmo
    (if not ok then (do say (codes "FAIL at phase APN_CONFIG: CGDCONT"); return false) else (do
      tmo2 ← clamp_timeout deadline 2000
      ok2 ← send_at_ok (codes "AT+CGAUTH=1,0") tmo2
      (if not ok2
          then (do say (codes "FAIL at phase APN_CONFIG: CGAUTH"); return false)
          else return true)))

  unfoldable pub is_attached : Option (List ℕ) → M b Bool
  is_attached none = return false
  is_attached (some line) =
      if contains_text (codes "+CGATT: 1") line
      then return true
      else (do say (codes "CGATT: not yet, polling ..."); return false)

  -- Phase 3d, the loop.
  unfoldable pub attach_loop : ℕ → ℕ → M b Bool
  attach_loop zero deadline = λ s. none
  attach_loop (suc fuel) deadline = do
    remaining ← ms_remaining deadline
    (if ltb 0 remaining
        then (do
          tmo ← clamp_timeout deadline 2000
          (if tmo == 0 then return false else (do
            answer ← send_at_expect (codes "AT+CGATT?") (codes "+CGATT:") tmo
            attached ← is_attached answer
            (if attached
                then return true
                else (do delay reg_poll_interval_ms; attach_loop fuel deadline)))))
        else return false)

  -- The activation, if the attach succeeded.
  unfoldable pub activate_pdp : ℕ → Bool → M b Bool
  activate_pdp deadline attached =
      if not attached then (do say (codes "FAIL at phase ATTACH: timeout"); return false) else (do
        say (codes "PS attached OK")
        tmo ← clamp_timeout deadline 5000
        ok ← send_at_ok (codes "AT+CGACT=1,1") tmo
        (if not ok
            then (do say (codes "FAIL at phase PDP_ACTIVATE"); return false)
            else (do say (codes "PDP activated OK"); return true)))

  unfoldable pub attach_and_activate_data : ℕ → M b Bool
  attach_and_activate_data deadline = do
    say (codes "phase: ATTACH+PDP")
    tmo ← clamp_timeout deadline 5000
    _ ← send_at_ok (codes "AT+CGATT=1") tmo
    fuel ← polls deadline
    attached ← attach_loop fuel deadline
    activate_pdp deadline attached

  -- An address of 0.0.0.0 is none; no answer is taken for one.
  unfoldable pub has_address : Option (List ℕ) → M b Bool
  has_address none = return true
  has_address (some line) =
      if contains_text (codes "0.0.0.0") line
      then (do say (codes "FAIL at phase VERIFY_DATA: no IP"); return false)
      else (do say (codes "IP: " ++ c_str line); return true)

  -- Phase 3e.
  unfoldable pub verify_data_ready : ℕ → M b Bool
  verify_data_ready deadline = do
    say (codes "phase: VERIFY_DATA")
    tmo ← clamp_timeout deadline 3000
    (if tmo == 0 then return false else (do
      answer ← send_at_expect (codes "AT+CGACT?") (codes "+CGACT: 1,1") tmo
      (if not (answered answer)
          then (do say (codes "FAIL at phase VERIFY_DATA: CGACT"); return false)
          else (do
            tmo2 ← clamp_timeout deadline 3000
            address ← send_at_expect (codes "AT+CGPADDR=1") (codes "+CGPADDR:") tmo2
            has_address address))))

  unfoldable pub try_apn_connect : ApnProfile → ℕ → M b Bool
  try_apn_connect profile deadline = do
    remaining ← ms_remaining deadline
    (if remaining == 0 then return false else (do
      configured ← configure_apn_phase profile deadline
      (if not configured then return false else (do
        attached ← attach_and_activate_data deadline
        (if not attached then return false else verify_data_ready deadline)))))
