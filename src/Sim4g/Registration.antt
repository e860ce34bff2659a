-- ===== src/Sim4g/Registration.antt =====
-- Phases 3a and 3b of sim4g_module.cpp: the SIM card and the registration with the network.
use hydro_logger.Prelude.{
  ℕ, zero, suc, ◌+◌, ◌-◌, ◌*◌, ℤ, pos, Bool, true, false, not, ◌||◌, Option, none, some, List, ◌++◌,
  ltb, ◌==◌, if◌then◌else◌,
}
use hydro_logger.Prelude.Int.{sub_ℕ, pos_part, neg_part}
use hydro_logger.Prelude.Bytes.{codes}
use hydro_logger.Sim4g.{Board, M, ◌>>=◌, ◌>>◌, return, delay, say, dec, ms_remaining, clamp_timeout}
use hydro_logger.Sim4g.Parse.{parse_cereg_stat, reg_stat_str, parse_csq_rssi, is_int}
use hydro_logger.Sim4g.At.{turns, answered, send_at_expect}

abbrev pub reg_poll_interval_ms : ℕ
reg_poll_interval_ms = 2000

-- `-113 + rssi * 2`, or 0 for the unknown 99.
abbrev pub dbm : ℤ → ℤ
dbm rssi = if is_int rssi 99 then pos 0 else sub_ℕ (pos_part rssi * 2) (neg_part rssi * 2 + 113)

module _ {b : Board} where
  -- Phase 3a.
  unfoldable pub check_sim_ready : ℕ → M b Bool
  check_sim_ready deadline = do
    say (codes "phase: SIM_READY")
    tmo ← clamp_timeout deadline 5000
    (if tmo == 0 then return false else (do
      answer ← send_at_expect (codes "AT+CPIN?") (codes "READY") tmo
      (if not (answered answer)
          then (do say (codes "FAIL at phase SIM_READY"); return false)
          else return true)))

  unfoldable pub log_rssi : Option ℤ → M b (Unit {0})
  log_rssi none = return tt
  log_rssi (some rssi) =
      say (codes "signal rssi=" ++ (dec rssi ++ (codes " (" ++ (dec (dbm rssi) ++ codes "dBm)"))))

  -- The signal quality is only logged.
  unfoldable pub log_signal : M b (Unit {0})
  log_signal = do
    answer ← send_at_expect (codes "AT+CSQ") (codes "+CSQ:") 2000
    elim answer [ none ↦ return tt | some line ↦ log_rssi (parse_csq_rssi line) ]

  -- What a registration status means: registered, denied, or to be polled again.
  unfoldable pub registration_of : Option ℤ → M b (Option Bool)
  registration_of none = return none
  registration_of (some stat) = do
    say (codes "CEREG stat=" ++ (dec stat ++ (codes " (" ++ (reg_stat_str stat ++ codes ")"))))
    (if is_int stat 1 || is_int stat 5
        then (do log_signal; return (some true))
        else if is_int stat 3
        then (do say (codes "FAIL at phase LTE_REGISTER: denied"); return (some false))
        else return none)

  unfoldable pub registration : Option (List ℕ) → M b (Option Bool)
  registration none = return none
  registration (some line) = registration_of (parse_cereg_stat line)

  unfoldable pub register_timeout : M b Bool
  register_timeout = do say (codes "FAIL at phase LTE_REGISTER: timeout"); return false

  -- Phase 3b, the loop. A clamped timeout is zero only after the deadline.
  unfoldable pub register_loop : ℕ → ℕ → M b Bool
  register_loop zero deadline = λ s. none
  register_loop (suc fuel) deadline = do
    remaining ← ms_remaining deadline
    (if ltb 0 remaining
        then (do
          tmo ← clamp_timeout deadline 3000
          (if tmo == 0 then register_timeout else (do
            answer ← send_at_expect (codes "AT+CEREG?") (codes "+CEREG:") tmo
            stat ← registration answer
            elim stat [
              | some ok ↦ return ok
              | none ↦ (do delay reg_poll_interval_ms; register_loop fuel deadline)
            ])))
        else register_timeout)

  -- The polling loops run to a deadline that the fuel is taken from.
  unfoldable pub polls : ℕ → M b ℕ
  polls deadline s = some (turns b (deadline - b.now s.dev), s)

  unfoldable pub wait_lte_registration : ℕ → M b Bool
  wait_lte_registration deadline = do
    say (codes "phase: LTE_REGISTER")
    fuel ← polls deadline
    register_loop fuel deadline
