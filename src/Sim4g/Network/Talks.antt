-- ===== src/Sim4g/Network/Talks.antt =====
-- The phases up to the data context end, and only talk.
use hydro_logger.Prelude.{
  ℕ, zero, suc, ◌+◌, ◌-◌, ◌*◌, ◌≡◌, ◌≤◌, ◌<◌, refl, ap, Bool, true, false, not, ◌&&◌, ◌||◌, Option,
  none, some, List, ◌++◌, ℤ, if◌then◌else◌, arith, ◌==◌, ltb, inl, inr, Bool-cases,
}
use hydro_logger.Prelude.Bytes.{codes}
use hydro_logger.Models.{c_str}
use hydro_logger.Nvs.{ApnProfile}
use hydro_logger.Sim4g.{
  Board, M, ◌>>=◌, return, now, delay, say, clamp_timeout, say_received, flush_sim,
}
use hydro_logger.Sim4g.Parse.{is_at_error, contains_text, MccMncEntry, match_mcc_mnc}
use hydro_logger.Sim4g.Rules.{Laws, Runs}
use hydro_logger.Sim4g.Talks.{
  Talks, talk_rules, return_talk, bind_talk, say_talk, same-Talks, say-return_talk, flush_talk,
  clamp_talk, say_received_talk,
}
use hydro_logger.Sim4g.Loops.{
  Loops, Loops-none, Loops-Runs, Loops-if, Loops-bind, Loops-bind_option, Loops-take, Loops-then,
  turn-Loops, deadline-Loops, timed_talk, delay-Takes,
}
use hydro_logger.Sim4g.At.{
  turns, answered, is_empty, read_line_sim, write_line_sim, send_at_expect, send_at_ok,
}
use hydro_logger.Sim4g.At.Ends.{
  at_rules, write_line_talk, send_at_ok_talk, send_at_expect_talk, read_line-Takes,
}
use hydro_logger.Sim4g.Carrier.{
  is_imsi, imsi_loop, found_carrier, carrier_by_imsi, carrier_of_operator, carrier_of_cops,
  saved_apn, detect_carrier,
}
use hydro_logger.Sim4g.Registration.{
  check_sim_ready, log_rssi, log_signal, registration_of, registration, register_timeout,
  register_loop, polls, wait_lte_registration,
}
use hydro_logger.Sim4g.DataContext.{
  configure_apn_phase, is_attached, attach_loop, activate_pdp, attach_and_activate_data,
  has_address, verify_data_ready, try_apn_connect,
}

module _ {b : Board} (laws : Laws b) where
  pub sim_ready_talk : (deadline : ℕ) → Runs (Talks laws) (check_sim_ready deadline)
  unfolding check_sim_ready
  sim_ready_talk deadline = search at_rules depth 12

  log_rssi_talk : (rssi : Option ℤ) → Runs (Talks laws) (log_rssi rssi)
  unfolding log_rssi
  log_rssi_talk none = return_talk laws tt
  log_rssi_talk (some rssi) = say_talk laws _

  log_signal_talk : Runs (Talks laws) log_signal
  unfolding log_signal
  log_signal_talk = search (at_rules, log_rssi_talk) depth 12

  registration_of_talk : (stat : Option ℤ) → Runs (Talks laws) (registration_of stat)
  unfolding registration_of
  registration_of_talk none = return_talk laws none
  registration_of_talk (some stat) = search (at_rules, log_signal_talk) depth 12

  registration_talk : (line : Option (List ℕ)) → Runs (Talks laws) (registration line)
  unfolding registration
  registration_talk none = return_talk laws none
  registration_talk (some line) = registration_of_talk _

  register_timeout_talk : Runs (Talks laws) register_timeout
  unfolding register_timeout
  register_timeout_talk = search talk_rules depth 12

  register-Loops :
      (fuel deadline : ℕ)
      → Loops laws fuel (deadline * b.calls_per_ms) (register_loop fuel deadline)
  unfolding register_loop
  register-Loops zero deadline = Loops-none laws _ _
  register-Loops (suc fuel) deadline =
      let limit = deadline * b.calls_per_ms in
      deadline-Loops laws fuel deadline _ register_timeout
        (Loops-bind laws fuel (limit - 1) (clamp_timeout deadline 3000) _
          (clamp_talk laws deadline 3000)
          (λ tmo.
            Loops-if laws fuel (limit - 1) (tmo == 0) _ _
              (Loops-Runs laws fuel (limit - 1) register_timeout register_timeout_talk)
              (Loops-bind laws fuel (limit - 1)
                (send_at_expect (codes "AT+CEREG?") (codes "+CEREG:") tmo) _
                (send_at_expect_talk laws _ _ tmo)
                (λ answer.
                  Loops-bind_option laws fuel (limit - 1) (registration answer) _
                    (registration_talk answer)
                    (Loops-take laws fuel limit (delay 2000) _ (delay-Takes laws 2000 (omega arith))
                      (λ _. register-Loops fuel deadline))
                    (λ ok. Loops-Runs laws fuel (limit - 1) (return ok) (return_talk laws ok))))))
        register_timeout_talk

  spare : (deadline t steps c : ℕ) → t * c ≤ steps → deadline * c - steps < suc ((deadline - t) * c)
  spare deadline t steps c h = elim (Bool-cases (ltb t deadline)) [
    | inl before ↦
        let e : deadline ≡ t + (deadline - t) = ground (arith, before) in
        let product : deadline * c ≡ (t + (deadline - t)) * c = ap (λ (n : ℕ). n * c) e in
        grind (arith, product, h)
    | inr after ↦
        let e : t ≡ deadline + (t - deadline) = ground (arith, after) in
        let product : t * c ≡ (deadline + (t - deadline)) * c = ap (λ (n : ℕ). n * c) e in
        grind (arith, product, h)
  ]

  -- The fuel that a deadline gives is enough.
  polls_talk :
      {A : Type 0} (deadline : ℕ) (f : ℕ → M b A)
      → ((fuel : ℕ) → Loops laws fuel (deadline * b.calls_per_ms) (f fuel))
      → Runs (Talks laws) (polls deadline >>= f)
  unfolding polls turns
  polls_talk deadline f loops = record {
    at = λ s.
        let fuel = turns b (deadline - b.now s.dev) in
        (loops fuel).at s
          (spare deadline (b.now s.dev) (laws.steps s.dev) b.calls_per_ms (laws.lower s.dev));
  }

  pub registration_talks : (deadline : ℕ) → Runs (Talks laws) (wait_lte_registration deadline)
  unfolding wait_lte_registration
  registration_talks deadline =
      bind_talk laws (say (codes "phase: LTE_REGISTER")) _ (say_talk laws _)
        (λ _. polls_talk deadline _ (λ fuel. register-Loops fuel deadline))

  configure_talk :
      (p : ApnProfile) (deadline : ℕ) → Runs (Talks laws) (configure_apn_phase p deadline)
  unfolding configure_apn_phase
  configure_talk p deadline = search at_rules depth 20

  attached_talk : (line : Option (List ℕ)) → Runs (Talks laws) (is_attached line)
  unfolding is_attached
  attached_talk none = return_talk laws false
  attached_talk (some line) = search talk_rules depth 12

  attach-Loops :
      (fuel deadline : ℕ) → Loops laws fuel (deadline * b.calls_per_ms) (attach_loop fuel deadline)
  unfolding attach_loop
  attach-Loops zero deadline = Loops-none laws _ _
  attach-Loops (suc fuel) deadline =
      let limit = deadline * b.calls_per_ms in
      deadline-Loops laws fuel deadline _ (return false)
        (Loops-bind laws fuel (limit - 1) (clamp_timeout deadline 2000) _
          (clamp_talk laws deadline 2000)
          (λ tmo.
            Loops-if laws fuel (limit - 1) (tmo == 0) _ _
              (Loops-Runs laws fuel (limit - 1) (return false) (return_talk laws false))
              (Loops-bind laws fuel (limit - 1)
                (send_at_expect (codes "AT+CGATT?") (codes "+CGATT:") tmo) _
                (send_at_expect_talk laws _ _ tmo)
                (λ answer.
                  Loops-bind laws fuel (limit - 1) (is_attached answer) _ (attached_talk answer)
                    (λ attached.
                      Loops-if laws fuel (limit - 1) attached _ _
                        (Loops-Runs laws fuel (limit - 1) (return true) (return_talk laws true))
                        (Loops-take laws fuel limit (delay 2000) _
                          (delay-Takes laws 2000 (omega arith))
                          (λ _. attach-Loops fuel deadline)))))))
        (return_talk laws false)

  activate_talk :
      (deadline : ℕ) (attached : Bool) → Runs (Talks laws) (activate_pdp deadline attached)
  unfolding activate_pdp
  activate_talk deadline attached = search at_rules depth 20

  attach_talk : (deadline : ℕ) → Runs (Talks laws) (attach_and_activate_data deadline)
  unfolding attach_and_activate_data
  attach_talk deadline = bind_talk laws (say (codes "phase: ATTACH+PDP")) _ (say_talk laws _) (λ _.
      bind_talk laws (clamp_timeout deadline 5000) _ (clamp_talk laws deadline 5000) (λ tmo.
        bind_talk laws (send_at_ok (codes "AT+CGATT=1") tmo) _ (send_at_ok_talk laws _ tmo) (λ _.
          polls_talk deadline _ (λ fuel.
            Loops-then laws fuel (deadline * b.calls_per_ms) (attach_loop fuel deadline) _
              (attach-Loops fuel deadline) (activate_talk deadline)))))

  address_talk : (line : Option (List ℕ)) → Runs (Talks laws) (has_address line)
  unfolding has_address
  address_talk none = return_talk laws true
  address_talk (some line) = search talk_rules depth 12

  verify_talk : (deadline : ℕ) → Runs (Talks laws) (verify_data_ready deadline)
  unfolding verify_data_ready
  verify_talk deadline = search (at_rules, address_talk) depth 20

  pub connect_talk :
      (p : ApnProfile) (deadline : ℕ) → Runs (Talks laws) (try_apn_connect p deadline)
  unfolding try_apn_connect
  connect_talk p deadline = search (talk_rules, configure_talk, attach_talk, verify_talk) depth 20

  imsi-Loops :
      (fuel start : ℕ) (found : Option (List ℕ))
      → Loops laws fuel ((start + 3000) * b.calls_per_ms) (imsi_loop fuel start found)
  unfolding imsi_loop
  imsi-Loops zero start found = Loops-none laws _ _
  imsi-Loops (suc fuel) start found =
      let limit = (start + 3000) * b.calls_per_ms in
      turn-Loops laws fuel start 3000 _ (return found)
        (Loops-take laws fuel limit (read_line_sim 300) _ (read_line-Takes laws 300 (omega arith))
          (λ line. Loops-if laws fuel limit (is_empty line) _ _ (imsi-Loops fuel start found) (
            let found' = if not (answered found) && is_imsi line then some line else found in
            Loops-bind laws fuel limit (say_received line) _ (say_received_talk laws line) (λ _.
              Loops-if laws fuel limit (contains_text (codes "OK") line || is_at_error line) _ _
                (Loops-Runs laws fuel limit (return found') (return_talk laws found'))
                (imsi-Loops fuel start found')))))
        (return_talk laws found)

  imsi_talk :
      (k : Option (List ℕ) → M b (Option ApnProfile))
      → Runs (Talks laws) (k none)
      → ((line : List ℕ) → Runs (Talks laws) (k (some line)))
      → Runs (Talks laws) (now >>= λ start. imsi_loop (turns b 3000) start none >>= k)
  unfolding turns
  imsi_talk k nothing found = timed_talk laws 3000 _ (λ start.
      Loops-then laws (suc (3000 * b.calls_per_ms)) ((start + 3000) * b.calls_per_ms)
        (imsi_loop (turns b 3000) start none) k
        (imsi-Loops (suc (3000 * b.calls_per_ms)) start none) (split nothing found))
    where
      split :
          Runs (Talks laws) (k none)
          → ((line : List ℕ) → Runs (Talks laws) (k (some line)))
          → (o : Option (List ℕ)) → Runs (Talks laws) (k o)
      split p q none = p
      split p q (some line) = q line

  found_talk :
      (method : List ℕ) (e : Option MccMncEntry) → Runs (Talks laws) (found_carrier method e)
  unfolding found_carrier
  found_talk method none = return_talk laws none
  found_talk method (some e) = search talk_rules depth 12

  operator_talk : (o : Option (List ℕ)) → Runs (Talks laws) (carrier_of_operator o)
  unfolding carrier_of_operator
  operator_talk none = return_talk laws none
  operator_talk (some t) = search (talk_rules, found_talk) depth 12

  cops_talk : (o : Option (List ℕ)) → Runs (Talks laws) (carrier_of_cops o)
  unfolding carrier_of_cops
  cops_talk none = return_talk laws none
  cops_talk (some t) = search (talk_rules, operator_talk) depth 12

  saved_talk : Runs (Talks laws) saved_apn
  unfolding saved_apn
  saved_talk = record { at = λ s. (_, refl, same-Talks laws s) }

  -- What is done with the line of the IMSI.
  after_imsi_talk :
      (line : List ℕ)
      → Runs (Talks laws) (
          say (codes "IMSI: " ++ c_str line) >>= λ _.
          found_carrier (codes "CIMI") (match_mcc_mnc line))
  after_imsi_talk line = search (talk_rules, found_talk) depth 12

  by_imsi_talk : Runs (Talks laws) carrier_by_imsi
  unfolding carrier_by_imsi
  by_imsi_talk = bind_talk laws flush_sim _ (flush_talk laws) (λ _.
      bind_talk laws (say (codes "AT>AT+CIMI")) _ (say_talk laws _) (λ _.
        bind_talk laws (write_line_sim (codes "AT+CIMI")) _ (write_line_talk laws _) (λ _.
          imsi_talk _ (say-return_talk laws (codes "CIMI: no IMSI returned") none)
            (λ line. after_imsi_talk line))))

  pub carrier_talk : Runs (Talks laws) detect_carrier
  unfolding detect_carrier
  carrier_talk = search (at_rules, saved_talk, by_imsi_talk, cops_talk) depth 20
