-- ===== src/Sim4g/Power/Ready.antt =====
-- The AT handshake and the LTE mode end, and only talk.
use hydro_logger.Prelude.{
  ℕ, zero, suc, ◌+◌, ◌-◌, ◌*◌, refl, true, false, not, arith, inl, inr, Bool-cases,
}
use hydro_logger.Prelude.Bytes.{codes}
use hydro_logger.Sim4g.{Board, delay, say}
use hydro_logger.Sim4g.Rules.{Laws, Runs, Runs-if}
use hydro_logger.Sim4g.Talks.{Talks, quiet_Talks, same-Talks, bind_talk, say_talk, say-return_talk}
use hydro_logger.Sim4g.Loops.{
  Loops, Loops-none, Loops-Runs, Loops-if, Loops-bind, Loops-take, turn-Loops, timed_talk,
  delay-Takes,
}
use hydro_logger.Sim4g.At.{turns, send_at_ok}
use hydro_logger.Sim4g.At.Ends.{at_rules, send_at_ok_talk}
use hydro_logger.Sim4g.Power.{init_uart_once, handshake, wait_for_at_ready, configure_lte_mode}

module _ {b : Board} (laws : Laws b) where
  init_once_talk : Runs (Talks laws) init_uart_once
  unfolding init_uart_once
  init_once_talk = record {
    at = λ s. elim (Bool-cases s.uart_inited) [
      | inl e ↦ ((true, s), ground (arith, e), same-Talks laws s)
      | inr e ↦
          let q =
            quiet_Talks laws s (b.init_uart s.dev).1 (laws.init_same s.dev) (laws.init_pins s.dev)
              (laws.init_steps s.dev) in
          (
            (
              (b.init_uart s.dev).0,
              record s { uart_inited = (b.init_uart s.dev).0; dev = (b.init_uart s.dev).1 },
            ),
            ground (arith, e),
            record {
              active = refl;
              http_inited = refl;
              active_apn = refl;
              flash = refl;
              image = q.image;
              boot = q.boot;
              powered = q.powered;
              writes = q.writes;
              forward = q.forward;
            },
          )
    ];
  }

  handshake-Loops :
      (fuel start timeout : ℕ)
      → Loops laws fuel ((start + timeout) * b.calls_per_ms) (handshake fuel start timeout)
  unfolding handshake
  handshake-Loops zero start timeout = Loops-none laws _ _
  handshake-Loops (suc fuel) start timeout =
      let limit = (start + timeout) * b.calls_per_ms in
      turn-Loops laws fuel start timeout _ _
        (Loops-bind laws fuel (limit - 1) (send_at_ok (codes "AT") 1000) _
          (send_at_ok_talk laws (codes "AT") 1000)
          (λ ok.
            Loops-if laws fuel (limit - 1) ok _ _
              (Loops-Runs laws fuel _ _ (say-return_talk laws (codes "AT ready") true))
              (Loops-take laws fuel limit (delay 500) _ (delay-Takes laws 500 (omega arith))
                (λ _. handshake-Loops fuel start timeout))))
        (say-return_talk laws (codes "AT handshake FAIL") false)

  pub ready_talk : (timeout : ℕ) → Runs (Talks laws) (wait_for_at_ready timeout)
  unfolding wait_for_at_ready turns
  ready_talk timeout = bind_talk laws init_uart_once _ init_once_talk (λ inited.
      Runs-if (not inited) _ _ (say-return_talk laws (codes "uart init FAIL") false) (
        bind_talk laws (say (codes "AT handshake start")) _ (say_talk laws _) (λ _.
          timed_talk laws timeout _
            (λ start. handshake-Loops (suc (timeout * b.calls_per_ms)) start timeout))))

  pub lte_talk : Runs (Talks laws) configure_lte_mode
  unfolding configure_lte_mode
  lte_talk = search at_rules depth 12
