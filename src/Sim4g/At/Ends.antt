-- ===== src/Sim4g/At/Ends.antt =====
-- The AT exchange ends, and only talks.
use hydro_logger.Prelude.{
  ℕ, zero, suc, ◌+◌, ◌-◌, ◌*◌, ◌≡◌, ◌≤◌, ◌<◌, ap, ◌∙◌, true, none, some, List, [], ◌∷◌, ◌++◌,
  if◌then◌else◌, arith, ltb,
}
use hydro_logger.Prelude.Bytes.{codes}
use hydro_logger.Models.{c_str}
use hydro_logger.Sim4g.{Board, ◌>>=◌, return, and_then, call, now, say_received}
use hydro_logger.Sim4g.Parse.{is_at_error, contains_text}
use hydro_logger.Sim4g.Rules.{Laws, Runs}
use hydro_logger.Sim4g.Talks.{
  Talks, Talks-composes, talk_rules, return_talk, bind_talk, option_talk, say_talk, say-return_talk,
  say_received_talk, flush_talk, write_talk,
}
use hydro_logger.Sim4g.Loops.{
  Loops, Takes, Loops-none, Loops-Runs, Loops-if, Loops-bind, Loops-take, turn-Loops, timed_talk,
  read-Takes,
}
use hydro_logger.Sim4g.At.{
  turns, is_empty, read_for, read_line_sim, write_line_sim, wait_loop, wait_for_token,
  send_at_expect, send_at_ok,
}

module _ {b : Board} (laws : Laws b) where
  read_for-Loops :
      (fuel start timeout : ℕ) (line : List ℕ)
      → Loops laws fuel ((start + timeout) * b.calls_per_ms) (read_for fuel start timeout line)
  unfolding read_for
  read_for-Loops zero start timeout line = Loops-none laws _ _
  read_for-Loops (suc fuel) start timeout line =
      turn-Loops laws fuel start timeout _ (return line)
        (Loops-take laws fuel _ (call (b.read 1 50)) _ (read-Takes laws 1 50 (omega arith))
          (λ bytes. read_for-Loops fuel start timeout (line ++ bytes)))
        (return_talk laws line)

  -- What is left of a period after a step of it.
  left :
      (start before after timeout : ℕ)
      → start * b.calls_per_ms ≤ before
      → before < after
      → 1 ≤ timeout * b.calls_per_ms
      → (start + timeout) * b.calls_per_ms - after < timeout * b.calls_per_ms
  left start before after timeout h k m = grind arith

  -- `readLineSim` reads at least once.
  pub read_line-Takes : (timeout : ℕ) → 1 ≤ timeout → Takes laws (read_line_sim timeout)
  unfolding read_line_sim now turns read_for
  read_line-Takes timeout h = record {
    at = λ s.
        let first = (read-Takes laws 1 50 (omega arith)).at s in
        let more : ltb (b.now s.dev - b.now s.dev) timeout ≡ true = ground (arith, h) in
        let (r, e, q, longer) = first in
        let (u, g, q') =
          (read_for-Loops (timeout * b.calls_per_ms) (b.now s.dev) timeout r.0).at r.1 (
            left (b.now s.dev) (laws.steps s.dev) (laws.steps r.1.dev) timeout (laws.lower s.dev)
              longer (grind (arith, laws.upper s.dev, h))) in
        (
          u,
          (λ i.
                (if more i
                    then (call (b.read 1 50) >>= λ bytes.
                        read_for (timeout * b.calls_per_ms) (b.now s.dev) timeout ([] ++ bytes))
                    else return [])
                  s)
              ∙ ap
                  (and_then (λ bytes.
                    read_for (timeout * b.calls_per_ms) (b.now s.dev) timeout ([] ++ bytes)))
                  e
              ∙ g,
          (Talks-composes laws).then_ s r.1 u.1 q q',
          omega (arith, longer, q'.forward),
        );
  }

  pub write_line_talk : (line : List ℕ) → Runs (Talks laws) (write_line_sim line)
  unfolding write_line_sim
  write_line_talk line = bind_talk laws (call (b.write line)) _ (write_talk laws line) (λ _.
      bind_talk laws (call (b.write (13 ∷ []))) _ (write_talk laws (13 ∷ []))
        (λ _. return_talk laws true))

  wait-Loops :
      (fuel start : ℕ) (expect : List ℕ) (timeout : ℕ)
      → Loops laws fuel ((start + timeout) * b.calls_per_ms) (wait_loop fuel start expect timeout)
  unfolding wait_loop
  wait-Loops zero start expect timeout = Loops-none laws _ _
  wait-Loops (suc fuel) start expect timeout =
      turn-Loops laws fuel start timeout _ _
        (Loops-take laws fuel _ (read_line_sim 200) _ (read_line-Takes 200 (omega arith)) (λ line.
          Loops-if laws fuel _ (is_empty line) _ _ (wait-Loops fuel start expect timeout) (
            Loops-bind laws fuel _ (say_received line) _ (say_received_talk laws line) (λ _.
              Loops-if laws fuel _ (contains_text expect line) _ _
                (Loops-Runs laws fuel _ _ (return_talk laws (some line)))
                (Loops-if laws fuel _ (is_at_error line) _ _
                  (Loops-Runs laws fuel _ _
                    (say-return_talk laws (codes "AT ERROR: " ++ c_str line) none))
                  (wait-Loops fuel start expect timeout))))))
        (say-return_talk laws (codes "timeout waiting " ++ expect) none)

  pub wait_talk :
      (expect : List ℕ) (timeout : ℕ) → Runs (Talks laws) (wait_for_token expect timeout)
  unfolding wait_for_token turns
  wait_talk expect timeout =
      timed_talk laws timeout _
        (λ start. wait-Loops (suc (timeout * b.calls_per_ms)) start expect timeout)

  pub send_at_expect_talk :
      (cmd expect : List ℕ) (timeout : ℕ) → Runs (Talks laws) (send_at_expect cmd expect timeout)
  unfolding send_at_expect
  send_at_expect_talk cmd expect timeout = search (talk_rules, write_line_talk, wait_talk) depth 12

  pub send_at_ok_talk : (cmd : List ℕ) (timeout : ℕ) → Runs (Talks laws) (send_at_ok cmd timeout)
  unfolding send_at_ok
  send_at_ok_talk cmd timeout = search (talk_rules, send_at_expect_talk)

pub ruleset at_rules =
    (talk_rules, write_line_talk, wait_talk, send_at_expect_talk, send_at_ok_talk)
