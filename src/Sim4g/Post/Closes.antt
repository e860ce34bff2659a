-- ===== src/Sim4g/Post/Closes.antt =====
-- `sendPayload` ends, with the session closed.
use hydro_logger.Prelude.{
  [], ℕ, zero, suc, ◌+◌, ◌*◌, refl, true, false, not, ◌||◌, Option, none, some, List, ◌++◌,
  if◌then◌else◌, arith,
}
use hydro_logger.Prelude.Bytes.{codes}
use hydro_logger.Models.{c_str}
use hydro_logger.Sim4g.{Board, return, call, say, say_received, dec}
use hydro_logger.Sim4g.Parse.{contains_text, is_at_error, HttpActionResult, is_2xx}
use hydro_logger.Sim4g.Rules.{Laws, Runs, Runs-if}
use hydro_logger.Sim4g.Talks.{
  Talks, talk_rules, return_talk, say_talk, say-return_talk, say_received_talk, write_talk,
}
use hydro_logger.Sim4g.Loops.{
  Loops, Loops-none, Loops-Runs, Loops-if, Loops-bind, Loops-take, Loops-then, turn-Loops,
  timed_talk,
}
use hydro_logger.Sim4g.Ensures.{Ensures}
use hydro_logger.Sim4g.At.{
  turns, answered, is_empty, read_line_sim, wait_for_token, send_at_expect, send_at_ok,
}
use hydro_logger.Sim4g.At.Ends.{
  at_rules, wait_talk, send_at_ok_talk, send_at_expect_talk, read_line-Takes,
}
use hydro_logger.Sim4g.Post.{
  append_line, wrote, response_loop, log_response, collect_response, post_answer, post_action,
  post_open, post_body, send_payload,
}
use hydro_logger.Sim4g.Http.{http_term_safe, http_action, url_command}
use hydro_logger.Sim4g.Http.Session.{
  Closes, Closes-bind, Closes-then, Closes-if, term-Closes, abandon-Closes, action_talk,
}
use hydro_logger.Sim4g.Http.Served.{Ended, Ended-opened, Served, guarded}

module _ {b : Board} (laws : Laws b) where
  response-Loops :
      (fuel t0 : ℕ) (body : List ℕ)
      → Loops laws fuel ((t0 + 5000) * b.calls_per_ms) (response_loop fuel t0 body)
  unfolding response_loop
  response-Loops zero t0 body = Loops-none laws _ _
  response-Loops (suc fuel) t0 body =
      let limit = (t0 + 5000) * b.calls_per_ms in
      turn-Loops laws fuel t0 5000 _ (return body)
        (Loops-take laws fuel limit (read_line_sim 500) _ (read_line-Takes laws 500 (omega arith))
          (λ line. Loops-if laws fuel limit (is_empty line) _ _ (response-Loops fuel t0 body) (
            Loops-bind laws fuel limit (say_received line) _ (say_received_talk laws line) (λ _.
              Loops-if laws fuel limit (contains_text (codes "OK") line || is_at_error line) _ _
                (Loops-Runs laws fuel limit (return body) (return_talk laws body))
                (response-Loops fuel t0 (append_line body line))))))
        (return_talk laws body)

  show_talk :
      (body : List ℕ)
      → Runs
          (Talks laws)
          (if is_empty body then return tt else say (codes "POST response: " ++ c_str body))
  show_talk body = search talk_rules depth 12

  collect_talk : Runs (Talks laws) collect_response
  unfolding collect_response turns
  collect_talk = timed_talk laws 5000 _ (λ t0.
      let limit = (t0 + 5000) * b.calls_per_ms in
      Loops-then laws (suc (5000 * b.calls_per_ms)) limit (response_loop (turns b 5000) t0 []) _
        (response-Loops (suc (5000 * b.calls_per_ms)) t0 []) show_talk)

  log_response_talk : (result : HttpActionResult) → Runs (Talks laws) (log_response result)
  unfolding log_response
  log_response_talk result = search (at_rules, collect_talk) depth 20

  post_answer-Closes :
      (action : Option HttpActionResult) → Ensures (Closes laws) (post_answer action)
  unfolding post_answer
  post_answer-Closes none = abandon-Closes laws _
  post_answer-Closes (some result) = Closes-bind laws (say _) _ (say_talk laws _) (λ _.
      Closes-bind laws (log_response result) _ (log_response_talk result) (λ _.
        Closes-then laws http_term_safe _ (term-Closes laws) (λ _.
          Runs-if (not (is_2xx result.status)) _ _
            (say-return_talk laws (codes "HTTP POST FAIL: status " ++ dec result.status) false)
            (return_talk laws true))))

  post_action-Closes : Ensures (Closes laws) post_action
  unfolding post_action
  post_action-Closes = Closes-bind laws (http_action _ _) _ (action_talk laws _ _) (λ answer.
      Closes-if laws (not answer.0) _ _ (abandon-Closes laws _) (post_answer-Closes answer.1))

  post_body-Closes : (json : List ℕ) → Ensures (Closes laws) (post_body json)
  unfolding post_body
  post_body-Closes json =
      Closes-bind laws (send_at_expect _ _ 10000) _ (send_at_expect_talk laws _ _ 10000) (λ answer.
        Closes-if laws (not (answered answer)) _ _ (abandon-Closes laws _) (
          Closes-bind laws (say _) _ (say_talk laws _) (λ _.
            Closes-bind laws (call (b.write json)) _ (write_talk laws json) (λ n.
              Closes-if laws (not (wrote json n)) _ _ (abandon-Closes laws _) (
                Closes-bind laws (wait_for_token _ 10000) _ (wait_talk laws _ 10000) (λ ok.
                  Closes-if laws (not (answered ok)) _ _ (abandon-Closes laws _)
                    post_action-Closes))))))

  post_open-Ended : (url json : List ℕ) → Ensures (Ended laws) (post_open url json)
  unfolding post_open
  post_open-Ended url json = Ended-opened laws (codes "POST") false _ (
      Closes-bind laws (send_at_ok (url_command url) 2000) _ (send_at_ok_talk laws _ 2000)
        (λ url_set. Closes-if laws (not url_set) _ _ (abandon-Closes laws _) (
          Closes-bind laws (send_at_ok _ 1000) _ (send_at_ok_talk laws _ 1000) (λ type_set.
            Closes-if laws (not type_set) _ _ (abandon-Closes laws _) (post_body-Closes json)))))

  -- On a board that meets `Laws`, whatever the modem does, `sendPayload` ends within its fuel and
  -- leaves no session of an active module open, on every path, errors included: its flag is down, and
  -- either `httpInitAndSetBearer` answered false and the call ended there, or it answered true and
  -- AT+HTTPTERM was written to the UART after that; a session that was open before the call was
  -- terminated likewise. A module that is not active answers false. The access point, the preferences, the firmware image and the
  -- choice of what to boot are as they were.
  pub send_payload-Served : (url json : List ℕ) → Ensures (Served laws) (send_payload url json)
  unfolding send_payload
  send_payload-Served url json =
      guarded laws _ (codes "HTTP POST FAIL: module inactive") (λ ok. ok) false (post_open url json)
        refl (post_open-Ended url json)
