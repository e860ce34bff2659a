-- ===== src/Sim4g/Get/Closes.antt =====
-- `httpGet` ends, with the session closed.
use hydro_logger.Prelude.{
  [], ℕ, zero, suc, ◌+◌, ◌*◌, refl, true, false, not, ◌&&◌, ◌||◌, Option, none, some, List, ◌++◌,
  arith, pos,
}
use hydro_logger.Prelude.Int.{leb_ℤ}
use hydro_logger.Prelude.Bytes.{codes}
use hydro_logger.Models.{c_str}
use hydro_logger.Sim4g.{Board, return, flush_sim, say, say_received}
use hydro_logger.Sim4g.Parse.{contains_text, is_at_error, HttpActionResult, is_2xx, http_body}
use hydro_logger.Sim4g.Rules.{Laws, Runs, Runs-if}
use hydro_logger.Sim4g.Talks.{
  Talks, return_talk, say_talk, say-return_talk, say_received_talk, flush_talk,
}
use hydro_logger.Sim4g.Loops.{
  Loops, Loops-none, Loops-Runs, Loops-if, Loops-bind, Loops-take, turn-Loops, timed_talk,
}
use hydro_logger.Sim4g.Ensures.{Ensures}
use hydro_logger.Sim4g.At.{turns, is_empty, read_line_sim, write_line_sim, send_at_ok}
use hydro_logger.Sim4g.At.Ends.{write_line_talk, send_at_ok_talk, read_line-Takes}
use hydro_logger.Sim4g.Http.{http_term_safe, abandon, http_action, url_command}
use hydro_logger.Sim4g.Get.{
  raw_loop, collect_raw, get_body, get_action, http_get, abandon_get, get_result, get_answer,
  get_open,
}
use hydro_logger.Sim4g.Http.Session.{
  Closes, Closes-bind, Closes-then, Closes-if, term-Closes, abandon-Closes, action_talk,
}
use hydro_logger.Sim4g.Http.Served.{Ended, Ended-opened, Served, guarded}

module _ {b : Board} (laws : Laws b) where
  abandon_get-Closes : (response text : List ℕ) → Ensures (Closes laws) (abandon_get response text)
  unfolding abandon_get
  abandon_get-Closes response text =
      Closes-then laws (abandon text) _ (abandon-Closes laws text)
        (λ ok. return_talk laws (ok, response))

  raw-Loops :
      (fuel t0 : ℕ) (raw : List ℕ)
      → Loops laws fuel ((t0 + 5000) * b.calls_per_ms) (raw_loop fuel t0 raw)
  unfolding raw_loop
  raw-Loops zero t0 raw = Loops-none laws _ _
  raw-Loops (suc fuel) t0 raw =
      let limit = (t0 + 5000) * b.calls_per_ms in
      turn-Loops laws fuel t0 5000 _ (return raw)
        (Loops-take laws fuel limit (read_line_sim 500) _ (read_line-Takes laws 500 (omega arith))
          (λ chunk.
            let raw' = raw ++ chunk in
            Loops-if laws fuel limit (is_empty chunk) _ _ (raw-Loops fuel t0 raw) (
              Loops-bind laws fuel limit (say_received chunk) _ (say_received_talk laws chunk) (λ _.
                Loops-if laws fuel limit
                  (contains_text (codes "+HTTPREAD:") raw' && contains_text (codes "OK") raw') _ _
                  (Loops-Runs laws fuel limit (return raw') (return_talk laws raw'))
                  (Loops-if laws fuel limit (is_at_error raw') _ _
                    (Loops-Runs laws fuel limit (return raw') (return_talk laws raw'))
                    (raw-Loops fuel t0 raw'))))))
        (return_talk laws raw)

  raw_talk : Runs (Talks laws) collect_raw
  unfolding collect_raw turns
  raw_talk = timed_talk laws 5000 _ (λ t0. raw-Loops (suc (5000 * b.calls_per_ms)) t0 [])

  get_result-Closes : (raw : List ℕ) → Ensures (Closes laws) (get_result raw)
  unfolding get_result
  get_result-Closes raw =
      Closes-bind laws _ _
        (Runs-if (is_empty (http_body raw)) _ _
          (say_talk laws (codes "HTTPREAD raw (unparsed): " ++ c_str raw))
          (say_talk laws (codes "GET body: " ++ c_str (http_body raw))))
        (λ _. Closes-then laws http_term_safe _ (term-Closes laws) (λ _.
          Runs-if (is_empty (http_body raw)) _ _
            (say-return_talk laws (codes "HTTP GET FAIL: empty body") (false, http_body raw))
            (return_talk laws (true, http_body raw))))

  get_body-Closes :
      (result : HttpActionResult) (response : List ℕ)
      → Ensures (Closes laws) (get_body result response)
  unfolding get_body
  get_body-Closes result response = Closes-bind laws flush_sim _ (flush_talk laws) (λ _.
      Closes-bind laws (say _) _ (say_talk laws _) (λ _.
        Closes-bind laws (write_line_sim _) _ (write_line_talk laws _) (λ written.
          Closes-if laws (not written) _ _ (abandon_get-Closes response _)
            (Closes-bind laws collect_raw _ raw_talk get_result-Closes))))

  get_answer-Closes :
      (response : List ℕ) (action : Option HttpActionResult)
      → Ensures (Closes laws) (get_answer response action)
  unfolding get_answer
  get_answer-Closes response none = abandon_get-Closes response _
  get_answer-Closes response (some result) = Closes-bind laws (say _) _ (say_talk laws _) (λ _.
      Closes-if laws (not (is_2xx result.status) || leb_ℤ result.body_len (pos 0)) _ _
        (abandon_get-Closes response _) (get_body-Closes result response))

  get_action-Closes : (response : List ℕ) → Ensures (Closes laws) (get_action response)
  unfolding get_action
  get_action-Closes response =
      Closes-bind laws (http_action _ _) _ (action_talk laws _ _) (λ answer.
        Closes-if laws (not answer.0) _ _ (abandon_get-Closes response _)
          (get_answer-Closes response answer.1))

  get_open-Ended : (url response : List ℕ) → Ensures (Ended laws) (get_open url response)
  unfolding get_open
  get_open-Ended url response =
      Ended-opened laws (codes "GET") (false, response) _
        (Closes-bind laws (send_at_ok (url_command url) 2000) _ (send_at_ok_talk laws _ 2000)
          (λ url_set.
            Closes-if laws (not url_set) _ _ (abandon_get-Closes response _)
              (get_action-Closes response)))

  -- `httpGet` likewise, whatever its response is.
  pub http_get-Served :
      (url response : List ℕ) → Ensures (λ s r t. Served laws s r.0 t) (http_get url response)
  unfolding http_get
  http_get-Served url response =
      guarded laws _ (codes "HTTP GET FAIL: module inactive") (λ r. r.0) (false, response)
        (get_open url response) refl (get_open-Ended url response)
