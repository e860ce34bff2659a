-- ===== src/Sim4g/Get.antt =====
-- `httpGet` of sim4g_module.cpp.
pub mod Closes
use hydro_logger.Prelude.{
  ℕ, zero, suc, ◌-◌, pos, Bool, true, false, not, ◌&&◌, ◌||◌, Option, none, some, List, ◌++◌, take,
  ltb, if◌then◌else◌, [],
}
use hydro_logger.Prelude.Int.{leb_ℤ}
use hydro_logger.Prelude.Bytes.{codes}
use hydro_logger.Models.{c_str}
use hydro_logger.Sim4g.{Board, M, ◌>>=◌, ◌>>◌, return, now, flush_sim, get, say, say_received, dec}
use hydro_logger.Sim4g.Parse.{contains_text, is_at_error, HttpActionResult, is_2xx, http_body}
use hydro_logger.Sim4g.At.{turns, is_empty, read_line_sim, write_line_sim, send_at_ok}
use hydro_logger.Sim4g.Http.{
  url_command, http_term_safe, http_init_and_set_bearer, http_action, abandon,
}

module _ {b : Board} where
  -- The loop of `httpGet` that collects the answer to AT+HTTPREAD.
  unfoldable pub raw_loop : ℕ → ℕ → List ℕ → M b (List ℕ)
  raw_loop zero t0 raw = λ s. none
  raw_loop (suc fuel) t0 raw = do
    t ← now
    (if ltb (t - t0) 5000
        then (do
          chunk ← read_line_sim 500
          (if is_empty chunk then raw_loop fuel t0 raw else (do
            say_received chunk
            let raw' = raw ++ chunk
            (if contains_text (codes "+HTTPREAD:") raw' && contains_text (codes "OK") raw'
                then return raw'
                else if is_at_error raw'
                then return raw'
                else raw_loop fuel t0 raw'))))
        else return raw)

  unfoldable pub collect_raw : M b (List ℕ)
  collect_raw = do t0 ← now; raw_loop (turns b 5000) t0 []

  -- `return false` behind a clean-up, with the response as it was.
  unfoldable pub abandon_get : List ℕ → List ℕ → M b (Bool × List ℕ)
  abandon_get response text = do ok ← abandon text; return (ok, response)

  -- The end of `httpGet`, with what AT+HTTPREAD gave.
  unfoldable pub get_result : List ℕ → M b (Bool × List ℕ)
  get_result raw = do
    (if is_empty (http_body raw)
        then say (codes "HTTPREAD raw (unparsed): " ++ c_str raw)
        else say (codes "GET body: " ++ c_str (http_body raw)))
    http_term_safe
    (if is_empty (http_body raw)
        then (do say (codes "HTTP GET FAIL: empty body"); return (false, http_body raw))
        else return (true, http_body raw))

  -- Steps 5 and 6 of `httpGet`, with the response that the caller's string held; the response is
  -- replaced once the answer was collected.
  unfoldable pub get_body : HttpActionResult → List ℕ → M b (Bool × List ℕ)
  get_body result response = do
    let cmd = take 319 (codes "AT+HTTPREAD=0," ++ dec result.body_len)
    flush_sim
    say (codes "AT>" ++ cmd)
    written ← write_line_sim cmd
    (if not written
        then abandon_get response (codes "HTTP GET FAIL: uart write HTTPREAD")
        else (do raw ← collect_raw; get_result raw))

  unfoldable pub get_answer : List ℕ → Option HttpActionResult → M b (Bool × List ℕ)
  get_answer response none = abandon_get response (codes "HTTP GET FAIL: no +HTTPACTION URC")
  get_answer response (some result) = do
    say (codes "HTTP GET status=" ++ (dec result.status ++ (codes " body=" ++ dec result.body_len)))
    (if not (is_2xx result.status) || leb_ℤ result.body_len (pos 0)
        then abandon_get response (codes "HTTP GET FAIL: status " ++ dec result.status)
        else get_body result response)

  -- Step 4 of `httpGet`.
  unfoldable pub get_action : List ℕ → M b (Bool × List ℕ)
  get_action response = do
    (written, action) ← http_action (codes "AT+HTTPACTION=0") (codes "AT+HTTPACTION=0")
    (if not written
        then abandon_get response (codes "HTTP GET FAIL: uart write HTTPACTION")
        else get_answer response action)

  -- Steps 1 to 3.
  unfoldable pub get_open : List ℕ → List ℕ → M b (Bool × List ℕ)
  get_open url response = do
    ready ← http_init_and_set_bearer (codes "GET")
    (if not ready then return (false, response) else (do
      url_set ← send_at_ok (url_command url) 2000
      (if not url_set
          then abandon_get response (codes "HTTP GET FAIL at HTTPPARA URL")
          else get_action response)))

  -- `httpGet`: the answer and the response.
  unfoldable pub http_get : List ℕ → List ℕ → M b (Bool × List ℕ)
  http_get url response = do
    say (codes "HTTP GET url=" ++ c_str url)
    active ← get (λ s. s.active)
    (if not active
        then (do say (codes "HTTP GET FAIL: module inactive"); return (false, response))
        else get_open url response)
