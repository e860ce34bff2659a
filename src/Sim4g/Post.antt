-- ===== src/Sim4g/Post.antt =====
-- `sendPayload` of sim4g_module.cpp.
pub mod Closes
use hydro_logger.Prelude.{
  ℕ, zero, suc, ◌-◌, pos, Bool, true, false, not, ◌&&◌, ◌||◌, Option, none, some, List, ◌∷◌, ◌++◌,
  length, take, ltb, ◌==◌, if◌then◌else◌, [],
}
use hydro_logger.Prelude.Int.{ltb_ℤ}
use hydro_logger.Prelude.Bytes.{codes}
use hydro_logger.Models.{c_str}
use hydro_logger.Sim4g.{Board, M, ◌>>=◌, ◌>>◌, return, call, now, get, say, say_received, dec}
use hydro_logger.Sim4g.Parse.{contains_text, is_at_error, HttpActionResult, is_2xx}
use hydro_logger.Sim4g.At.{
  turns, answered, is_empty, read_line_sim, wait_for_token, send_at_expect, send_at_ok,
}
use hydro_logger.Sim4g.Http.{
  url_command, http_term_safe, http_init_and_set_bearer, http_action, abandon,
}

abbrev pub http_data_timeout_ms : ℕ
http_data_timeout_ms = 10000

abbrev pub wrote : List ℕ → Option ℕ → Bool
wrote text none = false
wrote text (some n) = n == length text

-- A body line behind the others.
abbrev pub append_line : List ℕ → List ℕ → List ℕ
append_line [] line = line
append_line (c ∷ body) line = (c ∷ body) ++ (10 ∷ line)

module _ {b : Board} where
  -- The loop that reads the server's answer to a POST, for the log.
  unfoldable pub response_loop : ℕ → ℕ → List ℕ → M b (List ℕ)
  response_loop zero t0 body = λ s. none
  response_loop (suc fuel) t0 body = do
    t ← now
    (if ltb (t - t0) 5000
        then (do
          line ← read_line_sim 500
          (if is_empty line then response_loop fuel t0 body else (do
            say_received line
            (if contains_text (codes "OK") line || is_at_error line
                then return body
                else response_loop fuel t0 (append_line body line)))))
        else return body)

  unfoldable pub collect_response : M b (Unit {0})
  collect_response = do
    t0 ← now
    body ← response_loop (turns b 5000) t0 []
    (if is_empty body then return tt else say (codes "POST response: " ++ c_str body))

  unfoldable pub log_response : HttpActionResult → M b (Unit {0})
  log_response result =
      if is_2xx result.status && ltb_ℤ (pos 0) result.body_len
      then (do
        answer ←
            send_at_expect (take 47 (codes "AT+HTTPREAD=0," ++ dec result.body_len))
              (codes "+HTTPREAD:") 5000
        (if answered answer then collect_response else return tt))
      else return tt

  -- Step 7 of `sendPayload`.
  unfoldable pub post_answer : Option HttpActionResult → M b Bool
  post_answer none = abandon (codes "HTTP POST FAIL: no +HTTPACTION URC")
  post_answer (some result) = do
    say (
        codes "HTTP POST status=" ++ (dec result.status ++ (codes " body=" ++ dec result.body_len)))
    log_response result
    http_term_safe
    (if not (is_2xx result.status)
        then (do say (codes "HTTP POST FAIL: status " ++ dec result.status); return false)
        else return true)

  -- Step 6.
  unfoldable pub post_action : M b Bool
  post_action = do
    (written, action) ← http_action (codes "AT+HTTPACTION=1") (codes "AT+HTTPACTION=1")
    (if not written
        then abandon (codes "HTTP POST FAIL: uart write HTTPACTION")
        else post_answer action)

  -- Step 5: the body is uploaded.
  unfoldable pub post_body : List ℕ → M b Bool
  post_body json = do
    answer ←
        send_at_expect
          (take 319 (
            codes "AT+HTTPDATA="
            ++ (dec (pos (length json)) ++ (codes "," ++ dec (pos http_data_timeout_ms)))))
          (codes "DOWNLOAD") http_data_timeout_ms
    (if not (answered answer) then abandon (codes "HTTP POST FAIL at HTTPDATA") else (do
      say (codes "TX payload bytes=" ++ dec (pos (length json)))
      n ← call (b.write json)
      (if not (wrote json n) then abandon (codes "HTTP POST FAIL: payload write") else (do
        ok ← wait_for_token (codes "OK") http_data_timeout_ms
        (if not (answered ok)
            then abandon (codes "HTTP POST FAIL: no OK after payload")
            else post_action)))))

  -- Steps 1 to 4.
  unfoldable pub post_open : List ℕ → List ℕ → M b Bool
  post_open url json = do
    ready ← http_init_and_set_bearer (codes "POST")
    (if not ready then return false else (do
      url_set ← send_at_ok (url_command url) 2000
      (if not url_set then abandon (codes "HTTP POST FAIL at HTTPPARA URL") else (do
        type_set ← send_at_ok (codes "AT+HTTPPARA=\"CONTENT\",\"application/json\"") 1000
        (if not type_set
            then abandon (codes "HTTP POST FAIL at HTTPPARA CONTENT")
            else post_body json)))))

  -- `sendPayload`
  unfoldable pub send_payload : List ℕ → List ℕ → M b Bool
  send_payload url json = do
    say (codes "HTTP POST url=" ++ (c_str url ++ (codes " bytes=" ++ dec (pos (length json)))))
    active ← get (λ s. s.active)
    (if not active
        then (do say (codes "HTTP POST FAIL: module inactive"); return false)
        else post_open url json)
