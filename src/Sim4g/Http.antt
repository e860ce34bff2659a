-- ===== src/Sim4g/Http.antt =====
-- The session of the modem's HTTP service, and AT+HTTPACTION, of sim4g_module.cpp.
pub mod Session
pub mod Opens
pub mod Served
use hydro_logger.Prelude.{
  ℕ, Bool, true, false, not, Option, none, some, List, ◌++◌, take, if◌then◌else◌,
}
use hydro_logger.Prelude.Bytes.{codes}
use hydro_logger.Models.{c_str}
use hydro_logger.Sim4g.{
  Board, M, ◌>>=◌, ◌>>◌, return, delay, flush_sim, get, set_http_inited, say, say_received,
}
use hydro_logger.Sim4g.Parse.{contains_text, HttpActionResult, parse_http_action_line}
use hydro_logger.Sim4g.At.{
  is_empty, read_line_sim, write_line_sim, wait_for_token, send_at_expect, send_at_ok,
}

abbrev pub http_action_timeout_ms : ℕ
http_action_timeout_ms = 30000

-- `kHttpInitSettleMs`
abbrev pub http_init_settle_ms : ℕ
http_init_settle_ms = 300

-- `snprintf` into the command buffer of 320 bytes.
unfoldable pub url_command : List ℕ → List ℕ
url_command url = take 319 (codes "AT+HTTPPARA=\"URL\",\"" ++ (c_str url ++ codes "\""))

-- The action that a line names, if a line was found.
unfoldable pub action_of : Option (List ℕ) → Option HttpActionResult
action_of none = none
action_of (some line) = parse_http_action_line line

module _ {b : Board} where
  -- AT+HTTPTERM, whose answer is only logged.
  unfoldable pub send_term : M b (Unit {0})
  send_term = do
    flush_sim
    say (codes "AT>AT+HTTPTERM (cleanup)")
    _ ← write_line_sim (codes "AT+HTTPTERM")
    line ← read_line_sim 1000
    (if is_empty line then return tt else say_received line)

  unfoldable pub http_term_safe : M b (Unit {0})
  http_term_safe = do
    open_session ← get (λ s. s.http_inited)
    (if not open_session then return tt else (do send_term; set_http_inited false))

  -- The address of the data context is only logged.
  unfoldable pub log_address : List ℕ → M b (Unit {0})
  log_address prefix = do
    answer ← send_at_expect (codes "AT+CGPADDR=1") (codes "+CGPADDR:") 2000
    elim answer [ none ↦ return tt | some line ↦ say (prefix ++ c_str line) ]

  unfoldable pub is_pdp_active : Option (List ℕ) → M b Bool
  is_pdp_active none = return false
  is_pdp_active (some line) = do
    say (codes "PDP state: " ++ c_str line)
    return (contains_text (codes "+CGACT: 1,1") line)

  unfoldable pub ensure_pdp_active : M b Bool
  ensure_pdp_active = do
    answer ← send_at_expect (codes "AT+CGACT?") (codes "+CGACT:") 3000
    active ← is_pdp_active answer
    (if active then (do log_address (codes "PDP IP: "); return true) else (do
      say (codes "PDP 1 not active, re-activating")
      ok ← send_at_ok (codes "AT+CGACT=1,1") 5000
      (if not ok
          then (do say (codes "PDP re-activate FAIL"); return false)
          else (do log_address (codes "PDP re-activated IP: "); return true))))

  unfoldable pub http_init_and_set_bearer : List ℕ → M b Bool
  http_init_and_set_bearer method = do
    http_term_safe
    alive ← ensure_pdp_active
    (if not alive
        then (do say (codes "HTTP " ++ (method ++ codes " FAIL: PDP dead")); return false)
        else (do
          ok ← send_at_ok (codes "AT+HTTPINIT") 2000
          (if not ok
              then (do say (codes "HTTP " ++ (method ++ codes " FAIL at HTTPINIT")); return false)
              else (do set_http_inited true; delay http_init_settle_ms; return true))))

  -- `log.appendf(...); httpTermSafe(log); return false;`
  unfoldable pub abandon : List ℕ → M b Bool
  abandon text = do say text; http_term_safe; return false

  -- AT+HTTPACTION and the answer to it; `text` is how the log names the command. The first part of
  -- the result says whether the command was written.
  unfoldable pub http_action : List ℕ → List ℕ → M b (Bool × Option HttpActionResult)
  http_action cmd text = do
    flush_sim
    say (codes "AT>" ++ text)
    written ← write_line_sim cmd
    (if not written then return (false, none) else (do
      line ← wait_for_token (codes "+HTTPACTION:") http_action_timeout_ms
      return (true, action_of line)))
