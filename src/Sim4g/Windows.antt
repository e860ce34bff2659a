-- ===== src/Sim4g/Windows.antt =====
-- The windows of downloadOtaImage of sim4g_module.cpp, each a ranged GET.
pub mod Fetched
pub mod Whole
use hydro_logger.Prelude.{
  ℕ, zero, suc, ◌+◌, ◌-◌, ◌*◌, ◌/◌, pos, Bool, true, false, not, ◌||◌, Option, none, some, List,
  ◌++◌, take, ltb, leb, if◌then◌else◌,
}
use hydro_logger.Prelude.Int.{leb_ℤ, pos_part}
use hydro_logger.Prelude.Bytes.{codes}
use hydro_logger.Sim4g.{
  Board, M, ◌>>=◌, ◌>>◌, return, act, now, flush_sim, set_http_inited, say, dec,
}
use hydro_logger.Sim4g.Parse.{is_int, HttpActionResult}
use hydro_logger.Sim4g.At.{write_line_sim, send_at_ok}
use hydro_logger.Sim4g.Http.{url_command, http_term_safe, http_action}
use hydro_logger.Sim4g.Blocks.{block_loop, smaller, drain_to_ok, nat_dec}

-- The constants of main/common/config.hpp, and the size of `buf`.
abbrev pub window_size : ℕ
window_size = 32768

abbrev pub at : ℕ → List ℕ
at offset = codes " @" ++ nat_dec offset

module _ {b : Board} where
  -- A step of the window that failed: the message, and no length.
  unfoldable pub window_fail : List ℕ → M b (Option ℕ)
  window_fail text = do say text; return none

  -- The check of the answer to a ranged GET: 206 with a body.
  unfoldable pub window_length : ℕ → Option HttpActionResult → M b (Option ℕ)
  window_length offset none = window_fail (codes "OTA FAIL: no +HTTPACTION" ++ at offset)
  window_length offset (some act) =
      if is_int act.status 200
      then window_fail (codes "OTA FAIL: Range not honored" ++ at offset)
      else if not (is_int act.status 206) || leb_ℤ act.body_len (pos 0)
      then window_fail (
          codes "OTA FAIL: window status="
          ++ (dec act.status ++ (codes " len=" ++ (dec act.body_len ++ at offset))))
      else return (some (pos_part act.body_len))

  -- The ranged GET of a window, up to its answer: the length of the body.
  unfoldable pub request_window : List ℕ → ℕ → ℕ → M b (Option ℕ)
  request_window url offset end_at = do
    http_term_safe
    inited ← send_at_ok (codes "AT+HTTPINIT") 2000
    (if not inited then window_fail (codes "OTA FAIL: HTTPINIT" ++ at offset) else (do
      set_http_inited true
      url_set ← send_at_ok (url_command url) 2000
      (if not url_set then window_fail (codes "OTA FAIL: set URL" ++ at offset) else (do
        range_set ←
            send_at_ok
              (take 319 (
                codes "AT+HTTPPARA=\"USERDATA\",\"Range: bytes="
                ++ (nat_dec offset ++ (codes "-" ++ (nat_dec end_at ++ codes "\"")))))
              2000
        (if not range_set then window_fail (codes "OTA FAIL: set Range" ++ at offset) else (do
          (written, action) ← http_action (codes "AT+HTTPACTION=0") (
              codes "AT+HTTPACTION=0 ["
              ++ (nat_dec offset ++ (codes "-" ++ (nat_dec end_at ++ codes "]"))))
          (if not written
              then window_fail (codes "OTA FAIL: write HTTPACTION" ++ at offset)
              else window_length offset action)))))))

  -- With success the closing lines of the stream are read away.
  unfoldable pub window_end : ℕ × Bool → M b (Option ℕ)
  window_end (wgot, false) = return none
  window_end (wgot, true) = do drain_to_ok 1000; return (some wgot)

  -- The reading of a window of `len` bytes into the flash.
  unfoldable pub read_window : ℕ → ℕ → M b (Option ℕ)
  read_window offset len = do
    flush_sim
    let cmd = take 319 (codes "AT+HTTPREAD=0," ++ nat_dec len)
    say (codes "AT>" ++ cmd)
    written ← write_line_sim cmd
    (if not written
        then window_fail (codes "OTA FAIL: write HTTPREAD" ++ at offset)
        else (do blocks ← block_loop len offset len 0; window_end blocks))

  unfoldable pub read_requested : ℕ → Option ℕ → M b (Option ℕ)
  read_requested offset none = return none
  read_requested offset (some n) = read_window offset n

  unfoldable pub fetch_window : List ℕ → ℕ → ℕ → M b (Option ℕ)
  fetch_window url offset end_at = do
    len ← request_window url offset end_at
    read_requested offset len

  -- The progress that is logged: every ten per cent. `logged` is `lastPct` plus one.
  unfoldable pub log_progress : ℕ → ℕ → ℕ → M b ℕ
  log_progress logged offset total =
      let pct = offset * 100 / total in
      if leb (logged + 9) pct
      then (do
        say (
            codes "OTA "
            ++ (nat_dec pct
                ++ (codes "% ("
                    ++ (nat_dec offset ++ (codes "/" ++ (nat_dec total ++ codes ")"))))))
        return (suc pct))
      else return logged

  -- What the loop over the windows does with a window: `next` is its next turn.
  unfoldable pub window_turn : (ℕ → ℕ → M b (ℕ × Bool)) → ℕ → ℕ → ℕ → Option ℕ → M b (ℕ × Bool)
  window_turn next total offset logged none = return (offset, false)
  window_turn next total offset logged (some n) = do
    logged' ← log_progress logged (offset + n) total
    next (offset + n) logged'

  -- The loop over the windows: the offset at its end, and whether all went well.
  unfoldable pub window_loop : ℕ → List ℕ → ℕ → ℕ → ℕ → ℕ → M b (ℕ × Bool)
  window_loop zero url total deadline offset logged =
      if ltb offset total then (λ s. none) else return (offset, true)
  window_loop (suc fuel) url total deadline offset logged =
      if not (ltb offset total) then return (offset, true) else (do
        t ← now
        (if leb deadline t
            then (do
              say (codes "OTA FAIL: timeout " ++ (nat_dec offset ++ (codes "/" ++ nat_dec total)))
              return (offset, false))
            else (do
              wgot ← fetch_window url offset (offset + smaller (total - offset) window_size - 1)
              window_turn (window_loop fuel url total deadline) total offset logged wgot)))
