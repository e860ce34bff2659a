-- ===== src/Sim4g/At.antt =====
-- The AT exchange: `readLineSim` and `writeLineSim` of main/board/uart_drv.cpp, and `waitForToken`,
-- `sendAtExpect` and `sendAtOk` of sim4g_module.cpp.
pub mod Ends
use hydro_logger.Prelude.{
  ℕ, zero, suc, ◌+◌, ◌-◌, ◌*◌, Bool, true, false, not, Option, none, some, List, [], ◌∷◌, ◌++◌, ltb,
  if◌then◌else◌, pos,
}
use hydro_logger.Prelude.Bytes.{codes}
use hydro_logger.Models.{c_str}
use hydro_logger.Sim4g.{
  Board, Modem, M, ◌>>=◌, ◌>>◌, return, call, now, flush_sim, say, say_received,
}
use hydro_logger.Sim4g.Parse.{is_at_error, contains_text}

abbrev pub answered : {A : Type 0} → Option A → Bool
answered none = false
answered (some a) = true

abbrev pub is_empty : List ℕ → Bool
is_empty [] = true
is_empty (c ∷ s) = false

-- The turns that a loop of `ms` milliseconds may take, where each turn reads the UART or waits.
unfoldable pub turns : Board → ℕ → ℕ
turns b ms = suc (ms * b.calls_per_ms)

module _ {b : Board} where
  -- The loop of `readLineSim`, which reads for the whole time given, across line ends.
  unfoldable pub read_for : ℕ → ℕ → ℕ → List ℕ → M b (List ℕ)
  read_for zero start timeout_ms line = λ s. none
  read_for (suc fuel) start timeout_ms line = do
    t ← now
    (if ltb (t - start) timeout_ms
        then (do bytes ← call (b.read 1 50); read_for fuel start timeout_ms (line ++ bytes))
        else return line)

  unfoldable pub read_line_sim : ℕ → M b (List ℕ)
  read_line_sim timeout_ms = do start ← now; read_for (turns b timeout_ms) start timeout_ms []

  -- What is written is not looked at.
  unfoldable pub write_line_sim : List ℕ → M b Bool
  write_line_sim line = do _ ← call (b.write line); _ ← call (b.write (13 ∷ [])); return true

  -- The loop of `waitForToken`; `none` in the result is `false`, a line is what it matched.
  unfoldable pub wait_loop : ℕ → ℕ → List ℕ → ℕ → M b (Option (List ℕ))
  wait_loop zero start expect timeout_ms = λ s. none
  wait_loop (suc fuel) start expect timeout_ms = do
    t ← now
    (if ltb (t - start) timeout_ms
        then (do
          line ← read_line_sim 200
          (if is_empty line then wait_loop fuel start expect timeout_ms else (do
            say_received line
            (if contains_text expect line
                then return (some line)
                else if is_at_error line
                then (do say (codes "AT ERROR: " ++ c_str line); return none)
                else wait_loop fuel start expect timeout_ms))))
        else (do say (codes "timeout waiting " ++ expect); return none))

  unfoldable pub wait_for_token : List ℕ → ℕ → M b (Option (List ℕ))
  wait_for_token expect timeout_ms = do
    start ← now
    wait_loop (turns b timeout_ms) start expect timeout_ms

  unfoldable pub send_at_expect : List ℕ → List ℕ → ℕ → M b (Option (List ℕ))
  send_at_expect cmd expect timeout_ms = do
    flush_sim
    say (codes "AT>" ++ cmd)
    written ← write_line_sim cmd
    (if not written
        then (do say (codes "uart write FAIL"); return none)
        else wait_for_token expect timeout_ms)

  unfoldable pub send_at_ok : List ℕ → ℕ → M b Bool
  send_at_ok cmd timeout_ms = do
    answer ← send_at_expect cmd (codes "OK") timeout_ms
    return (answered answer)
