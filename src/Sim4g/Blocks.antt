-- ===== src/Sim4g/Blocks.antt =====
-- How downloadOtaImage of sim4g_module.cpp reads the blocks of a window into the flash, and the two
-- readers above it.
pub mod Stream
pub mod Written
use hydro_logger.Prelude.{
  ℕ, zero, suc, ◌+◌, ◌-◌, ℤ, pos, Bool, true, false, not, ◌||◌, Option, none, some, List, ◌∷◌, ◌++◌,
  length, drop, ltb, ◌==◌, if◌then◌else◌, [],
}
use hydro_logger.Prelude.Int.{leb_ℤ, pos_part}
use hydro_logger.Prelude.Bytes.{codes}
use hydro_logger.Models.{c_str}
use hydro_logger.Sim4g.{Board, M, ◌>>=◌, ◌>>◌, return, call, now, say, dec}
use hydro_logger.Sim4g.Parse.{find_from, contains_text, last_number, is_at_error}
use hydro_logger.Sim4g.At.{turns, answered}

abbrev pub ota_read_timeout_ms : ℕ
ota_read_timeout_ms = 8000

abbrev pub buffer_size : ℕ
buffer_size = 256

abbrev pub smaller : ℕ → ℕ → ℕ
smaller a b = if ltb a b then a else b

-- The number behind `+HTTPREAD:` in a header line.
unfoldable pub header_length : List ℕ → Option ℤ
unfolding find_from last_number
header_length line = elim (find_from (codes "+HTTPREAD:") (c_str line)) [
  | none ↦ none
  | some p ↦ last_number (λ n. n) (drop 10 p)
]

-- The last 64 characters.
unfoldable pub last_64 : List ℕ → List ℕ
last_64 s = drop (length s - 64) s

abbrev pub nat_dec : ℕ → List ℕ
nat_dec n = dec (pos n)

abbrev pub position : ℕ → ℕ → List ℕ
position offset wgot = nat_dec offset ++ (codes "+" ++ nat_dec wgot)

module _ {b : Board} where
  -- The loop of `readHttpReadLen`, which reads byte by byte and stops behind the line end; `none` in
  -- the result is `false`.
  unfoldable pub header_loop : ℕ → ℕ → ℕ → List ℕ → M b (Option ℤ)
  header_loop zero start timeout_ms line = λ s. none
  header_loop (suc fuel) start timeout_ms line = do
    t ← now
    (if ltb (t - start) timeout_ms
        then (do
          bytes ← call (b.read 1 200)
          elim bytes [
            | [] ↦ header_loop fuel start timeout_ms line
            | c ∷ _ ↦
                if c == 10
                then (if answered (header_length line)
                    then return (header_length line)
                    else if is_at_error line
                    then return none
                    else header_loop fuel start timeout_ms [])
                else header_loop fuel start timeout_ms (if c == 13 then line else line ++ c ∷ [])
          ])
        else return none)

  unfoldable pub read_http_read_len : ℕ → M b (Option ℤ)
  read_http_read_len timeout_ms = do
    start ← now
    header_loop (turns b timeout_ms) start timeout_ms []

  unfoldable pub drain_loop : ℕ → ℕ → ℕ → List ℕ → M b (Unit {0})
  drain_loop zero start timeout_ms text = λ s. none
  drain_loop (suc fuel) start timeout_ms text = do
    t ← now
    (if ltb (t - start) timeout_ms
        then (do
          bytes ← call (b.read 1 100)
          elim bytes [
            | [] ↦ drain_loop fuel start timeout_ms text
            | c ∷ _ ↦
                let text' = last_64 (text ++ c ∷ []) in
                if contains_text (codes "OK\r") text' || contains_text (codes "OK\n") text'
                then return tt
                else drain_loop fuel start timeout_ms text'
          ])
        else return tt)

  unfoldable pub drain_to_ok : ℕ → M b (Unit {0})
  drain_to_ok timeout_ms = do start ← now; drain_loop (turns b timeout_ms) start timeout_ms []

  -- What the payload loop does with the bytes of a turn, at the time `t`: `again` is its next turn
  -- after none, `after` the one after a write.
  unfoldable pub payload_turn :
      M b (ℕ × Bool) → (ℕ → M b (ℕ × Bool)) → ℕ → ℕ → ℕ → List ℕ → M b (ℕ × Bool)
  payload_turn again after start remaining t [] =
      if ltb ota_read_timeout_ms (t - start) then return (remaining, true) else again
  payload_turn again after start remaining t (c ∷ rest) = do
    failed ← call (b.ota_write (c ∷ rest))
    (if answered failed then return (remaining, false) else after (remaining - length (c ∷ rest)))

  -- The payload loop: how many bytes are left at its end, and whether every write succeeded. The
  -- first fuel counts the bytes, the second the idle turns since `start`.
  unfoldable pub payload_loop : ℕ → ℕ → ℕ → ℕ → M b (ℕ × Bool)
  payload_loop zero idle start remaining = if remaining == 0 then return (0, true) else (λ s. none)
  payload_loop (suc fuel) zero start remaining =
      if remaining == 0 then return (0, true) else (λ s. none)
  payload_loop (suc fuel) (suc idle) start remaining =
      if remaining == 0 then return (0, true) else (do
        bytes ← call (b.read (smaller remaining buffer_size) 1000)
        t ← now
        payload_turn (payload_loop (suc fuel) idle start remaining)
            (λ left. do
              start' ← now
              payload_loop fuel (turns b (suc ota_read_timeout_ms)) start' left)
            start remaining t bytes)

  -- The end of a block of `n` bytes, with what the payload loop answered.
  unfoldable pub block_end : (ℕ → M b (ℕ × Bool)) → ℕ → ℕ → ℕ → ℕ × Bool → M b (ℕ × Bool)
  block_end next offset wgot n (remaining, false) = do
    say (codes "OTA FAIL: write @" ++ position offset wgot)
    return (wgot, false)
  block_end next offset wgot n (remaining, true) =
      if not (remaining == 0)
      then (do say (codes "OTA FAIL: short read @" ++ position offset wgot); return (wgot, false))
      else next (wgot + n)

  -- What the block loop does with the header of a block: `next` is its next turn.
  unfoldable pub block_turn : (ℕ → M b (ℕ × Bool)) → ℕ → ℕ → Option ℤ → M b (ℕ × Bool)
  block_turn next offset wgot none = do
    say (codes "OTA FAIL: HTTPREAD hdr @" ++ position offset wgot)
    return (wgot, false)
  block_turn next offset wgot (some blk) =
      if leb_ℤ blk (pos 0)
      then (do
        say (codes "OTA FAIL: HTTPREAD early end @" ++ position offset wgot)
        return (wgot, false))
      else (do
        start ← now
        payload ←
            payload_loop (pos_part blk) (turns b (suc ota_read_timeout_ms)) start (pos_part blk)
        block_end next offset wgot (pos_part blk) payload)

  -- The blocks of a window of `len` bytes: how many bytes were written, and whether all went well.
  unfoldable pub block_loop : ℕ → ℕ → ℕ → ℕ → M b (ℕ × Bool)
  block_loop zero offset len wgot = if ltb wgot len then (λ s. none) else return (wgot, true)
  block_loop (suc fuel) offset len wgot = if not (ltb wgot len) then return (wgot, true) else (do
    header ← read_http_read_len ota_read_timeout_ms
    block_turn (block_loop fuel offset len) offset wgot header)
