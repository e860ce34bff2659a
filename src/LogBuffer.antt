-- ===== src/LogBuffer.antt =====
-- The session log: main/services/logging/log_buffer.hpp and log_buffer.cpp.
pub mod Append
mod Tests
use hydro_logger.Prelude.{
  ℕ, ◌+◌, ◌-◌, List, [], ◌∷◌, ◌++◌, Option, none, some, length, take, drop, replicate, leb, ltb,
  if◌then◌else◌,
}
use hydro_logger.Prelude.Bytes.{u16}
use hydro_logger.Models.{session_log_size, c_str}

pub record LogBuffer : Type 0 where
  pub buf : List ℕ
  pub len : ℕ

abbrev pub overwrite : ℕ → List ℕ → List ℕ → List ℕ
overwrite at bytes buf = take at buf ++ (bytes ++ drop (at + length bytes) buf)

-- The constructor: `buf_{}` and `clear()`.
abbrev pub new_log : LogBuffer
new_log = record { buf = replicate session_log_size 0; len = 0 }

unfoldable pub clear : LogBuffer → LogBuffer
clear l = record { buf = overwrite 0 (0 ∷ []) l.buf; len = 0 }

-- `vsnprintf(buf + at, size, fmt, ap)` where the arguments format to `text`: what fits in front of
-- the closing zero is written.
abbrev pub print_at : ℕ → ℕ → List ℕ → List ℕ → List ℕ
print_at at size text buf =
    if leb size 0 then buf else overwrite at (take (size - 1) text ++ (0 ∷ [])) buf

-- The text that the format and its arguments stand for; `none` where `vsnprintf` returns an error.
unfoldable pub vappendf : Option (List ℕ) → LogBuffer → LogBuffer
vappendf formatted l =
    if leb (session_log_size - 1) l.len
    then l
    else elim formatted [ none ↦ l | some text ↦ printed text ]
  where
    printed : List ℕ → LogBuffer
    printed text =
        let remain = session_log_size - 1 - l.len in
        let buf = print_at l.len remain text l.buf in
        let n = if ltb remain (length text) then remain else length text in
        let len = u16 (l.len + n) in record { buf = overwrite len (0 ∷ []) buf; len = len }

unfoldable pub appendf : List ℕ → LogBuffer → LogBuffer
unfolding vappendf
appendf text = vappendf (some text)

-- `c_str()`
abbrev pub text_of : LogBuffer → List ℕ
text_of l = c_str l.buf
