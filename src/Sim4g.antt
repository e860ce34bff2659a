-- ===== src/Sim4g.antt =====
-- The SIM modem, main/services/connectivity/sim4g_module.hpp and sim4g_module.cpp: its state, the
-- calls it makes and the monad in which its children write the operations. The serial output of
-- ESP_LOG is left out; the session log is kept.
pub mod Parse
pub mod Rules
pub mod Talks
pub mod Loops
pub mod Ensures
pub mod At
pub mod Power
pub mod Registration
pub mod Carrier
pub mod DataContext
pub mod Network
pub mod Http
pub mod Post
pub mod Get
pub mod Blocks
pub mod Windows
pub mod Download
pub mod AsModule
pub mod Simulated
mod Tests
use hydro_logger.Prelude.{
  ℕ, ◌+◌, ◌-◌, ℤ, pos, Bool, true, false, Option, none, some, List, [], ◌∷◌, ◌++◌, ltb,
  if◌then◌else◌,
}
use hydro_logger.Prelude.Bytes.{codes}
use hydro_logger.Prelude.Decimal.{format_int}
use hydro_logger.Models.{c_str}
use hydro_logger.LogBuffer.{LogBuffer, appendf}
use hydro_logger.Nvs.{Nvs, ApnProfile}

-- What the module calls: the UART driver of ESP-IDF, FreeRTOS, the power pin, the flash of the
-- preferences and the OTA functions, over a state of the board.
pub record Board : Type 1 where
  pub Dev : Type 0
  pub nvs : Nvs
  -- `UartDrv::initSimUart`
  pub init_uart : Dev → Bool × Dev
  -- `uart_flush_input`
  pub flush : Dev → Dev
  -- `uart_write_bytes`: the number of bytes written; `none` is an error.
  pub write : List ℕ → Dev → Option ℕ × Dev
  -- `uart_read_bytes`: at most so many bytes, within so many milliseconds; none on an error.
  pub read : ℕ → ℕ → Dev → List ℕ × Dev
  -- `xTaskGetTickCount` in milliseconds since some start, and `vTaskDelay`.
  pub now : Dev → ℕ
  pub delay : ℕ → Dev → Dev
  -- `IoController::setSimPower`
  pub set_power : Bool → Dev → Dev
  -- `esp_ota_get_next_update_partition`: the label and the size.
  pub ota_partition : Dev → Option (List ℕ × ℕ)
  -- The OTA calls answer no error, or an error with its name.
  pub ota_begin : ℕ → Dev → Option (List ℕ) × Dev
  pub ota_write : List ℕ → Dev → Option (List ℕ) × Dev
  pub ota_end : Dev → Option (List ℕ) × Dev
  pub ota_abort : Dev → Dev
  pub set_boot_partition : Dev → Option (List ℕ) × Dev
  -- More calls of `read` than this do not fit into a millisecond: what the fuel of a loop that runs
  -- for a given time is taken from.
  pub calls_per_ms : ℕ

-- The members of `Sim4GModule`, the `static` flag of `waitForAtReady`, the session log, the stored
-- preferences and the board.
pub record Modem (b : Board) : Type 0 where
  pub active : Bool
  pub http_inited : Bool
  pub active_apn : ApnProfile
  pub uart_inited : Bool
  pub log : LogBuffer
  pub flash : b.nvs.Flash
  pub dev : b.Dev

-- An operation of the module. `none` means that the fuel of a loop ran out.
abbrev pub M : Board → Type 0 → Type 0
M b A = Modem b → Option (A × Modem b)

abbrev pub and_then :
    {b : Board} {A B : Type 0} → (A → M b B) → Option (A × Modem b) → Option (B × Modem b)
and_then f none = none
and_then f (some (a, s)) = f a s

infixl 5 ◌>>=◌ ◌>>◌
abbrev pub ◌>>=◌ : {b : Board} {A B : Type 0} → M b A → (A → M b B) → M b B
◌>>=◌ m f s = and_then f (m s)

abbrev pub ◌>>◌ : {b : Board} {B : Type 0} → M b (Unit {0}) → M b B → M b B
m >> k = m >>= λ _. k

abbrev pub return : {b : Board} {A : Type 0} → A → M b A
return a s = some (a, s)

abbrev pub newline : List ℕ
newline = 10 ∷ []

abbrev pub dec : ℤ → List ℕ
dec z = format_int 0 z

module _ {b : Board} where
  -- A change of the board, and a call of it that answers.
  unfoldable pub act : (b.Dev → b.Dev) → M b (Unit {0})
  act f s = some (tt, record s { dev = f s.dev })

  unfoldable pub call : {A : Type 0} → (b.Dev → A × b.Dev) → M b A
  call f s = let (a, d) = f s.dev in some (a, record s { dev = d })

  unfoldable pub now : M b ℕ
  now s = some (b.now s.dev, s)

  unfoldable pub delay : ℕ → M b (Unit {0})
  delay ms = act (b.delay ms)

  unfoldable pub flush_sim : M b (Unit {0})
  flush_sim = act b.flush

  unfoldable pub set_sim_power : Bool → M b (Unit {0})
  set_sim_power on = act (b.set_power on)

  -- `log.appendf` with the tag `[SIM] ` in front and a line end.
  unfoldable pub say : List ℕ → M b (Unit {0})
  say text s = some (tt, record s { log = appendf (codes "[SIM] " ++ (text ++ newline)) s.log })

  -- `log.appendf("[SIM] <%s\n", line.c_str())`
  unfoldable pub say_received : List ℕ → M b (Unit {0})
  say_received line = say (codes "<" ++ c_str line)

  unfoldable pub set_active : Bool → M b (Unit {0})
  set_active on s = some (tt, record s { active = on })

  unfoldable pub set_http_inited : Bool → M b (Unit {0})
  set_http_inited on s = some (tt, record s { http_inited = on })

  unfoldable pub get : {A : Type 0} → (Modem b → A) → M b A
  get f s = some (f s, s)

  -- `msRemaining` and `clampTimeout`, of a deadline in milliseconds.
  unfoldable pub ms_remaining : ℕ → M b ℕ
  ms_remaining deadline s =
      let t = b.now s.dev in some (if ltb t deadline then deadline - t else 0, s)

  unfoldable pub clamp_timeout : ℕ → ℕ → M b ℕ
  clamp_timeout deadline default_ms = do
    rem ← ms_remaining deadline
    return (if ltb default_ms rem then default_ms else rem)
