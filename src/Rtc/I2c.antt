-- ===== src/Rtc/I2c.antt =====
-- The path of a register access to the bus: main/board/i2c_drv.cpp and i2c_port.cpp. The ESP-IDF
-- driver that executes a command link is a parameter.
use hydro_logger.Prelude.{
  ℕ, ◌*◌, ◌-◌, List, [], ◌∷◌, Bool, true, false, Option, none, some, length, ◌==◌, ltb,
  if◌then◌else◌, bit_or,
}
use hydro_logger.Prelude.Bytes.{u8}

-- One entry of an ESP-IDF command link.
pub data Cmd : Type 0 where
  start stop : Cmd
  write_byte : ℕ → Cmd
  write : List ℕ → Cmd
  read_ack : ℕ → Cmd
  read_nack : Cmd

-- `i2c_master_cmd_begin`: the bytes that the link read, or `none` where it did not return `ESP_OK`.
pub record Bus : Type 1 where
  pub Dev : Type 0
  pub cmd_begin : List Cmd → Dev → Option (List ℕ) × Dev

-- `(addr << 1) | I2C_MASTER_WRITE` and `| I2C_MASTER_READ`
address_byte : ℕ → ℕ → ℕ
address_byte addr rw_bit = u8 (bit_or (addr * 2) rw_bit)

unfoldable pub write_link : ℕ → ℕ → List ℕ → List Cmd
unfolding address_byte
write_link addr reg data' =
    start
    ∷ write_byte (address_byte addr 0)
    ∷ write_byte reg
    ∷ (if length data' == 0 then stop ∷ [] else write data' ∷ stop ∷ [])

unfoldable pub read_link : ℕ → ℕ → ℕ → List Cmd
unfolding address_byte
read_link addr reg len =
    start
    ∷ write_byte (address_byte addr 0)
    ∷ write_byte reg
    ∷ start
    ∷ write_byte (address_byte addr 1)
    ∷ (if ltb 1 len then read_ack (len - 1) ∷ read_nack ∷ stop ∷ [] else read_nack ∷ stop ∷ [])

abbrev is_ok : {A : Type 0} → Option A → Bool
is_ok none = false
is_ok (some a) = true

module _ (b : Bus) where
  -- `I2cDrv::writeReg`
  unfoldable pub write_reg : ℕ → ℕ → List ℕ → b.Dev → Bool × b.Dev
  write_reg addr reg data' d =
      let (answer, d') = b.cmd_begin (write_link addr reg data') d in (is_ok answer, d')

  -- `I2cDrv::readReg`; a null buffer or a length of zero is refused.
  unfoldable pub read_reg : ℕ → ℕ → ℕ → b.Dev → Option (List ℕ) × b.Dev
  read_reg addr reg len d =
      let answer = b.cmd_begin (read_link addr reg len) d in if len == 0 then (none, d) else answer

  -- `i2c_port_write`: the first byte is the register.
  unfoldable pub i2c_port_write : ℕ → List ℕ → b.Dev → Bool × b.Dev
  unfolding write_reg
  i2c_port_write addr [] d = (false, d)
  i2c_port_write addr (reg ∷ data') d = write_reg addr reg data' d

  -- `i2c_port_write_read` with the one byte that its callers write.
  unfoldable pub i2c_port_write_read : ℕ → List ℕ → ℕ → b.Dev → Option (List ℕ) × b.Dev
  unfolding read_reg
  i2c_port_write_read addr [] len d = (none, d)
  i2c_port_write_read addr (reg ∷ rest) len d =
      let answer = read_reg addr reg (u8 len) d in if len == 0 then (none, d) else answer
