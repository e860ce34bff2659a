-- ===== src/Sensor/Ultrasonic.antt =====
-- main/modules/sensor/ultrasonic_sensor.cpp: a Modbus exchange over the sensor's UART. The serial
-- output of the driver (ESP_LOG) is left out; the session log is kept.
pub mod Receive
pub mod Response
use hydro_logger.Prelude.{
  ℕ, zero, suc, ◌+◌, ◌-◌, ◌*◌, ◌/◌, ◌%◌, ℤ, pos, negsuc, Bool, true, false, Option, none, some,
  List, [], ◌∷◌, ◌++◌, get_or, length, take, replicate, drop, if◌then◌else◌, ltb, leb, ◌==◌, not,
  bit_and, bit_or, bit_xor,
}
use hydro_logger.Prelude.Bytes.{u8, u16, codes, has_bits}
use hydro_logger.Prelude.Decimal.{format_int}
use hydro_logger.LogBuffer.{LogBuffer, appendf}
use hydro_logger.Sensor.{Sensor, ultrasonic}

abbrev pub char_timeout_ms : ℕ
char_timeout_ms = 6000

abbrev pub response_size : ℕ
response_size = 15

-- One bit of the loop of `modbusCrc16`, `n` bits, and the bytes.
abbrev pub crc_bits : ℕ → ℕ → ℕ
crc_bits zero crc = crc
crc_bits (suc n) crc =
    crc_bits n (if has_bits crc 0x0001 then bit_xor (crc / 2) 0xA001 else crc / 2)

abbrev pub crc_bytes : ℕ → List ℕ → ℕ
crc_bytes crc [] = crc
crc_bytes crc (d ∷ data') = crc_bytes (crc_bits 8 (bit_xor crc d)) data'

unfoldable pub modbus_crc16 : List ℕ → ℕ
modbus_crc16 data' = crc_bytes 0xFFFF data'

-- `readU16Be` and `readI16Be` at an index.
abbrev pub read_u16_be : List ℕ → ℕ → ℕ
read_u16_be data' i = u16 (bit_or (get_or data' i 0 * 256) (get_or data' (i + 1) 0))

abbrev pub read_i16_be : List ℕ → ℕ → ℤ
read_i16_be data' i =
    let v = read_u16_be data' i in if ltb v 32768 then pos v else negsuc (65535 - v)

unfoldable pub build_read_request : List ℕ
unfolding modbus_crc16
build_read_request = frame ++ (bit_and crc 0xFF ∷ u8 (crc / 256) ∷ [])
  where
    frame : List ℕ
    frame = 0x01 ∷ 0x03 ∷ 0x00 ∷ 0x01 ∷ 0x00 ∷ 0x05 ∷ []

    crc : ℕ
    crc = modbus_crc16 frame

-- The UART and the clock of the board, over a state: main/board/uart_drv.cpp and FreeRTOS.
pub record Uart (S : Type 0) : Type 0 where
  pub init_sensor : S → Bool × S
  pub flush : S → S
  -- `writeSensor`: the number of bytes written; `none` is an error.
  pub write : List ℕ → S → Option ℕ × S
  -- `readSensor`: at most so many bytes, within so many milliseconds.
  pub read : ℕ → ℕ → S → List ℕ × S
  -- Milliseconds since some start.
  pub now : S → ℕ
  pub delay : ℕ → S → S
  pub set_power : Bool → S → S

pub record Registers : Type 0 where
  pub distance_mm : ℕ
  pub range_mm : ℕ
  pub offset_mm : ℤ
  pub baudrate : ℕ
  pub node_address : ℕ

abbrev pub newline : List ℕ
newline = 10 ∷ []

-- `%02X` and `%04X`
abbrev pub hex_digit : ℕ → ℕ
hex_digit n = if ltb n 10 then 48 + n else 55 + n

abbrev pub hex2 : ℕ → List ℕ
hex2 n = hex_digit (n / 16 % 16) ∷ hex_digit (n % 16) ∷ []

abbrev pub hex4 : ℕ → List ℕ
hex4 n = hex2 (n / 256) ++ hex2 (n % 256)

abbrev pub dec : ℕ → List ℕ
dec n = format_int 0 (pos n)

-- The registers of an accepted response. The distance becomes the level below the range, in 16 bits.
unfoldable pub extract : List ℕ → Registers
extract response = record {
  distance_mm = u16 (read_u16_be response 5 + 65536 - read_u16_be response 3);
  range_mm = read_u16_be response 5;
  offset_mm = read_i16_be response 7;
  baudrate = read_u16_be response 9;
  node_address = read_u16_be response 11;
}

-- `parseReadResponse`: the registers are written only where it answers true.
unfoldable pub parse_read_response : List ℕ → Registers → LogBuffer → Bool × Registers × LogBuffer
unfolding modbus_crc16 extract
parse_read_response response out log =
    let len = length response in
    let node = get_or response 0 0 in
    let function = get_or response 1 0 in
    let count = get_or response 2 0 in
    let expected = modbus_crc16 (take (len - 2) response) in
    let actual = u16 (bit_or (get_or response (len - 2) 0) (get_or response (len - 1) 0 * 256)) in
    let refuse : List ℕ → Bool × Registers × LogBuffer =
      λ text. (false, out, appendf (codes "[Ultrasonic] " ++ (text ++ newline)) log) in
    if not (len == response_size)
    then refuse (codes "invalid resp len=" ++ dec len)
    else if not (node == 0x01)
    then refuse (codes "unexpected node=" ++ dec node)
    else if has_bits function 0x80
    then refuse
        (codes "Modbus exception func=0x" ++ (hex2 function ++ (codes " code=0x" ++ hex2 count)))
    else if not (function == 0x03)
    then refuse (codes "unexpected func=0x" ++ hex2 function)
    else if not (count == 10)
    then refuse (codes "unexpected byteCount=" ++ dec count)
    else if not (expected == actual)
    then refuse (codes "crc mismatch exp=0x" ++ (hex4 expected ++ (codes " got=0x" ++ hex4 actual)))
    else (true, extract response, log)

abbrev pub no_registers : Registers
no_registers = record {
  distance_mm = 0;
  range_mm = 0;
  offset_mm = pos 0;
  baudrate = 0;
  node_address = 0;
}

abbrev pub wrote_all : List ℕ → Option ℕ → Bool
wrote_all tx none = false
wrote_all tx (some n) = n == length tx

module _ {S : Type 0} (uart : Uart S) where
  -- The receive loop, on fuel: `received` is what the buffer holds so far.
  unfoldable pub receive : ℕ → ℕ → ℕ → ℕ → List ℕ → S → Option (List ℕ × S)
  receive zero rx_len t0 timeout received s = none
  receive (suc fuel) rx_len t0 timeout received s =
      let elapsed = uart.now s - t0 in
      let remaining = timeout - elapsed in
      let chunk_timeout = if ltb remaining 500 then remaining else 500 in
      let (chunk, s') = uart.read (rx_len - length received) chunk_timeout s in
      let rest = receive fuel rx_len t0 timeout (received ++ chunk) s' in
      if not (ltb (length received) rx_len)
      then some (received, s)
      else if leb timeout elapsed
      then some (received, s)
      else rest

  -- As many turns as the loop can take: each brings a byte or a millisecond.
  unfoldable pub turns : ℕ → ℕ → ℕ
  turns rx_len timeout = suc (rx_len + timeout)

  -- `exchangeSensorFrame`: `none` inside the result is a failed exchange.
  unfoldable pub exchange_sensor_frame : List ℕ → ℕ → ℕ → ℕ → S → Option (Option (List ℕ) × S)
  unfolding receive turns
  exchange_sensor_frame tx rx_len inter_frame_delay_ms timeout s =
      let (written, s1) = uart.write tx (uart.flush s) in
      let s2 = uart.delay inter_frame_delay_ms s1 in
      let answer = receive (turns rx_len timeout) rx_len (uart.now s2) timeout [] s2 in
      if wrote_all tx written
      then elim answer [
        | none ↦ none
        | some (received, s3) ↦ some (if length received == rx_len then some received else none, s3)
      ]
      else some (none, s1)

  -- `readRegisters`, from the registers `out`: what it does with the answer of the exchange.
  unfoldable pub after_exchange :
      Registers
      → LogBuffer
      → Option (Option (List ℕ) × S)
      → Option (Bool × Registers × LogBuffer × S)
  unfolding parse_read_response
  after_exchange out log none = none
  after_exchange out log (some (none, s)) =
      some (false, out, appendf (codes "[Ultrasonic] transport read FAIL" ++ newline) log, s)
  after_exchange out log (some (some response, s)) =
      let (ok, registers, log') = parse_read_response response out log in
      some (ok, registers, log', s)

  unfoldable pub read_registers :
      Registers → LogBuffer → S → Option (Bool × Registers × LogBuffer × S)
  unfolding exchange_sensor_frame build_read_request after_exchange
  read_registers out log s =
      after_exchange out log
        (exchange_sensor_frame build_read_request response_size 6000 char_timeout_ms s)

  -- `setOnSensor`; `ready` is `s_sensor_uart_ready`.
  unfoldable pub set_on_sensor : Bool → S → Bool × S
  set_on_sensor ready s = if ready then (true, s) else uart.init_sensor s

  -- `UltrasonicSensor::warmup`: the answer, and the flag and the log after it.
  unfoldable pub warmup : Bool → LogBuffer → S → Option (Bool × Bool × LogBuffer × S)
  unfolding read_registers set_on_sensor
  warmup ready log s =
      let powered = uart.set_power true s in
      let log1 = appendf (codes "[Ultrasonic] power on" ++ newline) log in
      let (on, s1) = set_on_sensor ready powered in
      let answer = read_registers no_registers log1 (uart.delay 10000 s1) in
      if on
      then elim answer [
        | none ↦ none
        | some (ok, r, log2, s2) ↦
            some (ok, true, (if ok then appendf (warmup_text r) log2 else log2), s2)
      ]
      else some (false, false, appendf (codes "[Ultrasonic] setOnSensor FAIL" ++ newline) log1, s1)
    where
      warmup_text : Registers → List ℕ
      warmup_text r =
          codes "[Ultrasonic] warmup OK dist="
          ++ (dec r.distance_mm
              ++ (codes "mm range="
                  ++ (dec r.range_mm
                      ++ (codes "mm offset="
                          ++ (format_int 0 r.offset_mm
                              ++ (codes "mm baud="
                                  ++ (dec r.baudrate
                                      ++ (codes " node=" ++ (dec r.node_address ++ newline)))))))))

  -- `UltrasonicSensor::readDistanceMm`: what it does with the registers.
  unfoldable pub after_reading :
      ℤ → Option (Bool × Registers × LogBuffer × S) → Option (Bool × ℤ × LogBuffer × S)
  after_reading out none = none
  after_reading out (some (ok, r, log, s)) =
      let text = codes "[Ultrasonic] dist=" ++ (dec r.distance_mm ++ (codes "mm" ++ newline)) in
      some (if ok then (true, pos r.distance_mm, appendf text log, s) else (false, out, log, s))

  unfoldable pub read_distance_mm : ℤ → LogBuffer → S → Option (Bool × ℤ × LogBuffer × S)
  unfolding read_registers after_reading
  read_distance_mm out log s = after_reading out (read_registers no_registers log s)
