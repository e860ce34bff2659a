-- ===== src/Sensor/Tests.antt =====
-- The sensors at concrete inputs.
use hydro_logger.Prelude.{
  ℕ, zero, suc, ◌+◌, ◌≡◌, ◌≤◌, ◌<◌, ◌⊎◌, inl, inr, refl, ℤ, pos, Bool, true, false, Option, none,
  some, List, [], ◌∷◌, length, take, ◌++◌, arith,
}
use hydro_logger.Prelude.Bytes.{codes}
use hydro_logger.LogBuffer.{LogBuffer, new_log}
use hydro_logger.Sensor.{Sensor, laser}
use hydro_logger.Sensor.Manager.{is_valid_distance}
use hydro_logger.Sensor.Ultrasonic.{
  Uart, no_registers, modbus_crc16, parse_read_response, read_u16_be, extract, read_distance_mm,
}
use hydro_logger.Sensor.Ultrasonic.Receive.{Reads, read_distance_mm-returns}
use hydro_logger.Sensor.Ultrasonic.Response.{extract-level}

-- A sensor that plays a list of readings; `none` is a failed one.
abbrev play : ℤ → LogBuffer → List (Option ℤ) → Bool × ℤ × LogBuffer × List (Option ℤ)
play mm log [] = (false, mm, log, [])
play mm log (none ∷ s) = (false, mm, log, s)
play mm log (some z ∷ s) = (true, z, log, s)

abbrev player : Sensor (List (Option ℤ))
player = record {
  warmup = λ log s. (true, log, s);
  read_distance_mm = play;
  finish_measurement = λ log s. (log, s);
  type = laser;
}

-- A failed and an out-of-range reading are repeated.
abbrev readings : List (Option ℤ)
readings = some (pos 1200) ∷ none ∷ some (pos 30001) ∷ some (pos 1201) ∷ some (pos 1202) ∷ []

-- A line that brings one byte at a time, and time that passes where there is none: the bytes to come
-- and the clock.
abbrev take_byte : ℕ → ℕ → List ℕ × ℕ → List ℕ × List ℕ × ℕ
take_byte zero ms (bytes, now) = ([], bytes, now + 1)
take_byte (suc n) ms ([], now) = ([], [], now + 1)
take_byte (suc n) ms (b ∷ bytes, now) = (b ∷ [], bytes, now)

abbrev line : Uart (List ℕ × ℕ)
line = record {
  init_sensor = λ s. (true, s);
  flush = λ s. s;
  write = λ tx s. (some (length tx), s);
  read = λ n ms s. let (chunk, bytes, now) = take_byte n ms s in (chunk, (bytes, now));
  now = λ s. s.1;
  delay = λ ms s. (s.0, s.1 + ms);
  set_power = λ on s. s;
}

line_bounded : (n ms : ℕ) (s : List ℕ × ℕ) → length (line.read n ms s).0 ≤ n
line_bounded zero ms (bytes, now) = omega arith
line_bounded (suc n) ms ([], now) = omega arith
line_bounded (suc n) ms (b ∷ bytes, now) = omega arith

line_goes_on :
    (n ms : ℕ) (s : List ℕ × ℕ)
    → 1 ≤ n
    → 1 ≤ ms
    → (1 ≤ length (line.read n ms s).0) ⊎ (line.now s < line.now (line.read n ms s).1)
line_goes_on zero ms s h g = absurd (omega arith)
line_goes_on (suc n) ms ([], now) h g = inr (omega arith)
line_goes_on (suc n) ms (b ∷ bytes, now) h g = inl (omega arith)

line_forward : (n ms : ℕ) (s : List ℕ × ℕ) → line.now s ≤ line.now (line.read n ms s).1
line_forward zero ms (bytes, now) = omega arith
line_forward (suc n) ms ([], now) = omega arith
line_forward (suc n) ms (b ∷ bytes, now) = omega arith

line-Reads : Reads line
line-Reads = record { bounded = line_bounded; goes_on = line_goes_on; forward = line_forward }

-- A distance of 1000 mm of a range of 5000 mm, without its CRC.
abbrev frame : List ℕ
frame = 1 ∷ 3 ∷ 10 ∷ 3 ∷ 232 ∷ 19 ∷ 136 ∷ 0 ∷ 0 ∷ 0 ∷ 1 ∷ 0 ∷ 1 ∷ 0 ∷ 0 ∷ []

read_distance_mm-returns_example :
    (r : Bool × ℤ × LogBuffer × (List ℕ × ℕ)) × (read_distance_mm line (pos 7) new_log (frame, 0)
      ≡ some r)
    × ((r.0 ≡ true) ⊎ (r.1 ≡ pos 7))
read_distance_mm-returns_example =
    read_distance_mm-returns line line-Reads (pos 7) new_log (frame, 0)

-- The check value of CRC-16/MODBUS.
crc_check : modbus_crc16 (codes "123456789") ≡ 0x4B37
unfolding modbus_crc16
crc_check = refl

-- The frame with its CRC is accepted; without it, it is refused.
accepted :
    parse_read_response (take 13 frame ++ 0xA3 ∷ 0xAC ∷ []) no_registers new_log
    ≡ (true, extract frame, new_log)
unfolding parse_read_response modbus_crc16 extract
accepted = refl

refused : (parse_read_response frame no_registers new_log).0 ≡ false
unfolding parse_read_response modbus_crc16
refused = refl

extract-level_example : (extract frame).distance_mm + read_u16_be frame 3 ≡ read_u16_be frame 5
unfolding extract is_valid_distance
extract-level_example = extract-level frame (omega arith) refl
