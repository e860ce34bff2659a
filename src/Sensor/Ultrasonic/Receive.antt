-- ===== src/Sensor/Ultrasonic/Receive.antt =====
-- The receive loop ends, and the driver always answers.
use hydro_logger.Prelude.{
  ℕ, zero, suc, ◌+◌, ◌-◌, ◌≡◌, ◌≤◌, ◌<◌, ◌⊎◌, inl, inr, refl, ap, ◌∙◌, Bool, true, false, Option,
  none, some, List, [], ◌++◌, length, length-append, ltb, leb, ◌==◌, if◌then◌else◌, arith,
  Bool-cases, ℤ,
}
use hydro_logger.LogBuffer.{LogBuffer}
use hydro_logger.Sensor.Ultrasonic.{
  Uart, Registers, wrote_all, receive, build_read_request, no_registers, after_exchange,
  after_reading, turns, exchange_sensor_frame, read_registers, read_distance_mm,
}

-- A read of the UART gives no more bytes than asked for, and waits if it gives none.
pub record Reads {S : Type 0} (uart : Uart S) : Type 0 where
  pub bounded : (n ms : ℕ) (s : S) → length (uart.read n ms s).0 ≤ n
  pub goes_on :
      (n ms : ℕ) (s : S)
      → 1 ≤ n
      → 1 ≤ ms
      → (1 ≤ length (uart.read n ms s).0) ⊎ (uart.now s < uart.now (uart.read n ms s).1)
  pub forward : (n ms : ℕ) (s : S) → uart.now s ≤ uart.now (uart.read n ms s).1

module _ {S : Type 0} (uart : Uart S) (reads : Reads uart) where
  receive-returns :
      (fuel rx_len t0 timeout : ℕ) (received : List ℕ) (s : S)
      → length received ≤ rx_len
      → t0 ≤ uart.now s
      → rx_len - length received + (timeout - (uart.now s - t0)) < fuel
      → (r : List ℕ × S) × (receive uart fuel rx_len t0 timeout received s ≡ some r)
        × (length r.0 ≤ rx_len)
  unfolding receive
  receive-returns zero rx_len t0 timeout received s small after enough = absurd (omega arith)
  receive-returns (suc fuel) rx_len t0 timeout received s small after enough =
      let elapsed = uart.now s - t0 in
      elim (Bool-cases (ltb (length received) rx_len)) [
        | inr full ↦ ((received, s), (ground (arith, full)), small)
        | inl more ↦ elim (Bool-cases (leb timeout elapsed)) [
          | inl over ↦ ((received, s), (ground (arith, more, over)), small)
          | inr left ↦
              let n = rx_len - length received in
              let ms = if ltb (timeout - elapsed) 500 then timeout - elapsed else 500 in
              let q = uart.read n ms s in
              let size = length-append received q.0 in
              let b = reads.bounded n ms s in
              let f = reads.forward n ms s in
              let g = reads.goes_on n ms s (ground (arith, more)) (ground (arith, left)) in
              let (r, e, short) =
                receive-returns fuel rx_len t0 timeout (received ++ q.0) q.1
                  (omega (arith, size, b, small)) (omega (arith, f, after))
                  (ground (arith, size, b, f, g, more, left, enough)) in
              (r, (ground (arith, more, left, e)), short)
        ]
      ]

  exchange-returns :
      (tx : List ℕ) (rx_len delay timeout : ℕ) (s : S)
      → (r : Option (List ℕ) × S) × (exchange_sensor_frame uart tx rx_len delay timeout s ≡ some r)
        × ((response : List ℕ) → r.0 ≡ some response → length response ≡ rx_len)
  unfolding exchange_sensor_frame turns
  exchange-returns tx rx_len delay timeout s =
      let q = uart.write tx (uart.flush s) in
      let s2 = uart.delay delay q.1 in
      let (r, e, short) =
        receive-returns (suc (rx_len + timeout)) rx_len (uart.now s2) timeout [] s2 (omega arith)
          (omega arith) (omega arith) in
      elim (Bool-cases (wrote_all tx q.0)) [
        | inr w ↦ ((none, q.1), (ground (arith, w)), λ response h. ground (arith, h))
        | inl w ↦ (
          (if length r.0 == rx_len then some r.0 else none, r.1),
          (ground (arith, w, e)),
          λ response h. (ground (arith, h)),
        )
      ]

  after_exchange-some :
      (out : Registers) (log : LogBuffer) (r : Option (List ℕ) × S)
      → (x : Bool × Registers × LogBuffer × S) × (after_exchange uart out log (some r) ≡ some x)
  unfolding after_exchange
  after_exchange-some out log (none, s) = (_, refl)
  after_exchange-some out log (some response, s) = (_, refl)

  read_registers-returns :
      (out : Registers) (log : LogBuffer) (s : S)
      → (x : Bool × Registers × LogBuffer × S) × (read_registers uart out log s ≡ some x)
  unfolding read_registers
  read_registers-returns out log s =
      let (r, e, _) = exchange-returns build_read_request 15 6000 6000 s in
      let (x, g) = after_exchange-some out log r in (x, ap (after_exchange uart out log) e ∙ g)

  after_reading-some :
      (out : ℤ) (x : Bool × Registers × LogBuffer × S)
      → (r : Bool × ℤ × LogBuffer × S) × (after_reading uart out (some x) ≡ some r)
        × ((r.0 ≡ true) ⊎ (r.1 ≡ out))
  unfolding after_reading
  after_reading-some out (true, r, log, s) = (_, refl, inl refl)
  after_reading-some out (false, r, log, s) = (_, refl, inr refl)

  -- Whatever the sensor does, a reading comes to an end within the turns that the loop is given, and
  -- one that fails leaves the distance as it was.
  pub read_distance_mm-returns :
      (out : ℤ) (log : LogBuffer) (s : S)
      → (r : Bool × ℤ × LogBuffer × S) × (read_distance_mm uart out log s ≡ some r)
        × ((r.0 ≡ true) ⊎ (r.1 ≡ out))
  unfolding read_distance_mm
  read_distance_mm-returns out log s =
      let (x, e) = read_registers-returns no_registers log s in
      let (r, g, failed) = after_reading-some out x in
      (r, ap (after_reading uart out) e ∙ g, failed)
