-- ===== src/SyncTask.antt =====
-- main/app/sync_task.cpp: sending with retries, and the loop that drains the measurements. The bus is
-- given by its peek and its acknowledgement, the link and the clock by what they answer on a state of
-- the hardware.
pub mod Drain
pub mod TimeSync
mod Tests
use hydro_logger.Prelude.{
  ℕ, zero, suc, ◌+◌, ◌-◌, ℤ, pos, Bool, true, false, not, ◌&&◌, Option, none, some, List, [], ◌∷◌,
  ◌++◌, if◌then◌else◌,
}
use hydro_logger.Prelude.Bytes.{codes}
use hydro_logger.Prelude.Decimal.{format_int}
use hydro_logger.Models.{MeasurementMsg}
use hydro_logger.LogBuffer.{LogBuffer, appendf}
use hydro_logger.JsonPacker.{dist, pack_water_level}
use hydro_logger.AppState.{Bits}
use hydro_logger.Nvs.{CommType}
use hydro_logger.Connectivity.{FailoverQueue, enqueue_failover_request, sync_send_fail}

-- `cfg::kSyncSendRetries`
abbrev pub sync_send_retries : ℕ
sync_send_retries = 3

abbrev newline : List ℕ
newline = 10 ∷ []

abbrev dec : ℕ → List ℕ
dec n = format_int 0 (pos n)

-- What the loop calls, over the hardware `W` and the bus `B`.
pub record Link (W B : Type 0) : Type 0 where
  pub peek : B → Option MeasurementMsg
  pub ack : B → B
  -- `withinSyncWindow`
  pub within_window : W → Bool
  pub read_milli_volts : W → ℤ × W
  -- The send function of the active module, or of the server API.
  pub send : List ℕ → LogBuffer → W → Bool × LogBuffer × W
  -- The type of the active module, if there is one.
  pub active : Option CommType
  -- The serial number that the packer asks the store for.
  pub serial : List ℕ
  -- The build for the pressure sensor, which also reports failed readings.
  pub pressure : Bool

module _ {W : Type 0} (send : LogBuffer → W → Bool × LogBuffer × W) where
  -- `sendWithRetries` with `n` attempts left, from `attempt` on.
  unfoldable pub send_with_retries : List ℕ → ℕ → ℕ → LogBuffer → W → Bool × LogBuffer × W
  send_with_retries tag zero attempt log w = (false, log, w)
  send_with_retries tag (suc n) attempt log w =
      let text =
        codes "[Sync] "
        ++ (tag
            ++ (codes " send attempt "
                ++ (dec attempt ++ (codes "/" ++ (dec sync_send_retries ++ newline))))) in
      let (ok, log1, w1) = send (appendf text log) w in
      let rest = send_with_retries tag n (attempt + 1) log1 w1 in
      if ok then (true, log1, w1) else rest

-- What the loop changes.
pub record Progress (W B : Type 0) : Type 0 where
  pub bus : B
  pub hardware : W
  pub log : LogBuffer
  pub bits : Bits
  pub failover : FailoverQueue

abbrev samples_text : MeasurementMsg → List ℕ
samples_text mm =
    codes " d=["
    ++ (format_int 0 (dist mm 0)
        ++ (codes ","
            ++ (format_int 0 (dist mm 1)
                ++ (codes "," ++ (format_int 0 (dist mm 2) ++ (codes "]" ++ newline))))))

abbrev request_failover : Option CommType → FailoverQueue → FailoverQueue
request_failover none q = q
request_failover (some t) q = (enqueue_failover_request t sync_send_fail q).1

module _ {W B : Type 0} (link : Link W B) where
  -- A message that is skipped without being sent.
  unfoldable pub skips : MeasurementMsg → Bool
  skips mm = not mm.valid && not link.pressure

  unfoldable pub skip : MeasurementMsg → Progress W B → Progress W B
  skip mm p = record p {
    bus = link.ack p.bus;
    log = appendf (codes "[Sync] skip invalid measurement" ++ samples_text mm) p.log;
  }

  -- The text of a message, with the voltage that was read.
  unfoldable pub packed : ℤ → MeasurementMsg → List ℕ
  packed voltage mm =
      pack_water_level link.serial (record mm { meta = record mm.meta { voltage_mv = voltage } })

  -- The sending of a message that is not skipped: the answer and the progress before the queue is
  -- touched.
  unfoldable pub transmit : MeasurementMsg → Progress W B → Bool × Progress W B
  unfolding send_with_retries packed
  transmit mm p =
      let log0 =
        if mm.valid
        then p.log
        else appendf (codes "[Sync] send raw on read-fail" ++ samples_text mm) p.log in
      let (voltage, w1) = link.read_milli_volts p.hardware in
      let json = packed voltage mm in
      let log1 = appendf (codes "[Sync] TX water_level: " ++ (json ++ newline)) log0 in
      let (ok, log2, w2) =
        send_with_retries (link.send json) (codes "water_level") sync_send_retries 1 log1 w1 in
      let flag = if ok then 1 else 0 in
      let log3 = appendf (codes "[Sync] water_level send=" ++ (dec flag ++ newline)) log2 in
      (ok, record p { hardware = w2; log = log3 })

  unfoldable pub keep : Progress W B → Progress W B
  keep p = record p {
    bits = record p.bits { last_sync_fail = true };
    failover = request_failover link.active p.failover;
    log =
        appendf
          (codes "[Sync] water_level send FAIL after "
            ++ (dec sync_send_retries
                ++ (codes " attempts -> keep item in queue, stop drain" ++ newline)))
          p.log;
  }

  unfoldable pub delivered : Progress W B → Progress W B
  delivered p = record p { bus = link.ack p.bus }

  -- The loop over the measurements, on fuel: each turn acknowledges a message or ends the loop.
  unfoldable pub drain : ℕ → Progress W B → Option (Progress W B)
  unfolding skips skip transmit keep delivered
  drain zero p = none
  drain (suc fuel) p = elim (link.peek p.bus) [
    | none ↦ some p
    | some mm ↦
        let after_skip = drain fuel (skip mm p) in
        let (ok, p1) = transmit mm p in
        let after_delivery = drain fuel (delivered p1) in
        if not (link.within_window p.hardware)
        then some p
        else if skips mm
        then after_skip
        else if ok
        then after_delivery
        else some (keep p1)
  ]
