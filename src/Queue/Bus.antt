-- ===== src/Queue/Bus.antt =====
-- `MessageBus` and `PublishApi`: one mirrored queue for measurements and one for logs.
pub mod Restore
use hydro_logger.Prelude.{
  ℕ, ◌≡◌, Bool, true, false, ◌&&◌, Option, none, some, List, [], length, if◌then◌else◌,
}
use hydro_logger.Models.{MeasurementMsg, LogMsg}
use hydro_logger.Queue.Ram.{RamQueue, QueueLaws}
use hydro_logger.Queue.Disk.{Medium, Storage}
use hydro_logger.Queue.Mirror.{Codec, Mirror, enqueue, peek, pop, ack}
use hydro_logger.Queue.Mirror.Restart.{start, fresh}

-- `cfg::kMeasureQueueLen` and `cfg::kLogQueueLen`
abbrev pub measure_queue_len : ℕ
measure_queue_len = 30

abbrev pub log_queue_len : ℕ
log_queue_len = 20

module _ (measures : RamQueue MeasurementMsg) (logs : RamQueue LogMsg) (cm : Codec MeasurementMsg)
    (cl : Codec LogMsg) where
  pub record MessageBus : Type 0 where
    pub q_measure : Option measures.Q
    pub q_log : Option logs.Q
    pub measure_mirror : Mirror MeasurementMsg
    pub log_mirror : Mirror LogMsg

  -- The members as constructed, over the files that the storage has.
  unfoldable pub constructed : Option (List ℕ) → Option (List ℕ) → MessageBus
  constructed measure_file log_file = record {
    q_measure = none;
    q_log = none;
    measure_mirror = record { capacity = measure_queue_len; shadow = []; file = measure_file };
    log_mirror = record { capacity = log_queue_len; shadow = []; file = log_file };
  }

  unfoldable is_created : {A : Type 0} → Option A → Bool
  is_created none = false
  is_created (some q) = true

  -- `created_measure` and `created_log` are what `xQueueCreate` returns, `registers` is what
  -- `esp_vfs_spiffs_register` answers, and the media are those of the two possible rewrites.
  unfoldable pub init :
      Option measures.Q
      → Option logs.Q
      → Bool
      → Medium
      → Medium
      → Storage
      → MessageBus
      → Bool × Storage × MessageBus
  unfolding is_created
  init created_measure created_log registers medium_m medium_l storage b =
      let (measure_ok, storage', qm, mm) =
        start cm measures registers storage medium_m created_measure b.measure_mirror in
      let (log_ok, storage'', ql, ml) =
        start cl logs registers storage' medium_l created_log b.log_mirror in
      if is_created created_measure && is_created created_log
      then (
        measure_ok && log_ok,
        storage'',
        record { q_measure = qm; q_log = ql; measure_mirror = mm; log_mirror = ml },
      )
      else (false, storage, record b { q_measure = created_measure; q_log = created_log })

  unfoldable pub publish_measurement : Medium → MeasurementMsg → MessageBus → Bool × MessageBus
  publish_measurement medium msg b =
      let (ok, q, m) = enqueue cm measures medium msg b.q_measure b.measure_mirror in
      (ok, record b { q_measure = q; measure_mirror = m })

  unfoldable pub publish_log : Medium → LogMsg → MessageBus → Bool × MessageBus
  publish_log medium msg b =
      let (ok, q, m) = enqueue cl logs medium msg b.q_log b.log_mirror in
      (ok, record b { q_log = q; log_mirror = m })

  unfoldable pub peek_measurement : MessageBus → Option MeasurementMsg
  peek_measurement b = peek cm measures b.q_measure

  unfoldable pub peek_log : MessageBus → Option LogMsg
  peek_log b = peek cl logs b.q_log

  unfoldable pub pop_measurement : Medium → MessageBus → Bool × Option MeasurementMsg × MessageBus
  pop_measurement medium b =
      let (ok, out, q, m) = pop cm measures medium b.q_measure b.measure_mirror in
      (ok, out, record b { q_measure = q; measure_mirror = m })

  unfoldable pub pop_log : Medium → MessageBus → Bool × Option LogMsg × MessageBus
  pop_log medium b =
      let (ok, out, q, m) = pop cl logs medium b.q_log b.log_mirror in
      (ok, out, record b { q_log = q; log_mirror = m })

  unfoldable pub ack_measurement : Medium → MessageBus → Bool × MessageBus
  ack_measurement medium b =
      let (ok, q, m) = ack cm measures medium b.q_measure b.measure_mirror in
      (ok, record b { q_measure = q; measure_mirror = m })

  unfoldable pub ack_log : Medium → MessageBus → Bool × MessageBus
  ack_log medium b =
      let (ok, q, m) = ack cl logs medium b.q_log b.log_mirror in
      (ok, record b { q_log = q; log_mirror = m })

  unfoldable pub measure_depth : MessageBus → ℕ
  measure_depth b = elim b.q_measure [ none ↦ 0 | some q ↦ measures.waiting q ]

  unfoldable pub log_depth : MessageBus → ℕ
  log_depth b = elim b.q_log [ none ↦ 0 | some q ↦ logs.waiting q ]

  -- `PublishApi`, over the bus that `setBus` stored in `s_bus`.
  unfoldable pub api_publish_measurement :
      Medium → MeasurementMsg → Option MessageBus → Bool × Option MessageBus
  api_publish_measurement medium msg none = (false, none)
  api_publish_measurement medium msg (some b) =
      let (ok, b') = publish_measurement medium msg b in (ok, some b')

  unfoldable pub api_publish_log : Medium → LogMsg → Option MessageBus → Bool × Option MessageBus
  api_publish_log medium msg none = (false, none)
  api_publish_log medium msg (some b) = let (ok, b') = publish_log medium msg b in (ok, some b')
