-- ===== src/Queue/Tests.antt =====
-- Records and snapshots of measurements at concrete inputs.
use hydro_logger.Prelude.{
  ℕ, ◌≡◌, refl, ◌<◌, ◌^◌, pos, [], ◌∷◌, ◌++◌, true, false, none, take, arith, All, replicate,
}
use hydro_logger.Prelude.Bytes.{codes}
use hydro_logger.Models.{default_time, MeasurementMsg}
use hydro_logger.Queue.Disk.{Medium}
use hydro_logger.Queue.Mirror.{Mirror, load_snapshot, persist_snapshot}
use hydro_logger.Queue.Mirror.Snapshot.{load-persist_cut, load-persist_header_cut}
use hydro_logger.Prelude.{◌∙◌, some}
use hydro_logger.Models.{LogMsg}
use hydro_logger.Queue.Ram.ListQueue.{list_queue, list_queue_laws}
use hydro_logger.Queue.Mirror.{Codec}
use hydro_logger.Queue.Mirror.Written.{shadow-persist_snapshot}
use hydro_logger.Queue.Mirror.Snapshot.{load-persist_snapshot}
use hydro_logger.Queue.Mirror.Sync.{Holds}
use hydro_logger.Queue.Mirror.Restart.{fresh, load-fresh}
use hydro_logger.Queue.Bus.{MessageBus, init}
use hydro_logger.Queue.Bus.Restore.{init_restores}
use hydro_logger.Queue.Records.{encode, decode, decode-encode}
use hydro_logger.Queue.Records.Layout.{
  item_size-measurement_codec, measurement_codec, FitsMessage, measurement_codec-CodecLaws,
}

abbrev sample : ℕ → MeasurementMsg
sample d = record {
  time = default_time;
  dist_mm = pos d ∷ pos 1502 ∷ pos 1499 ∷ [];
  valid = true;
  meta = record {
    device_id = codes "TD_MW_0012" ++ replicate 22 0;
    fw_version = codes "0.1.0" ++ replicate 11 0;
    voltage_mv = pos 3700;
  };
}

sample-Fits : (d : ℕ) → d < 2 ^ 31 → FitsMessage (sample d)
sample-Fits d h = record {
  year = omega arith;
  month = omega arith;
  day = omega arith;
  hour = omega arith;
  minute = omega arith;
  second = omega arith;
  samples = refl;
  dist = omega arith;
  device_id = refl;
  fw_version = refl;
  voltage_mv = omega arith;
}

abbrev two_samples : Mirror MeasurementMsg
two_samples = record { capacity = 30; shadow = sample 1500 ∷ sample 1510 ∷ []; file = none }

two_samples-Fits : All FitsMessage two_samples.shadow
two_samples-Fits = (sample-Fits 1500 (omega arith), (sample-Fits 1510 (omega arith), tt))

-- Room for the header, one record of 92 bytes and 7 bytes more.
abbrev small_medium : Medium
small_medium = record { opens = true; room = 115; buffer = 0 }

abbrev large_medium : Medium
large_medium = record { opens = true; room = 100000; buffer = 128 }

decode-encode_example : decode (encode (sample 1500)) ≡ sample 1500
decode-encode_example = decode-encode (sample 1500) refl

load-persist_cut_example :
    ((load_snapshot measurement_codec
        (persist_snapshot measurement_codec small_medium two_samples).1).0
      ≡ true)
    × ((load_snapshot measurement_codec
          (persist_snapshot measurement_codec small_medium two_samples).1).1.shadow
        ≡ take 1 two_samples.shadow)
load-persist_cut_example =
    load-persist_cut measurement_codec FitsMessage measurement_codec-CodecLaws small_medium
      two_samples 1 7 two_samples-Fits (omega arith) (omega arith) refl
      (omega (arith, item_size-measurement_codec)) (omega (arith, item_size-measurement_codec))

load-persist_header_cut_example :
    ((load_snapshot measurement_codec
        (persist_snapshot measurement_codec
          (record { opens = true; room = 9; buffer = 128 })
          two_samples).1).0
      ≡ false)
    × ((load_snapshot measurement_codec
          (persist_snapshot measurement_codec
            (record { opens = true; room = 9; buffer = 128 })
            two_samples).1).1.shadow
        ≡ [])
load-persist_header_cut_example =
    load-persist_header_cut measurement_codec FitsMessage measurement_codec-CodecLaws
      (record { opens = true; room = 9; buffer = 128 }) two_samples refl (omega arith)

-- What the mirror is after its two samples have been written.
abbrev saved : Mirror MeasurementMsg
saved = (persist_snapshot measurement_codec large_medium two_samples).1

-- A log record of one byte; no log is queued.
abbrev log_codec : Codec LogMsg
log_codec = record {
  item_size = 1;
  bytes = λ m. 0 ∷ [];
  read = λ b. record {
    time = default_time;
    text = [];
    len = 0;
    meta = record { device_id = []; fw_version = []; voltage_mv = pos 0 };
  };
}

abbrev before_restart : MessageBus (list_queue 30) (list_queue 20) measurement_codec log_codec
before_restart = record {
  q_measure = none;
  q_log = none;
  measure_mirror = saved;
  log_mirror = record { capacity = 20; shadow = []; file = none };
}

saved_loads : load_snapshot measurement_codec (fresh saved) ≡ (true, saved)
saved_loads =
    load-fresh measurement_codec (list_queue 30) (list_queue_laws 30) saved
    ∙ (load-persist_snapshot measurement_codec FitsMessage measurement_codec-CodecLaws large_medium
        two_samples two_samples-Fits (omega arith) (omega arith) refl
        (omega (arith, item_size-measurement_codec))).1

init_restores_example :
    let (ok, storage, b) =
      init
        (list_queue 30)
        (list_queue 20)
        measurement_codec
        log_codec
        (some [])
        (some [])
        true
        large_medium
        large_medium
        (record { attempted = false; mounted = false; registrations = 0 })
        (record before_restart {
          measure_mirror = fresh before_restart.measure_mirror;
          log_mirror = fresh before_restart.log_mirror;
        }) in
    (ok ≡ true)
    × (storage.mounted ≡ true)
    × (storage.registrations ≡ 1)
    × Holds measurement_codec (list_queue 30) (list_queue_laws 30) b.q_measure saved.shadow
    × Holds log_codec (list_queue 20) (list_queue_laws 20) b.q_log []
    × (b.measure_mirror ≡ saved)
    × (b.log_mirror ≡ before_restart.log_mirror)
unfolding load_snapshot
init_restores_example =
    init_restores (list_queue 30) (list_queue 20) measurement_codec log_codec (list_queue_laws 30)
      (list_queue_laws 20) before_restart [] [] large_medium large_medium refl refl
      (rw (shadow-persist_snapshot measurement_codec large_medium two_samples).0 (omega arith))
      (omega arith) saved_loads refl
