-- ===== src/Queue/Records.antt =====
-- The records of a snapshot, and `RecordCodec<MeasurementMsg>` and `RecordCodec<LogMsg>`.
pub mod Layout
use hydro_logger.Prelude.{
  ℕ, zero, suc, ◌≡◌, refl, ap, ℤ, pos, List, [], ◌∷◌, ◌++◌, Bool, true, false, not, length, get_or,
  set, ◌==◌, if◌then◌else◌, arith, ◌-◌,
}
use hydro_logger.Models.{DateTime, DeviceMeta, MeasurementMsg, LogMsg, distance_samples}

pub record DeviceMetaRecord : Type 0 where
  pub device_id : List ℕ
  pub fw_version : List ℕ
  pub voltage_mv : ℤ

pub record MeasurementRecord : Type 0 where
  pub time : DateTime
  pub dist_mm : List ℤ
  pub valid : ℕ
  pub meta : DeviceMetaRecord

pub record LogRecord : Type 0 where
  pub time : DateTime
  pub text : List ℕ
  pub len : ℕ
  pub meta : DeviceMetaRecord

-- The loops `for (i = 0; i < kDistanceSamples; ++i) to[i] = from[i]`, `left` rounds before the end.
copy_samples : ℕ → List ℤ → List ℤ → List ℤ
copy_samples zero from to = to
copy_samples (suc left) from to =
    let i = distance_samples - suc left in copy_samples left from (set to i (get_or from i (pos 0)))

zeros : List ℤ
zeros = pos 0 ∷ pos 0 ∷ pos 0 ∷ []

encode_meta : DeviceMeta → DeviceMetaRecord
encode_meta m = record {
  device_id = m.device_id;
  fw_version = m.fw_version;
  voltage_mv = m.voltage_mv;
}

decode_meta : DeviceMetaRecord → DeviceMeta
decode_meta r = record {
  device_id = r.device_id;
  fw_version = r.fw_version;
  voltage_mv = r.voltage_mv;
}

pub encode : MeasurementMsg → MeasurementRecord
unfolding copy_samples encode_meta zeros
encode m = record {
  time = m.time;
  dist_mm = copy_samples distance_samples m.dist_mm zeros;
  valid = if m.valid then 1 else 0;
  meta = encode_meta m.meta;
}

pub decode : MeasurementRecord → MeasurementMsg
unfolding copy_samples decode_meta zeros
decode r = record {
  time = r.time;
  dist_mm = copy_samples distance_samples r.dist_mm zeros;
  valid = not (r.valid == 0);
  meta = decode_meta r.meta;
}

pub encode_log : LogMsg → LogRecord
unfolding encode_meta
encode_log m = record { time = m.time; text = m.text; len = m.len; meta = encode_meta m.meta }

pub decode_log : LogRecord → LogMsg
unfolding decode_meta
decode_log r = record { time = r.time; text = r.text; len = r.len; meta = decode_meta r.meta }

copy_samples_lem :
    (from to : List ℤ)
    → length from ≡ 3
    → length to ≡ 3
    → copy_samples distance_samples from to ≡ from
unfolding copy_samples
copy_samples_lem (a ∷ b ∷ d ∷ []) (x ∷ y ∷ z ∷ []) h k = refl
copy_samples_lem _ _ h k = absurd (omega arith)

-- A measurement of `kDistanceSamples` samples is decoded from its record unchanged.
pub decode-encode :
    (m : MeasurementMsg) → length m.dist_mm ≡ distance_samples → decode (encode m) ≡ m
unfolding decode encode
decode-encode m h = ground (arith, copy_samples_lem m.dist_mm zeros h refl)

pub decode_log-encode_log : (m : LogMsg) → decode_log (encode_log m) ≡ m
unfolding decode_log encode_log
decode_log-encode_log m = refl
