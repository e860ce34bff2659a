-- ===== src/Models.antt =====
-- The message types that the queues carry: main/middleware/data_models.hpp, and `DateTime` of
-- main/common/time_utils.hpp. A `char` array is the list of its bytes.
use hydro_logger.Prelude.{
  ℕ, ℤ, pos, List, [], ◌∷◌, ◌++◌, ◌==◌, Bool, replicate, ◌-◌, if◌then◌else◌, length,
}
use hydro_logger.Prelude.Bytes.{codes}

pub record DateTime : Type 0 where
  pub year : ℤ
  pub month : ℤ
  pub day : ℤ
  pub hour : ℤ
  pub minute : ℤ
  pub second : ℤ

-- The member initialisers of `DateTime`.
abbrev pub default_time : DateTime
default_time = record {
  year = pos 2026;
  month = pos 1;
  day = pos 1;
  hour = pos 0;
  minute = pos 0;
  second = pos 0;
}

-- `cfg::kDistanceSamples` and `cfg::kSessionLogSize`
abbrev pub distance_samples : ℕ
distance_samples = 3

abbrev pub session_log_size : ℕ
session_log_size = 1024

pub record DeviceMeta : Type 0 where
  pub device_id : List ℕ
  pub fw_version : List ℕ
  pub voltage_mv : ℤ

pub record MeasurementMsg : Type 0 where
  pub time : DateTime
  pub dist_mm : List ℤ
  pub valid : Bool
  pub meta : DeviceMeta

pub record LogMsg : Type 0 where
  pub time : DateTime
  pub text : List ℕ
  pub len : ℕ
  pub meta : DeviceMeta

-- A string literal in an array of `n` bytes: the rest is zero.
abbrev pub in_array : ℕ → List ℕ → List ℕ
in_array n s = s ++ replicate (n - length s) 0

-- The constructor of `DeviceMeta`; the serial number comes from the store.
unfoldable pub device_meta : List ℕ → DeviceMeta
device_meta serial = record {
  device_id = in_array 32 serial;
  fw_version = in_array 16 (codes "0.1.0");
  voltage_mv = pos 0;
}

-- The bytes of a C string: those before the first zero.
unfoldable pub c_str : List ℕ → List ℕ
c_str [] = []
c_str (c ∷ s) = if c == 0 then [] else c ∷ c_str s
