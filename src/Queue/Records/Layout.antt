-- ===== src/Queue/Records/Layout.antt =====
-- The memory image of `MeasurementRecord` on the ESP32 (little-endian, `int` of 32 bits, three bytes
-- of padding behind `valid`), and with it `RecordCodec<MeasurementMsg>` as the snapshot uses it.
use hydro_logger.Prelude.{
  ℕ, ◌-◌, ◌≡◌, refl, ◌≤◌, ◌<◌, ◌^◌, ◌∙◌, ap, ℤ, pos, negsuc, List, [], ◌∷◌, ◌++◌, length, get_or,
  take, drop, ltb, if◌then◌else◌, arith, All, length-append, take-append, drop-append, sym,
  append-nil,
}
use mathlib.Core.Path.{subst}
use hydro_logger.Prelude.Int.{to_unsigned, pos_part, neg_part}
use hydro_logger.Prelude.Bytes.{u8}
use hydro_logger.Models.{MeasurementMsg}
use hydro_logger.Queue.Disk.{u32_bytes, read_u32}
use hydro_logger.Queue.Mirror.{Codec}
use hydro_logger.Queue.Mirror.Written.{CodecLaws}
use hydro_logger.Queue.Records.{
  DeviceMetaRecord, MeasurementRecord, encode, decode, decode-encode, zeros, copy_samples_lem,
}

-- An `int` in memory, and read back: two's complement.
i32_bytes : ℤ → List ℕ
unfolding u32_bytes
i32_bytes z = u32_bytes (to_unsigned (2 ^ 32) z)

read_i32 : List ℕ → ℤ
unfolding read_u32
read_i32 b = let v = read_u32 b in if ltb v (2 ^ 31) then pos v else negsuc (2 ^ 32 - 1 - v)

abbrev pub FitsInt : ℤ → Type 0
FitsInt z = (pos_part z < 2 ^ 31) × (neg_part z ≤ 2 ^ 31)

read_i32-i32_bytes : (z : ℤ) (rest : List ℕ) → FitsInt z → read_i32 (i32_bytes z ++ rest) ≡ z
unfolding read_i32 i32_bytes
read_i32-i32_bytes (pos n) rest h = ground arith
read_i32-i32_bytes (negsuc n) rest h = ground arith

pub measurement_size : ℕ
measurement_size = 92

tail_image : DeviceMetaRecord → List ℕ
tail_image m = m.device_id ++ (m.fw_version ++ i32_bytes m.voltage_mv)

samples_image : List ℤ → List ℕ → List ℕ
samples_image d rest =
    i32_bytes (get_or d 0 (pos 0))
    ++ (i32_bytes (get_or d 1 (pos 0)) ++ (i32_bytes (get_or d 2 (pos 0)) ++ rest))

image : MeasurementRecord → List ℕ
unfolding samples_image tail_image
image r =
    i32_bytes year
    ++ (i32_bytes month
        ++ (i32_bytes day
            ++ (i32_bytes hour
                ++ (i32_bytes minute
                    ++ (i32_bytes second
                        ++ samples_image r.dist_mm
                            ((u8 r.valid ∷ 0 ∷ 0 ∷ 0 ∷ []) ++ tail_image r.meta))))))
  where
    open r.time use {year, month, day, hour, minute, second}

view : List ℕ → MeasurementRecord
view b = record {
  time = record {
    year = read_i32 b;
    month = read_i32 (drop 4 b);
    day = read_i32 (drop 8 b);
    hour = read_i32 (drop 12 b);
    minute = read_i32 (drop 16 b);
    second = read_i32 (drop 20 b);
  };
  dist_mm = read_i32 (drop 24 b) ∷ read_i32 (drop 28 b) ∷ read_i32 (drop 32 b) ∷ [];
  valid = get_or b 36 0;
  meta = record {
    device_id = take 32 (drop 40 b);
    fw_version = take 16 (drop 32 (drop 40 b));
    voltage_mv = read_i32 (drop 16 (drop 32 (drop 40 b)));
  };
}

-- The values that the C++ types hold.
record FitsRecord (r : MeasurementRecord) : Type 0 where
  year : FitsInt r.time.year
  month : FitsInt r.time.month
  day : FitsInt r.time.day
  hour : FitsInt r.time.hour
  minute : FitsInt r.time.minute
  second : FitsInt r.time.second
  samples : length r.dist_mm ≡ 3
  dist : All FitsInt r.dist_mm
  valid : r.valid < 256
  device_id : length r.meta.device_id ≡ 32
  fw_version : length r.meta.fw_version ≡ 16
  voltage_mv : FitsInt r.meta.voltage_mv

view_meta :
    (m : DeviceMetaRecord)
    → length m.device_id ≡ 32
    → length m.fw_version ≡ 16
    → FitsInt m.voltage_mv
    → (take 32 (tail_image m) ≡ m.device_id)
      × (take 16 (drop 32 (tail_image m)) ≡ m.fw_version)
      × (read_i32 (drop 16 (drop 32 (tail_image m))) ≡ m.voltage_mv)
unfolding tail_image
view_meta m a b v = ground (
  arith,
  take-append m.device_id (m.fw_version ++ i32_bytes m.voltage_mv) 32,
  drop-append m.device_id (m.fw_version ++ i32_bytes m.voltage_mv) 32,
  take-append m.fw_version (i32_bytes m.voltage_mv) 16,
  drop-append m.fw_version (i32_bytes m.voltage_mv) 16,
  read_i32-i32_bytes m.voltage_mv [],
  append-nil (i32_bytes m.voltage_mv),
)

samples_lem :
    (d : List ℤ) (rest : List ℕ)
    → length d ≡ 3
    → All FitsInt d
    → ◌≡◌ {A = List ℤ}
        (read_i32 (samples_image d rest)
          ∷ read_i32 (drop 4 (samples_image d rest))
          ∷ read_i32 (drop 8 (samples_image d rest))
          ∷ [])
        d
unfolding samples_image i32_bytes
samples_lem (x ∷ y ∷ z ∷ []) rest h (fx, (fy, (fz, _))) =
    let b : List ℕ = samples_image (x ∷ y ∷ z ∷ []) rest in
    λ i.
      read_i32-i32_bytes x (drop 4 b) fx i
      ∷ read_i32-i32_bytes y (drop 8 b) fy i
      ∷ read_i32-i32_bytes z rest fz i
      ∷ []
samples_lem _ rest h f = absurd (omega arith)

time_lem : (r : MeasurementRecord) → FitsRecord r → (view (image r)).time ≡ r.time
unfolding view image i32_bytes
time_lem r f = λ i. record {
  year = read_i32-i32_bytes r.time.year (drop 4 (image r)) f.year i;
  month = read_i32-i32_bytes r.time.month (drop 8 (image r)) f.month i;
  day = read_i32-i32_bytes r.time.day (drop 12 (image r)) f.day i;
  hour = read_i32-i32_bytes r.time.hour (drop 16 (image r)) f.hour i;
  minute = read_i32-i32_bytes r.time.minute (drop 20 (image r)) f.minute i;
  second = read_i32-i32_bytes r.time.second (drop 24 (image r)) f.second i;
}

dist_lem : (r : MeasurementRecord) → FitsRecord r → (view (image r)).dist_mm ≡ r.dist_mm
unfolding view image i32_bytes
dist_lem r f = samples_lem r.dist_mm _ f.samples f.dist

valid_lem : (r : MeasurementRecord) → FitsRecord r → (view (image r)).valid ≡ r.valid
unfolding view image i32_bytes samples_image
valid_lem r f = omega (arith, f.valid)

meta_lem : (r : MeasurementRecord) → FitsRecord r → (view (image r)).meta ≡ r.meta
unfolding view image i32_bytes samples_image
meta_lem r f =
    let (a, b, d) = view_meta r.meta f.device_id f.fw_version f.voltage_mv in
    λ i. record { device_id = a i; fw_version = b i; voltage_mv = d i }

view-image : (r : MeasurementRecord) → FitsRecord r → view (image r) ≡ r
view-image r f = λ i. record {
  time = time_lem r f i;
  dist_mm = dist_lem r f i;
  valid = valid_lem r f i;
  meta = meta_lem r f i;
}

length-image : (r : MeasurementRecord) → FitsRecord r → length (image r) ≡ measurement_size
unfolding image samples_image i32_bytes measurement_size
length-image r f = omega (
  arith,
  length-append r.meta.device_id (r.meta.fw_version ++ i32_bytes r.meta.voltage_mv),
  length-append r.meta.fw_version (i32_bytes r.meta.voltage_mv),
  f.device_id,
  f.fw_version,
)

-- `RecordCodec<MeasurementMsg>` with the memory image of its record.
pub measurement_codec : Codec MeasurementMsg
unfolding image view measurement_size encode decode
measurement_codec = record {
  item_size = measurement_size;
  bytes = λ m. image (encode m);
  read = λ b. decode (view b);
}

pub item_size-measurement_codec : measurement_codec.item_size ≡ 92
unfolding measurement_codec
item_size-measurement_codec = refl

-- A message whose fields lie in the ranges of their C++ types.
pub record FitsMessage (m : MeasurementMsg) : Type 0 where
  pub year : FitsInt m.time.year
  pub month : FitsInt m.time.month
  pub day : FitsInt m.time.day
  pub hour : FitsInt m.time.hour
  pub minute : FitsInt m.time.minute
  pub second : FitsInt m.time.second
  pub samples : length m.dist_mm ≡ 3
  pub dist : All FitsInt m.dist_mm
  pub device_id : length m.meta.device_id ≡ 32
  pub fw_version : length m.meta.fw_version ≡ 16
  pub voltage_mv : FitsInt m.meta.voltage_mv

encode-fits : (m : MeasurementMsg) → FitsMessage m → FitsRecord (encode m)
unfolding encode
encode-fits m f = record {
  year = f.year;
  month = f.month;
  day = f.day;
  hour = f.hour;
  minute = f.minute;
  second = f.second;
  samples =
      subst (λ d. length d ≡ 3) (sym (copy_samples_lem m.dist_mm zeros f.samples refl)) f.samples;
  dist = subst (All FitsInt) (sym (copy_samples_lem m.dist_mm zeros f.samples refl)) f.dist;
  valid = ground arith;
  device_id = f.device_id;
  fw_version = f.fw_version;
  voltage_mv = f.voltage_mv;
}

-- The codec of measurements has the laws that the snapshots need: every image has the size that
-- the header announces, and reading it back gives the message.
pub measurement_codec-CodecLaws : CodecLaws measurement_codec FitsMessage
unfolding measurement_codec
measurement_codec-CodecLaws = record {
  size_pos = unfold measurement_size in omega arith;
  size_small = unfold measurement_size in omega arith;
  image_size = λ m f. length-image (encode m) (encode-fits m f);
  read_image =
      λ m f. ap decode (view-image (encode m) (encode-fits m f)) ∙ decode-encode m f.samples;
}
