-- ===== src/JsonPacker/Tests.antt =====
-- The texts at concrete inputs.
use hydro_logger.Prelude.{ℕ, ◌≡◌, refl, pos, negsuc, List, [], ◌∷◌, ◌++◌, true, false, some, arith}
use hydro_logger.Prelude.Bytes.{codes}
use hydro_logger.Prelude.Decimal.{format_int, decimal, digits_to}
use hydro_logger.Models.{default_time, MeasurementMsg, LogMsg, c_str}
use hydro_logger.JsonPacker.{time_text, escape, pack_log, pack_water_level}
use hydro_logger.JsonPacker.Reader.{read_from}
use hydro_logger.JsonPacker.Escape.{is_plain, is_text, read-escape}
use hydro_logger.JsonPacker.WaterLevel.{read_water_level, read-pack_water_level}
use hydro_logger.JsonPacker.Log.{read_log, read-pack_log}

-- A line with a quote, a backslash and both line ends.
abbrev line : List ℕ
line = 97 ∷ 34 ∷ 92 ∷ 13 ∷ 10 ∷ []

read-escape_example : read_from false (escape line ++ 34 ∷ 125 ∷ []) ≡ some (line, 125 ∷ [])
unfolding is_text
read-escape_example = read-escape line (125 ∷ []) (refl, (refl, (refl, (refl, (refl, tt)))))

abbrev measurement : MeasurementMsg
measurement = record {
  time = default_time;
  dist_mm = pos 1500 ∷ pos 0 ∷ negsuc 2 ∷ [];
  valid = true;
  meta = record { device_id = codes "TD"; fw_version = codes "1"; voltage_mv = pos 12100 };
}

read-pack_water_level_example :
    read_water_level (pack_water_level (codes "TD_12") measurement)
    ≡ some (record {
      level_0 = pos 1500;
      level_1 = pos 0;
      level_2 = negsuc 2;
      time = default_time;
      serial = codes "TD_12";
      vol = pos 12100;
    })
unfolding is_plain time_text format_int decimal digits_to
read-pack_water_level_example =
    read-pack_water_level (codes "TD_12") measurement (refl, (refl, (refl, (refl, (refl, tt)))))
      (omega arith)

abbrev log : LogMsg
log = record {
  time = default_time;
  text = line ++ 0 ∷ [];
  len = 5;
  meta = record {
    device_id = codes "TD" ++ 0 ∷ [];
    fw_version = codes "1" ++ 0 ∷ [];
    voltage_mv = pos 3;
  };
}

read-pack_log_example :
    read_log (pack_log log)
    ≡ some (record {
      device_id = codes "TD";
      fw = codes "1";
      vol = pos 3;
      time = default_time;
      log = line;
    })
unfolding is_plain is_text c_str time_text format_int decimal digits_to
read-pack_log_example =
    read-pack_log log (refl, (refl, tt)) (refl, tt) (refl, (refl, (refl, (refl, (refl, tt)))))
      (omega arith)
