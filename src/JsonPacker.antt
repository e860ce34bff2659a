-- ===== src/JsonPacker.antt =====
-- The texts that are sent: main/services/pack/json_packer.cpp. The serial number, which the packer
-- asks the store for, is an argument.
pub mod Reader
pub mod Escape
pub mod TimeText
pub mod WaterLevel
pub mod Log
mod Tests
use hydro_logger.Prelude.{
  ℕ, ℤ, pos, List, [], ◌∷◌, ◌++◌, Bool, true, false, ◌||◌, ◌==◌, take, get_or, if◌then◌else◌,
  bit_and, ltb, length,
}
use hydro_logger.Prelude.Bytes.{codes}
use hydro_logger.Prelude.Decimal.{format_int}
use hydro_logger.Models.{DateTime, MeasurementMsg, LogMsg, c_str}
use hydro_logger.LogBuffer.{LogBuffer}

-- `std::to_string`
abbrev pub to_string : ℤ → List ℕ
to_string = format_int 0

-- `%04d-%02d-%02d<c>%02d:%02d:%02d`
unfoldable pub time_text : ℕ → DateTime → List ℕ
time_text c t =
    format_int 4 t.year
    ++ (45
        ∷ (format_int 2 t.month
            ++ (45
                ∷ (format_int 2 t.day
                    ++ (c
                        ∷ (format_int 2 t.hour
                            ++ (58 ∷ (format_int 2 t.minute ++ (58 ∷ format_int 2 t.second)))))))))

-- `append_datetime`, which prints into 64 bytes.
unfoldable pub append_datetime : DateTime → List ℕ → List ℕ
unfolding time_text
append_datetime t rest = take 63 (time_text 84 t) ++ rest

-- The dist_mm array of a message, index by index.
abbrev pub dist : MeasurementMsg → ℕ → ℤ
dist m i = get_or m.dist_mm i (pos 0)

unfoldable pub pack_measurement : MeasurementMsg → List ℕ
unfolding append_datetime
pack_measurement m =
    codes "{\"device_id\":\""
    ++ (c_str m.meta.device_id
        ++ (codes "\",\"fw\":\""
            ++ (c_str m.meta.fw_version
                ++ (codes "\",\"vol_mv\":"
                    ++ (to_string m.meta.voltage_mv
                        ++ (codes ",\"time\":\""
                            ++ append_datetime m.time (
                                codes "\",\"valid\":"
                                ++ ((if m.valid then codes "true" else codes "false")
                                    ++ (codes ",\"dist_mm\":["
                                        ++ (to_string (dist m 0)
                                            ++ (44
                                                ∷ (to_string (dist m 1)
                                                    ++ (44
                                                        ∷ (to_string (dist m 2)
                                                            ++ codes "]}"))))))))))))))

-- The loop of the packers over the text of a log.
unfoldable pub escape : List ℕ → List ℕ
escape [] = []
escape (c ∷ s) =
    let rest = escape s in
    if (c == 92) || (c == 34)
    then 92 ∷ (c ∷ rest)
    else if c == 10
    then 92 ∷ (110 ∷ rest)
    else if c == 13
    then 92 ∷ (114 ∷ rest)
    else c ∷ rest

unfoldable pub pack_log : LogMsg → List ℕ
unfolding append_datetime escape
pack_log l =
    codes "{\"device_id\":\""
    ++ (c_str l.meta.device_id
        ++ (codes "\",\"fw\":\""
            ++ (c_str l.meta.fw_version
                ++ (codes "\",\"vol_mv\":"
                    ++ (to_string l.meta.voltage_mv
                        ++ (codes ",\"time\":\""
                            ++ append_datetime l.time (
                                codes "\",\"log\":\""
                                ++ (escape (take l.len l.text) ++ codes "\"}"))))))))

unfoldable pub pack_water_level : List ℕ → MeasurementMsg → List ℕ
unfolding time_text
pack_water_level serial m =
    codes "{\"water_lever_0\":"
    ++ (to_string (dist m 0)
        ++ (codes ",\"water_lever_1\":"
            ++ (to_string (dist m 1)
                ++ (codes ",\"water_lever_2\":"
                    ++ (to_string (dist m 2)
                        ++ (codes ",\"date_time\":\""
                            ++ (take 31 (time_text 32 m.time)
                                ++ (codes "\",\"serial_number\":\""
                                    ++ (serial
                                        ++ (codes "\",\"type\":\"water_lever\",\"vol\":"
                                            ++ (to_string m.meta.voltage_mv ++ codes "}")))))))))))

-- `cfg::kCurrentFwVersion`
abbrev pub current_fw_version : List ℕ
current_fw_version = codes "ver1.1.16"

unfoldable pub pack_session_log : List ℕ → LogBuffer → List ℕ
unfolding escape
pack_session_log serial log =
    codes "{\"device_id\":\""
    ++ (serial
        ++ (codes "\",\"fw\":\""
            ++ (current_fw_version
                ++ (codes "\",\"log\":\"" ++ (escape (take log.len log.buf) ++ codes "\"}")))))
