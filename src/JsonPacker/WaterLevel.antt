-- ===== src/JsonPacker/WaterLevel.antt =====
-- The water-level text, read back field by field.
use hydro_logger.Prelude.{ℕ, ℤ, ◌≡◌, ◌≤◌, refl, ◌∙◌, List, [], true, Option, some, All, length}
use hydro_logger.Prelude.Bytes.{codes}
use hydro_logger.Prelude.Decimal.{ends_number}
use hydro_logger.Models.{DateTime, MeasurementMsg}
use hydro_logger.JsonPacker.{time_text, dist, pack_water_level}
use hydro_logger.JsonPacker.Reader.{expect, number, string, expect_lem, number_lem}
use hydro_logger.JsonPacker.Escape.{is_plain}
use hydro_logger.JsonPacker.TimeText.{read_time, read_time_lem, string_lem}

pub record WaterLevel : Type 0 where
  pub level_0 : ℤ
  pub level_1 : ℤ
  pub level_2 : ℤ
  pub time : DateTime
  pub serial : List ℕ
  pub vol : ℤ

-- The receiver of the text.
pub read_water_level : List ℕ → Option WaterLevel
read_water_level = expect (codes "{\"water_lever_0\":") (
    number (λ d0. expect (codes ",\"water_lever_1\":") (
      number (λ d1. expect (codes ",\"water_lever_2\":") (
        number (λ d2. expect (codes ",\"date_time\":\"") (
          read_time 32 (λ t. expect (codes "\",\"serial_number\":\"") (
            string (λ serial. expect (codes ",\"type\":\"water_lever\",\"vol\":") (
              number (λ vol. expect (codes "}") (λ _. some (record {
                level_0 = d0;
                level_1 = d1;
                level_2 = d2;
                time = t;
                serial = serial;
                vol = vol;
              }))))))))))))))

-- The text of a measurement gives back its three distances, its time, the serial number and the
-- voltage, if the serial number needs no escape and the time text fits its 31 characters.
pub read-pack_water_level :
    (serial : List ℕ) (m : MeasurementMsg)
    → All (λ c. is_plain c ≡ true) serial
    → length (time_text 32 m.time) ≤ 31
    → read_water_level (pack_water_level serial m)
      ≡ some (record {
        level_0 = dist m 0;
        level_1 = dist m 1;
        level_2 = dist m 2;
        time = m.time;
        serial = serial;
        vol = m.meta.voltage_mv;
      })
unfolding read_water_level pack_water_level ends_number
read-pack_water_level serial m plain fits =
    expect_lem (codes "{\"water_lever_0\":") _ _
    ∙ number_lem 0 (dist m 0) _ _ refl
    ∙ expect_lem (codes ",\"water_lever_1\":") _ _
    ∙ number_lem 0 (dist m 1) _ _ refl
    ∙ expect_lem (codes ",\"water_lever_2\":") _ _
    ∙ number_lem 0 (dist m 2) _ _ refl
    ∙ expect_lem (codes ",\"date_time\":\"") _ _
    ∙ read_time_lem 31 32 m.time _ _ fits refl refl
    ∙ expect_lem (codes "\",\"serial_number\":\"") _ _
    ∙ string_lem serial _ _ plain
    ∙ expect_lem (codes ",\"type\":\"water_lever\",\"vol\":") _ _
    ∙ number_lem 0 m.meta.voltage_mv _ _ refl
    ∙ expect_lem (codes "}") [] _
