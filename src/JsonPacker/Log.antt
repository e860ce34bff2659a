-- ===== src/JsonPacker/Log.antt =====
-- The log text, read back field by field.
use hydro_logger.Prelude.{
  ℕ, ℤ, ◌≡◌, ◌≤◌, refl, ap, ◌∙◌, List, [], ◌∷◌, ◌++◌, true, Option, none, some, All, length, take,
}
use hydro_logger.Prelude.Bytes.{codes}
use hydro_logger.Prelude.Decimal.{ends_number}
use hydro_logger.Models.{DateTime, LogMsg, c_str}
use hydro_logger.JsonPacker.{time_text, append_datetime, escape, pack_log}
use hydro_logger.JsonPacker.Reader.{expect, number, string, expect_lem, number_lem}
use hydro_logger.JsonPacker.Escape.{is_plain, is_text, read-escape}
use hydro_logger.JsonPacker.TimeText.{read_time, read_time_lem, string_lem}

pub record LogText : Type 0 where
  pub device_id : List ℕ
  pub fw : List ℕ
  pub vol : ℤ
  pub time : DateTime
  pub log : List ℕ

-- The receiver of the text.
pub read_log : List ℕ → Option LogText
read_log = expect (codes "{\"device_id\":\"") (
    string (λ device_id. expect (codes ",\"fw\":\"") (
      string (λ fw. expect (codes ",\"vol_mv\":") (
        number (λ vol. expect (codes ",\"time\":\"") (
          read_time 84 (λ t. expect (codes "\",\"log\":\"") (
            string (λ log. expect (codes "}") (λ _.
              some (record {
                device_id = device_id;
                fw = fw;
                vol = vol;
                time = t;
                log = log;
              }))))))))))))

escaped_lem :
    {A : Type 0} (text rest : List ℕ) (k : List ℕ → List ℕ → Option A)
    → All (λ c. is_text c ≡ true) text
    → string k (escape text ++ 34 ∷ rest) ≡ k text rest
unfolding string
escaped_lem {A} text rest k h =
    let after : Option (List ℕ × List ℕ) → Option A =
      λ r. elim r [ none ↦ none | some (t, s) ↦ k t s ] in
    ap after (read-escape text rest h)

-- The text of a log message gives back the device, the firmware version, the voltage, the time and
-- the log, if device and version need no escape, the log is made of plain characters and line ends,
-- and the time text fits its 63 characters.
pub read-pack_log :
    (l : LogMsg)
    → All (λ c. is_plain c ≡ true) (c_str l.meta.device_id)
    → All (λ c. is_plain c ≡ true) (c_str l.meta.fw_version)
    → All (λ c. is_text c ≡ true) (take l.len l.text)
    → length (time_text 84 l.time) ≤ 63
    → read_log (pack_log l)
      ≡ some (record {
        device_id = c_str l.meta.device_id;
        fw = c_str l.meta.fw_version;
        vol = l.meta.voltage_mv;
        time = l.time;
        log = take l.len l.text;
      })
unfolding read_log pack_log append_datetime ends_number
read-pack_log l device version text fits =
    expect_lem (codes "{\"device_id\":\"") _ _
    ∙ string_lem (c_str l.meta.device_id) _ _ device
    ∙ expect_lem (codes ",\"fw\":\"") _ _
    ∙ string_lem (c_str l.meta.fw_version) _ _ version
    ∙ expect_lem (codes ",\"vol_mv\":") _ _
    ∙ number_lem 0 l.meta.voltage_mv _ _ refl
    ∙ expect_lem (codes ",\"time\":\"") _ _
    ∙ read_time_lem 63 84 l.time _ _ fits refl refl
    ∙ expect_lem (codes "\",\"log\":\"") _ _
    ∙ escaped_lem (take l.len l.text) _ _ text
    ∙ expect_lem (codes "}") [] _
