-- ===== src/Sim4g/Carrier.antt =====
-- The access points of sim4g_module.cpp and the detection of the carrier.
use hydro_logger.Prelude.{
  ℕ, zero, suc, ◌-◌, Bool, true, false, not, ◌&&◌, ◌||◌, Option, none, some, List, ◌++◌, length,
  get_or, ltb, leb, if◌then◌else◌,
}
use hydro_logger.Prelude.Bytes.{codes}
use hydro_logger.Prelude.Decimal.{is_digit}
use hydro_logger.Models.{c_str}
use hydro_logger.Nvs.{ApnProfile, viettel, vinaphone, get_last_sim_apn}
use hydro_logger.Sim4g.{Board, M, ◌>>=◌, ◌>>◌, return, now, flush_sim, say, say_received}
use hydro_logger.Sim4g.Parse.{
  contains_text, is_at_error, match_mcc_mnc, parse_cops_mcc_mnc, MccMncEntry,
}
use hydro_logger.Sim4g.At.{turns, answered, is_empty, read_line_sim, write_line_sim, send_at_expect}

abbrev pub is_viettel : ApnProfile → Bool
is_viettel viettel = true
is_viettel p = false

abbrev pub apn_name : ApnProfile → List ℕ
apn_name p = if is_viettel p then codes "Viettel" else codes "VinaPhone"

abbrev pub apn_string : ApnProfile → List ℕ
apn_string p = if is_viettel p then codes "v-internet" else codes "m3-world"

unfoldable pub other_apn : ApnProfile → ApnProfile
other_apn p = if is_viettel p then vinaphone else viettel

abbrev pub is_imsi : List ℕ → Bool
is_imsi line = leb 5 (length line) && is_digit (get_or line 0 0)

unfoldable pub carrier_text : List ℕ → MccMncEntry → List ℕ
carrier_text method e =
    codes "carrier="
    ++ (e.carrier
        ++ (codes " (via "
            ++ (method
                ++ (codes ") -> APN="
                    ++ (apn_name e.apn ++ (codes " (" ++ (apn_string e.apn ++ codes ")")))))))

module _ {b : Board} where
  -- The loop that waits for the IMSI, from the line that was found before.
  unfoldable pub imsi_loop : ℕ → ℕ → Option (List ℕ) → M b (Option (List ℕ))
  imsi_loop zero start found = λ s. none
  imsi_loop (suc fuel) start found = do
    t ← now
    (if ltb (t - start) 3000
        then (do
          line ← read_line_sim 300
          (if is_empty line then imsi_loop fuel start found else (do
            say_received line
            let found' = if not (answered found) && is_imsi line then some line else found
            (if contains_text (codes "OK") line || is_at_error line
                then return found'
                else imsi_loop fuel start found'))))
        else return found)

  -- The carrier that a method found in the table.
  unfoldable pub found_carrier : List ℕ → Option MccMncEntry → M b (Option ApnProfile)
  found_carrier method none = return none
  found_carrier method (some e) = do say (carrier_text method e); return (some e.apn)

  -- Method 1 of `detectCarrier`: the IMSI.
  unfoldable pub carrier_by_imsi : M b (Option ApnProfile)
  carrier_by_imsi = do
    flush_sim
    say (codes "AT>AT+CIMI")
    _ ← write_line_sim (codes "AT+CIMI")
    start ← now
    imsi ← imsi_loop (turns b 3000) start none
    elim imsi [
      | none ↦ (do say (codes "CIMI: no IMSI returned"); return none)
      | some line ↦ (do
        say (codes "IMSI: " ++ c_str line)
        found_carrier (codes "CIMI") (match_mcc_mnc line))
    ]

  unfoldable pub carrier_of_operator : Option (List ℕ) → M b (Option ApnProfile)
  carrier_of_operator none = return none
  carrier_of_operator (some mccmnc) = do
    say (codes "COPS MCC/MNC: " ++ c_str mccmnc)
    found_carrier (codes "COPS") (match_mcc_mnc mccmnc)

  -- What an answer to AT+COPS? says of the carrier.
  unfoldable pub carrier_of_cops : Option (List ℕ) → M b (Option ApnProfile)
  carrier_of_cops none = return none
  carrier_of_cops (some line) = do
    say (codes "COPS: " ++ c_str line)
    carrier_of_operator (parse_cops_mcc_mnc line)

  unfoldable pub saved_apn : M b ApnProfile
  saved_apn s = some (get_last_sim_apn b.nvs vinaphone s.flash, s)

  unfoldable pub detect_carrier : M b ApnProfile
  detect_carrier = do
    fallback ← saved_apn
    say (codes "carrier detect start (fallback=" ++ (apn_name fallback ++ codes ")"))
    by_imsi ← carrier_by_imsi
    elim by_imsi [
      | some p ↦ return p
      | none ↦ (do
        answer ← send_at_expect (codes "AT+COPS?") (codes "+COPS:") 3000
        by_cops ← carrier_of_cops answer
        elim by_cops [
          | some p ↦ return p
          | none ↦ (do
            say (codes "carrier detect FAIL, fallback=" ++ apn_name fallback)
            return fallback)
        ])
    ]
