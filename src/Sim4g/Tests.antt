-- ===== src/Sim4g/Tests.antt =====
-- The modem on the simulated board.
use hydro_logger.Prelude.{ℕ, ◌≡◌, refl, Bool, true, false, Option, none, some, List, [], ◌∷◌, ◌++◌}
use hydro_logger.Prelude.Bytes.{codes}
use hydro_logger.LogBuffer.{appendf, vappendf}
use hydro_logger.LogBuffer.{new_log}
use hydro_logger.Nvs.{get_last_sim_apn, get_u8, set_last_sim_apn}
use hydro_logger.Sim4g.{
  Modem, call, now, get, flush_sim, act, say, say_received, set_http_inited, delay, clamp_timeout,
  ms_remaining, set_sim_power, set_active,
}
use hydro_logger.Sim4g.Network.{
  check_internet, network_phases, connect_apns, fail_both, second_apn, use_apn,
}
use hydro_logger.Sim4g.Network.Remembers.{Connected, check_internet-Connected}
use hydro_logger.Sim4g.Post.{
  send_payload, post_open, collect_response, log_response, post_action, post_answer, post_body,
  response_loop,
}
use hydro_logger.Sim4g.Post.Closes.{send_payload-Served}
use hydro_logger.Connectivity.{try_module}
use hydro_logger.Sim4g.AsModule.{sim_module}
use hydro_logger.Sim4g.AsModule.Tried.{Left, try_module-Left}
use hydro_logger.Sim4g.Power.{
  power_on, power_on_hardware, wait_for_at_ready, init_uart_once, handshake, configure_lte_mode,
}
use hydro_logger.Sim4g.Http.Served.{Served}
use hydro_logger.Sim4g.Download.Image.{Installed, flash_image-Installed}
use hydro_logger.Sim4g.Download.Safe.{Downloaded, download_ota_image-Downloaded}
use hydro_logger.Sim4g.Parse.Body.{ends_plainly, trailer, http_body-answer}
use hydro_logger.Sim4g.Simulated.{simulated, simulated_laws, modem, window, seen, probe}
use hydro_logger.Sim4g.Download.{
  flash_image, download_ota_image, flash_begun, choose_boot, finalize, flash_end, report,
  download_to, probe_size, check_size, probe_answer,
}
use hydro_logger.Sim4g.Windows.{
  window_loop, fetch_window, request_window, log_progress, read_requested, read_window, window_end,
  window_fail, window_length, window_turn,
}
use hydro_logger.Sim4g.Http.{
  http_term_safe, action_of, http_action, send_term, url_command, http_init_and_set_bearer,
  ensure_pdp_active, abandon, is_pdp_active, log_address,
}
use hydro_logger.Sim4g.At.{
  send_at_ok, send_at_expect, write_line_sim, wait_for_token, wait_loop, read_for, read_line_sim,
  turns,
}
use hydro_logger.Models.{c_str}
use hydro_logger.Prelude.Decimal.{
  decimal, digits_to, format_int, scan_digits, scan_int, scan_sign, scan_unsigned, skip_spaces,
  starts_with_digit,
}
use hydro_logger.Sim4g.Blocks.{
  block_end, block_loop, block_turn, drain_loop, drain_to_ok, header_length, header_loop, last_64,
  payload_loop, payload_turn, read_http_read_len,
}
use hydro_logger.Sim4g.Parse.{
  http_body, contains_text, find_from, is_at_error, last_number, number_comma,
  parse_http_action_line, standalone_error, starts_with, after_quote, match_mcc_mnc,
  parse_cereg_stat, parse_cops_mcc_mnc, parse_csq_rssi, until_quote,
}
use hydro_logger.Sim4g.Registration.{
  check_sim_ready, log_rssi, log_signal, polls, register_loop, register_timeout, registration,
  registration_of, wait_lte_registration,
}
use hydro_logger.Sim4g.Carrier.{
  carrier_by_imsi, carrier_of_cops, carrier_of_operator, carrier_text, detect_carrier,
  found_carrier, imsi_loop, other_apn, saved_apn,
}
use hydro_logger.Sim4g.DataContext.{
  activate_pdp, attach_and_activate_data, attach_loop, configure_apn_phase, has_address,
  is_attached, try_apn_connect, verify_data_ready,
}

flashed :
    seen (flash_image (codes "http://h/f") (codes "ota_1") 3 (modem true window))
    ≡ some (true, (codes "abc", some (codes "abc")))
unfolding flash_image call flash_begun now window_loop fetch_window request_window http_term_safe
    get send_at_ok send_at_expect flush_sim act say write_line_sim wait_for_token wait_loop appendf
    vappendf c_str decimal digits_to format_int scan_digits scan_int scan_sign scan_unsigned
    skip_spaces starts_with_digit read_for read_line_sim turns block_end block_loop block_turn
    drain_loop drain_to_ok header_length header_loop last_64 payload_loop payload_turn
    read_http_read_len choose_boot finalize flash_end report action_of http_action send_term
    url_command contains_text find_from is_at_error last_number number_comma parse_http_action_line
    standalone_error starts_with log_progress read_requested read_window window_end window_fail
    window_length window_turn say_received set_http_inited
flashed = refl

-- The image is written and chosen, and the operation ends.
flash_image-Installed_example :
    (r : Bool × Modem simulated) × (flash_image
        (codes "http://h/f")
        (codes "ota_1")
        3
        (modem true window)
      ≡ some r)
    × Installed simulated_laws (λ n. n ≡ 3) (modem true window) r.0 r.1
flash_image-Installed_example =
    (flash_image-Installed simulated_laws (codes "http://h/f") (codes "ota_1") 3).at
      (modem true window)

download_ota_image-Downloaded_example :
    (r : Bool × Modem simulated) × (download_ota_image (codes "http://h/f") (modem true probe)
      ≡ some r)
    × Downloaded simulated_laws (modem true probe) r.0 r.1
download_ota_image-Downloaded_example =
    (download_ota_image-Downloaded simulated_laws (codes "http://h/f")).at (modem true probe)

-- A ready card, a home network, a strong signal, a card of Viettel, an attached context with an
-- address.
abbrev network : List (List ℕ)
network =
    codes "+CPIN: READY\r\nOK\r\n"
    ∷ codes "+CEREG: 0,1\r\nOK\r\n"
    ∷ codes "+CSQ: 20,99\r\nOK\r\n"
    ∷ codes "452049876543210\r\nOK\r\n"
    ∷ codes "OK\r\n"
    ∷ codes "OK\r\n"
    ∷ codes "OK\r\n"
    ∷ codes "+CGATT: 1\r\nOK\r\n"
    ∷ codes "OK\r\n"
    ∷ codes "+CGACT: 1,1\r\nOK\r\n"
    ∷ codes "+CGPADDR: 1,10.0.0.1\r\nOK\r\n"
    ∷ []

check_internet-Connected_example :
    (r : Bool × Modem simulated) × (check_internet 40000 (modem true network) ≡ some r)
    × Connected simulated_laws (modem true network) r.0 r.1
check_internet-Connected_example =
    (check_internet-Connected simulated_laws 40000).at (modem true network)

-- A POST that the server takes, and its answer.
abbrev posted : List (List ℕ)
posted =
    codes "+CGACT: 1,1\r\nOK\r\n"
    ∷ codes "+CGPADDR: 1,10.0.0.1\r\nOK\r\n"
    ∷ codes "OK\r\n"
    ∷ codes "OK\r\n"
    ∷ codes "OK\r\n"
    ∷ codes "DOWNLOAD\r\n"
    ∷ codes "OK\r\n"
    ∷ codes "OK\r\n+HTTPACTION: 1,200,2\r\n"
    ∷ codes "OK\r\n+HTTPREAD: 2\r\n{}\r\n+HTTPREAD: 0\r\n"
    ∷ codes "OK\r\n"
    ∷ []

send_payload-Served_example :
    (r : Bool × Modem simulated) × (send_payload
        (codes "http://h/p")
        (codes "{}")
        (modem true posted)
      ≡ some r)
    × Served simulated_laws (modem true posted) r.0 r.1
send_payload-Served_example =
    (send_payload-Served simulated_laws (codes "http://h/p") (codes "{}")).at (modem true posted)

http_body-answer_example :
    http_body
      (codes "OK\r\n" ++ (codes "+HTTPREAD:" ++ (codes " 2\r" ++ 10 ∷ (codes "OK OK!" ++ trailer))))
    ≡ codes "OK OK!"
unfolding ends_plainly
http_body-answer_example =
    http_body-answer (codes "OK\r\n") (codes " 2\r") (codes "OK OK!")
      (refl, (refl, (refl, (refl, tt)))) (refl, (refl, (refl, tt))) refl

-- The operations themselves, on these answers.
abbrev result_of : Option (Bool × Modem simulated) → Option Bool
result_of none = none
result_of (some (ok, s)) = some ok

downloaded :
    seen (download_ota_image (codes "http://h/f") (modem true probe))
    ≡ some (true, (codes "abc", some (codes "abc")))
unfolding download_to probe_size http_init_and_set_bearer ensure_pdp_active turns check_size
    probe_answer abandon is_pdp_active log_address delay download_ota_image say get http_term_safe
    send_at_expect flush_sim act write_line_sim call wait_for_token now wait_loop fetch_window
    read_line_sim read_for say_received contains_text send_at_ok set_http_inited url_command
    http_action action_of parse_http_action_line c_str scan_int send_term flash_image flash_begun
    window_loop last_64 request_window window_length read_requested read_window block_loop
    read_http_read_len header_loop header_length is_at_error block_turn payload_loop payload_turn
    block_end window_end drain_to_ok drain_loop window_turn log_progress flash_end finalize
    choose_boot report
downloaded = refl

connected : result_of (check_internet 40000 (modem true network)) ≡ some true
unfolding network_phases check_sim_ready clamp_timeout ms_remaining read_line_sim get_last_sim_apn
    get_u8 set_last_sim_apn carrier_by_imsi carrier_of_cops carrier_of_operator carrier_text
    detect_carrier found_carrier imsi_loop other_apn saved_apn activate_pdp attach_and_activate_data
    attach_loop configure_apn_phase has_address is_attached try_apn_connect verify_data_ready
    connect_apns fail_both second_apn use_apn after_quote match_mcc_mnc parse_cereg_stat
    parse_cops_mcc_mnc parse_csq_rssi until_quote log_rssi log_signal polls register_loop
    register_timeout registration registration_of wait_lte_registration delay check_internet now say
    get send_at_expect flush_sim act write_line_sim call wait_for_token wait_loop turns read_for
    say_received contains_text is_at_error c_str scan_int send_at_ok
connected = refl

sent : result_of (send_payload (codes "http://h/p") (codes "{}") (modem true posted)) ≡ some true
unfolding post_open http_init_and_set_bearer ensure_pdp_active read_line_sim abandon is_pdp_active
    log_address collect_response log_response post_action post_answer post_body response_loop delay
    send_payload say get http_term_safe send_at_expect flush_sim act write_line_sim call
    wait_for_token now wait_loop turns read_for say_received contains_text send_at_ok
    set_http_inited url_command http_action action_of parse_http_action_line c_str scan_int
    send_term
sent = refl

powered : result_of (power_on (modem false (codes "OK\r\n" ∷ []))) ≡ some true
unfolding power_on_hardware set_sim_power delay wait_for_at_ready init_uart_once handshake
    wait_for_token configure_lte_mode set_active power_on say act now turns send_at_ok
    send_at_expect flush_sim write_line_sim call wait_loop read_line_sim read_for say_received
    contains_text
powered = refl

-- A modem that comes up, and then finds its network.
abbrev found : List (List ℕ)
found = codes "OK\r\n" ∷ codes "OK\r\n" ∷ codes "OK\r\n" ∷ codes "OK\r\n" ∷ network

try_module-Left_example :
    let r = try_module sim_module new_log (modem false found) in
    Left simulated_laws (modem false found) r.0 r.2
try_module-Left_example = try_module-Left simulated_laws new_log (modem false found)

left_on : (try_module sim_module new_log (modem false found)).0 ≡ true
unfolding try_module power_on_hardware set_sim_power delay wait_for_at_ready init_uart_once
    handshake wait_for_token configure_lte_mode set_active power_on say act now turns send_at_ok
    send_at_expect flush_sim write_line_sim call wait_loop read_line_sim read_for say_received
    contains_text network_phases check_sim_ready clamp_timeout ms_remaining get_last_sim_apn get_u8
    set_last_sim_apn carrier_by_imsi carrier_of_cops carrier_of_operator carrier_text detect_carrier
    found_carrier imsi_loop other_apn saved_apn activate_pdp attach_and_activate_data attach_loop
    configure_apn_phase has_address is_attached try_apn_connect verify_data_ready connect_apns
    fail_both second_apn use_apn after_quote match_mcc_mnc parse_cereg_stat parse_cops_mcc_mnc
    parse_csq_rssi until_quote log_rssi log_signal polls register_loop register_timeout registration
    registration_of wait_lte_registration check_internet get is_at_error c_str scan_int
left_on = refl
