-- ===== src/Ota/Tests.antt =====
-- The service on the simulated board.
use hydro_logger.Prelude.{ℕ, ◌≡◌, refl, pos, Bool, true, none, some, List, [], ◌∷◌}
use hydro_logger.Prelude.Bytes.{codes, equals}
use hydro_logger.Nvs.{sim4g}
use hydro_logger.Sim4g.{
  Modem, say, get, flush_sim, act, call, now, say_received, set_http_inited, delay,
}
use hydro_logger.Sim4g.Simulated.{simulated, simulated_laws, modem, probe, seen}
use hydro_logger.Ota.{
  Https, unparsed, version, finished, check_and_update, fetch_and_parse_version, fetch, version_of,
  note, tagged, update_to, needs_update, attempts, api_note, begin_answer, fails,
  fetch_firmware_version_json, finish_answer, get_text, perform_answer, perform_https, perform_loop,
  perform_ota,
}
use hydro_logger.Ota.Updates.{HttpsLaws}
use hydro_logger.Ota.Checked.{Checked, check_and_update-Checked}
use hydro_logger.Sim4g.Get.{
  http_get, get_open, get_action, get_answer, get_body, collect_raw, raw_loop, get_result,
  abandon_get,
}
use hydro_logger.Sim4g.Http.{
  http_init_and_set_bearer, http_term_safe, ensure_pdp_active, is_pdp_active, log_address,
  url_command, http_action, action_of, send_term, abandon,
}
use hydro_logger.Sim4g.At.{
  send_at_expect, write_line_sim, wait_for_token, wait_loop, turns, read_line_sim, read_for,
  send_at_ok,
}
use hydro_logger.Sim4g.Parse.{
  contains_text, parse_http_action_line, http_body, body_from, body_behind, after_line_end,
  before_last_ok, find_from, is_at_error, last_number, number_comma, standalone_error, starts_with,
  trim_end,
}
use hydro_logger.Models.{c_str}
use hydro_logger.Prelude.Decimal.{
  scan_int, decimal, digits_to, format_int, scan_digits, scan_sign, scan_unsigned, skip_spaces,
  starts_with_digit,
}
use hydro_logger.LogBuffer.{appendf, vappendf}
use hydro_logger.Sim4g.Blocks.{
  block_end, block_loop, block_turn, drain_loop, drain_to_ok, header_length, header_loop, last_64,
  payload_loop, payload_turn, read_http_read_len,
}
use hydro_logger.Sim4g.Download.{
  check_size, choose_boot, download_ota_image, download_to, finalize, flash_begun, flash_end,
  flash_image, probe_answer, probe_size, report,
}
use hydro_logger.Sim4g.Windows.{
  fetch_window, log_progress, read_requested, read_window, request_window, window_end, window_fail,
  window_length, window_loop, window_turn,
}

-- No answer comes over Wi-Fi; a text is its own version.
abbrev https : Https simulated
https = record {
  http_get_request = λ url d. (none, d);
  parse_version = λ text. elim text [ [] ↦ unparsed | c ∷ t ↦ version (c ∷ t) ];
  begin = λ url d. (none, d);
  image_size = λ d. pos 0;
  perform = λ d. (finished none, d);
  is_complete = λ d. true;
  finish = λ d. (none, record d { boot = some d.image });
  abort = λ d. d;
  parts_left = λ d. 0;
}

https_laws : HttpsLaws simulated_laws https
unfolding simulated_laws
https_laws = record {
  get_boot = λ url d. refl;
  begin_boot = λ url d. refl;
  perform_boot = λ d. refl;
  perform_ends = λ d h. cc h;
  abort_boot = λ d. refl;
  finish_chosen = λ d h. refl;
  finish_refused = λ d name h. cc h;
}

-- The answers to the GET of the version, and to the download.
abbrev update : List (List ℕ)
update =
    codes "+CGACT: 1,1\r\nOK\r\n"
    ∷ codes "+CGPADDR: 1,10.0.0.1\r\nOK\r\n"
    ∷ codes "OK\r\n"
    ∷ codes "OK\r\n"
    ∷ codes "OK\r\n+HTTPACTION: 0,200,6\r\n"
    ∷ codes "OK\r\n+HTTPREAD: 6\r\nver2.0\r\n+HTTPREAD: 0\r\n\r\nOK\r\n"
    ∷ codes "OK\r\n"
    ∷ probe

check_and_update-Checked_example :
    (r : Bool × Modem simulated) × (check_and_update https
        (some sim4g)
        (codes "http://h/v")
        (codes "http://h/f")
        (modem true update)
      ≡ some r)
    × Checked simulated_laws https https_laws
        (some sim4g)
        (codes "http://h/v")
        (modem true update)
        r.0
        r.1
check_and_update-Checked_example =
    (check_and_update-Checked simulated_laws https https_laws (some sim4g) (codes "http://h/v")
        (codes "http://h/f")).at
      (modem true update)

updated :
    seen (
      check_and_update https
        (some sim4g)
        (codes "http://h/v")
        (codes "http://h/f")
        (modem true update))
    ≡ some (true, (codes "abc", some (codes "abc")))
unfolding fetch_and_parse_version fetch http_get say get get_open http_init_and_set_bearer
    http_term_safe ensure_pdp_active send_at_expect flush_sim act write_line_sim call wait_for_token
    now check_and_update wait_loop turns read_line_sim read_for say_received contains_text
    is_pdp_active log_address send_at_ok set_http_inited delay url_command get_action http_action
    get_answer action_of parse_http_action_line c_str scan_int get_body collect_raw raw_loop
    get_result http_body body_from body_behind send_term version_of note tagged update_to
    needs_update equals attempts appendf vappendf api_note begin_answer fails
    fetch_firmware_version_json finish_answer get_text perform_answer perform_https perform_loop
    perform_ota decimal digits_to format_int scan_digits scan_sign scan_unsigned skip_spaces
    starts_with_digit block_end block_loop block_turn drain_loop drain_to_ok header_length
    header_loop last_64 payload_loop payload_turn read_http_read_len check_size choose_boot
    download_ota_image download_to finalize flash_begun flash_end flash_image probe_answer
    probe_size report abandon_get abandon after_line_end before_last_ok find_from is_at_error
    last_number number_comma standalone_error starts_with trim_end fetch_window log_progress
    read_requested read_window request_window window_end window_fail window_length window_loop
    window_turn
updated = refl
