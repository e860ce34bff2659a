-- ===== src/Sim4g/Download.antt =====
-- `downloadOtaImage` of sim4g_module.cpp.
pub mod Image
pub mod Safe
use hydro_logger.Prelude.{
  ℕ, ◌+◌, ◌/◌, pos, Bool, true, false, not, ◌||◌, Option, none, some, List, ◌++◌, ltb, ◌==◌,
  if◌then◌else◌,
}
use hydro_logger.Prelude.Int.{leb_ℤ, pos_part}
use hydro_logger.Prelude.Bytes.{codes}
use hydro_logger.Models.{c_str}
use hydro_logger.Sim4g.{Board, M, ◌>>=◌, ◌>>◌, return, act, call, now, get, say, dec}
use hydro_logger.Sim4g.Parse.{HttpActionResult, is_2xx}
use hydro_logger.Sim4g.At.{send_at_ok}
use hydro_logger.Sim4g.Http.{
  url_command, http_term_safe, http_init_and_set_bearer, abandon, http_action,
}
use hydro_logger.Sim4g.Blocks.{nat_dec}
use hydro_logger.Sim4g.Windows.{window_loop}

abbrev pub ota_total_timeout_ms : ℕ
ota_total_timeout_ms = 900000

module _ {b : Board} where
  -- The answer of `esp_ota_set_boot_partition`.
  unfoldable pub report : List ℕ → Option (List ℕ) → M b Bool
  report label (some name) = do say (codes "OTA FAIL: setboot " ++ name); return false
  report label none = do say (codes "OTA OK -> reboot to " ++ label); return true

  -- The answer of `esp_ota_end`, which verified the image: it becomes the one to boot.
  unfoldable pub choose_boot : List ℕ → Option (List ℕ) → M b Bool
  choose_boot label (some name) = do say (codes "OTA FAIL: end " ++ name); return false
  choose_boot label none = do boot_error ← call b.set_boot_partition; report label boot_error

  -- The end of `downloadOtaImage`.
  unfoldable pub finalize : List ℕ → M b Bool
  finalize label = do end_error ← call b.ota_end; choose_boot label end_error

  -- What is done after the windows.
  unfoldable pub flash_end : List ℕ → ℕ → ℕ × Bool → M b Bool
  flash_end label total (offset, ok) = do
    http_term_safe
    (if not ok || not (offset == total)
        then (do
          act b.ota_abort
          say (codes "OTA aborted " ++ (nat_dec offset ++ (codes "/" ++ nat_dec total)))
          return false)
        else finalize label)

  -- The answer of `esp_ota_begin`.
  unfoldable pub flash_begun : List ℕ → List ℕ → ℕ → Option (List ℕ) → M b Bool
  flash_begun url label total (some name) = do say (codes "OTA FAIL: begin " ++ name); return false
  flash_begun url label total none = do
    t ← now
    windows ← window_loop total url total (t + ota_total_timeout_ms) 0 0
    flash_end label total windows

  -- Steps 2 and 3 of `downloadOtaImage`, for an image of `total` bytes.
  unfoldable pub flash_image : List ℕ → List ℕ → ℕ → M b Bool
  flash_image url label total = do
    begin_error ← call (b.ota_begin total)
    flash_begun url label total begin_error

  -- The end of step 1: the size of the image against the partition.
  unfoldable pub check_size : List ℕ → List ℕ → ℕ → HttpActionResult → M b Bool
  check_size url label size result =
      if not (is_2xx result.status) || leb_ℤ result.body_len (pos 0)
      then abandon (
          codes "OTA FAIL: status="
          ++ (dec result.status ++ (codes " len=" ++ dec result.body_len)))
      else if ltb size (pos_part result.body_len)
      then abandon
          (codes "OTA FAIL: image " ++ (dec result.body_len ++ (codes " > part " ++ nat_dec size)))
      else (do
        say (codes "OTA image=" ++ (dec result.body_len ++ codes " B"))
        http_term_safe
        flash_image url label (pos_part result.body_len))

  unfoldable pub probe_answer : List ℕ → List ℕ → ℕ → Option HttpActionResult → M b Bool
  probe_answer url label size none = abandon (codes "OTA FAIL: no +HTTPACTION URC")
  probe_answer url label size (some result) = check_size url label size result

  -- Step 1: the size is asked for.
  unfoldable pub probe_size : List ℕ → List ℕ → ℕ → M b Bool
  probe_size url label size = do
    ready ← http_init_and_set_bearer (codes "OTA")
    (if not ready then return false else (do
      url_set ← send_at_ok (url_command url) 2000
      (if not url_set then abandon (codes "OTA FAIL at HTTPPARA URL") else (do
        (written, action) ←
            http_action (codes "AT+HTTPACTION=0") (codes "AT+HTTPACTION=0 (size probe)")
        (if not written
            then abandon (codes "OTA FAIL: write HTTPACTION")
            else probe_answer url label size action)))))

  -- With the partition that the image goes to.
  unfoldable pub download_to : List ℕ → Option (List ℕ × ℕ) → M b Bool
  download_to url none = do say (codes "OTA FAIL: no OTA partition"); return false
  download_to url (some (label, size)) = do
    say (codes "OTA target=" ++ (label ++ (codes " size=" ++ (nat_dec (size / 1024) ++ codes "K"))))
    probe_size url label size

  unfoldable pub download_ota_image : List ℕ → M b Bool
  download_ota_image url = do
    say (codes "OTA download url=" ++ c_str url)
    active ← get (λ s. s.active)
    (if not active
        then (do say (codes "OTA FAIL: module inactive"); return false)
        else (do part ← get (λ s. b.ota_partition s.dev); download_to url part))
