-- ===== src/Ota.antt =====
-- The update of the firmware: main/services/ota/ota_service.cpp, over the modem or over the HTTP
-- stack of ESP-IDF.
pub mod Updates
pub mod Performed
pub mod Checked
mod Tests
use hydro_logger.Prelude.{
  ℕ, zero, suc, ◌+◌, ℤ, pos, Bool, true, false, not, ◌&&◌, Option, none, some, List, [], ◌∷◌, ◌++◌,
  if◌then◌else◌,
}
use hydro_logger.Prelude.Bytes.{codes, equals}
use hydro_logger.Models.{c_str}
use hydro_logger.LogBuffer.{appendf}
use hydro_logger.Nvs.{CommType, sim4g}
use hydro_logger.Sim4g.{Board, Modem, M, ◌>>=◌, ◌>>◌, return, newline, act, call, get, dec}
use hydro_logger.Sim4g.Parse.{is_2xx}
use hydro_logger.Sim4g.Get.{http_get}
use hydro_logger.Sim4g.Blocks.{nat_dec}
use hydro_logger.Sim4g.Download.{download_ota_image}

-- What cJSON makes of a text: the string `fw_version`, or `version` without one.
pub data Version : Type 0 where
  unparsed missing : Version
  version : List ℕ → Version

-- `esp_https_ota_perform`: more to come, or the end with an error's name.
pub data Progress : Type 0 where
  in_progress : Progress
  finished : Option (List ℕ) → Progress

-- A request of the HTTP client of ESP-IDF: whether it was performed, the status code, and the data
-- that its event handler was given.
pub record Answer : Type 0 where
  pub performed : Bool
  pub code : ℤ
  pub parts : List (List ℕ)

-- The HTTP and OTA calls of ESP-IDF, and cJSON.
pub record Https (b : Board) : Type 0 where
  -- A GET; none where the client cannot be initialised.
  pub http_get_request : List ℕ → b.Dev → Option Answer × b.Dev
  pub parse_version : List ℕ → Version
  -- `esp_https_ota_begin` answers no error, or an error with its name.
  pub begin : List ℕ → b.Dev → Option (List ℕ) × b.Dev
  pub image_size : b.Dev → ℤ
  pub perform : b.Dev → Progress × b.Dev
  pub is_complete : b.Dev → Bool
  pub finish : b.Dev → Option (List ℕ) × b.Dev
  pub abort : b.Dev → b.Dev
  -- How often `perform` may still answer that more is to come.
  pub parts_left : b.Dev → ℕ

abbrev pub current_fw_version : List ℕ
current_fw_version = codes "ver1.1.16"

abbrev pub ota_max_attempts : ℕ
ota_max_attempts = 3

abbrev pub firmware_version_url : List ℕ
firmware_version_url = codes "http://donuoctrieuduong.xyz/hydro-logger-api/ota/ap-luc/version"

abbrev pub joined : List (List ℕ) → List ℕ
joined [] = []
joined (part ∷ parts) = part ++ joined parts

-- `HttpClient::getText` of main/services/net/http_client.cpp: the answer, and the text.
unfoldable pub get_text : Option Answer → Bool × List ℕ
get_text none = (false, [])
get_text (some a) = (a.performed && is_2xx a.code, joined a.parts)

unfoldable pub needs_update : List ℕ → Bool
needs_update remote_version = not (equals remote_version current_fw_version)

-- What is asked of the version that was found.
abbrev pub is_new : Option (List ℕ) → Bool
is_new none = false
is_new (some v) = needs_update v

-- `active && active->type() == CommType::Sim4G`
abbrev pub is_sim : Option CommType → Bool
is_sim none = false
is_sim (some sim4g) = true
is_sim (some t) = false

module _ {b : Board} (https : Https b) where
  -- `log.appendf` of a line behind a tag.
  unfoldable pub tagged : List ℕ → List ℕ → M b (Unit {0})
  tagged tag text s = some (tt, record s { log = appendf (tag ++ (text ++ newline)) s.log })

  unfoldable pub note : List ℕ → M b (Unit {0})
  note text = tagged (codes "[OTA] ") text

  unfoldable pub api_note : List ℕ → M b (Unit {0})
  api_note text = tagged (codes "[API] ") text

  -- The answer with a note, as the error paths give it.
  unfoldable pub fails : List ℕ → M b Bool
  fails text = do note text; return false

  -- `ServerApi::fetchFirmwareVersionJson` of main/services/net/server_api.cpp
  unfoldable pub fetch_firmware_version_json : M b (Bool × List ℕ)
  fetch_firmware_version_json = do
    api_note (codes "get fw version")
    answer ← call (https.http_get_request firmware_version_url)
    return (get_text answer)

  unfoldable pub fetch : Bool → List ℕ → M b (Bool × List ℕ)
  fetch sim version_url = if sim then http_get version_url [] else fetch_firmware_version_json

  unfoldable pub version_of : Version → M b (Option (List ℕ))
  version_of unparsed = do note (codes "JSON parse error"); return none
  version_of missing = do note (codes "missing fw_version field"); return none
  version_of (version v) = do note (codes "remote version: " ++ v); return (some v)

  unfoldable pub fetch_and_parse_version : Option CommType → List ℕ → M b (Option (List ℕ))
  fetch_and_parse_version active version_url = do
    (fetched, body) ← fetch (is_sim active) version_url
    (if not fetched then return none else version_of (https.parse_version (c_str body)))

  unfoldable pub check_version_available : Option CommType → List ℕ → M b Bool
  check_version_available active version_url = do
    remote_version ← fetch_and_parse_version active version_url
    return (is_new remote_version)

  -- The loop over `esp_https_ota_perform`.
  unfoldable pub perform_loop : ℕ → M b (Option (List ℕ))
  perform_loop zero = λ s. none
  perform_loop (suc fuel) = do
    progress ← call https.perform
    elim progress [ in_progress ↦ perform_loop fuel | finished err ↦ return err ]

  -- The answer of `esp_https_ota_finish`, which also chooses the image to boot.
  unfoldable pub finish_answer : Option (List ℕ) → M b Bool
  finish_answer (some name) = fails (codes "finish failed: " ++ name)
  finish_answer none = return true

  unfoldable pub perform_answer : Option (List ℕ) → M b Bool
  perform_answer (some name) = do
    note (codes "download failed: " ++ name)
    act https.abort
    return false
  perform_answer none = do
    complete ← get (λ s. https.is_complete s.dev)
    (if not complete
        then (do note (codes "incomplete data"); act https.abort; return false)
        else (do err ← call https.finish; finish_answer err))

  unfoldable pub begin_answer : Option (List ℕ) → M b Bool
  begin_answer (some name) = fails (codes "begin failed: " ++ name)
  begin_answer none = do
    size ← get (λ s. https.image_size s.dev)
    note (codes "image size: " ++ (dec size ++ codes " B"))
    fuel ← get (λ s. suc (https.parts_left s.dev))
    err ← perform_loop fuel
    perform_answer err

  -- The Wi-Fi path of `performOta`.
  unfoldable pub perform_https : List ℕ → Option (List ℕ × ℕ) → M b Bool
  perform_https bin_url none = fails (codes "no OTA partition")
  perform_https bin_url (some (label, size)) = do
    note (codes "target: " ++ label)
    err ← call (https.begin bin_url)
    begin_answer err

  unfoldable pub perform_ota : Option CommType → List ℕ → M b Bool
  perform_ota active bin_url =
      if is_sim active
      then download_ota_image bin_url
      else (do part ← get (λ s. b.ota_partition s.dev); perform_https bin_url part)

  -- The attempts that are left, from number `attempt` on.
  unfoldable pub attempts : ℕ → ℕ → Option CommType → List ℕ → M b Bool
  attempts zero attempt active bin_url =
      fails (codes "all " ++ (nat_dec ota_max_attempts ++ codes " attempts failed, aborting"))
  attempts (suc left) attempt active bin_url = do
    note (codes "download attempt " ++ (nat_dec attempt ++ (codes "/" ++ nat_dec ota_max_attempts)))
    ok ← perform_ota active bin_url
    (if ok then (do note (codes "update OK, pending reboot"); return true) else (do
      note (codes "attempt " ++ (nat_dec attempt ++ codes " failed"))
      attempts left (suc attempt) active bin_url))

  unfoldable pub update_to : Option CommType → List ℕ → Option (List ℕ) → M b Bool
  update_to active bin_url none = fails (codes "version fetch/parse failed")
  update_to active bin_url (some remote_version) =
      if not (needs_update remote_version)
      then fails (codes "fw up-to-date (" ++ (current_fw_version ++ codes ")"))
      else (do
        note (codes "new fw: " ++ (current_fw_version ++ (codes " -> " ++ remote_version)))
        attempts ota_max_attempts 1 active bin_url)

  unfoldable pub check_and_update : Option CommType → List ℕ → List ℕ → M b Bool
  check_and_update active version_url bin_url = do
    remote_version ← fetch_and_parse_version active version_url
    update_to active bin_url remote_version
