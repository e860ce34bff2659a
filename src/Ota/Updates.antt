-- ===== src/Ota/Updates.antt =====
-- What an update ensures of the board, and what the early check has to do with it.
use hydro_logger.Prelude.{
  ℕ, ◌≡◌, ◌<◌, refl, ◌∙◌, Bool, true, false, not, Option, none, some, List, [],
}
use hydro_logger.Prelude.Bytes.{codes}
use hydro_logger.Models.{c_str}
use hydro_logger.Nvs.{CommType}
use hydro_logger.Sim4g.{Board, Modem, M, ◌>>=◌, return, act, call, get}
use hydro_logger.Sim4g.Rules.{Laws, Composes, Runs, Runs-return, Runs-bind, Runs-if}
use hydro_logger.Sim4g.Ensures.{Ensures, Ensures-bind}
use hydro_logger.Sim4g.Get.Closes.{http_get-Served}
use hydro_logger.Sim4g.Blocks.Stream.{Kept, same-Kept, Kept-then}
use hydro_logger.Ota.{
  Version, unparsed, missing, version, in_progress, Https, is_sim, tagged, note, api_note, fails,
  fetch_firmware_version_json, get_text, fetch, version_of, fetch_and_parse_version,
}

-- What the OTA calls over HTTPS are assumed to do: only a successful `esp_https_ota_finish` changes
-- what is booted, to the image that the flash then holds, and `esp_https_ota_perform` comes to an end.
pub record HttpsLaws {b : Board} (laws : Laws b) (https : Https b) : Type 0 where
  pub get_boot :
      (url : List ℕ) (d : b.Dev) → laws.boot (https.http_get_request url d).1 ≡ laws.boot d
  pub begin_boot : (url : List ℕ) (d : b.Dev) → laws.boot (https.begin url d).1 ≡ laws.boot d
  pub perform_boot : (d : b.Dev) → laws.boot (https.perform d).1 ≡ laws.boot d
  pub perform_ends :
      (d : b.Dev)
      → (https.perform d).0 ≡ in_progress
      → https.parts_left (https.perform d).1 < https.parts_left d
  pub abort_boot : (d : b.Dev) → laws.boot (https.abort d) ≡ laws.boot d
  pub finish_chosen :
      (d : b.Dev)
      → (https.finish d).0 ≡ none
      → laws.boot (https.finish d).1 ≡ some (laws.image (https.finish d).1)
  pub finish_refused :
      (d : b.Dev) (name : List ℕ)
      → (https.finish d).0 ≡ some name
      → laws.boot (https.finish d).1 ≡ laws.boot d

module _ {b : Board} (laws : Laws b) (https : Https b) (net : HttpsLaws laws https) where
  -- The answer says whether there is a new image to boot.
  pub record Updated (s : Modem b) (ok : Bool) (t : Modem b) : Type 0 where
    pub active : t.active ≡ s.active
    pub active_apn : t.active_apn ≡ s.active_apn
    pub flash : t.flash ≡ s.flash
    pub refused : ok ≡ false → laws.boot t.dev ≡ laws.boot s.dev
    pub booted : ok ≡ true → laws.boot t.dev ≡ some (laws.image t.dev)

  pub after : (s t u : Modem b) (ok : Bool) → Kept laws s t → Updated t ok u → Updated s ok u
  after s t u ok k p = record {
    active = p.active ∙ k.active;
    active_apn = p.active_apn ∙ k.active_apn;
    flash = p.flash ∙ k.flash;
    refused = λ h. p.refused h ∙ k.boot;
    booted = p.booted;
  }

  pub composes : Composes (Kept laws)
  composes = record { same = same-Kept laws; then_ = Kept-then laws }

  pub updates_bind :
      {B : Type 0} (m : M b B) (f : B → M b Bool)
      → Runs (Kept laws) m
      → ((x : B) → Ensures Updated (f x))
      → Ensures Updated (m >>= f)
  updates_bind m f = Ensures-bind Updated (Kept laws) after m f

  pub tagged_keeps : (tag text : List ℕ) → Runs (Kept laws) (tagged https tag text)
  unfolding tagged
  tagged_keeps tag text = record {
    at = λ s. (_, refl, record { active = refl; active_apn = refl; flash = refl; boot = refl });
  }

  pub note_keeps : (text : List ℕ) → Runs (Kept laws) (note https text)
  unfolding note
  note_keeps text = tagged_keeps (codes "[OTA] ") text

  pub refused_lem : Ensures Updated (return false)
  refused_lem = record {
    at = λ s. (
      _,
      refl,
      record {
        active = refl;
        active_apn = refl;
        flash = refl;
        refused = λ h. refl;
        booted = λ h. cc h;
      },
    );
  }

  pub fails_updates : (text : List ℕ) → Ensures Updated (fails https text)
  unfolding fails
  fails_updates text = updates_bind (note https text) _ (note_keeps text) (λ _. refused_lem)

  -- A call of the board that leaves what is booted.
  pub call_keeps :
      {A : Type 0} (f : b.Dev → A × b.Dev)
      → ((d : b.Dev) → laws.boot (f d).1 ≡ laws.boot d)
      → Runs (Kept laws) (call f)
  unfolding call
  call_keeps f h = record {
    at = λ s. (_, refl, record { active = refl; active_apn = refl; flash = refl; boot = h s.dev });
  }

  pub act_keeps :
      (f : b.Dev → b.Dev) → ((d : b.Dev) → laws.boot (f d) ≡ laws.boot d) → Runs (Kept laws) (act f)
  unfolding act
  act_keeps f h = record {
    at = λ s. (_, refl, record { active = refl; active_apn = refl; flash = refl; boot = h s.dev });
  }

  pub get_keeps : {A : Type 0} (f : Modem b → A) → Runs (Kept laws) (get f)
  unfolding get
  get_keeps f = record { at = λ s. ((f s, s), refl, same-Kept laws s) }

  fetch_keeps : (sim : Bool) (url : List ℕ) → Runs (Kept laws) (fetch https sim url)
  unfolding fetch fetch_firmware_version_json api_note
  fetch_keeps true url = record {
    at = λ s.
        let (r, e, p) = (http_get-Served laws url []).at s in
        (
          r,
          e,
          record {
            active = p.serves.active;
            active_apn = p.serves.active_apn;
            flash = p.serves.flash;
            boot = p.serves.boot;
          },
        );
  }
  fetch_keeps false url =
      Runs-bind (Kept laws) composes (tagged https _ _) _ (tagged_keeps _ _) (λ _.
        Runs-bind (Kept laws) composes (call _) _ (call_keeps _ (net.get_boot _))
          (λ answer. Runs-return (Kept laws) composes (get_text answer)))

  version_keeps : (v : Version) → Runs (Kept laws) (version_of https v)
  unfolding version_of
  version_keeps unparsed =
      Runs-bind (Kept laws) composes (note https _) _ (note_keeps _)
        (λ _. Runs-return (Kept laws) composes none)
  version_keeps missing =
      Runs-bind (Kept laws) composes (note https _) _ (note_keeps _)
        (λ _. Runs-return (Kept laws) composes none)
  version_keeps (version v) =
      Runs-bind (Kept laws) composes (note https _) _ (note_keeps _)
        (λ _. Runs-return (Kept laws) composes (some v))

  pub found_keeps :
      (active : Option CommType) (url : List ℕ)
      → Runs (Kept laws) (fetch_and_parse_version https active url)
  unfolding fetch_and_parse_version
  found_keeps active url =
      Runs-bind (Kept laws) composes (fetch https (is_sim active) url) _
        (fetch_keeps (is_sim active) url)
        (λ answer.
          Runs-if (not answer.0) _ _ (Runs-return (Kept laws) composes none)
            (version_keeps (https.parse_version (c_str answer.1))))
