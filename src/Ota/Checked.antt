-- ===== src/Ota/Checked.antt =====
-- `checkAndUpdate` and `checkVersionAvailable`.
use hydro_logger.Prelude.{
  ℕ, zero, suc, ◌≡◌, refl, ap, ◌∙◌, Bool, true, false, not, Option, none, some, List, ◌++◌,
  if◌then◌else◌,
}
use hydro_logger.Prelude.Bytes.{codes}
use hydro_logger.Nvs.{CommType}
use hydro_logger.Sim4g.{Board, Modem, M, ◌>>=◌, ◌>>◌, and_then, return}
use hydro_logger.Sim4g.Rules.{Laws}
use hydro_logger.Sim4g.Ensures.{Ensures, Ensures-then}
use hydro_logger.Sim4g.Blocks.Stream.{Kept}
use hydro_logger.Ota.{
  Https, needs_update, tagged, note, fails, is_new, check_version_available, current_fw_version,
  ota_max_attempts, perform_ota, attempts, update_to, check_and_update,
}
use hydro_logger.Ota.Updates.{
  HttpsLaws, Updated, after, updates_bind, note_keeps, fails_updates, found_keeps,
}
use hydro_logger.Ota.Performed.{attempt_updates}

module _ {b : Board} (laws : Laws b) (https : Https b) (net : HttpsLaws laws https) where
  abbrev U : Modem b → Bool → Modem b → Type 0
  U = Updated laws https net

  -- After an attempt that succeeded.
  attempt_ok :
      (text : List ℕ) (s t : Modem b)
      → U s true t
      → (r : Bool × Modem b) × ((note https text >>= λ _. return true) t ≡ some r) × U s r.0 r.1
  unfolding note tagged
  attempt_ok text s t p = (
    _,
    refl,
    record {
      active = p.active;
      active_apn = p.active_apn;
      flash = p.flash;
      refused = λ h. cc h;
      booted = p.booted;
    },
  )

  -- After one that failed, with what is tried next.
  attempt_failed :
      (m : M b Bool) (s t : Modem b)
      → Ensures U m
      → U s false t
      → (r : Bool × Modem b) × (m t ≡ some r) × U s r.0 r.1
  attempt_failed m s t next p =
      let (r, e, q) = next.at t in
      let k : Kept laws s t = record {
        active = p.active;
        active_apn = p.active_apn;
        flash = p.flash;
        boot = p.refused refl;
      } in
      (r, e, after laws https net s t r.1 r.0 k q)

  attempted :
      (text : List ℕ) (m : M b Bool) (s : Modem b) (ok : Bool) (t : Modem b)
      → Ensures U m
      → U s ok t
      → (r : Bool × Modem b) × ((if ok then note https text >>= (λ _. return true) else m) t
          ≡ some r)
        × U s r.0 r.1
  attempted text m s true t next p = attempt_ok text s t p
  attempted text m s false t next p = attempt_failed m s t next p

  attempts_update :
      (left attempt : ℕ) (active : Option CommType) (url : List ℕ)
      → Ensures U (attempts https left attempt active url)
  unfolding attempts
  attempts_update zero attempt active url = fails_updates laws https net _
  attempts_update (suc left) attempt active url =
      updates_bind laws https net (note https _) _ (note_keeps laws https net _) (λ _.
        Ensures-then U U (perform_ota https active url) _
          (attempt_updates laws https net active url)
          (λ s ok t p.
            attempted _ _ s ok t
              (updates_bind laws https net (note https _) _ (note_keeps laws https net _)
                (λ _. attempts_update left (suc attempt) active url))
              p))

  -- What is ensured once a version was asked for: only a new one is installed.
  record NewOnly (found : Option (List ℕ)) (s : Modem b) (ok : Bool) (t : Modem b) : Type 0 where
    updated : Updated laws https net s ok t
    new : ok ≡ true → is_new found ≡ true

  refuses : (found : Option (List ℕ)) (text : List ℕ) → Ensures (NewOnly found) (fails https text)
  unfolding fails note tagged
  refuses found text = record {
    at = λ s. (
      _,
      refl,
      record {
        updated = record {
          active = refl;
          active_apn = refl;
          flash = refl;
          refused = λ h. refl;
          booted = λ h. cc h;
        };
        new = λ h. cc h;
      },
    );
  }

  -- An update to a version that is new.
  installs :
      (v : List ℕ) (m : M b Bool)
      → needs_update v ≡ true
      → Ensures U m
      → Ensures (NewOnly (some v)) m
  installs v m new p = record {
    at = λ s. let (r, e, q) = p.at s in (r, e, record { updated = q; new = λ _. new });
  }

  update_to_new :
      (active : Option CommType) (url : List ℕ) (found : Option (List ℕ))
      → Ensures (NewOnly found) (update_to https active url found)
  unfolding update_to
  update_to_new active url none = refuses none _
  update_to_new active url (some v) = choose (needs_update v) refl
    where
      choose :
          (test : Bool)
          → needs_update v ≡ test
          → Ensures (NewOnly (some v)) (
              if not test
              then fails https (codes "fw up-to-date (" ++ (current_fw_version ++ codes ")"))
              else (do
                note https (codes "new fw: " ++ (current_fw_version ++ (codes " -> " ++ v)))
                attempts https ota_max_attempts 1 active url))
      choose false e = refuses (some v) _
      choose true e = installs v _ e (
          updates_bind laws https net (note https _) _ (note_keeps laws https net _)
            (λ _. attempts_update ota_max_attempts 1 active url))

  -- What the whole update does from the state `s`.
  pub record Checked (active : Option CommType) (version_url : List ℕ) (s : Modem b) (ok : Bool)
      (t : Modem b) : Type 0 where
    pub updated : Updated laws https net s ok t
    pub available :
        ok ≡ true
        → (u : Modem b) × (check_version_available https active version_url s ≡ some (true, u))

  -- On a board that meets `Laws`, with HTTPS calls that meet `HttpsLaws`, over either link, and
  -- whatever the server answers, `checkAndUpdate` ends within its fuel. It answers true only if
  -- `checkVersionAvailable` answers true from the same state, and then what is booted next is the
  -- image that the flash holds; where it answers false, what is booted next is as it was, however
  -- many attempts failed. The link, the access point and the preferences are as they were.
  pub check_and_update-Checked :
      (active : Option CommType) (version_url bin_url : List ℕ)
      → Ensures (Checked active version_url) (check_and_update https active version_url bin_url)
  unfolding check_and_update check_version_available
  check_and_update-Checked active version_url bin_url = record {
    at = λ s.
        let (r, e, k) = (found_keeps laws https net active version_url).at s in
        let (u, g, p) = (update_to_new active bin_url r.0).at r.1 in
        (
          u,
          ap (and_then (update_to https active bin_url)) e ∙ g,
          record {
            updated = after laws https net s r.1 u.1 u.0 k p.updated;
            available = λ ok. (
              r.1,
              ap (and_then (λ v. return (is_new v))) e ∙ ap (λ x. some (x, r.1)) (p.new ok),
            );
          },
        );
  }
