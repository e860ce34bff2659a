-- ===== src/Ota/Performed.antt =====
-- The download over the HTTP stack of ESP-IDF, and an attempt over either.
use hydro_logger.Prelude.{
  ℕ, zero, suc, ◌≡◌, ◌<◌, refl, ap, ◌∙◌, Bool, true, false, not, Option, none, some, List, ◌++◌,
  arith,
}
use hydro_logger.Prelude.Bytes.{codes}
use hydro_logger.Nvs.{CommType}
use hydro_logger.Sim4g.{Board, Modem, M, ◌>>=◌, and_then, return, act, call, get}
use hydro_logger.Sim4g.Rules.{Laws}
use hydro_logger.Sim4g.Ensures.{Ensures, Ensures-if}
use hydro_logger.Sim4g.Blocks.Stream.{Kept, Kept-then}
use hydro_logger.Sim4g.Download.{download_ota_image}
use hydro_logger.Sim4g.Download.Safe.{download_ota_image-Downloaded}
use hydro_logger.Ota.{
  Progress, in_progress, finished, Https, is_sim, note, perform_loop, finish_answer, perform_answer,
  begin_answer, perform_https, perform_ota,
}
use hydro_logger.Ota.Updates.{
  HttpsLaws, Updated, after, updates_bind, note_keeps, refused_lem, fails_updates, call_keeps,
  act_keeps, get_keeps,
}

module _ {b : Board} (laws : Laws b) (https : Https b) (net : HttpsLaws laws https) where
  -- It ends from here, with what `Kept` says.
  EndsAt : M b (Option (List ℕ)) → Modem b → Modem b → Type 0
  EndsAt m s t = (r : Option (List ℕ) × Modem b) × (m t ≡ some r) × Kept laws s r.1

  -- What a turn of the loop makes of the progress; `next` is its next turn.
  turn :
      (next : M b (Option (List ℕ))) (p : Progress) (s t : Modem b)
      → Kept laws s t
      → (p ≡ in_progress → EndsAt next t t)
      → EndsAt (elim p [ in_progress ↦ next | finished err ↦ return err ]) s t
  unfolding EndsAt
  turn next in_progress s t k h = let (r, e, q) = h refl in (r, e, Kept-then laws s t r.1 k q)
  turn next (finished err) s t k h = ((err, t), refl, k)

  loop_ends :
      (fuel : ℕ) (s : Modem b)
      → https.parts_left s.dev < fuel
      → EndsAt (perform_loop https fuel) s s
  unfolding perform_loop call EndsAt
  loop_ends zero s h = absurd (omega (arith, h))
  loop_ends (suc fuel) s h =
      let t = record s { dev = (https.perform s.dev).1 } in
      let k : Kept laws s t = record {
        active = refl;
        active_apn = refl;
        flash = refl;
        boot = net.perform_boot s.dev;
      } in
      turn (perform_loop https fuel) (https.perform s.dev).0 s t k
        (λ e. loop_ends fuel t (omega (arith, h, net.perform_ends s.dev e)))

  -- `esp_https_ota_finish` and what is answered.
  finished_updates :
      (answer : Option (List ℕ)) (s t : Modem b)
      → t.active ≡ s.active
      → t.active_apn ≡ s.active_apn
      → t.flash ≡ s.flash
      → (answer ≡ none → laws.boot t.dev ≡ some (laws.image t.dev))
      → ((name : List ℕ) → answer ≡ some name → laws.boot t.dev ≡ laws.boot s.dev)
      → (r : Bool × Modem b) × (finish_answer https answer t ≡ some r)
        × (Updated laws https net) s r.0 r.1
  unfolding finish_answer
  finished_updates none s t a p f chosen refusal = (
    (true, t),
    refl,
    record {
      active = a;
      active_apn = p;
      flash = f;
      refused = λ h. cc h;
      booted = λ h. chosen refl;
    },
  )
  finished_updates (some name) s t a p f chosen refusal =
      let (r, e, q) = ((fails_updates laws https net) (codes "finish failed: " ++ name)).at t in
      let k : Kept laws s t = record {
        active = a;
        active_apn = p;
        flash = f;
        boot = refusal name refl;
      } in
      (r, e, (after laws https net) s t r.1 r.0 k q)

  finish_updates : Ensures (Updated laws https net) (call https.finish >>= finish_answer https)
  unfolding call
  finish_updates = record {
    at = λ s.
        finished_updates (https.finish s.dev).0 s (record s { dev = (https.finish s.dev).1 }) refl
          refl refl (net.finish_chosen s.dev) (net.finish_refused s.dev);
  }

  -- The download failed, and is dropped.
  dropped_updates :
      (text : List ℕ)
      → Ensures
          (Updated laws https net)
          (note https text >>= λ _. act https.abort >>= λ _. return false)
  dropped_updates text =
      (updates_bind laws https net) (note https text) _ ((note_keeps laws https net) text) (λ _.
        (updates_bind laws https net) (act https.abort) _
          ((act_keeps laws https net) https.abort net.abort_boot)
          (λ _. (refused_lem laws https net)))

  performed_updates :
      (err : Option (List ℕ)) → Ensures (Updated laws https net) (perform_answer https err)
  unfolding perform_answer
  performed_updates (some name) = dropped_updates (codes "download failed: " ++ name)
  performed_updates none =
      (updates_bind laws https net) (get _) _ ((get_keeps laws https net) _) (λ complete.
        Ensures-if (Updated laws https net) (not complete) _ _
          (dropped_updates (codes "incomplete data")) finish_updates)

  perform_updates : Ensures (Updated laws https net) (
      get (λ s. suc (https.parts_left s.dev)) >>= λ fuel.
      perform_loop https fuel >>= perform_answer https)
  unfolding get EndsAt
  perform_updates = record {
    at = λ s.
        let (r, e, k) = loop_ends (suc (https.parts_left s.dev)) s (omega arith) in
        let (u, g, p) = (performed_updates r.0).at r.1 in
        (u, ap (and_then (perform_answer https)) e ∙ g, (after laws https net) s r.1 u.1 u.0 k p);
  }

  begun_updates :
      (err : Option (List ℕ)) → Ensures (Updated laws https net) (begin_answer https err)
  unfolding begin_answer
  begun_updates (some name) = (fails_updates laws https net) (codes "begin failed: " ++ name)
  begun_updates none =
      (updates_bind laws https net) (get _) _ ((get_keeps laws https net) _) (λ size.
        (updates_bind laws https net) (note https _) _ ((note_keeps laws https net) _)
          (λ _. perform_updates))

  https_updates :
      (url : List ℕ) (part : Option (List ℕ × ℕ))
      → Ensures (Updated laws https net) (perform_https https url part)
  unfolding perform_https
  https_updates url none = (fails_updates laws https net) (codes "no OTA partition")
  https_updates url (some (label, size)) =
      (updates_bind laws https net) (note https _) _ ((note_keeps laws https net) _) (λ _.
        (updates_bind laws https net) (call (https.begin url)) _
          ((call_keeps laws https net) _ (net.begin_boot url)) begun_updates)

  modem_updates : (url : List ℕ) → Ensures (Updated laws https net) (download_ota_image url)
  modem_updates url = record {
    at = λ s.
        let (r, e, p) = (download_ota_image-Downloaded laws url).at s in
        (
          r,
          e,
          record {
            active = p.installed.active;
            active_apn = p.installed.active_apn;
            flash = p.installed.flash;
            refused = p.installed.refused;
            booted = p.installed.booted;
          },
        );
  }

  pub attempt_updates :
      (active : Option CommType) (url : List ℕ)
      → Ensures (Updated laws https net) (perform_ota https active url)
  unfolding perform_ota
  attempt_updates active url =
      Ensures-if (Updated laws https net) (is_sim active) _ _ (modem_updates url)
        ((updates_bind laws https net) (get _) _ ((get_keeps laws https net) _) (https_updates url))
