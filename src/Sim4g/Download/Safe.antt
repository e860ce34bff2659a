-- ===== src/Sim4g/Download/Safe.antt =====
-- `downloadOtaImage` as a whole.
use hydro_logger.Prelude.{
  ℕ, ◌≡◌, ◌≤◌, inl, inr, refl, ap, sym, ◌∙◌, Bool, false, not, ◌||◌, Option, none, some, List, ◌++◌,
  arith, ltb, Bool-cases, ℤ, pos, negsuc,
}
use hydro_logger.Prelude.Int.{leb_ℤ, pos_part}
use hydro_logger.Prelude.Bytes.{codes}
use hydro_logger.Models.{c_str}
use hydro_logger.LogBuffer.{appendf}
use hydro_logger.Sim4g.{newline, Board, Modem, M, say, get, dec}
use hydro_logger.Sim4g.Parse.{HttpActionResult, is_2xx}
use hydro_logger.Sim4g.Rules.{Laws}
use hydro_logger.Sim4g.Talks.{say_answer, say_talk}
use hydro_logger.Sim4g.Ensures.{
  Ensures, Ensures-if, Ensures-bind, Ensures-then, branch_true, branch_false,
}
use hydro_logger.Sim4g.At.{send_at_ok}
use hydro_logger.Sim4g.At.Ends.{send_at_ok_talk}
use hydro_logger.Sim4g.Http.{url_command, http_term_safe, http_init_and_set_bearer, http_action}
use hydro_logger.Sim4g.Http.Opens.{Opens, opens}
use hydro_logger.Sim4g.Http.Session.{action_talk}
use hydro_logger.Sim4g.Download.{
  flash_image, check_size, probe_answer, probe_size, download_to, download_ota_image,
}
use hydro_logger.Sim4g.Blocks.Stream.{Kept, same-Kept, Kept-then, written}
use hydro_logger.Sim4g.Blocks.Written.{Talks-Kept}
use hydro_logger.Sim4g.Windows.Fetched.{Quiet, Quiet-term}
use hydro_logger.Sim4g.Download.Image.{
  flash_image-Installed, refuses, Kept-Installed, stops, installs_bind, Installed, abandons,
  Installed-after,
}

module _ {b : Board} (laws : Laws b) where
  weaker :
      (V W : ℕ → Type 0) (m : M b Bool)
      → ((n : ℕ) → V n → W n)
      → Ensures (Installed laws V) m
      → Ensures (Installed laws W) m
  weaker V W m h runs = record {
    at = λ s.
        let (r, e, p) = runs.at s in
        (
          r,
          e,
          record {
            active = p.active;
            active_apn = p.active_apn;
            flash = p.flash;
            refused = p.refused;
            booted = p.booted;
            whole = λ ok. h (written laws r.1) (p.whole ok);
          },
        );
  }

  -- An image of the partition: not empty, and no longer than that.
  abbrev pub FitsIn : Option (List ℕ × ℕ) → ℕ → Type 0
  FitsIn none n = ⊥
  FitsIn (some (label, size)) n = (1 ≤ n) × (n ≤ size)

  fits :
      (z : ℤ) (test : Bool) (size n : ℕ)
      → (test || leb_ℤ z (pos 0)) ≡ false
      → ltb size (pos_part z) ≡ false
      → n ≡ pos_part z
      → (1 ≤ n) × (n ≤ size)
  fits (pos k) test size n h g e = ground (arith, h, g, e)
  fits (negsuc k) test size n h g e = ground (arith, h, g, e)

  check_Installed :
      (url label : List ℕ) (size : ℕ) (result : HttpActionResult)
      → Ensures (Installed laws (FitsIn (some (label, size)))) (check_size url label size result)
  unfolding check_size
  check_Installed url label size result =
      let W = FitsIn (some (label, size)) in
      let z = result.body_len in
      let test = not (is_2xx result.status) in
      record {
        at = λ s. elim (Bool-cases (test || leb_ℤ z (pos 0))) [
          | inl bad ↦
              let (r, e, p) = (abandons laws W _).at s in (r, branch_true _ _ _ s bad ∙ e, p)
          | inr good ↦ elim (Bool-cases (ltb size (pos_part z))) [
            | inl large ↦
                let (r, e, p) = (abandons laws W _).at s in
                (r, branch_false _ _ _ s good ∙ branch_true _ _ _ s large ∙ e, p)
            | inr small ↦
                let flashed =
                  weaker (λ n. n ≡ pos_part z) W (flash_image url label (pos_part z))
                    (λ n e. fits z test size n good small e)
                    (flash_image-Installed laws url label (pos_part z)) in
                let rest =
                  (installs_bind laws) W (say (codes "OTA image=" ++ (dec z ++ codes " B"))) _
                    (say_talk laws _)
                    (λ _.
                      Ensures-bind (Installed laws W) (Quiet laws)
                        (λ s t u ok q p. (Installed-after laws) W s t u ok q.kept p) http_term_safe
                        _ (Quiet-term laws) (λ _. flashed)) in
                let (r, e, p) = rest.at s in
                (r, branch_false _ _ _ s good ∙ branch_false _ _ _ s small ∙ e, p)
          ]
        ];
      }

  answer_Installed :
      (url label : List ℕ) (size : ℕ) (action : Option HttpActionResult)
      → Ensures (Installed laws (FitsIn (some (label, size)))) (probe_answer url label size action)
  unfolding probe_answer
  answer_Installed url label size none = abandons laws (FitsIn (some (label, size))) _
  answer_Installed url label size (some result) = check_Installed url label size result

  probe_Installed :
      (url label : List ℕ) (size : ℕ)
      → Ensures (Installed laws (FitsIn (some (label, size)))) (probe_size url label size)
  unfolding probe_size
  probe_Installed url label size =
      let W = FitsIn (some (label, size)) in
      Ensures-then (Opens laws) (Installed laws W) (http_init_and_set_bearer (codes "OTA")) _
        (opens laws (codes "OTA"))
        (λ s ready t o.
          let kept : Kept laws s t = record {
            active = o.serves.active;
            active_apn = o.serves.active_apn;
            flash = o.serves.flash;
            boot = o.serves.boot;
          } in
          let rest = Ensures-if (Installed laws W) (not ready) _ _ (stops laws W) (
            installs_bind laws W (send_at_ok (url_command url) 2000) _ (send_at_ok_talk laws _ 2000)
              (λ url_set. Ensures-if (Installed laws W) (not url_set) _ _ (abandons laws W _) (
                installs_bind laws W (http_action _ _) _ (action_talk laws _ _) (λ answer.
                  Ensures-if (Installed laws W) (not answer.0) _ _ (abandons laws W _)
                    (answer_Installed url label size answer.1))))) in
          let (r, e, p) = rest.at t in (r, e, Installed-after laws W s t r.1 r.0 kept p))

  to_Installed :
      (url : List ℕ) (part : Option (List ℕ × ℕ))
      → Ensures (Installed laws (FitsIn part)) (download_to url part)
  unfolding download_to
  to_Installed url none = record { at = λ s. (refuses laws) (FitsIn none) _ s s (same-Kept laws s) }
  to_Installed url (some (label, size)) =
      (installs_bind laws) (FitsIn (some (label, size))) (say _) _ (say_talk laws _)
        (λ _. probe_Installed url label size)

  -- What a download does to the board.
  pub record Downloaded (s : Modem b) (ok : Bool) (t : Modem b) : Type 0 where
    pub installed : Installed laws (FitsIn (b.ota_partition s.dev)) s ok t
    pub inactive : s.active ≡ false → ok ≡ false

  -- On a board that meets `Laws`, whatever the modem and the server answer, `downloadOtaImage`
  -- ends within its fuel. It answers true only of an active module, and then what is booted next
  -- is the image that the flash holds, which is not empty and fits the partition that was chosen;
  -- where it answers false, what is booted next is as it was. The access point and the
  -- preferences are as they were.
  pub download_ota_image-Downloaded : (url : List ℕ) → Ensures Downloaded (download_ota_image url)
  unfolding download_ota_image say get
  download_ota_image-Downloaded url = record {
    at = λ s.
        let text = codes "OTA download url=" ++ c_str url in
        let t = record s { log = appendf (codes "[SIM] " ++ (text ++ newline)) s.log } in
        let kept : Kept laws s t = record {
          active = refl;
          active_apn = refl;
          flash = refl;
          boot = refl;
        } in
        let part = b.ota_partition s.dev in
        elim (Bool-cases s.active) [
          | inl on ↦
              let (r, e, p) = (to_Installed url part).at t in
              (
                r,
                branch_false (not s.active) _ _ t (ap not on) ∙ e,
                record {
                  installed = Installed-after laws (FitsIn part) s t r.1 r.0 kept p;
                  inactive = λ off. cc (sym on ∙ off);
                },
              )
          | inr off ↦
              let (u, e, q) = say_answer laws (codes "OTA FAIL: module inactive") false t in
              (
                (false, u),
                branch_true (not s.active) _ _ t (ap not off) ∙ e,
                record {
                  installed =
                      (Kept-Installed laws) (FitsIn part) s u
                        (Kept-then laws s t u kept (Talks-Kept laws t u q));
                  inactive = λ _. refl;
                },
              )
        ];
  }
