-- ===== src/Sim4g/Download/Image.antt =====
-- The flashing of an image: it is booted only if it was written whole.
use hydro_logger.Prelude.{
  ℕ, ◌+◌, ◌≡◌, inl, inr, refl, ap, sym, ◌∙◌, Bool, true, false, not, ◌||◌, Option, none, some, List,
  ◌++◌, length, if◌then◌else◌, arith, ◌==◌, Bool-cases,
}
use mathlib.Core.Path.{subst}
use hydro_logger.Prelude.Bytes.{codes}
use hydro_logger.Sim4g.{Board, Modem, M, ◌>>=◌, return, and_then, act, call, now, say}
use hydro_logger.Sim4g.Rules.{Laws, Runs}
use hydro_logger.Sim4g.Talks.{Talks, say_answer, say_talk}
use hydro_logger.Sim4g.Ensures.{Ensures, Ensures-bind, branch_true, branch_false}
use hydro_logger.Sim4g.Http.{http_term_safe, abandon}
use hydro_logger.Sim4g.Download.{
  report, choose_boot, finalize, flash_end, flash_begun, flash_image, ota_total_timeout_ms,
}
use hydro_logger.Sim4g.Blocks.{nat_dec}
use hydro_logger.Sim4g.Blocks.Stream.{Kept, same-Kept, Kept-then, written}
use hydro_logger.Sim4g.Blocks.Written.{Talks-Kept}
use hydro_logger.Sim4g.Windows.Whole.{window_loop-Windows}
use hydro_logger.Sim4g.Windows.Fetched.{Quiet-term}

module _ {b : Board} (laws : Laws b) where
  -- With success the image in the flash is booted next, and `Whole` says how long it is; without, what
  -- is booted is as it was. Nothing else of the module changes, but the session.
  pub record Installed (Whole : ℕ → Type 0) (s : Modem b) (ok : Bool) (t : Modem b) : Type 0 where
    pub active : t.active ≡ s.active
    pub active_apn : t.active_apn ≡ s.active_apn
    pub flash : t.flash ≡ s.flash
    pub refused : ok ≡ false → laws.boot t.dev ≡ laws.boot s.dev
    pub booted : ok ≡ true → laws.boot t.dev ≡ some (laws.image t.dev)
    pub whole : ok ≡ true → Whole (written laws t)

  pub Kept-Installed : (W : ℕ → Type 0) (s t : Modem b) → Kept laws s t → Installed W s false t
  Kept-Installed W s t k = record {
    active = k.active;
    active_apn = k.active_apn;
    flash = k.flash;
    refused = λ _. k.boot;
    booted = λ h. cc h;
    whole = λ h. absurd (cc h);
  }

  pub Installed-after :
      (W : ℕ → Type 0) (s t u : Modem b) (ok : Bool)
      → Kept laws s t
      → Installed W t ok u
      → Installed W s ok u
  Installed-after W s t u ok k p = record {
    active = p.active ∙ k.active;
    active_apn = p.active_apn ∙ k.active_apn;
    flash = p.flash ∙ k.flash;
    refused = λ h. p.refused h ∙ k.boot;
    booted = p.booted;
    whole = p.whole;
  }

  pub installs_bind :
      (W : ℕ → Type 0) {A : Type 0} (m : M b A) (f : A → M b Bool)
      → Runs (Talks laws) m
      → ((a : A) → Ensures (Installed W) (f a))
      → Ensures (Installed W) (m >>= f)
  installs_bind W =
      Ensures-bind (Installed W) (Talks laws)
        (λ s t u ok q p. Installed-after W s t u ok (Talks-Kept laws s t q) p)

  -- A refusal after what was kept before.
  pub refuses :
      (W : ℕ → Type 0) (text : List ℕ) (s t : Modem b)
      → Kept laws s t
      → (r : Bool × Modem b) × ((say text >>= λ _. return false) t ≡ some r) × Installed W s r.0 r.1
  refuses W text s t k =
      let (u, e, q) = say_answer laws text false t in
      ((false, u), e, Kept-Installed W s u (Kept-then laws s t u k (Talks-Kept laws t u q)))

  -- An end in `false` behind a clean-up.
  gives_up : (W : ℕ → Type 0) → Ensures (Installed W) (http_term_safe >>= λ _. return false)
  gives_up W = record {
    at = λ s.
        let (r, e, q) = (Quiet-term laws).at s in
        ((false, r.1), ap (and_then (λ _. return false)) e, Kept-Installed W s r.1 q.kept);
  }

  pub stops : (W : ℕ → Type 0) → Ensures (Installed W) (return false)
  stops W = record { at = λ s. ((false, s), refl, Kept-Installed W s s (same-Kept laws s)) }

  pub abandons : (W : ℕ → Type 0) (text : List ℕ) → Ensures (Installed W) (abandon text)
  unfolding abandon
  abandons W text = installs_bind W (say text) _ (say_talk laws text) (λ _. gives_up W)

  -- A change of the board that keeps what is booted.
  device_Kept :
      (s : Modem b) (d : b.Dev) → laws.boot d ≡ laws.boot s.dev → Kept laws s (record s { dev = d })
  device_Kept s d e = record { active = refl; active_apn = refl; flash = refl; boot = e }

  module _ (W : ℕ → Type 0) (label : List ℕ) where
    report-Installed :
        (s : Modem b) (o : Option (List ℕ))
        → (b.set_boot_partition s.dev).0 ≡ o
        → laws.image (b.set_boot_partition s.dev).1 ≡ laws.image s.dev
        → W (written laws s)
        → let t = record s { dev = (b.set_boot_partition s.dev).1 } in
          (r : Bool × Modem b) × (report label o t ≡ some r) × Installed W s r.0 r.1
    unfolding report written
    report-Installed s (some name) e same w =
        refuses W (codes "OTA FAIL: setboot " ++ name) s _
          (device_Kept s (b.set_boot_partition s.dev).1 (laws.boot_refused s.dev name e))
    report-Installed s none e same w =
        let t = record s { dev = (b.set_boot_partition s.dev).1 } in
        let (u, g, q) = say_answer laws (codes "OTA OK -> reboot to " ++ label) true t in
        (
          (true, u),
          g,
          record {
            active = q.active;
            active_apn = q.active_apn;
            flash = q.flash;
            refused = λ h. absurd (cc h);
            booted = λ h. q.boot ∙ laws.boot_chosen s.dev e ∙ ap some (sym (q.image ∙ same));
            whole = λ h. subst (λ (i : List ℕ). W (length i)) (sym (q.image ∙ same)) w;
          },
        )

    choose_Installed :
        (s : Modem b) (o : Option (List ℕ))
        → (b.ota_end s.dev).0 ≡ o
        → W (written laws s)
        → let t = record s { dev = (b.ota_end s.dev).1 } in
          (r : Bool × Modem b) × (choose_boot label o t ≡ some r) × Installed W s r.0 r.1
    unfolding choose_boot call written
    choose_Installed s (some name) e w =
        refuses W (codes "OTA FAIL: end " ++ name) s _
          (device_Kept s (b.ota_end s.dev).1 (laws.ota_end_boot s.dev))
    choose_Installed s none e w =
        let t = record s { dev = (b.ota_end s.dev).1 } in
        let (r, g, p) =
          report-Installed t (b.set_boot_partition t.dev).0 refl (laws.boot_image t.dev)
            (subst (λ (i : List ℕ). W (length i)) (sym (laws.ota_end_image s.dev e)) w) in
        (r, g, Installed-after W s t r.1 r.0 (device_Kept s t.dev (laws.ota_end_boot s.dev)) p)

    finalize-Installed :
        (s : Modem b)
        → W (written laws s)
        → (r : Bool × Modem b) × (finalize label s ≡ some r) × Installed W s r.0 r.1
    unfolding finalize call
    finalize-Installed s w = choose_Installed s (b.ota_end s.dev).0 refl w

  -- After the windows: the image is whole if what was written is.
  end_Installed :
      (label : List ℕ) (total : ℕ) (windows : ℕ × Bool) (s t : Modem b)
      → Kept laws s t
      → (windows.1 ≡ true → written laws t ≡ windows.0)
      → (r : Bool × Modem b) × (flash_end label total windows t ≡ some r)
        × Installed (λ n. n ≡ total) s r.0 r.1
  unfolding flash_end act written
  end_Installed label total (offset, ok) s t k count =
      let W = λ (n : ℕ). n ≡ total in
      let (r0, e0, q0) = (Quiet-term laws).at t in
      let u = r0.1 in
      let kept = Kept-then laws s t u k q0.kept in
      let aborted = record u { dev = b.ota_abort u.dev } in
      let abort : M b Bool = act b.ota_abort >>= λ _.
      say (codes "OTA aborted " ++ (nat_dec offset ++ (codes "/" ++ nat_dec total))) >>= λ _.
      return false in
      let test = not ok || not (offset == total) in
      let rest : M b Bool = if test then abort else finalize label in
      elim (Bool-cases test) [
        | inl bad ↦
            let (r, e, p) =
              refuses W (codes "OTA aborted " ++ (nat_dec offset ++ (codes "/" ++ nat_dec total))) s
                aborted
                (Kept-then laws s u aborted kept
                  (device_Kept u aborted.dev (laws.ota_abort_boot u.dev))) in
            (r, ap (and_then (λ _. rest)) e0 ∙ branch_true _ _ _ u bad ∙ e, p)
        | inr fine ↦
            let went_well : ok ≡ true = ground (arith, fine) in
            let all_read : offset ≡ total = ground (arith, fine) in
            let (r, e, p) =
              finalize-Installed W label u (ap length q0.image ∙ count went_well ∙ all_read) in
            (
              r,
              ap (and_then (λ _. rest)) e0 ∙ branch_false _ _ _ u fine ∙ e,
              Installed-after W s u r.1 r.0 kept p,
            )
      ]

  begun_Installed :
      (url label : List ℕ) (total : ℕ) (o : Option (List ℕ)) (s t : Modem b)
      → Kept laws s t
      → (o ≡ none → written laws t ≡ 0)
      → (r : Bool × Modem b) × (flash_begun url label total o t ≡ some r)
        × Installed (λ n. n ≡ total) s r.0 r.1
  unfolding flash_begun now
  begun_Installed url label total (some name) s t k empty =
      refuses (λ n. n ≡ total) (codes "OTA FAIL: begin " ++ name) s t k
  begun_Installed url label total none s t k empty =
      let (r, e, w) =
        (window_loop-Windows laws total url total (b.now t.dev + ota_total_timeout_ms) 0 0
            (omega arith)).at
          t in
      let (u, g, p) =
        end_Installed label total r.0 s r.1 (Kept-then laws s t r.1 k w.kept)
          (λ h. omega (arith, empty refl, w.filled h)) in
      (u, ap (and_then (flash_end label total)) e ∙ g, p)

  -- On a board that meets `Laws`, for an image of `total` bytes: the flashing ends within its
  -- fuel, whatever the server and the modem answer, windows of another length included. It
  -- answers true only if exactly `total` bytes were written to the flash since `esp_ota_begin`,
  -- which then is the image to boot; where it answers false the choice of what to boot is as it
  -- was.
  pub flash_image-Installed :
      (url label : List ℕ) (total : ℕ)
      → Ensures (Installed (λ n. n ≡ total)) (flash_image url label total)
  unfolding flash_image call written
  flash_image-Installed url label total = record {
    at = λ s.
        let d = (b.ota_begin total s.dev).1 in
        begun_Installed url label total (b.ota_begin total s.dev).0 s (record s { dev = d })
          (device_Kept s d (laws.ota_begin_boot total s.dev))
          (λ e. ap length (laws.ota_begin_image total s.dev e));
  }
