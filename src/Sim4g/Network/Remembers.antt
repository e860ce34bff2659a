-- ===== src/Sim4g/Network/Remembers.antt =====
-- `checkInternet` ends, and what it leaves in the module and in the preferences.
use hydro_logger.Prelude.{
  ℕ, ◌+◌, ◌≡◌, ◌⊎◌, inl, inr, refl, ap, sym, ◌∙◌, Bool, true, false, not, some, List, ◌++◌,
  if◌then◌else◌, ltb, pos, Bool-cases,
}
use Prim.Native.Nat.{min}
use hydro_logger.Prelude.Bytes.{codes}
use hydro_logger.Nvs.{ApnProfile, set_last_sim_apn}
use hydro_logger.Sim4g.{
  Board, Modem, M, ◌>>=◌, return, now, say, get, dec, clamp_timeout, ms_remaining,
}
use hydro_logger.Sim4g.Rules.{Laws, Runs}
use hydro_logger.Sim4g.Talks.{
  Talks, same-Talks, say_talk, now_talk, ms_remaining_talk, clamp_talk, say_answer,
}
use hydro_logger.Sim4g.Ensures.{Ensures, Ensures-if, Ensures-bind}
use hydro_logger.Sim4g.At.{send_at_ok}
use hydro_logger.Sim4g.At.Ends.{send_at_ok_talk}
use hydro_logger.Sim4g.Carrier.{apn_name, other_apn, detect_carrier}
use hydro_logger.Sim4g.Registration.{check_sim_ready, wait_lte_registration}
use hydro_logger.Sim4g.DataContext.{try_apn_connect}
use hydro_logger.Sim4g.Network.{
  use_apn, fail_both, fallback_text, second_apn, connect_apns, network_phases, check_internet,
}
use hydro_logger.Sim4g.Network.Talks.{
  sim_ready_talk, registration_talks, connect_talk, carrier_talk,
}

module _ {b : Board} (laws : Laws b) where
  -- Nothing changes but the access point, and that only with success: the active one is then the one
  -- that is stored.
  pub record Connected (s : Modem b) (ok : Bool) (t : Modem b) : Type 0 where
    pub active : t.active ≡ s.active
    pub http_inited : t.http_inited ≡ s.http_inited
    pub image : laws.image t.dev ≡ laws.image s.dev
    pub boot : laws.boot t.dev ≡ laws.boot s.dev
    pub powered : laws.powered t.dev ≡ laws.powered s.dev
    pub outcome :
        ((ok ≡ true) × (s.active ≡ true) × (t.flash ≡ set_last_sim_apn b.nvs t.active_apn s.flash))
        ⊎ ((ok ≡ false) × (t.flash ≡ s.flash) × (t.active_apn ≡ s.active_apn))

  -- The same inside, where the module is known to be active.
  Connects : Modem b → Bool → Modem b → Type 0
  Connects s ok t = s.active ≡ true → Connected s ok t

  after_talk : (s t u : Modem b) (ok : Bool) → Talks laws s t → Connected t ok u → Connected s ok u
  after_talk s t u ok q c = record {
    active = c.active ∙ q.active;
    http_inited = c.http_inited ∙ q.http_inited;
    image = c.image ∙ q.image;
    boot = c.boot ∙ q.boot;
    powered = c.powered ∙ q.powered;
    outcome = elim c.outcome [
      | inl (o, a, f) ↦
          inl (o, sym q.active ∙ a, f ∙ ap (set_last_sim_apn b.nvs u.active_apn) q.flash)
      | inr (o, f, a) ↦ inr (o, f ∙ q.flash, a ∙ q.active_apn)
    ];
  }

  connects_after :
      (s t u : Modem b) (ok : Bool) → Talks laws s t → Connects t ok u → Connects s ok u
  unfolding Connects
  connects_after s t u ok q c h = after_talk s t u ok q (c (q.active ∙ h))

  failed : (s t : Modem b) → Talks laws s t → Connected s false t
  failed s t q = record {
    active = q.active;
    http_inited = q.http_inited;
    image = q.image;
    boot = q.boot;
    powered = q.powered;
    outcome = inr (refl, q.flash, q.active_apn);
  }

  -- A part that only talks and answers false.
  fails :
      (m : M b Bool)
      → ((s : Modem b) → (t : Modem b) × (m s ≡ some (false, t)) × Talks laws s t)
      → Ensures Connects m
  unfolding Connects
  fails m h = record { at = λ s. let (t, e, q) = h s in ((false, t), e, λ _. failed s t q) }

  denies : Ensures Connects (return false)
  denies = fails (return false) (λ s. (s, refl, same-Talks laws s))

  connects_bind :
      {A : Type 0} (m : M b A) (f : A → M b Bool)
      → Runs (Talks laws) m
      → ((a : A) → Ensures Connects (f a))
      → Ensures Connects (m >>= f)
  connects_bind = Ensures-bind Connects (Talks laws) connects_after

  says_no : (text : List ℕ) → Ensures Connects (say text >>= λ _. return false)
  says_no text = fails _ (say_answer laws text false)

  fails_both : Ensures Connects fail_both
  unfolding fail_both
  fails_both = says_no (codes "checkInternet FAIL: both APNs failed")

  uses : (p : ApnProfile) → Ensures Connects (use_apn p)
  unfolding use_apn Connects
  uses p = record {
    at = λ s.
        let before = record s { active_apn = p; flash = set_last_sim_apn b.nvs p s.flash } in
        let (t, e, q) = say_answer laws (codes "network ready APN=" ++ apn_name p) true before in
        (
          (true, t),
          e,
          λ h. record {
            active = q.active;
            http_inited = q.http_inited;
            image = q.image;
            boot = q.boot;
            powered = q.powered;
            outcome =
                inl (
                  refl,
                  h,
                  q.flash ∙ ap (λ a. set_last_sim_apn b.nvs a s.flash) (sym q.active_apn),
                );
          },
        );
  }

  -- The second access point, within what is left of the time.
  second : (p : ApnProfile) (deadline left : ℕ) → Ensures Connects (second_apn p deadline left)
  unfolding second_apn
  second p deadline left =
      Ensures-if Connects (ltb 0 left) _ _
        (connects_bind (try_apn_connect p deadline) _ (connect_talk laws p deadline)
          (λ ok. Ensures-if Connects ok _ _ (uses p) fails_both))
        fails_both

  connects : (deadline : ℕ) → Ensures Connects (connect_apns deadline)
  unfolding connect_apns
  connects deadline = connects_bind detect_carrier _ (carrier_talk laws) (λ p.
      connects_bind (try_apn_connect p deadline) _ (connect_talk laws p deadline) (λ ok.
        Ensures-if Connects ok _ _ (uses p) (
          connects_bind (say (fallback_text p)) _ (say_talk laws (fallback_text p)) (λ _.
            connects_bind (clamp_timeout deadline 2000) _ (clamp_talk laws deadline 2000) (λ tmo.
              connects_bind (send_at_ok (codes "AT+CGACT=0,1") tmo) _
                (send_at_ok_talk laws (codes "AT+CGACT=0,1") tmo)
                (λ _.
                  connects_bind (ms_remaining deadline) _ (ms_remaining_talk laws deadline)
                    (second (other_apn p) deadline)))))))

  -- The phases of an active module.
  phases : (deadline : ℕ) → Ensures Connects (network_phases deadline)
  unfolding network_phases
  phases deadline =
      connects_bind (check_sim_ready deadline) _ (sim_ready_talk laws deadline) (λ ready.
        Ensures-if Connects (not ready) _ _ denies (
          connects_bind (wait_lte_registration deadline) _ (registration_talks laws deadline)
            (λ registered. Ensures-if Connects (not registered) _ _ denies (connects deadline))))

  -- On a board that meets `Laws`, whatever the modem does, `checkInternet` ends within its fuel.
  -- It answers true only of an active module, and then the access point in use is the one that is
  -- stored as the last that worked; where it answers false the access point and the preferences
  -- are as they were. The session, the power, the firmware image and the choice of what to boot are
  -- as they were in any case.
  pub check_internet-Connected : (timeout_ms : ℕ) → Ensures Connected (check_internet timeout_ms)
  unfolding check_internet Connects get
  check_internet-Connected timeout_ms =
      let budget = min timeout_ms 40000 in
      let text = codes "checkInternet budget=" ++ (dec (pos budget) ++ codes "ms") in
      Ensures-bind Connected (Talks laws) after_talk now _ (now_talk laws) (λ t.
        Ensures-bind Connected (Talks laws) after_talk (say text) _ (say_talk laws text) (λ _.
          record {
            at = λ s. elim (Bool-cases s.active) [
              | inl on ↦
                  let (r, e, c) = (phases (t + budget)).at s in
                  (
                    r,
                    (λ i.
                          (if not (on i)
                              then (say (codes "module not active") >>= λ _. return false)
                              else network_phases (t + budget))
                            s)
                        ∙ e,
                    c on,
                  )
              | inr off ↦
                  let (u, e, q) = say_answer laws (codes "module not active") false s in
                  (
                    (false, u),
                    (λ i.
                          (if not (off i)
                              then (say (codes "module not active") >>= λ _. return false)
                              else network_phases (t + budget))
                            s)
                        ∙ e,
                    failed s u q,
                  )
            ];
          }))
