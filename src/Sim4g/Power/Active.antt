-- ===== src/Sim4g/Power/Active.antt =====
-- Powering the modem on ends, and the module is active exactly if it answered.
use hydro_logger.Prelude.{◌≡◌, refl, ◌∙◌, Bool, true, false, not, ◌++◌, pos, arith}
use hydro_logger.Prelude.Bytes.{codes}
use hydro_logger.Sim4g.{Board, Modem, M, ◌>>=◌, return, act, delay, set_sim_power, set_active, dec}
use hydro_logger.Sim4g.Rules.{Laws, Runs}
use hydro_logger.Sim4g.Talks.{Talks, same-Talks, bind_talk, say_talk, delay_talk}
use hydro_logger.Sim4g.Ensures.{Ensures, Ensures-if, Ensures-bind, Ensures-then}
use hydro_logger.Sim4g.Power.Ready.{ready_talk, lte_talk}
use hydro_logger.Sim4g.Power.{
  boot_delay_ms, power_on_hardware, wait_for_at_ready, configure_lte_mode, power_on,
}

module _ {b : Board} (laws : Laws b) where
  -- All but the power is as it was.
  pub record Switches (s t : Modem b) : Type 0 where
    pub active : t.active ≡ s.active
    pub http_inited : t.http_inited ≡ s.http_inited
    pub active_apn : t.active_apn ≡ s.active_apn
    pub flash : t.flash ≡ s.flash
    pub image : laws.image t.dev ≡ laws.image s.dev
    pub boot : laws.boot t.dev ≡ laws.boot s.dev

  Talks-Switches : (s t : Modem b) → Talks laws s t → Switches s t
  Talks-Switches s t q = record {
    active = q.active;
    http_inited = q.http_inited;
    active_apn = q.active_apn;
    flash = q.flash;
    image = q.image;
    boot = q.boot;
  }

  Switches-then : (s t u : Modem b) → Switches s t → Switches t u → Switches s u
  Switches-then s t u p q = record {
    active = q.active ∙ p.active;
    http_inited = q.http_inited ∙ p.http_inited;
    active_apn = q.active_apn ∙ p.active_apn;
    flash = q.flash ∙ p.flash;
    image = q.image ∙ p.image;
    boot = q.boot ∙ p.boot;
  }

  switched : (on : Bool) (s : Modem b) → Switches s (record s { dev = b.set_power on s.dev })
  switched on s = record {
    active = refl;
    http_inited = refl;
    active_apn = refl;
    flash = refl;
    image = (laws.power_same on s.dev).0;
    boot = (laws.power_same on s.dev).1;
  }

  power_switch : (on : Bool) → Runs Switches (set_sim_power on)
  unfolding set_sim_power act
  power_switch on = record { at = λ s. ((tt, _), refl, switched on s) }

  -- The power is on after it.
  record SwitchedOn (s : Modem b) (r : Unit {0}) (t : Modem b) : Type 0 where
    switches : Switches s t
    powered : laws.powered t.dev ≡ true

  SwitchedOn-after :
      (s t u : Modem b) (r : Unit {0}) → Switches s t → SwitchedOn t r u → SwitchedOn s r u
  SwitchedOn-after s t u r q p = record {
    switches = Switches-then s t u q p.switches;
    powered = p.powered;
  }

  SwitchedOn-talk :
      (s t u : Modem b) (r : Unit {0}) → Talks laws s t → SwitchedOn t r u → SwitchedOn s r u
  SwitchedOn-talk s t u r q = SwitchedOn-after s t u r (Talks-Switches s t q)

  -- Once it is on, talk leaves it on.
  switch_on :
      (m : M b (Unit {0}))
      → Runs (Talks laws) m
      → Ensures SwitchedOn (set_sim_power true >>= λ _. m)
  unfolding set_sim_power act
  switch_on m runs = record {
    at = λ s.
        let p = switched true s in
        let t = record s { dev = b.set_power true s.dev } in
        let (r, e, talk) = runs.at t in
        (
          r,
          e,
          record {
            switches = Switches-then s t r.1 p (Talks-Switches t r.1 talk);
            powered = talk.powered ∙ laws.power_powered true s.dev;
          },
        );
  }

  hardware-SwitchedOn : Ensures SwitchedOn power_on_hardware
  unfolding power_on_hardware
  hardware-SwitchedOn =
      Ensures-bind SwitchedOn (Talks laws) SwitchedOn-talk _ _
        (say_talk laws (codes "power seq LOW->HIGH"))
        (λ _.
          Ensures-bind SwitchedOn Switches SwitchedOn-after (set_sim_power false) _
            (power_switch false)
            (λ _.
              Ensures-bind SwitchedOn (Talks laws) SwitchedOn-talk (delay 100) _
                (delay_talk laws 100 (omega arith))
                (λ _. switch_on _ (
                  bind_talk laws _ _
                    (say_talk laws (codes "wait boot " ++ (dec (pos boot_delay_ms) ++ codes "ms")))
                    (λ _. delay_talk laws 5000 (omega arith))))))

  -- What `powerOn` ensures.
  pub record Powered (s : Modem b) (ok : Bool) (t : Modem b) : Type 0 where
    pub active : t.active ≡ ok
    pub powered : laws.powered t.dev ≡ ok
    pub talks : Switches (record s { active = ok }) t

  -- The same of a part that starts with the power on.
  PoweredFrom : Modem b → Bool → Modem b → Type 0
  PoweredFrom s ok t = laws.powered s.dev ≡ true → Powered s ok t

  Powered-after : (s t u : Modem b) (ok : Bool) → Switches s t → Powered t ok u → Powered s ok u
  Powered-after s t u ok q p = record {
    active = p.active;
    powered = p.powered;
    talks = record {
      active = p.active;
      http_inited = p.talks.http_inited ∙ q.http_inited;
      active_apn = p.talks.active_apn ∙ q.active_apn;
      flash = p.talks.flash ∙ q.flash;
      image = p.talks.image ∙ q.image;
      boot = p.talks.boot ∙ q.boot;
    };
  }

  from_talk :
      (s t u : Modem b) (ok : Bool) → Talks laws s t → PoweredFrom t ok u → PoweredFrom s ok u
  unfolding PoweredFrom
  from_talk s t u ok q p on = Powered-after s t u ok (Talks-Switches s t q) (p (q.powered ∙ on))

  stays : Ensures PoweredFrom (set_active true >>= λ _. return true)
  unfolding set_active PoweredFrom
  stays = record {
    at = λ s.
        let t = record s { active = true } in
        (
          (true, t),
          refl,
          λ on. record {
            active = refl;
            powered = on;
            talks = Talks-Switches t t (same-Talks laws t);
          },
        );
  }

  switches_off :
      Ensures PoweredFrom (set_sim_power false >>= λ _. set_active false >>= λ _. return false)
  unfolding set_sim_power act set_active PoweredFrom
  switches_off = record {
    at = λ s.
        let p = switched false s in
        (
          (false, record s { dev = b.set_power false s.dev; active = false }),
          refl,
          λ on. record {
            active = refl;
            powered = laws.power_powered false s.dev;
            talks = record {
              active = refl;
              http_inited = p.http_inited;
              active_apn = p.active_apn;
              flash = p.flash;
              image = p.image;
              boot = p.boot;
            };
          },
        );
  }

  -- On a board that meets `Laws`, whatever the modem does, powering it on ends, and the module is
  -- active and its power pin high exactly if that answered true. The session, the access point, the
  -- preferences, the firmware image and the choice of what to boot are as they were.
  pub power_on-active : Ensures Powered power_on
  unfolding power_on PoweredFrom
  power_on-active =
      Ensures-then SwitchedOn Powered power_on_hardware _ hardware-SwitchedOn (λ s x t on.
        let ready =
          Ensures-bind PoweredFrom (Talks laws) from_talk (wait_for_at_ready 12000) _
            (ready_talk laws 12000)
            (λ ready. Ensures-if PoweredFrom (not ready) _ _ switches_off (
              Ensures-bind PoweredFrom (Talks laws) from_talk configure_lte_mode _ (lte_talk laws)
                (λ _. stays))) in
        let (r, e, p) = ready.at t in (r, e, Powered-after s t r.1 r.0 on.switches (p on.powered)))
