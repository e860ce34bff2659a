-- ===== src/Sim4g/AsModule/Tried.antt =====
-- What a try of the modem as the link leaves behind.
use hydro_logger.Prelude.{◌≡◌, refl, ap, sym, ◌∙◌, inl, inr, Bool, true, false, if◌then◌else◌}
use mathlib.Core.Path.{subst}
use hydro_logger.LogBuffer.{LogBuffer}
use hydro_logger.Nvs.{set_last_sim_apn}
use hydro_logger.Connectivity.{CommModule, try_module, conn_check_timeout_ms}
use hydro_logger.Sim4g.{Board, Modem, say, set_sim_power, set_active, set_http_inited, act}
use hydro_logger.Sim4g.Rules.{Laws}
use hydro_logger.Sim4g.Power.{power_off}
use hydro_logger.Sim4g.Power.Active.{Powered, power_on-active}
use hydro_logger.Sim4g.Network.Remembers.{Connected, check_internet-Connected}
use hydro_logger.Sim4g.AsModule.{given, with_log, sim_module}

-- The parts of a try, from what its calls give.
module _ {S : Type 0} (m : CommModule S) where
  after_off : Bool × LogBuffer × S → Bool × LogBuffer × S → LogBuffer × S → Bool × LogBuffer × S
  after_off on online off =
      if on.0
      then (if online.0 then (true, online.1, online.2) else (false, off.0, off.1))
      else (false, on.1, on.2)

  after_online : Bool × LogBuffer × S → Bool × LogBuffer × S → Bool × LogBuffer × S
  after_online on online = after_off on online (m.power_off online.1 online.2)

  after_on : Bool × LogBuffer × S → Bool × LogBuffer × S
  after_on on = after_online on (m.check_internet conn_check_timeout_ms on.1 on.2)

  tried :
      (log : LogBuffer) (s : S) (on online : Bool × LogBuffer × S) (off : LogBuffer × S)
      → m.power_on log s ≡ on
      → m.check_internet conn_check_timeout_ms on.1 on.2 ≡ online
      → m.power_off online.1 online.2 ≡ off
      → try_module m log s ≡ after_off on online off
  unfolding try_module after_on after_online after_off
  tried log s on online off p q r =
      ap after_on p ∙ (ap (after_online on) q ∙ ap (after_off on online) r)

module _ {b : Board} (laws : Laws b) where
  -- The module is active and its power pin high exactly if it is the link, and then its access point is
  -- the one that is saved; if it is not, what is saved is as it was.
  pub record Left (s : Modem b) (ok : Bool) (t : Modem b) : Type 0 where
    pub active : t.active ≡ ok
    pub powered : laws.powered t.dev ≡ ok
    pub saved : ok ≡ true → t.flash ≡ set_last_sim_apn b.nvs t.active_apn s.flash
    pub unsaved : ok ≡ false → (t.flash ≡ s.flash) × (t.active_apn ≡ s.active_apn)
    pub boot : laws.boot t.dev ≡ laws.boot s.dev

  -- The branches of a try; `v` is the modem after powering it off.
  branches :
      (s t u v : Modem b) (on online : Bool)
      → Powered laws s on t
      → Connected laws t online u
      → v.active ≡ false
      → laws.powered v.dev ≡ false
      → v.flash ≡ u.flash
      → v.active_apn ≡ u.active_apn
      → laws.boot v.dev ≡ laws.boot u.dev
      → let r = after_off (sim_module {b = b}) (on, t.log, t) (online, u.log, u) (v.log, v) in
        Left s r.0 r.2
  unfolding after_off
  branches s t u v true true p q off dark same_flash same_apn same_boot = elim q.outcome [
    | inl r ↦ record {
      active = q.active ∙ p.active;
      powered = q.powered ∙ p.powered;
      saved = λ _. r.2 ∙ ap (set_last_sim_apn b.nvs u.active_apn) p.talks.flash;
      unsaved = λ h. cc h;
      boot = q.boot ∙ p.talks.boot;
    }
    | inr r ↦ cc r.0
  ]
  branches s t u v true false p q off dark same_flash same_apn same_boot = elim q.outcome [
    | inl r ↦ cc r.0
    | inr r ↦ record {
      active = off;
      powered = dark;
      saved = λ h. cc h;
      unsaved = λ _. (same_flash ∙ (r.1 ∙ p.talks.flash), same_apn ∙ (r.2 ∙ p.talks.active_apn));
      boot = same_boot ∙ (q.boot ∙ p.talks.boot);
    }
  ]
  branches s t u v false online p q off dark same_flash same_apn same_boot = record {
    active = p.active;
    powered = p.powered;
    saved = λ h. cc h;
    unsaved = λ _. (p.talks.flash, p.talks.active_apn);
    boot = p.talks.boot;
  }

  -- The log of the state before does not count.
  without_log :
      (log : LogBuffer) (s t : Modem b) (on : Bool)
      → Powered laws (with_log log s) on t
      → Powered laws s on t
  without_log log s t on p = record {
    active = p.active;
    powered = p.powered;
    talks = record {
      active = p.talks.active;
      http_inited = p.talks.http_inited;
      active_apn = p.talks.active_apn;
      flash = p.talks.flash;
      image = p.talks.image;
      boot = p.talks.boot;
    };
  }

  -- On a board that meets `Laws`, trying the modem as the link leaves it active, with its power pin
  -- high, exactly if the answer is true. Then the access point in use is the one that is saved; otherwise what is saved, and the
  -- access point, are as they were. What is booted next does not change.
  pub try_module-Left :
      (log : LogBuffer) (s : Modem b) → let r = try_module sim_module log s in Left s r.0 r.2
  unfolding power_off say set_sim_power act set_active set_http_inited
  try_module-Left log s =
      let (on, e, p) = (power_on-active laws).at (with_log log s) in
      let t = on.1 in
      let (online, g, q) = (check_internet-Connected laws conn_check_timeout_ms).at t in
      let u = online.1 in
      let off = sim_module.power_off u.log u in
      let done =
        tried sim_module log s (on.0, t.log, t) (online.0, u.log, u) off (ap (given false log s) e)
          (ap (given false t.log t) g) refl in
      subst (λ r. Left s r.0 r.2) (sym done)
        (branches s t u off.1 on.0 online.0 (without_log log s t on.0 p) q refl
          (laws.power_powered false u.dev) refl refl (laws.power_same false u.dev).1)
