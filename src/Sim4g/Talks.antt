-- ===== src/Sim4g/Talks.antt =====
-- An operation that only talks to the modem: what it leaves as it was, and the rules for it.
use hydro_logger.Prelude.{
  ℕ, ◌≡◌, ◌≤◌, refl, ap, ◌∙◌, Option, none, some, List, [], ◌∷◌, ◌++◌, if◌then◌else◌, arith, ltb,
}
use hydro_logger.Prelude.Bytes.{codes}
use hydro_logger.Models.{c_str}
use hydro_logger.Sim4g.{
  Board, Modem, M, ◌>>=◌, and_then, return, act, call, now, delay, flush_sim, say, say_received,
  get, ms_remaining, clamp_timeout,
}
use hydro_logger.Sim4g.Rules.{
  Laws, Grows, Grows-same, Grows-then, Composes, Runs, Runs-return, Runs-bind, Runs-bind_option,
  Runs-if,
}

module _ {b : Board} (laws : Laws b) where
  pub record Talks (s t : Modem b) : Type 0 where
    pub active : t.active ≡ s.active
    pub http_inited : t.http_inited ≡ s.http_inited
    pub active_apn : t.active_apn ≡ s.active_apn
    pub flash : t.flash ≡ s.flash
    pub image : laws.image t.dev ≡ laws.image s.dev
    pub boot : laws.boot t.dev ≡ laws.boot s.dev
    pub powered : laws.powered t.dev ≡ laws.powered s.dev
    pub writes : Grows laws s.dev t.dev
    pub forward : laws.steps s.dev ≤ laws.steps t.dev

  pub Talks-composes : Composes Talks
  Talks-composes = record {
    same = λ s. record {
      active = refl;
      http_inited = refl;
      active_apn = refl;
      flash = refl;
      image = refl;
      boot = refl;
      powered = refl;
      writes = Grows-same laws s.dev s.dev refl;
      forward = omega arith;
    };
    then_ = λ s t u p q. record {
      active = q.active ∙ p.active;
      http_inited = q.http_inited ∙ p.http_inited;
      active_apn = q.active_apn ∙ p.active_apn;
      flash = q.flash ∙ p.flash;
      image = q.image ∙ p.image;
      boot = q.boot ∙ p.boot;
      powered = q.powered ∙ p.powered;
      writes = Grows-then laws s.dev t.dev u.dev p.writes q.writes;
      forward = omega (arith, p.forward, q.forward);
    };
  }

  -- A change of the board alone.
  pub board_Talks :
      (s : Modem b) (d : b.Dev)
      → (laws.image d ≡ laws.image s.dev) × (laws.boot d ≡ laws.boot s.dev)
      → Grows laws s.dev d
      → laws.powered d ≡ laws.powered s.dev
      → laws.steps s.dev ≤ laws.steps d
      → Talks s (record s { dev = d })
  board_Talks s d same writes powered f = record {
    active = refl;
    http_inited = refl;
    active_apn = refl;
    flash = refl;
    image = same.0;
    boot = same.1;
    powered = powered;
    writes = writes;
    forward = f;
  }

  -- One that writes nothing.
  pub quiet_Talks :
      (s : Modem b) (d : b.Dev)
      → (laws.image d ≡ laws.image s.dev) × (laws.boot d ≡ laws.boot s.dev)
      → (laws.written d ≡ laws.written s.dev) × (laws.powered d ≡ laws.powered s.dev)
      → laws.steps s.dev ≤ laws.steps d
      → Talks s (record s { dev = d })
  quiet_Talks s d same pins = board_Talks s d same (Grows-same laws s.dev d pins.0) pins.1

  pub same-Talks : (s : Modem b) → Talks s s
  same-Talks s = Talks-composes.same s

  pub now_talk : Runs Talks now
  unfolding now
  now_talk = record { at = λ s. ((b.now s.dev, s), refl, same-Talks s) }

  pub get_talk : {A : Type 0} (f : Modem b → A) → Runs Talks (get f)
  unfolding get
  get_talk f = record { at = λ s. ((f s, s), refl, same-Talks s) }

  pub ms_remaining_talk : (deadline : ℕ) → Runs Talks (ms_remaining deadline)
  unfolding ms_remaining
  ms_remaining_talk deadline = record { at = λ s. ((_, s), refl, same-Talks s) }

  pub say_talk : (text : List ℕ) → Runs Talks (say text)
  unfolding say
  say_talk text = record {
    at = λ s. (
      (tt, _),
      refl,
      record {
        active = refl;
        http_inited = refl;
        active_apn = refl;
        flash = refl;
        image = refl;
        boot = refl;
        powered = refl;
        writes = Grows-same laws s.dev s.dev refl;
        forward = omega arith;
      },
    );
  }

  pub say_received_talk : (line : List ℕ) → Runs Talks (say_received line)
  unfolding say_received
  say_received_talk line = say_talk (codes "<" ++ c_str line)

  pub flush_talk : Runs Talks flush_sim
  unfolding flush_sim act
  flush_talk = record {
    at = λ s. (
      (tt, _),
      refl,
      quiet_Talks s _ (laws.flush_same s.dev) (laws.flush_pins s.dev) (laws.flush_steps s.dev),
    );
  }

  pub delay_talk : (ms : ℕ) → 1 ≤ ms → Runs Talks (delay ms)
  unfolding delay act
  delay_talk ms h = record {
    at = λ s.
        let f = laws.delay_steps ms s.dev h in
        (
          (tt, _),
          refl,
          quiet_Talks s _ (laws.delay_same ms s.dev) (laws.delay_pins ms s.dev) (omega (arith, f)),
        );
  }

  pub write_talk : (text : List ℕ) → Runs Talks (call (b.write text))
  unfolding call
  write_talk text = record {
    at = λ s. (
      _,
      refl,
      board_Talks s _ (laws.write_same text s.dev) (text ∷ [], laws.write_written text s.dev)
          (laws.write_powered text s.dev) (laws.write_steps text s.dev),
    );
  }

  pub return_talk : {A : Type 0} (a : A) → Runs Talks (return a)
  return_talk a = Runs-return Talks Talks-composes a

  pub bind_talk :
      {A B : Type 0} (m : M b A) (f : A → M b B)
      → Runs Talks m
      → ((a : A) → Runs Talks (f a))
      → Runs Talks (m >>= f)
  bind_talk = Runs-bind Talks Talks-composes

  -- A message, and an answer.
  pub say-return_talk :
      {A : Type 0} (text : List ℕ) (a : A) → Runs Talks (say text >>= λ _. return a)
  say-return_talk text a = bind_talk (say text) (λ _. return a) (say_talk text) (λ _. return_talk a)

  -- The same, with the answer.
  pub say_answer :
      {A : Type 0} (text : List ℕ) (a : A) (s : Modem b)
      → (t : Modem b) × ((say text >>= λ _. return a) s ≡ some (a, t)) × Talks s t
  say_answer {A} text a s =
      let (r, e, q) = (say_talk text).at s in (r.1, ap (and_then (λ _. return {A = A} a)) e, q)

  pub option_talk :
      {A B : Type 0} (m : M b (Option A)) (f : Option A → M b B)
      → Runs Talks m
      → Runs Talks (f none)
      → ((a : A) → Runs Talks (f (some a)))
      → Runs Talks (m >>= f)
  option_talk = Runs-bind_option Talks Talks-composes

  pub clamp_talk : (deadline default_ms : ℕ) → Runs Talks (clamp_timeout deadline default_ms)
  unfolding clamp_timeout
  clamp_talk deadline default_ms =
      bind_talk (ms_remaining deadline) _ (ms_remaining_talk deadline)
        (λ rem. return_talk (if ltb default_ms rem then default_ms else rem))

pub ruleset talk_rules = (
  return_talk, Runs-if, now_talk, get_talk, ms_remaining_talk, clamp_talk, say_talk,
  say_received_talk, flush_talk, write_talk, option_talk, bind_talk,
)
