-- ===== src/Sim4g/Loops.antt =====
-- Loops of the modem that run for a given time: each turn takes a step of the clock, so the steps of
-- that time are fuel enough.
use hydro_logger.Prelude.{
  ℕ, suc, ◌+◌, ◌-◌, ◌*◌, ◌≡◌, ◌≤◌, ◌<◌, refl, ap, ◌∙◌, inl, inr, Bool, true, false, Option, none,
  some, List, [], ◌∷◌, if◌then◌else◌, arith, ltb, Bool-cases,
}
use hydro_logger.Sim4g.{Board, Modem, M, ◌>>=◌, and_then, act, call, now, delay, ms_remaining}
use hydro_logger.Sim4g.Rules.{Laws, Runs}
use hydro_logger.Sim4g.Talks.{Talks, Talks-composes, quiet_Talks}

module _ {b : Board} (laws : Laws b) where
  -- It ends if less than `fuel` steps are missing to `limit`.
  pub record Loops {A : Type 0} (fuel limit : ℕ) (m : M b A) : Type 0 where
    pub at :
        (s : Modem b)
        → limit - laws.steps s.dev < fuel
        → (r : A × Modem b) × (m s ≡ some r) × Talks laws s r.1

  -- It ends, and takes a step.
  pub record Takes {A : Type 0} (m : M b A) : Type 0 where
    pub at :
        (s : Modem b)
        → (r : A × Modem b) × (m s ≡ some r)
          × Talks laws s r.1
          × (laws.steps s.dev < laws.steps r.1.dev)

  pub Takes-Runs : {A : Type 0} (m : M b A) → Takes m → Runs (Talks laws) m
  Takes-Runs m takes = record { at = λ s. let (r, e, t, _) = takes.at s in (r, e, t) }

  pub Loops-none : {A : Type 0} (limit : ℕ) (m : M b A) → Loops 0 limit m
  Loops-none limit m = record { at = λ s h. absurd (omega (arith, h)) }

  pub Loops-Runs :
      {A : Type 0} (fuel limit : ℕ) (m : M b A) → Runs (Talks laws) m → Loops fuel limit m
  Loops-Runs fuel limit m runs = record { at = λ s h. runs.at s }

  pub Loops-if :
      {A : Type 0} (fuel limit : ℕ) (test : Bool) (m k : M b A)
      → Loops fuel limit m
      → Loops fuel limit k
      → Loops fuel limit (if test then m else k)
  Loops-if fuel limit true m k p q = p
  Loops-if fuel limit false m k p q = q

  pub Loops-bind :
      {A B : Type 0} (fuel limit : ℕ) (m : M b A) (f : A → M b B)
      → Runs (Talks laws) m
      → ((a : A) → Loops fuel limit (f a))
      → Loops fuel limit (m >>= f)
  Loops-bind fuel limit m f runs next = record {
    at = λ s h.
        let (r, e, q) = runs.at s in
        let (u, g, q') = (next r.0).at r.1 (omega (arith, h, q.forward)) in
        (u, ap (and_then f) e ∙ g, (Talks-composes laws).then_ s r.1 u.1 q q');
  }

  pub Loops-take :
      {A B : Type 0} (fuel limit : ℕ) (m : M b A) (f : A → M b B)
      → Takes m
      → ((a : A) → Loops fuel limit (f a))
      → Loops fuel (limit - 1) (m >>= f)
  Loops-take fuel limit m f takes next = record {
    at = λ s h.
        let (r, e, q, longer) = takes.at s in
        let (u, g, q') = (next r.0).at r.1 (omega (arith, h, longer)) in
        (u, ap (and_then f) e ∙ g, (Talks-composes laws).then_ s r.1 u.1 q q');
  }

  -- The same where what follows splits on the bytes that were read.
  pub Loops-take_bytes :
      {B : Type 0} (fuel limit : ℕ) (m : M b (List ℕ)) (f : List ℕ → M b B)
      → Takes m
      → Loops fuel limit (f [])
      → ((c : ℕ) (rest : List ℕ) → Loops fuel limit (f (c ∷ rest)))
      → Loops fuel (limit - 1) (m >>= f)
  Loops-take_bytes fuel limit m f takes nothing next =
      Loops-take fuel limit m f takes (split nothing next)
    where
      split :
          Loops fuel limit (f [])
          → ((c : ℕ) (rest : List ℕ) → Loops fuel limit (f (c ∷ rest)))
          → (bytes : List ℕ) → Loops fuel limit (f bytes)
      split p q [] = p
      split p q (c ∷ rest) = q c rest

  pub Loops-bind_option :
      {A B : Type 0} (fuel limit : ℕ) (m : M b (Option A)) (f : Option A → M b B)
      → Runs (Talks laws) m
      → Loops fuel limit (f none)
      → ((a : A) → Loops fuel limit (f (some a)))
      → Loops fuel limit (m >>= f)
  Loops-bind_option {A} {B} fuel limit m f runs no_answer next =
      Loops-bind fuel limit m f runs (split no_answer next)
    where
      split :
          Loops fuel limit (f none)
          → ((a : A) → Loops fuel limit (f (some a)))
          → (o : Option A) → Loops fuel limit (f o)
      split p q none = p
      split p q (some a) = q a

  pub Loops-then :
      {A B : Type 0} (fuel limit : ℕ) (m : M b A) (f : A → M b B)
      → Loops fuel limit m
      → ((a : A) → Runs (Talks laws) (f a))
      → Loops fuel limit (m >>= f)
  Loops-then fuel limit m f loops next = record {
    at = λ s h.
        let (r, e, q) = loops.at s h in
        let (u, g, q') = (next r.0).at r.1 in
        (u, ap (and_then f) e ∙ g, (Talks-composes laws).then_ s r.1 u.1 q q');
  }

  -- A time before the end of a period lies before its last step.
  pub in_time :
      (s : Modem b) (end_at : ℕ) → b.now s.dev < end_at → laws.steps s.dev < end_at * b.calls_per_ms
  in_time s end_at h = grind (arith, laws.upper s.dev, h)

  -- The turn of a loop that looks how long it has run.
  pub turn-Loops :
      {A : Type 0} (fuel start timeout : ℕ) (body exit : M b A)
      → Loops fuel ((start + timeout) * b.calls_per_ms - 1) body
      → Runs (Talks laws) exit
      → Loops
          (suc fuel)
          ((start + timeout) * b.calls_per_ms)
          (now >>= λ t. if ltb (t - start) timeout then body else exit)
  unfolding now
  turn-Loops fuel start timeout body exit inside outside = record {
    at = λ s h. elim (Bool-cases (ltb (b.now s.dev - start) timeout)) [
      | inl more ↦
          let early = in_time s (start + timeout) (ground (arith, more)) in
          let (r, e, q) = inside.at s (omega (arith, h, early)) in
          (r, (λ i. (if more i then body else exit) s) ∙ e, q)
      | inr over ↦
          let (r, e, q) = outside.at s in (r, (λ i. (if over i then body else exit) s) ∙ e, q)
    ];
  }

  -- The turn of a loop that looks how long it has until a deadline.
  pub deadline-Loops :
      {A : Type 0} (fuel deadline : ℕ) (body exit : M b A)
      → Loops fuel (deadline * b.calls_per_ms - 1) body
      → Runs (Talks laws) exit
      → Loops
          (suc fuel)
          (deadline * b.calls_per_ms)
          (ms_remaining deadline >>= λ left. if ltb 0 left then body else exit)
  unfolding ms_remaining
  deadline-Loops fuel deadline body exit inside outside = record {
    at = λ s h.
        let left : ℕ = if ltb (b.now s.dev) deadline then deadline - b.now s.dev else 0 in
        elim (Bool-cases (ltb 0 left)) [
          | inl more ↦
              let early = in_time s deadline (ground (arith, more)) in
              let (r, e, q) = inside.at s (omega (arith, h, early)) in
              (r, (λ i. (if more i then body else exit) s) ∙ e, q)
          | inr over ↦
              let (r, e, q) = outside.at s in (r, (λ i. (if over i then body else exit) s) ∙ e, q)
        ];
  }

  -- The fuel of a loop of `timeout` milliseconds from now is enough.
  pub timed_talk :
      {A : Type 0} (timeout : ℕ) (f : ℕ → M b A)
      → ((start : ℕ)
          → Loops (suc (timeout * b.calls_per_ms)) ((start + timeout) * b.calls_per_ms) (f start))
      → Runs (Talks laws) (now >>= f)
  unfolding now
  timed_talk timeout f loops = record {
    at = λ s. (loops (b.now s.dev)).at s (grind (arith, laws.lower s.dev));
  }

  pub read-Takes : (n ms : ℕ) → 1 ≤ ms → Takes (call (b.read n ms))
  unfolding call
  read-Takes n ms h = record {
    at = λ s.
        let f = laws.read_steps n ms s.dev h in
        (
          _,
          refl,
          quiet_Talks laws s _ (laws.read_same n ms s.dev) (laws.read_pins n ms s.dev)
              (omega (arith, f)),
          f,
        );
  }

  pub delay-Takes : (ms : ℕ) → 1 ≤ ms → Takes (delay ms)
  unfolding delay act
  delay-Takes ms h = record {
    at = λ s.
        let f = laws.delay_steps ms s.dev h in
        (
          (tt, _),
          refl,
          quiet_Talks laws s _ (laws.delay_same ms s.dev) (laws.delay_pins ms s.dev)
              (omega (arith, f)),
          f,
        );
  }
