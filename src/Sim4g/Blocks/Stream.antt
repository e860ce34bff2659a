-- ===== src/Sim4g/Blocks/Stream.antt =====
-- The two readers above `downloadOtaImage`, and the payload of a block: they end, and the payload is
-- written to the flash as it comes.
use hydro_logger.Prelude.{
  ℕ, zero, suc, ◌+◌, ◌-◌, ◌*◌, ◌≡◌, ◌≤◌, ◌<◌, inl, inr, refl, ap, ◌∙◌, Bool, true, false, ◌||◌,
  none, some, List, ◌∷◌, ◌++◌, length, length-append, if◌then◌else◌, arith, ltb, ◌==◌, Bool-cases,
  Option-cases, [],
}
use hydro_logger.Prelude.Bytes.{codes}
use hydro_logger.Sim4g.{Board, Modem, M, ◌>>=◌, return, call, now}
use hydro_logger.Sim4g.Parse.{contains_text, is_at_error}
use hydro_logger.Sim4g.Rules.{Laws, Runs}
use hydro_logger.Sim4g.Talks.{Talks, return_talk}
use hydro_logger.Sim4g.Loops.{
  Loops, Loops-none, Loops-Runs, Loops-if, Loops-take_bytes, turn-Loops, timed_talk, read-Takes,
  in_time,
}
use hydro_logger.Sim4g.Ensures.{branch_true, branch_false}
use hydro_logger.Sim4g.At.{turns, answered}
use hydro_logger.Sim4g.Blocks.{
  header_length, last_64, header_loop, read_http_read_len, drain_loop, drain_to_ok, payload_turn,
  payload_loop, smaller, buffer_size, ota_read_timeout_ms,
}

module _ {b : Board} (laws : Laws b) where
  header-Loops :
      (fuel start timeout : ℕ) (line : List ℕ)
      → Loops laws fuel ((start + timeout) * b.calls_per_ms) (header_loop fuel start timeout line)
  unfolding header_loop
  header-Loops zero start timeout line = Loops-none laws _ _
  header-Loops (suc fuel) start timeout line =
      let limit = (start + timeout) * b.calls_per_ms in
      turn-Loops laws fuel start timeout _ (return none)
        (Loops-take_bytes laws fuel limit (call (b.read 1 200)) _
          (read-Takes laws 1 200 (omega arith)) (header-Loops fuel start timeout line)
          (λ c rest.
            Loops-if laws fuel limit (c == 10) _ _
              (Loops-if laws fuel limit (answered (header_length line)) _ _
                (Loops-Runs laws fuel limit (return (header_length line))
                  (return_talk laws (header_length line)))
                (Loops-if laws fuel limit (is_at_error line) _ _
                  (Loops-Runs laws fuel limit (return none) (return_talk laws none))
                  (header-Loops fuel start timeout [])))
              (header-Loops fuel start timeout (if c == 13 then line else line ++ c ∷ []))))
        (return_talk laws none)

  pub header_talk : (timeout : ℕ) → Runs (Talks laws) (read_http_read_len timeout)
  unfolding read_http_read_len turns
  header_talk timeout =
      timed_talk laws timeout _
        (λ start. header-Loops (suc (timeout * b.calls_per_ms)) start timeout [])

  drain-Loops :
      (fuel start timeout : ℕ) (text : List ℕ)
      → Loops laws fuel ((start + timeout) * b.calls_per_ms) (drain_loop fuel start timeout text)
  unfolding drain_loop
  drain-Loops zero start timeout text = Loops-none laws _ _
  drain-Loops (suc fuel) start timeout text =
      let limit = (start + timeout) * b.calls_per_ms in
      turn-Loops laws fuel start timeout _ (return tt)
        (Loops-take_bytes laws fuel limit (call (b.read 1 100)) _
          (read-Takes laws 1 100 (omega arith)) (drain-Loops fuel start timeout text)
          (λ c rest.
            let text' = last_64 (text ++ c ∷ []) in
            Loops-if laws fuel limit
              (contains_text (codes "OK\r") text' || contains_text (codes "OK\n") text') _ _
              (Loops-Runs laws fuel limit (return tt) (return_talk laws tt))
              (drain-Loops fuel start timeout text')))
        (return_talk laws tt)

  pub drain_talk : (timeout : ℕ) → Runs (Talks laws) (drain_to_ok timeout)
  unfolding drain_to_ok turns
  drain_talk timeout =
      timed_talk laws timeout _
        (λ start. drain-Loops (suc (timeout * b.calls_per_ms)) start timeout [])

  -- The module but for its session, the preferences and the choice of what to boot are as they were.
  pub record Kept (s t : Modem b) : Type 0 where
    pub active : t.active ≡ s.active
    pub active_apn : t.active_apn ≡ s.active_apn
    pub flash : t.flash ≡ s.flash
    pub boot : laws.boot t.dev ≡ laws.boot s.dev

  pub same-Kept : (s : Modem b) → Kept s s
  same-Kept s = record { active = refl; active_apn = refl; flash = refl; boot = refl }

  pub Kept-then : (s t u : Modem b) → Kept s t → Kept t u → Kept s u
  Kept-then s t u p q = record {
    active = q.active ∙ p.active;
    active_apn = q.active_apn ∙ p.active_apn;
    flash = q.flash ∙ p.flash;
    boot = q.boot ∙ p.boot;
  }

  -- How much was written so far.
  unfoldable pub written : Modem b → ℕ
  written s = length (laws.image s.dev)

  -- Of `remaining` bytes some are left; the others were written.
  pub record Payload (remaining : ℕ) (s : Modem b) (r : ℕ × Bool) (t : Modem b) : Type 0 where
    pub kept : Kept s t
    pub filled : r.1 ≡ true → written t + r.0 ≡ written s + remaining

  module _ (again : M b (ℕ × Bool)) (after : ℕ → M b (ℕ × Bool)) (start remaining t : ℕ)
      (s : Modem b) where
    turn-Payload :
        (bytes : List ℕ)
        → length bytes ≤ remaining
        → (ltb ota_read_timeout_ms (t - start) ≡ false
            → (r : (ℕ × Bool) × Modem b) × (again s ≡ some r) × Payload remaining s r.0 r.1)
        → ((u : Modem b) (left : ℕ)
            → left < remaining
            → (r : (ℕ × Bool) × Modem b) × (after left u ≡ some r) × Payload left u r.0 r.1)
        → (r : (ℕ × Bool) × Modem b) × (payload_turn again after start remaining t bytes s ≡ some r)
          × Payload remaining s r.0 r.1
    unfolding payload_turn call written
    turn-Payload [] small idle next = elim (Bool-cases (ltb ota_read_timeout_ms (t - start))) [
      | inl over ↦ (
        ((remaining, true), s),
        branch_true _ _ _ s over,
        record { kept = same-Kept s; filled = λ _. refl },
      )
      | inr waiting ↦ let (r, e, p) = idle waiting in (r, branch_false _ _ _ s waiting ∙ e, p)
    ]
    turn-Payload (c ∷ rest) small idle next =
        let d = (b.ota_write (c ∷ rest) s.dev).1 in
        let u = record s { dev = d } in
        let kept : Kept s u = record {
          active = refl;
          active_apn = refl;
          flash = refl;
          boot = laws.ota_write_boot (c ∷ rest) s.dev;
        } in
        elim (Option-cases (b.ota_write (c ∷ rest) s.dev).0) [
          | inr (name, failed) ↦ (
            ((remaining, false), u),
            branch_true _ _ _ u (ap answered failed),
            record { kept = kept; filled = λ h. cc h },
          )
          | inl fine ↦
              let left = remaining - length (c ∷ rest) in
              let (r, e, p) = next u left (omega (arith, small)) in
              (
                r,
                branch_false _ _ _ u (ap answered fine) ∙ e,
                record {
                  kept = Kept-then s u r.1 kept p.kept;
                  filled = λ h. omega (
                    arith,
                    p.filled h,
                    small,
                    ap length (laws.ota_write_image (c ∷ rest) s.dev fine)
                        ∙ length-append (laws.image s.dev) (c ∷ rest),
                  );
                },
              )
        ]

  -- An idle turn leaves less of the period.
  later :
      (end_at : ℕ) (t : Modem b) (before idle : ℕ)
      → before < laws.steps t.dev
      → b.now t.dev < end_at
      → end_at * b.calls_per_ms - before < suc idle
      → end_at * b.calls_per_ms - laws.steps t.dev < idle
  later end_at t before idle longer early spare =
      omega (arith, longer, in_time laws t end_at early, spare)

  -- A period from now is all left.
  pub fresh :
      (u : Modem b)
      → (b.now u.dev + suc ota_read_timeout_ms) * b.calls_per_ms - laws.steps u.dev
        < suc (suc ota_read_timeout_ms * b.calls_per_ms)
  fresh u = grind (arith, laws.lower u.dev)

  pub payload_loop-Payload :
      (fuel idle start remaining : ℕ) (s : Modem b)
      → remaining ≤ fuel
      → (start + suc ota_read_timeout_ms) * b.calls_per_ms - laws.steps s.dev < idle
      → (r : (ℕ × Bool) × Modem b) × (payload_loop fuel idle start remaining s ≡ some r)
        × Payload remaining s r.0 r.1
  unfolding payload_loop call now turns written
  payload_loop-Payload zero idle start remaining s small spare = (
    ((0, true), s),
    branch_true (remaining == 0) _ _ s (ground (arith, small)),
    record { kept = same-Kept s; filled = λ _. omega (arith, small) },
  )
  payload_loop-Payload (suc fuel) zero start remaining s small spare = absurd (omega arith)
  payload_loop-Payload (suc fuel) (suc idle) start remaining s small spare =
      elim (Bool-cases (remaining == 0)) [
        | inl done ↦ (
          ((0, true), s),
          branch_true _ _ _ s done,
          record { kept = same-Kept s; filled = λ _. ground (arith, done) },
        )
        | inr more ↦
            let n = smaller remaining buffer_size in
            let d = (b.read n 1000 s.dev).1 in
            let t = record s { dev = d } in
            let longer = laws.read_steps n 1000 s.dev (omega arith) in
            let same = laws.read_same n 1000 s.dev in
            let (r, e, p) =
              turn-Payload (payload_loop (suc fuel) idle start remaining)
                (λ left. now >>= λ start'.
                  payload_loop fuel (turns b (suc ota_read_timeout_ms)) start' left)
                start remaining (b.now d) t (b.read n 1000 s.dev).0
                (ground (arith, laws.read_bounded n 1000 s.dev))
                (λ waiting. payload_loop-Payload (suc fuel) idle start remaining t small (
                  later (start + suc ota_read_timeout_ms) t (laws.steps s.dev) idle longer
                    (ground (arith, waiting)) spare))
                (λ u left less.
                  payload_loop-Payload fuel (turns b (suc ota_read_timeout_ms)) (b.now u.dev) left u
                    (omega (arith, less, small)) (fresh u)) in
            (
              r,
              branch_false _ _ _ s more ∙ e,
              record {
                kept =
                    Kept-then s t r.1
                      (record { active = refl; active_apn = refl; flash = refl; boot = same.1 })
                      p.kept;
                filled = λ h. p.filled h ∙ ap (λ (k : ℕ). k + remaining) (ap length same.0);
              },
            )
      ]
