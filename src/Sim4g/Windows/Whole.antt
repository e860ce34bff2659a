-- ===== src/Sim4g/Windows/Whole.antt =====
-- The loop over the windows ends, and the flash holds what it reports.
use hydro_logger.Prelude.{
  ℕ, zero, suc, ◌+◌, ◌-◌, ◌*◌, ◌/◌, ◌≡◌, ◌≤◌, inl, inr, refl, ap, ◌∙◌, Bool, true, false, not,
  Option, none, some, List, ◌++◌, length, arith, ltb, leb, Bool-cases,
}
use hydro_logger.Prelude.Bytes.{codes}
use hydro_logger.Sim4g.{Board, Modem, M, ◌>>=◌, return, now, say}
use hydro_logger.Sim4g.Rules.{Laws, Runs, Runs-if}
use hydro_logger.Sim4g.Talks.{Talks, return_talk, say_answer, now_talk, say-return_talk}
use hydro_logger.Sim4g.Ensures.{
  Ensures, Ensures-if, Ensures-bind, Ensures-then, branch_true, branch_false,
}
use hydro_logger.Sim4g.Blocks.{nat_dec, smaller}
use hydro_logger.Sim4g.Windows.{fetch_window, log_progress, window_turn, window_loop, window_size}
use hydro_logger.Sim4g.Blocks.Stream.{Kept, same-Kept, Kept-then, written}
use hydro_logger.Sim4g.Blocks.Written.{Talks-Kept}
use hydro_logger.Sim4g.Windows.Fetched.{Fetched, fetch_Fetched}

module _ {b : Board} (laws : Laws b) where
  -- From `offset` on: with success the flash has grown by what is reported.
  pub record Windows (offset : ℕ) (s : Modem b) (r : ℕ × Bool) (t : Modem b) : Type 0 where
    pub kept : Kept laws s t
    pub filled : r.1 ≡ true → written laws t + offset ≡ written laws s + r.0

  progress_talk : (logged offset total : ℕ) → Runs (Talks laws) (log_progress logged offset total)
  unfolding log_progress
  progress_talk logged offset total =
      Runs-if (leb (logged + 9) (offset * 100 / total)) _ _ (say-return_talk laws _ _)
        (return_talk laws logged)

  Windows-stop : (offset : ℕ) (s t : Modem b) → Kept laws s t → Windows offset s (offset, false) t
  Windows-stop offset s t k = record { kept = k; filled = λ h. cc h }

  Windows-after :
      (offset : ℕ) (s t u : Modem b) (r : ℕ × Bool)
      → Talks laws s t
      → Windows offset t r u
      → Windows offset s r u
  unfolding written
  Windows-after offset s t u r q w = record {
    kept = Kept-then laws s t u (Talks-Kept laws s t q) w.kept;
    filled = λ h. w.filled h ∙ ap (λ (i : List ℕ). length i + r.0) q.image;
  }

  turn_Windows :
      (next : ℕ → ℕ → M b (ℕ × Bool)) (total offset logged : ℕ)
      → ((n logged' : ℕ) → 1 ≤ n → Ensures (Windows (offset + n)) (next (offset + n) logged'))
      → (o : Option ℕ) (s t : Modem b) → Fetched laws s o t
      → (r : (ℕ × Bool) × Modem b) × (window_turn next total offset logged o t ≡ some r)
        × Windows offset s r.0 r.1
  unfolding window_turn
  turn_Windows next total offset logged rest none s t f =
      (((offset, false), t), refl, Windows-stop offset s t f.kept)
  turn_Windows next total offset logged rest (some n) s t f =
      let (grown, some_bytes) = f.filled n refl in
      let after =
        Ensures-bind (Windows (offset + n)) (Talks laws) (Windows-after (offset + n))
          (log_progress logged (offset + n) total) (next (offset + n))
          (progress_talk logged (offset + n) total) (λ logged'. rest n logged' some_bytes) in
      let (r, e, w) = after.at t in
      (
        r,
        e,
        record {
          kept = Kept-then laws s t r.1 f.kept w.kept;
          filled = λ h. omega (arith, grown, w.filled h);
        },
      )

  -- With fuel for the bytes of the image the loop over the windows ends.
  pub window_loop-Windows :
      (fuel : ℕ) (url : List ℕ) (total deadline offset logged : ℕ)
      → total - offset ≤ fuel
      → Ensures (Windows offset) (window_loop fuel url total deadline offset logged)
  unfolding window_loop
  window_loop-Windows zero url total deadline offset logged enough = record {
    at = λ s. (
      ((offset, true), s),
      branch_false (ltb offset total) _ _ s (ground (arith, enough)),
      record { kept = same-Kept laws s; filled = λ _. refl },
    );
  }
  window_loop-Windows (suc fuel) url total deadline offset logged enough = record {
    at = λ s. elim (Bool-cases (not (ltb offset total))) [
      | inl done ↦ (
        ((offset, true), s),
        branch_true _ _ _ s done,
        record { kept = same-Kept laws s; filled = λ _. refl },
      )
      | inr more ↦
          let turn =
            Ensures-bind (Windows offset) (Talks laws) (Windows-after offset) now _ (now_talk laws)
              (λ t.
                Ensures-if (Windows offset) (leb deadline t) _ _
                  (late (
                    codes "OTA FAIL: timeout " ++ (nat_dec offset ++ (codes "/" ++ nat_dec total))))
                  (Ensures-then (Fetched laws) (Windows offset)
                    (fetch_window url offset (offset + smaller (total - offset) window_size - 1)) _
                    (fetch_Fetched laws url offset _)
                    (λ u o v f.
                      turn_Windows (window_loop fuel url total deadline) total offset logged
                        (λ n logged' h.
                          window_loop-Windows fuel url total deadline (offset + n) logged'
                            (omega (arith, h, enough)))
                        o u v f))) in
          let (r, e, w) = turn.at s in (r, branch_false _ _ _ s more ∙ e, w)
    ];
  }
    where
      late : (text : List ℕ) → Ensures (Windows offset) (say text >>= λ _. return (offset, false))
      late text = record {
        at = λ s.
            let (t, e, q) = say_answer laws text (offset, false) s in
            (((offset, false), t), e, Windows-stop offset s t (Talks-Kept laws s t q));
      }
