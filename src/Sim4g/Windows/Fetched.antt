-- ===== src/Sim4g/Windows/Fetched.antt =====
-- A window ends, and the flash grows by what is reported.
use hydro_logger.Prelude.{
  ℕ, ◌+◌, ◌≡◌, ◌≤◌, inl, inr, refl, ap, ◌∙◌, Bool, true, false, not, ◌||◌, Option, none, some, List,
  length, arith, Bool-cases, ℤ, pos, negsuc,
}
use hydro_logger.Prelude.Int.{leb_ℤ, pos_part}
use hydro_logger.Prelude.Bytes.{codes}
use hydro_logger.Sim4g.{Board, Modem, M, ◌>>=◌, return, and_then, say, flush_sim, set_http_inited}
use hydro_logger.Sim4g.Parse.{HttpActionResult, is_int}
use hydro_logger.Sim4g.Rules.{Laws, Runs}
use hydro_logger.Sim4g.Talks.{Talks, say_answer, flush_talk, say_talk}
use hydro_logger.Sim4g.Ensures.{
  Ensures, Ensures-if, Ensures-bind, Ensures-then, branch_true, branch_false,
}
use hydro_logger.Sim4g.At.{write_line_sim, send_at_ok}
use hydro_logger.Sim4g.At.Ends.{write_line_talk, send_at_ok_talk}
use hydro_logger.Sim4g.Http.{url_command, http_term_safe, http_action}
use hydro_logger.Sim4g.Http.Session.{term-Closes, action_talk}
use hydro_logger.Sim4g.Blocks.{block_loop}
use hydro_logger.Sim4g.Windows.{
  window_fail, window_length, request_window, window_end, read_window, read_requested, fetch_window,
}
use hydro_logger.Sim4g.Blocks.Stream.{Kept, same-Kept, Kept-then, written, drain_talk}
use hydro_logger.Sim4g.Blocks.Written.{Talks-Kept, Blocks, block_loop-Blocks}

module _ {b : Board} (laws : Laws b) where
  -- Nothing is written.
  pub record Quiet (s t : Modem b) : Type 0 where
    pub kept : Kept laws s t
    pub image : laws.image t.dev ≡ laws.image s.dev

  Talks-Quiet : (s t : Modem b) → Talks laws s t → Quiet s t
  Talks-Quiet s t q = record { kept = Talks-Kept laws s t q; image = q.image }

  pub quiet : {A : Type 0} (m : M b A) → Runs (Talks laws) m → Runs Quiet m
  quiet m runs = record { at = λ s. let (r, e, q) = runs.at s in (r, e, Talks-Quiet s r.1 q) }

  pub Quiet-term : Runs Quiet http_term_safe
  Quiet-term = record {
    at = λ s.
        let (r, e, c) = (term-Closes laws).at s in
        (
          r,
          e,
          record {
            kept = record {
              active = c.serves.active;
              active_apn = c.serves.active_apn;
              flash = c.serves.flash;
              boot = c.serves.boot;
            };
            image = c.serves.image;
          },
        );
  }

  Quiet-set : (on : Bool) → Runs Quiet (set_http_inited on)
  unfolding set_http_inited
  Quiet-set on = record {
    at = λ s. (
      (tt, record s { http_inited = on }),
      refl,
      record {
        kept = record { active = refl; active_apn = refl; flash = refl; boot = refl };
        image = refl;
      },
    );
  }

  -- A window that is answered has a body.
  record Requested (s : Modem b) (o : Option ℕ) (t : Modem b) : Type 0 where
    quietly : Quiet s t
    positive : (n : ℕ) → o ≡ some n → 1 ≤ n

  pub Quiet-then : (s t u : Modem b) → Quiet s t → Quiet t u → Quiet s u
  Quiet-then s t u p q = record {
    kept = Kept-then laws s t u p.kept q.kept;
    image = q.image ∙ p.image;
  }

  Requested-bind :
      {A : Type 0} (m : M b A) (f : A → M b (Option ℕ))
      → Runs Quiet m
      → ((a : A) → Ensures Requested (f a))
      → Ensures Requested (m >>= f)
  Requested-bind =
      Ensures-bind Requested Quiet
        (λ s t u o q r. record { quietly = Quiet-then s t u q r.quietly; positive = r.positive })

  fail_Requested : (text : List ℕ) → Ensures Requested (window_fail text)
  unfolding window_fail
  fail_Requested text = record {
    at = λ s.
        let (t, e, q) = say_answer laws text none s in
        ((none, t), e, record { quietly = Talks-Quiet s t q; positive = λ n h. cc h });
  }

  length_Requested :
      (offset : ℕ) (action : Option HttpActionResult)
      → Ensures Requested (window_length offset action)
  unfolding window_length
  length_Requested offset none = fail_Requested _
  length_Requested offset (some act) =
      Ensures-if Requested (is_int act.status 200) _ _ (fail_Requested _) (record {
        at = λ s. elim (Bool-cases (not (is_int act.status 206) || leb_ℤ act.body_len (pos 0))) [
          | inl bad ↦ let (r, e, q) = (fail_Requested _).at s in (r, branch_true _ _ _ s bad ∙ e, q)
          | inr fine ↦ (
            (some (pos_part act.body_len), s),
            branch_false _ _ _ s fine,
            record {
              quietly = record { kept = same-Kept laws s; image = refl };
              positive = λ n h. has_body act.body_len (not (is_int act.status 206)) n fine h;
            },
          )
        ];
      })
    where
      has_body :
          (z : ℤ) (test : Bool) (n : ℕ)
          → (test || leb_ℤ z (pos 0)) ≡ false
          → some (pos_part z) ≡ some n
          → 1 ≤ n
      has_body (pos k) test n h e = ground (arith, h, e)
      has_body (negsuc k) test n h e = ground (arith, h, e)

  request_Requested :
      (url : List ℕ) (offset end_at : ℕ) → Ensures Requested (request_window url offset end_at)
  unfolding request_window
  request_Requested url offset end_at = Requested-bind http_term_safe _ Quiet-term (λ _.
      Requested-bind (send_at_ok (codes "AT+HTTPINIT") 2000) _
        (quiet _ (send_at_ok_talk laws _ 2000))
        (λ inited. Ensures-if Requested (not inited) _ _ (fail_Requested _) (
          Requested-bind (set_http_inited true) _ (Quiet-set true) (λ _.
            Requested-bind (send_at_ok (url_command url) 2000) _
              (quiet _ (send_at_ok_talk laws _ 2000))
              (λ url_set. Ensures-if Requested (not url_set) _ _ (fail_Requested _) (
                Requested-bind (send_at_ok _ 2000) _ (quiet _ (send_at_ok_talk laws _ 2000))
                  (λ range_set. Ensures-if Requested (not range_set) _ _ (fail_Requested _) (
                    Requested-bind (http_action _ _) _ (quiet _ (action_talk laws _ _)) (λ answer.
                      Ensures-if Requested (not answer.0) _ _ (fail_Requested _)
                        (length_Requested offset answer.1))))))))))

  -- What a window adds to the flash.
  pub record Fetched (s : Modem b) (o : Option ℕ) (t : Modem b) : Type 0 where
    pub kept : Kept laws s t
    pub filled : (n : ℕ) → o ≡ some n → (written laws t ≡ written laws s + n) × (1 ≤ n)

  Fetched-after : (s t u : Modem b) (o : Option ℕ) → Quiet s t → Fetched t o u → Fetched s o u
  unfolding written
  Fetched-after s t u o q f = record {
    kept = Kept-then laws s t u q.kept f.kept;
    filled =
        λ n h. ((f.filled n h).0 ∙ ap (λ (i : List ℕ). length i + n) q.image, (f.filled n h).1);
  }

  Fetched-bind :
      {A : Type 0} (m : M b A) (f : A → M b (Option ℕ))
      → Runs (Talks laws) m
      → ((a : A) → Ensures Fetched (f a))
      → Ensures Fetched (m >>= f)
  Fetched-bind m f runs = Ensures-bind Fetched Quiet Fetched-after m f (quiet m runs)

  nothing_Fetched : (s t : Modem b) → Kept laws s t → Fetched s none t
  nothing_Fetched s t k = record { kept = k; filled = λ n h. cc h }

  fail_Fetched : (text : List ℕ) → Ensures Fetched (window_fail text)
  unfolding window_fail
  fail_Fetched text = record {
    at = λ s.
        let (t, e, q) = say_answer laws text none s in
        ((none, t), e, nothing_Fetched s t (Talks-Kept laws s t q));
  }

  end_Fetched :
      (len : ℕ) (blocks : ℕ × Bool) (s t : Modem b)
      → 1 ≤ len
      → Blocks laws 0 len s blocks t
      → (r : Option ℕ × Modem b) × (window_end blocks t ≡ some r) × Fetched s r.0 r.1
  unfolding window_end written
  end_Fetched len (wgot, false) s t h p = ((none, t), refl, nothing_Fetched s t p.kept)
  end_Fetched len (wgot, true) s t h p =
      let (r, e, q) = (drain_talk laws 1000).at t in
      (
        (some wgot, r.1),
        ap (and_then (λ _. return (some wgot))) e,
        record {
          kept = Kept-then laws s t r.1 p.kept (Talks-Kept laws t r.1 q);
          filled = λ n same.
              let count : wgot ≡ n = ground (arith, same) in
              (
                omega (arith, count, p.filled refl, ap length q.image),
                omega (arith, count, h, p.whole refl),
              );
        },
      )

  window_Fetched : (offset len : ℕ) → 1 ≤ len → Ensures Fetched (read_window offset len)
  unfolding read_window
  window_Fetched offset len h = Fetched-bind flush_sim _ (flush_talk laws) (λ _.
      Fetched-bind (say _) _ (say_talk laws _) (λ _.
        Fetched-bind (write_line_sim _) _ (write_line_talk laws _) (λ ok.
          Ensures-if Fetched (not ok) _ _ (fail_Fetched _) (
            Ensures-then (Blocks laws 0 len) Fetched (block_loop len offset len 0) window_end
              (block_loop-Blocks laws len offset len 0 (omega arith))
              (λ s blocks t p. end_Fetched len blocks s t h p)))))

  Requested-Fetched :
      (offset : ℕ) (o : Option ℕ) (s t : Modem b)
      → Requested s o t
      → (r : Option ℕ × Modem b) × (read_requested offset o t ≡ some r) × Fetched s r.0 r.1
  unfolding read_requested
  Requested-Fetched offset none s t r = ((none, t), refl, nothing_Fetched s t r.quietly.kept)
  Requested-Fetched offset (some n) s t r =
      let (u, e, f) = (window_Fetched offset n (r.positive n refl)).at t in
      (u, e, Fetched-after s t u.1 u.0 r.quietly f)

  pub fetch_Fetched :
      (url : List ℕ) (offset end_at : ℕ) → Ensures Fetched (fetch_window url offset end_at)
  unfolding fetch_window
  fetch_Fetched url offset end_at =
      Ensures-then Requested Fetched (request_window url offset end_at) (read_requested offset)
        (request_Requested url offset end_at) (λ s o t r. Requested-Fetched offset o s t r)
