-- ===== src/Sim4g/Http/Opens.antt =====
-- AT+HTTPINIT opens the session.
use hydro_logger.Prelude.{
  ℕ, ◌≡◌, ap, sym, ◌∙◌, Bool, true, false, not, some, List, if◌then◌else◌, arith,
}
use hydro_logger.Prelude.Bytes.{codes}
use hydro_logger.Sim4g.{Board, Modem, M, ◌>>=◌, return, and_then, delay, set_http_inited, say}
use hydro_logger.Sim4g.Rules.{Laws, Wrote, Wrote-then, Runs}
use hydro_logger.Sim4g.Talks.{Talks, say_answer, delay_talk}
use hydro_logger.Sim4g.Ensures.{Ensures, Ensures-then}
use hydro_logger.Sim4g.At.{send_at_ok}
use hydro_logger.Sim4g.At.Ends.{send_at_ok_talk}
use hydro_logger.Sim4g.Http.{http_term_safe, ensure_pdp_active, http_init_and_set_bearer}
use hydro_logger.Sim4g.Http.Session.{
  http_term, Serves, Closes, ensure_pdp_talk, term-Closes, Serves-then, Talks-Serves,
}

module _ {b : Board} (laws : Laws b) where
  -- The session is open after it exactly if it answered true; one that was open before was terminated.
  pub record Opens (s : Modem b) (ok : Bool) (t : Modem b) : Type 0 where
    pub serves : Serves laws s t
    pub opened : t.http_inited ≡ ok
    pub stale : s.http_inited ≡ true → Wrote laws http_term s.dev t.dev

  -- Talk that ends in `false`, from a closed session.
  not_open : (s u : Modem b) → s.http_inited ≡ false → Talks laws s u → Opens s false u
  not_open s u shut q = record {
    serves = Talks-Serves laws s u q;
    opened = q.http_inited ∙ shut;
    stale = λ up. cc (sym shut ∙ up);
  }

  -- From a closed session.
  record OpensFrom (m : M b Bool) : Type 0 where
    at :
        (s : Modem b)
        → s.http_inited ≡ false
        → (r : Bool × Modem b) × (m s ≡ some r) × Opens s r.0 r.1

  opens_bind :
      {A : Type 0} (m : M b A) (f : A → M b Bool)
      → Runs (Talks laws) m
      → ((a : A) → OpensFrom (f a))
      → OpensFrom (m >>= f)
  opens_bind m f runs next = record {
    at = λ s shut.
        let (r, e, q) = runs.at s in
        let (u, g, o) = (next r.0).at r.1 (q.http_inited ∙ shut) in
        (
          u,
          ap (and_then f) e ∙ g,
          record {
            serves = Serves-then laws s r.1 u.1 (Talks-Serves laws s r.1 q) o.serves;
            opened = o.opened;
            stale = λ up. cc (sym shut ∙ up);
          },
        );
  }

  opens_if :
      (test : Bool) (m k : M b Bool) → OpensFrom m → OpensFrom k → OpensFrom (if test then m else k)
  opens_if true m k p q = p
  opens_if false m k p q = q

  says_closed : (text : List ℕ) → OpensFrom (say text >>= λ _. return false)
  says_closed text = record {
    at = λ s shut.
        let (t, e, q) = say_answer laws text false s in ((false, t), e, not_open s t shut q);
  }

  settle : OpensFrom (set_http_inited true >>= λ _. delay 300 >>= λ _. return true)
  unfolding set_http_inited
  settle = record {
    at = λ s shut.
        let t = record s { http_inited = true } in
        let (r, e, q) = (delay_talk laws 300 (omega arith)).at t in
        (
          (true, r.1),
          ap (and_then (λ _. return true)) e,
          record {
            serves = record {
              active = q.active;
              active_apn = q.active_apn;
              flash = q.flash;
              image = q.image;
              boot = q.boot;
              writes = q.writes;
              forward = q.forward;
            };
            opened = q.http_inited;
            stale = λ up. cc (sym shut ∙ up);
          },
        );
  }

  pub opens : (method : List ℕ) → Ensures Opens (http_init_and_set_bearer method)
  unfolding http_init_and_set_bearer
  opens method = Ensures-then (Closes laws) Opens http_term_safe _ (term-Closes laws) (λ s x t c.
      let rest = opens_bind ensure_pdp_active _ (ensure_pdp_talk laws) (λ alive.
        opens_if (not alive) _ _ (says_closed _) (
          opens_bind (send_at_ok (codes "AT+HTTPINIT") 2000) _ (send_at_ok_talk laws _ 2000)
            (λ ok. opens_if (not ok) _ _ (says_closed _) settle))) in
      let (r, e, o) = rest.at t c.closed in
      (
        r,
        e,
        record {
          serves = Serves-then laws s t r.1 c.serves o.serves;
          opened = o.opened;
          stale = λ up. Wrote-then laws http_term s.dev t.dev r.1.dev (c.term up) o.serves.writes;
        },
      ))
