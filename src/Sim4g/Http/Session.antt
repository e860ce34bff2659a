-- ===== src/Sim4g/Http/Session.antt =====
-- AT+HTTPTERM closes the session of the modem's HTTP service.
use hydro_logger.Prelude.{
  ℕ, [], ◌∷◌, true, sym, ◌≡◌, ◌≤◌, inl, inr, refl, ap, ◌∙◌, Bool, false, not, Option, none, some,
  List, if◌then◌else◌, arith, Bool-cases,
}
use hydro_logger.Prelude.Bytes.{codes}
use hydro_logger.Sim4g.{
  Board, Modem, M, ◌>>=◌, return, and_then, get, set_http_inited, say, call, flush_sim,
}
use hydro_logger.Sim4g.Rules.{
  Laws, Grows, Grows-then, Wrote, Wrote-after, Wrote-then, Runs, Runs-if,
}
use hydro_logger.Sim4g.Talks.{
  Talks, Talks-composes, board_Talks, talk_rules, return_talk, say_talk, same-Talks, write_talk,
  bind_talk, flush_talk, say_received_talk,
}
use hydro_logger.Sim4g.Loops.{Takes-Runs}
use hydro_logger.Sim4g.Ensures.{Ensures, Ensures-if, Ensures-bind}
use hydro_logger.Sim4g.At.{is_empty, read_line_sim, write_line_sim}
use hydro_logger.Sim4g.At.Ends.{at_rules, read_line-Takes}
use hydro_logger.Sim4g.Http.{
  send_term, http_term_safe, log_address, is_pdp_active, ensure_pdp_active, abandon, http_action,
}

abbrev pub http_term : List ℕ
http_term = codes "AT+HTTPTERM"

module _ {b : Board} (laws : Laws b) where
  -- All but the session is as it was.
  pub record Serves (s t : Modem b) : Type 0 where
    pub active : t.active ≡ s.active
    pub active_apn : t.active_apn ≡ s.active_apn
    pub flash : t.flash ≡ s.flash
    pub image : laws.image t.dev ≡ laws.image s.dev
    pub boot : laws.boot t.dev ≡ laws.boot s.dev
    pub writes : Grows laws s.dev t.dev
    pub forward : laws.steps s.dev ≤ laws.steps t.dev

  pub Talks-Serves : (s t : Modem b) → Talks laws s t → Serves s t
  Talks-Serves s t q = record {
    active = q.active;
    active_apn = q.active_apn;
    flash = q.flash;
    image = q.image;
    boot = q.boot;
    writes = q.writes;
    forward = q.forward;
  }

  pub Serves-then : (s t u : Modem b) → Serves s t → Serves t u → Serves s u
  Serves-then s t u p q = record {
    active = q.active ∙ p.active;
    active_apn = q.active_apn ∙ p.active_apn;
    flash = q.flash ∙ p.flash;
    image = q.image ∙ p.image;
    boot = q.boot ∙ p.boot;
    writes = Grows-then laws s.dev t.dev u.dev p.writes q.writes;
    forward = omega (arith, p.forward, q.forward);
  }

  -- What ends with the session closed: the flag is down, and where it was up AT+HTTPTERM was written.
  pub record Closes {A : Type 0} (s : Modem b) (a : A) (t : Modem b) : Type 0 where
    pub serves : Serves s t
    pub closed : t.http_inited ≡ false
    pub term : s.http_inited ≡ true → Wrote laws http_term s.dev t.dev

  pub Closes-after :
      {A : Type 0} (s t u : Modem b) (a : A) → Talks laws s t → Closes t a u → Closes s a u
  Closes-after s t u a q c = record {
    serves = Serves-then s t u (Talks-Serves s t q) c.serves;
    closed = c.closed;
    term =
        λ up. Wrote-after laws http_term s.dev t.dev u.dev q.writes (c.term (q.http_inited ∙ up));
  }

  pub Closes-bind :
      {A B : Type 0} (m : M b A) (f : A → M b B)
      → Runs (Talks laws) m
      → ((a : A) → Ensures Closes (f a))
      → Ensures Closes (m >>= f)
  Closes-bind {A} {B} = Ensures-bind (Closes {A = B}) (Talks laws) Closes-after

  -- Once the session is closed, talk does not open it.
  pub Closes-then :
      {A B : Type 0} (m : M b A) (f : A → M b B)
      → Ensures Closes m
      → ((a : A) → Runs (Talks laws) (f a))
      → Ensures Closes (m >>= f)
  Closes-then m f closes next = record {
    at = λ s.
        let (r, e, c) = closes.at s in
        let (u, g, q) = (next r.0).at r.1 in
        (
          u,
          ap (and_then f) e ∙ g,
          record {
            serves = Serves-then s r.1 u.1 c.serves (Talks-Serves r.1 u.1 q);
            closed = q.http_inited ∙ c.closed;
            term = λ up. Wrote-then laws http_term s.dev r.1.dev u.1.dev (c.term up) q.writes;
          },
        );
  }

  read_1000_talk : Runs (Talks laws) (read_line_sim 1000)
  read_1000_talk = Takes-Runs laws (read_line_sim 1000) (read_line-Takes laws 1000 (omega arith))

  -- It talks, and AT+HTTPTERM is written.
  record Terms {A : Type 0} (s : Modem b) (a : A) (t : Modem b) : Type 0 where
    talks : Talks laws s t
    wrote : Wrote laws http_term s.dev t.dev

  Terms-after : {A : Type 0} (s t u : Modem b) (a : A) → Talks laws s t → Terms t a u → Terms s a u
  Terms-after s t u a q c = record {
    talks = (Talks-composes laws).then_ s t u q c.talks;
    wrote = Wrote-after laws http_term s.dev t.dev u.dev q.writes c.wrote;
  }

  -- The command of `write_line_sim`, and what follows it.
  write-Terms :
      {A : Type 0} (k : Bool → M b A)
      → ((ok : Bool) → Runs (Talks laws) (k ok))
      → Ensures Terms (write_line_sim http_term >>= k)
  unfolding write_line_sim call
  write-Terms k next = record {
    at = λ s.
        let t = record s { dev = (b.write http_term s.dev).1 } in
        let command =
          board_Talks laws s t.dev (laws.write_same http_term s.dev)
            (http_term ∷ [], laws.write_written http_term s.dev)
            (laws.write_powered http_term s.dev) (laws.write_steps http_term s.dev) in
        let rest =
          bind_talk laws (call (b.write (13 ∷ []))) _ (write_talk laws (13 ∷ []))
            (λ _. next true) in
        let (r, e, q) = rest.at t in
        (
          r,
          e,
          record {
            talks = (Talks-composes laws).then_ s t r.1 command q;
            wrote =
                Wrote-then laws http_term s.dev t.dev r.1.dev
                  ([], [], laws.write_written http_term s.dev) q.writes;
          },
        );
  }

  term-Writes : Ensures Terms send_term
  unfolding send_term
  term-Writes = Ensures-bind Terms (Talks laws) Terms-after flush_sim _ (flush_talk laws) (λ _.
      Ensures-bind Terms (Talks laws) Terms-after (say _) _ (say_talk laws _) (λ _.
        write-Terms _ (λ _. bind_talk laws (read_line_sim 1000) _ read_1000_talk (λ line.
          Runs-if (is_empty line) _ _ (return_talk laws tt) (say_received_talk laws line)))))

  -- After it no session is open, whether one was or not.
  pub term-Closes : Ensures Closes http_term_safe
  unfolding http_term_safe get set_http_inited
  term-Closes = record {
    at = λ s. elim (Bool-cases s.http_inited) [
      | inr shut ↦
          let q = same-Talks laws s in
          (
            (tt, s),
            (λ i.
                (if not (shut i) then return tt else (send_term >>= λ _. set_http_inited false)) s),
            record { serves = Talks-Serves s s q; closed = shut; term = λ up. cc (sym shut ∙ up) },
          )
      | inl up ↦
          let (r, e, d) = term-Writes.at s in
          let t = record r.1 { http_inited = false } in
          let serves = Talks-Serves s r.1 d.talks in
          (
            (tt, t),
            (λ i. (if not (up i) then return tt else (send_term >>= λ _. set_http_inited false)) s)
                ∙ ap (and_then (λ _. set_http_inited false)) e,
            record {
              serves = record {
                active = serves.active;
                active_apn = serves.active_apn;
                flash = serves.flash;
                image = serves.image;
                boot = serves.boot;
                writes = serves.writes;
                forward = serves.forward;
              };
              closed = refl;
              term = λ _. d.wrote;
            },
          )
    ];
  }

  pub address_talk : (prefix : List ℕ) → Runs (Talks laws) (log_address prefix)
  unfolding log_address
  address_talk prefix = search at_rules depth 12

  pdp_active_talk : (line : Option (List ℕ)) → Runs (Talks laws) (is_pdp_active line)
  unfolding is_pdp_active
  pdp_active_talk none = return_talk laws false
  pdp_active_talk (some line) = search talk_rules depth 12

  pub ensure_pdp_talk : Runs (Talks laws) ensure_pdp_active
  unfolding ensure_pdp_active
  ensure_pdp_talk = search (at_rules, pdp_active_talk, address_talk) depth 20

  pub abandon-Closes : (text : List ℕ) → Ensures Closes (abandon text)
  unfolding abandon
  abandon-Closes text =
      Closes-bind (say text) _ (say_talk laws text)
        (λ _. Closes-then http_term_safe _ term-Closes (λ _. return_talk laws false))

  pub action_talk : (cmd text : List ℕ) → Runs (Talks laws) (http_action cmd text)
  unfolding http_action
  action_talk cmd text = search at_rules depth 20

  pub Closes-if :
      {A : Type 0} (test : Bool) (m k : M b A)
      → Ensures Closes m
      → Ensures Closes k
      → Ensures Closes (if test then m else k)
  Closes-if {A} = Ensures-if (Closes {A = A})
