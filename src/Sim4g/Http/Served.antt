-- ===== src/Sim4g/Http/Served.antt =====
-- An operation that opens a session closes it, and the guard of the HTTP operations.
use hydro_logger.Prelude.{
  ℕ, ◌⊎◌, ◌≡◌, inl, inr, refl, ap, sym, ◌∙◌, Bool, true, false, not, some, List, if◌then◌else◌,
  Bool-cases,
}
use hydro_logger.Sim4g.{Board, Modem, M, ◌>>=◌, return, and_then, get, say}
use hydro_logger.Sim4g.Rules.{Laws, Wrote, Wrote-after, Wrote-then}
use hydro_logger.Sim4g.Talks.{Talks, Talks-composes, same-Talks, say_talk, say_answer}
use hydro_logger.Sim4g.Ensures.{Ensures}
use hydro_logger.Sim4g.Http.{http_init_and_set_bearer}
use hydro_logger.Sim4g.Http.Opens.{Opens, opens}
use hydro_logger.Sim4g.Http.Session.{http_term, Serves, Closes, Serves-then, Talks-Serves}

module _ {b : Board} (laws : Laws b) where
  -- From `s` no session was opened: the end is what a call of `httpInitAndSetBearer` left that
  -- answered false.
  abbrev pub Refused : Modem b → Modem b → Type 0
  Refused s t =
      (method : List ℕ) × (v : Modem b) × Talks laws s v
      × (http_init_and_set_bearer method v ≡ some (false, t))

  -- From `s` a session was opened, by a call of it that answered true, and AT+HTTPTERM was written
  -- after that.
  abbrev pub Terminated : Modem b → Modem b → Type 0
  Terminated s t =
      (method : List ℕ) × (v : Modem b) × Talks laws s v
      × ((w : Modem b) × (http_init_and_set_bearer method v ≡ some (true, w))
          × Wrote laws http_term w.dev t.dev)

  -- What an operation that opens a session leaves.
  pub record Ended {A : Type 0} (s : Modem b) (a : A) (t : Modem b) : Type 0 where
    pub serves : Serves laws s t
    pub closed : t.http_inited ≡ false
    pub stale : s.http_inited ≡ true → Wrote laws http_term s.dev t.dev
    pub session : Refused s t ⊎ Terminated s t

  -- What closes behind a session that was to be opened.
  pub Ended-opened :
      {A : Type 0} (method : List ℕ) (a : A) (k : M b A)
      → Ensures (Closes laws) k
      → Ensures Ended
          (http_init_and_set_bearer method >>= λ ready. if not ready then return a else k)
  Ended-opened {A} method a k closes = record {
    at = λ s.
        let (r, e, o) = (opens laws method).at s in
        let (u, g, ended) = after s r.1 r.0 e o (closes.at r.1) in
        (u, ap (and_then (λ ready. if not ready then return a else k)) e ∙ g, ended);
  }
    where
      after :
          (s t : Modem b) (ready : Bool)
          → http_init_and_set_bearer method s ≡ some (ready, t)
          → Opens laws s ready t
          → ((r : A × Modem b) × (k t ≡ some r) × Closes laws t r.0 r.1)
          → (r : A × Modem b) × ((if not ready then return a else k) t ≡ some r) × Ended s r.0 r.1
      after s t false e o next = (
        (a, t),
        refl,
        record {
          serves = o.serves;
          closed = o.opened;
          stale = o.stale;
          session = inl (method, s, same-Talks laws s, e);
        },
      )
      after s t true e o (r, f, c) = (
        r,
        f,
        record {
          serves = Serves-then laws s t r.1 o.serves c.serves;
          closed = c.closed;
          stale = λ up. Wrote-then laws http_term s.dev t.dev r.1.dev (o.stale up) c.serves.writes;
          session = inr (method, s, same-Talks laws s, (t, e, c.term o.opened));
        },
      )

  -- The same after talk.
  Ended-after : {A : Type 0} (s t u : Modem b) (a : A) → Talks laws s t → Ended t a u → Ended s a u
  Ended-after s t u a q c = record {
    serves = Serves-then laws s t u (Talks-Serves laws s t q) c.serves;
    closed = c.closed;
    stale =
        λ up. Wrote-after laws http_term s.dev t.dev u.dev q.writes (c.stale (q.http_inited ∙ up));
    session = elim c.session [
      | inl (method, v, p, e) ↦ inl (method, v, (Talks-composes laws).then_ s t v q p, e)
      | inr (method, v, p, rest) ↦ inr (method, v, (Talks-composes laws).then_ s t v q p, rest)
    ];
  }

  -- What an HTTP operation leaves: an active module has closed its session; an inactive one answers
  -- false, and its session is as it was.
  pub record Served (s : Modem b) (ok : Bool) (t : Modem b) : Type 0 where
    pub serves : Serves laws s t
    pub closed : s.active ≡ true → t.http_inited ≡ false
    pub stale : s.active ≡ true → s.http_inited ≡ true → Wrote laws http_term s.dev t.dev
    pub session : s.active ≡ true → Refused s t ⊎ Terminated s t
    pub inactive : s.active ≡ false → (ok ≡ false) × (t.http_inited ≡ s.http_inited)

  -- The guard of the HTTP operations.
  pub guarded :
      {A : Type 0} (text refusal : List ℕ) (ok : A → Bool) (a : A) (k : M b A)
      → ok a ≡ false
      → Ensures Ended k
      → Ensures
          (λ s r t. Served s (ok r) t)
          (say text >>= λ _. get (λ s. s.active) >>= λ active.
            if not active then (say refusal >>= λ _. return a) else k)
  unfolding get
  guarded {A} text refusal ok a k negative closes = record {
    at = λ s.
        let (r, e, q) = (say_talk laws text).at s in
        let t = r.1 in
        let rest : M b A = get (λ s. s.active) >>= λ active.
        if not active then (say refusal >>= λ _. return a) else k in
        elim (Bool-cases t.active) [
          | inl on ↦
              let (u, g, c) = closes.at t in
              (
                u,
                ap (and_then (λ _. rest)) e
                    ∙ (λ i. (if not (on i) then (say refusal >>= λ _. return a) else k) t)
                    ∙ g,
                record {
                  serves = (Ended-after s t u.1 u.0 q c).serves;
                  closed = λ _. c.closed;
                  stale = λ _. (Ended-after s t u.1 u.0 q c).stale;
                  session = λ _. (Ended-after s t u.1 u.0 q c).session;
                  inactive = λ off. cc (sym on ∙ q.active ∙ off);
                },
              )
          | inr off ↦
              let (u, g, q') = say_answer laws refusal a t in
              (
                (a, u),
                ap (and_then (λ _. rest)) e
                    ∙ (λ i. (if not (off i) then (say refusal >>= λ _. return a) else k) t)
                    ∙ g,
                record {
                  serves =
                      Serves-then laws s t u (Talks-Serves laws s t q) (Talks-Serves laws t u q');
                  closed = λ on. cc (sym off ∙ q.active ∙ on);
                  stale = λ on. cc (sym off ∙ q.active ∙ on);
                  session = λ on. cc (sym off ∙ q.active ∙ on);
                  inactive = λ _. (negative, q'.http_inited ∙ q.http_inited);
                },
              )
        ];
  }
