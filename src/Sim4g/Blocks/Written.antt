-- ===== src/Sim4g/Blocks/Written.antt =====
-- The blocks of a window: reading one ends, and the flash grows by what is reported.
use hydro_logger.Prelude.{
  ℕ, zero, suc, ◌+◌, ◌-◌, ◌≡◌, ◌≤◌, inl, inr, refl, ap, ◌∙◌, Bool, true, false, not, Option, none,
  some, List, ◌++◌, length, arith, ltb, ◌==◌, Bool-cases, ℤ, pos, negsuc,
}
use hydro_logger.Prelude.Int.{leb_ℤ, pos_part}
use hydro_logger.Prelude.Bytes.{codes}
use hydro_logger.Sim4g.{Board, Modem, M, ◌>>=◌, return, and_then, now, say}
use hydro_logger.Sim4g.Rules.{Laws}
use hydro_logger.Sim4g.Talks.{Talks, say_answer}
use hydro_logger.Sim4g.Ensures.{Ensures, Ensures-bind, branch_true, branch_false}
use hydro_logger.Sim4g.At.{turns}
use hydro_logger.Sim4g.Blocks.{
  read_http_read_len, ota_read_timeout_ms, block_end, block_turn, block_loop, position,
}
use hydro_logger.Sim4g.Blocks.Stream.{
  Kept, same-Kept, Kept-then, written, header_talk, Payload, payload_loop-Payload, fresh,
}

module _ {b : Board} (laws : Laws b) where
  pub Talks-Kept : (s t : Modem b) → Talks laws s t → Kept laws s t
  Talks-Kept s t q = record {
    active = q.active;
    active_apn = q.active_apn;
    flash = q.flash;
    boot = q.boot;
  }

  -- From `wgot` bytes of a window on: with success the flash has grown by the others that are
  -- reported, and there are `len` at least.
  pub record Blocks (wgot len : ℕ) (s : Modem b) (r : ℕ × Bool) (t : Modem b) : Type 0 where
    pub kept : Kept laws s t
    pub filled : r.1 ≡ true → written laws t + wgot ≡ written laws s + r.0
    pub whole : r.1 ≡ true → len ≤ r.0

  Blocks-after :
      (wgot len : ℕ) (s t u : Modem b) (r : ℕ × Bool)
      → Talks laws s t
      → Blocks wgot len t r u
      → Blocks wgot len s r u
  unfolding written
  Blocks-after wgot len s t u r q p = record {
    kept = Kept-then laws s t u (Talks-Kept s t q) p.kept;
    filled = λ h. p.filled h ∙ ap (λ (i : List ℕ). length i + r.0) q.image;
    whole = p.whole;
  }

  failed_Blocks : (wgot len : ℕ) (s t : Modem b) → Kept laws s t → Blocks wgot len s (wgot, false) t
  failed_Blocks wgot len s t k = record { kept = k; filled = λ h. cc h; whole = λ h. cc h }

  -- An end without success, after what was kept before.
  gives_up :
      (wgot len : ℕ) (text : List ℕ) (s t : Modem b)
      → Kept laws s t
      → (r : (ℕ × Bool) × Modem b) × ((say text >>= λ _. return (wgot, false)) t ≡ some r)
        × Blocks wgot len s r.0 r.1
  gives_up wgot len text s t k =
      let (u, e, q) = say_answer laws text (wgot, false) t in
      (
        ((wgot, false), u),
        e,
        failed_Blocks wgot len s u (Kept-then laws s t u k (Talks-Kept t u q)),
      )

  module _ (next : ℕ → M b (ℕ × Bool)) (offset wgot len : ℕ) where
    end_Blocks :
        (n : ℕ)
        → Ensures (Blocks (wgot + n) len) (next (wgot + n))
        → (payload : ℕ × Bool) (s t : Modem b) → Payload laws n s payload t
        → (r : (ℕ × Bool) × Modem b) × (block_end next offset wgot n payload t ≡ some r)
          × Blocks wgot len s r.0 r.1
    unfolding block_end written
    end_Blocks n rest (left, false) s t p =
        gives_up wgot len (codes "OTA FAIL: write @" ++ position offset wgot) s t p.kept
    end_Blocks n rest (left, true) s t p = elim (Bool-cases (not (left == 0))) [
      | inl short ↦
          let (u, e, q) =
            gives_up wgot len (codes "OTA FAIL: short read @" ++ position offset wgot) s t p.kept in
          (u, branch_true _ _ _ t short ∙ e, q)
      | inr full ↦
          let (u, e, q) = rest.at t in
          (
            u,
            branch_false _ _ _ t full ∙ e,
            record {
              kept = Kept-then laws s t u.1 p.kept q.kept;
              filled = λ h.
                  let nothing : left ≡ 0 = ground (arith, full) in
                  omega (arith, nothing, p.filled refl, q.filled h);
              whole = q.whole;
            },
          )
    ]

    turn_Blocks :
        ((n : ℕ) → 1 ≤ n → Ensures (Blocks (wgot + n) len) (next (wgot + n)))
        → (header : Option ℤ) → Ensures (Blocks wgot len) (block_turn next offset wgot header)
    unfolding block_turn now turns
    turn_Blocks rest none = record {
      at = λ s.
          gives_up wgot len (codes "OTA FAIL: HTTPREAD hdr @" ++ position offset wgot) s s
            (same-Kept laws s);
    }
    turn_Blocks rest (some blk) = record {
      at = λ s. elim (Bool-cases (leb_ℤ blk (pos 0))) [
        | inl ended ↦
            let (u, e, q) =
              gives_up wgot len (codes "OTA FAIL: HTTPREAD early end @" ++ position offset wgot) s s
                (same-Kept laws s) in
            (u, branch_true _ _ _ s ended ∙ e, q)
        | inr more ↦
            let n = pos_part blk in
            let (r, e, p) =
              payload_loop-Payload laws n (turns b (suc ota_read_timeout_ms)) (b.now s.dev) n s
                (omega arith) (fresh laws s) in
            let (u, g, q) = end_Blocks n (rest n (positive blk more)) r.0 s r.1 p in
            (u, branch_false _ _ _ s more ∙ ap (and_then (block_end next offset wgot n)) e ∙ g, q)
      ];
    }
      where
        positive : (z : ℤ) → leb_ℤ z (pos 0) ≡ false → 1 ≤ pos_part z
        positive (pos n) h = ground (arith, h)
        positive (negsuc n) h = ground (arith, h)

  -- With fuel for the bytes that are missing the loop over the blocks ends.
  pub block_loop-Blocks :
      (fuel offset len wgot : ℕ)
      → len - wgot ≤ fuel
      → Ensures (Blocks wgot len) (block_loop fuel offset len wgot)
  unfolding block_loop
  block_loop-Blocks zero offset len wgot enough = record {
    at = λ s. (
      ((wgot, true), s),
      branch_false (ltb wgot len) _ _ s (ground (arith, enough)),
      record { kept = same-Kept laws s; filled = λ _. refl; whole = λ _. omega (arith, enough) },
    );
  }
  block_loop-Blocks (suc fuel) offset len wgot enough = record {
    at = λ s. elim (Bool-cases (not (ltb wgot len))) [
      | inl done ↦ (
        ((wgot, true), s),
        branch_true _ _ _ s done,
        record { kept = same-Kept laws s; filled = λ _. refl; whole = λ _. ground (arith, done) },
      )
      | inr more ↦
          let turn =
            Ensures-bind (Blocks wgot len) (Talks laws) (Blocks-after wgot len)
              (read_http_read_len ota_read_timeout_ms) _ (header_talk laws ota_read_timeout_ms)
              (turn_Blocks (block_loop fuel offset len) offset wgot len
                (λ n h. block_loop-Blocks fuel offset len (wgot + n) (omega (arith, h, enough)))) in
          let (r, e, q) = turn.at s in (r, branch_false _ _ _ s more ∙ e, q)
    ];
  }
