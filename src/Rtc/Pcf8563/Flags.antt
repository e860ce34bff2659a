-- ===== src/Rtc/Pcf8563/Flags.antt =====
-- The flags of Control_status_2, and what the calls that rewrite them leave behind.
use hydro_logger.Prelude.{ℕ, ◌≡◌, ap, ◌∙◌, ◌≤◌, Bool, true, false, ◌&&◌, arith}
use hydro_logger.Prelude.Bytes.{has_bits}
use hydro_logger.Rtc.I2c.{Bus}
use hydro_logger.Rtc.Pcf8563.{done, ◌>>=◌, read_cs2, write_cs2}
use hydro_logger.Rtc.Pcf8563.Chip.{Chip, >>=-done}
use hydro_logger.Rtc.Pcf8563.Control.{read_cs2-done, write_cs2-done}

-- The flags of Control_status_2: the alarm's flag and interrupt, then the timer's flag, interrupt
-- and mode.
pub record Flags : Type 0 where
  pub af : Bool
  pub aie : Bool
  pub tf : Bool
  pub tie : Bool
  pub ti_tp : Bool

unfoldable pub flags : ℕ → Flags
flags v = record {
  af = has_bits v 8;
  aie = has_bits v 2;
  tf = has_bits v 4;
  tie = has_bits v 1;
  ti_tp = has_bits v 16;
}

pub and_true : (x : Bool) → (x && true) ≡ x
and_true x = ground arith

pub and_false : (x : Bool) → (x && false) ≡ false
and_false x = ground arith

module _ (b : Bus) (chip : Chip b) where
  -- The end of every call that changes the flags: Control_status_2 is read, and written with what
  -- the call makes of it.
  rewrite_flags :
      (paf ptf : Bool) (aie tie tp : ℕ → Bool) (d d' : b.Dev)
      → (do cs2 ← read_cs2 b; write_cs2 b paf ptf (aie cs2) (tie cs2) (tp cs2)) d ≡ (done tt, d')
      → (flags (chip.reg d' 1) ≡ record {
        af = (flags (chip.reg d 1)).af && paf;
        aie = aie (chip.reg d 1);
        tf = (flags (chip.reg d 1)).tf && ptf;
        tie = tie (chip.reg d 1);
        ti_tp = tp (chip.reg d 1);
      })
        × ((i : ℕ) → 2 ≤ i → chip.reg d' i ≡ chip.reg d i)
  unfolding flags
  rewrite_flags paf ptf aie tie tp d d' h =
      let (cs2, e, read, written) =
        >>=-done (read_cs2 b) (λ cs2. write_cs2 b paf ptf (aie cs2) (tie cs2) (tp cs2)) d d' tt h in
      let (value, kept) = read_cs2-done b chip cs2 d e read in
      let (w8, w4, w2, w1, w16, rest) =
        write_cs2-done b chip paf ptf (aie cs2) (tie cs2) (tp cs2) e d' written in
      (
        λ i. record {
          af = (w8 ∙ ap (λ t. has_bits t 8 && paf) (kept 1)) i;
          aie = (w2 ∙ ap aie value) i;
          tf = (w4 ∙ ap (λ t. has_bits t 4 && ptf) (kept 1)) i;
          tie = (w1 ∙ ap tie value) i;
          ti_tp = (w16 ∙ ap tp value) i;
        },
        λ i hi. rest i hi ∙ kept i,
      )

  -- The alarm's calls clear AF and keep the timer's flags.
  pub rewrite_done :
      (aie : ℕ → Bool) (d d' : b.Dev)
      → (do cs2 ← read_cs2 b; write_cs2 b false true (aie cs2) (has_bits cs2 1) (has_bits cs2 16)) d
        ≡ (done tt, d')
      → (flags (chip.reg d' 1)
          ≡ record (flags (chip.reg d 1)) { af = false; aie = aie (chip.reg d 1) })
        × ((i : ℕ) → 2 ≤ i → chip.reg d' i ≡ chip.reg d i)
  unfolding flags
  rewrite_done aie d d' h =
      let (f, kept) =
        rewrite_flags false true aie (λ cs2. has_bits cs2 1) (λ cs2. has_bits cs2 16) d d' h in
      (
        f ∙ (λ i. record (flags (chip.reg d 1)) {
          af = and_false (has_bits (chip.reg d 1) 8) i;
          aie = aie (chip.reg d 1);
          tf = and_true (has_bits (chip.reg d 1) 4) i;
        }),
        kept,
      )

  -- The timer's calls clear TF and keep the alarm's flags.
  pub rewrite_timer_done :
      (tie tp : Bool) (d d' : b.Dev)
      → (do cs2 ← read_cs2 b; write_cs2 b true false (has_bits cs2 2) tie tp) d ≡ (done tt, d')
      → (flags (chip.reg d' 1)
          ≡ record (flags (chip.reg d 1)) { tf = false; tie = tie; ti_tp = tp })
        × ((i : ℕ) → 2 ≤ i → chip.reg d' i ≡ chip.reg d i)
  unfolding flags
  rewrite_timer_done tie tp d d' h =
      let (f, kept) =
        rewrite_flags true false (λ cs2. has_bits cs2 2) (λ _. tie) (λ _. tp) d d' h in
      (
        f ∙ (λ i. record (flags (chip.reg d 1)) {
          af = and_true (has_bits (chip.reg d 1) 8) i;
          tf = and_false (has_bits (chip.reg d 1) 4) i;
          tie = tie;
          ti_tp = tp;
        }),
        kept,
      )
