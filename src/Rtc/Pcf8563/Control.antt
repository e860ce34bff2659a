-- ===== src/Rtc/Pcf8563/Control.antt =====
-- Control_status_2 under the driver: its flags, read and written through the chip.
use hydro_logger.Prelude.{ℕ, ◌≡◌, ap, sym, ◌∙◌, ◌≤◌, inr, [], ◌∷◌, Bool, ◌&&◌, get_or, arith}
use hydro_logger.Prelude.Bytes.{has_bits}
use hydro_logger.Rtc.I2c.{Bus}
use hydro_logger.Rtc.Pcf8563.{done, return, cs2_value, read_regs, read_reg, read_cs2, write_cs2}
use hydro_logger.Rtc.Pcf8563.Chip.{Chip, >>=-done, done-injective, write_regs-done, read_regs-done}

-- Each argument of `pcf8563_write_cs2` is a bit of the byte.
pub cs2_value_lem :
    (af tf aie tie tp : Bool)
    → (has_bits (cs2_value af tf aie tie tp) 8 ≡ af)
      × (has_bits (cs2_value af tf aie tie tp) 4 ≡ tf)
      × (has_bits (cs2_value af tf aie tie tp) 2 ≡ aie)
      × (has_bits (cs2_value af tf aie tie tp) 1 ≡ tie)
      × (has_bits (cs2_value af tf aie tie tp) 16 ≡ tp)
unfolding cs2_value
cs2_value_lem af tf aie tie tp = ground arith

module _ (b : Bus) (chip : Chip b) where
  pub read_reg-done :
      (r v : ℕ) (d d' : b.Dev)
      → read_reg b r d ≡ (done v, d')
      → (v ≡ chip.reg d r) × ((i : ℕ) → chip.reg d' i ≡ chip.reg d i)
  unfolding read_reg
  read_reg-done r v d d' h =
      let (bytes, e, read, value) =
        >>=-done (read_regs b r 1) (λ w. return (get_or w 0 0)) d d' v h in
      let link = read_regs-done b r 1 d e (omega arith) read in
      let (same_value, same_dev) = done-injective (get_or bytes 0 0) v e d' value in
      (
        sym same_value ∙ ap (λ w. get_or w 0 0) (chip.read_gives r 1 bytes d e (omega arith) link),
        λ i. ap (λ t. chip.reg t i) (sym same_dev) ∙ chip.read_keeps r 1 bytes d e i link,
      )

  pub read_cs2-done :
      (v : ℕ) (d d' : b.Dev)
      → read_cs2 b d ≡ (done v, d')
      → (v ≡ chip.reg d 1) × ((i : ℕ) → chip.reg d' i ≡ chip.reg d i)
  unfolding read_cs2
  read_cs2-done v d d' h = read_reg-done 1 v d d' h

  -- The flags after `pcf8563_write_cs2`, and the registers that it leaves.
  pub write_cs2-done :
      (paf ptf aie tie tp : Bool) (d d' : b.Dev) {u : Unit {0}}
      → write_cs2 b paf ptf aie tie tp d ≡ (done u, d')
      → (has_bits (chip.reg d' 1) 8 ≡ (has_bits (chip.reg d 1) 8 && paf))
        × (has_bits (chip.reg d' 1) 4 ≡ (has_bits (chip.reg d 1) 4 && ptf))
        × (has_bits (chip.reg d' 1) 2 ≡ aie)
        × (has_bits (chip.reg d' 1) 1 ≡ tie)
        × (has_bits (chip.reg d' 1) 16 ≡ tp)
        × ((i : ℕ) → 2 ≤ i → chip.reg d' i ≡ chip.reg d i)
  unfolding write_cs2
  write_cs2-done paf ptf aie tie tp d d' h =
      let v = cs2_value paf ptf aie tie tp in
      let (bytes, link) = write_regs-done b 1 (v ∷ []) d d' h in
      let (l1, l2, l16, l8, l4) = chip.write_control v bytes d d' link in
      let (v8, v4, v2, v1, v16) = cs2_value_lem paf ptf aie tie tp in
      (
        l8 ∙ ap (λ t. has_bits (chip.reg d 1) 8 && t) v8,
        l4 ∙ ap (λ t. has_bits (chip.reg d 1) 4 && t) v4,
        l2 ∙ v2,
        l1 ∙ v1,
        l16 ∙ v16,
        λ i hi. chip.write_keeps 1 (v ∷ []) bytes d d' i link (inr hi),
      )
