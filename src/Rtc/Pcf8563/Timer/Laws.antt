-- ===== src/Rtc/Pcf8563/Timer/Laws.antt =====
-- What the chip's timer is after `pcf8563_setTimer` and `pcf8563_disableTimer`.
use hydro_logger.Prelude.{
  ℕ, ◌+◌, ◌≡◌, refl, ap, sym, ◌∙◌, ◌≤◌, ◌<◌, ◌⊎◌, inl, inr, [], ◌∷◌, Bool, true, false, ◌&&◌, not,
  get_or, ltb, bit_and, bit_or, arith, Bool-cases, ◌==◌, all_below, all_below_sound,
}
use hydro_logger.Prelude.Bytes.{u8, has_bits}
use hydro_logger.Rtc.I2c.{Bus}
use hydro_logger.Rtc.Pcf8563.{done, ◌>>=◌, ◌>>◌, write_reg, read_cs2, write_cs2}
use hydro_logger.Rtc.Pcf8563.Bcd.{byte_lem}
use hydro_logger.Rtc.Pcf8563.Chip.{Chip, implemented_bits, >>=-done, write_regs-done}
use hydro_logger.Rtc.Pcf8563.Flags.{flags, rewrite_timer_done}
use hydro_logger.Rtc.Pcf8563.Timer.{TimerConfig, set_timer, disable_timer}

-- The timer as the chip runs it: on by bit 7 of Timer_control, with the two clock bits below, and
-- the value that it counts down from.
pub record Countdown : Type 0 where
  pub running : Bool
  pub clock : ℕ
  pub value : ℕ

unfoldable pub countdown : (ℕ → ℕ) → Countdown
countdown reg = record {
  running = has_bits (reg 14) 0x80;
  clock = bit_and (reg 14) 0x03;
  value = bit_and (reg 15) 0xFF;
}

control_table : ℕ → Bool
control_table c = has_bits (u8 (bit_or c 0x80)) 0x80 && (bit_and (u8 (bit_or c 0x80)) 0x03 == c)

control_lem :
    (c : ℕ)
    → c < 4
    → (has_bits (u8 (bit_or c 0x80)) 0x80 ≡ true) × (bit_and (u8 (bit_or c 0x80)) 0x03 ≡ c)
unfolding control_table all_below
control_lem c h =
    let table = all_below_sound 4 control_table c refl h in
    (ground (arith, table), ground (arith, table))

module _ (b : Bus) (chip : Chip b) where
  -- One register written: what it holds, and that the others are left.
  write_reg-done :
      (r v : ℕ) (d d' : b.Dev)
      → 2 ≤ r
      → write_reg b r v d ≡ (done tt, d')
      → ((mask : ℕ)
          → bit_and mask (get_or implemented_bits (r + 0) 0) ≡ mask
          → bit_and (chip.reg d' r) mask ≡ bit_and v mask)
        × ((i : ℕ) → (i < r) ⊎ (r + 1 ≤ i) → chip.reg d' i ≡ chip.reg d i)
  unfolding write_reg
  write_reg-done r v d d' off h =
      let (bytes, e) = write_regs-done b r (v ∷ []) d d' h in
      let here : r + 0 ≡ r = omega arith in
      (
        λ mask covered.
            ap (λ t. bit_and (chip.reg d' t) mask) (sym here)
            ∙ chip.write_stores r (v ∷ []) bytes d d' 0 mask e (omega arith) (omega arith) covered,
        λ i outside. chip.write_keeps r (v ∷ []) bytes d d' i e outside,
      )

  set_timer-done :
      (cfg : TimerConfig) (d d' : b.Dev)
      → set_timer b cfg d ≡ (done tt, d')
      → (ltb 3 (u8 cfg.clock) ≡ false)
        × ((do
          write_reg b 0x0E (u8 cfg.clock)
          write_reg b 0x0F cfg.value
          write_reg b 0x0E (u8 (bit_or (u8 cfg.clock) 0x80))
          cs2 ← read_cs2 b
          write_cs2 b true false (has_bits cs2 2) cfg.interrupt_enable cfg.pulse_interrupt)
              d
            ≡ (done tt, d'))
  unfolding set_timer
  set_timer-done cfg d d' h = elim (Bool-cases (ltb 3 (u8 cfg.clock))) [
    | inl e ↦ ground (arith, e, h)
    | inr e ↦ ground (arith, e, h)
  ]

  -- A timer that `pcf8563_setTimer` accepts and writes runs from the value and with the clock asked
  -- for, and is armed with no expiry pending: TF is clear, and TIE and TI_TP are as asked. The alarm's
  -- flag and interrupt are as they were.
  pub set_timer_counts :
      (cfg : TimerConfig) (d d' : b.Dev)
      → cfg.value < 256
      → set_timer b cfg d ≡ (done tt, d')
      → (countdown (chip.reg d')
          ≡ record { running = true; clock = u8 cfg.clock; value = cfg.value })
        × (flags (chip.reg d' 1) ≡ record (flags (chip.reg d 1)) {
          tf = false;
          tie = cfg.interrupt_enable;
          ti_tp = cfg.pulse_interrupt;
        })
  unfolding countdown
  set_timer_counts cfg d d' small h =
      let (valid, chain) = set_timer-done cfg d d' h in
      let finish = λ (_ : Unit {0}). do
        cs2 ← read_cs2 b
        write_cs2 b true false (has_bits cs2 2) cfg.interrupt_enable cfg.pulse_interrupt
      in let control = u8 (bit_or (u8 cfg.clock) 0x80) in
        let (_, d1, w1, chain1) =
          >>=-done (write_reg b 0x0E (u8 cfg.clock))
            (λ _. write_reg b 0x0F cfg.value >> (write_reg b 0x0E control >>= finish)) d d' tt
            chain in
        let (_, d2, w2, chain2) =
          >>=-done (write_reg b 0x0F cfg.value) (λ _. write_reg b 0x0E control >>= finish) d1 d' tt
            chain1 in
        let (_, d3, w3, chain3) = >>=-done (write_reg b 0x0E control) finish d2 d' tt chain2 in
        let (_, k1) = write_reg-done 0x0E (u8 cfg.clock) d d1 (omega arith) w1 in
        let (s2, k2) = write_reg-done 0x0F cfg.value d1 d2 (omega arith) w2 in
        let (s3, k3) = write_reg-done 0x0E control d2 d3 (omega arith) w3 in
        let (f, kept) =
          rewrite_timer_done b chip cfg.interrupt_enable cfg.pulse_interrupt d3 d' chain3 in
        let (on, clock) = control_lem (u8 cfg.clock) (ground arith) in
        let alike : chip.reg d3 1 ≡ chip.reg d 1 =
          k3 1 (inl (omega arith)) ∙ k2 1 (inl (omega arith)) ∙ k1 1 (inl (omega arith)) in
        (
          λ i. record {
            running =
                (ap (λ t. has_bits t 0x80) (kept 14 (omega arith))
                    ∙ ap (λ t. not (t == 0)) (s3 0x80 refl)
                    ∙ on)
                  i;
            clock = (ap (λ t. bit_and t 0x03) (kept 14 (omega arith)) ∙ s3 0x03 refl ∙ clock) i;
            value =
                (ap (λ t. bit_and t 0xFF) (kept 15 (omega arith) ∙ k3 15 (inr (omega arith)))
                    ∙ s2 0xFF refl
                    ∙ byte_lem cfg.value small)
                  i;
          },
          f
              ∙ ap
                  (λ t. record (flags t) {
                    tf = false;
                    tie = cfg.interrupt_enable;
                    ti_tp = cfg.pulse_interrupt;
                  })
                  alike,
        )

  -- After `pcf8563_disableTimer` has written, the timer is off, no expiry is pending and its interrupt
  -- is off; the alarm's flag and interrupt are as they were.
  pub disable_timer_stops :
      (d d' : b.Dev)
      → disable_timer b d ≡ (done tt, d')
      → ((countdown (chip.reg d')).running ≡ false)
        × (flags (chip.reg d' 1)
            ≡ record (flags (chip.reg d 1)) { tf = false; tie = false; ti_tp = false })
  unfolding disable_timer countdown
  disable_timer_stops d d' h =
      let finish =
        λ (_ : Unit {0}). do cs2 ← read_cs2 b; write_cs2 b true false (has_bits cs2 2) false false
      in let (_, d1, w1, chain) = >>=-done (write_reg b 0x0E 0x03) finish d d' tt h in
        let (s1, k1) = write_reg-done 0x0E 0x03 d d1 (omega arith) w1 in
        let (f, kept) = rewrite_timer_done b chip false false d1 d' chain in
        (
          ap (λ t. has_bits t 0x80) (kept 14 (omega arith)) ∙ ap (λ t. not (t == 0)) (s1 0x80 refl),
          f
              ∙ ap (λ t. record (flags t) { tf = false; tie = false; ti_tp = false })
                  (k1 1 (inl (omega arith))),
        )
