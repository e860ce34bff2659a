-- ===== src/Rtc/Pcf8563/Simulated.antt =====
-- A chip that meets the hypotheses of Chip.antt: sixteen registers of a byte, of which
-- Control_status_2 is kept as its five flags. It acknowledges every access that the driver makes.
use hydro_logger.Prelude.{
  ℕ, ◌+◌, ◌-◌, ◌%◌, ◌≡◌, ◌≢◌, refl, ap, sym, ◌∙◌, ◌≤◌, ◌<◌, ◌⊎◌, inl, inr, List, [], ◌∷◌, Bool,
  true, false, ◌&&◌, Option, none, some, length, get_or, get_or-le, All, ◌==◌, ==→eq, leb, ltb,
  if◌then◌else◌, bit_and, arith, Bool-cases,
}
use hydro_logger.Prelude.Bytes.{has_bits}
use hydro_logger.Prelude.Bytes.Masks.{low_byte, mask_small}
use hydro_logger.Rtc.I2c.{
  Bus, Cmd, start, stop, write_byte, write, read_ack, read_nack, write_link, read_link,
}
use hydro_logger.Rtc.Pcf8563.{i2c_addr, cs2_value}
use hydro_logger.Rtc.Pcf8563.Control.{cs2_value_lem}
use hydro_logger.Rtc.Pcf8563.Chip.{Chip, from, implemented, implemented_bits}

pub record Simulated : Type 0 where
  pub cells : ℕ → ℕ
  pub af : Bool
  pub tf : Bool
  pub aie : Bool
  pub tie : Bool
  pub ti_tp : Bool

abbrev pub registers : Simulated → ℕ → ℕ
registers d i = if i == 1 then cs2_value d.af d.tf d.aie d.tie d.ti_tp else d.cells i % 256

-- The byte that the write of `w` from `r` on puts into register `i`.
abbrev written : ℕ → List ℕ → (ℕ → ℕ) → ℕ → ℕ
written r w old i = if leb r i && ltb i (r + length w) then get_or w (i - r) 0 else old i

abbrev store : ℕ → List ℕ → Simulated → Simulated
store r w d =
    let v = get_or w (1 - r) 0 in
    let hit = leb r 1 && ltb 1 (r + length w) in
    record {
      cells = written r w d.cells;
      af = if hit then d.af && has_bits v 8 else d.af;
      tf = if hit then d.tf && has_bits v 4 else d.tf;
      aie = if hit then has_bits v 2 else d.aie;
      tie = if hit then has_bits v 1 else d.tie;
      ti_tp = if hit then has_bits v 16 else d.ti_tp;
    }

abbrev execute : List Cmd → Simulated → Option (List ℕ) × Simulated
execute (start ∷ write_byte _ ∷ write_byte r ∷ write w ∷ stop ∷ []) d = (some [], store r w d)
execute
      (start
        ∷ write_byte _
        ∷ write_byte r
        ∷ start
        ∷ write_byte _
        ∷ read_ack n
        ∷ read_nack
        ∷ stop
        ∷ [])
      d =
    (some (from (registers d) r (n + 1)), d)
execute (start ∷ write_byte _ ∷ write_byte r ∷ start ∷ write_byte _ ∷ read_nack ∷ stop ∷ []) d =
    (some (from (registers d) r 1), d)
execute _ d = (none, d)

abbrev pub simulated : Bus
simulated = record { Dev = Simulated; cmd_begin = execute }

implemented-small : (i : ℕ) → implemented i < 256
implemented-small i =
    let bytes : All (λ x. x ≤ 255) implemented_bits = (
      omega arith,
      (
        omega arith,
        (
          omega arith,
          (
            omega arith,
            (
              omega arith,
              (
                omega arith,
                (
                  omega arith,
                  (
                    omega arith,
                    (
                      omega arith,
                      (
                        omega arith,
                        (
                          omega arith,
                          (
                            omega arith,
                            (omega arith, (omega arith, (omega arith, (omega arith, tt)))),
                          ),
                        ),
                      ),
                    ),
                  ),
                ),
              ),
            ),
          ),
        ),
      ),
    ) in
    omega (arith, get_or-le 255 i implemented_bits bytes)

cs2_small : (af tf aie tie tp : Bool) → cs2_value af tf aie tie tp < 256
unfolding cs2_value
cs2_small af tf aie tie tp = ground arith

pub registers-byte : (d : Simulated) (i : ℕ) → registers d i < 256
registers-byte d i = ground (arith, cs2_small d.af d.tf d.aie d.tie d.ti_tp)

-- A write link leaves the device that `store` gives.
write_tail :
    (empty : Bool) (a r : ℕ) (w bytes : List ℕ) (d d' : Simulated)
    → execute
        (start ∷ write_byte a ∷ write_byte r ∷ (if empty then stop ∷ [] else write w ∷ stop ∷ []))
        d
      ≡ (some bytes, d')
    → store r w d ≡ d'
write_tail true a r w bytes d d' h = ground arith
write_tail false a r w bytes d d' h = ap (λ p. p.1) h

pub write_link-execute :
    (r : ℕ) (w bytes : List ℕ) (d d' : Simulated)
    → execute (write_link i2c_addr r w) d ≡ (some bytes, d')
    → store r w d ≡ d'
unfolding write_link
write_link-execute r w bytes d d' h = write_tail (length w == 0) 0xA2 r w bytes d d' h

read_tail :
    (many : Bool) (a c r n : ℕ) (bytes : List ℕ) (d d' : Simulated)
    → many ≡ ltb 1 n
    → 1 ≤ n
    → execute
        (start
          ∷ write_byte a
          ∷ write_byte r
          ∷ start
          ∷ write_byte c
          ∷ (if many then read_ack (n - 1) ∷ read_nack ∷ stop ∷ [] else read_nack ∷ stop ∷ []))
        d
      ≡ (some bytes, d')
    → (bytes ≡ from (registers d) r n) × (d' ≡ d)
read_tail true a c r n bytes d d' e n_pos h =
    let size : n - 1 + 1 ≡ n = omega arith in
    let same : from (registers d) r (n - 1 + 1) ≡ bytes = ground (arith, h) in
    (sym same ∙ ap (from (registers d) r) size, sym (ap (λ p. p.1) h))
read_tail false a c r n bytes d d' e n_pos h =
    let size : 1 ≡ n = ground arith in
    let same : from (registers d) r 1 ≡ bytes = ground (arith, h) in
    (sym same ∙ ap (from (registers d) r) size, sym (ap (λ p. p.1) h))

pub read_link-execute :
    (r n : ℕ) (bytes : List ℕ) (d d' : Simulated)
    → 1 ≤ n
    → execute (read_link i2c_addr r n) d ≡ (some bytes, d')
    → (bytes ≡ from (registers d) r n) × (d' ≡ d)
unfolding read_link
read_link-execute r n bytes d d' n_pos h = read_tail (ltb 1 n) 0xA2 0xA3 r n bytes d d' refl n_pos h

read_tail_keeps :
    (many : Bool) (a c r n : ℕ) (bytes : List ℕ) (d d' : Simulated)
    → execute
        (start
          ∷ write_byte a
          ∷ write_byte r
          ∷ start
          ∷ write_byte c
          ∷ (if many then read_ack (n - 1) ∷ read_nack ∷ stop ∷ [] else read_nack ∷ stop ∷ []))
        d
      ≡ (some bytes, d')
    → d' ≡ d
read_tail_keeps true a c r n bytes d d' h = sym (ap (λ p. p.1) h)
read_tail_keeps false a c r n bytes d d' h = sym (ap (λ p. p.1) h)

pub read_link-keeps :
    (r n : ℕ) (bytes : List ℕ) (d d' : Simulated)
    → execute (read_link i2c_addr r n) d ≡ (some bytes, d')
    → d' ≡ d
unfolding read_link
read_link-keeps r n bytes d d' h = read_tail_keeps (ltb 1 n) 0xA2 0xA3 r n bytes d d' h

cell_lem : (d : Simulated) (i : ℕ) → i ≢ 1 → registers d i ≡ d.cells i % 256
cell_lem d i h = elim (Bool-cases (i == 1)) [
  | inl e ↦ ground (arith, h, e)
  | inr e ↦ ground (arith, e)
]

pub stored_lem :
    (r k mask : ℕ) (w : List ℕ) (d : Simulated)
    → k < length w
    → r + k ≢ 1
    → bit_and mask (implemented (r + k)) ≡ mask
    → bit_and (registers (store r w d) (r + k)) mask ≡ bit_and (get_or w k 0) mask
stored_lem r k mask w d small off covered =
    let cell : (store r w d).cells (r + k) ≡ get_or w k 0 =
      let offset : r + k - r ≡ k = omega arith in
      let hit : (leb r (r + k) && ltb (r + k) (r + length w)) ≡ true = ground arith in
      λ i. if hit i then get_or w (offset i) 0 else d.cells (r + k) in
    ap (λ t. bit_and t mask) (cell_lem (store r w d) (r + k) off)
    ∙ low_byte ((store r w d).cells (r + k)) mask
        (mask_small mask (implemented (r + k)) (implemented-small (r + k)) covered)
    ∙ ap (λ t. bit_and t mask) cell

pub kept_lem :
    (r i : ℕ) (w : List ℕ) (d : Simulated)
    → (i < r) ⊎ (r + length w ≤ i)
    → registers (store r w d) i ≡ registers d i
kept_lem r i w d outside = elim (Bool-cases (i == 1)) [
  | inl e ↦ kept_control (==→eq i 1 e)
  | inr e ↦ kept_cell e
]
  where
    kept_cell : (i == 1) ≡ false → registers (store r w d) i ≡ registers d i
    kept_cell e =
        let miss : (leb r i && ltb i (r + length w)) ≡ false = ground (arith, outside) in
        cell_lem (store r w d) i (ground arith)
        ∙ (λ j. (if miss j then get_or w (i - r) 0 else d.cells i) % 256)
        ∙ sym (cell_lem d i (ground arith))

    kept_control : i ≡ 1 → registers (store r w d) i ≡ registers d i
    kept_control e =
        let miss : (leb r 1 && ltb 1 (r + length w)) ≡ false = ground (arith, outside) in
        ap (registers (store r w d)) e
        ∙ (λ j.
            cs2_value (if miss j then d.af && has_bits (get_or w (1 - r) 0) 8 else d.af)
              (if miss j then d.tf && has_bits (get_or w (1 - r) 0) 4 else d.tf)
              (if miss j then has_bits (get_or w (1 - r) 0) 2 else d.aie)
              (if miss j then has_bits (get_or w (1 - r) 0) 1 else d.tie)
              (if miss j then has_bits (get_or w (1 - r) 0) 16 else d.ti_tp))
        ∙ ap (registers d) (sym e)

abbrev pub simulated_chip : Chip simulated
simulated_chip = record {
  reg = registers;
  reg_byte = registers-byte;
  write_stores = λ r w bytes d d' k mask h small off covered.
      ap (λ t. bit_and (registers t (r + k)) mask) (sym (write_link-execute r w bytes d d' h))
      ∙ stored_lem r k mask w d small off covered;
  write_keeps = λ r w bytes d d' i h outside.
      ap (λ t. registers t i) (sym (write_link-execute r w bytes d d' h))
      ∙ kept_lem r i w d outside;
  write_control = λ v bytes d d' h.
      let same = sym (write_link-execute 1 (v ∷ []) bytes d d' h) in
      let (old8, old4, _, _, _) = cs2_value_lem d.af d.tf d.aie d.tie d.ti_tp in
      let (n8, n4, n2, n1, n16) =
        cs2_value_lem (d.af && has_bits v 8) (d.tf && has_bits v 4) (has_bits v 2) (has_bits v 1)
          (has_bits v 16) in
      (
        ap (λ t. has_bits (registers t 1) 1) same ∙ n1,
        ap (λ t. has_bits (registers t 1) 2) same ∙ n2,
        ap (λ t. has_bits (registers t 1) 16) same ∙ n16,
        ap (λ t. has_bits (registers t 1) 8) same ∙ n8 ∙ ap (λ t. t && has_bits v 8) (sym old8),
        ap (λ t. has_bits (registers t 1) 4) same ∙ n4 ∙ ap (λ t. t && has_bits v 4) (sym old4),
      );
  read_gives = λ r n bytes d d' n_pos h. (read_link-execute r n bytes d d' n_pos h).0;
  read_keeps = λ r n bytes d d' i h. ap (λ t. registers t i) (read_link-keeps r n bytes d d' h);
}
