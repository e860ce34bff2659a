-- ===== src/Sim4g/Rules.antt =====
-- What the proofs about the modem assume of the board, and how the operations are composed: an
-- operation `Runs` a relation if it ends, within its fuel, in a state that the relation allows.
use hydro_logger.Prelude.{
  ℕ, suc, ◌*◌, ◌≡◌, ◌≤◌, ◌<◌, refl, ap, sym, ◌∙◌, ◌∷◌, append-nil, append_assoc, Bool, true, false,
  Option, none, some, List, [], ◌++◌, length, if◌then◌else◌,
}
use hydro_logger.Sim4g.{Board, Modem, M, ◌>>=◌, return, and_then}

-- Time goes on: the clock counts milliseconds of `calls_per_ms` steps each, no call goes back, and a
-- read or a delay takes a step. The flash holds the image that was written since the last successful
-- `esp_ota_begin`, and only `esp_ota_set_boot_partition` changes what is booted. Only `writeSim` adds to
-- the texts that the UART was given, and only the power pin switches the modem.
pub record Laws (b : Board) : Type 0 where
  pub steps : b.Dev → ℕ
  pub lower : (d : b.Dev) → b.now d * b.calls_per_ms ≤ steps d
  pub upper : (d : b.Dev) → steps d < suc (b.now d) * b.calls_per_ms
  pub image : b.Dev → List ℕ
  -- The image that the last successful call chose to boot.
  pub boot : b.Dev → Option (List ℕ)
  -- The texts that were written to the UART so far, in order.
  pub written : b.Dev → List (List ℕ)
  -- Whether the power pin is high.
  pub powered : b.Dev → Bool
  pub write_written :
      (text : List ℕ) (d : b.Dev) → written (b.write text d).1 ≡ written d ++ text ∷ []
  pub write_powered : (text : List ℕ) (d : b.Dev) → powered (b.write text d).1 ≡ powered d
  pub power_powered : (on : Bool) (d : b.Dev) → powered (b.set_power on d) ≡ on
  pub power_written : (on : Bool) (d : b.Dev) → written (b.set_power on d) ≡ written d
  pub read_pins :
      (n ms : ℕ) (d : b.Dev)
      → (written (b.read n ms d).1 ≡ written d) × (powered (b.read n ms d).1 ≡ powered d)
  pub delay_pins :
      (ms : ℕ) (d : b.Dev)
      → (written (b.delay ms d) ≡ written d) × (powered (b.delay ms d) ≡ powered d)
  pub flush_pins :
      (d : b.Dev) → (written (b.flush d) ≡ written d) × (powered (b.flush d) ≡ powered d)
  pub init_pins :
      (d : b.Dev)
      → (written (b.init_uart d).1 ≡ written d) × (powered (b.init_uart d).1 ≡ powered d)
  pub read_steps : (n ms : ℕ) (d : b.Dev) → 1 ≤ ms → steps d < steps (b.read n ms d).1
  pub read_bounded : (n ms : ℕ) (d : b.Dev) → length (b.read n ms d).0 ≤ n
  pub delay_steps : (ms : ℕ) (d : b.Dev) → 1 ≤ ms → steps d < steps (b.delay ms d)
  pub flush_steps : (d : b.Dev) → steps d ≤ steps (b.flush d)
  pub write_steps : (text : List ℕ) (d : b.Dev) → steps d ≤ steps (b.write text d).1
  pub power_steps : (on : Bool) (d : b.Dev) → steps d ≤ steps (b.set_power on d)
  pub init_steps : (d : b.Dev) → steps d ≤ steps (b.init_uart d).1
  pub ota_write_steps : (bytes : List ℕ) (d : b.Dev) → steps d ≤ steps (b.ota_write bytes d).1
  pub read_same :
      (n ms : ℕ) (d : b.Dev)
      → (image (b.read n ms d).1 ≡ image d) × (boot (b.read n ms d).1 ≡ boot d)
  pub delay_same :
      (ms : ℕ) (d : b.Dev) → (image (b.delay ms d) ≡ image d) × (boot (b.delay ms d) ≡ boot d)
  pub flush_same : (d : b.Dev) → (image (b.flush d) ≡ image d) × (boot (b.flush d) ≡ boot d)
  pub write_same :
      (text : List ℕ) (d : b.Dev)
      → (image (b.write text d).1 ≡ image d) × (boot (b.write text d).1 ≡ boot d)
  pub power_same :
      (on : Bool) (d : b.Dev)
      → (image (b.set_power on d) ≡ image d) × (boot (b.set_power on d) ≡ boot d)
  pub init_same :
      (d : b.Dev) → (image (b.init_uart d).1 ≡ image d) × (boot (b.init_uart d).1 ≡ boot d)
  pub ota_begin_image :
      (n : ℕ) (d : b.Dev) → (b.ota_begin n d).0 ≡ none → image (b.ota_begin n d).1 ≡ []
  pub ota_begin_boot : (n : ℕ) (d : b.Dev) → boot (b.ota_begin n d).1 ≡ boot d
  pub ota_write_image :
      (bytes : List ℕ) (d : b.Dev)
      → (b.ota_write bytes d).0 ≡ none
      → image (b.ota_write bytes d).1 ≡ image d ++ bytes
  pub ota_write_boot : (bytes : List ℕ) (d : b.Dev) → boot (b.ota_write bytes d).1 ≡ boot d
  pub ota_end_image : (d : b.Dev) → (b.ota_end d).0 ≡ none → image (b.ota_end d).1 ≡ image d
  pub ota_end_boot : (d : b.Dev) → boot (b.ota_end d).1 ≡ boot d
  pub ota_abort_boot : (d : b.Dev) → boot (b.ota_abort d) ≡ boot d
  pub boot_image : (d : b.Dev) → image (b.set_boot_partition d).1 ≡ image d
  pub boot_chosen :
      (d : b.Dev)
      → (b.set_boot_partition d).0 ≡ none
      → boot (b.set_boot_partition d).1 ≡ some (image d)
  pub boot_refused :
      (d : b.Dev) (name : List ℕ)
      → (b.set_boot_partition d).0 ≡ some name
      → boot (b.set_boot_partition d).1 ≡ boot d

module _ {b : Board} (laws : Laws b) where
  -- What was written to the UART between two states.
  abbrev pub Grows : b.Dev → b.Dev → Type 0
  Grows d d' = (more : List (List ℕ)) × (laws.written d' ≡ laws.written d ++ more)

  -- A text that was written between them.
  abbrev pub Wrote : List ℕ → b.Dev → b.Dev → Type 0
  Wrote text d d' =
      (before : List (List ℕ)) × (after : List (List ℕ)) × (laws.written d'
        ≡ laws.written d ++ (before ++ text ∷ after))

  pub Grows-same : (d d' : b.Dev) → laws.written d' ≡ laws.written d → Grows d d'
  Grows-same d d' e = ([], e ∙ sym (append-nil (laws.written d)))

  pub Grows-then : (d d' d'' : b.Dev) → Grows d d' → Grows d' d'' → Grows d d''
  Grows-then d d' d'' (xs, e) (ys, f) =
      (xs ++ ys, f ∙ ap (λ t. t ++ ys) e ∙ append_assoc (laws.written d) xs ys)

  pub Wrote-after :
      (text : List ℕ) (d d' d'' : b.Dev) → Grows d d' → Wrote text d' d'' → Wrote text d d''
  Wrote-after text d d' d'' (xs, e) (ys, zs, f) = (
    xs ++ ys,
    zs,
    f
        ∙ ap (λ t. t ++ (ys ++ text ∷ zs)) e
        ∙ append_assoc (laws.written d) xs (ys ++ text ∷ zs)
        ∙ ap (λ t. laws.written d ++ t) (sym (append_assoc xs ys (text ∷ zs))),
  )

  pub Wrote-then :
      (text : List ℕ) (d d' d'' : b.Dev) → Wrote text d d' → Grows d' d'' → Wrote text d d''
  Wrote-then text d d' d'' (ys, zs, f) (xs, e) = (
    ys,
    zs ++ xs,
    e
        ∙ ap (λ t. t ++ xs) f
        ∙ append_assoc (laws.written d) (ys ++ text ∷ zs) xs
        ∙ ap (λ t. laws.written d ++ t) (append_assoc ys (text ∷ zs) xs),
  )

-- The relation is one that composes.
pub record Composes {b : Board} (R : Modem b → Modem b → Type 0) : Type 0 where
  pub same : (s : Modem b) → R s s
  pub then_ : (s t u : Modem b) → R s t → R t u → R s u

pub record Runs {b : Board} {A : Type 0} (R : Modem b → Modem b → Type 0) (m : M b A) : Type 0 where
  pub at : (s : Modem b) → (r : A × Modem b) × (m s ≡ some r) × R s r.1

module _ {b : Board} (R : Modem b → Modem b → Type 0) (c : Composes R) where
  pub Runs-return : {A : Type 0} (a : A) → Runs R (return a)
  Runs-return a = record { at = λ s. ((a, s), refl, c.same s) }

  pub Runs-bind :
      {A B : Type 0} (m : M b A) (f : A → M b B)
      → Runs R m
      → ((a : A) → Runs R (f a))
      → Runs R (m >>= f)
  Runs-bind m f runs next = record {
    at = λ s.
        let (r, e, q) = runs.at s in
        let (u, g, q') = (next r.0).at r.1 in (u, ap (and_then f) e ∙ g, c.then_ s r.1 u.1 q q');
  }

  -- The same where what follows splits on the answer.
  pub Runs-bind_option :
      {A B : Type 0} (m : M b (Option A)) (f : Option A → M b B)
      → Runs R m
      → Runs R (f none)
      → ((a : A) → Runs R (f (some a)))
      → Runs R (m >>= f)
  Runs-bind_option {A} {B} m f runs no_answer next = Runs-bind m f runs (split no_answer next)
    where
      split : Runs R (f none) → ((a : A) → Runs R (f (some a))) → (o : Option A) → Runs R (f o)
      split p q none = p
      split p q (some a) = q a

pub Runs-if :
    {b : Board} {R : Modem b → Modem b → Type 0} {A : Type 0} (test : Bool) (m k : M b A)
    → Runs R m
    → Runs R k
    → Runs R (if test then m else k)
Runs-if true m k p q = p
Runs-if false m k p q = q
