-- ===== src/Sim4g/Ensures.antt =====
-- Operations that change the module or the flash: what they ensure of the answer and of the state
-- after, from the state before.
use hydro_logger.Prelude.{◌≡◌, ap, ◌∙◌, Bool, true, false, Option, none, some, if◌then◌else◌}
use hydro_logger.Sim4g.{Board, Modem, M, ◌>>=◌, and_then}
use hydro_logger.Sim4g.Rules.{Runs}

pub record Ensures {b : Board} {A : Type 0} (Q : Modem b → A → Modem b → Type 0) (m : M b A)
    : Type 0 where
  pub at : (s : Modem b) → (r : A × Modem b) × (m s ≡ some r) × Q s r.0 r.1

-- The branch that a test takes.
pub branch_true :
    {b : Board} {A : Type 0} (test : Bool) (m k : M b A) (s : Modem b)
    → test ≡ true
    → (if test then m else k) s ≡ m s
branch_true test m k s p = λ i. (if p i then m else k) s

pub branch_false :
    {b : Board} {A : Type 0} (test : Bool) (m k : M b A) (s : Modem b)
    → test ≡ false
    → (if test then m else k) s ≡ k s
branch_false test m k s p = λ i. (if p i then m else k) s

module _ {b : Board} {A : Type 0} (Q : Modem b → A → Modem b → Type 0) where
  pub Ensures-if :
      (test : Bool) (m k : M b A) → Ensures Q m → Ensures Q k → Ensures Q (if test then m else k)
  Ensures-if true m k p q = p
  Ensures-if false m k p q = q

  -- A part that runs a relation which may come before what is ensured.
  module _ (R : Modem b → Modem b → Type 0)
      (absorb : (s t u : Modem b) (a : A) → R s t → Q t a u → Q s a u) where
    pub Ensures-bind :
        {B : Type 0} (m : M b B) (f : B → M b A)
        → Runs R m
        → ((x : B) → Ensures Q (f x))
        → Ensures Q (m >>= f)
    Ensures-bind m f runs next = record {
      at = λ s.
          let (r, e, q) = runs.at s in
          let (u, g, q') = (next r.0).at r.1 in
          (u, ap (and_then f) e ∙ g, absorb s r.1 u.1 u.0 q q');
    }

    pub Ensures-bind_option :
        {B : Type 0} (m : M b (Option B)) (f : Option B → M b A)
        → Runs R m
        → Ensures Q (f none)
        → ((x : B) → Ensures Q (f (some x)))
        → Ensures Q (m >>= f)
    Ensures-bind_option {B} m f runs no_answer next = Ensures-bind m f runs (split no_answer next)
      where
        split :
            Ensures Q (f none)
            → ((x : B) → Ensures Q (f (some x)))
            → (o : Option B) → Ensures Q (f o)
        split p q none = p
        split p q (some x) = q x

-- A part whose answer and state are known, and what is ensured after it.
pub Ensures-then :
    {b : Board} {A B : Type 0} (P : Modem b → B → Modem b → Type 0)
    (Q : Modem b → A → Modem b → Type 0) (m : M b B) (f : B → M b A)
    → Ensures P m
    → ((s : Modem b) (x : B) (t : Modem b)
        → P s x t
        → (r : A × Modem b) × (f x t ≡ some r) × Q s r.0 r.1)
    → Ensures Q (m >>= f)
Ensures-then P Q m f first next = record {
  at = λ s.
      let (r, e, p) = first.at s in
      let (u, g, q) = next s r.0 r.1 p in (u, ap (and_then f) e ∙ g, q);
}
