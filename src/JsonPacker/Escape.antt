-- ===== src/JsonPacker/Escape.antt =====
-- The escaping of a log text, read back by a JSON reader.
use hydro_logger.Prelude.{
  ℕ, ◌≡◌, refl, ap, ◌∙◌, inl, inr, List, [], ◌∷◌, ◌++◌, Bool, true, false, ◌||◌, ◌==◌, leb, some,
  if◌then◌else◌, arith, Bool-cases, All,
}
use hydro_logger.JsonPacker.{escape}
use hydro_logger.JsonPacker.Reader.{push, read_from}

-- A character that may stand in the text: no control character but the two line ends.
unfoldable pub is_text : ℕ → Bool
is_text c = leb 32 c || ((c == 10) || (c == 13))

-- The escaped text of one character in front of the rest.
escape_step :
    (c : ℕ) (text rest : List ℕ)
    → is_text c ≡ true
    → read_from false (escape (c ∷ text) ++ rest) ≡ push c (read_from false (escape text ++ rest))
unfolding escape is_text read_from
escape_step c text rest h = elim (Bool-cases ((c == 92) || (c == 34))) [
  | inl e ↦ ground (arith, h, e)
  | inr e ↦ ground (arith, h, e)
]

-- A log text of plain characters and line ends is what a JSON reader reads back of its escaped form:
-- it stops at the closing quote and no sooner.
pub read-escape :
    (text rest : List ℕ)
    → All (λ c. is_text c ≡ true) text
    → read_from false (escape text ++ 34 ∷ rest) ≡ some (text, rest)
unfolding escape read_from
read-escape [] rest h = refl
read-escape (c ∷ text) rest h =
    escape_step c text (34 ∷ rest) h.0 ∙ ap (push c) (read-escape text rest h.1)

-- A character that needs no escape.
unfoldable pub is_plain : ℕ → Bool
is_plain c = if (c == 92) || (c == 34) then false else leb 32 c

pub read-plain :
    (text rest : List ℕ)
    → All (λ c. is_plain c ≡ true) text
    → read_from false (text ++ 34 ∷ rest) ≡ some (text, rest)
unfolding read_from is_plain
read-plain [] rest h = refl
read-plain (c ∷ text) rest h = ground (arith, h.0, read-plain text rest h.1)
