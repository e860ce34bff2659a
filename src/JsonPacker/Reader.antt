-- ===== src/JsonPacker/Reader.antt =====
-- What a receiver of the texts does: it expects the literal parts, reads the numbers, and reads a JSON
-- string up to its closing quote with the escapes of RFC 8259 that the packer writes.
use hydro_logger.Prelude.{
  ℕ, ℤ, ◌≡◌, refl, ap, List, [], ◌∷◌, ◌++◌, Bool, true, false, ◌||◌, ◌==◌, ltb, Option, none, some,
  if◌then◌else◌, arith,
}
use hydro_logger.Prelude.Decimal.{scan_int, format_int, ends_number, scan_int-format_int}

-- Where the rest of a text is read as `k` says.
unfoldable pub expect : {A : Type 0} → List ℕ → (List ℕ → Option A) → List ℕ → Option A
expect [] k s = k s
expect (c ∷ l) k [] = none
expect (c ∷ l) k (d ∷ s) = let rest = expect l k s in if d == c then rest else none

unfoldable pub number : {A : Type 0} → (ℤ → List ℕ → Option A) → List ℕ → Option A
number k s = elim (scan_int s) [ none ↦ none | some (z, rest) ↦ k z rest ]

-- The character that an escape stands for.
abbrev pub escaped : ℕ → Option ℕ
escaped c =
    if (c == 92) || (c == 34)
    then some c
    else if c == 110
    then some 10
    else if c == 114
    then some 13
    else none

abbrev pub push : ℕ → Option (List ℕ × List ℕ) → Option (List ℕ × List ℕ)
push c none = none
push c (some (t, s)) = some (c ∷ t, s)

abbrev pub push_escaped : Option ℕ → Option (List ℕ × List ℕ) → Option (List ℕ × List ℕ)
push_escaped none r = none
push_escaped (some c) r = push c r

-- The characters up to the closing quote, and what follows it; `true` stands behind a backslash. A
-- control character is refused.
unfoldable pub read_from : Bool → List ℕ → Option (List ℕ × List ℕ)
read_from behind [] = none
read_from true (c ∷ s) = push_escaped (escaped c) (read_from false s)
read_from false (c ∷ s) =
    let escape = read_from true s in
    let rest = read_from false s in
    if c == 34
    then some ([], s)
    else if c == 92
    then escape
    else if ltb c 32
    then none
    else push c rest

unfoldable pub string : {A : Type 0} → (List ℕ → List ℕ → Option A) → List ℕ → Option A
unfolding read_from
string k s = elim (read_from false s) [ none ↦ none | some (t, rest) ↦ k t rest ]

pub expect_lem : {A : Type 0} (l s : List ℕ) (k : List ℕ → Option A) → expect l k (l ++ s) ≡ k s
unfolding expect
expect_lem [] s k = refl
expect_lem (c ∷ l) s k = ground (arith, expect_lem l s k)

pub number_lem :
    {A : Type 0} (width : ℕ) (z : ℤ) (s : List ℕ) (k : ℤ → List ℕ → Option A)
    → ends_number s ≡ true
    → number k (format_int width z ++ s) ≡ k z s
unfolding number
number_lem {A} width z s k h =
    let after : Option (ℤ × List ℕ) → Option A =
      λ r. elim r [ none ↦ none | some (n, t) ↦ k n t ] in
    ap after (scan_int-format_int width z s h)
