-- ===== src/Sim4g/Parse/Body.antt =====
-- The body of an answer to AT+HTTPREAD, as `httpGet` takes it out of what it collected.
use hydro_logger.Prelude.{
  ℕ, ◌≡◌, refl, ap, ◌∙◌, Bool, true, false, not, none, some, List, [], ◌∷◌, ◌++◌, All, ◌==◌,
  if◌then◌else◌, arith,
}
use hydro_logger.Prelude.Bytes.{codes}
use hydro_logger.Sim4g.Parse.{
  starts_with, find_from, after_line_end, before_last_ok, is_trimmed, put_trimmed, trim_end,
  unless_empty, body_behind, body_from, http_body,
}

-- The last character is none of those that are trimmed.
unfoldable pub ends_plainly : List ℕ → Bool
ends_plainly [] = false
ends_plainly (c ∷ s) = last_plain c s
  where
    last_plain : ℕ → List ℕ → Bool
    last_plain c [] = not (is_trimmed c)
    last_plain c (d ∷ t) = last_plain d t

-- A text without a plus sign is passed over.
find_after :
    (pre s : List ℕ)
    → All (λ c. (c == 43) ≡ false) pre
    → find_from (codes "+HTTPREAD:") (pre ++ s) ≡ find_from (codes "+HTTPREAD:") s
unfolding find_from starts_with
find_after [] s h = refl
find_after (c ∷ pre) s (h, hs) = ground (arith, h, find_after pre s hs)

line_end_after :
    (line s : List ℕ) → All (λ c. (c == 10) ≡ false) line → after_line_end (line ++ 10 ∷ s) ≡ some s
unfolding after_line_end
line_end_after [] s h = refl
line_end_after (c ∷ line) s (h, hs) = ground (arith, h, line_end_after line s hs)

header_passed :
    (header s : List ℕ)
    → All (λ c. (c == 10) ≡ false) header
    → after_line_end (codes "+HTTPREAD:" ++ (header ++ 10 ∷ s)) ≡ some s
unfolding after_line_end
header_passed header s h = line_end_after header s h

abbrev pub trailer : List ℕ
trailer = codes "\r\nOK\r\n"

last_ok : (body : List ℕ) → before_last_ok (body ++ trailer) ≡ some (body ++ codes "\r\n")
unfolding before_last_ok starts_with
last_ok [] = refl
last_ok (c ∷ body) =
    ap
      (λ o. elim o [
        | some t ↦ some (c ∷ t)
        | none ↦ if starts_with (codes "OK") (c ∷ (body ++ trailer)) then some [] else none
      ])
      (last_ok body)

trim_lem : (body : List ℕ) → ends_plainly body ≡ true → trim_end (body ++ codes "\r\n") ≡ body
unfolding trim_end ends_plainly
trim_lem [] h = ground (arith, h)
trim_lem (c ∷ []) h = ground (arith, h)
trim_lem (c ∷ d ∷ body) h = ap (put_trimmed c) (trim_lem (d ∷ body) h)

header_found :
    (pre s : List ℕ)
    → All (λ c. (c == 43) ≡ false) pre
    → find_from (codes "+HTTPREAD:") (pre ++ (codes "+HTTPREAD:" ++ s))
      ≡ some (codes "+HTTPREAD:" ++ s)
unfolding find_from starts_with
header_found pre s h = find_after pre (codes "+HTTPREAD:" ++ s) h

-- What stands in an answer to AT+HTTPREAD is read back: some lines without a plus sign, the header
-- line, the body that does not end in a line end or a space, and the closing OK.
pub http_body-answer :
    (pre header body : List ℕ)
    → All (λ c. (c == 43) ≡ false) pre
    → All (λ c. (c == 10) ≡ false) header
    → ends_plainly body ≡ true
    → http_body (pre ++ (codes "+HTTPREAD:" ++ (header ++ 10 ∷ (body ++ trailer)))) ≡ body
unfolding http_body body_from body_behind ends_plainly
http_body-answer pre header [] hp hh hb = ground (arith, hb)
http_body-answer pre header (c ∷ body) hp hh hb =
    ap body_from (header_found pre (header ++ 10 ∷ ((c ∷ body) ++ trailer)) hp)
    ∙ (ap body_behind (header_passed header ((c ∷ body) ++ trailer) hh)
        ∙ (ap (λ o. trim_end (unless_empty ((c ∷ body) ++ trailer) o)) (last_ok (c ∷ body))
            ∙ trim_lem (c ∷ body) hb))
