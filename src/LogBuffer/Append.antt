-- ===== src/LogBuffer/Append.antt =====
-- Appending to the session log: what the buffer holds before the closing zero.
use hydro_logger.Prelude.{
  ℕ, zero, suc, ◌+◌, ◌-◌, ◌≡◌, ◌≤◌, ◌<◌, refl, ap, sym, ◌∙◌, List, [], ◌∷◌, ◌++◌, length, take,
  drop, ltb, if◌then◌else◌, arith, length-append, length-take, length-drop, take-append,
  take-append_le, take-append_add, take_all, append_assoc,
}
use hydro_logger.Prelude.Bytes.{u16}
use hydro_logger.LogBuffer.{LogBuffer, overwrite, appendf}

-- The buffer has its size, the closing zero stands inside it.
pub record IsLog (l : LogBuffer) : Type 0 where
  pub size : length l.buf ≡ 1024
  pub len_le : l.len ≤ 1023

overwrite-length :
    (at : ℕ) (bytes buf : List ℕ)
    → at + length bytes ≤ length buf
    → length (overwrite at bytes buf) ≡ length buf
overwrite-length at bytes buf h = omega (
  arith,
  length-append (take at buf) (bytes ++ drop (at + length bytes) buf),
  length-append bytes (drop (at + length bytes) buf),
  length-take at buf,
  length-drop (at + length bytes) buf,
)

take-overwrite :
    (at : ℕ) (bytes buf : List ℕ)
    → at + length bytes ≤ length buf
    → take (at + length bytes) (overwrite at bytes buf) ≡ take at buf ++ bytes
take-overwrite at bytes buf h =
    ap (take (at + length bytes))
      (sym (append_assoc (take at buf) bytes (drop (at + length bytes) buf)))
    ∙ take-append (take at buf ++ bytes) (drop (at + length bytes) buf) (at + length bytes)
        (omega (arith, length-append (take at buf) bytes, length-take at buf))

take-take : (n m : ℕ) (xs : List ℕ) → n ≤ m → take n (take m xs) ≡ take n xs
take-take zero m xs h = refl
take-take (suc n) zero xs h = absurd (omega arith)
take-take (suc n) (suc m) [] h = refl
take-take (suc n) (suc m) (x ∷ xs) h = ap (λ t. x ∷ t) (take-take n m xs (omega arith))

take-overwrite_le :
    (n at : ℕ) (bytes buf : List ℕ)
    → n ≤ at
    → at ≤ length buf
    → take n (overwrite at bytes buf) ≡ take n buf
take-overwrite_le n at bytes buf h g =
    take-append_le (take at buf) (bytes ++ drop (at + length bytes) buf) n
      (omega (arith, length-take at buf))
    ∙ take-take n at buf h

-- The part of what was printed that stands in front of its zero.
take-printed :
    (at : ℕ) (text buf : List ℕ)
    → at ≤ length buf
    → take (at + length text) (overwrite at (text ++ (0 ∷ [])) buf) ≡ take at buf ++ text
take-printed at text buf h =
    let rest = drop (at + length (text ++ (0 ∷ []))) buf in
    take-append_add (take at buf) ((text ++ (0 ∷ [])) ++ rest) (at + length text) (length text)
      (omega (arith, length-take at buf))
    ∙ ap (λ t. take at buf ++ t)
        (take-append_le (text ++ (0 ∷ [])) rest (length text)
            (omega (arith, length-append text (0 ∷ [])))
          ∙ take-append text (0 ∷ []) (length text) refl)

-- What `vappendf` makes of a text: the printed part, the length, the closing zero.
appendf_lem :
    (text : List ℕ) (l : LogBuffer)
    → l.len < 1023
    → appendf text l ≡ (
        let remain = 1023 - l.len in
        let n = if ltb remain (length text) then remain else length text in
        record {
          buf =
              overwrite
                (u16 (l.len + n))
                (0 ∷ [])
                (overwrite l.len (take (remain - 1) text ++ (0 ∷ [])) l.buf);
          len = u16 (l.len + n);
        })
unfolding appendf
appendf_lem text l h = ground arith

-- The buffer after a print of `written` and a closing zero at `len`.
abbrev result : LogBuffer → List ℕ → ℕ → LogBuffer
result l written len = record {
  buf = overwrite len (0 ∷ []) (overwrite l.len (written ++ (0 ∷ [])) l.buf);
  len = len;
}

result-IsLog :
    (l : LogBuffer) (written : List ℕ) (len : ℕ)
    → IsLog l
    → l.len + length written < 1024
    → len ≤ 1023
    → IsLog (result l written len)
result-IsLog l written len ok h g =
    let inner = overwrite l.len (written ++ (0 ∷ [])) l.buf in
    let long = length-append written (0 ∷ []) in
    let same = overwrite-length l.len (written ++ (0 ∷ [])) l.buf (omega (arith, long, ok.size)) in
    record {
      size = overwrite-length len (0 ∷ []) inner (omega (arith, same, ok.size)) ∙ same ∙ ok.size;
      len_le = g;
    }

-- A text that fits in front of the closing zero is appended to the log, whole.
pub appendf_fits :
    (text : List ℕ) (l : LogBuffer)
    → IsLog l
    → l.len + length text < 1023
    → IsLog (appendf text l)
      × ((appendf text l).len ≡ l.len + length text)
      × (take (appendf text l).len (appendf text l).buf ≡ take l.len l.buf ++ text)
appendf_fits text l ok h =
    let inner = overwrite l.len (text ++ (0 ∷ [])) l.buf in
    let all : take (1023 - l.len - 1) text ≡ text =
      take_all text (1023 - l.len - 1) (omega arith) in
    let n : u16 (l.len + (if ltb (1023 - l.len) (length text) then 1023 - l.len else length text))
        ≡ l.len + length text =
      ground arith in
    let e : appendf text l ≡ result l text (l.len + length text) =
      appendf_lem text l (omega arith) ∙ (λ i. result l (all i) (n i)) in
    let same =
      overwrite-length l.len (text ++ (0 ∷ [])) l.buf
        (omega (arith, length-append text (0 ∷ []), ok.size)) in
    let held : take (l.len + length text) (result l text (l.len + length text)).buf
        ≡ take l.len l.buf ++ text =
      take-overwrite_le (l.len + length text) (l.len + length text) (0 ∷ []) inner (omega arith)
        (omega (arith, same, ok.size))
      ∙ take-printed l.len text l.buf (omega (arith, ok.size, ok.len_le)) in
    rw e (result-IsLog l text (l.len + length text) ok (omega arith) (omega arith), refl, held)

-- A text that does not fit is cut so that its beginning and the closing zero end at the last byte but
-- one; the length that is kept counts that zero as well, so `size()` is one more than the text that
-- `c_str()` shows.
pub appendf_cuts :
    (text : List ℕ) (l : LogBuffer)
    → IsLog l
    → l.len < 1023
    → 1023 ≤ l.len + length text
    → IsLog (appendf text l)
      × ((appendf text l).len ≡ 1023)
      × (take (appendf text l).len (appendf text l).buf
          ≡ take l.len l.buf ++ (take (1022 - l.len) text ++ (0 ∷ [])))
appendf_cuts text l ok room h =
    let cut = take (1022 - l.len) text in
    let inner = overwrite l.len (cut ++ (0 ∷ [])) l.buf in
    let m : 1023 - l.len - 1 ≡ 1022 - l.len = omega arith in
    let n : u16 (l.len + (if ltb (1023 - l.len) (length text) then 1023 - l.len else length text))
        ≡ 1023 =
      ground arith in
    let e : appendf text l ≡ result l cut 1023 =
      appendf_lem text l room ∙ (λ i. result l (take (m i) text) (n i)) in
    let long : l.len + length (cut ++ (0 ∷ [])) ≡ 1023 =
      omega (arith, length-append cut (0 ∷ []), length-take (1022 - l.len) text) in
    let same = overwrite-length l.len (cut ++ (0 ∷ [])) l.buf (omega (arith, long, ok.size)) in
    let held : take 1023 (result l cut 1023).buf ≡ take l.len l.buf ++ (cut ++ (0 ∷ [])) =
      take-overwrite_le 1023 1023 (0 ∷ []) inner (omega arith) (omega (arith, same, ok.size))
      ∙ ap (λ k. take k inner) (sym long)
      ∙ take-overwrite l.len (cut ++ (0 ∷ [])) l.buf (omega (arith, long, ok.size)) in
    rw e (
      result-IsLog l cut 1023 ok (omega (arith, long, length-append cut (0 ∷ []))) (omega arith),
      refl,
      held,
    )
