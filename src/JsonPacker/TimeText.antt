-- ===== src/JsonPacker/TimeText.antt =====
-- The time inside a text, read back: six numbers between their separators.
use hydro_logger.Prelude.{
  ℕ, ◌≡◌, ◌≤◌, refl, ap, ◌∙◌, List, [], ◌∷◌, ◌++◌, true, Option, none, some, All, length, take,
  take_all, append_assoc,
}
use hydro_logger.Prelude.Decimal.{format_int, ends_number}
use hydro_logger.Models.{DateTime}
use hydro_logger.JsonPacker.{time_text}
use hydro_logger.JsonPacker.Reader.{expect, number, string, expect_lem, number_lem}
use hydro_logger.JsonPacker.Escape.{is_plain, read-plain}

-- The text of a time, and the rest.
time_text-append :
    (c : ℕ) (t : DateTime) (rest : List ℕ)
    → time_text c t ++ rest
      ≡ format_int 4 t.year
        ++ (45
            ∷ (format_int 2 t.month
                ++ (45
                    ∷ (format_int 2 t.day
                        ++ (c
                            ∷ (format_int 2 t.hour
                                ++ (58
                                    ∷ (format_int 2 t.minute
                                        ++ (58 ∷ (format_int 2 t.second ++ rest))))))))))
unfolding time_text
time_text-append c t rest = simp append_assoc refl

pub read_time : {A : Type 0} → ℕ → (DateTime → List ℕ → Option A) → List ℕ → Option A
read_time c k = number (λ y. expect (45 ∷ []) (
    number (λ mon. expect (45 ∷ []) (
      number (λ d. expect (c ∷ []) (
        number (λ h. expect (58 ∷ []) (
          number (λ m. expect (58 ∷ []) (
            number (λ s. k (record {
              year = y;
              month = mon;
              day = d;
              hour = h;
              minute = m;
              second = s;
            }))))))))))))

pub read_time_lem :
    {A : Type 0} (n c : ℕ) (t : DateTime) (rest : List ℕ) (k : DateTime → List ℕ → Option A)
    → length (time_text c t) ≤ n
    → ends_number rest ≡ true
    → ends_number (c ∷ []) ≡ true
    → read_time c k (take n (time_text c t) ++ rest) ≡ k t rest
unfolding read_time ends_number
read_time_lem n c t rest k fits h sep =
    ap (λ s. read_time c k (s ++ rest)) (take_all (time_text c t) n fits)
    ∙ ap (read_time c k) (time_text-append c t rest)
    ∙ number_lem 4 t.year _ _ refl
    ∙ expect_lem (45 ∷ []) _ _
    ∙ number_lem 2 t.month _ _ refl
    ∙ expect_lem (45 ∷ []) _ _
    ∙ number_lem 2 t.day _ _ sep
    ∙ expect_lem (c ∷ []) _ _
    ∙ number_lem 2 t.hour _ _ refl
    ∙ expect_lem (58 ∷ []) _ _
    ∙ number_lem 2 t.minute _ _ refl
    ∙ expect_lem (58 ∷ []) _ _
    ∙ number_lem 2 t.second rest _ h

pub string_lem :
    {A : Type 0} (text rest : List ℕ) (k : List ℕ → List ℕ → Option A)
    → All (λ c. is_plain c ≡ true) text
    → string k (text ++ 34 ∷ rest) ≡ k text rest
unfolding string
string_lem {A} text rest k h =
    let after : Option (List ℕ × List ℕ) → Option A =
      λ r. elim r [ none ↦ none | some (t, s) ↦ k t s ] in
    ap after (read-plain text rest h)
