-- ===== src/TimeUtils/ServerTime.antt =====
-- Reading the server's time text `HH:MM:SS_DD:MM:YYYY`.
use hydro_logger.Prelude.{
  ℕ, ◌≡◌, refl, ap, ◌∙◌, ℤ, List, ◌∷◌, ◌++◌, true, false, Option, none, some, arith,
}
use hydro_logger.Prelude.Decimal.{format_int, ends_number, scan_int-format_int}
use hydro_logger.Models.{DateTime}
use hydro_logger.TimeUtils.{literal, field, last_field, scan_six, parse_server_time}

-- The text of a time, `%02d:%02d:%02d_%02d:%02d:%04d`, before `rest`.
abbrev pub server_text : DateTime → List ℕ → List ℕ
server_text t rest =
    format_int 2 t.hour
    ++ (58
        ∷ (format_int 2 t.minute
            ++ (58
                ∷ (format_int 2 t.second
                    ++ (95
                        ∷ (format_int 2 t.day
                            ++ (58
                                ∷ (format_int 2 t.month
                                    ++ (58 ∷ (format_int 4 t.year ++ rest))))))))))

field_lem :
    {A : Type 0} (c width : ℕ) (z : ℤ) (s : List ℕ) (k : ℤ → List ℕ → Option A)
    → ends_number (c ∷ s) ≡ true
    → field c k (format_int width z ++ c ∷ s) ≡ k z s
unfolding field
field_lem {A} c width z s k h =
    let next : literal c (c ∷ s) ≡ some s = ground arith in
    let after : Option (ℤ × List ℕ) → Option A = λ r. elim r [
      | none ↦ none
      | some (n, t) ↦ elim (literal c t) [ none ↦ none | some t' ↦ k n t' ]
    ] in
    ap after (scan_int-format_int width z (c ∷ s) h)
    ∙ ap (λ r. elim r [ none ↦ none | some t ↦ k z t ]) next

last_field_lem :
    {A : Type 0} (width : ℕ) (z : ℤ) (s : List ℕ) (f : ℤ → A)
    → ends_number s ≡ true
    → last_field f (format_int width z ++ s) ≡ some (f z)
unfolding last_field
last_field_lem {A} width z s f h =
    let after : Option (ℤ × List ℕ) → Option A =
      λ r. elim r [ none ↦ none | some (n, t) ↦ some (f n) ] in
    ap after (scan_int-format_int width z s h)

scan_six-server_text :
    (t : DateTime) (rest : List ℕ)
    → ends_number rest ≡ true
    → scan_six (server_text t rest) ≡ some t
unfolding scan_six ends_number
scan_six-server_text t rest h =
    field_lem 58 2 t.hour _ _ refl
    ∙ field_lem 58 2 t.minute _ _ refl
    ∙ field_lem 95 2 t.second _ _ refl
    ∙ field_lem 58 2 t.day _ _ refl
    ∙ field_lem 58 2 t.month _ _ refl
    ∙ last_field_lem 4 t.year rest _ h

-- The text of a time is read back as that time, whatever the fields are and whatever follows that
-- does not begin with a digit.
pub parse_server_time-server_text :
    (t out : DateTime) (rest : List ℕ)
    → ends_number rest ≡ true
    → parse_server_time (server_text t rest) out ≡ (true, t)
unfolding parse_server_time ends_number
parse_server_time-server_text t out rest h =
    ap (λ r. elim r [ none ↦ (false, out) | some u ↦ (true, u) ]) (scan_six-server_text t rest h)
