-- ===== src/Console/Line.antt =====
-- The line of the console while keys are typed.
use hydro_logger.Prelude.{
  ℕ, ◌+◌, ◌≡◌, ◌≤◌, ◌<◌, ap, sym, ◌∙◌, Bool, true, not, ◌&&◌, ◌||◌, append-nil, List, [], ◌∷◌, ◌++◌,
  All, append_assoc, length, length-append, ◌==◌, arith,
}
use hydro_logger.Nvs.Settings.{Store}
use hydro_logger.Console.{max_line_len, State, without_last, key, keys}

-- A character that is no line end and no backspace.
abbrev pub is_plain : ℕ → Bool
is_plain c = not (c == 13 || c == 10) && not (c == 8 || c == 127)

module _ (store : Store) where
  without_last-shorter : (s : List ℕ) → length (without_last store s) ≤ length s
  without_last-shorter [] = omega arith
  without_last-shorter (c ∷ []) = omega arith
  without_last-shorter (c ∷ d ∷ s) = omega (arith, without_last-shorter (d ∷ s))

  key_bounded :
      (c : ℕ) (s : State store)
      → length s.line ≤ max_line_len
      → length (key store c s).line ≤ max_line_len
  unfolding key
  key_bounded c s h = ground (arith, h, without_last-shorter s.line, length-append s.line (c ∷ []))

  -- Whatever is typed, the line holds 128 characters at most, if it did at first.
  pub keys_bounded :
      (cs : List ℕ) (s : State store)
      → length s.line ≤ max_line_len
      → length (keys store cs s).line ≤ max_line_len
  unfolding keys
  keys_bounded [] s h = h
  keys_bounded (c ∷ cs) s h = keys_bounded cs (key store c s) (key_bounded c s h)

  typed_key :
      (c : ℕ) (line : List ℕ) (f : store.Flash)
      → is_plain c ≡ true
      → length line < max_line_len
      → key store c (record { line = line; flash = f })
        ≡ record { line = line ++ c ∷ []; flash = f }
  unfolding key
  typed_key c line f p h = ground (arith, p, h)

  pub typed :
      (text : List ℕ) (line : List ℕ) (f : store.Flash) (cs : List ℕ)
      → All (λ c. is_plain c ≡ true) text
      → length line + length text ≤ max_line_len
      → keys store (text ++ cs) (record { line = line; flash = f })
        ≡ keys store cs (record { line = line ++ text; flash = f })
  unfolding keys
  typed [] line f cs p h =
      ap (λ t. keys store cs (record { line = t; flash = f })) (sym (append-nil line))
  typed (c ∷ text) line f cs (p, ps) h =
      ap (keys store (text ++ cs)) (typed_key c line f p (omega (arith, h)))
      ∙ (typed text (line ++ c ∷ []) f cs ps (omega (arith, h, length-append line (c ∷ [])))
          ∙ ap (λ t. keys store cs (record { line = t; flash = f }))
              (append_assoc line (c ∷ []) text))
