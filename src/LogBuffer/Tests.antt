-- ===== src/LogBuffer/Tests.antt =====
-- The session log at concrete inputs.
use hydro_logger.Prelude.{◌≡◌, refl, [], ◌∷◌, ◌++◌, take, replicate, arith}
use hydro_logger.Prelude.Bytes.{codes}
use hydro_logger.LogBuffer.{LogBuffer, new_log, appendf}
use hydro_logger.LogBuffer.Append.{IsLog, appendf_fits, appendf_cuts}

appendf_fits_example :
    IsLog (appendf (codes "boot") new_log)
    × ((appendf (codes "boot") new_log).len ≡ 4)
    × (take (appendf (codes "boot") new_log).len (appendf (codes "boot") new_log).buf
        ≡ codes "boot")
appendf_fits_example =
    appendf_fits (codes "boot") new_log (record { size = refl; len_le = omega arith }) (omega arith)

-- Three characters are left, and the zero.
abbrev nearly_full : LogBuffer
nearly_full = record { buf = replicate 1019 97 ++ replicate 5 0; len = 1019 }

appendf_cuts_example :
    let l = appendf (codes "abcdef") nearly_full in
    IsLog l
    × (l.len ≡ 1023)
    × (take l.len l.buf ≡ take 1019 nearly_full.buf ++ (codes "abc" ++ (0 ∷ [])))
appendf_cuts_example =
    appendf_cuts (codes "abcdef") nearly_full (record { size = refl; len_le = omega arith })
      (omega arith) (omega arith)
