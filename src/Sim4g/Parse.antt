-- ===== src/Sim4g/Parse.antt =====
-- What sim4g_module.cpp reads out of the modem's answers: the functions at its top, and the body of
-- an answer to AT+HTTPREAD. A text is a `std::string`, or the C string of one where the code says
-- `c_str()`.
pub mod Body
use hydro_logger.Prelude.{
  ℕ, zero, suc, ◌+◌, ◌-◌, ℤ, pos, negsuc, Bool, true, false, not, ◌&&◌, ◌||◌, Option, none, some,
  List, [], ◌∷◌, ◌++◌, length, take, drop, get_or, ltb, leb, ◌==◌, if◌then◌else◌,
}
use hydro_logger.Prelude.Int.{leb_ℤ, ltb_ℤ}
use hydro_logger.Prelude.Bytes.{codes}
use hydro_logger.Prelude.Decimal.{is_digit, scan_int, skip_spaces}
use hydro_logger.Models.{c_str}
use hydro_logger.Nvs.{ApnProfile, viettel, vinaphone}

-- A text begins with another.
unfoldable pub starts_with : List ℕ → List ℕ → Bool
starts_with [] s = true
starts_with (c ∷ t) [] = false
starts_with (c ∷ t) (d ∷ s) = let rest = starts_with t s in if c == d then rest else false

-- `strstr`, and `std::string::find` where only what follows counts: the text from the first place on.
unfoldable pub find_from : List ℕ → List ℕ → Option (List ℕ)
unfolding starts_with
find_from t [] = if starts_with t [] then some [] else none
find_from t (c ∷ s) =
    let rest = find_from t s in if starts_with t (c ∷ s) then some (c ∷ s) else rest

unfoldable pub contains_text : List ℕ → List ℕ → Bool
unfolding find_from
contains_text t s = elim (find_from t s) [ none ↦ false | some _ ↦ true ]

-- `isalpha` of the C locale
abbrev pub is_alpha : ℕ → Bool
is_alpha c = (leb 65 c && leb c 90) || (leb 97 c && leb c 122)

-- No letter stands at the front.
abbrev pub no_letter : List ℕ → Bool
no_letter [] = true
no_letter (c ∷ s) = not (is_alpha c)

-- The search for a standalone ERROR; `front_ok` says that no letter stands before this place.
unfoldable pub standalone_error : Bool → List ℕ → Bool
unfolding starts_with
standalone_error front_ok [] = false
standalone_error front_ok (c ∷ s) =
    let rest = standalone_error (not (is_alpha c)) s in
    if starts_with (codes "ERROR") (c ∷ s) && front_ok && no_letter (drop 4 s) then true else rest

unfoldable pub is_at_error : List ℕ → Bool
unfolding contains_text standalone_error
is_at_error s =
    contains_text (codes "+CME ERROR") s
    || contains_text (codes "+CMS ERROR") s
    || standalone_error true s

-- `strchr(p, ':')`: the text behind the first colon.
abbrev pub after_colon : List ℕ → Option (List ℕ)
after_colon [] = none
after_colon (c ∷ s) = if c == 58 then some s else after_colon s

abbrev pub comma : List ℕ → Option (List ℕ)
comma [] = none
comma (c ∷ s) = if c == 44 then some s else none

-- `%d,` and the rest of a format.
unfoldable pub number_comma : {A : Type 0} → (ℤ → List ℕ → Option A) → List ℕ → Option A
number_comma rest s = elim (scan_int s) [
  | none ↦ none
  | some (n, t) ↦ elim (comma t) [ none ↦ none | some u ↦ rest n u ]
]

unfoldable pub last_number : {A : Type 0} → (ℤ → A) → List ℕ → Option A
last_number f s = elim (scan_int s) [ none ↦ none | some (n, t) ↦ some (f n) ]

abbrev pub or_else : {A : Type 0} → Option A → Option A → Option A
or_else none y = y
or_else (some a) y = some a

-- `parseCeregStat`: the second of two numbers.
unfoldable pub parse_cereg_stat : List ℕ → Option ℤ
unfolding find_from number_comma last_number
parse_cereg_stat line =
    elim (or_else (find_from (codes "+CEREG:") (c_str line))
      (find_from (codes "+CREG:") (c_str line))) [
        | none ↦ none
        | some p ↦ elim (after_colon p) [
          | none ↦ none
          | some q ↦ number_comma (λ n. last_number (λ s. s)) q
        ]
      ]

unfoldable pub parse_csq_rssi : List ℕ → Option ℤ
unfolding find_from last_number
parse_csq_rssi line = elim (find_from (codes "+CSQ:") (c_str line)) [
  | none ↦ none
  | some p ↦ last_number (λ n. n) (drop 5 p)
]

abbrev pub is_int : ℤ → ℕ → Bool
is_int z n = leb_ℤ z (pos n) && leb_ℤ (pos n) z

abbrev pub reg_stat_str : ℤ → List ℕ
reg_stat_str stat =
    if is_int stat 0
    then codes "not_registered"
    else if is_int stat 1
    then codes "HOME"
    else if is_int stat 2
    then codes "searching"
    else if is_int stat 3
    then codes "DENIED"
    else if is_int stat 5
    then codes "ROAMING"
    else codes "unknown"

pub record HttpActionResult : Type 0 where
  pub method : ℤ
  pub status : ℤ
  pub body_len : ℤ

abbrev pub is_2xx : ℤ → Bool
is_2xx status = leb_ℤ (pos 200) status && ltb_ℤ status (pos 300)

-- Both formats of `parseHttpActionLine` scan the same: a space of a format matches any spaces, none
-- too, and `%d` skips spaces by itself.
unfoldable pub parse_http_action_line : List ℕ → Option HttpActionResult
unfolding find_from number_comma last_number
parse_http_action_line line = elim (find_from (codes "+HTTPACTION:") (c_str line)) [
  | none ↦ none
  | some p ↦
      number_comma
        (λ m.
          number_comma (λ s. last_number (λ n. record { method = m; status = s; body_len = n })))
        (drop 12 p)
]

pub record MccMncEntry : Type 0 where
  pub prefix : List ℕ
  pub carrier : List ℕ
  pub apn : ApnProfile

abbrev pub vn_carriers : List MccMncEntry
vn_carriers =
    record { prefix = codes "45204"; carrier = codes "Viettel"; apn = viettel }
    ∷ record { prefix = codes "45206"; carrier = codes "Viettel"; apn = viettel }
    ∷ record { prefix = codes "45202"; carrier = codes "VinaPhone"; apn = vinaphone }
    ∷ record { prefix = codes "45201"; carrier = codes "MobiFone"; apn = vinaphone }
    ∷ []

abbrev pub find_entry : List ℕ → List MccMncEntry → Option MccMncEntry
find_entry digits [] = none
find_entry digits (e ∷ es) = if starts_with e.prefix digits then some e else find_entry digits es

-- `matchMccMnc`: `strncmp` over five bytes with a prefix of five.
unfoldable pub match_mcc_mnc : List ℕ → Option MccMncEntry
unfolding starts_with
match_mcc_mnc digits = find_entry (c_str digits) vn_carriers

-- The text up to a quotation mark, if there is one.
unfoldable pub until_quote : List ℕ → Option (List ℕ)
until_quote [] = none
until_quote (c ∷ s) =
    let rest = until_quote s in
    if c == 34 then some [] else elim rest [ none ↦ none | some t ↦ some (c ∷ t) ]

-- The text behind the first quotation mark.
unfoldable pub after_quote : List ℕ → Option (List ℕ)
after_quote [] = none
after_quote (c ∷ s) = let rest = after_quote s in if c == 34 then some s else rest

abbrev pub is_numeric : List ℕ → Bool
is_numeric oper = leb 5 (length oper) && is_digit (get_or oper 0 0)

unfoldable pub parse_cops_mcc_mnc : List ℕ → Option (List ℕ)
unfolding until_quote after_quote
parse_cops_mcc_mnc response = elim (after_quote response) [
  | none ↦ none
  | some s ↦ elim (until_quote s) [
    | none ↦ none
    | some oper ↦ if is_numeric oper then some oper else none
  ]
]

-- `rfind("OK")`: what stands in front of the last OK.
unfoldable pub before_last_ok : List ℕ → Option (List ℕ)
unfolding starts_with
before_last_ok [] = none
before_last_ok (c ∷ s) = elim (before_last_ok s) [
  | some t ↦ some (c ∷ t)
  | none ↦ if starts_with (codes "OK") (c ∷ s) then some [] else none
]

-- The text behind the first line end.
unfoldable pub after_line_end : List ℕ → Option (List ℕ)
after_line_end [] = none
after_line_end (c ∷ s) = let rest = after_line_end s in if c == 10 then some s else rest

abbrev pub is_trimmed : ℕ → Bool
is_trimmed c = c == 13 || c == 10 || c == 32

abbrev pub put_trimmed : ℕ → List ℕ → List ℕ
put_trimmed c [] = if is_trimmed c then [] else c ∷ []
put_trimmed c (d ∷ t) = c ∷ d ∷ t

-- The loop that takes line ends and spaces off the end.
unfoldable pub trim_end : List ℕ → List ℕ
trim_end [] = []
trim_end (c ∷ s) = put_trimmed c (trim_end s)

abbrev pub unless_empty : List ℕ → Option (List ℕ) → List ℕ
unless_empty s none = s
unless_empty s (some []) = s
unless_empty s (some (c ∷ t)) = c ∷ t

-- What is kept of the text behind the header line.
unfoldable pub body_behind : Option (List ℕ) → List ℕ
unfolding before_last_ok trim_end
body_behind none = []
body_behind (some s) = trim_end (unless_empty s (before_last_ok s))

unfoldable pub body_from : Option (List ℕ) → List ℕ
unfolding after_line_end
body_from none = []
body_from (some p) = body_behind (after_line_end p)

-- The body between the header line of AT+HTTPREAD and the last OK; without an OK behind a part of it,
-- all that follows the header line.
unfoldable pub http_body : List ℕ → List ℕ
unfolding find_from
http_body raw = body_from (find_from (codes "+HTTPREAD:") raw)
