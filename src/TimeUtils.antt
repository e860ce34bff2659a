-- ===== src/TimeUtils.antt =====
-- main/common/time_utils.hpp and time_utils.cpp: the schedule and the server's time text.
pub mod Schedule
pub mod ServerTime
mod Tests
use hydro_logger.Prelude.{
  ℕ, ℤ, pos, List, [], ◌∷◌, Bool, true, false, Option, none, some, ◌==◌, if◌then◌else◌, ltb,
}
use hydro_logger.Prelude.Int.{ltb_ℤ, leb_ℤ, pos_part, neg_part}
use hydro_logger.Prelude.Bytes.{codes}
use hydro_logger.Prelude.Decimal.{scan_int}
use hydro_logger.Models.{DateTime}

-- `cfg::kScheduleMinutes`
abbrev pub schedule_minutes : List ℤ
schedule_minutes = pos 0 ∷ pos 10 ∷ pos 20 ∷ pos 30 ∷ pos 40 ∷ pos 50 ∷ []

abbrev pub eq_ℤ : ℤ → ℤ → Bool
eq_ℤ a b = if leb_ℤ a b then leb_ℤ b a else false

-- The loop of `isScheduledMinute`.
abbrev pub contains : ℤ → List ℤ → Bool
contains minute [] = false
contains minute (m ∷ rest) = if eq_ℤ m minute then true else contains minute rest

unfoldable pub is_scheduled_minute : ℤ → Bool
is_scheduled_minute minute = contains minute schedule_minutes

unfoldable pub is_sync_minute : ℤ → Bool
is_sync_minute minute = eq_ℤ minute (pos 0)

-- The loop of `nextScheduledMinute`, and its fallback.
abbrev pub first_past : ℤ → List ℤ → ℤ → ℤ
first_past current [] fallback = fallback
first_past current (m ∷ rest) fallback =
    if ltb_ℤ current m then m else first_past current rest fallback

unfoldable pub next_scheduled_minute : ℤ → ℤ
next_scheduled_minute current = first_past current schedule_minutes (pos 0)

-- A literal character of an `sscanf` format.
abbrev pub literal : ℕ → List ℕ → Option (List ℕ)
literal c [] = none
literal c (d ∷ s) = if d == c then some s else none

-- `%d` and the literal character behind it, before the rest of an `sscanf` format.
unfoldable pub field : {A : Type 0} → ℕ → (ℤ → List ℕ → Option A) → List ℕ → Option A
field c rest str = elim (scan_int str) [
  | none ↦ none
  | some (n, s) ↦ elim (literal c s) [ none ↦ none | some s' ↦ rest n s' ]
]

unfoldable pub last_field : {A : Type 0} → (ℤ → A) → List ℕ → Option A
last_field f str = elim (scan_int str) [ none ↦ none | some (n, s) ↦ some (f n) ]

-- `sscanf(str, "%d:%d:%d_%d:%d:%d", ...) == 6`: what follows the sixth number is not looked at.
unfoldable pub scan_six : List ℕ → Option DateTime
scan_six = field 58 (λ h. field 58 (λ m. field 95 (λ s. field 58 (λ d. field 58 (λ mon.
    last_field
      (λ y. record { year = y; month = mon; day = d; hour = h; minute = m; second = s }))))))

-- `out` is written only on success.
unfoldable pub parse_server_time : List ℕ → DateTime → Bool × DateTime
unfolding scan_six
parse_server_time str out = elim (scan_six str) [ none ↦ (false, out) | some t ↦ (true, t) ]
