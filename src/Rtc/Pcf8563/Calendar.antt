-- ===== src/Rtc/Pcf8563/Calendar.antt =====
-- The length of a month against the Gregorian calendar.
use hydro_logger.Prelude.{ℕ, ◌%◌, ◌≡◌, ◌≢◌, ◌≤◌, Bool, ◌&&◌, ◌||◌, not, ◌==◌, if◌then◌else◌, arith}
use hydro_logger.Rtc.Pcf8563.{days_in_month}

-- Every fourth year, but of the full centuries only every fourth.
unfoldable pub gregorian_leap : ℕ → Bool
gregorian_leap year = (year % 400 == 0) || ((year % 4 == 0) && not (year % 100 == 0))

-- April, June, September and November have 30 days, February 28 or 29, the others 31.
unfoldable pub gregorian_days : ℕ → ℕ → ℕ
unfolding gregorian_leap
gregorian_days year month =
    if month == 2
    then (if gregorian_leap year then 29 else 28)
    else if (month == 4) || ((month == 6) || ((month == 9) || (month == 11)))
    then 30
    else 31

-- In every year that the driver accepts, but 2100, each month has the length of the Gregorian
-- calendar.
pub days_in_month-gregorian :
    (year month : ℕ)
    → 2000 ≤ year
    → year ≤ 2199
    → year ≢ 2100
    → 1 ≤ month
    → month ≤ 12
    → days_in_month year month ≡ gregorian_days year month
unfolding days_in_month gregorian_days
days_in_month-gregorian year month lo hi not_2100 first last = ground arith
