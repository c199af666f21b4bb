-- ===== src/Core/Time/Civil.antt =====
-- crates/ls-core/src/time.rs: `civil_from_days`, `days_from_civil`, the lengths of the months. A
-- day or a year within an era is never negative, so it is a number from where it is computed.
use localsecrets.Common.{
  ℕ, suc, ◌+◌, ◌-◌, ◌*◌, ◌/◌, ◌%◌, Bool, not, ◌&&◌, ◌||◌, leb, ltb, ◌==◌, if◌then◌else◌,
}
use localsecrets.Common.Int.{ℤ, pos, negsuc, pos_part, sub_ℕ, ltb_ℤ, ◌+ℤ◌, ◌-ℤ◌, ◌*ℤ◌}

-- `i64::div_euclid`, `i64::rem_euclid` and `/` by a positive number.
unfoldable pub div_euclid : ℤ → ℕ → ℤ
div_euclid (pos n) k = pos (n / k)
div_euclid (negsuc n) k = negsuc (n / k)

unfoldable pub rem_euclid : ℤ → ℕ → ℕ
rem_euclid (pos n) k = n % k
rem_euclid (negsuc n) k = k - 1 - n % k

unfoldable pub div_trunc : ℤ → ℕ → ℤ
div_trunc (pos n) k = pos (n / k)
div_trunc (negsuc n) k = sub_ℕ 0 (suc n / k)

-- `if x >= 0 { x } else { x - (k - 1) } / k`.
unfoldable pub era_of : ℤ → ℕ → ℤ
unfolding div_trunc ◌-ℤ◌
era_of x k = div_trunc (if ltb_ℤ x (pos 0) then x -ℤ pos (k - 1) else x) k

-- What is left of `x` behind the era.
unfoldable pub within_era : ℤ → ℕ → ℕ
unfolding era_of ◌-ℤ◌ ◌*ℤ◌
within_era x k = pos_part (x -ℤ era_of x k *ℤ pos k)

abbrev pub year_of_era : ℕ → ℕ
year_of_era doe = (doe - doe / 1460 + doe / 36524 - doe / 146096) / 365

abbrev pub days_before : ℕ → ℕ
days_before yoe = 365 * yoe + yoe / 4 - yoe / 100

abbrev pub shifted_month : ℕ → ℕ
shifted_month doy = (5 * doy + 2) / 153

abbrev pub month_of : ℕ → ℕ
month_of shifted = if ltb shifted 10 then shifted + 3 else shifted - 9

unfoldable pub civil_from_days : ℤ → ℤ × ℕ × ℕ
civil_from_days since_epoch =
    let days = since_epoch +ℤ pos 719468 in
    let doe = within_era days 146097 in
    let doy = doe - days_before (year_of_era doe) in
    let month = month_of (shifted_month doy) in
    let year = pos (year_of_era doe) +ℤ era_of days 146097 *ℤ pos 400 in
    (year +ℤ pos (if leb month 2 then 1 else 0), month, doy - (153 * shifted_month doy + 2) / 5 + 1)

unfoldable pub days_from_civil : ℤ → ℕ → ℕ → ℤ
days_from_civil year month day =
    let shifted_year = if leb month 2 then year -ℤ pos 1 else year in
    let yoe = within_era shifted_year 400 in
    let doy = (153 * (if ltb 2 month then month - 3 else month + 9) + 2) / 5 + day - 1 in
    let doe = yoe * 365 + yoe / 4 - yoe / 100 + doy in
    era_of shifted_year 400 *ℤ pos 146097 +ℤ pos doe -ℤ pos 719468

unfoldable pub is_leap_year : ℕ → Bool
is_leap_year year = year % 4 == 0 && not (year % 100 == 0) || year % 400 == 0

unfoldable pub days_in_month : ℕ → ℕ → ℕ
unfolding is_leap_year
days_in_month year month =
    if month == 2
    then (if is_leap_year year then 29 else 28)
    else if month == 4 || month == 6 || month == 9 || month == 11
    then 30
    else if leb 1 month && leb month 12
    then 31
    else 0
