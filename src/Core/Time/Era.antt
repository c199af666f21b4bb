-- ===== src/Core/Time/Era.antt =====
-- The days of an era of 400 years in crates/ls-core/src/time.rs, counted from a March first.
use localsecrets.Common.{
  true, false, ℕ, ◌+◌, ◌-◌, ◌*◌, ◌/◌, ◌%◌, ◌≤◌, ◌<◌, ◌≡◌, arith, if◌then◌else◌, ltb, leb, true, ◌≢◌,
  Bool, ◌⊎◌,
}
use localsecrets.Common.Int.{pos, sub_ℕ, ◌+ℤ◌, ◌-ℤ◌, ◌*ℤ◌}
use localsecrets.Core.Time.Civil.{
  div_trunc, era_of, within_era, year_of_era, days_before, shifted_month, month_of, civil_from_days,
  days_from_civil, is_leap_year, days_in_month,
}

-- A count of `n`, less one era: its era is one less too, and what is left behind it is the same.
era_400 : (n : ℕ) → era_of (sub_ℕ n 400) 400 ≡ sub_ℕ (n / 400) 1
unfolding era_of div_trunc ◌-ℤ◌
era_400 n = ground arith

within_400 : (n : ℕ) → within_era (sub_ℕ n 400) 400 ≡ n % 400
unfolding within_era era_of div_trunc ◌-ℤ◌ ◌*ℤ◌
within_400 n = ground arith

era_days : (n : ℕ) → era_of (sub_ℕ n 146097) 146097 ≡ sub_ℕ (n / 146097) 1
unfolding era_of div_trunc ◌-ℤ◌
era_days n = ground arith

within_days : (n : ℕ) → within_era (sub_ℕ n 146097) 146097 ≡ n % 146097
unfolding within_era era_of div_trunc ◌-ℤ◌ ◌*ℤ◌
within_days n = ground arith

-- A day of an era lies in one of its years, and is the 366th only of a leap year.
pub year_of_era_bounds :
    (doe : ℕ)
    → doe < 146097
    → (year_of_era doe < 400)
      × (days_before (year_of_era doe) ≤ doe)
      × (doe ≤ days_before (year_of_era doe) + 365)
year_of_era_bounds doe h = (omega arith, omega arith, omega arith)

pub last_of_year :
    (doe : ℕ)
    → doe < 146097
    → doe ≡ days_before (year_of_era doe) + 365
    → ((year_of_era doe + 1) % 4 ≡ 0)
      × (((year_of_era doe + 1) % 100 ≢ 0) ⊎ (year_of_era doe ≡ 399))
last_of_year doe h e = (omega arith, omega arith)

-- The last days of an era are January and February.
pub last_days : (doe : ℕ) → 146037 ≤ doe → doe < 146097 → year_of_era doe ≡ 399
last_days doe h k = omega arith

pub early_months : (d : ℕ) → 306 ≤ d → d ≤ 365 → leb (month_of (shifted_month d)) 2 ≡ true
early_months d h k = ground arith

pub month_bounds :
    (d : ℕ) → d ≤ 365 → (1 ≤ month_of (shifted_month d)) × (month_of (shifted_month d) ≤ 12)
month_bounds d h = ground arith

abbrev pub day_of : ℕ → ℕ
day_of d = d - (153 * shifted_month d + 2) / 5 + 1

-- The lengths of the months are those of `days_in_month`.
pub day_bounds :
    (d y : ℕ) → d ≤ 364 → (1 ≤ day_of d) × (day_of d ≤ days_in_month y (month_of (shifted_month d)))
unfolding days_in_month
day_bounds d y h = ground arith

pub last_day : (y : ℕ) → is_leap_year y ≡ true → days_in_month y 2 ≡ 29
unfolding days_in_month
last_day y h = rw h

-- The month and the day of the month say which day of the year it is.
month_back :
    (d : ℕ)
    → d ≤ 365
    → (153
              * (if ltb 2 (month_of (shifted_month d))
                  then month_of (shifted_month d) - 3
                  else month_of (shifted_month d) + 9)
            + 2)
          / 5
        + day_of d
        - 1
      ≡ d
month_back d h = ground arith

-- The year of a day, from the era before the first: its January and February are of the next one.
abbrev pub year_number : ℕ → ℕ → ℕ → ℕ
year_number y e d = y + e * 400 + (if leb (month_of (shifted_month d)) 2 then 1 else 0)

shifted_year :
    (y e : ℕ) (early : Bool)
    → 400 ≤ y + e * 400 + (if early then 1 else 0)
    → (if early
        then pos (y + e * 400 + (if early then 1 else 0) - 400) -ℤ pos 1
        else pos (y + e * 400 + (if early then 1 else 0) - 400))
      ≡ sub_ℕ (y + e * 400) 400
unfolding ◌-ℤ◌
shifted_year y e true h = ground arith
shifted_year y e false h = ground arith

days_total :
    (e doe : ℕ) → sub_ℕ e 1 *ℤ pos 146097 +ℤ pos doe -ℤ pos 719468 ≡ sub_ℕ (e * 146097 + doe) 865565
unfolding ◌+ℤ◌ ◌-ℤ◌ ◌*ℤ◌
days_total e doe = ground arith

rest_of : (y e : ℕ) → y < 400 → ((y + e * 400) % 400 ≡ y) × ((y + e * 400) / 400 ≡ e)
rest_of y e h = (omega arith, omega arith)

-- `days_from_civil` counts back to the day.
pub days_from_civil_lem :
    (y e d : ℕ)
    → y < 400
    → d ≤ 365
    → 400 ≤ year_number y e d
    → days_from_civil (pos (year_number y e d - 400)) (month_of (shifted_month d)) (day_of d)
      ≡ sub_ℕ (e * 146097 + (y * 365 + y / 4 - y / 100 + d)) 865565
unfolding days_from_civil
days_from_civil_lem y e d hy hd h =
    rw
      (
        shifted_year y e (leb (month_of (shifted_month d)) 2) h,
        within_400 (y + e * 400),
        era_400 (y + e * 400),
        (rest_of y e hy).0,
        (rest_of y e hy).1,
        month_back d hd,
      )
      (days_total e (y * 365 + y / 4 - y / 100 + d))

shift_days : (z : ℕ) → sub_ℕ z 865565 +ℤ pos 719468 ≡ sub_ℕ z 146097
unfolding ◌+ℤ◌
shift_days z = ground arith

year_shifted :
    (y e b : ℕ)
    → 400 ≤ y + e * 400 + b
    → pos y +ℤ sub_ℕ e 1 *ℤ pos 400 +ℤ pos b ≡ pos (y + e * 400 + b - 400)
unfolding ◌+ℤ◌ ◌*ℤ◌
year_shifted y e b h = ground arith

-- The day `z`, counted from the era before the first, is day `d` of the year `y` of its era.
pub civil_from_days_lem :
    (z : ℕ)
    → let y : ℕ = year_of_era (z % 146097) in
      let d : ℕ = z % 146097 - days_before y in
      400 ≤ year_number y (z / 146097) d
      → civil_from_days (sub_ℕ z 865565)
        ≡ (pos (year_number y (z / 146097) d - 400), month_of (shifted_month d), day_of d)
unfolding civil_from_days
civil_from_days_lem z h =
    let y : ℕ = year_of_era (z % 146097) in
    let d : ℕ = z % 146097 - days_before y in
    rw (
      shift_days z,
      within_days z,
      era_days z,
      year_shifted y (z / 146097) (if leb (month_of (shifted_month d)) 2 then 1 else 0) h,
    )
