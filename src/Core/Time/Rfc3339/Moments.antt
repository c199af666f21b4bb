-- ===== src/Core/Time/Rfc3339/Moments.antt =====
-- Every moment of crates/ls-core/src/time.rs that can be built, printed and read back. Days are
-- counted from the era before the first, so that they are numbers.
use localsecrets.Common.{
  ℕ, ◌+◌, ◌-◌, ◌*◌, ◌/◌, ◌%◌, ◌<◌, ◌≤◌, ◌≡◌, ◌⊎◌, inl, inr, refl, ◌∙◌, ap, sym, subst, Bool, true,
  false, some, Bool-cases, ltb, leb, ltb→lt, arith, if◌then◌else◌, ◌≢◌,
}
use localsecrets.Common.Int.{ℤ, pos, sub_ℕ, pos_part, neg_part, ◌+ℤ◌, ◌*ℤ◌}
use localsecrets.Core.Time.{from_unix}
use localsecrets.Core.Time.Civil.{
  civil_from_days, days_in_month, div_euclid, rem_euclid, year_of_era, days_before, shifted_month,
  month_of, is_leap_year,
}
use localsecrets.Core.Time.Era.{
  year_of_era_bounds, last_of_year, last_days, early_months, month_bounds, day_of, day_bounds,
  last_day, year_number, civil_from_days_lem, days_from_civil_lem,
}
use localsecrets.Core.Time.Rfc3339.{to_rfc3339, parse_rfc3339, rfc3339}
use localsecrets.Core.Time.Rfc3339.Laws.{parse-rfc3339}

abbrev IsDay : ℕ → Type 0
IsDay z = (146037 ≤ z) × (z ≤ 3798461)

late_months : (d : ℕ) → d ≤ 305 → leb (month_of (shifted_month d)) 2 ≡ false
late_months d h = ground arith

month_flag : Bool → ℕ
month_flag b = if b then 1 else 0

-- The year and the day of the year of a day in range.
record YearDay (z y e d : ℕ) : Type 0 where
  era : e ≡ z / 146097
  year : y ≡ year_of_era (z % 146097)
  in_era : y < 400
  in_year : d ≤ 365
  whole : days_before y + d ≡ z % 146097

year_day :
    (z : ℕ)
    → let y : ℕ = year_of_era (z % 146097) in YearDay z y (z / 146097) (z % 146097 - days_before y)
year_day z =
    let (a, b, c) = year_of_era_bounds (z % 146097) (omega arith) in
    record { era = refl; year = refl; in_era = a; in_year = omega arith; whole = omega arith }

year_low : (z y e d : ℕ) → YearDay z y e d → 146037 ≤ z → 400 ≤ year_number y e d
year_low z y e d f h = elim (Bool-cases (ltb z 146097)) [
  | inl early ↦
      let small : z < 146097 = ltb→lt z 146097 early in
      let whole : z % 146097 ≡ z = omega arith in
      let last : y ≡ 399 = f.year ∙ ap year_of_era whole ∙ last_days z h small in
      let late : 306 ≤ d = omega (arith, ap days_before last, f.whole) in
      rw (early_months d late f.in_year) (omega (arith, f.era))
  | inr later ↦ let one : 1 ≤ e = ground (arith, f.era) in omega arith
]

year_high : (z y e d : ℕ) → YearDay z y e d → z ≤ 3798461 → year_number y e d < 10400
year_high z y e d f h = elim (Bool-cases (ltb 305 d)) [
  | inl late ↦
      let after : 306 ≤ d = ground arith in
      rw (early_months d after f.in_year) (omega (arith, f.era, f.whole, f.in_era))
  | inr early ↦ rw (late_months d (ground arith)) (omega (arith, f.era, f.in_era))
]

-- The 366th day of a year is the 29th of February of a leap year.
leap_of :
    (y e : ℕ)
    → (y + 1) % 4 ≡ 0
    → ((y + 1) % 100 ≢ 0) ⊎ (y ≡ 399)
    → 400 ≤ y + e * 400 + 1
    → is_leap_year (y + e * 400 + 1 - 400) ≡ true
unfolding is_leap_year
leap_of y e h k low = ground arith

day_366 :
    (z y e : ℕ)
    → YearDay z y e 365
    → 400 ≤ year_number y e 365
    → is_leap_year (year_number y e 365 - 400) ≡ true
day_366 z y e f low =
    let doe = z % 146097 in
    let last = last_of_year doe (omega arith) (omega (arith, f.whole, ap days_before f.year)) in
    leap_of y e (rw f.year last.0) (rw f.year last.1) low

abbrev DayFits : ℕ → ℕ → ℕ → Type 0
DayFits y e d =
    (1 ≤ day_of d)
    × (day_of d ≤ days_in_month (year_number y e d - 400) (month_of (shifted_month d)))

last_fits : (z y e : ℕ) → YearDay z y e 365 → 400 ≤ year_number y e 365 → DayFits y e 365
last_fits z y e f low =
    let leap = day_366 z y e f low in
    (omega arith, omega (arith, last_day (year_number y e 365 - 400) leap))

day_fits :
    (z y e d : ℕ)
    → YearDay z y e d
    → 400 ≤ year_number y e d
    → (1 ≤ day_of d)
      × (day_of d ≤ days_in_month (year_number y e d - 400) (month_of (shifted_month d)))
day_fits z y e d f low = elim (Bool-cases (ltb d 365)) [
  | inl before ↦ day_bounds d (year_number y e d - 400) (ground arith)
  | inr at_end ↦
      let last : d ≡ 365 = ground (arith, f.in_year) in
      subst (λ (k : ℕ). YearDay z y e k → 400 ≤ year_number y e k → DayFits y e k) (sym last)
        (last_fits z y e) f low
]

divided : (t : ℕ) → div_euclid (sub_ℕ t 74784816000) 86400 ≡ sub_ℕ (t / 86400) 865565
unfolding div_euclid
divided t = ground arith

remaining : (t : ℕ) → rem_euclid (sub_ℕ t 74784816000) 86400 ≡ t % 86400
unfolding rem_euclid
remaining t = ground arith

rejoined : (t : ℕ) → sub_ℕ (t / 86400) 865565 *ℤ pos 86400 +ℤ pos (t % 86400) ≡ sub_ℕ t 74784816000
unfolding ◌+ℤ◌ ◌*ℤ◌
rejoined t = ground arith

-- A moment in range, as seconds from the era before the first.
abbrev seconds_of : ℤ → ℕ
seconds_of t = pos_part t + 74784816000 - neg_part t

total_days : (z y e d : ℕ) → YearDay z y e d → e * 146097 + (y * 365 + y / 4 - y / 100 + d) ≡ z
total_days z y e d f = omega (arith, f.era, f.whole)

on_day :
    (z y e d s : ℕ)
    → YearDay z y e d
    → IsDay z
    → s < 86400
    → parse_rfc3339
        (rfc3339 (pos (year_number y e d - 400), month_of (shifted_month d), day_of d) s)
      ≡ some (sub_ℕ z 865565 *ℤ pos 86400 +ℤ pos s)
on_day z y e d s f h hs =
    let low = year_low z y e d f h.0 in
    let high = year_high z y e d f h.1 in
    let months = month_bounds d f.in_year in
    let fits = day_fits z y e d f low in
    parse-rfc3339 (year_number y e d - 400) (month_of (shifted_month d)) (day_of d) s (omega arith)
      months.0 months.1 fits.0 fits.1 hs
    ∙ rw (days_from_civil_lem y e d f.in_era f.in_year low, total_days z y e d f)

reads_day :
    (z s : ℕ)
    → IsDay z
    → s < 86400
    → parse_rfc3339 (rfc3339 (civil_from_days (sub_ℕ z 865565)) s)
      ≡ some (sub_ℕ z 865565 *ℤ pos 86400 +ℤ pos s)
reads_day z s h hs =
    let y : ℕ = year_of_era (z % 146097) in
    let f = year_day z in
    rw (civil_from_days_lem z (year_low z y (z / 146097) (z % 146097 - days_before y) f h.0))
      (on_day z y (z / 146097) (z % 146097 - days_before y) s f h hs)

reads_back :
    (t : ℕ)
    → IsDay (t / 86400)
    → parse_rfc3339 (to_rfc3339 (sub_ℕ t 74784816000)) ≡ some (sub_ℕ t 74784816000)
unfolding to_rfc3339
reads_back t h =
    rw (divided t, remaining t) (reads_day (t / 86400) (t % 86400) h (omega arith))
    ∙ ap some (rejoined t)

from_unix_range :
    (x : ℤ) → (neg_part (from_unix x) ≤ 62167219200) × (pos_part (from_unix x) ≤ 253402300799)
unfolding from_unix
from_unix_range x = ground arith

in_numbers : (t : ℤ) → neg_part t ≤ 62167219200 → sub_ℕ (seconds_of t) 74784816000 ≡ t
in_numbers t h = ground arith

-- Printing is undone by parsing, for every moment that `from_unix` builds.
pub parse_rfc3339-to_rfc3339 :
    (seconds : ℤ) → parse_rfc3339 (to_rfc3339 (from_unix seconds)) ≡ some (from_unix seconds)
parse_rfc3339-to_rfc3339 seconds =
    let t = from_unix seconds in
    let range = from_unix_range seconds in
    subst (λ (x : ℤ). parse_rfc3339 (to_rfc3339 x) ≡ some x) (in_numbers t range.0)
      (reads_back (seconds_of t) (omega arith, omega arith))
