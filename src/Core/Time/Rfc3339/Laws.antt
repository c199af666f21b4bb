-- ===== src/Core/Time/Rfc3339/Laws.antt =====
-- A moment that `to_rfc3339` of crates/ls-core/src/time.rs prints, `parse_rfc3339` reads back.
use localsecrets.Common.{
  ◌>>=◌, ℕ, ◌+◌, ◌*◌, ◌/◌, ◌%◌, ◌<◌, ◌≤◌, ◌≡◌, refl, true, some, [], ◌∷◌, ◌++◌, Text, bytes_eq,
  bytes_eq_iff, holds_below, holds_below_at, arith, ◌∙◌, ap,
}
use localsecrets.Common.Int.{pos, ◌+ℤ◌, ◌*ℤ◌}
use localsecrets.Core.Time.{pos}
use localsecrets.Core.Time.Civil.{days_from_civil, days_in_month}
use localsecrets.Core.Time.Rfc3339.{
  pad, pad_int, rfc3339, number, number_from, moment, parse_rfc3339, ◌*ℤ◌,
}

two_digits : ℕ → Text
two_digits n = (n / 10 + 48) ∷ (n % 10 + 48) ∷ []

four_digits : ℕ → Text
four_digits n = (n / 1000 + 48) ∷ (n / 100 % 10 + 48) ∷ (n / 10 % 10 + 48) ∷ (n % 10 + 48) ∷ []

table_two : holds_below (λ n. bytes_eq (pad 2 n) (two_digits n)) 100 ≡ true
unfolding holds_below bytes_eq pad two_digits
table_two = refl

table_four : holds_below (λ n. bytes_eq (pad 4 n) (four_digits n)) 10000 ≡ true
unfolding holds_below bytes_eq pad four_digits
table_four = refl

pad_two : (n : ℕ) → n < 100 → pad 2 n ≡ two_digits n
pad_two n h =
    (bytes_eq_iff _ _).0 (holds_below_at (λ m. bytes_eq (pad 2 m) (two_digits m)) 100 n h table_two)

pad_four : (n : ℕ) → n < 10000 → pad 4 n ≡ four_digits n
pad_four n h =
    (bytes_eq_iff _ _).0
      (holds_below_at (λ m. bytes_eq (pad 4 m) (four_digits m)) 10000 n h table_four)

number_two : (n : ℕ) → n < 100 → number (two_digits n) ≡ some n
unfolding number number_from two_digits
number_two n h = ground arith

number_four : (n : ℕ) → n < 10000 → number (four_digits n) ≡ some n
unfolding number number_from four_digits
number_four n h = ground arith

days_in_month_bound : (y m : ℕ) → days_in_month y m ≤ 31
unfolding days_in_month
days_in_month_bound y m = ground arith

-- The tests pass for a date and a time of the day.
moment_lem :
    (y m d s : ℕ)
    → 1 ≤ m
    → m ≤ 12
    → 1 ≤ d
    → d ≤ days_in_month y m
    → s < 86400
    → moment y m d (s / 3600) (s % 3600 / 60) (s % 60)
      ≡ some (days_from_civil (pos y) m d *ℤ pos 86400 +ℤ pos s)
unfolding moment
moment_lem y m d s m1 m12 d1 dm hs =
    let whole : s / 3600 * 3600 + s % 3600 / 60 * 60 + s % 60 ≡ s = omega arith in
    rw whole (ground arith)

parse-digits :
    (y m d h n s : ℕ)
    → y < 10000
    → m < 100
    → d < 100
    → h < 100
    → n < 100
    → s < 100
    → parse_rfc3339 (
        four_digits y
        ++ b'-'
          ∷ (two_digits m
              ++ b'-'
                ∷ (two_digits d
                    ++ b'T'
                      ∷ (two_digits h
                          ++ b':' ∷ (two_digits n ++ b':' ∷ (two_digits s ++ b'Z' ∷ []))))))
      ≡ moment y m d h n s
parse-digits y m d h n s hy hm hd hh hn hs =
    read
    ∙ rw (
      number_four y hy,
      number_two m hm,
      number_two d hd,
      number_two h hh,
      number_two n hn,
      number_two s hs,
    )
  where
    read :
        parse_rfc3339 (
          four_digits y
          ++ b'-'
            ∷ (two_digits m
                ++ b'-'
                  ∷ (two_digits d
                      ++ b'T'
                        ∷ (two_digits h
                            ++ b':' ∷ (two_digits n ++ b':' ∷ (two_digits s ++ b'Z' ∷ []))))))
        ≡ (do
          year ← number (four_digits y)
          month ← number (two_digits m)
          day ← number (two_digits d)
          hour ← number (two_digits h)
          minute ← number (two_digits n)
          second ← number (two_digits s)
          moment year month day hour minute second)
    read = unfold parse_rfc3339 four_digits two_digits in refl

abbrev written : ℕ → ℕ → ℕ → ℕ → ℕ → ℕ → Text
written y m d h n s =
    four_digits y
    ++ b'-'
      ∷ (two_digits m
          ++ b'-'
            ∷ (two_digits d
                ++ b'T'
                  ∷ (two_digits h ++ b':' ∷ (two_digits n ++ b':' ∷ (two_digits s ++ b'Z' ∷ [])))))

printed :
    (y m d s : ℕ)
    → y < 10000
    → m < 100
    → d < 100
    → s < 86400
    → parse_rfc3339 (rfc3339 (pos y, m, d) s)
      ≡ parse_rfc3339 (written y m d (s / 3600) (s % 3600 / 60) (s % 60))
printed y m d s hy hm hd hs = ap parse_rfc3339 same
  where
    same : rfc3339 (pos y, m, d) s ≡ written y m d (s / 3600) (s % 3600 / 60) (s % 60)
    same =
        unfold rfc3339 pad_int in
        rw (
          pad_four y hy,
          pad_two m hm,
          pad_two d hd,
          pad_two (s / 3600) (omega arith),
          pad_two (s % 3600 / 60) (omega arith),
          pad_two (s % 60) (omega arith),
        )

-- A date and a time of the day, printed and read.
pub parse-rfc3339 :
    (y m d s : ℕ)
    → y < 10000
    → 1 ≤ m
    → m ≤ 12
    → 1 ≤ d
    → d ≤ days_in_month y m
    → s < 86400
    → parse_rfc3339 (rfc3339 (pos y, m, d) s)
      ≡ some (days_from_civil (pos y) m d *ℤ pos 86400 +ℤ pos s)
parse-rfc3339 y m d s hy m1 m12 d1 dm hs =
    let short : d < 100 = omega (arith, days_in_month_bound y m) in
    printed y m d s hy (omega arith) short hs
    ∙ parse-digits y m d (s / 3600) (s % 3600 / 60) (s % 60) hy (omega arith) short (omega arith)
        (omega arith) (omega arith)
    ∙ moment_lem y m d s m1 m12 d1 dm hs
