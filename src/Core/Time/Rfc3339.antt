-- ===== src/Core/Time/Rfc3339.antt =====
-- crates/ls-core/src/time.rs: `to_rfc3339` and `parse_rfc3339`.
pub mod Laws
pub mod Moments
mod Examples
use localsecrets.Common.{
  ℕ, zero, suc, ◌+◌, ◌-◌, ◌*◌, ◌/◌, ◌%◌, Bool, true, false, not, ◌&&◌, ◌||◌, Option, none, some,
  List, [], ◌∷◌, ◌++◌, Text, length, get_or, take, drop, decimal, leb, ltb, ◌==◌, if◌then◌else◌,
  ◌>>=◌,
}
use localsecrets.Common.Int.{ℤ, pos, negsuc, ◌+ℤ◌, ◌*ℤ◌}
use localsecrets.Core.Time.{Timestamp}
use localsecrets.Core.Time.Civil.{
  div_euclid, rem_euclid, civil_from_days, days_from_civil, days_in_month,
}

unfoldable pub zeros : ℕ → Text
zeros zero = []
zeros (suc n) = b'0' ∷ zeros n

-- `{n:0width}`; a minus counts as one of the places.
unfoldable pub pad : ℕ → ℕ → Text
unfolding zeros decimal
pad width n = zeros (width - length (decimal n)) ++ decimal n

unfoldable pub pad_int : ℕ → ℤ → Text
unfolding pad
pad_int width (pos n) = pad width n
pad_int width (negsuc n) = b'-' ∷ pad (width - 1) (suc n)

unfoldable pub rfc3339 : ℤ × ℕ × ℕ → ℕ → Text
unfolding pad pad_int
rfc3339 (year, month, day) second =
    pad_int 4 year
    ++ b'-'
      ∷ (pad 2 month
          ++ b'-'
            ∷ (pad 2 day
                ++ b'T'
                  ∷ (pad 2 (second / 3600)
                      ++ b':'
                        ∷ (pad 2 (second % 3600 / 60)
                            ++ b':' ∷ (pad 2 (second % 60) ++ b'Z' ∷ [])))))

unfoldable pub to_rfc3339 : Timestamp → Text
to_rfc3339 t = rfc3339 (civil_from_days (div_euclid t 86400)) (rem_euclid t 86400)

-- `number`, behind the digits that make up `value`.
unfoldable pub number_from : ℕ → Text → Option ℕ
number_from value [] = some value
number_from value (b ∷ bs) =
    let rest = number_from (value * 10 + (b - b'0')) bs in
    if leb b'0' b && leb b b'9' then rest else none

unfoldable pub number : Text → Option ℕ
unfolding number_from
number digits = number_from 0 digits

abbrev pub slice : ℕ → ℕ → Text → Text
slice from to bytes = take (to - from) (drop from bytes)

-- The tests of the six numbers, and the moment that they are.
unfoldable pub moment : ℕ → ℕ → ℕ → ℕ → ℕ → ℕ → Option Timestamp
moment year month day hour minute second =
    if not (leb 1 month && leb month 12) || ltb day 1 || ltb (days_in_month year month) day
    then none
    else if ltb 23 hour || ltb 59 minute || ltb 59 second
    then none
    else some (
        days_from_civil (pos year) month day *ℤ pos 86400
        +ℤ pos (hour * 3600 + minute * 60 + second))

unfoldable pub parse_rfc3339 : Text → Option Timestamp
unfolding number moment
parse_rfc3339 bytes =
    let numbers = do
      year ← number (slice 0 4 bytes)
      month ← number (slice 5 7 bytes)
      day ← number (slice 8 10 bytes)
      hour ← number (slice 11 13 bytes)
      minute ← number (slice 14 16 bytes)
      second ← number (slice 17 19 bytes)
      moment year month day hour minute second
    in let at = λ (i : ℕ). get_or bytes i 0 in
      if not (length bytes == 20)
      then none
      else if not (at 4 == b'-') || not (at 7 == b'-') || not (at 10 == b'T')
      then none
      else if not (at 13 == b':') || not (at 16 == b':') || not (at 19 == b'Z')
      then none
      else numbers
