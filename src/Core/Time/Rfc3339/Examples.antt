-- ===== src/Core/Time/Rfc3339/Examples.antt =====
-- Moments of crates/ls-core/src/time.rs, printed and read.
use localsecrets.Common.{◌≡◌, refl, none, some, codes}
use localsecrets.Common.Int.{pos, negsuc, ◌+ℤ◌, ◌-ℤ◌, ◌*ℤ◌}
use localsecrets.Core.Time.{from_unix}
use localsecrets.Core.Time.Civil.{
  civil_from_days, div_euclid, rem_euclid, era_of, within_era, days_in_month,
}
use localsecrets.Core.Time.Rfc3339.{rfc3339, to_rfc3339, parse_rfc3339}
use localsecrets.Core.Time.Rfc3339.Moments.{parse_rfc3339-to_rfc3339}

leap_day : to_rfc3339 (pos 951868799) ≡ codes "2000-02-29T23:59:59Z"
unfolding to_rfc3339 rfc3339 civil_from_days div_euclid rem_euclid within_era era_of ◌+ℤ◌ ◌-ℤ◌ ◌*ℤ◌
leap_day = refl

before_epoch : to_rfc3339 (negsuc 0) ≡ codes "1969-12-31T23:59:59Z"
unfolding to_rfc3339 rfc3339 civil_from_days div_euclid rem_euclid within_era era_of ◌+ℤ◌ ◌-ℤ◌ ◌*ℤ◌
before_epoch = refl

no_such_day : parse_rfc3339 (codes "2001-02-29T00:00:00Z") ≡ none
unfolding parse_rfc3339 days_in_month
no_such_day = refl

parse_rfc3339-to_rfc3339_example :
    parse_rfc3339 (to_rfc3339 (from_unix (negsuc 62167219199)))
    ≡ some (from_unix (negsuc 62167219199))
parse_rfc3339-to_rfc3339_example = parse_rfc3339-to_rfc3339 (negsuc 62167219199)
