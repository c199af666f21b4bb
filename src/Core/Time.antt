-- ===== src/Core/Time.antt =====
-- crates/ls-core/src/time.rs: seconds since the Unix epoch, as a signed number.
pub mod Civil
pub mod Era
pub mod Rfc3339
use localsecrets.Common.{◌-◌, ◌^◌, if◌then◌else◌}
use localsecrets.Common.Int.{ℤ, pos, negsuc, ltb_ℤ, ◌+ℤ◌}

-- `Timestamp`: its one field, seconds since the epoch.
abbrev pub Timestamp : Type 0
Timestamp = ℤ

abbrev pub min_unix : ℤ
min_unix = negsuc 62167219199

abbrev pub max_unix : ℤ
max_unix = pos 253402300799

-- `from_unix`, which stays inside the writable range.
unfoldable pub from_unix : ℤ → Timestamp
from_unix seconds =
    if ltb_ℤ seconds min_unix
    then min_unix
    else if ltb_ℤ max_unix seconds
    then max_unix
    else seconds

-- `i64::saturating_add`.
unfoldable pub saturating_add : ℤ → ℤ → ℤ
saturating_add a b =
    let sum = a +ℤ b in
    if ltb_ℤ sum (negsuc (2 ^ 63 - 1))
    then negsuc (2 ^ 63 - 1)
    else if ltb_ℤ (pos (2 ^ 63 - 1)) sum
    then pos (2 ^ 63 - 1)
    else sum

unfoldable pub plus_seconds : Timestamp → ℤ → Timestamp
plus_seconds at seconds = from_unix (saturating_add at seconds)
