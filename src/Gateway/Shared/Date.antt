-- ===== src/Gateway/Shared/Date.antt =====
-- internal/gateway/counter_redis.go: how times and sequence numbers are written, that is, what the
-- source uses of `time.Format` and `strconv.FormatUint`.
use axigate_finops.Prelude.{
  ℕ, zero, suc, ◌+◌, ◌-◌, ◌*◌, ◌/◌, ◌%◌, [], ◌∷◌, ◌++◌, Bytes, str, leb, ltb, if◌then◌else◌,
}
use axigate_finops.Gateway.Control.State.{day_of}

abbrev pub two_digits : ℕ → Bytes
two_digits n = (48 + n / 10 % 10) ∷ (48 + n % 10) ∷ []

abbrev pub four_digits : ℕ → Bytes
four_digits n = two_digits (n / 100) ++ two_digits n

-- The date of the Gregorian calendar that a number of days since the start of year 1 comes to:
-- the year, which is counted from March, the month of it and the day of the month.
abbrev year_of_era : ℕ → ℕ
year_of_era doe = (doe - doe / 1460 + doe / 36524 - doe / 146096) / 365

abbrev day_of_year : ℕ → ℕ
day_of_year doe = let yoe = year_of_era doe in doe - (365 * yoe + yoe / 4 - yoe / 100)

abbrev march_month : ℕ → ℕ
march_month doy = (5 * doy + 2) / 153

unfoldable pub civil_date : ℕ → ℕ × ℕ × ℕ
civil_date days =
    let z = days + 306 in
    let doe = z % 146097 in
    let doy = day_of_year doe in
    let mp = march_month doy in
    let month = if ltb mp 10 then mp + 3 else mp - 9 in
    let year = z / 146097 * 400 + year_of_era doe in
    (if leb month 2 then year + 1 else year, month, doy - (153 * mp + 2) / 5 + 1)

-- The layout "2006-01-02" of the UTC day of a time.
unfoldable pub today_text : ℕ → Bytes
today_text now =
    let (year, month, day) = civil_date (day_of now) in
    four_digits year ++ str "-" ++ two_digits month ++ str "-" ++ two_digits day

-- The layout "20060102".
unfoldable pub compact_date : ℕ → Bytes
compact_date now =
    let (year, month, day) = civil_date (day_of now) in
    four_digits year ++ two_digits month ++ two_digits day

abbrev digit_36 : ℕ → ℕ
digit_36 n = if ltb n 10 then 48 + n else 87 + n

abbrev base36_fuel : ℕ → ℕ → Bytes → Bytes
base36_fuel zero n acc = acc
base36_fuel (suc f) n acc =
    let more = base36_fuel f (n / 36) (digit_36 (n % 36) ∷ acc) in
    if ltb n 36 then digit_36 n ∷ acc else more

-- `strconv.FormatUint(n, 36)`
unfoldable pub base36 : ℕ → Bytes
base36 n = base36_fuel (n + 1) n []
