-- ===== src/Discovery/Calendar.antt =====
-- The part of Python's `datetime` in UTC that database/poc/discovery_execution.py uses, on whole
-- microseconds since 1970. A date before 1970 counts as the first instant of 1970.
use pepeuchiacluster.Prelude.{
  ℕ, ◌+◌, ◌-◌, ◌*◌, ◌/◌, ◌%◌, Bool, ◌&&◌, ◌||◌, not, Option, none, some, [], ◌∷◌, any, leb, ltb,
  ◌==◌, if◌then◌else◌,
}

pub record Date : Type 0 where
  pub year : ℕ
  pub month : ℕ
  pub day : ℕ
  pub hour : ℕ
  pub minute : ℕ
  pub second : ℕ
  pub microsecond : ℕ

abbrev is_leap : ℕ → Bool
is_leap y = y % 4 == 0 && (not (y % 100 == 0) || y % 400 == 0)

abbrev days_in_month : ℕ → ℕ → ℕ
days_in_month y m =
    if m == 2
    then (if is_leap y then 29 else 28)
    else if any (λ k. m == k) (4 ∷ 6 ∷ 9 ∷ 11 ∷ [])
    then 30
    else 31

-- the constructor does not raise `ValueError`
unfoldable pub is_date : Date → Bool
is_date d =
    leb 1 d.year
    && leb d.year 9999
    && leb 1 d.month
    && leb d.month 12
    && leb 1 d.day
    && leb d.day (days_in_month d.year d.month)
    && ltb d.hour 24
    && ltb d.minute 60
    && ltb d.second 60

abbrev checked : Date → Option Date
checked d = if is_date d then some d else none

-- a date, or none for a `ValueError`
unfoldable pub make_date : Date → Option Date
unfolding is_date
make_date d = checked d

-- the days from the first of March of the year 0
unfoldable pub day_number : ℕ → ℕ → ℕ → ℕ
day_number year month day =
    let y = if leb month 2 then year - 1 else year in
    let m = if leb month 2 then month + 9 else month - 3 in
    365 * y + y / 4 - y / 100 + y / 400 + (153 * m + 2) / 5 + day - 1

abbrev epoch : ℕ
epoch = 719468

-- `weekday()`: Monday is 0
unfoldable pub weekday : Date → ℕ
unfolding day_number
weekday d = (day_number d.year d.month d.day + 2) % 7

abbrev pub a_second : ℕ
a_second = 1_000_000

-- `timestamp()`
unfoldable pub timestamp : Date → ℕ
unfolding day_number
timestamp d =
    ((((day_number d.year d.month d.day - epoch) * 24 + d.hour) * 60 + d.minute) * 60 + d.second)
      * a_second
    + d.microsecond

abbrev civil : ℕ → ℕ → ℕ → Date
civil days seconds_ micro =
    let era = days / 146097 in
    let doe = days % 146097 in
    let yoe = (doe + doe / 36524 - doe / 1460 - doe / 146096) / 365 in
    let doy = doe - (365 * yoe + yoe / 4 - yoe / 100) in
    let mp = (5 * doy + 2) / 153 in
    let month_ = if ltb mp 10 then mp + 3 else mp - 9 in
    record {
      year = yoe + era * 400 + (if leb month_ 2 then 1 else 0);
      month = month_;
      day = doy - (153 * mp + 2) / 5 + 1;
      hour = seconds_ / 3600;
      minute = seconds_ / 60 % 60;
      second = seconds_ % 60;
      microsecond = micro;
    }

-- `datetime.fromtimestamp(now, timezone.utc)`, or none where the year is out of range
unfoldable pub from_timestamp : ℕ → Option Date
unfolding is_date
from_timestamp now =
    checked (civil (now / a_second / 86400 + epoch) (now / a_second % 86400) (now % a_second))

-- `date > cutoff`
unfoldable pub is_after : Date → Date → Bool
unfolding timestamp
is_after d cutoff = ltb (timestamp cutoff) (timestamp d)
