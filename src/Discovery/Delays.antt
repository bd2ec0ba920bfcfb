-- ===== src/Discovery/Delays.antt =====
-- database/poc/discovery_execution.py: `_backoff` and `_server_delay`, the waits before an attempt.
pub mod Doubling
use pepeuchiacluster.Prelude.{
  ℕ, zero, suc, ◌+◌, ◌-◌, ◌*◌, ◌/◌, min, Bool, ◌||◌, not, Option, none, some, leb, ◌==◌,
  if◌then◌else◌,
}
use pepeuchiacluster.Discovery.Errors.{
  Reason, runtime, retry_after_extreme, LegacyDate, RetryAfter, seconds, not_before, legacy_date,
  excessive,
}
use pepeuchiacluster.Discovery.Calendar.{
  Date, make_date, from_timestamp, is_after, weekday, timestamp, a_second,
}

-- The loop of `_backoff`, with the rounds left. `delay >= limit / 2` on floats is
-- `2 * delay >= limit`.
unfoldable pub backoff_from : ℕ → ℕ → ℕ → ℕ
backoff_from limit zero delay = min delay limit
backoff_from limit (suc n) delay =
    let rest = backoff_from limit n (delay * 2) in
    if delay == 0 || leb limit (2 * delay) then (if delay == 0 then 0 else limit) else rest

-- `_backoff`: the policy's part in it is its limit and its first delay
unfoldable pub backoff_delay : ℕ → ℕ → ℕ → ℕ
unfolding backoff_from
backoff_delay limit first attempt = backoff_from limit (attempt - 1) first

-- The waits that a server asks for: so long, none for an invalid date, or the reason of an error.
pub data Wait : Type 0 where
  wait : ℕ → Wait
  refused : Reason → Wait

-- `current.replace(year=current.year + 50)`, on the 29th of February its 28th
unfoldable pub cutoff_of : Date → Date
unfolding make_date
cutoff_of current = elim (make_date (record current { year = current.year + 50 })) [
  | none ↦ record current { year = current.year + 50; day = 28 }
  | some d ↦ d
]

-- the date in the century that is at most 50 years ahead, or none for a `ValueError`
unfoldable pub in_century : LegacyDate → Date → Option Date
unfolding make_date is_after cutoff_of
in_century l current =
    elim (make_date (record {
      year = current.year / 100 * 100 + l.yy;
      month = l.month;
      day = l.day;
      hour = l.hour;
      minute = l.minute;
      second = l.second;
      microsecond = 0;
    })) [
      | none ↦ none
      | some date ↦
          if leb current.year 9949
          then (if is_after date (cutoff_of current)
              then make_date (record date { year = date.year - 100 })
              else some date)
          else some date
    ]

-- the wait until an instant
abbrev until : ℕ → ℕ → Wait
until now target = wait (target - now)

-- the branch of a `legacy_date`
unfoldable pub legacy_wait : LegacyDate → ℕ → Wait
unfolding in_century from_timestamp weekday timestamp
legacy_wait l now = elim (from_timestamp now) [
  | none ↦ refused runtime
  | some current ↦ elim (in_century l current) [
    | none ↦ wait 0
    | some date ↦ if weekday date == l.weekday then until now (timestamp date) else wait 0
  ]
]

-- `_server_delay` for an answer of the server; the wall clock's reading is `none` where it raises or
-- is no finite number, and only a date reads it
unfoldable pub server_delay : Option RetryAfter → Option ℕ → Wait
unfolding legacy_wait
server_delay none now = wait 0
server_delay (some excessive) now = refused retry_after_extreme
server_delay (some (seconds n)) now = wait (n * a_second)
server_delay (some (not_before target)) none = refused runtime
server_delay (some (not_before target)) (some now) = until now target
server_delay (some (legacy_date l)) none = refused runtime
server_delay (some (legacy_date l)) (some now) = legacy_wait l now
