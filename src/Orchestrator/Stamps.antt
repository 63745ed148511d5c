-- ===== src/Orchestrator/Stamps.antt =====
-- orchestrator/stamps.py: the one UTC timestamp that a person reads.
use issuebot.Prelude.{ℕ, ◌+◌, ◌-◌, ◌*◌, ◌/◌, ◌%◌, String, ◌≡◌, refl, leb, ltb, if◌then◌else◌}
use issuebot.Prelude.Text.{◌<>◌, two_digits, four_digits}
use issuebot.GitHub.Models.{Instant}

-- The civil date of a day, counted from 0001-01-01, by eras of 400 years that begin in March.
record Date : Type 0 where
  pub year : ℕ
  pub month : ℕ
  pub day : ℕ

date_of : ℕ → Date
date_of days =
    let z = days + 306 in
    let era = z / 146097 in
    let doe = z % 146097 in
    let yoe = (doe + doe / 36524 - doe / 1460 - doe / 146096) / 365 in
    let doy = doe - (365 * yoe + yoe / 4 - yoe / 100) in
    let mp = (5 * doy + 2) / 153 in
    record {
      year = yoe + 400 * era + (if leb 10 mp then 1 else 0);
      month = if ltb mp 10 then mp + 3 else mp - 9;
      day = doy - (153 * mp + 2) / 5 + 1;
    }

abbrev second : ℕ
second = 1000000

-- `now.astimezone(UTC).strftime("%Y-%m-%dT%H:%M:%SZ")`
unfoldable pub utc_stamp : Instant → String
unfolding date_of two_digits four_digits
utc_stamp now =
    let s = now / second in
    let date = date_of (s / 86400) in
    four_digits date.year
    <> "-"
    <> two_digits date.month
    <> "-"
    <> two_digits date.day
    <> "T"
    <> two_digits (s / 3600 % 24)
    <> ":"
    <> two_digits (s / 60 % 60)
    <> ":"
    <> two_digits (s % 60)
    <> "Z"

first_instant : utc_stamp 0 ≡ "0001-01-01T00:00:00Z"
unfolding utc_stamp
first_instant = refl

leap_day : utc_stamp ((730178 * 86400 + 86399) * 1000000) ≡ "2000-02-29T23:59:59Z"
unfolding utc_stamp
leap_day = refl

after_leap : utc_stamp (730179 * 86400 * 1000000) ≡ "2000-03-01T00:00:00Z"
unfolding utc_stamp
after_leap = refl
