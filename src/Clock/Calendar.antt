-- ===== src/Clock/Calendar.antt =====
-- The proleptic Gregorian calendar, from the lengths of its months and years.
use mirage_kfreebsd.Base.{
  ℕ, zero, suc, ◌+◌, ◌-◌, ◌*◌, ◌%◌, ◌≤◌, ◌<◌, List, [], ◌∷◌, Bool, false, ◌==◌, ◌/◌, if◌then◌else◌,
  get_or, take,
}
use mirage_kfreebsd.Base.Int.{pos}
use mirage_kfreebsd.Clock.{Tm}

-- Every fourth year is a leap year, but of the centuries only every fourth.
unfoldable pub leap_year : ℕ → Bool
leap_year y = if y % 100 == 0 then y / 100 % 4 == 0 else y % 4 == 0

abbrev pub year_length : ℕ → ℕ
year_length y = if leap_year y then 366 else 365

abbrev pub month_lengths : Bool → List ℕ
month_lengths leap =
    31 ∷ (if leap then 29 else 28) ∷ 31 ∷ 30 ∷ 31 ∷ 30 ∷ 31 ∷ 31 ∷ 30 ∷ 31 ∷ 30 ∷ 31 ∷ []

abbrev pub month_length : Bool → ℕ → ℕ
month_length leap m = get_or (month_lengths leap) m 0

abbrev pub sum : List ℕ → ℕ
sum [] = 0
sum (x ∷ xs) = x + sum xs

-- The days of the `n` years from year `y` on.
unfoldable pub days_of_years : ℕ → ℕ → ℕ
days_of_years y zero = 0
days_of_years y (suc n) = year_length y + days_of_years (y + 1) n

pub record Date : Type 0 where
  pub year : ℕ
  pub mon : ℕ
  pub mday : ℕ
  pub hour : ℕ
  pub minute : ℕ
  pub second : ℕ

-- A date from 1970 on, with months counted from 0 and days from 1.
pub record IsDate (d : Date) : Type 0 where
  pub epoch : 1970 ≤ d.year
  pub mon : d.mon < 12
  pub first : 1 ≤ d.mday
  pub last : d.mday ≤ month_length (leap_year d.year) d.mon
  pub hour : d.hour < 24
  pub minute : d.minute < 60
  pub second : d.second < 60

abbrev pub day_of_year : Date → ℕ
day_of_year d = sum (take d.mon (month_lengths (leap_year d.year))) + d.mday - 1

abbrev pub day_number : Date → ℕ
day_number d = days_of_years 1970 (d.year - 1970) + day_of_year d

-- Seconds from the start of 1970 to the date.
abbrev pub seconds_of : Date → ℕ
seconds_of d = day_number d * 86400 + d.hour * 3600 + d.minute * 60 + d.second

-- The date as a `struct tm`; 1 January 1970 was a Thursday.
abbrev pub tm_of : Date → Tm
tm_of d = record {
  second = pos d.second;
  minute = pos d.minute;
  hour = pos d.hour;
  mday = pos d.mday;
  mon = pos d.mon;
  year = pos (d.year - 1900);
  wday = pos ((4 + day_number d) % 7);
  yday = pos (day_of_year d);
  isdst = false;
}
