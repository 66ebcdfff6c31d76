-- ===== src/Clock/Laws.antt =====
-- `kern_gmtime` and `kern_gettimeofday` against the calendar.
use mirage_kfreebsd.Base.{ℕ, ◌+◌, ◌-◌, ◌*◌, ◌/◌, ◌%◌, ◌^◌, ◌<◌, ◌≡◌, false, ok, arith, ap, ◌∙◌}
use mirage_kfreebsd.Base.Int.{pos, pos_part, ◌+ℤ◌, rem}
use mirage_kfreebsd.Clock.{gmtime, gettimeofday}
use mirage_kfreebsd.Clock.Calendar.{
  leap_year, Date, IsDate, day_number, seconds_of, tm_of, days_of_years, day_of_year,
}
use mirage_kfreebsd.Clock.Years.{
  is_leap-leap_year, IsInYear, year_loop-IsInYear, stored_mon, stored_mday, IsDay, IsDay-calendar,
}

abbrev the_day : ℕ → ℕ
the_day t = t / 1000000 / 86400

abbrev the_rest : ℕ → ℕ
the_rest t = t / 1000000 % 86400

in_year : (t : ℕ) → IsInYear (the_day t / 365 + 1) 1970 (the_day t)
in_year t = year_loop-IsInYear (the_day t / 365 + 1) 1970 (the_day t) (omega arith)

-- The date that the run of `kern_gmtime` at `t` stores.
date_at : ℕ → Date
date_at t =
    let y = in_year t in
    record {
      year = y.year;
      mon = stored_mon (leap_year y.year) y.day;
      mday = pos_part (stored_mday (leap_year y.year) y.day);
      hour = the_rest t / 3600;
      minute = the_rest t / 60 % 60;
      second = the_rest t % 60;
    }

stored : (t : ℕ) → IsDay (leap_year (in_year t).year) (in_year t).day
stored t = IsDay-calendar (in_year t).year (in_year t).day (in_year t).small

date_at-IsDate : (t : ℕ) → IsDate (date_at t)
unfolding date_at
date_at-IsDate t = record {
  epoch = omega (arith, (in_year t).counted);
  mon = (stored t).mon;
  first = (stored t).first;
  last = (stored t).last;
  hour = omega arith;
  minute = omega arith;
  second = omega arith;
}

day_number-date_at : (t : ℕ) → day_number (date_at t) ≡ the_day t
unfolding date_at
day_number-date_at t =
    let years : (in_year t).year - 1970 ≡ (in_year t).passed = omega (arith, (in_year t).counted) in
    omega (
      arith,
      ap (days_of_years 1970) years,
      (in_year t).splits,
      (stored t).splits,
      (stored t).first,
    )

date_at-seconds_of : (t : ℕ) → seconds_of (date_at t) ≡ t / 1000000
unfolding date_at
date_at-seconds_of t = omega (arith, day_number-date_at t)

gmtime-date_at : (t : ℕ) → gmtime (pos t) ≡ ok (tm_of (date_at t))
unfolding gmtime date_at stored_mon stored_mday
gmtime-date_at t =
    rw ((in_year t).run, is_leap-leap_year (in_year t).year)
      λ i. ok (record {
        second = pos (the_rest t % 60);
        minute = pos (the_rest t / 60 % 60);
        hour = pos (hour i);
        mday = (stored t).mday i;
        mon = pos (stored_mon (leap_year (in_year t).year) (in_year t).day);
        year = pos ((in_year t).year - 1900);
        wday = wday i;
        yday = pos (yday i);
        isdst = false;
      })
  where
    hour : the_rest t / 60 / 60 ≡ the_rest t / 3600
    hour = omega arith

    wday : rem (pos 4 +ℤ pos (the_day t)) 7 ≡ pos ((4 + day_number (date_at t)) % 7)
    wday = ground (arith, day_number-date_at t)

    yday : (in_year t).day ≡ day_of_year (date_at t)
    yday = omega (arith, (stored t).splits, (stored t).first)

-- Every time from the epoch on is turned into a date of the calendar, with no round of the year
-- loop missing: all nine fields are those of one date, that date exists, and it lies exactly the
-- given number of whole seconds after the start of 1970.
pub gmtime_date :
    (t : ℕ) → (d : Date) × (gmtime (pos t) ≡ ok (tm_of d)) × IsDate d × (seconds_of d ≡ t / 1000000)
gmtime_date t = (date_at t, gmtime-date_at t, date_at-IsDate t, date_at-seconds_of t)

gettimeofday_pos :
    (sec usec : ℕ)
    → usec < 1000000
    → sec < 2 ^ 42
    → gettimeofday (record { tv_sec = pos sec; tv_usec = pos usec }) ≡ pos (sec * 1000000 + usec)
unfolding gettimeofday
gettimeofday_pos sec usec small range = ground arith

-- The time of day, broken down, is the date of its seconds; the microseconds are dropped.
pub gmtime-gettimeofday :
    (sec usec : ℕ)
    → usec < 1000000
    → sec < 2 ^ 42
    → (d : Date) × (gmtime (gettimeofday (record { tv_sec = pos sec; tv_usec = pos usec }))
        ≡ ok (tm_of d))
      × IsDate d
      × (seconds_of d ≡ sec)
gmtime-gettimeofday sec usec small range =
    let t = sec * 1000000 + usec in
    let (d, run, valid, seconds) = gmtime_date t in
    (d, ap gmtime (gettimeofday_pos sec usec small range) ∙ run, valid, omega (arith, seconds))
