-- ===== src/Clock.antt =====
-- packages/mirage-platform/runtime/kernel/clock_stubs.c: the time of day, and broken-down time.
pub mod Calendar
pub mod Years
pub mod Laws
use mirage_kfreebsd.Base.{
  ℕ, zero, suc, ◌+◌, ◌-◌, ◌*◌, ◌/◌, ◌%◌, ◌^◌, List, [], ◌∷◌, Result, ok, out_of_fuel, ◌>>=◌, Bool,
  true, false, not, ◌&&◌, ◌||◌, ltb, ◌==◌, if◌then◌else◌, get_or,
}
use mirage_kfreebsd.Base.Int.{
  ℤ, pos, negsuc, pos_part, ◌+ℤ◌, ◌-ℤ◌, ◌*ℤ◌, ltb_ℤ, leb_ℤ, eqb_ℤ, quot, rem,
}

-- What `microtime` fills in.
pub record Timeval : Type 0 where
  pub tv_sec : ℤ
  pub tv_usec : ℤ

-- An OCaml integer has 63 bits: the value that `Val_long` keeps of a C `long`.
unfoldable pub val_long : ℤ → ℤ
val_long (pos n) = let w = n % 2 ^ 63 in if ltb w (2 ^ 62) then pos w else negsuc (2 ^ 63 - w - 1)
val_long (negsuc n) =
    let w = n % 2 ^ 63 in if ltb w (2 ^ 62) then negsuc w else pos (2 ^ 63 - w - 1)

-- Microseconds since the epoch.
unfoldable pub gettimeofday : Timeval → ℤ
unfolding val_long
gettimeofday atv = val_long (atv.tv_sec *ℤ pos 1000000 +ℤ atv.tv_usec)

abbrev pub spd : ℕ
spd = 24 * 60 * 60

-- Days before each month of a common year.
abbrev pub dpm : List ℕ
dpm = 0 ∷ 31 ∷ 59 ∷ 90 ∷ 120 ∷ 151 ∷ 181 ∷ 212 ∷ 243 ∷ 273 ∷ 304 ∷ 334 ∷ 365 ∷ []

unfoldable pub is_leap : ℕ → Bool
is_leap year = year % 4 == 0 && (not (year % 100 == 0) || year % 400 == 0)

-- The nine fields of the result, in the order of their numbers.
pub record Tm : Type 0 where
  pub second : ℤ
  pub minute : ℤ
  pub hour : ℤ
  pub mday : ℤ
  pub mon : ℤ
  pub year : ℤ
  pub wday : ℤ
  pub yday : ℤ
  pub isdst : Bool

-- `for (i = 1970; ; ++i)`: the year, and the days that are left in it.
unfoldable pub year_loop : ℕ → ℕ → ℤ → Result (ℕ × ℤ)
year_loop zero i x = out_of_fuel
year_loop (suc fuel) i x =
    let k = if is_leap i then 366 else 365 in
    let rest = year_loop fuel (i + 1) (x -ℤ pos k) in if leb_ℤ (pos k) x then rest else ok (i, x)

-- `for (i = 11; i && (dpm[i] > x); --i);`
unfoldable pub month_loop : ℕ → ℤ → ℕ
month_loop zero x = 0
month_loop (suc i) x = if ltb_ℤ x (pos (get_or dpm (suc i) 0)) then month_loop i x else suc i

-- The day of the year without the leap day, and the `mday` to start from.
unfoldable pub skip_leap_day : Bool → ℤ → ℤ × ℤ
skip_leap_day leap x =
    if leap && ltb_ℤ (pos 58) x
    then (x -ℤ pos 1, if eqb_ℤ x (pos 59) then pos 2 else pos 1)
    else (x, pos 1)

-- The rounds of the year loop are at most one for each 365 days.
unfoldable pub gmtime : ℤ → Result Tm
gmtime t = do
  let clock = quot t 1000000
  let x = rem clock spd
  let days = quot clock spd
  (i, yday) ← year_loop (pos_part days / 365 + 1) 1970 days
  let (x', mday) = skip_leap_day (is_leap i) yday
  let m = month_loop 11 x'
  ok (record {
    second = rem x 60;
    minute = rem (quot x 60) 60;
    hour = quot (quot x 60) 60;
    mday = mday +ℤ (x' -ℤ pos (get_or dpm m 0));
    mon = pos m;
    year = pos (i - 1900);
    wday = rem (pos 4 +ℤ days) 7;
    yday = yday;
    isdst = false;
  })
