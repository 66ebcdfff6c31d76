-- ===== src/Clock/Years.antt =====
-- The loops of `kern_gmtime` on a day that is not before 1970.
use mirage_kfreebsd.Base.{
  ℕ, zero, suc, ◌+◌, ◌-◌, ◌*◌, ◌≤◌, ◌<◌, ◌≡◌, refl, Bool, true, false, ok, arith, ltb, leb, ◌==◌,
  ◌&&◌, holds_below, holds_below-true, if◌then◌else◌, Bool-cases, leb→le, inl, inr, get_or, take,
  ◌∙◌,
}
use mirage_kfreebsd.Base.Int.{ℤ, pos, pos_part, neg_part, ◌+ℤ◌, ◌-ℤ◌}
use mirage_kfreebsd.Clock.{is_leap, year_loop, month_loop, skip_leap_day, dpm}
use mirage_kfreebsd.Clock.Calendar.{
  leap_year, year_length, days_of_years, sum, month_lengths, month_length,
}

-- The test of the code is the rule of the calendar.
pub is_leap-leap_year : (y : ℕ) → is_leap y ≡ leap_year y
unfolding is_leap leap_year
is_leap-leap_year y = ground arith

year_length-ge : (y : ℕ) → 365 ≤ year_length y
year_length-ge y = ground arith

year_loop_more :
    (fuel i x : ℕ)
    → year_length i ≤ x
    → year_loop (suc fuel) i (pos x) ≡ year_loop fuel (i + 1) (pos (x - year_length i))
unfolding year_loop
year_loop_more fuel i x h = ground (arith, is_leap-leap_year i)

year_loop_last : (fuel i x : ℕ) → x < year_length i → year_loop (suc fuel) i (pos x) ≡ ok (i, pos x)
unfolding year_loop
year_loop_last fuel i x h = ground (arith, is_leap-leap_year i)

-- The year loop leaves the year that the day lies in and the day within it.
pub record IsInYear (fuel i x : ℕ) : Type 0 where
  pub passed : ℕ
  pub year : ℕ
  pub day : ℕ
  pub counted : year ≡ i + passed
  pub run : year_loop fuel i (pos x) ≡ ok (year, pos day)
  pub small : day < year_length year
  pub splits : x ≡ days_of_years i passed + day

pub year_loop-IsInYear : (fuel i x : ℕ) → x < 365 * fuel → IsInYear fuel i x
unfolding days_of_years
year_loop-IsInYear zero i x h = absurd (omega arith)
year_loop-IsInYear (suc fuel) i x h = elim (Bool-cases (leb (year_length i) x)) [
  | inl more ↦
      let le : year_length i ≤ x = leb→le _ _ more in
      let rest =
        year_loop-IsInYear fuel (i + 1) (x - year_length i) (omega (arith, year_length-ge i)) in
      record {
        passed = suc rest.passed;
        year = rest.year;
        day = rest.day;
        counted = omega (arith, rest.counted);
        run = year_loop_more fuel i x le ∙ rest.run;
        small = rest.small;
        splits = omega (arith, rest.splits);
      }
  | inr last ↦
      let lt : x < year_length i = ground arith in
      record {
        passed = 0;
        year = i;
        day = x;
        counted = omega arith;
        run = year_loop_last fuel i x lt;
        small = lt;
        splits = omega arith;
      }
]

-- The day of the month that `kern_gmtime` stores for the day `r` of a year.
unfoldable pub stored_mon : Bool → ℕ → ℕ
stored_mon leap r = month_loop 11 (skip_leap_day leap (pos r)).0

unfoldable pub stored_mday : Bool → ℕ → ℤ
stored_mday leap r =
    let (x', mday) = skip_leap_day leap (pos r) in
    mday +ℤ (x' -ℤ pos (get_or dpm (month_loop 11 x') 0))

agrees : Bool → ℕ → Bool
agrees leap r =
    let m = stored_mon leap r in
    let d = pos_part (stored_mday leap r) in
    ltb m 12
    && (neg_part (stored_mday leap r) == 0)
    && leb 1 d
    && leb d (month_length leap m)
    && (sum (take m (month_lengths leap)) + d == r + 1)

agrees_table : (holds_below (agrees false) 365 ≡ true) × (holds_below (agrees true) 366 ≡ true)
unfolding agrees holds_below stored_mon stored_mday skip_leap_day month_loop
agrees_table = (refl, refl)

-- The month loop and the correction for 29 February agree with the lengths of the months.
pub record IsDay (leap : Bool) (r : ℕ) : Type 0 where
  pub mon : stored_mon leap r < 12
  pub mday : stored_mday leap r ≡ pos (pos_part (stored_mday leap r))
  pub first : 1 ≤ pos_part (stored_mday leap r)
  pub last : pos_part (stored_mday leap r) ≤ month_length leap (stored_mon leap r)
  pub splits :
      sum (take (stored_mon leap r) (month_lengths leap)) + pos_part (stored_mday leap r) ≡ r + 1

IsDay-of_agrees : (leap : Bool) (r : ℕ) → agrees leap r ≡ true → IsDay leap r
unfolding agrees
IsDay-of_agrees leap r h = record {
  mon = ground arith;
  mday = ground arith;
  first = ground arith;
  last = ground arith;
  splits = ground arith;
}

pub IsDay-calendar : (i r : ℕ) → r < year_length i → IsDay (leap_year i) r
IsDay-calendar i r h = by_kind (leap_year i) h
  where
    by_kind : (leap : Bool) → r < (if leap then 366 else 365) → IsDay leap r
    by_kind false lt =
        IsDay-of_agrees false r (holds_below-true (agrees false) 365 r lt agrees_table.0)
    by_kind true lt =
        IsDay-of_agrees true r (holds_below-true (agrees true) 366 r lt agrees_table.1)
