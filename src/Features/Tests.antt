-- ===== src/Features/Tests.antt =====
-- The dates at a calendar, and the theorems at them.
use swing_x.Prelude.{◌+◌, ◌*◌, ◌%◌, ◌≤◌, ◌<◌, ◌≡◌, refl, ◌⊎◌, true, some, [], ◌∷◌, arith}
use swing_x.Prelude.Int.{pos}
use swing_x.Float.Fixed.{num, fixed_float}
use swing_x.Monitor.Stats.{sum}
use swing_x.Features.Indicators.{rsi, average_from}
use swing_x.Features.Events.{
  Calendar, is_weekend, back_to_weekday, last_weekday_of_month, weekday_diff, count_weekdays,
}
use swing_x.Features.Events.Dates.{IsCalendar, last_weekday_of_month-last}

-- Months of thirty days and years of twelve of them, from a Thursday on.
abbrev calendar : Calendar
calendar = record {
  date_naive = λ ts. ts;
  from_ymd = λ y m d. some (y * 360 + m * 30 + d);
  year = λ d. d;
  month = λ d. d;
  weekday = λ d. (d + 3) % 7;
}

calendar-IsCalendar : IsCalendar calendar
calendar-IsCalendar = record { weekday_lt = λ d. omega arith; weekday-suc = λ d. omega arith }

over_a_weekend : weekday_diff calendar 1 4 ≡ pos 1
unfolding weekday_diff count_weekdays
over_a_weekend = refl

-- The first of the second month is a Tuesday.
last_day : last_weekday_of_month calendar 1 1 ≡ some 420
unfolding last_weekday_of_month back_to_weekday
last_day = refl

last_weekday_of_month-last_example :
    (calendar.weekday 420 < 5)
    × (420 < 421)
    × ((421 ≤ 420) ⊎ ((421 ≤ 421) ⊎ (is_weekend calendar 421 ≡ true)))
last_weekday_of_month-last_example =
    last_weekday_of_month-last calendar calendar-IsCalendar 1 1 421 420 421 (omega arith) refl
      last_day

-- Gains of one and losses of one in turn leave the index in the middle.
balanced :
    rsi (num (pos 10_000) ∷ num (pos 20_000) ∷ num (pos 10_000) ∷ []) 2 ≡ some (num (pos 500_000))
unfolding rsi average_from sum
balanced = refl
