-- ===== src/Features/Events.antt =====
-- The event overlay, crates/se-features/src/event_overlay.rs. A date is the number of its day; the calendar is
-- that of `chrono`.
pub mod Dates
use swing_x.Prelude.{
  ℕ, zero, suc, ◌+◌, ◌-◌, ◌%◌, Bool, true, false, ◌&&◌, ◌||◌, not, Option, none, some, List, [],
  ◌∷◌, ◌++◌, ◌==◌, leb, ltb, any, if◌then◌else◌, String,
}
use swing_x.Prelude.Int.{ℤ, pos, magnitude, signed, is_neg}
use swing_x.Float.{Float}
use swing_x.Core.Layer.{Layer}
use swing_x.Monitor.Detect.{of_ℤ}
use swing_x.Store.{Feature}
use swing_x.Store.Pit.{Pit}
use swing_x.Features.{push, with_some, flag}

-- The day of a time, the day of a date if there is such a date, the year and month of a day, and its day of
-- the week, from Monday.
pub record Calendar : Type 0 where
  pub date_naive : ℕ → ℕ
  pub from_ymd : ℕ → ℕ → ℕ → Option ℕ
  pub year : ℕ → ℕ
  pub month : ℕ → ℕ
  pub weekday : ℕ → ℕ

abbrev pub fomc_dates : List (ℕ × ℕ × ℕ)
fomc_dates =
    (2018, 1, 31)
    ∷ (2018, 3, 21)
    ∷ (2018, 5, 2)
    ∷ (2018, 6, 13)
    ∷ (2018, 8, 1)
    ∷ (2018, 9, 26)
    ∷ (2018, 11, 8)
    ∷ (2018, 12, 19)
    ∷ (2019, 1, 30)
    ∷ (2019, 3, 20)
    ∷ (2019, 5, 1)
    ∷ (2019, 6, 19)
    ∷ (2019, 7, 31)
    ∷ (2019, 9, 18)
    ∷ (2019, 10, 30)
    ∷ (2019, 12, 11)
    ∷ (2020, 1, 29)
    ∷ (2020, 3, 18)
    ∷ (2020, 4, 29)
    ∷ (2020, 6, 10)
    ∷ (2020, 7, 29)
    ∷ (2020, 9, 16)
    ∷ (2020, 11, 5)
    ∷ (2020, 12, 16)
    ∷ (2021, 1, 27)
    ∷ (2021, 3, 17)
    ∷ (2021, 4, 28)
    ∷ (2021, 6, 16)
    ∷ (2021, 7, 28)
    ∷ (2021, 9, 22)
    ∷ (2021, 11, 3)
    ∷ (2021, 12, 15)
    ∷ (2022, 1, 26)
    ∷ (2022, 3, 16)
    ∷ (2022, 5, 4)
    ∷ (2022, 6, 15)
    ∷ (2022, 7, 27)
    ∷ (2022, 9, 21)
    ∷ (2022, 11, 2)
    ∷ (2022, 12, 14)
    ∷ (2023, 2, 1)
    ∷ (2023, 3, 22)
    ∷ (2023, 5, 3)
    ∷ (2023, 6, 14)
    ∷ (2023, 7, 26)
    ∷ (2023, 9, 20)
    ∷ (2023, 11, 1)
    ∷ (2023, 12, 13)
    ∷ (2024, 1, 31)
    ∷ (2024, 3, 20)
    ∷ (2024, 5, 1)
    ∷ (2024, 6, 12)
    ∷ (2024, 7, 31)
    ∷ (2024, 9, 18)
    ∷ (2024, 11, 7)
    ∷ (2024, 12, 18)
    ∷ (2025, 1, 29)
    ∷ (2025, 3, 19)
    ∷ (2025, 5, 7)
    ∷ (2025, 6, 18)
    ∷ (2025, 7, 30)
    ∷ (2025, 9, 17)
    ∷ (2025, 10, 29)
    ∷ (2025, 12, 10)
    ∷ (2026, 1, 28)
    ∷ (2026, 3, 18)
    ∷ (2026, 4, 29)
    ∷ (2026, 6, 17)
    ∷ (2026, 7, 29)
    ∷ (2026, 9, 16)
    ∷ (2026, 10, 28)
    ∷ (2026, 12, 9)
    ∷ []

abbrev pub is_weekend : Calendar → ℕ → Bool
is_weekend c d = leb 5 (c.weekday d)

-- Days to the first Friday of a month that begins on `first`.
abbrev pub to_friday : Calendar → ℕ → ℕ
to_friday c first = (4 + 7 - c.weekday first) % 7

-- Without the first of the month, at which the source panics, there is no such day.
abbrev pub third_friday_from : Calendar → Option ℕ → Option ℕ
third_friday_from c none = none
third_friday_from c (some first) = some (first + (to_friday c first + 14))

unfoldable pub third_friday : Calendar → ℕ → ℕ → Option ℕ
third_friday c year month = third_friday_from c (c.from_ymd year month 1)

abbrev pub is_day : Option ℕ → ℕ → Bool
is_day none d = false
is_day (some e) d = d == e

abbrev pub is_opex : Calendar → ℕ → Bool
is_opex c d = is_day (third_friday c (c.year d) (c.month d)) d

abbrev pub closes_quarter : ℕ → Bool
closes_quarter m = (m == 3) || ((m == 6) || ((m == 9) || (m == 12)))

abbrev pub is_quad_witch : Calendar → ℕ → Bool
is_quad_witch c d = closes_quarter (c.month d) && is_opex c d

-- The loop from `cur`, with so many days to go: the days after it that are not of a weekend.
unfoldable pub count_weekdays : Calendar → ℕ → ℕ → ℕ
count_weekdays c cur zero = 0
count_weekdays c cur (suc left) =
    let rest = count_weekdays c (suc cur) left in if is_weekend c (suc cur) then rest else suc rest

unfoldable pub weekday_diff : Calendar → ℕ → ℕ → ℤ
weekday_diff c from to =
    if from == to
    then pos 0
    else if ltb from to
    then signed false (count_weekdays c from (to - from))
    else signed true (count_weekdays c to (from - to))

abbrev pub days_to_opex : Calendar → ℕ → Option ℤ
days_to_opex c d = elim (third_friday c (c.year d) (c.month d)) [
  | none ↦ none
  | some e ↦ some (weekday_diff c d e)
]

-- The loop back over a weekend, with so many days to go.
unfoldable pub back_to_weekday : Calendar → ℕ → ℕ → ℕ
back_to_weekday c zero d = d
back_to_weekday c (suc left) d =
    let rest = back_to_weekday c left (d - 1) in if is_weekend c d then rest else d

abbrev pub next_month : ℕ → ℕ → ℕ × ℕ
next_month year month = if month == 12 then (year + 1, 1) else (year, month + 1)

-- Two days back are enough for any weekend.
abbrev pub last_weekday_before : Calendar → Option ℕ → Option ℕ
last_weekday_before c none = none
last_weekday_before c (some first_next) = some (back_to_weekday c 2 (first_next - 1))

unfoldable pub last_weekday_of_month : Calendar → ℕ → ℕ → Option ℕ
last_weekday_of_month c year month =
    let (ny, nm) = next_month year month in last_weekday_before c (c.from_ymd ny nm 1)

abbrev pub is_month_end : Calendar → ℕ → Bool
is_month_end c d = is_day (last_weekday_of_month c (c.year d) (c.month d)) d

abbrev pub is_quarter_end : Calendar → ℕ → Bool
is_quarter_end c d = closes_quarter (c.month d) && is_month_end c d

-- The scheduled dates that the calendar has.
abbrev pub scheduled : Calendar → List (ℕ × ℕ × ℕ) → List ℕ
scheduled c [] = []
scheduled c ((y, m, d) ∷ more) =
    let rest = scheduled c more in elim (c.from_ymd y m d) [ none ↦ rest | some e ↦ e ∷ rest ]

-- `min_by_key(|diff| diff.abs())`, the first of several.
abbrev pub nearer : ℤ → Option ℤ → ℤ
nearer x none = x
nearer x (some y) = if leb (magnitude x) (magnitude y) then x else y

unfoldable pub nearest : Calendar → ℕ → List ℕ → Option ℤ
nearest c d [] = none
nearest c d (e ∷ es) = some (nearer (weekday_diff c d e) (nearest c d es))

abbrev pub nearest_fomc_diff : Calendar → ℕ → Option ℤ
nearest_fomc_diff c d = nearest c d (scheduled c fomc_dates)

abbrev pub is_run_up : ℤ → Bool
is_run_up diff = not (is_neg diff) && (leb 1 (magnitude diff) && leb (magnitude diff) 2)

abbrev pub is_pre_fomc : Calendar → ℕ → Bool
is_pre_fomc c d = any (λ e. is_run_up (weekday_diff c d e)) (scheduled c fomc_dates)

module _ {F : Type 0} ⦃f : Float F⦄ (c : Calendar) (pit : Pit F) where
  unfoldable pub compute_events : List (Feature F)
  compute_events =
      let d = c.date_naive pit.decision_ts in
      let emit =
        λ (key : String) (value : F). push Layer.event pit.decision_ts key "calendar" value in
      emit "event.is_opex" (flag (is_opex c d))
      ++ (with_some (days_to_opex c d) (λ n. emit "event.days_to_opex" (of_ℤ n))
          ++ (emit "event.is_quad_witch" (flag (is_quad_witch c d))
              ++ (emit "event.is_month_end" (flag (is_month_end c d))
                  ++ (emit "event.is_quarter_end" (flag (is_quarter_end c d))
                      ++ (emit "event.pre_fomc" (flag (is_pre_fomc c d))
                          ++ with_some (nearest_fomc_diff c d)
                              (λ n. emit "event.days_to_fomc" (of_ℤ n)))))))
