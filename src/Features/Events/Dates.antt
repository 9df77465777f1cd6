-- ===== src/Features/Events/Dates.antt =====
-- The dates of crates/se-features/src/event_overlay.rs, on a calendar whose days of the week follow each other.
use swing_x.Prelude.{
  ℕ, zero, suc, ◌+◌, ◌-◌, ◌%◌, ◌≤◌, ◌<◌, ◌≡◌, refl, sym, ap, ◌∙◌, ◌⊎◌, inl, inr, true, some,
  some-injective, ◌==◌, leb, Bool-cases, arith,
}
use swing_x.Features.Events.{
  Calendar, is_weekend, to_friday, third_friday, back_to_weekday, next_month, last_weekday_before,
  last_weekday_of_month,
}

-- What the source relies on: the day of the week goes round by one a day.
pub record IsCalendar (c : Calendar) : Type 0 where
  pub weekday_lt : (d : ℕ) → c.weekday d < 7
  pub weekday-suc : (d : ℕ) → c.weekday (suc d) ≡ (c.weekday d + 1) % 7

module _ (c : Calendar) (l : IsCalendar c) where
  weekday-add : (d n : ℕ) → c.weekday (d + n) ≡ (c.weekday d + n) % 7
  weekday-add d zero = let same : d + 0 ≡ d = omega arith in rw same (omega (arith, l.weekday_lt d))
  weekday-add d (suc n) =
      let same : d + suc n ≡ suc (d + n) = omega arith in
      rw same (omega (arith, l.weekday-suc (d + n), weekday-add d n))

  weekday-pred : (d : ℕ) → 1 ≤ d → c.weekday d ≡ (c.weekday (d - 1) + 1) % 7
  weekday-pred d h =
      let same : suc (d - 1) ≡ d = omega arith in ap c.weekday (sym same) ∙ l.weekday-suc (d - 1)

  -- The third Friday of a month is a Friday, and not before the fifteenth nor after the twenty-first.
  pub third_friday-weekday :
      (year month first : ℕ)
      → c.from_ymd year month 1 ≡ some first
      → (d : ℕ) × (third_friday c year month ≡ some d)
        × (c.weekday d ≡ 4)
        × (first + 14 ≤ d)
        × (d ≤ first + 20)
  unfolding third_friday
  third_friday-weekday year month first h =
      let n = to_friday c first + 14 in
      (
        first + n,
        rw h refl,
        omega (arith, weekday-add first n, l.weekday_lt first),
        omega arith,
        omega (arith, l.weekday_lt first),
      )

  after : (d e : ℕ) → (e ≤ d) ⊎ ((d < e) ⊎ (is_weekend c e ≡ true))
  after d e = elim (Bool-cases (leb e d)) [
    | inl h ↦ inl (ground (arith, h))
    | inr h ↦ inr (inl (ground (arith, h)))
  ]

  one_back :
      (d e : ℕ) → is_weekend c d ≡ true → 1 ≤ d → (e ≤ d - 1) ⊎ ((d < e) ⊎ (is_weekend c e ≡ true))
  one_back d e a big = elim (after (d - 1) e) [
    | inl h ↦ inl h
    | inr (inr w) ↦ inr (inr w)
    | inr (inl h) ↦ elim (after d e) [
      | inr rest ↦ inr rest
      | inl k ↦ let same : e ≡ d = omega arith in inr (inr (rw same a))
    ]
  ]

  -- The days from `last` to `d` are at most two, both of a weekend.
  within :
      (last d e : ℕ)
      → is_weekend c d ≡ true
      → is_weekend c (d - 1) ≡ true
      → d ≤ last + 2
      → (e ≤ last) ⊎ ((d < e) ⊎ (is_weekend c e ≡ true))
  within last d e a b near = elim (after last e) [
    | inl h ↦ inl h
    | inr (inr w) ↦ inr (inr w)
    | inr (inl h) ↦ elim (after d e) [
      | inr (inl k) ↦ inr (inl k)
      | inr (inr w) ↦ inr (inr w)
      | inl k ↦ elim (Bool-cases (e == d)) [
        | inl s ↦ let same : e ≡ d = ground (arith, s) in inr (inr (rw same a))
        | inr s ↦ let same : e ≡ d - 1 = ground (arith, s, h, k, near) in inr (inr (rw same b))
      ]
    ]
  ]

  -- Two days of a weekend come after a day of the week.
  before_weekend :
      (d : ℕ)
      → 2 ≤ d
      → is_weekend c d ≡ true
      → is_weekend c (d - 1) ≡ true
      → c.weekday (d - 1 - 1) < 5
  before_weekend d big a b =
      let one = weekday-pred d (omega arith) in
      let two = weekday-pred (d - 1) (omega arith) in
      let x : 5 ≤ c.weekday d = ground (arith, a) in
      let y : 5 ≤ c.weekday (d - 1) = ground (arith, b) in
      omega (arith, one, two, x, y, l.weekday_lt (d - 1 - 1), l.weekday_lt (d - 1))

  -- A day after the one that the loop gives, up to where it began, is of a weekend, where no weekend is longer
  -- than two days.
  back_to_weekday-last :
      (d e : ℕ)
      → 2 ≤ d
      → let last = back_to_weekday c 2 d in
        (c.weekday last < 5) × (last ≤ d) × ((e ≤ last) ⊎ ((d < e) ⊎ (is_weekend c e ≡ true)))
  unfolding back_to_weekday
  back_to_weekday-last d e big = elim (Bool-cases (is_weekend c d)) [
    | inr a ↦ rw a (ground (arith, a), omega arith, after d e)
    | inl a ↦ elim (Bool-cases (is_weekend c (d - 1))) [
      | inr b ↦ rw a (rw b (ground (arith, b), omega arith, one_back d e a (omega arith)))
      | inl b ↦ rw a (
          rw b (
            before_weekend d (omega arith) a b,
            omega arith,
            within (d - 1 - 1) d e a b (omega arith),
          ))
    ]
  ]

  -- The last weekday of a month, where the first of the next month is a date after the third day of all: it is
  -- no day of a weekend, it comes before that first, and every day between them is of a weekend. So the two
  -- steps back that the model allows the loop are enough.
  pub last_weekday_of_month-last :
      (year month first_next d e : ℕ)
      → 3 ≤ first_next
      → c.from_ymd (next_month year month).0 (next_month year month).1 1 ≡ some first_next
      → last_weekday_of_month c year month ≡ some d
      → (c.weekday d < 5)
        × (d < first_next)
        × ((e ≤ d) ⊎ ((first_next ≤ e) ⊎ (is_weekend c e ≡ true)))
  unfolding last_weekday_of_month
  last_weekday_of_month-last year month first_next d e big h found =
      let same = some-injective _ _ (sym (ap (last_weekday_before c) h) ∙ found) in
      let (a, b, k) = back_to_weekday-last (first_next - 1) e (omega arith) in
      rw (← same) (
        a,
        omega arith,
        elim k [
          | inl x ↦ inl x
          | inr (inl y) ↦ inr (inl (omega arith))
          | inr (inr z) ↦ inr (inr z)
        ],
      )
