-- ===== src/Calendar.antt =====
-- The proleptic Gregorian calendar, as chrono's `NaiveDate` and Postgres's `date` document it. Neither
-- library is part of the program: both enter the model as a `Calendar` that satisfies `IsGregorian`.
pub mod Ordinal
use birthday_role.Prelude.{
  ℕ, zero, suc, ◌+◌, ◌-◌, ◌*◌, ◌/◌, ◌%◌, ◌≤◌, ◌≡◌, Bool, not, ◌&&◌, ◌||◌, Option, some, none, ltb,
  leb, ◌==◌, if◌then◌else◌,
}
use birthday_role.Prelude.Int.{ℤ, pos, ◌-ℤ◌, leb_ℤ, ltb_ℤ}

unfoldable pub leap : ℕ → Bool
leap y = (y % 4 == 0) && (not (y % 100 == 0) || (y % 400 == 0))

unfoldable pub month_length : Bool → ℕ → ℕ
month_length l m =
    if m == 2
    then (if l then 29 else 28)
    else if (m == 4) || (m == 6) || (m == 9) || (m == 11)
    then 30
    else 31

-- The days of a year before the first of a month.
unfoldable pub days_before_month : Bool → ℕ → ℕ
days_before_month l zero = 0
days_before_month l (suc zero) = 0
days_before_month l (suc (suc m)) = days_before_month l (suc m) + month_length l (suc m)

unfoldable pub days_before_year : ℕ → ℕ
days_before_year y = (y - 1) * 365 + (y - 1) / 4 - (y - 1) / 100 + (y - 1) / 400

-- The number of a day, 1 for the 1st of January of the year 1.
unfoldable pub ordinal : ℕ → ℕ → ℕ → ℕ
ordinal y m d = days_before_year y + days_before_month (leap y) m + d

-- The years in which both libraries have every date.
abbrev pub max_year : ℕ
max_year = 9999

pub record IsDate (y m d : ℕ) : Type 0 where
  pub year_in : (1 ≤ y) × (y ≤ max_year)
  pub month_in : (1 ≤ m) × (m ≤ 12)
  pub day_in : (1 ≤ d) × (d ≤ month_length (leap y) m)

-- Monday first.
pub data Weekday : Type 0 where
  mon tue wed thu fri sat sun : Weekday

-- `from_ymd_opt` is `NaiveDate::from_ymd_opt`, `make_date` in SQL (where `none` is an error).
-- `days_between a b` is `(a - b).num_days()`, `ge a b` is `a >= b`, `gt a b` is `a > b`.
pub record Calendar : Type 1 where
  pub Date : Type 0
  pub from_ymd_opt : ℤ → ℕ → ℕ → Option Date
  pub year : Date → ℤ
  pub month : Date → ℕ
  pub day : Date → ℕ
  pub weekday : Date → Weekday
  pub days_between : Date → Date → ℤ
  pub ge : Date → Date → Bool
  pub gt : Date → Date → Bool

-- `t` is the date y-m-d.
pub record IsOn (c : Calendar) (t : c.Date) (y m d : ℕ) : Type 0 where
  pub valid : IsDate y m d
  pub made : c.from_ymd_opt (pos y) m d ≡ some t
  pub year_is : c.year t ≡ pos y
  pub month_is : c.month t ≡ m
  pub day_is : c.day t ≡ d

-- The documented behaviour that the theorems use.
pub record IsGregorian (c : Calendar) : Type 0 where
  pub makes : (y m d : ℕ) → IsDate y m d → (t : c.Date) × (c.from_ymd_opt (pos y) m d ≡ some t)
  pub fields :
      (y : ℤ) (m d : ℕ) (t : c.Date)
      → c.from_ymd_opt y m d ≡ some t
      → (c.year t ≡ y) × (c.month t ≡ m) × (c.day t ≡ d)
  pub differs :
      (s t : c.Date) (y m d y' m' d' : ℕ)
      → IsOn c s y m d
      → IsOn c t y' m' d'
      → c.days_between s t ≡ pos (ordinal y m d) -ℤ pos (ordinal y' m' d')
  pub compares :
      (s t : c.Date)
      → (c.ge s t ≡ leb_ℤ (pos 0) (c.days_between s t))
        × (c.gt s t ≡ ltb_ℤ (pos 0) (c.days_between s t))
