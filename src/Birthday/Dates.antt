-- ===== src/Birthday/Dates.antt =====
-- The date rules of src/services/birthday.rs against the Gregorian calendar.
use birthday_role.Prelude.{
  ℕ, ◌≤◌, ◌<◌, ◌≡◌, refl, ap, ◌↔◌, inl, inr, Bool, true, not, ◌&&◌, Option, none, some, arith, ◌==◌,
  if◌then◌else◌, Bool-cases,
}
use birthday_role.Prelude.Int.{ℤ, pos, negsuc, pos_part, ◌≤ℤ◌}
use birthday_role.Prelude.Options.{or_else}
use birthday_role.Calendar.{leap, month_length, max_year, IsDate, Calendar, IsOn, IsGregorian}
use birthday_role.Birthday.{is_leap, days_in_month, effective_bday}
use birthday_role.Birthday.Input.{ok, validate_date}

pub is_leap-leap : (y : ℕ) → is_leap (pos y) ≡ leap y
unfolding is_leap leap
is_leap-leap y = ground arith

pub days_in_month-month_length :
    (m : ℕ) (l : Bool) → 1 ≤ m → m ≤ 12 → days_in_month m l ≡ month_length l m
unfolding days_in_month month_length
days_in_month-month_length m l h k = ground arith

-- A day of a month, the 29th of February included.
pub record IsRecurring (m d : ℕ) : Type 0 where
  pub month_in : (1 ≤ m) × (m ≤ 12)
  pub day_in : (1 ≤ d) × (d ≤ month_length true m)

-- The day on which a birthday is celebrated: the 29th of February moves to the 28th.
abbrev pub observed : ℕ → ℕ → ℕ → ℕ
observed y m d = if (m == 2) && (d == 29) && not (leap y) then 28 else d

pub observed-IsDate :
    (y m d : ℕ) → (1 ≤ y) × (y ≤ max_year) → IsRecurring m d → IsDate y m (observed y m d)
unfolding month_length
observed-IsDate y m d h r = ground arith

-- A date that the calendar makes has the fields that it was made of.
pub made-IsOn :
    (c : Calendar)
    → IsGregorian c
    → (y m d : ℕ) → IsDate y m d
    → (t : c.Date) × (c.from_ymd_opt (pos y) m d ≡ some t) × IsOn c t y m d
made-IsOn c g y m d v =
    let (t, e) = g.makes y m d v in
    let (ey, em, ed) = g.fields (pos y) m d t e in
    (t, e, record { valid = v; made = e; year_is = ey; month_is = em; day_is = ed })

-- A celebration is on its month's day, or on the 28th of February for a leap day.
pub effective_bday-IsOn :
    (c : Calendar)
    → IsGregorian c
    → (y m d : ℕ) → (1 ≤ y) × (y ≤ max_year)
    → IsRecurring m d
    → (t : c.Date) × (effective_bday c (pos y) m d ≡ some t) × IsOn c t y m (observed y m d)
unfolding effective_bday
effective_bday-IsOn c g y m d h r =
    let (t, e, on) = made-IsOn c g y m (observed y m d) (observed-IsDate y m d h r) in
    (t, ground (arith, is_leap-leap y), on)

february : {y : ℕ} → (1 ≤ y) × (y ≤ max_year) → IsDate y 2 28
unfolding month_length
february h = ground arith

january : {y : ℕ} → (1 ≤ y) × (y ≤ max_year) → IsDate y 1 1
unfolding month_length
january h = ground arith

or_else-makes {ℓ} :
    {A : Type ℓ} (o p q : Option A)
    → (a : A) × (q ≡ some a)
    → (a : A) × (or_else o (or_else p q) ≡ some a)
or_else-makes (some a) p q h = (a, refl)
or_else-makes none (some a) q h = (a, refl)
or_else-makes none none q h = h

-- Whatever the month and the day are, a year within range never panics.
pub effective_bday_total :
    (c : Calendar)
    → IsGregorian c
    → (y m d : ℕ) → (1 ≤ y) × (y ≤ max_year)
    → (t : c.Date) × (effective_bday c (pos y) m d ≡ some t)
unfolding effective_bday
effective_bday_total c g y m d h =
    elim (Bool-cases ((m == 2) && (d == 29) && not (is_leap (pos y)))) [
      | inl leap_day ↦ let (t, e) = g.makes y 2 28 (february h) in (t, rw leap_day e)
      | inr other ↦
          let (t, e) =
            or_else-makes (c.from_ymd_opt (pos y) m d) (c.from_ymd_opt (pos y) m 1) _
              (g.makes y 1 1 (january h)) in
          (t, rw other e)
    ]

-- The year that goes with a birthday: none, or one since 1900 in which the day exists.
abbrev pub IsYearOf : ℤ → ℕ → ℕ → Option ℤ → Type 0
IsYearOf this_year m d none = Unit
IsYearOf this_year m d (some y) =
    (pos 1900 ≤ℤ y) × (y ≤ℤ this_year) × (d ≤ month_length (leap (pos_part y)) m)

-- The rule that `validate_date` is to enforce: a day of its month, in its year if one is given.
pub record IsBirthday (this_year month day : ℤ) (year : Option ℤ) : Type 0 where
  pub m : ℕ
  pub d : ℕ
  pub month_is : month ≡ pos m
  pub day_is : day ≡ pos d
  pub recurs : IsRecurring m d
  pub year_in : IsYearOf this_year m d year

accepts :
    (this_year : ℤ) (m d : ℕ) (year : Option ℤ)
    → d < 2147483648
    → validate_date this_year (pos m) (pos d) year ≡ ok
    → IsBirthday this_year (pos m) (pos d) year
unfolding validate_date days_in_month month_length
accepts this_year m d none hd e = record {
  m = m;
  d = d;
  month_is = refl;
  day_is = refl;
  recurs = ground arith;
  year_in = tt;
}
accepts this_year m d (some (pos y)) hd e = record {
  m = m;
  d = d;
  month_is = refl;
  day_is = refl;
  recurs = ground arith;
  year_in = ground (arith, is_leap-leap y);
}
accepts this_year m d (some (negsuc y)) hd e = absurd (ground arith)

accepted :
    (this_year : ℤ) (m d : ℕ) (year : Option ℤ)
    → d < 2147483648
    → IsRecurring m d
    → IsYearOf this_year m d year
    → validate_date this_year (pos m) (pos d) year ≡ ok
unfolding validate_date days_in_month month_length
accepted this_year m d none hd r h = ground arith
accepted this_year m d (some (pos y)) hd r h = ground (arith, is_leap-leap y)
accepted this_year m d (some (negsuc y)) hd r h = absurd (omega arith)

-- For a day that is an `i32`, `validate_date` accepts just the birthdays that the calendar has: a day
-- of its month (the 29th of February where no year is given), and in its year, from 1900 to
-- `this_year`, where one is given.
pub validate_date-IsBirthday :
    (this_year month day : ℤ) (year : Option ℤ)
    → day ≤ℤ pos 2147483647
    → (validate_date this_year month day year ≡ ok) ↔ IsBirthday this_year month day year
unfolding validate_date
validate_date-IsBirthday this_year (pos m) (pos d) year hd =
    (accepts this_year m d year (omega arith), λ b. accepted_here b)
  where
    accepted_here :
        IsBirthday this_year (pos m) (pos d) year
        → validate_date this_year (pos m) (pos d) year ≡ ok
    accepted_here b =
        let em : m ≡ b.m = ap pos_part b.month_is in
        let ed : d ≡ b.d = ap pos_part b.day_is in
        rw (em, ed) (accepted this_year b.m b.d year (omega arith) b.recurs b.year_in)
validate_date-IsBirthday this_year (negsuc m) day year hd =
    (λ e. absurd (ground arith), λ b. absurd (cc b.month_is))
validate_date-IsBirthday this_year (pos m) (negsuc d) year hd =
    (λ e. absurd (ground arith), λ b. absurd (cc b.day_is))
