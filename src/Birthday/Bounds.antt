-- ===== src/Birthday/Bounds.antt =====
-- src/services/birthday.rs: what the time-relative facts mean.
use mathlib.Core.Path.{ap₂}
use birthday_role.Prelude.{
  ℕ, ◌+◌, ◌≤◌, ◌<◌, ◌≡◌, refl, ap, ◌↔◌, inl, inr, Bool, true, Option, none, some, arith, ◌==◌, leb,
  if◌then◌else◌, Bool-cases, ==_iff, Text, ◌∙◌,
}
use birthday_role.Prelude.Int.{ℤ, pos, ◌-ℤ◌}
use birthday_role.Prelude.Options.{map_option}
use birthday_role.Calendar.{ordinal, max_year, Calendar, IsOn, IsGregorian}
use birthday_role.Calendar.Ordinal.{ordinal_inj}
use birthday_role.Models.Facts.{Facts}
use birthday_role.Birthday.{Derived}
use birthday_role.Birthday.Facts.{Zones, local_today, compute_facts}
use birthday_role.Birthday.Dates.{IsRecurring, observed, observed-IsDate}
use birthday_role.Birthday.Upcoming.{celebration, year_later}
use birthday_role.Birthday.Resolve.{
  birthday_row, next_year, next_bday-Celebrates, countdown, age_on, turning_on, IsBirthYear,
  IsFacts, compute_facts-IsFacts,
}

-- The promise of the time-relative facts. The celebration that `days_until` counts to is the first
-- that is not past, in whatever year; the count is 0 to 365; the flags tell today and the next
-- seven days; the age is the one that the celebration brings, less one until the day itself.
pub record IsResolved (m d y0 m0 d0 : ℕ) (year : Option ℤ) (f : Facts) : Type 0 where
  pub days : ℕ
  pub days_until_is : f.days_until ≡ pos days
  pub within : days ≤ 365
  pub celebrated : ℕ
  pub counts : ordinal y0 m0 d0 + days ≡ celebration m d celebrated
  pub first :
      (y : ℕ)
      → (1 ≤ y) × (y ≤ max_year)
      → ordinal y0 m0 d0 ≤ celebration m d y
      → celebration m d celebrated ≤ celebration m d y
  pub today_iff : (f.is_today ≡ true) ↔ ((m0 ≡ m) × (d0 ≡ observed y0 m d))
  pub week_iff : (f.is_this_week ≡ true) ↔ (days ≤ 6)
  pub month_iff : (f.is_this_month ≡ true) ↔ (m0 ≡ m)
  pub turning_is : f.age_turning ≡ map_option (λ by. pos celebrated -ℤ by) year
  pub age_is :
      f.age_years
      ≡ map_option
          (λ by. if f.is_today then pos celebrated -ℤ by else pos celebrated -ℤ by -ℤ pos 1)
          year

module _ (c : Calendar) (g : IsGregorian c) (z : Zones (c.Date)) (tz : Text) {y0 m0 d0 : ℕ}
    (on : IsOn c (local_today z tz) y0 m0 d0) (later : y0 < max_year) (m d : ℕ)
    (r : IsRecurring m d) (year : Option ℤ) (born : IsBirthYear year) where
  -- The count is 0 just when the celebration of this year is today.
  counted : (countdown m d y0 (ordinal y0 m0 d0) == 0) ≡ (ordinal y0 m0 d0 == celebration m d y0)
  counted = elim (Bool-cases (leb (ordinal y0 m0 d0) (celebration m d y0))) [
    | inl here ↦ rw here (ground arith)
    | inr past ↦ rw past (ground (arith, year_later m d r y0 m0 d0 on.valid))
  ]

  age_by :
      (today : Bool)
      → today ≡ (ordinal y0 m0 d0 == celebration m d y0)
      → (by : ℤ)
      → age_on m d y0 (ordinal y0 m0 d0) by ≡ (
          if today
          then turning_on m d y0 (ordinal y0 m0 d0) by
          else turning_on m d y0 (ordinal y0 m0 d0) by -ℤ pos 1)
  unfolding ◌-ℤ◌
  age_by today e by = ground arith

  ages_by :
      (today : Bool)
      → today ≡ (ordinal y0 m0 d0 == celebration m d y0)
      → (by : Option ℤ)
      → map_option (age_on m d y0 (ordinal y0 m0 d0)) by
        ≡ map_option
            (λ by.
              if today
              then turning_on m d y0 (ordinal y0 m0 d0) by
              else turning_on m d y0 (ordinal y0 m0 d0) by -ℤ pos 1)
            by
  ages_by today e none = refl
  ages_by today e (some by) = ap some (age_by today e by)

  today_iff-celebration :
      ((ordinal y0 m0 d0 == celebration m d y0) ≡ true) ↔ ((m0 ≡ m) × (d0 ≡ observed y0 m d))
  today_iff-celebration = (
    λ e.
        ordinal_inj y0 m0 d0 m (observed y0 m d) on.valid
          (observed-IsDate y0 m d on.valid.year_in r) ((==_iff _ _).0 e),
    λ e. (==_iff _ _).1 (ap₂ (ordinal y0) e.0 e.1),
  )

  resolved :
      (der : Derived) (f : Facts)
      → IsFacts m d year der y0 m0 (ordinal y0 m0 d0) f
      → IsResolved m d y0 m0 d0 year f
  resolved der f is =
      let n = next_bday-Celebrates c g on later m d r in
      let ahead : ordinal y0 m0 d0 ≤ celebration m d (next_year m d y0 (ordinal y0 m0 d0)) =
        rw n.year_is at n.upcoming.reached in
      record {
        days = countdown m d y0 (ordinal y0 m0 d0);
        days_until_is = is.days_until_is;
        within = rw (← n.year_is) (omega (arith, n.upcoming.within));
        celebrated = n.year;
        counts = rw (← n.year_is) (omega (arith, n.upcoming.reached));
        first = n.upcoming.first;
        today_iff = rw (is.is_today_is, counted) today_iff-celebration;
        week_iff = rw is.is_this_week_is (ground arith);
        month_iff = rw is.is_this_month_is (==_iff m0 m);
        turning_is = rw (is.age_turning_is, n.year_is);
        age_is =
            rw (is.age_years_is, n.year_is) (ages_by f.is_today (is.is_today_is ∙ counted) year);
      }

  -- For a valid birthday, seen on a date before the year 9999, `compute_facts` does not panic, and its
  -- facts are resolved as promised.
  pub compute_facts-IsResolved :
      (f : Facts) × (compute_facts c z (birthday_row tz m d year) ≡ some f)
      × IsResolved m d y0 m0 d0 year f
  compute_facts-IsResolved =
      let (f, der, e, _, is) = compute_facts-IsFacts c g z tz on later m d r year born in
      (f, e, resolved der f is)
