-- ===== src/Sql/Functions.antt =====
-- migrations/005_birthday_functions.sql: the bday_* functions, over Postgres's calendar. A `none` is
-- an error of `make_date`. A month is 1 to 12 and a day 1 to 31, by the checks of
-- migrations/002_birthdays.sql, so both are natural numbers here.
use birthday_role.Prelude.{ℕ, Bool, not, ◌&&◌, Option, none, some, ◌==◌, if◌then◌else◌}
use birthday_role.Prelude.Int.{ℤ, pos, rem, eq_ℤ, ◌+ℤ◌, ◌-ℤ◌}
use birthday_role.Prelude.Options.{◌>>=◌, map_option}
use birthday_role.Calendar.{Calendar}
use mathlib.Core.Bool.{◌||◌}

unfoldable pub bday_is_leap : ℤ → Bool
bday_is_leap p_year =
    eq_ℤ (rem p_year 4) (pos 0)
    && (not (eq_ℤ (rem p_year 100) (pos 0)) || eq_ℤ (rem p_year 400) (pos 0))

module _ (pg : Calendar) where
  unfoldable pub bday_effective : ℤ → ℕ → ℕ → Option (pg.Date)
  bday_effective p_year p_month p_day =
      if (p_month == 2) && (p_day == 29) && not (bday_is_leap p_year)
      then pg.from_ymd_opt p_year 2 28
      else pg.from_ymd_opt p_year p_month p_day

  unfoldable pub bday_days_until : ℕ → ℕ → pg.Date → Option ℤ
  bday_days_until p_month p_day p_local = do
    this ← bday_effective (pg.year p_local) p_month p_day
    next ←
        (if pg.ge this p_local
          then some this
          else bday_effective (pg.year p_local +ℤ pos 1) p_month p_day)
    some (pg.days_between next p_local)

  unfoldable pub bday_is_today : ℕ → ℕ → pg.Date → Option Bool
  bday_is_today p_month p_day p_local =
      map_option (λ n. eq_ℤ n (pos 0)) (bday_days_until p_month p_day p_local)

  -- A null year gives a null age.
  unfoldable pub bday_age : Option ℤ → ℕ → ℕ → pg.Date → Option (Option ℤ)
  bday_age none p_month p_day p_local = some none
  bday_age (some p_year) p_month p_day p_local = do
    this ← bday_effective (pg.year p_local) p_month p_day
    some (some (pg.year p_local -ℤ p_year -ℤ (if pg.gt this p_local then pos 1 else pos 0)))

  unfoldable pub bday_age_turning : Option ℤ → ℕ → ℕ → pg.Date → Option (Option ℤ)
  bday_age_turning none p_month p_day p_local = some none
  bday_age_turning (some p_year) p_month p_day p_local = do
    this ← bday_effective (pg.year p_local) p_month p_day
    some (
        some ((if pg.ge this p_local then pg.year p_local else pg.year p_local +ℤ pos 1) -ℤ p_year))
