-- ===== src/Sql/Members.antt =====
-- The two evaluation paths on one member: migrations/005_birthday_functions.sql with
-- src/services/rule_sql.rs, and src/services/birthday.rs with src/services/condition_eval.rs.
use native.Mathlib.Nat.{add-zero}
use birthday_role.Prelude.{
  ℕ, suc, ◌-◌, ◌≤◌, ◌<◌, ◌≡◌, refl, ap, Bool, true, false, Option, none, some, All, Text, arith,
  ltb, leb, ◌==◌, if◌then◌else◌, Bool-cases, inl, inr,
}
use birthday_role.Prelude.Int.{ℤ, pos, ◌-ℤ◌, int_laws}
use birthday_role.Prelude.Options.{map_option}
use birthday_role.Calendar.{leap, ordinal, max_year, Calendar, IsOn, IsGregorian}
use birthday_role.Models.Facts.{Facts}
use birthday_role.Models.Condition.{ConditionTarget}
use birthday_role.Models.Rule.{RuleTree}
use birthday_role.Birthday.{Derived, compute_derived}
use birthday_role.Birthday.Facts.{Zones, local_today, compute_facts}
use birthday_role.Birthday.Dates.{IsRecurring, observed, observed-IsDate, made-IsOn}
use birthday_role.Birthday.Upcoming.{ge-leb, gt-ltb, celebration, year_later}
use birthday_role.Birthday.Resolve.{
  birthday_row, countdown, age_on, turning_on, IsBirthYear, IsFacts, compute_facts-IsFacts,
  succ_year,
}
use birthday_role.Eval.{evaluate}
use birthday_role.Sql.{build_rule_where}
use birthday_role.Sql.Functions.{
  bday_is_leap, bday_effective, bday_days_until, bday_is_today, bday_age, bday_age_turning,
}
use birthday_role.Sql.Semantics.{
  Columns, Local, local_values, target_value, eval_where, selected, bind_at,
}
use birthday_role.Sql.Clauses.{datum, IsRunnable}
use birthday_role.Sql.Agreement.{build_rule_where-evaluate}

bday_is_leap-leap : (y : ℕ) → bday_is_leap (pos y) ≡ leap y
unfolding bday_is_leap leap
bday_is_leap-leap y = ground arith

bday_effective-IsOn :
    (pg : Calendar)
    → IsGregorian pg
    → (y m d : ℕ) → (1 ≤ y) × (y ≤ max_year)
    → IsRecurring m d
    → (t : pg.Date) × (bday_effective pg (pos y) m d ≡ some t) × IsOn pg t y m (observed y m d)
unfolding bday_effective
bday_effective-IsOn pg g y m d h r =
    let (t, e, on) = made-IsOn pg g y m (observed y m d) (observed-IsDate y m d h r) in
    (t, ground (arith, bday_is_leap-leap y), on)

-- The columns that src/routes/verify.rs stores for a birthday.
abbrev pub stored : ℕ → ℕ → Option ℤ → Derived → Columns
stored m d year der = record {
  month = m;
  day = d;
  year = year;
  zodiac = der.zodiac;
  chinese = der.chinese_zodiac;
  season = der.season;
  stone = der.birthstone;
  weekday = der.birth_weekday;
}

-- The values of the bday_* functions, in day numbers.
abbrev pub local_of : ℕ → ℕ → Option ℤ → ℕ → ℕ → ℕ → Local
local_of m d year y0 m0 today = record {
  today = countdown m d y0 today == 0;
  week = leb (countdown m d y0 today) 6;
  this_month = m0 == m;
  days = pos (countdown m d y0 today);
  age = map_option (age_on m d y0 today) year;
  turning = map_option (turning_on m d y0 today) year;
}

sub_pos : (a b : ℕ) → b ≤ a → pos a -ℤ pos b ≡ pos (a - b)
sub_pos a b h = omega int_laws

age_step : (b : Bool) (x : ℤ) → x -ℤ (if b then pos 1 else pos 0) ≡ (if b then x -ℤ pos 1 else x)
age_step true x = refl
age_step false x = omega int_laws

year_step :
    (b : Bool) (y z : ℕ) (by : ℤ)
    → (if b then pos y else pos z) -ℤ by ≡ pos (if b then y else z) -ℤ by
year_step true y z by = refl
year_step false y z by = refl

module _ (pg : Calendar) (g : IsGregorian pg) {p_local : pg.Date} {y0 m0 d0 : ℕ}
    (on : IsOn pg p_local y0 m0 d0) (later : y0 < max_year) (m d : ℕ) (r : IsRecurring m d) where
  days_until-countdown :
      bday_days_until pg m d p_local ≡ some (pos (countdown m d y0 (ordinal y0 m0 d0)))
  unfolding bday_days_until
  days_until-countdown =
      let (this, e, there) = bday_effective-IsOn pg g y0 m d on.valid.year_in r in
      let (next, e', there') = bday_effective-IsOn pg g (suc y0) m d (omega arith, later) r in
      elim (Bool-cases (leb (ordinal y0 m0 d0) (celebration m d y0))) [
        | inl ahead ↦
            rw
              (
                on.year_is,
                e,
                ge-leb pg g there on,
                ahead,
                g.differs this p_local _ _ _ _ _ _ there on,
              )
              (ap some (sub_pos (celebration m d y0) (ordinal y0 m0 d0) (ground arith)))
        | inr past ↦
            rw
              (
                on.year_is,
                e,
                ge-leb pg g there on,
                past,
                succ_year,
                e',
                g.differs next p_local _ _ _ _ _ _ there' on,
              )
              (ap some (
                sub_pos (celebration m d (suc y0)) (ordinal y0 m0 d0)
                  (omega (arith, year_later m d r y0 m0 d0 on.valid))))
      ]

  ages-age_on :
      (year : Option ℤ)
      → bday_age pg year m d p_local ≡ some (map_option (age_on m d y0 (ordinal y0 m0 d0)) year)
  unfolding bday_age
  ages-age_on none = refl
  ages-age_on (some by) =
      let (this, e, there) = bday_effective-IsOn pg g y0 m d on.valid.year_in r in
      rw (on.year_is, e, gt-ltb pg g there on)
        (ap (λ a. some (some a))
          (age_step (ltb (ordinal y0 m0 d0) (celebration m d y0)) (pos y0 -ℤ by)))

  turning-turning_on :
      (year : Option ℤ)
      → bday_age_turning pg year m d p_local
        ≡ some (map_option (turning_on m d y0 (ordinal y0 m0 d0)) year)
  unfolding bday_age_turning
  turning-turning_on none = refl
  turning-turning_on (some by) =
      let (this, e, there) = bday_effective-IsOn pg g y0 m d on.valid.year_in r in
      rw (on.year_is, e, ge-leb pg g there on, succ_year)
        (ap (λ a. some (some a))
          (year_step (leb (ordinal y0 m0 d0) (celebration m d y0)) y0 (suc y0) by))

  -- The bday_* functions do not fail, and give the values of the local date.
  pub local_values-local_of :
      (year : Option ℤ) (der : Derived)
      → local_values pg (stored m d year der) p_local
        ≡ some (local_of m d year y0 m0 (ordinal y0 m0 d0))
  unfolding local_values bday_is_today
  local_values-local_of year der =
      rw (days_until-countdown, ages-age_on year, turning-turning_on year, on.month_is)
        (rw (add-zero (countdown m d y0 (ordinal y0 m0 d0))))

target_value-datum :
    (m d : ℕ) (year : Option ℤ) (der : Derived) (y0 m0 today : ℕ) (f : Facts)
    → IsFacts m d year der y0 m0 today f
    → (t : ConditionTarget)
    → target_value (stored m d year der) (local_of m d year y0 m0 today) t ≡ datum f t
unfolding target_value datum
target_value-datum m d year der y0 m0 today f is t = ground arith

module _ (c : Calendar) (g : IsGregorian c) (z : Zones (c.Date)) (tz : Text) {y0 m0 d0 : ℕ}
    (on : IsOn c (local_today z tz) y0 m0 d0) (pg : Calendar) (gp : IsGregorian pg)
    {p_local : pg.Date} (on' : IsOn pg p_local y0 m0 d0) (later : y0 < max_year) (m d : ℕ)
    (r : IsRecurring m d) (year : Option ℤ) (born : IsBirthYear year)
    (compile : Text → Option (Text → Bool)) (pg_regex : Text → Text → Bool) (tree : RuleTree)
    (runnable : All (λ g. All (IsRunnable compile pg_regex) g.conditions) tree.groups)
    (offset : ℕ) where
  -- The two paths agree. Take a member with a valid birthday, whose row holds the derived facts, and
  -- let chrono and Postgres have the same local date for the member, before the year 9999. Then
  -- `compute_facts` and the bday_* functions return, and the WHERE clause of a runnable rule, with its
  -- binds from any offset, selects the row just when `evaluate` matches the facts. A rule is runnable if
  -- its conditions have the operators and values that the validator lets through, its lists of
  -- numbers fit Postgres's `int`, and its own patterns, if it has any, match the same texts in the
  -- regex crate and in Postgres.
  pub build_rule_where-compute_facts :
      (f : Facts) × (der : Derived) × (l : Local) × (compute_facts c z (birthday_row tz m d year)
        ≡ some f)
      × (compute_derived c (pos m) (pos d) year ≡ some der)
      × (local_values pg (stored m d year der) p_local ≡ some l)
      × (selected (
            eval_where pg_regex
              (target_value (stored m d year der) l)
              (bind_at offset (build_rule_where tree offset).1)
              (build_rule_where tree offset).0)
          ≡ evaluate compile tree f)
  build_rule_where-compute_facts =
      let (f, der, e, h, is) = compute_facts-IsFacts c g z tz on later m d r year born in
      let today = ordinal y0 m0 d0 in
      (
        f,
        der,
        local_of m d year y0 m0 today,
        e,
        h,
        local_values-local_of pg gp on' later m d r year der,
        build_rule_where-evaluate compile pg_regex
            (target_value (stored m d year der) (local_of m d year y0 m0 today)) f
            (target_value-datum m d year der y0 m0 today f is) offset tree runnable,
      )
