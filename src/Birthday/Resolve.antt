-- ===== src/Birthday/Resolve.antt =====
-- src/services/birthday.rs: what `compute_facts` returns, in day numbers.
use birthday_role.Prelude.{
  ℕ, suc, ◌-◌, ◌≤◌, ◌<◌, ◌≡◌, refl, inl, inr, true, Option, none, some, arith, ◌==◌, ltb, leb,
  if◌then◌else◌, Bool-cases, get_elem?-some, Text,
}
use birthday_role.Prelude.Int.{ℤ, pos, negsuc, ◌+ℤ◌, ◌-ℤ◌, rem_euclid, as_u32, int_laws}
use birthday_role.Prelude.Options.{Returns, or_else_total, traverse, map_option, is_some}
use birthday_role.Calendar.{month_length, ordinal, max_year, Calendar, IsOn, IsGregorian}
use birthday_role.Models.Facts.{Facts}
use birthday_role.Birthday.{
  BirthdayInput, Derived, effective_bday, chinese_zodiac, chinese_zodiacs, birth_weekday,
  weekday_name, derived_of, compute_derived,
}
use birthday_role.Birthday.Facts.{Zones, local_today, ages, next_bday, facts_of, compute_facts}
use birthday_role.Birthday.Dates.{IsRecurring, observed, effective_bday-IsOn, effective_bday_total}
use birthday_role.Birthday.Upcoming.{
  ge-leb, gt-ltb, celebration, IsUpcoming, this_year-IsUpcoming, next_year-IsUpcoming,
}

day_small : (m d : ℕ) → IsRecurring m d → d ≤ 9999
unfolding month_length
day_small m d r = ground arith

-- The year of the next celebration, from the year and the number of today.
abbrev pub next_year : ℕ → ℕ → ℕ → ℕ → ℕ
next_year m d y0 today = if leb today (celebration m d y0) then y0 else suc y0

pub as_u32_small : (n : ℕ) → n ≤ 9999 → as_u32 (pos n) ≡ n
as_u32_small n h = omega arith

pub succ_year : (y : ℕ) → pos y +ℤ pos 1 ≡ pos (suc y)
succ_year y = omega int_laws

-- What is known of the next celebration.
pub record Celebrates (c : Calendar) (today : c.Date) (y0 m0 d0 m d : ℕ) : Type 0 where
  pub date : c.Date
  pub found : next_bday c today m d ≡ some date
  pub year : ℕ
  pub year_is : year ≡ next_year m d y0 (ordinal y0 m0 d0)
  pub on : IsOn c date year m (observed year m d)
  pub upcoming : IsUpcoming m d (ordinal y0 m0 d0) year

module _ (c : Calendar) (g : IsGregorian c) {today : c.Date} {y0 m0 d0 : ℕ}
    (on : IsOn c today y0 m0 d0) (later : y0 < max_year) (m d : ℕ) (r : IsRecurring m d) where
  -- `next_bday` finds the first celebration that is not past, and it is at most 365 days away.
  pub next_bday-Celebrates : Celebrates c today y0 m0 d0 m d
  unfolding next_bday
  next_bday-Celebrates =
      let (this, e, there) = effective_bday-IsOn c g y0 m d on.valid.year_in r in
      let (next, e', there') = effective_bday-IsOn c g (suc y0) m d (omega arith, later) r in
      elim (Bool-cases (leb (ordinal y0 m0 d0) (celebration m d y0))) [
        | inl ahead ↦ record {
          date = this;
          found = rw (on.year_is, e, ge-leb c g there on, ahead);
          year = y0;
          year_is = rw ahead;
          on = there;
          upcoming = this_year-IsUpcoming m d r y0 m0 d0 on.valid (ground arith);
        }
        | inr past ↦ record {
          date = next;
          found = rw (on.year_is, e, ge-leb c g there on, past, succ_year, e');
          year = suc y0;
          year_is = rw past;
          on = there';
          upcoming = next_year-IsUpcoming m d r y0 m0 d0 on.valid (ground arith);
        }
      ]

-- The days from today to the next celebration.
abbrev pub countdown : ℕ → ℕ → ℕ → ℕ → ℕ
countdown m d y0 today = celebration m d (next_year m d y0 today) - today

-- The age today, by day numbers, and the age that the next celebration brings.
abbrev pub age_on : ℕ → ℕ → ℕ → ℕ → ℤ → ℤ
age_on m d y0 today by =
    if ltb today (celebration m d y0) then pos y0 -ℤ by -ℤ pos 1 else pos y0 -ℤ by

abbrev pub turning_on : ℕ → ℕ → ℕ → ℕ → ℤ → ℤ
turning_on m d y0 today by = pos (next_year m d y0 today) -ℤ by

-- A year of birth, where one is given, is one that the calendar has.
abbrev pub IsBirthYear : Option ℤ → Type 0
IsBirthYear none = Unit
IsBirthYear (some y) = (k : ℕ) × (y ≡ pos k) × (1 ≤ k) × (k ≤ max_year)

pub chinese_zodiac_total : (y : ℤ) → (a : Text) × (chinese_zodiac y ≡ some a)
unfolding chinese_zodiac
chinese_zodiac_total y = get_elem?-some chinese_zodiacs _ (below (y -ℤ pos 4))
  where
    below : (x : ℤ) → suc (rem_euclid x 12) ≤ 12
    below (pos n) = omega arith
    below (negsuc n) = omega arith

animals_total : (year : Option ℤ) → Returns (traverse chinese_zodiac year)
animals_total none = (none, refl)
animals_total (some y) = let (a, e) = chinese_zodiac_total y in (some a, rw e)

module _ (c : Calendar) (g : IsGregorian c) where
  birth_weekday_total :
      (m d k : ℕ) → (1 ≤ k) × (k ≤ max_year) → Returns (birth_weekday c m d (pos k))
  unfolding birth_weekday
  birth_weekday_total m d k h =
      let (t, e) =
        or_else_total (c.from_ymd_opt (pos k) m d) (effective_bday c (pos k) m d)
          (effective_bday_total c g k m d h) in
      (weekday_name c t, rw e)

  birth_weekdays_total :
      (m d : ℕ) (year : Option ℤ) → IsBirthYear year → Returns (traverse (birth_weekday c m d) year)
  birth_weekdays_total m d none h = (none, refl)
  birth_weekdays_total m d (some y) (k, e, low, high) =
      let (w, ew) = birth_weekday_total m d k (low, high) in (some w, rw (e, ew))

  -- The derived facts of a birthday with a year of the calendar are computed without a panic.
  pub compute_derived_total :
      (month day : ℤ) (year : Option ℤ)
      → IsBirthYear year
      → Returns (compute_derived c month day year)
  unfolding compute_derived
  compute_derived_total month day year h =
      let (a, ea) = animals_total year in
      let (w, ew) = birth_weekdays_total (as_u32 month) (as_u32 day) year h in
      (derived_of (as_u32 month) (as_u32 day) a w, rw (ea, ew))

-- The facts of the birthday m-d, for the today of year `y0` with day number `today`.
pub record IsFacts (m d : ℕ) (year : Option ℤ) (der : Derived) (y0 m0 today : ℕ) (f : Facts)
    : Type 0 where
  pub has_birthday_is : f.has_birthday ≡ true
  pub has_year_is : f.has_year ≡ is_some year
  pub days_until_is : f.days_until ≡ pos (countdown m d y0 today)
  pub is_today_is : f.is_today ≡ (countdown m d y0 today == 0)
  pub is_this_week_is : f.is_this_week ≡ leb (countdown m d y0 today) 6
  pub is_this_month_is : f.is_this_month ≡ (m0 == m)
  pub age_years_is : f.age_years ≡ map_option (age_on m d y0 today) year
  pub age_turning_is : f.age_turning ≡ map_option (turning_on m d y0 today) year
  pub month_is : f.birth_month ≡ pos m
  pub day_is : f.birth_day ≡ pos d
  pub year_is : f.birth_year ≡ year
  pub zodiac_is : f.zodiac ≡ der.zodiac
  pub chinese_zodiac_is : f.chinese_zodiac ≡ der.chinese_zodiac
  pub season_is : f.season ≡ der.season
  pub birthstone_is : f.birthstone ≡ der.birthstone
  pub weekday_is : f.weekday ≡ der.birth_weekday

-- The stored birthday m-d of a member in the zone `tz`.
abbrev pub birthday_row : Text → ℕ → ℕ → Option ℤ → BirthdayInput
birthday_row tz m d year = record {
  birth_month = pos m;
  birth_day = pos d;
  birth_year = year;
  tz = tz;
}

module _ (c : Calendar) (g : IsGregorian c) (z : Zones (c.Date)) (tz : Text) {y0 m0 d0 : ℕ}
    (on : IsOn c (local_today z tz) y0 m0 d0) (later : y0 < max_year) (m d : ℕ)
    (r : IsRecurring m d) (year : Option ℤ) (born : IsBirthYear year) where
  until :
      (n : Celebrates c (local_today z tz) y0 m0 d0 m d)
      → c.days_between n.date (local_today z tz) ≡ pos (countdown m d y0 (ordinal y0 m0 d0))
  until n =
      let diff =
        g.differs n.date (local_today z tz) n.year m (observed n.year m d) y0 m0 d0 n.on on in
      let ahead : ordinal y0 m0 d0 ≤ celebration m d (next_year m d y0 (ordinal y0 m0 d0)) =
        rw n.year_is at n.upcoming.reached in
      rw (diff, n.year_is) (omega int_laws)

  ages-facts :
      (this : c.Date)
      → IsOn c this y0 m (observed y0 m d)
      → (n : Celebrates c (local_today z tz) y0 m0 d0 m d)
      → ages c (local_today z tz) this n.date year ≡ (
        map_option (age_on m d y0 (ordinal y0 m0 d0)) year,
        map_option (turning_on m d y0 (ordinal y0 m0 d0)) year,
      )
  unfolding ages
  ages-facts this there n = ages_of year
    where
      ages_of :
          (by : Option ℤ)
          → ages c (local_today z tz) this n.date by ≡ (
            map_option (age_on m d y0 (ordinal y0 m0 d0)) by,
            map_option (turning_on m d y0 (ordinal y0 m0 d0)) by,
          )
      ages_of none = refl
      ages_of (some by) = rw (gt-ltb c g there on, on.year_is, n.on.year_is, n.year_is)

  month_fact : (c.month (local_today z tz) == as_u32 (pos m)) ≡ (m0 == m)
  month_fact = rw (on.month_is, as_u32_small m (omega arith))

  facts_of-IsFacts :
      (der : Derived) (this : c.Date)
      → IsOn c this y0 m (observed y0 m d)
      → (n : Celebrates c (local_today z tz) y0 m0 d0 m d)
      → IsFacts m d year der y0 m0 (ordinal y0 m0 d0) (
          facts_of c
            (birthday_row tz m d year)
            (local_today z tz)
            (c.days_between n.date (local_today z tz))
            (ages c (local_today z tz) this n.date year)
            der)
  facts_of-IsFacts der this there n =
      rw (until n, ages-facts this there n)
        (record {
          has_birthday_is = refl;
          has_year_is = refl;
          days_until_is = refl;
          is_today_is = ground arith;
          is_this_week_is = ground arith;
          is_this_month_is = month_fact;
          age_years_is = refl;
          age_turning_is = refl;
          month_is = refl;
          day_is = refl;
          year_is = refl;
          zodiac_is = refl;
          chinese_zodiac_is = refl;
          season_is = refl;
          birthstone_is = refl;
          weekday_is = refl;
        })

  -- `compute_facts` returns, and its facts are those of the birthday.
  pub compute_facts-IsFacts :
      (f : Facts) × (der : Derived) × (compute_facts c z (birthday_row tz m d year) ≡ some f)
      × (compute_derived c (pos m) (pos d) year ≡ some der)
      × IsFacts m d year der y0 m0 (ordinal y0 m0 d0) f
  unfolding compute_facts
  compute_facts-IsFacts =
      let (der, e) = compute_derived_total c g (pos m) (pos d) year born in
      let (this, et, there) = effective_bday-IsOn c g y0 m d on.valid.year_in r in
      let n = next_bday-Celebrates c g on later m d r in
      let today = local_today z tz in
      (
        facts_of c (birthday_row tz m d year) today (c.days_between n.date today)
            (ages c today this n.date year) der,
        der,
        rw (
          on.year_is,
          as_u32_small m (omega arith),
          as_u32_small d (day_small m d r),
          et,
          n.found,
          e,
        ),
        e,
        facts_of-IsFacts der this there n,
      )
