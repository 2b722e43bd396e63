-- ===== src/Birthday.antt =====
-- src/services/birthday.rs, the pure part: the calendar facts that depend on the birthday alone.
-- chrono's dates are those of a `Calendar`. A `None` of `Option` is a panic of the source, except
-- where the source itself returns an option. Years are `i32`; the column check of
-- migrations/002_birthdays.sql keeps stored years within 1900 to 2100, so no difference overflows.
pub mod Facts
pub mod Input
pub mod Dates
pub mod Upcoming
pub mod Resolve
pub mod Bounds
pub mod Choices
use birthday_role.Prelude.{
  ℕ, zero, suc, Bool, not, ◌&&◌, ◌||◌, Option, none, some, List, [], ◌∷◌, leb, ◌==◌, if◌then◌else◌,
  get_elem?, Text, codes, text,
}
use birthday_role.Prelude.Int.{ℤ, pos, rem, rem_euclid, eq_ℤ, as_u32, ◌-ℤ◌}
use birthday_role.Prelude.Options.{◌>>=◌, or_else, traverse}
use birthday_role.Calendar.{Calendar, Weekday, mon, tue, wed, thu, fri, sat, sun}

pub record BirthdayInput : Type 0 where
  pub birth_month : ℤ
  pub birth_day : ℤ
  pub birth_year : Option ℤ
  pub tz : Text

pub record Derived : Type 0 where
  pub zodiac : Text
  pub chinese_zodiac : Option Text
  pub season : Text
  pub birthstone : Text
  pub birth_weekday : Option Text

abbrev pub zodiac_signs : List Text
zodiac_signs = text (
    "capricorn" ∷ "aquarius" ∷ "pisces" ∷ "aries" ∷ "taurus" ∷ "gemini" ∷ "cancer" ∷ "leo" ∷ "virgo"
    ∷ "libra" ∷ "scorpio" ∷ "sagittarius" ∷ [])

abbrev pub chinese_zodiacs : List Text
chinese_zodiacs = text (
    "rat" ∷ "ox" ∷ "tiger" ∷ "rabbit" ∷ "dragon" ∷ "snake" ∷ "horse" ∷ "goat" ∷ "monkey" ∷ "rooster"
    ∷ "dog" ∷ "pig" ∷ [])

abbrev pub seasons : List Text
seasons = text ("winter" ∷ "spring" ∷ "summer" ∷ "autumn" ∷ [])

abbrev pub birthstones : List Text
birthstones = text (
    "garnet" ∷ "amethyst" ∷ "aquamarine" ∷ "diamond" ∷ "emerald" ∷ "pearl" ∷ "ruby" ∷ "peridot"
    ∷ "sapphire" ∷ "opal" ∷ "topaz" ∷ "turquoise" ∷ [])

abbrev pub weekdays : List Text
weekdays =
    text ("monday" ∷ "tuesday" ∷ "wednesday" ∷ "thursday" ∷ "friday" ∷ "saturday" ∷ "sunday" ∷ [])

unfoldable pub is_leap : ℤ → Bool
is_leap year =
    eq_ℤ (rem year 4) (pos 0) && (not (eq_ℤ (rem year 100) (pos 0)) || eq_ℤ (rem year 400) (pos 0))

unfoldable pub days_in_month : ℕ → Bool → ℕ
days_in_month month leap =
    if (month == 1)
      || (month == 3)
      || (month == 5)
      || (month == 7)
      || (month == 8)
      || (month == 10)
      || (month == 12)
    then 31
    else if (month == 4) || (month == 6) || (month == 9) || (month == 11)
    then 30
    else if month == 2
    then (if leap then 29 else 28)
    else 0

unfoldable pub effective_bday : (c : Calendar) → ℤ → ℕ → ℕ → Option (c.Date)
effective_bday c year month day =
    if (month == 2) && (day == 29) && not (is_leap year)
    then c.from_ymd_opt year 2 28
    else or_else (c.from_ymd_opt year month day)
        (or_else (c.from_ymd_opt year month 1) (c.from_ymd_opt year 1 1))

unfoldable pub zodiac : ℕ → ℕ → Text
zodiac month d =
    if month == 1
    then (if leb d 19 then codes "capricorn" else codes "aquarius")
    else if month == 2
    then (if leb d 18 then codes "aquarius" else codes "pisces")
    else if month == 3
    then (if leb d 20 then codes "pisces" else codes "aries")
    else if month == 4
    then (if leb d 19 then codes "aries" else codes "taurus")
    else if month == 5
    then (if leb d 20 then codes "taurus" else codes "gemini")
    else if month == 6
    then (if leb d 20 then codes "gemini" else codes "cancer")
    else if month == 7
    then (if leb d 22 then codes "cancer" else codes "leo")
    else if month == 8
    then (if leb d 22 then codes "leo" else codes "virgo")
    else if month == 9
    then (if leb d 22 then codes "virgo" else codes "libra")
    else if month == 10
    then (if leb d 22 then codes "libra" else codes "scorpio")
    else if month == 11
    then (if leb d 21 then codes "scorpio" else codes "sagittarius")
    else if month == 12
    then (if leb d 21 then codes "sagittarius" else codes "capricorn")
    else codes "capricorn"

-- The index panics out of bounds.
unfoldable pub chinese_zodiac : ℤ → Option Text
chinese_zodiac year = get_elem? chinese_zodiacs (rem_euclid (year -ℤ pos 4) 12)

unfoldable pub season : ℕ → Text
season month =
    if leb 3 month && leb month 5
    then codes "spring"
    else if leb 6 month && leb month 8
    then codes "summer"
    else if leb 9 month && leb month 11
    then codes "autumn"
    else codes "winter"

unfoldable pub birthstone : ℕ → Text
birthstone month =
    if month == 1
    then codes "garnet"
    else if month == 2
    then codes "amethyst"
    else if month == 3
    then codes "aquamarine"
    else if month == 4
    then codes "diamond"
    else if month == 5
    then codes "emerald"
    else if month == 6
    then codes "pearl"
    else if month == 7
    then codes "ruby"
    else if month == 8
    then codes "peridot"
    else if month == 9
    then codes "sapphire"
    else if month == 10
    then codes "opal"
    else if month == 11
    then codes "topaz"
    else if month == 12
    then codes "turquoise"
    else codes "garnet"

unfoldable pub weekday_of : Weekday → Text
weekday_of mon = codes "monday"
weekday_of tue = codes "tuesday"
weekday_of wed = codes "wednesday"
weekday_of thu = codes "thursday"
weekday_of fri = codes "friday"
weekday_of sat = codes "saturday"
weekday_of sun = codes "sunday"

unfoldable pub weekday_name : (c : Calendar) → c.Date → Text
unfolding weekday_of
weekday_name c date = weekday_of (c.weekday date)

-- The weekday of the birth itself; the date is made, or clamped as `effective_bday` does.
unfoldable pub birth_weekday : (c : Calendar) → ℕ → ℕ → ℤ → Option Text
birth_weekday c m d y = do
  date ← or_else (c.from_ymd_opt y m d) (effective_bday c y m d)
  some (weekday_name c date)

-- The struct that `compute_derived` returns.
abbrev pub derived_of : ℕ → ℕ → Option Text → Option Text → Derived
derived_of m d animal weekday = record {
  zodiac = zodiac m d;
  chinese_zodiac = animal;
  season = season m;
  birthstone = birthstone m;
  birth_weekday = weekday;
}

unfoldable pub compute_derived : (c : Calendar) → ℤ → ℤ → Option ℤ → Option Derived
compute_derived c month day year = do
  let m = as_u32 month
  let d = as_u32 day
  animal ← traverse chinese_zodiac year
  weekday ← traverse (birth_weekday c m d) year
  some (derived_of m d animal weekday)
