-- ===== src/Tests/Gregorian.antt =====
-- A concrete calendar that behaves as chrono and Postgres document theirs, and zones over it.
use birthday_role.Prelude.{
  ℕ, ◌-◌, ◌%◌, ◌≡◌, refl, ap, Bool, ◌&&◌, Option, none, some, arith, leb, ◌==◌, if◌then◌else◌, Text,
  codes, match_text, List, [], ◌∷◌,
}
use birthday_role.Prelude.Int.{ℤ, pos, negsuc, pos_part, ◌-ℤ◌, leb_ℤ, ltb_ℤ}
use birthday_role.Calendar.{
  leap, month_length, ordinal, max_year, IsDate, Weekday, mon, tue, wed, thu, fri, sat, sun,
  Calendar, IsGregorian,
}
use birthday_role.Birthday.Facts.{Zones}
use birthday_role.Eval.{contains_text}

pub record Day : Type 0 where
  pub y : ℕ
  pub m : ℕ
  pub d : ℕ

abbrev pub day : ℕ → ℕ → ℕ → Day
day y m d = record { y = y; m = m; d = d }

abbrev number : Day → ℕ
number t = ordinal t.y t.m t.d

abbrev in_calendar : ℕ → ℕ → ℕ → Bool
in_calendar y m d =
    leb 1 y && leb y max_year && leb 1 m && leb m 12 && leb 1 d && leb d (month_length (leap y) m)

abbrev make : ℤ → ℕ → ℕ → Option Day
make (pos y) m d = if in_calendar y m d then some (day y m d) else none
make (negsuc y) m d = none

abbrev weekday_at : ℕ → Weekday
weekday_at r =
    if r == 0
    then mon
    else if r == 1
    then tue
    else if r == 2
    then wed
    else if r == 3
    then thu
    else if r == 4
    then fri
    else if r == 5
    then sat
    else sun

abbrev pub calendar : Calendar
calendar = record {
  Date = Day;
  from_ymd_opt = make;
  year = λ t. pos t.y;
  month = λ t. t.m;
  day = λ t. t.d;
  weekday = λ t. weekday_at ((number t - 1) % 7);
  days_between = λ s t. pos (number s) -ℤ pos (number t);
  ge = λ s t. leb_ℤ (pos 0) (pos (number s) -ℤ pos (number t));
  gt = λ s t. ltb_ℤ (pos 0) (pos (number s) -ℤ pos (number t));
}

make_valid : (y m d : ℕ) → IsDate y m d → make (pos y) m d ≡ some (day y m d)
make_valid y m d v = ground arith

make-eq-some :
    (y : ℤ) (m d : ℕ) (t : Day) → make y m d ≡ some t → (pos t.y ≡ y) × (t.m ≡ m) × (t.d ≡ d)
make-eq-some (pos y) m d t e = ground arith
make-eq-some (negsuc y) m d t e = cc

pub calendar-IsGregorian : IsGregorian calendar
calendar-IsGregorian = record {
  makes = λ y m d v. (day y m d, make_valid y m d v);
  fields = make-eq-some;
  differs = λ s t y m d y' m' d' p q.
      rw (p.month_is, p.day_is, q.month_is, q.day_is)
        (rw (ap pos_part p.year_is, ap pos_part q.year_is));
  compares = λ s t. (refl, refl);
}

-- Two zones; at the instant of the tests it is a leap day in one, and still the day before in the other.
pub data Zone : Type 0 where
  utc tokyo : Zone

abbrev zone_names : List (Text × Zone)
zone_names = (codes "UTC", utc) ∷ (codes "Asia/Tokyo", tokyo) ∷ []

abbrev zone_name : Zone → Text
zone_name utc = codes "UTC"
zone_name tokyo = codes "Asia/Tokyo"

abbrev local_date : Zone → Day
local_date utc = day 2024 2 28
local_date tokyo = day 2024 2 29

abbrev pub zones : Zones Day
zones = record {
  Tz = Zone;
  parse = λ s. match_text s zone_names;
  name = zone_name;
  utc = utc;
  today_in = local_date;
}

-- The crate's `is_match` for the patterns that mean themselves, and Postgres's `~` for them.
abbrev pub compile : Text → Option (Text → Bool)
compile p = some (contains_text p)
