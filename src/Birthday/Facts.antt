-- ===== src/Birthday/Facts.antt =====
-- src/services/birthday.rs: the facts that depend on the member's local "today".
use birthday_role.Prelude.{ℕ, true, ◌&&◌, Option, none, some, get_or, ◌==◌, if◌then◌else◌, Text}
use birthday_role.Prelude.Int.{ℤ, pos, eq_ℤ, leb_ℤ, as_u32, ◌+ℤ◌, ◌-ℤ◌}
use birthday_role.Calendar.{Calendar}
use birthday_role.Models.Facts.{Facts}
use birthday_role.Birthday.{BirthdayInput, Derived, effective_bday, compute_derived}
use birthday_role.Prelude.Options.{◌>>=◌, is_some}

-- chrono-tz, at the instant `Utc::now()`: the zones by name, and each zone's local date.
pub record Zones (Date : Type 0) : Type 1 where
  pub Tz : Type 0
  pub parse : Text → Option Tz
  pub name : Tz → Text
  pub utc : Tz
  pub today_in : Tz → Date

unfoldable pub local_today : {Date : Type 0} → Zones Date → Text → Date
local_today z tz_name = z.today_in (get_or (z.parse tz_name) z.utc)

-- The age that the member has, and the one that the next birthday brings.
unfoldable pub ages : (c : Calendar) → c.Date → c.Date → c.Date → Option ℤ → Option ℤ × Option ℤ
ages c today eff_this next none = (none, none)
ages c today eff_this next (some by) =
    let age = c.year today -ℤ by in
    (some (if c.gt eff_this today then age -ℤ pos 1 else age), some (c.year next -ℤ by))

-- The date of the birthday that comes next, today's included.
unfoldable pub next_bday : (c : Calendar) → c.Date → ℕ → ℕ → Option (c.Date)
next_bday c today m d = do
  eff_this ← effective_bday c (c.year today) m d
  if c.ge eff_this today then some eff_this else effective_bday c (c.year today +ℤ pos 1) m d

-- The struct that `compute_facts` returns.
abbrev pub facts_of :
    (c : Calendar) → BirthdayInput → c.Date → ℤ → Option ℤ × Option ℤ → Derived → Facts
facts_of c input today days_until age derived = record {
  has_birthday = true;
  has_year = is_some input.birth_year;
  is_today = eq_ℤ days_until (pos 0);
  is_this_week = leb_ℤ (pos 0) days_until && leb_ℤ days_until (pos 6);
  is_this_month = c.month today == as_u32 input.birth_month;
  days_until = days_until;
  age_years = age.0;
  age_turning = age.1;
  birth_month = input.birth_month;
  birth_day = input.birth_day;
  birth_year = input.birth_year;
  zodiac = derived.zodiac;
  chinese_zodiac = derived.chinese_zodiac;
  season = derived.season;
  birthstone = derived.birthstone;
  weekday = derived.birth_weekday;
}

unfoldable pub compute_facts : (c : Calendar) → Zones (c.Date) → BirthdayInput → Option Facts
compute_facts c z input = do
  let m = as_u32 input.birth_month
  let d = as_u32 input.birth_day
  let today = local_today z input.tz
  eff_this ← effective_bday c (c.year today) m d
  next ← next_bday c today m d
  derived ← compute_derived c input.birth_month input.birth_day input.birth_year
  some (
      facts_of c input today (c.days_between next today)
        (ages c today eff_this next input.birth_year) derived)
