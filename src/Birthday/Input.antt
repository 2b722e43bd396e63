-- ===== src/Birthday/Input.antt =====
-- src/services/birthday.rs: what a member submits is checked and put in normal form.
use birthday_role.Prelude.{
  ℕ, Bool, true, not, ◌&&◌, ◌||◌, Option, if◌then◌else◌, Text, codes, is_empty, ltb, trim,
}
use birthday_role.Prelude.Int.{ℤ, pos, eq_ℤ, leb_ℤ, ltb_ℤ, as_u32}
use birthday_role.Prelude.Options.{is_some, map_or}
use birthday_role.Birthday.{is_leap, days_in_month}
use birthday_role.Birthday.Facts.{Zones}

-- The messages of `validate_date`, each with the numbers that it prints.
pub data DateError : Type 0 where
  month_error : DateError
  year_error : ℤ → DateError
  day_error : ℕ → Bool → DateError

pub data Checked : Type 0 where
  ok : Checked
  err : DateError → Checked

unfoldable pub check_day : ℤ → ℤ → Option ℤ → Checked
check_day month day year =
    let max = days_in_month (as_u32 month) (map_or true is_leap year) in
    if ltb_ℤ day (pos 1) || ltb max (as_u32 day)
    then err (day_error max (eq_ℤ month (pos 2) && is_some year))
    else ok

-- `this_year` is `Utc::now().year()`.
unfoldable pub validate_date : ℤ → ℤ → ℤ → Option ℤ → Checked
unfolding check_day
validate_date this_year month day year =
    if not (leb_ℤ (pos 1) month && leb_ℤ month (pos 12))
    then err month_error
    else if map_or true (λ y. leb_ℤ (pos 1900) y && leb_ℤ y this_year) year
    then check_day month day year
    else err (year_error this_year)

unfoldable pub normalize_tz : {Date : Type 0} → Zones Date → Text → Text
normalize_tz z input =
    let trimmed = trim input in
    if is_empty trimmed then codes "UTC" else map_or (codes "UTC") z.name (z.parse trimmed)
