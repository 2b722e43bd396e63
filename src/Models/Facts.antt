-- ===== src/Models/Facts.antt =====
-- src/models/facts.rs: a member's birthday facts, for one "today".
use birthday_role.Prelude.{Bool, Option, Text}
use birthday_role.Prelude.Int.{ℤ}

pub record Facts : Type 0 where
  pub has_birthday : Bool
  pub has_year : Bool
  pub is_today : Bool
  pub is_this_week : Bool
  pub is_this_month : Bool
  pub days_until : ℤ
  pub age_years : Option ℤ
  pub age_turning : Option ℤ
  pub birth_month : ℤ
  pub birth_day : ℤ
  pub birth_year : Option ℤ
  pub zodiac : Text
  pub chinese_zodiac : Option Text
  pub season : Text
  pub birthstone : Text
  pub weekday : Option Text
