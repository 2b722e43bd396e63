-- ===== src/Routes/Catalog.antt =====
-- src/routes/admin.rs: the catalogs that the rule editor offers, as the fields of their JSON objects.
use birthday_role.Prelude.{Bool, true, false, List, [], ◌∷◌, map, Text, codes}
use birthday_role.Birthday.{zodiac_signs, chinese_zodiacs, seasons, birthstones, weekdays}
use birthday_role.Models.Condition.{
  TargetKind, bool, int, string, ConditionTarget, has_birthday_set, has_birth_year,
  is_birthday_today, is_birthday_week, is_birthday_month, days_until_birthday, age_years,
  age_turning_this_year, birth_month, birth_day, birth_year, zodiac_sign, chinese_zodiac,
  birth_season, birthstone, birth_weekday, kind, target_as_str, ConditionOperator, eq, neq, gt, gte,
  lt, lte, between, contains, regex, in_list, not_in, operator_as_str, valid_for,
}

unfoldable pub kind_str : TargetKind → Text
kind_str bool = codes "bool"
kind_str int = codes "int"
kind_str string = codes "string"

pub record TargetEntry : Type 0 where
  pub key : Text
  pub label : Text
  pub kind : Text
  pub group : Text
  pub options_key : Text

abbrev pub target_entries : List (ConditionTarget × Text × Text × Text)
target_entries =
    (is_birthday_today, codes "It's their birthday today", codes "when", codes "")
    ∷ (is_birthday_week, codes "Birthday is within 7 days", codes "when", codes "")
    ∷ (is_birthday_month, codes "Birthday is this month", codes "when", codes "")
    ∷ (days_until_birthday, codes "Days until their birthday", codes "when", codes "")
    ∷ (birth_month, codes "Birth month (1–12)", codes "date", codes "")
    ∷ (birth_day, codes "Birth day of month (1–31)", codes "date", codes "")
    ∷ (birth_year, codes "Birth year", codes "date", codes "")
    ∷ (age_years, codes "Current age (self-reported)", codes "age", codes "")
    ∷ (age_turning_this_year, codes "Age turning on next birthday", codes "age", codes "")
    ∷ (has_birth_year, codes "Provided a birth year", codes "age", codes "")
    ∷ (has_birthday_set, codes "Has saved a birthday", codes "presence", codes "")
    ∷ (zodiac_sign, codes "Western zodiac sign", codes "calendar", codes "zodiac")
    ∷ (chinese_zodiac, codes "Chinese zodiac animal", codes "calendar", codes "chinese")
    ∷ (birth_season, codes "Birth season", codes "calendar", codes "season")
    ∷ (birthstone, codes "Birthstone", codes "calendar", codes "birthstone")
    ∷ (birth_weekday, codes "Weekday they were born", codes "calendar", codes "weekday")
    ∷ []

abbrev pub target_entry : ConditionTarget × Text × Text × Text → TargetEntry
target_entry (t, label, group, opts) = record {
  key = target_as_str t;
  label = label;
  kind = kind_str (kind t);
  group = group;
  options_key = opts;
}

unfoldable pub target_catalog : List TargetEntry
target_catalog = map target_entry target_entries

pub record OperatorEntry : Type 0 where
  pub key : Text
  pub label : Text
  pub valid_for_bool : Bool
  pub valid_for_int : Bool
  pub valid_for_string : Bool
  pub needs_value_end : Bool
  pub value_is_list : Bool

abbrev pub operator_entries : List (ConditionOperator × Text)
operator_entries =
    (eq, codes "equals")
    ∷ (neq, codes "not equals")
    ∷ (gt, codes "greater than")
    ∷ (gte, codes "at least")
    ∷ (lt, codes "less than")
    ∷ (lte, codes "at most")
    ∷ (between, codes "between")
    ∷ (contains, codes "contains")
    ∷ (regex, codes "matches regex")
    ∷ (in_list, codes "is one of")
    ∷ (not_in, codes "is not one of")
    ∷ []

abbrev pub is_between : ConditionOperator → Bool
is_between between = true
is_between _ = false

abbrev pub is_list : ConditionOperator → Bool
is_list in_list = true
is_list not_in = true
is_list _ = false

abbrev pub operator_entry : ConditionOperator × Text → OperatorEntry
operator_entry (op, label) = record {
  key = operator_as_str op;
  label = label;
  valid_for_bool = valid_for op bool;
  valid_for_int = valid_for op int;
  valid_for_string = valid_for op string;
  needs_value_end = is_between op;
  value_is_list = is_list op;
}

unfoldable pub operator_catalog : List OperatorEntry
operator_catalog = map operator_entry operator_entries

unfoldable pub value_options : List (Text × List Text)
value_options =
    (codes "zodiac", zodiac_signs)
    ∷ (codes "chinese", chinese_zodiacs)
    ∷ (codes "season", seasons)
    ∷ (codes "birthstone", birthstones)
    ∷ (codes "weekday", weekdays)
    ∷ []
