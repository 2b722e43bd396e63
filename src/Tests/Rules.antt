-- ===== src/Tests/Rules.antt =====
-- src/services/rule_validator.rs, at a concrete payload.
use birthday_role.Prelude.{
  ◌≡◌, refl, false, none, some, arith, [], ◌∷◌, Text, codes, trim, is_whitespace, trimmed_parts,
  to_ascii_lowercase,
}
use birthday_role.Prelude.Int.{pos}
use birthday_role.Prelude.Results.{ok}
use birthday_role.Models.Facts.{Facts}
use birthday_role.Models.Json.{Number, number, integer, string, array, cons, nil}
use birthday_role.Models.Condition.{
  age_years, lte, zodiac_sign, neq, birth_season, in_list, kind, valid_for, target_from_key,
  operator_from_key,
}
use birthday_role.Models.Rule.{RuleTree}
use birthday_role.Birthday.{Derived, compute_derived}
use birthday_role.Birthday.Facts.{local_today, compute_facts}
use birthday_role.Birthday.Resolve.{birthday_row}
use birthday_role.Eval.{evaluate}
use birthday_role.Sql.{build_rule_where, int_array}
use birthday_role.Sql.Semantics.{eval_where, bind_at, target_value, local_values, selected, Local}
use birthday_role.Sql.Members.{stored}
use birthday_role.Validator.{
  normalize_value, normalize_as, normalize_strings, normalize_string, string_form, chosen,
  enum_value, normalize_int, parse_i64, string_choices,
}
use birthday_role.Validator.Rules.{
  RuleTreeBody, parse_rule_tree, validate_groups, validate_conditions, validate_condition,
  normalize_end,
}
use birthday_role.Validator.Saved.{parse_rule_tree-build_rule_where}
use birthday_role.Tests.Gregorian.{day, calendar, calendar-IsGregorian, zones, compile}
use birthday_role.Tests.Birthdays.{leap_today, leap_day, born_2000, one_regex}

abbrev shown : Number → Text
shown n = codes "0"

-- Turning at most 30, and of a sign that is not Leo; or the season is "fall".
abbrev body : RuleTreeBody
body = record {
  grant_on_any_birthday = false;
  groups =
      record {
        conditions =
            record {
              target = codes "age_years";
              operator = codes "lte";
              value = string (codes " 30 ");
              value_end = none;
            }
            ∷ record {
              target = codes "zodiac_sign";
              operator = codes "neq";
              value = string (codes "LEO");
              value_end = none;
            }
            ∷ [];
      }
      ∷ record {
        conditions =
            record {
              target = codes "birth_season";
              operator = codes "in";
              value = string (codes "Fall, ,winter");
              value_end = none;
            }
            ∷ [];
      }
      ∷ [];
}

abbrev saved_rule : RuleTree
saved_rule = record {
  grant_on_any_birthday = false;
  groups =
      record {
        conditions =
            record {
              target = age_years;
              operator = lte;
              value = number (integer (pos 30));
              value_end = none;
            }
            ∷ record {
              target = zodiac_sign;
              operator = neq;
              value = string (codes "leo");
              value_end = none;
            }
            ∷ [];
      }
      ∷ record {
        conditions =
            record {
              target = birth_season;
              operator = in_list;
              value = array (cons (string (codes "autumn")) (cons (string (codes "winter")) nil));
              value_end = none;
            }
            ∷ [];
      }
      ∷ [];
}

body_accepted : parse_rule_tree compile to_ascii_lowercase shown body ≡ ok saved_rule
unfolding parse_rule_tree validate_groups validate_conditions validate_condition normalize_end
    normalize_value normalize_as normalize_strings normalize_string string_form chosen enum_value
    normalize_int parse_i64 string_choices trim is_whitespace trimmed_parts target_from_key
    operator_from_key valid_for kind
body_accepted = refl

parse_rule_tree-build_rule_where_example :
    (f : Facts) × (der : Derived) × (l : Local) × (compute_facts calendar zones
        (birthday_row (codes "Asia/Tokyo") 2 29 (some (pos 2000)))
      ≡ some f)
    × (compute_derived calendar (pos 2) (pos 29) (some (pos 2000)) ≡ some der)
    × (local_values calendar (stored 2 29 (some (pos 2000)) der) (day 2024 2 29) ≡ some l)
    × (selected (
          eval_where one_regex
            (target_value (stored 2 29 (some (pos 2000)) der) l)
            (bind_at 1 (build_rule_where saved_rule 1).1)
            (build_rule_where saved_rule 1).0)
        ≡ evaluate compile saved_rule f)
unfolding local_today int_array
parse_rule_tree-build_rule_where_example =
    parse_rule_tree-build_rule_where calendar calendar-IsGregorian zones (codes "Asia/Tokyo")
      leap_today calendar calendar-IsGregorian leap_today (omega arith) 2 29 leap_day
      (some (pos 2000)) born_2000 compile one_regex to_ascii_lowercase shown body saved_rule 1
      body_accepted (((refl, λ s e. cc), ((refl, λ s e. cc), tt)), (((refl, λ s e. cc), tt), tt))
