-- ===== src/Tests/Birthdays.antt =====
-- src/services/birthday.rs and the two paths of a rule, at concrete birthdays.
use birthday_role.Prelude.{
  ◌≡◌, refl, ◌↔◌, false, none, some, arith, [], ◌∷◌, codes, All, ◌++◌, Text, Bool, text_eq, ◌&&◌,
}
use birthday_role.Prelude.Int.{pos}
use birthday_role.Calendar.{month_length, leap, IsOn}
use birthday_role.Models.Facts.{Facts}
use birthday_role.Models.Json.{number, integer, string}
use birthday_role.Models.Condition.{
  Condition, valid_for, kind, days_until_birthday, zodiac_sign, lte, contains, chinese_zodiac,
  regex,
}
use birthday_role.Models.Rule.{RuleTree}
use birthday_role.Birthday.{Derived, compute_derived}
use birthday_role.Birthday.Facts.{local_today, compute_facts}
use birthday_role.Birthday.Input.{ok, validate_date}
use birthday_role.Birthday.Dates.{IsRecurring, IsBirthday, validate_date-IsBirthday}
use birthday_role.Birthday.Resolve.{IsBirthYear, birthday_row, compute_derived_total}
use birthday_role.Birthday.Bounds.{IsResolved, compute_facts-IsResolved}
use birthday_role.Birthday.Choices.{IsOffered, compute_derived-IsOffered}
use birthday_role.Eval.{contains_text, evaluate, regex_match}
use birthday_role.Sql.{build_rule_where, escape_like, int_array}
use birthday_role.Sql.Semantics.{eval_where, bind_at, target_value, local_values, selected, Local}
use birthday_role.Sql.Like.{like_match, like_match-escape_like}
use birthday_role.Sql.Clauses.{IsChecked, IsRunnable}
use birthday_role.Sql.Members.{stored, build_rule_where-compute_facts}
use birthday_role.Tests.Gregorian.{day, calendar, calendar-IsGregorian, zones, compile}

-- A leap day, seen in Tokyo on the leap day of 2024.
pub leap_today : IsOn calendar (local_today zones (codes "Asia/Tokyo")) 2024 2 29
unfolding month_length leap local_today
leap_today = record {
  valid = record {
    year_in = (omega arith, omega arith);
    month_in = (omega arith, omega arith);
    day_in = (omega arith, omega arith);
  };
  made = refl;
  year_is = refl;
  month_is = refl;
  day_is = refl;
}

pub leap_day : IsRecurring 2 29
unfolding month_length
leap_day = record { month_in = (omega arith, omega arith); day_in = (omega arith, omega arith) }

pub born_2000 : IsBirthYear (some (pos 2000))
born_2000 = (2000, refl, omega arith, omega arith)

compute_facts-IsResolved_example :
    (f : Facts) × (compute_facts calendar zones
        (birthday_row (codes "Asia/Tokyo") 2 29 (some (pos 2000)))
      ≡ some f)
    × IsResolved 2 29 2024 2 29 (some (pos 2000)) f
compute_facts-IsResolved_example =
    compute_facts-IsResolved calendar calendar-IsGregorian zones (codes "Asia/Tokyo") leap_today
      (omega arith) 2 29 leap_day (some (pos 2000)) born_2000

validate_date-IsBirthday_example :
    (validate_date (pos 2024) (pos 2) (pos 29) (some (pos 1999)) ≡ ok)
    ↔ IsBirthday (pos 2024) (pos 2) (pos 29) (some (pos 1999))
validate_date-IsBirthday_example =
    validate_date-IsBirthday (pos 2024) (pos 2) (pos 29) (some (pos 1999)) (omega arith)

like_match-escape_like_example :
    like_match (b'%' ∷ escape_like (codes "50%_\\") ++ b'%' ∷ []) (codes "a 50%_\\ b")
    ≡ contains_text (codes "50%_\\") (codes "a 50%_\\ b")
like_match-escape_like_example = like_match-escape_like (codes "50%_\\") (codes "a 50%_\\ b")

derived_1999 :
    (der : Derived) × (compute_derived calendar (pos 3) (pos 8) (some (pos 1999)) ≡ some der)
derived_1999 =
    compute_derived_total calendar calendar-IsGregorian (pos 3) (pos 8) (some (pos 1999))
      (1999, refl, omega arith, omega arith)

compute_derived-IsOffered_example : IsOffered derived_1999.0
compute_derived-IsOffered_example =
    compute_derived-IsOffered calendar (pos 3) (pos 8) (some (pos 1999)) derived_1999.0
      derived_1999.1

-- "Within a week of the birthday, or that with a sign with `i_` in its name, or born in a year of the rat".
abbrev soon : Condition
soon = record {
  target = days_until_birthday;
  operator = lte;
  value = number (integer (pos 7));
  value_end = none;
}

abbrev sign : Condition
sign = record {
  target = zodiac_sign;
  operator = contains;
  value = string (codes "i_");
  value_end = none;
}

soon-IsChecked : IsChecked compile soon
unfolding valid_for kind
soon-IsChecked = record { valid = refl; has_value = (pos 7, refl) }

sign-IsChecked : IsChecked compile sign
unfolding valid_for kind
sign-IsChecked = record { valid = refl; has_value = (codes "i_", refl) }

abbrev animal : Condition
animal = record {
  target = chinese_zodiac;
  operator = regex;
  value = string (codes "rat");
  value_end = none;
}

-- A Postgres that knows the pattern of the rule, and no other.
abbrev pub one_regex : Text → Text → Bool
one_regex p s = text_eq p (codes "rat") && contains_text p s

abbrev rule : RuleTree
rule = record {
  grant_on_any_birthday = false;
  groups =
      record { conditions = soon ∷ [] }
      ∷ record { conditions = sign ∷ soon ∷ [] }
      ∷ record { conditions = animal ∷ [] }
      ∷ [];
}

rule-IsRunnable : All (λ g. All (IsRunnable compile one_regex) g.conditions) rule.groups
unfolding int_array regex_match valid_for kind
rule-IsRunnable =
    let soon_runs : IsRunnable compile one_regex soon = record {
      checked = soon-IsChecked;
      fits = refl;
      same = λ s e. cc;
    } in
    let sign_runs : IsRunnable compile one_regex sign = record {
      checked = sign-IsChecked;
      fits = refl;
      same = λ s e. cc;
    } in
    let animal_runs : IsRunnable compile one_regex animal = record {
      checked = record { valid = refl; has_value = (contains_text (codes "rat"), refl) };
      fits = refl;
      same = λ s e. refl;
    } in
    ((soon_runs, tt), ((sign_runs, (soon_runs, tt)), ((animal_runs, tt), tt)))

build_rule_where-compute_facts_example :
    (f : Facts) × (der : Derived) × (l : Local) × (compute_facts calendar zones
        (birthday_row (codes "Asia/Tokyo") 2 29 (some (pos 2000)))
      ≡ some f)
    × (compute_derived calendar (pos 2) (pos 29) (some (pos 2000)) ≡ some der)
    × (local_values calendar (stored 2 29 (some (pos 2000)) der) (day 2024 2 29) ≡ some l)
    × (selected (
          eval_where one_regex
            (target_value (stored 2 29 (some (pos 2000)) der) l)
            (bind_at 1 (build_rule_where rule 1).1)
            (build_rule_where rule 1).0)
        ≡ evaluate compile rule f)
unfolding local_today
build_rule_where-compute_facts_example =
    build_rule_where-compute_facts calendar calendar-IsGregorian zones (codes "Asia/Tokyo")
      leap_today calendar calendar-IsGregorian leap_today (omega arith) 2 29 leap_day
      (some (pos 2000)) born_2000 compile one_regex rule rule-IsRunnable 1
