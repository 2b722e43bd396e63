-- ===== src/Eval.antt =====
-- src/services/condition_eval.rs: a rule against the facts of one member. The regex crate is a
-- parameter: `compile` builds a pattern within the size limits, and gives its `is_match`.
use birthday_role.Prelude.{
  Bool, true, false, not, ◌&&◌, ◌||◌, Option, none, some, ◌==◌, List, [], ◌∷◌, if◌then◌else◌, Text,
  text_eq, text_mem, any, all, is_empty,
}
use birthday_role.Prelude.Int.{ℤ, eq_ℤ, ltb_ℤ, leb_ℤ}
use birthday_role.Prelude.Options.{◌>>=◌, map_or}
use birthday_role.Models.Facts.{Facts}
use birthday_role.Models.Json.{Value, as_bool, as_i64, as_str, as_array}
use birthday_role.Models.Condition.{
  Condition, ConditionOperator, eq, neq, gt, gte, lt, lte, between, contains, regex, in_list,
  not_in, ConditionTarget, has_birthday_set, has_birth_year, is_birthday_today, is_birthday_week,
  is_birthday_month, days_until_birthday, age_years, age_turning_this_year, birth_month, birth_day,
  birth_year, zodiac_sign, chinese_zodiac, birth_season, birthstone, birth_weekday,
}
use birthday_role.Models.Rule.{RuleTree, ConditionGroup}

abbrev pub bool_eq : Bool → Bool → Bool
bool_eq true b = b
bool_eq false b = not b

-- `str::starts_with` and `str::contains`
abbrev pub starts_with : Text → Text → Bool
starts_with [] s = true
starts_with (c ∷ p) [] = false
starts_with (c ∷ p) (d ∷ s) = (c == d) && starts_with p s

abbrev pub contains_text : Text → Text → Bool
contains_text p [] = starts_with p []
contains_text p (d ∷ s) = starts_with p (d ∷ s) || contains_text p s

-- `filter_map`
abbrev pub filter_map {ℓ κ} : {A : Type ℓ} {B : Type κ} → (A → Option B) → List A → List B
filter_map f [] = []
filter_map f (x ∷ xs) = elim (f x) [ none ↦ filter_map f xs | some b ↦ b ∷ filter_map f xs ]

abbrev pub is_eq : ConditionOperator → Bool
is_eq eq = true
is_eq _ = false

unfoldable pub bool_match : Condition → Bool → Bool
bool_match c actual =
    if not (is_eq c.operator) then false else map_or false (λ v. bool_eq v actual) (as_bool c.value)

unfoldable pub int_list : Value → List ℤ
int_list value = map_or [] (filter_map as_i64) (as_array value)

abbrev pub int_mem : ℤ → List ℤ → Bool
int_mem a = any (eq_ℤ a)

-- The two bounds of `between`.
abbrev pub in_range : ℤ → Option ℤ → Option ℤ → Bool
in_range a (some lo) (some hi) = leb_ℤ lo a && leb_ℤ a hi
in_range a _ _ = false

int_test : ConditionOperator → Condition → ℤ → Bool
int_test eq c a = map_or false (λ n. eq_ℤ a n) (as_i64 c.value)
int_test neq c a = map_or false (λ n. not (eq_ℤ a n)) (as_i64 c.value)
int_test gt c a = map_or false (λ n. ltb_ℤ n a) (as_i64 c.value)
int_test gte c a = map_or false (λ n. leb_ℤ n a) (as_i64 c.value)
int_test lt c a = map_or false (λ n. ltb_ℤ a n) (as_i64 c.value)
int_test lte c a = map_or false (λ n. leb_ℤ a n) (as_i64 c.value)
int_test between c a = in_range a (as_i64 c.value) (c.value_end >>= as_i64)
int_test in_list c a = int_mem a (int_list c.value)
int_test not_in c a = not (int_mem a (int_list c.value))
int_test _ c a = false

-- Missing data fails closed.
unfoldable pub int_match : Condition → Option ℤ → Bool
unfolding int_test int_list
int_match c actual = map_or false (int_test c.operator c) actual

unfoldable pub str_list_contains : Value → Text → Bool
str_list_contains value needle =
    map_or false (λ vs. text_mem needle (filter_map as_str vs)) (as_array value)

abbrev pub is_neq : ConditionOperator → Bool
is_neq neq = true
is_neq _ = false

module _ (compile : Text → Option (Text → Bool)) where
  -- A pattern that does not build matches nothing.
  unfoldable pub regex_match : Option Text → Text → Bool
  regex_match v a = elim (v >>= compile) [ none ↦ false | some is_match ↦ is_match a ]

  string_test : ConditionOperator → Condition → Text → Bool
  string_test eq c a = map_or false (λ s. text_eq a s) (as_str c.value)
  string_test neq c a = map_or false (λ s. not (text_eq a s)) (as_str c.value)
  string_test contains c a = map_or false (λ s. contains_text s a) (as_str c.value)
  string_test regex c a = regex_match (as_str c.value) a
  string_test in_list c a = str_list_contains c.value a
  string_test not_in c a = not (str_list_contains c.value a)
  string_test _ c a = false

  -- A missing text passes `neq` alone.
  unfoldable pub string_match : Condition → Option Text → Bool
  unfolding string_test str_list_contains
  string_match c actual = map_or (is_neq c.operator) (string_test c.operator c) actual

  evaluate_target : ConditionTarget → Condition → Facts → Bool
  evaluate_target has_birthday_set c f = bool_match c f.has_birthday
  evaluate_target has_birth_year c f = bool_match c f.has_year
  evaluate_target is_birthday_today c f = bool_match c f.is_today
  evaluate_target is_birthday_week c f = bool_match c f.is_this_week
  evaluate_target is_birthday_month c f = bool_match c f.is_this_month
  evaluate_target days_until_birthday c f = int_match c (some f.days_until)
  evaluate_target age_years c f = int_match c f.age_years
  evaluate_target age_turning_this_year c f = int_match c f.age_turning
  evaluate_target birth_month c f = int_match c (some f.birth_month)
  evaluate_target birth_day c f = int_match c (some f.birth_day)
  evaluate_target birth_year c f = int_match c f.birth_year
  evaluate_target zodiac_sign c f = string_match c (some f.zodiac)
  evaluate_target chinese_zodiac c f = string_match c f.chinese_zodiac
  evaluate_target birth_season c f = string_match c (some f.season)
  evaluate_target birthstone c f = string_match c (some f.birthstone)
  evaluate_target birth_weekday c f = string_match c f.weekday

  unfoldable pub evaluate_single : Condition → Facts → Bool
  unfolding evaluate_target
  evaluate_single c f = evaluate_target c.target c f

  unfoldable pub group_matches : Facts → ConditionGroup → Bool
  group_matches f g = not (is_empty g.conditions) && all (λ c. evaluate_single c f) g.conditions

  unfoldable pub evaluate : RuleTree → Facts → Bool
  unfolding group_matches
  evaluate tree facts =
      if tree.grant_on_any_birthday
      then true
      else if is_empty tree.groups
      then false
      else any (group_matches facts) tree.groups
