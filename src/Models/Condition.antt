-- ===== src/Models/Condition.antt =====
-- src/models/condition.rs: the targets and operators of a condition, and their keys.
use birthday_role.Prelude.{
  ◌≡◌, refl, ◌↔◌, Bool, true, false, Option, some, Text, codes, match_text, match_text-eq-some,
  List, [], ◌∷◌,
}
use birthday_role.Models.Json.{Value}

pub data TargetKind : Type 0 where
  bool int string : TargetKind

pub data ConditionTarget : Type 0 where
  has_birthday_set has_birth_year : ConditionTarget
  is_birthday_today is_birthday_week is_birthday_month : ConditionTarget
  days_until_birthday age_years age_turning_this_year : ConditionTarget
  birth_month birth_day birth_year : ConditionTarget
  zodiac_sign chinese_zodiac birth_season birthstone birth_weekday : ConditionTarget

unfoldable pub kind : ConditionTarget → TargetKind
kind has_birthday_set = bool
kind has_birth_year = bool
kind is_birthday_today = bool
kind is_birthday_week = bool
kind is_birthday_month = bool
kind days_until_birthday = int
kind age_years = int
kind age_turning_this_year = int
kind birth_month = int
kind birth_day = int
kind birth_year = int
kind zodiac_sign = string
kind chinese_zodiac = string
kind birth_season = string
kind birthstone = string
kind birth_weekday = string

pub data ConditionOperator : Type 0 where
  eq neq gt gte lt lte between contains regex in_list not_in : ConditionOperator

pub record Condition : Type 0 where
  pub target : ConditionTarget
  pub operator : ConditionOperator
  pub value : Value
  pub value_end : Option Value

-- `ConditionTarget::as_str` and `from_key`.
unfoldable pub target_as_str : ConditionTarget → Text
target_as_str has_birthday_set = codes "has_birthday_set"
target_as_str has_birth_year = codes "has_birth_year"
target_as_str is_birthday_today = codes "is_birthday_today"
target_as_str is_birthday_week = codes "is_birthday_week"
target_as_str is_birthday_month = codes "is_birthday_month"
target_as_str days_until_birthday = codes "days_until_birthday"
target_as_str age_years = codes "age_years"
target_as_str age_turning_this_year = codes "age_turning_this_year"
target_as_str birth_month = codes "birth_month"
target_as_str birth_day = codes "birth_day"
target_as_str birth_year = codes "birth_year"
target_as_str zodiac_sign = codes "zodiac_sign"
target_as_str chinese_zodiac = codes "chinese_zodiac"
target_as_str birth_season = codes "birth_season"
target_as_str birthstone = codes "birthstone"
target_as_str birth_weekday = codes "birth_weekday"

abbrev pub target_keys : List (Text × ConditionTarget)
target_keys =
    (codes "has_birthday_set", has_birthday_set)
    ∷ (codes "has_birth_year", has_birth_year)
    ∷ (codes "is_birthday_today", is_birthday_today)
    ∷ (codes "is_birthday_week", is_birthday_week)
    ∷ (codes "is_birthday_month", is_birthday_month)
    ∷ (codes "days_until_birthday", days_until_birthday)
    ∷ (codes "age_years", age_years)
    ∷ (codes "age_turning_this_year", age_turning_this_year)
    ∷ (codes "birth_month", birth_month)
    ∷ (codes "birth_day", birth_day)
    ∷ (codes "birth_year", birth_year)
    ∷ (codes "zodiac_sign", zodiac_sign)
    ∷ (codes "chinese_zodiac", chinese_zodiac)
    ∷ (codes "birth_season", birth_season)
    ∷ (codes "birthstone", birthstone)
    ∷ (codes "birth_weekday", birth_weekday)
    ∷ []

unfoldable pub target_from_key : Text → Option ConditionTarget
target_from_key s = match_text s target_keys

-- `ConditionOperator::as_str` and `from_key`.
unfoldable pub operator_as_str : ConditionOperator → Text
operator_as_str eq = codes "eq"
operator_as_str neq = codes "neq"
operator_as_str gt = codes "gt"
operator_as_str gte = codes "gte"
operator_as_str lt = codes "lt"
operator_as_str lte = codes "lte"
operator_as_str between = codes "between"
operator_as_str contains = codes "contains"
operator_as_str regex = codes "regex"
operator_as_str in_list = codes "in"
operator_as_str not_in = codes "not_in"

abbrev pub operator_keys : List (Text × ConditionOperator)
operator_keys =
    (codes "eq", eq)
    ∷ (codes "neq", neq)
    ∷ (codes "gt", gt)
    ∷ (codes "gte", gte)
    ∷ (codes "lt", lt)
    ∷ (codes "lte", lte)
    ∷ (codes "between", between)
    ∷ (codes "contains", contains)
    ∷ (codes "regex", regex)
    ∷ (codes "in", in_list)
    ∷ (codes "not_in", not_in)
    ∷ []

unfoldable pub operator_from_key : Text → Option ConditionOperator
operator_from_key s = match_text s operator_keys

unfoldable pub valid_for : ConditionOperator → TargetKind → Bool
valid_for eq bool = true
valid_for _ bool = false
valid_for contains int = false
valid_for regex int = false
valid_for _ int = true
valid_for eq string = true
valid_for neq string = true
valid_for contains string = true
valid_for regex string = true
valid_for in_list string = true
valid_for not_in string = true
valid_for _ string = false

-- A target's key is read back as that target.
pub target_from_key-as_str : (t : ConditionTarget) → target_from_key (target_as_str t) ≡ some t
unfolding target_from_key target_as_str
target_from_key-as_str has_birthday_set = refl
target_from_key-as_str has_birth_year = refl
target_from_key-as_str is_birthday_today = refl
target_from_key-as_str is_birthday_week = refl
target_from_key-as_str is_birthday_month = refl
target_from_key-as_str days_until_birthday = refl
target_from_key-as_str age_years = refl
target_from_key-as_str age_turning_this_year = refl
target_from_key-as_str birth_month = refl
target_from_key-as_str birth_day = refl
target_from_key-as_str birth_year = refl
target_from_key-as_str zodiac_sign = refl
target_from_key-as_str chinese_zodiac = refl
target_from_key-as_str birth_season = refl
target_from_key-as_str birthstone = refl
target_from_key-as_str birth_weekday = refl

-- Only a target's own key is read as that target.
pub target_from_key-eq-some :
    (s : Text) (t : ConditionTarget) → target_from_key s ≡ some t → s ≡ target_as_str t
unfolding target_from_key target_as_str
target_from_key-eq-some s t h =
    match_text-eq-some target_as_str s target_keys t
      (
        refl,
        (
          refl,
          (
            refl,
            (
              refl,
              (
                refl,
                (
                  refl,
                  (
                    refl,
                    (refl, (refl, (refl, (refl, (refl, (refl, (refl, (refl, (refl, tt))))))))),
                  ),
                ),
              ),
            ),
          ),
        ),
      )
      h

pub operator_from_key-as_str :
    (o : ConditionOperator) → operator_from_key (operator_as_str o) ≡ some o
unfolding operator_from_key operator_as_str
operator_from_key-as_str eq = refl
operator_from_key-as_str neq = refl
operator_from_key-as_str gt = refl
operator_from_key-as_str gte = refl
operator_from_key-as_str lt = refl
operator_from_key-as_str lte = refl
operator_from_key-as_str between = refl
operator_from_key-as_str contains = refl
operator_from_key-as_str regex = refl
operator_from_key-as_str in_list = refl
operator_from_key-as_str not_in = refl

pub operator_from_key-eq-some :
    (s : Text) (o : ConditionOperator) → operator_from_key s ≡ some o → s ≡ operator_as_str o
unfolding operator_from_key operator_as_str
operator_from_key-eq-some s o h =
    match_text-eq-some operator_as_str s operator_keys o
      (refl, (refl, (refl, (refl, (refl, (refl, (refl, (refl, (refl, (refl, (refl, tt))))))))))) h

-- A text is read as a target just when it is that target's key: `from_key` inverts `as_str`.
pub target_from_key_iff :
    (s : Text) (t : ConditionTarget) → (target_from_key s ≡ some t) ↔ (s ≡ target_as_str t)
target_from_key_iff s t = (target_from_key-eq-some s t, λ e. rw e (target_from_key-as_str t))

-- A text is read as an operator just when it is that operator's key.
pub operator_from_key_iff :
    (s : Text) (o : ConditionOperator) → (operator_from_key s ≡ some o) ↔ (s ≡ operator_as_str o)
operator_from_key_iff s o = (operator_from_key-eq-some s o, λ e. rw e (operator_from_key-as_str o))
