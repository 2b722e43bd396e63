-- ===== src/Validator.antt =====
-- src/services/rule_validator.rs: the values of a condition, checked and put in normal form. Every
-- error is a bad request; its message is kept as the case and the values that it prints.
pub mod Rules
pub mod Decimal
pub mod Values
pub mod Texts
pub mod Facts
pub mod Accepted
pub mod Saved
use birthday_role.Prelude.{
  ℕ, suc, ◌+◌, ◌-◌, ◌*◌, ◌/◌, ◌^◌, Bool, true, false, not, ◌&&◌, ◌||◌, Option, none, some, ◌==◌,
  List, [], ◌∷◌, ◌++◌, map, length, if◌then◌else◌, Text, codes, text, text_eq, text_mem, is_empty,
  ltb, leb, trim, trimmed_parts, split, to_ascii_lowercase, match_text,
}
use birthday_role.Prelude.Int.{ℤ, pos, negsuc, sub_ℕ, ltb_ℤ, neg_part}
use birthday_role.Prelude.Options.{or_else, map_option}
use birthday_role.Prelude.Results.{Result, ok, err, ◌>>=◌, ok_or, refuse_if}
use birthday_role.Models.Json.{
  Number, integer, float, Value, null, bool, number, string, array, object, items, of_items, is_i64,
  i64_min, i64_max, as_str, number_as_i64,
}
use birthday_role.Models.Condition.{
  TargetKind, bool, int, string, ConditionTarget, kind, zodiac_sign, chinese_zodiac, birth_season,
  birthstone, birth_weekday, birth_month, ConditionOperator, eq, neq, gt, gte, lt, lte, between,
  contains, regex, in_list, not_in,
}
use birthday_role.Birthday.{zodiac_signs, chinese_zodiacs, seasons, birthstones, weekdays}

-- "Group #g, condition #c".
pub record Place : Type 0 where
  pub group_num : ℕ
  pub cond_num : ℕ

abbrev pub place : ℕ → ℕ → Place
place group_num cond_num = record { group_num = group_num; cond_num = cond_num }

pub data RuleError : Type 0 where
  no_groups too_many_groups : RuleError
  no_conditions too_many_conditions : ℕ → RuleError
  unknown_target unknown_operator : Place → Text → RuleError
  invalid_operator : Place → ConditionOperator → ConditionTarget → RuleError
  needs_two_values invalid_pattern : Place → RuleError
  not_a_choice : Place → ConditionTarget → Text → RuleError
  boolean_required whole_numbers_required whole_number_required text_required :
      Place → Value → RuleError
  pick_a_month enter_numbers enter_a_number pick_a_value value_required : Place → RuleError

-- `str::parse::<i64>`
abbrev pub is_digit : ℕ → Bool
is_digit c = leb 48 c && leb c 57

abbrev pub parse_digits : ℕ → Text → Option ℕ
parse_digits n [] = some n
parse_digits n (c ∷ s) =
    let rest = parse_digits (n * 10 + (c - 48)) s in if is_digit c then rest else none

abbrev pub parse_unsigned : Text → Option ℕ
parse_unsigned [] = none
parse_unsigned (c ∷ s) = parse_digits 0 (c ∷ s)

abbrev pub parse_integer : Text → Option ℤ
parse_integer [] = none
parse_integer (c ∷ s) =
    if c == 45
    then map_option (sub_ℕ 0) (parse_unsigned s)
    else if c == 43
    then map_option pos (parse_unsigned s)
    else map_option pos (parse_unsigned (c ∷ s))

abbrev pub in_i64 : Option ℤ → Option ℤ
in_i64 none = none
in_i64 (some n) = if is_i64 n then some n else none

unfoldable pub parse_i64 : Text → Option ℤ
parse_i64 s = in_i64 (parse_integer s)

-- `f as i64` drops the fraction and stops at the ends of `i64`.
abbrev pub clamp_i64 : ℤ → ℤ
clamp_i64 n = if ltb_ℤ n i64_min then i64_min else if ltb_ℤ i64_max n then i64_max else n

abbrev scaled : ℕ → ℤ → ℕ
scaled m (pos e) = m * 2 ^ e
scaled m (negsuc e) = m / 2 ^ suc e

abbrev pub truncated : ℤ → ℤ → ℤ
truncated (pos m) e = pos (scaled m e)
truncated (negsuc m) e = sub_ℕ 0 (scaled (suc m) e)

abbrev pub as_f64_as_i64 : Number → ℤ
as_f64_as_i64 (integer n) = clamp_i64 n
as_f64_as_i64 (float m e) = clamp_i64 (truncated m e)

abbrev pub of_i64 : ℤ → Value
of_i64 n = number (integer n)

-- The pieces of a comma-separated text.
abbrev pieces : Text → List Value
pieces s = map string (trimmed_parts (split b',' s))

-- `string_choices`, without the noun of the message.
unfoldable pub string_choices : ConditionTarget → List Text
string_choices zodiac_sign = zodiac_signs
string_choices chinese_zodiac = chinese_zodiacs
string_choices birth_season = seasons
string_choices birthstone = birthstones
string_choices birth_weekday = weekdays
string_choices _ = []

abbrev pub bool_words : List (Text × Value)
bool_words =
    (codes "true", bool true)
    ∷ (codes "1", bool true)
    ∷ (codes "yes", bool true)
    ∷ (codes "false", bool false)
    ∷ (codes "0", bool false)
    ∷ (codes "no", bool false)
    ∷ []

-- The arm of `normalize_value` for boolean targets.
unfoldable pub normalize_bool : Place → Value → Result RuleError Value
normalize_bool w (bool b) = ok (bool b)
normalize_bool w (string s) =
    ok_or (boolean_required w (string s)) (match_text (to_ascii_lowercase (trim s)) bool_words)
normalize_bool w v = err (boolean_required w v)

-- The arm for a list of numbers.
abbrev pub int_items : Value → List Value
int_items (array vs) = items vs
int_items (string s) = pieces s
int_items null = []
int_items v = v ∷ []

abbrev pub whole_in_list : Value → Option ℤ
whole_in_list (number n) = number_as_i64 n
whole_in_list (string s) = parse_i64 (trim s)
whole_in_list _ = none

unfoldable pub whole_numbers : Place → List Value → Result RuleError (List ℤ)
whole_numbers w [] = ok []
whole_numbers w (v ∷ vs) = do
  n ← ok_or (whole_numbers_required w v) (whole_in_list v)
  ns ← whole_numbers w vs
  ok (n ∷ ns)

abbrev is_birth_month : ConditionTarget → Bool
is_birth_month birth_month = true
is_birth_month _ = false

unfoldable pub normalize_ints : Place → ConditionTarget → Value → Result RuleError Value
normalize_ints w t raw = do
  ns ← whole_numbers w (int_items raw)
  _ ← refuse_if (is_empty ns) (if is_birth_month t then pick_a_month w else enter_numbers w)
  ok (array (of_items (map of_i64 ns)))

-- The arm for one number.
abbrev pub is_blank : Value → Bool
is_blank null = true
is_blank (string s) = is_empty (trim s)
is_blank _ = false

abbrev pub whole : Value → Option ℤ
whole (number n) = or_else (number_as_i64 n) (some (as_f64_as_i64 n))
whole (string s) = parse_i64 (trim s)
whole _ = none

unfoldable pub normalize_int : Place → Value → Result RuleError Value
normalize_int w raw = do
  _ ← refuse_if (is_blank raw) (enter_a_number w)
  n ← ok_or (whole_number_required w raw) (whole raw)
  ok (of_i64 n)

-- `lower` is `str::to_lowercase`, of Unicode's tables; `number_to_string` is the `Display` of a number.
module _ (lower : Text → Text) (number_to_string : Number → Text) where
  abbrev pub lowered : ConditionTarget → Text → Text
  lowered birth_season v = if text_eq v (codes "fall") then codes "autumn" else v
  lowered _ v = v

  unfoldable pub enum_value : Place → ConditionTarget → Text → Result RuleError Text
  enum_value w t raw =
      let v = lowered t (lower (trim raw)) in
      if is_empty (string_choices t) || text_mem v (string_choices t)
      then ok v
      else err (not_a_choice w t (trim raw))

  -- The arm for a list of texts.
  abbrev present : List Value → List Value
  present [] = []
  present (null ∷ vs) = present vs
  present (string s ∷ vs) =
      let rest = present vs in if is_empty (trim s) then rest else string s ∷ rest
  present (v ∷ vs) = v ∷ present vs

  abbrev pub text_items : Value → List Value
  text_items (array vs) = present (items vs)
  text_items (string s) = pieces s
  text_items null = []
  text_items v = v ∷ []

  abbrev pub push_new : List Text → Text → List Text
  push_new out v = if text_mem v out then out else out ++ v ∷ []

  unfoldable pub chosen :
      Place → ConditionTarget → List Text → List Value → Result RuleError (List Text)
  chosen w t out [] = ok out
  chosen w t out (v ∷ vs) = do
    s ← ok_or (text_required w v) (as_str v)
    c ← enum_value w t s
    chosen w t (push_new out c) vs

  unfoldable pub normalize_strings : Place → ConditionTarget → Value → Result RuleError Value
  normalize_strings w t raw = do
    _ ← refuse_if (is_empty (text_items raw)) (pick_a_value w)
    out ← chosen w t [] (text_items raw)
    ok (array (of_items (map string out)))

  -- The arm for one text.
  abbrev pub text_of : Value → Text
  text_of (string s) = s
  text_of (number n) = number_to_string n
  text_of (bool true) = codes "true"
  text_of (bool false) = codes "false"
  text_of _ = []

  unfoldable pub string_form :
      Place → ConditionTarget → ConditionOperator → Text → Result RuleError Text
  string_form w t regex s = ok s
  string_form w t contains s = ok (lower (trim s))
  string_form w t _ s = enum_value w t s

  unfoldable pub normalize_string :
      Place → ConditionTarget → ConditionOperator → Value → Result RuleError Value
  normalize_string w t o raw = do
    _ ← refuse_if (is_empty (trim (text_of raw))) (value_required w)
    s ← string_form w t o (text_of raw)
    ok (string s)

  unfoldable pub normalize_as :
      TargetKind → Place → ConditionTarget → ConditionOperator → Value → Result RuleError Value
  normalize_as bool w t o raw = normalize_bool w raw
  normalize_as int w t in_list raw = normalize_ints w t raw
  normalize_as int w t not_in raw = normalize_ints w t raw
  normalize_as int w t o raw = normalize_int w raw
  normalize_as string w t in_list raw = normalize_strings w t raw
  normalize_as string w t not_in raw = normalize_strings w t raw
  normalize_as string w t o raw = normalize_string w t o raw

  unfoldable pub normalize_value :
      Place → ConditionTarget → ConditionOperator → Value → Result RuleError Value
  normalize_value w t = normalize_as (kind t) w t
