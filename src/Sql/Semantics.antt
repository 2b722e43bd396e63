-- ===== src/Sql/Semantics.antt =====
-- What Postgres makes of a clause on one row: SQL's three-valued logic, and the expressions of
-- `target_expr` over the columns of `birthdays` and the bday_* functions. The regex operator `~` is a
-- parameter. The cast `::int[]` is taken where it does not fail, on integers of 32 bits.
use birthday_role.Prelude.{
  if◌then◌else◌, ◌&&◌, ℕ, ◌-◌, Bool, true, false, not, Option, none, some, List, [], ◌∷◌, get_elem?,
  ◌==◌, Text, text_eq, text_mem,
}
use birthday_role.Prelude.Int.{ℤ, pos, negsuc, eq_ℤ, ltb_ℤ, leb_ℤ}
use birthday_role.Prelude.Options.{◌>>=◌, is_some}
use birthday_role.Calendar.{Calendar}
use birthday_role.Models.Condition.{
  ConditionTarget, has_birthday_set, has_birth_year, is_birthday_today, is_birthday_week,
  is_birthday_month, days_until_birthday, age_years, age_turning_this_year, birth_month, birth_day,
  birth_year, zodiac_sign, chinese_zodiac, birth_season, birthstone, birth_weekday,
}
use birthday_role.Eval.{bool_eq, int_mem}
use birthday_role.Sql.{
  Bind, bool_bind, int_bind, text_bind, int_array_bind, text_array_bind, Comparison, equals,
  differs, greater, at_least, less, at_most, Clause, true_clause, false_clause, compared,
  text_equals, distinct_from, within, like, matches, any_int, any_text, no_int, no_text, Where,
  all_rows, no_rows, any_group,
}
use birthday_role.Sql.Functions.{bday_days_until, bday_is_today, bday_age, bday_age_turning}
use birthday_role.Sql.Like.{like_match}

-- A value of a column or an expression; `none` is NULL.
pub data Datum : Type 0 where
  bool_datum : Bool → Datum
  int_datum : Option ℤ → Datum
  text_datum : Option Text → Datum

pub data Truth : Type 0 where
  holds fails unknown : Truth

abbrev pub is_true : Bool → Truth
is_true true = holds
is_true false = fails

abbrev pub and3 : Truth → Truth → Truth
and3 holds q = q
and3 fails q = fails
and3 unknown fails = fails
and3 unknown q = unknown

abbrev pub or3 : Truth → Truth → Truth
or3 fails q = q
or3 holds q = holds
or3 unknown holds = holds
or3 unknown q = unknown

abbrev int_compare : Comparison → ℤ → ℤ → Bool
int_compare equals a b = eq_ℤ a b
int_compare differs a b = not (eq_ℤ a b)
int_compare greater a b = ltb_ℤ b a
int_compare at_least a b = leb_ℤ b a
int_compare less a b = ltb_ℤ a b
int_compare at_most a b = leb_ℤ a b

-- A comparison with NULL is unknown. So is one between types, which Postgres refuses.
abbrev compare3 : Comparison → Datum → Option Bind → Truth
compare3 op (int_datum (some a)) (some (int_bind b)) = is_true (int_compare op a b)
compare3 equals (bool_datum a) (some (bool_bind b)) = is_true (bool_eq b a)
compare3 _ _ _ = unknown

abbrev equals3 : Datum → Option Bind → Truth
equals3 (text_datum (some a)) (some (text_bind b)) = is_true (text_eq a b)
equals3 _ _ = unknown

abbrev distinct3 : Datum → Option Bind → Truth
distinct3 (text_datum none) (some (text_bind b)) = holds
distinct3 (text_datum (some a)) (some (text_bind b)) = is_true (not (text_eq a b))
distinct3 _ _ = unknown

abbrev text_test3 : (Text → Text → Bool) → Datum → Option Bind → Truth
text_test3 test (text_datum (some a)) (some (text_bind b)) = is_true (test b a)
text_test3 test _ _ = unknown

-- The numbers of Postgres's `int`; the cast to `int[]` refuses a list with another.
abbrev pub fits_int4 : List ℤ → Bool
fits_int4 [] = true
fits_int4 (n ∷ ns) = leb_ℤ (negsuc 2147483647) n && leb_ℤ n (pos 2147483647) && fits_int4 ns

abbrev any3 : Datum → Option Bind → Truth
any3 (int_datum (some a)) (some (int_array_bind bs)) =
    if fits_int4 bs then is_true (int_mem a bs) else unknown
any3 (text_datum (some a)) (some (text_array_bind bs)) = is_true (text_mem a bs)
any3 _ _ = unknown

-- `e IS NOT NULL AND e <> ALL(...)`
abbrev none3 : Datum → Option Bind → Truth
none3 (int_datum none) b = fails
none3 (text_datum none) b = fails
none3 (int_datum (some a)) (some (int_array_bind bs)) =
    if fits_int4 bs then is_true (not (int_mem a bs)) else unknown
none3 (text_datum (some a)) (some (text_array_bind bs)) = is_true (not (text_mem a bs))
none3 _ _ = unknown

-- `value` gives the targets' expressions on the row, and `bind` the parameters of the query.
module _ (pg_regex : Text → Text → Bool) (value : ConditionTarget → Datum)
    (bind : ℕ → Option Bind) where
  unfoldable pub eval_clause : Clause → Truth
  eval_clause true_clause = holds
  eval_clause false_clause = fails
  eval_clause (compared op t i) = compare3 op (value t) (bind i)
  eval_clause (text_equals t i) = equals3 (value t) (bind i)
  eval_clause (distinct_from t i) = distinct3 (value t) (bind i)
  eval_clause (within t ia ib) =
      and3 (compare3 at_least (value t) (bind ia)) (compare3 at_most (value t) (bind ib))
  eval_clause (like t i) = text_test3 like_match (value t) (bind i)
  eval_clause (matches t i) = text_test3 pg_regex (value t) (bind i)
  eval_clause (any_int t i) = any3 (value t) (bind i)
  eval_clause (any_text t i) = any3 (value t) (bind i)
  eval_clause (no_int t i) = none3 (value t) (bind i)
  eval_clause (no_text t i) = none3 (value t) (bind i)

  unfoldable pub eval_clauses : List Clause → Truth
  eval_clauses [] = holds
  eval_clauses (c ∷ cs) = and3 (eval_clause c) (eval_clauses cs)

  unfoldable pub eval_group : Option (List Clause) → Truth
  eval_group none = fails
  eval_group (some cs) = eval_clauses cs

  unfoldable pub eval_groups : List (Option (List Clause)) → Truth
  eval_groups [] = fails
  eval_groups (g ∷ gs) = or3 (eval_group g) (eval_groups gs)

  unfoldable pub eval_where : Where → Truth
  eval_where all_rows = holds
  eval_where no_rows = fails
  eval_where (any_group gs) = eval_groups gs

-- A row is selected where the condition holds; `fails` and `unknown` leave it out.
abbrev pub selected : Truth → Bool
selected holds = true
selected _ = false

-- `$i` of a query whose own parameters end at `bind_offset`.
abbrev pub bind_at : ℕ → List Bind → ℕ → Option Bind
bind_at bind_offset binds i = get_elem? binds (i - bind_offset - 1)

-- The columns of `birthdays` that the clauses read.
pub record Columns : Type 0 where
  pub month : ℕ
  pub day : ℕ
  pub year : Option ℤ
  pub zodiac : Text
  pub chinese : Option Text
  pub season : Text
  pub stone : Text
  pub weekday : Option Text

-- The expressions that read the local date, once computed.
pub record Local : Type 0 where
  pub today : Bool
  pub week : Bool
  pub this_month : Bool
  pub days : ℤ
  pub age : Option ℤ
  pub turning : Option ℤ

-- `none` is an error of the query.
unfoldable pub local_values : (pg : Calendar) → Columns → pg.Date → Option Local
local_values pg r p_local = do
  today ← bday_is_today pg r.month r.day p_local
  days ← bday_days_until pg r.month r.day p_local
  age ← bday_age pg r.year r.month r.day p_local
  turning ← bday_age_turning pg r.year r.month r.day p_local
  some (record {
    today = today;
    week = leb_ℤ days (pos 6);
    this_month = pg.month p_local == r.month;
    days = days;
    age = age;
    turning = turning;
  })

-- The value of `target_expr` on a row.
unfoldable pub target_value : Columns → Local → ConditionTarget → Datum
target_value r l has_birthday_set = bool_datum true
target_value r l has_birth_year = bool_datum (is_some r.year)
target_value r l is_birthday_today = bool_datum l.today
target_value r l is_birthday_week = bool_datum l.week
target_value r l is_birthday_month = bool_datum l.this_month
target_value r l days_until_birthday = int_datum (some l.days)
target_value r l age_years = int_datum l.age
target_value r l age_turning_this_year = int_datum l.turning
target_value r l birth_month = int_datum (some (pos r.month))
target_value r l birth_day = int_datum (some (pos r.day))
target_value r l birth_year = int_datum r.year
target_value r l zodiac_sign = text_datum (some r.zodiac)
target_value r l chinese_zodiac = text_datum r.chinese
target_value r l birth_season = text_datum (some r.season)
target_value r l birthstone = text_datum (some r.stone)
target_value r l birth_weekday = text_datum r.weekday
