-- ===== src/Sql/Clauses.antt =====
-- src/services/rule_sql.rs against src/services/condition_eval.rs: one condition.
use birthday_role.Prelude.{
  ℕ, ◌+◌, ◌≡◌, refl, sym, ◌∙◌, Bool, true, false, Option, none, some, List, [], ◌∷◌, Text, is_empty,
  arith,
}
use birthday_role.Prelude.Int.{ℤ}
use birthday_role.Prelude.Options.{◌>>=◌, Returns}
use birthday_role.Models.Facts.{Facts}
use birthday_role.Models.Json.{as_bool, as_i64, as_str}
use birthday_role.Models.Condition.{
  Condition, ConditionOperator, eq, between, contains, regex, in_list, not_in, ConditionTarget,
  has_birthday_set, has_birth_year, is_birthday_today, is_birthday_week, is_birthday_month,
  days_until_birthday, age_years, age_turning_this_year, birth_month, birth_day, birth_year,
  zodiac_sign, chinese_zodiac, birth_season, birthstone, birth_weekday, TargetKind, bool, int,
  string, kind, valid_for,
}
use birthday_role.Eval.{bool_match, int_match, string_match, evaluate_single, regex_match}
use birthday_role.Sql.{Bind, build_operator, unwrap_or, int_array, str_array}
use birthday_role.Sql.Semantics.{
  fits_int4, Datum, bool_datum, int_datum, text_datum, eval_clause, selected,
}
use birthday_role.Sql.Like.{like_match-escape_like}

-- What a fact is as a value of SQL.
unfoldable pub datum : Facts → ConditionTarget → Datum
datum f has_birthday_set = bool_datum f.has_birthday
datum f has_birth_year = bool_datum f.has_year
datum f is_birthday_today = bool_datum f.is_today
datum f is_birthday_week = bool_datum f.is_this_week
datum f is_birthday_month = bool_datum f.is_this_month
datum f days_until_birthday = int_datum (some f.days_until)
datum f age_years = int_datum f.age_years
datum f age_turning_this_year = int_datum f.age_turning
datum f birth_month = int_datum (some f.birth_month)
datum f birth_day = int_datum (some f.birth_day)
datum f birth_year = int_datum f.birth_year
datum f zodiac_sign = text_datum (some f.zodiac)
datum f chinese_zodiac = text_datum f.chinese_zodiac
datum f birth_season = text_datum (some f.season)
datum f birthstone = text_datum (some f.birthstone)
datum f birth_weekday = text_datum f.weekday

-- The binds stand in the query from index `i` on.
abbrev pub HasBinds : (ℕ → Option Bind) → ℕ → List Bind → Type 0
HasBinds bind i [] = Unit
HasBinds bind i (b ∷ bs) = (bind i ≡ some b) × HasBinds bind (i + 1) bs

module _ (compile : Text → Option (Text → Bool)) where
  -- The value that a condition has after the validator, by the kind of its target.
  abbrev pub HasValue : TargetKind → ConditionOperator → Condition → Type 0
  HasValue bool o c = Returns (as_bool c.value)
  HasValue int in_list c = is_empty (int_array c) ≡ false
  HasValue int not_in c = is_empty (int_array c) ≡ false
  HasValue int between c = Returns (as_i64 c.value) × Returns (c.value_end >>= as_i64)
  HasValue int o c = Returns (as_i64 c.value)
  HasValue string in_list c = is_empty (str_array c) ≡ false
  HasValue string not_in c = is_empty (str_array c) ≡ false
  HasValue string regex c = Returns (as_str c.value >>= compile)
  HasValue string o c = Returns (as_str c.value)

  pub record IsChecked (c : Condition) : Type 0 where
    pub valid : valid_for c.operator (kind c.target) ≡ true
    pub has_value : HasValue (kind c.target) c.operator c

  -- One test for the three kinds of fact.
  match_datum : Condition → Datum → Bool
  match_datum c (bool_datum b) = bool_match c b
  match_datum c (int_datum n) = int_match c n
  match_datum c (text_datum s) = string_match compile c s

  evaluate_single-datum :
      (c : Condition) (f : Facts) → evaluate_single compile c f ≡ match_datum c (datum f c.target)
  unfolding evaluate_single match_datum datum
  evaluate_single-datum c f = ground arith

  module _ (pg_regex : Text → Text → Bool) where
    -- The condition's own pattern, if it has one, matches the same texts in the crate and in Postgres.
    abbrev pub SamePattern : Condition → Type 0
    SamePattern c =
        (s : Text)
        → c.operator ≡ regex
        → pg_regex (unwrap_or [] (as_str c.value)) s ≡ regex_match compile (as_str c.value) s

    -- Checked, with numbers that Postgres's `int[]` holds, if it has a list of them, and with a pattern
    -- that means the same to Postgres, if it has one.
    pub record IsRunnable (c : Condition) : Type 0 where
      pub checked : IsChecked c
      pub fits : fits_int4 (int_array c) ≡ true
      pub same : SamePattern c

kind_of : Datum → TargetKind
kind_of (bool_datum b) = bool
kind_of (int_datum n) = int
kind_of (text_datum s) = string

kind_of-datum : (f : Facts) (t : ConditionTarget) → kind_of (datum f t) ≡ kind t
unfolding kind_of datum kind
kind_of-datum f t = ground arith

module _ (compile : Text → Option (Text → Bool)) (pg_regex : Text → Text → Bool)
    (value : ConditionTarget → Datum) (bind : ℕ → Option Bind) where
  bool_clause :
      (o : ConditionOperator) (c : Condition) (i : ℕ) (b : Bool)
      → kind c.target ≡ bool
      → value c.target ≡ bool_datum b
      → c.operator ≡ o
      → valid_for o bool ≡ true
      → HasValue compile bool o c
      → HasBinds bind i (build_operator o c i).1
      → selected (eval_clause pg_regex value bind (build_operator o c i).0) ≡ bool_match c b
  unfolding bool_match build_operator eval_clause valid_for
  bool_clause eq c i b k e o v h binds = ground arith
  bool_clause _ c i b k e o v h binds = ground arith

  int_clause :
      (o : ConditionOperator) (c : Condition) (i : ℕ) (n : Option ℤ)
      → kind c.target ≡ int
      → value c.target ≡ int_datum n
      → c.operator ≡ o
      → valid_for o int ≡ true
      → HasValue compile int o c
      → fits_int4 (int_array c) ≡ true
      → HasBinds bind i (build_operator o c i).1
      → selected (eval_clause pg_regex value bind (build_operator o c i).0) ≡ int_match c n
  unfolding int_match build_operator eval_clause valid_for int_array
  int_clause eq c i n k e o v h fits binds = ground arith
  int_clause _ c i n k e o v h fits binds = ground arith

  string_clause :
      (o : ConditionOperator) (c : Condition) (i : ℕ) (s : Option Text)
      → kind c.target ≡ string
      → value c.target ≡ text_datum s
      → c.operator ≡ o
      → valid_for o string ≡ true
      → HasValue compile string o c
      → SamePattern compile pg_regex c
      → HasBinds bind i (build_operator o c i).1
      → selected (eval_clause pg_regex value bind (build_operator o c i).0)
        ≡ string_match compile c s
  unfolding string_match regex_match build_operator eval_clause valid_for str_array
  string_clause eq c i s k e o v h same binds = ground arith
  string_clause contains c i none k e o v h same binds = ground arith
  string_clause contains c i (some t) k e o v h same binds =
      ground (arith, like_match-escape_like (unwrap_or [] (as_str c.value)) t)
  string_clause regex c i none k e o v h same binds = ground arith
  string_clause regex c i (some t) k e o v h same binds = ground (arith, same t o)
  string_clause _ c i s k e o v h same binds = ground arith

  clause_of :
      (c : Condition) (i : ℕ) (v : Datum)
      → value c.target ≡ v
      → kind c.target ≡ kind_of v
      → IsRunnable compile pg_regex c
      → HasBinds bind i (build_operator c.operator c i).1
      → selected (eval_clause pg_regex value bind (build_operator c.operator c i).0)
        ≡ match_datum compile c v
  unfolding match_datum kind_of
  clause_of c i (bool_datum b) e k w binds =
      bool_clause c.operator c i b k e refl (rw k at w.checked.valid) (rw k at w.checked.has_value)
        binds
  clause_of c i (int_datum n) e k w binds =
      int_clause c.operator c i n k e refl (rw k at w.checked.valid) (rw k at w.checked.has_value)
        w.fits binds
  clause_of c i (text_datum s) e k w binds =
      string_clause c.operator c i s k e refl (rw k at w.checked.valid)
        (rw k at w.checked.has_value) w.same binds

  -- A runnable condition's clause selects the row just when the evaluator matches the facts, if the
  -- row's expressions have the values of the facts and the clause's binds are in the query.
  pub clause-evaluate_single :
      (f : Facts) (c : Condition) (i : ℕ)
      → ((t : ConditionTarget) → value t ≡ datum f t)
      → IsRunnable compile pg_regex c
      → HasBinds bind i (build_operator c.operator c i).1
      → selected (eval_clause pg_regex value bind (build_operator c.operator c i).0)
        ≡ evaluate_single compile c f
  clause-evaluate_single f c i values w binds =
      clause_of c i (datum f c.target) (values c.target) (sym (kind_of-datum f c.target)) w binds
      ∙ sym (evaluate_single-datum compile c f)
