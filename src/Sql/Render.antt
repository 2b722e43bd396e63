-- ===== src/Sql/Render.antt =====
-- src/services/rule_sql.rs: the text of a clause.
use birthday_role.Prelude.{
  ℕ, zero, suc, ◌+◌, ◌/◌, ◌%◌, List, [], ◌∷◌, ◌++◌, Option, none, some, ltb, if◌then◌else◌, Text,
  codes,
}
use birthday_role.Models.Condition.{
  ConditionTarget, has_birthday_set, has_birth_year, is_birthday_today, is_birthday_week,
  is_birthday_month, days_until_birthday, age_years, age_turning_this_year, birth_month, birth_day,
  birth_year, zodiac_sign, chinese_zodiac, birth_season, birthstone, birth_weekday,
}
use birthday_role.Sql.{
  Comparison, equals, differs, greater, at_least, less, at_most, Clause, true_clause, false_clause,
  compared, text_equals, distinct_from, within, like, matches, any_int, any_text, no_int, no_text,
  Where, all_rows, no_rows, any_group,
}

-- A number in decimal, as `{i}` prints it. The fuel is the number itself, which has fewer digits.
digits : ℕ → ℕ → Text
digits zero n = []
digits (suc f) n =
    let rest = digits f (n / 10) in if ltb n 10 then (48 + n) ∷ [] else rest ++ (48 + n % 10) ∷ []

abbrev local : Text
local = codes "((now() AT TIME ZONE bt.tz)::date)"

unfoldable pub target_expr : ConditionTarget → Text
target_expr has_birthday_set = codes "TRUE"
target_expr has_birth_year = codes "(bt.birth_year IS NOT NULL)"
target_expr is_birthday_today =
    codes "bday_is_today(bt.birth_month, bt.birth_day, " ++ (local ++ codes ")")
target_expr is_birthday_week =
    codes "(bday_days_until(bt.birth_month, bt.birth_day, " ++ (local ++ codes ") <= 6)")
target_expr is_birthday_month =
    codes "(EXTRACT(MONTH FROM " ++ (local ++ codes ")::int = bt.birth_month)")
target_expr days_until_birthday =
    codes "bday_days_until(bt.birth_month, bt.birth_day, " ++ (local ++ codes ")")
target_expr age_years =
    codes "bday_age(bt.birth_year, bt.birth_month, bt.birth_day, " ++ (local ++ codes ")")
target_expr age_turning_this_year =
    codes "bday_age_turning(bt.birth_year, bt.birth_month, bt.birth_day, " ++ (local ++ codes ")")
target_expr birth_month = codes "bt.birth_month"
target_expr birth_day = codes "bt.birth_day"
target_expr birth_year = codes "bt.birth_year"
target_expr zodiac_sign = codes "bt.zodiac"
target_expr chinese_zodiac = codes "bt.chinese_zodiac"
target_expr birth_season = codes "bt.season"
target_expr birthstone = codes "bt.birthstone"
target_expr birth_weekday = codes "bt.birth_weekday"

sign : Comparison → Text
sign equals = codes "="
sign differs = codes "<>"
sign greater = codes ">"
sign at_least = codes ">="
sign less = codes "<"
sign at_most = codes "<="

param : ℕ → Text
unfolding digits
param i = b'$' ∷ digits (suc i) i

braced : ConditionTarget → Text
unfolding target_expr
braced t = b'(' ∷ target_expr t ++ codes ")"

unfoldable pub render_clause : Clause → Text
unfolding param braced sign target_expr
render_clause true_clause = codes "TRUE"
render_clause false_clause = codes "FALSE"
render_clause (compared op t i) = braced t ++ (codes " " ++ (sign op ++ (codes " " ++ param i)))
render_clause (text_equals t i) = target_expr t ++ (codes " = " ++ param i)
render_clause (distinct_from t i) = target_expr t ++ (codes " IS DISTINCT FROM " ++ param i)
render_clause (within t ia ib) =
    codes "("
    ++ (braced t
        ++ (codes " >= "
            ++ (param ia
                ++ (codes " AND " ++ (braced t ++ (codes " <= " ++ (param ib ++ codes ")")))))))
render_clause (like t i) = target_expr t ++ (codes " LIKE " ++ param i)
render_clause (matches t i) = target_expr t ++ (codes " ~ " ++ param i)
render_clause (any_int t i) = braced t ++ (codes " = ANY(" ++ (param i ++ codes "::int[])"))
render_clause (any_text t i) = target_expr t ++ (codes " = ANY(" ++ (param i ++ codes "::text[])"))
render_clause (no_int t i) =
    codes "("
    ++ (braced t
        ++ (codes " IS NOT NULL AND "
            ++ (braced t ++ (codes " <> ALL(" ++ (param i ++ codes "::int[]))")))))
render_clause (no_text t i) =
    codes "("
    ++ (target_expr t
        ++ (codes " IS NOT NULL AND "
            ++ (target_expr t ++ (codes " <> ALL(" ++ (param i ++ codes "::text[]))")))))

-- `join`
join : Text → List Text → Text
join sep [] = []
join sep (t ∷ []) = t
join sep (t ∷ u ∷ ts) = t ++ (sep ++ join sep (u ∷ ts))

render_clauses : List Clause → List Text
unfolding render_clause
render_clauses [] = []
render_clauses (c ∷ cs) = render_clause c ∷ render_clauses cs

render_group : Option (List Clause) → Text
unfolding join render_clauses
render_group none = codes "FALSE"
render_group (some cs) = codes "(" ++ (join (codes " AND ") (render_clauses cs) ++ codes ")")

render_groups : List (Option (List Clause)) → List Text
unfolding render_group
render_groups [] = []
render_groups (g ∷ gs) = render_group g ∷ render_groups gs

unfoldable pub render : Where → Text
unfolding join render_groups
render all_rows = codes "TRUE"
render no_rows = codes "FALSE"
render (any_group groups) = codes "(" ++ (join (codes " OR ") (render_groups groups) ++ codes ")")
