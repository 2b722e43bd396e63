-- ===== src/Sql.antt =====
-- src/services/rule_sql.rs: the WHERE clause of a rule. The source builds text; here a clause is a
-- tree with one constructor for each format string, and Sql/Render.antt prints that text.
pub mod Render
pub mod Functions
pub mod Semantics
pub mod Like
pub mod Clauses
pub mod Agreement
pub mod Members
use birthday_role.Prelude.{
  ℕ, suc, ◌+◌, Bool, true, false, Option, none, some, List, [], ◌∷◌, ◌++◌, length, if◌then◌else◌,
  Text, codes, is_empty, ◌==◌,
}
use birthday_role.Prelude.Int.{ℤ, pos}
use birthday_role.Prelude.Options.{◌>>=◌, map_or}
use birthday_role.Models.Json.{Value, as_bool, as_i64, as_str, as_array}
use birthday_role.Models.Condition.{
  Condition, ConditionOperator, eq, neq, gt, gte, lt, lte, between, contains, regex, in_list,
  not_in, ConditionTarget, TargetKind, bool, int, string, kind,
}
use birthday_role.Models.Rule.{RuleTree, ConditionGroup}
use birthday_role.Eval.{filter_map}

pub data Bind : Type 0 where
  bool_bind : Bool → Bind
  int_bind : ℤ → Bind
  text_bind : Text → Bind
  int_array_bind : List ℤ → Bind
  text_array_bind : List Text → Bind

pub data Comparison : Type 0 where
  equals differs greater at_least less at_most : Comparison

-- `ConditionTarget` stands for its expression, `target_expr`; a number is the index of a bind.
pub data Clause : Type 0 where
  true_clause false_clause : Clause
  compared : Comparison → ConditionTarget → ℕ → Clause
  text_equals : ConditionTarget → ℕ → Clause
  distinct_from : ConditionTarget → ℕ → Clause
  within : ConditionTarget → ℕ → ℕ → Clause
  like : ConditionTarget → ℕ → Clause
  matches : ConditionTarget → ℕ → Clause
  any_int : ConditionTarget → ℕ → Clause
  any_text : ConditionTarget → ℕ → Clause
  no_int : ConditionTarget → ℕ → Clause
  no_text : ConditionTarget → ℕ → Clause

pub data Where : Type 0 where
  all_rows no_rows : Where
  any_group : List (Option (List Clause)) → Where

-- `str::replace` of one character.
abbrev pub replace : ℕ → Text → Text → Text
replace c t [] = []
replace c t (d ∷ s) = if d == c then t ++ replace c t s else d ∷ replace c t s

unfoldable pub escape_like : Text → Text
escape_like s =
    replace b'_' (codes "\\_") (replace b'%' (codes "\\%") (replace b'\\' (codes "\\\\") s))

unfoldable pub int_array : Condition → List ℤ
int_array c = map_or [] (filter_map as_i64) (as_array c.value)

unfoldable pub str_array : Condition → List Text
str_array c = map_or [] (filter_map as_str) (as_array c.value)

abbrev pub unwrap_or {ℓ} : {A : Type ℓ} → A → Option A → A
unwrap_or d none = d
unwrap_or d (some a) = a

abbrev int_of : Option Value → ℤ → ℤ
int_of v d = unwrap_or d (v >>= as_i64)

abbrev text_of : Condition → Text
text_of c = unwrap_or [] (as_str c.value)

abbrev is_int : TargetKind → Bool
is_int int = true
is_int _ = false

-- Each function gives the clause and the binds that it pushes. `i` is the index of the next bind.
compare_int : Comparison → Condition → ℕ → Clause × List Bind
compare_int op c i = (compared op c.target i, int_bind (int_of (some c.value) (pos 0)) ∷ [])

build_eq : TargetKind → Condition → ℕ → Clause × List Bind
build_eq bool c i = (compared equals c.target i, bool_bind (unwrap_or false (as_bool c.value)) ∷ [])
build_eq int c i = (compared equals c.target i, int_bind (int_of (some c.value) (pos 0)) ∷ [])
build_eq string c i = (text_equals c.target i, text_bind (text_of c) ∷ [])

build_neq : Condition → ℕ → Clause × List Bind
unfolding compare_int
build_neq c i =
    if is_int (kind c.target)
    then compare_int differs c i
    else (distinct_from c.target i, text_bind (text_of c) ∷ [])

build_between : Condition → ℕ → Clause × List Bind
build_between c i =
    let lo = int_of (some c.value) (pos 0) in
    let hi = int_of c.value_end lo in (within c.target i (i + 1), int_bind lo ∷ int_bind hi ∷ [])

build_in : Condition → ℕ → Clause × List Bind
build_in c i =
    if is_int (kind c.target)
    then (if is_empty (int_array c)
        then (false_clause, [])
        else (any_int c.target i, int_array_bind (int_array c) ∷ []))
    else if is_empty (str_array c)
    then (false_clause, [])
    else (any_text c.target i, text_array_bind (str_array c) ∷ [])

build_not_in : Condition → ℕ → Clause × List Bind
build_not_in c i =
    if is_int (kind c.target)
    then (if is_empty (int_array c)
        then (true_clause, [])
        else (no_int c.target i, int_array_bind (int_array c) ∷ []))
    else if is_empty (str_array c)
    then (true_clause, [])
    else (no_text c.target i, text_array_bind (str_array c) ∷ [])

unfoldable pub build_operator : ConditionOperator → Condition → ℕ → Clause × List Bind
unfolding build_eq build_neq compare_int build_between build_in build_not_in
build_operator eq c i = build_eq (kind c.target) c i
build_operator neq c i = build_neq c i
build_operator gt c i = compare_int greater c i
build_operator gte c i = compare_int at_least c i
build_operator lt c i = compare_int less c i
build_operator lte c i = compare_int at_most c i
build_operator between c i = build_between c i
build_operator contains c i =
    (like c.target i, text_bind (b'%' ∷ escape_like (text_of c) ++ b'%' ∷ []) ∷ [])
build_operator regex c i = (matches c.target i, text_bind (text_of c) ∷ [])
build_operator in_list c i = build_in c i
build_operator not_in c i = build_not_in c i

-- `binds` is the vector of the source: what is pushed stands at its end.
unfoldable pub build_condition : Condition → ℕ → List Bind → Clause × List Bind
unfolding build_operator
build_condition c bind_offset binds =
    let (clause, pushed) = build_operator c.operator c (bind_offset + length binds + 1) in
    (clause, binds ++ pushed)

-- The inner loop of `build_rule_where`.
unfoldable pub build_conditions : List Condition → ℕ → List Bind → List Clause × List Bind
build_conditions [] bind_offset binds = ([], binds)
build_conditions (c ∷ cs) bind_offset binds =
    let (clause, binds') = build_condition c bind_offset binds in
    let (clauses, binds'') = build_conditions cs bind_offset binds' in (clause ∷ clauses, binds'')

-- The loop over the groups; `none` is the clause "FALSE" of an empty group.
unfoldable pub build_groups :
    List ConditionGroup → ℕ → List Bind → List (Option (List Clause)) × List Bind
build_groups [] bind_offset binds = ([], binds)
build_groups (g ∷ gs) bind_offset binds =
    let (clauses, binds') = build_conditions g.conditions bind_offset binds in
    let (groups, binds'') = build_groups gs bind_offset binds' in
    ((if is_empty g.conditions then none else some clauses) ∷ groups, binds'')

unfoldable pub build_rule_where : RuleTree → ℕ → Where × List Bind
build_rule_where tree bind_offset =
    if tree.grant_on_any_birthday
    then (all_rows, [])
    else if is_empty tree.groups
    then (no_rows, [])
    else let (groups, binds) = build_groups tree.groups bind_offset [] in (any_group groups, binds)
