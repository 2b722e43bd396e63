-- ===== src/Sql/Agreement.antt =====
-- src/services/rule_sql.rs against src/services/condition_eval.rs: whole rules.
use birthday_role.Prelude.{
  ℕ, ◌+◌, ◌-◌, ◌≡◌, refl, sym, ap, ◌∙◌, Bool, ◌&&◌, ◌||◌, Option, none, some, List, [], ◌∷◌, ◌++◌,
  length, length-append, get_elem?, All, all, any, Text, is_empty, arith, if◌then◌else◌, Bool-cases,
  inl, inr,
}
use mathlib.Core.Path.{ap₂}
use mathlib.Core.List.{append_assoc, append-nil}
use birthday_role.Models.Facts.{Facts}
use birthday_role.Models.Condition.{Condition, ConditionTarget}
use birthday_role.Models.Rule.{RuleTree, ConditionGroup}
use birthday_role.Eval.{evaluate_single, group_matches, evaluate}
use birthday_role.Sql.{
  Bind, Clause, build_operator, build_condition, build_conditions, build_groups, build_rule_where,
}
use birthday_role.Sql.Semantics.{
  Datum, Truth, and3, or3, eval_clauses, eval_group, eval_groups, eval_where, selected, bind_at,
}
use birthday_role.Sql.Clauses.{datum, IsRunnable, HasBinds, clause-evaluate_single}

selected-and3 : (p q : Truth) → selected (and3 p q) ≡ (selected p && selected q)
selected-and3 p q = ground arith

selected-or3 : (p q : Truth) → selected (or3 p q) ≡ (selected p || selected q)
selected-or3 p q = ground arith

-- Where the pushed binds stand in the final vector.
get_elem?-append :
    (xs : List Bind) (b : Bind) (ys : List Bind) → get_elem? (xs ++ b ∷ ys) (length xs) ≡ some b
get_elem?-append [] b ys = refl
get_elem?-append (x ∷ xs) b ys = get_elem?-append xs b ys

HasBinds-append :
    (offset : ℕ) (before pushed after final : List Bind)
    → final ≡ before ++ (pushed ++ after)
    → HasBinds (bind_at offset final) (offset + length before + 1) pushed
HasBinds-append offset before [] after final e = tt
HasBinds-append offset before (b ∷ bs) after final e = (
  rw (index offset (length before), e) (get_elem?-append before b (bs ++ after)),
  rw (next offset before b) (
      HasBinds-append offset (before ++ b ∷ []) bs after final
        (e ∙ sym (append_assoc before (b ∷ []) (bs ++ after)))),
)
  where
    index : (offset n : ℕ) → offset + n + 1 - offset - 1 ≡ n
    index offset n = omega arith

    next :
        (offset : ℕ) (before : List Bind) (b : Bind)
        → offset + length before + 1 + 1 ≡ offset + length (before ++ b ∷ []) + 1
    next offset before b = omega (arith, length-append before (b ∷ []))

-- A vector that begins with another.
abbrev Extends : List Bind → List Bind → Type 0
Extends xs ys = (zs : List Bind) × (ys ≡ xs ++ zs)

Extends-trans : (xs ys zs : List Bind) → Extends xs ys → Extends ys zs → Extends xs zs
Extends-trans xs ys zs (us, e) (vs, h) = (us ++ vs, h ∙ ap (λ w. w ++ vs) e ∙ append_assoc xs us vs)

build_conditions-Extends :
    (cs : List Condition) (offset : ℕ) (binds : List Bind)
    → Extends binds (build_conditions cs offset binds).1
unfolding build_conditions build_condition
build_conditions-Extends [] offset binds = ([], sym (append-nil binds))
build_conditions-Extends (c ∷ cs) offset binds =
    Extends-trans _ _ _ (_, refl) (build_conditions-Extends cs offset _)

build_groups-Extends :
    (gs : List ConditionGroup) (offset : ℕ) (binds : List Bind)
    → Extends binds (build_groups gs offset binds).1
unfolding build_groups
build_groups-Extends [] offset binds = ([], sym (append-nil binds))
build_groups-Extends (g ∷ gs) offset binds =
    Extends-trans _ _ _ (build_conditions-Extends g.conditions offset binds)
      (build_groups-Extends gs offset _)

module _ (compile : Text → Option (Text → Bool)) (pg_regex : Text → Text → Bool)
    (value : ConditionTarget → Datum) (f : Facts)
    (values : (t : ConditionTarget) → value t ≡ datum f t) (offset : ℕ) where
  abbrev run : List Bind → List Clause → Truth
  run binds = eval_clauses pg_regex value (bind_at offset binds)

  conditions_agree :
      (cs : List Condition) (binds final : List Bind)
      → All (IsRunnable compile pg_regex) cs
      → Extends (build_conditions cs offset binds).1 final
      → selected (run final (build_conditions cs offset binds).0)
        ≡ all (λ c. evaluate_single compile c f) cs
  unfolding build_conditions build_condition eval_clauses
  conditions_agree [] binds final w x = refl
  conditions_agree (c ∷ cs) binds final w x =
      let i = offset + length binds + 1 in
      let pushed = (build_operator c.operator c i).1 in
      let (zs, e) =
        Extends-trans (binds ++ pushed) _ final
          (build_conditions-Extends cs offset (binds ++ pushed)) x in
      selected-and3 _ _
      ∙ ap₂ ◌&&◌
          (clause-evaluate_single compile pg_regex value (bind_at offset final) f c i values w.0
            (HasBinds-append offset binds pushed zs final (e ∙ append_assoc binds pushed zs)))
          (conditions_agree cs (binds ++ pushed) final w.1 x)

  group_agrees :
      (g : ConditionGroup) (binds final : List Bind)
      → All (IsRunnable compile pg_regex) g.conditions
      → Extends (build_conditions g.conditions offset binds).1 final
      → selected (
          eval_group pg_regex value (bind_at offset final) (
            if is_empty g.conditions
            then none
            else some (build_conditions g.conditions offset binds).0))
        ≡ group_matches compile f g
  unfolding eval_group group_matches
  group_agrees g binds final w x = elim (Bool-cases (is_empty g.conditions)) [
    | inl bare ↦ rw bare refl
    | inr filled ↦ rw filled (conditions_agree g.conditions binds final w x)
  ]

  groups_agree :
      (gs : List ConditionGroup) (binds final : List Bind)
      → All (λ g. All (IsRunnable compile pg_regex) g.conditions) gs
      → Extends (build_groups gs offset binds).1 final
      → selected
          (eval_groups pg_regex value (bind_at offset final) (build_groups gs offset binds).0)
        ≡ any (group_matches compile f) gs
  unfolding build_groups eval_groups
  groups_agree [] binds final w x = refl
  groups_agree (g ∷ gs) binds final w x =
      let more = build_groups-Extends gs offset (build_conditions g.conditions offset binds).1 in
      selected-or3 _ _
      ∙ ap₂ ◌||◌ (group_agrees g binds final w.0 (Extends-trans _ _ final more x))
          (groups_agree gs (build_conditions g.conditions offset binds).1 final w.1 x)

  -- On a row whose expressions have the values of the facts, the WHERE clause of a runnable rule selects
  -- the row just when the evaluator matches the facts.
  pub build_rule_where-evaluate :
      (tree : RuleTree)
      → All (λ g. All (IsRunnable compile pg_regex) g.conditions) tree.groups
      → selected (
          eval_where pg_regex value
            (bind_at offset (build_rule_where tree offset).1)
            (build_rule_where tree offset).0)
        ≡ evaluate compile tree f
  unfolding build_rule_where eval_where evaluate
  build_rule_where-evaluate tree w = elim (Bool-cases tree.grant_on_any_birthday) [
    | inl granted ↦ rw granted refl
    | inr asked ↦ elim (Bool-cases (is_empty tree.groups)) [
      | inl bare ↦ rw (asked, bare) refl
      | inr filled ↦ rw (asked, filled) (groups_agree tree.groups [] _ w ([], sym (append-nil _)))
    ]
  ]
