-- ===== src/Validator/Rules.antt =====
-- src/services/rule_validator.rs: conditions, groups and the whole payload.
use birthday_role.Prelude.{
  ℕ, ◌+◌, Bool, false, not, Option, none, some, List, [], ◌∷◌, length, if◌then◌else◌, Text,
  is_empty, ltb, trim,
}
use birthday_role.Prelude.Options.{map_or, is_some}
use birthday_role.Prelude.Results.{Result, ok, err, ◌>>=◌, ok_or, refuse_if}
use birthday_role.Models.Json.{Number, Value, as_str}
use birthday_role.Models.Condition.{
  ConditionTarget, kind, ConditionOperator, between, regex, Condition, valid_for, target_from_key,
  operator_from_key,
}
use birthday_role.Models.Rule.{RuleTree, ConditionGroup, max_groups, max_conditions_per_group}
use birthday_role.Validator.{
  Place, place, RuleError, no_groups, too_many_groups, no_conditions, too_many_conditions,
  unknown_target, unknown_operator, invalid_operator, needs_two_values, invalid_pattern,
  normalize_value,
}

pub record ConditionInput : Type 0 where
  pub target : Text
  pub operator : Text
  pub value : Value
  pub value_end : Option Value

pub record ConditionGroupInput : Type 0 where
  pub conditions : List ConditionInput

pub record RuleTreeBody : Type 0 where
  pub grant_on_any_birthday : Bool
  pub groups : List ConditionGroupInput

-- `compile` is the regex crate's builder with the size limits of the source.
module _ (compile : Text → Option (Text → Bool)) (lower : Text → Text)
    (number_to_string : Number → Text) where
  unfoldable pub normalize_end :
      Place → ConditionTarget → ConditionOperator → Option Value → Result RuleError (Option Value)
  normalize_end w t between none = err (needs_two_values w)
  normalize_end w t between (some end) = do
    v ← normalize_value lower number_to_string w t between end
    ok (some v)
  normalize_end w t o end = ok none

  abbrev pub is_bad_pattern : ConditionOperator → Value → Bool
  is_bad_pattern regex v = not (is_some (compile (map_or [] (λ s. s) (as_str v))))
  is_bad_pattern _ v = false

  unfoldable pub validate_condition : ℕ → ℕ → ConditionInput → Result RuleError Condition
  validate_condition group_num cond_num raw = do
    let w = place group_num cond_num
    target ← ok_or (unknown_target w raw.target) (target_from_key (trim raw.target))
    operator ← ok_or (unknown_operator w raw.operator) (operator_from_key (trim raw.operator))
    _ ← refuse_if (not (valid_for operator (kind target))) (invalid_operator w operator target)
    value ← normalize_value lower number_to_string w target operator raw.value
    value_end ← normalize_end w target operator raw.value_end
    _ ← refuse_if (is_bad_pattern operator value) (invalid_pattern w)
    ok (record { target = target; operator = operator; value = value; value_end = value_end })

  -- The conditions from the index `ci` on.
  unfoldable pub validate_conditions :
      ℕ → ℕ → List ConditionInput → Result RuleError (List Condition)
  validate_conditions group_num ci [] = ok []
  validate_conditions group_num ci (raw ∷ rest) = do
    c ← validate_condition group_num (ci + 1) raw
    cs ← validate_conditions group_num (ci + 1) rest
    ok (c ∷ cs)

  -- The groups from the index `gi` on.
  unfoldable pub validate_groups :
      ℕ → List ConditionGroupInput → Result RuleError (List ConditionGroup)
  validate_groups gi [] = ok []
  validate_groups gi (raw ∷ rest) = do
    _ ← refuse_if (is_empty raw.conditions) (no_conditions (gi + 1))
    _ ←
        refuse_if (ltb max_conditions_per_group (length raw.conditions))
          (too_many_conditions (gi + 1))
    conditions ← validate_conditions (gi + 1) 0 raw.conditions
    groups ← validate_groups (gi + 1) rest
    ok (record { conditions = conditions } ∷ groups)

  unfoldable pub parse_rule_tree : RuleTreeBody → Result RuleError RuleTree
  parse_rule_tree body =
      if body.grant_on_any_birthday
      then ok (record { grant_on_any_birthday = body.grant_on_any_birthday; groups = [] })
      else do
        _ ← refuse_if (is_empty body.groups) no_groups
        _ ← refuse_if (ltb max_groups (length body.groups)) too_many_groups
        groups ← validate_groups 0 body.groups
        ok (record { grant_on_any_birthday = body.grant_on_any_birthday; groups = groups })
