-- ===== src/Models/Rule.antt =====
-- src/models/rule.rs: a rule is an OR of AND-groups.
use birthday_role.Prelude.{ℕ, Bool, false, List, []}
use birthday_role.Models.Condition.{Condition}

abbrev pub max_groups : ℕ
max_groups = 8

abbrev pub max_conditions_per_group : ℕ
max_conditions_per_group = 12

pub record ConditionGroup : Type 0 where
  pub conditions : List Condition

pub record RuleTree : Type 0 where
  pub grant_on_any_birthday : Bool
  pub groups : List ConditionGroup

-- `RuleTree::default()`, of a role link that nobody has configured yet.
abbrev pub default : RuleTree
default = record { grant_on_any_birthday = false; groups = [] }
