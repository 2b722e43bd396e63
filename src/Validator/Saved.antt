-- ===== src/Validator/Saved.antt =====
-- src/services/rule_validator.rs: the rules that `parse_rule_tree` lets be saved.
use birthday_role.Prelude.{
  ℕ, suc, ◌+◌, ◌≤◌, ◌<◌, ◌≡◌, refl, ap, Bool, true, false, Option, some, List, [], ◌∷◌, length,
  Text, is_empty, ltb, arith, All, Bool-cases, inl, inr,
}
use birthday_role.Prelude.Int.{ℤ, pos}
use birthday_role.Prelude.Results.{ok, >>=-eq-ok, refuse_if, refuse_if-eq-ok, ok-inj}
use birthday_role.Calendar.{Calendar, IsOn, IsGregorian, max_year}
use birthday_role.Models.Facts.{Facts}
use birthday_role.Models.Json.{Number}
use birthday_role.Models.Condition.{Condition}
use birthday_role.Models.Rule.{RuleTree, ConditionGroup, max_groups, max_conditions_per_group}
use birthday_role.Birthday.{Derived, compute_derived}
use birthday_role.Birthday.Facts.{Zones, local_today, compute_facts}
use birthday_role.Birthday.Dates.{IsRecurring}
use birthday_role.Birthday.Resolve.{IsBirthYear, birthday_row}
use birthday_role.Eval.{evaluate}
use birthday_role.Sql.{build_rule_where, int_array}
use birthday_role.Sql.Semantics.{
  fits_int4, eval_where, bind_at, target_value, local_values, selected, Local,
}
use birthday_role.Sql.Clauses.{IsRunnable, SamePattern}
use birthday_role.Sql.Members.{stored, build_rule_where-compute_facts}
use birthday_role.Validator.{no_groups, too_many_groups, no_conditions, too_many_conditions}
use birthday_role.Validator.Rules.{
  ConditionInput, ConditionGroupInput, RuleTreeBody, validate_condition, validate_conditions,
  validate_groups, parse_rule_tree,
}
use birthday_role.Validator.Accepted.{IsSaved, validate_condition-IsSaved}

filled_length {ℓ} : {A : Type ℓ} (xs : List A) → is_empty xs ≡ false → 1 ≤ length xs
filled_length [] h = absurd (ground arith)
filled_length (x ∷ xs) h = omega arith

bounded : (n m : ℕ) → ltb m n ≡ false → n ≤ m
bounded n m h = ground arith

module _ (compile : Text → Option (Text → Bool)) (lower : Text → Text)
    (number_to_string : Number → Text) where
  abbrev pub IsSavedGroup : ConditionGroup → Type 0
  IsSavedGroup g =
      (1 ≤ length g.conditions)
      × (length g.conditions ≤ max_conditions_per_group)
      × All (IsSaved compile lower number_to_string) g.conditions

  -- What `parse_rule_tree` promises of a rule: it is "anyone" without groups, or 1 to 8 groups of 1 to
  -- 12 conditions that can be run.
  pub record IsSavedRule (tree : RuleTree) : Type 0 where
    pub anyone : tree.grant_on_any_birthday ≡ true → tree.groups ≡ []
    pub grouped :
        tree.grant_on_any_birthday ≡ false
        → (1 ≤ length tree.groups) × (length tree.groups ≤ max_groups)
    pub groups_saved : All IsSavedGroup tree.groups

  validate_conditions-IsSaved :
      (g n : ℕ) (raws : List ConditionInput) (cs : List Condition)
      → validate_conditions compile lower number_to_string g n raws ≡ ok cs
      → (length cs ≡ length raws) × All (IsSaved compile lower number_to_string) cs
  unfolding validate_conditions
  validate_conditions-IsSaved g n [] cs e = rw (← ok-inj e) (refl, tt)
  validate_conditions-IsSaved g n (raw ∷ raws) cs e =
      let (c, first, e1) =
        >>=-eq-ok (validate_condition compile lower number_to_string g (n + 1) raw) _ cs e in
      let (rest, others, made) =
        >>=-eq-ok (validate_conditions compile lower number_to_string g (n + 1) raws) _ cs e1 in
      let (len, saved) = validate_conditions-IsSaved g (n + 1) raws rest others in
      rw (← ok-inj made) (
        ap suc len,
        (validate_condition-IsSaved compile lower number_to_string g (n + 1) raw c first, saved),
      )

  validate_groups-IsSavedGroup :
      (n : ℕ) (raws : List ConditionGroupInput) (gs : List ConditionGroup)
      → validate_groups compile lower number_to_string n raws ≡ ok gs
      → (length gs ≡ length raws) × All IsSavedGroup gs
  unfolding validate_groups
  validate_groups-IsSavedGroup n [] gs e = rw (← ok-inj e) (refl, tt)
  validate_groups-IsSavedGroup n (raw ∷ raws) gs e =
      let (u, filled, e1) =
        >>=-eq-ok (refuse_if (is_empty raw.conditions) (no_conditions (n + 1))) _ gs e in
      let (v, few, e2) =
        >>=-eq-ok
          (refuse_if (ltb max_conditions_per_group (length raw.conditions))
            (too_many_conditions (n + 1)))
          _ gs e1 in
      let (cs, first, e3) =
        >>=-eq-ok (validate_conditions compile lower number_to_string (n + 1) 0 raw.conditions) _ gs
          e2 in
      let (rest, others, made) =
        >>=-eq-ok (validate_groups compile lower number_to_string (n + 1) raws) _ gs e3 in
      let (same, saved) = validate_conditions-IsSaved (n + 1) 0 raw.conditions cs first in
      let (len, more) = validate_groups-IsSavedGroup (n + 1) raws rest others in
      let low = filled_length raw.conditions (refuse_if-eq-ok _ _ u filled) in
      let high =
        bounded (length raw.conditions) max_conditions_per_group (refuse_if-eq-ok _ _ v few) in
      rw (← ok-inj made) (ap suc len, ((rw same low, rw same high, saved), more))

  pub parse_rule_tree-IsSavedRule :
      (body : RuleTreeBody) (tree : RuleTree)
      → parse_rule_tree compile lower number_to_string body ≡ ok tree
      → IsSavedRule tree
  unfolding parse_rule_tree
  parse_rule_tree-IsSavedRule body tree e = elim (Bool-cases body.grant_on_any_birthday) [
    | inl granted ↦
        rw (← ok-inj (rw granted at e))
          (record { anyone = λ h. refl; grouped = λ h. cc; groups_saved = tt })
    | inr asked ↦
        let e0 = rw asked at e in
        let (u, filled, e1) = >>=-eq-ok (refuse_if (is_empty body.groups) no_groups) _ tree e0 in
        let (v, few, e2) =
          >>=-eq-ok (refuse_if (ltb max_groups (length body.groups)) too_many_groups) _ tree e1 in
        let (gs, checked, made) =
          >>=-eq-ok (validate_groups compile lower number_to_string 0 body.groups) _ tree e2 in
        let (len, saved) = validate_groups-IsSavedGroup 0 body.groups gs checked in
        let low = filled_length body.groups (refuse_if-eq-ok _ _ u filled) in
        let high = bounded (length body.groups) max_groups (refuse_if-eq-ok _ _ v few) in
        rw (← ok-inj made) (record {
          anyone = λ h. cc;
          grouped = λ h. (rw len low, rw len high);
          groups_saved = saved;
        })
  ]

  -- What neither the validator nor the evaluator needs: numbers that fit `int[]`, and patterns that mean
  -- the same to Postgres.
  abbrev pub IsPortable : (Text → Text → Bool) → Condition → Type 0
  IsPortable pg_regex c = (fits_int4 (int_array c) ≡ true) × SamePattern compile pg_regex c

  conditions-IsRunnable :
      (pg_regex : Text → Text → Bool) (cs : List Condition)
      → All (IsSaved compile lower number_to_string) cs
      → All (IsPortable pg_regex) cs
      → All (IsRunnable compile pg_regex) cs
  conditions-IsRunnable pg_regex [] h f = tt
  conditions-IsRunnable pg_regex (c ∷ cs) h f = (
    record { checked = h.0.checked; fits = f.0.0; same = f.0.1 },
    conditions-IsRunnable pg_regex cs h.1 f.1,
  )

  groups-IsRunnable :
      (pg_regex : Text → Text → Bool) (gs : List ConditionGroup)
      → All IsSavedGroup gs
      → All (λ g. All (IsPortable pg_regex) g.conditions) gs
      → All (λ g. All (IsRunnable compile pg_regex) g.conditions) gs
  groups-IsRunnable pg_regex [] h f = tt
  groups-IsRunnable pg_regex (g ∷ gs) h f =
      (conditions-IsRunnable pg_regex g.conditions h.0.2 f.0, groups-IsRunnable pg_regex gs h.1 f.1)

module _ (c : Calendar) (g : IsGregorian c) (z : Zones (c.Date)) (tz : Text) {y0 m0 d0 : ℕ}
    (on : IsOn c (local_today z tz) y0 m0 d0) (pg : Calendar) (gp : IsGregorian pg)
    {p_local : pg.Date} (on' : IsOn pg p_local y0 m0 d0) (later : y0 < max_year) (m d : ℕ)
    (r : IsRecurring m d) (year : Option ℤ) (born : IsBirthYear year)
    (compile : Text → Option (Text → Bool)) (pg_regex : Text → Text → Bool) (lower : Text → Text)
    (number_to_string : Number → Text) where
  -- A rule that `parse_rule_tree` accepts grants the same roles on both paths. Take a member with a
  -- valid birthday, whose row holds the derived facts, let chrono and Postgres have the same local date
  -- for the member, before the year 9999. Let the rule's own patterns, if it has any, match the same
  -- texts in the regex crate and in Postgres, and let its lists of numbers fit Postgres's `int`. Then
  -- `compute_facts` and the bday_* functions return, and the WHERE clause of the rule, with its binds from
  -- any offset, selects the row just when `evaluate` matches the facts.
  pub parse_rule_tree-build_rule_where :
      (body : RuleTreeBody) (tree : RuleTree) (offset : ℕ)
      → parse_rule_tree compile lower number_to_string body ≡ ok tree
      → All (λ g. All (IsPortable compile lower number_to_string pg_regex) g.conditions) tree.groups
      → (f : Facts) × (der : Derived) × (l : Local) × (compute_facts c z (birthday_row tz m d year)
          ≡ some f)
        × (compute_derived c (pos m) (pos d) year ≡ some der)
        × (local_values pg (stored m d year der) p_local ≡ some l)
        × (selected (
              eval_where pg_regex
                (target_value (stored m d year der) l)
                (bind_at offset (build_rule_where tree offset).1)
                (build_rule_where tree offset).0)
            ≡ evaluate compile tree f)
  parse_rule_tree-build_rule_where body tree offset e fits =
      let saved = parse_rule_tree-IsSavedRule compile lower number_to_string body tree e in
      build_rule_where-compute_facts c g z tz on pg gp on' later m d r year born compile pg_regex
        tree
        (groups-IsRunnable compile lower number_to_string pg_regex tree.groups saved.groups_saved
          fits)
        offset
