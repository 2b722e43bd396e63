-- ===== src/Validator/Accepted.antt =====
-- src/services/rule_validator.rs: what a rule that the validator accepts is like, and what that means
-- for the two paths that run it.
use birthday_role.Prelude.{
  ℕ, ◌≡◌, refl, sym, Bool, true, false, not, Option, none, some, Text, is_empty, trim, List, [],
  ◌∷◌, map, All, Option-cases, inl, inr,
}
use birthday_role.Prelude.Options.{◌>>=◌, Returns}
use birthday_role.Prelude.Results.{ok, >>=-eq-ok, ok_or, refuse_if, refuse_if-eq-ok, ok-inj}
use birthday_role.Models.Json.{
  Number, Value, string, array, of_items, items-of_items, as_str, as_i64,
}
use birthday_role.Models.Condition.{
  TargetKind, bool, int, ConditionTarget, kind, ConditionOperator, eq, neq, between, regex, in_list,
  not_in, Condition, valid_for, target_from_key, operator_from_key,
}
use birthday_role.Models.Condition.{string as string_kind}
use birthday_role.Eval.{int_list}
use birthday_role.Sql.{int_array, str_array}
use birthday_role.Sql.Clauses.{HasValue, IsChecked}
use birthday_role.Validator.{
  Place, place, normalize_as, normalize_value, string_form, unknown_target, unknown_operator,
  invalid_operator,
}
use birthday_role.Validator.Rules.{
  ConditionInput, normalize_end, is_bad_pattern, validate_condition,
}
use birthday_role.Validator.Values.{
  normalize_bool-as_bool, normalize_int-as_i64, normalize_ints-int_list,
}
use birthday_role.Validator.Facts.{HasFact, Offered-HasFact}
use birthday_role.Validator.Texts.{
  Offered, IsTextList, filter_map-string, enum_value-Offered, normalize_strings-IsTextList,
  normalize_string-string,
}

-- A list of texts that are facts of its target.
abbrev pub IsFactList : ConditionTarget → Value → Type 0
IsFactList t v =
    (texts : List Text) × (v ≡ array (of_items (map string texts)))
    × (is_empty texts ≡ false)
    × All (HasFact t) texts

-- The texts that a condition compares are facts that birthdays have.
abbrev pub IsListed : TargetKind → ConditionOperator → ConditionTarget → Value → Type 0
IsListed bool o t v = Unit
IsListed int o t v = Unit
IsListed string_kind eq t v = (s : Text) × (v ≡ string s) × HasFact t s
IsListed string_kind neq t v = (s : Text) × (v ≡ string s) × HasFact t s
IsListed string_kind in_list t v = IsFactList t v
IsListed string_kind not_in t v = IsFactList t v
IsListed string_kind o t v = Unit

IsTextList-IsFactList : (t : ConditionTarget) (v : Value) → IsTextList t v → IsFactList t v
IsTextList-IsFactList t v l = (l.texts, l.stored, l.filled, facts l.texts l.offered)
  where
    facts : (ss : List Text) → All (Offered t) ss → All (HasFact t) ss
    facts [] h = tt
    facts (s ∷ ss) h = (Offered-HasFact t s h.0, facts ss h.1)

str_array-IsTextList :
    (c : Condition) → IsTextList c.target c.value → is_empty (str_array c) ≡ false
unfolding str_array
str_array-IsTextList c l = rw (l.stored, items-of_items _, filter_map-string l.texts) l.filled

not-eq-false : (b : Bool) → not b ≡ false → b ≡ true
not-eq-false true e = refl
not-eq-false false e = cc

module _ (compile : Text → Option (Text → Bool)) (lower : Text → Text)
    (number_to_string : Number → Text) where
  compiled :
      (s : Text) (v : Value)
      → v ≡ string s
      → is_bad_pattern compile lower number_to_string regex v ≡ false
      → Returns (as_str v >>= compile)
  compiled s v e good = elim (Option-cases (compile s)) [
    | inl bad ↦ cc (rw (e, bad) at good)
    | inr (p, fine) ↦ (p, rw (e, fine) refl)
  ]

  normalize_end-as_i64 :
      (w : Place) (t : ConditionTarget) (end v : Option Value)
      → kind t ≡ int
      → normalize_end compile lower number_to_string w t between end ≡ ok v
      → Returns (v >>= as_i64)
  unfolding normalize_end normalize_value normalize_as
  normalize_end-as_i64 w t none v ek e = cc
  normalize_end-as_i64 w t (some raw) v ek e =
      let (m, normal, made) =
        >>=-eq-ok (normalize_value lower number_to_string w t between raw) _ (v) e in
      let (n, whole) = normalize_int-as_i64 w raw m (rw ek at normal) in
      (n, rw (sym (ok-inj made)) whole)

  normalize_as-HasValue :
      (w : Place) (k : TargetKind) (o : ConditionOperator) (c : Condition) (raw : Value)
      (end : Option Value)
      → kind c.target ≡ k
      → normalize_as lower number_to_string k w c.target o raw ≡ ok c.value
      → normalize_end compile lower number_to_string w c.target o end ≡ ok c.value_end
      → is_bad_pattern compile lower number_to_string o c.value ≡ false
      → HasValue compile k o c
  unfolding normalize_as normalize_end normalize_value string_form int_array int_list
  normalize_as-HasValue w bool o c raw end ek e f g = normalize_bool-as_bool w raw c.value e
  normalize_as-HasValue w int in_list c raw end ek e f g =
      normalize_ints-int_list w c.target raw c.value e
  normalize_as-HasValue w int not_in c raw end ek e f g =
      normalize_ints-int_list w c.target raw c.value e
  normalize_as-HasValue w int between c raw end ek e f g =
      (normalize_int-as_i64 w raw c.value e, normalize_end-as_i64 w c.target end c.value_end ek f)
  normalize_as-HasValue w int _ c raw end ek e f g = normalize_int-as_i64 w raw c.value e
  normalize_as-HasValue w string_kind in_list c raw end ek e f g =
      str_array-IsTextList c
        (normalize_strings-IsTextList lower number_to_string w c.target raw c.value e)
  normalize_as-HasValue w string_kind not_in c raw end ek e f g =
      str_array-IsTextList c
        (normalize_strings-IsTextList lower number_to_string w c.target raw c.value e)
  normalize_as-HasValue w string_kind regex c raw end ek e f g =
      let (s, _, stored) =
        normalize_string-string lower number_to_string w c.target regex raw c.value e in
      compiled s c.value stored g
  normalize_as-HasValue w string_kind _ c raw end ek e f g =
      let (s, _, stored) =
        normalize_string-string lower number_to_string w c.target _ raw c.value e in
      (s, rw stored refl)

  normalize_as-IsListed :
      (w : Place) (k : TargetKind) (o : ConditionOperator) (t : ConditionTarget) (raw v : Value)
      → normalize_as lower number_to_string k w t o raw ≡ ok v
      → IsListed k o t v
  unfolding normalize_as string_form
  normalize_as-IsListed w bool o t raw v e = tt
  normalize_as-IsListed w int o t raw v e = tt
  normalize_as-IsListed w string_kind in_list t raw v e =
      IsTextList-IsFactList t v (normalize_strings-IsTextList lower number_to_string w t raw v e)
  normalize_as-IsListed w string_kind not_in t raw v e =
      IsTextList-IsFactList t v (normalize_strings-IsTextList lower number_to_string w t raw v e)
  normalize_as-IsListed w string_kind eq t raw v e =
      let (s, valid, stored) = normalize_string-string lower number_to_string w t eq raw v e in
      (s, stored, Offered-HasFact t s (enum_value-Offered lower number_to_string w t _ s valid))
  normalize_as-IsListed w string_kind neq t raw v e =
      let (s, valid, stored) = normalize_string-string lower number_to_string w t neq raw v e in
      (s, stored, Offered-HasFact t s (enum_value-Offered lower number_to_string w t _ s valid))
  normalize_as-IsListed w string_kind _ t raw v e = tt

  -- What holds of each saved condition: it can be run, and names values that a member can have.
  pub record IsSaved (c : Condition) : Type 0 where
    pub checked : IsChecked compile c
    pub listed : IsListed (kind c.target) c.operator c.target c.value

  pub validate_condition-IsSaved :
      (g n : ℕ) (raw : ConditionInput) (c : Condition)
      → validate_condition compile lower number_to_string g n raw ≡ ok c
      → IsSaved c
  unfolding validate_condition normalize_value
  validate_condition-IsSaved g n raw c e =
      let w = place g n in
      let (t, et, e1) =
        >>=-eq-ok (ok_or (unknown_target w raw.target) (target_from_key (trim raw.target))) _ c e in
      let (o, eo, e2) =
        >>=-eq-ok (ok_or (unknown_operator w raw.operator) (operator_from_key (trim raw.operator)))
          _ c e1 in
      let (u, valid, e3) =
        >>=-eq-ok (refuse_if (not (valid_for o (kind t))) (invalid_operator w o t)) _ c e2 in
      let (v, normal, e4) =
        >>=-eq-ok (normalize_value lower number_to_string w t o raw.value) _ c e3 in
      let (end, ended, e5) =
        >>=-eq-ok (normalize_end compile lower number_to_string w t o raw.value_end) _ c e4 in
      let (x, good, made) =
        >>=-eq-ok (refuse_if (is_bad_pattern compile lower number_to_string o v) _) _ c e5 in
      rw (← ok-inj made) (record {
        checked = record {
          valid = not-eq-false (valid_for o (kind t)) (refuse_if-eq-ok _ _ u valid);
          has_value =
              normalize_as-HasValue w (kind t) o
                (record { target = t; operator = o; value = v; value_end = end }) raw.value
                raw.value_end refl normal ended (refuse_if-eq-ok _ _ x good);
        };
        listed = normalize_as-IsListed w (kind t) o t raw.value v normal;
      })
