-- ===== src/Validator/Texts.antt =====
-- src/services/rule_validator.rs: the texts that `normalize_value` lets through.
use birthday_role.Prelude.{
  ◌≡◌, refl, sym, ap, true, false, ◌||◌, List, [], ◌∷◌, ◌++◌, map, Text, text_mem, is_empty, trim,
  All, Bool-cases, inl, inr,
}
use birthday_role.Prelude.Results.{ok, ok_or, refuse_if, >>=-eq-ok, refuse_if-eq-ok, ok-inj}
use birthday_role.Models.Json.{Number, Value, string, array, of_items, as_str}
use birthday_role.Models.Condition.{ConditionTarget, ConditionOperator}
use birthday_role.Eval.{filter_map}
use birthday_role.Validator.{
  Place, value_required, string_choices, enum_value, lowered, push_new, chosen, text_items,
  normalize_strings, text_of, string_form, normalize_string,
}

-- A value that a target can hold; a target without a list of values takes any.
abbrev pub Offered : ConditionTarget → Text → Type 0
Offered t s = (is_empty (string_choices t) || text_mem s (string_choices t)) ≡ true

-- The texts that a stored list holds.
pub record IsTextList (t : ConditionTarget) (v : Value) : Type 0 where
  pub texts : List Text
  pub stored : v ≡ array (of_items (map string texts))
  pub filled : is_empty texts ≡ false
  pub offered : All (Offered t) texts

pub filter_map-string : (ss : List Text) → filter_map as_str (map string ss) ≡ ss
filter_map-string [] = refl
filter_map-string (s ∷ ss) = ap (λ r. s ∷ r) (filter_map-string ss)

All-append :
    (t : ConditionTarget) (ss : List Text) (s : Text)
    → All (Offered t) ss
    → Offered t s
    → All (Offered t) (ss ++ s ∷ [])
All-append t [] s h o = (o, tt)
All-append t (x ∷ ss) s h o = (h.0, All-append t ss s h.1 o)

append-filled : (ss : List Text) (s : Text) → is_empty (ss ++ s ∷ []) ≡ false
append-filled [] s = refl
append-filled (x ∷ ss) s = refl

module _ (lower : Text → Text) (number_to_string : Number → Text) where
  pub enum_value-Offered :
      (w : Place) (t : ConditionTarget) (raw s : Text)
      → enum_value lower number_to_string w t raw ≡ ok s
      → Offered t s
  unfolding enum_value
  enum_value-Offered w t raw s e =
      elim (Bool-cases (
        is_empty (string_choices t)
        || text_mem (lowered lower number_to_string t (lower (trim raw))) (string_choices t))) [
          | inl listed ↦ rw (← ok-inj (rw listed at e)) listed
          | inr other ↦ cc (rw other at e)
        ]

  push_new-Offered :
      (t : ConditionTarget) (out : List Text) (c : Text)
      → All (Offered t) out
      → Offered t c
      → All (Offered t) (push_new lower number_to_string out c)
  push_new-Offered t out c h o = elim (Bool-cases (text_mem c out)) [
    | inl old ↦ rw old h
    | inr new ↦ rw new (All-append t out c h o)
  ]

  push_new-filled :
      (out : List Text) (c : Text) → is_empty (push_new lower number_to_string out c) ≡ false
  push_new-filled [] c = refl
  push_new-filled (x ∷ out) c = elim (Bool-cases (text_mem c (x ∷ out))) [
    | inl old ↦ rw old refl
    | inr new ↦ rw new (append-filled (x ∷ out) c)
  ]

  chosen-Offered :
      (w : Place) (t : ConditionTarget) (vs : List Value) (out : List Text) (r : List Text)
      → All (Offered t) out
      → chosen lower number_to_string w t out vs ≡ ok r
      → All (Offered t) r
  unfolding chosen
  chosen-Offered w t [] out r h e = rw (← ok-inj e) h
  chosen-Offered w t (v ∷ vs) out r h e =
      let (s, _, more) = >>=-eq-ok (ok_or _ (as_str v)) _ r e in
      let (c, valid, rest) = >>=-eq-ok (enum_value lower number_to_string w t s) _ r more in
      chosen-Offered w t vs (push_new lower number_to_string out c) r
        (push_new-Offered t out c h (enum_value-Offered w t s c valid)) rest

  chosen-kept :
      (w : Place) (t : ConditionTarget) (vs : List Value) (out : List Text) (r : List Text)
      → is_empty out ≡ false
      → chosen lower number_to_string w t out vs ≡ ok r
      → is_empty r ≡ false
  unfolding chosen
  chosen-kept w t [] out r h e = rw (← ok-inj e) h
  chosen-kept w t (v ∷ vs) out r h e =
      let (s, _, more) = >>=-eq-ok (ok_or _ (as_str v)) _ r e in
      let (c, _, rest) = >>=-eq-ok (enum_value lower number_to_string w t s) _ r more in
      chosen-kept w t vs (push_new lower number_to_string out c) r (push_new-filled out c) rest

  chosen-filled :
      (w : Place) (t : ConditionTarget) (vs : List Value) (r : List Text)
      → is_empty vs ≡ false
      → chosen lower number_to_string w t [] vs ≡ ok r
      → is_empty r ≡ false
  unfolding chosen
  chosen-filled w t [] r h e = cc
  chosen-filled w t (v ∷ vs) r h e =
      let (s, _, more) = >>=-eq-ok (ok_or _ (as_str v)) _ r e in
      let (c, _, rest) = >>=-eq-ok (enum_value lower number_to_string w t s) _ r more in
      chosen-kept w t vs (push_new lower number_to_string [] c) r (push_new-filled [] c) rest

  pub normalize_strings-IsTextList :
      (w : Place) (t : ConditionTarget) (raw v : Value)
      → normalize_strings lower number_to_string w t raw ≡ ok v
      → IsTextList t v
  unfolding normalize_strings
  normalize_strings-IsTextList w t raw v e =
      let vs = text_items lower number_to_string raw in
      let (u, some_item, rest) = >>=-eq-ok (refuse_if (is_empty vs) _) _ v e in
      let (r, found, made) = >>=-eq-ok (chosen lower number_to_string w t [] vs) _ v rest in
      record {
        texts = r;
        stored = sym (ok-inj made);
        filled = chosen-filled w t vs r (refuse_if-eq-ok (is_empty vs) _ u some_item) found;
        offered = chosen-Offered w t vs [] r tt found;
      }

  pub normalize_string-string :
      (w : Place) (t : ConditionTarget) (o : ConditionOperator) (raw v : Value)
      → normalize_string lower number_to_string w t o raw ≡ ok v
      → (r : Text) × (string_form lower number_to_string w t o (text_of lower number_to_string raw)
          ≡ ok r)
        × (v ≡ string r)
  unfolding normalize_string
  normalize_string-string w t o raw v e =
      let raw_text = text_of lower number_to_string raw in
      let (_, _, rest) =
        >>=-eq-ok (refuse_if (is_empty (trim raw_text)) (value_required w)) _ v e in
      let (r, found, made) =
        >>=-eq-ok (string_form lower number_to_string w t o raw_text) _ v rest in
      (r, found, sym (ok-inj made))
