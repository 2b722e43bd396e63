-- ===== src/Routes/Offered.antt =====
-- src/routes/admin.rs with src/services/rule_validator.rs: what the editor offers is accepted.
use birthday_role.Prelude.{
  ℕ, ◌≡◌, refl, ◌∙◌, Bool, true, false, not, ◌&&◌, Option, none, List, [], ◌∷◌, All, all, Text,
  codes, text_eq, text_mem, text_eq_sound, is_empty, ltb, trim, to_ascii_lowercase, if◌then◌else◌,
  Bool-cases, inl, inr,
}
use birthday_role.Prelude.Results.{ok}
use birthday_role.Models.Json.{Number, string}
use birthday_role.Models.Condition.{
  ConditionTarget, ConditionOperator, string, eq, neq, zodiac_sign, chinese_zodiac, birth_season,
  birthstone, birth_weekday, target_as_str, operator_as_str, kind, valid_for, target_from_key,
  operator_from_key,
}
use birthday_role.Validator.{
  Place, place, string_choices, lowered, enum_value, string_form, normalize_string, normalize_as,
  normalize_value,
}
use birthday_role.Validator.Rules.{ConditionInput, normalize_end, validate_condition}
use birthday_role.Birthday.{zodiac_signs, chinese_zodiacs, seasons, birthstones, weekdays}
use birthday_role.Routes.Catalog.{target_catalog, value_options}

-- The choices of the picker that a target's entry names; those of no picker are none.
abbrev pub picked : Text → List (Text × List Text) → List Text
picked key [] = []
picked key ((k, choices) ∷ rest) =
    let others = picked key rest in if text_eq k key then choices else others

abbrev pub asked : Text → ConditionOperator → Text → ConditionInput
asked key o choice = record {
  target = key;
  operator = operator_as_str o;
  value = string choice;
  value_end = none;
}

-- In normal form already, for any `to_lowercase` that goes by ASCII on ASCII.
abbrev is_listed : ConditionTarget → Text → Bool
is_listed t c = not (text_eq c (codes "fall")) && text_mem c (string_choices t)

abbrev is_value : ConditionTarget → Text → Bool
is_value t c = not (is_empty c) && is_listed t c

abbrev is_low : Text → Bool
is_low c = text_eq (to_ascii_lowercase c) c && all (λ x. ltb x 128) c

abbrev is_plain : ConditionTarget → Text → Bool
is_plain t c = text_eq (trim c) c && (is_low c && is_value t c)

and_true : (a b : Bool) → (a && b) ≡ true → (a ≡ true) × (b ≡ true)
and_true true b h = (refl, h)
and_true false b h = cc

not-eq-true : (a : Bool) → not a ≡ true → a ≡ false
not-eq-true true h = cc
not-eq-true false h = refl

module _ (compile : Text → Option (Text → Bool)) (lower : Text → Text)
    (number_to_string : Number → Text)
    (ascii : (s : Text) → all (λ x. ltb x 128) s ≡ true → lower s ≡ to_ascii_lowercase s) where
  -- The condition that the entry, `equals` or `not equals`, and the choice make is accepted as it is.
  abbrev pub IsAccepted : Text → ConditionOperator → Text → Type 0
  IsAccepted key o choice =
      (t : ConditionTarget) × (key ≡ target_as_str t)
      × ((group_num cond_num : ℕ)
          → validate_condition compile lower number_to_string group_num cond_num
              (asked key o choice)
            ≡ ok (record { target = t; operator = o; value = string choice; value_end = none }))

  lowered_same :
      (t : ConditionTarget) (c : Text)
      → text_eq c (codes "fall") ≡ false
      → lowered lower number_to_string t c ≡ c
  lowered_same birth_season c h = rw h refl
  lowered_same _ c h = refl

  normalize_string-plain :
      (t : ConditionTarget) (c : Text)
      → is_plain t c ≡ true
      → (w : Place)
      → (normalize_string lower number_to_string w t eq (string c) ≡ ok (string c))
        × (normalize_string lower number_to_string w t neq (string c) ≡ ok (string c))
  unfolding normalize_string string_form enum_value
  normalize_string-plain t c h w =
      let (a, h1) = and_true (text_eq (trim c) c) (is_low c && is_value t c) h in
      let (h2, h3) = and_true (is_low c) (is_value t c) h1 in
      let (b, d) = and_true (text_eq (to_ascii_lowercase c) c) (all (λ x. ltb x 128) c) h2 in
      let (e, h4) = and_true (not (is_empty c)) (is_listed t c) h3 in
      let (f, g) = and_true (not (text_eq c (codes "fall"))) (text_mem c (string_choices t)) h4 in
      let trimmed = text_eq_sound (trim c) c a in
      let low = ascii c d ∙ text_eq_sound (to_ascii_lowercase c) c b in
      let same = lowered_same t c (not-eq-true _ f) in
      elim (Bool-cases (is_empty (string_choices t))) [
        | inl free ↦ (
          rw (trimmed, not-eq-true _ e, low, same, free) refl,
          rw (trimmed, not-eq-true _ e, low, same, free) refl,
        )
        | inr listed ↦ (
          rw (trimmed, not-eq-true _ e, low, same, listed, g) refl,
          rw (trimmed, not-eq-true _ e, low, same, listed, g) refl,
        )
      ]

  -- The two conditions with a choice, of a target that names a picker.
  abbrev IsOffer : ConditionTarget → Text → Type 0
  IsOffer t c = IsAccepted (target_as_str t) eq c × IsAccepted (target_as_str t) neq c

  offer : (t : ConditionTarget) (c : Text) → is_plain t c ≡ true → kind t ≡ string → IsOffer t c
  unfolding target_as_str kind validate_condition normalize_value normalize_as normalize_end
      target_from_key operator_from_key operator_as_str valid_for trim
  offer zodiac_sign c h k =
      let p = normalize_string-plain zodiac_sign c h in
      (
        (zodiac_sign, refl, λ g i. rw ((p (place g i)).0) refl),
        (zodiac_sign, refl, λ g i. rw ((p (place g i)).1) refl),
      )
  offer chinese_zodiac c h k =
      let p = normalize_string-plain chinese_zodiac c h in
      (
        (chinese_zodiac, refl, λ g i. rw ((p (place g i)).0) refl),
        (chinese_zodiac, refl, λ g i. rw ((p (place g i)).1) refl),
      )
  offer birth_season c h k =
      let p = normalize_string-plain birth_season c h in
      (
        (birth_season, refl, λ g i. rw ((p (place g i)).0) refl),
        (birth_season, refl, λ g i. rw ((p (place g i)).1) refl),
      )
  offer birthstone c h k =
      let p = normalize_string-plain birthstone c h in
      (
        (birthstone, refl, λ g i. rw ((p (place g i)).0) refl),
        (birthstone, refl, λ g i. rw ((p (place g i)).1) refl),
      )
  offer birth_weekday c h k =
      let p = normalize_string-plain birth_weekday c h in
      (
        (birth_weekday, refl, λ g i. rw ((p (place g i)).0) refl),
        (birth_weekday, refl, λ g i. rw ((p (place g i)).1) refl),
      )
  offer _ c h k = cc

  All-IsOffer :
      (t : ConditionTarget) (cs : List Text)
      → all (is_plain t) cs ≡ true
      → kind t ≡ string
      → All (IsOffer t) cs
  All-IsOffer t [] h k = tt
  All-IsOffer t (c ∷ cs) h k =
      let (a, b) = and_true (is_plain t c) (all (is_plain t) cs) h in
      (offer t c a k, All-IsOffer t cs b k)

  -- Every value in the picker of a target makes, with `equals` and with `not equals`, a condition that
  -- the validator accepts as it is, for that target. Lower case goes by ASCII on ASCII texts.
  pub target_catalog-IsAccepted :
      All
        (λ e.
          All
            (λ c. IsAccepted e.key eq c × IsAccepted e.key neq c)
            (picked e.options_key value_options))
        target_catalog
  unfolding target_catalog value_options string_choices kind trim target_as_str
  target_catalog-IsAccepted = (
    tt,
    (
      tt,
      (
        tt,
        (
          tt,
          (
            tt,
            (
              tt,
              (
                tt,
                (
                  tt,
                  (
                    tt,
                    (
                      tt,
                      (
                        tt,
                        (
                          All-IsOffer zodiac_sign zodiac_signs refl refl,
                          (
                            All-IsOffer chinese_zodiac chinese_zodiacs refl refl,
                            (
                              All-IsOffer birth_season seasons refl refl,
                              (
                                All-IsOffer birthstone birthstones refl refl,
                                (All-IsOffer birth_weekday weekdays refl refl, tt),
                              ),
                            ),
                          ),
                        ),
                      ),
                    ),
                  ),
                ),
              ),
            ),
          ),
        ),
      ),
    ),
  )
