-- ===== src/Birthday/Choices.antt =====
-- src/services/birthday.rs: the derived facts lie in the lists of values that rules may name.
use birthday_role.Prelude.{
  ℕ, zero, suc, ◌≡◌, refl, sym, true, Option, none, some, arith, get_elem?, List, [], ◌∷◌, Text,
  text_mem, Option-cases, inl, inr, ◌∙◌, text_eq_refl,
}
use birthday_role.Prelude.Int.{ℤ, as_u32}
use birthday_role.Prelude.Options.{traverse, >>=-eq-some, some-inj, or_else}
use birthday_role.Calendar.{Calendar, Weekday, mon}
use birthday_role.Birthday.{
  Derived, derived_of, zodiac_signs, chinese_zodiacs, seasons, birthstones, weekdays, zodiac,
  chinese_zodiac, season, birthstone, weekday_name, weekday_of, birth_weekday, compute_derived,
}

-- An optional value is missing or in the list.
abbrev pub InChoices : List Text → Option Text → Type 0
InChoices choices none = Unit
InChoices choices (some t) = text_mem t choices ≡ true

pub record IsOffered (der : Derived) : Type 0 where
  pub zodiac_in : text_mem der.zodiac zodiac_signs ≡ true
  pub chinese_in : InChoices chinese_zodiacs der.chinese_zodiac
  pub season_in : text_mem der.season seasons ≡ true
  pub birthstone_in : text_mem der.birthstone birthstones ≡ true
  pub weekday_in : InChoices weekdays der.birth_weekday

pub zodiac_offered : (m d : ℕ) → text_mem (zodiac m d) zodiac_signs ≡ true
unfolding zodiac
zodiac_offered m d = ground arith

pub season_offered : (m : ℕ) → text_mem (season m) seasons ≡ true
unfolding season
season_offered m = ground arith

pub birthstone_offered : (m : ℕ) → text_mem (birthstone m) birthstones ≡ true
unfolding birthstone
birthstone_offered m = ground arith

pub weekday_offered : (w : Weekday) → text_mem (weekday_of w) weekdays ≡ true
unfolding weekday_of
weekday_offered mon = refl
weekday_offered _ = refl

get_elem?-mem : (ts : List Text) (i : ℕ) (t : Text) → get_elem? ts i ≡ some t → text_mem t ts ≡ true
get_elem?-mem [] i t e = cc
get_elem?-mem (x ∷ xs) zero t e = ground (arith, text_eq_refl x)
get_elem?-mem (x ∷ xs) (suc i) t e = ground (arith, get_elem?-mem xs i t e)

some_inner :
    (b a : Text) → ◌≡◌ {A = Option (Option Text)} (some (some b)) (some (some a)) → some b ≡ some a
some_inner b a e = cc

pub animal_offered :
    (y : ℤ) (a : Text) → chinese_zodiac y ≡ some a → text_mem a chinese_zodiacs ≡ true
unfolding chinese_zodiac
animal_offered y a e = get_elem?-mem chinese_zodiacs _ a e

animals_offered :
    (year : Option ℤ) (a : Option Text)
    → traverse chinese_zodiac year ≡ some a
    → InChoices chinese_zodiacs a
animals_offered year none e = tt
animals_offered none (some a) e = cc
animals_offered (some y) (some a) e = elim (Option-cases (chinese_zodiac y)) [
  | inl missing ↦ cc (rw missing at e)
  | inr (b, found) ↦ animal_offered y a (found ∙ some_inner b a (rw found at e))
]

weekdays_offered :
    (c : Calendar) (m d : ℕ) (year : Option ℤ) (w : Option Text)
    → traverse (birth_weekday c m d) year ≡ some w
    → InChoices weekdays w
unfolding birth_weekday weekday_name
weekdays_offered c m d year none e = tt
weekdays_offered c m d none (some w) e = cc
weekdays_offered c m d (some y) (some w) e =
    let (v, found, same) = >>=-eq-some (birth_weekday c m d y) _ (some w) e in
    let (date, made, named) = >>=-eq-some (or_else (c.from_ymd_opt y m d) _) _ v found in
    rw (sym (some-inj (some-inj same)), sym (some-inj named)) (weekday_offered (c.weekday date))

derived_of-IsOffered :
    (c : Calendar) (m d : ℕ) (year : Option ℤ) (animal w : Option Text)
    → traverse chinese_zodiac year ≡ some animal
    → traverse (birth_weekday c m d) year ≡ some w
    → IsOffered (derived_of m d animal w)
derived_of-IsOffered c m d year animal w ea ew = record {
  zodiac_in = zodiac_offered m d;
  chinese_in = animals_offered year animal ea;
  season_in = season_offered m;
  birthstone_in = birthstone_offered m;
  weekday_in = weekdays_offered c m d year w ew;
}

-- Whatever birthday `compute_derived` is given, the facts that it stores are values that the rule
-- builder offers.
pub compute_derived-IsOffered :
    (c : Calendar) (month day : ℤ) (year : Option ℤ) (der : Derived)
    → compute_derived c month day year ≡ some der
    → IsOffered der
unfolding compute_derived
compute_derived-IsOffered c month day year der e =
    let (animal, ea, rest) = >>=-eq-some (traverse chinese_zodiac year) _ der e in
    let (w, ew, made) =
      >>=-eq-some (traverse (birth_weekday c (as_u32 month) (as_u32 day)) year) _ der rest in
    rw (sym (some-inj made))
      (derived_of-IsOffered c (as_u32 month) (as_u32 day) year animal w ea ew)
