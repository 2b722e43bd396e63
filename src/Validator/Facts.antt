-- ===== src/Validator/Facts.antt =====
-- src/services/rule_validator.rs, `string_choices`, against src/services/birthday.rs: the values that a
-- rule may name and those that the facts have.
use birthday_role.Prelude.{
  ℕ, ◌≤◌, ◌≡◌, refl, true, inl, inr, Bool-cases, some, List, [], ◌∷◌, All, Text, text_eq,
  text_eq_sound, text_mem, arith,
}
use birthday_role.Calendar.{Weekday, mon, tue, wed, thu, fri, sat, sun, month_length}
use birthday_role.Models.Condition.{
  ConditionTarget, zodiac_sign, chinese_zodiac, birth_season, birthstone, birth_weekday,
}
use birthday_role.Prelude.Int.{pos, ◌-ℤ◌, ◌+ℤ◌}
use birthday_role.Birthday
use birthday_role.Birthday.{
  zodiac_signs, chinese_zodiacs, seasons, birthstones, weekdays, zodiac, season, weekday_of,
}
use birthday_role.Birthday.Dates.{IsRecurring}
use birthday_role.Validator.{string_choices}
use birthday_role.Validator.Texts.{Offered}

-- The value is the fact of some birthday: of a day of a month, of a year, of a month, or of a weekday.
-- A target without a text takes any.
abbrev pub HasFact : ConditionTarget → Text → Type 0
HasFact zodiac_sign s = (m d : ℕ) × IsRecurring m d × (zodiac m d ≡ s)
HasFact chinese_zodiac s =
    (y : ℕ) × (1900 ≤ y) × (y ≤ 2019) × (Birthday.chinese_zodiac (pos y) ≡ some s)
HasFact birth_season s = (m : ℕ) × (1 ≤ m) × (m ≤ 12) × (season m ≡ s)
HasFact birthstone s = (m : ℕ) × (1 ≤ m) × (m ≤ 12) × (Birthday.birthstone m ≡ s)
HasFact birth_weekday s = (w : Weekday) × (weekday_of w ≡ s)
HasFact _ s = Unit

mem-All : (P : Text → Type 0) (s : Text) (cs : List Text) → All P cs → text_mem s cs ≡ true → P s
mem-All P s [] h m = cc
mem-All P s (c ∷ cs) h m = elim (Bool-cases (text_eq s c)) [
  | inl same ↦ rw (text_eq_sound s c same) h.0
  | inr other ↦ mem-All P s cs h.1 (rw other at m)
]

tenth-IsRecurring : (m : ℕ) → 1 ≤ m → m ≤ 12 → IsRecurring m 10
unfolding month_length
tenth-IsRecurring m low high = record {
  month_in = (low, high);
  day_in = (omega arith, ground arith);
}

signs-HasFact : All (HasFact zodiac_sign) zodiac_signs
unfolding zodiac
signs-HasFact = (
  (1, 10, tenth-IsRecurring 1 (omega arith) (omega arith), refl),
  (
    (2, 10, tenth-IsRecurring 2 (omega arith) (omega arith), refl),
    (
      (3, 10, tenth-IsRecurring 3 (omega arith) (omega arith), refl),
      (
        (4, 10, tenth-IsRecurring 4 (omega arith) (omega arith), refl),
        (
          (5, 10, tenth-IsRecurring 5 (omega arith) (omega arith), refl),
          (
            (6, 10, tenth-IsRecurring 6 (omega arith) (omega arith), refl),
            (
              (7, 10, tenth-IsRecurring 7 (omega arith) (omega arith), refl),
              (
                (8, 10, tenth-IsRecurring 8 (omega arith) (omega arith), refl),
                (
                  (9, 10, tenth-IsRecurring 9 (omega arith) (omega arith), refl),
                  (
                    (10, 10, tenth-IsRecurring 10 (omega arith) (omega arith), refl),
                    (
                      (11, 10, tenth-IsRecurring 11 (omega arith) (omega arith), refl),
                      ((12, 10, tenth-IsRecurring 12 (omega arith) (omega arith), refl), tt),
                    ),
                  ),
                ),
              ),
            ),
          ),
        ),
      ),
    ),
  ),
)

animals-HasFact : All (HasFact chinese_zodiac) chinese_zodiacs
unfolding Birthday.chinese_zodiac ◌-ℤ◌ ◌+ℤ◌
animals-HasFact = (
  (2008, omega arith, omega arith, refl),
  (
    (2009, omega arith, omega arith, refl),
    (
      (2010, omega arith, omega arith, refl),
      (
        (2011, omega arith, omega arith, refl),
        (
          (2012, omega arith, omega arith, refl),
          (
            (2013, omega arith, omega arith, refl),
            (
              (2014, omega arith, omega arith, refl),
              (
                (2015, omega arith, omega arith, refl),
                (
                  (2016, omega arith, omega arith, refl),
                  (
                    (2017, omega arith, omega arith, refl),
                    (
                      (2018, omega arith, omega arith, refl),
                      ((2019, omega arith, omega arith, refl), tt),
                    ),
                  ),
                ),
              ),
            ),
          ),
        ),
      ),
    ),
  ),
)

seasons-HasFact : All (HasFact birth_season) seasons
unfolding season
seasons-HasFact = (
  (1, omega arith, omega arith, refl),
  (
    (3, omega arith, omega arith, refl),
    ((6, omega arith, omega arith, refl), ((9, omega arith, omega arith, refl), tt)),
  ),
)

stones-HasFact : All (HasFact birthstone) birthstones
unfolding Birthday.birthstone
stones-HasFact = (
  (1, omega arith, omega arith, refl),
  (
    (2, omega arith, omega arith, refl),
    (
      (3, omega arith, omega arith, refl),
      (
        (4, omega arith, omega arith, refl),
        (
          (5, omega arith, omega arith, refl),
          (
            (6, omega arith, omega arith, refl),
            (
              (7, omega arith, omega arith, refl),
              (
                (8, omega arith, omega arith, refl),
                (
                  (9, omega arith, omega arith, refl),
                  (
                    (10, omega arith, omega arith, refl),
                    (
                      (11, omega arith, omega arith, refl),
                      ((12, omega arith, omega arith, refl), tt),
                    ),
                  ),
                ),
              ),
            ),
          ),
        ),
      ),
    ),
  ),
)

weekdays-HasFact : All (HasFact birth_weekday) weekdays
unfolding weekday_of
weekdays-HasFact = (
  (mon, refl),
  ((tue, refl), ((wed, refl), ((thu, refl), ((fri, refl), ((sat, refl), ((sun, refl), tt)))))),
)

-- Whatever a rule may name is a fact of some birthday.
pub Offered-HasFact : (t : ConditionTarget) (s : Text) → Offered t s → HasFact t s
unfolding string_choices
Offered-HasFact zodiac_sign s h = mem-All (HasFact zodiac_sign) s zodiac_signs signs-HasFact h
Offered-HasFact chinese_zodiac s h =
    mem-All (HasFact chinese_zodiac) s chinese_zodiacs animals-HasFact h
Offered-HasFact birth_season s h = mem-All (HasFact birth_season) s seasons seasons-HasFact h
Offered-HasFact birthstone s h = mem-All (HasFact birthstone) s birthstones stones-HasFact h
Offered-HasFact birth_weekday s h = mem-All (HasFact birth_weekday) s weekdays weekdays-HasFact h
Offered-HasFact _ s h = tt
