-- ===== src/Routes/Rows.antt =====
-- src/routes/verify.rs: the row that a save stores.
use birthday_role.Prelude.{
  ℕ, false, Bool-cases, ◌≡◌, refl, inl, inr, arith, Option, none, some, List, [], ◌∷◌, Text, codes,
  text_eq, text_eq_sound, text_eq_refl, true, ◌⊎◌, ◌<◌, trim, is_empty, Option-cases,
}
use birthday_role.Prelude.Int.{ℤ, pos, ◌≤ℤ◌, as_i16, as_i16_small}
use birthday_role.Prelude.Results.{ok}
use birthday_role.Calendar.{Calendar, month_length}
use birthday_role.Birthday.{Derived, compute_derived}
use birthday_role.Birthday.Facts.{Zones}
use birthday_role.Birthday.Dates.{IsBirthday, IsRecurring, validate_date-IsBirthday}
use birthday_role.Birthday.Input
use birthday_role.Birthday.Input.{Checked, DateError, validate_date, normalize_tz}
use birthday_role.Sync.{Member}
use birthday_role.Routes.Verify.{SaveBody, is_row, upsert_member, find_row, date_outcome, row_of}

pub find_row-upsert :
    (row : Member) (ms : List Member) → find_row row.discord_id (upsert_member row ms) ≡ some row
unfolding upsert_member
find_row-upsert row [] = rw (text_eq_refl row.discord_id) refl
find_row-upsert row (m ∷ ms) = elim (Bool-cases (is_row row.discord_id m)) [
  | inl here ↦ rw (here, text_eq_refl row.discord_id) refl
  | inr other ↦ rw (other, other) (find_row-upsert row ms)
]

pub find_row-others :
    (row : Member) (id : Text) (ms : List Member)
    → text_eq row.discord_id id ≡ false
    → find_row id (upsert_member row ms) ≡ find_row id ms
unfolding upsert_member
find_row-others row id [] h = rw h refl
find_row-others row id (m ∷ ms) h = elim (Bool-cases (is_row row.discord_id m)) [
  | inl here ↦
      let same = text_eq_sound m.discord_id row.discord_id here in
      let apart : text_eq m.discord_id id ≡ false = rw same h in rw (here, h, apart) refl
  | inr other ↦ rw (other, find_row-others row id ms h) refl
]

pub date_outcome-eq-ok :
    (message : DateError → Text) (r : Checked) → date_outcome message r ≡ ok tt → r ≡ Input.ok
date_outcome-eq-ok message Input.ok e = refl
date_outcome-eq-ok message (Input.err x) e = cc

short_month : (m d : ℕ) → IsRecurring m d → d < 32768
unfolding month_length
short_month m d r = ground (arith, r.day_in)

module _ (c : Calendar) (z : Zones (c.Date)) (this_year : ℤ) (message : DateError → Text)
    (now : ℕ) where
  pub checked_date :
      (body : SaveBody)
      → body.day ≤ℤ pos 2147483647
      → date_outcome message (validate_date this_year body.month body.day body.year) ≡ ok tt
      → IsBirthday this_year body.month body.day body.year
  checked_date body fits e =
      (validate_date-IsBirthday this_year body.month body.day body.year fits).0
        (date_outcome-eq-ok message (validate_date this_year body.month body.day body.year) e)

  -- The columns are wide enough for the date.
  kept_date :
      (month day : ℤ) (year : Option ℤ)
      → IsBirthday this_year month day year
      → (as_i16 month ≡ month) × (as_i16 day ≡ day)
  kept_date month day year b = (
    rw b.month_is (as_i16_small b.m (omega (arith, b.recurs.month_in))),
    rw b.day_is (as_i16_small b.d (short_month b.m b.d b.recurs)),
  )

  -- The zone that is asked for is stored by its name, and UTC for text that names none.
  abbrev pub IsZone : Text → Text → Type 0
  IsZone asked stored =
      ((zone : z.Tz) × (z.parse (trim asked) ≡ some zone) × (stored ≡ z.name zone))
      ⊎ ((stored ≡ codes "UTC") × ((is_empty (trim asked) ≡ true) ⊎ (z.parse (trim asked) ≡ none)))

  normalize_tz-IsZone : (asked : Text) → IsZone asked (normalize_tz z asked)
  unfolding normalize_tz
  normalize_tz-IsZone asked = elim (Bool-cases (is_empty (trim asked))) [
    | inl blank ↦ rw blank (inr (refl, inl refl))
    | inr filled ↦ elim (Option-cases (z.parse (trim asked))) [
      | inl unknown ↦ rw (filled, unknown) (inr (refl, inr refl))
      | inr (zone, known) ↦ rw (filled, known) (inl (zone, refl, refl))
    ]
  ]

  -- What is stored of a submission: its own date, choice and zone, and UTC where it names no zone.
  pub record IsRowOf (discord_id discord_name : Text) (body : SaveBody) (row : Member)
      : Type 0 where
    pub id_is : row.discord_id ≡ discord_id
    pub name_is : row.discord_name ≡ some discord_name
    pub month_is : row.birthday.birth_month ≡ body.month
    pub day_is : row.birthday.birth_day ≡ body.day
    pub year_is : row.birthday.birth_year ≡ body.year
    pub zone_is : (asked : Text) → body.tz ≡ some asked → IsZone asked row.birthday.tz
    pub no_zone_is : body.tz ≡ none → IsZone (codes "UTC") row.birthday.tz
    pub show_year_is : row.show_year ≡ body.show_year
    pub derived_is :
        compute_derived c row.birthday.birth_month row.birthday.birth_day row.birthday.birth_year
        ≡ some row.derived

  pub row_of-IsRowOf :
      (discord_id discord_name : Text) (body : SaveBody) (derived : Derived)
      → IsBirthday this_year body.month body.day body.year
      → compute_derived c body.month body.day body.year ≡ some derived
      → IsRowOf discord_id discord_name body
          (row_of c z this_year message now discord_id discord_name body derived)
  row_of-IsRowOf discord_id discord_name body derived b made =
      let (month, day) = kept_date body.month body.day body.year b in
      record {
        id_is = refl;
        name_is = refl;
        month_is = month;
        day_is = day;
        year_is = refl;
        zone_is = λ asked e. rw e (normalize_tz-IsZone asked);
        no_zone_is = λ e. rw e (normalize_tz-IsZone (codes "UTC"));
        show_year_is = refl;
        derived_is = rw (month, day) made;
      }
