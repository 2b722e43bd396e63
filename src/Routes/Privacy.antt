-- ===== src/Routes/Privacy.antt =====
-- src/routes/users.rs: who sees the list of birthdays, and what it tells of the year.
use birthday_role.Prelude.{
  true, false, ◌≡◌, refl, sym, ap, ◌∙◌, Option, none, some, Text, codes, text_eq,
}
use birthday_role.Prelude.Int.{ℤ, pos, eq_ℤ, as_u32}
use birthday_role.Prelude.Options.{>>=-eq-some, some-inj}
use birthday_role.Calendar.{Calendar}
use birthday_role.Models.Facts.{Facts}
use birthday_role.Birthday.{BirthdayInput, compute_derived, effective_bday}
use birthday_role.Birthday.Facts.{Zones, compute_facts, next_bday, local_today}
use birthday_role.Sync.{Member}
use birthday_role.Access.{GuildPermission}
use birthday_role.Routes.UserList.{entry_of}

-- The same birthday, in two years or none.
abbrev pub with_year : Member → Option ℤ → Member
with_year r year = record {
  discord_id = r.discord_id;
  discord_name = r.discord_name;
  birthday = record {
    birth_month = r.birthday.birth_month;
    birth_day = r.birthday.birth_day;
    birth_year = year;
    tz = r.birthday.tz;
  };
  show_year = r.show_year;
  derived = r.derived;
}

module _ (c : Calendar) (z : Zones (c.Date)) where
  -- The days until the birthday do not depend on its year.
  compute_facts-days :
      (input : BirthdayInput) (f : Facts)
      → compute_facts c z input ≡ some f
      → (next : c.Date) × (next_bday c
            (local_today z input.tz)
            (as_u32 input.birth_month)
            (as_u32 input.birth_day)
          ≡ some next)
        × (f.days_until ≡ c.days_between next (local_today z input.tz))
        × (f.is_today ≡ eq_ℤ f.days_until (pos 0))
  unfolding compute_facts
  compute_facts-days input f e =
      let today = local_today z input.tz in
      let m = as_u32 input.birth_month in
      let d = as_u32 input.birth_day in
      let (eff, e0, e1) = >>=-eq-some (effective_bday c (c.year today) m d) _ f e in
      let (next, e2, e3) = >>=-eq-some (next_bday c today m d) _ f e1 in
      let (der, e4, made) =
        >>=-eq-some (compute_derived c input.birth_month input.birth_day input.birth_year) _ f e3 in
      (next, e2, rw (← some-inj made) refl, rw (← some-inj made) refl)

  -- The entry of a member who does not show the year is the same whatever the year is, but for the
  -- stored facts that were derived of it: two rows that differ in the year alone have one entry.
  pub entry_of-year :
      (r : Member) (year : Option ℤ) (f f' : Facts)
      → r.show_year ≡ false
      → compute_facts c z r.birthday ≡ some f
      → compute_facts c z (with_year r year).birthday ≡ some f'
      → entry_of r f ≡ entry_of (with_year r year) f'
  unfolding entry_of
  entry_of-year r year f f' hidden e e' =
      let (next, here, days, today) = compute_facts-days r.birthday f e in
      let (next', here', days', today') = compute_facts-days (with_year r year).birthday f' e' in
      let same_next = some-inj (sym here ∙ here') in
      let same_days =
        days ∙ ap (λ n. c.days_between n (local_today z r.birthday.tz)) same_next ∙ sym days' in
      let same_today = today ∙ ap (λ n. eq_ℤ n (pos 0)) same_days ∙ sym today' in
      rw (hidden, same_days, same_today) refl

  -- What a viewer must be for a server's choice of who may see its list.
  abbrev pub MayView : Text → GuildPermission → Type 0
  MayView view_permission perm =
      (text_eq view_permission (codes "disabled") ≡ false)
      × (perm.is_member ≡ true)
      × (text_eq view_permission (codes "managers") ≡ true → perm.is_manager ≡ true)

  -- What a viewer must be, by what the server has said, if anything.
  abbrev pub IsViewer : Option Text → GuildPermission → Type 0
  IsViewer none perm = (perm.is_member ≡ true) × (perm.is_manager ≡ true)
  IsViewer (some view_permission) perm = MayView view_permission perm
