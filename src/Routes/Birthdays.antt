-- ===== src/Routes/Birthdays.antt =====
-- src/routes/verify.rs: what saving and removing a birthday do.
use birthday_role.Prelude.{
  ℕ, Bool, false, not, Bool-cases, ◌≡◌, ◌≢◌, refl, ap, inl, inr, arith, Option, none, some, List,
  [], ◌∷◌, any, All, Text, text_eq,
}
use birthday_role.Prelude.Int.{ℤ, pos, negsuc, ◌≤ℤ◌}
use birthday_role.Prelude.Results.{ok, err}
use birthday_role.Calendar.{Calendar, IsGregorian}
use birthday_role.Birthday.{compute_derived}
use birthday_role.Birthday.Facts.{Zones}
use birthday_role.Birthday.Dates.{IsBirthday, validate_date-IsBirthday}
use birthday_role.Birthday.Resolve.{IsBirthYear, compute_derived_total}
use birthday_role.Birthday.Input
use birthday_role.Birthday.Input.{Checked, DateError, validate_date, normalize_tz}
use birthday_role.Jobs.{enqueue_player_sync}
use birthday_role.Sync.{Member, filter}
use birthday_role.Origin.{verify_origin}
use birthday_role.Access.{AppState, Caller, read_session}
use birthday_role.Routes.{Store, panicked}
use birthday_role.Routes.Verify.{
  SaveBody, is_row, upsert_member, find_row, date_outcome, row_of, verify_save, verify_unlink,
}
use birthday_role.Routes.Rows.{
  find_row-upsert, find_row-others, date_outcome-eq-ok, checked_date, IsRowOf, row_of-IsRowOf,
}
use birthday_role.Routes.Steps.{
  attempt-eq-ok, computed-eq-ok, attempt-Holds, computed-Holds, require-Holds, attempt-Returns,
  computed-Returns,
}

module _ (c : Calendar) (z : Zones (c.Date)) (this_year : ℤ) (message : DateError → Text)
    (now : ℕ) where
  -- A save that succeeds came from an allowed origin with a live session; its date is valid; the row of
  -- the account has this date, the choice to show the year, the name of the zone, or UTC where what was
  -- sent names none, and the facts derived of its own date. The rows of the other accounts and the role links stay as they are, and
  -- a sync of the member is queued.
  pub verify_save-IsStored :
      (state : AppState) (caller : Caller) (body : SaveBody) (store store' : Store)
      → body.day ≤ℤ pos 2147483647
      → verify_save c z this_year message now state caller body store ≡ (ok tt, store')
      → (discord_id discord_name : Text) × (row : Member) × (verify_origin caller.headers
            state.allowed_origins
          ≡ ok tt)
        × (read_session state caller ≡ ok (discord_id, discord_name))
        × (validate_date this_year body.month body.day body.year ≡ Input.ok)
        × (find_row discord_id store'.world.members ≡ some row)
        × IsRowOf c z this_year message now discord_id discord_name body row
        × ((id : Text)
            → text_eq discord_id id ≡ false
            → find_row id store'.world.members ≡ find_row id store.world.members)
        × (store'.world.links ≡ store.world.links)
        × (store'.queue ≡ enqueue_player_sync now discord_id store.queue)
  unfolding verify_save
  verify_save-IsStored state caller body store store' fits e =
      let (u, origin, e1) =
        attempt-eq-ok (verify_origin caller.headers state.allowed_origins) _ store store' tt e in
      let ((id, name), session, e2) =
        attempt-eq-ok (read_session state caller) _ store store' tt e1 in
      let (u', valid, e3) =
        attempt-eq-ok (date_outcome message (validate_date this_year body.month body.day body.year))
          _ store store' tt e2 in
      let (derived, made, e4) =
        computed-eq-ok (compute_derived c body.month body.day body.year) _ store store' tt e3 in
      let row = row_of c z this_year message now id name body derived in
      rw (← ap (λ p. p.1) e4) (
        id,
        name,
        row,
        origin,
        session,
        date_outcome-eq-ok message _ valid,
        find_row-upsert row store.world.members,
        row_of-IsRowOf c z this_year message now id name body derived
            (checked_date c z this_year message now body fits valid) made,
        (λ other apart. find_row-others row other store.world.members apart),
        refl,
        refl,
      )

  -- Every row's stored facts are those of its date.
  abbrev pub AreDerived : List Member → Type 0
  AreDerived = All (λ m.
      compute_derived c m.birthday.birth_month m.birthday.birth_day m.birthday.birth_year
      ≡ some m.derived)

  upsert-AreDerived :
      (row : Member) (ms : List Member)
      → compute_derived c row.birthday.birth_month row.birthday.birth_day row.birthday.birth_year
        ≡ some row.derived
      → AreDerived ms
      → AreDerived (upsert_member row ms)
  unfolding upsert_member
  upsert-AreDerived row [] h all = (h, tt)
  upsert-AreDerived row (m ∷ ms) h (first, rest) = elim (Bool-cases (is_row row.discord_id m)) [
    | inl here ↦ rw here (h, rest)
    | inr other ↦ rw other (first, upsert-AreDerived row ms h rest)
  ]

  filter-AreDerived :
      (p : Member → Bool) (ms : List Member) → AreDerived ms → AreDerived (filter p ms)
  filter-AreDerived p [] all = tt
  filter-AreDerived p (m ∷ ms) (first, rest) = elim (Bool-cases (p m)) [
    | inl kept ↦ rw kept (first, filter-AreDerived p ms rest)
    | inr dropped ↦ rw dropped (filter-AreDerived p ms rest)
  ]

  -- If the stored facts of every row are those of its date, they still are after a save and after a
  -- removal, whatever these are given and whether they succeed or not. The day of a save is of 32 bits.
  pub verify_save-AreDerived :
      (state : AppState) (caller : Caller) (body : SaveBody) (store : Store)
      → body.day ≤ℤ pos 2147483647
      → AreDerived store.world.members
      → AreDerived (verify_save c z this_year message now state caller body store).1.world.members
        × AreDerived (verify_unlink c z this_year message now state caller store).1.world.members
  unfolding verify_save verify_unlink
  verify_save-AreDerived state caller body store fits all = (
    attempt-Holds IsKept _ store (verify_origin caller.headers state.allowed_origins) all (λ _ _.
        attempt-Holds IsKept _ store (read_session state caller) all (λ (id, name) _.
          attempt-Holds IsKept _ store
            (date_outcome message (validate_date this_year body.month body.day body.year)) all
            (λ _ valid.
              computed-Holds IsKept _ store (compute_derived c body.month body.day body.year) all
                (λ derived made.
                  upsert-AreDerived (row_of c z this_year message now id name body derived)
                    store.world.members
                    (row_of-IsRowOf c z this_year message now id name body derived
                      (checked_date c z this_year message now body fits valid) made).derived_is
                    all)))),
    attempt-Holds IsKept _ store (verify_origin caller.headers state.allowed_origins) all (λ _ _.
        attempt-Holds IsKept _ store (read_session state caller) all (λ (id, name) _.
          let rest = filter-AreDerived (λ m. not (is_row id m)) store.world.members all in
          require-Holds IsKept _ _ _ (any (is_row id) store.world.members) rest rest)),
  )
    where
      IsKept : Store → Type 0
      IsKept s = AreDerived s.world.members

  year_part : (y : ℤ) → pos 1900 ≤ℤ y → y ≤ℤ pos 9999 → IsBirthYear (some y)
  year_part (pos k) low high = (k, refl, omega arith, omega arith)
  year_part (negsuc k) low high = absurd (omega arith)

  -- The year of a valid birthday is one of the calendar.
  IsBirthday-IsBirthYear :
      (month day : ℤ) (year : Option ℤ)
      → this_year ≤ℤ pos 9999
      → IsBirthday this_year month day year
      → IsBirthYear year
  IsBirthday-IsBirthYear month day none small b = tt
  IsBirthday-IsBirthYear month day (some y) small b =
      let (low, high, fits) = b.year_in in year_part y low (omega arith)

  -- Whatever is submitted, a save never panics: what passes the date check has derived facts. The clock
  -- is before the year 10000, and the day is one of 32 bits.
  pub verify_save_returns :
      IsGregorian c
      → this_year ≤ℤ pos 9999
      → (state : AppState) (caller : Caller) (body : SaveBody) (store : Store)
      → body.day ≤ℤ pos 2147483647
      → (verify_save c z this_year message now state caller body store).0 ≢ err panicked
  unfolding verify_save
  verify_save_returns g small state caller body store fits =
      attempt-Returns _ store (verify_origin caller.headers state.allowed_origins) (λ _ _.
        attempt-Returns _ store (read_session state caller) (λ (id, name) _.
          attempt-Returns _ store
            (date_outcome message (validate_date this_year body.month body.day body.year))
            (λ _ valid.
              let b = (validate_date-IsBirthday this_year body.month body.day body.year fits).0 (
                date_outcome-eq-ok message (validate_date this_year body.month body.day body.year)
                  valid) in
              let (derived, made) =
                compute_derived_total c g body.month body.day body.year
                  (IsBirthday-IsBirthYear body.month body.day body.year small b) in
              computed-Returns _ store (compute_derived c body.month body.day body.year) derived
                made (λ e. cc e))))
